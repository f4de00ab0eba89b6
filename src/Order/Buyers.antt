-- ===== src/Order/Buyers.antt =====
-- src/order/gateway/order-user-events.gateway.ts with src/order/command-handler/order-buyer-register.command-handler.ts: a
-- buyer for each user that is created.
use marketplace_api_v.Common.{
  Bool, true, false, not, ◌&&◌, ◌||◌, Option, none, some, [], ◌∷◌, ◌++◌, ◌==◌, if◌then◌else◌, any,
}
use marketplace_api_v.Messaging.{Value, undefined, UuidText, is_text, uuid_of}
use marketplace_api_v.UserCreated.{
  UserCreated, user_created_type, EventOutcome, ignored, rejected, skipped, handled,
  is_valid_user_created, has_valid_identity, user_id_of, identity_of,
}
use marketplace_api_v.Order.Store.{OrderBuyer, OrderDb}

-- The primary key and the unique user: `orIgnore` passes over a row that either refuses.
abbrev pub same_buyer : OrderBuyer → OrderBuyer → Bool
same_buyer b c = (c.identity_public_id == b.identity_public_id) || (c.user_id == b.user_id)

-- `createIfAbsent`
unfoldable pub create_buyer_if_absent : OrderBuyer → OrderDb → Bool × OrderDb
create_buyer_if_absent b db =
    if any (same_buyer b) db.buyers
    then (false, db)
    else (true, record db { buyers = db.buyers ++ b ∷ [] })

-- `OrderBuyerRegisterCommandHandler.execute`
unfoldable pub register_buyer : OrderBuyer → OrderDb → Bool × OrderDb
unfolding create_buyer_if_absent
register_buyer b db = create_buyer_if_absent b db

abbrev pub is_absent : Value → Bool
is_absent undefined = true
is_absent _ = false

module _ (uuids : UuidText) where
  -- The checked event behind the schema.
  abbrev pub register_user : UserCreated → OrderDb → EventOutcome × OrderDb
  register_user m db =
      if is_absent (identity_of m.payload)
      then (skipped, db)
      else let (registered, after) =
          register_buyer
            (record {
              identity_public_id = uuid_of uuids (identity_of m.payload);
              user_id = user_id_of m.payload;
            })
            db in
        (handled registered, after)

  -- `handle`; `none` is a message that is `null`.
  unfoldable pub handle_user_created : Option UserCreated → OrderDb → EventOutcome × OrderDb
  handle_user_created none db = (ignored, db)
  handle_user_created (some m) db =
      if not (is_text user_created_type m.type)
      then (ignored, db)
      else if not (is_valid_user_created uuids m && has_valid_identity uuids m.payload)
      then (rejected, db)
      else register_user m db
