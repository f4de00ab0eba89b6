-- ===== src/Order/Registered.antt =====
-- A buyer that is registered stays (src/order/gateway/order-user-events.gateway.ts).
use marketplace_api_v.Common.{
  ℕ, ◌≡◌, refl, true, ◌&&◌, Option, none, some, List, [], ◌∷◌, ◌++◌, arith, ◌==◌, ==_refl, any,
  Bool-cases, inl, inr,
}
use marketplace_api_v.Messaging.{UuidText, is_text, uuid_of}
use marketplace_api_v.UserCreated.{
  UserCreated, user_created_type, is_valid_user_created, has_valid_identity, user_id_of,
  identity_of,
}
use marketplace_api_v.Order.Store.{OrderBuyer, OrderDb}
use marketplace_api_v.Order.Place.{find_buyer}
use marketplace_api_v.Order.Buyers.{
  same_buyer, create_buyer_if_absent, register_buyer, is_absent, handle_user_created,
}

find_buyer-append :
    (identity : ℕ) (bs cs : List OrderBuyer) (b : OrderBuyer)
    → find_buyer identity bs ≡ some b
    → find_buyer identity (bs ++ cs) ≡ some b
unfolding find_buyer
find_buyer-append identity [] cs b h = cc
find_buyer-append identity (x ∷ bs) cs b h = elim (Bool-cases (x.identity_public_id == identity)) [
  | inl same ↦ rw (find_buyer, same) (rw (find_buyer, same) at h)
  | inr other ↦
      rw (find_buyer, other) (find_buyer-append identity bs cs b (rw (find_buyer, other) at h))
]

any-same_buyer : (b : OrderBuyer) (bs : List OrderBuyer) → any (same_buyer b) (bs ++ b ∷ []) ≡ true
any-same_buyer b [] = rw (==_refl b.identity_public_id) refl
any-same_buyer b (x ∷ bs) = rw (any-same_buyer b bs) (ground arith)

register_buyer-find :
    (b c : OrderBuyer) (identity : ℕ) (db : OrderDb)
    → find_buyer identity db.buyers ≡ some c
    → find_buyer identity (register_buyer b db).1.buyers ≡ some c
unfolding register_buyer create_buyer_if_absent
register_buyer-find b c identity db h = elim (Bool-cases (any (same_buyer b) db.buyers)) [
  | inl taken ↦ rw taken h
  | inr free ↦ rw free (find_buyer-append identity db.buyers (b ∷ []) c h)
]

register_buyer-again :
    (b : OrderBuyer) (db : OrderDb)
    → (register_buyer b (register_buyer b db).1).1 ≡ (register_buyer b db).1
unfolding register_buyer create_buyer_if_absent
register_buyer-again b db = elim (Bool-cases (any (same_buyer b) db.buyers)) [
  | inl taken ↦ rw (taken, taken) refl
  | inr free ↦ rw (free, any-same_buyer b db.buyers) refl
]

-- No event, well formed or not, takes a registered buyer away or changes it.
pub handle_user_created-find_buyer :
    (uuids : UuidText) (m : Option UserCreated) (identity : ℕ) (b : OrderBuyer) (db : OrderDb)
    → find_buyer identity db.buyers ≡ some b
    → find_buyer identity (handle_user_created uuids m db).1.buyers ≡ some b
unfolding handle_user_created
handle_user_created-find_buyer uuids none identity b db h = h
handle_user_created-find_buyer uuids (some m) identity b db h =
    elim (Bool-cases (is_text user_created_type m.type)) [
      | inr elsewhere ↦ rw elsewhere h
      | inl ours ↦
          elim (Bool-cases (is_valid_user_created uuids m && has_valid_identity uuids m.payload)) [
            | inr bad ↦ rw (ours, bad) h
            | inl good ↦ elim (Bool-cases (is_absent (identity_of m.payload))) [
              | inl old ↦ rw (ours, good, old) h
              | inr new ↦
                  rw (ours, good, new)
                    (register_buyer-find
                      (record {
                        identity_public_id = uuid_of uuids (identity_of m.payload);
                        user_id = user_id_of m.payload;
                      })
                      b identity db h)
            ]
          ]
    ]

-- An event that is delivered again, well formed or not, changes nothing the second time.
pub handle_user_created-again :
    (uuids : UuidText) (m : Option UserCreated) (db : OrderDb)
    → (handle_user_created uuids m (handle_user_created uuids m db).1).1
      ≡ (handle_user_created uuids m db).1
unfolding handle_user_created
handle_user_created-again uuids none db = refl
handle_user_created-again uuids (some m) db = elim (Bool-cases (is_text user_created_type m.type)) [
  | inr elsewhere ↦ rw elsewhere refl
  | inl ours ↦
      elim (Bool-cases (is_valid_user_created uuids m && has_valid_identity uuids m.payload)) [
        | inr bad ↦ rw (ours, bad) refl
        | inl good ↦ elim (Bool-cases (is_absent (identity_of m.payload))) [
          | inl old ↦ rw (ours, good, old) refl
          | inr new ↦
              rw (ours, good, new)
                (register_buyer-again
                  (record {
                    identity_public_id = uuid_of uuids (identity_of m.payload);
                    user_id = user_id_of m.payload;
                  })
                  db)
        ]
      ]
]
