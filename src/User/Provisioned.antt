-- ===== src/User/Provisioned.antt =====
-- From a registration to a buyer with an account: src/identity/command-handler/identity-register.command-handler.ts, src/user, and the
-- consumers of the user's event in src/order and src/account.
use marketplace_api_v.Common.{
  ℕ, ◌≡◌, refl, ap, Bool, true, false, none, some, List, [], ◌∷◌, ◌++◌, arith, ◌==◌, ==_refl, any,
  Text, text_eq_self, ok, has, lookup-put_self,
}
use marketplace_api_v.Messaging.{is_text, number, UuidText, is_positive_safe}
use marketplace_api_v.UserCreated.{
  user_created_type, is_valid_user_created, has_valid_identity, user_id_of,
}
use marketplace_api_v.Outbox.Store.{Row, new_row}
use marketplace_api_v.Identity.Store.{IdentityDb}
use marketplace_api_v.Identity.Commands.{TokenPair, Setting}
use marketplace_api_v.Identity.Forms.{RegisterInput, is_e164, has_email_format, holds_for}
use marketplace_api_v.Identity.Forms as Forms
use marketplace_api_v.Identity.Accounts.{Argon, Fresh, to_identity_registered}
use marketplace_api_v.Identity.Register.{to_new, execute_register}
use marketplace_api_v.Identity.Created.{event_of}
use marketplace_api_v.Identity.Registered.{registered, execute_register_inv}
use marketplace_api_v.User.Store.{
  User, FreshUser, UserDb, same_user, new_user, meets_checks, to_identity_event, to_user_event,
}
use marketplace_api_v.User.Create.{handled, handle_identity_registered}
use marketplace_api_v.User.Created.{
  told_of, has_event, with_user, IsAcceptable, handle_identity_registered-new,
}
use marketplace_api_v.Order.Store.{OrderBuyer, OrderDb}
use marketplace_api_v.Order.Place.{find_buyer}
use marketplace_api_v.Order.Buyers.{same_buyer, create_buyer_if_absent, register_buyer, is_absent}
use marketplace_api_v.Order.Buyers as Buyers
use marketplace_api_v.Account.Store.{AccountDb, balance_of, create_account_if_absent}
use marketplace_api_v.Account.Commands.{execute_create}
use marketplace_api_v.Account.UserEvents as UserEvents

find_buyer-new :
    (b : OrderBuyer) (bs : List OrderBuyer)
    → any (same_buyer b) bs ≡ false
    → find_buyer b.identity_public_id (bs ++ b ∷ []) ≡ some b
unfolding find_buyer
find_buyer-new b [] free = rw (==_refl b.identity_public_id) refl
find_buyer-new b (c ∷ bs) free =
    let apart : (c.identity_public_id == b.identity_public_id) ≡ false = ground arith in
    rw apart (find_buyer-new b bs (ground arith))

register_buyer-new :
    (b : OrderBuyer) (db : OrderDb)
    → any (same_buyer b) db.buyers ≡ false
    → find_buyer b.identity_public_id (register_buyer b db).1.buyers ≡ some b
unfolding register_buyer create_buyer_if_absent
register_buyer-new b db free = rw free (find_buyer-new b db.buyers free)

execute_create-new :
    (c : ℕ) (db : AccountDb)
    → balance_of c db ≡ none
    → balance_of c (execute_create c db).1 ≡ some 0
unfolding execute_create create_account_if_absent
execute_create-new c db free = rw (free, has) (lookup-put_self c 0 db.accounts)

module _ (uuids : UuidText) (u : User) (now : ℕ) (generated : uuids.is_generated u.public_id ≡ true)
    (identity : uuids.is_generated u.identity_public_id ≡ true)
    (safe : is_positive_safe (number u.id) ≡ true) where
  abbrev row : Row User
  row = new_row u.public_id now u

  abbrev buyer : OrderBuyer
  buyer = record { identity_public_id = u.identity_public_id; user_id = u.id }

  typed : is_text user_created_type (to_user_event uuids row).type ≡ true
  unfolding to_user_event
  typed = text_eq_self user_created_type

  valid : is_valid_user_created uuids (to_user_event uuids row) ≡ true
  unfolding is_valid_user_created to_user_event
  valid = rw (uuids.read-print u.public_id generated, safe) refl

  identified : has_valid_identity uuids (to_user_event uuids row).payload ≡ true
  unfolding to_user_event
  identified = rw (uuids.read-print u.identity_public_id identity) refl

  handle_user_created-buyer :
      (db : OrderDb)
      → any (same_buyer buyer) db.buyers ≡ false
      → find_buyer u.identity_public_id
          (Buyers.handle_user_created uuids (some (to_user_event uuids row)) db).1.buyers
        ≡ some buyer
  unfolding Buyers.handle_user_created to_user_event find_buyer is_valid_user_created
  handle_user_created-buyer db free =
      rw (typed, valid, identified, uuids.read-print u.identity_public_id identity)
        (register_buyer-new buyer db free)

  handle_user_created-account :
      (db : AccountDb)
      → balance_of u.id db ≡ none
      → balance_of u.id (UserEvents.handle_user_created uuids (some (to_user_event uuids row)) db).1
        ≡ some 0
  unfolding UserEvents.handle_user_created
  handle_user_created-account db free = rw (typed, valid) (account db free)
    where
      account :
          (db : AccountDb)
          → balance_of u.id db ≡ none
          → balance_of u.id (execute_create (user_id_of (to_user_event uuids row).payload) db).1
            ≡ some 0
      account db free = unfold to_user_event in execute_create-new u.id db free

meets-told :
    (argon : Argon) (hash : ℕ → ℕ) (fold : Text → Text) (input : RegisterInput) (fresh : Fresh)
    (g : Setting)
    → Forms.meets_checks (to_new input (argon.hash fresh.salt input.password)) ≡ true
    → meets_checks (told_of (to_identity_registered (registered hash argon fold input fresh g)))
      ≡ true
unfolding Forms.meets_checks
meets-told argon hash fold input fresh g good = ground arith

e164-told :
    (argon : Argon) (hash : ℕ → ℕ) (fold : Text → Text) (input : RegisterInput) (fresh : Fresh)
    (g : Setting)
    → Forms.meets_checks (to_new input (argon.hash fresh.salt input.password)) ≡ true
    → holds_for is_e164 (registered hash argon fold input fresh g).login_phone.full_number ≡ true
unfolding Forms.meets_checks
e164-told argon hash fold input fresh g good = ground arith

-- The user that is created for a registration.
abbrev pub profile_of :
    (ℕ → ℕ) → Argon → (Text → Text) → RegisterInput → Fresh → Setting → FreshUser → ℕ → User
profile_of hash argon fold input fresh g profile now =
    new_user (told_of (to_identity_registered (registered hash argon fold input fresh g))) profile
      now

-- Who registers can buy, once the events have arrived. A registration that returns has written one event. When the user service
-- handles it, it creates the user and writes the user's event, and when the order and account services handle that one,
-- the identity is a registered buyer under the user's id, and the user has an account with nothing in it. The ids
-- are generated ones and positive safe numbers, they are new to the tables, and `z.email()` accepts the email, if
-- there is one.
pub execute_register-provisions :
    (hash : ℕ → ℕ) (argon : Argon) (fold : Text → Text) (uuids : UuidText)
    (is_zod_email : Text → Bool) (input : RegisterInput) (fresh : Fresh) (g : Setting)
    (db after : IdentityDb) (p : TokenPair) (profile : FreshUser) (now : ℕ) (users : UserDb)
    (orders : OrderDb) (accounts : AccountDb)
    → execute_register hash argon fold input fresh g db ≡ (ok p, after)
    → uuids.is_generated fresh.public_id ≡ true
    → uuids.is_generated profile.public_id ≡ true
    → is_positive_safe (number fresh.identity_id) ≡ true
    → is_positive_safe (number profile.user_id) ≡ true
    → holds_for is_zod_email input.email ≡ true
    → any (same_user (profile_of hash argon fold input fresh g profile now)) users.users ≡ false
    → any (has_event profile.public_id) users.outbox ≡ false
    → any
        (same_buyer (record { identity_public_id = fresh.public_id; user_id = profile.user_id }))
        orders.buyers
      ≡ false
    → balance_of profile.user_id accounts ≡ none
    → (db.outbox ++ event_of (registered hash argon fold input fresh g) g.now ∷ [] ≡ after.outbox)
      × (handle_identity_registered uuids is_zod_email
            (some
              (to_identity_event uuids (event_of (registered hash argon fold input fresh g) g.now)))
            profile
            now
            users
          ≡ (handled, with_user (profile_of hash argon fold input fresh g profile now) now users))
      × (find_buyer p.subject
            (Buyers.handle_user_created uuids
              (some (
                to_user_event uuids (
                  new_row profile.public_id now
                    (profile_of hash argon fold input fresh g profile now))))
              orders).1.buyers
          ≡ some (record { identity_public_id = fresh.public_id; user_id = profile.user_id }))
      × (balance_of profile.user_id
            (UserEvents.handle_user_created uuids
              (some (
                to_user_event uuids (
                  new_row profile.public_id now
                    (profile_of hash argon fold input fresh g profile now))))
              accounts).1
          ≡ some 0)
execute_register-provisions hash argon fold uuids is_zod_email input fresh g db after p profile now
      users orders accounts h generated own safe user_safe mail free unused unknown penniless =
    let w = execute_register_inv hash argon fold input fresh g db after p h in
    let i = registered hash argon fold input fresh g in
    let u = new_user (told_of (to_identity_registered i)) profile now in
    let v : IsAcceptable uuids is_zod_email (to_identity_registered i) = record {
      generated = generated;
      safe = safe;
      mail = mail;
      phone = e164-told argon hash fold input fresh g w.0;
      storable = meets-told argon hash fold input fresh g w.0;
    } in
    (
      ap (λ (d : IdentityDb). d.outbox) w.4,
      handle_identity_registered-new uuids is_zod_email (to_identity_registered i) g.now v profile
          now users free unused,
      rw (← w.3) (handle_user_created-buyer uuids u now own generated user_safe orders unknown),
      handle_user_created-account uuids u now own generated user_safe accounts penniless,
    )
