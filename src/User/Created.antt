-- ===== src/User/Created.antt =====
-- The event of a new identity creates its user (src/user/gateway/user-identity-events.gateway.ts).
use marketplace_api_v.Common.{
  ℕ, ◌≡◌, refl, Bool, true, false, Option, none, some, List, [], ◌∷◌, ◌++◌, arith, ◌==◌, ==_refl,
  any, Text, text_eq_self, ok,
}
use marketplace_api_v.Messaging.{
  is_text, text, number, UuidText, is_uuid, uuid_of, is_positive_safe,
}
use marketplace_api_v.Outbox.Store.{Row, new_row}
use marketplace_api_v.Identity.Store.{IdentityRegistered}
use marketplace_api_v.Identity.Forms.{is_e164, holds_for}
use marketplace_api_v.User.Store.{
  NewUser, User, FreshUser, UserDb, same_user, new_user, meets_checks, create_if_absent,
  find_by_identity, find_by_identity_or_fail, create_outbox, to_identity_event, nullable,
  identity_registered_type,
}
use marketplace_api_v.User.Create.{
  execute_create, handled, is_nullable, text_or_none, is_valid_identity_registered, user_of,
  handle_identity_registered,
}

-- What an event of an identity says of the user to create.
abbrev pub told_of : IdentityRegistered → NewUser
told_of e = record {
  identity_id = e.identity_id;
  identity_public_id = e.identity_public_id;
  email = e.email;
  phone_number = e.phone_number;
}

find_by_identity-append :
    (u : User) (us : List User)
    → u.deleted ≡ false
    → any (same_user u) us ≡ false
    → find_by_identity u.identity_id (us ++ u ∷ []) ≡ some u
unfolding same_user
find_by_identity-append u [] alive free = rw (==_refl u.identity_id, alive) refl
find_by_identity-append u (v ∷ us) alive free =
    let apart : (v.identity_id == u.identity_id) ≡ false = ground arith in
    rw apart (find_by_identity-append u us alive (ground arith))

abbrev pub has_event : ℕ → Row User → Bool
has_event id r = r.id == id

-- The tables after a user was created.
abbrev pub with_user : User → ℕ → UserDb → UserDb
with_user u now db = record {
  users = db.users ++ u ∷ [];
  outbox = db.outbox ++ new_row u.public_id now u ∷ [];
}

abbrev with_profile : User → UserDb → UserDb
with_profile u db = record db { users = db.users ++ u ∷ [] }

create_if_absent-new :
    (n : NewUser) (fresh : FreshUser) (now : ℕ) (db : UserDb)
    → meets_checks n ≡ true
    → any (same_user (new_user n fresh now)) db.users ≡ false
    → create_if_absent n fresh now db ≡ (ok true, with_profile (new_user n fresh now) db)
unfolding create_if_absent
create_if_absent-new n fresh now db good free = rw (good, free) refl

find_by_identity_or_fail-new :
    (u : User) (db : UserDb)
    → u.deleted ≡ false
    → any (same_user u) db.users ≡ false
    → find_by_identity_or_fail u.identity_id (with_profile u db) ≡ (ok u, with_profile u db)
unfolding find_by_identity_or_fail
find_by_identity_or_fail-new u db alive free =
    rw (find_by_identity_or_fail, find_by_identity-append u db.users alive free) refl

create_outbox-new :
    (u : User) (now : ℕ) (db : UserDb)
    → any (has_event u.public_id) db.outbox ≡ false
    → create_outbox u now (with_profile u db) ≡ (ok tt, with_user u now db)
unfolding create_outbox
create_outbox-new u now db unused = rw unused refl

execute_create-new :
    (n : NewUser) (fresh : FreshUser) (now : ℕ) (db : UserDb)
    → meets_checks n ≡ true
    → any (same_user (new_user n fresh now)) db.users ≡ false
    → any (has_event fresh.public_id) db.outbox ≡ false
    → execute_create n fresh now db ≡ (ok tt, with_user (new_user n fresh now) now db)
unfolding execute_create
execute_create-new n fresh now db good free unused =
    rw
      (
        create_if_absent-new n fresh now db good free,
        find_by_identity_or_fail-new (new_user n fresh now) db refl free,
        create_outbox-new (new_user n fresh now) now db unused,
      )
      refl

module _ (uuids : UuidText) where
  uuid_of-print : (u : ℕ) → uuids.is_generated u ≡ true → uuid_of uuids (text (uuids.print u)) ≡ u
  uuid_of-print u g = rw (uuids.read-print u g) refl

  is_uuid-print :
      (u : ℕ) → uuids.is_generated u ≡ true → is_uuid uuids (text (uuids.print u)) ≡ true
  is_uuid-print u g = rw (uuids.read-print u g) refl

  -- What makes an identity's event acceptable to the user service.
  pub record IsAcceptable (is_zod_email : Text → Bool) (e : IdentityRegistered) : Type 0 where
    pub generated : uuids.is_generated e.identity_public_id ≡ true
    pub safe : is_positive_safe (number e.identity_id) ≡ true
    pub mail : holds_for is_zod_email e.email ≡ true
    pub phone : holds_for is_e164 e.phone_number ≡ true
    pub storable : meets_checks (told_of e) ≡ true

  is_nullable-holds_for :
      (p : Text → Bool) (o : Option Text) → holds_for p o ≡ true → is_nullable p (nullable o) ≡ true
  is_nullable-holds_for p none h = refl
  is_nullable-holds_for p (some t) h = h

  text_or_none-nullable : (o : Option Text) → text_or_none (nullable o) ≡ o
  text_or_none-nullable none = refl
  text_or_none-nullable (some t) = refl

  module _ (is_zod_email : Text → Bool) (e : IdentityRegistered) (created : ℕ)
      (v : IsAcceptable is_zod_email e) where
    abbrev row : Row IdentityRegistered
    row = new_row e.identity_public_id created e

    accepted : is_valid_identity_registered uuids is_zod_email (to_identity_event uuids row) ≡ true
    unfolding is_valid_identity_registered to_identity_event
    accepted =
        rw
          (
            uuids.read-print e.identity_public_id v.generated,
            v.safe,
            is_nullable-holds_for is_zod_email e.email v.mail,
            is_nullable-holds_for is_e164 e.phone_number v.phone,
          )
          refl

    read_back : user_of uuids is_zod_email (to_identity_event uuids row).payload ≡ told_of e
    unfolding to_identity_event
    read_back =
        rw
          (
            uuids.read-print e.identity_public_id v.generated,
            text_or_none-nullable e.email,
            text_or_none-nullable e.phone_number,
          )
          refl

    -- The event of a new identity creates its user, with the user's own event.
    pub handle_identity_registered-new :
        (fresh : FreshUser) (now : ℕ) (db : UserDb)
        → any (same_user (new_user (told_of e) fresh now)) db.users ≡ false
        → any (has_event fresh.public_id) db.outbox ≡ false
        → handle_identity_registered uuids is_zod_email
            (some (to_identity_event uuids row))
            fresh
            now
            db
          ≡ (handled, with_user (new_user (told_of e) fresh now) now db)
    unfolding handle_identity_registered
    handle_identity_registered-new fresh now db free unused =
        rw
          (
            typed,
            accepted,
            read_back,
            execute_create-new (told_of e) fresh now db v.storable free unused,
          )
          refl
      where
        typed : is_text identity_registered_type (to_identity_event uuids row).type ≡ true
        typed = unfold to_identity_event in text_eq_self identity_registered_type
