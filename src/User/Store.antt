-- ===== src/User/Store.antt =====
-- src/user/entity and repository: the tables of users and of their events, and the event that an identity was registered
-- (packages/messaging-contracts/src/identity/event/identity-registered.event.ts).
use marketplace_api_v.Common.{
  ℕ, Bool, true, false, not, ◌&&◌, ◌||◌, Option, none, some, List, [], ◌∷◌, ◌++◌, ◌==◌,
  if◌then◌else◌, any, Text, codes, ok, err, Tx,
}
use marketplace_api_v.Messaging.{Value, null, text, number, Message, UuidText}
use marketplace_api_v.UserCreated.{UserCreated, user_created_type}
use marketplace_api_v.Outbox.Store.{Row, new_row}
use marketplace_api_v.Identity.Store.{IdentityRegistered}
use marketplace_api_v.Identity.Forms.{is_e164, has_email_format, holds_for}

pub data Language : Type 0 where
  en ua : Language

-- `UserCreateEntityInterface`
pub record NewUser : Type 0 where
  pub identity_id : ℕ
  pub identity_public_id : ℕ
  pub email : Option Text
  pub phone_number : Option Text

-- `User`, without the columns that no query reads and no event carries.
pub record User : Type 0 where
  pub id : ℕ
  pub public_id : ℕ
  pub identity_id : ℕ
  pub identity_public_id : ℕ
  pub email : Option Text
  pub phone_number : Option Text
  pub first_name : Option Text
  pub last_name : Option Text
  pub language : Language
  pub created_at : ℕ
  pub deleted : Bool

-- The id and the public id that PostgreSQL generates.
pub record FreshUser : Type 0 where
  pub user_id : ℕ
  pub public_id : ℕ

-- The payload of a row is the user, as `toUserCreatedOutbox` reads it.
pub record UserDb : Type 0 where
  pub users : List User
  pub outbox : List (Row User)

pub data UserError : Type 0 where
  query_failed not_found : UserError

abbrev pub Call : Type 0 → Type 0
Call A = Tx UserDb UserError A

-- The unique constraints of `User`
unfoldable pub same_user : User → User → Bool
same_user u v =
    (v.id == u.id)
    || (v.public_id == u.public_id)
    || (v.identity_id == u.identity_id)
    || (v.identity_public_id == u.identity_public_id)

-- The column defaults
abbrev pub new_user : NewUser → FreshUser → ℕ → User
new_user n fresh now = record {
  id = fresh.user_id;
  public_id = fresh.public_id;
  identity_id = n.identity_id;
  identity_public_id = n.identity_public_id;
  email = n.email;
  phone_number = n.phone_number;
  first_name = none;
  last_name = none;
  language = en;
  created_at = now;
  deleted = false;
}

-- The check constraints of `User` on the columns that are written.
abbrev pub meets_checks : NewUser → Bool
meets_checks n = holds_for has_email_format n.email && holds_for is_e164 n.phone_number

-- `createIfAbsent`: a row that a unique constraint refuses is passed over, one that a check refuses is not.
unfoldable pub create_if_absent : NewUser → FreshUser → ℕ → Call Bool
create_if_absent n fresh now db =
    if not (meets_checks n)
    then (err query_failed, db)
    else if any (same_user (new_user n fresh now)) db.users
    then (ok false, db)
    else (ok true, record db { users = db.users ++ new_user n fresh now ∷ [] })

abbrev pub find_by_identity : ℕ → List User → Option User
find_by_identity identity [] = none
find_by_identity identity (u ∷ us) =
    if (u.identity_id == identity) && not u.deleted then some u else find_by_identity identity us

-- `findByIdentityIdOrFail`
unfoldable pub find_by_identity_or_fail : ℕ → Call User
find_by_identity_or_fail identity db = elim (find_by_identity identity db.users) [
  | none ↦ (err not_found, db)
  | some u ↦ (ok u, db)
]

-- `UserOutboxRepository.create` of `toUserCreatedOutbox(user)`: the id of the row is the public id, and the primary key.
unfoldable pub create_outbox : User → ℕ → Call (Unit {0})
create_outbox u now db =
    if any (λ (r : Row User). r.id == u.public_id) db.outbox
    then (err query_failed, db)
    else (ok tt, record db { outbox = db.outbox ++ new_row u.public_id now u ∷ [] })

-- The `data` of an identity's event that the schema reads.
pub record IdentityFields : Type 0 where
  pub identity_id : Value
  pub identity_public_id : Value
  pub email : Value
  pub phone_number : Value

abbrev pub IdentityMessage : Type 0
IdentityMessage = Message (Option IdentityFields)

abbrev pub identity_registered_type : Text
identity_registered_type = codes "identity.registered"

abbrev pub nullable : Option Text → Value
nullable none = null
nullable (some t) = text t

module _ (uuids : UuidText) where
  -- `toCloudEvent` of src/identity/service/identity-outbox-relay.service.ts
  unfoldable pub to_identity_event : Row IdentityRegistered → IdentityMessage
  to_identity_event r = record {
    specversion = text (codes "1.0");
    id = text (uuids.print r.id);
    type = text identity_registered_type;
    subject = text (uuids.print r.event.identity_public_id);
    correlationid = text (uuids.print r.event.identity_public_id);
    payload = some (record {
      identity_id = number r.event.identity_id;
      identity_public_id = text (uuids.print r.event.identity_public_id);
      email = nullable r.event.email;
      phone_number = nullable r.event.phone_number;
    });
  }

  -- `toCloudEvent` of src/user/service/user-outbox-relay.service.ts
  unfoldable pub to_user_event : Row User → UserCreated
  to_user_event r = record {
    specversion = text (codes "1.0");
    id = text (uuids.print r.id);
    type = text user_created_type;
    subject = text (uuids.print r.event.public_id);
    correlationid = text (uuids.print r.event.public_id);
    payload = some (record {
      user_id = number r.event.id;
      user_public_id = text (uuids.print r.event.public_id);
      identity_public_id = text (uuids.print r.event.identity_public_id);
    });
  }
