-- ===== src/UserCreated.antt =====
-- The event that a user was created (packages/messaging-contracts/src/user/event/user-created.event.ts), and what its
-- two consumers check of it (src/account/schema and src/order/schema/user-created-event.schema.ts).
use marketplace_api_v.Common.{ℕ, Bool, true, false, ◌&&◌, Option, none, some, Text, codes}
use marketplace_api_v.Messaging.{
  Value, undefined, Message, is_text, is_positive_safe, number_of, UuidText, is_uuid,
}

-- The `data` that the schemas read.
pub record UserFields : Type 0 where
  pub user_id : Value
  pub user_public_id : Value
  pub identity_public_id : Value

-- A message with no `data`, or none that is an object, holds `none`.
abbrev pub UserCreated : Type 0
UserCreated = Message (Option UserFields)

abbrev pub user_created_type : Text
user_created_type = codes "user.created"

-- What a consumer makes of an event: it is of another type, it is rejected, it needs nothing, or it was handled, with
-- whether a row was written.
pub data EventOutcome : Type 0 where
  ignored rejected skipped : EventOutcome
  handled : Bool → EventOutcome

module _ (uuids : UuidText) where
  abbrev pub is_valid_user : Option UserFields → Bool
  is_valid_user none = false
  is_valid_user (some u) = is_positive_safe u.user_id && is_uuid uuids u.user_public_id

  -- `userCreatedEventSchema` of account; `z.uuid()` is read like the other checks of a UUID.
  unfoldable pub is_valid_user_created : UserCreated → Bool
  is_valid_user_created m =
      is_text (codes "1.0") m.specversion
      && is_uuid uuids m.id
      && is_text user_created_type m.type
      && is_valid_user m.payload

  -- `z.uuid().optional()`
  abbrev pub is_optional_uuid : Value → Bool
  is_optional_uuid undefined = true
  is_optional_uuid v = is_uuid uuids v

  abbrev pub has_valid_identity : Option UserFields → Bool
  has_valid_identity none = false
  has_valid_identity (some u) = is_optional_uuid u.identity_public_id

abbrev pub user_id_of : Option UserFields → ℕ
user_id_of none = 0
user_id_of (some u) = number_of u.user_id

abbrev pub identity_of : Option UserFields → Value
identity_of none = undefined
identity_of (some u) = u.identity_public_id
