-- ===== src/User/Create.antt =====
-- src/user/command-handler/user-create.command-handler.ts and src/user/gateway/user-identity-events.gateway.ts, with
-- src/user/schema/identity-registered-event.schema.ts. What `z.email()` accepts is a parameter.
use marketplace_api_v.Common.{
  ℕ, Bool, true, false, not, ◌&&◌, Option, none, some, if◌then◌else◌, Text, codes, Result, ok, err,
  pure, ◌>>=◌, transactional,
}
use marketplace_api_v.Messaging.{
  Value, null, text, UuidText, is_text, is_positive_safe, is_uuid, uuid_of, number_of,
}
use marketplace_api_v.Identity.Forms.{is_e164}
use marketplace_api_v.User.Store.{
  NewUser, FreshUser, UserDb, UserError, Call, create_if_absent, find_by_identity_or_fail,
  create_outbox, IdentityFields, IdentityMessage, identity_registered_type,
}

-- What follows `createIfAbsent`.
abbrev pub announce : NewUser → ℕ → Bool → Call (Unit {0})
announce n now false = pure tt
announce n now true = find_by_identity_or_fail n.identity_id >>= λ u. create_outbox u now

-- `UserCreateCommandHandler.execute`
unfoldable pub execute_create : NewUser → FreshUser → ℕ → Call (Unit {0})
execute_create n fresh now = transactional (create_if_absent n fresh now >>= announce n now)

-- How the handler of an event ends: it passes the event over, rejects it, throws, or returns.
pub data UserOutcome : Type 0 where
  ignored rejected failed handled : UserOutcome

abbrev pub outcome_of : Result UserError (Unit {0}) → UserOutcome
outcome_of (ok u) = handled
outcome_of (err e) = failed

-- `.nullable()` of a check on texts
abbrev pub is_nullable : (Text → Bool) → Value → Bool
is_nullable p null = true
is_nullable p (text t) = p t
is_nullable p _ = false

abbrev pub text_or_none : Value → Option Text
text_or_none (text t) = some t
text_or_none _ = none

module _ (uuids : UuidText) (is_zod_email : Text → Bool) where
  abbrev pub is_valid_fields : Option IdentityFields → Bool
  is_valid_fields none = false
  is_valid_fields (some f) =
      is_positive_safe f.identity_id
      && is_uuid uuids f.identity_public_id
      && is_nullable is_zod_email f.email
      && is_nullable is_e164 f.phone_number

  -- `identityRegisteredEventSchema`
  unfoldable pub is_valid_identity_registered : IdentityMessage → Bool
  is_valid_identity_registered m =
      is_text (codes "1.0") m.specversion
      && is_uuid uuids m.id
      && is_text identity_registered_type m.type
      && is_valid_fields m.payload

  abbrev pub user_of : Option IdentityFields → NewUser
  user_of none = record {
    identity_id = 0;
    identity_public_id = 0;
    email = none;
    phone_number = none;
  }
  user_of (some f) = record {
    identity_id = number_of f.identity_id;
    identity_public_id = uuid_of uuids f.identity_public_id;
    email = text_or_none f.email;
    phone_number = text_or_none f.phone_number;
  }

  -- `handle`; `none` is a message that is `null`.
  unfoldable pub handle_identity_registered :
      Option IdentityMessage → FreshUser → ℕ → UserDb → UserOutcome × UserDb
  handle_identity_registered none fresh now db = (ignored, db)
  handle_identity_registered (some m) fresh now db =
      if not (is_text identity_registered_type m.type)
      then (ignored, db)
      else if not (is_valid_identity_registered m)
      then (rejected, db)
      else let (r, after) = execute_create (user_of m.payload) fresh now db in (outcome_of r, after)
