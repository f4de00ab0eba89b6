-- ===== src/User/Relays.antt =====
-- The relays of identity's and user's outboxes: src/identity/service/identity-outbox-relay.service.ts and
-- src/user/service/user-outbox-relay.service.ts with their repositories. Their steps are those of order's relay
-- (Outbox/Relay), over rows of another event.
use marketplace_api_v.Common.{
  ℕ, ◌≤◌, ◌≡◌, true, false, Option, keep, length, IsIn, IsIn-append_right, IsIn-map,
}
use marketplace_api_v.Messaging.{UuidText}
use marketplace_api_v.UserCreated.{UserFields}
use marketplace_api_v.Outbox.Store.{Row}
use marketplace_api_v.Outbox.Relay.{accepted, Tick, batch_size, relay, delete_published}
use marketplace_api_v.Outbox.Drained.{is_claimable}
use marketplace_api_v.Outbox.Heard.{Topic, relay_of, publish_as, relay-heard}
use marketplace_api_v.Identity.Store.{IdentityRegistered}
use marketplace_api_v.User.Store.{User, IdentityFields, to_identity_event, to_user_event}

abbrev pub IdentityTopic : Type 0
IdentityTopic = Topic IdentityRegistered (Option IdentityFields)

abbrev pub UserTopic : Type 0
UserTopic = Topic User (Option UserFields)

-- `relay` of `IdentityOutboxRelayService`
unfoldable pub relay_identities : UuidText → Tick IdentityRegistered → IdentityTopic → IdentityTopic
relay_identities uuids t s = publish_as (to_identity_event uuids) s (relay t (relay_of s))

-- `relay` of `UserOutboxRelayService`
unfoldable pub relay_users : UuidText → Tick User → UserTopic → UserTopic
relay_users uuids t s = publish_as (to_user_event uuids) s (relay t (relay_of s))

-- `deletePublished` of both
unfoldable pub delete_published_identities : ℕ → IdentityTopic → IdentityTopic
delete_published_identities now s = record s { rows = (delete_published now (relay_of s)).rows }

unfoldable pub delete_published_users : ℕ → UserTopic → UserTopic
delete_published_users now s = record s { rows = (delete_published now (relay_of s)).rows }

-- A tick that meets an idle relay and no error.
pub record IsSmooth {E F : Type 0} (t : Tick E) (s : Topic E F) : Type 0 where
  pub idle : s.relaying ≡ false
  pub accepts : (r : Row E) → t.answer r ≡ accepted
  pub few : length (keep (is_claimable t.locked) s.rows) ≤ batch_size

pub relay_identities-IsIn :
    (uuids : UuidText) (t : Tick IdentityRegistered) (s : IdentityTopic)
    (r : Row IdentityRegistered)
    → IsSmooth t s
    → is_claimable t.locked r ≡ true
    → IsIn r s.rows
    → IsIn (to_identity_event uuids r) (relay_identities uuids t s).messages
unfolding relay_identities
relay_identities-IsIn uuids t s r smooth free m = IsIn-append_right _ s.messages _ (
    IsIn-map (to_identity_event uuids) r _
      (relay-heard t (relay_of s) r smooth.idle smooth.accepts smooth.few free m))

pub relay_users-IsIn :
    (uuids : UuidText) (t : Tick User) (s : UserTopic) (r : Row User)
    → IsSmooth t s
    → is_claimable t.locked r ≡ true
    → IsIn r s.rows
    → IsIn (to_user_event uuids r) (relay_users uuids t s).messages
unfolding relay_users
relay_users-IsIn uuids t s r smooth free m = IsIn-append_right _ s.messages _ (
    IsIn-map (to_user_event uuids) r _
      (relay-heard t (relay_of s) r smooth.idle smooth.accepts smooth.few free m))
