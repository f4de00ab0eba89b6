-- ===== src/User/Announced.antt =====
-- From a registration to a buyer with an account, over the relays of identity's and user's outboxes and their topics.
use marketplace_api_v.Common.{false, List}
use marketplace_api_v.UserCreated.{UserCreated}
use marketplace_api_v.Identity.Store.{IdentityDb}
use marketplace_api_v.User.Store.{User, UserDb, IdentityMessage}
use marketplace_api_v.User.Relays.{IdentityTopic, UserTopic}
use marketplace_api_v.Order.Buyers as Buyers
use marketplace_api_v.Account.UserEvents as UserEvents

-- The topics as they are when the relays run next.
abbrev pub identity_topic : IdentityDb → List IdentityMessage → IdentityTopic
identity_topic db messages = record { rows = db.outbox; messages = messages; relaying = false }

abbrev pub user_topic : UserDb → List UserCreated → UserTopic
user_topic db messages = record { rows = db.outbox; messages = messages; relaying = false }
