-- ===== src/User/Tests.antt =====
-- An example of a registration that arrives at the user, order and account services.
use marketplace_api_v.Common.{true, false, []}
use marketplace_api_v.UserCreated.{UserCreated}
use marketplace_api_v.Account.UserEvents as UserEvents
use marketplace_api_v.Order.Buyers as Buyers
use marketplace_api_v.Outbox.Relay.{Tick, accepted}
use marketplace_api_v.Identity.Examples.{own_hash, first, argon, same_case, ann, fresh}
use marketplace_api_v.User.Store.{User, FreshUser, UserDb}
use marketplace_api_v.User.Created.{with_user}
use marketplace_api_v.User.Provisioned.{profile_of}

abbrev profile : FreshUser
profile = record { user_id = 3; public_id = 6 }

abbrev no_users : UserDb
no_users = record { users = []; outbox = [] }

abbrev tick : {E : Type 0} → Tick E
tick = record { answer = λ r. accepted; locked = λ id. false; now = 30; commits = true }

abbrev user_tick : Tick User
user_tick = tick

abbrev profiles : UserDb
profiles = with_user (profile_of own_hash argon same_case ann fresh first profile 20) 20 no_users
