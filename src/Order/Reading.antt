-- ===== src/Order/Reading.antt =====
-- Who may read an order: src/order/service/order.service.ts behind the guards of src/generic/auth, and
-- src/order/service/order-access.service.ts with src/order/guard/order-access.guard.ts for the stream of its events.
use marketplace_api_v.Common.{
  ℕ, zero, Bool, true, not, Option, none, some, List, ◌==◌, if◌then◌else◌, Result, ok, err,
}
use marketplace_api_v.Messaging.{Value, undefined, number, is_positive_safe, number_of, UuidText}
use marketplace_api_v.Identity.Commands.{Setting, Denial}
use marketplace_api_v.Access.Tokens.{Jwt, Request, GuardOutcome, passed, thrown, check_token}
use marketplace_api_v.Access.Abilities.{
  read, order, Ability, can_order, AbilityOutcome, allowed, insufficient, check_ability,
}
use marketplace_api_v.Generic.Cache.{CacheOptions, Poll, Loaded, get_or_load}
use marketplace_api_v.Order.Store.{Order, OrderDb, OrderError, not_found, find_by_id_or_fail}

-- How a read ends, by its HTTP status: the order, 404, 403, 401 or another error.
pub data ReadOutcome : Type 0 where
  found : Order → ReadOutcome
  missing forbidden unauthorized failed : ReadOutcome

-- What a caller finds in the cache.
pub record CacheView : Type 0 where
  pub first : Option Order
  pub polls : List (Poll Order)
  pub random : ℕ

-- `ORDER_CACHE_TTL_SECONDS` and `ORDER_CACHE_JITTER_SECONDS`
abbrev pub order_cache : CacheOptions
order_cache = record { ttl_seconds = 300; jitter_seconds = 60 }

-- `findById` with its `@Cacheable`
unfoldable pub find_by_id : CacheView → ℕ → OrderDb → Loaded OrderError Order
find_by_id view id db =
    get_or_load order_cache view.random view.first view.polls (find_by_id_or_fail id db).0

abbrev pub readable : Ability → Result OrderError Order → ReadOutcome
readable ability (ok o) = if can_order ability read o.owner_identity then found o else forbidden
readable ability (err not_found) = missing
readable ability (err e) = failed

-- `findReadableById`
unfoldable pub find_readable_by_id : CacheView → ℕ → Ability → OrderDb → ReadOutcome
find_readable_by_id view id ability db = readable ability (find_by_id view id db).result

-- `@CurrentAbility()`, which throws where there is none.
abbrev pub with_ability : CacheView → ℕ → OrderDb → AbilityOutcome → ReadOutcome
with_ability view id db (allowed (some ability)) = find_readable_by_id view id ability db
with_ability view id db (allowed none) = failed
with_ability view id db insufficient = forbidden

abbrev pub after_token : CacheView → ℕ → OrderDb → Bool → GuardOutcome → ReadOutcome
after_token view id db is_http (passed identity) =
    with_ability view id db (check_ability is_http identity (some (read, order)))
after_token view id db is_http (thrown e challenge) = unauthorized

-- `GET /order/:id`: the guards and the handler `findOne`.
unfoldable pub read_order :
    Jwt → UuidText → Request → Setting → List Denial → CacheView → ℕ → OrderDb → ReadOutcome
read_order jwt uuids r g denials view id db =
    after_token view id db r.is_http (check_token jwt uuids r g denials)

-- What `OrderAccessService.canAccess` does: it returns, or throws an error.
pub data Verdict : Type 0 where
  granted order_missing other_buyer invalid access_failed : Verdict

abbrev pub is_buyer : Option ℕ → Order → Bool
is_buyer none o = true
is_buyer (some u) o = o.user_id == u

abbrev pub judge_access : Option ℕ → Result OrderError Order → Verdict
judge_access u (ok o) = if is_buyer u o then granted else other_buyer
judge_access u (err not_found) = order_missing
judge_access u (err e) = access_failed

-- `canAccess`
unfoldable pub can_access : ℕ → Option ℕ → OrderDb → Verdict
can_access id u db = judge_access u (find_by_id_or_fail id db).0

-- `Number(…)` of the parameters is a value; a missing `Last-Event-ID` is 0.
pub record StreamRequest : Type 0 where
  pub order_id : Value
  pub user_id : Value
  pub last_event_id : Value

abbrev pub is_valid_last : Value → Bool
is_valid_last undefined = true
is_valid_last (number zero) = true
is_valid_last v = is_positive_safe v

abbrev pub then_last : Value → Verdict → Verdict
then_last v granted = if is_valid_last v then granted else invalid
then_last v verdict = verdict

abbrev pub for_user : StreamRequest → OrderDb → Value → Verdict
for_user r db undefined = can_access (number_of r.order_id) none db
for_user r db v =
    if not (is_positive_safe v)
    then invalid
    else can_access (number_of r.order_id) (some (number_of v)) db

-- `OrderAccessGuard.canActivate`
unfoldable pub can_activate : StreamRequest → OrderDb → Verdict
can_activate r db =
    if not (is_positive_safe r.order_id)
    then invalid
    else then_last r.last_event_id (for_user r db r.user_id)
