-- ===== src/Generic/Cache.antt =====
-- src/generic/cache/cache.service.ts: `getOrLoad`, over what a caller finds in Redis while it waits.
use marketplace_api_v.Common.{ℕ, ◌+◌, Option, none, some, List, [], ◌∷◌, Result, ok, err}

-- One round of the loop: the lock is taken, or it is not and the cache is read again after a pause.
pub data Poll (V : Type 0) : Type 0 where
  lock_taken : Poll V
  lock_held : Option V → Poll V

-- `CacheEntryOptionsInterface`
pub record CacheOptions : Type 0 where
  pub ttl_seconds : ℕ
  pub jitter_seconds : ℕ

-- `toTtlSeconds`, with what `randomInt(0, jitterSeconds + 1)` gives.
abbrev pub to_ttl_seconds : CacheOptions → ℕ → ℕ
to_ttl_seconds o random = o.ttl_seconds + random

-- What a call returns, and what it has stored with its time to live.
pub record Loaded (E V : Type 0) : Type 0 where
  pub result : Result E V
  pub stored : Option (V × ℕ)

module _ {E V : Type 0} where
  abbrev pub from_cache : V → Loaded E V
  from_cache v = record { result = ok v; stored = none }

  -- `loadAndStore`
  abbrev pub load_and_store : CacheOptions → ℕ → Result E V → Loaded E V
  load_and_store o random (ok v) = record {
    result = ok v;
    stored = some (v, to_ttl_seconds o random);
  }
  load_and_store o random (err e) = record { result = err e; stored = none }

  -- The loop, for the rounds that fit before the deadline.
  unfoldable pub wait_or_load : CacheOptions → ℕ → Result E V → List (Poll V) → Loaded E V
  wait_or_load o random loaded [] = load_and_store o random loaded
  wait_or_load o random loaded (lock_taken ∷ polls) = load_and_store o random loaded
  wait_or_load o random loaded (lock_held (some v) ∷ polls) = from_cache v
  wait_or_load o random loaded (lock_held none ∷ polls) = wait_or_load o random loaded polls

  -- `getOrLoad`: what the first read finds, and what the load returns.
  abbrev pub get_or_load : CacheOptions → ℕ → Option V → List (Poll V) → Result E V → Loaded E V
  get_or_load o random none polls loaded = wait_or_load o random loaded polls
  get_or_load o random (some v) polls loaded = from_cache v
