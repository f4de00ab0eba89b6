-- ===== src/Generic/Retry.antt =====
-- src/generic/db/typeorm-retry.adapter.ts: a transaction that meets a deadlock is run again.
use marketplace_api_v.Common.{
  ℕ, zero, suc, ◌+◌, ◌-◌, ◌*◌, ◌^◌, Bool, false, ◌||◌, Option, none, some, List, [], ◌∷◌,
  if◌then◌else◌, Text, codes, text_eq, Result, ok, err, Tx, transactional,
}

-- `QueryFailedError` with the driver's code, or any other error.
pub data Thrown (E : Type 0) : Type 0 where
  query_failed : Option Text → Thrown E
  other_error : E → Thrown E

-- How a retried transaction ended: its result and the state, and the delays that were slept.
pub record Retried (S E A : Type 0) : Type 0 where
  pub outcome : Result (Thrown E) A × S
  pub delays : List ℕ

-- `maxAttempts` and `baseDelayMs`
abbrev pub default_attempts : ℕ
default_attempts = 3

abbrev pub default_delay : ℕ
default_delay = 50

-- `DEADLOCK_ERROR_CODES`
abbrev pub is_deadlock_code : Option Text → Bool
is_deadlock_code none = false
is_deadlock_code (some code) = text_eq code (codes "40P01") || text_eq code (codes "40001")

-- `deadlockErrorCode(error) !== null`
abbrev pub is_deadlock : {E : Type 0} → Thrown E → Bool
is_deadlock (query_failed code) = is_deadlock_code code
is_deadlock (other_error e) = false

-- `Math.round(baseDelayMs * 2 ** (attempt - 1) + Math.random() * baseDelayMs)`, with what the random part adds.
abbrev pub delay_of : ℕ → (ℕ → ℕ) → ℕ → ℕ
delay_of base jitter attempt = base * 2 ^ (attempt - 1) + jitter attempt

module _ {S E A : Type 0} where
  abbrev pub one_try : Result (Thrown E) A × S → Retried S E A
  one_try r = record { outcome = r; delays = [] }

  abbrev pub after_delay : ℕ → Retried S E A → Retried S E A
  after_delay ms r = record { outcome = r.outcome; delays = ms ∷ r.delays }

  -- The end of an attempt when there may be others: `again` is what the loop does next.
  abbrev pub settle : ℕ → Result (Thrown E) A × S → Retried S E A → Retried S E A
  settle ms (ok a, s) again = one_try (ok a, s)
  settle ms (err e, s) again = if is_deadlock e then after_delay ms again else one_try (err e, s)

  -- The loop of `retryTransactionOnDeadlock`: the attempts that are left after this one, its number, and what the attempt
  -- of each number does; an attempt is a transaction, so one that throws gives back the state.
  unfoldable pub retry_from : (ℕ → ℕ) → ℕ → ℕ → ℕ → (ℕ → Tx S (Thrown E) A) → S → Retried S E A
  retry_from jitter base zero attempt fn s = one_try (transactional (fn attempt) s)
  retry_from jitter base (suc left) attempt fn s =
      settle (delay_of base jitter attempt) (transactional (fn attempt) s)
        (retry_from jitter base left (attempt + 1) fn s)

  -- `retryTransactionOnDeadlock`
  unfoldable pub retry_transaction : (ℕ → ℕ) → ℕ → ℕ → (ℕ → Tx S (Thrown E) A) → S → Retried S E A
  retry_transaction jitter max_attempts base = retry_from jitter base (max_attempts - 1) 1
