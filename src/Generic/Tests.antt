-- ===== src/Generic/Tests.antt =====
-- Examples of the limit on requests, of the retry of transactions and of a consumer.
use marketplace_api_v.Common.{
  ℕ, ◌+◌, ◌≤◌, ◌≡◌, refl, some, List, [], ◌∷◌, ok, err, Tx, Text, Option, zero, suc, codes,
  if◌then◌else◌, ltb, arith,
}
use marketplace_api_v.Generic.RateLimit.{increment, sliding_window, trim, add_score}
use marketplace_api_v.Generic.Windows.{Hit}
use marketplace_api_v.Generic.Limits.{
  let_through, reference, within, let_through-eq-reference, within-let_through,
}
use marketplace_api_v.Generic.Retry.{Thrown, query_failed, retry_transaction, retry_from}
use marketplace_api_v.Outbox.Relay.{failed, accepted}
use marketplace_api_v.Generic.Consumer.{
  Delivered, Handling, broken, rejected_for, Consumer, Attempt, letter,
}
use marketplace_api_v.Generic.Attempts.{IsLast, retry_transaction-IsLast}

-- Two calls in a second for each key.
abbrev hits : List Hit
hits =
    record { key = 1; now = 0 }
    ∷ record { key = 1; now = 400 }
    ∷ record { key = 2; now = 400 }
    ∷ record { key = 1; now = 900 }
    ∷ record { key = 1; now = 1_000 }
    ∷ []

-- The call at 900 is refused, and the one at 1000 is not.
let_through_hits :
    let_through 1_000 2 hits [] []
    ≡ record { key = 1; now = 1_000 }
      ∷ record { key = 2; now = 400 }
      ∷ record { key = 1; now = 400 }
      ∷ record { key = 1; now = 0 }
      ∷ []
unfolding let_through increment sliding_window trim add_score
let_through_hits = refl

let_through-eq-reference_example : let_through 1_000 2 hits [] [] ≡ reference 1_000 2 hits []
let_through-eq-reference_example = let_through-eq-reference 1_000 2 hits (omega arith)

within-let_through_example : within 1_000 1 950 (let_through 1_000 2 hits [] []) ≤ 2
within-let_through_example = within-let_through 1_000 2 1 950 hits (omega arith)

-- The first attempt writes and meets a deadlock, the second one returns.
abbrev attempt : ℕ → Tx ℕ (Thrown ℕ) ℕ
attempt n s = if ltb n 2 then (err (query_failed (some (codes "40P01"))), s + 10) else (ok n, s + 1)

attempt_retried : (retry_transaction (λ n. 0) 3 50 attempt 7).outcome ≡ (ok 2, 8)
unfolding retry_transaction retry_from
attempt_retried = refl

attempt_waits : (retry_transaction (λ n. 0) 3 50 attempt 7).delays ≡ 50 ∷ []
unfolding retry_transaction retry_from
attempt_waits = refl

retry_transaction-IsLast_example : IsLast attempt 1 3 7 (retry_transaction (λ n. 0) 3 50 attempt 7)
retry_transaction-IsLast_example = retry_transaction-IsLast (λ n. 0) 50 attempt 7 3

abbrev message : Delivered
message = record { offset = 12; value = codes "{}" }

abbrev parse : Text → Option ℕ
parse t = some 5

-- In the world 0 the handler breaks; in another one it rejects the message.
abbrev handle : ℕ → ℕ → ℕ → Handling × ℕ
handle zero e s = (broken, s + 1)
handle (suc w) e s = (rejected_for (codes "Invalid"), s)

abbrev attempts : List (Attempt ℕ)
attempts =
    record { answer = accepted; world = 0 }
    ∷ record { answer = failed (codes "no leader"); world = 1 }
    ∷ record { answer = accepted; world = 1 }
    ∷ []

abbrev start : Consumer ℕ
start = record { state = 0; dead = [] }

abbrev done : Consumer ℕ
done = record { state = 1; dead = letter message (codes "Invalid") ∷ [] }
