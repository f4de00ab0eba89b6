-- ===== src/Order/Newer.antt =====
-- The events of a history that are newer than an id (src/order/service/order-notify.service.ts).
use marketplace_api_v.Common.{
  ℕ, ◌<◌, ◌≤◌, ◌≡◌, refl, Bool, true, List, [], ◌∷◌, ◌++◌, arith, ltb, keep, Bool-cases, inl, inr,
}
use marketplace_api_v.Order.Notify.{StatusEvent}
use marketplace_api_v.Order.Recorded.{IsIncreasing}

-- Ids grow strictly along a list, from above an id.
abbrev pub IsAbove : ℕ → List StatusEvent → Type 0
IsAbove n [] = Unit
IsAbove n (e ∷ events) = (n < e.id) × IsAbove e.id events

abbrev pub newest : ℕ → List StatusEvent → ℕ
newest n [] = n
newest n (e ∷ events) = newest e.id events

abbrev pub is_after : ℕ → StatusEvent → Bool
is_after last e = ltb last e.id

head-IsAbove :
    (e : StatusEvent) (events : List StatusEvent) → IsIncreasing (e ∷ events) → IsAbove e.id events
head-IsAbove e [] h = tt
head-IsAbove e (f ∷ events) h = (h.0, head-IsAbove f events h.1)

keep_newer :
    (last n : ℕ) (events : List StatusEvent)
    → last ≤ n
    → IsAbove n events
    → keep (is_after last) events ≡ events
keep_newer last n [] le h = refl
keep_newer last n (e ∷ events) le h =
    let kept : ltb last e.id ≡ true = ground (arith, h.0) in
    rw (kept, keep_newer last e.id events (omega (arith, h.0)) h.1) refl

pub keep-IsAbove :
    (last : ℕ) (events : List StatusEvent)
    → IsIncreasing events
    → IsAbove last (keep (is_after last) events)
keep-IsAbove last [] h = tt
keep-IsAbove last (e ∷ events) h = elim (Bool-cases (ltb last e.id)) [
  | inl after ↦
      let less : last < e.id = ground arith in
      rw (after, keep_newer last e.id events (omega (arith, less)) (head-IsAbove e events h))
        (less, head-IsAbove e events h)
  | inr before ↦ rw before (keep-IsAbove last events (rest events h))
]
  where
    rest : (es : List StatusEvent) → IsIncreasing (e ∷ es) → IsIncreasing es
    rest [] k = tt
    rest (f ∷ es) k = k.1

pub newest-append :
    (n : ℕ) (xs : List StatusEvent) (e : StatusEvent) → newest n (xs ++ e ∷ []) ≡ e.id
newest-append n [] e = refl
newest-append n (x ∷ xs) e = newest-append x.id xs e

pub newest-lt :
    (n : ℕ) (xs : List StatusEvent) (e : StatusEvent)
    → IsAbove n (xs ++ e ∷ [])
    → newest n xs < e.id
newest-lt n [] e h = h.0
newest-lt n (x ∷ xs) e h = newest-lt x.id xs e h.1

pub newest-ge : (n : ℕ) (xs : List StatusEvent) → IsAbove n xs → n ≤ newest n xs
newest-ge n [] h = omega arith
newest-ge n (x ∷ xs) h = omega (arith, h.0, newest-ge x.id xs h.1)
