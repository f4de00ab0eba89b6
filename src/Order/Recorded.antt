-- ===== src/Order/Recorded.antt =====
-- The histories after an event is recorded (src/order/service/order-notify.service.ts).
use marketplace_api_v.Common.{
  ℕ, suc, ◌<◌, ◌≤◌, ◌≡◌, refl, subst, Bool, true, false, some, List, [], ◌∷◌, ◌++◌, arith, ltb,
  ◌==◌, if◌then◌else◌, length, length-append, All, lookup, lookup-put, Bool-cases, inl, inr,
}
use marketplace_api_v.Order.Notify.{
  StatusEvent, Notify, history_limit, list_or_empty, is_stale, shift, bounded, record_event,
}

-- Ids grow strictly along a history.
abbrev pub IsIncreasing : List StatusEvent → Type 0
IsIncreasing [] = Unit
IsIncreasing (e ∷ []) = Unit
IsIncreasing (e ∷ f ∷ events) = (e.id < f.id) × IsIncreasing (f ∷ events)

abbrev pub IsOf : ℕ → StatusEvent → Type 0
IsOf order e = e.order_id ≡ order

-- Each order's history holds events of that order alone, with growing ids, and at most the limit of them.
pub record IsValid (s : Notify) : Type 0 where
  pub increasing : (order : ℕ) → IsIncreasing (list_or_empty (lookup order s.history))
  pub own : (order : ℕ) → All (IsOf order) (list_or_empty (lookup order s.history))
  pub within : (order : ℕ) → length (list_or_empty (lookup order s.history)) ≤ history_limit

pub append-IsIncreasing :
    (events : List StatusEvent) (e : StatusEvent)
    → IsIncreasing events
    → is_stale events e.id ≡ false
    → IsIncreasing (events ++ e ∷ [])
unfolding is_stale
append-IsIncreasing [] e h new = tt
append-IsIncreasing (f ∷ []) e h new = (ground (arith, new), tt)
append-IsIncreasing (f ∷ g ∷ events) e h new = (h.0, append-IsIncreasing (g ∷ events) e h.1 new)

shift-IsIncreasing : (events : List StatusEvent) → IsIncreasing events → IsIncreasing (shift events)
shift-IsIncreasing [] h = tt
shift-IsIncreasing (e ∷ []) h = tt
shift-IsIncreasing (e ∷ f ∷ events) h = h.1

bounded-IsIncreasing :
    (events : List StatusEvent) → IsIncreasing events → IsIncreasing (bounded events)
bounded-IsIncreasing events h = elim (Bool-cases (ltb history_limit (length events))) [
  | inl full ↦ rw full (shift-IsIncreasing events h)
  | inr room ↦ rw room h
]

append-IsOf :
    (order : ℕ) (events : List StatusEvent) (e : StatusEvent)
    → All (IsOf order) events
    → IsOf order e
    → All (IsOf order) (events ++ e ∷ [])
append-IsOf order [] e h new = (new, tt)
append-IsOf order (f ∷ events) e h new = (h.0, append-IsOf order events e h.1 new)

bounded-IsOf :
    (order : ℕ) (events : List StatusEvent)
    → All (IsOf order) events
    → All (IsOf order) (bounded events)
bounded-IsOf order [] h = tt
bounded-IsOf order (e ∷ events) h = elim (Bool-cases (ltb history_limit (length (e ∷ events)))) [
  | inl full ↦ rw full h.1
  | inr room ↦ rw room h
]

length-bounded :
    (events : List StatusEvent)
    → length events ≤ suc history_limit
    → length (bounded events) ≤ history_limit
length-bounded [] h = omega arith
length-bounded (e ∷ events) h = ground arith

-- The history of an order after an event, whichever order it is of.
pub history-record_event :
    (e : StatusEvent) (s : Notify) (order : ℕ)
    → is_stale (list_or_empty (lookup e.order_id s.history)) e.id ≡ false
    → list_or_empty (lookup order (record_event e s).history) ≡ (
        if e.order_id == order
        then bounded (list_or_empty (lookup e.order_id s.history) ++ e ∷ [])
        else list_or_empty (lookup order s.history))
unfolding record_event
history-record_event e s order new =
    rw
      (
        record_event,
        new,
        lookup-put e.order_id order
            (bounded (list_or_empty (lookup e.order_id s.history) ++ e ∷ [])) s.history,
      )
      (either (e.order_id == order))
  where
    either :
        (b : Bool)
        → list_or_empty (
            if b
            then some (bounded (list_or_empty (lookup e.order_id s.history) ++ e ∷ []))
            else lookup order s.history)
          ≡ (if b
              then bounded (list_or_empty (lookup e.order_id s.history) ++ e ∷ [])
              else list_or_empty (lookup order s.history))
    either true = refl
    either false = refl

pub record_event-stale :
    (e : StatusEvent) (s : Notify)
    → is_stale (list_or_empty (lookup e.order_id s.history)) e.id ≡ true
    → record_event e s ≡ s
unfolding record_event
record_event-stale e s old = rw (record_event, old) refl

module _ (e : StatusEvent) (s : Notify) (v : IsValid s)
    (new : is_stale (list_or_empty (lookup e.order_id s.history)) e.id ≡ false) where
  abbrev held_events : List StatusEvent
  held_events = list_or_empty (lookup e.order_id s.history)

  new-IsValid : IsValid (record_event e s)
  new-IsValid = record {
    increasing = λ order.
        rw (history-record_event e s order new) (elim (Bool-cases (e.order_id == order)) [
          | inl same ↦ rw same (
              bounded-IsIncreasing (held_events ++ e ∷ [])
                (append-IsIncreasing held_events e (v.increasing e.order_id) new))
          | inr other ↦ rw other (v.increasing order)
        ]);
    own = λ order.
        rw (history-record_event e s order new) (elim (Bool-cases (e.order_id == order)) [
          | inl same ↦ rw same (
              bounded-IsOf order (held_events ++ e ∷ []) (
                append-IsOf order held_events e
                  (subst (λ k. All (IsOf k) held_events) (ground (arith, same)) (v.own e.order_id))
                  (ground (arith, same))))
          | inr other ↦ rw other (v.own order)
        ]);
    within = λ order.
        rw (history-record_event e s order new) (elim (Bool-cases (e.order_id == order)) [
          | inl same ↦ rw same (
              length-bounded (held_events ++ e ∷ [])
                (omega (arith, length-append held_events (e ∷ []), v.within e.order_id)))
          | inr other ↦ rw other (v.within order)
        ]);
  }

-- Recording an event, stale or not, keeps the histories right: each holds events of its own order alone, with strictly
-- growing ids, and at most the limit of them.
pub record_event-IsValid : (e : StatusEvent) (s : Notify) → IsValid s → IsValid (record_event e s)
record_event-IsValid e s v =
    elim (Bool-cases (is_stale (list_or_empty (lookup e.order_id s.history)) e.id)) [
      | inl old ↦ rw (record_event-stale e s old) v
      | inr new ↦ new-IsValid e s v new
    ]
