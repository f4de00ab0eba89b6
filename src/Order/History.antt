-- ===== src/Order/History.antt =====
-- What a client that comes back is sent (src/order/service/order-notify.service.ts).
use marketplace_api_v.Common.{
  ℕ, ◌<◌, ◌≡◌, refl, ◌∙◌, Bool, true, false, ◌||◌, List, [], ◌∷◌, ◌++◌, arith, ltb, leb, ==_refl,
  keep, keep-append, length, length-append, lookup, Bool-cases, inl, inr,
}
use marketplace_api_v.Order.Notify.{
  StatusEvent, Notify, history_limit, list_or_empty, is_stale, bounded, record_event, get_after,
}
use marketplace_api_v.Order.Recorded.{history-record_event, record_event-stale}

is_stale-append :
    (events : List StatusEvent) (e : StatusEvent) → is_stale (events ++ e ∷ []) e.id ≡ true
unfolding is_stale
is_stale-append [] e = ground arith
is_stale-append (f ∷ []) e = ground arith
is_stale-append (f ∷ g ∷ events) e = is_stale-append (g ∷ events) e

is_stale-bounded :
    (events : List StatusEvent) (e : StatusEvent)
    → is_stale (bounded (events ++ e ∷ [])) e.id ≡ true
is_stale-bounded [] e = is_stale-append [] e
is_stale-bounded (f ∷ events) e =
    elim (Bool-cases (ltb history_limit (length ((f ∷ events) ++ e ∷ [])))) [
      | inl full ↦ rw full (is_stale-append events e)
      | inr room ↦ rw room (is_stale-append (f ∷ events) e)
    ]

-- An event that is delivered again is not recorded again, and no listener is called a second time.
pub record_event-again :
    (e : StatusEvent) (s : Notify) → record_event e (record_event e s) ≡ record_event e s
record_event-again e s =
    elim (Bool-cases (is_stale (list_or_empty (lookup e.order_id s.history)) e.id)) [
      | inl old ↦ rw (record_event-stale e s old) (record_event-stale e s old)
      | inr new ↦ record_event-stale e (record_event e s) (
          rw (history-record_event e s e.order_id new, ==_refl e.order_id)
            (is_stale-bounded (list_or_empty (lookup e.order_id s.history)) e))
    ]

-- Whether a client that has seen the events up to an id loses none when one more is recorded: the history has room, or
-- the client has seen the first of it.
abbrev pub covers : ℕ → List StatusEvent → Bool
covers seen [] = true
covers seen (f ∷ events) = ltb (length (f ∷ events)) history_limit || leb f.id seen

keep-append_one :
    (p : StatusEvent → Bool) (events : List StatusEvent) (e : StatusEvent)
    → p e ≡ true
    → keep p (events ++ e ∷ []) ≡ keep p events ++ e ∷ []
keep-append_one p events e h = keep-append p events (e ∷ []) ∙ rw h refl

keep-bounded :
    (seen : ℕ) (events : List StatusEvent) (e : StatusEvent)
    → seen < e.id
    → covers seen events ≡ true
    → keep (λ (f : StatusEvent). ltb seen f.id) (bounded (events ++ e ∷ []))
      ≡ keep (λ (f : StatusEvent). ltb seen f.id) events ++ e ∷ []
keep-bounded seen [] e later c = ground arith
keep-bounded seen (f ∷ events) e later c =
    elim (Bool-cases (ltb history_limit (length ((f ∷ events) ++ e ∷ [])))) [
      | inl full ↦
          rw (full, first_seen full)
            (keep-append_one (λ (g : StatusEvent). ltb seen g.id) events e (ground arith))
      | inr room ↦
          rw room
            (keep-append_one (λ (g : StatusEvent). ltb seen g.id) (f ∷ events) e (ground arith))
    ]
  where
    first_seen : ltb history_limit (length ((f ∷ events) ++ e ∷ [])) ≡ true → ltb seen f.id ≡ false
    first_seen full = ground (arith, length-append events (e ∷ []), c)

-- A client that comes back with the last id it has seen is sent what it has missed: a new event is added at the end of
-- what `getAfter` gives, and nothing before it is lost, unless the history is full and the client has not
-- even seen its first event. The event is newer than what the history holds and than what the client has seen.
pub get_after-record_event :
    (seen : ℕ) (e : StatusEvent) (s : Notify)
    → is_stale (list_or_empty (lookup e.order_id s.history)) e.id ≡ false
    → seen < e.id
    → covers seen (list_or_empty (lookup e.order_id s.history)) ≡ true
    → get_after e.order_id seen (record_event e s) ≡ get_after e.order_id seen s ++ e ∷ []
unfolding get_after
get_after-record_event seen e s new later c =
    rw (history-record_event e s e.order_id new, ==_refl e.order_id)
      (keep-bounded seen (list_or_empty (lookup e.order_id s.history)) e later c)
