-- ===== src/Order/Streamed.antt =====
-- A client that stays connected and one that comes back are sent the same (src/order/controller/orders.controller.ts).
use mathlib.Core.List.{append-nil, append_assoc, map-append}
use marketplace_api_v.Common.{
  ℕ, suc, ◌+◌, ◌<◌, ◌≤◌, ◌≡◌, refl, sym, ap, ◌∙◌, subst, true, false, List, [], ◌∷◌, ◌++◌, map,
  arith, ltb, leb, ◌==◌, ==_refl, keep, keep-append, length, length-append, lookup, Bool-cases, inl,
  inr,
}
use marketplace_api_v.Order.Notify.{
  StatusEvent, Notify, history_limit, list_or_empty, is_stale, bounded, record_event, get_after,
}
use marketplace_api_v.Order.Recorded.{
  IsIncreasing, IsValid, append-IsIncreasing, history-record_event, record_event-stale,
  record_event-IsValid,
}
use marketplace_api_v.Order.Newer.{
  IsAbove, newest, is_after, keep-IsAbove, newest-append, newest-lt, newest-ge,
}
use marketplace_api_v.Order.Stream.{
  MessageEvent, connected, order_status, Client, write_event, emit_all, open_stream, hear,
  stay_connected, record_all,
}

emit_all-above :
    (events : List StatusEvent) (n : ℕ) (sent : List MessageEvent)
    → IsAbove n events
    → emit_all events (record { last_sent = n; sent = sent })
      ≡ record { last_sent = newest n events; sent = sent ++ map order_status events }
unfolding emit_all
emit_all-above [] n sent h = rw (append-nil sent) refl
emit_all-above (e ∷ events) n sent h =
    let new : leb e.id n ≡ false = ground (arith, h.0) in
    rw
      (
        new,
        emit_all-above events e.id (sent ++ order_status e ∷ []) h.1,
        append_assoc sent (order_status e ∷ []) (map order_status events),
      )
      refl

abbrev history_of : ℕ → Notify → List StatusEvent
history_of order s = list_or_empty (lookup order s.history)

abbrev after_of : ℕ → List StatusEvent → List StatusEvent
after_of last events = keep (is_after last) events

-- What a client has been sent when it has been sent some events.
abbrev told : ℕ → List StatusEvent → Client
told last events = record {
  last_sent = newest last events;
  sent = connected ∷ map order_status events;
}

open_stream-told :
    (order last : ℕ) (s : Notify)
    → IsValid s
    → open_stream order last s ≡ told last (after_of last (history_of order s))
unfolding open_stream get_after
open_stream-told order last s v =
    emit_all-above (after_of last (history_of order s)) last (connected ∷ [])
      (keep-IsAbove last (history_of order s) (v.increasing order))

write_event-told :
    (last : ℕ) (e : StatusEvent) (events : List StatusEvent)
    → IsIncreasing events
    → IsIncreasing (events ++ e ∷ [])
    → write_event e (told last (after_of last events))
      ≡ told last (after_of last (events ++ e ∷ []))
write_event-told last e events h k = elim (Bool-cases (ltb last e.id)) [
  | inl later ↦
      let split : after_of last (events ++ e ∷ []) ≡ after_of last events ++ e ∷ [] =
        keep-append (is_after last) events (e ∷ []) ∙ rw later refl in
      let above = subst (IsAbove last) split (keep-IsAbove last (events ++ e ∷ []) k) in
      let new : leb e.id (newest last (after_of last events)) ≡ false =
        ground (arith, newest-lt last (after_of last events) e above) in
      rw
        (
          split,
          new,
          newest-append last (after_of last events) e,
          map-append order_status (after_of last events) (e ∷ []),
        )
        refl
  | inr seen ↦
      let split : after_of last (events ++ e ∷ []) ≡ after_of last events =
        keep-append (is_after last) events (e ∷ []) ∙ rw seen (append-nil (after_of last events)) in
      let old : leb e.id (newest last (after_of last events)) ≡ true =
        ground (arith, newest-ge last (after_of last events) (keep-IsAbove last events h)) in
      rw (split, old) refl
]

bounded-room : (events : List StatusEvent) → length events ≤ history_limit → bounded events ≡ events
bounded-room events h =
    let room : ltb history_limit (length events) ≡ false = ground arith in rw room refl

hear_own :
    (last : ℕ) (e : StatusEvent) (s : Notify)
    → IsValid s
    → is_stale (history_of e.order_id s) e.id ≡ false
    → length (history_of e.order_id s) < history_limit
    → write_event e (told last (after_of last (history_of e.order_id s)))
      ≡ told last (after_of last (history_of e.order_id (record_event e s)))
hear_own last e s v new room =
    let H = history_of e.order_id s in
    let longer : length (H ++ e ∷ []) ≤ history_limit = omega (arith, length-append H (e ∷ [])) in
    rw
      (
        history-record_event e s e.order_id new,
        ==_refl e.order_id,
        bounded-room (H ++ e ∷ []) longer,
      )
      (write_event-told last e H (v.increasing e.order_id)
        (append-IsIncreasing H e (v.increasing e.order_id) new))

hear-told :
    (order last : ℕ) (e : StatusEvent) (s : Notify)
    → IsValid s
    → length (history_of order s) < history_limit
    → hear order e s (told last (after_of last (history_of order s)))
      ≡ told last (after_of last (history_of order (record_event e s)))
hear-told order last e s v room = elim (Bool-cases (is_stale (history_of e.order_id s) e.id)) [
  | inl old ↦ elim (Bool-cases (e.order_id == order)) [
    | inl same ↦ rw (record_event-stale e s old, old, same) refl
    | inr other ↦ rw (record_event-stale e s old, old, other) refl
  ]
  | inr new ↦ elim (Bool-cases (e.order_id == order)) [
    | inr other ↦ rw (history-record_event e s order new, new, other) refl
    | inl same ↦
        let own : e.order_id ≡ order = ground arith in
        rw (new, same)
          (subst
            (λ (i : ℕ).
              write_event e (told last (after_of last (history_of i s)))
              ≡ told last (after_of last (history_of i (record_event e s))))
            own
            (hear_own last e s v new
              (subst (λ (i : ℕ). length (history_of i s) < history_limit) (sym own) room)))
  ]
]

-- An order's history grows by one event at most.
length-record_event :
    (order : ℕ) (e : StatusEvent) (s : Notify)
    → length (history_of order s) < history_limit
    → length (history_of order (record_event e s)) ≤ suc (length (history_of order s))
length-record_event order e s room = elim (Bool-cases (is_stale (history_of e.order_id s) e.id)) [
  | inl old ↦ rw (record_event-stale e s old) (omega arith)
  | inr new ↦ rw (history-record_event e s order new) (elim (Bool-cases (e.order_id == order)) [
    | inr other ↦ rw other (omega arith)
    | inl same ↦
        let own : e.order_id ≡ order = ground arith in
        let same_length = ap (λ (i : ℕ). length (history_of i s)) own in
        let grown = length-append (history_of e.order_id s) (e ∷ []) in
        let fits =
          bounded-room (history_of e.order_id s ++ e ∷ []) (omega (arith, grown, same_length)) in
        rw (same, fits, grown) (omega (arith, same_length))
  ])
]

stay_connected-told :
    (order last : ℕ) (events : List StatusEvent) (s : Notify)
    → IsValid s
    → length (history_of order s) + length events ≤ history_limit
    → stay_connected order events s (told last (after_of last (history_of order s)))
      ≡ open_stream order last (record_all events s)
unfolding stay_connected record_all
stay_connected-told order last [] s v room = sym (open_stream-told order last s v)
stay_connected-told order last (e ∷ events) s v room =
    let has_room : length (history_of order s) < history_limit = omega (arith, room) in
    rw (hear-told order last e s v has_room) (
      stay_connected-told order last events (record_event e s) (record_event-IsValid e s v)
        (omega (arith, room, length-record_event order e s has_room)))

-- A client that stays connected while events are recorded has been sent what a client is sent that connects
-- afterwards with the same last event id, and nothing else. The histories are valid, and the order's history has
-- room for the events.
pub stay_connected-open_stream :
    (order last : ℕ) (events : List StatusEvent) (s : Notify)
    → IsValid s
    → length (list_or_empty (lookup order s.history)) + length events ≤ history_limit
    → stay_connected order events s (open_stream order last s)
      ≡ open_stream order last (record_all events s)
stay_connected-open_stream order last events s v room =
    rw (open_stream-told order last s v) (stay_connected-told order last events s v room)
