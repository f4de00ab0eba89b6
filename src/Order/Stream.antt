-- ===== src/Order/Stream.antt =====
-- src/order/controller/orders.controller.ts: the stream of an order's events that a client listens to.
use marketplace_api_v.Common.{ℕ, not, List, [], ◌∷◌, ◌++◌, leb, ◌==◌, ◌&&◌, if◌then◌else◌, lookup}
use marketplace_api_v.Order.Notify.{
  StatusEvent, Notify, list_or_empty, is_stale, record_event, get_after,
}

-- What `subscriber.next` is given.
pub data MessageEvent : Type 0 where
  connected : MessageEvent
  order_status : StatusEvent → MessageEvent

-- `lastSentId`, and what has been sent.
pub record Client : Type 0 where
  pub last_sent : ℕ
  pub sent : List MessageEvent

-- `writeEvent`
abbrev pub write_event : StatusEvent → Client → Client
write_event e c =
    if leb e.id c.last_sent
    then c
    else record { last_sent = e.id; sent = c.sent ++ order_status e ∷ [] }

-- The loop over `getAfter`
unfoldable pub emit_all : List StatusEvent → Client → Client
emit_all [] c = c
emit_all (e ∷ events) c = emit_all events (write_event e c)

-- `events`: what a client of an order is sent when it connects with a last event id, which is 0 without the header. No
-- event is recorded between `subscribe` and the loop, since the code does not await.
unfoldable pub open_stream : ℕ → ℕ → Notify → Client
open_stream order last s =
    emit_all (get_after order last s) (record { last_sent = last; sent = connected ∷ [] })

-- What the client's listener is called with when the service records an event.
abbrev pub hear : ℕ → StatusEvent → Notify → Client → Client
hear order e s c =
    if (e.order_id == order) && not (is_stale (list_or_empty (lookup e.order_id s.history)) e.id)
    then write_event e c
    else c

-- The service and a client that stays connected, over the events that are recorded.
unfoldable pub stay_connected : ℕ → List StatusEvent → Notify → Client → Client
stay_connected order [] s c = c
stay_connected order (e ∷ events) s c =
    stay_connected order events (record_event e s) (hear order e s c)

unfoldable pub record_all : List StatusEvent → Notify → Notify
record_all [] s = s
record_all (e ∷ events) s = record_all events (record_event e s)
