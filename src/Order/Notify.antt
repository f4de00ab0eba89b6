-- ===== src/Order/Notify.antt =====
-- src/order/service/order-notify.service.ts and src/order/gateway/order-notify-events.gateway.ts: the events of each order
-- that a client can still ask for, and the listeners.
use marketplace_api_v.Common.{
  ℕ, ◌+◌, Bool, false, not, Option, none, some, List, [], ◌∷◌, ◌++◌, map, ltb, leb, ◌==◌,
  if◌then◌else◌, any, keep, length, Table, lookup, put, without_key,
}
use marketplace_api_v.Order.Store.{
  Order, OrderStatus, pending_payment, paid, OrderEvent, order_created, order_paid, order_failed,
}

-- `OrderStatusEvent`
pub record StatusEvent : Type 0 where
  pub id : ℕ
  pub order_id : ℕ
  pub status : OrderStatus

-- A listener is a number; `delivered` is what the calls of the listeners have been given.
pub record Notify : Type 0 where
  pub history : Table (List StatusEvent)
  pub listeners : Table (List ℕ)
  pub delivered : List (ℕ × StatusEvent)

-- `ORDER_EVENT_HISTORY_LIMIT`
abbrev pub history_limit : ℕ
history_limit = 100

-- `this.history.get(orderId) ?? []`, and so for the listeners
abbrev pub list_or_empty : {A : Type 0} → Option (List A) → List A
list_or_empty none = []
list_or_empty (some l) = l

-- `history.length > 0 && history[history.length - 1].id >= event.id`
unfoldable pub is_stale : List StatusEvent → ℕ → Bool
is_stale [] id = false
is_stale (e ∷ []) id = leb id e.id
is_stale (e ∷ f ∷ events) id = is_stale (f ∷ events) id

-- `shift`, past the limit.
abbrev pub shift : List StatusEvent → List StatusEvent
shift [] = []
shift (e ∷ events) = events

abbrev pub bounded : List StatusEvent → List StatusEvent
bounded events = if ltb history_limit (length events) then shift events else events

-- `record`
unfoldable pub record_event : StatusEvent → Notify → Notify
record_event e s =
    let events = list_or_empty (lookup e.order_id s.history) in
    if is_stale events e.id then s else record s {
      history = put e.order_id (bounded (events ++ e ∷ [])) s.history;
      delivered = s.delivered ++ map (λ l. (l, e)) (list_or_empty (lookup e.order_id s.listeners));
    }

-- `getAfter`
unfoldable pub get_after : ℕ → ℕ → Notify → List StatusEvent
get_after order last s =
    keep (λ (e : StatusEvent). ltb last e.id) (list_or_empty (lookup order s.history))

-- `subscribe`: a set holds a listener once.
unfoldable pub subscribe : ℕ → ℕ → Notify → Notify
subscribe order listener s =
    let set = list_or_empty (lookup order s.listeners) in
    record s {
      listeners =
          put order (if any (λ l. l == listener) set then set else set ++ listener ∷ [])
            s.listeners;
    }

-- The function that `subscribe` returns, which the end of a stream calls once: an order without listeners has no set.
unfoldable pub unsubscribe : ℕ → ℕ → Notify → Notify
unsubscribe order listener s =
    let left = keep (λ l. not (l == listener)) (list_or_empty (lookup order s.listeners)) in
    record s {
      listeners =
          if length left == 0 then without_key order s.listeners else put order left s.listeners;
    }

-- `toStatus`
abbrev pub to_status : OrderEvent → OrderStatus
to_status (order_created o) = pending_payment
to_status (order_paid o lines) = paid
to_status (order_failed o failure) = failure.status

abbrev pub order_of : OrderEvent → Order
order_of (order_created o) = o
order_of (order_paid o lines) = o
order_of (order_failed o failure) = o

-- `OrderNotifyEventsGateway.handle`, on an event that the schema accepts, at its offset in the partition.
unfoldable pub handle_event : ℕ → OrderEvent → Notify → Notify
unfolding record_event
handle_event offset event =
    record_event
      (record { id = offset + 1; order_id = (order_of event).id; status = to_status event })
