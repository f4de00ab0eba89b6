-- ===== src/Order/HistoryTests.antt =====
-- Examples of the notifications (src/order/service/order-notify.service.ts).
use marketplace_api_v.Common.{◌≡◌, refl, false, [], ◌∷◌, ◌++◌, arith, lookup}
use marketplace_api_v.Order.Store.{pending_payment, paid}
use marketplace_api_v.Order.Notify.{
  StatusEvent, Notify, list_or_empty, is_stale, record_event, get_after,
}
use marketplace_api_v.Order.Recorded.{IsValid}
use marketplace_api_v.Order.History.{get_after-record_event}
use marketplace_api_v.Order.Stream.{open_stream, stay_connected, record_all}
use marketplace_api_v.Order.Streamed.{stay_connected-open_stream}

abbrev created : StatusEvent
created = record { id = 4; order_id = 3; status = pending_payment }

abbrev settled : StatusEvent
settled = record { id = 8; order_id = 3; status = paid }

-- One client listens to order 3.
abbrev start : Notify
start = record { history = (3, created ∷ []) ∷ []; listeners = (3, 1 ∷ []) ∷ []; delivered = [] }

start-IsValid : IsValid start
start-IsValid = record {
  increasing = λ order. ground arith;
  own = λ order. ground arith;
  within = λ order. ground arith;
}

newer : is_stale (list_or_empty (lookup 3 start.history)) 8 ≡ false
unfolding is_stale
newer = refl

get_after-record_event_example :
    get_after 3 4 (record_event settled start) ≡ get_after 3 4 start ++ settled ∷ []
get_after-record_event_example = get_after-record_event 4 settled start newer (omega arith) refl

-- The second event is one that is delivered again.
stay_connected-open_stream_example :
    stay_connected 3 (settled ∷ created ∷ []) start (open_stream 3 1 start)
    ≡ open_stream 3 1 (record_all (settled ∷ created ∷ []) start)
stay_connected-open_stream_example =
    stay_connected-open_stream 3 1 (settled ∷ created ∷ []) start start-IsValid (omega arith)
