-- ===== src/Order/Tests.antt =====
-- Examples of the order service (src/order).
use marketplace_api_v.Common.{◌≡◌, refl, some, [], ◌∷◌, arith, ok, put}
use marketplace_api_v.Money.Text.{to_fixed}
use marketplace_api_v.Account.Gateway.{handle_customer_charge, handle_customer_refund}
use marketplace_api_v.Messaging.{nack}
use marketplace_api_v.Order.Store.{
  Order, OrderDb, OrderFailure, canceled, error, paid, with_status, order_paid, order_failed,
}
use marketplace_api_v.Outbox.Store.{new_row}
use marketplace_api_v.Order.Status.{lines_of, mark_paid, mark_failed, mark_cases}
use marketplace_api_v.Order.Messages.{
  to_account_customer_charge_request, to_account_customer_refund_request,
}
use marketplace_api_v.Order.Accepted.{AreSafe, zero_total-nack}
use marketplace_api_v.Order.Workflow.{order_place_workflow}
use marketplace_api_v.Order.Activity.{World, Schedule, expires, loses_reply, answers, activities}
use marketplace_api_v.Order.Saga.Outcome.{Outcome, order_place_workflow-Outcome}
use marketplace_api_v.Order.Place.{
  execute_place, find_buyer, create_pending, find_by_key, create_new, create_recipient, price_items,
  to_price_item_or_fail, create_order, create_items, announce_created,
}
use marketplace_api_v.Order.Placed.{new_order, with_order}
use marketplace_api_v.SellerOffer.Store.{find_by_ids}
use marketplace_api_v.Order.Repeated.{execute_place-again}
use marketplace_api_v.Samples.{
  uuids, account_db, stock_db, stock_db-IsValid, two_items, pending_order, order_db, order_input,
  fresh, buyer, priced_items,
}

two_items-AreSafe : AreSafe two_items
two_items-AreSafe = record { nonempty = λ h. omega (arith, h); each = omega arith }

abbrev failure : OrderFailure
failure = record { status = canceled; reason = error }

-- The first charge loses its reply, and the first release expires.
abbrev plan : Schedule
plan = record {
  reserve_attempts = answers ∷ [];
  charge_attempts = loses_reply ∷ expires ∷ [];
  refund_attempts = loses_reply ∷ answers ∷ [];
  release_attempts = expires ∷ answers ∷ [];
  fresh = 20;
  now = 200;
}

abbrev world : World
world = record { account = account_db; stock = stock_db; order = order_db }

order_place_workflow-Outcome_example :
    Outcome uuids plan 3 7 1 650 700 two_items refl
      (omega arith)
      (omega arith)
      (omega arith)
      (omega arith)
      (omega arith)
      two_items-AreSafe
      pending_order
      refl
      refl
      stock_db
      stock_db-IsValid
      refl
      (order_place_workflow
        (activities uuids plan)
        (record {
          order_id = 3;
          order_public_id = 7;
          user_id = 1;
          total_amount = to_fixed 650;
          items = two_items;
        })
        world)
order_place_workflow-Outcome_example =
    order_place_workflow-Outcome uuids plan 3 7 1 650 700 two_items refl (omega arith) (omega arith)
      (omega arith) (omega arith) (omega arith) two_items-AreSafe pending_order refl refl stock_db
      stock_db-IsValid refl world refl (refl, refl, refl) refl

zero_total-nack_example :
    (handle_customer_charge uuids
        (some (to_account_customer_charge_request uuids 7 1 (to_fixed 0)))
        account_db
      ≡ (ok nack, account_db))
    × (handle_customer_refund uuids
          (some (to_account_customer_refund_request uuids 7 1 (to_fixed 0)))
          account_db
        ≡ (ok nack, account_db))
zero_total-nack_example = zero_total-nack uuids 7 1 account_db

mark_cases_example :
    (mark_paid 20 200 3 order_db ≡ (
      ok tt,
      record order_db {
        orders = put 3 (with_status paid pending_order) order_db.orders;
        outbox =
            new_row 20 200 (order_paid (with_status paid pending_order) (lines_of 3 order_db.lines))
            ∷ [];
      },
    ))
    × (mark_failed 20 200 3 failure order_db ≡ (
      ok tt,
      record order_db {
        orders = put 3 (with_status canceled pending_order) order_db.orders;
        outbox = new_row 20 200 (order_failed (with_status canceled pending_order) failure) ∷ [];
      },
    ))
mark_cases_example = mark_cases 20 200 3 pending_order order_db failure refl refl

abbrev placed : Order
placed = new_order order_input buyer (some 6) fresh priced_items order_db

abbrev placed_db : OrderDb
placed_db = with_order order_input fresh priced_items placed order_db

-- The placement itself: 3.50 and two times 1.50, and 0.50 of discount.
execute_place_test :
    execute_place order_input 4 (some 6) fresh stock_db order_db ≡ (ok placed, placed_db)
unfolding execute_place find_buyer create_pending find_by_key create_new create_recipient
    price_items to_price_item_or_fail create_order create_items announce_created find_by_ids
execute_place_test = refl

-- The same key again, with no items and at another time.
execute_place-again_example :
    execute_place
      (record order_input { items = [] })
      4
      (some 6)
      (record { public_id = 9; event_id = 12; now = 300 })
      stock_db
      placed_db
    ≡ (ok placed, placed_db)
execute_place-again_example =
    execute_place-again 6 4 order_input (record order_input { items = [] }) fresh
      (record { public_id = 9; event_id = 12; now = 300 }) stock_db stock_db order_db placed
      placed_db execute_place_test
