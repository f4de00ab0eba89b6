-- ===== src/Order/StartTests.antt =====
-- An example of a placement whose workflow is started (src/order/service/order-workflow-outbox-relay.service.ts).
use marketplace_api_v.Common.{◌≡◌, refl, true, false, none, [], arith, ok}
use marketplace_api_v.SellerOffer.Store.{find_by_ids}
use marketplace_api_v.Outbox.Sent.{is_in}
use marketplace_api_v.Outbox.Workflows.{StartTick, already_started, relay_workflows}
use marketplace_api_v.Order.Store.{Order, OrderDb}
use marketplace_api_v.Order.Place.{
  execute_place, find_buyer, create_pending, create_new, create_recipient, price_items,
  to_price_item_or_fail, create_order, create_items, announce_created,
}
use marketplace_api_v.Order.Placed.{new_order, with_order}
use marketplace_api_v.Order.Started.{execute_place-relay_workflows}
use marketplace_api_v.Samples.{stock_db, order_db, order_input, fresh, buyer, priced_items}

abbrev placed : Order
placed = new_order order_input buyer none fresh priced_items order_db

abbrev placed_db : OrderDb
placed_db = with_order order_input fresh priced_items placed order_db

placed_now : execute_place order_input 4 none fresh stock_db order_db ≡ (ok placed, placed_db)
unfolding execute_place find_buyer create_pending create_new create_recipient price_items
    to_price_item_or_fail create_order create_items announce_created find_by_ids
placed_now = refl

-- Temporal has the workflow already.
abbrev tick : StartTick
tick = record { answer = λ r. already_started; locked = λ i. false; now = 120; commits = true }

execute_place-relay_workflows_example :
    is_in 8
      (relay_workflows tick
        (record { rows = placed_db.workflow_outbox; log = []; relaying = false })).log
    ≡ true
execute_place-relay_workflows_example =
    execute_place-relay_workflows order_input 4 fresh stock_db order_db placed placed_db tick []
      placed_now (λ r. refl) refl (omega arith)
