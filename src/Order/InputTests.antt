-- ===== src/Order/InputTests.antt =====
-- An example of an order from its validation to the gateways (src/order/input/order-create.input.ts).
use marketplace_api_v.Common.{◌≡◌, refl, true, some, arith, ok}
use marketplace_api_v.Money.Text.{to_fixed}
use marketplace_api_v.Samples.{
  uuids, account_db, stock_db, order_db, order_input, buyer, fresh, priced_items, two_items,
}
use marketplace_api_v.Account.Gateway.{
  charge_response_type, refund_response_type, handle_customer_charge, handle_customer_refund,
  respond_charge, respond_refund, deliver_reply,
}
use marketplace_api_v.SellerOffer.Store.{find_by_ids}
use marketplace_api_v.SellerOffer.Commands.{execute_reserve, execute_release}
use marketplace_api_v.SellerOffer.Gateway.{
  handle_stock_reserve, handle_stock_release, answer_reserve, answer_release,
}
use marketplace_api_v.Identity.Forms.{is_e164}
use marketplace_api_v.Order.Store.{Order, OrderDb}
use marketplace_api_v.Order.Place.{
  to_price_item_or_fail, price_items, create_recipient, create_order, create_items, refuses_lines,
  announce_created, create_new,
}
use marketplace_api_v.Order.Placed.{new_order, with_order}
use marketplace_api_v.Order.Messages.{
  to_account_customer_charge_request, to_account_customer_refund_request, to_stock_reserve_request,
  to_stock_release_request,
}
use marketplace_api_v.Order.Input.{is_country, is_valid_order_input}
use marketplace_api_v.Order.Valid.{create_new-requests_accepted}

abbrev placed : Order
placed = new_order order_input buyer (some 6) fresh priced_items order_db

abbrev placed_db : OrderDb
placed_db = with_order order_input fresh priced_items placed order_db

placed_anew : create_new order_input buyer (some 6) fresh stock_db order_db ≡ (ok placed, placed_db)
unfolding create_new find_by_ids create_recipient price_items to_price_item_or_fail create_order
    create_items refuses_lines announce_created
placed_anew = refl

input_valid : is_valid_order_input order_input ≡ true
unfolding is_valid_order_input is_country is_e164
input_valid = refl

create_new-requests_accepted_example :
    (handle_customer_charge uuids
        (some (to_account_customer_charge_request uuids 8 1 (to_fixed 650)))
        account_db
      ≡ deliver_reply charge_response_type
          (to_account_customer_charge_request uuids 8 1 (to_fixed 650))
          (respond_charge 8 (record { customer_id = 1; amount = 650 }) account_db))
    × (handle_customer_refund uuids
          (some (to_account_customer_refund_request uuids 8 1 (to_fixed 650)))
          account_db
        ≡ deliver_reply refund_response_type
            (to_account_customer_refund_request uuids 8 1 (to_fixed 650))
            (respond_refund 8 (record { customer_id = 1; amount = 650; charge_id = 8 }) account_db))
    × (handle_stock_reserve uuids (some (to_stock_reserve_request uuids 8 two_items)) stock_db
        ≡ answer_reserve
            (to_stock_reserve_request uuids 8 two_items)
            (execute_reserve 8 two_items stock_db))
    × (handle_stock_release uuids (some (to_stock_release_request uuids 8)) stock_db
        ≡ answer_release (to_stock_release_request uuids 8) (execute_release 8 stock_db))
create_new-requests_accepted_example =
    create_new-requests_accepted uuids order_input buyer (some 6) fresh stock_db order_db placed_db
      placed account_db stock_db placed_anew input_valid refl (omega arith) (omega arith)
      (omega arith)
