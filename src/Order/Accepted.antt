-- ===== src/Order/Accepted.antt =====
-- The requests of src/order/service/order-place-message.service.ts at the gateways that receive them.
use marketplace_api_v.Common.{
  ℕ, ◌≤◌, ◌<◌, ◌≡◌, refl, true, some, List, [], ◌∷◌, map, every, arith, length, ◌≢◌, All, ok, ap,
}
use marketplace_api_v.Money.Text.{to_fixed}
use marketplace_api_v.Money.Fixed.{cents_of-to_fixed, is_amount-to_fixed}
use marketplace_api_v.Messaging.{text, UuidText, uuid_of, uuid_or_zero, nack}
use marketplace_api_v.Account.Store.{AccountDb, money_limit}
use marketplace_api_v.Account.Gateway.{
  charge_response_type, refund_response_type, is_valid_charge, is_valid_refund,
  handle_customer_charge, handle_customer_refund, respond_charge, respond_refund, deliver_reply,
}
use marketplace_api_v.SellerOffer.Store.{Item, StockDb}
use marketplace_api_v.SellerOffer.Commands.{execute_reserve, execute_release}
use marketplace_api_v.SellerOffer.Gateway.{
  is_valid_item, is_valid_reserve, is_valid_release, to_item, handle_stock_reserve,
  handle_stock_release, answer_reserve, answer_release,
}
use marketplace_api_v.Order.Messages.{
  safe_limit, item_fields, to_account_customer_charge_request, to_account_customer_refund_request,
  to_stock_reserve_request, to_stock_release_request,
}

-- The items that an order's tables can hold: some, each with positive safe numbers.
pub record AreSafe (items : List Item) : Type 0 where
  pub nonempty : length items ≢ 0
  pub each :
      All
        (λ i.
          (0 < i.offer_id)
          × (i.offer_id ≤ safe_limit)
          × (0 < i.quantity)
          × (i.quantity ≤ safe_limit))
        items

to_item-item_fields : (items : List Item) → map to_item (map item_fields items) ≡ items
to_item-item_fields [] = refl
to_item-item_fields (i ∷ items) = rw (to_item-item_fields items)

every_valid :
    (items : List Item)
    → All
        (λ i.
          (0 < i.offer_id)
          × (i.offer_id ≤ safe_limit)
          × (0 < i.quantity)
          × (i.quantity ≤ safe_limit))
        items
    → every is_valid_item (map item_fields items) ≡ true
every_valid [] h = refl
every_valid (i ∷ items) h = rw (every_valid items h.1) (ground (arith, h.0))

module _ (uuids : UuidText) (order : ℕ) (generated : uuids.is_generated order ≡ true) where
  order_read : uuid_of uuids (text (uuids.print order)) ≡ order
  order_read = ap uuid_or_zero (uuids.read-print order generated)

  module _ (customer cents : ℕ) (known : 0 < customer) (safe : customer ≤ safe_limit)
      (positive : 0 < cents) (small : cents < money_limit) where
    charge_valid :
        is_valid_charge uuids
          (to_account_customer_charge_request uuids order customer (to_fixed cents))
        ≡ true
    unfolding is_valid_charge to_account_customer_charge_request
    charge_valid =
        rw
          (
            uuids.read-print order generated,
            is_amount-to_fixed cents small,
            cents_of-to_fixed cents,
          )
          (ground arith)

    refund_valid :
        is_valid_refund uuids
          (to_account_customer_refund_request uuids order customer (to_fixed cents))
        ≡ true
    unfolding is_valid_refund to_account_customer_refund_request
    refund_valid =
        rw
          (
            uuids.read-print order generated,
            is_amount-to_fixed cents small,
            cents_of-to_fixed cents,
          )
          (ground arith)

    -- The charge request of an order is accepted by the account gateway, which charges the customer the
    -- order's total under the order's public id. The id is a generated one, the customer's number is
    -- positive and safe, and the total is positive and fits its column.
    pub handle_customer_charge-accepted :
        (db : AccountDb)
        → let m = to_account_customer_charge_request uuids order customer (to_fixed cents) in
          handle_customer_charge uuids (some m) db
          ≡ deliver_reply charge_response_type m
              (respond_charge order (record { customer_id = customer; amount = cents }) db)
    unfolding handle_customer_charge to_account_customer_charge_request
    handle_customer_charge-accepted db = rw charge_valid (λ i.
        deliver_reply charge_response_type
          (to_account_customer_charge_request uuids order customer (to_fixed cents))
          (respond_charge (order_read i)
            (record { customer_id = customer; amount = cents_of-to_fixed cents i }) db))

    -- The refund request of an order is accepted by the account gateway, which refunds the order's total
    -- for the charge that has the order's public id, under the same conditions.
    pub handle_customer_refund-accepted :
        (db : AccountDb)
        → let m = to_account_customer_refund_request uuids order customer (to_fixed cents) in
          handle_customer_refund uuids (some m) db
          ≡ deliver_reply refund_response_type m (
              respond_refund order
                (record { customer_id = customer; amount = cents; charge_id = order })
                db)
    unfolding handle_customer_refund to_account_customer_refund_request
    handle_customer_refund-accepted db = rw refund_valid (λ i.
        deliver_reply refund_response_type
          (to_account_customer_refund_request uuids order customer (to_fixed cents))
          (respond_refund (order_read i)
            (record {
              customer_id = customer;
              amount = cents_of-to_fixed cents i;
              charge_id = order_read i;
            })
            db))

  reserve_valid :
      (items : List Item)
      → AreSafe items
      → is_valid_reserve uuids (to_stock_reserve_request uuids order items) ≡ true
  unfolding is_valid_reserve to_stock_reserve_request
  reserve_valid [] h = absurd (h.nonempty refl)
  reserve_valid (i ∷ items) h =
      rw (uuids.read-print order generated, every_valid items h.each.1) (ground (arith, h.each))

  -- The reserve request of an order is accepted by the seller-offer gateway, which reserves the order's
  -- items under its public id. The id is a generated one, and the items are some, with positive safe numbers.
  pub handle_stock_reserve-accepted :
      (items : List Item) (db : StockDb)
      → AreSafe items
      → let m = to_stock_reserve_request uuids order items in
        handle_stock_reserve uuids (some m) db ≡ answer_reserve m (execute_reserve order items db)
  unfolding handle_stock_reserve to_stock_reserve_request
  handle_stock_reserve-accepted items db h = rw (reserve_valid items h) (λ i.
      answer_reserve (to_stock_reserve_request uuids order items)
        (execute_reserve (order_read i) (to_item-item_fields items i) db))

  release_valid : is_valid_release uuids (to_stock_release_request uuids order) ≡ true
  unfolding is_valid_release to_stock_release_request
  release_valid = rw (uuids.read-print order generated)

  -- The release request of an order is accepted by the seller-offer gateway, which releases what is held under the
  -- order's public id, if that is a generated one.
  pub handle_stock_release-accepted :
      (db : StockDb)
      → let m = to_stock_release_request uuids order in
        handle_stock_release uuids (some m) db ≡ answer_release m (execute_release order db)
  unfolding handle_stock_release to_stock_release_request
  handle_stock_release-accepted db = rw release_valid (λ i.
      answer_release (to_stock_release_request uuids order) (execute_release (order_read i) db))

-- The requests that an order sends are accepted by the gateways that receive them. The charge request charges the
-- customer the order's total under the order's public id, the refund request refunds the total for the charge that
-- has that id, the reserve request reserves the order's items under it, and the release request releases
-- what is held under it. The id is a generated one, the customer's number is positive and safe, the total
-- is positive and fits its column, and the items are some, with positive safe numbers.
pub requests-accepted :
    (uuids : UuidText) (order customer cents : ℕ) (items : List Item) (db : AccountDb)
    (stock : StockDb)
    → uuids.is_generated order ≡ true
    → 0 < customer
    → customer ≤ safe_limit
    → 0 < cents
    → cents < money_limit
    → AreSafe items
    → (handle_customer_charge uuids
          (some (to_account_customer_charge_request uuids order customer (to_fixed cents)))
          db
        ≡ deliver_reply charge_response_type
            (to_account_customer_charge_request uuids order customer (to_fixed cents))
            (respond_charge order (record { customer_id = customer; amount = cents }) db))
      × (handle_customer_refund uuids
            (some (to_account_customer_refund_request uuids order customer (to_fixed cents)))
            db
          ≡ deliver_reply refund_response_type
              (to_account_customer_refund_request uuids order customer (to_fixed cents))
              (respond_refund order
                (record { customer_id = customer; amount = cents; charge_id = order })
                db))
      × (handle_stock_reserve uuids (some (to_stock_reserve_request uuids order items)) stock
          ≡ answer_reserve
              (to_stock_reserve_request uuids order items)
              (execute_reserve order items stock))
      × (handle_stock_release uuids (some (to_stock_release_request uuids order)) stock
          ≡ answer_release (to_stock_release_request uuids order) (execute_release order stock))
requests-accepted uuids order customer cents items db stock generated known safe positive small
      storable =
    (
      handle_customer_charge-accepted uuids order generated customer cents known safe positive small
          db,
      handle_customer_refund-accepted uuids order generated customer cents known safe positive small
          db,
      handle_stock_reserve-accepted uuids order generated items stock storable,
      handle_stock_release-accepted uuids order generated stock,
    )

-- An order whose total is zero can be neither charged nor refunded: the gateway answers both requests
-- with `Nack(false)` and changes nothing, so neither is ever replied to.
pub zero_total-nack :
    (uuids : UuidText) (order customer : ℕ) (db : AccountDb)
    → (handle_customer_charge uuids
          (some (to_account_customer_charge_request uuids order customer (to_fixed 0)))
          db
        ≡ (ok nack, db))
      × (handle_customer_refund uuids
            (some (to_account_customer_refund_request uuids order customer (to_fixed 0)))
            db
          ≡ (ok nack, db))
unfolding handle_customer_charge handle_customer_refund is_valid_charge is_valid_refund
    to_account_customer_charge_request to_account_customer_refund_request
zero_total-nack uuids order customer db =
    (ground (arith, cents_of-to_fixed 0), ground (arith, cents_of-to_fixed 0))
