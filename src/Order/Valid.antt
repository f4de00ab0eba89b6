-- ===== src/Order/Valid.antt =====
-- From the validation of an order's input to the gateways that receive its requests (src/order/input/order-create.input.ts,
-- src/order/command-handler/order-place.command-handler.ts, src/order/service/order-place-message.service.ts).
use marketplace_api_v.Common.{
  ℕ, ◌≤◌, ◌<◌, ◌≡◌, refl, ap, sym, subst, Bool, true, false, ◌&&◌, Option, some, List, [], ◌∷◌,
  arith, leb, any, every, All, length, ◌≢◌, Result, ok, err, Table, lookup, Bool-cases,
  Option-cases, inl, inr, sum_of,
}
use marketplace_api_v.Money.Text.{to_fixed}
use marketplace_api_v.Messaging.{UuidText}
use marketplace_api_v.Account.Store.{AccountDb, money_limit}
use marketplace_api_v.Account.Gateway.{
  charge_response_type, refund_response_type, handle_customer_charge, handle_customer_refund,
  respond_charge, respond_refund, deliver_reply,
}
use marketplace_api_v.SellerOffer.Store.{Offer, Item, StockDb, find_by_ids, integer_limit}
use marketplace_api_v.SellerOffer.Commands.{offer_ids, execute_reserve, execute_release}
use marketplace_api_v.SellerOffer.Gateway.{
  handle_stock_reserve, handle_stock_release, answer_reserve, answer_release,
}
use marketplace_api_v.Order.Store.{Order, OrderBuyer, OrderDb, OrderError}
use marketplace_api_v.Order.Place.{
  OrderInput, Fresh, PricedOrderLine, priced, prepend, to_price_item_or_fail, price_items,
  found_or_error, refuses_lines, create_new,
}
use marketplace_api_v.Order.Placed.{create_new_inv}
use marketplace_api_v.Order.Messages.{
  safe_limit, to_account_customer_charge_request, to_account_customer_refund_request,
  to_stock_reserve_request, to_stock_release_request,
}
use marketplace_api_v.Order.Accepted.{AreSafe, requests-accepted}
use marketplace_api_v.Order.Input.{
  is_valid_recipient, is_valid_item_input, is_nonempty, is_valid_order_input,
}

abbrev IsSafe : Item → Type 0
IsSafe i =
    (0 < i.offer_id) × (i.offer_id ≤ safe_limit) × (0 < i.quantity) × (i.quantity ≤ safe_limit)

found-small :
    (ids : List ℕ) (stock : StockDb) (offers : Table Offer)
    → found_or_error (find_by_ids ids stock).0 ≡ ok offers
    → any (λ i. leb integer_limit i) ids ≡ false
unfolding find_by_ids
found-small ids stock offers h = elim (Bool-cases (any (λ i. leb integer_limit i) ids)) [
  | inl large ↦ cc (rw (find_by_ids, large) at h)
  | inr small ↦ small
]

prepend_inv :
    (i : Item) (is : List Item) (o : Offer) (offers : Table Offer) (ps : List PricedOrderLine)
    (r : Result OrderError (List PricedOrderLine))
    → price_items is offers ≡ r
    → prepend (priced i o) r ≡ ok ps
    → (p : PricedOrderLine) × (qs : List PricedOrderLine) × (p.quantity ≡ i.quantity)
      × (price_items is offers ≡ ok qs)
      × (ps ≡ p ∷ qs)
prepend_inv i is o offers ps (ok qs) e h = (priced i o, qs, refl, e, cc (h))
prepend_inv i is o offers ps (err x) e h = cc

price_items_inv :
    (i : Item) (is : List Item) (offers : Table Offer) (ps : List PricedOrderLine)
    → price_items (i ∷ is) offers ≡ ok ps
    → (p : PricedOrderLine) × (qs : List PricedOrderLine) × (p.quantity ≡ i.quantity)
      × (price_items is offers ≡ ok qs)
      × (ps ≡ p ∷ qs)
unfolding price_items to_price_item_or_fail
price_items_inv i is offers ps h = elim (Option-cases (lookup i.offer_id offers)) [
  | inl gone ↦ cc (rw (price_items, to_price_item_or_fail, gone) at h)
  | inr (o, found) ↦
      prepend_inv i is o offers ps (price_items is offers) refl
        (rw (price_items, to_price_item_or_fail, found) at h)
]

price_items-IsSafe :
    (is : List Item) (offers : Table Offer) (ps : List PricedOrderLine)
    → price_items is offers ≡ ok ps
    → refuses_lines ps ≡ false
    → any (λ n. leb integer_limit n) (offer_ids is) ≡ false
    → every is_valid_item_input is ≡ true
    → All IsSafe is
unfolding refuses_lines
price_items-IsSafe [] offers ps priced storable small valid = tt
price_items-IsSafe (i ∷ is) offers ps priced storable small valid =
    let (p, qs, quantity, rest, e) = price_items_inv i is offers ps priced in
    let kept : refuses_lines (p ∷ qs) ≡ false = rw e at storable in
    (
      ground (arith, quantity),
      price_items-IsSafe is offers qs rest (ground arith) (ground arith) (ground arith),
    )

nonempty-length : (is : List Item) → is_nonempty is ≡ true → length is ≢ 0
nonempty-length [] h k = cc
nonempty-length (i ∷ is) h k = absurd (omega (arith, k))

and_inv : (a b : Bool) → (a && b) ≡ true → (a ≡ true) × (b ≡ true)
and_inv true b h = (refl, h)
and_inv false b h = cc

-- The items of a placement that returns are safe, if its input is valid.
pub create_new-AreSafe :
    (input : OrderInput) (buyer : OrderBuyer) (key : Option ℕ) (fresh : Fresh) (stock : StockDb)
    (db s : OrderDb) (o : Order)
    → create_new input buyer key fresh stock db ≡ (ok o, s)
    → is_valid_order_input input ≡ true
    → AreSafe input.items
unfolding is_valid_order_input
create_new-AreSafe input buyer key fresh stock db s o h valid =
    let w = create_new_inv input buyer key fresh stock db o s h in
    let (recipient, items) =
      and_inv (is_valid_recipient input.recipient)
        (is_nonempty input.items && every is_valid_item_input input.items) valid in
    let (some_items, each) =
      and_inv (is_nonempty input.items) (every is_valid_item_input input.items) items in
    record {
      nonempty = nonempty-length input.items some_items;
      each =
          price_items-IsSafe input.items w.offers w.items w.priced w.storable
            (found-small (offer_ids input.items) stock w.offers w.read) each;
    }

-- What a valid input orders can be reserved, released, charged and refunded: once it is placed anew, the gateways accept
-- the four requests that the order sends. The charge request charges the buyer the order's total under its
-- public id, the refund request refunds it for the charge of that id, the reserve request reserves the
-- items of the input, and the release request releases what is held. The public id is a generated
-- one, the buyer's number is positive and safe, and the total is positive.
pub create_new-requests_accepted :
    (uuids : UuidText) (input : OrderInput) (buyer : OrderBuyer) (key : Option ℕ) (fresh : Fresh)
    (stock : StockDb) (db s : OrderDb) (o : Order) (accounts : AccountDb) (later : StockDb)
    → create_new input buyer key fresh stock db ≡ (ok o, s)
    → is_valid_order_input input ≡ true
    → uuids.is_generated o.public_id ≡ true
    → 0 < o.user_id
    → o.user_id ≤ safe_limit
    → 0 < o.total_amount
    → (handle_customer_charge uuids
          (some (
            to_account_customer_charge_request uuids o.public_id o.user_id
              (to_fixed o.total_amount)))
          accounts
        ≡ deliver_reply charge_response_type
            (to_account_customer_charge_request uuids o.public_id o.user_id
              (to_fixed o.total_amount))
            (respond_charge o.public_id
              (record { customer_id = o.user_id; amount = o.total_amount })
              accounts))
      × (handle_customer_refund uuids
            (some (
              to_account_customer_refund_request uuids o.public_id o.user_id
                (to_fixed o.total_amount)))
            accounts
          ≡ deliver_reply refund_response_type
              (to_account_customer_refund_request uuids o.public_id o.user_id
                (to_fixed o.total_amount))
              (respond_refund o.public_id
                (record {
                  customer_id = o.user_id;
                  amount = o.total_amount;
                  charge_id = o.public_id;
                })
                accounts))
      × (handle_stock_reserve uuids
            (some (to_stock_reserve_request uuids o.public_id input.items))
            later
          ≡ answer_reserve
              (to_stock_reserve_request uuids o.public_id input.items)
              (execute_reserve o.public_id input.items later))
      × (handle_stock_release uuids (some (to_stock_release_request uuids o.public_id)) later
          ≡ answer_release
              (to_stock_release_request uuids o.public_id)
              (execute_release o.public_id later))
create_new-requests_accepted uuids input buyer key fresh stock db s o accounts later h valid
      generated known safe positive =
    let w = create_new_inv input buyer key fresh stock db o s h in
    let total : o.total_amount ≡ sum_of (λ p. p.amount) w.items =
      ap (λ (x : Order). x.total_amount) w.order in
    requests-accepted uuids o.public_id o.user_id o.total_amount input.items accounts later
      generated known safe positive (subst (λ (n : ℕ). n < money_limit) (sym total) w.fits)
      (create_new-AreSafe input buyer key fresh stock db s o h valid)
