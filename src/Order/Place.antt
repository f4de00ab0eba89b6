-- ===== src/Order/Place.antt =====
-- src/order/command-handler/order-place.command-handler.ts: the placement of an order. The offers are read in the
-- same transaction, so the stock tables come as an argument; so do the UUIDs that are generated and the
-- time. Prices, quantities and totals are exact here: the totals are sums and products of cents on doubles in
-- the source, which `toFixed(2)` rounds to the same cents up to the 10^12 that the columns hold.
use marketplace_api_v.Common.{
  ℕ, suc, ◌-◌, ◌*◌, Bool, false, not, ◌&&◌, ◌||◌, Option, none, some, List, [], ◌∷◌, ◌++◌, map, leb,
  ◌==◌, if◌then◌else◌, any, sum_of, Table, lookup, put, Result, ok, err, pure, ◌>>=◌, ◌>>◌,
  transactional,
}
use marketplace_api_v.Money.Text.{to_fixed}
use marketplace_api_v.Account.Store.{money_limit}
use marketplace_api_v.SellerOffer.Store.{
  Offer, Item, Currency, StockDb, StockError, find_by_ids, integer_limit,
}
use marketplace_api_v.SellerOffer.Commands.{offer_ids}
use marketplace_api_v.Outbox.Store.{new_row, create}
use marketplace_api_v.Order.Store.{
  Order, OrderLine, OrderBuyer, OrderRecipient, WorkflowInput, order_created, Call, pending_payment,
  buyer_not_ready, offer_missing, database_error, OrderError,
}

-- `OrderCreateInput`
pub record OrderInput : Type 0 where
  pub recipient : OrderRecipient
  pub items : List Item
  pub currency : Currency

-- What the transaction generates: the order's public id, the id of its event, and the time.
pub record Fresh : Type 0 where
  pub public_id : ℕ
  pub event_id : ℕ
  pub now : ℕ

-- `PricedOrderLine`
pub record PricedOrderLine : Type 0 where
  pub offer_id : ℕ
  pub quantity : ℕ
  pub unit_price : ℕ
  pub unit_discount_price : Option ℕ
  pub amount : ℕ
  pub discount : ℕ

-- `discountPrice !== null ? Number(discountPrice) : price`
abbrev pub effective_price : ℕ → Option ℕ → ℕ
effective_price price none = price
effective_price price (some d) = d

abbrev pub priced : Item → Offer → PricedOrderLine
priced item offer =
    let discount_price = effective_price offer.price offer.discount_price in
    record {
      offer_id = item.offer_id;
      quantity = item.quantity;
      unit_price = offer.price;
      unit_discount_price = offer.discount_price;
      amount = discount_price * item.quantity;
      discount = (offer.price - discount_price) * item.quantity;
    }

-- `toPriceItemOrFail`
unfoldable pub to_price_item_or_fail : Item → Table Offer → Result OrderError PricedOrderLine
to_price_item_or_fail item offers = elim (lookup item.offer_id offers) [
  | none ↦ err (offer_missing item.offer_id)
  | some offer ↦ ok (priced item offer)
]

abbrev pub prepend :
    PricedOrderLine
    → Result OrderError (List PricedOrderLine)
    → Result OrderError (List PricedOrderLine)
prepend p (ok ps) = ok (p ∷ ps)
prepend p (err e) = err e

-- `input.items.map((item) => this.toPriceItemOrFail(item, offersById))`
unfoldable pub price_items : List Item → Table Offer → Result OrderError (List PricedOrderLine)
price_items [] offers = ok []
price_items (item ∷ items) offers =
    let rest = price_items items offers in
    elim (to_price_item_or_fail item offers) [ err e ↦ err e | ok p ↦ prepend p rest ]

-- A result as a call.
abbrev pub lift : {A : Type 0} → Result OrderError A → Call A
lift r db = (r, db)

-- `this.offers.findByIds(…)`; a value out of range makes PostgreSQL throw.
abbrev pub found_or_error : Result StockError (Table Offer) → Result OrderError (Table Offer)
found_or_error (ok offers) = ok offers
found_or_error (err e) = err database_error

unfoldable pub create_recipient : OrderRecipient → Call ℕ
create_recipient r db = (
  ok db.next_recipient_id,
  record db {
    recipients = put db.next_recipient_id r db.recipients;
    next_recipient_id = suc db.next_recipient_id;
  },
)

-- The unique constraint on `(userId, idempotencyKey)`.
abbrev pub takes_key : ℕ → Option ℕ → Order → Bool
takes_key user none o = false
takes_key user (some k) o =
    (o.user_id == user) && elim o.idempotency_key [ none ↦ false | some j ↦ j == k ]

-- The row that `createOrder` inserts, under its identity column's next value.
abbrev pub order_row :
    OrderBuyer → ℕ → List PricedOrderLine → Currency → Option ℕ → Fresh → ℕ → Order
order_row buyer recipient items currency key fresh id = record {
  id = id;
  public_id = fresh.public_id;
  user_id = buyer.user_id;
  recipient_id = recipient;
  idempotency_key = key;
  owner_identity = some buyer.identity_public_id;
  status = pending_payment;
  total_amount = sum_of (λ p. p.amount) items;
  discount_amount = sum_of (λ p. p.discount) items;
  currency = currency;
  deleted = false;
}

-- `createOrder` with `OrderRepository.create`; a total beyond its column, or a key that the buyer has used,
-- makes PostgreSQL throw.
unfoldable pub create_order :
    OrderBuyer → ℕ → List PricedOrderLine → Currency → Option ℕ → Fresh → Call Order
create_order buyer recipient items currency key fresh db =
    if leb money_limit (sum_of (λ p. p.amount) items)
      || leb money_limit (sum_of (λ p. p.discount) items)
      || any (λ (row : ℕ × Order). takes_key buyer.user_id key row.1) db.orders
    then (err database_error, db)
    else (
      ok (order_row buyer recipient items currency key fresh db.next_order_id),
      record db {
        orders =
            put db.next_order_id
              (order_row buyer recipient items currency key fresh db.next_order_id) db.orders;
        next_order_id = suc db.next_order_id;
      },
    )

abbrev pub to_line : ℕ → PricedOrderLine → OrderLine
to_line order_id p = record {
  order_id = order_id;
  offer_id = p.offer_id;
  quantity = p.quantity;
  unit_price = p.unit_price;
  unit_discount_price = p.unit_discount_price;
}

-- Whether the primary key `(orderId, offerId)` or the column of the quantity refuses the lines.
unfoldable pub refuses_lines : List PricedOrderLine → Bool
refuses_lines [] = false
refuses_lines (p ∷ ps) =
    leb integer_limit p.quantity
    || any (λ (q : PricedOrderLine). q.offer_id == p.offer_id) ps
    || refuses_lines ps

-- `createItems` with `OrderLineRepository.create`
unfoldable pub create_items : List PricedOrderLine → ℕ → Call (Unit {0})
unfolding refuses_lines
create_items items order_id db =
    if refuses_lines items
    then (err database_error, db)
    else (ok tt, record db { lines = db.lines ++ map (to_line order_id) items })

-- `toOrderPlaceWorkflowOutbox`; the workflow id `order-place-<publicId>` is told by the public id.
abbrev pub workflow_input : Order → List Item → WorkflowInput
workflow_input o items = record {
  order_id = o.id;
  order_public_id = o.public_id;
  user_id = o.user_id;
  total_amount = to_fixed o.total_amount;
  items = items;
}

-- `outbox.create(toOrderCreatedOutbox(order))` and `workflowOutbox.create(…)`
unfoldable pub announce_created : Order → List Item → Fresh → Call (Unit {0})
announce_created o items fresh db = (
  ok tt,
  record db {
    outbox = create (new_row fresh.event_id fresh.now (order_created o)) db.outbox;
    workflow_outbox =
        create (new_row o.public_id fresh.now (workflow_input o items)) db.workflow_outbox;
  },
)

-- `createPending` past the idempotency key.
unfoldable pub create_new : OrderInput → OrderBuyer → Option ℕ → Fresh → StockDb → Call Order
create_new input buyer key fresh stock = do
  offers ← lift (found_or_error (find_by_ids (offer_ids input.items) stock).0)
  recipient ← create_recipient input.recipient
  items ← lift (price_items input.items offers)
  order ← create_order buyer recipient items input.currency key fresh
  create_items items order.id
  announce_created order input.items fresh
  pure order

-- `findByIdempotencyKey`: a soft-deleted order is not found.
unfoldable pub find_by_key : ℕ → ℕ → Table Order → Option Order
find_by_key user k [] = none
find_by_key user k ((i, o) ∷ rows) =
    if takes_key user (some k) o && not o.deleted then some o else find_by_key user k rows

abbrev pub placed_or : Option Order → Call Order → Call Order
placed_or none create = create
placed_or (some o) create = pure o

-- `createPending`; the advisory lock on `(userId, key)` makes these steps one at a time for a key.
unfoldable pub create_pending : OrderInput → OrderBuyer → Option ℕ → Fresh → StockDb → Call Order
create_pending input buyer none fresh stock =
    transactional (create_new input buyer none fresh stock)
create_pending input buyer (some k) fresh stock = transactional (λ db.
    placed_or (find_by_key buyer.user_id k db.orders) (create_new input buyer (some k) fresh stock)
      db)

-- `findByIdentityPublicId`
unfoldable pub find_buyer : ℕ → List OrderBuyer → Option OrderBuyer
find_buyer identity [] = none
find_buyer identity (b ∷ bs) =
    if b.identity_public_id == identity then some b else find_buyer identity bs

-- `OrderPlaceCommandHandler.execute`
unfoldable pub execute_place : OrderInput → ℕ → Option ℕ → Fresh → StockDb → Call Order
execute_place input identity key fresh stock db = elim (find_buyer identity db.buyers) [
  | none ↦ (err buyer_not_ready, db)
  | some buyer ↦ create_pending input buyer key fresh stock db
]
