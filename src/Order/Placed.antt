-- ===== src/Order/Placed.antt =====
-- What a placement that returns has done (src/order/command-handler/order-place.command-handler.ts).
use marketplace_api_v.Common.{
  ℕ, suc, ◌<◌, ◌≡◌, refl, false, ◌||◌, Option, List, ◌++◌, map, arith, leb, ap, ◌∙◌, sym, any,
  sum_of, Table, put, ok, pure, continue_with, ◌>>=◌, ◌>>◌, continue_with_inv, Bool-cases, inl, inr,
}
use marketplace_api_v.Account.Store.{money_limit}
use marketplace_api_v.SellerOffer.Store.{Offer, StockDb, find_by_ids}
use marketplace_api_v.SellerOffer.Commands.{offer_ids}
use marketplace_api_v.Outbox.Store.{new_row, create}
use marketplace_api_v.Order.Store.{Order, OrderDb, OrderBuyer, order_created, Call}
use marketplace_api_v.Order.Place.{
  OrderInput, Fresh, PricedOrderLine, price_items, lift, found_or_error, create_recipient,
  takes_key, order_row, create_order, to_line, create_items, refuses_lines, workflow_input,
  announce_created, create_new,
}

-- The order that is created.
abbrev pub new_order :
    OrderInput → OrderBuyer → Option ℕ → Fresh → List PricedOrderLine → OrderDb → Order
new_order input buyer key fresh items db =
    order_row buyer db.next_recipient_id items input.currency key fresh db.next_order_id

-- The tables after the placement: one more order, recipient, event and workflow to start, and a line for
-- each item.
abbrev pub with_order : OrderInput → Fresh → List PricedOrderLine → Order → OrderDb → OrderDb
with_order input fresh items o db = record {
  orders = put db.next_order_id o db.orders;
  lines = db.lines ++ map (to_line db.next_order_id) items;
  recipients = put db.next_recipient_id input.recipient db.recipients;
  buyers = db.buyers;
  outbox = create (new_row fresh.event_id fresh.now (order_created o)) db.outbox;
  workflow_outbox =
      create (new_row o.public_id fresh.now (workflow_input o input.items)) db.workflow_outbox;
  next_order_id = suc db.next_order_id;
  next_recipient_id = suc db.next_recipient_id;
}

module _ (input : OrderInput) (buyer : OrderBuyer) (key : Option ℕ) (fresh : Fresh)
    (stock : StockDb) where
  pub record Placed (db : OrderDb) (o : Order) (s : OrderDb) : Type 0 where
    pub offers : Table Offer
    pub items : List PricedOrderLine
    pub read : found_or_error (find_by_ids (offer_ids input.items) stock).0 ≡ ok offers
    pub priced : price_items input.items offers ≡ ok items
    pub fits : sum_of (λ p. p.amount) items < money_limit
    pub storable : refuses_lines items ≡ false
    pub key_free : any (λ (row : ℕ × Order). takes_key buyer.user_id key row.1) db.orders ≡ false
    pub order : o ≡ new_order input buyer key fresh items db
    pub state : s ≡ with_order input fresh items (new_order input buyer key fresh items db) db

  create_order_inv :
      (recipient : ℕ) (items : List PricedOrderLine) (db : OrderDb) (o : Order) (s : OrderDb)
      → create_order buyer recipient items input.currency key fresh db ≡ (ok o, s)
      → (sum_of (λ p. p.amount) items < money_limit)
        × (any (λ (row : ℕ × Order). takes_key buyer.user_id key row.1) db.orders ≡ false)
        × (o ≡ order_row buyer recipient items input.currency key fresh db.next_order_id)
        × (s ≡ record db {
          orders =
              put db.next_order_id
                (order_row buyer recipient items input.currency key fresh db.next_order_id)
                db.orders;
          next_order_id = suc db.next_order_id;
        })
  unfolding create_order
  create_order_inv recipient items db o s h =
      elim (Bool-cases (
        leb money_limit (sum_of (λ p. p.amount) items)
        || leb money_limit (sum_of (λ p. p.discount) items)
        || any (λ (row : ℕ × Order). takes_key buyer.user_id key row.1) db.orders)) [
          | inl bad ↦ cc (rw bad at h)
          | inr good ↦ (ground arith, ground arith, cc (rw good at h), cc (rw good at h))
        ]

  create_items_inv :
      (items : List PricedOrderLine) (id : ℕ) (db : OrderDb) (u : Unit {0}) (s : OrderDb)
      → create_items items id db ≡ (ok u, s)
      → (refuses_lines items ≡ false)
        × (s ≡ record db { lines = db.lines ++ map (to_line id) items })
  unfolding create_items
  create_items_inv items id db u s h = elim (Bool-cases (refuses_lines items)) [
    | inl bad ↦ cc (rw bad at h)
    | inr good ↦ (good, cc (rw good at h))
  ]

  -- The steps of `create_new`, from the last to the first.
  abbrev announced : Order → Unit {0} → Call Order
  announced o u = announce_created o input.items fresh >> pure o

  abbrev lined : List PricedOrderLine → Order → Call Order
  lined items o = create_items items o.id >>= announced o

  abbrev ordered : ℕ → List PricedOrderLine → Call Order
  ordered recipient items =
      create_order buyer recipient items input.currency key fresh >>= lined items

  abbrev received : Table Offer → ℕ → Call Order
  received offers recipient = lift (price_items input.items offers) >>= ordered recipient

  abbrev begun : Table Offer → Call Order
  begun offers = create_recipient input.recipient >>= received offers

  create_new-begun :
      (db : OrderDb)
      → create_new input buyer key fresh stock db
        ≡ continue_with begun (found_or_error (find_by_ids (offer_ids input.items) stock).0, db)
  unfolding create_new
  create_new-begun db = refl

  abbrev with_recipient : OrderDb → OrderDb
  with_recipient db = record db {
    recipients = put db.next_recipient_id input.recipient db.recipients;
    next_recipient_id = suc db.next_recipient_id;
  }

  -- The steps' results put together.
  assemble :
      (db : OrderDb) (o : Order) (s : OrderDb) (items : List PricedOrderLine) (order : Order)
      (t₂ t₃ t₄ : OrderDb)
      → with_recipient db ≡ t₂
      → any (λ (row : ℕ × Order). takes_key buyer.user_id key row.1) t₂.orders ≡ false
      → order ≡ order_row buyer db.next_recipient_id items input.currency key fresh t₂.next_order_id
      → t₃ ≡ record t₂ {
        orders =
            put t₂.next_order_id
              (order_row buyer db.next_recipient_id items input.currency key fresh t₂.next_order_id)
              t₂.orders;
        next_order_id = suc t₂.next_order_id;
      }
      → t₄ ≡ record t₃ { lines = t₃.lines ++ map (to_line order.id) items }
      → announced order tt t₄ ≡ (ok o, s)
      → (any (λ (row : ℕ × Order). takes_key buyer.user_id key row.1) db.orders ≡ false)
        × (o ≡ new_order input buyer key fresh items db)
        × (s ≡ with_order input fresh items (new_order input buyer key fresh items db) db)
  unfolding announce_created
  assemble db o s items order t₂ t₃ t₄ e₂ free order_eq e₃ e₄ h = (cc, cc, cc)

  -- What follows the pricing.
  ordered_inv :
      (db : OrderDb) (o : Order) (s : OrderDb) (items : List PricedOrderLine) (t₂ : OrderDb)
      → with_recipient db ≡ t₂
      → ordered db.next_recipient_id items t₂ ≡ (ok o, s)
      → (sum_of (λ p. p.amount) items < money_limit)
        × (refuses_lines items ≡ false)
        × (any (λ (row : ℕ × Order). takes_key buyer.user_id key row.1) db.orders ≡ false)
        × (o ≡ new_order input buyer key fresh items db)
        × (s ≡ with_order input fresh items (new_order input buyer key fresh items db) db)
  ordered_inv db o s items t₂ t₂_eq h₂ =
      let (order, t₃, created, h₃) =
        continue_with_inv (lined items)
          (create_order buyer db.next_recipient_id items input.currency key fresh t₂) o s h₂ in
      let (u, t₄, written, h₄) =
        continue_with_inv (announced order) (create_items items order.id t₃) o s h₃ in
      let (fits, free, order_eq, t₃_eq) =
        create_order_inv db.next_recipient_id items t₂ order t₃ created in
      let (storable, t₄_eq) = create_items_inv items order.id t₃ u t₄ written in
      let parts = assemble db o s items order t₂ t₃ t₄ t₂_eq free order_eq t₃_eq t₄_eq h₄ in
      (fits, storable, parts.0, parts.1, parts.2)

  -- A new placement that returns has done all of it.
  pub create_new_inv :
      (db : OrderDb) (o : Order) (s : OrderDb)
      → create_new input buyer key fresh stock db ≡ (ok o, s)
      → Placed db o s
  unfolding create_recipient
  create_new_inv db o s h =
      let (offers, t₁, read, h₁) =
        continue_with_inv begun (found_or_error (find_by_ids (offer_ids input.items) stock).0, db) o
          s (sym (create_new-begun db) ∙ h) in
      let received_before : received offers db.next_recipient_id (with_recipient db) ≡ (ok o, s) =
        cc in
      let (items, t₂, priced, h₂) =
        continue_with_inv (ordered db.next_recipient_id)
          (price_items input.items offers, with_recipient db) o s received_before in
      let w = ordered_inv db o s items t₂ (ap (λ r. r.1) priced) h₂ in
      record {
        offers = offers;
        items = items;
        read = ap (λ r. r.0) read;
        priced = ap (λ r. r.0) priced;
        fits = w.0;
        storable = w.1;
        key_free = w.2;
        order = w.3;
        state = w.4;
      }
