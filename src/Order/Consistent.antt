-- ===== src/Order/Consistent.antt =====
-- The amounts of the stored orders (src/order/command-handler/order-place.command-handler.ts).
use marketplace_api_v.Common.{
  ℕ, suc, ◌*◌, ◌<◌, ◌≡◌, ◌≢◌, refl, sym, ap, ◌∙◌, true, false, Option, some, List, [], ◌∷◌, ◌++◌,
  map, arith, ◌==◌, ==_refl, ==_ne, if◌then◌else◌, sum_of, sum_of-append, All, All-append, Table,
  lookup, put, lookup-put, Result, ok, err, Bool-cases, inl, inr, Option-cases,
}
use marketplace_api_v.SellerOffer.Store.{Offer, Item}
use marketplace_api_v.Order.Store.{Order, OrderLine, OrderDb, OrderBuyer, OrderError}
use marketplace_api_v.Order.Place.{
  OrderInput, Fresh, PricedOrderLine, effective_price, priced, to_price_item_or_fail, prepend,
  price_items, to_line,
}
use marketplace_api_v.Order.Placed.{new_order, with_order}

-- What a line costs, counted for one order only.
abbrev pub line_total : ℕ → OrderLine → ℕ
line_total id l =
    if l.order_id == id then effective_price l.unit_price l.unit_discount_price * l.quantity else 0

abbrev pub lines_total : ℕ → List OrderLine → ℕ
lines_total id = sum_of (line_total id)

abbrev pub IsBelow : ℕ → OrderLine → Type 0
IsBelow n l = l.order_id < n

-- Each order has an id below the next one and the total of its lines, and no line is of an order to come.
pub record IsConsistent (db : OrderDb) : Type 0 where
  pub below : (id : ℕ) (o : Order) → lookup id db.orders ≡ some o → id < db.next_order_id
  pub totals :
      (id : ℕ) (o : Order) → lookup id db.orders ≡ some o → o.total_amount ≡ lines_total id db.lines
  pub lines_below : All (IsBelow db.next_order_id) db.lines

lines_total-below : (n : ℕ) (ls : List OrderLine) → All (IsBelow n) ls → lines_total n ls ≡ 0
lines_total-below n [] h = refl
lines_total-below n (l ∷ ls) (b, h) =
    rw (==_ne l.order_id n (omega arith)) (omega (arith, lines_total-below n ls h))

lines_total-other :
    (n id : ℕ) (ps : List PricedOrderLine) → n ≢ id → lines_total id (map (to_line n) ps) ≡ 0
lines_total-other n id [] h = refl
lines_total-other n id (p ∷ ps) h = rw (==_ne n id h) (omega (arith, lines_total-other n id ps h))

abbrev pub IsPriced : PricedOrderLine → Type 0
IsPriced p = p.amount ≡ effective_price p.unit_price p.unit_discount_price * p.quantity

lines_total-own :
    (n : ℕ) (ps : List PricedOrderLine)
    → All IsPriced ps
    → lines_total n (map (to_line n) ps) ≡ sum_of (λ p. p.amount) ps
lines_total-own n [] h = refl
lines_total-own n (p ∷ ps) (e, h) = rw (==_refl n, lines_total-own n ps h, e) refl

pub price_items-IsPriced :
    (items : List Item) (offers : Table Offer) (ps : List PricedOrderLine)
    → price_items items offers ≡ ok ps
    → All IsPriced ps
unfolding price_items to_price_item_or_fail
price_items-IsPriced [] offers [] h = tt
price_items-IsPriced [] offers (p ∷ ps) h = cc
price_items-IsPriced (item ∷ items) offers ps h =
    elim (Option-cases (lookup item.offer_id offers)) [
      | inl missing ↦ cc (rw (price_items, to_price_item_or_fail, missing) at h)
      | inr (offer, found) ↦
          first offer (price_items-IsPriced items offers) ps (price_items items offers) refl
            (rw (price_items, to_price_item_or_fail, found) at h)
    ]
  where
    first :
        (offer : Offer)
        (again : (rest : List PricedOrderLine)
          → price_items items offers ≡ ok rest
          → All IsPriced rest)
        (ps : List PricedOrderLine) (r : Result OrderError (List PricedOrderLine))
        → r ≡ price_items items offers
        → prepend (priced item offer) r ≡ ok ps
        → All IsPriced ps
    first offer again ps (err e) same h = cc
    first offer again [] (ok rest) same h = cc
    first offer again (p ∷ ps) (ok rest) same h = (cc, again ps (sym same ∙ cc))

to_line-IsBelow : (n : ℕ) (ps : List PricedOrderLine) → All (IsBelow (suc n)) (map (to_line n) ps)
to_line-IsBelow n [] = tt
to_line-IsBelow n (p ∷ ps) = (omega arith, to_line-IsBelow n ps)

IsBelow-suc : (n : ℕ) (ls : List OrderLine) → All (IsBelow n) ls → All (IsBelow (suc n)) ls
IsBelow-suc n [] h = tt
IsBelow-suc n (l ∷ ls) (b, h) = (omega arith, IsBelow-suc n ls h)

module _ (input : OrderInput) (buyer : OrderBuyer) (key : Option ℕ) (fresh : Fresh)
    (db : OrderDb) where
  total_after :
      (items : List PricedOrderLine) (id : ℕ)
      → id ≢ db.next_order_id
      → lines_total id (db.lines ++ map (to_line db.next_order_id) items) ≡ lines_total id db.lines
  total_after items id other =
      let split = sum_of-append (line_total id) db.lines (map (to_line db.next_order_id) items) in
      omega (arith, split, lines_total-other db.next_order_id id items (λ same. other (sym same)))

  total_of_new :
      (items : List PricedOrderLine)
      → All (IsBelow db.next_order_id) db.lines
      → All IsPriced items
      → sum_of (λ (p : PricedOrderLine). p.amount) items
        ≡ lines_total db.next_order_id (db.lines ++ map (to_line db.next_order_id) items)
  total_of_new items below priced =
      let n = db.next_order_id in
      let split = sum_of-append (line_total n) db.lines (map (to_line n) items) in
      omega (arith, split, lines_total-own n items priced, lines_total-below n db.lines below)

  abbrev n : ℕ
  n = db.next_order_id

  abbrev new : List PricedOrderLine → Order
  new items = new_order input buyer key fresh items db

  was :
      (items : List PricedOrderLine) (id : ℕ) (o : Order)
      → (n == id) ≡ false
      → lookup id (put n (new items) db.orders) ≡ some o
      → lookup id db.orders ≡ some o
  was items id o other found = rw (lookup-put n id (new items) db.orders, other) at found

  is :
      (items : List PricedOrderLine) (id : ℕ) (o : Order)
      → (n == id) ≡ true
      → lookup id (put n (new items) db.orders) ≡ some o
      → new items ≡ o
  is items id o same found = cc (rw (lookup-put n id (new items) db.orders, same) at found)

  pub with_order-IsConsistent :
      (items : List PricedOrderLine)
      → IsConsistent db
      → All IsPriced items
      → IsConsistent (with_order input fresh items (new_order input buyer key fresh items db) db)
  with_order-IsConsistent items c priced = record {
    below = λ id o found. elim (Bool-cases (n == id)) [
      | inl same ↦ ground (arith, same)
      | inr other ↦ let old = c.below id o (was items id o other found) in omega arith
    ];
    totals = λ id o found. elim (Bool-cases (n == id)) [
      | inl same ↦
          let eq : n ≡ id = ground (arith, same) in
          ap (λ (x : Order). x.total_amount) (sym (is items id o same found))
          ∙ total_of_new items c.lines_below priced
          ∙ ap (λ (k : ℕ). lines_total k (db.lines ++ map (to_line n) items)) eq
      | inr other ↦
          c.totals id o (was items id o other found)
          ∙ sym (total_after items id (λ eq. ground (arith, other, eq)))
    ];
    lines_below =
        All-append (IsBelow (suc n)) db.lines (map (to_line n) items)
          (IsBelow-suc n db.lines c.lines_below) (to_line-IsBelow n items);
  }
