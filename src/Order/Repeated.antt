-- ===== src/Order/Repeated.antt =====
-- The idempotency key of a placement (`createPending` in src/order/command-handler/order-place.command-handler.ts).
use marketplace_api_v.Common.{
  ℕ, ◌≡◌, refl, sym, ◌∙◌, true, false, some, List, [], ◌∷◌, ◌==◌, ==_refl, any, Table, put, Result,
  ok, conclude_inv, subst, Bool-cases, inl, inr, Option-cases, ap,
}
use marketplace_api_v.SellerOffer.Store.{StockDb}
use marketplace_api_v.Order.Store.{Order, OrderDb, OrderBuyer, OrderError}
use marketplace_api_v.Order.Place.{
  OrderInput, Fresh, PricedOrderLine, takes_key, create_new, find_by_key, create_pending,
  find_buyer, execute_place,
}
use marketplace_api_v.Order.Placed.{new_order, create_new_inv}

find_by_key-put :
    (user k id : ℕ) (o : Order) (rows : Table Order)
    → any (λ (row : ℕ × Order). takes_key user (some k) row.1) rows ≡ false
    → takes_key user (some k) o ≡ true
    → o.deleted ≡ false
    → find_by_key user k (put id o rows) ≡ some o
unfolding find_by_key
find_by_key-put user k id o [] free takes live = rw (takes, live) refl
find_by_key-put user k id o ((j, p) ∷ rows) free takes live =
    elim (Bool-cases (takes_key user (some k) p)) [
      | inl e ↦ cc (rw e at free)
      | inr e ↦ elim (Bool-cases (j == id)) [
        | inl same ↦ rw (same, takes, live) refl
        | inr other ↦ rw (other, e) (find_by_key-put user k id o rows (rw e at free) takes live)
      ]
    ]

module _ (k : ℕ) (buyer : OrderBuyer) where
  takes_key-new :
      (input : OrderInput) (fresh : Fresh) (items : List PricedOrderLine) (db : OrderDb)
      → takes_key buyer.user_id (some k) (new_order input buyer (some k) fresh items db) ≡ true
  takes_key-new input fresh items db = rw (==_refl buyer.user_id, ==_refl k) refl

  -- Once a placement has returned, its order stands under the key.
  create_pending-found :
      (input : OrderInput) (fresh : Fresh) (stock : StockDb) (db : OrderDb) (o : Order)
      (s : OrderDb)
      → create_pending input buyer (some k) fresh stock db ≡ (ok o, s)
      → (find_by_key buyer.user_id k s.orders ≡ some o) × (s.buyers ≡ db.buyers)
  unfolding create_pending
  create_pending-found input fresh stock db o s h =
      elim (Option-cases (find_by_key buyer.user_id k db.orders)) [
        | inl none_found ↦
            let placed = create_new_inv input buyer (some k) fresh stock db o s (
              conclude_inv db (create_new input buyer (some k) fresh stock db) o s
                (rw none_found at h)) in
            (
              subst (λ (t : OrderDb). find_by_key buyer.user_id k t.orders ≡ some o)
                  (sym placed.state)
                  (find_by_key-put buyer.user_id k db.next_order_id
                      (new_order input buyer (some k) fresh placed.items db) db.orders
                      placed.key_free (takes_key-new input fresh placed.items db) refl
                    ∙ ap some (sym placed.order)),
              ap (λ (t : OrderDb). t.buyers) placed.state,
            )
        | inr (p, found) ↦
            let same : (◌≡◌ {A = Result OrderError Order × OrderDb} (ok p, db) (ok o, s)) =
              rw found at h in
            let same_db : db ≡ s = cc (same) in
            (
              subst (λ (t : OrderDb). find_by_key buyer.user_id k t.orders ≡ some o) same_db
                  (found ∙ cc (same)),
              ap (λ (t : OrderDb). t.buyers) (sym same_db),
            )
      ]

  -- A key that is taken gives its order and writes nothing.
  create_pending-again :
      (input : OrderInput) (fresh : Fresh) (stock : StockDb) (db : OrderDb) (o : Order)
      → find_by_key buyer.user_id k db.orders ≡ some o
      → create_pending input buyer (some k) fresh stock db ≡ (ok o, db)
  unfolding create_pending
  create_pending-again input fresh stock db o found = rw found refl

-- A placement that has returned under a key is not made again: a second one of the same buyer with the key, whatever
-- its items, offers and generated ids, returns the order of the first and writes nothing.
pub execute_place-again :
    (k identity : ℕ) (input input' : OrderInput) (fresh fresh' : Fresh) (stock stock' : StockDb)
    (db : OrderDb) (o : Order) (s : OrderDb)
    → execute_place input identity (some k) fresh stock db ≡ (ok o, s)
    → execute_place input' identity (some k) fresh' stock' s ≡ (ok o, s)
unfolding execute_place
execute_place-again k identity input input' fresh fresh' stock stock' db o s h =
    elim (Option-cases (find_buyer identity db.buyers)) [
      | inl missing ↦ cc (rw (missing, execute_place) at h)
      | inr (buyer, known) ↦
          let (found, buyers) =
            create_pending-found k buyer input fresh stock db o s
              (rw (known, execute_place) at h) in
          let known_after = ap (find_buyer identity) buyers ∙ known in
          rw (execute_place, known_after)
            (create_pending-again k buyer input' fresh' stock' s o found)
    ]
