-- ===== src/SellerOffer/Success.antt =====
-- What a successful reserve request says of its run (src/seller-offer/command-handler).
use marketplace_api_v.Common.{
  ℕ, ◌+◌, ◌≡◌, true, false, not, ◌&&◌, List, arith, leb, ◌==◌, ==_refl, any, keep, lookup, Table,
  Bool-cases, Option-cases, inl, inr, Result, ok, err, conclude, continue_with,
}
use marketplace_api_v.SellerOffer.Store.{
  Offer, Item, StockDb, StockError, Outcome, integer_limit, is_row, find_by_ids, reserve_one,
  reserve_each, reserve, sort_items,
}
use marketplace_api_v.SellerOffer.Commands.{
  is_failed, is_found, judge, offer_ids, reserve_found, execute_reserve,
}

-- The offers that `findByIds` reads.
abbrev pub found_offers : List ℕ → Table Offer → Table Offer
found_offers ids = keep (λ (row : ℕ × Offer). any (λ i. i == row.0) ids && not row.1.deleted)

module _ (order : ℕ) where
  abbrev pub HasRow : Item → StockDb → Type 0
  HasRow item s = any (is_row order item.offer_id) s.reservations ≡ true

  abbrev pub InRange : Item → Type 0
  InRange item = leb integer_limit item.quantity ≡ false

  -- What a success says of the run.
  pub record Success (items : List Item) (db s : StockDb) : Type 0 where
    pub ids_in_range : any (λ i. leb integer_limit i) (offer_ids items) ≡ false
    pub all_found :
        any (λ i. not (is_found (found_offers (offer_ids items) db.offers) i)) items ≡ false
    pub outcomes : List Outcome
    pub looped : reserve_each order (sort_items items) db ≡ (ok outcomes, s)
    pub none_failed : any is_failed outcomes ≡ false

  judge_inv :
      (items : List Item) (offers : Table Offer) (r : Result StockError (List Outcome) × StockDb)
      (s : StockDb)
      → continue_with (judge items offers) r ≡ (ok tt, s)
      → (os : List Outcome) × (r ≡ (ok os, s)) × (any is_failed os ≡ false)
  unfolding judge
  judge_inv items offers (err e, t) s h = cc
  judge_inv items offers (ok os, t) s h = elim (Bool-cases (any is_failed os)) [
    | inl failed ↦ cc (rw failed at h)
    | inr fine ↦ (os, cc (rw fine at h), fine)
  ]

  conclude_inv :
      {A : Type 0} (db : StockDb) (r : Result StockError A × StockDb) (a : A) (s : StockDb)
      → conclude db r ≡ (ok a, s)
      → r ≡ (ok a, s)
  conclude_inv db (ok b, t) a s h = h
  conclude_inv db (err e, t) a s h = cc

  found_inv :
      (items : List Item) (db s : StockDb)
      → any (λ i. leb integer_limit i) (offer_ids items) ≡ false
      → reserve_found order items (found_offers (offer_ids items) db.offers) db ≡ (ok tt, s)
      → Success items db s
  unfolding reserve_found reserve
  found_inv items db s small h =
      elim (Bool-cases
        (any (λ i. not (is_found (found_offers (offer_ids items) db.offers) i)) items)) [
          | inl missing ↦ cc (rw missing at h)
          | inr all_found ↦
              let (os, looped, fine) =
                judge_inv items (found_offers (offer_ids items) db.offers)
                  (reserve_each order (sort_items items) db) s (rw all_found at h) in
              record {
                ids_in_range = small;
                all_found = all_found;
                outcomes = os;
                looped = looped;
                none_failed = fine;
              }
        ]

  pub execute_reserve_inv :
      (items : List Item) (db s : StockDb)
      → execute_reserve order items db ≡ (ok tt, s)
      → Success items db s
  unfolding execute_reserve find_by_ids
  execute_reserve_inv items db s h =
      let k = conclude_inv db _ tt s h in
      elim (Bool-cases (any (λ i. leb integer_limit i) (offer_ids items))) [
        | inl large ↦ cc (rw large at k)
        | inr small ↦ found_inv items db s small (rw small at k)
      ]

  -- A statement that returns has found or made the row of its item, and its quantity is in range.
  abbrev pub Rowed : Item → Result StockError Outcome × StockDb → Type 0
  Rowed item (ok o, s) = HasRow item s × InRange item
  Rowed item (err e, s) = Unit

  pub reserve_one-Rowed : (item : Item) (db : StockDb) → Rowed item (reserve_one order item db)
  unfolding reserve_one
  reserve_one-Rowed item db = elim (Bool-cases (leb integer_limit item.quantity)) [
    | inl large ↦ rw large tt
    | inr small ↦ elim (Bool-cases (any (is_row order item.offer_id) db.reservations)) [
      | inl old ↦ rw (small, old) (old, small)
      | inr new ↦ elim (Option-cases (lookup item.offer_id db.offers)) [
        | inl missing ↦ rw (small, new, missing) tt
        | inr (o, found) ↦
            elim (Bool-cases (not o.deleted && leb (o.reserved + item.quantity) o.on_hand)) [
              | inl fits ↦
                  rw (small, new, found, fits)
                    (ground (arith, ==_refl order, ==_refl item.offer_id), small)
              | inr short ↦
                  rw (small, new, found, short)
                    (ground (arith, ==_refl order, ==_refl item.offer_id), small)
            ]
      ]
    ]
  ]
