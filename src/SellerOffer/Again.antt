-- ===== src/SellerOffer/Again.antt =====
-- A redelivered reserve request (src/seller-offer/command-handler): a second delivery succeeds again and
-- changes nothing.
use marketplace_api_v.Common.{
  ℕ, ◌+◌, ◌≡◌, refl, false, not, some, List, [], ◌∷◌, map, arith, leb, ◌∙◌, any, All, lookup, put,
  Table, Result, ok, err, conclude, continue_with, subst,
}
use marketplace_api_v.SellerOffer.Store.{
  Offer, Item, StockDb, StockError, Outcome, integer_limit, find_by_ids, reserve_one, reserve_each,
  reserve, sort_items,
}
use marketplace_api_v.SellerOffer.Commands.{
  is_failed, is_found, judge, offer_ids, reserve_found, execute_reserve,
}
use marketplace_api_v.SellerOffer.Reserving.{CanHold, after_hold, LoopKeeps, reserve_each-keeps}
use marketplace_api_v.SellerOffer.Success.{
  found_offers, HasRow, InRange, Rowed, Success, execute_reserve_inv, reserve_one-Rowed,
}

module _ (order : ℕ) where
  abbrev pub AllRowed : List Item → StockDb → Type 0
  AllRowed items s = All (λ item. HasRow order item s × InRange order item) items

  abbrev LoopRowed : List Item → Result StockError (List Outcome) × StockDb → Type 0
  LoopRowed items (ok os, s) = any is_failed os ≡ false → AllRowed items s
  LoopRowed items (err e, s) = Unit

  rowed_cons :
      (item : Item) (items : List Item) (o : Outcome)
      (r : Result StockError (List Outcome) × StockDb)
      → InRange order item
      → LoopKeeps (HasRow order item) r
      → LoopRowed items r
      → LoopRowed (item ∷ items) (continue_with (λ os s. (ok (o ∷ os), s)) r)
  rowed_cons item items o (ok os, s) small k l =
      λ fine. ((k (ground arith), small), l (ground arith))
  rowed_cons item items o (err e, s) small k l = tt

  Rowed-next :
      (item : Item) (items : List Item) (r : Result StockError Outcome × StockDb)
      → Rowed order item r
      → ((s : StockDb) → LoopRowed items (reserve_each order items s))
      → LoopRowed (item ∷ items) (
          continue_with
            (λ o s. continue_with (λ os s'. (ok (o ∷ os), s')) (reserve_each order items s))
            r)
  Rowed-next item items (ok o, s) h rest =
      rowed_cons item items o (reserve_each order items s) h.1
        (reserve_each-keeps (HasRow order item) order (λ i t p k c. ground arith) items s h.0)
        (rest s)
  Rowed-next item items (err e, s) h rest = tt

  pub reserve_each-LoopRowed :
      (items : List Item) (db : StockDb) → LoopRowed items (reserve_each order items db)
  unfolding reserve_each
  reserve_each-LoopRowed [] db = λ _. tt
  reserve_each-LoopRowed (item ∷ items) db =
      Rowed-next item items (reserve_one order item db) (reserve_one-Rowed order item db)
        (λ s. reserve_each-LoopRowed items s)

  -- The outcome of an item whose row is there.
  abbrev repeated : Item → Outcome
  repeated item = record { offer_id = item.offer_id; inserted = 0; held = 0 }

  reserve_one-again :
      (item : Item) (s : StockDb)
      → HasRow order item s
      → InRange order item
      → reserve_one order item s ≡ (ok (repeated item), s)
  unfolding reserve_one
  reserve_one-again item s h k = rw (k, h)

  reserve_each-again :
      (items : List Item) (s : StockDb)
      → AllRowed items s
      → reserve_each order items s ≡ (ok (map repeated items), s)
  unfolding reserve_each
  reserve_each-again [] s h = refl
  reserve_each-again (item ∷ items) s h =
      rw (reserve_one-again item s h.0.0 h.0.1, reserve_each-again items s h.1)

  repeated_none_failed : (items : List Item) → any is_failed (map repeated items) ≡ false
  repeated_none_failed [] = refl
  repeated_none_failed (item ∷ items) = repeated_none_failed items

  -- A hold leaves each offer that is not deleted to be found as before.
  is_found-hold :
      (ids : List ℕ) (wanted : Item) (k : ℕ) (o p : Offer) (t : Table Offer)
      → lookup k t ≡ some o
      → p.deleted ≡ o.deleted
      → is_found (found_offers ids (put k p t)) wanted ≡ is_found (found_offers ids t) wanted
  is_found-hold ids wanted k o p [] e h = cc
  is_found-hold ids wanted k o p ((j, q) ∷ t) e h = ground (arith, is_found-hold ids wanted k o p t)

  any_missing_eq :
      (xs ys : Table Offer) (items : List Item)
      → ((i : Item) → is_found xs i ≡ is_found ys i)
      → any (λ i. not (is_found xs i)) items ≡ any (λ i. not (is_found ys i)) items
  any_missing_eq xs ys [] h = refl
  any_missing_eq xs ys (item ∷ items) h = rw (h item, any_missing_eq xs ys items h)

  abbrev SameFound : List ℕ → StockDb → StockDb → Type 0
  SameFound ids db s =
      (i : Item) → is_found (found_offers ids s.offers) i ≡ is_found (found_offers ids db.offers) i

  hold-SameFound :
      (ids : List ℕ) (db : StockDb) (item : Item) (s : StockDb) (o : Offer)
      → SameFound ids db s
      → CanHold order item o s
      → SameFound ids db (after_hold order item o s)
  hold-SameFound ids db item s o h c i =
      is_found-hold ids i item.offer_id o (record o { reserved = o.reserved + item.quantity })
        s.offers c.found refl
      ∙ h i

  find_by_ids-again :
      (ids : List ℕ) (s : StockDb)
      → any (λ i. leb integer_limit i) ids ≡ false
      → find_by_ids ids s ≡ (ok (found_offers ids s.offers), s)
  unfolding find_by_ids
  find_by_ids-again ids s h = rw h

  reserve_found-again :
      (items : List Item) (offers : Table Offer) (s : StockDb)
      → AllRowed (sort_items items) s
      → any (λ i. not (is_found offers i)) items ≡ false
      → reserve_found order items offers s ≡ (ok tt, s)
  unfolding reserve_found reserve judge
  reserve_found-again items offers s rows found =
      rw (
        found,
        reserve_each-again (sort_items items) s rows,
        repeated_none_failed (sort_items items),
      )

  Success-AllRowed :
      (items : List Item) (db s : StockDb)
      → Success order items db s
      → AllRowed (sort_items items) s
  Success-AllRowed items db s k =
      (subst (LoopRowed (sort_items items)) k.looped (reserve_each-LoopRowed (sort_items items) db))
        k.none_failed

  Success-SameFound :
      (items : List Item) (db s : StockDb)
      → Success order items db s
      → SameFound (offer_ids items) db s
  Success-SameFound items db s k =
      (subst (LoopKeeps (SameFound (offer_ids items) db)) k.looped (
          reserve_each-keeps (SameFound (offer_ids items) db) order
            (hold-SameFound (offer_ids items) db) (sort_items items) db (λ i. refl)))
        k.none_failed

  -- A reserve request that succeeded succeeds again, and the second run changes nothing: the redelivery
  -- of a request holds its stock once.
  pub execute_reserve-again :
      (items : List Item) (db s : StockDb)
      → execute_reserve order items db ≡ (ok tt, s)
      → execute_reserve order items s ≡ (ok tt, s)
  unfolding execute_reserve
  execute_reserve-again items db s h =
      let k = execute_reserve_inv order items db s h in
      rw (
        find_by_ids-again (offer_ids items) s k.ids_in_range,
        reserve_found-again items (found_offers (offer_ids items) s.offers) s
            (Success-AllRowed items db s k)
            (any_missing_eq (found_offers (offer_ids items) s.offers)
                (found_offers (offer_ids items) db.offers) items (Success-SameFound items db s k)
              ∙ k.all_found),
      )

  -- A reserve request that is rejected or fails leaves the tables as they were.
  pub execute_reserve-err :
      (items : List Item) (db s : StockDb) (e : StockError)
      → execute_reserve order items db ≡ (err e, s)
      → s ≡ db
  unfolding execute_reserve
  execute_reserve-err items db s e h =
      rolled_back (continue_with (reserve_found order items) (find_by_ids (offer_ids items) db)) h
    where
      rolled_back :
          (r : Result StockError (Unit {0}) × StockDb) → conclude db r ≡ (err e, s) → s ≡ db
      rolled_back (ok a, t) q = cc
      rolled_back (err x, t) q = cc
