-- ===== src/SellerOffer/Reserving.antt =====
-- `SellerOfferStockReserveCommandHandler.execute` (src/seller-offer/command-handler): what one statement
-- of the loop can do, and the rule by which a property of the tables passes through the whole command.
use marketplace_api_v.Common.{
  ℕ, ◌+◌, ◌≤◌, ◌<◌, ◌≡◌, false, not, ◌&&◌, some, List, [], ◌∷◌, arith, leb, any, lookup, put,
  Bool-cases, Option-cases, inl, inr, Result, ok, err, conclude, continue_with,
}
use marketplace_api_v.SellerOffer.Store.{
  Offer, Item, StockDb, StockError, Reservation, ReservationStatus, Outcome, integer_limit, is_row,
  find_by_ids, reserve_one, reserve_each, reserve, sort_items,
}
use marketplace_api_v.SellerOffer.Commands.{
  is_failed, is_found, judge, offer_ids, reserve_found, execute_reserve,
}

module _ (order : ℕ) (item : Item) where
  abbrev pub new_row : Reservation
  new_row = record {
    order_id = order;
    offer_id = item.offer_id;
    quantity = item.quantity;
    status = ReservationStatus.reserved;
  }

  -- The tables after an item is held.
  abbrev pub after_hold : Offer → StockDb → StockDb
  after_hold o db = record {
    offers = put item.offer_id (record o { reserved = o.reserved + item.quantity }) db.offers;
    reservations = new_row ∷ db.reservations;
  }

  -- Why an item could be held.
  pub record CanHold (o : Offer) (db : StockDb) : Type 0 where
    pub in_range : item.quantity < integer_limit
    pub new : any (is_row order item.offer_id) db.reservations ≡ false
    pub found : lookup item.offer_id db.offers ≡ some o
    pub live : o.deleted ≡ false
    pub enough : o.reserved + item.quantity ≤ o.on_hand

-- A property of the tables after a statement that did not fail, and after a loop with no failure.
abbrev pub StepKeeps : (StockDb → Type 0) → Result StockError Outcome × StockDb → Type 0
StepKeeps P (ok o, s) = is_failed o ≡ false → P s
StepKeeps P (err e, s) = Unit

abbrev pub LoopKeeps : (StockDb → Type 0) → Result StockError (List Outcome) × StockDb → Type 0
LoopKeeps P (ok os, s) = any is_failed os ≡ false → P s
LoopKeeps P (err e, s) = Unit

pub reserve_one-keeps :
    (P : StockDb → Type 0) (order : ℕ) (item : Item) (db : StockDb)
    → P db
    → ((o : Offer) → CanHold order item o db → P (after_hold order item o db))
    → StepKeeps P (reserve_one order item db)
unfolding reserve_one
reserve_one-keeps P order item db p hold = elim (Bool-cases (leb integer_limit item.quantity)) [
  | inl large ↦ rw large tt
  | inr small ↦ elim (Bool-cases (any (is_row order item.offer_id) db.reservations)) [
    | inl old ↦ rw (small, old) (λ _. p)
    | inr new ↦ elim (Option-cases (lookup item.offer_id db.offers)) [
      | inl missing ↦ rw (small, new, missing) tt
      | inr (o, found) ↦
          elim (Bool-cases (not o.deleted && leb (o.reserved + item.quantity) o.on_hand)) [
            | inl fits ↦
                rw (small, new, found, fits)
                  (λ _. hold o (record {
                    in_range = ground arith;
                    new = new;
                    found = found;
                    live = ground arith;
                    enough = ground arith;
                  }))
            | inr short ↦ rw (small, new, found, short) (λ failed. cc)
          ]
    ]
  ]
]

-- A property of the tables that a call which returns leaves.
abbrev pub OkKeeps : {A : Type 0} → (StockDb → Type 0) → Result StockError A × StockDb → Type 0
OkKeeps P (ok a, s) = P s
OkKeeps P (err e, s) = Unit

conclude-keeps :
    {A : Type 0} (P : StockDb → Type 0) (db : StockDb) (r : Result StockError A × StockDb)
    → P db
    → OkKeeps P r
    → P (conclude db r).1
conclude-keeps P db (ok a, s) p k = k
conclude-keeps P db (err e, s) p k = p

-- A property that each hold keeps passes through the loop and the command.
module _ (P : StockDb → Type 0) (order : ℕ)
    (hold : (item : Item) (db : StockDb) (o : Offer)
      → P db
      → CanHold order item o db
      → P (after_hold order item o db)) where
  cons_outcome :
      (o : Outcome) (r : Result StockError (List Outcome) × StockDb)
      → (is_failed o ≡ false → LoopKeeps P r)
      → LoopKeeps P (continue_with (λ os s. (ok (o ∷ os), s)) r)
  cons_outcome o (ok os, s) k = λ none_failed. k (ground arith) (ground arith)
  cons_outcome o (err e, s) k = tt

  next_item :
      (items : List Item) (r : Result StockError Outcome × StockDb)
      → ((s : StockDb) → P s → LoopKeeps P (reserve_each order items s))
      → StepKeeps P r
      → LoopKeeps P (
          continue_with
            (λ o s. continue_with (λ os s'. (ok (o ∷ os), s')) (reserve_each order items s))
            r)
  next_item items (ok o, s) rest k =
      cons_outcome o (reserve_each order items s) (λ fine. rest s (k fine))
  next_item items (err e, s) rest k = tt

  pub reserve_each-keeps :
      (items : List Item) (db : StockDb) → P db → LoopKeeps P (reserve_each order items db)
  unfolding reserve_each
  reserve_each-keeps [] db p = λ _. p
  reserve_each-keeps (item ∷ items) db p =
      next_item items (reserve_one order item db) (λ s. reserve_each-keeps items s)
        (reserve_one-keeps P order item db p (λ o. hold item db o p))

  judge-keeps :
      (items : List Item) (offers : _) (r : Result StockError (List Outcome) × StockDb)
      → LoopKeeps P r
      → OkKeeps P (continue_with (judge items offers) r)
  unfolding judge
  judge-keeps items offers (err e, s) k = tt
  judge-keeps items offers (ok os, s) k = elim (Bool-cases (any is_failed os)) [
    | inl failed ↦ rw failed tt
    | inr fine ↦ rw fine (k fine)
  ]

  reserve_found-keeps :
      (items : List Item) (offers : _) (db : StockDb)
      → P db
      → OkKeeps P (reserve_found order items offers db)
  unfolding reserve_found reserve
  reserve_found-keeps items offers db p =
      elim (Bool-cases (any (λ i. not (is_found offers i)) items)) [
        | inl missing ↦ rw missing tt
        | inr found ↦ rw found (
            judge-keeps items offers (reserve_each order (sort_items items) db)
              (reserve_each-keeps (sort_items items) db p))
      ]

  find_then_reserve :
      (items : List Item) (db : StockDb)
      → P db
      → OkKeeps P (continue_with (reserve_found order items) (find_by_ids (offer_ids items) db))
  unfolding find_by_ids
  find_then_reserve items db p =
      elim (Bool-cases (any (λ i. leb integer_limit i) (offer_ids items))) [
        | inl large ↦ rw large tt
        | inr small ↦ rw small (reserve_found-keeps items _ db p)
      ]

  pub execute_reserve-keeps :
      (items : List Item) (db : StockDb) → P db → P (execute_reserve order items db).1
  unfolding execute_reserve
  execute_reserve-keeps items db p =
      conclude-keeps P db
        (continue_with (reserve_found order items) (find_by_ids (offer_ids items) db)) p
        (find_then_reserve items db p)
