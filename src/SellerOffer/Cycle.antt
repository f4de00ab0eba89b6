-- ===== src/SellerOffer/Cycle.antt =====
-- Reserve and release requests of orders against the stock (src/seller-offer/command-handler): the
-- invariant, and what is left of an order once it is released.
use marketplace_api_v.Common.{
  ℕ, ◌+◌, ◌≡◌, refl, false, Option, none, some, List, [], ◌∷◌, map, arith, ap, ◌∙◌, sym, ◌==◌, any,
  lookup, lookup-put, put-Distinct, Option-cases, inl, inr, lookup-update_each-some,
  lookup-update_each-none, ==_refl, subst, Table, update_each,
}
use marketplace_api_v.SellerOffer.Store.{
  Offer, Item, StockDb, Reservation, release_row, active_quantity,
}
use marketplace_api_v.SellerOffer.Commands.{execute_reserve, execute_release}
use marketplace_api_v.SellerOffer.Totals.{
  other_total, IsValid, active_total-split, row_count-any, other_total-release, own_total-fresh,
}
use marketplace_api_v.SellerOffer.Releasing.{
  after_release, after_release-IsValid, after_release-held, execute_release-ok, without_held,
}
use marketplace_api_v.SellerOffer.Reserving.{CanHold, after_hold, execute_reserve-keeps}

module _ (order : ℕ) (item : Item) (db : StockDb) (o : Offer) where
  hold-IsValid : IsValid db → CanHold order item o db → IsValid (after_hold order item o db)
  hold-IsValid v c = record {
    keys = put-Distinct item.offer_id _ db.offers v.keys;
    unique = λ k i.
        ground (arith, v.unique k i, row_count-any order item.offer_id db.reservations c.new);
    held = λ i p e. ground (
      arith,
      lookup-put item.offer_id i (record o { reserved = o.reserved + item.quantity }) db.offers,
      v.held item.offer_id o c.found,
      v.held i p,
    );
    within = λ i p e. ground (
      arith,
      lookup-put item.offer_id i (record o { reserved = o.reserved + item.quantity }) db.offers,
      c.enough,
      v.within i p,
    );
  }

-- A request of one order; the gateway has checked it.
pub data StockRequest : Type 0 where
  reserve_items : List Item → StockRequest
  release_all : StockRequest

unfoldable pub handle : ℕ → StockRequest → StockDb → StockDb
handle order (reserve_items items) db = (execute_reserve order items db).1
handle order release_all db = (execute_release order db).1

handle-release_all :
    (order : ℕ) (db : StockDb) → IsValid db → handle order release_all db ≡ after_release order db
unfolding handle
handle-release_all order db v = ap (λ r. r.1) (execute_release-ok order db v)

-- Whatever reserve or release request runs, with whatever outcome, `reservedQuantity` stays the total of
-- the active reservations of each offer and within its stock on hand, and the primary keys hold.
pub handle-IsValid :
    (order : ℕ) (request : StockRequest) (db : StockDb)
    → IsValid db
    → IsValid (handle order request db)
unfolding handle
handle-IsValid order (reserve_items items) db v =
    execute_reserve-keeps IsValid order (λ item s o w c. hold-IsValid order item s o w c) items db v
handle-IsValid order release_all db v =
    subst IsValid (sym (handle-release_all order db v)) (after_release-IsValid order db v)

-- An offer but for its counter.
abbrev pub blank : Option Offer → Option Offer
blank none = none
blank (some o) = some (record o { reserved = 0 })

module _ (order : ℕ) (start : StockDb) where
  -- What requests of the order leave alone: the other orders' reservations, and the offers but for their
  -- counters.
  abbrev pub Frame : StockDb → Type 0
  Frame s =
      ((i : ℕ) → other_total order i s.reservations ≡ other_total order i start.reservations)
      × ((i : ℕ) → blank (lookup i s.offers) ≡ blank (lookup i start.offers))

  hold-Frame :
      (item : Item) (s : StockDb) (o : Offer)
      → Frame s
      → CanHold order item o s
      → Frame (after_hold order item o s)
  hold-Frame item s o f c = (
    λ i. ground (arith, ==_refl order, f.0 i),
    λ i. ground (
      arith,
      lookup-put item.offer_id i (record o { reserved = o.reserved + item.quantity }) s.offers,
      f.1 i,
      c.found,
    ),
  )

  pub release-Frame : (s : StockDb) → Frame s → Frame (after_release order s)
  release-Frame s f = (
    λ i. other_total-release order i s.reservations ∙ f.0 i,
    λ i. elim (Option-cases (lookup i s.offers)) [
      | inl missing ↦
          ap blank (lookup-update_each-none (without_held order s) i s.offers missing ∙ sym missing)
          ∙ f.1 i
      | inr (o, found) ↦
          ap blank (lookup-update_each-some (without_held order s) i o s.offers found)
          ∙ ap blank (sym found)
          ∙ f.1 i
    ],
  )

  pub handle-Frame :
      (request : StockRequest) (s : StockDb) → IsValid s → Frame s → Frame (handle order request s)
  unfolding handle
  handle-Frame (reserve_items items) s v f = execute_reserve-keeps Frame order hold-Frame items s f
  handle-Frame release_all s v f =
      subst Frame (sym (handle-release_all order s v)) (release-Frame s f)

unfoldable pub handle_all : ℕ → List StockRequest → StockDb → StockDb
handle_all order [] db = db
handle_all order (m ∷ ms) db = handle_all order ms (handle order m db)

handle_all-Frame :
    (order : ℕ) (start : StockDb) (ms : List StockRequest) (s : StockDb)
    → IsValid s
    → Frame order start s
    → IsValid (handle_all order ms s) × Frame order start (handle_all order ms s)
unfolding handle_all
handle_all-Frame order start [] s v f = (v, f)
handle_all-Frame order start (m ∷ ms) s v f =
    handle_all-Frame order start ms (handle order m s) (handle-IsValid order m s v)
      (handle-Frame order start m s v f)

offer_of_blank : (o p : Offer) → blank (some o) ≡ blank (some p) → o.reserved ≡ p.reserved → o ≡ p
offer_of_blank o p h k = ground arith

-- A release gives back exactly what the order holds, whatever its requests did before.
module _ (order : ℕ) (db s : StockDb) (i : ℕ) (v : IsValid db)
    (fresh : any (λ (r : Reservation). r.order_id == order) db.reservations ≡ false) (w : IsValid s)
    (f : Frame order db s) where
  same_blank : blank (lookup i (after_release order s).offers) ≡ blank (lookup i db.offers)
  same_blank = (release-Frame order db s f).1 i

  compare_rows :
      (a b : Option Offer)
      → lookup i (after_release order s).offers ≡ a
      → lookup i db.offers ≡ b
      → lookup i (after_release order s).offers ≡ lookup i db.offers
  compare_rows none none p q = p ∙ sym q
  compare_rows none (some o) p q = cc (same_blank, ap blank q, ap blank p)
  compare_rows (some o) none p q = cc (same_blank, ap blank q, ap blank p)
  compare_rows (some o) (some o') p q =
      p
      ∙ ap some (
          offer_of_blank o o' (ap blank (sym p) ∙ same_blank ∙ ap blank q) (
            omega (
              arith,
              after_release-held order s w i o p,
              f.0 i,
              v.held i o' q,
              active_total-split order i db.reservations,
              own_total-fresh order i db.reservations fresh,
            )))
      ∙ sym q

  pub after_release-lookup : lookup i (after_release order s).offers ≡ lookup i db.offers
  after_release-lookup =
      compare_rows (lookup i (after_release order s).offers) (lookup i db.offers) refl refl

-- However the reserve and release requests of an order are repeated and reordered, after a last release
-- every offer is as it was before the order: the order had no reservation and the tables were valid.
pub released-lookup :
    (order : ℕ) (ms : List StockRequest) (db : StockDb) (i : ℕ)
    → IsValid db
    → any (λ (r : Reservation). r.order_id == order) db.reservations ≡ false
    → lookup i (handle order release_all (handle_all order ms db)).offers ≡ lookup i db.offers
released-lookup order ms db i v fresh =
    rw (handle-release_all order (handle_all order ms db) last.0)
      (after_release-lookup order db (handle_all order ms db) i v fresh last.0 last.1)
  where
    last : IsValid (handle_all order ms db) × Frame order db (handle_all order ms db)
    last = handle_all-Frame order db ms db v (λ j. refl, λ j. refl)

update_each-same :
    (t : Table Offer) (f : ℕ → Offer → Offer)
    → ((i : ℕ) (o : Offer) → f i o ≡ o)
    → update_each f t ≡ t
update_each-same [] f h = refl
update_each-same ((i, o) ∷ t) f h = rw (h i o, update_each-same t f h)

active_quantity-fresh :
    (order i : ℕ) (rs : List Reservation)
    → any (λ r. r.order_id == order) rs ≡ false
    → active_quantity order i rs ≡ none
unfolding active_quantity
active_quantity-fresh order i [] h = refl
active_quantity-fresh order i (r ∷ rs) h = ground (arith, active_quantity-fresh order i rs)

release_row-fresh :
    (order : ℕ) (rs : List Reservation)
    → any (λ r. r.order_id == order) rs ≡ false
    → map (release_row order) rs ≡ rs
unfolding release_row
release_row-fresh order [] h = refl
release_row-fresh order (r ∷ rs) h = ground (arith, release_row-fresh order rs)

-- A release that finds no reservation of its order leaves no trace, so a reservation that comes later is
-- handled as if the order had never been released.
pub handle-reserve_after_release :
    (order : ℕ) (items : List Item) (db : StockDb)
    → IsValid db
    → any (λ (r : Reservation). r.order_id == order) db.reservations ≡ false
    → handle order (reserve_items items) (handle order release_all db)
      ≡ handle order (reserve_items items) db
handle-reserve_after_release order items db v fresh =
    ap (handle order (reserve_items items)) (handle-release_all order db v ∙ unchanged)
  where
    unchanged : after_release order db ≡ db
    unchanged = rw (release_row-fresh order db.reservations fresh) (
        rw (
          update_each-same db.offers (without_held order db)
            (λ i o. rw (active_quantity-fresh order i db.reservations fresh) (ground arith))))
