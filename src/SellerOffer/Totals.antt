-- ===== src/SellerOffer/Totals.antt =====
-- What the reservations of src/seller-offer/entity/stock-reservation.entity.ts hold of each offer, and
-- the invariant of the stock tables.
use marketplace_api_v.Common.{
  ℕ, ◌+◌, ◌≤◌, ◌≡◌, refl, false, not, ◌&&◌, some, List, [], ◌∷◌, map, arith, ◌==◌, if◌then◌else◌,
  any, sum_of, lookup, Distinct,
}
use marketplace_api_v.SellerOffer.Store.{
  Offer, StockDb, Reservation, is_active, is_row, active_quantity, quantity_or_zero, release_row,
}

-- What all active rows hold of an offer, those of one order, and those of the others.
abbrev pub active_total : ℕ → List Reservation → ℕ
active_total i = sum_of (λ r. if (r.offer_id == i) && is_active r.status then r.quantity else 0)

abbrev pub own_total : ℕ → ℕ → List Reservation → ℕ
own_total order i = sum_of (λ r. if is_row order i r && is_active r.status then r.quantity else 0)

abbrev pub other_total : ℕ → ℕ → List Reservation → ℕ
other_total order i = sum_of (λ r.
    if not (r.order_id == order) && ((r.offer_id == i) && is_active r.status)
    then r.quantity
    else 0)

abbrev pub row_count : ℕ → ℕ → List Reservation → ℕ
row_count order i = sum_of (λ r. if is_row order i r then 1 else 0)

-- The primary keys hold, and each offer's `reservedQuantity` is what the active reservations hold of it
-- and is within the stock on hand.
pub record IsValid (db : StockDb) : Type 0 where
  pub keys : Distinct db.offers
  pub unique : (order i : ℕ) → row_count order i db.reservations ≤ 1
  pub held :
      (i : ℕ) (o : Offer)
      → lookup i db.offers ≡ some o
      → o.reserved ≡ active_total i db.reservations
  pub within : (i : ℕ) (o : Offer) → lookup i db.offers ≡ some o → o.reserved ≤ o.on_hand

pub active_total-split :
    (order i : ℕ) (rs : List Reservation)
    → active_total i rs ≡ own_total order i rs + other_total order i rs
active_total-split order i [] = omega arith
active_total-split order i (r ∷ rs) = ground (arith, active_total-split order i rs)

own_total-zero :
    (order i : ℕ) (rs : List Reservation) → row_count order i rs ≤ 0 → own_total order i rs ≡ 0
own_total-zero order i [] h = refl
own_total-zero order i (r ∷ rs) h = ground (arith, own_total-zero order i rs)

pub own_total-fresh :
    (order i : ℕ) (rs : List Reservation)
    → any (λ r. r.order_id == order) rs ≡ false
    → own_total order i rs ≡ 0
own_total-fresh order i [] h = refl
own_total-fresh order i (r ∷ rs) h = ground (arith, own_total-fresh order i rs)

-- With one row for each key, the active row holds the order's total.
pub active_quantity-own_total :
    (order i : ℕ) (rs : List Reservation)
    → row_count order i rs ≤ 1
    → quantity_or_zero (active_quantity order i rs) ≡ own_total order i rs
unfolding active_quantity
active_quantity-own_total order i [] h = refl
active_quantity-own_total order i (r ∷ rs) h =
    ground (arith, active_quantity-own_total order i rs, own_total-zero order i rs)

pub row_count-any :
    (order i : ℕ) (rs : List Reservation)
    → any (is_row order i) rs ≡ false
    → row_count order i rs ≡ 0
row_count-any order i [] h = refl
row_count-any order i (r ∷ rs) h = ground (arith, row_count-any order i rs)

pub row_count-release :
    (order k i : ℕ) (rs : List Reservation)
    → row_count k i (map (release_row order) rs) ≡ row_count k i rs
unfolding release_row
row_count-release order k i [] = refl
row_count-release order k i (r ∷ rs) = ground (arith, row_count-release order k i rs)

pub own_total-release :
    (order i : ℕ) (rs : List Reservation) → own_total order i (map (release_row order) rs) ≡ 0
unfolding release_row
own_total-release order i [] = refl
own_total-release order i (r ∷ rs) = ground (arith, own_total-release order i rs)

pub other_total-release :
    (order i : ℕ) (rs : List Reservation)
    → other_total order i (map (release_row order) rs) ≡ other_total order i rs
unfolding release_row
other_total-release order i [] = refl
other_total-release order i (r ∷ rs) = ground (arith, other_total-release order i rs)
