-- ===== src/SellerOffer/Store.antt =====
-- src/seller-offer/entity and repository: offers, reservations and the queries on them. An `integer`
-- column holds at most 2^31 - 1; PostgreSQL throws on a value beyond it.
use marketplace_api_v.Common.{
  ℕ, ◌+◌, ◌-◌, Bool, true, false, not, ◌&&◌, Option, none, some, List, [], ◌∷◌, map, ltb, leb, ◌==◌,
  if◌then◌else◌, any, keep, length, Table, lookup, put, ok, err, Tx, pure, ◌>>=◌, update_each,
}

pub data Currency : Type 0 where
  uah usd eur : Currency

-- Prices are in cents; `none` is no discount.
pub record Offer : Type 0 where
  pub price : ℕ
  pub discount_price : Option ℕ
  pub currency : Currency
  pub on_hand : ℕ
  pub reserved : ℕ
  pub deleted : Bool

pub data ReservationStatus : Type 0 where
  reserved confirmed fulfilled released : ReservationStatus

pub record Reservation : Type 0 where
  pub order_id : ℕ
  pub offer_id : ℕ
  pub quantity : ℕ
  pub status : ReservationStatus

pub record StockDb : Type 0 where
  pub offers : Table Offer
  pub reservations : List Reservation

-- A requested item, and an item with the quantity that was available.
pub record Item : Type 0 where
  pub offer_id : ℕ
  pub quantity : ℕ

pub record Shortage : Type 0 where
  pub item : Item
  pub available : ℕ

pub data ShortageReason : Type 0 where
  insufficient_stock offer_not_found : ShortageReason

-- `StockReservationRejectedException`, or an error of the database (a value out of range, or a
-- violated CHECK or foreign key).
pub data StockError : Type 0 where
  rejected : ShortageReason → List Shortage → StockError
  database_error : StockError

abbrev pub Call : Type 0 → Type 0
Call A = Tx StockDb StockError A

abbrev pub integer_limit : ℕ
integer_limit = 2_147_483_648

-- `SellerOfferRepository.findByIds`: a soft-deleted offer is not found.
unfoldable pub find_by_ids : List ℕ → Call (Table Offer)
find_by_ids ids db = if any (λ i. leb integer_limit i) ids then (err database_error, db) else (
  ok (keep (λ (row : ℕ × Offer). any (λ i. i == row.0) ids && not row.1.deleted) db.offers),
  db,
)

abbrev pub is_active : ReservationStatus → Bool
is_active reserved = true
is_active confirmed = true
is_active fulfilled = false
is_active released = false

abbrev pub is_row : ℕ → ℕ → Reservation → Bool
is_row order offer r = (r.order_id == order) && (r.offer_id == offer)

-- `StockReservationOutcomeInterface`; both counts are 0 or 1.
pub record Outcome : Type 0 where
  pub offer_id : ℕ
  pub inserted : ℕ
  pub held : ℕ

-- The statement of one item: the row is inserted unless the order has one for the offer, and the offer
-- holds its quantity if it is not deleted and enough is available.
unfoldable pub reserve_one : ℕ → Item → Call Outcome
reserve_one order item db =
    if leb integer_limit item.quantity
    then (err database_error, db)
    else if any (is_row order item.offer_id) db.reservations
    then (ok (record { offer_id = item.offer_id; inserted = 0; held = 0 }), db)
    else elim (lookup item.offer_id db.offers) [
      | none ↦ (err database_error, db)
      | some o ↦
          if not o.deleted && leb (o.reserved + item.quantity) o.on_hand
          then (
            ok (record { offer_id = item.offer_id; inserted = 1; held = 1 }),
            record {
              offers =
                  put item.offer_id (record o { reserved = o.reserved + item.quantity }) db.offers;
              reservations = row ∷ db.reservations;
            },
          )
          else (
            ok (record { offer_id = item.offer_id; inserted = 1; held = 0 }),
            record db { reservations = row ∷ db.reservations },
          )
    ]
  where
    row : Reservation
    row = record {
      order_id = order;
      offer_id = item.offer_id;
      quantity = item.quantity;
      status = reserved;
    }

-- The items by `offerId`, as the loop locks the offers: `sort` is stable.
unfoldable pub insert_item : Item → List Item → List Item
insert_item x [] = x ∷ []
insert_item x (y ∷ ys) = if leb x.offer_id y.offer_id then x ∷ y ∷ ys else y ∷ insert_item x ys

unfoldable pub sort_items : List Item → List Item
unfolding insert_item
sort_items [] = []
sort_items (x ∷ xs) = insert_item x (sort_items xs)

unfoldable pub reserve_each : ℕ → List Item → Call (List Outcome)
reserve_each order [] = pure []
reserve_each order (item ∷ items) = do
  outcome ← reserve_one order item
  outcomes ← reserve_each order items
  pure (outcome ∷ outcomes)

-- `StockReservationRepository.reserve`
unfoldable pub reserve : ℕ → List Item → Call (List Outcome)
unfolding reserve_each sort_items
reserve order items = reserve_each order (sort_items items)

-- The quantity of the order's active row for the offer; the primary key lets there be one row.
unfoldable pub active_quantity : ℕ → ℕ → List Reservation → Option ℕ
active_quantity order offer [] = none
active_quantity order offer (r ∷ rs) =
    if is_row order offer r && is_active r.status
    then some r.quantity
    else active_quantity order offer rs

unfoldable pub release_row : ℕ → Reservation → Reservation
release_row order r =
    if (r.order_id == order) && is_active r.status then record r { status = released } else r

abbrev pub quantity_or_zero : Option ℕ → ℕ
quantity_or_zero none = 0
quantity_or_zero (some q) = q

abbrev pub is_held : Option ℕ → Bool
is_held none = false
is_held (some q) = true

-- `StockReservationRepository.release`: how many offers it gave stock back to. The CHECK on
-- `reservedQuantity` throws where an offer would fall below zero.
unfoldable pub release : ℕ → Call ℕ
unfolding active_quantity release_row
release order db =
    if any
      (λ (row : ℕ × Offer).
        ltb row.1.reserved (quantity_or_zero (active_quantity order row.0 db.reservations)))
      db.offers
    then (err database_error, db)
    else (
      ok (
          length (
            keep (λ (row : ℕ × Offer). is_held (active_quantity order row.0 db.reservations))
              db.offers)),
      record {
        offers =
            update_each
              (λ i o. record o {
                reserved = o.reserved - quantity_or_zero (active_quantity order i db.reservations);
              })
              db.offers;
        reservations = map (release_row order) db.reservations;
      },
    )
