-- ===== src/SellerOffer/Releasing.antt =====
-- `StockReservationRepository.release` (src/seller-offer/repository/stock-reservation.repository.ts): on
-- valid tables it never fails, and it gives back what the order held.
use marketplace_api_v.Common.{
  ℕ, ◌+◌, ◌-◌, ◌≤◌, ◌≡◌, some, map, arith, ltb, ap, keep, length, lookup, Option-cases, inl, inr,
  ok, update_each, lookup-update_each-some, lookup-update_each-none, update_each-Distinct,
  any-false_of_lookup, conclude,
}
use marketplace_api_v.SellerOffer.Store.{
  Offer, StockDb, active_quantity, quantity_or_zero, is_held, release_row, release,
}
use marketplace_api_v.SellerOffer.Commands.{execute_release}
use marketplace_api_v.SellerOffer.Totals.{
  other_total, IsValid, active_total-split, active_quantity-own_total, row_count-release,
  own_total-release, other_total-release,
}

module _ (order : ℕ) (db : StockDb) where
  -- An offer less what the order holds of it.
  abbrev pub without_held : ℕ → Offer → Offer
  without_held i o = record o {
    reserved = o.reserved - quantity_or_zero (active_quantity order i db.reservations);
  }

  abbrev pub after_release : StockDb
  after_release = record {
    offers = update_each without_held db.offers;
    reservations = map (release_row order) db.reservations;
  }

  abbrev pub released_count : ℕ
  released_count =
      length (
        keep (λ (row : ℕ × Offer). is_held (active_quantity order row.0 db.reservations)) db.offers)

  module _ (v : IsValid db) where
    held_parts :
        (i : ℕ) (o : Offer)
        → lookup i db.offers ≡ some o
        → o.reserved
          ≡ quantity_or_zero (active_quantity order i db.reservations)
            + other_total order i db.reservations
    held_parts i o e = omega (
      arith,
      v.held i o e,
      active_total-split order i db.reservations,
      active_quantity-own_total order i db.reservations (v.unique order i),
    )

    pub release-ok : release order db ≡ (ok released_count, after_release)
    unfolding release
    release-ok = rw (
        any-false_of_lookup
          (λ (row : ℕ × Offer).
            ltb row.1.reserved (quantity_or_zero (active_quantity order row.0 db.reservations)))
          db.offers v.keys (λ i o e. ground (arith, held_parts i o e)))

    pub execute_release-ok : execute_release order db ≡ (ok released_count, after_release)
    unfolding execute_release
    execute_release-ok = ap (conclude db) release-ok

    -- After a release each offer is held by the other orders alone.
    pub after_release-held :
        (i : ℕ) (o : Offer)
        → lookup i after_release.offers ≡ some o
        → o.reserved ≡ other_total order i db.reservations
    after_release-held i o e = elim (Option-cases (lookup i db.offers)) [
      | inl missing ↦ cc (e, lookup-update_each-none without_held i db.offers missing)
      | inr (p, found) ↦
          ground
            (arith, held_parts i p found, lookup-update_each-some without_held i p db.offers found)
    ]

    after_release-within :
        (i : ℕ) (o : Offer) → lookup i after_release.offers ≡ some o → o.reserved ≤ o.on_hand
    after_release-within i o e = elim (Option-cases (lookup i db.offers)) [
      | inl missing ↦ cc (e, lookup-update_each-none without_held i db.offers missing)
      | inr (p, found) ↦
          ground
            (arith, v.within i p found, lookup-update_each-some without_held i p db.offers found)
    ]

    pub after_release-IsValid : IsValid after_release
    after_release-IsValid = record {
      keys = update_each-Distinct without_held db.offers v.keys;
      unique = λ k i. rw (row_count-release order k i db.reservations) (v.unique k i);
      held = λ i o e. omega (
        arith,
        after_release-held i o e,
        active_total-split order i (map (release_row order) db.reservations),
        own_total-release order i db.reservations,
        other_total-release order i db.reservations,
      );
      within = after_release-within;
    }
