-- ===== src/SellerOffer/Commands.antt =====
-- src/seller-offer/command-handler: reserving the items of an order, all or none, and releasing them.
use marketplace_api_v.Common.{
  ℕ, ◌-◌, Bool, not, ◌&&◌, List, map, ltb, ◌==◌, if◌then◌else◌, any, keep, Table, lookup, none,
  some, ok, err, ◌>>=◌, transactional,
}
use marketplace_api_v.SellerOffer.Store.{
  Offer, Item, insufficient_stock, offer_not_found, rejected, Call, find_by_ids, Outcome, reserve,
  release,
}

abbrev pub offer_ids : List Item → List ℕ
offer_ids = map (λ i. i.offer_id)

-- `offerIds.has(item.offerId)`
abbrev pub is_found : Table Offer → Item → Bool
is_found offers item = any (λ (row : ℕ × Offer). row.0 == item.offer_id) offers

-- `inserted > 0 && held === 0`
abbrev pub is_failed : Outcome → Bool
is_failed o = ltb 0 o.inserted && (o.held == 0)

-- `stockById.get(item.offerId) ?? 0`
abbrev pub available_in : Table Offer → ℕ → ℕ
available_in offers i = elim (lookup i offers) [ none ↦ 0 | some o ↦ o.on_hand - o.reserved ]

-- What follows the loop: a failed outcome rejects the whole request.
unfoldable pub judge : List Item → Table Offer → List Outcome → Call (Unit {0})
judge items offers outcomes db =
    if any is_failed outcomes
    then (
      err (
          rejected insufficient_stock (
            map (λ i. record { item = i; available = available_in offers i.offer_id })
              (keep
                (λ (i : Item).
                  any (λ (o : Outcome). is_failed o && (o.offer_id == i.offer_id)) outcomes)
                items))),
      db,
    )
    else (ok tt, db)

-- What follows the read of the offers: a missing one rejects the whole request.
unfoldable pub reserve_found : ℕ → List Item → Table Offer → Call (Unit {0})
unfolding judge
reserve_found order items offers db =
    if any (λ i. not (is_found offers i)) items
    then (
      err (
          rejected offer_not_found (
            map (λ i. record { item = i; available = 0 })
              (keep (λ i. not (is_found offers i)) items))),
      db,
    )
    else (reserve order items >>= judge items offers) db

-- `SellerOfferStockReserveCommandHandler.execute`
unfoldable pub execute_reserve : ℕ → List Item → Call (Unit {0})
unfolding reserve_found
execute_reserve order items =
    transactional (find_by_ids (offer_ids items) >>= reserve_found order items)

-- `SellerOfferStockReleaseCommandHandler.execute`
unfoldable pub execute_release : ℕ → Call ℕ
execute_release order = transactional (release order)
