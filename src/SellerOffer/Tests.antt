-- ===== src/SellerOffer/Tests.antt =====
-- Examples of the seller-offer service (src/seller-offer).
use marketplace_api_v.Common.{◌≡◌, refl, [], ◌∷◌, lookup, ok}
use marketplace_api_v.SellerOffer.Store.{find_by_ids, reserve, reserve_one}
use marketplace_api_v.SellerOffer.Commands.{execute_reserve}
use marketplace_api_v.SellerOffer.Totals.{IsValid}
use marketplace_api_v.SellerOffer.Cycle.{
  reserve_items, release_all, handle, handle_all, handle-IsValid, released-lookup,
  handle-reserve_after_release,
}
use marketplace_api_v.SellerOffer.Again.{execute_reserve-again}
use marketplace_api_v.Samples.{stock_db, stock_db-IsValid, two_items}

handle-IsValid_example : IsValid (handle 7 (reserve_items two_items) stock_db)
handle-IsValid_example = handle-IsValid 7 (reserve_items two_items) stock_db stock_db-IsValid

-- Order 7 reserves twice, and releases.
released-lookup_example :
    lookup 1
      (handle 7 release_all
        (handle_all 7 (reserve_items two_items ∷ reserve_items two_items ∷ []) stock_db)).offers
    ≡ lookup 1 stock_db.offers
released-lookup_example =
    released-lookup 7 (reserve_items two_items ∷ reserve_items two_items ∷ []) stock_db 1
      stock_db-IsValid refl

handle-reserve_after_release_example :
    handle 7 (reserve_items two_items) (handle 7 release_all stock_db)
    ≡ handle 7 (reserve_items two_items) stock_db
handle-reserve_after_release_example =
    handle-reserve_after_release 7 two_items stock_db stock_db-IsValid refl

-- What order 7 reserves.
reserve_two :
    execute_reserve 7 two_items stock_db ≡ (ok tt, (execute_reserve 7 two_items stock_db).1)
unfolding execute_reserve find_by_ids reserve reserve_one
reserve_two = refl

execute_reserve-again_example :
    execute_reserve 7 two_items (execute_reserve 7 two_items stock_db).1
    ≡ (ok tt, (execute_reserve 7 two_items stock_db).1)
execute_reserve-again_example =
    execute_reserve-again 7 two_items stock_db (execute_reserve 7 two_items stock_db).1 reserve_two
