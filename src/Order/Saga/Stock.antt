-- ===== src/Order/Saga/Stock.antt =====
-- The reserve and release activities (src/order/activity/order-place.activity.ts) over the seller-offer gateway,
-- for an order that has no reservation.
use marketplace_api_v.Common.{
  ℕ, ◌≡◌, refl, true, false, Option, some, List, ◌⊎◌, inl, inr, ap, ◌∙◌, sym, subst, lookup, any,
  ◌==◌, ok, err, Result,
}
use marketplace_api_v.Messaging.{UuidText}
use marketplace_api_v.SellerOffer.Store.{
  Item, StockDb, StockError, Reservation, rejected, database_error,
}
use marketplace_api_v.SellerOffer.Commands.{execute_reserve}
use marketplace_api_v.SellerOffer.Gateway.{
  ReserveReply, reserved, refused, ReleaseReply, released, answer_reserve, answer_release,
}
use marketplace_api_v.SellerOffer.Totals.{IsValid}
use marketplace_api_v.SellerOffer.Releasing.{
  after_release, after_release-IsValid, released_count, execute_release-ok,
}
use marketplace_api_v.SellerOffer.Cycle.{
  Frame, handle, reserve_items, handle-IsValid, handle-Frame, release-Frame, after_release-lookup,
}
use marketplace_api_v.SellerOffer.Again.{execute_reserve-again, execute_reserve-err}
use marketplace_api_v.Order.Messages.{to_stock_reserve_request, to_stock_release_request}
use marketplace_api_v.Order.Accepted.{
  AreSafe, handle_stock_reserve-accepted, handle_stock_release-accepted,
}
use marketplace_api_v.Order.Activity.{
  Rpc, Attempt, hear, request, request_until_done, is_heard, reserve_rpc, release_rpc,
}
use marketplace_api_v.Order.Attempts.{Leaves, request-Leaves, request_until_done-Leaves}

module _ (uuids : UuidText) (order : ℕ) (items : List Item) (start : StockDb)
    (generated : uuids.is_generated order ≡ true) (are_safe : AreSafe items) (valid : IsValid start)
    (fresh : any (λ (r : Reservation). r.order_id == order) start.reservations ≡ false) where
  abbrev pub reserve : Rpc StockDb ReserveReply
  reserve = reserve_rpc uuids order items

  abbrev pub release : Rpc StockDb ReleaseReply
  release = release_rpc uuids order

  abbrev pub Reserved : StockDb → Type 0
  Reserved s = execute_reserve order items start ≡ (ok tt, s)

  -- Nothing of the order is in the tables, or all of it.
  abbrev pub AllOrNone : StockDb → Type 0
  AllOrNone s = (s ≡ start) ⊎ Reserved s

  -- A reservation is answered by what it did.
  abbrev pub AfterReserve : ReserveReply → StockDb → Type 0
  AfterReserve reserved s = Reserved s
  AfterReserve (refused reason shortages) s = s ≡ start

  hear-reserve :
      (db : StockDb)
      → reserve db
        ≡ hear (
            answer_reserve
              (to_stock_reserve_request uuids order items)
              (execute_reserve order items db))
  hear-reserve db = ap hear (handle_stock_reserve-accepted uuids order generated items db are_safe)

  reserve_outcome :
      (r : Result StockError (Unit {0}) × StockDb)
      → execute_reserve order items start ≡ r
      → Leaves AllOrNone AfterReserve
          (hear (answer_reserve (to_stock_reserve_request uuids order items) r))
  reserve_outcome (ok done, s) e = (inr e, e)
  reserve_outcome (err (rejected reason shortages), s) e =
      let same = execute_reserve-err order items start s (rejected reason shortages) e in
      (inl same, same)
  reserve_outcome (err database_error, s) e =
      inl (execute_reserve-err order items start s database_error e)

  reserve_step : (s : StockDb) → AllOrNone s → Leaves AllOrNone AfterReserve (reserve s)
  reserve_step s (inl same) =
      subst (λ t. Leaves AllOrNone AfterReserve (reserve t)) (sym same)
        (subst (Leaves AllOrNone AfterReserve) (sym (hear-reserve start))
          (reserve_outcome (execute_reserve order items start) refl))
  reserve_step s (inr held) =
      subst (Leaves AllOrNone AfterReserve)
        (sym (
          hear-reserve s
          ∙ ap (λ r. hear (answer_reserve (to_stock_reserve_request uuids order items) r))
              (execute_reserve-again order items start s held)))
        (inr held, held)

  -- What the attempts of `reserveStock` leave, by the reply that was heard, if one was.
  pub reserve_attempts :
      (ms : List Attempt) → Leaves AllOrNone AfterReserve (request reserve ms start)
  reserve_attempts ms =
      request-Leaves AllOrNone AfterReserve reserve reserve_step ms start (inl refl)

  abbrev pub Steady : StockDb → Type 0
  Steady s = IsValid s × Frame order start s

  handled : (s : StockDb) → Reserved s → handle order (reserve_items items) start ≡ s
  unfolding handle
  handled s held = ap (λ r. r.1) held

  AllOrNone-Steady : (s : StockDb) → AllOrNone s → Steady s
  AllOrNone-Steady s (inl same) = subst Steady (sym same) (valid, (λ i. refl, λ i. refl))
  AllOrNone-Steady s (inr held) = subst Steady (handled s held) (
    handle-IsValid order (reserve_items items) start valid,
    handle-Frame order start (reserve_items items) start valid (λ i. refl, λ i. refl),
  )

  -- The offers are as before the order.
  abbrev pub Restored : StockDb → Type 0
  Restored s = (i : ℕ) → lookup i s.offers ≡ lookup i start.offers

  abbrev pub AfterRelease : ReleaseReply → StockDb → Type 0
  AfterRelease r s = Restored s

  hear_release :
      (s : StockDb)
      → IsValid s
      → release s ≡ (some (released (released_count order s)), after_release order s)
  hear_release s v =
      ap hear (handle_stock_release-accepted uuids order generated s)
      ∙ ap (λ r. hear (answer_release (to_stock_release_request uuids order) r))
          (execute_release-ok order s v)

  Answered : Option ReleaseReply × StockDb → Type 0
  Answered x = Leaves Steady AfterRelease x × (is_heard x.0 ≡ true)

  release_step : (s : StockDb) → Steady s → Answered (release s)
  unfolding Answered
  release_step s (v, f) = subst Answered (sym (hear_release s v)) (
    (
      (after_release-IsValid order s v, release-Frame order start s f),
      λ i. after_release-lookup order start s i valid fresh v f,
    ),
    refl,
  )

  -- `releaseStock` is answered, and leaves every offer as it was before the order.
  pub release_attempts :
      (ms : List Attempt) (s : StockDb)
      → AllOrNone s
      → Leaves Steady AfterRelease (request_until_done release ms s)
        × (is_heard (request_until_done release ms s).0 ≡ true)
  unfolding Answered
  release_attempts ms s a =
      request_until_done-Leaves Steady AfterRelease release (λ t p. (release_step t p).0)
        (λ t p. (release_step t p).1) ms s (AllOrNone-Steady s a)
