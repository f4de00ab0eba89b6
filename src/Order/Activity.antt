-- ===== src/Order/Activity.antt =====
-- src/order/activity/order-place.activity.ts over the services that it calls: a request goes to the gateway of
-- its receiver, and Temporal runs an activity again until an attempt is answered.
use marketplace_api_v.Common.{
  ℕ, Bool, true, false, Option, none, some, List, [], ◌∷◌, Text, Result, ok, err,
}
use marketplace_api_v.Messaging.{UuidText, Answer, nack, reply}
use marketplace_api_v.Account.Store.{AccountDb}
use marketplace_api_v.Account.Gateway.{
  ChargeReply, RefundReply, charged, handle_customer_charge, handle_customer_refund,
}
use marketplace_api_v.Account.Gateway as AccountGateway
use marketplace_api_v.SellerOffer.Store.{Item, StockDb}
use marketplace_api_v.SellerOffer.Gateway.{
  ReserveReply, ReleaseReply, reserved, handle_stock_reserve, handle_stock_release,
}
use marketplace_api_v.SellerOffer.Gateway as SellerGateway
use marketplace_api_v.Order.Store.{OrderDb, OrderFailure, OrderError}
use marketplace_api_v.Order.Status.{mark_paid, mark_failed}
use marketplace_api_v.Order.Messages.{
  to_account_customer_charge_request, to_account_customer_refund_request, to_stock_reserve_request,
  to_stock_release_request,
}
use marketplace_api_v.Order.Workflow.{
  Activities, StepResult, done, failed, application, other, stock_type_name, payment_type_name,
}

-- The databases of the three services.
pub record World : Type 0 where
  pub account : AccountDb
  pub stock : StockDb
  pub order : OrderDb

-- One attempt of a request: it expires in its queue, it is handled and its reply is lost, or it is handled
-- and answered.
pub data Attempt : Type 0 where
  expires loses_reply answers : Attempt

-- What an attempt tells the activity: the reply's data, or nothing (a timeout). A handler that throws or
-- answers `Nack` sends no reply.
abbrev pub heard : {E R : Type 0} → Result E (Answer R) → Option R
heard (ok (reply m)) = some m.payload
heard (ok nack) = none
heard (err e) = none

abbrev pub hear : {E R S : Type 0} → Result E (Answer R) × S → Option R × S
hear (r, s) = (heard r, s)

-- A request with replies of type `R` as a step of a database `S`.
abbrev pub Rpc : Type 0 → Type 0 → Type 0
Rpc S R = S → Option R × S

-- The attempts of an activity that may give up: the first reply that is heard ends it.
unfoldable pub request : {S R : Type 0} → Rpc S R → List Attempt → Rpc S R
request call [] s = (none, s)
request call (expires ∷ rest) s = request call rest s
request call (loses_reply ∷ rest) s = request call rest (call s).1
request call (answers ∷ rest) s = elim (call s).0 [
  | none ↦ request call rest (call s).1
  | some r ↦ call s
]

-- The attempts of an activity that is retried until it succeeds, the last one among those that were made
-- being answered if the receiver replies.
unfoldable pub request_until_done : {S R : Type 0} → Rpc S R → List Attempt → Rpc S R
request_until_done call [] s = call s
request_until_done call (expires ∷ rest) s = request_until_done call rest s
request_until_done call (loses_reply ∷ rest) s = request_until_done call rest (call s).1
request_until_done call (answers ∷ rest) s = elim (call s).0 [
  | none ↦ request_until_done call rest (call s).1
  | some r ↦ call s
]

-- The attempts that the network gives each activity, and the fresh id and time of the final event.
pub record Schedule : Type 0 where
  pub reserve_attempts : List Attempt
  pub charge_attempts : List Attempt
  pub refund_attempts : List Attempt
  pub release_attempts : List Attempt
  pub fresh : ℕ
  pub now : ℕ

-- `if (data.status === 'rejected') throw ApplicationFailure.nonRetryable(…)`
abbrev pub reserve_result : Option ReserveReply → StepResult
reserve_result none = failed other
reserve_result (some reserved) = done
reserve_result (some (SellerGateway.refused reason items)) = failed (application stock_type_name)

abbrev pub charge_result : Option ChargeReply → StepResult
charge_result none = failed other
charge_result (some charged) = done
charge_result (some (AccountGateway.refused reason available)) =
    failed (application payment_type_name)

abbrev pub is_heard : {R : Type 0} → Option R → Bool
is_heard none = false
is_heard (some r) = true

module _ (uuids : UuidText) where
  abbrev pub reserve_rpc : ℕ → List Item → Rpc StockDb ReserveReply
  reserve_rpc order items db =
      hear (handle_stock_reserve uuids (some (to_stock_reserve_request uuids order items)) db)

  abbrev pub release_rpc : ℕ → Rpc StockDb ReleaseReply
  release_rpc order db =
      hear (handle_stock_release uuids (some (to_stock_release_request uuids order)) db)

  abbrev pub charge_rpc : ℕ → ℕ → Text → Rpc AccountDb ChargeReply
  charge_rpc order user amount db = hear (
      handle_customer_charge uuids
        (some (to_account_customer_charge_request uuids order user amount)) db)

  abbrev pub refund_rpc : ℕ → ℕ → Text → Rpc AccountDb RefundReply
  refund_rpc order user amount db = hear (
      handle_customer_refund uuids
        (some (to_account_customer_refund_request uuids order user amount)) db)

  module _ (plan : Schedule) where
    unfoldable pub reserve_stock : ℕ → List Item → World → StepResult × World
    reserve_stock order items w =
        let (r, db) = request (reserve_rpc order items) plan.reserve_attempts w.stock in
        (reserve_result r, record w { stock = db })

    unfoldable pub release_stock : ℕ → World → Bool × World
    release_stock order w =
        let (r, db) = request_until_done (release_rpc order) plan.release_attempts w.stock in
        (is_heard r, record w { stock = db })

    unfoldable pub charge_customer : ℕ → ℕ → Text → World → StepResult × World
    charge_customer order user amount w =
        let (r, db) = request (charge_rpc order user amount) plan.charge_attempts w.account in
        (charge_result r, record w { account = db })

    unfoldable pub refund_customer : ℕ → ℕ → Text → World → Bool × World
    refund_customer order user amount w =
        let (r, db) =
          request_until_done (refund_rpc order user amount) plan.refund_attempts w.account in
        (is_heard r, record w { account = db })

    -- A status call talks to its own database: it has succeeded unless it throws.
    abbrev status_done : Result OrderError (Unit {0}) → Bool
    status_done (ok a) = true
    status_done (err e) = false

    unfoldable pub pay_order : ℕ → World → Bool × World
    pay_order id w =
        let (r, db) = mark_paid plan.fresh plan.now id w.order in
        (status_done r, record w { order = db })

    unfoldable pub fail_order : ℕ → OrderFailure → World → Bool × World
    fail_order id failure w =
        let (r, db) = mark_failed plan.fresh plan.now id failure w.order in
        (status_done r, record w { order = db })

    -- `OrderPlaceWorker.toActivities`
    abbrev pub activities : Activities World
    activities = record {
      reserve_stock = reserve_stock;
      release_stock = release_stock;
      charge_customer = charge_customer;
      refund_customer = refund_customer;
      mark_paid = pay_order;
      mark_failed = fail_order;
    }
