-- ===== src/Order/Saga/Outcome.antt =====
-- The placement of an order as a whole (src/order/workflow/order-place.workflow.ts with its activities): either
-- the order is paid for and its stock held, or nothing is left of it but its final status.
use marketplace_api_v.Common.{
  ℕ, ◌-◌, ◌≤◌, ◌<◌, ◌≡◌, refl, true, false, Option, none, some, List, inr, ap, sym, subst, lookup,
  any, ◌==◌, lookup-put_self, ok,
}
use marketplace_api_v.Money.Text.{to_fixed}
use marketplace_api_v.Messaging.{UuidText}
use marketplace_api_v.Account.Store.{AccountDb, money_limit, balance_of}
use marketplace_api_v.Account.Gateway.{ChargeReply, charged, RefundReply}
use marketplace_api_v.Account.Gateway as AccountGateway
use marketplace_api_v.SellerOffer.Store.{Item, StockDb, Reservation}
use marketplace_api_v.SellerOffer.Commands.{execute_reserve}
use marketplace_api_v.SellerOffer.Gateway.{ReserveReply, reserved, ReleaseReply}
use marketplace_api_v.SellerOffer.Gateway as SellerGateway
use marketplace_api_v.SellerOffer.Totals.{IsValid}
use marketplace_api_v.Order.Store.{
  Order, WorkflowInput, OrderStatus, paid, canceled, failed_payment, is_pending, with_status,
}
use marketplace_api_v.Order.Status.{mark_paid_pending, mark_failed_pending}
use marketplace_api_v.Order.Messages.{safe_limit}
use marketplace_api_v.Order.Accepted.{AreSafe}
use marketplace_api_v.Order.Workflow.{
  WorkflowResult, completed, thrown, waiting, StepError, application, other, FailureType,
  stock_type, payment_type, to_failure, to_failure_type, is_stock_type, stock_type_name,
  payment_type_name, fail_order, give_back, compensate, after_charge, after_reserve,
  order_place_workflow,
}
use marketplace_api_v.Order.Activity.{
  World, Schedule, activities, is_heard, request, request_until_done, reserve_stock, release_stock,
  charge_customer, refund_customer, pay_order, charge_result, reserve_result,
}
use marketplace_api_v.Order.Activity
use marketplace_api_v.Order.Attempts.{Leaves, heard-Leaves}
use marketplace_api_v.Account.Delivery.{IsFresh}
use marketplace_api_v.Order.Saga.Payment.{Open, AfterCharge, charge_attempts, refund_attempts}
use marketplace_api_v.Order.Saga.Stock.{
  AllOrNone, AfterReserve, reserve_attempts, release_attempts, reserve,
}

module _ (uuids : UuidText) (plan : Schedule) (id order customer cents b : ℕ) (items : List Item)
    (generated : uuids.is_generated order ≡ true) (known : 0 < customer)
    (safe : customer ≤ safe_limit) (positive : 0 < cents) (small : cents < money_limit)
    (bounded : b < money_limit) (are_safe : AreSafe items) (o : Order)
    (pending : is_pending o.status ≡ true) (live : o.deleted ≡ false) (start : StockDb)
    (valid : IsValid start)
    (unreserved : any (λ (r : Reservation). r.order_id == order) start.reservations ≡ false) where
  abbrev pub input : WorkflowInput
  input = record {
    order_id = id;
    order_public_id = order;
    user_id = customer;
    total_amount = to_fixed cents;
    items = items;
  }

  -- What is left of an order that was not paid for: its final status.
  abbrev pub Undone : OrderStatus → World → Type 0
  Undone s w =
      (balance_of customer w.account ≡ some b)
      × ((i : ℕ) → lookup i w.stock.offers ≡ lookup i start.offers)
      × (lookup id w.order.orders ≡ some (with_status s o))

  abbrev pub Outcome : WorkflowResult × World → Type 0
  Outcome (completed OrderStatus.paid, w) =
      (cents ≤ b)
      × (balance_of customer w.account ≡ some (b - cents))
      × (execute_reserve order items start ≡ (ok tt, w.stock))
      × (lookup id w.order.orders ≡ some (with_status paid o))
  Outcome (completed OrderStatus.canceled, w) = Undone canceled w
  Outcome (completed OrderStatus.failed_payment, w) = Undone failed_payment w
  Outcome (completed _, w) = ⊥
  Outcome (thrown e, w) = Undone canceled w
  Outcome (waiting, w) = ⊥

  -- The final status, written while the rest is as it should be.
  fail_step :
      (e : StepError) (type : Option FailureType) (w : World)
      → balance_of customer w.account ≡ some b
      → ((i : ℕ) → lookup i w.stock.offers ≡ lookup i start.offers)
      → lookup id w.order.orders ≡ some o
      → Outcome (fail_order (activities uuids plan) input e type w)
  unfolding to_failure Activity.fail_order
  fail_step e none w balance restored found =
      rw (mark_failed_pending plan.fresh plan.now id o w.order (to_failure none) found pending live)
        (balance, restored, lookup-put_self id (with_status canceled o) w.order.orders)
  fail_step e (some stock_type) w balance restored found =
      rw
        (mark_failed_pending plan.fresh plan.now id o w.order (to_failure (some stock_type)) found
          pending live)
        (balance, restored, lookup-put_self id (with_status canceled o) w.order.orders)
  fail_step e (some payment_type) w balance restored found =
      rw
        (mark_failed_pending plan.fresh plan.now id o w.order (to_failure (some payment_type)) found
          pending live)
        (balance, restored, lookup-put_self id (with_status failed_payment o) w.order.orders)

  AllOrNoneHere : StockDb → Type 0
  AllOrNoneHere = AllOrNone uuids order items start generated are_safe valid unreserved

  OpenHere : AccountDb → Type 0
  OpenHere = Open uuids order customer cents b generated known safe positive small bounded

  -- The stock is given back, and the order fails.
  release_step :
      (e : StepError) (type : Option FailureType) (w : World)
      → is_stock_type type ≡ false
      → AllOrNoneHere w.stock
      → balance_of customer w.account ≡ some b
      → lookup id w.order.orders ≡ some o
      → Outcome (give_back (activities uuids plan) input e type w)
  unfolding AllOrNoneHere Activity.release_stock
  release_step e type w no_stock held balance found =
      let (leaves, heard) =
        release_attempts uuids order items start generated are_safe valid unreserved
          plan.release_attempts w.stock held in
      let (r, steady, restored) = heard-Leaves _ _ _ leaves heard in
      rw (no_stock, heard) (fail_step e type _ balance restored found)

  -- A charge that may have happened is paid back, and then the stock given back.
  refund_step :
      (w : World)
      → AllOrNoneHere w.stock
      → OpenHere w.account
      → lookup id w.order.orders ≡ some o
      → Outcome (compensate (activities uuids plan) input true other w)
  unfolding OpenHere compensate Activity.refund_customer
  refund_step w held open_account found =
      let (leaves, heard) =
        refund_attempts uuids order customer cents b generated known safe positive small bounded
          plan.refund_attempts w.account open_account in
      let (r, any, settled) = heard-Leaves _ _ _ leaves heard in
      rw heard (release_step other none _ refl held settled.2 found)

  AfterChargeHere : Option ChargeReply × AccountDb → Type 0
  AfterChargeHere =
      Leaves OpenHere
        (AfterCharge uuids order customer cents b generated known safe positive small bounded)

  AfterReserveHere : Option ReserveReply × StockDb → Type 0
  AfterReserveHere =
      Leaves AllOrNoneHere
        (AfterReserve uuids order items start generated are_safe valid unreserved)

  charge_step :
      (w : World) (x : Option ChargeReply × AccountDb)
      → execute_reserve order items start ≡ (ok tt, w.stock)
      → lookup id w.order.orders ≡ some o
      → AfterChargeHere x
      → Outcome (
          after_charge
            (activities uuids plan)
            input
            (charge_result x.0, record w { account = x.1 }))
  unfolding after_charge compensate to_failure_type Activity.pay_order AfterChargeHere OpenHere
      AllOrNoneHere
  charge_step w (none, db) held found h = refund_step (record w { account = db }) (inr held) h found
  charge_step w (some charged, db) held found h =
      rw (mark_paid_pending plan.fresh plan.now id o w.order found pending live)
        (h.1.2, h.1.3, held, lookup-put_self id (with_status paid o) w.order.orders)
  charge_step w (some (AccountGateway.refused reason available), db) held found h =
      release_step (application payment_type_name) (some payment_type) (record w { account = db })
        refl (inr held) h.1.2 found

  reserve_step :
      (w : World) (x : Option ReserveReply × StockDb)
      → IsFresh order customer cents b w.account
      → lookup id w.order.orders ≡ some o
      → AfterReserveHere x
      → Outcome (
          after_reserve
            (activities uuids plan)
            input
            (reserve_result x.0, record w { stock = x.1 }))
  unfolding after_reserve compensate to_failure_type Activity.charge_customer AfterReserveHere
      AllOrNoneHere AfterChargeHere OpenHere
  reserve_step w (none, db) fresh found h =
      release_step other none (record w { stock = db }) refl h fresh.2 found
  reserve_step w (some reserved, db) fresh found h =
      charge_step (record w { stock = db }) _ h.1 found
        (charge_attempts uuids order customer cents b generated known safe positive small bounded
          plan.charge_attempts w.account fresh)
  reserve_step w (some (SellerGateway.refused reason shortages), db) fresh found h =
      fail_step (application stock_type_name) (some stock_type) (record w { stock = db }) fresh.2
        (λ i. ap (λ (t : StockDb). lookup i t.offers) h.1) found

  -- Whatever attempts of its activities expire or lose their replies, the placement workflow of a pending
  -- order ends, and ends in one of two ways. Either it returns `paid`: the balance covered the total and is
  -- less by it, every item was reserved by one successful run of the reserve command on the stock as it
  -- was, and the order is `paid`. Or it returns `canceled` or `failed_payment`, or throws: the customer's
  -- balance and every offer are as before, and the order is `canceled` or `failed_payment`. The order is
  -- new to the account's inbox and to the reservations, its total is positive and fits its column, its
  -- items and its buyer's id are positive and safe numbers, and no other order runs meanwhile.
  pub order_place_workflow-Outcome :
      (w : World)
      → w.stock ≡ start
      → IsFresh order customer cents b w.account
      → lookup id w.order.orders ≡ some o
      → Outcome (order_place_workflow (activities uuids plan) input w)
  unfolding order_place_workflow Activity.reserve_stock AfterReserveHere AllOrNoneHere
  order_place_workflow-Outcome w same fresh found = reserve_step w _ fresh found (
      subst
        (λ s. AfterReserveHere (
          request (reserve uuids order items start generated are_safe valid unreserved)
            plan.reserve_attempts s))
        (sym same)
        (reserve_attempts uuids order items start generated are_safe valid unreserved
          plan.reserve_attempts))
