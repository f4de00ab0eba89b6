-- ===== src/Order/Workflow.antt =====
-- src/order/workflow/order-place.workflow.ts over its activities, each a function of the state of the
-- services. An activity of the forward steps ends done or failed. A compensation or a status is retried
-- until it succeeds: where it has not succeeded yet, the workflow is still waiting for it.
use marketplace_api_v.Common.{
  ℕ, Bool, true, false, not, ◌&&◌, Option, none, some, List, if◌then◌else◌, Text, codes, text_eq,
}
use marketplace_api_v.SellerOffer.Store.{Item}
use marketplace_api_v.Order.Store.{
  OrderStatus, WorkflowInput, paid, canceled, failed_payment, OrderFailure, FailureReason,
  payment_rejected, error,
}

-- `OrderPlaceFailureTypeEnum`
pub data FailureType : Type 0 where
  stock_type payment_type : FailureType

-- What a forward step can throw: an `ActivityFailure` whose cause is an `ApplicationFailure` with a type,
-- or anything else (a timeout, a cancellation).
pub data StepError : Type 0 where
  application : Text → StepError
  other : StepError

pub data StepResult : Type 0 where
  done : StepResult
  failed : StepError → StepResult

-- `OrderPlaceActivitiesInterface`. The charge that both payment activities take is built from the input.
pub record Activities (S : Type 0) : Type 0 where
  pub reserve_stock : ℕ → List Item → S → StepResult × S
  pub release_stock : ℕ → S → Bool × S
  pub charge_customer : ℕ → ℕ → Text → S → StepResult × S
  pub refund_customer : ℕ → ℕ → Text → S → Bool × S
  pub mark_paid : ℕ → S → Bool × S
  pub mark_failed : ℕ → OrderFailure → S → Bool × S

pub data WorkflowResult : Type 0 where
  completed : OrderStatus → WorkflowResult
  thrown : StepError → WorkflowResult
  waiting : WorkflowResult

abbrev pub stock_type_name : Text
stock_type_name = codes "InsufficientStock"

abbrev pub payment_type_name : Text
payment_type_name = codes "PaymentRejected"

-- `Object.values(OrderPlaceFailureTypeEnum).find((type) => type === cause.type)`
unfoldable pub to_failure_type : StepError → Option FailureType
to_failure_type (application t) =
    if text_eq t stock_type_name
    then some stock_type
    else if text_eq t payment_type_name
    then some payment_type
    else none
to_failure_type other = none

unfoldable pub to_failure : Option FailureType → OrderFailure
to_failure (some stock_type) = record {
  status = canceled;
  reason = FailureReason.insufficient_stock;
}
to_failure (some payment_type) = record { status = failed_payment; reason = payment_rejected }
to_failure none = record { status = canceled; reason = error }

abbrev pub is_payment_type : Option FailureType → Bool
is_payment_type (some payment_type) = true
is_payment_type _ = false

abbrev pub is_stock_type : Option FailureType → Bool
is_stock_type (some stock_type) = true
is_stock_type _ = false

-- The end of the `catch` block: a rejection is a result, and anything else is thrown on.
abbrev pub conclusion : StepError → Option FailureType → WorkflowResult
conclusion e none = thrown e
conclusion e (some t) = completed (to_failure (some t)).status

module _ {S : Type 0} where
  -- A retried activity: its continuation runs once it has succeeded.
  abbrev pub when_done : (S → WorkflowResult × S) → Bool × S → WorkflowResult × S
  when_done next (true, s) = next s
  when_done next (false, s) = (waiting, s)

  module _ (acts : Activities S) (input : WorkflowInput) where
    abbrev pub fail_order : StepError → Option FailureType → S → WorkflowResult × S
    fail_order e type s =
        when_done (λ s'. (conclusion e type, s'))
          (acts.mark_failed input.order_id (to_failure type) s)

    abbrev pub give_back : StepError → Option FailureType → S → WorkflowResult × S
    give_back e type s =
        if not (is_stock_type type)
        then when_done (fail_order e type) (acts.release_stock input.order_public_id s)
        else fail_order e type s

    -- The `catch` block, in its non-cancellable scope.
    unfoldable pub compensate : Bool → StepError → S → WorkflowResult × S
    unfolding to_failure_type to_failure
    compensate charge_sent e s =
        if charge_sent && not (is_payment_type (to_failure_type e))
        then when_done (give_back e (to_failure_type e))
            (acts.refund_customer input.order_public_id input.user_id input.total_amount s)
        else give_back e (to_failure_type e) s

    unfoldable pub after_charge : StepResult × S → WorkflowResult × S
    unfolding compensate
    after_charge (done, s) =
        when_done (λ s'. (completed paid, s')) (acts.mark_paid input.order_id s)
    after_charge (failed e, s) = compensate true e s

    unfoldable pub after_reserve : StepResult × S → WorkflowResult × S
    unfolding after_charge compensate
    after_reserve (done, s) =
        after_charge (acts.charge_customer input.order_public_id input.user_id input.total_amount s)
    after_reserve (failed e, s) = compensate false e s

    -- `orderPlaceWorkflow`
    unfoldable pub order_place_workflow : S → WorkflowResult × S
    unfolding after_reserve
    order_place_workflow s = after_reserve (acts.reserve_stock input.order_public_id input.items s)
