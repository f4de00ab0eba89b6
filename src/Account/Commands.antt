-- ===== src/Account/Commands.antt =====
-- src/account/command-handler and service/account-inbox.service.ts.
use marketplace_api_v.Common.{
  ℕ, Bool, true, false, Option, none, some, pure, throw, ◌>>=◌, ◌>>◌, transactional,
}
use marketplace_api_v.Account.Store.{
  Call, payment, refund, success, InboxConsumer, customer_charge, rejected, insufficient_amount,
  customer_not_found, debit, credit, create_account_if_absent, find_balance, create_transaction,
  create_inbox_if_absent,
}

-- `AccountCustomerChargeRequest.DataInterface`, its amount in cents.
pub record ChargeData : Type 0 where
  pub customer_id : ℕ
  pub amount : ℕ

-- `AccountCustomerRefundRequest.DataInterface`
pub record RefundData : Type 0 where
  pub customer_id : ℕ
  pub amount : ℕ
  pub charge_id : ℕ

-- The refusal of a debit, by the balance that was found.
refuse : ℕ → Option ℕ → Call (Unit {0})
refuse amount none = throw (rejected customer_not_found 0 0)
refuse amount (some balance) = throw (rejected insufficient_amount amount balance)

-- What follows the debit, by its outcome.
settle_charge : ChargeData → Bool → Call (Unit {0})
unfolding refuse
settle_charge d false = find_balance d.customer_id >>= refuse d.amount
settle_charge d true =
    create_transaction
      (record { customer_id = d.customer_id; amount = d.amount; type = payment; status = success })

-- `AccountCustomerChargeCommandHandler.execute`
unfoldable pub execute_charge : ChargeData → Call (Unit {0})
unfolding settle_charge
execute_charge d = transactional (debit d.customer_id d.amount >>= settle_charge d)

-- `AccountInboxService.markProcessed`
unfoldable pub mark_processed : InboxConsumer → ℕ → Call Bool
unfolding create_inbox_if_absent
mark_processed k m = create_inbox_if_absent k m

-- What follows the fence of a refund: a new row means that the charge never happened.
settle_refund : RefundData → Bool → Call Bool
settle_refund d true = pure false
settle_refund d false = do
  credit d.customer_id d.amount
  create_transaction
      (record { customer_id = d.customer_id; amount = d.amount; type = refund; status = success })
  pure true

-- `AccountCustomerRefundCommandHandler.execute`
unfoldable pub execute_refund : RefundData → Call Bool
unfolding mark_processed settle_refund
execute_refund d = transactional (mark_processed customer_charge d.charge_id >>= settle_refund d)

-- What `processOnce` does after the inbox insert: the effect, and its value, on a new row only.
run_if_new : {A : Type 0} → Call A → Bool → Call (Option A)
run_if_new effect false = pure none
run_if_new effect true = effect >>= λ a. pure (some a)

-- `AccountInboxService.processOnce`, which returns whether the effect ran; what the effect returned
-- comes with it, in place of the variable that the caller's closure assigns.
unfoldable pub process_once : {A : Type 0} → InboxConsumer → ℕ → Call A → Call (Option A)
unfolding run_if_new
process_once k m effect = transactional (create_inbox_if_absent k m >>= run_if_new effect)

-- `AccountCreateCommandHandler.execute`
unfoldable pub execute_create : ℕ → Call Bool
unfolding create_account_if_absent
execute_create c = create_account_if_absent c
