-- ===== src/Account/Outcomes.antt =====
-- What a request that the inbox of src/account/gateway/account.gateway.ts has not seen must do, on every branch.
use marketplace_api_v.Common.{
  ℕ, ◌+◌, ◌-◌, ◌≡◌, Bool, true, false, Option, none, some, arith, ok, err, Result, leb, ltb,
  if◌then◌else◌, Bool-cases, inl, inr, ap, ◌∙◌,
}
use marketplace_api_v.Money.Text.{to_fixed}
use marketplace_api_v.Account.Store.{
  AccountDb, AccountError, insufficient_amount, customer_not_found, customer_charge,
  customer_refund, money_limit, balance_of, seen, numeric_overflow,
}
use marketplace_api_v.Account.Commands.{ChargeData, RefundData, execute_charge, execute_refund}
use marketplace_api_v.Account.Inbox.{mark, finish, process_once-new}
use marketplace_api_v.Account.Branches.{
  moved, payment_of, refund_of, charge_missing, charge_short, charge_paid, refund_fenced,
  refund_paid, refund_opened, refund_overflow,
}
use marketplace_api_v.Account.Gateway.{
  ChargeReply, charged, refused, RefundReply, refunded, not_charged, respond_charge, respond_refund,
  answer_charge, answer_refund,
}

-- What a charge that the inbox has not seen must do, by the balance of its customer.
abbrev pub charge_outcome :
    ℕ → ChargeData → AccountDb → Option ℕ → Result AccountError ChargeReply × AccountDb
charge_outcome m d db none = (ok (refused customer_not_found (to_fixed 0)), db)
charge_outcome m d db (some b) =
    if leb d.amount b
    then (ok charged, moved d.customer_id (b - d.amount) (payment_of d) (mark customer_charge m db))
    else (ok (refused insufficient_amount (to_fixed b)), db)

pub respond_charge-outcome :
    (m : ℕ) (d : ChargeData) (db : AccountDb) (o : Option ℕ)
    → seen customer_charge m db ≡ false
    → balance_of d.customer_id db ≡ o
    → respond_charge m d db ≡ charge_outcome m d db o
unfolding respond_charge answer_charge
respond_charge-outcome m d db none s e = ap answer_charge (
    process_once-new customer_charge m (execute_charge d) db s
    ∙ ap (finish db) (charge_missing d (mark customer_charge m db) e))
respond_charge-outcome m d db (some b) s e = elim (Bool-cases (leb d.amount b)) [
  | inl covered ↦ rw covered (
      ap answer_charge (
        process_once-new customer_charge m (execute_charge d) db s
        ∙ ap (finish db) (charge_paid d (mark customer_charge m db) b e (ground arith))))
  | inr short ↦ rw short (
      ap answer_charge (
        process_once-new customer_charge m (execute_charge d) db s
        ∙ ap (finish db) (charge_short d (mark customer_charge m db) b e (ground arith))))
]

-- What a refund that the inbox has not seen must do: fence a charge that never came, or pay back.
abbrev pub refund_outcome :
    ℕ → RefundData → AccountDb → Bool → Option ℕ → Result AccountError RefundReply × AccountDb
refund_outcome m d db false o =
    (ok not_charged, mark customer_charge d.charge_id (mark customer_refund m db))
refund_outcome m d db true none =
    (ok refunded, moved d.customer_id d.amount (refund_of d) (mark customer_refund m db))
refund_outcome m d db true (some b) =
    if ltb (b + d.amount) money_limit
    then (ok refunded, moved d.customer_id (b + d.amount) (refund_of d) (mark customer_refund m db))
    else (err numeric_overflow, db)

pub respond_refund-outcome :
    (m : ℕ) (d : RefundData) (db : AccountDb) (c : Bool) (o : Option ℕ)
    → seen customer_refund m db ≡ false
    → seen customer_charge d.charge_id db ≡ c
    → balance_of d.customer_id db ≡ o
    → respond_refund m d db ≡ refund_outcome m d db c o
unfolding respond_refund answer_refund
respond_refund-outcome m d db false o s c e = ap answer_refund (
    process_once-new customer_refund m (execute_refund d) db s
    ∙ ap (finish db) (refund_fenced d (mark customer_refund m db) c))
respond_refund-outcome m d db true none s c e = ap answer_refund (
    process_once-new customer_refund m (execute_refund d) db s
    ∙ ap (finish db) (refund_opened d (mark customer_refund m db) c e))
respond_refund-outcome m d db true (some b) s c e =
    elim (Bool-cases (ltb (b + d.amount) money_limit)) [
      | inl fits ↦ rw fits (
          ap answer_refund (
            process_once-new customer_refund m (execute_refund d) db s
            ∙ ap (finish db) (refund_paid d (mark customer_refund m db) b c e (ground arith))))
      | inr over ↦ rw over (
          ap answer_refund (
            process_once-new customer_refund m (execute_refund d) db s
            ∙ ap (finish db) (refund_overflow d (mark customer_refund m db) b c e (ground arith))))
    ]
