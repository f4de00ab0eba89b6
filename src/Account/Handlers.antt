-- ===== src/Account/Handlers.antt =====
-- The handlers of src/account/gateway/account.gateway.ts as a whole: their outcome on every branch, and
-- the invariant of the ledger across every request that reaches them.
use marketplace_api_v.Common.{
  ℕ, ◌<◌, ◌≡◌, refl, Bool, true, false, Option, none, some, arith, ok, err, Result, if◌then◌else◌,
  Bool-cases, inl, inr, ap,
}
use marketplace_api_v.Money.Fixed.{cents_of-lt}
use marketplace_api_v.Messaging.{
  UuidText, Value, text, number, undefined, null, other, amount_of, is_positive_amount, uuid_of,
}
use marketplace_api_v.Account.Store.{
  AccountDb, AccountError, rejected, customer_charge, customer_refund, money_limit, balance_of,
  seen, numeric_overflow,
}
use marketplace_api_v.Account.Commands.{ChargeData, RefundData, execute_charge, execute_refund}
use marketplace_api_v.Account.Inbox.{process_once-seen}
use marketplace_api_v.Account.Ledger.{
  IsValid, execute_charge-IsValid, execute_refund-IsValid, process_once-IsValid,
}
use marketplace_api_v.Account.Outcomes.{
  charge_outcome, respond_charge-outcome, refund_outcome, respond_refund-outcome,
}
use marketplace_api_v.Account.Gateway.{
  Request, Movement, charged, refunded, respond_charge, respond_refund, answer_charge,
  answer_refund, deliver_reply, is_valid_movement, is_valid_charge, is_valid_refund, charge_data,
  refund_data, handle_customer_charge, handle_customer_refund, charge_response_type,
  refund_response_type,
}

pub respond_charge_cases :
    (m : ℕ) (d : ChargeData) (db : AccountDb)
    → respond_charge m d db ≡ (
        if seen customer_charge m db
        then (ok charged, db)
        else charge_outcome m d db (balance_of d.customer_id db))
unfolding respond_charge answer_charge
respond_charge_cases m d db = elim (Bool-cases (seen customer_charge m db)) [
  | inl s ↦ rw s (ap answer_charge (process_once-seen customer_charge m (execute_charge d) db s))
  | inr s ↦ rw s (respond_charge-outcome m d db (balance_of d.customer_id db) s refl)
]

answer_charge-IsValid :
    (r : Result AccountError (Option (Unit {0})) × AccountDb)
    → IsValid r.1
    → IsValid (answer_charge r).1
unfolding answer_charge
answer_charge-IsValid (ok a, s) v = v
answer_charge-IsValid (err (rejected x y z), s) v = v
answer_charge-IsValid (err numeric_overflow, s) v = v

answer_refund-IsValid :
    (r : Result AccountError (Option Bool) × AccountDb) → IsValid r.1 → IsValid (answer_refund r).1
unfolding answer_refund
answer_refund-IsValid (ok none, s) v = v
answer_refund-IsValid (ok (some true), s) v = v
answer_refund-IsValid (ok (some false), s) v = v
answer_refund-IsValid (err e, s) v = v

deliver_reply-state :
    {R : Type 0} (request : Request) (type : _) (r : Result AccountError R × AccountDb)
    → (deliver_reply type request r).1 ≡ r.1
deliver_reply-state request type (ok a, s) = refl
deliver_reply-state request type (err e, s) = refl

amount_of-lt : (v : Value) → is_positive_amount v ≡ true → amount_of v < money_limit
amount_of-lt (text s) h = cents_of-lt s (ground arith)
amount_of-lt undefined h = cc
amount_of-lt null h = cc
amount_of-lt other h = cc
amount_of-lt (number n) h = cc

pub respond_refund_cases :
    (m : ℕ) (d : RefundData) (db : AccountDb)
    → respond_refund m d db ≡ (
        if seen customer_refund m db
        then (ok refunded, db)
        else refund_outcome m d db
            (seen customer_charge d.charge_id db)
            (balance_of d.customer_id db))
unfolding respond_refund answer_refund
respond_refund_cases m d db = elim (Bool-cases (seen customer_refund m db)) [
  | inl s ↦ rw s (ap answer_refund (process_once-seen customer_refund m (execute_refund d) db s))
  | inr s ↦ rw s (respond_refund-outcome m d db _ (balance_of d.customer_id db) s refl refl)
]

respond_charge-IsValid :
    (m : ℕ) (d : ChargeData) (db : AccountDb) → IsValid db → IsValid (respond_charge m d db).1
unfolding respond_charge
respond_charge-IsValid m d db v =
    answer_charge-IsValid _
      (process_once-IsValid customer_charge m (execute_charge d) db (execute_charge-IsValid d) v)

respond_refund-IsValid :
    (m : ℕ) (d : RefundData) (db : AccountDb)
    → d.amount < money_limit
    → IsValid db
    → IsValid (respond_refund m d db).1
unfolding respond_refund
respond_refund-IsValid m d db small v = answer_refund-IsValid _ (
    process_once-IsValid customer_refund m (execute_refund d) db
      (λ s w. execute_refund-IsValid d s small w) v)

module _ (uuids : UuidText) where
  refund_data-lt :
      (p : Option Movement)
      → is_valid_movement p ≡ true
      → (refund_data uuids p).amount < money_limit
  refund_data-lt none h = cc
  refund_data-lt (some d) h = amount_of-lt d.amount (ground arith)

  valid_refund-movement :
      (m : Request) → is_valid_refund uuids m ≡ true → is_valid_movement m.payload ≡ true
  unfolding is_valid_refund
  valid_refund-movement m h = ground arith

  -- Whatever request arrives, well formed or not, the charge handler and the refund handler keep the
  -- invariant of the account database: every balance is the sum of its customer's ledger and fits its
  -- column.
  pub handlers-IsValid :
      (m : Option Request) (db : AccountDb)
      → IsValid db
      → IsValid (handle_customer_charge uuids m db).1
        × IsValid (handle_customer_refund uuids m db).1
  unfolding handle_customer_charge handle_customer_refund
  handlers-IsValid none db v = (v, v)
  handlers-IsValid (some m) db v = (
    elim (Bool-cases (is_valid_charge uuids m)) [
      | inr bad ↦ rw bad v
      | inl good ↦
          rw
            (
              good,
              deliver_reply-state m charge_response_type
                  (respond_charge (uuid_of uuids m.id) (charge_data m.payload) db),
            )
            (respond_charge-IsValid (uuid_of uuids m.id) (charge_data m.payload) db v)
    ],
    elim (Bool-cases (is_valid_refund uuids m)) [
      | inr bad ↦ rw bad v
      | inl good ↦
          rw
            (
              good,
              deliver_reply-state m refund_response_type
                  (respond_refund (uuid_of uuids m.id) (refund_data uuids m.payload) db),
            )
            (respond_refund-IsValid (uuid_of uuids m.id) (refund_data uuids m.payload) db
              (refund_data-lt m.payload (valid_refund-movement m good)) v)
    ],
  )
