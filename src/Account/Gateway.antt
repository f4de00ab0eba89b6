-- ===== src/Account/Gateway.antt =====
-- src/account/gateway/account.gateway.ts: the checks on a request, the call, and the response.
use marketplace_api_v.Common.{
  ℕ, Bool, true, false, ◌&&◌, Option, none, some, if◌then◌else◌, ok, err, Result, Text, codes,
}
use marketplace_api_v.Money.Text.{to_fixed}
use marketplace_api_v.Messaging.{
  Value, undefined, text, Message, is_text, is_positive_safe, is_positive_amount, number_of,
  amount_of, UuidText, is_uuid, uuid_of, Answer, nack, reply,
}
use marketplace_api_v.Account.Store.{
  AccountDb, AccountError, rejected, numeric_overflow, RejectReason, Call, customer_charge,
  customer_refund,
}
use marketplace_api_v.Account.Commands.{
  ChargeData, RefundData, execute_charge, execute_refund, process_once,
}

-- The `data` of a request; a charge has no `chargeId`.
pub record Movement : Type 0 where
  pub customer_id : Value
  pub amount : Value
  pub charge_id : Value

abbrev pub Request : Type 0
Request = Message (Option Movement)

abbrev pub charge_type : Text
charge_type = codes "account.customer.charge"

abbrev pub charge_response_type : Text
charge_response_type = codes "account.customer.charge.response"

abbrev pub refund_type : Text
refund_type = codes "account.customer.refund"

abbrev pub refund_response_type : Text
refund_response_type = codes "account.customer.refund.response"

-- `ResponseDataType` of a charge and of a refund
pub data ChargeReply : Type 0 where
  charged : ChargeReply
  refused : RejectReason → Text → ChargeReply

pub data RefundReply : Type 0 where
  refunded not_charged : RefundReply

abbrev pub is_valid_movement : Option Movement → Bool
is_valid_movement none = false
is_valid_movement (some m) = is_positive_safe m.customer_id && is_positive_amount m.amount

-- `toResponse` and `toRefundResponse`; the fresh `id` is read by no one.
abbrev pub to_response : {R : Type 0} → Text → Request → R → Answer R
to_response type request content = reply (record {
  specversion = text (codes "1.0");
  id = undefined;
  type = text type;
  subject = request.subject;
  correlationid = request.id;
  payload = content;
})

-- The handler's `try … catch`: a rejection is a reply, and any other error is thrown on.
unfoldable pub answer_charge :
    Result AccountError (Option (Unit {0})) × AccountDb
    → Result AccountError ChargeReply × AccountDb
answer_charge (ok applied, db) = (ok charged, db)
answer_charge (err (rejected reason amount balance), db) =
    (ok (refused reason (to_fixed balance)), db)
answer_charge (err numeric_overflow, db) = (err numeric_overflow, db)

-- The body of `handleCustomerCharge` behind the checks.
unfoldable pub respond_charge : ℕ → ChargeData → Call ChargeReply
unfolding answer_charge
respond_charge message d db =
    answer_charge (process_once customer_charge message (execute_charge d) db)

-- `refunded` is true until the effect assigns it, so a message that is skipped answers `refunded`.
unfoldable pub answer_refund :
    Result AccountError (Option Bool) × AccountDb → Result AccountError RefundReply × AccountDb
answer_refund (ok none, db) = (ok refunded, db)
answer_refund (ok (some true), db) = (ok refunded, db)
answer_refund (ok (some false), db) = (ok not_charged, db)
answer_refund (err e, db) = (err e, db)

-- The body of `handleCustomerRefund` behind the checks.
unfoldable pub respond_refund : ℕ → RefundData → Call RefundReply
unfolding answer_refund
respond_refund message d db =
    answer_refund (process_once customer_refund message (execute_refund d) db)

-- A response in its envelope.
abbrev pub deliver_reply :
    {R : Type 0}
    → Text
    → Request
    → Result AccountError R × AccountDb
    → Result AccountError (Answer R) × AccountDb
deliver_reply type request (ok r, db) = (ok (to_response type request r), db)
deliver_reply type request (err e, db) = (err e, db)

-- The checked `data`.
abbrev pub charge_data : Option Movement → ChargeData
charge_data none = record { customer_id = 0; amount = 0 }
charge_data (some d) = record { customer_id = number_of d.customer_id; amount = amount_of d.amount }

module _ (uuids : UuidText) where
  unfoldable pub is_valid_charge : Request → Bool
  is_valid_charge m =
      is_text (codes "1.0") m.specversion
      && is_text charge_type m.type
      && is_uuid uuids m.id
      && is_uuid uuids m.subject
      && is_valid_movement m.payload

  unfoldable pub is_valid_refund : Request → Bool
  is_valid_refund m =
      is_text (codes "1.0") m.specversion
      && is_text refund_type m.type
      && is_uuid uuids m.id
      && elim m.payload [ none ↦ false | some d ↦ is_uuid uuids d.charge_id ]
      && is_valid_movement m.payload

  abbrev pub refund_data : Option Movement → RefundData
  refund_data none = record { customer_id = 0; amount = 0; charge_id = 0 }
  refund_data (some d) = record {
    customer_id = number_of d.customer_id;
    amount = amount_of d.amount;
    charge_id = uuid_of uuids d.charge_id;
  }

  -- `none` is a message that is `null` or `undefined`.
  unfoldable pub handle_customer_charge : Option Request → Call (Answer ChargeReply)
  handle_customer_charge none db = (ok nack, db)
  handle_customer_charge (some m) db =
      if is_valid_charge m
      then deliver_reply charge_response_type m
          (respond_charge (uuid_of uuids m.id) (charge_data m.payload) db)
      else (ok nack, db)

  unfoldable pub handle_customer_refund : Option Request → Call (Answer RefundReply)
  handle_customer_refund none db = (ok nack, db)
  handle_customer_refund (some m) db =
      if is_valid_refund m
      then deliver_reply refund_response_type m
          (respond_refund (uuid_of uuids m.id) (refund_data m.payload) db)
      else (ok nack, db)
