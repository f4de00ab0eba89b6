-- ===== src/Order/Saga/Payment.antt =====
-- The charge and refund activities (src/order/activity/order-place.activity.ts) over the account gateway, for an
-- order that its inbox has not seen.
use marketplace_api_v.Common.{
  ℕ, ◌+◌, ◌-◌, ◌≤◌, ◌<◌, ◌≡◌, refl, true, false, Option, some, List, ◌⊎◌, inl, inr, arith, ap, ◌∙◌,
  sym, subst, ==_refl, lookup-put_self, Bool-cases, leb, le→leb, leb→le, lt→ltb, ok,
}
use marketplace_api_v.Money.Text.{to_fixed}
use marketplace_api_v.Messaging.{UuidText}
use marketplace_api_v.Account.Store.{
  AccountDb, customer_charge, customer_refund, money_limit, insufficient_amount,
}
use marketplace_api_v.Account.Inbox.{mark}
use marketplace_api_v.Account.Branches.{moved, payment_of, refund_of}
use marketplace_api_v.Account.Gateway.{
  ChargeReply, charged, refused, RefundReply, refunded, not_charged, respond_charge, respond_refund,
  deliver_reply, charge_response_type, refund_response_type, Request,
}
use marketplace_api_v.Account.Outcomes.{respond_charge-outcome, respond_refund-outcome}
use marketplace_api_v.Account.Handlers.{respond_charge_cases, respond_refund_cases}
use marketplace_api_v.Account.Delivery.{
  IsFresh, IsCharged, IsSettled, charge_request, refund_request,
}
use marketplace_api_v.Order.Messages.{
  safe_limit, to_account_customer_charge_request, to_account_customer_refund_request,
}
use marketplace_api_v.Order.Accepted.{
  handle_customer_charge-accepted, handle_customer_refund-accepted,
}
use marketplace_api_v.Order.Activity.{
  Rpc, Attempt, hear, request, request_until_done, is_heard, charge_rpc, refund_rpc,
}
use marketplace_api_v.Order.Attempts.{Leaves, request-Leaves, request_until_done-Leaves}

module _ (uuids : UuidText) (order customer cents b : ℕ)
    (generated : uuids.is_generated order ≡ true) (known : 0 < customer)
    (safe : customer ≤ safe_limit) (positive : 0 < cents) (small : cents < money_limit)
    (bounded : b < money_limit) where
  abbrev pub Fresh : AccountDb → Type 0
  Fresh = IsFresh order customer cents b

  abbrev pub Charged : AccountDb → Type 0
  Charged = IsCharged order customer cents b

  abbrev pub Settled : AccountDb → Type 0
  Settled = IsSettled order customer cents b

  abbrev pub Open : AccountDb → Type 0
  Open db = Fresh db ⊎ Charged db

  abbrev pub charge : Rpc AccountDb ChargeReply
  charge = charge_rpc uuids order customer (to_fixed cents)

  abbrev pub refund : Rpc AccountDb RefundReply
  refund = refund_rpc uuids order customer (to_fixed cents)

  hear_charge :
      (r : ChargeReply) (db db' : AccountDb)
      → respond_charge order (charge_request order customer cents) db ≡ (ok r, db')
      → charge db ≡ (some r, db')
  hear_charge r db db' e =
      ap hear (
        handle_customer_charge-accepted uuids order generated customer cents known safe positive
          small db)
      ∙ ap (λ x. hear (deliver_reply charge_response_type charge_message x)) e
    where
      charge_message : Request
      charge_message = to_account_customer_charge_request uuids order customer (to_fixed cents)

  hear_refund :
      (r : RefundReply) (db db' : AccountDb)
      → respond_refund order (refund_request order customer cents) db ≡ (ok r, db')
      → refund db ≡ (some r, db')
  hear_refund r db db' e =
      ap hear (
        handle_customer_refund-accepted uuids order generated customer cents known safe positive
          small db)
      ∙ ap (λ x. hear (deliver_reply refund_response_type refund_message x)) e
    where
      refund_message : Request
      refund_message = to_account_customer_refund_request uuids order customer (to_fixed cents)

  -- A charge is answered by what it did: paid and in the inbox, or refused and without a trace.
  abbrev pub AfterCharge : ChargeReply → AccountDb → Type 0
  AfterCharge charged db = Charged db
  AfterCharge (refused reason available) db = Fresh db

  charge_charged : (db : AccountDb) → Charged db → charge db ≡ (some charged, db)
  charge_charged db c =
      hear_charge charged db db
        (respond_charge_cases order (charge_request order customer cents) db ∙ rw c.0)

  charge_covered :
      (db : AccountDb)
      → Fresh db
      → cents ≤ b
      → (db' : AccountDb) × (charge db ≡ (some charged, db')) × Charged db'
  charge_covered db f h = (
    after,
    hear_charge charged db after (
        respond_charge-outcome order (charge_request order customer cents) db (some b) f.0 f.2
        ∙ rw (le→leb cents b h)),
    (ground (arith, ==_refl order), f.1, h, lookup-put_self customer (b - cents) db.accounts),
  )
    where
      after : AccountDb
      after =
          moved customer (b - cents) (payment_of (charge_request order customer cents))
            (mark customer_charge order db)

  charge_short :
      (db : AccountDb)
      → Fresh db
      → leb cents b ≡ false
      → charge db ≡ (some (refused insufficient_amount (to_fixed b)), db)
  charge_short db f h = hear_charge (refused insufficient_amount (to_fixed b)) db db (
      respond_charge-outcome order (charge_request order customer cents) db (some b) f.0 f.2 ∙ rw h)

  charge_step : (db : AccountDb) → Open db → Leaves Open AfterCharge (charge db)
  charge_step db (inr c) = subst (Leaves Open AfterCharge) (sym (charge_charged db c)) (inr c, c)
  charge_step db (inl f) = elim (Bool-cases (leb cents b)) [
    | inl covered ↦
        let (db', e, c) = charge_covered db f (leb→le cents b covered) in
        subst (Leaves Open AfterCharge) (sym e) (inr c, c)
    | inr short ↦ subst (Leaves Open AfterCharge) (sym (charge_short db f short)) (inl f, f)
  ]

  -- What the attempts of `chargeCustomer` leave, by the reply that was heard, if one was.
  pub charge_attempts :
      (ms : List Attempt) (db : AccountDb)
      → Fresh db
      → Leaves Open AfterCharge (request charge ms db)
  charge_attempts ms db f = request-Leaves Open AfterCharge charge charge_step ms db (inl f)

  abbrev pub Any : AccountDb → Type 0
  Any db = Open db ⊎ Settled db

  abbrev pub AfterRefund : RefundReply → AccountDb → Type 0
  AfterRefund r db = Settled db

  refund_fresh :
      (db : AccountDb)
      → Fresh db
      → (db' : AccountDb) × (refund db ≡ (some not_charged, db')) × Settled db'
  refund_fresh db f = (
    after,
    hear_refund not_charged db after (
        respond_refund-outcome order (refund_request order customer cents) db false (some b) f.1 f.0
          f.2),
    (ground (arith, ==_refl order), ground (arith, ==_refl order), f.2),
  )
    where
      after : AccountDb
      after = mark customer_charge order (mark customer_refund order db)

  refund-Charged :
      (db : AccountDb)
      → Charged db
      → (db' : AccountDb) × (refund db ≡ (some refunded, db')) × Settled db'
  refund-Charged db c = (
    after,
    hear_refund refunded db after (
        respond_refund-outcome order (refund_request order customer cents) db true
          (some (b - cents)) c.1 c.0 c.3
        ∙ rw (lt→ltb (b - cents + cents) money_limit (omega (arith, c.2)))),
    (
      c.0,
      ground (arith, ==_refl order),
      lookup-put_self customer (b - cents + cents) db.accounts ∙ ap some (omega (arith, c.2)),
    ),
  )
    where
      after : AccountDb
      after =
          moved customer (b - cents + cents) (refund_of (refund_request order customer cents))
            (mark customer_refund order db)

  refund-Settled : (db : AccountDb) → Settled db → refund db ≡ (some refunded, db)
  refund-Settled db s =
      hear_refund refunded db db
        (respond_refund_cases order (refund_request order customer cents) db ∙ rw s.1)

  Answered : Option RefundReply × AccountDb → Type 0
  Answered x = Leaves Any AfterRefund x × (is_heard x.0 ≡ true)

  Answered-by :
      (r : RefundReply) (x : Option RefundReply × AccountDb) (db : AccountDb)
      → x ≡ (some r, db)
      → Settled db
      → Answered x
  unfolding Answered
  Answered-by r x db e s = subst Answered (sym e) ((inr s, s), refl)

  refund_step : (db : AccountDb) → Any db → Answered (refund db)
  refund_step db (inr s) = Answered-by refunded (refund db) db (refund-Settled db s) s
  refund_step db (inl (inl f)) =
      let (db', e, s) = refund_fresh db f in Answered-by not_charged (refund db) db' e s
  refund_step db (inl (inr c)) =
      let (db', e, s) = refund-Charged db c in Answered-by refunded (refund db) db' e s

  -- `refundCustomer` is answered, and leaves the balance as it was before the order.
  pub refund_attempts :
      (ms : List Attempt) (db : AccountDb)
      → Open db
      → Leaves Any AfterRefund (request_until_done refund ms db)
        × (is_heard (request_until_done refund ms db).0 ≡ true)
  unfolding Answered
  refund_attempts ms db o =
      request_until_done-Leaves Any AfterRefund refund (λ s p. (refund_step s p).0)
        (λ s p. (refund_step s p).1) ms db (inl o)
