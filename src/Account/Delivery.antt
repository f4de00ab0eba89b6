-- ===== src/Account/Delivery.antt =====
-- The charge and the refund of one order under redelivery and reordering: src/account/command-handler
-- behind the inbox of src/account/service/account-inbox.service.ts.
use marketplace_api_v.Common.{
  ℕ, ◌+◌, ◌-◌, ◌≤◌, ◌<◌, ◌≡◌, Bool, true, false, some, List, [], ◌∷◌, arith, any, leb, ==_refl,
  if◌then◌else◌, Bool-cases, inl, inr, ◌∙◌, ap, lookup-put_self, leb→le,
}
use marketplace_api_v.Account.Store.{
  AccountDb, customer_charge, customer_refund, money_limit, balance_of, seen,
}
use marketplace_api_v.Account.Commands.{ChargeData, RefundData, execute_charge, execute_refund}
use marketplace_api_v.Account.Inbox.{mark, process_once-seen, process_once-new, finish}
use marketplace_api_v.Account.Branches.{
  moved, payment_of, refund_of, charge_short, charge_paid, refund_fenced, refund_paid,
}
use marketplace_api_v.Account.Gateway.{respond_charge, respond_refund, answer_charge, answer_refund}

-- A delivery of one of the two requests that order sends for one order.
pub data Delivery : Type 0 where
  charge refund : Delivery

abbrev pub is_refund : Delivery → Bool
is_refund charge = false
is_refund refund = true

abbrev pub is_charge : Delivery → Bool
is_charge charge = true
is_charge refund = false

-- Both carry the order's public id as their id, and the refund as its `chargeId` too.
module _ (order customer amount : ℕ) where
  abbrev pub charge_request : ChargeData
  charge_request = record { customer_id = customer; amount = amount }

  abbrev pub refund_request : RefundData
  refund_request = record { customer_id = customer; amount = amount; charge_id = order }

  unfoldable pub deliver : Delivery → AccountDb → AccountDb
  deliver charge db = (respond_charge order charge_request db).1
  deliver refund db = (respond_refund order refund_request db).1

  unfoldable pub deliver_all : List Delivery → AccountDb → AccountDb
  deliver_all [] db = db
  deliver_all (m ∷ ms) db = deliver_all ms (deliver m db)

  -- The balance that the deliveries ought to leave: as before once a refund is among them, else less
  -- the amount if a charge is and the balance covers it.
  abbrev pub charged_balance : ℕ → ℕ
  charged_balance b = if leb amount b then b - amount else b

  abbrev pub settled_balance : List Delivery → ℕ → ℕ
  settled_balance ms b =
      if any is_refund ms then b else if any is_charge ms then charged_balance b else b

  -- Where the inbox stands: neither message, the charge alone, or both.
  abbrev pub IsFresh : ℕ → AccountDb → Type 0
  IsFresh b db =
      (seen customer_charge order db ≡ false)
      × (seen customer_refund order db ≡ false)
      × (balance_of customer db ≡ some b)

  abbrev pub IsCharged : ℕ → AccountDb → Type 0
  IsCharged b db =
      (seen customer_charge order db ≡ true)
      × (seen customer_refund order db ≡ false)
      × (amount ≤ b)
      × (balance_of customer db ≡ some (b - amount))

  abbrev pub IsSettled : ℕ → AccountDb → Type 0
  IsSettled b db =
      (seen customer_charge order db ≡ true)
      × (seen customer_refund order db ≡ true)
      × (balance_of customer db ≡ some b)

  deliver-charge_paid :
      (b : ℕ) (db : AccountDb)
      → IsFresh b db
      → amount ≤ b
      → deliver charge db
        ≡ moved customer (b - amount) (payment_of charge_request) (mark customer_charge order db)
  unfolding deliver respond_charge
  deliver-charge_paid b db f h =
      ap (λ r. (answer_charge r).1)
        (process_once-new customer_charge order (execute_charge charge_request) db f.0
          ∙ ap (finish db) (charge_paid charge_request (mark customer_charge order db) b f.2 h))

  -- A refused charge leaves no trace, its inbox row included.
  deliver-charge_short :
      (b : ℕ) (db : AccountDb) → IsFresh b db → b < amount → deliver charge db ≡ db
  unfolding deliver respond_charge
  deliver-charge_short b db f h =
      ap (λ r. (answer_charge r).1)
        (process_once-new customer_charge order (execute_charge charge_request) db f.0
          ∙ ap (finish db) (charge_short charge_request (mark customer_charge order db) b f.2 h))

  deliver-charge_again :
      (db : AccountDb) → seen customer_charge order db ≡ true → deliver charge db ≡ db
  unfolding deliver respond_charge
  deliver-charge_again db s =
      ap (λ r. (answer_charge r).1)
        (process_once-seen customer_charge order (execute_charge charge_request) db s)

  deliver-refund_again :
      (db : AccountDb) → seen customer_refund order db ≡ true → deliver refund db ≡ db
  unfolding deliver respond_refund
  deliver-refund_again db s =
      ap (λ r. (answer_refund r).1)
        (process_once-seen customer_refund order (execute_refund refund_request) db s)

  -- A refund that finds no charge leaves the fence in the charge's place, and its own row.
  deliver-refund_fenced :
      (b : ℕ) (db : AccountDb)
      → IsFresh b db
      → deliver refund db ≡ mark customer_charge order (mark customer_refund order db)
  unfolding deliver respond_refund
  deliver-refund_fenced b db f =
      ap (λ r. (answer_refund r).1)
        (process_once-new customer_refund order (execute_refund refund_request) db f.1
          ∙ ap (finish db) (refund_fenced refund_request (mark customer_refund order db) f.0))

  deliver-refund_paid :
      (b : ℕ) (db : AccountDb)
      → IsCharged b db
      → b < money_limit
      → deliver refund db
        ≡ moved customer
            (b - amount + amount)
            (refund_of refund_request)
            (mark customer_refund order db)
  unfolding deliver respond_refund
  deliver-refund_paid b db f h =
      ap (λ r. (answer_refund r).1)
        (process_once-new customer_refund order (execute_refund refund_request) db f.1
          ∙ ap (finish db) (
              refund_paid refund_request (mark customer_refund order db) (b - amount) f.0 f.3
                (omega (arith, f.2))))

  pub IsCharged-deliver :
      (b : ℕ) (db : AccountDb) → IsFresh b db → amount ≤ b → IsCharged b (deliver charge db)
  IsCharged-deliver b db f h =
      rw (deliver-charge_paid b db f h)
        (ground (arith, ==_refl order), f.1, h, lookup-put_self customer (b - amount) db.accounts)

  pub IsSettled-fenced : (b : ℕ) (db : AccountDb) → IsFresh b db → IsSettled b (deliver refund db)
  IsSettled-fenced b db f =
      rw (deliver-refund_fenced b db f)
        (ground (arith, ==_refl order), ground (arith, ==_refl order), f.2)

  pub IsSettled-paid :
      (b : ℕ) (db : AccountDb) → IsCharged b db → b < money_limit → IsSettled b (deliver refund db)
  IsSettled-paid b db f h = rw (deliver-refund_paid b db f h) (
    f.0,
    ground (arith, ==_refl order),
    lookup-put_self customer (b - amount + amount) db.accounts ∙ ap some (omega (arith, f.2)),
  )

  settled_all :
      (ms : List Delivery) (b : ℕ) (db : AccountDb)
      → IsSettled b db
      → balance_of customer (deliver_all ms db) ≡ some b
  unfolding deliver_all
  settled_all [] b db s = s.2
  settled_all (charge ∷ ms) b db s =
      rw (deliver-charge_again db s.0, deliver_all) (settled_all ms b db s)
  settled_all (refund ∷ ms) b db s =
      rw (deliver-refund_again db s.1, deliver_all) (settled_all ms b db s)

  charged_all :
      (ms : List Delivery) (b : ℕ) (db : AccountDb)
      → b < money_limit
      → IsCharged b db
      → balance_of customer (deliver_all ms db) ≡ some (if any is_refund ms then b else b - amount)
  unfolding deliver_all
  charged_all [] b db h c = c.3
  charged_all (charge ∷ ms) b db h c =
      rw (deliver-charge_again db c.0, deliver_all) (charged_all ms b db h c)
  charged_all (refund ∷ ms) b db h c = settled_all ms b _ (IsSettled-paid b db c h)

  -- However the charge and the refund of an order are repeated and reordered, the customer's balance
  -- ends as it was once a refund is among them, and else less the amount if a charge is among them and
  -- the balance covers it; the order is new to the inbox and the balance fits its column.
  pub deliver_all-balance :
      (ms : List Delivery) (b : ℕ) (db : AccountDb)
      → b < money_limit
      → seen customer_charge order db ≡ false
      → seen customer_refund order db ≡ false
      → balance_of customer db ≡ some b
      → balance_of customer (deliver_all ms db) ≡ some (settled_balance ms b)
  unfolding deliver_all
  deliver_all-balance [] b db h c r e = e
  deliver_all-balance (refund ∷ ms) b db h c r e =
      settled_all ms b _ (IsSettled-fenced b db (c, r, e))
  deliver_all-balance (charge ∷ ms) b db h c r e = elim (Bool-cases (leb amount b)) [
    | inl covered ↦
        charged_all ms b _ h (IsCharged-deliver b db (c, r, e) (leb→le amount b covered))
        ∙ ap (λ (n : ℕ). some (if any is_refund ms then b else n)) (rw covered)
    | inr short ↦
        rw (deliver-charge_short b db (c, r, e) (ground arith), deliver_all)
          (deliver_all-balance ms b db h c r e ∙ ground arith)
  ]
