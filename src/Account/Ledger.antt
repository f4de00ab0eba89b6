-- ===== src/Account/Ledger.antt =====
-- The invariant of the account database (README, "Account: balance + ledger"): each balance is the sum
-- of its customer's ledger and fits its column.
use marketplace_api_v.Common.{
  ℕ, ◌+◌, ◌-◌, ◌<◌, ◌≡◌, refl, Option, none, some, [], ◌∷◌, arith, ok, err, Result, leb, ltb, ◌==◌,
  has, lookup-put, ==_refl, if◌then◌else◌, Bool-cases, Option-cases, inl, inr, sum_of,
  sum_of-append,
}
use marketplace_api_v.Account.Store.{
  AccountDb, AccountError, Call, Transaction, TransactionType, TransactionStatus, payment,
  withdrawal, deposit, refund, success, InboxConsumer, customer_charge, money_limit, balance_of,
  seen, create_account_if_absent,
}
use marketplace_api_v.Account.Commands.{
  ChargeData, RefundData, process_once, execute_charge, execute_refund, execute_create,
}
use marketplace_api_v.Account.Inbox.{mark, finish, process_once-seen, process_once-new}
use marketplace_api_v.Account.Branches.{
  moved, payment_of, refund_of, charge_missing, charge_short, charge_paid, refund_fenced,
  refund_paid, refund_opened, refund_overflow,
}

abbrev pub balance_or_zero : Option ℕ → ℕ
balance_or_zero none = 0
balance_or_zero (some b) = b

-- What a settled row brings to, and takes from, the balance.
abbrev pub inflow : TransactionType → ℕ → ℕ
inflow deposit a = a
inflow refund a = a
inflow _ a = 0

abbrev pub outflow : TransactionType → ℕ → ℕ
outflow payment a = a
outflow withdrawal a = a
outflow _ a = 0

abbrev pub settled : TransactionStatus → ℕ → ℕ
settled success a = a
settled _ a = 0

abbrev pub entering : ℕ → Transaction → ℕ
entering c t = if t.customer_id == c then settled t.status (inflow t.type t.amount) else 0

abbrev pub leaving : ℕ → Transaction → ℕ
leaving c t = if t.customer_id == c then settled t.status (outflow t.type t.amount) else 0

pub record IsValid (db : AccountDb) : Type 0 where
  pub balanced :
      (c : ℕ)
      → balance_or_zero (balance_of c db) + sum_of (leaving c) db.transactions
        ≡ sum_of (entering c) db.transactions
  pub bounded : (c : ℕ) → balance_or_zero (balance_of c db) < money_limit

mark-IsValid : (k : InboxConsumer) (m : ℕ) (db : AccountDb) → IsValid db → IsValid (mark k m db)
mark-IsValid k m db v = record { balanced = v.balanced; bounded = v.bounded }

-- A movement keeps the invariant if its row accounts for the change of the balance.
moved-IsValid :
    (c b : ℕ) (t : Transaction) (db : AccountDb)
    → IsValid db
    → b < money_limit
    → t.customer_id ≡ c
    → b + leaving c t ≡ balance_or_zero (balance_of c db) + entering c t
    → IsValid (moved c b t db)
moved-IsValid c b t db v small own change = record {
  balanced = λ j. ground (
    arith,
    lookup-put c j b db.accounts,
    v.balanced j,
    sum_of-append (leaving j) db.transactions (t ∷ []),
    sum_of-append (entering j) db.transactions (t ∷ []),
  );
  bounded = λ j. ground (arith, lookup-put c j b db.accounts, v.bounded j);
}

pub execute_charge-IsValid :
    (d : ChargeData) (db : AccountDb) → IsValid db → IsValid (execute_charge d db).1
execute_charge-IsValid d db v = elim (Option-cases (balance_of d.customer_id db)) [
  | inl e ↦ rw (charge_missing d db e) v
  | inr (b, e) ↦ elim (Bool-cases (leb d.amount b)) [
    | inl covered ↦ rw (charge_paid d db b e (ground arith)) (
        moved-IsValid d.customer_id (b - d.amount) (payment_of d) db v
          (ground (arith, v.bounded d.customer_id)) refl (ground (arith, ==_refl d.customer_id)))
    | inr short ↦ rw (charge_short d db b e (ground arith)) v
  ]
]

pub execute_refund-IsValid :
    (d : RefundData) (db : AccountDb)
    → d.amount < money_limit
    → IsValid db
    → IsValid (execute_refund d db).1
execute_refund-IsValid d db small v = elim (Bool-cases (seen customer_charge d.charge_id db)) [
  | inr unseen ↦ rw (refund_fenced d db unseen) (mark-IsValid customer_charge d.charge_id db v)
  | inl charged ↦ elim (Option-cases (balance_of d.customer_id db)) [
    | inl e ↦ rw (refund_opened d db charged e) (
        moved-IsValid d.customer_id d.amount (refund_of d) db v small refl
          (ground (arith, ==_refl d.customer_id)))
    | inr (b, e) ↦ elim (Bool-cases (ltb (b + d.amount) money_limit)) [
      | inl fits ↦ rw (refund_paid d db b charged e (ground arith)) (
          moved-IsValid d.customer_id (b + d.amount) (refund_of d) db v (ground arith) refl
            (ground (arith, ==_refl d.customer_id)))
      | inr over ↦ rw (refund_overflow d db b charged e (ground arith)) v
    ]
  ]
]

pub execute_create-IsValid : (c : ℕ) (db : AccountDb) → IsValid db → IsValid (execute_create c db).1
unfolding execute_create create_account_if_absent
execute_create-IsValid c db v = elim (Option-cases (balance_of c db)) [
  | inl e ↦
      rw (e, has)
        (record {
          balanced = λ j. ground (arith, lookup-put c j 0 db.accounts, v.balanced j);
          bounded = λ j. ground (arith, lookup-put c j 0 db.accounts, v.bounded j);
        })
  | inr (b, e) ↦ rw (e, has) v
]

finish-IsValid :
    {A : Type 0} (db : AccountDb) (r : Result AccountError A × AccountDb)
    → IsValid db
    → IsValid r.1
    → IsValid (finish db r).1
finish-IsValid db (ok a, s) v w = w
finish-IsValid db (err e, s) v w = v

-- An effect that keeps the invariant keeps it behind the inbox.
pub process_once-IsValid :
    {A : Type 0} (k : InboxConsumer) (m : ℕ) (effect : Call A) (db : AccountDb)
    → ((s : AccountDb) → IsValid s → IsValid (effect s).1)
    → IsValid db
    → IsValid (process_once k m effect db).1
process_once-IsValid k m effect db keeps v = elim (Bool-cases (seen k m db)) [
  | inl s ↦ rw (process_once-seen k m effect db s) v
  | inr s ↦
      rw (process_once-new k m effect db s)
        (finish-IsValid db (effect (mark k m db)) v (keeps (mark k m db) (mark-IsValid k m db v)))
]
