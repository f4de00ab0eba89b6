-- ===== src/Account/Branches.antt =====
-- src/account/command-handler: the outcome of a charge and of a refund on each branch, errors
-- included, with the database that it leaves.
use marketplace_api_v.Common.{
  ℕ, ◌+◌, ◌-◌, ◌≤◌, ◌<◌, ◌≡◌, true, false, none, some, [], ◌∷◌, ◌++◌, arith, ok, err, put,
}
use marketplace_api_v.Account.Store.{
  AccountDb, Transaction, payment, refund, success, customer_charge, rejected, insufficient_amount,
  customer_not_found, numeric_overflow, money_limit, balance_of, seen, debit, credit, find_balance,
  create_transaction,
}
use marketplace_api_v.Account.Commands.{ChargeData, RefundData, execute_charge, execute_refund}
use marketplace_api_v.Account.Inbox.{mark, create_inbox_new, create_inbox_seen}

-- The database after a movement: the new balance and the ledger's row.
abbrev pub moved : ℕ → ℕ → Transaction → AccountDb → AccountDb
moved c balance t db = record db {
  accounts = put c balance db.accounts;
  transactions = db.transactions ++ t ∷ [];
}

abbrev pub payment_of : ChargeData → Transaction
payment_of d = record {
  customer_id = d.customer_id;
  amount = d.amount;
  type = payment;
  status = success;
}

abbrev pub refund_of : RefundData → Transaction
refund_of d = record {
  customer_id = d.customer_id;
  amount = d.amount;
  type = refund;
  status = success;
}

module _ (d : ChargeData) (db : AccountDb) where
  pub charge_missing :
      balance_of d.customer_id db ≡ none
      → execute_charge d db ≡ (err (rejected customer_not_found 0 0), db)
  unfolding execute_charge debit find_balance
  charge_missing e = ground arith

  pub charge_short :
      (b : ℕ)
      → balance_of d.customer_id db ≡ some b
      → b < d.amount
      → execute_charge d db ≡ (err (rejected insufficient_amount d.amount b), db)
  unfolding execute_charge debit find_balance
  charge_short b e h = ground arith

  pub charge_paid :
      (b : ℕ)
      → balance_of d.customer_id db ≡ some b
      → d.amount ≤ b
      → execute_charge d db ≡ (ok tt, moved d.customer_id (b - d.amount) (payment_of d) db)
  unfolding execute_charge debit create_transaction
  charge_paid b e h = ground arith

module _ (d : RefundData) (db : AccountDb) where
  pub refund_fenced :
      seen customer_charge d.charge_id db ≡ false
      → execute_refund d db ≡ (ok false, mark customer_charge d.charge_id db)
  unfolding execute_refund
  refund_fenced s = rw (create_inbox_new customer_charge d.charge_id db s)

  pub refund_paid :
      (b : ℕ)
      → seen customer_charge d.charge_id db ≡ true
      → balance_of d.customer_id db ≡ some b
      → b + d.amount < money_limit
      → execute_refund d db ≡ (ok true, moved d.customer_id (b + d.amount) (refund_of d) db)
  unfolding execute_refund credit create_transaction
  refund_paid b s e h = rw (create_inbox_seen customer_charge d.charge_id db s) (ground arith)

  pub refund_overflow :
      (b : ℕ)
      → seen customer_charge d.charge_id db ≡ true
      → balance_of d.customer_id db ≡ some b
      → money_limit ≤ b + d.amount
      → execute_refund d db ≡ (err numeric_overflow, db)
  unfolding execute_refund credit create_transaction
  refund_overflow b s e h = rw (create_inbox_seen customer_charge d.charge_id db s) (ground arith)

  pub refund_opened :
      seen customer_charge d.charge_id db ≡ true
      → balance_of d.customer_id db ≡ none
      → execute_refund d db ≡ (ok true, moved d.customer_id d.amount (refund_of d) db)
  unfolding execute_refund credit create_transaction
  refund_opened s e = rw (create_inbox_seen customer_charge d.charge_id db s) (ground arith)
