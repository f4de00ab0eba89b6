-- ===== src/Account/Store.antt =====
-- src/account/entity, repository: the rows of the account database and the queries on them. Money is
-- carried in cents: a `numeric(12,2)` column holds less than 10^12 of them. A UUID is the number
-- that its 128 bits write, as PostgreSQL compares it.
use marketplace_api_v.Common.{
  ℕ, ◌+◌, ◌-◌, Bool, true, false, ◌&&◌, Option, none, some, List, [], ◌∷◌, ◌++◌, ltb, leb, ◌==◌,
  if◌then◌else◌, any, Table, lookup, put, has, ok, err, Tx,
}

pub data TransactionStatus : Type 0 where
  pending failed success : TransactionStatus

pub data TransactionType : Type 0 where
  deposit payment withdrawal refund : TransactionType

pub record Transaction : Type 0 where
  pub customer_id : ℕ
  pub amount : ℕ
  pub type : TransactionType
  pub status : TransactionStatus

pub data InboxConsumer : Type 0 where
  customer_charge customer_refund : InboxConsumer

pub record InboxRow : Type 0 where
  pub consumer : InboxConsumer
  pub message_id : ℕ

pub record AccountDb : Type 0 where
  pub accounts : Table ℕ
  pub transactions : List Transaction
  pub inbox : List InboxRow

pub data RejectReason : Type 0 where
  insufficient_amount customer_not_found : RejectReason

-- What a call can throw: `AccountCustomerChargeRejectedException(reason, amount, balance)`, or the
-- database's error when a balance leaves `numeric(12,2)`.
pub data AccountError : Type 0 where
  rejected : RejectReason → ℕ → ℕ → AccountError
  numeric_overflow : AccountError

abbrev pub Call : Type 0 → Type 0
Call A = Tx AccountDb AccountError A

abbrev pub money_limit : ℕ
money_limit = 1_000_000_000_000

abbrev pub balance_of : ℕ → AccountDb → Option ℕ
balance_of c db = lookup c db.accounts

unfoldable pub debit : ℕ → ℕ → Call Bool
debit c amount db = elim (balance_of c db) [
  | none ↦ (ok false, db)
  | some b ↦
      if leb amount b
      then (ok true, record db { accounts = put c (b - amount) db.accounts })
      else (ok false, db)
]

unfoldable pub credit : ℕ → ℕ → Call (Unit {0})
credit c amount db = elim (balance_of c db) [
  | none ↦ (ok tt, record db { accounts = put c amount db.accounts })
  | some b ↦
      if ltb (b + amount) money_limit
      then (ok tt, record db { accounts = put c (b + amount) db.accounts })
      else (err numeric_overflow, db)
]

-- `AccountRepository.createIfAbsent`: a new account starts at the column's default, zero.
unfoldable pub create_account_if_absent : ℕ → Call Bool
create_account_if_absent c db =
    if has c db.accounts
    then (ok false, db)
    else (ok true, record db { accounts = put c 0 db.accounts })

unfoldable pub find_balance : ℕ → Call (Option ℕ)
find_balance c db = (ok (balance_of c db), db)

unfoldable pub create_transaction : Transaction → Call (Unit {0})
create_transaction t db = (ok tt, record db { transactions = db.transactions ++ t ∷ [] })

abbrev pub same_consumer : InboxConsumer → InboxConsumer → Bool
same_consumer customer_charge customer_charge = true
same_consumer customer_refund customer_refund = true
same_consumer _ _ = false

-- Whether the inbox holds the row (its primary key is the pair).
abbrev pub seen : InboxConsumer → ℕ → AccountDb → Bool
seen k m db = any (λ (r : InboxRow). same_consumer r.consumer k && r.message_id == m) db.inbox

-- `AccountInboxRepository.createIfAbsent`
unfoldable pub create_inbox_if_absent : InboxConsumer → ℕ → Call Bool
create_inbox_if_absent k m db =
    if seen k m db
    then (ok false, db)
    else (ok true, record db { inbox = record { consumer = k; message_id = m } ∷ db.inbox })
