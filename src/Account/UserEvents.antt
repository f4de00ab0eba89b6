-- ===== src/Account/UserEvents.antt =====
-- src/account/gateway/account-user-events.gateway.ts: an account for each user that is created.
use marketplace_api_v.Common.{
  ℕ, ◌≡◌, Bool, not, Option, none, some, arith, if◌then◌else◌, Bool-cases, Option-cases, inl, inr,
  ok, err, Result, has, lookup-put,
}
use marketplace_api_v.Messaging.{UuidText, is_text}
use marketplace_api_v.UserCreated.{
  UserCreated, user_created_type, EventOutcome, ignored, rejected, handled, is_valid_user_created,
  user_id_of,
}
use marketplace_api_v.Account.Store.{AccountDb, AccountError, balance_of, create_account_if_absent}
use marketplace_api_v.Account.Commands.{execute_create}
use marketplace_api_v.Account.Ledger.{IsValid, execute_create-IsValid}

-- What the log line says of the command.
abbrev pub create_outcome : Result AccountError Bool → EventOutcome
create_outcome (ok created) = handled created
create_outcome (err e) = rejected

module _ (uuids : UuidText) where
  -- `handle`; `none` is a message that is `null`.
  unfoldable pub handle_user_created : Option UserCreated → AccountDb → EventOutcome × AccountDb
  handle_user_created none db = (ignored, db)
  handle_user_created (some m) db =
      if not (is_text user_created_type m.type)
      then (ignored, db)
      else if not (is_valid_user_created uuids m)
      then (rejected, db)
      else let (r, after) = execute_create (user_id_of m.payload) db in (create_outcome r, after)

execute_create-balance :
    (c d b : ℕ) (db : AccountDb)
    → balance_of d db ≡ some b
    → balance_of d (execute_create c db).1 ≡ some b
unfolding execute_create create_account_if_absent
execute_create-balance c d b db e = elim (Option-cases (balance_of c db)) [
  | inr (x, known) ↦ rw (known, has) e
  | inl new ↦ rw (new, has) (ground (arith, lookup-put c d 0 db.accounts, e, new))
]

-- No event, well formed or not and however often it is delivered, changes the balance of an account that exists, and the
-- invariant of the ledger is kept.
pub handle_user_created-balance :
    (uuids : UuidText) (m : Option UserCreated) (d b : ℕ) (db : AccountDb)
    → IsValid db
    → balance_of d db ≡ some b
    → (balance_of d (handle_user_created uuids m db).1 ≡ some b)
      × IsValid (handle_user_created uuids m db).1
unfolding handle_user_created
handle_user_created-balance uuids none d b db v e = (e, v)
handle_user_created-balance uuids (some m) d b db v e =
    elim (Bool-cases (is_text user_created_type m.type)) [
      | inr elsewhere ↦ rw elsewhere (e, v)
      | inl ours ↦ elim (Bool-cases (is_valid_user_created uuids m)) [
        | inr bad ↦ rw (ours, bad) (e, v)
        | inl good ↦
            rw (ours, good)
              (
                execute_create-balance (user_id_of m.payload) d b db e,
                execute_create-IsValid (user_id_of m.payload) db v,
              )
      ]
    ]
