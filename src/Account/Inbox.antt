-- ===== src/Account/Inbox.antt =====
-- src/account/service/account-inbox.service.ts: the inbox lets an effect run once per message.
use marketplace_api_v.Common.{
  ℕ, ◌≡◌, refl, true, false, Option, none, some, ◌∷◌, ok, err, Result, conclude, continue_with,
  pure,
}
use marketplace_api_v.Account.Store.{
  AccountDb, AccountError, Call, InboxConsumer, seen, create_inbox_if_absent,
}
use marketplace_api_v.Account.Commands.{process_once}

-- The database with the inbox row of the message.
abbrev pub mark : InboxConsumer → ℕ → AccountDb → AccountDb
mark k m db = record db { inbox = record { consumer = k; message_id = m } ∷ db.inbox }

-- How `processOnce` ends by how its effect ends: a throw takes the inbox row back with the rest.
abbrev pub finish :
    {A : Type 0}
    → AccountDb
    → Result AccountError A × AccountDb
    → Result AccountError (Option A) × AccountDb
finish before (ok a, after) = (ok (some a), after)
finish before (err e, after) = (err e, before)

pub create_inbox_new :
    (k : InboxConsumer) (m : ℕ) (db : AccountDb)
    → seen k m db ≡ false
    → create_inbox_if_absent k m db ≡ (ok true, mark k m db)
unfolding create_inbox_if_absent
create_inbox_new k m db s = rw s

pub create_inbox_seen :
    (k : InboxConsumer) (m : ℕ) (db : AccountDb)
    → seen k m db ≡ true
    → create_inbox_if_absent k m db ≡ (ok false, db)
unfolding create_inbox_if_absent
create_inbox_seen k m db s = rw s

module _ {A : Type 0} (k : InboxConsumer) (m : ℕ) (effect : Call A) (db : AccountDb) where
  -- A message that the inbox holds has no effect.
  pub process_once-seen : seen k m db ≡ true → process_once k m effect db ≡ (ok none, db)
  unfolding process_once
  process_once-seen s = rw (create_inbox_seen k m db s)

  pub process_once-new :
      seen k m db ≡ false → process_once k m effect db ≡ finish db (effect (mark k m db))
  unfolding process_once
  process_once-new s = rw (create_inbox_new k m db s) (close (effect (mark k m db)))
    where
      close :
          (r : Result AccountError A × AccountDb)
          → conclude db (continue_with (λ a. pure (some a)) r) ≡ finish db r
      close (ok a, s) = refl
      close (err e, s) = refl
