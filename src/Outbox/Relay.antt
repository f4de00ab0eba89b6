-- ===== src/Outbox/Relay.antt =====
-- src/order/service/order-outbox-relay.service.ts: unpublished events go to Kafka in the order in which they were written.
use marketplace_api_v.Common.{
  ℕ, ◌-◌, ◌*◌, Bool, false, Option, none, some, List, [], ◌∷◌, ◌++◌, map, if◌then◌else◌, Text,
}
use marketplace_api_v.Outbox.Store.{
  Row, claim_unpublished, mark_published, record_failure, delete_published_before,
}

-- What Kafka makes of a publication: it is accepted; it is not; or it is accepted and the answer is lost. The last two throw
-- an error with a message.
pub data Publication : Type 0 where
  accepted : Publication
  failed : Text → Publication
  accepted_unheard : Text → Publication

-- What a batch has done: the rows that Kafka holds, those that are known to be published, and the failure that ended it.
pub record Batch (E : Type 0) : Type 0 where
  pub held : List (Row E)
  pub published : List (Row E)
  pub failure : Option (ℕ × Text)

-- One tick of the relay: the answers of Kafka, the rows that another transaction has locked, the time, and whether the
-- transaction commits.
pub record Tick (E : Type 0) : Type 0 where
  pub answer : Row E → Publication
  pub locked : ℕ → Bool
  pub now : ℕ
  pub commits : Bool

-- The table, what Kafka holds, and the flag.
pub record Relay (E : Type 0) : Type 0 where
  pub rows : List (Row E)
  pub log : List (Row E)
  pub relaying : Bool

abbrev pub batch_size : ℕ
batch_size = 100

-- Seven days in milliseconds.
abbrev pub retention : ℕ
retention = 7 * 24 * 60 * 60 * 1000

module _ {E : Type 0} where
  abbrev pub empty_batch : Batch E
  empty_batch = record { held = []; published = []; failure = none }

  -- One round of the loop: what comes after it counts only if the row is accepted.
  abbrev pub add_row : Row E → Publication → Batch E → Batch E
  add_row r accepted rest = record {
    held = r ∷ rest.held;
    published = r ∷ rest.published;
    failure = rest.failure;
  }
  add_row r (failed m) rest = record { held = []; published = []; failure = some (r.id, m) }
  add_row r (accepted_unheard m) rest = record {
    held = r ∷ [];
    published = [];
    failure = some (r.id, m);
  }

  -- The loop over the claimed rows, which the first failure breaks.
  unfoldable pub publish_all : (Row E → Publication) → List (Row E) → Batch E
  publish_all answer [] = empty_batch
  publish_all answer (r ∷ rows) = add_row r (answer r) (publish_all answer rows)

  abbrev pub note_failure : Option (ℕ × Text) → List (Row E) → List (Row E)
  note_failure none rows = rows
  note_failure (some (id, m)) rows = record_failure id m rows

  -- `if (published.length > 0) await this.outbox.markPublished(published)`
  abbrev pub mark_batch : ℕ → List (Row E) → List (Row E) → List (Row E)
  mark_batch now [] rows = rows
  mark_batch now (r ∷ published) rows =
      mark_published now (map (λ (s : Row E). s.id) (r ∷ published)) rows

  unfoldable pub batch_of : Tick E → List (Row E) → Batch E
  batch_of t rows = publish_all t.answer (claim_unpublished t.locked batch_size rows)

  -- `relayBatch`: what Kafka holds stays when the transaction is rolled back.
  unfoldable pub relay_batch : Tick E → Relay E → Relay E
  relay_batch t s =
      let b = batch_of t s.rows in
      record s {
        rows =
            if t.commits
            then mark_batch t.now b.published (note_failure b.failure s.rows)
            else s.rows;
        log = s.log ++ b.held;
      }

  -- `relay`: a tick that meets a running relay does nothing, and the flag falls however the batch ends.
  unfoldable pub relay : Tick E → Relay E → Relay E
  relay t s = if s.relaying then s else record (relay_batch t s) { relaying = false }

  unfoldable pub relay_all : List (Tick E) → Relay E → Relay E
  relay_all [] s = s
  relay_all (t ∷ ts) s = relay_all ts (relay t s)

  -- `deletePublished`, with times in milliseconds and days of 24 hours: rows published more than seven days ago go.
  unfoldable pub delete_published : ℕ → Relay E → Relay E
  delete_published now s = record s { rows = (delete_published_before (now - retention) s.rows).0 }
