-- ===== src/Outbox/Heard.antt =====
-- What a tick of a relay hands to Kafka, row by row (src/identity/service/identity-outbox-relay.service.ts and
-- src/user/service/user-outbox-relay.service.ts, whose steps are those of src/order/service/order-outbox-relay.service.ts).
use marketplace_api_v.Common.{
  ◌≤◌, ◌≡◌, refl, Bool, true, false, List, [], ◌∷◌, ◌++◌, map, keep, length, Bool-cases, inl, inr,
  IsIn, IsIn-append_right,
}
use marketplace_api_v.Messaging.{Message}
use marketplace_api_v.Outbox.Store.{Row, comes_before, insert_row, sort_rows, claim_unpublished}
use marketplace_api_v.Outbox.Relay.{accepted, Tick, Relay, batch_size, batch_of, relay, relay_batch}
use marketplace_api_v.Outbox.Drained.{is_claimable, publish_all-accepted, claim-sorted}

-- An outbox with its topic, and the flag of its relay.
pub record Topic (E F : Type 0) : Type 0 where
  pub rows : List (Row E)
  pub messages : List (Message F)
  pub relaying : Bool

module _ {E F : Type 0} where
  abbrev pub relay_of : Topic E F → Relay E
  relay_of s = record { rows = s.rows; log = []; relaying = s.relaying }

  -- A step of the relay, where what Kafka takes is made a message of the topic.
  abbrev pub publish_as : (Row E → Message F) → Topic E F → Relay E → Topic E F
  publish_as to_cloud_event s r = record {
    rows = r.rows;
    messages = s.messages ++ map to_cloud_event r.log;
    relaying = r.relaying;
  }

module _ {E : Type 0} where
  insert_row-head : (r : Row E) (rows : List (Row E)) → IsIn r (insert_row r rows)
  unfolding insert_row
  insert_row-head r [] = inl refl
  insert_row-head r (s ∷ rows) = elim (Bool-cases (comes_before r s)) [
    | inl before ↦ rw (insert_row, before) (inl refl)
    | inr after ↦ rw (insert_row, after) (inr (insert_row-head r rows))
  ]

  insert_row-tail : (x r : Row E) (rows : List (Row E)) → IsIn x rows → IsIn x (insert_row r rows)
  unfolding insert_row
  insert_row-tail x r [] m = inr m
  insert_row-tail x r (s ∷ rows) (inl e) = elim (Bool-cases (comes_before r s)) [
    | inl before ↦ rw (insert_row, before) (inr (inl e))
    | inr after ↦ rw (insert_row, after) (inl e)
  ]
  insert_row-tail x r (s ∷ rows) (inr m) = elim (Bool-cases (comes_before r s)) [
    | inl before ↦ rw (insert_row, before) (inr (inr m))
    | inr after ↦ rw (insert_row, after) (inr (insert_row-tail x r rows m))
  ]

  IsIn-sort_rows : (x : Row E) (rows : List (Row E)) → IsIn x rows → IsIn x (sort_rows rows)
  unfolding sort_rows
  IsIn-sort_rows x [] m = absurd m
  IsIn-sort_rows x (r ∷ rows) (inl e) = rw e (insert_row-head r (sort_rows rows))
  IsIn-sort_rows x (r ∷ rows) (inr m) =
      insert_row-tail x r (sort_rows rows) (IsIn-sort_rows x rows m)

  IsIn-keep :
      (p : Row E → Bool) (x : Row E) (rows : List (Row E))
      → p x ≡ true
      → IsIn x rows
      → IsIn x (keep p rows)
  IsIn-keep p x [] good m = absurd m
  IsIn-keep p x (r ∷ rows) good (inl e) = rw (← e, good) (inl refl)
  IsIn-keep p x (r ∷ rows) good (inr m) = elim (Bool-cases (p r)) [
    | inl kept ↦ rw kept (inr (IsIn-keep p x rows good m))
    | inr dropped ↦ rw dropped (IsIn-keep p x rows good m)
  ]

  -- Kafka gets every claimable row of an idle relay that meets no error.
  pub relay-heard :
      (t : Tick E) (s : Relay E) (x : Row E)
      → s.relaying ≡ false
      → ((r : Row E) → t.answer r ≡ accepted)
      → length (keep (is_claimable t.locked) s.rows) ≤ batch_size
      → is_claimable t.locked x ≡ true
      → IsIn x s.rows
      → IsIn x (relay t s).log
  unfolding relay relay_batch batch_of
  relay-heard t s x free accepts few good m =
      rw
        (
          relay,
          free,
          publish_all-accepted t.answer (claim_unpublished t.locked batch_size s.rows) accepts,
          claim-sorted t.locked batch_size s.rows few,
        )
        (IsIn-append_right x s.log _ (
          IsIn-sort_rows x (keep (is_claimable t.locked) s.rows)
            (IsIn-keep (is_claimable t.locked) x s.rows good m)))
