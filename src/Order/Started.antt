-- ===== src/Order/Started.antt =====
-- From a placement to its workflow: src/order/command-handler/order-place.command-handler.ts and
-- src/order/service/order-workflow-outbox-relay.service.ts.
use marketplace_api_v.Common.{
  ℕ, ◌≤◌, ◌≡◌, refl, sym, ap, subst, ◌∙◌, Bool, true, false, none, List, [], ◌∷◌, ◌++◌, arith, ◌==◌,
  ==_refl, keep, length, Bool-cases, Option-cases, inl, inr, ok, conclude_inv,
}
use marketplace_api_v.Outbox.Store.{Row, claim_unpublished, sort_rows}
use marketplace_api_v.Outbox.Relay.{Relay, accepted, batch_size, batch_of, relay, relay_batch}
use marketplace_api_v.Outbox.Claimed.{any-sort_rows}
use marketplace_api_v.Outbox.Sent.{is_in, any-append}
use marketplace_api_v.Outbox.Drained.{is_claimable, claim-sorted, publish_all-accepted}
use marketplace_api_v.Outbox.Workflows.{WorkflowRow, StartTick, start, relay_workflows}
use marketplace_api_v.SellerOffer.Store.{StockDb}
use marketplace_api_v.Order.Store.{Order, OrderDb, OrderBuyer, WorkflowInput}
use marketplace_api_v.Order.Place.{
  OrderInput, Fresh, create_new, create_pending, find_buyer, execute_place,
}
use marketplace_api_v.Order.Placed.{Placed, new_order, with_order, create_new_inv}

keep-append :
    {E : Type 0} (p : Row E → Bool) (xs ys : List (Row E))
    → keep p (xs ++ ys) ≡ keep p xs ++ keep p ys
keep-append p [] ys = refl
keep-append p (x ∷ xs) ys = elim (Bool-cases (p x)) [
  | inl kept ↦ rw (kept, keep-append p xs ys) refl
  | inr dropped ↦ rw (dropped, keep-append p xs ys) refl
]

last-is_in :
    {E : Type 0} (p : Row E → Bool) (xs : List (Row E)) (r : Row E)
    → p r ≡ true
    → is_in r.id (keep p (xs ++ r ∷ [])) ≡ true
last-is_in p xs r kept =
    rw
      (
        keep-append p xs (r ∷ []),
        kept,
        any-append (λ l. l.id == r.id) (keep p xs) (r ∷ []),
        ==_refl r.id,
      )
      (ground arith)

-- Where every row is accepted, the log of an idle relay gains all that was claimable.
relay-log :
    (t : StartTick) (s : Relay WorkflowInput) (id : ℕ)
    → s.relaying ≡ false
    → ((r : WorkflowRow) → start (t.answer r) ≡ accepted)
    → length (keep (is_claimable t.locked) s.rows) ≤ batch_size
    → is_in id (keep (is_claimable t.locked) s.rows) ≡ true
    → is_in id (relay_workflows t s).log ≡ true
unfolding relay_workflows relay relay_batch batch_of
relay-log t s id free accepts few claimed =
    rw
      (
        relay,
        free,
        publish_all-accepted (λ r. start (t.answer r))
            (claim_unpublished t.locked batch_size s.rows) accepts,
        claim-sorted t.locked batch_size s.rows few,
        any-append (λ (l : WorkflowRow). l.id == id) s.log
            (sort_rows (keep (is_claimable t.locked) s.rows)),
        any-sort_rows (λ (l : WorkflowRow). l.id == id) (keep (is_claimable t.locked) s.rows),
        claimed,
      )
      (ground arith)

execute_place_inv :
    (input : OrderInput) (identity : ℕ) (fresh : Fresh) (stock : StockDb) (db : OrderDb) (o : Order)
    (s : OrderDb)
    → execute_place input identity none fresh stock db ≡ (ok o, s)
    → (buyer : OrderBuyer) × Placed input buyer none fresh stock db o s
unfolding execute_place create_pending
execute_place_inv input identity fresh stock db o s h =
    elim (Option-cases (find_buyer identity db.buyers)) [
      | inl missing ↦ cc (rw (missing, execute_place) at h)
      | inr (buyer, known) ↦ (
        buyer,
        create_new_inv input buyer none fresh stock db o s (
            conclude_inv db (create_new input buyer none fresh stock db) o s
              (rw (known, execute_place) at h)),
      )
    ]

-- The workflow of an order that is placed with no idempotency key is started: at a tick of the idle relay after the
-- placement, if Temporal answers every start with success or that it has started already, no other transaction
-- holds the order's row and at most `batchSize` rows wait, Temporal holds a start under the order's public id.
pub execute_place-relay_workflows :
    (input : OrderInput) (identity : ℕ) (fresh : Fresh) (stock : StockDb) (db : OrderDb) (o : Order)
    (s : OrderDb) (t : StartTick) (log : List WorkflowRow)
    → execute_place input identity none fresh stock db ≡ (ok o, s)
    → ((r : WorkflowRow) → start (t.answer r) ≡ accepted)
    → t.locked o.public_id ≡ false
    → length (keep (is_claimable t.locked) s.workflow_outbox) ≤ batch_size
    → is_in o.public_id
        (relay_workflows t (record { rows = s.workflow_outbox; log = log; relaying = false })).log
      ≡ true
execute_place-relay_workflows input identity fresh stock db o s t log h accepts unlocked few =
    let (buyer, placed) = execute_place_inv input identity fresh stock db o s h in
    let after =
      with_order input fresh placed.items (new_order input buyer none fresh placed.items db) db in
    let same_id : o.public_id ≡ fresh.public_id = ap (λ (x : Order). x.public_id) placed.order in
    let free : t.locked fresh.public_id ≡ false = ap t.locked (sym same_id) ∙ unlocked in
    relay-log t (record { rows = s.workflow_outbox; log = log; relaying = false }) o.public_id refl
      accepts few
      (subst
        (λ (x : OrderDb). is_in o.public_id (keep (is_claimable t.locked) x.workflow_outbox) ≡ true)
        (sym placed.state)
        (subst (λ (n : ℕ). is_in n (keep (is_claimable t.locked) after.workflow_outbox) ≡ true)
          (sym same_id) (last-is_in (is_claimable t.locked) db.workflow_outbox _ (rw free refl))))
