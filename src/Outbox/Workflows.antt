-- ===== src/Outbox/Workflows.antt =====
-- src/order/service/order-workflow-outbox-relay.service.ts with src/order/repository/order-workflow-outbox.repository.ts: the
-- workflows that the placements wrote are started. The rows, the queries and the loop are those of the event outbox, with
-- `workflowId` for `id` and `startedAt` for `publishedAt`; the workflow id is told by the order's public id.
use marketplace_api_v.Common.{ℕ, ◌≡◌, refl, Bool, List, [], ◌∷◌, map, Text}
use marketplace_api_v.Outbox.Store.{
  Row, claim_unpublished, mark_published, record_failure, delete_published_before,
}
use marketplace_api_v.Outbox.Relay.{
  Publication, accepted, failed, accepted_unheard, Tick, Relay, relay, delete_published,
}
use marketplace_api_v.Outbox.Relay.{relay_all}
use marketplace_api_v.Order.Store.{WorkflowInput}

abbrev pub WorkflowRow : Type 0
WorkflowRow = Row WorkflowInput

-- What `client.workflow.start` does: it returns, it throws `WorkflowExecutionAlreadyStartedError`, or it throws another
-- error, which may come after the workflow has started (a deadline).
pub data StartAnswer : Type 0 where
  started already_started : StartAnswer
  start_failed start_unheard : Text → StartAnswer

-- `start` catches the error of a workflow that has started already.
abbrev pub start : StartAnswer → Publication
start started = accepted
start already_started = accepted
start (start_failed m) = failed m
start (start_unheard m) = accepted_unheard m

-- `claimUnstarted`, `markStarted`, `recordFailure` and `deleteStartedBefore`
abbrev pub claim_unstarted : (ℕ → Bool) → ℕ → List WorkflowRow → List WorkflowRow
claim_unstarted = claim_unpublished

abbrev pub mark_started : ℕ → List ℕ → List WorkflowRow → List WorkflowRow
mark_started = mark_published

abbrev pub record_start_failure : ℕ → Text → List WorkflowRow → List WorkflowRow
record_start_failure = record_failure

abbrev pub delete_started_before : ℕ → List WorkflowRow → List WorkflowRow × ℕ
delete_started_before = delete_published_before

-- A tick of the relay, with Temporal's answers.
pub record StartTick : Type 0 where
  pub answer : WorkflowRow → StartAnswer
  pub locked : ℕ → Bool
  pub now : ℕ
  pub commits : Bool

abbrev pub to_tick : StartTick → Tick WorkflowInput
to_tick t = record {
  answer = λ r. start (t.answer r);
  locked = t.locked;
  now = t.now;
  commits = t.commits;
}

-- `relay` and `relayBatch`
unfoldable pub relay_workflows : StartTick → Relay WorkflowInput → Relay WorkflowInput
relay_workflows t = relay (to_tick t)

-- `deleteStarted`
unfoldable pub delete_started : ℕ → Relay WorkflowInput → Relay WorkflowInput
delete_started = delete_published

unfoldable pub relay_workflows_all : List StartTick → Relay WorkflowInput → Relay WorkflowInput
relay_workflows_all [] s = s
relay_workflows_all (t ∷ ts) s = relay_workflows_all ts (relay_workflows t s)

relay_workflows_all-ticks :
    (ts : List StartTick) (s : Relay WorkflowInput)
    → relay_workflows_all ts s ≡ relay_all (map to_tick ts) s
unfolding relay_workflows_all relay_workflows relay_all
relay_workflows_all-ticks [] s = refl
relay_workflows_all-ticks (t ∷ ts) s = relay_workflows_all-ticks ts (relay (to_tick t) s)
