-- ===== src/Store/Idempotency/Completions.antt =====
-- `complete_task`, when it is sent again.
use Prim.Native.String.{String}
use mathlib.Core.Path.{subst}
use agent_loom.Base.{ℕ, ◌≡◌, refl, sym, ◌∙◌, Option, some, List, [], ◌∷◌}
use agent_loom.Domain.Json.{Value}
use agent_loom.Store.Result.{ok, >>=-eq-ok, ok-pair-eq}
use agent_loom.Store.Outcome.{
  CommandContext, Committed, CommandDisposition, RunSnapshot, ReceiptOutcome, OutcomeKind,
  DurableFollowUp,
}
use agent_loom.Store.Database.{
  Database, ExistingReceipt, ReceiptGuard, acquired, existing, acquire_receipt,
}
use agent_loom.Store.Database.Receipts.{
  Finishes, Finishes-replay, finish-then, acquire-existing_again,
}
use agent_loom.Store.Fail.{decode_run_receipt}
use agent_loom.Store.Completion.{CompleteTask}
use agent_loom.Store.Completion.Shape.{validate_completion_shape}
use agent_loom.Store.Completion.Fences.{
  LockedCompletion, lock_completion, validate_completion_fences,
}
use agent_loom.Store.Completion.Commit.{
  complete_task, complete_under, complete_new, apply_completion, committed_run, shape_result,
}
use agent_loom.Store.Completion.Kept.{structure-IsApart}
use agent_loom.Store.Completion.NextKept.{next-IsQuiet}
use agent_loom.Store.Completion.Steps.{
  IsCompletion-steps, resolve_completed-keeps, recorded-receipts, committed-receipts,
}
use agent_loom.Store.Completion.Actions.{next_transition}

-- The answer to a completion when it is sent again.
abbrev pub completion_again : Option ℕ → Committed RunSnapshot → Committed RunSnapshot
completion_again event_id answer =
    committed_run CommandDisposition.duplicate answer.value event_id []

module _ (pointer : Value → String → Option Value) where
  -- A completion touches no receipt.
  completion-receipts :
      (db : Database) (context : CommandContext) (command : CompleteTask) (now : ℕ)
      (locked : LockedCompletion) {changed : Database} {snapshot : RunSnapshot}
      {follow_ups : List DurableFollowUp}
      → apply_completion pointer db context command now locked ≡ ok (changed, snapshot, follow_ups)
      → changed.receipts ≡ db.receipts
  completion-receipts db context command now locked h =
      let c = IsCompletion-steps pointer db context command now locked h in
      let run_id = locked.task.run_id in
      committed-receipts c.continued context command now locked (next_transition command.next)
        c.commits
      ∙ ((next-IsQuiet context.tenant_id run_id now c.structured command.next c.continues).receipts
          ∙ ((structure-IsApart c.resolved run_id context command now c.structures).0.receipts
              ∙ resolve_completed-keeps pointer (λ d. d.receipts ≡ db.receipts) c.finalized
                  context.tenant_id run_id command.lease.task_id now (λ task_id ready d k. k)
                  (recorded-receipts db context command now locked c.records) c.resolves))

  -- A completion under a new receipt finishes it with its answer and its event.
  abbrev CompletionFinishes :
      Database → CommandContext → ℕ → Database → Committed RunSnapshot → Type 0
  CompletionFinishes opened context event_id final answer =
      (answer.event_ids ≡ event_id ∷ [])
      × Finishes opened final context (ReceiptOutcome.run answer.value) (some event_id)

  complete_new-finishes :
      (opened : Database) (context : CommandContext) (command : CompleteTask) (now : ℕ)
      {final : Database} {answer : Committed RunSnapshot}
      → complete_new pointer opened context command now ≡ ok (final, answer)
      → CompletionFinishes opened context command.completion_event_id final answer
  unfolding complete_new committed_run
  complete_new-finishes opened context command now {final} h =
      let (locked, found, h1) =
        >>=-eq-ok
          (lock_completion opened context.tenant_id command.expected_run.run_id
            command.lease.task_id)
          _ h in
      let (u, fenced, h2) = >>=-eq-ok (validate_completion_fences command locked now) _ h1 in
      let ((changed, snapshot, follow_ups), applied, h3) =
        >>=-eq-ok (apply_completion pointer opened context command now locked) _ h2 in
      let (finishes, answered) =
        finish-then {A = Committed RunSnapshot} opened changed context OutcomeKind.applied
          (ReceiptOutcome.run snapshot) (some command.completion_event_id)
          (some ("run", snapshot.run_id, snapshot.version)) _
          (completion-receipts opened context command now locked applied) refl h3 in
      subst (CompletionFinishes opened context command.completion_event_id final) answered
        (refl, finishes)

  -- The receipt that answers a completion once more.
  abbrev CompletionAnswered : Database → ℕ → CommandContext → ℕ → Committed RunSnapshot → Type 0
  CompletionAnswered final ttl context later answer =
      (r : ExistingReceipt) × (acquire_receipt final context later ttl ≡ ok (existing r))
      × (decode_run_receipt r.outcome ≡ ok answer.value)
      × (answer.event_ids ≡ (completion_again r.event_id answer).event_ids)

  complete_guarded :
      (db : Database) (ttl : ℕ) (context : CommandContext) (command : CompleteTask) (now later : ℕ)
      (guard : ReceiptGuard) {final : Database} {answer : Committed RunSnapshot}
      → acquire_receipt db context now ttl ≡ ok guard
      → complete_under pointer guard db context command now ≡ ok (final, answer)
      → CompletionAnswered final ttl context later answer
  unfolding complete_under committed_run
  complete_guarded db ttl context command now later (existing r) {final} {answer} a h =
      let (snapshot, decoded, done) = >>=-eq-ok (decode_run_receipt r.outcome) _ h in
      let (same, answered) = ok-pair-eq done in
      subst (λ (d : Database). CompletionAnswered d ttl context later answer) same
        (subst (CompletionAnswered db ttl context later) answered
          (r, acquire-existing_again db context now later ttl a, decoded, refl))
  complete_guarded db ttl context command now later (acquired opened) {final} {answer} a h =
      let (events, finishes) = complete_new-finishes opened context command now h in
      (
        record {
          outcome = some (ReceiptOutcome.run answer.value);
          event_id = some command.completion_event_id;
        },
        Finishes-replay db opened final context now later ttl (ReceiptOutcome.run answer.value)
            (some command.completion_event_id) a finishes,
        refl,
        events,
      )

-- A completion that has committed and is sent again, at any later time, is answered with the same
-- snapshot and event, marked as a duplicate and without follow-ups, and changes nothing: its task
-- is not finished twice and its next actions are not inserted again.
pub complete_task-idempotent :
    (pointer : Value → String → Option Value) (db : Database) (ttl : ℕ) (context : CommandContext)
    (command : CompleteTask) (now later : ℕ) (final : Database) (answer : Committed RunSnapshot)
    → complete_task pointer db ttl context command now ≡ ok (final, answer)
    → (repeated : Committed RunSnapshot) × (complete_task pointer final ttl context command later
        ≡ ok (final, repeated))
      × (repeated.disposition ≡ CommandDisposition.duplicate)
      × (repeated.value ≡ answer.value)
      × (repeated.event_ids ≡ answer.event_ids)
      × (repeated.durable_follow_ups ≡ [])
unfolding complete_task complete_under committed_run
complete_task-idempotent pointer db ttl context command now later final answer h =
    let (u, shaped, h1) = >>=-eq-ok (shape_result (validate_completion_shape command)) _ h in
    let (guard, got, h2) = >>=-eq-ok (acquire_receipt db context now ttl) _ h1 in
    let (r, found, decoded, events) =
      complete_guarded pointer db ttl context command now later guard got h2 in
    (
      completion_again r.event_id answer,
      rw (shaped, found, decoded) refl,
      refl,
      refl,
      sym events,
      refl,
    )
