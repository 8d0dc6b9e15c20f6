-- ===== src/Store/Idempotency/Failures.antt =====
-- `fail_task`, when it is sent again.
use Prim.Native.String.{String}
use mathlib.Core.Path.{subst}
use agent_loom.Base.{ℕ, ◌≡◌, refl, sym, ◌∙◌, false, Option, some, List, [], ◌∷◌}
use agent_loom.Domain.Json.{Value}
use agent_loom.Store.Result.{StoreErrorCode, ok, >>=-eq-ok, ok-pair-eq, reject_if}
use agent_loom.Store.Outcome.{
  CommandContext, Committed, CommandDisposition, RunSnapshot, ReceiptOutcome, OutcomeKind,
  DurableFollowUp,
}
use agent_loom.Store.Database.{
  Database, ExistingReceipt, ReceiptGuard, acquired, existing, acquire_receipt,
}
use agent_loom.Store.Database.Receipts.{
  Finishes, Finishes-replay, finish-then, acquire-existing_again,
}
use agent_loom.Store.Fences.{LockedWorkerTask, lock_worker_task, validate_worker_fences}
use agent_loom.Store.Failure.{FailTask}
use agent_loom.Store.Fail.{
  fail_task, fail_under, fail_new, apply_failure, decode_run_receipt, is_empty_text,
  failure_committed,
}
use agent_loom.Store.Fail.Laws.{close-Untouched}
use agent_loom.Store.Fail.Steps.{failure-keeps, recorded-receipts, committed-receipts}

-- The answer to a failure when it is sent again.
abbrev pub failure_again : Option ℕ → Committed RunSnapshot → Committed RunSnapshot
failure_again event_id answer =
    failure_committed CommandDisposition.duplicate answer.value event_id [] false

-- A failure touches no receipt.
failure-receipts :
    (pointer : Value → String → Option Value) (db : Database) (context : CommandContext)
    (command : FailTask) (now : ℕ) (locked : LockedWorkerTask) {changed : Database}
    {snapshot : RunSnapshot} {follow_ups : List DurableFollowUp}
    → apply_failure pointer db context command now locked ≡ ok (changed, snapshot, follow_ups)
    → changed.receipts ≡ db.receipts
failure-receipts pointer db context command now locked h =
    failure-keeps pointer db context command now locked (λ d. d.receipts ≡ db.receipts)
      (λ finalized recorded. recorded-receipts db context command now locked recorded)
      (λ task_id ready d k. k)
      (λ resolved settled activated k committed.
        committed-receipts resolved context command now locked settled activated committed
        ∙ ((close-Untouched context.tenant_id now locked.task settled.terminal resolved activated).2
            ∙ k))
      h

-- A failure under a new receipt finishes it with its answer and its event.
abbrev FailFinishes : Database → CommandContext → ℕ → Database → Committed RunSnapshot → Type 0
FailFinishes opened context event_id final answer =
    (answer.event_ids ≡ event_id ∷ [])
    × Finishes opened final context (ReceiptOutcome.run answer.value) (some event_id)

fail_new-finishes :
    (pointer : Value → String → Option Value) (opened : Database) (context : CommandContext)
    (command : FailTask) (now : ℕ) {final : Database} {answer : Committed RunSnapshot}
    → fail_new pointer opened context command now ≡ ok (final, answer)
    → FailFinishes opened context command.failure_event_id final answer
unfolding fail_new failure_committed
fail_new-finishes pointer opened context command now {final} h =
    let (locked, found, h1) =
      >>=-eq-ok
        (lock_worker_task opened context.tenant_id command.expected_run.run_id
          command.lease.task_id)
        _ h in
    let (u, fenced, h2) =
      >>=-eq-ok (validate_worker_fences command.expected_run command.lease locked now) _ h1 in
    let ((changed, snapshot, follow_ups), applied, h3) =
      >>=-eq-ok (apply_failure pointer opened context command now locked) _ h2 in
    let (finishes, answered) =
      finish-then {A = Committed RunSnapshot} opened changed context OutcomeKind.applied
        (ReceiptOutcome.run snapshot) (some command.failure_event_id)
        (some ("run", snapshot.run_id, snapshot.version)) _
        (failure-receipts pointer opened context command now locked applied) refl h3 in
    subst (FailFinishes opened context command.failure_event_id final) answered (refl, finishes)

-- The receipt that answers a failure once more.
abbrev FailAnswered : Database → ℕ → CommandContext → ℕ → Committed RunSnapshot → Type 0
FailAnswered final ttl context later answer =
    (r : ExistingReceipt) × (acquire_receipt final context later ttl ≡ ok (existing r))
    × (decode_run_receipt r.outcome ≡ ok answer.value)
    × (answer.event_ids ≡ (failure_again r.event_id answer).event_ids)

fail_guarded :
    (pointer : Value → String → Option Value) (db : Database) (ttl : ℕ) (context : CommandContext)
    (command : FailTask) (now later : ℕ) (guard : ReceiptGuard) {final : Database}
    {answer : Committed RunSnapshot}
    → acquire_receipt db context now ttl ≡ ok guard
    → fail_under pointer guard db context command now ≡ ok (final, answer)
    → FailAnswered final ttl context later answer
unfolding fail_under failure_committed
fail_guarded pointer db ttl context command now later (existing r) {final} {answer} a h =
    let (snapshot, decoded, done) = >>=-eq-ok (decode_run_receipt r.outcome) _ h in
    let (same, answered) = ok-pair-eq done in
    subst (λ (d : Database). FailAnswered d ttl context later answer) same
      (subst (FailAnswered db ttl context later) answered
        (r, acquire-existing_again db context now later ttl a, decoded, refl))
fail_guarded pointer db ttl context command now later (acquired opened) {final} {answer} a h =
    let (events, finishes) = fail_new-finishes pointer opened context command now h in
    (
      record {
        outcome = some (ReceiptOutcome.run answer.value);
        event_id = some command.failure_event_id;
      },
      Finishes-replay db opened final context now later ttl (ReceiptOutcome.run answer.value)
          (some command.failure_event_id) a finishes,
      refl,
      events,
    )

-- A failure that has committed and is sent again, at any later time, is answered with the same
-- snapshot and event, marked as a duplicate and without follow-ups, and changes nothing, though
-- its lease is gone.
pub fail_task-idempotent :
    (pointer : Value → String → Option Value) (db : Database) (ttl : ℕ) (context : CommandContext)
    (command : FailTask) (now later : ℕ) (final : Database) (answer : Committed RunSnapshot)
    → fail_task pointer db ttl context command now ≡ ok (final, answer)
    → (repeated : Committed RunSnapshot) × (fail_task pointer final ttl context command later
        ≡ ok (final, repeated))
      × (repeated.disposition ≡ CommandDisposition.duplicate)
      × (repeated.value ≡ answer.value)
      × (repeated.event_ids ≡ answer.event_ids)
      × (repeated.durable_follow_ups ≡ [])
unfolding fail_task fail_under failure_committed
fail_task-idempotent pointer db ttl context command now later final answer h =
    let (u, passed, h1) =
      >>=-eq-ok (reject_if (is_empty_text command.error_code) StoreErrorCode.constraint_violation) _
        h in
    let (guard, got, h2) = >>=-eq-ok (acquire_receipt db context now ttl) _ h1 in
    let (r, found, decoded, events) =
      fail_guarded pointer db ttl context command now later guard got h2 in
    (
      failure_again r.event_id answer,
      rw (passed, found, decoded) refl,
      refl,
      refl,
      sym events,
      refl,
    )
