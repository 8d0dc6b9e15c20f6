-- ===== src/Store/Idempotency/Runs.antt =====
-- The commands that answer with a run, `execute_control` and `fail_task`, when they are sent again.
use mathlib.Core.Path.{subst}
use agent_loom.Base.{
  ℕ, ◌≡◌, refl, sym, ◌∙◌, not, Option, none, some, [], inl, inr, Bool-cases, find_where,
}
use agent_loom.Store.Result.{StoreErrorCode, ok, >>=-eq-ok, ok-pair-eq, reject_if, ok_or}
use agent_loom.Store.Rows.{RunRow}
use agent_loom.Store.Outcome.{
  CommandContext, Committed, CommandDisposition, RunSnapshot, ReceiptOutcome, OutcomeKind,
}
use agent_loom.Store.Database.{
  Database, ExistingReceipt, ReceiptGuard, acquired, existing, acquire_receipt, is_run,
}
use agent_loom.Store.Database.Receipts.{
  Finishes, Finishes-replay, finish-then, acquire-existing_again,
}
use agent_loom.Store.Fail.{decode_run_receipt}
use agent_loom.Store.Transition.{ControlRun, ControlKind, run_snapshot, is_no_op}
use agent_loom.Store.Control.{
  execute_control, control_new, control_committed, control_no_op, control_applied, control_under,
  apply_control,
}
use agent_loom.Store.Control.Laws.{control-steps, transition-Untouched, committed-receipts}

-- The answer to a control command when it is sent again.
abbrev pub control_again : Option ℕ → Committed RunSnapshot → Committed RunSnapshot
control_again event_id answer =
    control_committed CommandDisposition.duplicate answer.value event_id []

-- A control command under a new receipt finishes it with its answer, and with its event if it is
-- applied.
abbrev ControlFinishes : Database → CommandContext → Database → Committed RunSnapshot → Type 0
ControlFinishes opened context final answer =
    (event_id : Option ℕ) × (answer.event_ids ≡ (control_again event_id answer).event_ids)
    × Finishes opened final context (ReceiptOutcome.run answer.value) event_id

module _ (opened : Database) (context : CommandContext) {final : Database}
    {answer : Committed RunSnapshot} where
  no_op-finishes :
      (run : RunRow)
      → control_no_op opened context run ≡ ok (final, answer)
      → ControlFinishes opened context final answer
  unfolding control_no_op control_committed
  no_op-finishes run h =
      let (finishes, answered) =
        finish-then {A = Committed RunSnapshot} opened opened context OutcomeKind.no_op
          (ReceiptOutcome.run (run_snapshot run)) none (some ("run", run.run_id, run.version))
          (control_committed CommandDisposition.no_op (run_snapshot run) none []) refl refl h in
      subst (ControlFinishes opened context final) answered (none, refl, finishes)

  applied-finishes :
      (command : ControlRun) (kind : ControlKind) (now : ℕ) (run : RunRow)
      → control_applied opened context command kind now run ≡ ok (final, answer)
      → ControlFinishes opened context final answer
  unfolding control_applied control_committed
  applied-finishes command kind now run h =
      let ((changed, snapshot, follow_ups), applied, h1) =
        >>=-eq-ok (apply_control opened context command kind now run) _ h in
      let (after, transition, valid, moved, committed) =
        control-steps opened context command kind now run applied in
      let (kept_runs, kept_events, kept) =
        transition-Untouched context.tenant_id now run opened kind moved in
      let (finishes, answered) =
        finish-then {A = Committed RunSnapshot} opened changed context OutcomeKind.applied
          (ReceiptOutcome.run snapshot) (some command.event_id)
          (some ("run", run.run_id, snapshot.version))
          (control_committed CommandDisposition.applied snapshot (some command.event_id) follow_ups)
          (committed-receipts after context command kind now run transition committed ∙ kept) refl
          h1 in
      subst (ControlFinishes opened context final) answered (some command.event_id, refl, finishes)

  control_new-finishes :
      (command : ControlRun) (kind : ControlKind) (now : ℕ)
      → control_new opened context command kind now ≡ ok (final, answer)
      → ControlFinishes opened context final answer
  unfolding control_new
  control_new-finishes command kind now h =
      let (run, found, h1) =
        >>=-eq-ok
          (ok_or (find_where (is_run context.tenant_id command.expected_run.run_id) opened.runs)
            StoreErrorCode.not_found)
          _ h in
      elim (Bool-cases (is_no_op kind run.status)) [
        | inl e ↦ no_op-finishes run (rw e at h1)
        | inr e ↦ applied-finishes command kind now run (rw e at h1)
      ]

-- The receipt that answers a control command once more.
abbrev ControlAnswered : Database → ℕ → CommandContext → ℕ → Committed RunSnapshot → Type 0
ControlAnswered final ttl context later answer =
    (r : ExistingReceipt) × (acquire_receipt final context later ttl ≡ ok (existing r))
    × (decode_run_receipt r.outcome ≡ ok answer.value)
    × (answer.event_ids ≡ (control_again r.event_id answer).event_ids)

control_guarded :
    (db : Database) (ttl : ℕ) (context : CommandContext) (command : ControlRun) (kind : ControlKind)
    (now later : ℕ) (guard : ReceiptGuard) {final : Database} {answer : Committed RunSnapshot}
    → acquire_receipt db context now ttl ≡ ok guard
    → control_under guard db context command kind now ≡ ok (final, answer)
    → ControlAnswered final ttl context later answer
unfolding control_under control_committed
control_guarded db ttl context command kind now later (existing r) {final} {answer} a h =
    let (snapshot, decoded, done) = >>=-eq-ok (decode_run_receipt r.outcome) _ h in
    let (same, answered) = ok-pair-eq done in
    subst (λ (d : Database). ControlAnswered d ttl context later answer) same
      (subst (ControlAnswered db ttl context later) answered
        (r, acquire-existing_again db context now later ttl a, decoded, refl))
control_guarded db ttl context command kind now later (acquired opened) {final} {answer} a h =
    let (event_id, events, finishes) = control_new-finishes opened context command kind now h in
    (
      record { outcome = some (ReceiptOutcome.run answer.value); event_id = event_id },
      Finishes-replay db opened final context now later ttl (ReceiptOutcome.run answer.value)
          event_id a finishes,
      refl,
      events,
    )

-- A pause, resume or cancel that has committed and is sent again, at any later time and whatever
-- the run's status was, is answered with the same snapshot and event, marked as a duplicate, and
-- changes nothing.
pub execute_control-idempotent :
    (db : Database) (ttl : ℕ) (context : CommandContext) (command : ControlRun) (kind : ControlKind)
    (now later : ℕ) (final : Database) (answer : Committed RunSnapshot)
    → execute_control db ttl context command kind now ≡ ok (final, answer)
    → (repeated : Committed RunSnapshot) × (execute_control final ttl context command kind later
        ≡ ok (final, repeated))
      × (repeated.disposition ≡ CommandDisposition.duplicate)
      × (repeated.value ≡ answer.value)
      × (repeated.event_ids ≡ answer.event_ids)
      × (repeated.durable_follow_ups ≡ [])
unfolding execute_control control_under control_committed
execute_control-idempotent db ttl context command kind now later final answer h =
    let (u, passed, h1) =
      >>=-eq-ok (reject_if (not command.has_reason) StoreErrorCode.constraint_violation) _ h in
    let (guard, got, h2) = >>=-eq-ok (acquire_receipt db context now ttl) _ h1 in
    let (r, found, decoded, events) =
      control_guarded db ttl context command kind now later guard got h2 in
    (control_again r.event_id answer, rw (passed, found, decoded), refl, refl, sym events, refl)
