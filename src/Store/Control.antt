-- ===== src/Store/Control.antt =====
-- transaction_executor.rs: `execute_control`, which pauses, resumes and cancels a run.
pub mod Laws
pub mod Fencing
use agent_loom.Base.{
  ℕ, ◌+◌, ◌&&◌, not, Option, none, some, List, [], ◌∷◌, ◌++◌, ◌==◌, leb, if◌then◌else◌, is_some_and,
  find_where, update_where, count_where, is_some,
}
use agent_loom.Domain.Status.{RunStatus, is_terminal_run, is_paused}
use agent_loom.Store.Result.{
  StoreErrorCode, StoreResult, ok, reject_if, ok_or, checked_add, checked_add_u64, to_i64, ◌>>=◌,
  ◌>>◌,
}
use agent_loom.Store.Rows.{RunRow}
use agent_loom.Store.Outcome.{
  RunSnapshot, Committed, CommandContext, CommandDisposition, ReceiptOutcome, OutcomeKind,
  DurableFollowUp, PostCommitHint, run_events_available, invalidate_run_cache, wake_workers,
  ExpectedRun,
}
use agent_loom.Store.Database.{
  Database, ReceiptGuard, acquired, existing, acquire_receipt, finish_receipt, insert_event,
  event_row, is_run,
}
use agent_loom.Store.Claim.{event_list}
use agent_loom.Store.Expiry.{is_current_run}
use agent_loom.Store.Fail.{decode_run_receipt}
use agent_loom.Store.Transition.{
  ControlKind, ControlRun, ControlTransition, cancel, control_event_type, control_transition,
  is_no_op, pause, resume, run_snapshot, validate_control_expectations,
}

-- SET of the run's UPDATE.
abbrev pub controlled_row : ControlTransition → ℕ → ℕ → ℕ → ℕ → RunRow → RunRow
controlled_row transition version sequence event_id now r = record r {
  status = transition.status;
  suspended_from_status = transition.suspended_from_status;
  version = version;
  execution_generation = transition.generation;
  next_event_sequence = sequence;
  resume_blocked_reason = transition.blocked_reason;
  terminal_event_id = if transition.terminal then some event_id else r.terminal_event_id;
  terminal_at = if transition.terminal then some now else r.terminal_at;
  updated_at = now;
}

-- The checks of a command that is no no-op.
unfoldable pub validate_control : ControlKind → ExpectedRun → RunRow → ℕ → StoreResult (Unit {0})
unfolding validate_control_expectations
validate_control resume expected run now = do
  validate_control_expectations expected run
  reject_if (not (is_paused run.status)) StoreErrorCode.invalid_transition
  reject_if (is_some_and run.deadline (λ deadline. leb deadline now))
      StoreErrorCode.deadline_exceeded
validate_control pause expected run now = validate_control_expectations expected run
validate_control cancel expected run now = validate_control_expectations expected run

-- The event, the run's UPDATE and the snapshot that answers the command.
unfoldable pub commit_control :
    Database
    → CommandContext
    → ControlRun
    → ControlKind
    → ℕ
    → RunRow
    → ControlTransition
    → StoreResult (Database × RunSnapshot)
unfolding checked_add checked_add_u64 to_i64
commit_control changed context command kind now run transition = do
  recorded ← insert_event changed (
      event_row context command.event_id run.run_id run.next_event_sequence
        (control_event_type kind) "control-plane" now)
  next_sequence ←
      ok_or (checked_add_u64 run.next_event_sequence 1) StoreErrorCode.inconsistent_projection
  sequence ← to_i64 next_sequence
  generation ← to_i64 transition.generation
  version ← ok_or (checked_add run.version 1) StoreErrorCode.inconsistent_projection
  reject_if (not (count_where (is_current_run context.tenant_id run) recorded.runs == 1))
      StoreErrorCode.version_conflict
  let runs =
      update_where (is_current_run context.tenant_id run)
        (controlled_row transition version sequence command.event_id now) recorded.runs
  ok (
    record recorded { runs = runs },
    record {
      tenant_id = context.tenant_id;
      run_id = command.expected_run.run_id;
      workflow_version_id = run.workflow_version_id;
      status = transition.status;
      suspended_from_status = transition.suspended_from_status;
      version = version;
      execution_generation = transition.generation;
      next_event_sequence = sequence;
      current_checkpoint_id = run.current_checkpoint_id;
      terminal_event_id = if transition.terminal then some command.event_id else none;
      deadline = run.deadline;
      updated_at = now;
    },
  )

-- The updates of `execute_control` on a locked run: the tables, the snapshot, the follow-ups.
unfoldable pub apply_control :
    Database
    → CommandContext
    → ControlRun
    → ControlKind
    → ℕ
    → RunRow
    → StoreResult (Database × RunSnapshot × List DurableFollowUp)
unfolding validate_control commit_control
apply_control db context command kind now run = do
  validate_control kind command.expected_run run now
  (changed, transition) ← control_transition kind context.tenant_id run now db
  (committed, snapshot) ← commit_control changed context command kind now run transition
  ok (committed, snapshot, transition.follow_ups)

abbrev wake_hint : RunStatus → List PostCommitHint
wake_hint status =
    if not (is_paused status) && not (is_terminal_run status) then wake_workers ∷ [] else []

-- `control_committed`.
unfoldable pub control_committed :
    CommandDisposition → RunSnapshot → Option ℕ → List DurableFollowUp → Committed RunSnapshot
control_committed disposition snapshot event_id follow_ups = record {
  disposition = disposition;
  value = snapshot;
  event_ids = event_list event_id;
  durable_follow_ups = follow_ups;
  post_commit_hints =
      invalidate_run_cache snapshot.run_id
      ∷ ((if is_some event_id then run_events_available snapshot.run_id ∷ [] else [])
          ++ wake_hint snapshot.status);
}

-- A command that the run's status makes a no-op.
unfoldable pub control_no_op :
    Database → CommandContext → RunRow → StoreResult (Database × Committed RunSnapshot)
control_no_op db context run = do
  finished ←
      finish_receipt db context OutcomeKind.no_op (ReceiptOutcome.run (run_snapshot run)) none
        (some ("run", run.run_id, run.version))
  ok (finished, control_committed CommandDisposition.no_op (run_snapshot run) none [])

-- A command that is applied.
unfoldable pub control_applied :
    Database
    → CommandContext
    → ControlRun
    → ControlKind
    → ℕ
    → RunRow
    → StoreResult (Database × Committed RunSnapshot)
control_applied db context command kind now run = do
  (changed, snapshot, follow_ups) ← apply_control db context command kind now run
  finished ←
      finish_receipt changed context OutcomeKind.applied (ReceiptOutcome.run snapshot)
        (some command.event_id) (some ("run", run.run_id, snapshot.version))
  ok (
    finished,
    control_committed CommandDisposition.applied snapshot (some command.event_id) follow_ups,
  )

-- The part of `execute_control` that runs under a new receipt.
unfoldable pub control_new :
    Database
    → CommandContext
    → ControlRun
    → ControlKind
    → ℕ
    → StoreResult (Database × Committed RunSnapshot)
unfolding control_no_op control_applied
control_new db context command kind now = do
  run ←
      ok_or (find_where (is_run context.tenant_id command.expected_run.run_id) db.runs)
        StoreErrorCode.not_found
  if is_no_op kind run.status
      then control_no_op db context run
      else control_applied db context command kind now run

-- What `execute_control` does under its receipt.
unfoldable pub control_under :
    ReceiptGuard
    → Database
    → CommandContext
    → ControlRun
    → ControlKind
    → ℕ
    → StoreResult (Database × Committed RunSnapshot)
control_under (existing receipt) db context command kind now = do
  snapshot ← decode_run_receipt receipt.outcome
  ok (db, control_committed CommandDisposition.duplicate snapshot receipt.event_id [])
control_under (acquired opened) db context command kind now =
    control_new opened context command kind now

-- `execute_control`, which `pause_run`, `resume_run` and `cancel_run` call.
unfoldable pub execute_control :
    Database
    → ℕ
    → CommandContext
    → ControlRun
    → ControlKind
    → ℕ
    → StoreResult (Database × Committed RunSnapshot)
execute_control db ttl context command kind now = do
  reject_if (not command.has_reason) StoreErrorCode.constraint_violation
  guard ← acquire_receipt db context now ttl
  control_under guard db context command kind now
