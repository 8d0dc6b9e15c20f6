-- ===== src/Store/Fail.antt =====
-- transaction_executor.rs: `fail_task`, with what follows the end of the task.
pub mod Laws
pub mod Steps
pub mod Outcome
use Prim.Native.String.{String}
use agent_loom.Base.{
  ℕ, ◌+◌, Bool, true, false, ◌&&◌, not, Option, none, some, List, [], ◌∷◌, ◌++◌, map, ◌==◌,
  if◌then◌else◌, is_some, update_where, count_where,
}
use agent_loom.Domain.Status.{RunStatus, accepts_task_claim}
use agent_loom.Domain.Json.{Value}
use agent_loom.Store.Result.{
  StoreErrorCode, StoreResult, ok, err, reject_if, ok_or, checked_add, ◌>>=◌, ◌>>◌,
}
use agent_loom.Store.Rows.{RunRow, TaskRow}
use agent_loom.Store.Outcome.{
  RunSnapshot, Committed, CommandContext, CommandDisposition, ReceiptOutcome, OutcomeKind,
  DurableFollowUp, run_events_available, invalidate_run_cache, wake_scheduler,
}
use agent_loom.Store.Database.{
  Database, ReceiptGuard, acquired, existing, acquire_receipt, finish_receipt, insert_event,
  event_row,
}
use agent_loom.Store.Fences.{LockedWorkerTask, lock_worker_task, validate_worker_fences}
use agent_loom.Store.Claim.{event_list}
use agent_loom.Store.Expiry.{is_current_run}
use agent_loom.Store.Dependencies.{resolve_dependent_tasks}
use agent_loom.Store.External.{
  close_work_after_fatal_failure, request_external_stops, mark_executing_tools_uncertain,
}
use agent_loom.Store.Failure.{FailTask, FailureTransition, classify, finalize_failed_task, is_retry}

-- The tables after the dependents are resolved, the transition that is left, and the follow-ups.
abbrev pub Resolved : Type 0
Resolved = Database × FailureTransition × List DurableFollowUp

-- Dependents that a failure activates keep the run going.
abbrev pub after_activation : Database → FailureTransition → List ℕ → Resolved
after_activation db transition [] = (db, transition, [])
after_activation db transition (t ∷ ts) = (
  db,
  record transition { run_status = RunStatus.queued; terminal = false },
  map DurableFollowUp.task (t ∷ ts),
)

-- `if transition.task_status != "retry_scheduled" { resolve_dependent_tasks … }`. The loop's fuel
-- does not run out.
unfoldable pub resolve_after_failure :
    (Value → String → Option Value)
    → Database
    → ℕ
    → TaskRow
    → ℕ
    → FailureTransition
    → StoreResult Resolved
resolve_after_failure pointer db tenant_id task now transition =
    if is_retry transition.task_status
    then ok (db, transition, [])
    else elim (resolve_dependent_tasks pointer tenant_id task.run_id now db task.task_id) [
      | none ↦ err StoreErrorCode.store_unavailable
      | some (err e) ↦ err e
      | some (ok (resolved, activated)) ↦ ok (after_activation resolved transition activated)
    ]

-- `if transition.terminal { … }`: the open work of the run is closed.
unfoldable pub close_if_terminal :
    ℕ → TaskRow → ℕ → Bool → Database → List DurableFollowUp → Database × List DurableFollowUp
close_if_terminal tenant_id task now false db follow_ups = (db, follow_ups)
close_if_terminal tenant_id task now true db follow_ups =
    let (stopped, blocked, stops) =
      request_external_stops tenant_id task.run_id now
        (close_work_after_fatal_failure tenant_id task.run_id task.task_id now db) in
    let (marked, reconciles) = mark_executing_tools_uncertain tenant_id task.run_id now stopped in
    (marked, follow_ups ++ (stops ++ reconciles))

-- The run's UPDATE.
unfoldable pub update_failed_run :
    Database → ℕ → RunRow → FailureTransition → ℕ → ℕ → ℕ → ℕ → StoreResult Database
update_failed_run db tenant_id run transition version sequence event_id now = do
  reject_if
      (not (
        count_where (λ r. is_current_run tenant_id run r && accepts_task_claim r.status) db.runs
        == 1))
      StoreErrorCode.version_conflict
  ok (record db {
    runs =
        update_where (λ r. is_current_run tenant_id run r && accepts_task_claim r.status)
          (λ r. record r {
            status = transition.run_status;
            suspended_from_status = none;
            version = version;
            next_event_sequence = sequence;
            terminal_event_id = if transition.terminal then some event_id else none;
            terminal_at = if transition.terminal then some now else none;
            updated_at = now;
          })
          db.runs;
  })

abbrev pub scan_follow_up : Option ℕ → List DurableFollowUp
scan_follow_up none = []
scan_follow_up (some not_before) = DurableFollowUp.scan_due_work not_before ∷ []

-- `failure_committed`.
unfoldable pub failure_committed :
    CommandDisposition
    → RunSnapshot
    → Option ℕ
    → List DurableFollowUp
    → Bool
    → Committed RunSnapshot
failure_committed disposition snapshot event_id follow_ups wake = record {
  disposition = disposition;
  value = snapshot;
  event_ids = event_list event_id;
  durable_follow_ups = follow_ups;
  post_commit_hints =
      run_events_available snapshot.run_id
      ∷ invalidate_run_cache snapshot.run_id
      ∷ (if wake then wake_scheduler ∷ [] else []);
}

abbrev pub transition_of : FailTask → LockedWorkerTask → FailureTransition
transition_of command locked =
    classify locked.task.attempt locked.task.max_attempts command.retry_at

-- The event of the failure, then the end of the attempt.
unfoldable pub record_failure :
    Database → CommandContext → FailTask → ℕ → LockedWorkerTask → StoreResult Database
unfolding finalize_failed_task
record_failure db context command now locked = do
  recorded ← insert_event db (
      event_row context command.failure_event_id locked.task.run_id locked.run.next_event_sequence
        (transition_of command locked).event_type "worker" now)
  finalize_failed_task recorded context.tenant_id locked.task now command.error_code
      (transition_of command locked)

-- The end of the run's open work, the run's UPDATE and the snapshot that answers the command.
unfoldable pub commit_failure :
    Database
    → CommandContext
    → FailTask
    → ℕ
    → LockedWorkerTask
    → FailureTransition
    → List DurableFollowUp
    → StoreResult (Database × RunSnapshot × List DurableFollowUp)
unfolding update_failed_run checked_add
commit_failure resolved context command now locked settled activated = do
  let closed =
      close_if_terminal context.tenant_id locked.task now settled.terminal resolved activated
  next_version ← ok_or (checked_add locked.run.version 1) StoreErrorCode.inconsistent_projection
  next_event_sequence ←
      ok_or (checked_add locked.run.next_event_sequence 1) StoreErrorCode.inconsistent_projection
  updated ←
      update_failed_run closed.0 context.tenant_id locked.run settled next_version
        next_event_sequence command.failure_event_id now
  ok (
    updated,
    record {
      tenant_id = context.tenant_id;
      run_id = locked.task.run_id;
      workflow_version_id = locked.run.workflow_version_id;
      status = settled.run_status;
      suspended_from_status = none;
      version = next_version;
      execution_generation = locked.run.execution_generation;
      next_event_sequence = next_event_sequence;
      current_checkpoint_id = locked.run.current_checkpoint_id;
      terminal_event_id = if settled.terminal then some command.failure_event_id else none;
      deadline = locked.run.deadline;
      updated_at = now;
    },
    closed.1 ++ scan_follow_up settled.retry_at,
  )

module _ (pointer : Value → String → Option Value) where
  -- The updates of `fail_task` after the fences: the tables, the snapshot, the follow-ups.
  unfoldable pub apply_failure :
      Database
      → CommandContext
      → FailTask
      → ℕ
      → LockedWorkerTask
      → StoreResult (Database × RunSnapshot × List DurableFollowUp)
  unfolding record_failure commit_failure
  apply_failure db context command now locked = do
    finalized ← record_failure db context command now locked
    (resolved, settled, activated) ←
        resolve_after_failure pointer finalized context.tenant_id locked.task now
          (transition_of command locked)
    commit_failure resolved context command now locked settled activated

  -- The part of `fail_task` that runs under a new receipt.
  unfoldable pub fail_new :
      Database → CommandContext → FailTask → ℕ → StoreResult (Database × Committed RunSnapshot)
  fail_new db context command now = do
    locked ← lock_worker_task db context.tenant_id command.expected_run.run_id command.lease.task_id
    validate_worker_fences command.expected_run command.lease locked now
    (updated, snapshot, follow_ups) ← apply_failure db context command now locked
    finished ←
        finish_receipt updated context OutcomeKind.applied (ReceiptOutcome.run snapshot)
          (some command.failure_event_id) (some ("run", snapshot.run_id, snapshot.version))
    ok (
      finished,
      failure_committed CommandDisposition.applied snapshot (some command.failure_event_id)
          follow_ups (is_some (transition_of command locked).retry_at),
    )

-- `decode_run_receipt`.
abbrev pub decode_run_receipt : Option ReceiptOutcome → StoreResult RunSnapshot
decode_run_receipt (some (ReceiptOutcome.run snapshot)) = ok snapshot
decode_run_receipt _ = err StoreErrorCode.inconsistent_projection

abbrev pub is_empty_text : String → Bool
is_empty_text String.[] = true
is_empty_text (String.◌∷◌ c s) = false

-- What `fail_task` does under its receipt.
unfoldable pub fail_under :
    (Value → String → Option Value)
    → ReceiptGuard
    → Database
    → CommandContext
    → FailTask
    → ℕ
    → StoreResult (Database × Committed RunSnapshot)
fail_under pointer (existing receipt) db context command now = do
  snapshot ← decode_run_receipt receipt.outcome
  ok (db, failure_committed CommandDisposition.duplicate snapshot receipt.event_id [] false)
fail_under pointer (acquired opened) db context command now =
    fail_new pointer opened context command now

-- `fail_task`.
unfoldable pub fail_task :
    (Value → String → Option Value)
    → Database
    → ℕ
    → CommandContext
    → FailTask
    → ℕ
    → StoreResult (Database × Committed RunSnapshot)
fail_task pointer db ttl context command now = do
  reject_if (is_empty_text command.error_code) StoreErrorCode.constraint_violation
  guard ← acquire_receipt db context now ttl
  fail_under pointer guard db context command now
