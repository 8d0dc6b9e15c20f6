-- ===== src/Store/Transition.antt =====
-- transaction_executor.rs: what `execute_control` makes of a run and its work, by the kind of
-- command.
use Prim.Native.String.{String}
use agent_loom.Base.{
  ℕ, Bool, true, false, ◌&&◌, ◌||◌, not, Option, none, some, List, [], ◌++◌, ◌==◌, ltb, leb,
  if◌then◌else◌, is_some_and, exists_where, update_where,
}
use agent_loom.Domain.Status.{
  RunStatus, TaskStatus, is_terminal_run, is_paused, is_leased, is_claimable, is_scheduled,
}
use agent_loom.Store.Result.{
  StoreErrorCode, StoreResult, ok, err, ◌>>=◌, ◌>>◌, reject_if, ok_or, checked_add_u64,
}
use agent_loom.Store.Rows.{RunRow, TaskRow, WaitRow}
use agent_loom.Store.Outcome.{RunSnapshot, DurableFollowUp, ExpectedRun}
use agent_loom.Store.Database.{Database, is_task_of}
use agent_loom.Store.Work.{is_open_wait, is_approval_type}
use agent_loom.Store.External.{
  cancel_run_children, finalize_open_task_attempts, freeze_leased_tasks, external_work_blocks,
  request_external_stops, mark_executing_tools_uncertain,
}

-- `has_reason` is `!reason.trim().is_empty()`.
pub record ControlRun : Type 0 where
  pub expected_run : ExpectedRun
  pub event_id : ℕ
  pub has_reason : Bool

pub data ControlKind : Type 0 where
  pause resume cancel : ControlKind

-- `ControlKind::event_type`.
abbrev pub control_event_type : ControlKind → String
control_event_type pause = "run.paused"
control_event_type resume = "run.resumed"
control_event_type cancel = "run.cancelled"

-- `ControlKind::is_no_op`.
abbrev pub is_no_op : ControlKind → RunStatus → Bool
is_no_op pause status = is_paused status || is_terminal_run status
is_no_op cancel status = is_terminal_run status
is_no_op resume status = false

-- `LockedControlRun::decode`.
abbrev pub run_snapshot : RunRow → RunSnapshot
run_snapshot r = record {
  tenant_id = r.tenant_id;
  run_id = r.run_id;
  workflow_version_id = r.workflow_version_id;
  status = r.status;
  suspended_from_status = r.suspended_from_status;
  version = r.version;
  execution_generation = r.execution_generation;
  next_event_sequence = r.next_event_sequence;
  current_checkpoint_id = r.current_checkpoint_id;
  terminal_event_id = r.terminal_event_id;
  deadline = r.deadline;
  updated_at = r.updated_at;
}

-- `validate_control_expectations`.
unfoldable pub validate_control_expectations : ExpectedRun → RunRow → StoreResult (Unit {0})
validate_control_expectations expected run =
    reject_if
      (is_some_and expected.version (λ v. not (v == run.version))
        || is_some_and expected.execution_generation (λ g. not (g == run.execution_generation)))
      StoreErrorCode.version_conflict

pub record ControlTransition : Type 0 where
  pub status : RunStatus
  pub suspended_from_status : Option RunStatus
  pub generation : ℕ
  pub terminal : Bool
  pub follow_ups : List DurableFollowUp
  pub blocked_reason : Option String

-- WHERE and SET of `rebase_preserved_tasks`.
abbrev pub is_overdue : ℕ → TaskRow → Bool
is_overdue now t = is_scheduled t.status && leb t.available_at now

abbrev pub is_rebased : ℕ → ℕ → ℕ → ℕ → TaskRow → Bool
is_rebased tenant_id run_id generation now t =
    is_task_of tenant_id run_id t
    && ((is_scheduled t.status || is_claimable t.status)
        && (not (t.generation == generation) || is_overdue now t))

abbrev pub rebased_row : ℕ → ℕ → TaskRow → TaskRow
rebased_row generation now t = record t {
  generation = generation;
  status = if is_overdue now t then TaskStatus.queued else t.status;
  updated_at = now;
}

-- `rebase_preserved_tasks`.
unfoldable pub rebase_preserved_tasks : ℕ → ℕ → ℕ → ℕ → Database → Database
rebase_preserved_tasks tenant_id run_id generation now db = record db {
  tasks =
      update_where (is_rebased tenant_id run_id generation now) (rebased_row generation now)
        db.tasks;
}

-- `status IN ('scheduled', 'retry_scheduled')`.
abbrev pub is_later : TaskStatus → Bool
is_later TaskStatus.scheduled = true
is_later TaskStatus.retry_scheduled = true
is_later _ = false

abbrev is_wait_of : ℕ → ℕ → WaitRow → Bool
is_wait_of tenant_id run_id w =
    w.tenant_id == tenant_id && (w.run_id == run_id && is_open_wait w.status)

-- `project_resumed_status`.
unfoldable pub project_resumed_status : ℕ → ℕ → ℕ → Database → StoreResult RunStatus
project_resumed_status tenant_id run_id now db =
    if exists_where (λ (t : TaskRow). is_task_of tenant_id run_id t && is_leased t.status) db.tasks
    then ok RunStatus.running
    else if exists_where
        (λ (t : TaskRow).
          is_task_of tenant_id run_id t && (is_claimable t.status && leb t.available_at now))
        db.tasks
    then ok RunStatus.queued
    else if exists_where (λ w. is_wait_of tenant_id run_id w && is_approval_type w.wait_type)
        db.waits
    then ok RunStatus.approval_required
    else if exists_where (λ w. is_wait_of tenant_id run_id w && not (is_approval_type w.wait_type))
        db.waits
    then ok RunStatus.waiting
    else if exists_where
        (λ (t : TaskRow).
          is_task_of tenant_id run_id t && (is_later t.status && ltb now t.available_at))
        db.tasks
    then ok RunStatus.retrying
    else err StoreErrorCode.pause_recovery_required

-- The three arms of the `match kind` of `execute_control`.
unfoldable pub control_transition :
    ControlKind → ℕ → RunRow → ℕ → Database → StoreResult (Database × ControlTransition)
unfolding checked_add_u64
control_transition pause tenant_id run now db = do
  let (stopped, blocked, follow_ups) = request_external_stops tenant_id run.run_id now (
      finalize_open_task_attempts tenant_id run.run_id now
        (freeze_leased_tasks tenant_id run.run_id now db))
  generation ←
      ok_or (checked_add_u64 run.execution_generation 1) StoreErrorCode.inconsistent_projection
  ok (
    stopped,
    record {
      status = RunStatus.paused;
      suspended_from_status = some run.status;
      generation = generation;
      terminal = false;
      follow_ups = follow_ups;
      blocked_reason = if blocked then some "external_execution_recovery_required" else none;
    },
  )
control_transition resume tenant_id run now db = do
  reject_if (external_work_blocks tenant_id run.run_id db) StoreErrorCode.pause_recovery_required
  let rebased = rebase_preserved_tasks tenant_id run.run_id run.execution_generation now db
  status ← project_resumed_status tenant_id run.run_id now rebased
  ok (
    rebased,
    record {
      status = status;
      suspended_from_status = none;
      generation = run.execution_generation;
      terminal = false;
      follow_ups = [];
      blocked_reason = none;
    },
  )
control_transition cancel tenant_id run now db = do
  let (stopped, blocked, stops) = request_external_stops tenant_id run.run_id now (
      finalize_open_task_attempts tenant_id run.run_id now
        (cancel_run_children tenant_id run.run_id now db))
  let (marked, reconciles) = mark_executing_tools_uncertain tenant_id run.run_id now stopped
  generation ←
      ok_or (checked_add_u64 run.execution_generation 1) StoreErrorCode.inconsistent_projection
  ok (
    marked,
    record {
      status = RunStatus.cancelled;
      suspended_from_status = none;
      generation = generation;
      terminal = true;
      follow_ups = stops ++ reconciles;
      blocked_reason = none;
    },
  )
