-- ===== src/Store/Completion/Finish.antt =====
-- transaction_executor.rs: what `complete_task` makes of its task (`finalize_task`) and its run.
use agent_loom.Base.{
  ℕ, Bool, true, false, ◌&&◌, not, none, some, ◌==◌, if◌then◌else◌, update_where, count_where,
}
use agent_loom.Domain.Status.{RunStatus, TaskStatus, is_leased}
use agent_loom.Domain.Json.{Value}
use agent_loom.Store.Result.{StoreErrorCode, StoreResult, ok, ◌>>=◌, ◌>>◌, reject_if}
use agent_loom.Store.Rows.{RunRow, TaskRow}
use agent_loom.Store.Database.{Database, is_task}
use agent_loom.Store.Claim.{sql_add}
use agent_loom.Store.Renew.{is_open_attempt}
use agent_loom.Store.Expiry.{closed_attempt, is_current_run}
use agent_loom.Store.Completion.{CompleteTask, NextActions}
use agent_loom.Store.Completion.Actions.{NextTransition}

-- SET of the task's UPDATE.
abbrev pub succeeded_row : Value → ℕ → TaskRow → TaskRow
succeeded_row result now t = record t {
  status = TaskStatus.succeeded;
  result = some result;
  lease_owner = none;
  lease_token = none;
  lease_expires_at = none;
  completed_at = some now;
  updated_at = now;
}

-- WHERE of the task's UPDATE.
abbrev pub is_completing : ℕ → ℕ → TaskRow → Bool
is_completing tenant_id task_id t = is_task tenant_id task_id t && is_leased t.status

-- `finalize_task`.
unfoldable pub finalize_task : Database → ℕ → ℕ → ℕ → ℕ → Value → StoreResult Database
finalize_task db tenant_id task_id attempt now result = do
  reject_if (not (count_where (is_completing tenant_id task_id) db.tasks == 1))
      StoreErrorCode.lease_lost
  reject_if (not (count_where (is_open_attempt tenant_id task_id attempt) db.attempts == 1))
      StoreErrorCode.inconsistent_projection
  ok (record db {
    tasks = update_where (is_completing tenant_id task_id) (succeeded_row result now) db.tasks;
    attempts =
        update_where (is_open_attempt tenant_id task_id attempt)
          (λ a. closed_attempt now "succeeded" a.error_code a) db.attempts;
  })

-- `state_summary`: what a run that ends has given, or else the state of the checkpoint.
abbrev pub state_summary_of : CompleteTask → Value
state_summary_of command = elim command.next [
  | NextActions.finish_run result ↦ result.output
  | _ ↦ command.checkpoint.state
]

-- SET of the run's UPDATE.
abbrev pub completed_run_row : CompleteTask → NextTransition → ℕ → ℕ → ℕ → RunRow → RunRow
completed_run_row command transition version sequence now r = record r {
  status = transition.status;
  suspended_from_status = none;
  version = version;
  next_event_sequence = sequence;
  current_checkpoint_id = some command.checkpoint.checkpoint_id;
  state_summary = state_summary_of command;
  terminal_event_id = if transition.terminal then some command.completion_event_id else none;
  terminal_at = if transition.terminal then some now else none;
  updated_at = now;
}

-- `status IN ('queued', 'running', 'waiting', 'approval_required', 'retrying')`.
abbrev pub is_going : RunStatus → Bool
is_going RunStatus.queued = true
is_going RunStatus.running = true
is_going RunStatus.waiting = true
is_going RunStatus.approval_required = true
is_going RunStatus.retrying = true
is_going _ = false

-- WHERE of the run's UPDATE.
abbrev pub is_completed_run : ℕ → RunRow → RunRow → Bool
is_completed_run tenant_id run r = is_current_run tenant_id run r && is_going r.status

-- The run's UPDATE.
unfoldable pub update_completed_run :
    Database → ℕ → RunRow → CompleteTask → NextTransition → ℕ → ℕ → StoreResult (Database × ℕ)
unfolding sql_add
update_completed_run db tenant_id run command transition sequence now = do
  reject_if (not (count_where (is_completed_run tenant_id run) db.runs == 1))
      StoreErrorCode.version_conflict
  version ← sql_add run.version 1
  ok (
    record db {
      runs =
          update_where (is_completed_run tenant_id run)
            (completed_run_row command transition version sequence now) db.runs;
    },
    version,
  )
