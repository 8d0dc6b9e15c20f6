-- ===== src/Store/Failure.antt =====
-- transaction_executor.rs: `FailureTransition::classify` and `finalize_failed_task`.
use Prim.Native.String.{String}
use agent_loom.Base.{
  ℕ, Bool, true, false, ◌&&◌, not, Option, none, some, ◌==◌, ltb, leb, if◌then◌else◌, is_some,
  update_where, count_where,
}
use agent_loom.Domain.Status.{RunStatus, TaskStatus, is_leased}
use agent_loom.Store.Result.{StoreErrorCode, StoreResult, ok, ◌>>◌, reject_if}
use agent_loom.Store.Rows.{TaskRow}
use agent_loom.Store.Outcome.{ExpectedRun, LeaseProof}
use agent_loom.Store.Database.{Database, is_task}
use agent_loom.Store.Renew.{is_open_attempt}
use agent_loom.Store.Expiry.{closed_attempt}

pub record FailTask : Type 0 where
  pub expected_run : ExpectedRun
  pub lease : LeaseProof
  pub failure_event_id : ℕ
  pub error_code : String
  pub retry_at : Option ℕ

pub record FailureTransition : Type 0 where
  pub task_status : TaskStatus
  pub run_status : RunStatus
  pub event_type : String
  pub retry_at : Option ℕ
  pub terminal : Bool

-- `FailureTransition::classify`.
unfoldable pub classify : ℕ → ℕ → Option ℕ → FailureTransition
classify attempt max_attempts retry_at =
    if is_some retry_at && ltb attempt max_attempts
    then record {
      task_status = TaskStatus.retry_scheduled;
      run_status = RunStatus.retrying;
      event_type = "task.retry_scheduled";
      retry_at = retry_at;
      terminal = false;
    }
    else if leb max_attempts attempt
    then record {
      task_status = TaskStatus.dead_lettered;
      run_status = RunStatus.waiting;
      event_type = "task.dead_lettered";
      retry_at = none;
      terminal = false;
    }
    else record {
      task_status = TaskStatus.failed;
      run_status = RunStatus.failed;
      event_type = "task.failed";
      retry_at = none;
      terminal = true;
    }

abbrev pub is_retry : TaskStatus → Bool
is_retry TaskStatus.retry_scheduled = true
is_retry _ = false

-- WHERE of the task's UPDATE.
abbrev pub is_failing : ℕ → TaskRow → TaskRow → Bool
is_failing tenant_id task t =
    is_task tenant_id task.task_id t && (t.attempt == task.attempt && is_leased t.status)

abbrev or_else : Option ℕ → ℕ → ℕ
or_else none n = n
or_else (some m) n = m

-- SET of the task's UPDATE.
abbrev pub failed_row : FailureTransition → String → ℕ → TaskRow → TaskRow
failed_row transition error_code now t = record t {
  status = transition.task_status;
  available_at = or_else transition.retry_at t.available_at;
  lease_owner = none;
  lease_token = none;
  lease_expires_at = none;
  error_code = some error_code;
  completed_at = if is_retry transition.task_status then none else some now;
  updated_at = now;
}

-- `finalize_failed_task`.
unfoldable pub finalize_failed_task :
    Database → ℕ → TaskRow → ℕ → String → FailureTransition → StoreResult Database
finalize_failed_task db tenant_id task now error_code transition = do
  reject_if (not (count_where (is_failing tenant_id task) db.tasks == 1)) StoreErrorCode.lease_lost
  reject_if
      (not (count_where (is_open_attempt tenant_id task.task_id task.attempt) db.attempts == 1))
      StoreErrorCode.inconsistent_projection
  ok (record db {
    tasks =
        update_where (is_failing tenant_id task) (failed_row transition error_code now) db.tasks;
    attempts =
        update_where (is_open_attempt tenant_id task.task_id task.attempt)
          (closed_attempt now "failed" (some error_code)) db.attempts;
  })
