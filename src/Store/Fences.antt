-- ===== src/Store/Fences.antt =====
-- transaction_executor.rs: `lock_worker_task`, `validate_worker_fences`, `claimed_task`.
pub mod Laws
use agent_loom.Base.{
  ℕ, Bool, ◌||◌, not, Option, ◌==◌, leb, is_some_and, is_none_or, is_value, find_where,
}
use agent_loom.Domain.Status.{TaskStatus, is_terminal_run, is_paused, is_leased}
use agent_loom.Store.Result.{
  StoreErrorCode, StoreResult, ok, reject_if, ok_or, to_i64, try_i64, ◌>>=◌, ◌>>◌,
}
use agent_loom.Store.Rows.{RunRow, TaskRow}
use agent_loom.Store.Outcome.{ExpectedRun, LeaseProof, ClaimedTask}
use agent_loom.Store.Database.{Database, is_run, is_task}

-- The columns of the run and of the task that a worker's command locks.
pub record LockedWorkerTask : Type 0 where
  pub run : RunRow
  pub task : TaskRow

-- `lock_worker_task`. The task is found by its own id: its run is checked by the fences.
unfoldable pub lock_worker_task : Database → ℕ → ℕ → ℕ → StoreResult LockedWorkerTask
lock_worker_task db tenant_id run_id task_id = do
  run ← ok_or (find_where (is_run tenant_id run_id) db.runs) StoreErrorCode.not_found
  task ← ok_or (find_where (is_task tenant_id task_id) db.tasks) StoreErrorCode.not_found
  ok (record { run = run; task = task })

-- `expected.is_some_and(|e| i64::try_from(e).ok() != Some(actual))`.
abbrev pub differs : Option ℕ → ℕ → Bool
differs expected actual = is_some_and expected (λ e. not (is_value (try_i64 e) actual))

-- `validate_worker_fences`.
unfoldable pub validate_worker_fences :
    ExpectedRun → LeaseProof → LockedWorkerTask → ℕ → StoreResult (Unit {0})
unfolding to_i64
validate_worker_fences expected lease locked now = do
  reject_if (not (locked.task.run_id == expected.run_id)) StoreErrorCode.not_found
  reject_if (not (is_leased locked.task.status)) StoreErrorCode.lease_lost
  reject_if (is_paused locked.run.status) StoreErrorCode.invalid_transition
  reject_if (is_terminal_run locked.run.status) StoreErrorCode.terminal_run
  reject_if (differs expected.version locked.run.version) StoreErrorCode.version_conflict
  reject_if (differs expected.execution_generation locked.run.execution_generation)
      StoreErrorCode.version_conflict
  lease_generation ← to_i64 lease.execution_generation
  reject_if
      (not (lease_generation == locked.run.execution_generation)
        || not (lease_generation == locked.task.generation))
      StoreErrorCode.version_conflict
  reject_if
      (not (is_value locked.task.lease_owner lease.worker_id)
        || not (is_value locked.task.lease_token lease.token))
      StoreErrorCode.lease_lost
  reject_if (is_none_or locked.task.lease_expires_at (λ expires. leb expires now))
      StoreErrorCode.lease_expired

-- `positive_u32`: the columns hold no negative value, so the upper bound and zero are left.
unfoldable pub positive_u32 : ℕ → StoreResult ℕ
positive_u32 value = do
  reject_if (leb 4294967296 value) StoreErrorCode.inconsistent_projection
  reject_if (value == 0) StoreErrorCode.inconsistent_projection
  ok value

-- `LockedWorkerTask::claimed_task`.
unfoldable pub claimed_task : LockedWorkerTask → ℕ → ℕ → StoreResult ClaimedTask
unfolding positive_u32
claimed_task locked tenant_id lease_expires_at = do
  attempt ← positive_u32 locked.task.attempt
  max_attempts ← positive_u32 locked.task.max_attempts
  ok (record {
    task = record {
      tenant_id = tenant_id;
      task_id = locked.task.task_id;
      run_id = locked.task.run_id;
      stage_execution_id = locked.task.stage_execution_id;
      logical_key = locked.task.logical_key;
      kind = locked.task.kind;
      status = TaskStatus.leased;
      generation = locked.task.generation;
      attempt = attempt;
      max_attempts = max_attempts;
      available_at = locked.task.available_at;
      input = locked.task.input;
    };
    run_version = locked.run.version;
    lease_expires_at = lease_expires_at;
  })
