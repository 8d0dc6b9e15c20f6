-- ===== src/Store/Completion/Fences.antt =====
-- transaction_executor.rs: the rows that `complete_task` locks and `validate_completion_fences`.
use agent_loom.Base.{
  ℕ, ◌+◌, Bool, true, false, ◌&&◌, ◌||◌, not, Option, none, some, ◌==◌, leb, find_where, is_value,
  is_none_or,
}
use agent_loom.Domain.Status.{is_terminal_run, is_paused, is_leased}
use agent_loom.Store.Result.{
  StoreErrorCode, StoreResult, ok, ◌>>=◌, ◌>>◌, reject_if, ok_or, try_i64, to_i64,
}
use agent_loom.Store.Rows.{RunRow, TaskRow, CheckpointRow}
use agent_loom.Store.Database.{Database, is_run, is_task}
use agent_loom.Store.Fences.{differs}
use agent_loom.Store.Completion.{CompleteTask}

pub record LockedCompletion : Type 0 where
  pub run : RunRow
  pub task : TaskRow
  pub checkpoint_sequence : Option ℕ

-- The LEFT JOIN of the run's current checkpoint.
abbrev pub is_current_checkpoint : RunRow → CheckpointRow → Bool
is_current_checkpoint run c =
    c.tenant_id == run.tenant_id
    && (c.run_id == run.run_id && is_value run.current_checkpoint_id c.checkpoint_id)

abbrev pub sequence_of : Option CheckpointRow → Option ℕ
sequence_of none = none
sequence_of (some c) = some c.sequence

-- The two SELECT … FOR UPDATE and `LockedCompletion::decode`.
unfoldable pub lock_completion : Database → ℕ → ℕ → ℕ → StoreResult LockedCompletion
lock_completion db tenant_id run_id task_id = do
  run ← ok_or (find_where (is_run tenant_id run_id) db.runs) StoreErrorCode.not_found
  task ← ok_or (find_where (is_task tenant_id task_id) db.tasks) StoreErrorCode.not_found
  ok (record {
    run = run;
    task = task;
    checkpoint_sequence = sequence_of (find_where (is_current_checkpoint run) db.checkpoints);
  })

-- `a == b` on ids that may be missing.
abbrev pub same_id : Option ℕ → Option ℕ → Bool
same_id none none = true
same_id (some a) (some b) = a == b
same_id none (some b) = false
same_id (some a) none = false

-- `checkpoint_sequence.unwrap_or(0)`.
abbrev pub unwrap_or : Option ℕ → ℕ → ℕ
unwrap_or none n = n
unwrap_or (some m) n = m

-- `validate_completion_fences`.
unfoldable pub validate_completion_fences :
    CompleteTask → LockedCompletion → ℕ → StoreResult (Unit {0})
unfolding to_i64 try_i64
validate_completion_fences command locked now = do
  reject_if (not (locked.task.run_id == command.expected_run.run_id)) StoreErrorCode.not_found
  reject_if (not (is_leased locked.task.status)) StoreErrorCode.lease_lost
  reject_if (is_paused locked.run.status) StoreErrorCode.invalid_transition
  reject_if (is_terminal_run locked.run.status) StoreErrorCode.terminal_run
  reject_if (differs command.expected_run.version locked.run.version)
      StoreErrorCode.version_conflict
  expected_generation ← to_i64 command.lease.execution_generation
  reject_if
      (not (locked.run.execution_generation == expected_generation)
        || not (locked.task.generation == expected_generation))
      StoreErrorCode.version_conflict
  reject_if
      (not (is_value locked.task.lease_owner command.lease.worker_id)
        || not (is_value locked.task.lease_token command.lease.token))
      StoreErrorCode.lease_lost
  reject_if (is_none_or locked.task.lease_expires_at (λ expires. leb expires now))
      StoreErrorCode.lease_expired
  reject_if
      (not (same_id command.checkpoint.workflow_version_id locked.run.workflow_version_id)
        || not (
            same_id command.checkpoint.coordinator_agent_version_id
              locked.run.coordinator_agent_version_id))
      StoreErrorCode.version_conflict
  reject_if
      (not (
        is_value (try_i64 command.checkpoint.sequence)
          (unwrap_or locked.checkpoint_sequence 0 + 1)))
      StoreErrorCode.version_conflict
