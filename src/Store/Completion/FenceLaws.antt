-- ===== src/Store/Completion/FenceLaws.antt =====
-- What the fences of a completion let through.
use agent_loom.Base.{ℕ, ◌+◌, ◌<◌, ◌≡◌, ◌↔◌, false, some, arith}
use agent_loom.Domain.Status.{is_terminal_run, is_paused, TaskStatus}
use agent_loom.Store.Result.{ok, i64_bound}
use agent_loom.Store.Fences.Laws.{Agrees}
use agent_loom.Store.Completion.{CompleteTask}
use agent_loom.Store.Completion.Fences.{LockedCompletion, unwrap_or, validate_completion_fences}

-- All that a worker must show before its task is completed: the lease, and a checkpoint that
-- follows the run's current one.
pub record IsCompletable (command : CompleteTask) (locked : LockedCompletion) (now : ℕ)
    : Type 0 where
  pub same_run : locked.task.run_id ≡ command.expected_run.run_id
  pub leased : locked.task.status ≡ TaskStatus.leased
  pub not_paused : is_paused locked.run.status ≡ false
  pub not_terminal : is_terminal_run locked.run.status ≡ false
  pub version : Agrees command.expected_run.version locked.run.version
  pub run_generation : locked.run.execution_generation ≡ command.lease.execution_generation
  pub task_generation : locked.task.generation ≡ command.lease.execution_generation
  pub owner : locked.task.lease_owner ≡ some command.lease.worker_id
  pub token : locked.task.lease_token ≡ some command.lease.token
  pub expiry : (t : ℕ) × (locked.task.lease_expires_at ≡ some t) × (now < t)
  pub workflow : command.checkpoint.workflow_version_id ≡ locked.run.workflow_version_id
  pub coordinator :
      command.checkpoint.coordinator_agent_version_id ≡ locked.run.coordinator_agent_version_id
  pub checkpoint : command.checkpoint.sequence ≡ unwrap_or locked.checkpoint_sequence 0 + 1

module _ (command : CompleteTask) (locked : LockedCompletion) (now : ℕ) where
  pub fences-IsCompletable :
      validate_completion_fences command locked now ≡ ok tt → IsCompletable command locked now
  unfolding validate_completion_fences
  fences-IsCompletable h = record {
    same_run = ground arith;
    leased = ground arith;
    not_paused = ground arith;
    not_terminal = ground arith;
    version = ground arith;
    run_generation = ground arith;
    task_generation = ground arith;
    owner = ground arith;
    token = ground arith;
    expiry = ground arith;
    workflow = ground arith;
    coordinator = ground arith;
    checkpoint = ground arith;
  }

  IsCompletable-fences :
      locked.run.version < i64_bound
      → locked.run.execution_generation < i64_bound
      → unwrap_or locked.checkpoint_sequence 0 + 1 < i64_bound
      → IsCompletable command locked now
      → validate_completion_fences command locked now ≡ ok tt
  unfolding validate_completion_fences
  IsCompletable-fences hv hg hs f = ground arith

-- A completion passes its fences exactly when it names the task's run, the run is neither paused
-- nor terminal, its version is the one that the command expects, the lease is of the current
-- generation, the task is leased to this worker under this token until later than now, and the
-- checkpoint has the run's definition versions and the number after the run's current checkpoint,
-- or one if there is none. The run's counters are those of a 64-bit column.
pub completion_fences_iff :
    (command : CompleteTask) (locked : LockedCompletion) (now : ℕ)
    → locked.run.version < i64_bound
    → locked.run.execution_generation < i64_bound
    → unwrap_or locked.checkpoint_sequence 0 + 1 < i64_bound
    → (validate_completion_fences command locked now ≡ ok tt) ↔ IsCompletable command locked now
completion_fences_iff command locked now hv hg hs =
    (fences-IsCompletable command locked now, IsCompletable-fences command locked now hv hg hs)
