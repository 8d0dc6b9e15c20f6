-- ===== src/Store/Fences/Laws.antt =====
-- What the fences of a worker's command let through.
use agent_loom.Base.{ℕ, ◌<◌, ◌≡◌, ◌↔◌, false, Option, none, some, arith}
use agent_loom.Domain.Status.{is_terminal_run, is_paused, TaskStatus}
use agent_loom.Store.Result.{ok, i64_bound}
use agent_loom.Store.Outcome.{ExpectedRun, LeaseProof}
use agent_loom.Store.Fences.{LockedWorkerTask, validate_worker_fences}

-- An expectation that a command carries, where it carries one.
abbrev pub Agrees : Option ℕ → ℕ → Type 0
Agrees none actual = Unit {0}
Agrees (some expected) actual = expected ≡ actual

-- All that a worker must show before a command of its own changes a task.
pub record IsFenced (expected : ExpectedRun) (lease : LeaseProof) (locked : LockedWorkerTask)
    (now : ℕ) : Type 0 where
  pub same_run : locked.task.run_id ≡ expected.run_id
  pub leased : locked.task.status ≡ TaskStatus.leased
  pub not_paused : is_paused locked.run.status ≡ false
  pub not_terminal : is_terminal_run locked.run.status ≡ false
  pub version : Agrees expected.version locked.run.version
  pub generation : Agrees expected.execution_generation locked.run.execution_generation
  pub run_generation : lease.execution_generation ≡ locked.run.execution_generation
  pub task_generation : lease.execution_generation ≡ locked.task.generation
  pub owner : locked.task.lease_owner ≡ some lease.worker_id
  pub token : locked.task.lease_token ≡ some lease.token
  pub expiry : (t : ℕ) × (locked.task.lease_expires_at ≡ some t) × (now < t)

module _ (expected : ExpectedRun) (lease : LeaseProof) (locked : LockedWorkerTask) (now : ℕ) where
  pub fences-IsFenced :
      validate_worker_fences expected lease locked now ≡ ok tt → IsFenced expected lease locked now
  unfolding validate_worker_fences
  fences-IsFenced h = record {
    same_run = ground arith;
    leased = ground arith;
    not_paused = ground arith;
    not_terminal = ground arith;
    version = ground arith;
    generation = ground arith;
    run_generation = ground arith;
    task_generation = ground arith;
    owner = ground arith;
    token = ground arith;
    expiry = ground arith;
  }

  pub IsFenced-fences :
      locked.run.version < i64_bound
      → locked.run.execution_generation < i64_bound
      → IsFenced expected lease locked now
      → validate_worker_fences expected lease locked now ≡ ok tt
  unfolding validate_worker_fences
  IsFenced-fences hv hg f = ground arith

-- A worker's command passes the fences exactly when it names the task's run, the run is neither
-- paused nor terminal, its version and generation are those that the command expects, the lease is
-- of the current generation, and the task is leased to this worker under this token until later
-- than now. The run's counters are those of a 64-bit column.
pub fences_iff :
    (expected : ExpectedRun) (lease : LeaseProof) (locked : LockedWorkerTask) (now : ℕ)
    → locked.run.version < i64_bound
    → locked.run.execution_generation < i64_bound
    → (validate_worker_fences expected lease locked now ≡ ok tt)
      ↔ IsFenced expected lease locked now
fences_iff expected lease locked now hv hg =
    (fences-IsFenced expected lease locked now, IsFenced-fences expected lease locked now hv hg)
