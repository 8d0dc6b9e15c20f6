-- ===== src/Store/Completion/Inserts.antt =====
-- transaction_executor.rs: the rows that a completion inserts, with the constraints of their
-- tables, and `apply_stage_mutation`. That the run, the task and the event of a row exist is known
-- from the rows locked and inserted before.
use text.Mathlib.Text.{◌==◌ as str_eq}
use agent_loom.Base.{
  ℕ, Bool, true, ◌&&◌, ◌||◌, not, Option, none, some, List, [], ◌∷◌, ◌++◌, ◌==◌, ltb, if◌then◌else◌,
  is_some, is_some_and, exists_where,
}
use agent_loom.Domain.Status.{TaskStatus, JoinPolicy, WaitStatus, is_terminal_stage}
use agent_loom.Domain.Plan.{is_active}
use agent_loom.Store.Result.{StoreErrorCode, StoreResult, ok, ◌>>=◌, ◌>>◌, reject_if, to_i64}
use agent_loom.Store.Rows.{TaskRow, StageRow, WaitRow, CheckpointRow}
use agent_loom.Store.Database.{Database}
use agent_loom.Store.Completion.{NewCheckpoint, NewTask, NewWaitSubscription, InitialStage}
use agent_loom.Store.Completion.Shape.{invalid_stage}

-- `fk_…__stage`: a stage that is named is one of the run's.
abbrev pub stage_is_known : Database → ℕ → ℕ → Option ℕ → Bool
stage_is_known db tenant_id run_id none = true
stage_is_known db tenant_id run_id (some stage_id) =
    exists_where
      (λ (s : StageRow).
        s.tenant_id == tenant_id && (s.run_id == run_id && s.stage_execution_id == stage_id))
      db.stages

abbrev pub new_checkpoint_row : ℕ → ℕ → ℕ → ℕ → NewCheckpoint → ℕ → ℕ → CheckpointRow
new_checkpoint_row tenant_id run_id event_id now checkpoint sequence generation = record {
  checkpoint_id = checkpoint.checkpoint_id;
  tenant_id = tenant_id;
  run_id = run_id;
  sequence = sequence;
  schema_version = checkpoint.schema_version;
  workflow_version_id = checkpoint.workflow_version_id;
  coordinator_agent_version_id = checkpoint.coordinator_agent_version_id;
  execution_generation = generation;
  state = checkpoint.state;
  state_digest = checkpoint.state_digest;
  created_event_id = event_id;
  created_at = now;
}

-- `insert_completion_checkpoint`.
unfoldable pub insert_completion_checkpoint :
    Database → ℕ → ℕ → ℕ → ℕ → NewCheckpoint → StoreResult Database
insert_completion_checkpoint db tenant_id run_id event_id now checkpoint = do
  sequence ← to_i64 checkpoint.sequence
  generation ← to_i64 checkpoint.execution_generation
  reject_if
      (exists_where
        (λ (c : CheckpointRow).
          c.checkpoint_id == checkpoint.checkpoint_id
          || (c.tenant_id == tenant_id && (c.run_id == run_id && c.sequence == sequence)))
        db.checkpoints)
      StoreErrorCode.constraint_violation
  reject_if (sequence == 0 || checkpoint.schema_version == 0) StoreErrorCode.constraint_violation
  ok (record db {
    checkpoints =
        db.checkpoints
        ++ new_checkpoint_row tenant_id run_id event_id now checkpoint sequence generation ∷ [];
  })

-- The row of a new task.
abbrev pub new_task_row : ℕ → ℕ → ℕ → NewTask → TaskStatus → ℕ → TaskRow
new_task_row tenant_id run_id now task status generation = record {
  tenant_id = tenant_id;
  task_id = task.task_id;
  run_id = run_id;
  stage_execution_id = task.stage_execution_id;
  logical_key = task.logical_key;
  kind = task.kind;
  status = status;
  generation = generation;
  priority = task.priority;
  attempt = 0;
  max_attempts = task.max_attempts;
  available_at = task.available_at;
  deadline = task.deadline;
  input = task.input;
  join_policy = JoinPolicy.all;
  result = none;
  lease_owner = none;
  lease_token = none;
  lease_expires_at = none;
  error_code = none;
  completed_at = none;
  updated_at = now;
}

-- `pk_tasks` and `uq_tasks__logical_generation`.
abbrev pub task_conflicts : ℕ → ℕ → NewTask → ℕ → TaskRow → Bool
task_conflicts tenant_id run_id task generation t =
    t.task_id == task.task_id
    || (t.tenant_id == tenant_id
        && (t.run_id == run_id
            && (t.logical_key == task.logical_key && t.generation == generation)))

-- `insert_new_task`.
unfoldable pub insert_new_task : Database → ℕ → ℕ → ℕ → NewTask → TaskStatus → StoreResult Database
insert_new_task db tenant_id run_id now task status = do
  generation ← to_i64 task.generation
  sequence ← to_i64 task.based_on_checkpoint_sequence
  reject_if (exists_where (task_conflicts tenant_id run_id task generation) db.tasks)
      StoreErrorCode.constraint_violation
  reject_if (not (stage_is_known db tenant_id run_id task.stage_execution_id))
      StoreErrorCode.constraint_violation
  reject_if
      (task.max_attempts == 0 || (sequence == 0 || is_some_and task.deadline (λ d. ltb d now)))
      StoreErrorCode.constraint_violation
  ok (record db {
    tasks = db.tasks ++ new_task_row tenant_id run_id now task status generation ∷ [];
  })

-- `pk_wait_subscriptions`, `uq_waits__active_slot` and `uq_waits__resume_task`.
abbrev pub wait_conflicts : ℕ → ℕ → NewWaitSubscription → WaitRow → Bool
wait_conflicts tenant_id run_id wait w =
    w.wait_id == wait.wait_id
    || (w.tenant_id == tenant_id
        && ((w.run_id == run_id
              && (str_eq w.wait_type wait.wait_type
                  && (str_eq w.expected_event_type wait.expected_event_type
                      && (w.match_key_hash == wait.match_key_hash && is_some w.active_slot))))
            || w.resume_task_id == wait.resume_task.task_id))

abbrev pub new_wait_row : ℕ → ℕ → ℕ → NewWaitSubscription → WaitRow
new_wait_row tenant_id run_id now wait = record {
  tenant_id = tenant_id;
  run_id = run_id;
  wait_id = wait.wait_id;
  wait_type = wait.wait_type;
  expected_event_type = wait.expected_event_type;
  match_key_hash = wait.match_key_hash;
  status = WaitStatus.open_wait;
  active_slot = some 1;
  expires_at = wait.expires_at;
  resume_task_id = wait.resume_task.task_id;
  created_at = now;
  updated_at = now;
}

-- `insert_new_wait`.
unfoldable pub insert_new_wait : Database → ℕ → ℕ → ℕ → NewWaitSubscription → StoreResult Database
insert_new_wait db tenant_id run_id now wait = do
  reject_if (exists_where (wait_conflicts tenant_id run_id wait) db.waits)
      StoreErrorCode.constraint_violation
  reject_if (not (stage_is_known db tenant_id run_id wait.stage_execution_id))
      StoreErrorCode.constraint_violation
  reject_if (wait.resume_task.max_attempts == 0 || is_some_and wait.expires_at (λ e. ltb e now))
      StoreErrorCode.constraint_violation
  ok (record db { waits = db.waits ++ new_wait_row tenant_id run_id now wait ∷ [] })

abbrev pub new_stage_row : ℕ → ℕ → ℕ → InitialStage → StageRow
new_stage_row tenant_id run_id now stage = record {
  tenant_id = tenant_id;
  run_id = run_id;
  stage_execution_id = stage.stage_execution_id;
  stage_key = stage.stage_key;
  status = stage.status;
  version = 0;
  attempt = stage.attempt;
  assignee_kind = stage.assignee_kind;
  assignee_ref = stage.assignee_ref;
  started_at = if is_active stage.status then some now else none;
  completed_at = none;
  updated_at = now;
}

-- `insert_initial_stage`: a stage that has ended would have no time of its end.
unfoldable pub insert_initial_stage : Database → ℕ → ℕ → ℕ → InitialStage → StoreResult Database
insert_initial_stage db tenant_id run_id now stage = do
  reject_if
      (exists_where
        (λ (s : StageRow).
          s.stage_execution_id == stage.stage_execution_id
          || (s.tenant_id == tenant_id
              && (s.run_id == run_id
                  && (s.stage_key == stage.stage_key && s.attempt == stage.attempt))))
        db.stages)
      StoreErrorCode.constraint_violation
  reject_if (invalid_stage stage || is_terminal_stage stage.status)
      StoreErrorCode.constraint_violation
  ok (record db { stages = db.stages ++ new_stage_row tenant_id run_id now stage ∷ [] })

-- `for stage in &command.new_stages`.
unfoldable pub insert_stages : Database → ℕ → ℕ → ℕ → List InitialStage → StoreResult Database
unfolding insert_initial_stage
insert_stages db tenant_id run_id now [] = ok db
insert_stages db tenant_id run_id now (stage ∷ stages) =
    insert_initial_stage db tenant_id run_id now stage
    >>= (λ inserted. insert_stages inserted tenant_id run_id now stages)
