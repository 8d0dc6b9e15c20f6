-- ===== src/Store/Examples.antt =====
-- A run with one task, and the commands of a worker and of an operator on it.
pub mod Traces
pub mod Commands
pub mod Endings
pub mod Completing
pub mod Repeats
pub mod JsonEntries
use Prim.Native.String.{String}
use agent_loom.Base.{
  ℕ, ◌≡◌, refl, true, false, Option, none, some, List, [], ◌∷◌, arith, inl, inr, find_where,
  exists_where, keep_where, count_where, update_where, ◌<◌, ◌↔◌, is_some,
}
use agent_loom.Domain.Json.{Value, Fields, null, number, object, end, field}
use agent_loom.Domain.Json.Equality.{get}
use agent_loom.Domain.Status.{RunStatus, TaskStatus, TaskKind, JoinPolicy}
use agent_loom.Store.Result.{StoreResult, StoreErrorCode, ok, err}
use agent_loom.Store.Rows.{RunRow, TaskRow}
use agent_loom.Store.Outcome.{
  Committed, ClaimedTask, CommandContext, CommandDisposition, RunSnapshot, DurableFollowUp,
  ExpectedRun, LeaseProof,
}
use agent_loom.Store.Database.{Database, acquire_receipt, finish_receipt, insert_event}
use agent_loom.Store.Fences.{
  LockedWorkerTask, lock_worker_task, validate_worker_fences, claimed_task,
}
use agent_loom.Store.Candidates.{Locks, lock_claim_candidate}
use agent_loom.Store.Machine.{Steps, Step, claim, control, done, then_step}
use agent_loom.Store.Machine.Invariant.{HasValidTasks, Steps-HasValidTasks}
use agent_loom.Store.Machine.Log.{IsLogged}
use agent_loom.Store.Machine.Runs.{RunsEvolve, Steps-RunsEvolve}
use agent_loom.Store.Claim.{
  running_row, ClaimTask, claim_task, claim_under, claim_new, claim_locked, apply_claim,
}
use agent_loom.Store.Failure.{FailTask}
use agent_loom.Store.Fail.{fail_task, apply_failure}
use agent_loom.Store.External.{
  request_external_stops, finalize_open_task_attempts, freeze_leased_tasks, cancel_run_children,
  mark_executing_tools_uncertain,
}
use agent_loom.Store.Transition.{
  ControlRun, pause, resume, cancel, control_transition, run_snapshot,
}
use agent_loom.Store.Control.{
  execute_control, apply_control, control_under, control_new, control_committed,
}

-- The value of a result that is known to be ok.
abbrev pub value_of {ℓ} : {A : Type ℓ} → A → StoreResult A → A
value_of a (ok b) = b
value_of a (err e) = a

abbrev pub no_pointer : Value → String → Option Value
no_pointer v s = none

abbrev pub first_run : RunRow
first_run = record {
  tenant_id = 1;
  run_id = 10;
  workflow_version_id = none;
  coordinator_agent_version_id = none;
  status = RunStatus.queued;
  suspended_from_status = none;
  version = 1;
  execution_generation = 1;
  next_event_sequence = 5;
  current_checkpoint_id = none;
  state_summary = null;
  resume_blocked_reason = none;
  terminal_event_id = none;
  terminal_at = none;
  deadline = none;
  updated_at = 0;
}

abbrev pub first_task : TaskRow
first_task = record {
  tenant_id = 1;
  task_id = 20;
  run_id = 10;
  stage_execution_id = none;
  logical_key = 7;
  kind = TaskKind.model;
  status = TaskStatus.queued;
  generation = 1;
  priority = 3;
  attempt = 0;
  max_attempts = 1;
  available_at = 50;
  deadline = none;
  input = null;
  join_policy = JoinPolicy.all;
  result = none;
  lease_owner = none;
  lease_token = none;
  lease_expires_at = none;
  error_code = none;
  completed_at = none;
  updated_at = 0;
}

abbrev pub first_tables : Database
first_tables = record {
  runs = first_run ∷ [];
  tasks = first_task ∷ [];
  attempts = [];
  stages = [];
  waits = [];
  agents = [];
  tools = [];
  dependencies = [];
  checkpoints = [];
  artifacts = [];
  events = [];
  outbox = [];
  receipts = [];
}

abbrev pub free : Locks
free = record { run = λ r. false; task = λ t. false }

abbrev pub context_of : ℕ → CommandContext
context_of id = record {
  tenant_id = 1;
  command_id = id;
  correlation_id = 1;
  scope = 1;
  idempotency_key = id;
  request_hash = 99;
}

abbrev pub claiming : ClaimTask
claiming = record {
  worker_id = 5;
  lease_token = 77;
  lease_duration = 1000;
  candidate_window = 4;
  kind = none;
}

abbrev pub no_claim : Database × Option (Committed ClaimedTask)
no_claim = (first_tables, none)

-- A claim at 100.
abbrev pub claim_result : StoreResult (Database × Option (Committed ClaimedTask))
claim_result = claim_task first_tables free 3600 (context_of 1000) claiming 100

abbrev pub claimed_tables : Database
claimed_tables = (value_of no_claim claim_result).0

pub claim_result-ok : claim_result ≡ ok (value_of no_claim claim_result)
unfolding claim_task acquire_receipt claim_under claim_new claim_locked lock_claim_candidate
    apply_claim finish_receipt insert_event claimed_task find_where exists_where keep_where
    count_where
claim_result-ok = refl

-- The run as it is claimed.
abbrev pub claimed_run : RunRow
claimed_run = running_row 100 first_run

abbrev pub expecting : ExpectedRun
expecting = record { run_id = 10; version = some 2; execution_generation = some 1 }

abbrev pub no_snapshot : RunSnapshot
no_snapshot = run_snapshot first_run

-- A pause at 200.
abbrev pub stopping : ℕ → ControlRun
stopping id = record { expected_run = expecting; event_id = id; has_reason = true }

abbrev pub no_control : Database × Committed RunSnapshot
no_control = (first_tables, control_committed CommandDisposition.no_op no_snapshot none [])

abbrev pub pause_result : StoreResult (Database × Committed RunSnapshot)
pause_result = execute_control claimed_tables 3600 (context_of 1001) (stopping 2001) pause 200

abbrev pub paused_tables : Database
paused_tables = (value_of no_control pause_result).0

pub pause_result-ok : pause_result ≡ ok (value_of no_control pause_result)
unfolding claim_task acquire_receipt claim_under claim_new claim_locked lock_claim_candidate
    apply_claim finish_receipt insert_event claimed_task find_where exists_where keep_where
    count_where update_where execute_control control_under control_new apply_control
    control_transition request_external_stops finalize_open_task_attempts freeze_leased_tasks
pause_result-ok = refl
