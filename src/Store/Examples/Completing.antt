-- ===== src/Store/Examples/Completing.antt =====
-- The completion of the claimed task, and what comes after it.
use agent_loom.Base.{
  ◌≡◌, ◌↔◌, ◌+◌, ◌≤◌, ℕ, Option, refl, some, none, List, [], ◌∷◌, arith, inl, find_where,
  exists_where, keep_where, count_where, update_where,
}
use agent_loom.Domain.Status.{StageStatus, TaskKind}
use agent_loom.Domain.Json.{null}
use agent_loom.Store.Result.{StoreResult, StoreErrorCode, ok, err}
use agent_loom.Store.Rows.{StageRow, TaskRow}
use agent_loom.Store.Outcome.{
  ClaimedTask, RunSnapshot, DurableFollowUp, Committed, CommandDisposition,
}
use agent_loom.Store.Database.{Database, acquire_receipt, finish_receipt, insert_event, is_task}
use agent_loom.Store.Fences.{LockedWorkerTask, claimed_task}
use agent_loom.Store.Candidates.{lock_claim_candidate}
use agent_loom.Store.Dependencies.{resolve_dependent_tasks, resolve_loop, resolve_rows, order_by_id}
use agent_loom.Store.Claim.{claim_task, claim_under, claim_new, claim_locked, apply_claim}
use agent_loom.Store.External.{
  request_external_stops, finalize_open_task_attempts, freeze_leased_tasks,
}
use agent_loom.Store.Transition.{pause, control_transition}
use agent_loom.Store.Control.{apply_control}
use agent_loom.Store.Control.Fencing.{control-refuses_completions}
use agent_loom.Store.Completion.{CompleteTask, NextActions}
use agent_loom.Store.Completion.Shape.{validate_completion_shape}
use agent_loom.Store.Completion.Fences.{
  LockedCompletion, lock_completion, validate_completion_fences,
}
use agent_loom.Store.Completion.FenceLaws.{IsCompletable, completion_fences_iff}
use agent_loom.Store.Completion.Inserts.{
  insert_completion_checkpoint, insert_stages, insert_new_task,
}
use agent_loom.Store.Completion.Stages.{
  apply_stage_mutation, apply_stage_mutations, insert_artifact_refs,
}
use agent_loom.Store.Completion.Actions.{
  apply_next_actions, insert_next, insert_new_tasks, next_transition,
}
use agent_loom.Store.Completion.Finish.{finalize_task, update_completed_run}
use agent_loom.Store.Completion.Commit.{
  record_completion, resolve_completed, apply_structure, commit_completion, apply_completion,
  complete_new, complete_under, complete_task,
}
use agent_loom.Store.Completion.Outcome.{
  IsSucceededTask, completion-finds, completion-keeps_stages, is_stage,
}
use agent_loom.Store.Completion.Checkpoints.{no_claims, then_claim, completion-numbers}
use agent_loom.Store.Idempotency.Completions.{complete_task-idempotent}
use agent_loom.Store.Examples.{
  value_of, free, claiming, no_pointer, first_tables, context_of, claimed_tables, claimed_run,
  expecting, no_snapshot, no_control, stopping,
}
use agent_loom.Store.Examples.Commands.{no_task}
use agent_loom.Store.Examples.Endings.{claimed_row, proof, after_pause, pause_change-ok}

-- A stage that has ended.
abbrev ended_stage : StageRow
ended_stage = record {
  tenant_id = 1;
  run_id = 10;
  stage_execution_id = 60;
  stage_key = 61;
  status = StageStatus.succeeded;
  version = 4;
  attempt = 1;
  assignee_kind = none;
  assignee_ref = none;
  started_at = some 10;
  completed_at = some 90;
  updated_at = 90;
}

abbrev staged_tables : Database
staged_tables = record claimed_tables { stages = ended_stage ∷ [] }

-- The first checkpoint, and one more task.
abbrev completing : CompleteTask
completing = record {
  expected_run = expecting;
  lease = proof;
  completion_event_id = 2100;
  checkpoint = record {
    checkpoint_id = 500;
    sequence = 1;
    schema_version = 1;
    workflow_version_id = none;
    coordinator_agent_version_id = none;
    execution_generation = 1;
    state = null;
    state_digest = 9;
    created_event_id = 2100;
  };
  task_result = null;
  stage_mutation = none;
  additional_stage_mutations = [];
  new_stages = [];
  artifacts = [];
  next = NextActions.tasks (
      record {
        task_id = 21;
        stage_execution_id = none;
        logical_key = 8;
        kind = TaskKind.model;
        generation = 1;
        based_on_checkpoint_sequence = 1;
        priority = 3;
        available_at = 200;
        max_attempts = 2;
        input = null;
        deadline = none;
        created_event_id = 2100;
      }
      ∷ []);
}

abbrev locked : LockedCompletion
locked = record { run = claimed_run; task = claimed_row; checkpoint_sequence = none }

locked-ok : lock_completion staged_tables 1 10 20 ≡ ok locked
unfolding lock_completion claim_task acquire_receipt claim_under claim_new claim_locked
    lock_claim_candidate apply_claim finish_receipt insert_event claimed_task find_where
    exists_where keep_where count_where update_where
locked-ok = refl

locked-fenced : validate_completion_fences completing locked 200 ≡ ok tt
unfolding validate_completion_fences
locked-fenced = refl

completion_fences_iff_example :
    (validate_completion_fences completing locked 200 ≡ ok tt) ↔ IsCompletable completing locked 200
completion_fences_iff_example =
    completion_fences_iff completing locked 200 (omega arith) (omega arith) (omega arith)

abbrev Completed : Type 0
Completed = Database × RunSnapshot × List DurableFollowUp

abbrev completion : StoreResult Completed
completion = apply_completion no_pointer staged_tables (context_of 1100) completing 200 locked

abbrev completed : Completed
completed = value_of (first_tables, no_snapshot, []) completion

completion-ok : completion ≡ ok (completed.0, completed.1, completed.2)
unfolding claim_task acquire_receipt claim_under claim_new claim_locked lock_claim_candidate
    apply_claim finish_receipt insert_event claimed_task find_where exists_where keep_where
    count_where update_where apply_completion record_completion resolve_completed
    resolve_dependent_tasks resolve_loop resolve_rows order_by_id apply_structure commit_completion
    finalize_task update_completed_run insert_completion_checkpoint apply_stage_mutation
    apply_stage_mutations insert_stages insert_artifact_refs apply_next_actions insert_next
    insert_new_tasks insert_new_task next_transition
completion-ok = refl

completion-finds_example :
    (row : TaskRow) × (find_where (is_task 1 20) completed.0.tasks ≡ some row)
    × IsSucceededTask completing 200 claimed_row row
completion-finds_example =
    completion-finds no_pointer staged_tables (context_of 1100) completing 200 locked locked-ok
      locked-fenced completion-ok

staged_found : find_where (is_stage 1 10 60) staged_tables.stages ≡ some ended_stage
unfolding find_where
staged_found = refl

completion-keeps_stages_example :
    find_where (is_stage 1 10 60) completed.0.stages ≡ some ended_stage
completion-keeps_stages_example =
    completion-keeps_stages no_pointer staged_tables (context_of 1100) completing 200 locked 60
      ended_stage staged_found refl completion-ok

-- The task that the completion added is claimed, and its worker goes on to complete it.
abbrev candidate : Option LockedWorkerTask
candidate = lock_claim_candidate completed.0 free 1 300 4 none

abbrev next_candidate : LockedWorkerTask
next_candidate = elim candidate [
  | none ↦ record { run = claimed_run; task = claimed_row }
  | some found ↦ found
]

abbrev next_claim : StoreResult (Database × ClaimedTask × ℕ)
next_claim = apply_claim completed.0 (context_of 1200) claiming 300 next_candidate

abbrev next_claimed : Database × ClaimedTask × ℕ
next_claimed = value_of (first_tables, no_task, 0) next_claim

next_claim-ok : next_claim ≡ ok (next_claimed.0, next_claimed.1, next_claimed.2)
unfolding claim_task acquire_receipt claim_under claim_new claim_locked lock_claim_candidate
    apply_claim finish_receipt insert_event claimed_task find_where exists_where keep_where
    count_where update_where apply_completion record_completion resolve_completed
    resolve_dependent_tasks resolve_loop resolve_rows order_by_id apply_structure commit_completion
    finalize_task update_completed_run insert_completion_checkpoint apply_stage_mutation
    apply_stage_mutations insert_stages insert_artifact_refs apply_next_actions insert_next
    insert_new_tasks insert_new_task next_transition
next_claim-ok = refl

abbrev relocked : LockedCompletion
relocked = value_of locked (lock_completion next_claimed.0 1 10 21)

relocked-ok : lock_completion next_claimed.0 1 10 21 ≡ ok relocked
unfolding claim_task acquire_receipt claim_under claim_new claim_locked lock_claim_candidate
    apply_claim finish_receipt insert_event claimed_task find_where exists_where keep_where
    count_where update_where apply_completion record_completion resolve_completed
    resolve_dependent_tasks resolve_loop resolve_rows order_by_id apply_structure commit_completion
    finalize_task update_completed_run insert_completion_checkpoint apply_stage_mutation
    apply_stage_mutations insert_stages insert_artifact_refs apply_next_actions insert_next
    insert_new_tasks insert_new_task next_transition lock_completion
relocked-ok = refl

completion-numbers_example :
    (relocked.checkpoint_sequence ≡ some (0 + 1)) × (claimed_run.version + 1 ≤ relocked.run.version)
completion-numbers_example =
    completion-numbers no_pointer staged_tables (context_of 1100) completing 200 locked completed.0
      completed.1 completed.2 next_claimed.0 21 relocked locked-ok locked-fenced completion-ok
      (then_claim (context_of 1200) claiming 300 next_candidate no_claims next_claim-ok) relocked-ok

-- The whole command.
abbrev completing_result : StoreResult (Database × Committed RunSnapshot)
completing_result = complete_task no_pointer claimed_tables 3600 (context_of 1100) completing 200

abbrev answered : Database × Committed RunSnapshot
answered = value_of no_control completing_result

answered-ok : completing_result ≡ ok (answered.0, answered.1)
unfolding claim_task acquire_receipt claim_under claim_new claim_locked lock_claim_candidate
    apply_claim finish_receipt insert_event claimed_task find_where exists_where keep_where
    count_where update_where apply_completion record_completion resolve_completed
    resolve_dependent_tasks resolve_loop resolve_rows order_by_id apply_structure commit_completion
    finalize_task update_completed_run insert_completion_checkpoint apply_stage_mutation
    apply_stage_mutations insert_stages insert_artifact_refs apply_next_actions insert_next
    insert_new_tasks insert_new_task next_transition complete_task validate_completion_shape
    complete_under complete_new lock_completion validate_completion_fences
answered-ok = refl

complete_task-idempotent_example :
    (repeated : Committed RunSnapshot) × (complete_task no_pointer answered.0 3600
        (context_of 1100)
        completing
        900
      ≡ ok (answered.0, repeated))
    × (repeated.disposition ≡ CommandDisposition.duplicate)
    × (repeated.value ≡ answered.1.value)
    × (repeated.event_ids ≡ answered.1.event_ids)
    × (repeated.durable_follow_ups ≡ [])
complete_task-idempotent_example =
    complete_task-idempotent no_pointer claimed_tables 3600 (context_of 1100) completing 200 900
      answered.0 answered.1 answered-ok

-- What the worker finds after a pause.
abbrev stopped_completion : LockedCompletion
stopped_completion = value_of locked (lock_completion after_pause.0 1 10 20)

stopped_completion-ok : lock_completion after_pause.0 1 10 20 ≡ ok stopped_completion
unfolding lock_completion claim_task acquire_receipt claim_under claim_new claim_locked
    lock_claim_candidate apply_claim finish_receipt insert_event claimed_task find_where
    exists_where keep_where count_where update_where apply_control control_transition
    request_external_stops finalize_open_task_attempts freeze_leased_tasks
stopped_completion-ok = refl

control-refuses_completions_example :
    (e : StoreErrorCode) × (validate_completion_fences completing stopped_completion 300 ≡ err e)
control-refuses_completions_example =
    control-refuses_completions claimed_tables (context_of 1001) (stopping 2001) pause 200 300
      claimed_run after_pause.0 after_pause.1 after_pause.2 completing stopped_completion (inl refl)
      pause_change-ok refl stopped_completion-ok
