-- ===== src/Store/Examples/Endings.antt =====
-- What ends or stops work on the run: a pause, a cancel, a failure.
use agent_loom.Base.{
  ℕ, ◌≡◌, refl, some, List, [], arith, inl, find_where, exists_where, keep_where, count_where,
  update_where, ◌↔◌,
}
use agent_loom.Store.Result.{StoreResult, StoreErrorCode, ok, err}
use agent_loom.Store.Rows.{TaskRow}
use agent_loom.Store.Outcome.{RunSnapshot, DurableFollowUp, LeaseProof}
use agent_loom.Store.Database.{Database, acquire_receipt, finish_receipt, insert_event, is_task}
use agent_loom.Store.Fences.{
  LockedWorkerTask, lock_worker_task, validate_worker_fences, claimed_task,
}
use agent_loom.Store.Candidates.{lock_claim_candidate}
use agent_loom.Store.Fences.Laws.{IsFenced, fences_iff}
use agent_loom.Store.Control.Fencing.{control-refuses_workers, cancel-ends_tasks, AllEnded}
use agent_loom.Store.Dependencies.{resolve_dependent_tasks}
use agent_loom.Store.Dependencies.Laws.{resolve-ends}
use agent_loom.Store.Fail.Outcome.{IsFailedTask, failure-finds}
use agent_loom.Store.Claim.{
  leased_row, claim_task, claim_under, claim_new, claim_locked, apply_claim,
}
use agent_loom.Store.Failure.{FailTask, classify}
use agent_loom.Store.Fail.{apply_failure, resolve_after_failure, close_if_terminal}
use agent_loom.Store.External.{
  request_external_stops, finalize_open_task_attempts, freeze_leased_tasks, cancel_run_children,
  mark_executing_tools_uncertain,
}
use agent_loom.Store.Transition.{pause, cancel, control_transition}
use agent_loom.Store.Control.{apply_control}
use agent_loom.Store.Examples.{
  value_of, no_pointer, first_task, first_tables, context_of, claiming, claimed_tables, claimed_run,
  expecting, no_snapshot, stopping,
}

abbrev pub claimed_row : TaskRow
claimed_row = leased_row claiming 1 1100 100 first_task

abbrev held : LockedWorkerTask
held = record { run = claimed_run; task = claimed_row }

abbrev pub proof : LeaseProof
proof = record { task_id = 20; worker_id = 5; token = 77; execution_generation = 1 }

held-locked : lock_worker_task claimed_tables 1 10 20 ≡ ok held
unfolding lock_worker_task claim_task acquire_receipt claim_under claim_new claim_locked
    lock_claim_candidate apply_claim finish_receipt insert_event claimed_task find_where
    exists_where keep_where count_where update_where
held-locked = refl

held-fenced : validate_worker_fences expecting proof held 200 ≡ ok tt
unfolding validate_worker_fences
held-fenced = refl

fences_iff_example :
    (validate_worker_fences expecting proof held 200 ≡ ok tt) ↔ IsFenced expecting proof held 200
fences_iff_example = fences_iff expecting proof held 200 (omega arith) (omega arith)

-- The pause without its receipt.
abbrev pub Controlled : Type 0
Controlled = Database × RunSnapshot × List DurableFollowUp

abbrev pub nothing : Controlled
nothing = (first_tables, no_snapshot, [])

abbrev pub pause_change : StoreResult Controlled
pause_change = apply_control claimed_tables (context_of 1001) (stopping 2001) pause 200 claimed_run

abbrev pub after_pause : Controlled
after_pause = value_of nothing pause_change

abbrev cancel_change : StoreResult Controlled
cancel_change =
    apply_control claimed_tables (context_of 1001) (stopping 2001) cancel 200 claimed_run

abbrev after_cancel : Controlled
after_cancel = value_of nothing cancel_change

pub pause_change-ok : pause_change ≡ ok (after_pause.0, after_pause.1, after_pause.2)
unfolding claim_task acquire_receipt claim_under claim_new claim_locked lock_claim_candidate
    apply_claim finish_receipt insert_event claimed_task find_where exists_where keep_where
    count_where update_where apply_control control_transition request_external_stops
    finalize_open_task_attempts freeze_leased_tasks
pause_change-ok = refl

cancel_change-ok : cancel_change ≡ ok (after_cancel.0, after_cancel.1, after_cancel.2)
unfolding claim_task acquire_receipt claim_under claim_new claim_locked lock_claim_candidate
    apply_claim finish_receipt insert_event claimed_task find_where exists_where keep_where
    count_where update_where apply_control control_transition request_external_stops
    finalize_open_task_attempts cancel_run_children mark_executing_tools_uncertain
cancel_change-ok = refl

-- What the worker finds after the pause.
abbrev stopped : LockedWorkerTask
stopped = value_of held (lock_worker_task after_pause.0 1 10 20)

stopped-locked : lock_worker_task after_pause.0 1 10 20 ≡ ok stopped
unfolding lock_worker_task claim_task acquire_receipt claim_under claim_new claim_locked
    lock_claim_candidate apply_claim finish_receipt insert_event claimed_task find_where
    exists_where keep_where count_where update_where apply_control control_transition
    request_external_stops finalize_open_task_attempts freeze_leased_tasks
stopped-locked = refl

control-refuses_workers_example :
    (e : StoreErrorCode) × (validate_worker_fences expecting proof stopped 300 ≡ err e)
control-refuses_workers_example =
    control-refuses_workers claimed_tables (context_of 1001) (stopping 2001) pause 200 300
      claimed_run after_pause.0 after_pause.1 after_pause.2 expecting proof stopped (inl refl)
      pause_change-ok refl stopped-locked

cancel-ends_tasks_example : AllEnded 1 10 after_cancel.0.tasks
cancel-ends_tasks_example =
    cancel-ends_tasks claimed_tables (context_of 1001) (stopping 2001) 200 claimed_run
      cancel_change-ok

abbrev pub failing : FailTask
failing = record {
  expected_run = expecting;
  lease = proof;
  failure_event_id = 2002;
  error_code = "model_unavailable";
  retry_at = some 500;
}

abbrev fail_change : StoreResult Controlled
fail_change = apply_failure no_pointer claimed_tables (context_of 1002) failing 200 held

abbrev after_failure : Controlled
after_failure = value_of nothing fail_change

fail_change-ok : fail_change ≡ ok (after_failure.0, after_failure.1, after_failure.2)
unfolding claim_task acquire_receipt claim_under claim_new claim_locked lock_claim_candidate
    apply_claim finish_receipt insert_event claimed_task find_where exists_where keep_where
    count_where update_where apply_failure resolve_after_failure resolve_dependent_tasks
    close_if_terminal classify
fail_change-ok = refl

failure-finds_example :
    (row : TaskRow) × (find_where (is_task 1 20) after_failure.0.tasks ≡ some row)
    × IsFailedTask failing 200 claimed_row row
failure-finds_example =
    failure-finds no_pointer claimed_tables (context_of 1002) failing 200 held held-locked
      held-fenced fail_change-ok

resolve-ends_example :
    (r : StoreResult (Database × List ℕ)) × (resolve_dependent_tasks no_pointer 1 10 200
        claimed_tables 20
      ≡ some r)
resolve-ends_example = resolve-ends no_pointer 1 10 200 claimed_tables 20
