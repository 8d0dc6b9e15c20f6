-- ===== src/Store/Examples/Repeats.antt =====
-- A renewal, a reclamation and a failure, each sent twice; and a worker whose lease is reclaimed.
use agent_loom.Domain.Status.{TaskStatus, TaskKind}
use agent_loom.Base.{
  ◌≡◌, refl, some, none, Option, IsKeyed, [], find_where, exists_where, keep_where, count_where,
  update_where,
}
use agent_loom.Domain.Json.{null}
use agent_loom.Store.Result.{StoreResult, StoreErrorCode, ok, err}
use agent_loom.Store.Rows.{TaskRow}
use agent_loom.Store.Outcome.{
  RunSnapshot, Committed, ClaimedTask, CommandDisposition, LeaseReclaimOutcome,
}
use agent_loom.Store.Database.{Database, acquire_receipt, finish_receipt, insert_event, is_task}
use agent_loom.Store.Fences.{
  LockedWorkerTask, lock_worker_task, validate_worker_fences, claimed_task,
}
use agent_loom.Store.Candidates.{lock_claim_candidate}
use agent_loom.Store.Dependencies.{resolve_dependent_tasks}
use agent_loom.Store.Claim.{
  map_option, claim_task, claim_under, claim_new, claim_locked, apply_claim,
}
use agent_loom.Store.Failure.{classify}
use agent_loom.Store.Fail.{
  fail_task, fail_under, fail_new, apply_failure, resolve_after_failure, close_if_terminal,
}
use agent_loom.Store.Examples.{
  value_of, no_pointer, no_control, first_tables, context_of, claimed_tables, claimed_run,
  expecting,
}
use agent_loom.Store.Examples.Endings.{claimed_row, proof, failing}
use agent_loom.Store.Idempotency.Renewals.{renew_task_lease-idempotent}
use agent_loom.Store.Idempotency.Reclaims.{reclaim_expired_lease-idempotent}
use agent_loom.Store.Idempotency.Failures.{fail_task-idempotent}
use agent_loom.Store.Idempotency.{again}
use agent_loom.Store.Reclaim.Fencing.{reclaim-refuses_worker}
use agent_loom.Store.Renew.{RenewTaskLease, renew_task_lease, renew_under, renew_new, extend_lease}
use agent_loom.Store.Expiry.{first_expired, is_expired_lease}
use agent_loom.Store.Reclaim.{
  reclaim_expired_lease, reclaim_under, reclaim_new, reclaim_candidate, reclaim_locked,
  reclaim_applied, apply_reclaim,
}

abbrev renewing : RenewTaskLease
renewing = record { expected_run = expecting; lease = proof; extension = 500 }

abbrev renewed : StoreResult (Database × Committed ClaimedTask)
renewed = renew_task_lease claimed_tables 3600 (context_of 1003) renewing 200

abbrev no_claimed_task : ClaimedTask
no_claimed_task = record {
  task = record {
    tenant_id = 0;
    task_id = 0;
    run_id = 0;
    stage_execution_id = none;
    logical_key = 0;
    kind = TaskKind.model;
    status = TaskStatus.queued;
    generation = 0;
    attempt = 0;
    max_attempts = 0;
    available_at = 0;
    input = null;
  };
  run_version = 0;
  lease_expires_at = 0;
}

abbrev no_renewal : Database × Committed ClaimedTask
no_renewal = (
  first_tables,
  record {
    disposition = CommandDisposition.no_op;
    value = no_claimed_task;
    event_ids = [];
    durable_follow_ups = [];
    post_commit_hints = [];
  },
)

abbrev renewal : Database × Committed ClaimedTask
renewal = value_of no_renewal renewed

renewed-ok : renewed ≡ ok (renewal.0, renewal.1)
unfolding claim_task acquire_receipt claim_under claim_new claim_locked lock_claim_candidate
    apply_claim finish_receipt insert_event claimed_task find_where exists_where keep_where
    count_where update_where renew_task_lease renew_under renew_new extend_lease lock_worker_task
    validate_worker_fences
renewed-ok = refl

renew_task_lease-idempotent_example :
    renew_task_lease renewal.0 3600 (context_of 1003) renewing 900 ≡ ok (renewal.0, again renewal.1)
renew_task_lease-idempotent_example =
    renew_task_lease-idempotent claimed_tables 3600 (context_of 1003) renewing 200 900 renewal.0
      renewal.1 renewed-ok

abbrev reclaimed : StoreResult (Database × Option (Committed LeaseReclaimOutcome))
reclaimed = reclaim_expired_lease claimed_tables 3600 (context_of 1004) 2004 2000

abbrev reclamation : Database × Option (Committed LeaseReclaimOutcome)
reclamation = value_of (first_tables, none) reclaimed

reclaimed-ok : reclaimed ≡ ok (reclamation.0, reclamation.1)
unfolding claim_task acquire_receipt claim_under claim_new claim_locked lock_claim_candidate
    apply_claim finish_receipt insert_event claimed_task find_where exists_where keep_where
    count_where update_where reclaim_expired_lease reclaim_under reclaim_new reclaim_candidate
    reclaim_locked reclaim_applied apply_reclaim first_expired is_expired_lease
reclaimed-ok = refl

reclaim_expired_lease-idempotent_example :
    reclaim_expired_lease reclamation.0 3600 (context_of 1004) 2004 9000
    ≡ ok (reclamation.0, map_option again reclamation.1)
reclaim_expired_lease-idempotent_example =
    reclaim_expired_lease-idempotent claimed_tables 3600 (context_of 1004) 2004 2000 9000
      reclamation.0 reclamation.1 reclaimed-ok

abbrev failed_result : StoreResult (Database × Committed RunSnapshot)
failed_result = fail_task no_pointer claimed_tables 3600 (context_of 1002) failing 200

abbrev failure : Database × Committed RunSnapshot
failure = value_of no_control failed_result

failed_result-ok : failed_result ≡ ok (failure.0, failure.1)
unfolding claim_task acquire_receipt claim_under claim_new claim_locked lock_claim_candidate
    apply_claim finish_receipt insert_event claimed_task find_where exists_where keep_where
    count_where update_where fail_task fail_under fail_new apply_failure resolve_after_failure
    resolve_dependent_tasks close_if_terminal classify lock_worker_task validate_worker_fences
failed_result-ok = refl

fail_task-idempotent_example :
    (repeated : Committed RunSnapshot) × (fail_task no_pointer failure.0 3600
        (context_of 1002)
        failing
        900
      ≡ ok (failure.0, repeated))
    × (repeated.disposition ≡ CommandDisposition.duplicate)
    × (repeated.value ≡ failure.1.value)
    × (repeated.event_ids ≡ failure.1.event_ids)
    × (repeated.durable_follow_ups ≡ [])
fail_task-idempotent_example =
    fail_task-idempotent no_pointer claimed_tables 3600 (context_of 1002) failing 200 900 failure.0
      failure.1 failed_result-ok

-- The reclamation without its receipt, and what the old worker finds.
abbrev reclaim_change : StoreResult Database
reclaim_change = apply_reclaim claimed_tables (context_of 1004) 2004 2000 claimed_run claimed_row

abbrev after_reclaim : Database
after_reclaim = value_of first_tables reclaim_change

abbrev late : LockedWorkerTask
late =
    value_of (record { run = claimed_run; task = claimed_row })
      (lock_worker_task after_reclaim 1 10 20)

reclaim_change-ok : reclaim_change ≡ ok after_reclaim
unfolding claim_task acquire_receipt claim_under claim_new claim_locked lock_claim_candidate
    apply_claim finish_receipt insert_event claimed_task find_where exists_where keep_where
    count_where update_where apply_reclaim
reclaim_change-ok = refl

claimed_row-found : find_where (is_task 1 20) claimed_tables.tasks ≡ some claimed_row
unfolding claim_task acquire_receipt claim_under claim_new claim_locked lock_claim_candidate
    apply_claim finish_receipt insert_event claimed_task find_where exists_where keep_where
    count_where update_where
claimed_row-found = refl

claimed_tables-IsKeyed :
    IsKeyed (λ (t : TaskRow). t.tenant_id) (λ t. t.task_id) claimed_tables.tasks
unfolding claim_task acquire_receipt claim_under claim_new claim_locked lock_claim_candidate
    apply_claim finish_receipt insert_event claimed_task find_where exists_where keep_where
    count_where update_where
claimed_tables-IsKeyed = (tt, tt)

late-locked : lock_worker_task after_reclaim 1 10 20 ≡ ok late
unfolding claim_task acquire_receipt claim_under claim_new claim_locked lock_claim_candidate
    apply_claim finish_receipt insert_event claimed_task find_where exists_where keep_where
    count_where update_where apply_reclaim lock_worker_task
late-locked = refl

reclaim-refuses_worker_example :
    (e : StoreErrorCode) × (validate_worker_fences expecting proof late 2001 ≡ err e)
reclaim-refuses_worker_example =
    reclaim-refuses_worker claimed_tables (context_of 1004) 2004 2000 2001 10 claimed_run
      claimed_row (is_task 1 20) after_reclaim expecting proof late claimed_tables-IsKeyed
      claimed_row-found refl refl refl reclaim_change-ok late-locked
