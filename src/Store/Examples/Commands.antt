-- ===== src/Store/Examples/Commands.antt =====
-- Single commands on the run, the claim and what follows it.
use agent_loom.Base.{
  ℕ, ◌≡◌, ◌↔◌, refl, none, some, [], arith, find_where, exists_where, keep_where, update_where, ◌<◌,
}
use agent_loom.Domain.Json.{null}
use agent_loom.Domain.Status.{TaskStatus, TaskKind}
use agent_loom.Store.Result.{StoreResult, ok}
use agent_loom.Store.Outcome.{
  ExpectedRun, LeaseProof, Committed, ClaimedTask, CommandDisposition, RunSnapshot,
}
use agent_loom.Store.Database.{Database, insert_event}
use agent_loom.Store.Fences.{
  LockedWorkerTask, lock_worker_task, validate_worker_fences, claimed_task,
}
use agent_loom.Store.Candidates.{lock_claim_candidate}
use agent_loom.Store.Idempotency.{again, claim_task-idempotent}
use agent_loom.Store.Idempotency.Runs.{execute_control-idempotent}
use agent_loom.Store.Claim.Lease.{IsClaimed, claim-fences}
use agent_loom.Store.Claim.{ClaimTask, map_option, claim_task, apply_claim}
use agent_loom.Store.Transition.{pause}
use agent_loom.Store.Control.{execute_control}
use agent_loom.Store.Examples.{
  value_of, first_run, first_task, first_tables, free, context_of, claiming, no_claim, claim_result,
  claimed_tables, claim_result-ok, stopping, no_control, pause_result, paused_tables,
  pause_result-ok,
}

claim_task-idempotent_example :
    claim_task claimed_tables free 3600 (context_of 1000) claiming 900
    ≡ ok (claimed_tables, map_option again (value_of no_claim claim_result).1)
claim_task-idempotent_example =
    claim_task-idempotent first_tables free free 3600 (context_of 1000) claiming 100 900
      claimed_tables (value_of no_claim claim_result).1 claim_result-ok

execute_control-idempotent_example :
    (repeated : Committed RunSnapshot) × (execute_control paused_tables 3600
        (context_of 1001)
        (stopping 2001)
        pause
        900
      ≡ ok (paused_tables, repeated))
    × (repeated.disposition ≡ CommandDisposition.duplicate)
    × (repeated.value ≡ (value_of no_control pause_result).1.value)
    × (repeated.event_ids ≡ (value_of no_control pause_result).1.event_ids)
    × (repeated.durable_follow_ups ≡ [])
execute_control-idempotent_example =
    execute_control-idempotent claimed_tables 3600 (context_of 1001) (stopping 2001) pause 200 900
      paused_tables (value_of no_control pause_result).1 pause_result-ok

-- What is locked for the claim.
abbrev first_locked : LockedWorkerTask
first_locked = record { run = first_run; task = first_task }

first_locked-found : lock_claim_candidate first_tables free 1 100 4 none ≡ some first_locked
unfolding lock_claim_candidate find_where exists_where keep_where
first_locked-found = refl

-- The claim without its receipt.
abbrev claim_change : StoreResult (Database × ClaimedTask × ℕ)
claim_change = apply_claim first_tables (context_of 1000) claiming 100 first_locked

abbrev pub no_task : ClaimedTask
no_task = record {
  task = record {
    tenant_id = 0;
    task_id = 0;
    run_id = 0;
    stage_execution_id = none;
    logical_key = 0;
    kind = TaskKind.model;
    status = TaskStatus.queued;
    generation = 0;
    attempt = 0;
    max_attempts = 0;
    available_at = 0;
    input = null;
  };
  run_version = 0;
  lease_expires_at = 0;
}

abbrev changed : Database × ClaimedTask × ℕ
changed = value_of (first_tables, no_task, 0) claim_change

claim_change-ok : claim_change ≡ ok (changed.0, changed.1, changed.2)
unfolding apply_claim insert_event claimed_task find_where exists_where update_where
claim_change-ok = refl

changed-until : 1099 < changed.1.lease_expires_at
unfolding apply_claim insert_event claimed_task find_where exists_where update_where
changed-until = omega arith

-- What the claim hands to the worker, as a later command of the worker shows it.
abbrev lease_of : ClaimTask → ClaimedTask → LeaseProof
lease_of command value = record {
  task_id = value.task.task_id;
  worker_id = command.worker_id;
  token = command.lease_token;
  execution_generation = value.task.generation;
}

abbrev expected_of : ClaimedTask → ExpectedRun
expected_of value = record {
  run_id = value.task.run_id;
  version = some value.run_version;
  execution_generation = none;
}

-- It is the claim's own, so it passes.
IsClaimed-passes :
    IsClaimed claiming changed.1 (expected_of changed.1) (lease_of claiming changed.1) 1099
IsClaimed-passes = record {
  worker = refl;
  token = refl;
  generation = refl;
  version = refl;
  run_generation = tt;
  time = changed-until;
}

claim-fences_example :
    (held : LockedWorkerTask) × (lock_worker_task changed.0 1
        (expected_of changed.1).run_id
        (lease_of claiming changed.1).task_id
      ≡ ok held)
    × ((validate_worker_fences (expected_of changed.1) (lease_of claiming changed.1) held 1099
          ≡ ok tt)
        ↔ IsClaimed claiming changed.1 (expected_of changed.1) (lease_of claiming changed.1) 1099)
claim-fences_example =
    claim-fences first_tables free (context_of 1000) claiming 100 first_locked (tt, tt) (tt, tt)
      first_locked-found claim_change-ok (expected_of changed.1) (lease_of claiming changed.1) 1099
      refl refl (omega arith)
