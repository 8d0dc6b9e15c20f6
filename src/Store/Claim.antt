-- ===== src/Store/Claim.antt =====
-- transaction_executor.rs: `claim_task`.
pub mod Laws
pub mod Lease
use agent_loom.Base.{
  ℕ, ◌+◌, Bool, true, false, ◌&&◌, ◌||◌, Option, none, some, List, [], ◌∷◌, ◌++◌, ◌==◌,
  exists_where, update_where,
}
use agent_loom.Domain.Status.{RunStatus, TaskStatus, StageStatus, TaskKind}
use agent_loom.Store.Result.{
  StoreErrorCode, StoreResult, ok, err, ◌>>=◌, ◌>>◌, reject_if, ok_or, to_i64, checked_add,
}
use agent_loom.Store.Rows.{RunRow, TaskRow, StageRow, AttemptRow}
use agent_loom.Store.Outcome.{
  ClaimedTask, Committed, CommandContext, CommandDisposition, ReceiptOutcome, OutcomeKind,
  run_events_available, invalidate_run_cache,
}
use agent_loom.Store.Database.{
  Database, ExistingReceipt, ReceiptGuard, acquired, existing, acquire_receipt, finish_receipt,
  insert_event, event_row, is_run, is_task,
}
use agent_loom.Store.Fences.{LockedWorkerTask, claimed_task, positive_u32}
use agent_loom.Store.Candidates.{Locks, lock_claim_candidate}

pub record ClaimTask : Type 0 where
  pub worker_id : ℕ
  pub lease_token : ℕ
  pub lease_duration : ℕ
  pub candidate_window : ℕ
  pub kind : Option TaskKind

-- SET of the task's UPDATE.
abbrev pub leased_row : ClaimTask → ℕ → ℕ → ℕ → TaskRow → TaskRow
leased_row command attempt lease_expires_at now t = record t {
  status = TaskStatus.leased;
  attempt = attempt;
  lease_owner = some command.worker_id;
  lease_token = some command.lease_token;
  lease_expires_at = some lease_expires_at;
  updated_at = now;
}

abbrev pub is_planned_stage : StageStatus → Bool
is_planned_stage StageStatus.planned = true
is_planned_stage _ = false

-- The first claim of a planned stage activates it.
activate_stage : Database → ℕ → ℕ → Option ℕ → ℕ → Database
activate_stage db tenant_id run_id none now = db
activate_stage db tenant_id run_id (some stage_id) now = record db {
  stages =
      update_where
        (λ (s : StageRow).
          s.tenant_id == tenant_id
          && (s.run_id == run_id
              && (s.stage_execution_id == stage_id && is_planned_stage s.status)))
        (λ s. record s {
          status = StageStatus.active;
          version = s.version + 1;
          started_at = some now;
          updated_at = now;
        })
        db.stages;
}

-- INSERT INTO task_attempts, with `uq_task_attempts__number`. The attempt's own id and the digest of
-- the token are left out: both are computed from columns that are kept, and nothing reads them.
insert_attempt : Database → AttemptRow → StoreResult Database
insert_attempt db a = do
  reject_if
      (exists_where
        (λ (o : AttemptRow).
          o.tenant_id == a.tenant_id && (o.task_id == a.task_id && o.attempt == a.attempt))
        db.attempts)
      StoreErrorCode.constraint_violation
  ok (record db { attempts = db.attempts ++ a ∷ [] })

-- A bigint column that an UPDATE increments: past its range the statement fails.
unfoldable pub sql_add : ℕ → ℕ → StoreResult ℕ
unfolding checked_add
sql_add a b = ok_or (checked_add a b) StoreErrorCode.store_unavailable

-- SET of the run's UPDATE.
abbrev pub running_row : ℕ → RunRow → RunRow
running_row now r = record r {
  status = RunStatus.running;
  version = r.version + 1;
  next_event_sequence = r.next_event_sequence + 1;
  updated_at = now;
}

-- The body of `claim_task` once a candidate is locked.
unfoldable pub apply_claim :
    Database
    → CommandContext
    → ClaimTask
    → ℕ
    → LockedWorkerTask
    → StoreResult (Database × ClaimedTask × ℕ)
unfolding activate_stage insert_attempt sql_add checked_add to_i64 positive_u32
apply_claim db context command now locked = do
  positive_u32 locked.task.max_attempts >>= λ _. ok tt
  attempt ← ok_or (checked_add locked.task.attempt 1) StoreErrorCode.constraint_violation
  lease_duration ← to_i64 command.lease_duration
  lease_expires_at ← ok_or (checked_add now lease_duration) StoreErrorCode.constraint_violation
  let tasks =
      update_where (is_task context.tenant_id locked.task.task_id)
        (leased_row command attempt lease_expires_at now) db.tasks
  let staged =
      activate_stage (record db { tasks = tasks }) context.tenant_id locked.run.run_id
        locked.task.stage_execution_id now
  attempted ← insert_attempt staged (record {
    tenant_id = context.tenant_id;
    task_id = locked.task.task_id;
    run_id = locked.run.run_id;
    attempt = attempt;
    worker_id = command.worker_id;
    claimed_at = now;
    lease_expires_at = lease_expires_at;
    finished_at = none;
    outcome = none;
    error_code = none;
  })
  run_version ← sql_add locked.run.version 1
  sequence ← sql_add locked.run.next_event_sequence 1
  recorded ←
      insert_event
        (record attempted {
          runs =
              update_where (is_run context.tenant_id locked.run.run_id) (running_row now)
                attempted.runs;
        })
        (event_row context context.command_id locked.run.run_id locked.run.next_event_sequence
          "task.claimed" "worker" now)
  value ←
      claimed_task
        (record {
          run = record locked.run { version = run_version };
          task = record locked.task { attempt = attempt };
        })
        context.tenant_id lease_expires_at
  ok (recorded, value, attempt)

-- `decode_claim_receipt`.
abbrev pub decode_claim_receipt : Option ReceiptOutcome → StoreResult (Option ClaimedTask)
decode_claim_receipt (some (ReceiptOutcome.claim value)) = ok value
decode_claim_receipt _ = err StoreErrorCode.inconsistent_projection

abbrev pub event_list : Option ℕ → List ℕ
event_list none = []
event_list (some id) = id ∷ []

-- The answer to a repeated command.
abbrev pub duplicate_of : {A : Type 0} → ExistingReceipt → A → Committed A
duplicate_of receipt value = record {
  disposition = CommandDisposition.duplicate;
  value = value;
  event_ids = event_list receipt.event_id;
  durable_follow_ups = [];
  post_commit_hints = [];
}

abbrev pub map_option {ℓ κ} : {A : Type ℓ} {B : Type κ} → (A → B) → Option A → Option B
map_option f none = none
map_option f (some a) = some (f a)

-- No candidate: the receipt records it.
unfoldable pub claim_none :
    Database → CommandContext → StoreResult (Database × Option (Committed ClaimedTask))
claim_none db context = do
  finished ← finish_receipt db context OutcomeKind.no_op (ReceiptOutcome.claim none) none none
  ok (finished, none)

-- A locked candidate is claimed.
unfoldable pub claim_locked :
    Database
    → CommandContext
    → ClaimTask
    → ℕ
    → LockedWorkerTask
    → StoreResult (Database × Option (Committed ClaimedTask))
claim_locked db context command now locked = do
  (claimed, value, attempt) ← apply_claim db context command now locked
  finished ←
      finish_receipt claimed context OutcomeKind.applied (ReceiptOutcome.claim (some value))
        (some context.command_id) (some ("task", locked.task.task_id, attempt))
  ok (
    finished,
    some (record {
      disposition = CommandDisposition.applied;
      value = value;
      event_ids = context.command_id ∷ [];
      durable_follow_ups = [];
      post_commit_hints =
          run_events_available locked.run.run_id ∷ invalidate_run_cache locked.run.run_id ∷ [];
    }),
  )

-- The part of `claim_task` that runs under a new receipt.
unfoldable pub claim_new :
    Database
    → Locks
    → CommandContext
    → ClaimTask
    → ℕ
    → StoreResult (Database × Option (Committed ClaimedTask))
unfolding claim_none claim_locked
claim_new db locks context command now =
    elim (lock_claim_candidate db locks context.tenant_id now command.candidate_window
      command.kind) [
        | none ↦ claim_none db context
        | some locked ↦ claim_locked db context command now locked
      ]

-- What `claim_task` does under its receipt.
unfoldable pub claim_under :
    ReceiptGuard
    → Database
    → Locks
    → CommandContext
    → ClaimTask
    → ℕ
    → StoreResult (Database × Option (Committed ClaimedTask))
claim_under (existing receipt) db locks context command now = do
  value ← decode_claim_receipt receipt.outcome
  ok (db, map_option (duplicate_of receipt) value)
claim_under (acquired opened) db locks context command now =
    claim_new opened locks context command now

-- `claim_task`. `ttl` is the receipt's time to live of the configuration.
unfoldable pub claim_task :
    Database
    → Locks
    → ℕ
    → CommandContext
    → ClaimTask
    → ℕ
    → StoreResult (Database × Option (Committed ClaimedTask))
claim_task db locks ttl context command now = do
  reject_if (command.lease_duration == 0 || command.candidate_window == 0)
      StoreErrorCode.constraint_violation
  guard ← acquire_receipt db context now ttl
  claim_under guard db locks context command now
