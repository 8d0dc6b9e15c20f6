-- ===== src/Store/Renew.antt =====
-- transaction_executor.rs: `renew_task_lease`.
pub mod Laws
use agent_loom.Base.{
  ℕ, Bool, false, ◌&&◌, not, Option, none, some, [], ◌==◌, is_some, is_value, update_where,
  count_where,
}
use agent_loom.Domain.Status.{is_leased}
use agent_loom.Store.Result.{
  StoreErrorCode, StoreResult, ok, reject_if, ok_or, to_i64, checked_add, ◌>>=◌, ◌>>◌,
}
use agent_loom.Store.Rows.{TaskRow, AttemptRow}
use agent_loom.Store.Outcome.{
  ClaimedTask, Committed, CommandContext, CommandDisposition, ReceiptOutcome, OutcomeKind,
  ExpectedRun, LeaseProof,
}
use agent_loom.Store.Database.{
  Database, ReceiptGuard, acquired, existing, acquire_receipt, finish_receipt, is_task_of,
}
use agent_loom.Store.Fences.{
  LockedWorkerTask, lock_worker_task, validate_worker_fences, claimed_task,
}
use agent_loom.Store.Claim.{decode_claim_receipt, duplicate_of}

pub record RenewTaskLease : Type 0 where
  pub expected_run : ExpectedRun
  pub lease : LeaseProof
  pub extension : ℕ

-- `a = b` in SQL, where NULL equals nothing.
abbrev pub sql_eq : Option ℕ → Option ℕ → Bool
sql_eq none b = false
sql_eq (some a) b = is_value b a

-- The open attempt of a task, WHERE finished_at IS NULL.
abbrev pub is_open_attempt : ℕ → ℕ → ℕ → AttemptRow → Bool
is_open_attempt tenant_id task_id attempt a =
    a.tenant_id == tenant_id
    && (a.task_id == task_id && (a.attempt == attempt && not (is_some a.finished_at)))

-- WHERE of the task's UPDATE.
abbrev pub is_renewed : ℕ → LockedWorkerTask → ℕ → TaskRow → Bool
is_renewed tenant_id locked token t =
    is_task_of tenant_id locked.task.run_id t
    && (t.task_id == locked.task.task_id
        && (is_leased t.status
            && (sql_eq t.lease_owner locked.task.lease_owner && is_value t.lease_token token)))

-- The two UPDATEs of `renew_task_lease`.
unfoldable pub extend_lease : Database → ℕ → LockedWorkerTask → ℕ → ℕ → ℕ → StoreResult Database
extend_lease db tenant_id locked token lease_expires_at now = do
  reject_if (not (count_where (is_renewed tenant_id locked token) db.tasks == 1))
      StoreErrorCode.lease_lost
  reject_if
      (not (
        count_where (is_open_attempt tenant_id locked.task.task_id locked.task.attempt) db.attempts
        == 1))
      StoreErrorCode.inconsistent_projection
  ok (record db {
    tasks =
        update_where (is_renewed tenant_id locked token)
          (λ t. record t { lease_expires_at = some lease_expires_at; updated_at = now }) db.tasks;
    attempts =
        update_where (is_open_attempt tenant_id locked.task.task_id locked.task.attempt)
          (λ a. record a { lease_expires_at = lease_expires_at }) db.attempts;
  })

-- The part of `renew_task_lease` that runs under a new receipt.
unfoldable pub renew_new :
    Database → CommandContext → RenewTaskLease → ℕ → StoreResult (Database × Committed ClaimedTask)
unfolding checked_add to_i64
renew_new db context command now = do
  locked ← lock_worker_task db context.tenant_id command.expected_run.run_id command.lease.task_id
  validate_worker_fences command.expected_run command.lease locked now
  extension ← to_i64 command.extension
  expires ← ok_or locked.task.lease_expires_at StoreErrorCode.constraint_violation
  lease_expires_at ← ok_or (checked_add expires extension) StoreErrorCode.constraint_violation
  extended ← extend_lease db context.tenant_id locked command.lease.token lease_expires_at now
  value ← claimed_task locked context.tenant_id lease_expires_at
  finished ←
      finish_receipt extended context OutcomeKind.applied (ReceiptOutcome.claim (some value)) none
        (some ("task", locked.task.task_id, locked.task.attempt))
  ok (
    finished,
    record {
      disposition = CommandDisposition.applied;
      value = value;
      event_ids = [];
      durable_follow_ups = [];
      post_commit_hints = [];
    },
  )

-- What `renew_task_lease` does under its receipt.
unfoldable pub renew_under :
    ReceiptGuard
    → Database
    → CommandContext
    → RenewTaskLease
    → ℕ
    → StoreResult (Database × Committed ClaimedTask)
renew_under (existing receipt) db context command now = do
  value ← decode_claim_receipt receipt.outcome
  claimed ← ok_or value StoreErrorCode.inconsistent_projection
  ok (db, duplicate_of receipt claimed)
renew_under (acquired opened) db context command now = renew_new opened context command now

-- `renew_task_lease`.
unfoldable pub renew_task_lease :
    Database
    → ℕ
    → CommandContext
    → RenewTaskLease
    → ℕ
    → StoreResult (Database × Committed ClaimedTask)
renew_task_lease db ttl context command now = do
  reject_if (command.extension == 0) StoreErrorCode.constraint_violation
  guard ← acquire_receipt db context now ttl
  renew_under guard db context command now
