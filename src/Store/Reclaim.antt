-- ===== src/Store/Reclaim.antt =====
-- transaction_executor.rs: `reclaim_expired_lease`.
pub mod Laws
pub mod Fencing
use agent_loom.Base.{
  ℕ, ◌&&◌, ◌||◌, not, Option, none, some, [], ◌∷◌, ◌==◌, ltb, if◌then◌else◌, is_none_or, find_where,
  keep_where, update_where, count_where,
}
use agent_loom.Domain.Status.{is_leased}
use agent_loom.Store.Result.{
  StoreErrorCode, StoreResult, ok, err, reject_if, ok_or, checked_add, ◌>>=◌, ◌>>◌,
}
use agent_loom.Store.Rows.{RunRow, TaskRow}
use agent_loom.Store.Outcome.{
  LeaseReclaimOutcome, Committed, CommandContext, CommandDisposition, ReceiptOutcome, OutcomeKind,
}
use agent_loom.Store.Database.{
  Database, ReceiptGuard, acquired, existing, acquire_receipt, finish_receipt, insert_event,
  event_row, is_run, is_task_of,
}
use agent_loom.Store.Fences.{positive_u32}
use agent_loom.Store.Claim.{duplicate_of, map_option, sql_add}
use agent_loom.Store.Renew.{is_open_attempt}
use agent_loom.Store.Expiry.{
  advance_run_event_batch, closed_attempt, expiry_action, first_expired, is_expired_lease,
  is_reclaimed, reclaimed_event_type, reclaimed_hints, reclaimed_row, reclaimed_run_status,
}

-- The updates of `reclaim_expired_lease` on the locked run and task.
unfoldable pub apply_reclaim :
    Database → CommandContext → ℕ → ℕ → RunRow → TaskRow → StoreResult Database
unfolding advance_run_event_batch checked_add sql_add
apply_reclaim db context event_id now run task = do
  reject_if (task.attempt == 0 || (task.max_attempts == 0 || ltb task.max_attempts task.attempt))
      StoreErrorCode.inconsistent_projection
  let action = expiry_action task
  reject_if (not (count_where (is_reclaimed context.tenant_id task now) db.tasks == 1))
      StoreErrorCode.version_conflict
  reject_if
      (not (
        count_where (is_open_attempt context.tenant_id task.task_id task.attempt) db.attempts == 1))
      StoreErrorCode.inconsistent_projection
  recorded ←
      insert_event
        (record db {
          tasks =
              update_where (is_reclaimed context.tenant_id task now)
                (reclaimed_row action run.execution_generation now) db.tasks;
          attempts =
              update_where (is_open_attempt context.tenant_id task.task_id task.attempt)
                (closed_attempt now "lease_expired" (some "lease_expired")) db.attempts;
        })
        (event_row context event_id run.run_id run.next_event_sequence (reclaimed_event_type action)
          "scheduler" now)
  next_sequence ←
      ok_or (checked_add run.next_event_sequence 1) StoreErrorCode.inconsistent_projection
  advance_run_event_batch recorded context.tenant_id run next_sequence (reclaimed_run_status action)
      now

-- No lease to reclaim: the receipt records it.
unfoldable pub reclaim_none :
    Database → CommandContext → StoreResult (Database × Option (Committed LeaseReclaimOutcome))
reclaim_none db context = do
  finished ←
      finish_receipt db context OutcomeKind.no_op (ReceiptOutcome.lease_reclaim none) none none
  ok (finished, none)

-- The lease of the locked task has expired, so it is reclaimed.
unfoldable pub reclaim_applied :
    Database
    → CommandContext
    → ℕ
    → ℕ
    → RunRow
    → TaskRow
    → StoreResult (Database × Option (Committed LeaseReclaimOutcome))
reclaim_applied db context event_id now run task = do
  applied ← apply_reclaim db context event_id now run task
  attempt ← positive_u32 task.attempt
  let outcome : LeaseReclaimOutcome = record {
    tenant_id = context.tenant_id;
    run_id = run.run_id;
    task_id = task.task_id;
    attempt = attempt;
    action = expiry_action task;
    reclaimed_at = now;
  }
  finished ←
      finish_receipt applied context OutcomeKind.applied
        (ReceiptOutcome.lease_reclaim (some outcome)) (some event_id)
        (some ("task", task.task_id, task.attempt))
  ok (
    finished,
    some (record {
      disposition = CommandDisposition.applied;
      value = outcome;
      event_ids = event_id ∷ [];
      durable_follow_ups = [];
      post_commit_hints = reclaimed_hints (expiry_action task);
    }),
  )

-- The part of `reclaim_expired_lease` after the candidate's rows are locked: the lease may have
-- been renewed or given up in the meantime.
unfoldable pub reclaim_locked :
    Database
    → CommandContext
    → ℕ
    → ℕ
    → RunRow
    → TaskRow
    → StoreResult (Database × Option (Committed LeaseReclaimOutcome))
reclaim_locked db context event_id now run task =
    if not (is_leased task.status) || is_none_or task.lease_expires_at (λ expires. ltb now expires)
    then reclaim_none db context
    else reclaim_applied db context event_id now run task

-- A candidate: its run and its own row are locked.
unfoldable pub reclaim_candidate :
    Database
    → CommandContext
    → ℕ
    → ℕ
    → TaskRow
    → StoreResult (Database × Option (Committed LeaseReclaimOutcome))
reclaim_candidate db context event_id now candidate = do
  run ←
      ok_or (find_where (is_run context.tenant_id candidate.run_id) db.runs)
        StoreErrorCode.not_found
  task ←
      ok_or
        (find_where
          (λ (t : TaskRow).
            is_task_of context.tenant_id candidate.run_id t && t.task_id == candidate.task_id)
          db.tasks)
        StoreErrorCode.inconsistent_projection
  reclaim_locked db context event_id now run task

-- The part of `reclaim_expired_lease` that runs under a new receipt.
unfoldable pub reclaim_new :
    Database
    → CommandContext
    → ℕ
    → ℕ
    → StoreResult (Database × Option (Committed LeaseReclaimOutcome))
reclaim_new db context event_id now =
    elim (first_expired (keep_where (is_expired_lease db context.tenant_id now) db.tasks)) [
      | none ↦ reclaim_none db context
      | some candidate ↦ reclaim_candidate db context event_id now candidate
    ]

-- `decode_lease_reclaim_receipt`.
abbrev pub decode_lease_reclaim_receipt :
    Option ReceiptOutcome → StoreResult (Option LeaseReclaimOutcome)
decode_lease_reclaim_receipt (some (ReceiptOutcome.lease_reclaim value)) = ok value
decode_lease_reclaim_receipt _ = err StoreErrorCode.inconsistent_projection

-- What `reclaim_expired_lease` does under its receipt.
unfoldable pub reclaim_under :
    ReceiptGuard
    → Database
    → CommandContext
    → ℕ
    → ℕ
    → StoreResult (Database × Option (Committed LeaseReclaimOutcome))
reclaim_under (existing receipt) db context event_id now = do
  value ← decode_lease_reclaim_receipt receipt.outcome
  ok (db, map_option (duplicate_of receipt) value)
reclaim_under (acquired opened) db context event_id now = reclaim_new opened context event_id now

-- `reclaim_expired_lease`; `event_id` is the command's `reclaimed_event_id`.
unfoldable pub reclaim_expired_lease :
    Database
    → ℕ
    → CommandContext
    → ℕ
    → ℕ
    → StoreResult (Database × Option (Committed LeaseReclaimOutcome))
reclaim_expired_lease db ttl context event_id now = do
  guard ← acquire_receipt db context now ttl
  reclaim_under guard db context event_id now
