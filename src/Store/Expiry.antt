-- ===== src/Store/Expiry.antt =====
-- transaction_executor.rs: the expired leases of `reclaim_expired_lease`, and `advance_run_event_batch`.
use Prim.Native.String.{String}
use agent_loom.Base.{
  ℕ, ◌+◌, Bool, ◌&&◌, ◌||◌, not, Option, none, some, List, [], ◌∷◌, ◌==◌, ltb, leb, if◌then◌else◌,
  is_some, is_some_and, exists_where, update_where, count_where,
}
use agent_loom.Domain.Status.{RunStatus, TaskStatus, is_leased}
use agent_loom.Store.Result.{StoreErrorCode, StoreResult, ok, ◌>>=◌, ◌>>◌, reject_if}
use agent_loom.Store.Rows.{RunRow, TaskRow, AttemptRow}
use agent_loom.Store.Outcome.{LeaseExpiryAction, PostCommitHint, wake_workers}
use agent_loom.Store.Database.{Database, is_run, is_task}
use agent_loom.Store.Claim.{sql_add}

abbrev pub has_expired : ℕ → TaskRow → Bool
has_expired now t = is_some_and t.lease_expires_at (λ expires. leb expires now)

-- WHERE of the candidate's SELECT, the join with the run included.
unfoldable pub is_expired_lease : Database → ℕ → ℕ → TaskRow → Bool
is_expired_lease db tenant_id now t =
    t.tenant_id == tenant_id
    && (is_leased t.status
        && (has_expired now t
            && exists_where
                (λ (r : RunRow). is_run tenant_id t.run_id r && not (is_some r.terminal_event_id))
                db.runs))

abbrev pub expiry_of : TaskRow → ℕ
expiry_of t = elim t.lease_expires_at [ none ↦ 0 | some expires ↦ expires ]

-- ORDER BY lease_expires_at, task_id, among rows with a lease.
abbrev pub expires_before : TaskRow → TaskRow → Bool
expires_before a b =
    ltb (expiry_of a) (expiry_of b) || (expiry_of a == expiry_of b && leb a.task_id b.task_id)

-- LIMIT 1.
unfoldable pub first_expired : List TaskRow → Option TaskRow
first_expired [] = none
first_expired (t ∷ ts) = elim (first_expired ts) [
  | none ↦ some t
  | some u ↦ if expires_before t u then some t else some u
]

-- `attempt < max_attempts` decides between another attempt and the dead letters.
abbrev pub expiry_action : TaskRow → LeaseExpiryAction
expiry_action t =
    if ltb t.attempt t.max_attempts
    then LeaseExpiryAction.retry_scheduled
    else LeaseExpiryAction.dead_lettered

abbrev pub reclaimed_status : LeaseExpiryAction → TaskStatus
reclaimed_status LeaseExpiryAction.retry_scheduled = TaskStatus.retry_scheduled
reclaimed_status LeaseExpiryAction.dead_lettered = TaskStatus.dead_lettered

abbrev pub reclaimed_event_type : LeaseExpiryAction → String
reclaimed_event_type LeaseExpiryAction.retry_scheduled = "task.lease_expired"
reclaimed_event_type LeaseExpiryAction.dead_lettered = "task.dead_lettered"

abbrev pub reclaimed_run_status : LeaseExpiryAction → RunStatus
reclaimed_run_status LeaseExpiryAction.retry_scheduled = RunStatus.retrying
reclaimed_run_status LeaseExpiryAction.dead_lettered = RunStatus.waiting

abbrev pub reclaimed_completed_at : LeaseExpiryAction → ℕ → Option ℕ
reclaimed_completed_at LeaseExpiryAction.retry_scheduled now = none
reclaimed_completed_at LeaseExpiryAction.dead_lettered now = some now

abbrev pub reclaimed_hints : LeaseExpiryAction → List PostCommitHint
reclaimed_hints LeaseExpiryAction.retry_scheduled = wake_workers ∷ []
reclaimed_hints LeaseExpiryAction.dead_lettered = []

-- WHERE of the task's UPDATE.
abbrev pub is_reclaimed : ℕ → TaskRow → ℕ → TaskRow → Bool
is_reclaimed tenant_id task now t =
    is_task tenant_id task.task_id t
    && (t.attempt == task.attempt && (is_leased t.status && has_expired now t))

-- SET of the task's UPDATE.
abbrev pub reclaimed_row : LeaseExpiryAction → ℕ → ℕ → TaskRow → TaskRow
reclaimed_row action generation now t = record t {
  status = reclaimed_status action;
  generation = generation;
  available_at = now;
  lease_owner = none;
  lease_token = none;
  lease_expires_at = none;
  error_code = some "lease_expired";
  completed_at = reclaimed_completed_at action now;
  updated_at = now;
}

-- The attempt's UPDATE, with the outcome and the error code that it records.
abbrev pub closed_attempt : ℕ → String → Option String → AttemptRow → AttemptRow
closed_attempt now outcome error_code a = record a {
  finished_at = some now;
  outcome = some outcome;
  error_code = error_code;
}

-- WHERE of `advance_run_event_batch`.
abbrev pub is_current_run : ℕ → RunRow → RunRow → Bool
is_current_run tenant_id run r =
    is_run tenant_id run.run_id r
    && (r.version == run.version && r.execution_generation == run.execution_generation)

-- `advance_run_event_batch`.
unfoldable pub advance_run_event_batch :
    Database → ℕ → RunRow → ℕ → RunStatus → ℕ → StoreResult Database
advance_run_event_batch db tenant_id run next_event_sequence status now = do
  sql_add run.version 1 >>= λ _. ok tt
  reject_if (not (count_where (is_current_run tenant_id run) db.runs == 1))
      StoreErrorCode.version_conflict
  ok (record db {
    runs =
        update_where (is_current_run tenant_id run)
          (λ r. record r {
            version = r.version + 1;
            next_event_sequence = next_event_sequence;
            status = status;
            updated_at = now;
          })
          db.runs;
  })
