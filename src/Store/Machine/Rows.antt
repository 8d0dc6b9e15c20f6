-- ===== src/Store/Machine/Rows.antt =====
-- The rows that the constraints of the table `tasks` admit (store-postgres/migrations: `pk_tasks`,
-- `ck_tasks__lease`, `ck_tasks__attempts`, `ck_tasks__completion_v2`), under each UPDATE.
use agent_loom.Base.{
  ℕ, ◌≤◌, ◌<◌, ◌+◌, ◌≡◌, refl, Bool, true, ◌&&◌, some, List, arith, is_some, All, update_where,
  All-map, All-update_where, IsKeyed, update_where-IsKeyed, find_where, find_where-All,
  find_where-only, if◌then◌else◌,
}
use agent_loom.Domain.Status.{is_leased, is_terminal_task, is_claimable}
use agent_loom.Store.Rows.{TaskRow}
use agent_loom.Store.Database.{is_task, is_task_of}
use agent_loom.Store.Outcome.{LeaseExpiryAction}
use agent_loom.Store.Fences.{LockedWorkerTask}
use agent_loom.Store.Claim.{ClaimTask, leased_row}
use agent_loom.Store.Renew.{is_renewed}
use agent_loom.Store.Expiry.{is_reclaimed, reclaimed_row}
use agent_loom.Store.Dependencies.{is_waiting_task, queued_row, skipped_row}
use agent_loom.Store.Work.{cancelled_row}
use agent_loom.Store.External.{frozen_row}
use agent_loom.Store.Failure.{classify, is_failing, failed_row}
use agent_loom.Store.Transition.{is_rebased, rebased_row}
use Prim.Native.String.{String}
use mathlib.Core.Option.{Option}

-- The three checks of a row.
pub record IsValidTask (t : TaskRow) : Type 0 where
  pub owned : is_some t.lease_owner ≡ is_leased t.status
  pub held : is_some t.lease_token ≡ is_leased t.status
  pub bounded : is_some t.lease_expires_at ≡ is_leased t.status
  pub completed : is_some t.completed_at ≡ is_terminal_task t.status
  pub attempts : t.attempt ≤ t.max_attempts

-- The whole table, with its primary key.
pub record IsValidTable (tasks : List TaskRow) : Type 0 where
  pub keyed : IsKeyed (λ (t : TaskRow). t.tenant_id) (λ t. t.task_id) tasks
  pub valid : All IsValidTask tasks

-- An UPDATE that keeps the key, and keeps the rows that it touches valid.
pub update-IsValidTable :
    (p : TaskRow → Bool) (f : TaskRow → TaskRow) (tasks : List TaskRow)
    → ((t : TaskRow) → (f t).tenant_id ≡ t.tenant_id)
    → ((t : TaskRow) → (f t).task_id ≡ t.task_id)
    → ((t : TaskRow) → p t ≡ true → IsValidTask t → IsValidTask (f t))
    → IsValidTable tasks
    → IsValidTable (update_where p f tasks)
update-IsValidTable p f tasks tenant task keep h = record {
  keyed =
      update_where-IsKeyed (λ (t : TaskRow). t.tenant_id) (λ t. t.task_id) p f tasks tenant task
        h.keyed;
  valid =
      All-update_where IsValidTask p f tasks h.valid
        (All-map _ _ tasks (λ t v e. keep t e v) h.valid);
}

module _ (tasks : List TaskRow) (h : IsValidTable tasks) where
  pub renewed-IsValidTable :
      (tenant_id : ℕ) (locked : LockedWorkerTask) (token expires now : ℕ)
      → IsValidTable (
          update_where
            (is_renewed tenant_id locked token)
            (λ t. record t { lease_expires_at = some expires; updated_at = now })
            tasks)
  renewed-IsValidTable tenant_id locked token expires now =
      update-IsValidTable _ _ tasks (λ t. refl) (λ t. refl)
        (λ t e v. record {
          owned = v.owned;
          held = v.held;
          bounded = ground arith;
          completed = v.completed;
          attempts = v.attempts;
        })
        h

  pub reclaimed-IsValidTable :
      (tenant_id : ℕ) (task : TaskRow) (action : LeaseExpiryAction) (generation now : ℕ)
      → IsValidTable (
          update_where
            (is_reclaimed tenant_id task now)
            (reclaimed_row action generation now)
            tasks)
  reclaimed-IsValidTable tenant_id task action generation now =
      update-IsValidTable _ _ tasks (λ t. refl) (λ t. refl)
        (λ t e v. record {
          owned = ground arith;
          held = ground arith;
          bounded = ground arith;
          completed = ground arith;
          attempts = v.attempts;
        })
        h

  pub failed-IsValidTable :
      (tenant_id : ℕ) (task : TaskRow) (retry_at : Option ℕ) (error_code : String) (now : ℕ)
      → IsValidTable (
          update_where
            (is_failing tenant_id task)
            (failed_row (classify task.attempt task.max_attempts retry_at) error_code now)
            tasks)
  unfolding classify
  failed-IsValidTable tenant_id task retry_at error_code now =
      update-IsValidTable _ _ tasks (λ t. refl) (λ t. refl)
        (λ t e v. record {
          owned = ground arith;
          held = ground arith;
          bounded = ground arith;
          completed = ground arith;
          attempts = v.attempts;
        })
        h

  pub settled-IsValidTable :
      (tenant_id run_id task_id now : ℕ) (ready : Bool)
      → IsValidTable (
          update_where
            (is_waiting_task tenant_id run_id task_id)
            (λ t. if ready then queued_row now t else skipped_row now t)
            tasks)
  settled-IsValidTable tenant_id run_id task_id now ready =
      update-IsValidTable _ _ tasks (λ t. ground arith) (λ t. ground arith)
        (λ t e v. record {
          owned = ground (arith, v.owned);
          held = ground (arith, v.held);
          bounded = ground (arith, v.bounded);
          completed = ground arith;
          attempts = ground (arith, v.attempts);
        })
        h

  pub cancelled-IsValidTable :
      (p : TaskRow → Bool) (set_error : Option String → Option String) (now : ℕ)
      → IsValidTable (update_where p (cancelled_row set_error now) tasks)
  cancelled-IsValidTable p set_error now =
      update-IsValidTable _ _ tasks (λ t. refl) (λ t. refl)
        (λ t e v. record {
          owned = refl;
          held = refl;
          bounded = refl;
          completed = refl;
          attempts = v.attempts;
        })
        h

  pub frozen-IsValidTable :
      (tenant_id run_id now : ℕ)
      → IsValidTable (
          update_where
            (λ t. is_task_of tenant_id run_id t && is_leased t.status)
            (frozen_row now)
            tasks)
  frozen-IsValidTable tenant_id run_id now =
      update-IsValidTable _ _ tasks (λ t. refl) (λ t. refl)
        (λ t e v. record {
          owned = refl;
          held = refl;
          bounded = refl;
          completed = ground (arith, v.completed);
          attempts = v.attempts;
        })
        h

  pub rebased-IsValidTable :
      (tenant_id run_id generation now : ℕ)
      → IsValidTable (
          update_where
            (is_rebased tenant_id run_id generation now)
            (rebased_row generation now)
            tasks)
  rebased-IsValidTable tenant_id run_id generation now =
      update-IsValidTable _ _ tasks (λ t. refl) (λ t. refl)
        (λ t e v. record {
          owned = ground (arith, v.owned);
          held = ground (arith, v.held);
          bounded = ground (arith, v.bounded);
          completed = ground (arith, v.completed);
          attempts = v.attempts;
        })
        h

  -- A claim touches the one row that it locked, which has no end yet and attempts left.
  pub claimed-IsValidTable :
      (query : TaskRow → Bool) (task : TaskRow) (command : ClaimTask) (expires now : ℕ)
      → find_where query tasks ≡ some task
      → is_claimable task.status ≡ true
      → task.attempt < task.max_attempts
      → IsValidTable (
          update_where
            (is_task task.tenant_id task.task_id)
            (leased_row command (task.attempt + 1) expires now)
            tasks)
  claimed-IsValidTable query task command expires now found claimable left =
      let tenant : TaskRow → ℕ = λ t. t.tenant_id in
      let id : TaskRow → ℕ = λ t. t.task_id in
      let own = find_where-All IsValidTask query tasks h.valid found in
      let leased : IsValidTask (leased_row command (task.attempt + 1) expires now task) = record {
        owned = refl;
        held = refl;
        bounded = refl;
        completed = ground (arith, own.completed);
        attempts = omega (arith, left);
      } in
      record {
        keyed = update_where-IsKeyed tenant id _ _ tasks (λ t. refl) (λ t. refl) h.keyed;
        valid = All-update_where IsValidTask _ _ tasks h.valid (
            All-map _ _ tasks (λ t only e. only (ground (arith, e)))
              (find_where-only tenant id
                (λ t. IsValidTask (leased_row command (task.attempt + 1) expires now t)) query tasks
                h.keyed found leased));
      }
