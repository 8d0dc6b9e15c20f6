-- ===== src/Store/Reclaim/Fencing.antt =====
-- A lease that is reclaimed is void.
use mathlib.Core.Path.{subst}
use agent_loom.Base.{
  ℕ, ◌≡◌, sym, Bool, true, false, some, List, arith, All, All-update_rows, All-intro, refl,
  find_where, find_where_sound, find_where-All, inl, inr, Bool-cases, ◌==◌, All-map, IsKeyed,
  find_where-only, update_where,
}
use agent_loom.Domain.Status.{is_leased}
use agent_loom.Store.Result.{StoreErrorCode, ok, err}
use agent_loom.Store.Rows.{RunRow, TaskRow}
use agent_loom.Store.Outcome.{CommandContext, ExpectedRun, LeaseProof}
use agent_loom.Store.Database.{Database, is_task}
use agent_loom.Store.Fences.{LockedWorkerTask, lock_worker_task, validate_worker_fences}
use agent_loom.Store.Expiry.{is_reclaimed, reclaimed_row, expiry_action, has_expired}
use agent_loom.Store.Reclaim.{apply_reclaim}
use agent_loom.Store.Reclaim.Laws.{reclaim-tasks}

-- No row of the task is leased.
abbrev pub IsReleased : ℕ → ℕ → List TaskRow → Type 0
IsReleased tenant_id task_id =
    All (λ t. is_task tenant_id task_id t ≡ true → is_leased t.status ≡ false)

reclaimed-IsReleased :
    (tenant_id now generation : ℕ) (query : TaskRow → Bool) (task : TaskRow) (tasks : List TaskRow)
    → IsKeyed (λ (t : TaskRow). t.tenant_id) (λ t. t.task_id) tasks
    → find_where query tasks ≡ some task
    → task.tenant_id ≡ tenant_id
    → is_reclaimed tenant_id task now task ≡ true
    → IsReleased tenant_id task.task_id (
        update_where
          (is_reclaimed tenant_id task now)
          (reclaimed_row (expiry_action task) generation now)
          tasks)
reclaimed-IsReleased tenant_id now generation query task tasks keyed found own hit =
    let touched = is_reclaimed tenant_id task now in
    All-update_rows _ touched _ tasks (All-intro _ tasks (λ t e of. ground arith)) (
      All-map _ _ tasks
        (λ t only e of. absurd (
          ground (
            arith,
            hit,
            e,
            subst (λ x. touched x ≡ true) (sym (only (ground (arith, own, of)))) hit,
          )))
        (find_where-only (λ (t : TaskRow). t.tenant_id) (λ t. t.task_id) (λ t. t ≡ task) query tasks
          keyed found refl))

-- After the lease of a task is reclaimed, the fences of a renewal or a failure refuse every worker
-- that still shows a lease on the task, the old one included, with an error, whatever the time.
-- The reclaimed task is a row of the tables, whose keys are unique, leased until now or earlier.
pub reclaim-refuses_worker :
    (db : Database) (context : CommandContext) (event_id now later run_id : ℕ) (run : RunRow)
    (task : TaskRow) (query : TaskRow → Bool) (changed : Database) (expected : ExpectedRun)
    (lease : LeaseProof) (locked : LockedWorkerTask)
    → IsKeyed (λ (t : TaskRow). t.tenant_id) (λ t. t.task_id) db.tasks
    → find_where query db.tasks ≡ some task
    → task.tenant_id ≡ context.tenant_id
    → is_leased task.status ≡ true
    → has_expired now task ≡ true
    → apply_reclaim db context event_id now run task ≡ ok changed
    → lock_worker_task changed context.tenant_id run_id task.task_id ≡ ok locked
    → (e : StoreErrorCode) × (validate_worker_fences expected lease locked later ≡ err e)
unfolding lock_worker_task validate_worker_fences
reclaim-refuses_worker db context event_id now later run_id run task query changed expected lease
      locked keyed row own leased expired applied lock =
    let released : IsReleased context.tenant_id task.task_id changed.tasks =
      subst (IsReleased context.tenant_id task.task_id)
        (sym (reclaim-tasks db context event_id now run task applied))
        (reclaimed-IsReleased context.tenant_id now run.execution_generation query task db.tasks
          keyed row own (ground (arith, own, leased, expired))) in
    let wanted = is_task context.tenant_id task.task_id in
    let found : find_where wanted changed.tasks ≡ some locked.task = ground arith in
    let free = find_where-All _ wanted changed.tasks released found in
    let gone : is_leased locked.task.status ≡ false =
      free (find_where_sound wanted changed.tasks found) in
    elim (Bool-cases (locked.task.run_id == expected.run_id)) [
      | inr other ↦ (StoreErrorCode.not_found, ground (arith, other))
      | inl same ↦ (StoreErrorCode.lease_lost, ground (arith, same, gone))
    ]
