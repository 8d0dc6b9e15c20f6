-- ===== src/Store/Control/Fencing.antt =====
-- A run that is paused or cancelled takes nothing more from its workers.
use agent_loom.Base.{
  ℕ, ◌≡◌, refl, sym, true, false, ◌⊎◌, inl, inr, some, List, arith, All, All-update_cases, All-map,
  find_where, find_where-All, find_where_sound, ◌==◌, Bool-cases,
}
use mathlib.Core.Path.{subst}
use agent_loom.Domain.Status.{is_leased, is_terminal_task}
use agent_loom.Store.Result.{StoreErrorCode, ok, err}
use agent_loom.Store.Rows.{RunRow, TaskRow}
use agent_loom.Store.Outcome.{CommandContext, RunSnapshot, DurableFollowUp, ExpectedRun, LeaseProof}
use agent_loom.Store.Database.{Database, is_task_of, is_task}
use agent_loom.Store.Fences.{LockedWorkerTask, lock_worker_task, validate_worker_fences}
use agent_loom.Store.Completion.{CompleteTask}
use agent_loom.Store.Completion.Fences.{
  LockedCompletion, lock_completion, validate_completion_fences,
}
use agent_loom.Store.Work.{cancelled_row}
use agent_loom.Store.External.{
  cancel_run_children, finalize_open_task_attempts, freeze_leased_tasks, request_external_stops,
  mark_executing_tools_uncertain, frozen_row,
}
use agent_loom.Store.Transition.{
  ControlRun, ControlKind, pause, resume, cancel, ControlTransition, control_transition,
}
use agent_loom.Store.Control.{apply_control}
use agent_loom.Store.Control.Laws.{control-steps, committed-tasks}

-- No task of the run is leased.
abbrev pub NoneLeased : ℕ → ℕ → List TaskRow → Type 0
NoneLeased tenant_id run_id =
    All (λ t. is_task_of tenant_id run_id t ≡ true → is_leased t.status ≡ false)

-- Every task of the run has ended.
abbrev pub AllEnded : ℕ → ℕ → List TaskRow → Type 0
AllEnded tenant_id run_id =
    All (λ t. is_task_of tenant_id run_id t ≡ true → is_terminal_task t.status ≡ true)

module _ (tenant_id now : ℕ) (run : RunRow) (db : Database) {after : Database}
    {transition : ControlTransition} where
  pause-NoneLeased :
      control_transition pause tenant_id run now db ≡ ok (after, transition)
      → NoneLeased tenant_id run.run_id after.tasks
  unfolding control_transition freeze_leased_tasks finalize_open_task_attempts
      request_external_stops
  pause-NoneLeased h =
      let tasks : after.tasks ≡ (freeze_leased_tasks tenant_id run.run_id now db).tasks =
        ground arith in
      subst (NoneLeased tenant_id run.run_id) (sym tasks) (
        All-update_cases _ _ (frozen_row now) db.tasks (λ t e of. refl)
          (λ t e of. ground (arith, e, of)))

  cancel-AllEnded :
      control_transition cancel tenant_id run now db ≡ ok (after, transition)
      → AllEnded tenant_id run.run_id after.tasks
  unfolding control_transition cancel_run_children finalize_open_task_attempts
      request_external_stops mark_executing_tools_uncertain
  cancel-AllEnded h =
      let tasks : after.tasks ≡ (cancel_run_children tenant_id run.run_id now db).tasks =
        ground arith in
      subst (AllEnded tenant_id run.run_id) (sym tasks) (
        All-update_cases _ _ (cancelled_row _ now) db.tasks (λ t e of. refl)
          (λ t e of. ground (arith, e, of)))

AllEnded-NoneLeased :
    (tenant_id run_id : ℕ) (tasks : List TaskRow)
    → AllEnded tenant_id run_id tasks
    → NoneLeased tenant_id run_id tasks
AllEnded-NoneLeased tenant_id run_id tasks =
    All-map _ _ tasks (λ t ended own. ground (arith, ended own))

module _ (db : Database) (context : CommandContext) (command : ControlRun) (now : ℕ) (run : RunRow)
    {changed : Database} {snapshot : RunSnapshot} {follow_ups : List DurableFollowUp} where
  -- After a cancel that is applied to a run, every task of the run has ended.
  pub cancel-ends_tasks :
      apply_control db context command cancel now run ≡ ok (changed, snapshot, follow_ups)
      → AllEnded context.tenant_id run.run_id changed.tasks
  cancel-ends_tasks h =
      let (middle, transition, _, moved, committed) =
        control-steps db context command cancel now run h in
      subst (AllEnded context.tenant_id run.run_id)
        (sym (committed-tasks middle context command cancel now run transition committed))
        (cancel-AllEnded context.tenant_id now run db moved)

  control-NoneLeased :
      (kind : ControlKind)
      → (kind ≡ pause) ⊎ (kind ≡ cancel)
      → apply_control db context command kind now run ≡ ok (changed, snapshot, follow_ups)
      → NoneLeased context.tenant_id run.run_id changed.tasks
  control-NoneLeased pause either h =
      let (middle, transition, _, moved, committed) =
        control-steps db context command pause now run h in
      subst (NoneLeased context.tenant_id run.run_id)
        (sym (committed-tasks middle context command pause now run transition committed))
        (pause-NoneLeased context.tenant_id now run db moved)
  control-NoneLeased resume either h = absurd (ground (arith, either))
  control-NoneLeased cancel either h =
      AllEnded-NoneLeased context.tenant_id run.run_id changed.tasks (cancel-ends_tasks h)

-- A command of a worker for a task of a run with no leased task does not pass the fences.
NoneLeased-refused :
    (tenant_id later : ℕ) (run_id : ℕ) (db : Database) (expected : ExpectedRun) (lease : LeaseProof)
    (locked : LockedWorkerTask)
    → NoneLeased tenant_id run_id db.tasks
    → expected.run_id ≡ run_id
    → lock_worker_task db tenant_id run_id lease.task_id ≡ ok locked
    → (e : StoreErrorCode) × (validate_worker_fences expected lease locked later ≡ err e)
unfolding lock_worker_task validate_worker_fences
NoneLeased-refused tenant_id later run_id db expected lease locked none_leased same h =
    let found : find_where (is_task tenant_id lease.task_id) db.tasks ≡ some locked.task =
      ground arith in
    let belongs = find_where_sound (is_task tenant_id lease.task_id) db.tasks found in
    let free = find_where-All _ (is_task tenant_id lease.task_id) db.tasks none_leased found in
    elim (Bool-cases (locked.task.run_id == expected.run_id)) [
      | inr other ↦ (StoreErrorCode.not_found, ground (arith, other))
      | inl own ↦ (
        StoreErrorCode.lease_lost,
        ground (arith, own, free (ground (arith, belongs, own, same)), same),
      )
    ]

-- After a pause or a cancel that is applied to a run, the fences of a renewal or a failure refuse
-- every worker that has a task of the run: they answer with an error, whatever lease the worker
-- shows, whatever version it expects of the run, and whatever the time.
pub control-refuses_workers :
    (db : Database) (context : CommandContext) (command : ControlRun) (kind : ControlKind)
    (now later : ℕ) (run : RunRow) (changed : Database) (snapshot : RunSnapshot)
    (follow_ups : List DurableFollowUp) (expected : ExpectedRun) (lease : LeaseProof)
    (locked : LockedWorkerTask)
    → (kind ≡ pause) ⊎ (kind ≡ cancel)
    → apply_control db context command kind now run ≡ ok (changed, snapshot, follow_ups)
    → expected.run_id ≡ run.run_id
    → lock_worker_task changed context.tenant_id run.run_id lease.task_id ≡ ok locked
    → (e : StoreErrorCode) × (validate_worker_fences expected lease locked later ≡ err e)
control-refuses_workers db context command kind now later run changed snapshot follow_ups expected
      lease locked either h same found =
    NoneLeased-refused context.tenant_id later run.run_id changed expected lease locked
      (control-NoneLeased db context command now run kind either h) same found

NoneLeased-uncompleted :
    (tenant_id later run_id : ℕ) (db : Database) (command : CompleteTask)
    (locked : LockedCompletion)
    → NoneLeased tenant_id run_id db.tasks
    → command.expected_run.run_id ≡ run_id
    → lock_completion db tenant_id run_id command.lease.task_id ≡ ok locked
    → (e : StoreErrorCode) × (validate_completion_fences command locked later ≡ err e)
unfolding lock_completion validate_completion_fences
NoneLeased-uncompleted tenant_id later run_id db command locked none_leased same h =
    let query = is_task tenant_id command.lease.task_id in
    let found : find_where query db.tasks ≡ some locked.task = ground arith in
    let belongs = find_where_sound query db.tasks found in
    let free = find_where-All _ query db.tasks none_leased found in
    elim (Bool-cases (locked.task.run_id == command.expected_run.run_id)) [
      | inr other ↦ (StoreErrorCode.not_found, ground (arith, other))
      | inl own ↦ (
        StoreErrorCode.lease_lost,
        ground (arith, own, free (ground (arith, belongs, own, same)), same),
      )
    ]

-- After a pause or a cancel that is applied to a run, the fences of a completion refuse every
-- worker that has a task of the run: a result that arrives late is not written, whatever lease the
-- worker shows, whatever checkpoint it brings, and whatever the time.
pub control-refuses_completions :
    (db : Database) (context : CommandContext) (command : ControlRun) (kind : ControlKind)
    (now later : ℕ) (run : RunRow) (changed : Database) (snapshot : RunSnapshot)
    (follow_ups : List DurableFollowUp) (completing : CompleteTask) (locked : LockedCompletion)
    → (kind ≡ pause) ⊎ (kind ≡ cancel)
    → apply_control db context command kind now run ≡ ok (changed, snapshot, follow_ups)
    → completing.expected_run.run_id ≡ run.run_id
    → lock_completion changed context.tenant_id run.run_id completing.lease.task_id ≡ ok locked
    → (e : StoreErrorCode) × (validate_completion_fences completing locked later ≡ err e)
control-refuses_completions db context command kind now later run changed snapshot follow_ups
      completing locked either h same found =
    NoneLeased-uncompleted context.tenant_id later run.run_id changed completing locked
      (control-NoneLeased db context command now run kind either h) same found
