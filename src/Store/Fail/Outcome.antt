-- ===== src/Store/Fail/Outcome.antt =====
-- What becomes of the task that fails.
use Prim.Native.String.{String}
use agent_loom.Base.{
  ℕ, ◌≡◌, ◌∙◌, refl, ap, Bool, true, false, ltb, leb, Option, none, some, List, ◌<◌, ◌≤◌, ◌⊎◌, inl,
  inr, Option-cases, Bool-cases, arith, find_where, find_where-update_where,
  find_where-update_other, find_where_sound,
}
use agent_loom.Domain.Json.{Value}
use agent_loom.Domain.Status.{TaskStatus}
use agent_loom.Store.Result.{ok}
use agent_loom.Store.Rows.{TaskRow}
use agent_loom.Store.Outcome.{CommandContext, RunSnapshot, DurableFollowUp}
use agent_loom.Store.Database.{Database, is_task}
use agent_loom.Store.Fences.{LockedWorkerTask, lock_worker_task, validate_worker_fences}
use agent_loom.Store.Fences.Laws.{fences-IsFenced}
use mathlib.Core.Path.{subst}
use agent_loom.Store.Dependencies.{is_waiting_task}
use agent_loom.Store.External.{
  close_work_after_fatal_failure, request_external_stops, mark_executing_tools_uncertain,
}
use agent_loom.Store.Failure.{FailTask, failed_row, classify, is_failing}
use agent_loom.Store.Fail.{apply_failure, transition_of, close_if_terminal}
use agent_loom.Store.Fail.Steps.{failure-keeps, recorded-tasks, committed-tasks}

-- The row that a failure leaves is no longer scheduled, whatever its class.
failed_row-unscheduled :
    (tenant_id run_id task_id now : ℕ) (locked : LockedWorkerTask) (command : FailTask)
    → is_waiting_task tenant_id run_id task_id
        (failed_row (transition_of command locked) command.error_code now locked.task)
      ≡ false
unfolding classify
failed_row-unscheduled tenant_id run_id task_id now locked command = ground arith

-- What a failure at a time makes of a task: it is nobody's any more, bears the error code, and is
-- scheduled again at the time that was asked for if it has attempts left, dead-lettered if it has
-- none, and failed if it has some but no retry was asked for.
abbrev IsEnd : FailTask → ℕ → TaskRow → TaskRow → Type 0
IsEnd command now task row =
    ((retry_at : ℕ) × (command.retry_at ≡ some retry_at)
      × (task.attempt < task.max_attempts)
      × (row.status ≡ TaskStatus.retry_scheduled)
      × (row.available_at ≡ retry_at)
      × (row.completed_at ≡ none))
    ⊎ (((task.max_attempts ≤ task.attempt)
          × (row.status ≡ TaskStatus.dead_lettered)
          × (row.completed_at ≡ some now))
        ⊎ ((task.attempt < task.max_attempts)
            × (command.retry_at ≡ none)
            × (row.status ≡ TaskStatus.failed)
            × (row.completed_at ≡ some now)))

pub record IsFailedTask (command : FailTask) (now : ℕ) (task row : TaskRow) : Type 0 where
  pub free : (row.lease_owner ≡ none) × (row.lease_token ≡ none) × (row.lease_expires_at ≡ none)
  pub error : row.error_code ≡ some command.error_code
  pub kept : (row.attempt ≡ task.attempt) × (row.generation ≡ task.generation)
  pub outcome : IsEnd command now task row

failed_row-IsFailedTask :
    (command : FailTask) (now : ℕ) (locked : LockedWorkerTask)
    → IsFailedTask command now locked.task
        (failed_row (transition_of command locked) command.error_code now locked.task)
unfolding classify
failed_row-IsFailedTask command now locked =
    let end : IsEnd command now locked.task
        (failed_row (transition_of command locked) command.error_code now locked.task) =
      elim (Option-cases command.retry_at) [
        | inr (retry_at, e) ↦ elim (Bool-cases (ltb locked.task.attempt locked.task.max_attempts)) [
          | inl b ↦
              inl (retry_at, e, ground (arith, b), rw (e, b) refl, rw (e, b) refl, rw (e, b) refl)
          | inr b ↦
              let c : leb locked.task.max_attempts locked.task.attempt ≡ true = ground (arith, b) in
              inr (inl (ground (arith, b), rw (e, b, c) refl, rw (e, b, c) refl))
        ]
        | inl e ↦ elim (Bool-cases (leb locked.task.max_attempts locked.task.attempt)) [
          | inl b ↦ inr (inl (ground (arith, b), rw (e, b) refl, rw (e, b) refl))
          | inr b ↦ inr (inr (ground (arith, b), e, rw (e, b) refl, rw (e, b) refl))
        ]
      ] in
    record { free = (refl, refl, refl); error = refl; kept = (refl, refl); outcome = end }

module _ (context : CommandContext) (now : ℕ) (locked : LockedWorkerTask) where
  close-finds :
      (terminal : Bool) (resolved : Database) (activated : List DurableFollowUp) {row : TaskRow}
      → row.task_id ≡ locked.task.task_id
      → find_where (is_task context.tenant_id locked.task.task_id) resolved.tasks ≡ some row
      → find_where
          (is_task context.tenant_id locked.task.task_id)
          (close_if_terminal context.tenant_id locked.task now terminal resolved activated).0.tasks
        ≡ some row
  unfolding close_if_terminal close_work_after_fatal_failure request_external_stops
      mark_executing_tools_uncertain
  close-finds false resolved activated own found = found
  close-finds true resolved activated own found =
      find_where-update_other _ (is_task context.tenant_id locked.task.task_id) _ resolved.tasks
        (λ y. refl) found (ground (arith, own))

module _ (pointer : Value → String → Option Value) (db : Database) (context : CommandContext)
    (command : FailTask) (now : ℕ) (locked : LockedWorkerTask) {changed : Database}
    {snapshot : RunSnapshot} {follow_ups : List DurableFollowUp} where
  failure-finds_row :
      lock_worker_task db context.tenant_id command.expected_run.run_id command.lease.task_id
        ≡ ok locked
      → validate_worker_fences command.expected_run command.lease locked now ≡ ok tt
      → apply_failure pointer db context command now locked ≡ ok (changed, snapshot, follow_ups)
      → find_where (is_task context.tenant_id command.lease.task_id) changed.tasks
        ≡ some (failed_row (transition_of command locked) command.error_code now locked.task)
  unfolding lock_worker_task
  failure-finds_row lock fenced applied =
      let query = is_task context.tenant_id command.lease.task_id in
      let row = failed_row (transition_of command locked) command.error_code now locked.task in
      let found : find_where query db.tasks ≡ some locked.task = ground arith in
      let own = find_where_sound query db.tasks found in
      let id : locked.task.task_id ≡ command.lease.task_id = ground (arith, own) in
      let f = fences-IsFenced command.expected_run command.lease locked now fenced in
      failure-keeps pointer db context command now locked (λ d. find_where query d.tasks ≡ some row)
        (λ finalized recorded.
          ap (find_where query) (recorded-tasks db context command now locked recorded)
          ∙ find_where-update_where (is_failing context.tenant_id locked.task) query _ db.tasks
              (λ y. refl) found (ground (arith, own, f.leased)))
        (λ task_id ready d k.
          find_where-update_other _ query _ d.tasks (λ y. ground arith) k
            (failed_row-unscheduled context.tenant_id locked.task.run_id task_id now locked
              command))
        (λ resolved settled activated k committed.
          ap (find_where query)
            (committed-tasks resolved context command now locked settled activated committed)
          ∙ subst
              (λ i.
                find_where (is_task context.tenant_id i) resolved.tasks ≡ some row
                → find_where (is_task context.tenant_id i)
                    (close_if_terminal context.tenant_id locked.task now settled.terminal resolved
                      activated).0.tasks
                  ≡ some row)
              id (close-finds context now locked settled.terminal resolved activated refl) k)
        applied

  -- A failure that passes the fences and is applied leaves the task that the worker held without a
  -- lease, with the error code and with the attempts that it had: scheduled again for the time that
  -- was asked for if it has attempts left and a retry was asked for, dead-lettered at once if it
  -- has none, and failed otherwise. Neither the resolution of its dependents nor the end of the
  -- run's open work touches it afterwards.
  pub failure-finds :
      lock_worker_task db context.tenant_id command.expected_run.run_id command.lease.task_id
        ≡ ok locked
      → validate_worker_fences command.expected_run command.lease locked now ≡ ok tt
      → apply_failure pointer db context command now locked ≡ ok (changed, snapshot, follow_ups)
      → (row : TaskRow) × (find_where
            (is_task context.tenant_id command.lease.task_id)
            changed.tasks
          ≡ some row)
        × IsFailedTask command now locked.task row
  failure-finds lock fenced applied =
      (_, failure-finds_row lock fenced applied, failed_row-IsFailedTask command now locked)
