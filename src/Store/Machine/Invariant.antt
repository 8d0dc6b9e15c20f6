-- ===== src/Store/Machine/Invariant.antt =====
-- Every transaction keeps the constraints of the table of tasks.
use Prim.Native.String.{String}
use mathlib.Core.Path.{subst}
use agent_loom.Base.{
  ℕ, ◌+◌, ◌≡◌, sym, ◌∙◌, ap, Bool, true, false, Option, some, List, inl, inr, arith, update_where,
}
use agent_loom.Domain.Json.{Value}
use agent_loom.Store.Result.{ok}
use agent_loom.Store.Rows.{RunRow, TaskRow}
use agent_loom.Store.Outcome.{CommandContext, RunSnapshot, DurableFollowUp}
use agent_loom.Store.Database.{Database, is_task}
use agent_loom.Store.Fences.{LockedWorkerTask}
use agent_loom.Store.Candidates.{Locks, is_due, lock_claim_candidate}
use agent_loom.Store.Candidates.Laws.{lock_claim_candidate-IsClaimable}
use agent_loom.Store.Claim.{ClaimTask, apply_claim, leased_row}
use agent_loom.Store.Claim.Laws.{claim-tasks}
use agent_loom.Store.Renew.Laws.{extend-tasks}
use agent_loom.Store.Expiry.{expiry_action}
use agent_loom.Store.Reclaim.Laws.{reclaim-tasks}
use agent_loom.Store.External.{
  cancel_run_children, finalize_open_task_attempts, freeze_leased_tasks, request_external_stops,
  mark_executing_tools_uncertain, close_work_after_fatal_failure,
}
use agent_loom.Store.Failure.{FailTask}
use agent_loom.Store.Fail.{apply_failure, close_if_terminal}
use agent_loom.Store.Fail.Steps.{recorded-tasks, committed-tasks, failure-keeps}
use agent_loom.Store.Transition.{
  ControlKind, pause, resume, cancel, ControlTransition, control_transition, rebase_preserved_tasks,
}
use agent_loom.Store.Control.Laws.{control-steps, committed-tasks as control-tasks}
use agent_loom.Store.Machine.{Step, Steps, done, then_step}
use agent_loom.Store.Machine.Rows.{
  IsValidTable, renewed-IsValidTable, reclaimed-IsValidTable, failed-IsValidTable,
  settled-IsValidTable, cancelled-IsValidTable, frozen-IsValidTable, rebased-IsValidTable,
  claimed-IsValidTable,
}
use agent_loom.Store.Machine.Effects.{
  Effect, claimed, extended, reclaimed, failed, controlled, completed,
}
use agent_loom.Store.Machine.Decompose.{Step-HasEffect}
use agent_loom.Store.Machine.Completions.{complete-IsValidTable}

-- The tasks of the tables are as the constraints want them.
abbrev pub HasValidTasks : Database → Type 0
HasValidTasks db = IsValidTable db.tasks

claim-HasValidTasks :
    (db : Database) (locks : Locks) (context : CommandContext) (command : ClaimTask) (now : ℕ)
    (locked : LockedWorkerTask) {after : Database} {value : _} {attempt : ℕ}
    → HasValidTasks db
    → lock_claim_candidate db locks context.tenant_id now command.candidate_window command.kind
      ≡ some locked
    → apply_claim db context command now locked ≡ ok (after, value, attempt)
    → HasValidTasks after
unfolding is_due
claim-HasValidTasks db locks context command now locked h found applied =
    let c =
      lock_claim_candidate-IsClaimable db locks context.tenant_id now command.kind
        command.candidate_window found in
    let (expires, tasks, _, _) = claim-tasks db context command now locked applied in
    let valid =
      claimed-IsValidTable db.tasks h c.task_query locked.task command expires now c.task_found
        (ground (arith, c.due)) (ground (arith, c.due)) in
    subst IsValidTable
      (ap
          (λ t.
            update_where (is_task t locked.task.task_id)
              (leased_row command (locked.task.attempt + 1) expires now) db.tasks)
          c.task_tenant
        ∙ sym tasks)
      valid

close-HasValidTasks :
    (tenant_id now : ℕ) (task : TaskRow) (terminal : Bool) (db : Database)
    (follow_ups : List DurableFollowUp)
    → HasValidTasks db
    → HasValidTasks (close_if_terminal tenant_id task now terminal db follow_ups).0
unfolding close_if_terminal close_work_after_fatal_failure request_external_stops
    mark_executing_tools_uncertain
close-HasValidTasks tenant_id now task false db follow_ups h = h
close-HasValidTasks tenant_id now task true db follow_ups h =
    cancelled-IsValidTable db.tasks h _ _ now

fail-HasValidTasks :
    (pointer : Value → String → Option Value) (db : Database) (context : CommandContext)
    (command : FailTask) (now : ℕ) (locked : LockedWorkerTask) {changed : Database}
    {snapshot : RunSnapshot} {follow_ups : List DurableFollowUp}
    → HasValidTasks db
    → apply_failure pointer db context command now locked ≡ ok (changed, snapshot, follow_ups)
    → HasValidTasks changed
fail-HasValidTasks pointer db context command now locked h applied =
    failure-keeps pointer db context command now locked HasValidTasks
      (λ finalized recorded.
        subst IsValidTable (sym (recorded-tasks db context command now locked recorded)) (
          failed-IsValidTable db.tasks h context.tenant_id locked.task command.retry_at
            command.error_code now))
      (λ task_id ready d v.
        settled-IsValidTable d.tasks v context.tenant_id locked.task.run_id task_id now ready)
      (λ resolved settled activated v committed.
        subst IsValidTable
          (sym (committed-tasks resolved context command now locked settled activated committed))
          (close-HasValidTasks context.tenant_id now locked.task settled.terminal resolved activated
            v))
      applied

module _ (tenant_id now : ℕ) (run : RunRow) (db : Database) {after : Database}
    {transition : ControlTransition} (h : HasValidTasks db) where
  transition-HasValidTasks :
      (kind : ControlKind)
      → control_transition kind tenant_id run now db ≡ ok (after, transition)
      → HasValidTasks after
  unfolding control_transition freeze_leased_tasks finalize_open_task_attempts
      request_external_stops cancel_run_children mark_executing_tools_uncertain
      rebase_preserved_tasks
  transition-HasValidTasks pause e =
      let tasks : after.tasks ≡ (freeze_leased_tasks tenant_id run.run_id now db).tasks =
        ground arith in
      subst IsValidTable (sym tasks) (frozen-IsValidTable db.tasks h tenant_id run.run_id now)
  transition-HasValidTasks resume e =
      let tasks : after.tasks
          ≡ (rebase_preserved_tasks tenant_id run.run_id run.execution_generation now db).tasks =
        ground arith in
      subst IsValidTable (sym tasks)
        (rebased-IsValidTable db.tasks h tenant_id run.run_id run.execution_generation now)
  transition-HasValidTasks cancel e =
      let tasks : after.tasks ≡ (cancel_run_children tenant_id run.run_id now db).tasks =
        ground arith in
      subst IsValidTable (sym tasks) (cancelled-IsValidTable db.tasks h _ _ now)

Effect-HasValidTasks :
    (pointer : Value → String → Option Value) (db after : Database)
    → HasValidTasks db
    → Effect pointer db after
    → HasValidTasks after
Effect-HasValidTasks pointer db after h (claimed locks context command now locked found applied) =
    claim-HasValidTasks db locks context command now locked h found applied
Effect-HasValidTasks pointer db after h (extended context command now expires locked e) =
    subst IsValidTable
      (sym (extend-tasks db context.tenant_id locked command.lease.token expires now e))
      (renewed-IsValidTable db.tasks h context.tenant_id locked command.lease.token expires now)
Effect-HasValidTasks pointer db after h
      (reclaimed context event_id now run_id run task found live e) =
    subst IsValidTable (sym (reclaim-tasks db context event_id now run task e)) (
      reclaimed-IsValidTable db.tasks h context.tenant_id task (expiry_action task)
        run.execution_generation now)
Effect-HasValidTasks pointer db after h (failed context command now locked found fenced e) =
    fail-HasValidTasks pointer db context command now locked h e
Effect-HasValidTasks pointer db after h
      (completed context command now locked shaped found fenced e) =
    complete-IsValidTable pointer db context command now locked e h
Effect-HasValidTasks pointer db after h (controlled context command kind now run found acts e) =
    let (middle, transition, _, moved, committed) =
      control-steps db context command kind now run e in
    subst IsValidTable
      (sym (control-tasks middle context command kind now run transition committed))
      (transition-HasValidTasks context.tenant_id now run db h kind moved)

-- One transaction keeps the constraints of the tasks.
pub Step-HasValidTasks :
    (pointer : Value → String → Option Value) (ttl : ℕ) (db after : Database)
    → HasValidTasks db
    → Step pointer ttl db after
    → HasValidTasks after
Step-HasValidTasks pointer ttl db after h step = elim (Step-HasEffect pointer ttl db after step) [
  | inl same ↦ subst IsValidTable (sym same.tasks) h
  | inr (opened, changed, opening, effect, closing) ↦ subst IsValidTable (sym closing.tasks) (
      Effect-HasValidTasks pointer opened changed (subst IsValidTable (sym opening.tasks) h) effect)
]

-- However many claims, renewals, reclamations, completions, failures, pauses, resumes and cancels commit, in
-- whatever order, tables whose tasks keep their constraints go on to keep them: the key is unique,
-- a lease's owner, token and expiry are there exactly while the task is leased, the time of
-- completion exactly once it has ended, and no task has more attempts than its maximum.
pub Steps-HasValidTasks :
    (pointer : Value → String → Option Value) (ttl : ℕ) (db after : Database)
    → HasValidTasks db
    → Steps pointer ttl db after
    → HasValidTasks after
Steps-HasValidTasks pointer ttl db after h done = h
Steps-HasValidTasks pointer ttl db after h (then_step {middle = middle} before step) =
    Step-HasValidTasks pointer ttl middle after (Steps-HasValidTasks pointer ttl db middle h before)
      step
