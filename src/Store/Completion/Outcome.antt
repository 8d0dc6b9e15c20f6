-- ===== src/Store/Completion/Outcome.antt =====
-- What a completion leaves behind: its task, the stages that have ended, and the checkpoint.
use Prim.Native.String.{String}
use agent_loom.Base.{
  ℕ, ◌≡◌, ◌∙◌, refl, ap, Bool, true, ◌&&◌, Option, none, some, List, [], ◌∷◌, ◌==◌, arith,
  find_where, find_where-update_where, find_where-update_other, find_where_sound,
  find_where-append_later,
}
use agent_loom.Domain.Json.{Value}
use agent_loom.Domain.Status.{is_terminal_stage, TaskStatus}
use agent_loom.Store.Result.{ok}
use agent_loom.Store.Rows.{StageRow, TaskRow}
use agent_loom.Store.Outcome.{CommandContext, RunSnapshot, DurableFollowUp}
use agent_loom.Store.Database.{Database, is_task, insert_event}
use agent_loom.Store.Completion.{CompleteTask}
use agent_loom.Store.Completion.Fences.{
  LockedCompletion, lock_completion, validate_completion_fences,
}
use agent_loom.Store.Completion.FenceLaws.{fences-IsCompletable}
use agent_loom.Store.Completion.Inserts.{insert_completion_checkpoint}
use agent_loom.Store.Completion.Stages.{mutated_row}
use agent_loom.Store.Completion.Actions.{next_transition}
use agent_loom.Store.Completion.Finish.{is_completing, succeeded_row, finalize_task}
use agent_loom.Store.Completion.Commit.{apply_completion, record_completion, commit_completion}
use agent_loom.Store.Completion.Kept.{structure-keeps, structure-IsApart}
use agent_loom.Store.Completion.NextKept.{next-keeps}
use agent_loom.Store.Completion.Steps.{
  IsCompletion-steps, resolve_completed-keeps, recorded-tasks, committed-tasks,
}

-- A row of the stages, by its key.
abbrev pub is_stage : ℕ → ℕ → ℕ → StageRow → Bool
is_stage tenant_id run_id stage_id s =
    s.tenant_id == tenant_id && (s.run_id == run_id && s.stage_execution_id == stage_id)

-- A task that a worker has completed: nobody's any more, with the result that the worker gave.
pub record IsSucceededTask (command : CompleteTask) (now : ℕ) (task row : TaskRow) : Type 0 where
  pub status : row.status ≡ TaskStatus.succeeded
  pub result : row.result ≡ some command.task_result
  pub free : (row.lease_owner ≡ none) × (row.lease_token ≡ none) × (row.lease_expires_at ≡ none)
  pub ended : row.completed_at ≡ some now
  pub kept :
      (row.attempt ≡ task.attempt)
      × (row.generation ≡ task.generation)
      × (row.error_code ≡ task.error_code)

recorded-stages :
    (db : Database) (context : CommandContext) (command : CompleteTask) (now : ℕ)
    (locked : LockedCompletion) {finalized : Database}
    → record_completion db context command now locked ≡ ok finalized
    → finalized.stages ≡ db.stages
unfolding record_completion insert_event insert_completion_checkpoint finalize_task
recorded-stages db context command now locked h = ground arith

committed-stages :
    (continued : Database) (context : CommandContext) (command : CompleteTask) (now : ℕ)
    (locked : LockedCompletion) {changed : Database} {snapshot : RunSnapshot}
    → commit_completion continued context command now locked (next_transition command.next)
      ≡ ok (changed, snapshot)
    → changed.stages ≡ continued.stages
unfolding commit_completion
committed-stages continued context command now locked h = ground arith

module _ (pointer : Value → String → Option Value) (db : Database) (context : CommandContext)
    (command : CompleteTask) (now : ℕ) (locked : LockedCompletion) {changed : Database}
    {snapshot : RunSnapshot} {follow_ups : List DurableFollowUp} where
  completion-finds_row :
      lock_completion db context.tenant_id command.expected_run.run_id command.lease.task_id
        ≡ ok locked
      → validate_completion_fences command locked now ≡ ok tt
      → apply_completion pointer db context command now locked ≡ ok (changed, snapshot, follow_ups)
      → find_where (is_task context.tenant_id command.lease.task_id) changed.tasks
        ≡ some (succeeded_row command.task_result now locked.task)
  unfolding lock_completion
  completion-finds_row lock fenced applied =
      let query = is_task context.tenant_id command.lease.task_id in
      let row = succeeded_row command.task_result now locked.task in
      let found : find_where query db.tasks ≡ some locked.task = ground arith in
      let own = find_where_sound query db.tasks found in
      let f = fences-IsCompletable command locked now fenced in
      let c = IsCompletion-steps pointer db context command now locked applied in
      let run_id = locked.task.run_id in
      let start =
        ap (find_where query) (recorded-tasks db context command now locked c.records)
        ∙ find_where-update_where (is_completing context.tenant_id command.lease.task_id) query
            (succeeded_row command.task_result now) db.tasks (λ y. refl) found
            (ground (arith, own, f.leased)) in
      let settled =
        resolve_completed-keeps pointer (λ d. find_where query d.tasks ≡ some row) c.finalized
          context.tenant_id run_id command.lease.task_id now
          (λ task_id ready d k.
            find_where-update_other _ query _ d.tasks (λ y. ground arith) k (ground arith))
          start c.resolves in
      let apart = structure-IsApart c.resolved run_id context command now c.structures in
      ap (find_where query) (
        committed-tasks c.continued context command now locked (next_transition command.next)
          c.commits)
      ∙ next-keeps (λ d. find_where query d.tasks ≡ some row) context.tenant_id run_id now
          (λ d task status generation free new k. find_where-append_later query d.tasks _ k)
          (λ d w k. k) c.structured command.next (ap (find_where query) apart.1 ∙ settled)
          c.continues

  -- A completion that passes the fences and is applied leaves the task that the worker held as
  -- succeeded, with its result, without a lease, ended now, and otherwise with the attempts, the
  -- generation and the error code that it had. Neither the resolution of its dependents nor the
  -- rows that the completion inserts touch it afterwards.
  pub completion-finds :
      lock_completion db context.tenant_id command.expected_run.run_id command.lease.task_id
        ≡ ok locked
      → validate_completion_fences command locked now ≡ ok tt
      → apply_completion pointer db context command now locked ≡ ok (changed, snapshot, follow_ups)
      → (row : TaskRow) × (find_where
            (is_task context.tenant_id command.lease.task_id)
            changed.tasks
          ≡ some row)
        × IsSucceededTask command now locked.task row
  completion-finds lock fenced applied = (
    _,
    completion-finds_row lock fenced applied,
    record {
      status = refl;
      result = refl;
      free = (refl, refl, refl);
      ended = refl;
      kept = (refl, refl, refl);
    },
  )

  -- A stage of the run that has ended is left as it is by every completion that is applied,
  -- whatever changes of stages the completion asks for.
  pub completion-keeps_stages :
      (stage_id : ℕ) (stage : StageRow)
      → find_where (is_stage context.tenant_id locked.task.run_id stage_id) db.stages ≡ some stage
      → is_terminal_stage stage.status ≡ true
      → apply_completion pointer db context command now locked ≡ ok (changed, snapshot, follow_ups)
      → find_where (is_stage context.tenant_id locked.task.run_id stage_id) changed.stages
        ≡ some stage
  completion-keeps_stages stage_id stage found ended applied =
      let run_id = locked.task.run_id in
      let query = is_stage context.tenant_id run_id stage_id in
      let Found : Database → Type 0 = λ d. find_where query d.stages ≡ some stage in
      let c = IsCompletion-steps pointer db context command now locked applied in
      let settled =
        resolve_completed-keeps pointer Found c.finalized context.tenant_id run_id
          command.lease.task_id now (λ task_id ready d k. k)
          (ap (find_where query) (recorded-stages db context command now locked c.records) ∙ found)
          c.resolves in
      let structured =
        structure-keeps Found c.resolved run_id context command now
          (λ d mutation expected version k.
            find_where-update_other _ query (mutated_row mutation version now) d.stages (λ y. refl)
              k (ground (arith, ended)))
          (λ d row k. find_where-append_later query d.stages (row ∷ []) k) (λ d row k. k) settled
          c.structures in
      ap (find_where query) (committed-stages c.continued context command now locked c.commits)
      ∙ next-keeps Found context.tenant_id run_id now (λ d task status generation free new k. k)
          (λ d w k. k) c.structured command.next structured c.continues
