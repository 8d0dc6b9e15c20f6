-- ===== src/Store/Machine/Completions.antt =====
-- What a completion does to the table of runs, to the event log and to the table of tasks.
use Prim.Native.String.{String}
use mathlib.Core.Path.{subst}
use agent_loom.Base.{
  ℕ, ◌+◌, ◌≡◌, sym, refl, ◌∙◌, ap, false, Option, some, List, [], ◌∷◌, ◌++◌, inr, inl, arith,
  update_where, count_where, find_where, find_where_sound, passed, exists_where, exists_where-All,
  All-map, All-append, has_key_of, IsKeyed-append,
}
use agent_loom.Domain.Json.{Value}
use agent_loom.Domain.Status.{TaskStatus, is_leased, is_terminal_task}
use agent_loom.Store.Result.{ok}
use agent_loom.Store.Rows.{TaskRow}
use agent_loom.Store.Outcome.{CommandContext, RunSnapshot, DurableFollowUp}
use agent_loom.Store.Database.{Database, is_run, event_row}
use agent_loom.Store.Completion.{CompleteTask, NewTask}
use agent_loom.Store.Completion.Shape.{validate_completion_shape}
use agent_loom.Store.Completion.ShapeLaws.{shape-terminal}
use agent_loom.Store.Completion.Fences.{
  LockedCompletion, lock_completion, validate_completion_fences,
}
use agent_loom.Store.Completion.FenceLaws.{fences-IsCompletable}
use agent_loom.Store.Completion.Inserts.{task_conflicts, new_task_row}
use agent_loom.Store.Completion.Actions.{next_transition}
use agent_loom.Store.Completion.Finish.{
  is_completing, succeeded_row, completed_run_row, is_completed_run,
}
use agent_loom.Store.Completion.Commit.{apply_completion}
use agent_loom.Store.Completion.Kept.{structure-IsApart}
use agent_loom.Store.Completion.NextKept.{next-IsQuiet, next-keeps}
use agent_loom.Store.Completion.Steps.{
  IsCompletion-steps, resolve_completed-keeps, recorded-runs, recorded-events, recorded-tasks,
  committed-runs, committed-events, committed-count, committed-tasks,
}
use agent_loom.Store.Machine.RunChanges.{RunChange}
use agent_loom.Store.Machine.Rows.{
  IsValidTask, IsValidTable, update-IsValidTable, settled-IsValidTable,
}

module _ (pointer : Value → String → Option Value) (db : Database) (context : CommandContext)
    (command : CompleteTask) (now : ℕ) (locked : LockedCompletion) {changed : Database}
    {snapshot : RunSnapshot} {follow_ups : List DurableFollowUp}
    (applied : apply_completion pointer db context command now locked
      ≡ ok (changed, snapshot, follow_ups)) where
  pub complete-RunChange :
      lock_completion db context.tenant_id command.expected_run.run_id command.lease.task_id
        ≡ ok locked
      → validate_completion_fences command locked now ≡ ok tt
      → validate_completion_shape command ≡ passed
      → RunChange db changed
  unfolding lock_completion
  complete-RunChange lock fenced shaped =
      let query = is_run context.tenant_id command.expected_run.run_id in
      let found : find_where query db.runs ≡ some locked.run = ground arith in
      let own = find_where_sound query db.runs found in
      let f = fences-IsCompletable command locked now fenced in
      let c = IsCompletion-steps pointer db context command now locked applied in
      let event =
        event_row context command.completion_event_id locked.task.run_id
          locked.run.next_event_sequence "task.completed" "worker" now in
      let Kept : Database → Type 0 =
        λ d. (d.runs ≡ db.runs) × (d.events ≡ db.events ++ event ∷ []) in
      let kept : Kept c.resolved =
        resolve_completed-keeps pointer Kept c.finalized context.tenant_id locked.task.run_id
          command.lease.task_id now (λ task_id ready d k. k)
          (
            recorded-runs db context command now locked c.records,
            recorded-events db context command now locked c.records,
          )
          c.resolves in
      let (apart, _) =
        structure-IsApart c.resolved locked.task.run_id context command now c.structures in
      let quiet =
        next-IsQuiet context.tenant_id locked.task.run_id now c.structured command.next
          c.continues in
      let transition = next_transition command.next in
      let fits = shape-terminal command shaped in
      let touched = is_completed_run context.tenant_id locked.run in
      let change =
        completed_run_row command transition (locked.run.version + 1)
          (locked.run.next_event_sequence + 1) now in
      let runs = quiet.runs ∙ (apart.runs ∙ kept.0) in
      record {
        query = query;
        run = locked.run;
        found = found;
        touched = touched;
        change = change;
        runs =
            committed-runs c.continued context command now locked transition c.commits
            ∙ ap (update_where touched change) runs;
        touches = λ r e. ground (arith, e, own);
        hit = inr (
            omega (
              arith,
              ap (count_where touched) runs,
              committed-count c.continued context command now locked transition c.commits,
            ));
        tenant = λ r. refl;
        key = λ r. refl;
        version = refl;
        sequence = refl;
        generation = omega arith;
        live = inl f.not_terminal;
        projected = λ p l. ground (arith, fits);
        event = event;
        events =
            committed-events c.continued context command now locked transition c.commits
            ∙ (quiet.events ∙ (apart.events ∙ kept.1));
        event_tenant = ground (arith, own);
        event_run = ground (arith, own, f.same_run);
        event_sequence = refl;
      }

  new_task-IsValidTable :
      (tasks : List TaskRow) (task : NewTask) (status : TaskStatus) (generation : ℕ)
      → (is_leased status ≡ false) × (is_terminal_task status ≡ false)
      → exists_where (task_conflicts context.tenant_id locked.task.run_id task generation) tasks
        ≡ false
      → IsValidTable tasks
      → IsValidTable (
          tasks
          ++ new_task_row context.tenant_id locked.task.run_id now task status generation ∷ [])
  new_task-IsValidTable tasks task status generation (unleased, unended) free h =
      let row = new_task_row context.tenant_id locked.task.run_id now task status generation in
      let tenant : TaskRow → ℕ = λ t. t.tenant_id in
      let id : TaskRow → ℕ = λ t. t.task_id in
      let others =
        All-map _ (λ (t : TaskRow). has_key_of tenant id t row ≡ false) tasks
          (λ t apart. ground (arith, apart))
          ((exists_where-All _ (task_conflicts context.tenant_id locked.task.run_id task generation)
              tasks (λ t. (λ e. e, λ e. e))).0
            free) in
      record {
        keyed = IsKeyed-append tenant id tasks row h.keyed others;
        valid = All-append IsValidTask tasks (row ∷ []) h.valid (
          record {
            owned = sym unleased;
            held = sym unleased;
            bounded = sym unleased;
            completed = sym unended;
            attempts = omega arith;
          },
          tt,
        );
      }

  completed-IsValidTable :
      (tasks : List TaskRow)
      → IsValidTable tasks
      → IsValidTable (
          update_where
            (is_completing context.tenant_id command.lease.task_id)
            (succeeded_row command.task_result now)
            tasks)
  completed-IsValidTable tasks h =
      update-IsValidTable _ _ tasks (λ t. refl) (λ t. refl)
        (λ t e v. record {
          owned = refl;
          held = refl;
          bounded = refl;
          completed = refl;
          attempts = v.attempts;
        })
        h

  pub complete-IsValidTable : IsValidTable db.tasks → IsValidTable changed.tasks
  complete-IsValidTable h =
      let c = IsCompletion-steps pointer db context command now locked applied in
      let run_id = locked.task.run_id in
      let start =
        subst IsValidTable (sym (recorded-tasks db context command now locked c.records))
          (completed-IsValidTable db.tasks h) in
      let settled =
        resolve_completed-keeps pointer (λ d. IsValidTable d.tasks) c.finalized context.tenant_id
          run_id command.lease.task_id now
          (λ task_id ready d v.
            settled-IsValidTable d.tasks v context.tenant_id run_id task_id now ready)
          start c.resolves in
      let apart = structure-IsApart c.resolved run_id context command now c.structures in
      subst IsValidTable
        (sym (
          committed-tasks c.continued context command now locked (next_transition command.next)
            c.commits))
        (next-keeps (λ d. IsValidTable d.tasks) context.tenant_id run_id now
          (λ d task status generation free new v.
            new_task-IsValidTable d.tasks task status generation free new v)
          (λ d row v. v) c.structured command.next (subst IsValidTable (sym apart.1) settled)
          c.continues)
