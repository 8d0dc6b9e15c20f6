-- ===== src/Store/Completion/Steps.antt =====
-- The steps of a completion that succeeds, one after the other.
use Prim.Native.String.{String}
use mathlib.Core.Path.{subst}
use agent_loom.Base.{
  ℕ, ◌+◌, ◌≡◌, sym, ◌∙◌, ap, Bool, Option, some, List, [], ◌∷◌, ◌++◌, arith, update_where,
  count_where, Option-cases, inl, inr,
}
use agent_loom.Domain.Json.{Value}
use agent_loom.Store.Result.{ok, >>=-eq-ok, ok-pair-eq, ok-triple-eq}
use agent_loom.Store.Outcome.{CommandContext, RunSnapshot, DurableFollowUp}
use agent_loom.Store.Database.{Database, insert_event, event_row}
use agent_loom.Store.Dependencies.{resolve_dependent_tasks}
use agent_loom.Store.Dependencies.Laws.{settled_tables, resolve-keeps}
use agent_loom.Store.Completion.{CompleteTask}
use agent_loom.Store.Completion.Fences.{LockedCompletion}
use agent_loom.Store.Completion.Inserts.{insert_completion_checkpoint}
use agent_loom.Store.Completion.Actions.{
  NextTransition, apply_next_actions, insert_next, next_transition,
}
use agent_loom.Store.Completion.Finish.{
  is_completing, succeeded_row, completed_run_row, is_completed_run,
}
use agent_loom.Store.Completion.Commit.{
  record_completion, resolve_completed, apply_structure, commit_completion, apply_completion,
}

module _ (db : Database) (context : CommandContext) (command : CompleteTask) (now : ℕ)
    (locked : LockedCompletion) {finalized : Database}
    (h : record_completion db context command now locked ≡ ok finalized) where
  pub recorded-tasks :
      finalized.tasks
      ≡ update_where
          (is_completing context.tenant_id command.lease.task_id)
          (succeeded_row command.task_result now)
          db.tasks
  unfolding record_completion insert_event insert_completion_checkpoint
  recorded-tasks = ground arith

  pub recorded-runs : finalized.runs ≡ db.runs
  unfolding record_completion insert_event insert_completion_checkpoint
  recorded-runs = ground arith

  pub recorded-receipts : finalized.receipts ≡ db.receipts
  unfolding record_completion insert_event insert_completion_checkpoint
  recorded-receipts = ground arith

  pub recorded-events :
      finalized.events
      ≡ db.events
        ++ event_row context command.completion_event_id locked.task.run_id
            locked.run.next_event_sequence "task.completed" "worker" now
          ∷ []
  unfolding record_completion insert_event insert_completion_checkpoint
  recorded-events = ground arith

module _ (continued : Database) (context : CommandContext) (command : CompleteTask) (now : ℕ)
    (locked : LockedCompletion) (transition : NextTransition) {changed : Database}
    {snapshot : RunSnapshot}
    (h : commit_completion continued context command now locked transition
      ≡ ok (changed, snapshot)) where
  pub committed-tasks : changed.tasks ≡ continued.tasks
  unfolding commit_completion
  committed-tasks = ground arith

  pub committed-receipts : changed.receipts ≡ continued.receipts
  unfolding commit_completion
  committed-receipts = ground arith

  pub committed-events : changed.events ≡ continued.events
  unfolding commit_completion
  committed-events = ground arith

  pub committed-runs :
      changed.runs
      ≡ update_where
          (is_completed_run context.tenant_id locked.run)
          (completed_run_row command transition
            (locked.run.version + 1)
            (locked.run.next_event_sequence + 1)
            now)
          continued.runs
  unfolding commit_completion
  committed-runs = ground arith

  pub committed-count :
      count_where (is_completed_run context.tenant_id locked.run) continued.runs ≡ 1
  unfolding commit_completion
  committed-count = ground arith

module _ (pointer : Value → String → Option Value) where
  pub resolve_completed-keeps {κ} :
      (P : Database → Type κ) (db : Database) (tenant_id run_id task_id now : ℕ)
      {resolved : Database} {activated : List ℕ}
      → ((task_id : ℕ) (ready : Bool) (d : Database)
          → P d
          → P (settled_tables tenant_id run_id now task_id ready d))
      → P db
      → resolve_completed pointer db tenant_id run_id task_id now ≡ ok (resolved, activated)
      → P resolved
  unfolding resolve_completed
  resolve_completed-keeps P db tenant_id run_id task_id now keep start h =
      elim (Option-cases (resolve_dependent_tasks pointer tenant_id run_id now db task_id)) [
        | inl e ↦ absurd (let bad = rw (resolve_completed, e) at h in cc)
        | inr (result, e) ↦
            resolve-keeps pointer tenant_id run_id now P keep db task_id start
              (e ∙ ap some (rw (resolve_completed, e) at h))
      ]

  -- The parts of a completion that is applied.
  pub record IsCompletion (db : Database) (context : CommandContext) (command : CompleteTask)
      (now : ℕ) (locked : LockedCompletion) (changed : Database) (snapshot : RunSnapshot)
      : Type 0 where
    pub finalized : Database
    pub resolved : Database
    pub structured : Database
    pub continued : Database
    pub activated : List ℕ
    pub records : record_completion db context command now locked ≡ ok finalized
    pub resolves :
        resolve_completed pointer finalized context.tenant_id locked.task.run_id
          command.lease.task_id now
        ≡ ok (resolved, activated)
    pub structures : apply_structure resolved locked.task.run_id context command now ≡ ok structured
    pub continues :
        insert_next structured context.tenant_id locked.task.run_id now command.next ≡ ok continued
    pub commits :
        commit_completion continued context command now locked (next_transition command.next)
        ≡ ok (changed, snapshot)

  pub IsCompletion-steps :
      (db : Database) (context : CommandContext) (command : CompleteTask) (now : ℕ)
      (locked : LockedCompletion) {changed : Database} {snapshot : RunSnapshot}
      {follow_ups : List DurableFollowUp}
      → apply_completion pointer db context command now locked ≡ ok (changed, snapshot, follow_ups)
      → IsCompletion db context command now locked changed snapshot
  unfolding apply_completion apply_next_actions
  IsCompletion-steps db context command now locked {changed} {snapshot} h =
      let (finalized, records, h1) =
        >>=-eq-ok (record_completion db context command now locked) _ h in
      let ((resolved, activated), resolves, h2) =
        >>=-eq-ok
          (resolve_completed pointer finalized context.tenant_id locked.task.run_id
            command.lease.task_id now)
          _ h1 in
      let (structured, structures, h3) =
        >>=-eq-ok (apply_structure resolved locked.task.run_id context command now) _ h2 in
      let ((continued, transition), nexts, h4) =
        >>=-eq-ok
          (apply_next_actions structured context.tenant_id locked.task.run_id now command.next) _
          h3 in
      let ((updated, answer), commits, h5) =
        >>=-eq-ok (commit_completion continued context command now locked transition) _ h4 in
      let (inserted, inserts, n1) =
        >>=-eq-ok (insert_next structured context.tenant_id locked.task.run_id now command.next) _
          nexts in
      let (same_tables, same_transition) = ok-pair-eq n1 in
      let (same_updated, same_answer, _) = ok-triple-eq h5 in
      let at_tables =
        subst
          (λ (d : Database).
            commit_completion d context command now locked transition ≡ ok (updated, answer))
          (sym same_tables) commits in
      let at_transition =
        subst
          (λ (t : NextTransition).
            commit_completion inserted context command now locked t ≡ ok (updated, answer))
          (sym same_transition) at_tables in
      record {
        finalized = finalized;
        resolved = resolved;
        structured = structured;
        continued = inserted;
        activated = activated;
        records = records;
        resolves = resolves;
        structures = structures;
        continues = inserts;
        commits = rw (same_updated, same_answer) at at_transition;
      }
