-- ===== src/Store/Completion/Checkpoints.antt =====
-- The checkpoints of a run follow one another.
use Prim.Native.String.{String}
use agent_loom.Base.{
  ℕ, ◌+◌, ◌≡◌, ◌∙◌, refl, ap, false, ◌&&◌, ◌||◌, Option, some, List, [], ◌∷◌, ◌++◌, ◌==◌, arith,
  find_where, exists_where, update_where, find_where-update_where, find_where_sound,
  find_where-append, find_where-none, find_where-update, Bool-cases, inl, inr, ◌≤◌,
}
use agent_loom.Domain.Json.{Value}
use agent_loom.Store.Result.{ok, to_i64, try_i64}
use agent_loom.Store.Rows.{CheckpointRow, RunRow}
use agent_loom.Store.Outcome.{ClaimedTask, CommandContext, RunSnapshot, DurableFollowUp}
use agent_loom.Store.Database.{Database, is_run, insert_event}
use agent_loom.Store.Fences.{LockedWorkerTask, claimed_task}
use agent_loom.Store.Claim.{ClaimTask, apply_claim, running_row}
use agent_loom.Store.Claim.Laws.{claim-runs}
use agent_loom.Store.Completion.{CompleteTask}
use agent_loom.Store.Completion.Fences.{
  LockedCompletion, lock_completion, validate_completion_fences, unwrap_or, is_current_checkpoint,
}
use agent_loom.Store.Completion.FenceLaws.{fences-IsCompletable}
use agent_loom.Store.Completion.Inserts.{insert_completion_checkpoint, new_checkpoint_row}
use agent_loom.Store.Completion.Actions.{next_transition}
use agent_loom.Store.Completion.Finish.{is_completed_run, completed_run_row, finalize_task}
use agent_loom.Store.Completion.Commit.{apply_completion, record_completion, commit_completion}
use agent_loom.Store.Completion.Kept.{structure-IsApart}
use agent_loom.Store.Completion.NextKept.{next-IsQuiet}
use agent_loom.Store.Completion.Steps.{
  IsCompletion-steps, resolve_completed-keeps, recorded-runs, committed-runs,
}

module _ (db : Database) (context : CommandContext) (command : CompleteTask) (now : ℕ)
    (locked : LockedCompletion) {finalized : Database}
    (h : record_completion db context command now locked ≡ ok finalized) where
  -- The checkpoint of the command.
  abbrev checkpoint_row : CheckpointRow
  checkpoint_row =
      new_checkpoint_row context.tenant_id locked.task.run_id command.completion_event_id now
        command.checkpoint command.checkpoint.sequence command.checkpoint.execution_generation

  recorded-checkpoints : finalized.checkpoints ≡ db.checkpoints ++ checkpoint_row ∷ []
  unfolding record_completion insert_event insert_completion_checkpoint finalize_task to_i64 try_i64
  recorded-checkpoints = ground arith

  -- No checkpoint had its id.
  recorded-new :
      exists_where
        (λ (c : CheckpointRow).
          c.checkpoint_id == command.checkpoint.checkpoint_id
          || (c.tenant_id == context.tenant_id
              && (c.run_id == locked.task.run_id && c.sequence == command.checkpoint.sequence)))
        db.checkpoints
      ≡ false
  unfolding record_completion insert_event insert_completion_checkpoint finalize_task to_i64 try_i64
  recorded-new = ground arith

committed-checkpoints :
    (continued : Database) (context : CommandContext) (command : CompleteTask) (now : ℕ)
    (locked : LockedCompletion) {changed : Database} {snapshot : RunSnapshot}
    → commit_completion continued context command now locked (next_transition command.next)
      ≡ ok (changed, snapshot)
    → changed.checkpoints ≡ continued.checkpoints
unfolding commit_completion
committed-checkpoints continued context command now locked h = ground arith

-- Any number of claims, one after the other.
pub data Claims (db : Database) : Database → Type 0 where
  no_claims : Claims db db
  then_claim :
      {middle after : Database} (context : CommandContext) (command : ClaimTask) (now : ℕ)
      (locked : LockedWorkerTask) {value : ClaimedTask} {attempt : ℕ}
      → Claims db middle
      → apply_claim middle context command now locked ≡ ok (after, value, attempt)
      → Claims db after

-- A run of the tables with its current checkpoint.
abbrev HasCheckpoint : ℕ → ℕ → CheckpointRow → ℕ → Database → Type 0
HasCheckpoint tenant_id run_id row version db =
    (run : RunRow) × (find_where (is_run tenant_id run_id) db.runs ≡ some run)
    × (find_where (is_current_checkpoint run) db.checkpoints ≡ some row)
    × (version ≤ run.version)

claim-checkpoints :
    (db : Database) (context : CommandContext) (command : ClaimTask) (now : ℕ)
    (locked : LockedWorkerTask) {after : Database} {value : ClaimedTask} {attempt : ℕ}
    → apply_claim db context command now locked ≡ ok (after, value, attempt)
    → after.checkpoints ≡ db.checkpoints
unfolding apply_claim insert_event claimed_task
claim-checkpoints db context command now locked h = ground arith

Claims-HasCheckpoint :
    (tenant_id run_id : ℕ) (row : CheckpointRow) (version : ℕ) {db after : Database}
    → HasCheckpoint tenant_id run_id row version db
    → Claims db after
    → HasCheckpoint tenant_id run_id row version after
Claims-HasCheckpoint tenant_id run_id row version start no_claims = start
Claims-HasCheckpoint tenant_id run_id row version start
      (then_claim {middle = middle} context command now locked before applied) =
    let (run, found, checkpoint, grown) =
      Claims-HasCheckpoint tenant_id run_id row version start before in
    let query = is_run tenant_id run_id in
    let touched = is_run context.tenant_id locked.run.run_id in
    let later =
      ap (find_where query) (claim-runs middle context command now locked applied)
      ∙ find_where-update touched query (running_row now) middle.runs (λ y. refl) found in
    let same = claim-checkpoints middle context command now locked applied in
    elim (Bool-cases (touched run)) [
      | inl e ↦ (
        running_row now run,
        later ∙ rw e refl,
        ap (find_where (is_current_checkpoint run)) same ∙ checkpoint,
        omega (arith, grown),
      )
      | inr e ↦ (
        run,
        later ∙ rw e refl,
        ap (find_where (is_current_checkpoint run)) same ∙ checkpoint,
        grown,
      )
    ]

-- After a completion that passes the fences and is applied, and any number of claims, of whatever
-- runs, that follow it, a worker that goes on to complete a task of the run finds the number of the
-- new checkpoint as the current one, one above the number that this completion found (or one, if it
-- found none), and finds the run's version gone up.
pub completion-numbers :
    (pointer : Value → String → Option Value) (db : Database) (context : CommandContext)
    (command : CompleteTask) (now : ℕ) (locked : LockedCompletion) (changed : Database)
    (snapshot : RunSnapshot) (follow_ups : List DurableFollowUp) (later : Database) (task_id : ℕ)
    (next_locked : LockedCompletion)
    → lock_completion db context.tenant_id command.expected_run.run_id command.lease.task_id
      ≡ ok locked
    → validate_completion_fences command locked now ≡ ok tt
    → apply_completion pointer db context command now locked ≡ ok (changed, snapshot, follow_ups)
    → Claims changed later
    → lock_completion later context.tenant_id command.expected_run.run_id task_id ≡ ok next_locked
    → (next_locked.checkpoint_sequence ≡ some (unwrap_or locked.checkpoint_sequence 0 + 1))
      × (locked.run.version + 1 ≤ next_locked.run.version)
unfolding lock_completion
completion-numbers pointer db context command now locked changed snapshot follow_ups later task_id
      next_locked lock fenced applied claims again =
    let query = is_run context.tenant_id command.expected_run.run_id in
    let found : find_where query db.runs ≡ some locked.run = ground arith in
    let own = find_where_sound query db.runs found in
    let f = fences-IsCompletable command locked now fenced in
    let c = IsCompletion-steps pointer db context command now locked applied in
    let run_id = locked.task.run_id in
    let row = checkpoint_row db context command now locked c.records in
    let change =
      completed_run_row command (next_transition command.next) (locked.run.version + 1)
        (locked.run.next_event_sequence + 1) now in
    let Kept : Database → Type 0 =
      λ d. (d.runs ≡ db.runs) × (d.checkpoints ≡ db.checkpoints ++ row ∷ []) in
    let kept : Kept c.resolved =
      resolve_completed-keeps pointer Kept c.finalized context.tenant_id run_id
        command.lease.task_id now (λ id ready d k. k)
        (
          recorded-runs db context command now locked c.records,
          recorded-checkpoints db context command now locked c.records,
        )
        c.resolves in
    let (apart, _) = structure-IsApart c.resolved run_id context command now c.structures in
    let quiet = next-IsQuiet context.tenant_id run_id now c.structured command.next c.continues in
    let runs : changed.runs
        ≡ update_where (is_completed_run context.tenant_id locked.run) change db.runs =
      committed-runs c.continued context command now locked (next_transition command.next) c.commits
      ∙ ap (update_where (is_completed_run context.tenant_id locked.run) change)
          (quiet.runs ∙ (apart.runs ∙ kept.0)) in
    let checkpoints : changed.checkpoints ≡ db.checkpoints ++ row ∷ [] =
      committed-checkpoints c.continued context command now locked c.commits
      ∙ (quiet.checkpoints ∙ (apart.checkpoints ∙ kept.1)) in
    let run_found : find_where query changed.runs ≡ some (change locked.run) =
      ap (find_where query) runs
      ∙ find_where-update_where (is_completed_run context.tenant_id locked.run) query change db.runs
          (λ y. refl) found (ground (arith, own, f.not_paused, f.not_terminal)) in
    let current = is_current_checkpoint (change locked.run) in
    let new =
      find_where-none _ current db.checkpoints (λ x e. ground (arith, e))
        (recorded-new db context command now locked c.records) in
    let row_found : find_where current changed.checkpoints ≡ some row =
      ap (find_where current) checkpoints
      ∙ find_where-append current db.checkpoints row new (ground (arith, own, f.same_run)) in
    let sequence = f.checkpoint in
    let (run, run_later, row_later, grown) =
      Claims-HasCheckpoint context.tenant_id command.expected_run.run_id row
        (locked.run.version + 1) (change locked.run, run_found, row_found, omega arith) claims in
    (ground (arith, again, run_later, row_later, sequence), ground (arith, again, run_later, grown))
