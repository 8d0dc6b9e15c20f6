-- ===== src/Store/Completion/Commit.antt =====
-- transaction_executor.rs: `complete_task`.
use Prim.Native.String.{String}
use agent_loom.Base.{
  ℕ, Option, none, some, List, [], ◌∷◌, ◌++◌, map, if◌then◌else◌, Check, passed, refused,
}
use agent_loom.Domain.Json.{Value}
use agent_loom.Store.Result.{StoreErrorCode, StoreResult, ok, err, ◌>>=◌, ◌>>◌, ok_or, checked_add}
use agent_loom.Store.Outcome.{
  CommandContext, CommandDisposition, Committed, RunSnapshot, DurableFollowUp, OutcomeKind,
  ReceiptOutcome, run_events_available, invalidate_run_cache, wake_workers,
}
use agent_loom.Store.Database.{
  Database, ReceiptGuard, acquired, existing, acquire_receipt, finish_receipt, insert_event,
  event_row,
}
use agent_loom.Store.Claim.{event_list}
use agent_loom.Store.Dependencies.{resolve_dependent_tasks}
use agent_loom.Store.Fail.{decode_run_receipt}
use agent_loom.Store.Completion.{CompleteTask, CompletionShapeError}
use agent_loom.Store.Completion.Shape.{validate_completion_shape}
use agent_loom.Store.Completion.Fences.{
  LockedCompletion, lock_completion, validate_completion_fences,
}
use agent_loom.Store.Completion.Finish.{finalize_task, update_completed_run}
use agent_loom.Store.Completion.Inserts.{insert_completion_checkpoint, insert_stages}
use agent_loom.Store.Completion.Stages.{
  apply_stage_mutation, apply_stage_mutations, insert_artifact_refs,
}
use agent_loom.Store.Completion.Actions.{NextTransition, apply_next_actions}

-- The event, the checkpoint and the end of the task.
unfoldable pub record_completion :
    Database → CommandContext → CompleteTask → ℕ → LockedCompletion → StoreResult Database
unfolding finalize_task
record_completion db context command now locked = do
  recorded ← insert_event db (
      event_row context command.completion_event_id locked.task.run_id
        locked.run.next_event_sequence "task.completed" "worker" now)
  checked ←
      insert_completion_checkpoint recorded context.tenant_id locked.task.run_id
        command.completion_event_id now command.checkpoint
  finalize_task checked context.tenant_id command.lease.task_id locked.task.attempt now
      command.task_result

-- The changes of stages, the new stages and the artifacts.
unfoldable pub apply_structure :
    Database → ℕ → CommandContext → CompleteTask → ℕ → StoreResult Database
apply_structure db run_id context command now = do
  mutated ← apply_stage_mutation db context.tenant_id run_id now command.stage_mutation
  further ←
      apply_stage_mutations mutated context.tenant_id run_id now command.additional_stage_mutations
  staged ← insert_stages further context.tenant_id run_id now command.new_stages
  insert_artifact_refs staged context.tenant_id run_id command.lease.task_id now command.artifacts

-- `committed_run`.
unfoldable pub committed_run :
    CommandDisposition → RunSnapshot → Option ℕ → List DurableFollowUp → Committed RunSnapshot
committed_run disposition snapshot event_id follow_ups = record {
  disposition = disposition;
  value = snapshot;
  event_ids = event_list event_id;
  durable_follow_ups = follow_ups;
  post_commit_hints =
      run_events_available snapshot.run_id
      ∷ invalidate_run_cache snapshot.run_id
      ∷ wake_workers
      ∷ [];
}

-- The run's UPDATE and the snapshot that answers the command.
unfoldable pub commit_completion :
    Database
    → CommandContext
    → CompleteTask
    → ℕ
    → LockedCompletion
    → NextTransition
    → StoreResult (Database × RunSnapshot)
unfolding update_completed_run checked_add
commit_completion db context command now locked transition = do
  sequence ←
      ok_or (checked_add locked.run.next_event_sequence 1) StoreErrorCode.inconsistent_projection
  (updated, version) ←
      update_completed_run db context.tenant_id locked.run command transition sequence now
  ok (
    updated,
    record {
      tenant_id = context.tenant_id;
      run_id = locked.task.run_id;
      workflow_version_id = locked.run.workflow_version_id;
      status = transition.status;
      suspended_from_status = none;
      version = version;
      execution_generation = locked.run.execution_generation;
      next_event_sequence = sequence;
      current_checkpoint_id = some command.checkpoint.checkpoint_id;
      terminal_event_id = if transition.terminal then some command.completion_event_id else none;
      deadline = locked.run.deadline;
      updated_at = now;
    },
  )

-- `command.validate_shape().map_err(map_completion_shape)`.
abbrev pub shape_result : Check CompletionShapeError → StoreResult (Unit {0})
shape_result passed = ok tt
shape_result (refused e) = err StoreErrorCode.constraint_violation

module _ (pointer : Value → String → Option Value) where
  -- `resolve_dependent_tasks`; its fuel does not run out.
  unfoldable pub resolve_completed : Database → ℕ → ℕ → ℕ → ℕ → StoreResult (Database × List ℕ)
  resolve_completed db tenant_id run_id task_id now =
      elim (resolve_dependent_tasks pointer tenant_id run_id now db task_id) [
        | none ↦ err StoreErrorCode.store_unavailable
        | some result ↦ result
      ]

  -- The updates of `complete_task` after the fences.
  unfoldable pub apply_completion :
      Database
      → CommandContext
      → CompleteTask
      → ℕ
      → LockedCompletion
      → StoreResult (Database × RunSnapshot × List DurableFollowUp)
  unfolding record_completion resolve_completed apply_structure commit_completion
  apply_completion db context command now locked = do
    finalized ← record_completion db context command now locked
    (resolved, activated) ←
        resolve_completed finalized context.tenant_id locked.task.run_id command.lease.task_id now
    structured ← apply_structure resolved locked.task.run_id context command now
    (continued, transition) ←
        apply_next_actions structured context.tenant_id locked.task.run_id now command.next
    (updated, snapshot) ← commit_completion continued context command now locked transition
    ok (updated, snapshot, transition.follow_ups ++ map DurableFollowUp.task activated)

  -- The part of `complete_task` that runs under a new receipt.
  unfoldable pub complete_new :
      Database → CommandContext → CompleteTask → ℕ → StoreResult (Database × Committed RunSnapshot)
  complete_new db context command now = do
    locked ← lock_completion db context.tenant_id command.expected_run.run_id command.lease.task_id
    validate_completion_fences command locked now
    (updated, snapshot, follow_ups) ← apply_completion db context command now locked
    finished ←
        finish_receipt updated context OutcomeKind.applied (ReceiptOutcome.run snapshot)
          (some command.completion_event_id) (some ("run", snapshot.run_id, snapshot.version))
    ok (
      finished,
      committed_run CommandDisposition.applied snapshot (some command.completion_event_id)
          follow_ups,
    )

  -- What `complete_task` does under its receipt.
  unfoldable pub complete_under :
      ReceiptGuard
      → Database
      → CommandContext
      → CompleteTask
      → ℕ
      → StoreResult (Database × Committed RunSnapshot)
  complete_under (existing receipt) db context command now = do
    snapshot ← decode_run_receipt receipt.outcome
    ok (db, committed_run CommandDisposition.duplicate snapshot receipt.event_id [])
  complete_under (acquired opened) db context command now = complete_new opened context command now

  -- `complete_task`.
  unfoldable pub complete_task :
      Database
      → ℕ
      → CommandContext
      → CompleteTask
      → ℕ
      → StoreResult (Database × Committed RunSnapshot)
  complete_task db ttl context command now = do
    shape_result (validate_completion_shape command)
    guard ← acquire_receipt db context now ttl
    complete_under guard db context command now
