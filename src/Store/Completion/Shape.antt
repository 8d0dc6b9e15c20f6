-- ===== src/Store/Completion/Shape.antt =====
-- durable-store/src/command.rs: `CompleteTask::validate_shape` and the helpers of `NextActions`.
use agent_loom.Base.{
  ℕ, Bool, false, ◌||◌, not, Option, none, some, ◌==◌, is_some, is_some_and, exists_where, Check,
  passed, refuse_if, ◌&>◌,
}
use agent_loom.Domain.Status.{RunStatus, is_terminal_run}
use agent_loom.Store.Fail.{is_empty_text}
use agent_loom.Domain.Plan.{differ}
use agent_loom.Store.Completion.{
  NewTask, InitialStage, NewArtifactRef, NextActions, CompleteTask, CompletionShapeError,
}

abbrev pub created_event_mismatch_of : NextActions → ℕ → Bool
created_event_mismatch_of (NextActions.tasks tasks) expected =
    exists_where (λ (task : NewTask). not (task.created_event_id == expected)) tasks
created_event_mismatch_of (NextActions.wait wait) expected = not (wait.created_event_id == expected)
created_event_mismatch_of (NextActions.retry retry) expected =
    not (retry.task.created_event_id == expected)
created_event_mismatch_of (NextActions.finish_run result) expected = false
created_event_mismatch_of NextActions.no_further_work expected = false

abbrev pub generation_mismatch_of : NextActions → ℕ → Bool
generation_mismatch_of (NextActions.tasks tasks) expected =
    exists_where (λ (task : NewTask). not (task.generation == expected)) tasks
generation_mismatch_of (NextActions.wait wait) expected = false
generation_mismatch_of (NextActions.retry retry) expected = not (retry.task.generation == expected)
generation_mismatch_of (NextActions.finish_run result) expected = false
generation_mismatch_of NextActions.no_further_work expected = false

abbrev pub final_status : NextActions → Option RunStatus
final_status (NextActions.finish_run result) = some result.status
final_status _ = none

abbrev pub invalid_task : NewTask → Bool
invalid_task task = task.based_on_checkpoint_sequence == 0 || task.max_attempts == 0

abbrev pub metadata_error : NextActions → Check CompletionShapeError
metadata_error (NextActions.tasks tasks) =
    refuse_if (exists_where invalid_task tasks) CompletionShapeError.invalid_task_metadata
metadata_error (NextActions.wait wait) =
    refuse_if
      (is_empty_text wait.wait_type
        || (is_empty_text wait.expected_event_type || wait.resume_task.max_attempts == 0))
      CompletionShapeError.invalid_wait_metadata
metadata_error (NextActions.retry retry) =
    refuse_if (is_empty_text retry.reason_code || invalid_task retry.task)
      CompletionShapeError.invalid_task_metadata
metadata_error (NextActions.finish_run result) = passed
metadata_error NextActions.no_further_work = passed

-- The test of an artifact.
abbrev pub invalid_artifact : NewArtifactRef → Bool
invalid_artifact artifact =
    artifact.contract_version == 0
    || (artifact.version == 0
        || (is_empty_text artifact.kind
            || (is_empty_text artifact.uri
                || (is_empty_text artifact.media_type
                    || (is_empty_text artifact.produced_by
                        || exists_where (λ (source : ℕ × ℕ). source.1 == 0) artifact.sources)))))

-- The test of a new stage.
abbrev pub invalid_stage : InitialStage → Bool
invalid_stage stage =
    stage.attempt == 0
    || (differ (is_some stage.assignee_kind) (is_some stage.assignee_ref)
        || (is_some_and stage.assignee_kind is_empty_text
            || is_some_and stage.assignee_ref is_empty_text))

-- `CompleteTask::validate_shape`.
unfoldable pub validate_completion_shape : CompleteTask → Check CompletionShapeError
validate_completion_shape command =
    refuse_if
      (not (command.checkpoint.created_event_id == command.completion_event_id)
        || (exists_where
              (λ (artifact : NewArtifactRef).
                not (artifact.created_event_id == command.completion_event_id))
              command.artifacts
            || created_event_mismatch_of command.next command.completion_event_id))
      CompletionShapeError.created_event_mismatch
    &> (refuse_if (command.checkpoint.sequence == 0 || command.checkpoint.schema_version == 0)
          CompletionShapeError.invalid_checkpoint_metadata
        &> (refuse_if (exists_where invalid_artifact command.artifacts)
              CompletionShapeError.invalid_artifact_metadata
            &> (refuse_if (exists_where invalid_stage command.new_stages)
                  CompletionShapeError.invalid_stage_metadata
                &> (metadata_error command.next
                    &> (refuse_if
                          (not (
                              command.checkpoint.execution_generation
                              == command.lease.execution_generation)
                            || (is_some_and command.expected_run.execution_generation
                                  (λ expected. not (expected == command.lease.execution_generation))
                                || generation_mismatch_of command.next
                                    command.lease.execution_generation))
                          CompletionShapeError.generation_mismatch
                        &> refuse_if
                            (is_some_and (final_status command.next)
                              (λ status. not (is_terminal_run status)))
                            CompletionShapeError.finish_run_requires_terminal_status)))))
