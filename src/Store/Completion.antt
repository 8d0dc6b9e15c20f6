-- ===== src/Store/Completion.antt =====
-- durable-store/src/command.rs: the command that completes a task, and what it asks for next.
pub mod Shape
pub mod Fences
pub mod Inserts
pub mod Stages
pub mod Actions
pub mod Finish
pub mod Commit
pub mod Kept
pub mod NextKept
pub mod Steps
pub mod Outcome
pub mod Checkpoints
pub mod FenceLaws
pub mod ShapeLaws
use Prim.Native.String.{String}
use agent_loom.Base.{ℕ, Option, List}
use agent_loom.Domain.Status.{RunStatus, StageStatus, TaskKind}
use agent_loom.Domain.Json.{Value}
use agent_loom.Store.Outcome.{ExpectedRun, LeaseProof}

pub record NewCheckpoint : Type 0 where
  pub checkpoint_id : ℕ
  pub sequence : ℕ
  pub schema_version : ℕ
  pub workflow_version_id : Option ℕ
  pub coordinator_agent_version_id : Option ℕ
  pub execution_generation : ℕ
  pub state : Value
  pub state_digest : ℕ
  pub created_event_id : ℕ

pub record StageMutation : Type 0 where
  pub stage_execution_id : ℕ
  pub expected_version : ℕ
  pub target_status : StageStatus

pub record InitialStage : Type 0 where
  pub stage_execution_id : ℕ
  pub stage_key : ℕ
  pub status : StageStatus
  pub attempt : ℕ
  pub assignee_kind : Option String
  pub assignee_ref : Option String

-- `priority` counts from the least `i32`.
pub record NewTask : Type 0 where
  pub task_id : ℕ
  pub stage_execution_id : Option ℕ
  pub logical_key : ℕ
  pub kind : TaskKind
  pub generation : ℕ
  pub based_on_checkpoint_sequence : ℕ
  pub priority : ℕ
  pub available_at : ℕ
  pub max_attempts : ℕ
  pub input : Value
  pub deadline : Option ℕ
  pub created_event_id : ℕ

pub record WaitResumeTask : Type 0 where
  pub task_id : ℕ
  pub logical_key : ℕ
  pub kind : TaskKind
  pub priority : ℕ
  pub max_attempts : ℕ
  pub input : Value
  pub deadline : Option ℕ

pub record NewWaitSubscription : Type 0 where
  pub wait_id : ℕ
  pub stage_execution_id : Option ℕ
  pub wait_type : String
  pub expected_event_type : String
  pub match_key_hash : ℕ
  pub match_contract : Value
  pub expires_at : Option ℕ
  pub resume_task : WaitResumeTask
  pub created_event_id : ℕ

pub record NewRetrySchedule : Type 0 where
  pub task : NewTask
  pub reason_code : String

pub record FinalRunResult : Type 0 where
  pub status : RunStatus
  pub output : Value

-- A source is an artifact's id and its version.
pub record NewArtifactRef : Type 0 where
  pub artifact_id : ℕ
  pub stage_execution_id : Option ℕ
  pub logical_key : ℕ
  pub kind : String
  pub contract_version : ℕ
  pub version : ℕ
  pub uri : String
  pub digest : ℕ
  pub media_type : String
  pub size_bytes : ℕ
  pub sources : List (ℕ × ℕ)
  pub metadata : Value
  pub produced_by : String
  pub created_event_id : ℕ

pub data NextActions : Type 0 where
  tasks : List NewTask → NextActions
  wait : NewWaitSubscription → NextActions
  retry : NewRetrySchedule → NextActions
  finish_run : FinalRunResult → NextActions
  no_further_work : NextActions

pub record CompleteTask : Type 0 where
  pub expected_run : ExpectedRun
  pub lease : LeaseProof
  pub completion_event_id : ℕ
  pub checkpoint : NewCheckpoint
  pub task_result : Value
  pub stage_mutation : Option StageMutation
  pub additional_stage_mutations : List StageMutation
  pub new_stages : List InitialStage
  pub artifacts : List NewArtifactRef
  pub next : NextActions

pub data CompletionShapeError : Type 0 where
  created_event_mismatch invalid_checkpoint_metadata invalid_task_metadata invalid_wait_metadata
        invalid_stage_metadata invalid_artifact_metadata generation_mismatch
        finish_run_requires_terminal_status :
      CompletionShapeError
