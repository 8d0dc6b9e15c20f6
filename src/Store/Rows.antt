-- ===== src/Store/Rows.antt =====
-- The rows that the modelled transactions read and write (store-postgres/migrations, and the SQL of
-- transaction_executor.rs), and the records of crates/durable-store that they answer with. Ids,
-- keys, digests and tokens are numbers: only their equality is used. A time is in microseconds.
use Prim.Native.String.{String}
use agent_loom.Base.{ℕ, Option, List}
use agent_loom.Domain.Status.{
  RunStatus, StageStatus, TaskStatus, WaitStatus, ToolExecutionStatus, AgentExecutionStatus,
  TaskKind, JoinPolicy,
}
use agent_loom.Domain.Json.{Value}

pub record RunRow : Type 0 where
  pub tenant_id : ℕ
  pub run_id : ℕ
  pub workflow_version_id : Option ℕ
  pub coordinator_agent_version_id : Option ℕ
  pub status : RunStatus
  pub suspended_from_status : Option RunStatus
  pub version : ℕ
  pub execution_generation : ℕ
  pub next_event_sequence : ℕ
  pub current_checkpoint_id : Option ℕ
  pub state_summary : Value
  pub resume_blocked_reason : Option String
  pub terminal_event_id : Option ℕ
  pub terminal_at : Option ℕ
  pub deadline : Option ℕ
  pub updated_at : ℕ

-- `priority` counts from the least `i32`.
pub record TaskRow : Type 0 where
  pub tenant_id : ℕ
  pub task_id : ℕ
  pub run_id : ℕ
  pub stage_execution_id : Option ℕ
  pub logical_key : ℕ
  pub kind : TaskKind
  pub status : TaskStatus
  pub generation : ℕ
  pub priority : ℕ
  pub attempt : ℕ
  pub max_attempts : ℕ
  pub available_at : ℕ
  pub deadline : Option ℕ
  pub input : Value
  pub join_policy : JoinPolicy
  pub result : Option Value
  pub lease_owner : Option ℕ
  pub lease_token : Option ℕ
  pub lease_expires_at : Option ℕ
  pub error_code : Option String
  pub completed_at : Option ℕ
  pub updated_at : ℕ

pub record AttemptRow : Type 0 where
  pub tenant_id : ℕ
  pub task_id : ℕ
  pub run_id : ℕ
  pub attempt : ℕ
  pub worker_id : ℕ
  pub claimed_at : ℕ
  pub lease_expires_at : ℕ
  pub finished_at : Option ℕ
  pub outcome : Option String
  pub error_code : Option String

pub record StageRow : Type 0 where
  pub tenant_id : ℕ
  pub run_id : ℕ
  pub stage_execution_id : ℕ
  pub stage_key : ℕ
  pub status : StageStatus
  pub version : ℕ
  pub attempt : ℕ
  pub assignee_kind : Option String
  pub assignee_ref : Option String
  pub started_at : Option ℕ
  pub completed_at : Option ℕ
  pub updated_at : ℕ

pub record WaitRow : Type 0 where
  pub tenant_id : ℕ
  pub run_id : ℕ
  pub wait_id : ℕ
  pub wait_type : String
  pub expected_event_type : String
  pub match_key_hash : ℕ
  pub status : WaitStatus
  pub active_slot : Option ℕ
  pub expires_at : Option ℕ
  pub resume_task_id : ℕ
  pub created_at : ℕ
  pub updated_at : ℕ

pub record AgentRow : Type 0 where
  pub tenant_id : ℕ
  pub run_id : ℕ
  pub agent_execution_id : ℕ
  pub status : AgentExecutionStatus
  pub version : ℕ
  pub error_code : Option String
  pub stop_requested_at : Option ℕ
  pub completed_at : Option ℕ
  pub updated_at : ℕ

pub record ToolRow : Type 0 where
  pub tenant_id : ℕ
  pub run_id : ℕ
  pub tool_execution_id : ℕ
  pub status : ToolExecutionStatus
  pub error_code : Option String
  pub recovery_action : Option String
  pub completed_at : Option ℕ
  pub updated_at : ℕ

pub record EventRow : Type 0 where
  pub event_id : ℕ
  pub tenant_id : ℕ
  pub run_id : ℕ
  pub sequence : ℕ
  pub event_type : String
  pub producer : String
  pub correlation_id : ℕ
  pub idempotency_key : ℕ
  pub recorded_at : ℕ

pub data OutboxStatus : Type 0 where
  pending publishing published : OutboxStatus

-- A message of the topic `run.events`.
pub record OutboxRow : Type 0 where
  pub outbox_id : ℕ
  pub tenant_id : ℕ
  pub event_id : ℕ
  pub run_id : ℕ
  pub status : OutboxStatus
  pub attempt : ℕ
  pub available_at : ℕ
  pub lease_owner : Option ℕ
  pub lease_token : Option ℕ
  pub lease_expires_at : Option ℕ
  pub last_error_code : Option String
  pub created_at : ℕ
  pub published_at : Option ℕ

-- `task_id` waits for `prerequisite_task_id`.
pub record DependencyRow : Type 0 where
  pub tenant_id : ℕ
  pub run_id : ℕ
  pub task_id : ℕ
  pub prerequisite_task_id : ℕ
  pub condition : Value

pub record CheckpointRow : Type 0 where
  pub checkpoint_id : ℕ
  pub tenant_id : ℕ
  pub run_id : ℕ
  pub sequence : ℕ
  pub schema_version : ℕ
  pub workflow_version_id : Option ℕ
  pub coordinator_agent_version_id : Option ℕ
  pub execution_generation : ℕ
  pub state : Value
  pub state_digest : ℕ
  pub created_event_id : ℕ
  pub created_at : ℕ

pub record ArtifactRow : Type 0 where
  pub artifact_id : ℕ
  pub tenant_id : ℕ
  pub run_id : ℕ
  pub stage_execution_id : Option ℕ
  pub task_id : ℕ
  pub logical_key : ℕ
  pub kind : String
  pub contract_version : ℕ
  pub version : ℕ
  pub uri : String
  pub digest : ℕ
  pub media_type : String
  pub size_bytes : ℕ
  pub sources : List (ℕ × ℕ)
  pub metadata : Value
  pub produced_by : String
  pub created_event_id : ℕ
  pub created_at : ℕ
