-- ===== src/Store/Outcome.antt =====
-- crates/durable-store: command.rs, outcome.rs, lease.rs and error.rs, as far as the modelled
-- commands use them, and what a command receipt stores.
use Prim.Native.String.{String}
use agent_loom.Base.{ℕ, Option, List}
use agent_loom.Domain.Status.{RunStatus, TaskStatus, TaskKind}
use agent_loom.Domain.Json.{Value}

pub data CommandDisposition : Type 0 where
  applied duplicate no_op : CommandDisposition

pub data DurableFollowUp : Type 0 where
  task : ℕ → DurableFollowUp
  reconcile_agent : ℕ → DurableFollowUp
  stop_agent : ℕ → DurableFollowUp
  reconcile_tool : ℕ → DurableFollowUp
  compensate_tool : ℕ → DurableFollowUp
  scan_due_work : ℕ → DurableFollowUp

pub data PostCommitHint : Type 0 where
  wake_workers wake_scheduler : PostCommitHint
  run_events_available invalidate_run_cache : ℕ → PostCommitHint

pub record Committed (A : Type 0) : Type 0 where
  pub disposition : CommandDisposition
  pub value : A
  pub event_ids : List ℕ
  pub durable_follow_ups : List DurableFollowUp
  pub post_commit_hints : List PostCommitHint

pub record RunSnapshot : Type 0 where
  pub tenant_id : ℕ
  pub run_id : ℕ
  pub workflow_version_id : Option ℕ
  pub status : RunStatus
  pub suspended_from_status : Option RunStatus
  pub version : ℕ
  pub execution_generation : ℕ
  pub next_event_sequence : ℕ
  pub current_checkpoint_id : Option ℕ
  pub terminal_event_id : Option ℕ
  pub deadline : Option ℕ
  pub updated_at : ℕ

pub record TaskSnapshot : Type 0 where
  pub tenant_id : ℕ
  pub task_id : ℕ
  pub run_id : ℕ
  pub stage_execution_id : Option ℕ
  pub logical_key : ℕ
  pub kind : TaskKind
  pub status : TaskStatus
  pub generation : ℕ
  pub attempt : ℕ
  pub max_attempts : ℕ
  pub available_at : ℕ
  pub input : Value

pub record ClaimedTask : Type 0 where
  pub task : TaskSnapshot
  pub run_version : ℕ
  pub lease_expires_at : ℕ

pub data LeaseExpiryAction : Type 0 where
  retry_scheduled dead_lettered : LeaseExpiryAction

pub record LeaseReclaimOutcome : Type 0 where
  pub tenant_id : ℕ
  pub run_id : ℕ
  pub task_id : ℕ
  pub attempt : ℕ
  pub action : LeaseExpiryAction
  pub reclaimed_at : ℕ

-- What `outcome_json` holds, by the `encode_…_receipt` that wrote it.
pub data ReceiptOutcome : Type 0 where
  claim : Option ClaimedTask → ReceiptOutcome
  run : RunSnapshot → ReceiptOutcome
  lease_reclaim : Option LeaseReclaimOutcome → ReceiptOutcome

-- The column `outcome_kind`.
pub data OutcomeKind : Type 0 where
  outcome_unknown applied no_op : OutcomeKind

pub record ReceiptRow : Type 0 where
  pub receipt_id : ℕ
  pub tenant_id : ℕ
  pub scope : ℕ
  pub idempotency_key : ℕ
  pub request_hash : ℕ
  pub outcome_kind : OutcomeKind
  pub outcome : Option ReceiptOutcome
  pub event_id : Option ℕ
  pub resource : Option (String × ℕ × ℕ)
  pub created_at : ℕ
  pub expires_at : ℕ

pub record CommandContext : Type 0 where
  pub tenant_id : ℕ
  pub command_id : ℕ
  pub correlation_id : ℕ
  pub scope : ℕ
  pub idempotency_key : ℕ
  pub request_hash : ℕ

pub record ExpectedRun : Type 0 where
  pub run_id : ℕ
  pub version : Option ℕ
  pub execution_generation : Option ℕ

pub record LeaseProof : Type 0 where
  pub task_id : ℕ
  pub worker_id : ℕ
  pub token : ℕ
  pub execution_generation : ℕ
