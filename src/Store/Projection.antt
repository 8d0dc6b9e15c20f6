-- ===== src/Store/Projection.antt =====
-- What adapters report of tools and agents, and what it becomes in the tables:
-- durable-store/src/external_command.rs and project_tool_outcome of transaction_executor.rs, and in
-- Agents project_agent_submission and validate_agent_outcome. A payload is a number; serde_json's
-- `from_slice` is a parameter, none for bytes that are not JSON.
pub mod Laws
pub mod Agents
pub mod Examples
use Prim.Native.String.{String}
use agent_loom.Base.{
  ℕ, Bool, true, false, ◌&&◌, ◌||◌, not, Option, none, some, is_some, is_some_and,
}
use agent_loom.Domain.Json.{Value}
use agent_loom.Domain.Status.{ToolExecutionStatus}
use agent_loom.Store.Result.{StoreErrorCode, StoreResult, ok, err, ◌>>=◌, ◌>>◌, reject_if, ok_or}
use agent_loom.Store.Fail.{is_empty_text}

pub data ExecutionRetryClass : Type 0 where
  never same_request_backoff reconnect_and_resume query_outcome manual_review : ExecutionRetryClass

pub data ToolRecordedOutcome : Type 0 where
  completed : (result : ℕ) → ToolRecordedOutcome
  accepted : (external_ref : String) → ToolRecordedOutcome
  failed :
      (error_code : String) (retry : ExecutionRetryClass) (retry_at : Option ℕ)
      → ToolRecordedOutcome
  uncertain : (external_ref : Option String) (recovery_action : String) → ToolRecordedOutcome
  compensated : (result : ℕ) → ToolRecordedOutcome

abbrev pub failed_status : ExecutionRetryClass → ToolExecutionStatus
failed_status ExecutionRetryClass.same_request_backoff = ToolExecutionStatus.retry_scheduled
failed_status ExecutionRetryClass.query_outcome = ToolExecutionStatus.reconciling
failed_status ExecutionRetryClass.reconnect_and_resume = ToolExecutionStatus.reconciling
failed_status ExecutionRetryClass.never = ToolExecutionStatus.failed
failed_status ExecutionRetryClass.manual_review = ToolExecutionStatus.manual_review

-- `ToolRecordedOutcome::projected_status`.
abbrev pub projected_status : ToolRecordedOutcome → ToolExecutionStatus
projected_status (ToolRecordedOutcome.completed result) = ToolExecutionStatus.succeeded
projected_status (ToolRecordedOutcome.accepted external_ref) = ToolExecutionStatus.executing
projected_status (ToolRecordedOutcome.failed error_code retry retry_at) = failed_status retry
projected_status (ToolRecordedOutcome.uncertain external_ref recovery_action) =
    ToolExecutionStatus.outcome_unknown
projected_status (ToolRecordedOutcome.compensated result) = ToolExecutionStatus.compensated

pub record ProjectedToolOutcome : Type 0 where
  pub status : ToolExecutionStatus
  pub result : Option Value
  pub error_code : Option String
  pub retry_class : Option String
  pub recovery_action : Option String
  pub external_ref : Option String
  pub retry_at : Option ℕ
  pub attempt_outcome : String
  pub event_type : String

-- `json_value`.
abbrev pub json_value : (ℕ → Option Value) → ℕ → StoreResult Value
json_value from_slice payload = ok_or (from_slice payload) StoreErrorCode.constraint_violation

-- The status, the class and the recovery action of a failure, in the store's own order.
abbrev retry_columns : ExecutionRetryClass → ToolExecutionStatus × String × Option String
retry_columns ExecutionRetryClass.never = (ToolExecutionStatus.failed, "never", none)
retry_columns ExecutionRetryClass.same_request_backoff =
    (ToolExecutionStatus.retry_scheduled, "same_request_backoff", some "retry_same_request")
retry_columns ExecutionRetryClass.reconnect_and_resume =
    (ToolExecutionStatus.reconciling, "reconnect_and_resume", some "reconnect_and_resume")
retry_columns ExecutionRetryClass.query_outcome =
    (ToolExecutionStatus.reconciling, "query_outcome", some "query_outcome")
retry_columns ExecutionRetryClass.manual_review =
    (ToolExecutionStatus.manual_review, "manual_review", some "manual_review")

abbrev pub is_retry_scheduled : ToolExecutionStatus → Bool
is_retry_scheduled ToolExecutionStatus.retry_scheduled = true
is_retry_scheduled _ = false

-- `!=` on Booleans.
abbrev pub differ : Bool → Bool → Bool
differ a b = a && not b || (not a && b)

-- `project_tool_outcome`.
unfoldable pub project_tool_outcome :
    (ℕ → Option Value) → ToolRecordedOutcome → StoreResult ProjectedToolOutcome
project_tool_outcome from_slice (ToolRecordedOutcome.completed result) = do
  value ← json_value from_slice result
  ok (record {
    status = ToolExecutionStatus.succeeded;
    result = some value;
    error_code = none;
    retry_class = none;
    recovery_action = none;
    external_ref = none;
    retry_at = none;
    attempt_outcome = "completed";
    event_type = "tool.execution_succeeded";
  })
project_tool_outcome from_slice (ToolRecordedOutcome.accepted external_ref) = do
  reject_if (is_empty_text external_ref) StoreErrorCode.constraint_violation
  ok (record {
    status = ToolExecutionStatus.executing;
    result = none;
    error_code = none;
    retry_class = none;
    recovery_action = none;
    external_ref = some external_ref;
    retry_at = none;
    attempt_outcome = "accepted";
    event_type = "tool.execution_accepted";
  })
project_tool_outcome from_slice (ToolRecordedOutcome.failed error_code retry retry_at) = do
  reject_if (is_empty_text error_code) StoreErrorCode.constraint_violation
  reject_if (differ (is_retry_scheduled (retry_columns retry).0) (is_some retry_at))
      StoreErrorCode.constraint_violation
  ok (record {
    status = (retry_columns retry).0;
    result = none;
    error_code = some error_code;
    retry_class = some (retry_columns retry).1;
    recovery_action = (retry_columns retry).2;
    external_ref = none;
    retry_at = retry_at;
    attempt_outcome = "failed";
    event_type = "tool.execution_failed";
  })
project_tool_outcome from_slice (ToolRecordedOutcome.uncertain external_ref recovery_action) = do
  reject_if (is_some_and external_ref is_empty_text || is_empty_text recovery_action)
      StoreErrorCode.constraint_violation
  ok (record {
    status = ToolExecutionStatus.outcome_unknown;
    result = none;
    error_code = none;
    retry_class = some "query_outcome";
    recovery_action = some recovery_action;
    external_ref = external_ref;
    retry_at = none;
    attempt_outcome = "uncertain";
    event_type = "tool.execution_outcome_unknown";
  })
project_tool_outcome from_slice (ToolRecordedOutcome.compensated result) = do
  value ← json_value from_slice result
  ok (record {
    status = ToolExecutionStatus.compensated;
    result = some value;
    error_code = none;
    retry_class = none;
    recovery_action = none;
    external_ref = none;
    retry_at = none;
    attempt_outcome = "completed";
    event_type = "tool.execution_compensated";
  })
