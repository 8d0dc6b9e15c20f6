-- ===== src/Store/Projection/Agents.antt =====
-- project_agent_submission, validate_agent_outcome and agent_workflow_projection_allowed of
-- transaction_executor.rs, with their commands of durable-store/src/external_command.rs.
pub mod Laws
pub mod Outcomes
use Prim.Native.String.{String}
use agent_loom.Base.{
  ℕ, Bool, true, false, ◌&&◌, ◌||◌, not, Option, none, some, is_some, is_some_and, is_none_or, ◌==◌,
  ltb,
}
use agent_loom.Domain.Json.{Value}
use agent_loom.Domain.Status.{
  RunStatus, AgentExecutionStatus, is_terminal_agent, agent_requires_reconciliation,
}
use agent_loom.Store.Result.{StoreErrorCode, StoreResult, ok, err, ◌>>=◌, ◌>>◌, reject_if}
use agent_loom.Store.Fail.{is_empty_text}
use agent_loom.Store.Projection.{ExecutionRetryClass, differ, json_value}

pub data AgentSubmissionOutcome : Type 0 where
  accepted :
      (remote_run_ref : String) (remote_session_ref : Option String)
      (remote_protocol_version : String)
      → AgentSubmissionOutcome
  uncertain : AgentSubmissionOutcome
  rejected :
      (error_code : String) (retry : ExecutionRetryClass) (retry_at : Option ℕ)
      → AgentSubmissionOutcome

pub record ProjectedAgentSubmission : Type 0 where
  pub status : AgentExecutionStatus
  pub remote_run_ref : Option String
  pub remote_session_ref : Option String
  pub remote_protocol_version : Option String
  pub error_code : Option String
  pub retry_at : Option ℕ
  pub event_type : String

abbrev rejected_status : ExecutionRetryClass → AgentExecutionStatus
rejected_status ExecutionRetryClass.never = AgentExecutionStatus.failed
rejected_status ExecutionRetryClass.manual_review = AgentExecutionStatus.manual_review
rejected_status ExecutionRetryClass.same_request_backoff = AgentExecutionStatus.reconciling
rejected_status ExecutionRetryClass.reconnect_and_resume = AgentExecutionStatus.reconciling
rejected_status ExecutionRetryClass.query_outcome = AgentExecutionStatus.reconciling

abbrev pub is_backoff : ExecutionRetryClass → Bool
is_backoff ExecutionRetryClass.same_request_backoff = true
is_backoff _ = false

-- `project_agent_submission`.
unfoldable pub project_agent_submission :
    AgentSubmissionOutcome → StoreResult ProjectedAgentSubmission
project_agent_submission
      (AgentSubmissionOutcome.accepted remote_run_ref remote_session_ref remote_protocol_version) =
    do
      reject_if
          (is_empty_text remote_run_ref
            || (is_some_and remote_session_ref is_empty_text
                || is_empty_text remote_protocol_version))
          StoreErrorCode.constraint_violation
      ok (record {
        status = AgentExecutionStatus.running;
        remote_run_ref = some remote_run_ref;
        remote_session_ref = remote_session_ref;
        remote_protocol_version = some remote_protocol_version;
        error_code = none;
        retry_at = none;
        event_type = "agent.submission_accepted";
      })
project_agent_submission AgentSubmissionOutcome.uncertain = ok (record {
  status = AgentExecutionStatus.outcome_unknown;
  remote_run_ref = none;
  remote_session_ref = none;
  remote_protocol_version = none;
  error_code = none;
  retry_at = none;
  event_type = "agent.submission_outcome_unknown";
})
project_agent_submission (AgentSubmissionOutcome.rejected error_code retry retry_at) = do
  reject_if (is_empty_text error_code) StoreErrorCode.constraint_violation
  reject_if (differ (is_backoff retry) (is_some retry_at)) StoreErrorCode.constraint_violation
  ok (record {
    status = rejected_status retry;
    remote_run_ref = none;
    remote_session_ref = none;
    remote_protocol_version = none;
    error_code = some error_code;
    retry_at = retry_at;
    event_type = "agent.submission_rejected";
  })

pub record RecordAgentOutcome : Type 0 where
  pub agent_execution_id : ℕ
  pub expected_version : ℕ
  pub status : AgentExecutionStatus
  pub result : Option ℕ
  pub error_code : Option String
  pub next_status_poll_at : Option ℕ
  pub outcome_event_id : ℕ

abbrev pub is_manual_review : AgentExecutionStatus → Bool
is_manual_review AgentExecutionStatus.manual_review = true
is_manual_review _ = false

abbrev pub is_reconciling : AgentExecutionStatus → Bool
is_reconciling AgentExecutionStatus.reconciling = true
is_reconciling _ = false

-- `RecordAgentOutcome::shape_is_valid`.
abbrev pub agent_shape_is_valid : RecordAgentOutcome → Bool
agent_shape_is_valid command =
    is_terminal_agent command.status
    || (agent_requires_reconciliation command.status || is_manual_review command.status)

-- The match of `validate_agent_outcome`.
abbrev pub fits_status : AgentExecutionStatus → Option ℕ → Option String → Bool
fits_status AgentExecutionStatus.succeeded result error_code =
    is_some result && not (is_some error_code)
fits_status AgentExecutionStatus.failed result error_code =
    not (is_some result) && is_some error_code
fits_status AgentExecutionStatus.cancelled result error_code = not (is_some result)
fits_status AgentExecutionStatus.outcome_unknown result error_code = not (is_some result)
fits_status AgentExecutionStatus.reconciling result error_code = not (is_some result)
fits_status AgentExecutionStatus.manual_review result error_code = not (is_some result)
fits_status AgentExecutionStatus.planned result error_code = false
fits_status AgentExecutionStatus.submitting result error_code = false
fits_status AgentExecutionStatus.running result error_code = false
fits_status AgentExecutionStatus.stopping result error_code = false

abbrev pub check_result : (ℕ → Option Value) → Option ℕ → StoreResult (Unit {0})
check_result from_slice none = ok tt
check_result from_slice (some payload) = json_value from_slice payload >>= (λ value. ok tt)

-- `validate_agent_outcome`.
unfoldable pub validate_agent_outcome :
    (ℕ → Option Value) → RecordAgentOutcome → StoreResult (Unit {0})
validate_agent_outcome from_slice command = do
  reject_if (not (agent_shape_is_valid command)) StoreErrorCode.constraint_violation
  reject_if (is_some_and command.error_code is_empty_text) StoreErrorCode.constraint_violation
  reject_if (not (is_reconciling command.status) && is_some command.next_status_poll_at)
      StoreErrorCode.constraint_violation
  reject_if (not (fits_status command.status command.result command.error_code))
      StoreErrorCode.constraint_violation
  check_result from_slice command.result
