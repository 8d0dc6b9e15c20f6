-- ===== src/Store/Projection/Examples.antt =====
-- Reports of a tool and of an agent.
use agent_loom.Base.{ℕ, ◌≡◌, ◌↔◌, refl, Option, some, none, ◌==◌, if◌then◌else◌}
use agent_loom.Domain.Json.{Value, null}
use agent_loom.Domain.Status.{AgentExecutionStatus}
use agent_loom.Store.Result.{ok, err, StoreErrorCode}
use agent_loom.Store.Projection.{ExecutionRetryClass, ToolRecordedOutcome, project_tool_outcome}
use agent_loom.Store.Projection.Agents.{
  AgentSubmissionOutcome, RecordAgentOutcome, validate_agent_outcome,
}
use agent_loom.Store.Projection.Agents.Laws.{
  DecidesSubmission, project_agent_submission-DecidesSubmission,
}
use agent_loom.Store.Projection.Agents.Outcomes.{IsAgentOutcome, validate_agent_outcome_iff}

-- Only payload 1 is JSON.
abbrev one_payload : ℕ → Option Value
one_payload payload = if payload == 1 then some null else none

abbrev a_backoff : ToolRecordedOutcome
a_backoff = ToolRecordedOutcome.failed "TIMEOUT" ExecutionRetryClass.same_request_backoff (some 500)

abbrev a_rejection : AgentSubmissionOutcome
a_rejection = AgentSubmissionOutcome.rejected "BUSY" ExecutionRetryClass.never (some 500)

abbrev an_outcome : RecordAgentOutcome
an_outcome = record {
  agent_execution_id = 80;
  expected_version = 2;
  status = AgentExecutionStatus.succeeded;
  result = some 1;
  error_code = none;
  next_status_poll_at = none;
  outcome_event_id = 81;
}

no_json :
    project_tool_outcome one_payload (ToolRecordedOutcome.completed 2)
    ≡ err StoreErrorCode.constraint_violation
unfolding project_tool_outcome
no_json = refl

project_agent_submission-DecidesSubmission_example : DecidesSubmission a_rejection
project_agent_submission-DecidesSubmission_example =
    project_agent_submission-DecidesSubmission a_rejection

validate_agent_outcome_iff_example :
    (validate_agent_outcome one_payload an_outcome ≡ ok tt)
    ↔ IsAgentOutcome one_payload AgentExecutionStatus.succeeded (some 1) none none
validate_agent_outcome_iff_example = validate_agent_outcome_iff one_payload an_outcome
