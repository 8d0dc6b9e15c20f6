-- ===== src/Store/Codecs.antt =====
-- How the statuses, kinds and policies are written in their columns and read back
-- (store-postgres/src/transaction_executor.rs, and query_executor.rs for the stages).
pub mod Laws
use Prim.Native.String.{String}
use text.Mathlib.Text.{◌==◌ as str_eq}
use agent_loom.Base.{Bool, true, false, if◌then◌else◌}
use agent_loom.Domain.Status.{
  RunStatus, StageStatus, ToolExecutionStatus, AgentExecutionStatus, TaskKind,
  ScheduleMisfirePolicy, ScheduleConcurrencyPolicy,
}
use agent_loom.Store.Result.{StoreErrorCode, StoreResult, ok, err}

abbrev pub run_status : RunStatus → String
run_status RunStatus.queued = "queued"
run_status RunStatus.running = "running"
run_status RunStatus.waiting = "waiting"
run_status RunStatus.approval_required = "approval_required"
run_status RunStatus.retrying = "retrying"
run_status RunStatus.paused = "paused"
run_status RunStatus.completed = "completed"
run_status RunStatus.failed = "failed"
run_status RunStatus.cancelled = "cancelled"
run_status RunStatus.timed_out = "timed_out"

abbrev pub parse_run_status : String → StoreResult RunStatus
parse_run_status value =
    if str_eq value "queued"
    then ok RunStatus.queued
    else if str_eq value "running"
    then ok RunStatus.running
    else if str_eq value "waiting"
    then ok RunStatus.waiting
    else if str_eq value "approval_required"
    then ok RunStatus.approval_required
    else if str_eq value "retrying"
    then ok RunStatus.retrying
    else if str_eq value "paused"
    then ok RunStatus.paused
    else if str_eq value "completed"
    then ok RunStatus.completed
    else if str_eq value "failed"
    then ok RunStatus.failed
    else if str_eq value "cancelled"
    then ok RunStatus.cancelled
    else if str_eq value "timed_out"
    then ok RunStatus.timed_out
    else err StoreErrorCode.inconsistent_projection

abbrev pub task_kind : TaskKind → String
task_kind TaskKind.model = "model"
task_kind TaskKind.tool = "tool"
task_kind TaskKind.agent_server = "agent_server"
task_kind TaskKind.artifact_check = "artifact_check"
task_kind TaskKind.timer_wakeup = "timer_wakeup"
task_kind TaskKind.reconcile = "reconcile"
task_kind TaskKind.stop_external_execution = "stop_external_execution"

abbrev pub parse_task_kind : String → StoreResult TaskKind
parse_task_kind value =
    if str_eq value "model"
    then ok TaskKind.model
    else if str_eq value "tool"
    then ok TaskKind.tool
    else if str_eq value "agent_server"
    then ok TaskKind.agent_server
    else if str_eq value "artifact_check"
    then ok TaskKind.artifact_check
    else if str_eq value "timer_wakeup"
    then ok TaskKind.timer_wakeup
    else if str_eq value "reconcile"
    then ok TaskKind.reconcile
    else if str_eq value "stop_external_execution"
    then ok TaskKind.stop_external_execution
    else err StoreErrorCode.inconsistent_projection

abbrev pub tool_status : ToolExecutionStatus → String
tool_status ToolExecutionStatus.planned = "planned"
tool_status ToolExecutionStatus.executing = "executing"
tool_status ToolExecutionStatus.retry_scheduled = "retry_scheduled"
tool_status ToolExecutionStatus.succeeded = "succeeded"
tool_status ToolExecutionStatus.failed = "failed"
tool_status ToolExecutionStatus.outcome_unknown = "outcome_unknown"
tool_status ToolExecutionStatus.reconciling = "reconciling"
tool_status ToolExecutionStatus.compensated = "compensated"
tool_status ToolExecutionStatus.manual_review = "manual_review"

abbrev pub parse_tool_status : String → StoreResult ToolExecutionStatus
parse_tool_status value =
    if str_eq value "planned"
    then ok ToolExecutionStatus.planned
    else if str_eq value "executing"
    then ok ToolExecutionStatus.executing
    else if str_eq value "retry_scheduled"
    then ok ToolExecutionStatus.retry_scheduled
    else if str_eq value "succeeded"
    then ok ToolExecutionStatus.succeeded
    else if str_eq value "failed"
    then ok ToolExecutionStatus.failed
    else if str_eq value "outcome_unknown"
    then ok ToolExecutionStatus.outcome_unknown
    else if str_eq value "reconciling"
    then ok ToolExecutionStatus.reconciling
    else if str_eq value "compensated"
    then ok ToolExecutionStatus.compensated
    else if str_eq value "manual_review"
    then ok ToolExecutionStatus.manual_review
    else err StoreErrorCode.inconsistent_projection

abbrev pub agent_status : AgentExecutionStatus → String
agent_status AgentExecutionStatus.planned = "planned"
agent_status AgentExecutionStatus.submitting = "submitting"
agent_status AgentExecutionStatus.running = "running"
agent_status AgentExecutionStatus.stopping = "stopping"
agent_status AgentExecutionStatus.succeeded = "succeeded"
agent_status AgentExecutionStatus.failed = "failed"
agent_status AgentExecutionStatus.cancelled = "cancelled"
agent_status AgentExecutionStatus.outcome_unknown = "outcome_unknown"
agent_status AgentExecutionStatus.reconciling = "reconciling"
agent_status AgentExecutionStatus.manual_review = "manual_review"

abbrev pub parse_agent_status : String → StoreResult AgentExecutionStatus
parse_agent_status value =
    if str_eq value "planned"
    then ok AgentExecutionStatus.planned
    else if str_eq value "submitting"
    then ok AgentExecutionStatus.submitting
    else if str_eq value "running"
    then ok AgentExecutionStatus.running
    else if str_eq value "stopping"
    then ok AgentExecutionStatus.stopping
    else if str_eq value "succeeded"
    then ok AgentExecutionStatus.succeeded
    else if str_eq value "failed"
    then ok AgentExecutionStatus.failed
    else if str_eq value "cancelled"
    then ok AgentExecutionStatus.cancelled
    else if str_eq value "outcome_unknown"
    then ok AgentExecutionStatus.outcome_unknown
    else if str_eq value "reconciling"
    then ok AgentExecutionStatus.reconciling
    else if str_eq value "manual_review"
    then ok AgentExecutionStatus.manual_review
    else err StoreErrorCode.inconsistent_projection

abbrev pub stage_status : StageStatus → String
stage_status StageStatus.planned = "planned"
stage_status StageStatus.active = "active"
stage_status StageStatus.waiting_approval = "waiting_approval"
stage_status StageStatus.rework_required = "rework_required"
stage_status StageStatus.succeeded = "succeeded"
stage_status StageStatus.failed = "failed"
stage_status StageStatus.skipped = "skipped"
stage_status StageStatus.cancelled = "cancelled"

abbrev pub parse_stage_status : String → StoreResult StageStatus
parse_stage_status value =
    if str_eq value "planned"
    then ok StageStatus.planned
    else if str_eq value "active"
    then ok StageStatus.active
    else if str_eq value "waiting_approval"
    then ok StageStatus.waiting_approval
    else if str_eq value "rework_required"
    then ok StageStatus.rework_required
    else if str_eq value "succeeded"
    then ok StageStatus.succeeded
    else if str_eq value "failed"
    then ok StageStatus.failed
    else if str_eq value "skipped"
    then ok StageStatus.skipped
    else if str_eq value "cancelled"
    then ok StageStatus.cancelled
    else err StoreErrorCode.inconsistent_projection

abbrev pub misfire_policy_value : ScheduleMisfirePolicy → String
misfire_policy_value ScheduleMisfirePolicy.skip = "skip"
misfire_policy_value ScheduleMisfirePolicy.fire_once = "fire_once"
misfire_policy_value ScheduleMisfirePolicy.catch_up = "catch_up"

abbrev pub parse_misfire_policy : String → StoreResult ScheduleMisfirePolicy
parse_misfire_policy value =
    if str_eq value "skip"
    then ok ScheduleMisfirePolicy.skip
    else if str_eq value "fire_once"
    then ok ScheduleMisfirePolicy.fire_once
    else if str_eq value "catch_up"
    then ok ScheduleMisfirePolicy.catch_up
    else err StoreErrorCode.inconsistent_projection

abbrev pub concurrency_policy_value : ScheduleConcurrencyPolicy → String
concurrency_policy_value ScheduleConcurrencyPolicy.allow = "allow"
concurrency_policy_value ScheduleConcurrencyPolicy.forbid = "forbid"

abbrev pub parse_concurrency_policy : String → StoreResult ScheduleConcurrencyPolicy
parse_concurrency_policy value =
    if str_eq value "allow"
    then ok ScheduleConcurrencyPolicy.allow
    else if str_eq value "forbid"
    then ok ScheduleConcurrencyPolicy.forbid
    else err StoreErrorCode.inconsistent_projection
