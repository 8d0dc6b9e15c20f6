-- ===== src/Store/Work.antt =====
-- What counts as open work of a run, and a task that is cancelled with its run.
use Prim.Native.String.{String}
use text.Mathlib.Text.{◌==◌ as str_eq}
use agent_loom.Base.{ℕ, Bool, true, false, ◌&&◌, not, Option, none, some, ◌==◌, is_some}
use agent_loom.Domain.Status.{
  TaskStatus, StageStatus, WaitStatus, ToolExecutionStatus, AgentExecutionStatus,
}
use agent_loom.Store.Rows.{TaskRow, AttemptRow}

-- `status IN ('scheduled', 'queued', 'leased', 'retry_scheduled')`.
abbrev pub is_open_task : TaskStatus → Bool
is_open_task TaskStatus.scheduled = true
is_open_task TaskStatus.queued = true
is_open_task TaskStatus.leased = true
is_open_task TaskStatus.retry_scheduled = true
is_open_task _ = false

abbrev pub is_open_stage : StageStatus → Bool
is_open_stage StageStatus.planned = true
is_open_stage StageStatus.active = true
is_open_stage StageStatus.waiting_approval = true
is_open_stage StageStatus.rework_required = true
is_open_stage _ = false

abbrev pub is_open_wait : WaitStatus → Bool
is_open_wait WaitStatus.open_wait = true
is_open_wait _ = false

abbrev pub is_approval_type : String → Bool
is_approval_type wait_type = str_eq wait_type "approval"

abbrev pub is_planned_agent : AgentExecutionStatus → Bool
is_planned_agent AgentExecutionStatus.planned = true
is_planned_agent _ = false

-- `status IN ('submitting', 'running')`.
abbrev pub is_started_agent : AgentExecutionStatus → Bool
is_started_agent AgentExecutionStatus.submitting = true
is_started_agent AgentExecutionStatus.running = true
is_started_agent _ = false

-- `status IN ('planned', 'retry_scheduled')`.
abbrev pub is_unstarted_tool : ToolExecutionStatus → Bool
is_unstarted_tool ToolExecutionStatus.planned = true
is_unstarted_tool ToolExecutionStatus.retry_scheduled = true
is_unstarted_tool _ = false

abbrev pub is_executing_tool : ToolExecutionStatus → Bool
is_executing_tool ToolExecutionStatus.executing = true
is_executing_tool _ = false

-- The statuses in which an external execution blocks a resume.
abbrev pub tool_blocks : ToolExecutionStatus → Bool
tool_blocks ToolExecutionStatus.executing = true
tool_blocks ToolExecutionStatus.outcome_unknown = true
tool_blocks ToolExecutionStatus.reconciling = true
tool_blocks ToolExecutionStatus.manual_review = true
tool_blocks _ = false

abbrev pub agent_blocks : AgentExecutionStatus → Bool
agent_blocks AgentExecutionStatus.submitting = true
agent_blocks AgentExecutionStatus.running = true
agent_blocks AgentExecutionStatus.stopping = true
agent_blocks AgentExecutionStatus.outcome_unknown = true
agent_blocks AgentExecutionStatus.reconciling = true
agent_blocks AgentExecutionStatus.manual_review = true
agent_blocks _ = false

abbrev pub is_attempt_of : ℕ → ℕ → AttemptRow → Bool
is_attempt_of tenant_id run_id a =
    a.tenant_id == tenant_id && (a.run_id == run_id && not (is_some a.finished_at))

-- A task that is cancelled with its run. Of the two callers one sets an error code.
abbrev pub cancelled_row : (Option String → Option String) → ℕ → TaskRow → TaskRow
cancelled_row set_error now t = record t {
  status = TaskStatus.cancelled;
  lease_owner = none;
  lease_token = none;
  lease_expires_at = none;
  error_code = set_error t.error_code;
  completed_at = some now;
  updated_at = now;
}
