-- ===== src/Domain/Status.antt =====
-- crates/domain/src/status.rs: the status enums and their classifications, and the kinds of tasks
-- (model.rs) and their joins (plan.rs).
use agent_loom.Base.{Bool, true, false}

pub data RunStatus : Type 0 where
  queued running waiting approval_required retrying paused completed failed cancelled timed_out :
      RunStatus

pub data ScheduleMisfirePolicy : Type 0 where
  skip fire_once catch_up : ScheduleMisfirePolicy

pub data ScheduleConcurrencyPolicy : Type 0 where
  allow forbid : ScheduleConcurrencyPolicy

pub data StageStatus : Type 0 where
  planned active waiting_approval rework_required succeeded failed skipped cancelled : StageStatus

pub data TaskStatus : Type 0 where
  scheduled queued leased retry_scheduled succeeded failed dead_lettered skipped cancelled :
      TaskStatus

pub data TaskKind : Type 0 where
  model tool agent_server artifact_check timer_wakeup reconcile stop_external_execution : TaskKind

pub data JoinPolicy : Type 0 where
  all any : JoinPolicy

pub data WaitStatus : Type 0 where
  open_wait consumed expired cancelled : WaitStatus

pub data ToolExecutionStatus : Type 0 where
  planned executing retry_scheduled succeeded failed outcome_unknown reconciling compensated
        manual_review :
      ToolExecutionStatus

pub data AgentExecutionStatus : Type 0 where
  planned submitting running stopping succeeded failed cancelled outcome_unknown reconciling
        manual_review :
      AgentExecutionStatus

-- `RunStatus::is_terminal`.
abbrev pub is_terminal_run : RunStatus → Bool
is_terminal_run RunStatus.completed = true
is_terminal_run RunStatus.failed = true
is_terminal_run RunStatus.cancelled = true
is_terminal_run RunStatus.timed_out = true
is_terminal_run _ = false

-- `RunStatus::accepts_task_claim`.
abbrev pub accepts_task_claim : RunStatus → Bool
accepts_task_claim RunStatus.queued = true
accepts_task_claim RunStatus.running = true
accepts_task_claim RunStatus.retrying = true
accepts_task_claim _ = false

abbrev pub is_paused : RunStatus → Bool
is_paused RunStatus.paused = true
is_paused _ = false

-- `StageStatus::is_terminal`.
abbrev pub is_terminal_stage : StageStatus → Bool
is_terminal_stage StageStatus.succeeded = true
is_terminal_stage StageStatus.failed = true
is_terminal_stage StageStatus.skipped = true
is_terminal_stage StageStatus.cancelled = true
is_terminal_stage _ = false

-- `TaskStatus::is_terminal`.
abbrev pub is_terminal_task : TaskStatus → Bool
is_terminal_task TaskStatus.succeeded = true
is_terminal_task TaskStatus.failed = true
is_terminal_task TaskStatus.dead_lettered = true
is_terminal_task TaskStatus.skipped = true
is_terminal_task TaskStatus.cancelled = true
is_terminal_task _ = false

abbrev pub is_leased : TaskStatus → Bool
is_leased TaskStatus.leased = true
is_leased _ = false

abbrev pub is_scheduled : TaskStatus → Bool
is_scheduled TaskStatus.scheduled = true
is_scheduled _ = false

-- `status IN ('queued', 'retry_scheduled')`.
abbrev pub is_claimable : TaskStatus → Bool
is_claimable TaskStatus.queued = true
is_claimable TaskStatus.retry_scheduled = true
is_claimable _ = false

-- `ToolExecutionStatus::is_terminal`.
abbrev pub is_terminal_tool : ToolExecutionStatus → Bool
is_terminal_tool ToolExecutionStatus.succeeded = true
is_terminal_tool ToolExecutionStatus.failed = true
is_terminal_tool ToolExecutionStatus.compensated = true
is_terminal_tool _ = false

-- `ToolExecutionStatus::requires_reconciliation`.
abbrev pub tool_requires_reconciliation : ToolExecutionStatus → Bool
tool_requires_reconciliation ToolExecutionStatus.outcome_unknown = true
tool_requires_reconciliation ToolExecutionStatus.reconciling = true
tool_requires_reconciliation _ = false

-- `AgentExecutionStatus::is_terminal`.
abbrev pub is_terminal_agent : AgentExecutionStatus → Bool
is_terminal_agent AgentExecutionStatus.succeeded = true
is_terminal_agent AgentExecutionStatus.failed = true
is_terminal_agent AgentExecutionStatus.cancelled = true
is_terminal_agent _ = false

-- `AgentExecutionStatus::requires_reconciliation`.
abbrev pub agent_requires_reconciliation : AgentExecutionStatus → Bool
agent_requires_reconciliation AgentExecutionStatus.outcome_unknown = true
agent_requires_reconciliation AgentExecutionStatus.reconciling = true
agent_requires_reconciliation _ = false
