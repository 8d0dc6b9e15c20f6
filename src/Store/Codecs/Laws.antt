-- ===== src/Store/Codecs/Laws.antt =====
-- What is written is read back, and nothing else is.
use Prim.Native.String.{String}
use text.Mathlib.Text.{◌==◌ as str_eq}
use text.Mathlib.TextEquality.{eq_iff}
use agent_loom.Base.{◌≡◌, refl, sym, ◌∙◌, if◌then◌else◌, inl, inr, Bool-cases}
use agent_loom.Domain.Status.{
  RunStatus, StageStatus, ToolExecutionStatus, AgentExecutionStatus, TaskKind,
  ScheduleMisfirePolicy, ScheduleConcurrencyPolicy,
}
use agent_loom.Store.Result.{StoreResult, ok, ok-eq}
use agent_loom.Store.Codecs.{
  run_status, parse_run_status, task_kind, parse_task_kind, tool_status, parse_tool_status,
  agent_status, parse_agent_status, stage_status, parse_stage_status, misfire_policy_value,
  parse_misfire_policy, concurrency_policy_value, parse_concurrency_policy,
}

-- Every value is read back from its text, and a text that is read is the text of its value.
pub record IsCodec {A : Type 0} (encode : A → String) (parse : String → StoreResult A)
    : Type 0 where
  pub reads : (a : A) → parse (encode a) ≡ ok a
  pub writes : (s : String) (a : A) → parse s ≡ ok a → encode a ≡ s

-- One arm of a match on a text.
arm :
    {A : Type 0} (encode : A → String) (s text : String) (value : A) (rest : StoreResult A) (a : A)
    → encode value ≡ text
    → (rest ≡ ok a → encode a ≡ s)
    → (if str_eq s text then ok value else rest) ≡ ok a
    → encode a ≡ s
arm encode s text value rest a own later h = elim (Bool-cases (str_eq s text)) [
  | inl e ↦ let same : value ≡ a = ok-eq (rw e at h) in rw same at (own ∙ sym ((eq_iff s text).0 e))
  | inr e ↦ later (rw e at h)
]

parse_run_status-reads : (a : RunStatus) → parse_run_status (run_status a) ≡ ok a
parse_run_status-reads RunStatus.queued = refl
parse_run_status-reads RunStatus.running = refl
parse_run_status-reads RunStatus.waiting = refl
parse_run_status-reads RunStatus.approval_required = refl
parse_run_status-reads RunStatus.retrying = refl
parse_run_status-reads RunStatus.paused = refl
parse_run_status-reads RunStatus.completed = refl
parse_run_status-reads RunStatus.failed = refl
parse_run_status-reads RunStatus.cancelled = refl
parse_run_status-reads RunStatus.timed_out = refl

parse_run_status-writes :
    (s : String) (a : RunStatus) → parse_run_status s ≡ ok a → run_status a ≡ s
parse_run_status-writes s a = arm run_status s "queued" RunStatus.queued _ a refl (
    arm run_status s "running" RunStatus.running _ a refl (
      arm run_status s "waiting" RunStatus.waiting _ a refl (
        arm run_status s "approval_required" RunStatus.approval_required _ a refl (
          arm run_status s "retrying" RunStatus.retrying _ a refl (
            arm run_status s "paused" RunStatus.paused _ a refl (
              arm run_status s "completed" RunStatus.completed _ a refl (
                arm run_status s "failed" RunStatus.failed _ a refl (
                  arm run_status s "cancelled" RunStatus.cancelled _ a refl (
                    arm run_status s "timed_out" RunStatus.timed_out _ a refl
                      ((λ h. absurd cc)))))))))))

parse_task_kind-reads : (a : TaskKind) → parse_task_kind (task_kind a) ≡ ok a
parse_task_kind-reads TaskKind.model = refl
parse_task_kind-reads TaskKind.tool = refl
parse_task_kind-reads TaskKind.agent_server = refl
parse_task_kind-reads TaskKind.artifact_check = refl
parse_task_kind-reads TaskKind.timer_wakeup = refl
parse_task_kind-reads TaskKind.reconcile = refl
parse_task_kind-reads TaskKind.stop_external_execution = refl

parse_task_kind-writes : (s : String) (a : TaskKind) → parse_task_kind s ≡ ok a → task_kind a ≡ s
parse_task_kind-writes s a = arm task_kind s "model" TaskKind.model _ a refl (
    arm task_kind s "tool" TaskKind.tool _ a refl (
      arm task_kind s "agent_server" TaskKind.agent_server _ a refl (
        arm task_kind s "artifact_check" TaskKind.artifact_check _ a refl (
          arm task_kind s "timer_wakeup" TaskKind.timer_wakeup _ a refl (
            arm task_kind s "reconcile" TaskKind.reconcile _ a refl (
              arm task_kind s "stop_external_execution" TaskKind.stop_external_execution _ a refl
                ((λ h. absurd cc))))))))

parse_tool_status-reads : (a : ToolExecutionStatus) → parse_tool_status (tool_status a) ≡ ok a
parse_tool_status-reads ToolExecutionStatus.planned = refl
parse_tool_status-reads ToolExecutionStatus.executing = refl
parse_tool_status-reads ToolExecutionStatus.retry_scheduled = refl
parse_tool_status-reads ToolExecutionStatus.succeeded = refl
parse_tool_status-reads ToolExecutionStatus.failed = refl
parse_tool_status-reads ToolExecutionStatus.outcome_unknown = refl
parse_tool_status-reads ToolExecutionStatus.reconciling = refl
parse_tool_status-reads ToolExecutionStatus.compensated = refl
parse_tool_status-reads ToolExecutionStatus.manual_review = refl

parse_tool_status-writes :
    (s : String) (a : ToolExecutionStatus) → parse_tool_status s ≡ ok a → tool_status a ≡ s
parse_tool_status-writes s a = arm tool_status s "planned" ToolExecutionStatus.planned _ a refl (
    arm tool_status s "executing" ToolExecutionStatus.executing _ a refl (
      arm tool_status s "retry_scheduled" ToolExecutionStatus.retry_scheduled _ a refl (
        arm tool_status s "succeeded" ToolExecutionStatus.succeeded _ a refl (
          arm tool_status s "failed" ToolExecutionStatus.failed _ a refl (
            arm tool_status s "outcome_unknown" ToolExecutionStatus.outcome_unknown _ a refl (
              arm tool_status s "reconciling" ToolExecutionStatus.reconciling _ a refl (
                arm tool_status s "compensated" ToolExecutionStatus.compensated _ a refl (
                  arm tool_status s "manual_review" ToolExecutionStatus.manual_review _ a refl
                    ((λ h. absurd cc))))))))))

parse_agent_status-reads : (a : AgentExecutionStatus) → parse_agent_status (agent_status a) ≡ ok a
parse_agent_status-reads AgentExecutionStatus.planned = refl
parse_agent_status-reads AgentExecutionStatus.submitting = refl
parse_agent_status-reads AgentExecutionStatus.running = refl
parse_agent_status-reads AgentExecutionStatus.stopping = refl
parse_agent_status-reads AgentExecutionStatus.succeeded = refl
parse_agent_status-reads AgentExecutionStatus.failed = refl
parse_agent_status-reads AgentExecutionStatus.cancelled = refl
parse_agent_status-reads AgentExecutionStatus.outcome_unknown = refl
parse_agent_status-reads AgentExecutionStatus.reconciling = refl
parse_agent_status-reads AgentExecutionStatus.manual_review = refl

parse_agent_status-writes :
    (s : String) (a : AgentExecutionStatus) → parse_agent_status s ≡ ok a → agent_status a ≡ s
parse_agent_status-writes s a = arm agent_status s "planned" AgentExecutionStatus.planned _ a refl (
    arm agent_status s "submitting" AgentExecutionStatus.submitting _ a refl (
      arm agent_status s "running" AgentExecutionStatus.running _ a refl (
        arm agent_status s "stopping" AgentExecutionStatus.stopping _ a refl (
          arm agent_status s "succeeded" AgentExecutionStatus.succeeded _ a refl (
            arm agent_status s "failed" AgentExecutionStatus.failed _ a refl (
              arm agent_status s "cancelled" AgentExecutionStatus.cancelled _ a refl (
                arm agent_status s "outcome_unknown" AgentExecutionStatus.outcome_unknown _ a refl (
                  arm agent_status s "reconciling" AgentExecutionStatus.reconciling _ a refl (
                    arm agent_status s "manual_review" AgentExecutionStatus.manual_review _ a refl
                      ((λ h. absurd cc)))))))))))

parse_stage_status-reads : (a : StageStatus) → parse_stage_status (stage_status a) ≡ ok a
parse_stage_status-reads StageStatus.planned = refl
parse_stage_status-reads StageStatus.active = refl
parse_stage_status-reads StageStatus.waiting_approval = refl
parse_stage_status-reads StageStatus.rework_required = refl
parse_stage_status-reads StageStatus.succeeded = refl
parse_stage_status-reads StageStatus.failed = refl
parse_stage_status-reads StageStatus.skipped = refl
parse_stage_status-reads StageStatus.cancelled = refl

parse_stage_status-writes :
    (s : String) (a : StageStatus) → parse_stage_status s ≡ ok a → stage_status a ≡ s
parse_stage_status-writes s a = arm stage_status s "planned" StageStatus.planned _ a refl (
    arm stage_status s "active" StageStatus.active _ a refl (
      arm stage_status s "waiting_approval" StageStatus.waiting_approval _ a refl (
        arm stage_status s "rework_required" StageStatus.rework_required _ a refl (
          arm stage_status s "succeeded" StageStatus.succeeded _ a refl (
            arm stage_status s "failed" StageStatus.failed _ a refl (
              arm stage_status s "skipped" StageStatus.skipped _ a refl (
                arm stage_status s "cancelled" StageStatus.cancelled _ a refl
                  ((λ h. absurd cc)))))))))

parse_misfire_policy-reads :
    (a : ScheduleMisfirePolicy) → parse_misfire_policy (misfire_policy_value a) ≡ ok a
parse_misfire_policy-reads ScheduleMisfirePolicy.skip = refl
parse_misfire_policy-reads ScheduleMisfirePolicy.fire_once = refl
parse_misfire_policy-reads ScheduleMisfirePolicy.catch_up = refl

parse_misfire_policy-writes :
    (s : String) (a : ScheduleMisfirePolicy)
    → parse_misfire_policy s ≡ ok a
    → misfire_policy_value a ≡ s
parse_misfire_policy-writes s a =
    arm misfire_policy_value s "skip" ScheduleMisfirePolicy.skip _ a refl (
      arm misfire_policy_value s "fire_once" ScheduleMisfirePolicy.fire_once _ a refl (
        arm misfire_policy_value s "catch_up" ScheduleMisfirePolicy.catch_up _ a refl
          ((λ h. absurd cc))))

parse_concurrency_policy-reads :
    (a : ScheduleConcurrencyPolicy) → parse_concurrency_policy (concurrency_policy_value a) ≡ ok a
parse_concurrency_policy-reads ScheduleConcurrencyPolicy.allow = refl
parse_concurrency_policy-reads ScheduleConcurrencyPolicy.forbid = refl

parse_concurrency_policy-writes :
    (s : String) (a : ScheduleConcurrencyPolicy)
    → parse_concurrency_policy s ≡ ok a
    → concurrency_policy_value a ≡ s
parse_concurrency_policy-writes s a =
    arm concurrency_policy_value s "allow" ScheduleConcurrencyPolicy.allow _ a refl (
      arm concurrency_policy_value s "forbid" ScheduleConcurrencyPolicy.forbid _ a refl
        ((λ h. absurd cc)))

-- Each status, kind and policy is read back from the text that its column holds, and each text
-- that is read without an error is the text of the value that it is read as.
pub columns-IsCodec :
    IsCodec run_status parse_run_status
    × IsCodec task_kind parse_task_kind
    × IsCodec tool_status parse_tool_status
    × IsCodec agent_status parse_agent_status
    × IsCodec stage_status parse_stage_status
    × IsCodec misfire_policy_value parse_misfire_policy
    × IsCodec concurrency_policy_value parse_concurrency_policy
columns-IsCodec = (
  record { reads = parse_run_status-reads; writes = parse_run_status-writes },
  record { reads = parse_task_kind-reads; writes = parse_task_kind-writes },
  record { reads = parse_tool_status-reads; writes = parse_tool_status-writes },
  record { reads = parse_agent_status-reads; writes = parse_agent_status-writes },
  record { reads = parse_stage_status-reads; writes = parse_stage_status-writes },
  record { reads = parse_misfire_policy-reads; writes = parse_misfire_policy-writes },
  record { reads = parse_concurrency_policy-reads; writes = parse_concurrency_policy-writes },
)
