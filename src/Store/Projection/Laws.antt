-- ===== src/Store/Projection/Laws.antt =====
-- Which reports of a tool are taken, and that they fit the tables.
use Prim.Native.String.{String}
use agent_loom.Base.{ℕ, ◌≡◌, ◌⊎◌, true, false, Option, none, some, is_some}
use agent_loom.Domain.Json.{Value}
use agent_loom.Domain.Status.{ToolExecutionStatus}
use agent_loom.Store.Result.{StoreErrorCode, ok, err}
use agent_loom.Store.Fail.{is_empty_text}
use agent_loom.Store.Projection.{
  ExecutionRetryClass, ToolRecordedOutcome, ProjectedToolOutcome, projected_status,
  project_tool_outcome, is_retry_scheduled,
}

abbrev pub IsText : String → Type 0
IsText text = is_empty_text text ≡ false

abbrev pub IsTextIfAny : Option String → Type 0
IsTextIfAny none = Unit
IsTextIfAny (some text) = IsText text

abbrev pub IsJson : (ℕ → Option Value) → ℕ → Type 0
IsJson from_slice payload = (value : Value) × (from_slice payload ≡ some value)

-- A backoff has a time, and nothing else has.
abbrev pub IsTimed : ExecutionRetryClass → Option ℕ → Type 0
IsTimed ExecutionRetryClass.same_request_backoff retry_at = is_some retry_at ≡ true
IsTimed _ retry_at = is_some retry_at ≡ false

-- A report that says what its kind needs.
abbrev pub IsReport : (ℕ → Option Value) → ToolRecordedOutcome → Type 0
IsReport from_slice (ToolRecordedOutcome.completed result) = IsJson from_slice result
IsReport from_slice (ToolRecordedOutcome.accepted external_ref) = IsText external_ref
IsReport from_slice (ToolRecordedOutcome.failed error_code retry retry_at) =
    IsText error_code × IsTimed retry retry_at
IsReport from_slice (ToolRecordedOutcome.uncertain external_ref recovery_action) =
    IsTextIfAny external_ref × IsText recovery_action
IsReport from_slice (ToolRecordedOutcome.compensated result) = IsJson from_slice result

-- `ck_tool_execs__recovery`.
abbrev HasRecovery : ToolExecutionStatus → Option String → Type 0
HasRecovery ToolExecutionStatus.outcome_unknown none = ⊥
HasRecovery ToolExecutionStatus.outcome_unknown (some action) = IsText action
HasRecovery _ recovery_action = Unit

-- `ck_tool_attempts__outcome`.
abbrev pub IsAttemptOutcome : String → Type 0
IsAttemptOutcome outcome =
    (outcome ≡ "completed")
    ⊎ ((outcome ≡ "accepted") ⊎ ((outcome ≡ "uncertain") ⊎ (outcome ≡ "failed")))

-- `ck_tool_attempts__retry_class`.
abbrev pub IsRetryClass : Option String → Type 0
IsRetryClass none = Unit
IsRetryClass (some class) =
    (class ≡ "never")
    ⊎ ((class ≡ "same_request_backoff")
        ⊎ ((class ≡ "reconnect_and_resume")
            ⊎ ((class ≡ "query_outcome") ⊎ (class ≡ "manual_review"))))

-- The CHECK constraints on the columns that a report sets, of the executions and of their attempts,
-- in migrations 0006 and 0008. Both tables store the same error code and external reference.
pub record IsToolRow (row : ProjectedToolOutcome) : Type 0 where
  pub error : IsTextIfAny row.error_code
  pub recovery : HasRecovery row.status row.recovery_action
  pub external : IsTextIfAny row.external_ref
  pub retry_schedule : is_some row.retry_at ≡ is_retry_scheduled row.status
  pub attempt_outcome : IsAttemptOutcome row.attempt_outcome
  pub retry_class : IsRetryClass row.retry_class

-- What the report said stands in the columns.
abbrev pub Carries : (ℕ → Option Value) → ToolRecordedOutcome → ProjectedToolOutcome → Type 0
Carries from_slice (ToolRecordedOutcome.completed result) row =
    (row.result ≡ from_slice result) × (row.error_code ≡ none) × (row.retry_at ≡ none)
Carries from_slice (ToolRecordedOutcome.accepted external_ref) row =
    (row.external_ref ≡ some external_ref) × (row.result ≡ none) × (row.error_code ≡ none)
Carries from_slice (ToolRecordedOutcome.failed error_code retry retry_at) row =
    (row.error_code ≡ some error_code) × (row.retry_at ≡ retry_at) × (row.result ≡ none)
Carries from_slice (ToolRecordedOutcome.uncertain external_ref recovery_action) row =
    (row.external_ref ≡ external_ref)
    × (row.recovery_action ≡ some recovery_action)
    × (row.result ≡ none)
Carries from_slice (ToolRecordedOutcome.compensated result) row =
    (row.result ≡ from_slice result) × (row.error_code ≡ none) × (row.retry_at ≡ none)

-- A report that is taken, as what its kind projects.
abbrev pub IsTaken : (ℕ → Option Value) → ToolRecordedOutcome → Type 0
IsTaken from_slice outcome =
    (row : ProjectedToolOutcome) × (project_tool_outcome from_slice outcome ≡ ok row)
    × (row.status ≡ projected_status outcome)
    × Carries from_slice outcome row
    × IsToolRow row

abbrev pub Decides : (ℕ → Option Value) → ToolRecordedOutcome → Type 0
Decides from_slice outcome =
    (IsReport from_slice outcome × IsTaken from_slice outcome)
    ⊎ ((¬ IsReport from_slice outcome)
        × (project_tool_outcome from_slice outcome ≡ err StoreErrorCode.constraint_violation))
