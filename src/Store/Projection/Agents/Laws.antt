-- ===== src/Store/Projection/Agents/Laws.antt =====
-- Which reports of an agent are taken, and that they fit the tables.
use Prim.Native.String.{String}
use agent_loom.Base.{
  ℕ, ◌≡◌, refl, ◌∙◌, ◌⊎◌, inl, inr, true, false, ◌||◌, Option, none, some, is_some, is_some_and,
  Bool-cases,
}
use agent_loom.Domain.Status.{AgentExecutionStatus}
use agent_loom.Store.Result.{StoreErrorCode, ok, err, >>=-ok, reject_if-passes}
use agent_loom.Store.Fail.{is_empty_text}
use agent_loom.Store.Projection.{ExecutionRetryClass, differ}
use agent_loom.Store.Projection.Laws.{IsText, IsTextIfAny, IsTimed}
use agent_loom.Store.Projection.Agents.{
  AgentSubmissionOutcome, ProjectedAgentSubmission, project_agent_submission, is_backoff,
  rejected_status,
}

-- A submission's report that says what its kind needs.
abbrev pub IsSubmission : AgentSubmissionOutcome → Type 0
IsSubmission (AgentSubmissionOutcome.accepted run_ref session_ref version) =
    IsText run_ref × IsTextIfAny session_ref × IsText version
IsSubmission AgentSubmissionOutcome.uncertain = Unit
IsSubmission (AgentSubmissionOutcome.rejected error_code retry retry_at) =
    IsText error_code × IsTimed retry retry_at

-- The CHECK constraints of migrations 0006, 0009 and 0011 on the columns that a submission sets.
pub record IsAgentRow (row : ProjectedAgentSubmission) : Type 0 where
  pub error : IsTextIfAny row.error_code
  pub remote_run : IsTextIfAny row.remote_run_ref
  pub remote_session : IsTextIfAny row.remote_session_ref
  pub remote_protocol : IsTextIfAny row.remote_protocol_version
  pub retry_schedule :
      (is_some row.retry_at ≡ false) ⊎ (row.status ≡ AgentExecutionStatus.reconciling)

-- What each report means for the execution.
abbrev pub IsRejectedAs : ExecutionRetryClass → AgentExecutionStatus → Type 0
IsRejectedAs ExecutionRetryClass.never status = status ≡ AgentExecutionStatus.failed
IsRejectedAs ExecutionRetryClass.manual_review status = status ≡ AgentExecutionStatus.manual_review
IsRejectedAs _ status = status ≡ AgentExecutionStatus.reconciling

-- What the report said stands in the columns: an accepted agent runs under the identity that was
-- given, an uncertain one is looked into, and a rejection is as good as its class.
abbrev pub CarriesSubmission : AgentSubmissionOutcome → ProjectedAgentSubmission → Type 0
CarriesSubmission (AgentSubmissionOutcome.accepted run_ref session_ref version) row =
    (row.status ≡ AgentExecutionStatus.running)
    × (row.remote_run_ref ≡ some run_ref)
    × (row.remote_session_ref ≡ session_ref)
    × (row.remote_protocol_version ≡ some version)
    × (row.error_code ≡ none)
CarriesSubmission AgentSubmissionOutcome.uncertain row =
    (row.status ≡ AgentExecutionStatus.outcome_unknown)
    × (row.remote_run_ref ≡ none)
    × (row.error_code ≡ none)
CarriesSubmission (AgentSubmissionOutcome.rejected error_code retry retry_at) row =
    IsRejectedAs retry row.status
    × (row.remote_run_ref ≡ none)
    × (row.error_code ≡ some error_code)
    × (row.retry_at ≡ retry_at)

abbrev pub IsTakenSubmission : AgentSubmissionOutcome → Type 0
IsTakenSubmission outcome =
    (row : ProjectedAgentSubmission) × (project_agent_submission outcome ≡ ok row)
    × CarriesSubmission outcome row
    × IsAgentRow row

abbrev pub DecidesSubmission : AgentSubmissionOutcome → Type 0
DecidesSubmission outcome =
    (IsSubmission outcome × IsTakenSubmission outcome)
    ⊎ ((¬ IsSubmission outcome)
        × (project_agent_submission outcome ≡ err StoreErrorCode.constraint_violation))

rejected-DecidesSubmission :
    (error_code : String) (retry : ExecutionRetryClass) (retry_at : Option ℕ)
    → (IsTimed retry retry_at
        × (differ (is_backoff retry) (is_some retry_at) ≡ false)
        × ((is_some retry_at ≡ false) ⊎ (rejected_status retry ≡ AgentExecutionStatus.reconciling)))
      ⊎ ((¬ IsTimed retry retry_at) × (differ (is_backoff retry) (is_some retry_at) ≡ true))
    → IsRejectedAs retry (rejected_status retry)
    → DecidesSubmission (AgentSubmissionOutcome.rejected error_code retry retry_at)
unfolding project_agent_submission
rejected-DecidesSubmission error_code retry retry_at timed status =
    elim (Bool-cases (is_empty_text error_code)) [
      | inl e ↦ inr (λ good. absurd (let bad = good.0 in cc), rw e refl)
      | inr e ↦ elim timed [
        | inl (good, d, schedule) ↦ inl (
          (e, good),
          (
            _,
            >>=-ok _ (reject_if-passes _ e) ∙ >>=-ok _ (reject_if-passes _ d),
            (status, refl, refl, refl),
            record {
              error = e;
              remote_run = tt;
              remote_session = tt;
              remote_protocol = tt;
              retry_schedule = schedule;
            },
          ),
        )
        | inr (bad, d) ↦ inr (λ good. absurd (bad good.1), rw (e, d) refl)
      ]
    ]

backoff-cases :
    (retry : ExecutionRetryClass) (retry_at : Option ℕ)
    → (IsTimed retry retry_at
        × (differ (is_backoff retry) (is_some retry_at) ≡ false)
        × ((is_some retry_at ≡ false) ⊎ (rejected_status retry ≡ AgentExecutionStatus.reconciling)))
      ⊎ ((¬ IsTimed retry retry_at) × (differ (is_backoff retry) (is_some retry_at) ≡ true))
backoff-cases ExecutionRetryClass.same_request_backoff none = inr (λ h. absurd cc, refl)
backoff-cases ExecutionRetryClass.same_request_backoff (some at) = inl (refl, refl, inr refl)
backoff-cases ExecutionRetryClass.never none = inl (refl, refl, inl refl)
backoff-cases ExecutionRetryClass.never (some at) = inr (λ h. absurd cc, refl)
backoff-cases ExecutionRetryClass.reconnect_and_resume none = inl (refl, refl, inl refl)
backoff-cases ExecutionRetryClass.reconnect_and_resume (some at) = inr (λ h. absurd cc, refl)
backoff-cases ExecutionRetryClass.query_outcome none = inl (refl, refl, inl refl)
backoff-cases ExecutionRetryClass.query_outcome (some at) = inr (λ h. absurd cc, refl)
backoff-cases ExecutionRetryClass.manual_review none = inl (refl, refl, inl refl)
backoff-cases ExecutionRetryClass.manual_review (some at) = inr (λ h. absurd cc, refl)

rejected-IsRejectedAs : (retry : ExecutionRetryClass) → IsRejectedAs retry (rejected_status retry)
rejected-IsRejectedAs ExecutionRetryClass.never = refl
rejected-IsRejectedAs ExecutionRetryClass.manual_review = refl
rejected-IsRejectedAs ExecutionRetryClass.same_request_backoff = refl
rejected-IsRejectedAs ExecutionRetryClass.reconnect_and_resume = refl
rejected-IsRejectedAs ExecutionRetryClass.query_outcome = refl

IsTextIfAny-cases :
    (text : Option String)
    → (IsTextIfAny text × (is_some_and text is_empty_text ≡ false))
      ⊎ ((¬ IsTextIfAny text) × (is_some_and text is_empty_text ≡ true))
IsTextIfAny-cases none = inl (tt, refl)
IsTextIfAny-cases (some text) = elim (Bool-cases (is_empty_text text)) [
  | inl e ↦ inr (λ h. absurd cc, e)
  | inr e ↦ inl (e, e)
]

-- A report on the submission of an agent is taken exactly if it says what its kind needs. One that
-- is taken has its kind's status, carries what was reported, and meets the CHECK constraints on the
-- columns that it sets; any other is answered with ConstraintViolation.
pub project_agent_submission-DecidesSubmission :
    (outcome : AgentSubmissionOutcome) → DecidesSubmission outcome
unfolding project_agent_submission
project_agent_submission-DecidesSubmission AgentSubmissionOutcome.uncertain = inl (
  tt,
  (
    _,
    refl,
    (refl, refl, refl),
    record {
      error = tt;
      remote_run = tt;
      remote_session = tt;
      remote_protocol = tt;
      retry_schedule = inl refl;
    },
  ),
)
project_agent_submission-DecidesSubmission
      (AgentSubmissionOutcome.rejected error_code retry retry_at) =
    rejected-DecidesSubmission error_code retry retry_at (backoff-cases retry retry_at)
      (rejected-IsRejectedAs retry)
project_agent_submission-DecidesSubmission
      (AgentSubmissionOutcome.accepted run_ref session_ref version) =
    elim (Bool-cases (is_empty_text run_ref)) [
      | inl e ↦ inr (λ good. absurd (let h = good.0 in cc), rw e refl)
      | inr e ↦ elim (IsTextIfAny-cases session_ref) [
        | inr (bad, d) ↦ inr (λ good. absurd (bad good.1), rw (e, d) refl)
        | inl (fine, d) ↦ elim (Bool-cases (is_empty_text version)) [
          | inl f ↦ inr (λ good. absurd (let h = good.2 in cc), rw (e, d, f) refl)
          | inr f ↦
              let all : (is_empty_text run_ref
                    || (is_some_and session_ref is_empty_text || is_empty_text version))
                  ≡ false =
                rw (e, d, f) refl in
              inl (
                (e, fine, f),
                (
                  _,
                  >>=-ok _ (reject_if-passes _ all),
                  (refl, refl, refl, refl, refl),
                  record {
                    error = tt;
                    remote_run = e;
                    remote_session = fine;
                    remote_protocol = f;
                    retry_schedule = inl refl;
                  },
                ),
              )
        ]
      ]
    ]
