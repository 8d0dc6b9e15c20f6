-- ===== src/Store/Projection/Agents/Outcomes.antt =====
-- Which outcomes of an agent are taken.
use Prim.Native.String.{String}
use agent_loom.Base.{
  ℕ, ◌≡◌, refl, ◌↔◌, inl, inr, Bool, true, false, ◌&&◌, not, Option, none, some, is_some,
  is_some_and, Option-cases,
}
use agent_loom.Domain.Json.{Value}
use agent_loom.Domain.Status.{AgentExecutionStatus}
use agent_loom.Store.Result.{StoreErrorCode, ok, >>=-eq-ok, reject_if}
use agent_loom.Store.Fail.{is_empty_text}
use agent_loom.Store.Projection.Laws.{IsText, IsTextIfAny, IsJson}
use agent_loom.Store.Projection.Agents.{
  is_reconciling, RecordAgentOutcome, validate_agent_outcome, agent_shape_is_valid, fits_status,
  check_result,
}

-- An outcome whose result, error and poll are those of its status.
abbrev pub IsAgentOutcome :
    (ℕ → Option Value) → AgentExecutionStatus → Option ℕ → Option String → Option ℕ → Type 0
IsAgentOutcome from_slice AgentExecutionStatus.succeeded result error_code poll =
    ((payload : ℕ) × (result ≡ some payload) × IsJson from_slice payload)
    × (error_code ≡ none)
    × (poll ≡ none)
IsAgentOutcome from_slice AgentExecutionStatus.failed result error_code poll =
    (result ≡ none) × ((code : String) × (error_code ≡ some code) × IsText code) × (poll ≡ none)
IsAgentOutcome from_slice AgentExecutionStatus.cancelled result error_code poll =
    (result ≡ none) × IsTextIfAny error_code × (poll ≡ none)
IsAgentOutcome from_slice AgentExecutionStatus.outcome_unknown result error_code poll =
    (result ≡ none) × IsTextIfAny error_code × (poll ≡ none)
IsAgentOutcome from_slice AgentExecutionStatus.manual_review result error_code poll =
    (result ≡ none) × IsTextIfAny error_code × (poll ≡ none)
IsAgentOutcome from_slice AgentExecutionStatus.reconciling result error_code poll =
    (result ≡ none) × IsTextIfAny error_code
IsAgentOutcome from_slice _ result error_code poll = ⊥

reject_if-fails :
    (bad : Bool) (code : StoreErrorCode) {u : Unit {0}} → reject_if bad code ≡ ok u → bad ≡ false
reject_if-fails false code h = refl
reject_if-fails true code h = absurd cc

reject_if-holds :
    (good : Bool) (code : StoreErrorCode) {u : Unit {0}}
    → reject_if (not good) code ≡ ok u
    → good ≡ true
reject_if-holds true code h = refl
reject_if-holds false code h = absurd cc

-- The checks of `validate_agent_outcome`, one by one.
abbrev PassesAll : (ℕ → Option Value) → RecordAgentOutcome → Type 0
PassesAll from_slice command =
    (agent_shape_is_valid command ≡ true)
    × (is_some_and command.error_code is_empty_text ≡ false)
    × ((not (is_reconciling command.status) && is_some command.next_status_poll_at) ≡ false)
    × (fits_status command.status command.result command.error_code ≡ true)
    × (check_result from_slice command.result ≡ ok tt)

validate-PassesAll :
    (from_slice : ℕ → Option Value) (command : RecordAgentOutcome)
    → (validate_agent_outcome from_slice command ≡ ok tt) ↔ PassesAll from_slice command
unfolding validate_agent_outcome
validate-PassesAll from_slice command = (
  λ h.
      let (u, a, h1) =
        >>=-eq-ok
          (reject_if (not (agent_shape_is_valid command)) StoreErrorCode.constraint_violation) _
          h in
      let (v, b, h2) =
        >>=-eq-ok
          (reject_if (is_some_and command.error_code is_empty_text)
            StoreErrorCode.constraint_violation)
          _ h1 in
      let (w, c, h3) =
        >>=-eq-ok
          (reject_if (not (is_reconciling command.status) && is_some command.next_status_poll_at)
            StoreErrorCode.constraint_violation)
          _ h2 in
      let (x, d, h4) =
        >>=-eq-ok
          (reject_if (not (fits_status command.status command.result command.error_code))
            StoreErrorCode.constraint_violation)
          _ h3 in
      (
        reject_if-holds _ _ a,
        reject_if-fails _ _ b,
        reject_if-fails _ _ c,
        reject_if-holds _ _ d,
        h4,
      ),
  λ (a, b, c, d, e). rw (a, b, c, d) e,
)

is_some-none {ℓ} : {A : Type ℓ} (o : Option A) → is_some o ≡ false → o ≡ none
is_some-none none h = refl
is_some-none (some a) h = absurd cc

is_some-value {ℓ} : {A : Type ℓ} (o : Option A) → is_some o ≡ true → (a : A) × (o ≡ some a)
is_some-value none h = absurd cc
is_some-value (some a) h = (a, refl)

text-IsTextIfAny :
    (text : Option String) → is_some_and text is_empty_text ≡ false → IsTextIfAny text
text-IsTextIfAny none h = tt
text-IsTextIfAny (some text) h = h

text_if_any : (text : Option String) → IsTextIfAny text → is_some_and text is_empty_text ≡ false
text_if_any none h = refl
text_if_any (some text) h = h

not-false : (b : Bool) → not b ≡ true → b ≡ false
not-false true h = absurd cc
not-false false h = refl

and-both : (a b : Bool) → (a && b) ≡ true → (a ≡ true) × (b ≡ true)
and-both true true h = (refl, refl)
and-both true false h = absurd cc
and-both false b h = absurd cc

check_result-IsJson :
    (from_slice : ℕ → Option Value) (payload : ℕ)
    → check_result from_slice (some payload) ≡ ok tt
    → IsJson from_slice payload
check_result-IsJson from_slice payload h = elim (Option-cases (from_slice payload)) [
  | inl e ↦ absurd (let bad = rw e at h in cc)
  | inr (value, e) ↦ (value, e)
]

-- The outcomes without a result.
bare :
    (from_slice : ℕ → Option Value) (result : Option ℕ) (error_code : Option String)
    → ((is_some_and error_code is_empty_text ≡ false)
        × (not (is_some result) ≡ true)
        × (check_result from_slice result ≡ ok tt))
      ↔ ((result ≡ none) × IsTextIfAny error_code)
bare from_slice result error_code = (
  λ (b, d, e). (is_some-none result (not-false (is_some result) d), text-IsTextIfAny error_code b),
  λ (r, t). (text_if_any error_code t, rw r refl, rw r refl),
)

agree :
    (from_slice : ℕ → Option Value) (command : RecordAgentOutcome) (status : AgentExecutionStatus)
    → PassesAll from_slice (record command { status = status })
      ↔ IsAgentOutcome from_slice status command.result command.error_code
          command.next_status_poll_at
agree from_slice command AgentExecutionStatus.cancelled =
    let iff = bare from_slice command.result command.error_code in
    (
      λ (a, b, c, d, e).
          let (r, t) = iff.0 (b, d, e) in (r, t, is_some-none command.next_status_poll_at c),
      λ (r, t, p). let (b, d, e) = iff.1 (r, t) in (refl, b, rw p refl, d, e),
    )
agree from_slice command AgentExecutionStatus.outcome_unknown =
    let iff = bare from_slice command.result command.error_code in
    (
      λ (a, b, c, d, e).
          let (r, t) = iff.0 (b, d, e) in (r, t, is_some-none command.next_status_poll_at c),
      λ (r, t, p). let (b, d, e) = iff.1 (r, t) in (refl, b, rw p refl, d, e),
    )
agree from_slice command AgentExecutionStatus.manual_review =
    let iff = bare from_slice command.result command.error_code in
    (
      λ (a, b, c, d, e).
          let (r, t) = iff.0 (b, d, e) in (r, t, is_some-none command.next_status_poll_at c),
      λ (r, t, p). let (b, d, e) = iff.1 (r, t) in (refl, b, rw p refl, d, e),
    )
agree from_slice command AgentExecutionStatus.reconciling =
    let iff = bare from_slice command.result command.error_code in
    (
      λ (a, b, c, d, e). iff.0 (b, d, e),
      λ (r, t). let (b, d, e) = iff.1 (r, t) in (refl, b, refl, d, e),
    )
agree from_slice command AgentExecutionStatus.succeeded = (
  λ (a, b, c, d, e).
      let (has, free) = and-both _ _ d in
      let (payload, r) = is_some-value command.result has in
      (
        (payload, r, check_result-IsJson from_slice payload (rw r at e)),
        is_some-none command.error_code (not-false _ free),
        is_some-none command.next_status_poll_at c,
      ),
  λ ((payload, r, (value, json)), t, p).
      (refl, rw t refl, rw p refl, rw (r, t) refl, rw (r, json) refl),
)
agree from_slice command AgentExecutionStatus.failed = (
  λ (a, b, c, d, e).
      let (free, has) = and-both _ _ d in
      let (code, t) = is_some-value command.error_code has in
      (
        is_some-none command.result (not-false _ free),
        (code, t, rw t at b),
        is_some-none command.next_status_poll_at c,
      ),
  λ (r, (code, t, text), p). (refl, rw t text, rw p refl, rw (r, t) refl, rw r refl),
)
agree from_slice command AgentExecutionStatus.planned =
    (λ (a, b, c, d, e). absurd (let bad = a in cc), λ none_has. absurd none_has)
agree from_slice command AgentExecutionStatus.submitting =
    (λ (a, b, c, d, e). absurd (let bad = a in cc), λ none_has. absurd none_has)
agree from_slice command AgentExecutionStatus.running =
    (λ (a, b, c, d, e). absurd (let bad = a in cc), λ none_has. absurd none_has)
agree from_slice command AgentExecutionStatus.stopping =
    (λ (a, b, c, d, e). absurd (let bad = a in cc), λ none_has. absurd none_has)

-- An agent's outcome is accepted exactly if its status is terminal or to be looked into, and its
-- result, error code and next poll are those of that status: a JSON result for success alone, an
-- error code for failure and never for success, a poll while reconciling alone.
pub validate_agent_outcome_iff :
    (from_slice : ℕ → Option Value) (command : RecordAgentOutcome)
    → (validate_agent_outcome from_slice command ≡ ok tt)
      ↔ IsAgentOutcome from_slice command.status command.result command.error_code
          command.next_status_poll_at
validate_agent_outcome_iff from_slice command =
    let checks = validate-PassesAll from_slice command in
    let agrees = agree from_slice command command.status in
    (λ h. agrees.0 (checks.0 h), λ good. checks.1 (agrees.1 good))
