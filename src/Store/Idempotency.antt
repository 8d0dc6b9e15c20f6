-- ===== src/Store/Idempotency.antt =====
-- A command that is sent again with the same key and the same content: the answers of `claim_task`,
-- `renew_task_lease`, `reclaim_expired_lease`, `fail_task` and `execute_control`.
pub mod Runs
pub mod Renewals
pub mod Reclaims
pub mod Failures
pub mod Completions
use Prim.Native.String.{String}
use mathlib.Core.Path.{subst}
use agent_loom.Base.{
  ℕ, ◌≡◌, ◌==◌, ◌||◌, refl, sym, ap, ◌∙◌, Bool, true, false, Option, none, some, List, [], arith,
  inl, inr, Option-cases,
}
use agent_loom.Domain.Json.{Value}
use agent_loom.Store.Result.{StoreResult, StoreErrorCode, ok, err, >>=-eq-ok, ok-pair-eq, reject_if}
use agent_loom.Store.Outcome.{
  CommandContext, Committed, CommandDisposition, ClaimedTask, RunSnapshot, LeaseReclaimOutcome,
  ReceiptOutcome, OutcomeKind,
}
use agent_loom.Store.Database.{
  Database, ExistingReceipt, ReceiptGuard, acquired, existing, acquire_receipt, finish_receipt,
}
use agent_loom.Store.Database.Receipts.{
  Finishes, Finishes-replay, finish-then, acquire-existing_again,
}
use agent_loom.Store.Fences.{LockedWorkerTask}
use agent_loom.Store.Candidates.{Locks, lock_claim_candidate}
use agent_loom.Store.Claim.{
  ClaimTask, claim_task, claim_new, claim_none, claim_locked, apply_claim, map_option, duplicate_of,
  decode_claim_receipt, claim_under,
}
use agent_loom.Store.Claim.Laws.{claim-receipts}
use agent_loom.Store.Transition.{ControlRun, ControlKind}
use agent_loom.Store.Control.{execute_control, control_new, control_committed}

-- The answer to a command, when it is sent again: the same value and events, and no new work.
abbrev pub again : {A : Type 0} → Committed A → Committed A
again answer = record answer {
  disposition = CommandDisposition.duplicate;
  durable_follow_ups = [];
  post_commit_hints = [];
}

-- The event that a claim records, if it claims a task.
abbrev claim_event : CommandContext → Option (Committed ClaimedTask) → Option ℕ
claim_event context none = none
claim_event context (some answer) = some context.command_id

abbrev claim_outcome : Option (Committed ClaimedTask) → ReceiptOutcome
claim_outcome answer =
    ReceiptOutcome.claim (map_option (λ (c : Committed ClaimedTask). c.value) answer)

again-duplicate :
    {A : Type 0} (r : ExistingReceipt) (v : Option A)
    → map_option again (map_option (duplicate_of r) v) ≡ map_option (duplicate_of r) v
again-duplicate r none = refl
again-duplicate r (some a) = refl

-- A claim under a new receipt finishes it with its answer.
abbrev ClaimFinishes :
    Database → CommandContext → Database → Option (Committed ClaimedTask) → Type 0
ClaimFinishes opened context final answer =
    (Finishes opened final context (claim_outcome answer) (claim_event context answer))
    × (map_option again answer
        ≡ map_option
            (duplicate_of (record {
              outcome = some (claim_outcome answer);
              event_id = claim_event context answer;
            }))
            (map_option (λ (c : Committed ClaimedTask). c.value) answer))

module _ (opened : Database) (context : CommandContext) {final : Database}
    {answer : Option (Committed ClaimedTask)} where
  claim_none-finishes :
      claim_none opened context ≡ ok (final, answer) → ClaimFinishes opened context final answer
  unfolding claim_none
  claim_none-finishes h =
      let (finishes, answered) =
        finish-then {A = Option (Committed ClaimedTask)} opened opened context OutcomeKind.no_op
          (ReceiptOutcome.claim none) none none none refl refl h in
      subst (ClaimFinishes opened context final) answered (finishes, refl)

  claim_locked-finishes :
      (command : ClaimTask) (now : ℕ) (locked : LockedWorkerTask)
      → claim_locked opened context command now locked ≡ ok (final, answer)
      → ClaimFinishes opened context final answer
  unfolding claim_locked
  claim_locked-finishes command now locked h =
      let ((claimed, value, attempt), applied, h1) =
        >>=-eq-ok (apply_claim opened context command now locked) _ h in
      let (finishes, answered) =
        finish-then {A = Option (Committed ClaimedTask)} opened claimed context OutcomeKind.applied
          (ReceiptOutcome.claim (some value)) (some context.command_id)
          (some ("task", locked.task.task_id, attempt)) _
          (claim-receipts opened context command now locked applied) refl h1 in
      subst (ClaimFinishes opened context final) answered (finishes, refl)

  claim_new-finishes :
      (locks : Locks) (command : ClaimTask) (now : ℕ)
      → claim_new opened locks context command now ≡ ok (final, answer)
      → ClaimFinishes opened context final answer
  unfolding claim_new
  claim_new-finishes locks command now h =
      elim (Option-cases (
        lock_claim_candidate opened locks context.tenant_id now command.candidate_window
          command.kind)) [
            | inl e ↦ claim_none-finishes (rw (e, claim_new) at h)
            | inr (locked, e) ↦ claim_locked-finishes command now locked (rw (e, claim_new) at h)
          ]

-- The receipt that answers a claim once more.
abbrev ClaimAnswered : Database → ℕ → CommandContext → ℕ → Option (Committed ClaimedTask) → Type 0
ClaimAnswered final ttl context later answer =
    (r : ExistingReceipt) × (v : Option ClaimedTask) × (acquire_receipt final context later ttl
      ≡ ok (existing r))
    × (decode_claim_receipt r.outcome ≡ ok v)
    × (map_option again answer ≡ map_option (duplicate_of r) v)

claim_guarded :
    (db : Database) (locks : Locks) (ttl : ℕ) (context : CommandContext) (command : ClaimTask)
    (now later : ℕ) (guard : ReceiptGuard) {final : Database}
    {answer : Option (Committed ClaimedTask)}
    → acquire_receipt db context now ttl ≡ ok guard
    → claim_under guard db locks context command now ≡ ok (final, answer)
    → ClaimAnswered final ttl context later answer
unfolding claim_under
claim_guarded db locks ttl context command now later (existing r) {final} {answer} a h =
    let (v, decoded, done) = >>=-eq-ok (decode_claim_receipt r.outcome) _ h in
    let (same, answered) = ok-pair-eq done in
    subst (λ (d : Database). ClaimAnswered d ttl context later answer) same
      (subst (ClaimAnswered db ttl context later) answered
        (r, v, acquire-existing_again db context now later ttl a, decoded, again-duplicate r v))
claim_guarded db locks ttl context command now later (acquired opened) {final} {answer} a h =
    let (finishes, same) = claim_new-finishes opened context locks command now h in
    (
      record { outcome = some (claim_outcome answer); event_id = claim_event context answer },
      map_option (λ (c : Committed ClaimedTask). c.value) answer,
      Finishes-replay db opened final context now later ttl (claim_outcome answer)
          (claim_event context answer) a finishes,
      refl,
      same,
    )

-- A claim that has committed and is sent again, at any later time, is answered with the same task
-- and event, marked as a duplicate, and changes nothing; one that found no task answers none
-- again, whatever is free by then.
pub claim_task-idempotent :
    (db : Database) (locks later_locks : Locks) (ttl : ℕ) (context : CommandContext)
    (command : ClaimTask) (now later : ℕ) (final : Database)
    (answer : Option (Committed ClaimedTask))
    → claim_task db locks ttl context command now ≡ ok (final, answer)
    → claim_task final later_locks ttl context command later ≡ ok (final, map_option again answer)
unfolding claim_task claim_under
claim_task-idempotent db locks later_locks ttl context command now later final answer h =
    let (u, passed, h1) =
      >>=-eq-ok
        (reject_if (command.lease_duration == 0 || command.candidate_window == 0)
          StoreErrorCode.constraint_violation)
        _ h in
    let (guard, got, h2) = >>=-eq-ok (acquire_receipt db context now ttl) _ h1 in
    let (r, v, found, decoded, same) =
      claim_guarded db locks ttl context command now later guard got h2 in
    rw (passed, found, decoded) (ap (λ a. ok (final, a)) (sym same))
