-- ===== src/Store/Machine/Decompose.antt =====
-- Every step has one effect at most on the tables.
use Prim.Native.String.{String}
use agent_loom.Base.{ℕ, ◌≡◌, not, ◌||◌, inl, Option, ◌==◌, passed}
use agent_loom.Domain.Json.{Value}
use agent_loom.Store.Result.{
  StoreResult, StoreErrorCode, ok, ◌>>=◌, >>=-eq-ok, ok-pair-eq, reject_if, ok_or,
}
use agent_loom.Store.Outcome.{
  CommandContext, Committed, ClaimedTask, RunSnapshot, LeaseReclaimOutcome,
}
use agent_loom.Store.Database.{Database, ReceiptGuard, acquired, existing, acquire_receipt}
use agent_loom.Store.Candidates.{Locks}
use agent_loom.Store.Claim.{ClaimTask, claim_task, claim_under, decode_claim_receipt}
use agent_loom.Store.Renew.{RenewTaskLease, renew_task_lease, renew_under}
use agent_loom.Store.Reclaim.{reclaim_expired_lease, reclaim_under, decode_lease_reclaim_receipt}
use agent_loom.Store.Failure.{FailTask}
use agent_loom.Store.Fail.{fail_task, fail_under, decode_run_receipt, is_empty_text}
use agent_loom.Store.Transition.{ControlRun, ControlKind}
use agent_loom.Store.Control.{execute_control, control_under}
use agent_loom.Store.Machine.{Step, claim, renew, reclaim, fail, control, complete}
use agent_loom.Store.Machine.Effects.{HasEffect, acquired-IsSame, eq-IsSame, opened-HasEffect}
use agent_loom.Store.Machine.Commands.{
  claim_new-Inner, renew_new-Inner, reclaim_new-Inner, fail_new-Inner, control_new-Inner,
}
use agent_loom.Store.Completion.{CompleteTask}
use agent_loom.Store.Completion.Shape.{validate_completion_shape}
use agent_loom.Store.Completion.Commit.{complete_task, complete_under, shape_result}
use agent_loom.Store.Machine.Completing.{complete_new-Inner, shape_result-passed}

module _ (pointer : Value → String → Option Value) (ttl : ℕ) (db : Database)
    (context : CommandContext) (now : ℕ) {after : Database} where
  -- A repeated command reads its receipt and no more.
  duplicate-HasEffect :
      {A B : Type 0} (m : StoreResult A) (f : A → B) {answer : B}
      → ◌>>=◌ {B = Database × B} m (λ a. ok (db, f a)) ≡ ok (after, answer)
      → HasEffect pointer db after
  duplicate-HasEffect m f h =
      let (a, _, done) = >>=-eq-ok m _ h in inl (eq-IsSame db after (ok-pair-eq done).0)

  claim-HasEffect :
      (locks : Locks) (command : ClaimTask) (guard : ReceiptGuard)
      {answer : Option (Committed ClaimedTask)}
      → acquire_receipt db context now ttl ≡ ok guard
      → claim_under guard db locks context command now ≡ ok (after, answer)
      → HasEffect pointer db after
  unfolding claim_under
  claim-HasEffect locks command (existing r) a h =
      duplicate-HasEffect (decode_claim_receipt r.outcome) _ h
  claim-HasEffect locks command (acquired opened) a h =
      opened-HasEffect pointer db opened after (acquired-IsSame db context now ttl a)
        (claim_new-Inner pointer opened context now locks command h)

  renew-HasEffect :
      (command : RenewTaskLease) (guard : ReceiptGuard) {answer : Committed ClaimedTask}
      → acquire_receipt db context now ttl ≡ ok guard
      → renew_under guard db context command now ≡ ok (after, answer)
      → HasEffect pointer db after
  unfolding renew_under
  renew-HasEffect command (existing r) a h =
      let (value, _, h1) = >>=-eq-ok (decode_claim_receipt r.outcome) _ h in
      duplicate-HasEffect (ok_or value StoreErrorCode.inconsistent_projection) _ h1
  renew-HasEffect command (acquired opened) a h =
      opened-HasEffect pointer db opened after (acquired-IsSame db context now ttl a)
        (renew_new-Inner pointer opened context now command h)

  reclaim-HasEffect :
      (event_id : ℕ) (guard : ReceiptGuard) {answer : Option (Committed LeaseReclaimOutcome)}
      → acquire_receipt db context now ttl ≡ ok guard
      → reclaim_under guard db context event_id now ≡ ok (after, answer)
      → HasEffect pointer db after
  unfolding reclaim_under
  reclaim-HasEffect event_id (existing r) a h =
      duplicate-HasEffect (decode_lease_reclaim_receipt r.outcome) _ h
  reclaim-HasEffect event_id (acquired opened) a h =
      opened-HasEffect pointer db opened after (acquired-IsSame db context now ttl a)
        (reclaim_new-Inner pointer opened context now event_id h)

  fail-HasEffect :
      (command : FailTask) (guard : ReceiptGuard) {answer : Committed RunSnapshot}
      → acquire_receipt db context now ttl ≡ ok guard
      → fail_under pointer guard db context command now ≡ ok (after, answer)
      → HasEffect pointer db after
  unfolding fail_under
  fail-HasEffect command (existing r) a h = duplicate-HasEffect (decode_run_receipt r.outcome) _ h
  fail-HasEffect command (acquired opened) a h =
      opened-HasEffect pointer db opened after (acquired-IsSame db context now ttl a)
        (fail_new-Inner pointer opened context now command h)

  complete-HasEffect :
      (command : CompleteTask) (guard : ReceiptGuard) {answer : Committed RunSnapshot}
      → validate_completion_shape command ≡ passed
      → acquire_receipt db context now ttl ≡ ok guard
      → complete_under pointer guard db context command now ≡ ok (after, answer)
      → HasEffect pointer db after
  unfolding complete_under
  complete-HasEffect command (existing r) shaped a h =
      duplicate-HasEffect (decode_run_receipt r.outcome) _ h
  complete-HasEffect command (acquired opened) shaped a h =
      opened-HasEffect pointer db opened after (acquired-IsSame db context now ttl a)
        (complete_new-Inner pointer opened context now command shaped h)

  control-HasEffect :
      (command : ControlRun) (kind : ControlKind) (guard : ReceiptGuard)
      {answer : Committed RunSnapshot}
      → acquire_receipt db context now ttl ≡ ok guard
      → control_under guard db context command kind now ≡ ok (after, answer)
      → HasEffect pointer db after
  unfolding control_under
  control-HasEffect command kind (existing r) a h =
      duplicate-HasEffect (decode_run_receipt r.outcome) _ h
  control-HasEffect command kind (acquired opened) a h =
      opened-HasEffect pointer db opened after (acquired-IsSame db context now ttl a)
        (control_new-Inner pointer opened context now command kind h)

-- Every transaction that commits has one of the effects, or none, on the tables.
pub Step-HasEffect :
    (pointer : Value → String → Option Value) (ttl : ℕ) (db after : Database)
    → Step pointer ttl db after
    → HasEffect pointer db after
unfolding claim_task renew_task_lease reclaim_expired_lease fail_task complete_task execute_control
Step-HasEffect pointer ttl db after (claim locks context command now h) =
    let (u, _, h1) =
      >>=-eq-ok
        (reject_if (command.lease_duration == 0 || command.candidate_window == 0)
          StoreErrorCode.constraint_violation)
        _ h in
    let (guard, a, h2) = >>=-eq-ok (acquire_receipt db context now ttl) _ h1 in
    claim-HasEffect pointer ttl db context now locks command guard a h2
Step-HasEffect pointer ttl db after (renew context command now h) =
    let (u, _, h1) =
      >>=-eq-ok (reject_if (command.extension == 0) StoreErrorCode.constraint_violation) _ h in
    let (guard, a, h2) = >>=-eq-ok (acquire_receipt db context now ttl) _ h1 in
    renew-HasEffect pointer ttl db context now command guard a h2
Step-HasEffect pointer ttl db after (reclaim context event_id now h) =
    let (guard, a, h1) = >>=-eq-ok (acquire_receipt db context now ttl) _ h in
    reclaim-HasEffect pointer ttl db context now event_id guard a h1
Step-HasEffect pointer ttl db after (fail context command now h) =
    let (u, _, h1) =
      >>=-eq-ok (reject_if (is_empty_text command.error_code) StoreErrorCode.constraint_violation) _
        h in
    let (guard, a, h2) = >>=-eq-ok (acquire_receipt db context now ttl) _ h1 in
    fail-HasEffect pointer ttl db context now command guard a h2
Step-HasEffect pointer ttl db after (complete context command now h) =
    let (u, shaped, h1) = >>=-eq-ok (shape_result (validate_completion_shape command)) _ h in
    let (guard, a, h2) = >>=-eq-ok (acquire_receipt db context now ttl) _ h1 in
    complete-HasEffect pointer ttl db context now command guard
      (shape_result-passed (validate_completion_shape command) shaped) a h2
Step-HasEffect pointer ttl db after (control context command kind now h) =
    let (u, _, h1) =
      >>=-eq-ok (reject_if (not command.has_reason) StoreErrorCode.constraint_violation) _ h in
    let (guard, a, h2) = >>=-eq-ok (acquire_receipt db context now ttl) _ h1 in
    control-HasEffect pointer ttl db context now command kind guard a h2
