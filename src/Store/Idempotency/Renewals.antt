-- ===== src/Store/Idempotency/Renewals.antt =====
-- `renew_task_lease`, when it is sent again.
use mathlib.Core.Path.{subst}
use agent_loom.Base.{ℕ, ◌≡◌, refl, sym, ap, ◌∙◌, none, some, arith, ◌==◌}
use agent_loom.Store.Result.{
  StoreErrorCode, ok, >>=-eq-ok, ok-pair-eq, reject_if, ok_or, to_i64, checked_add,
}
use agent_loom.Store.Outcome.{CommandContext, Committed, ClaimedTask, ReceiptOutcome, OutcomeKind}
use agent_loom.Store.Database.{
  Database, ExistingReceipt, ReceiptGuard, acquired, existing, acquire_receipt,
}
use agent_loom.Store.Database.Receipts.{
  Finishes, Finishes-replay, finish-then, acquire-existing_again,
}
use agent_loom.Store.Fences.{lock_worker_task, validate_worker_fences, claimed_task}
use agent_loom.Store.Claim.{duplicate_of, decode_claim_receipt}
use agent_loom.Store.Renew.{RenewTaskLease, extend_lease, renew_new, renew_under, renew_task_lease}
use agent_loom.Store.Renew.Laws.{extend-receipts}
use agent_loom.Store.Idempotency.{again}

-- A renewal under a new receipt finishes it with its answer, and records no event.
abbrev RenewFinishes : Database → CommandContext → Database → Committed ClaimedTask → Type 0
RenewFinishes opened context final answer =
    Finishes opened final context (ReceiptOutcome.claim (some answer.value)) none
    × (again answer ≡ duplicate_of (record { outcome = none; event_id = none }) answer.value)

renew_new-finishes :
    (opened : Database) (context : CommandContext) (command : RenewTaskLease) (now : ℕ)
    {final : Database} {answer : Committed ClaimedTask}
    → renew_new opened context command now ≡ ok (final, answer)
    → RenewFinishes opened context final answer
unfolding renew_new
renew_new-finishes opened context command now {final} h =
    let (locked, found, h1) =
      >>=-eq-ok
        (lock_worker_task opened context.tenant_id command.expected_run.run_id
          command.lease.task_id)
        _ h in
    let (u, fenced, h2) =
      >>=-eq-ok (validate_worker_fences command.expected_run command.lease locked now) _ h1 in
    let (extension, e3, h3) = >>=-eq-ok (to_i64 command.extension) _ h2 in
    let (expires, e4, h4) =
      >>=-eq-ok (ok_or locked.task.lease_expires_at StoreErrorCode.constraint_violation) _ h3 in
    let (later, e5, h5) =
      >>=-eq-ok (ok_or (checked_add expires extension) StoreErrorCode.constraint_violation) _ h4 in
    let (changed, extended, h6) =
      >>=-eq-ok (extend_lease opened context.tenant_id locked command.lease.token later now) _ h5 in
    let (value, e7, h7) = >>=-eq-ok (claimed_task locked context.tenant_id later) _ h6 in
    let (finishes, answered) =
      finish-then {A = Committed ClaimedTask} opened changed context OutcomeKind.applied
        (ReceiptOutcome.claim (some value)) none
        (some ("task", locked.task.task_id, locked.task.attempt)) _
        (extend-receipts opened context.tenant_id locked command.lease.token later now extended)
        refl h7 in
    subst (RenewFinishes opened context final) answered (finishes, refl)

-- The receipt that answers a renewal once more.
abbrev RenewAnswered : Database → ℕ → CommandContext → ℕ → Committed ClaimedTask → Type 0
RenewAnswered final ttl context later answer =
    (r : ExistingReceipt) × (v : ClaimedTask) × (acquire_receipt final context later ttl
      ≡ ok (existing r))
    × (decode_claim_receipt r.outcome ≡ ok (some v))
    × (again answer ≡ duplicate_of r v)

renew_guarded :
    (db : Database) (ttl : ℕ) (context : CommandContext) (command : RenewTaskLease) (now later : ℕ)
    (guard : ReceiptGuard) {final : Database} {answer : Committed ClaimedTask}
    → acquire_receipt db context now ttl ≡ ok guard
    → renew_under guard db context command now ≡ ok (final, answer)
    → RenewAnswered final ttl context later answer
unfolding renew_under
renew_guarded db ttl context command now later (existing r) {final} {answer} a h =
    let (value, decoded, h1) = >>=-eq-ok (decode_claim_receipt r.outcome) _ h in
    let (claimed, is_some, done) =
      >>=-eq-ok (ok_or value StoreErrorCode.inconsistent_projection) _ h1 in
    let (same, answered) = ok-pair-eq done in
    let found : value ≡ some claimed = ground arith in
    subst (λ (d : Database). RenewAnswered d ttl context later answer) same
      (subst (RenewAnswered db ttl context later) answered (
        r,
        claimed,
        acquire-existing_again db context now later ttl a,
        decoded ∙ ap ok found,
        refl,
      ))
renew_guarded db ttl context command now later (acquired opened) {final} {answer} a h =
    let (finishes, same) = renew_new-finishes opened context command now h in
    (
      record { outcome = some (ReceiptOutcome.claim (some answer.value)); event_id = none },
      answer.value,
      Finishes-replay db opened final context now later ttl
          (ReceiptOutcome.claim (some answer.value)) none a finishes,
      refl,
      same,
    )

-- A renewal that has committed and is sent again, at any later time, is answered with the same
-- task and expiry, marked as a duplicate, and extends nothing a second time.
pub renew_task_lease-idempotent :
    (db : Database) (ttl : ℕ) (context : CommandContext) (command : RenewTaskLease) (now later : ℕ)
    (final : Database) (answer : Committed ClaimedTask)
    → renew_task_lease db ttl context command now ≡ ok (final, answer)
    → renew_task_lease final ttl context command later ≡ ok (final, again answer)
unfolding renew_task_lease renew_under
renew_task_lease-idempotent db ttl context command now later final answer h =
    let (u, passed, h1) =
      >>=-eq-ok (reject_if (command.extension == 0) StoreErrorCode.constraint_violation) _ h in
    let (guard, got, h2) = >>=-eq-ok (acquire_receipt db context now ttl) _ h1 in
    let (r, v, found, decoded, same) =
      renew_guarded db ttl context command now later guard got h2 in
    rw (passed, found, decoded) (ap (λ a. ok (final, a)) (sym same))
