-- ===== src/Store/Idempotency/Reclaims.antt =====
-- `reclaim_expired_lease`, when it is sent again.
use mathlib.Core.Path.{subst}
use agent_loom.Base.{
  ℕ, ◌≡◌, refl, sym, ap, ◌∙◌, not, ◌&&◌, ◌||◌, Option, none, some, inl, inr, Option-cases,
  Bool-cases, find_where, keep_where, ◌==◌, is_none_or, ltb,
}
use agent_loom.Domain.Status.{is_leased}
use agent_loom.Store.Result.{StoreErrorCode, ok, >>=-eq-ok, ok-pair-eq, ok_or}
use agent_loom.Store.Rows.{RunRow, TaskRow}
use agent_loom.Store.Outcome.{
  CommandContext, Committed, LeaseReclaimOutcome, ReceiptOutcome, OutcomeKind,
}
use agent_loom.Store.Database.{
  Database, ExistingReceipt, ReceiptGuard, acquired, existing, acquire_receipt, is_run, is_task_of,
}
use agent_loom.Store.Database.Receipts.{
  Finishes, Finishes-replay, finish-then, acquire-existing_again,
}
use agent_loom.Store.Fences.{positive_u32}
use agent_loom.Store.Claim.{map_option, duplicate_of}
use agent_loom.Store.Expiry.{first_expired, is_expired_lease}
use agent_loom.Store.Reclaim.{
  apply_reclaim, reclaim_none, reclaim_applied, reclaim_locked, reclaim_candidate, reclaim_new,
  reclaim_under, reclaim_expired_lease, decode_lease_reclaim_receipt,
}
use agent_loom.Store.Reclaim.Laws.{reclaim-receipts}
use agent_loom.Store.Idempotency.{again}

-- The event that a reclamation records, if it reclaims a lease.
abbrev reclaim_event : ℕ → Option (Committed LeaseReclaimOutcome) → Option ℕ
reclaim_event event_id none = none
reclaim_event event_id (some answer) = some event_id

abbrev reclaim_value : Option (Committed LeaseReclaimOutcome) → Option LeaseReclaimOutcome
reclaim_value = map_option (λ (c : Committed LeaseReclaimOutcome). c.value)

-- A reclamation under a new receipt finishes it with its answer.
abbrev ReclaimFinishes :
    Database → CommandContext → ℕ → Database → Option (Committed LeaseReclaimOutcome) → Type 0
ReclaimFinishes opened context event_id final answer =
    Finishes opened final context (ReceiptOutcome.lease_reclaim (reclaim_value answer))
      (reclaim_event event_id answer)
    × (map_option again answer
        ≡ map_option
            (duplicate_of (record { outcome = none; event_id = reclaim_event event_id answer }))
            (reclaim_value answer))

module _ (opened : Database) (context : CommandContext) (event_id now : ℕ) {final : Database}
    {answer : Option (Committed LeaseReclaimOutcome)} where
  reclaim_none-finishes :
      reclaim_none opened context ≡ ok (final, answer)
      → ReclaimFinishes opened context event_id final answer
  unfolding reclaim_none
  reclaim_none-finishes h =
      let (finishes, answered) =
        finish-then {A = Option (Committed LeaseReclaimOutcome)} opened opened context
          OutcomeKind.no_op (ReceiptOutcome.lease_reclaim none) none none none refl refl h in
      subst (ReclaimFinishes opened context event_id final) answered (finishes, refl)

  reclaim_applied-finishes :
      (run : RunRow) (task : TaskRow)
      → reclaim_applied opened context event_id now run task ≡ ok (final, answer)
      → ReclaimFinishes opened context event_id final answer
  unfolding reclaim_applied
  reclaim_applied-finishes run task h =
      let (changed, applied, h1) =
        >>=-eq-ok (apply_reclaim opened context event_id now run task) _ h in
      let (attempt, e2, h2) = >>=-eq-ok (positive_u32 task.attempt) _ h1 in
      let (finishes, answered) =
        finish-then {A = Option (Committed LeaseReclaimOutcome)} opened changed context
          OutcomeKind.applied _ (some event_id) (some ("task", task.task_id, task.attempt)) _
          (reclaim-receipts opened context event_id now run task applied) refl h2 in
      subst (ReclaimFinishes opened context event_id final) answered (finishes, refl)

  reclaim_new-finishes :
      reclaim_new opened context event_id now ≡ ok (final, answer)
      → ReclaimFinishes opened context event_id final answer
  unfolding reclaim_new reclaim_candidate reclaim_locked
  reclaim_new-finishes h =
      elim (Option-cases
        (first_expired (keep_where (is_expired_lease opened context.tenant_id now) opened.tasks))) [
          | inl e ↦ reclaim_none-finishes (rw (e, reclaim_new) at h)
          | inr (candidate, e) ↦
              let (run, found, h1) =
                >>=-eq-ok
                  (ok_or (find_where (is_run context.tenant_id candidate.run_id) opened.runs)
                    StoreErrorCode.not_found)
                  _ (rw (e, reclaim_new) at h) in
              let (task, e2, h2) =
                >>=-eq-ok
                  (ok_or
                    (find_where
                      (λ (t : TaskRow).
                        is_task_of context.tenant_id candidate.run_id t
                        && t.task_id == candidate.task_id)
                      opened.tasks)
                    StoreErrorCode.inconsistent_projection)
                  _ h1 in
              elim (Bool-cases (
                not (is_leased task.status)
                || is_none_or task.lease_expires_at (λ expires. ltb now expires))) [
                  | inl lost ↦ reclaim_none-finishes (rw lost at h2)
                  | inr held ↦ reclaim_applied-finishes run task (rw held at h2)
                ]
        ]

-- The receipt that answers a reclamation once more.
abbrev ReclaimAnswered :
    Database → ℕ → CommandContext → ℕ → Option (Committed LeaseReclaimOutcome) → Type 0
ReclaimAnswered final ttl context later answer =
    (r : ExistingReceipt) × (v : Option LeaseReclaimOutcome) × (acquire_receipt final context later
        ttl
      ≡ ok (existing r))
    × (decode_lease_reclaim_receipt r.outcome ≡ ok v)
    × (map_option again answer ≡ map_option (duplicate_of r) v)

again-duplicated :
    (r : ExistingReceipt) (v : Option LeaseReclaimOutcome)
    → map_option again (map_option (duplicate_of r) v) ≡ map_option (duplicate_of r) v
again-duplicated r none = refl
again-duplicated r (some a) = refl

-- The duplicate of an answer reads the receipt's event and nothing else of it.
duplicate_of-event :
    (outcome : Option ReceiptOutcome) (event_id : Option ℕ) (v : Option LeaseReclaimOutcome)
    → map_option (duplicate_of (record { outcome = none; event_id = event_id })) v
      ≡ map_option (duplicate_of (record { outcome = outcome; event_id = event_id })) v
duplicate_of-event outcome event_id none = refl
duplicate_of-event outcome event_id (some a) = refl

reclaim_guarded :
    (db : Database) (ttl : ℕ) (context : CommandContext) (event_id now later : ℕ)
    (guard : ReceiptGuard) {final : Database} {answer : Option (Committed LeaseReclaimOutcome)}
    → acquire_receipt db context now ttl ≡ ok guard
    → reclaim_under guard db context event_id now ≡ ok (final, answer)
    → ReclaimAnswered final ttl context later answer
unfolding reclaim_under
reclaim_guarded db ttl context event_id now later (existing r) {final} {answer} a h =
    let (v, decoded, done) = >>=-eq-ok (decode_lease_reclaim_receipt r.outcome) _ h in
    let (same, answered) = ok-pair-eq done in
    subst (λ (d : Database). ReclaimAnswered d ttl context later answer) same
      (subst (ReclaimAnswered db ttl context later) answered
        (r, v, acquire-existing_again db context now later ttl a, decoded, again-duplicated r v))
reclaim_guarded db ttl context event_id now later (acquired opened) {final} {answer} a h =
    let (finishes, same) = reclaim_new-finishes opened context event_id now h in
    let outcome = ReceiptOutcome.lease_reclaim (reclaim_value answer) in
    (
      record { outcome = some outcome; event_id = reclaim_event event_id answer },
      reclaim_value answer,
      Finishes-replay db opened final context now later ttl outcome (reclaim_event event_id answer)
          a finishes,
      refl,
      same
          ∙ duplicate_of-event (some outcome) (reclaim_event event_id answer)
              (reclaim_value answer),
    )

-- A reclamation that has committed and is sent again, at any later time, is answered with the same
-- lease, action and event, marked as a duplicate, or with none again, and reclaims nothing more,
-- whatever leases have expired by then.
pub reclaim_expired_lease-idempotent :
    (db : Database) (ttl : ℕ) (context : CommandContext) (event_id now later : ℕ) (final : Database)
    (answer : Option (Committed LeaseReclaimOutcome))
    → reclaim_expired_lease db ttl context event_id now ≡ ok (final, answer)
    → reclaim_expired_lease final ttl context event_id later ≡ ok (final, map_option again answer)
unfolding reclaim_expired_lease reclaim_under
reclaim_expired_lease-idempotent db ttl context event_id now later final answer h =
    let (guard, got, h1) = >>=-eq-ok (acquire_receipt db context now ttl) _ h in
    let (r, v, found, decoded, same) =
      reclaim_guarded db ttl context event_id now later guard got h1 in
    rw (found, decoded) (ap (λ a. ok (final, a)) (sym same))
