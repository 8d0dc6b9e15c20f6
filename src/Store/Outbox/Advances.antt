-- ===== src/Store/Outbox/Advances.antt =====
-- That the transactions on the outbox implement the life of each delivery.
use mathlib.Core.Path.{subst}
use agent_loom.Base.{
  ℕ, ◌+◌, ◌≡◌, refl, sym, ◌∙◌, inl, inr, Bool, true, not, ◌==◌, none, some, List, arith, find_where,
  update_where, count_where, find_where-update, find_where-append_later, count_where-only,
  Bool-cases,
}
use agent_loom.Store.Result.{ok, ok-eq, >>=-eq-ok, reject_if, StoreErrorCode}
use agent_loom.Store.Rows.{OutboxRow, OutboxStatus}
use agent_loom.Store.Outbox.{
  TransactionTime, ClaimOutbox, RecordOutboxDelivery, OutboxDeliveryOutcome, OutboxMessage, is_due,
  is_ripe, publishing_row, is_claimed, delivered_row, is_delivered, is_publishing,
  record_outbox_delivery, delivery_shape_is_valid,
}
use agent_loom.Store.Outbox.Moves.{
  Move, take, retake, retry, publish, Moves, stay, move, attempted, delivery_of, Moves-trans,
}
use agent_loom.Store.Outbox.Refines.{
  OutboxStep, posted, claimed, recorded, OutboxSteps, done, then_step, is_message, IsClaim,
  claim_outbox-IsClaim, claim-none, first_due-All, keep_where-both,
}

ripe-Move :
    (now : ℕ) (o : OutboxRow) (status : OutboxStatus)
    → is_ripe now (record o { status = status }) ≡ true
    → Move (delivery_of (record o { status = status })) (attempted (o.attempt + 1))
ripe-Move now o OutboxStatus.pending ripe = take
ripe-Move now o OutboxStatus.publishing ripe = retake
ripe-Move now o OutboxStatus.published ripe = absurd cc

recorded-Move :
    (outcome : OutboxDeliveryOutcome) (now : ℕ) (o : OutboxRow) (status : OutboxStatus)
    → is_publishing status ≡ true
    → Move (delivery_of (record o { status = status })) (delivery_of (delivered_row outcome now o))
recorded-Move (OutboxDeliveryOutcome.published) now o OutboxStatus.publishing h = publish
recorded-Move (OutboxDeliveryOutcome.retry at code) now o OutboxStatus.publishing h = retry
recorded-Move outcome now o OutboxStatus.pending h = absurd cc
recorded-Move outcome now o OutboxStatus.published h = absurd cc

pub delivered_row-key :
    (tenant_id outbox_id : ℕ) (outcome : OutboxDeliveryOutcome) (now : ℕ) (o : OutboxRow)
    → is_message tenant_id outbox_id (delivered_row outcome now o)
      ≡ is_message tenant_id outbox_id o
delivered_row-key tenant_id outbox_id OutboxDeliveryOutcome.published now o = refl
delivered_row-key tenant_id outbox_id (OutboxDeliveryOutcome.retry at code) now o = refl

-- A message that goes on as the delivery does.
abbrev pub Advances : ℕ → ℕ → OutboxRow → List OutboxRow → Type 0
Advances tenant_id outbox_id row after =
    (later : OutboxRow) × (find_where (is_message tenant_id outbox_id) after ≡ some later)
    × Moves (delivery_of row) (delivery_of later)

-- An UPDATE of whichever rows, each by one move.
update-Advances :
    (tenant_id outbox_id : ℕ) (p : OutboxRow → Bool) (f : OutboxRow → OutboxRow)
    (rows : List OutboxRow) {row : OutboxRow}
    → ((o : OutboxRow) → is_message tenant_id outbox_id (f o) ≡ is_message tenant_id outbox_id o)
    → find_where (is_message tenant_id outbox_id) rows ≡ some row
    → (p row ≡ true → Move (delivery_of row) (delivery_of (f row)))
    → Advances tenant_id outbox_id row (update_where p f rows)
update-Advances tenant_id outbox_id p f rows {row} keep found moves =
    let later = find_where-update p (is_message tenant_id outbox_id) f rows keep found in
    elim (Bool-cases (p row)) [
      | inl e ↦ (f row, later ∙ rw e refl, move stay (moves e))
      | inr e ↦ (row, later ∙ rw e refl, stay)
    ]

module _ (tenant_id outbox_id : ℕ) (rows : List OutboxRow) {row : OutboxRow}
    (found : find_where (is_message tenant_id outbox_id) rows ≡ some row) where
  claim-Advances :
      (locked : OutboxRow → Bool) (tenant : ℕ) (command : ClaimOutbox) (time : TransactionTime)
      {after : List OutboxRow} {message : OutboxMessage}
      → IsClaim rows locked tenant command time after message
      → Advances tenant_id outbox_id row after
  claim-Advances locked tenant command time {message = message} claim =
      subst (Advances tenant_id outbox_id row) (sym claim.rows_after) (
        update-Advances tenant_id outbox_id (is_claimed tenant claim.row)
          (publishing_row command (claim.row.attempt + 1) message.lease_expires_at) rows (λ o. refl)
          found
          (λ touched.
            let only =
              count_where-only (is_claimed tenant claim.row) (is_message tenant_id outbox_id) rows
                claim.single found touched in
            let same =
              first_due-All
                (λ o.
                  (is_claimed tenant claim.row o ≡ true → o ≡ row)
                  × (is_due tenant time.started locked o ≡ true))
                _ (keep_where-both _ (is_due tenant time.started locked) rows only) claim.chosen in
            let equal : claim.row ≡ row = same.0 (ground (arith, same.1)) in
            let ripe : is_ripe time.started claim.row ≡ true = ground (arith, same.1) in
            subst (λ o. Move (delivery_of o) (attempted (claim.row.attempt + 1))) equal
              (ripe-Move time.started claim.row claim.row.status ripe)))

  record-Advances :
      (tenant : ℕ) (command : RecordOutboxDelivery) (time : TransactionTime)
      {after : List OutboxRow}
      → record_outbox_delivery rows tenant command time ≡ ok after
      → Advances tenant_id outbox_id row after
  unfolding record_outbox_delivery
  record-Advances tenant command time h =
      let (u, shaped, h1) =
        >>=-eq-ok
          (reject_if (not (delivery_shape_is_valid command)) StoreErrorCode.constraint_violation) _
          h in
      let (v, single, h2) =
        >>=-eq-ok
          (reject_if (not (count_where (is_delivered tenant command time.started) rows == 1))
            StoreErrorCode.lease_lost)
          _ h1 in
      subst (Advances tenant_id outbox_id row) (ok-eq h2) (
        update-Advances tenant_id outbox_id (is_delivered tenant command time.started)
          (delivered_row command.outcome time.db_now) rows
          (delivered_row-key tenant_id outbox_id command.outcome time.db_now) found
          (λ touched.
            recorded-Move command.outcome time.db_now row row.status (ground (arith, touched))))

  OutboxStep-Advances :
      {after : List OutboxRow} → OutboxStep rows after → Advances tenant_id outbox_id row after
  OutboxStep-Advances (posted event) =
      (row, find_where-append_later (is_message tenant_id outbox_id) rows _ found, stay)
  OutboxStep-Advances (claimed locked tenant command time {message = none} h) =
      subst (Advances tenant_id outbox_id row) (sym (claim-none rows locked tenant command time h))
        (row, found, stay)
  OutboxStep-Advances (claimed locked tenant command time {message = some message} h) =
      claim-Advances locked tenant command time
        (claim_outbox-IsClaim rows locked tenant command time h)
  OutboxStep-Advances (recorded tenant command time h) = record-Advances tenant command time h

-- Over any sequence of posted events, claims and recorded results a message that is in the outbox
-- stays in it, and goes through the moves of a delivery: it is taken, with one attempt more, only
-- while it is not delivered, and only an attempt is delivered or put back.
pub OutboxSteps-refine :
    (tenant_id outbox_id : ℕ) {rows after : List OutboxRow} {row : OutboxRow}
    → find_where (is_message tenant_id outbox_id) rows ≡ some row
    → OutboxSteps rows after
    → (later : OutboxRow) × (find_where (is_message tenant_id outbox_id) after ≡ some later)
      × Moves (delivery_of row) (delivery_of later)
OutboxSteps-refine tenant_id outbox_id {row = row} found done = (row, found, stay)
OutboxSteps-refine tenant_id outbox_id found (then_step before step) =
    let (middle, found_middle, first) = OutboxSteps-refine tenant_id outbox_id found before in
    let (later, found_later, last) = OutboxStep-Advances tenant_id outbox_id _ found_middle step in
    (later, found_later, Moves-trans first last)
