-- ===== src/Store/Outbox/Refines.antt =====
-- The transactions on the outbox as steps of its table, and what a claim that hands a message out
-- does.
use mathlib.Core.Path.{subst}
use agent_loom.Base.{
  ℕ, ◌+◌, ◌<◌, ◌≡◌, refl, sym, ap, ◌∙◌, inl, inr, Bool, true, ◌&&◌, not, Option, none, some, List,
  [], ◌∷◌, ◌++◌, ◌==◌, leb, arith, update_where, count_where, keep_where, keep_where-All, All,
  Bool-cases, Option-cases,
}
use agent_loom.Base.TableLaws.{some-eq}
use agent_loom.Store.Result.{
  StoreErrorCode, ok, >>=-eq-ok, ok-eq, ok-pair-eq, reject_if, ok_or, try_i64, checked_add,
}
use agent_loom.Store.Rows.{OutboxRow, EventRow}
use agent_loom.Store.Database.{new_outbox_row}
use agent_loom.Store.Outbox.{
  TransactionTime, ClaimOutbox, RecordOutboxDelivery, OutboxMessage, claim_shape_is_valid, is_due,
  first_due, comes_first, publishing_row, is_claimed, claim_message, claim_outbox,
  record_outbox_delivery,
}

-- A row, by its key.
abbrev pub is_message : ℕ → ℕ → OutboxRow → Bool
is_message tenant_id outbox_id o = o.tenant_id == tenant_id && o.outbox_id == outbox_id

-- One transaction on the outbox: an event's message, a claim, or the result of a publication.
pub data OutboxStep (rows : List OutboxRow) : List OutboxRow → Type 0 where
  posted : (event : EventRow) → OutboxStep rows (rows ++ new_outbox_row event ∷ [])
  claimed :
      (locked : OutboxRow → Bool) (tenant_id : ℕ) (command : ClaimOutbox) (time : TransactionTime)
      {after : List OutboxRow} {message : Option OutboxMessage}
      → claim_outbox rows locked tenant_id command time ≡ ok (after, message)
      → OutboxStep rows after
  recorded :
      (tenant_id : ℕ) (command : RecordOutboxDelivery) (time : TransactionTime)
      {after : List OutboxRow}
      → record_outbox_delivery rows tenant_id command time ≡ ok after
      → OutboxStep rows after

pub data OutboxSteps (rows : List OutboxRow) : List OutboxRow → Type 0 where
  done : OutboxSteps rows rows
  then_step :
      {middle after : List OutboxRow}
      → OutboxSteps rows middle
      → OutboxStep middle after
      → OutboxSteps rows after

pub first_due-All :
    (P : OutboxRow → Type 0) (rows : List OutboxRow) {row : OutboxRow}
    → All P rows
    → first_due rows ≡ some row
    → P row
unfolding first_due
first_due-All P [] all h = absurd cc
first_due-All P (o ∷ os) {row} all h = elim (Option-cases (first_due os)) [
  | inl e ↦ subst P (ground (arith, e)) all.0
  | inr (first, e) ↦ elim (Bool-cases (comes_first o first)) [
    | inl b ↦ subst P (ground (arith, e, b)) all.0
    | inr b ↦ first_due-All P os {row = row} all.1 (ground (arith, e, b))
  ]
]

pub keep_where-both :
    (P : OutboxRow → Type 0) (p : OutboxRow → Bool) (rows : List OutboxRow)
    → All P rows
    → All (λ o. P o × (p o ≡ true)) (keep_where p rows)
unfolding keep_where
keep_where-both P p [] all = tt
keep_where-both P p (o ∷ os) all = elim (Bool-cases (p o)) [
  | inl e ↦ rw e ((all.0, e), keep_where-both P p os all.1)
  | inr e ↦ rw e (keep_where-both P p os all.1)
]

-- The claim of one row, step by step.
abbrev IsGrant :
    List OutboxRow → ℕ → ClaimOutbox → ℕ → OutboxRow → List OutboxRow × OutboxMessage → Type 0
IsGrant rows tenant_id command expires row claim =
    (count_where (is_claimed tenant_id row) rows ≡ 1)
    × (claim.0
        ≡ update_where (is_claimed tenant_id row) (publishing_row command (row.attempt + 1) expires)
            rows)
    × (claim.1.outbox_id ≡ row.outbox_id)
    × (claim.1.attempt ≡ row.attempt + 1)
    × (claim.1.lease_expires_at ≡ expires)

claim_message-IsGrant :
    (rows : List OutboxRow) (tenant_id : ℕ) (command : ClaimOutbox) (expires : ℕ) (row : OutboxRow)
    {claim : List OutboxRow × OutboxMessage}
    → claim_message rows tenant_id command expires row ≡ ok claim
    → IsGrant rows tenant_id command expires row claim
unfolding claim_message checked_add
claim_message-IsGrant rows tenant_id command expires row {claim} h =
    let (attempt, e1, h1) =
      >>=-eq-ok (ok_or (checked_add row.attempt 1) StoreErrorCode.inconsistent_projection) _ h in
    let same : attempt ≡ row.attempt + 1 = ground (arith, e1) in
    let (u, single, h2) =
      >>=-eq-ok
        (reject_if (not (count_where (is_claimed tenant_id row) rows == 1))
          StoreErrorCode.version_conflict)
        _ h1 in
    let (v, small, h3) =
      >>=-eq-ok (reject_if (leb 4294967296 attempt) StoreErrorCode.inconsistent_projection) _ h2 in
    subst (IsGrant rows tenant_id command expires row) (ok-eq h3) (
      ground (arith, single),
      ap (λ n. update_where (is_claimed tenant_id row) (publishing_row command n expires) rows)
          same,
      refl,
      same,
      refl,
    )

expires_later :
    (command : ClaimOutbox) (now : ℕ) {duration expires at : ℕ} {u : Unit {0}}
    → reject_if (not (claim_shape_is_valid command)) StoreErrorCode.constraint_violation ≡ ok u
    → ok_or (try_i64 command.lease_duration) StoreErrorCode.constraint_violation ≡ ok duration
    → ok_or (checked_add now duration) StoreErrorCode.constraint_violation ≡ ok expires
    → at ≡ expires
    → now < at
unfolding try_i64 checked_add
expires_later command now {duration} {expires} shaped e1 e2 same =
    let positive : 0 < command.lease_duration = ground (arith, shaped) in
    let kept : duration ≡ command.lease_duration = ground (arith, e1) in
    let sum : expires ≡ now + duration = ground (arith, e2) in
    omega (arith, positive, kept, sum, same)

-- A claim takes one row that is due, and gives it the next attempt.
pub record IsClaim (rows : List OutboxRow) (locked : OutboxRow → Bool) (tenant_id : ℕ)
    (command : ClaimOutbox) (time : TransactionTime) (after : List OutboxRow)
    (message : OutboxMessage) : Type 0 where
  pub row : OutboxRow
  pub chosen : first_due (keep_where (is_due tenant_id time.started locked) rows) ≡ some row
  pub due : is_due tenant_id time.started locked row ≡ true
  pub single : count_where (is_claimed tenant_id row) rows ≡ 1
  pub rows_after :
      after
      ≡ update_where
          (is_claimed tenant_id row)
          (publishing_row command (row.attempt + 1) message.lease_expires_at)
          rows
  pub id : message.outbox_id ≡ row.outbox_id
  pub attempt : message.attempt ≡ row.attempt + 1
  pub later : time.db_now < message.lease_expires_at

module _ (rows : List OutboxRow) (locked : OutboxRow → Bool) (tenant_id : ℕ) (command : ClaimOutbox)
    (time : TransactionTime) {after : List OutboxRow} where
  pub claim_outbox-IsClaim :
      {message : OutboxMessage}
      → claim_outbox rows locked tenant_id command time ≡ ok (after, some message)
      → IsClaim rows locked tenant_id command time after message
  unfolding claim_outbox claim_message
  claim_outbox-IsClaim {message} h =
      let (u, shaped, h1) =
        >>=-eq-ok
          (reject_if (not (claim_shape_is_valid command)) StoreErrorCode.constraint_violation) _
          h in
      let (duration, e2, h2) =
        >>=-eq-ok (ok_or (try_i64 command.lease_duration) StoreErrorCode.constraint_violation) _
          h1 in
      let (expires, e3, h3) =
        >>=-eq-ok (ok_or (checked_add time.db_now duration) StoreErrorCode.constraint_violation) _
          h2 in
      elim (Option-cases (first_due (keep_where (is_due tenant_id time.started locked) rows))) [
        | inl e ↦ absurd (let bad = rw e at h3 in ground arith)
        | inr (row, e) ↦
            let (claim, e4, h4) =
              >>=-eq-ok (claim_message rows tenant_id command expires row) _ (rw e at h3) in
            let granted = claim_message-IsGrant rows tenant_id command expires row e4 in
            let same = ok-pair-eq h4 in
            let message_eq : claim.1 ≡ message = some-eq claim.1 message same.1 in
            let expiry : message.lease_expires_at ≡ expires =
              sym (ap (λ m. m.lease_expires_at) message_eq) ∙ granted.4 in
            record {
              row = row;
              chosen = e;
              due =
                  first_due-All (λ o. is_due tenant_id time.started locked o ≡ true) _
                    (keep_where-All (is_due tenant_id time.started locked) rows) e;
              single = granted.0;
              rows_after =
                  sym same.0
                  ∙ granted.1
                  ∙ ap
                      (λ n.
                        update_where (is_claimed tenant_id row)
                          (publishing_row command (row.attempt + 1) n) rows)
                      (sym expiry);
              id = sym (ap (λ m. m.outbox_id) message_eq) ∙ granted.2;
              attempt = sym (ap (λ m. m.attempt) message_eq) ∙ granted.3;
              later = expires_later command time.db_now shaped e2 e3 expiry;
            }
      ]

  -- A claim that finds no message leaves the table.
  pub claim-none : claim_outbox rows locked tenant_id command time ≡ ok (after, none) → after ≡ rows
  unfolding claim_outbox
  claim-none h =
      let (u, shaped, h1) =
        >>=-eq-ok
          (reject_if (not (claim_shape_is_valid command)) StoreErrorCode.constraint_violation) _
          h in
      let (duration, e2, h2) =
        >>=-eq-ok (ok_or (try_i64 command.lease_duration) StoreErrorCode.constraint_violation) _
          h1 in
      let (expires, e3, h3) =
        >>=-eq-ok (ok_or (checked_add time.db_now duration) StoreErrorCode.constraint_violation) _
          h2 in
      elim (Option-cases (first_due (keep_where (is_due tenant_id time.started locked) rows))) [
        | inl e ↦ sym (ok-pair-eq (rw e at h3)).0
        | inr (row, e) ↦
            let (claim, e4, h4) =
              >>=-eq-ok (claim_message rows tenant_id command expires row) _ (rw e at h3) in
            absurd (let bad = (ok-pair-eq h4).1 in cc)
      ]
