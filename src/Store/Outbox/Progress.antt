-- ===== src/Store/Outbox/Progress.antt =====
-- That a due message is handed out, the earliest first.
use mathlib.Core.Path.{subst}
use agent_loom.Base.{
  ℕ, ◌+◌, ◌<◌, ◌≡◌, refl, sym, ◌∙◌, inl, inr, Bool, true, false, ltb, leb, none, some, List, [],
  ◌∷◌, arith, exists_where, count_where, update_where, keep_where, All, All-map, All-both,
  count_where-keyed, IsKeyed-found, find_where, has_key_of, Bool-cases, Option-cases, some-eq,
}
use agent_loom.Store.Result.{ok, i64_bound, checked_add, try_i64}
use agent_loom.Store.Rows.{OutboxRow}
use agent_loom.Store.Outbox.{
  TransactionTime, ClaimOutbox, OutboxMessage, is_due, first_due, comes_first, is_claimed,
  claim_message, claim_outbox, claim_shape_is_valid, publishing_row,
}
use agent_loom.Store.Outbox.Refines.{first_due-All, keep_where-both}
use agent_loom.Store.Outbox.Fencing.{IsOutbox}

first_due-some :
    (o : OutboxRow) (rows : List OutboxRow) → (row : OutboxRow) × (first_due (o ∷ rows) ≡ some row)
unfolding first_due
first_due-some o rows = elim (Option-cases (first_due rows)) [
  | inl e ↦ (o, rw e refl)
  | inr (first, e) ↦ elim (Bool-cases (comes_first o first)) [
    | inl b ↦ (o, rw (e, b) refl)
    | inr b ↦ (first, rw (e, b) refl)
  ]
]

first_due-nothing :
    (P : OutboxRow → Type 0) (rows : List OutboxRow) → first_due rows ≡ none → All P rows
first_due-nothing P [] h = tt
first_due-nothing P (o ∷ os) h =
    let (row, found) = first_due-some o os in absurd (let equal = sym found ∙ h in cc)

first_due-exists :
    (p : OutboxRow → Bool) (rows : List OutboxRow)
    → exists_where p rows ≡ true
    → (row : OutboxRow) × (first_due (keep_where p rows) ≡ some row)
unfolding exists_where keep_where
first_due-exists p [] h = absurd cc
first_due-exists p (o ∷ os) h = elim (Bool-cases (p o)) [
  | inl e ↦ rw e (first_due-some o (keep_where p os))
  | inr e ↦ rw e (first_due-exists p os (rw e at h))
]

comes_first_trans :
    (a b c : OutboxRow) → comes_first a b ≡ true → comes_first b c ≡ true → comes_first a c ≡ true
comes_first_trans a b c h k = ground arith

comes_first_total : (a b : OutboxRow) → comes_first a b ≡ false → comes_first b a ≡ true
comes_first_total a b h = ground arith

comes_first_refl : (a : OutboxRow) → comes_first a a ≡ true
comes_first_refl a = ground arith

pub first_due-least :
    (rows : List OutboxRow) {row : OutboxRow}
    → first_due rows ≡ some row
    → All (λ o. comes_first row o ≡ true) rows
unfolding first_due
first_due-least [] h = tt
first_due-least (o ∷ os) {row} h = elim (Option-cases (first_due os)) [
  | inl e ↦
      let same : o ≡ row = some-eq o row (rw e at h) in
      (subst (λ z. comes_first z o ≡ true) same (comes_first_refl o), first_due-nothing _ os e)
  | inr (first, e) ↦
      let later = first_due-least os e in
      elim (Bool-cases (comes_first o first)) [
        | inl b ↦
            let same : o ≡ row = some-eq o row (rw (e, b) at h) in
            subst (λ z. All (λ x. comes_first z x ≡ true) (o ∷ os)) same
              (comes_first_refl o, All-map _ _ os (λ x. comes_first_trans o first x b) later)
        | inr b ↦
            let same : first ≡ row = some-eq first row (rw (e, b) at h) in
            subst (λ z. All (λ x. comes_first z x ≡ true) (o ∷ os)) same
              (comes_first_total o first b, later)
      ]
]

abbrev granted_message : ℕ → ℕ → OutboxRow → OutboxMessage
granted_message tenant_id expires row = record {
  tenant_id = tenant_id;
  outbox_id = row.outbox_id;
  event_id = row.event_id;
  run_id = row.run_id;
  attempt = row.attempt + 1;
  lease_expires_at = expires;
  created_at = row.created_at;
}

claim_outbox-serves :
    (rows : List OutboxRow) (locked : OutboxRow → Bool) (tenant_id : ℕ) (command : ClaimOutbox)
    (time : TransactionTime) (row : OutboxRow)
    → claim_shape_is_valid command ≡ true
    → time.db_now + command.lease_duration < i64_bound
    → row.attempt + 1 < 4294967296
    → first_due (keep_where (is_due tenant_id time.started locked) rows) ≡ some row
    → count_where (is_claimed tenant_id row) rows ≡ 1
    → claim_outbox rows locked tenant_id command time
      ≡ ok (
        update_where
            (is_claimed tenant_id row)
            (publishing_row command (row.attempt + 1) (time.db_now + command.lease_duration))
            rows,
        some (granted_message tenant_id (time.db_now + command.lease_duration) row),
      )
unfolding claim_outbox claim_message checked_add try_i64
claim_outbox-serves rows locked tenant_id command time row shaped fits small chosen single =
    let long : ltb command.lease_duration i64_bound ≡ true = ground arith in
    let soon : ltb (time.db_now + command.lease_duration) i64_bound ≡ true = ground arith in
    let next : ltb (row.attempt + 1) i64_bound ≡ true = ground arith in
    let few : leb 4294967296 (row.attempt + 1) ≡ false = ground arith in
    rw (shaped, long, soon, chosen, next, single, few) refl

module _ (rows : List OutboxRow) (locked : OutboxRow → Bool) (tenant_id : ℕ) (command : ClaimOutbox)
    (time : TransactionTime) where
  pub claim-serves_first :
      IsOutbox rows
      → claim_shape_is_valid command ≡ true
      → time.db_now + command.lease_duration < i64_bound
      → All (λ o. o.attempt + 1 < 4294967296) rows
      → exists_where (is_due tenant_id time.started locked) rows ≡ true
      → (after : List OutboxRow) × (message : OutboxMessage) × (row : OutboxRow) × (claim_outbox
            rows locked tenant_id command time
          ≡ ok (after, some message))
        × (is_due tenant_id time.started locked row ≡ true)
        × All
            (λ o. comes_first row o ≡ true)
            (keep_where (is_due tenant_id time.started locked) rows)
        × (message.outbox_id ≡ row.outbox_id)
        × (message.attempt ≡ row.attempt + 1)
        × (message.lease_expires_at ≡ time.db_now + command.lease_duration)
  claim-serves_first keyed shaped fits small exists =
      let (row, chosen) = first_due-exists (is_due tenant_id time.started locked) rows exists in
      let facts =
        first_due-All
          (λ o.
            ((find_where (has_key_of (λ o. o.tenant_id) (λ o. o.outbox_id) o) rows ≡ some o)
              × (o.attempt + 1 < 4294967296))
            × (is_due tenant_id time.started locked o ≡ true))
          _
          (keep_where-both _ (is_due tenant_id time.started locked) rows (
            All-both _ _ rows (IsKeyed-found (λ o. o.tenant_id) (λ o. o.outbox_id) rows keyed)
              small))
          chosen in
      let own : is_claimed tenant_id row row ≡ true = ground (arith, facts.1) in
      let one =
        count_where-keyed (λ o. o.tenant_id) (λ o. o.outbox_id) (is_claimed tenant_id row)
          (has_key_of (λ o. o.tenant_id) (λ o. o.outbox_id) row) rows keyed facts.0.0
          (λ o hit. ground (arith, hit, own)) in
      let single : count_where (is_claimed tenant_id row) rows ≡ 1 = one ∙ rw own refl in
      (
        _,
        _,
        row,
        claim_outbox-serves rows locked tenant_id command time row shaped fits facts.0.1 chosen
            single,
        facts.1,
        first_due-least _ chosen,
        refl,
        refl,
        refl,
      )
