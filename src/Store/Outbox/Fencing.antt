-- ===== src/Store/Outbox/Fencing.antt =====
-- Which results of a publication the outbox takes after a claim.
use mathlib.Core.Path.{subst}
use agent_loom.Base.{
  ℕ, ◌+◌, ◌<◌, ◌≡◌, refl, sym, ◌∙◌, ◌↔◌, inl, inr, Bool, true, ◌&&◌, ◌⊎◌, ltb, not-true, ◌==◌, some,
  List, arith, if◌then◌else◌, find_where, update_where, count_where, find_where-key,
  find_where_sound, find_where-update_where, update_where-IsKeyed, count_where-keyed, IsKeyed-found,
  IsKeyed, has_key_of, Bool-cases,
}
use agent_loom.Store.Result.{StoreErrorCode, ok, err}
use agent_loom.Store.Rows.{OutboxRow}
use agent_loom.Store.Outbox.{
  TransactionTime, ClaimOutbox, RecordOutboxDelivery, OutboxMessage, is_due, publishing_row,
  is_claimed, claim_outbox, delivered_row, is_delivered, record_outbox_delivery,
  delivery_shape_is_valid,
}
use agent_loom.Store.Outbox.Refines.{
  IsClaim, claim_outbox-IsClaim, first_due-All, keep_where-both, is_message,
}
use agent_loom.Store.Outbox.Advances.{delivered_row-key}

-- The primary key of `outbox_messages`.
abbrev pub IsOutbox : List OutboxRow → Type 0
IsOutbox rows = IsKeyed (λ o. o.tenant_id) (λ o. o.outbox_id) rows

-- The result of the claim's own publisher, in time.
abbrev pub IsOwn : ClaimOutbox → OutboxMessage → RecordOutboxDelivery → TransactionTime → Type 0
IsOwn claim message command later =
    (command.expected_attempt ≡ message.attempt)
    × (command.publisher_id ≡ claim.publisher_id)
    × (command.lease_token ≡ claim.lease_token)
    × (later.started < message.lease_expires_at)

module _ (rows : List OutboxRow) (tenant_id : ℕ) (claim : ClaimOutbox) (keyed : IsOutbox rows) where
  -- The row that a claim took is found under the claimed message's key.
  pub IsClaim-found :
      (locked : OutboxRow → Bool) (time : TransactionTime) {after : List OutboxRow}
      {message : OutboxMessage} (granted : IsClaim rows locked tenant_id claim time after message)
      → find_where (is_message tenant_id message.outbox_id) after
        ≡ some (publishing_row claim (granted.row.attempt + 1) message.lease_expires_at granted.row)
  IsClaim-found locked time {after} {message} granted =
      let row = granted.row in
      let found =
        first_due-All
          (λ o.
            (find_where (has_key_of (λ o. o.tenant_id) (λ o. o.outbox_id) o) rows ≡ some o)
            × (is_due tenant_id time.started locked o ≡ true))
          _
          (keep_where-both _ (is_due tenant_id time.started locked) rows
            (IsKeyed-found (λ o. o.tenant_id) (λ o. o.outbox_id) rows keyed))
          granted.chosen in
      let hit : is_message tenant_id message.outbox_id row ≡ true =
        ground (arith, found.1, granted.id) in
      let there : find_where (is_message tenant_id message.outbox_id) rows ≡ some row =
        find_where-key (λ o. o.tenant_id) (λ o. o.outbox_id) _ _ rows keyed found.0 hit
          (λ o own. ground (arith, own, hit)) in
      subst
        (λ t.
          find_where (is_message tenant_id message.outbox_id) t
          ≡ some (publishing_row claim (row.attempt + 1) message.lease_expires_at row))
        (sym granted.rows_after)
        (find_where-update_where (is_claimed tenant_id row) _ _ rows (λ o. refl) there
          (ground (arith, hit, found.1)))

  pub IsClaim-IsOutbox :
      (locked : OutboxRow → Bool) (time : TransactionTime) {after : List OutboxRow}
      {message : OutboxMessage}
      → IsClaim rows locked tenant_id claim time after message
      → IsOutbox after
  IsClaim-IsOutbox locked time {after} {message} granted = subst IsOutbox (sym granted.rows_after) (
      update_where-IsKeyed (λ o. o.tenant_id) (λ o. o.outbox_id) _ _ rows (λ o. refl) (λ o. refl)
        keyed)

IsOwn-cases :
    (claim : ClaimOutbox) (message : OutboxMessage) (command : RecordOutboxDelivery)
    (later : TransactionTime)
    → IsOwn claim message command later ⊎ ¬ IsOwn claim message command later
IsOwn-cases claim message command later =
    elim (Bool-cases (
      command.expected_attempt == message.attempt
      && (command.publisher_id == claim.publisher_id
          && (command.lease_token == claim.lease_token
              && ltb later.started message.lease_expires_at)))) [
                | inl e ↦ inl (ground arith, ground arith, ground arith, ground arith)
                | inr e ↦ inr (λ (attempt, publisher, token, time). ground arith)
              ]

-- The row that a claim wrote fits the result's UPDATE if that is the claim's own, in time.
taken-IsOwn :
    (tenant_id : ℕ) (claim : ClaimOutbox) (command : RecordOutboxDelivery) (later : TransactionTime)
    (message : OutboxMessage) (row : OutboxRow)
    → message.attempt ≡ row.attempt + 1
    → is_message tenant_id command.outbox_id row ≡ true
    → (is_delivered tenant_id command later.started
          (publishing_row claim (row.attempt + 1) message.lease_expires_at row)
        ≡ true)
      ↔ IsOwn claim message command later
taken-IsOwn tenant_id claim command later message row number own = (
  λ e. (ground arith, ground arith, ground arith, ground arith),
  λ (attempt, publisher, token, time). ground arith,
)

module _ (rows : List OutboxRow) (tenant_id : ℕ) (command : RecordOutboxDelivery)
    (time : TransactionTime) (shaped : delivery_shape_is_valid command ≡ true) where
  record-hit :
      count_where (is_delivered tenant_id command time.started) rows ≡ 1
      → record_outbox_delivery rows tenant_id command time
        ≡ ok (
            update_where
              (is_delivered tenant_id command time.started)
              (delivered_row command.outcome time.db_now)
              rows)
  unfolding record_outbox_delivery
  record-hit one = rw (shaped, one) refl

  record-miss :
      count_where (is_delivered tenant_id command time.started) rows ≡ 0
      → record_outbox_delivery rows tenant_id command time ≡ err StoreErrorCode.lease_lost
  unfolding record_outbox_delivery
  record-miss nothing = rw (shaped, nothing) refl

-- The table after the claim's own result.
abbrev pub IsSettled :
    ℕ
    → ClaimOutbox
    → OutboxMessage
    → RecordOutboxDelivery
    → TransactionTime
    → List OutboxRow
    → OutboxRow
    → Type 0
IsSettled tenant_id claim message command later after row =
    (final : List OutboxRow) × (record_outbox_delivery after tenant_id command later ≡ ok final)
    × (find_where (is_message tenant_id message.outbox_id) final
        ≡ some (
            delivered_row command.outcome later.db_now
              (publishing_row claim (row.attempt + 1) message.lease_expires_at row)))

module _ (rows : List OutboxRow) (locked : OutboxRow → Bool) (tenant_id : ℕ) (claim : ClaimOutbox)
    (time : TransactionTime) {after : List OutboxRow} {message : OutboxMessage}
    (command : RecordOutboxDelivery) (later : TransactionTime) (keyed : IsOutbox rows)
    (granted : IsClaim rows locked tenant_id claim time after message)
    (same : command.outbox_id ≡ message.outbox_id)
    (shaped : delivery_shape_is_valid command ≡ true) where
  abbrev taken : OutboxRow
  taken = publishing_row claim (granted.row.attempt + 1) message.lease_expires_at granted.row

  taken-found : find_where (is_message tenant_id message.outbox_id) after ≡ some taken
  taken-found = IsClaim-found rows tenant_id claim keyed locked time granted

  taken-is_message : is_message tenant_id command.outbox_id granted.row ≡ true
  taken-is_message =
      let own = find_where_sound (is_message tenant_id message.outbox_id) after taken-found in
      ground (arith, own, same)

  taken_row-IsOwn :
      (is_delivered tenant_id command later.started taken ≡ true)
      ↔ IsOwn claim message command later
  taken_row-IsOwn =
      taken-IsOwn tenant_id claim command later message granted.row granted.attempt taken-is_message

  taken-count :
      count_where (is_delivered tenant_id command later.started) after
      ≡ (if is_delivered tenant_id command later.started taken then 1 else 0)
  taken-count =
      count_where-keyed (λ o. o.tenant_id) (λ o. o.outbox_id)
        (is_delivered tenant_id command later.started) (is_message tenant_id message.outbox_id)
        after (IsClaim-IsOutbox rows tenant_id claim keyed locked time granted) taken-found
        (λ o hit. let own = taken-is_message in ground (arith, hit, own))

  pub own-IsSettled :
      IsOwn claim message command later
      → IsSettled tenant_id claim message command later after granted.row
  own-IsSettled mine =
      let hit = taken_row-IsOwn.1 mine in
      (
        _,
        record-hit after tenant_id command later shaped (taken-count ∙ rw hit refl),
        find_where-update_where (is_delivered tenant_id command later.started) _ _ after
            (delivered_row-key tenant_id message.outbox_id command.outcome later.db_now) taken-found
            hit,
      )

  pub other-lost :
      ¬ IsOwn claim message command later
      → record_outbox_delivery after tenant_id command later ≡ err StoreErrorCode.lease_lost
  other-lost other =
      let missed = not-true (λ hit. other (taken_row-IsOwn.0 hit)) in
      record-miss after tenant_id command later shaped (taken-count ∙ rw missed refl)

module _ (rows : List OutboxRow) (locked : OutboxRow → Bool) (tenant_id : ℕ) (claim : ClaimOutbox)
    (time : TransactionTime) {after : List OutboxRow} {message : OutboxMessage}
    (command : RecordOutboxDelivery) (later : TransactionTime) where
  -- On an outbox with its primary key, after a claim has handed a message out, a well-formed result
  -- for that message is recorded exactly if it shows the claim's attempt, publisher and token and its
  -- transaction starts before the lease expires; otherwise it is answered with LeaseLost.
  pub claim-fences_results :
      IsOutbox rows
      → claim_outbox rows locked tenant_id claim time ≡ ok (after, some message)
      → command.outbox_id ≡ message.outbox_id
      → delivery_shape_is_valid command ≡ true
      → (((final : List OutboxRow) × (record_outbox_delivery after tenant_id command later
              ≡ ok final))
          ↔ IsOwn claim message command later)
        × ((record_outbox_delivery after tenant_id command later ≡ err StoreErrorCode.lease_lost)
            ↔ ¬ IsOwn claim message command later)
  claim-fences_results keyed claimed same shaped =
      let granted = claim_outbox-IsClaim rows locked tenant_id claim time claimed in
      let settle =
        own-IsSettled rows locked tenant_id claim time command later keyed granted same shaped in
      let lose =
        other-lost rows locked tenant_id claim time command later keyed granted same shaped in
      elim (IsOwn-cases claim message command later) [
        | inl mine ↦
            let (final, kept, found) = settle mine in
            (
              (λ _. mine, λ _. (final, kept)),
              (λ bad. absurd (let equal = sym kept ∙ bad in cc), λ other. absurd (other mine)),
            )
        | inr other ↦ (
          (
            λ good. absurd (let equal = sym (lose other) ∙ good.1 in cc),
            λ mine. absurd (other mine),
          ),
          (λ _. other, λ _. lose other),
        )
      ]
