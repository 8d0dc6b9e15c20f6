-- ===== src/Store/Outbox.antt =====
-- durable-store/src/outbox.rs, and `claim_outbox` and `record_outbox_delivery` of
-- transaction_executor.rs. Each is a function on the table `outbox_messages`, the only one that it
-- reads or writes; the messages that SKIP LOCKED leaves out are a parameter. Topic, partition and
-- payload are those that `insert_event` wrote: no transaction changes them. What the queries compare
-- with transaction_timestamp() is compared with the transaction's start.
pub mod Moves
pub mod Refines
pub mod Advances
pub mod Fencing
pub mod Progress
use Prim.Native.String.{String}
use agent_loom.Base.{
  ℕ, ◌+◌, Bool, true, false, ◌&&◌, ◌||◌, not, Option, none, some, List, [], ◌∷◌, ◌==◌, ltb, leb,
  if◌then◌else◌, is_some_and, is_value, update_where, count_where, keep_where,
}
use agent_loom.Store.Result.{
  StoreErrorCode, StoreResult, ok, err, ◌>>=◌, ◌>>◌, reject_if, ok_or, try_i64, checked_add,
}
use agent_loom.Store.Rows.{OutboxRow, OutboxStatus}
use agent_loom.Store.Fail.{is_empty_text}

pub record ClaimOutbox : Type 0 where
  pub publisher_id : ℕ
  pub lease_token : ℕ
  pub lease_duration : ℕ

pub data OutboxDeliveryOutcome : Type 0 where
  published : OutboxDeliveryOutcome
  retry : ℕ → String → OutboxDeliveryOutcome

pub record RecordOutboxDelivery : Type 0 where
  pub outbox_id : ℕ
  pub expected_attempt : ℕ
  pub publisher_id : ℕ
  pub lease_token : ℕ
  pub outcome : OutboxDeliveryOutcome

pub record OutboxMessage : Type 0 where
  pub tenant_id : ℕ
  pub outbox_id : ℕ
  pub event_id : ℕ
  pub run_id : ℕ
  pub attempt : ℕ
  pub lease_expires_at : ℕ
  pub created_at : ℕ

-- The times of a transaction: transaction_timestamp(), which the queries read, and
-- clock_timestamp(), which `database_now` reads.
pub record TransactionTime : Type 0 where
  pub started : ℕ
  pub db_now : ℕ

-- The nil id is 0.
abbrev pub is_nil : ℕ → Bool
is_nil id = id == 0

-- `ClaimOutbox::shape_is_valid`.
abbrev pub claim_shape_is_valid : ClaimOutbox → Bool
claim_shape_is_valid command = not (is_nil command.publisher_id) && ltb 0 command.lease_duration

abbrev outcome_is_valid : OutboxDeliveryOutcome → Bool
outcome_is_valid OutboxDeliveryOutcome.published = true
outcome_is_valid (OutboxDeliveryOutcome.retry available_at error_code) =
    not (is_empty_text error_code)

-- `RecordOutboxDelivery::shape_is_valid`.
abbrev pub delivery_shape_is_valid : RecordOutboxDelivery → Bool
delivery_shape_is_valid command =
    ltb 0 command.expected_attempt
    && (not (is_nil command.publisher_id) && outcome_is_valid command.outcome)

-- WHERE of the candidate, by its status.
abbrev pub is_ripe : ℕ → OutboxRow → Bool
is_ripe now o = elim o.status [
  | OutboxStatus.pending ↦ leb o.available_at now
  | OutboxStatus.publishing ↦ is_some_and o.lease_expires_at (λ expires. leb expires now)
  | OutboxStatus.published ↦ false
]

abbrev pub is_due : ℕ → ℕ → (OutboxRow → Bool) → OutboxRow → Bool
is_due tenant_id now locked o = o.tenant_id == tenant_id && (is_ripe now o && not (locked o))

-- ORDER BY available_at, outbox_id.
abbrev pub comes_first : OutboxRow → OutboxRow → Bool
comes_first a b =
    ltb a.available_at b.available_at
    || (a.available_at == b.available_at && leb a.outbox_id b.outbox_id)

-- LIMIT 1.
unfoldable pub first_due : List OutboxRow → Option OutboxRow
first_due [] = none
first_due (o ∷ os) = elim (first_due os) [
  | none ↦ some o
  | some first ↦ if comes_first o first then some o else some first
]

-- SET of the claim's UPDATE.
abbrev pub publishing_row : ClaimOutbox → ℕ → ℕ → OutboxRow → OutboxRow
publishing_row command attempt expires o = record o {
  status = OutboxStatus.publishing;
  attempt = attempt;
  lease_owner = some command.publisher_id;
  lease_token = some command.lease_token;
  lease_expires_at = some expires;
  last_error_code = none;
}

-- WHERE of the claim's UPDATE.
abbrev pub is_claimed : ℕ → OutboxRow → OutboxRow → Bool
is_claimed tenant_id row o =
    o.tenant_id == tenant_id && (o.outbox_id == row.outbox_id && o.attempt == row.attempt)

-- What `claim_outbox` does with its candidate.
unfoldable pub claim_message :
    List OutboxRow → ℕ → ClaimOutbox → ℕ → OutboxRow → StoreResult (List OutboxRow × OutboxMessage)
unfolding checked_add
claim_message rows tenant_id command expires row = do
  attempt ← ok_or (checked_add row.attempt 1) StoreErrorCode.inconsistent_projection
  reject_if (not (count_where (is_claimed tenant_id row) rows == 1)) StoreErrorCode.version_conflict
  reject_if (leb 4294967296 attempt) StoreErrorCode.inconsistent_projection
  ok (
    update_where (is_claimed tenant_id row) (publishing_row command attempt expires) rows,
    record {
      tenant_id = tenant_id;
      outbox_id = row.outbox_id;
      event_id = row.event_id;
      run_id = row.run_id;
      attempt = attempt;
      lease_expires_at = expires;
      created_at = row.created_at;
    },
  )

-- `claim_outbox`.
unfoldable pub claim_outbox :
    List OutboxRow
    → (OutboxRow → Bool)
    → ℕ
    → ClaimOutbox
    → TransactionTime
    → StoreResult (List OutboxRow × Option OutboxMessage)
unfolding first_due claim_message try_i64 checked_add
claim_outbox rows locked tenant_id command time = do
  reject_if (not (claim_shape_is_valid command)) StoreErrorCode.constraint_violation
  lease_duration ← ok_or (try_i64 command.lease_duration) StoreErrorCode.constraint_violation
  expires ← ok_or (checked_add time.db_now lease_duration) StoreErrorCode.constraint_violation
  elim (first_due (keep_where (is_due tenant_id time.started locked) rows)) [
    | none ↦ ok (rows, none)
    | some row ↦
        claim_message rows tenant_id command expires row
        >>= (λ claimed. ok (claimed.0, some claimed.1))
  ]

-- SET of the delivery's UPDATE.
abbrev pub delivered_row : OutboxDeliveryOutcome → ℕ → OutboxRow → OutboxRow
delivered_row OutboxDeliveryOutcome.published now o = record o {
  status = OutboxStatus.published;
  lease_owner = none;
  lease_token = none;
  lease_expires_at = none;
  last_error_code = none;
  published_at = some now;
}
delivered_row (OutboxDeliveryOutcome.retry available_at error_code) now o = record o {
  status = OutboxStatus.pending;
  available_at = available_at;
  lease_owner = none;
  lease_token = none;
  lease_expires_at = none;
  last_error_code = some error_code;
  published_at = none;
}

abbrev pub is_publishing : OutboxStatus → Bool
is_publishing OutboxStatus.publishing = true
is_publishing _ = false

-- WHERE of the delivery's UPDATE.
abbrev pub is_delivered : ℕ → RecordOutboxDelivery → ℕ → OutboxRow → Bool
is_delivered tenant_id command now o =
    o.tenant_id == tenant_id
    && (o.outbox_id == command.outbox_id
        && (is_publishing o.status
            && (o.attempt == command.expected_attempt
                && (is_value o.lease_owner command.publisher_id
                    && (is_value o.lease_token command.lease_token
                        && is_some_and o.lease_expires_at (λ expires. ltb now expires))))))

-- `record_outbox_delivery`.
unfoldable pub record_outbox_delivery :
    List OutboxRow → ℕ → RecordOutboxDelivery → TransactionTime → StoreResult (List OutboxRow)
record_outbox_delivery rows tenant_id command time = do
  reject_if (not (delivery_shape_is_valid command)) StoreErrorCode.constraint_violation
  reject_if (not (count_where (is_delivered tenant_id command time.started) rows == 1))
      StoreErrorCode.lease_lost
  ok (
      update_where (is_delivered tenant_id command time.started)
        (delivered_row command.outcome time.db_now) rows)
