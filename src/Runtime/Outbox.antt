-- ===== src/Runtime/Outbox.antt =====
-- runtime/src/outbox.rs on the transactions of the store. The broker is a parameter: what it
-- answers to a message. The two transactions of a poll see the clock at `now` and `later`; the
-- first is committed when the second fails.
pub mod Settling
use Prim.Native.String.{String}
use agent_loom.Base.{ℕ, Bool, Option, none, some, List, ◌==◌, ◌||◌, if◌then◌else◌}
use agent_loom.Store.Result.{StoreErrorCode, StoreResult, ok, err}
use agent_loom.Store.Rows.{OutboxRow}
use agent_loom.Store.Outbox.{
  TransactionTime, ClaimOutbox, OutboxDeliveryOutcome, RecordOutboxDelivery, OutboxMessage,
  claim_outbox, record_outbox_delivery, is_nil,
}

pub record OutboxPublishError : Type 0 where
  pub code : String
  pub safe_message : String

pub data PublishResult : Type 0 where
  sent : PublishResult
  failed : OutboxPublishError → PublishResult

pub data OutboxPollOutcome : Type 0 where
  idle : OutboxPollOutcome
  published : OutboxMessage → OutboxPollOutcome
  retry_scheduled : OutboxMessage → OutboxPublishError → OutboxPollOutcome

pub record OutboxWorker : Type 0 where
  pub tenant_id : ℕ
  pub publisher_id : ℕ
  pub lease_token : ℕ
  pub lease_duration : ℕ

-- `OutboxWorker::new`; none is InvalidConfig.
unfoldable pub new_worker : ℕ → ℕ → ℕ → ℕ → Option OutboxWorker
new_worker tenant_id publisher_id lease_token lease_duration =
    if is_nil publisher_id || (lease_duration == 0)
    then none
    else some (record {
      tenant_id = tenant_id;
      publisher_id = publisher_id;
      lease_token = lease_token;
      lease_duration = lease_duration;
    })

abbrev pub claim_command : OutboxWorker → ClaimOutbox
claim_command worker = record {
  publisher_id = worker.publisher_id;
  lease_token = worker.lease_token;
  lease_duration = worker.lease_duration;
}

abbrev pub delivery_outcome : OutboxMessage → PublishResult → OutboxDeliveryOutcome
delivery_outcome message sent = OutboxDeliveryOutcome.published
delivery_outcome message (failed error) =
    OutboxDeliveryOutcome.retry message.lease_expires_at error.code

abbrev pub delivery_command : OutboxWorker → OutboxMessage → PublishResult → RecordOutboxDelivery
delivery_command worker message publish = record {
  outbox_id = message.outbox_id;
  expected_attempt = message.attempt;
  publisher_id = worker.publisher_id;
  lease_token = worker.lease_token;
  outcome = delivery_outcome message publish;
}

abbrev pub poll_outcome : OutboxMessage → PublishResult → OutboxPollOutcome
poll_outcome message sent = published message
poll_outcome message (failed error) = retry_scheduled message error

-- The second transaction of a poll, and what the poll answers then.
abbrev pub settle_message :
    (OutboxMessage → PublishResult)
    → OutboxWorker
    → TransactionTime
    → List OutboxRow
    → OutboxMessage
    → List OutboxRow × StoreResult OutboxPollOutcome
settle_message publish worker later rows message =
    elim (record_outbox_delivery rows worker.tenant_id
      (delivery_command worker message (publish message)) later) [
        | ok after ↦ (after, ok (poll_outcome message (publish message)))
        | err code ↦ (rows, err code)
      ]

-- `OutboxWorker::poll_once`: the table afterwards, and the answer.
unfoldable pub poll_once :
    (OutboxMessage → PublishResult)
    → (OutboxRow → Bool)
    → OutboxWorker
    → List OutboxRow
    → TransactionTime
    → TransactionTime
    → List OutboxRow × StoreResult OutboxPollOutcome
poll_once publish locked worker rows now later =
    elim (claim_outbox rows locked worker.tenant_id (claim_command worker) now) [
      | err code ↦ (rows, err code)
      | ok claimed ↦ elim claimed.1 [
        | none ↦ (claimed.0, ok idle)
        | some message ↦ settle_message publish worker later claimed.0 message
      ]
    ]
