-- ===== src/Runtime/Outbox/Settling.antt =====
-- That a poll in time settles the message it claims.
use agent_loom.Base.{
  ℕ, ◌+◌, ◌<◌, ◌≡◌, refl, sym, ap, ◌∙◌, Bool, true, false, some, List, arith, find_where,
  exists_where, All,
}
use agent_loom.Store.Result.{ok, i64_bound}
use agent_loom.Store.Rows.{OutboxRow}
use agent_loom.Store.Fail.{is_empty_text}
use agent_loom.Store.Outbox.{
  TransactionTime, OutboxMessage, is_due, delivered_row, delivery_shape_is_valid,
  claim_shape_is_valid,
}
use agent_loom.Store.Outbox.Moves.{Delivery, waiting, delivered, delivery_of}
use agent_loom.Store.Outbox.Refines.{is_message, claim_outbox-IsClaim}
use agent_loom.Store.Outbox.Fencing.{IsOutbox, own-IsSettled}
use agent_loom.Store.Outbox.Progress.{claim-serves_first}
use agent_loom.Runtime.Outbox.{
  OutboxPublishError, PublishResult, sent, failed, OutboxWorker, new_worker, poll_once,
  poll_outcome, settle_message, claim_command, delivery_command, delivery_outcome,
}

new_worker-is_valid :
    (tenant_id publisher_id lease_token lease_duration : ℕ) {worker : OutboxWorker}
    → new_worker tenant_id publisher_id lease_token lease_duration ≡ some worker
    → claim_shape_is_valid (claim_command worker) ≡ true
unfolding new_worker
new_worker-is_valid tenant_id publisher_id lease_token lease_duration h = ground arith

-- Where the broker's answer takes the delivery.
abbrev pub settled : PublishResult → ℕ → Delivery
settled sent attempt = delivered attempt
settled (failed error) attempt = waiting attempt

settled-delivery :
    (answer : PublishResult) (message : OutboxMessage) (later : ℕ) (row : OutboxRow)
    → delivery_of (delivered_row (delivery_outcome message answer) later row)
      ≡ settled answer row.attempt
settled-delivery sent message later row = refl
settled-delivery (failed error) message later row = refl

delivery_command-is_valid :
    (worker : OutboxWorker) (message : OutboxMessage) (answer : PublishResult)
    → claim_shape_is_valid (claim_command worker) ≡ true
    → 0 < message.attempt
    → ((error : OutboxPublishError) → answer ≡ failed error → is_empty_text error.code ≡ false)
    → delivery_shape_is_valid (delivery_command worker message answer) ≡ true
delivery_command-is_valid worker message sent shaped positive coded = ground arith
delivery_command-is_valid worker message (failed error) shaped positive coded =
    let code = coded error refl in ground arith

module _ (publish : OutboxMessage → PublishResult) (locked : OutboxRow → Bool)
    (rows : List OutboxRow) (now later : TransactionTime)
    (tenant_id publisher_id lease_token lease_duration : ℕ) {worker : OutboxWorker} where
  -- A poll of a worker that was constructed, on an outbox with its primary key where a message is due
  -- and not locked elsewhere, within the ranges of i64 and u32, with a broker whose errors have a code,
  -- and whose second transaction begins before the lease ends, answers with what the broker answered
  -- to some message: that message is delivered if it was sent, and waits again if it was not.
  pub poll_once-settles :
      new_worker tenant_id publisher_id lease_token lease_duration ≡ some worker
      → IsOutbox rows
      → now.db_now + worker.lease_duration < i64_bound
      → All (λ o. o.attempt + 1 < 4294967296) rows
      → exists_where (is_due worker.tenant_id now.started locked) rows ≡ true
      → ((message : OutboxMessage) (error : OutboxPublishError)
          → publish message ≡ failed error
          → is_empty_text error.code ≡ false)
      → later.started < now.db_now + worker.lease_duration
      → (message : OutboxMessage) × (after : List OutboxRow) × (final : OutboxRow) × (poll_once
            publish locked worker rows now later
          ≡ (after, ok (poll_outcome message (publish message))))
        × (find_where (is_message worker.tenant_id message.outbox_id) after ≡ some final)
        × (delivery_of final ≡ settled (publish message) message.attempt)
  unfolding poll_once
  poll_once-settles made keyed fits small exists coded soon =
      let shaped = new_worker-is_valid tenant_id publisher_id lease_token lease_duration made in
      let (after, message, row, claimed, due, least, id, number, expiry) =
        claim-serves_first rows locked worker.tenant_id (claim_command worker) now keyed shaped fits
          small exists in
      let granted =
        claim_outbox-IsClaim rows locked worker.tenant_id (claim_command worker) now claimed in
      let (final, kept, found) =
        own-IsSettled rows locked worker.tenant_id (claim_command worker) now
          (delivery_command worker message (publish message)) later keyed granted refl
          (delivery_command-is_valid worker message (publish message) shaped
            (let n = granted.attempt in omega (arith, n)) (coded message))
          (refl, refl, refl, (let e = expiry in omega (arith, e, soon))) in
      (
        message,
        final,
        _,
        rw (poll_once, claimed, settle_message, kept) refl,
        found,
        settled-delivery (publish message) message later.db_now _
            ∙ ap (settled (publish message)) (sym granted.attempt),
      )
