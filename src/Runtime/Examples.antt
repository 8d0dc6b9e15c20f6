-- ===== src/Runtime/Examples.antt =====
-- The outbox with two messages, its transactions and the publisher's poll, and a polling service.
use Prim.Native.String.{String}
use mathlib.Core.Path.{subst}
use mathlib.Core.List.{Permᴰ, Perm}
use mathlib.Core.List.Perm
use agent_loom.Base.{
  ◌<◌, ap, ◌≡◌, ◌↔◌, refl, some, none, true, false, List, [], ◌∷◌, arith, find_where, exists_where,
  keep_where, count_where, update_where, All, Bool, Bool-cases, inl, inr, ◌==◌, if◌then◌else◌,
}
use agent_loom.Store.Result.{StoreErrorCode, ok, err, checked_add, try_i64}
use agent_loom.Store.Rows.{OutboxRow, OutboxStatus}
use agent_loom.Store.Outbox.{
  TransactionTime, ClaimOutbox, RecordOutboxDelivery, OutboxDeliveryOutcome, OutboxMessage,
  claim_outbox, claim_message, first_due, record_outbox_delivery,
}
use agent_loom.Store.Fail.{is_empty_text}
use agent_loom.Store.Outbox.Moves.{Moves, delivery_of}
use agent_loom.Store.Outbox.Refines.{done, then_step, claimed, recorded, is_message}
use agent_loom.Store.Outbox.Advances.{OutboxSteps-refine}
use agent_loom.Store.Outbox.Fencing.{claim-fences_results, IsOwn, IsOutbox}
use agent_loom.Runtime.Service.{
  JobResult, PollingServiceConfig, Round, empty_report, run, record_results, delay_after,
  spawn_jobs, service_config_is_valid,
}
use agent_loom.Runtime.Service.Laws.{Reports, rounds_run, pauses, run-Reports}
use agent_loom.Runtime.Outbox.{
  OutboxPublishError, PublishResult, sent, failed, OutboxWorker, new_worker, poll_once,
  poll_outcome,
}
use agent_loom.Runtime.Outbox.Settling.{poll_once-settles, settled}

abbrev a_service : PollingServiceConfig
a_service = record { concurrency = 2; busy_delay = 10; idle_delay = 1000; error_delay = 5000 }

-- The second job of a batch ends first.
abbrev second_first : List JobResult → List JobResult
second_first [] = []
second_first (a ∷ []) = a ∷ []
second_first (a ∷ b ∷ jobs) = b ∷ a ∷ jobs

second_first-perm : (jobs : List JobResult) → Perm (second_first jobs) jobs
second_first-perm [] = Perm.refl []
second_first-perm (a ∷ []) = Perm.refl (a ∷ [])
second_first-perm (a ∷ b ∷ jobs) = ∣ Permᴰ.swap refl refl ∣₁

-- A batch with a job that broke, and one that a shutdown follows.
abbrev two_rounds : List Round
two_rounds =
    record {
      answer = λ slot. if slot == 0 then JobResult.idle else JobResult.terminated;
      join = second_first;
      stopped_after = false;
      stopped_in_delay = false;
    }
    ∷ record {
      answer = λ slot. if slot == 0 then JobResult.progress 3 1 none else JobResult.idle;
      join = second_first;
      stopped_after = true;
      stopped_in_delay = false;
    }
    ∷ []

run-delays : (run a_service empty_report two_rounds).1 ≡ 5000 ∷ []
unfolding run record_results delay_after spawn_jobs
run-delays = refl

run-Reports_example :
    Reports a_service empty_report (rounds_run two_rounds) (run a_service empty_report two_rounds).0
    × ((run a_service empty_report two_rounds).1 ≡ pauses a_service two_rounds)
    × All (λ pause. 0 < pause) (run a_service empty_report two_rounds).1
unfolding service_config_is_valid
run-Reports_example =
    run-Reports a_service 256 refl two_rounds (second_first-perm, (second_first-perm, tt))

abbrev first_message : OutboxRow
first_message = record {
  tenant_id = 1;
  outbox_id = 70;
  event_id = 40;
  run_id = 10;
  status = OutboxStatus.pending;
  available_at = 100;
  attempt = 0;
  lease_owner = none;
  lease_token = none;
  lease_expires_at = none;
  published_at = none;
  last_error_code = none;
  created_at = 90;
}

-- One whose publisher has let its lease end.
abbrev second_message : OutboxRow
second_message = record first_message {
  outbox_id = 71;
  status = OutboxStatus.publishing;
  available_at = 95;
  attempt = 3;
  lease_owner = some 8;
  lease_token = some 9;
  lease_expires_at = some 150;
}

abbrev two_messages : List OutboxRow
two_messages = first_message ∷ second_message ∷ []

-- The transactions of a claim and of a result, with what the clock reads after each has begun.
abbrev claim_time : TransactionTime
claim_time = record { started = 199; db_now = 200 }

abbrev result_time : TransactionTime
result_time = record { started = 209; db_now = 210 }

abbrev a_claim : ClaimOutbox
a_claim = record { publisher_id = 5; lease_token = 6; lease_duration = 50 }

abbrev claimed_row : OutboxRow
claimed_row = record second_message {
  attempt = 4;
  lease_owner = some 5;
  lease_token = some 6;
  lease_expires_at = some 250;
}

abbrev a_message : OutboxMessage
a_message = record {
  tenant_id = 1;
  outbox_id = 71;
  event_id = 40;
  run_id = 10;
  attempt = 4;
  lease_expires_at = 250;
  created_at = 90;
}

abbrev all_free : OutboxRow → Bool
all_free o = false

claim-ok :
    claim_outbox two_messages all_free 1 a_claim claim_time
    ≡ ok (first_message ∷ claimed_row ∷ [], some a_message)
unfolding claim_outbox claim_message first_due keep_where count_where update_where checked_add
    try_i64
claim-ok = refl

abbrev a_result : RecordOutboxDelivery
a_result = record {
  outbox_id = 71;
  expected_attempt = 4;
  publisher_id = 5;
  lease_token = 6;
  outcome = OutboxDeliveryOutcome.published;
}

abbrev published_row : OutboxRow
published_row = record claimed_row {
  status = OutboxStatus.published;
  lease_owner = none;
  lease_token = none;
  lease_expires_at = none;
  published_at = some 210;
}

record-ok :
    record_outbox_delivery (first_message ∷ claimed_row ∷ []) 1 a_result result_time
    ≡ ok (first_message ∷ published_row ∷ [])
unfolding record_outbox_delivery count_where update_where
record-ok = refl

two_messages-IsOutbox : IsOutbox two_messages
two_messages-IsOutbox = ((refl, tt), (tt, tt))

OutboxSteps-refine_example :
    (later : OutboxRow) × (find_where (is_message 1 71) (first_message ∷ published_row ∷ [])
      ≡ some later)
    × Moves (delivery_of second_message) (delivery_of later)
unfolding find_where
OutboxSteps-refine_example = OutboxSteps-refine 1 71 {rows = two_messages} refl (
    then_step (then_step done (claimed all_free 1 a_claim claim_time claim-ok))
      (recorded 1 a_result result_time record-ok))

claim-fences_results_example :
    (((final : List OutboxRow) × (record_outbox_delivery
            (first_message ∷ claimed_row ∷ [])
            1
            a_result
            result_time
          ≡ ok final))
      ↔ IsOwn a_claim a_message a_result result_time)
    × ((record_outbox_delivery (first_message ∷ claimed_row ∷ []) 1 a_result result_time
          ≡ err StoreErrorCode.lease_lost)
        ↔ ¬ IsOwn a_claim a_message a_result result_time)
claim-fences_results_example =
    claim-fences_results two_messages all_free 1 a_claim claim_time a_result result_time
      two_messages-IsOutbox claim-ok refl refl

abbrev a_worker : OutboxWorker
a_worker = record { tenant_id = 1; publisher_id = 5; lease_token = 6; lease_duration = 50 }

-- A broker that is down for one message.
abbrev broker : OutboxMessage → PublishResult
broker message =
    if message.outbox_id == 71
    then failed (record { code = "BROKER_UNAVAILABLE"; safe_message = "broker unavailable" })
    else sent

abbrev code_of : PublishResult → String
code_of sent = ""
code_of (failed error) = error.code

broker-codes :
    (message : OutboxMessage) (error : OutboxPublishError)
    → broker message ≡ failed error
    → is_empty_text error.code ≡ false
broker-codes message error h = elim (Bool-cases (message.outbox_id == 71)) [
  | inl e ↦ subst (λ code. is_empty_text code ≡ false) (ap code_of (rw e at h)) refl
  | inr e ↦ absurd (let bad = rw e at h in cc)
]

poll_once-settles_example :
    (message : OutboxMessage) × (after : List OutboxRow) × (final : OutboxRow) × (poll_once broker
        all_free a_worker two_messages claim_time result_time
      ≡ (after, ok (poll_outcome message (broker message))))
    × (find_where (is_message 1 message.outbox_id) after ≡ some final)
    × (delivery_of final ≡ settled (broker message) message.attempt)
unfolding exists_where new_worker
poll_once-settles_example =
    poll_once-settles broker all_free two_messages claim_time result_time 1 5 6 50
      {worker = a_worker} refl two_messages-IsOutbox (omega arith) (omega arith, (omega arith, tt))
      refl broker-codes (omega arith)
