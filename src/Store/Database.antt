-- ===== src/Store/Database.antt =====
-- The tables, the receipt that makes a command idempotent, and the append of an event with its
-- outbox message (store-postgres/src/transaction_executor.rs). A transaction is a function from
-- the tables to the new tables and its result; after an error nothing is committed.
pub mod Receipts
use Prim.Native.String.{String}
use agent_loom.Base.{
  ℕ, ◌+◌, Bool, true, false, ◌&&◌, ◌||◌, not, Option, none, some, List, [], ◌∷◌, ◌++◌, ◌==◌,
  if◌then◌else◌, update_where, count_where, find_where, exists_where,
}
use agent_loom.Store.Result.{StoreErrorCode, StoreResult, ok, err, reject_if, to_i64, ◌>>=◌, ◌>>◌}
use agent_loom.Store.Rows.{
  RunRow, TaskRow, AttemptRow, StageRow, WaitRow, AgentRow, ToolRow, EventRow, OutboxRow,
  OutboxStatus, DependencyRow, CheckpointRow, ArtifactRow,
}
use agent_loom.Store.Outcome.{ReceiptRow, ReceiptOutcome, OutcomeKind, CommandContext}

pub record Database : Type 0 where
  pub runs : List RunRow
  pub tasks : List TaskRow
  pub attempts : List AttemptRow
  pub stages : List StageRow
  pub waits : List WaitRow
  pub agents : List AgentRow
  pub tools : List ToolRow
  pub dependencies : List DependencyRow
  pub checkpoints : List CheckpointRow
  pub artifacts : List ArtifactRow
  pub events : List EventRow
  pub outbox : List OutboxRow
  pub receipts : List ReceiptRow

-- (tenant_id, scope, idempotency_key), the unique key of a receipt.
abbrev pub is_receipt_of : CommandContext → ReceiptRow → Bool
is_receipt_of c r =
    r.tenant_id == c.tenant_id && (r.scope == c.scope && r.idempotency_key == c.idempotency_key)

abbrev pub is_unknown : OutcomeKind → Bool
is_unknown OutcomeKind.outcome_unknown = true
is_unknown _ = false

pub record ExistingReceipt : Type 0 where
  pub outcome : Option ReceiptOutcome
  pub event_id : Option ℕ

pub data ReceiptGuard : Type 0 where
  acquired : Database → ReceiptGuard
  existing : ExistingReceipt → ReceiptGuard

unfoldable pub new_receipt : CommandContext → ℕ → ℕ → ReceiptRow
new_receipt c now ttl = record {
  receipt_id = c.command_id;
  tenant_id = c.tenant_id;
  scope = c.scope;
  idempotency_key = c.idempotency_key;
  request_hash = c.request_hash;
  outcome_kind = OutcomeKind.outcome_unknown;
  outcome = none;
  event_id = none;
  resource = none;
  created_at = now;
  expires_at = now + ttl;
}

-- The stored receipt of a repeated key.
unfoldable pub read_receipt : CommandContext → ReceiptRow → StoreResult ReceiptGuard
read_receipt c r = do
  reject_if (not (r.request_hash == c.request_hash)) StoreErrorCode.idempotency_key_reused
  reject_if (is_unknown r.outcome_kind) StoreErrorCode.outcome_unknown
  ok (existing (record { outcome = r.outcome; event_id = r.event_id }))

-- `acquire_receipt`. The insert also wants a fresh primary key, `receipt_id`. That `expires_at` fits a
-- bigint is left out: no modelled transaction reads it.
unfoldable pub acquire_receipt : Database → CommandContext → ℕ → ℕ → StoreResult ReceiptGuard
unfolding new_receipt read_receipt
acquire_receipt db c now ttl_micros = do
  ttl ← to_i64 ttl_micros
  elim (find_where (is_receipt_of c) db.receipts) [
    | some r ↦ read_receipt c r
    | none ↦
        if exists_where (λ r. r.receipt_id == c.command_id) db.receipts
        then err StoreErrorCode.constraint_violation
        else ok (acquired (record db { receipts = db.receipts ++ new_receipt c now ttl ∷ [] }))
  ]

unfoldable pub is_open_receipt_of : CommandContext → ReceiptRow → Bool
is_open_receipt_of c r = is_receipt_of c r && is_unknown r.outcome_kind

-- `finish_receipt`.
unfoldable pub finish_receipt :
    Database
    → CommandContext
    → OutcomeKind
    → ReceiptOutcome
    → Option ℕ
    → Option (String × ℕ × ℕ)
    → StoreResult Database
unfolding is_open_receipt_of
finish_receipt db c kind outcome event_id resource = do
  reject_if (not (count_where (is_open_receipt_of c) db.receipts == 1))
      StoreErrorCode.inconsistent_projection
  ok (record db {
    receipts =
        update_where (is_open_receipt_of c)
          (λ r. record r {
            outcome_kind = kind;
            outcome = some outcome;
            event_id = event_id;
            resource = resource;
          })
          db.receipts;
  })

abbrev pub new_outbox_row : EventRow → OutboxRow
new_outbox_row e = record {
  outbox_id = e.event_id;
  tenant_id = e.tenant_id;
  event_id = e.event_id;
  run_id = e.run_id;
  status = OutboxStatus.pending;
  attempt = 0;
  available_at = e.recorded_at;
  lease_owner = none;
  lease_token = none;
  lease_expires_at = none;
  last_error_code = none;
  created_at = e.recorded_at;
  published_at = none;
}

-- `insert_event`: the constraints are the primary key and (tenant_id, run_id, sequence). The
-- message of the outbox has the event's id for its own.
unfoldable pub insert_event : Database → EventRow → StoreResult Database
insert_event db e = do
  reject_if
      (exists_where
        (λ (o : EventRow).
          o.event_id == e.event_id
          || (o.tenant_id == e.tenant_id && (o.run_id == e.run_id && o.sequence == e.sequence)))
        db.events)
      StoreErrorCode.constraint_violation
  reject_if (exists_where (λ (o : OutboxRow). o.outbox_id == e.event_id) db.outbox)
      StoreErrorCode.constraint_violation
  ok (record db { events = db.events ++ e ∷ []; outbox = db.outbox ++ new_outbox_row e ∷ [] })

-- The event of a command, as `EventInsert` takes it from the context.
abbrev pub event_row : CommandContext → ℕ → ℕ → ℕ → String → String → ℕ → EventRow
event_row c id run_id sequence event_type producer now = record {
  event_id = id;
  tenant_id = c.tenant_id;
  run_id = run_id;
  sequence = sequence;
  event_type = event_type;
  producer = producer;
  correlation_id = c.correlation_id;
  idempotency_key = c.idempotency_key;
  recorded_at = now;
}

-- WHERE tenant_id = … AND run_id = …, on each table.
abbrev pub is_run : ℕ → ℕ → RunRow → Bool
is_run tenant run r = r.tenant_id == tenant && r.run_id == run

abbrev pub is_task_of : ℕ → ℕ → TaskRow → Bool
is_task_of tenant run t = t.tenant_id == tenant && t.run_id == run

abbrev pub is_task : ℕ → ℕ → TaskRow → Bool
is_task tenant task t = t.tenant_id == tenant && t.task_id == task
