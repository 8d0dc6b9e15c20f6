-- ===== src/Lib.antt =====
-- Agent Loom: the durable store's transactions, its outbox and its schedules, modelled and proved.
--
-- The program keeps agent workflows in a database. A run has tasks; workers claim tasks under a
-- lease, renew the lease, and complete or fail the task; a scheduler reclaims the leases that have
-- expired; an operator pauses, resumes and cancels the run; a publisher sends the events on; a
-- schedule starts runs. Each command is one transaction of
-- crates/store-postgres/src/transaction_executor.rs, which locks its run, checks the fences of the
-- command, changes the tables, appends an event with its outbox message, and records its answer in
-- a receipt, so that a command that is sent again gets the same answer.
--
-- The files, and what they model:
--   Base            tests on numbers, tables as lists of rows (UPDATE, EXISTS, lookup, keys)
--   Domain/Status   crates/domain/src/status.rs
--   Domain/Plan     crates/domain/src/plan.rs
--   Domain/Json     serde_json's Value, as far as it is compared and read
--   Store/Result    crates/durable-store/src/error.rs and the checked conversions
--   Store/Rows      the tables of crates/store-postgres/migrations
--   Store/Outcome   crates/durable-store/src: outcome.rs, lease.rs, command.rs
--   Store/Database  acquire_receipt, finish_receipt, insert_event
--   Store/Fences    lock_worker_task, validate_worker_fences, claimed_task
--   Store/Candidates  lock_claim_candidate
--   Store/Claim     claim_task
--   Store/Renew     renew_task_lease
--   Store/Expiry, Store/Reclaim  reclaim_expired_lease, advance_run_event_batch
--   Store/Conditions, Store/Dependencies  resolve_dependent_tasks and its conditions
--   Store/Work, Store/External  what a failure, a pause or a cancel does to a run's open work
--   Store/Failure, Store/Fail  fail_task
--   Store/Completion  complete_task (durable-store/src/command.rs and transaction_executor.rs)
--   Store/Transition, Store/Control  execute_control, which pause_run, resume_run and cancel_run call
--   Store/Codecs    the texts of statuses, kinds and policies in their columns
--   Store/Outbox    claim_outbox, record_outbox_delivery (durable-store/src/outbox.rs)
--   Runtime/Outbox  crates/runtime/src/outbox.rs, which polls them
--   Store/Projection  project_tool_outcome, project_agent_submission, validate_agent_outcome, and
--                   their commands in durable-store/src/external_command.rs
--   Runtime/Service  the polling service of crates/runtime/src/service/mod.rs
--   Server/Schedule  dispatch_plan of crates/server/src/schedule.rs
--   Store/MergePatch  merge_json_patch
--   Store/Idempotency  the commands that are sent again
--   Store/Machine   the commands as the steps of one machine, its effects and its invariants
--   Store/Examples, Runtime/Examples  a run with one task, two messages, and what is done to them
--
-- How the model stands to the code:
--   A transaction is a function from the tables to a result: an error, or the new tables and the
--   answer. Transactions are atomic and one follows the other; the locks that SKIP LOCKED leaves
--   out are a parameter, any two predicates on rows (Locks). The database's time, clock_timestamp(),
--   is an argument; the outbox's transactions, whose queries read transaction_timestamp(), have both.
--   Ids, keys, digests and tokens are numbers, of which only equality is used, and the order where a
--   query sorts by them; a time is a number of microseconds; counters are natural numbers with the
--   bound of an i64 or a u64 where the code checks it. The `expires_at` of a receipt has no bound:
--   no modelled transaction reads it. Columns that none reads are otherwise left out: payloads,
--   metrics, actors, the attempts' own ids. A receipt's JSON is the data that was encoded.
--   `Value::pointer` and `from_slice` of serde_json are parameters, any functions; the `Map`
--   that a merge changes is one too, with the laws of its documentation. The broker that publishes
--   the messages and the calendar of the cron and jiff crates are parameters as well.
--   The loop of resolve_dependent_tasks runs on fuel, two more than the tasks still scheduled: a
--   task is pushed only as it stops being scheduled, so that is always enough. The search of
--   dependency_reaches runs on one more than the tasks of its plan: a call below another has one
--   more task visited.
--
-- Not modelled: the other transactions of the store (creation, events and waits,
-- the recording of tool and agent reports, plans, context patches, maintenance),
-- the scheduler's tick and the polled jobs; nor the network adapters, the HTTP server, the
-- pool, the migration runner and the queries, which are I/O around the commands.
pub mod Base
pub mod Domain
pub mod Store
pub mod Runtime
pub mod Server
