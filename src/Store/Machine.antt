-- ===== src/Store/Machine.antt =====
-- The modelled commands as the steps of the store: each relates the tables before a transaction
-- that commits to the tables after it.
pub mod Rows
pub mod Effects
pub mod Commands
pub mod Completing
pub mod Decompose
pub mod RunChanges
pub mod Completions
pub mod Failures
pub mod Log
pub mod Runs
pub mod Invariant
use Prim.Native.String.{String}
use agent_loom.Base.{ℕ, ◌≡◌, Option}
use agent_loom.Domain.Json.{Value}
use agent_loom.Store.Result.{ok}
use agent_loom.Store.Outcome.{
  CommandContext, Committed, ClaimedTask, RunSnapshot, LeaseReclaimOutcome,
}
use agent_loom.Store.Database.{Database}
use agent_loom.Store.Candidates.{Locks}
use agent_loom.Store.Claim.{ClaimTask, claim_task}
use agent_loom.Store.Renew.{RenewTaskLease, renew_task_lease}
use agent_loom.Store.Reclaim.{reclaim_expired_lease}
use agent_loom.Store.Failure.{FailTask}
use agent_loom.Store.Fail.{fail_task}
use agent_loom.Store.Transition.{ControlRun, ControlKind}
use agent_loom.Store.Control.{execute_control}
use agent_loom.Store.Completion.{CompleteTask}
use agent_loom.Store.Completion.Commit.{complete_task}

-- One transaction that commits.
pub data Step (pointer : Value → String → Option Value) (ttl : ℕ) (db : Database)
    : Database → Type 0 where
  claim :
      (locks : Locks) (context : CommandContext) (command : ClaimTask) (now : ℕ) {after : Database}
      {answer : Option (Committed ClaimedTask)}
      → claim_task db locks ttl context command now ≡ ok (after, answer)
      → Step pointer ttl db after
  renew :
      (context : CommandContext) (command : RenewTaskLease) (now : ℕ) {after : Database}
      {answer : Committed ClaimedTask}
      → renew_task_lease db ttl context command now ≡ ok (after, answer)
      → Step pointer ttl db after
  reclaim :
      (context : CommandContext) (event_id now : ℕ) {after : Database}
      {answer : Option (Committed LeaseReclaimOutcome)}
      → reclaim_expired_lease db ttl context event_id now ≡ ok (after, answer)
      → Step pointer ttl db after
  fail :
      (context : CommandContext) (command : FailTask) (now : ℕ) {after : Database}
      {answer : Committed RunSnapshot}
      → fail_task pointer db ttl context command now ≡ ok (after, answer)
      → Step pointer ttl db after
  complete :
      (context : CommandContext) (command : CompleteTask) (now : ℕ) {after : Database}
      {answer : Committed RunSnapshot}
      → complete_task pointer db ttl context command now ≡ ok (after, answer)
      → Step pointer ttl db after
  control :
      (context : CommandContext) (command : ControlRun) (kind : ControlKind) (now : ℕ)
      {after : Database} {answer : Committed RunSnapshot}
      → execute_control db ttl context command kind now ≡ ok (after, answer)
      → Step pointer ttl db after

-- Any number of transactions, one after the other.
pub data Steps (pointer : Value → String → Option Value) (ttl : ℕ) (db : Database)
    : Database → Type 0 where
  done : Steps pointer ttl db db
  then_step :
      {middle after : Database}
      → Steps pointer ttl db middle
      → Step pointer ttl middle after
      → Steps pointer ttl db after
