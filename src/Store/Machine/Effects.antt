-- ===== src/Store/Machine/Effects.antt =====
-- What the commands do between the opening and the end of their receipts: one effect at most on
-- the tables.
use Prim.Native.String.{String}
use agent_loom.Base.{
  ℕ, ◌≡◌, sym, ap, ◌∙◌, true, false, not, ◌⊎◌, inl, inr, Option, some, List, arith, find_where,
  exists_where, is_some, ◌&&◌, passed,
}
use agent_loom.Domain.Json.{Value}
use agent_loom.Store.Result.{ok, ◌>>=◌}
use agent_loom.Store.Rows.{RunRow, TaskRow}
use agent_loom.Store.Outcome.{
  CommandContext, ClaimedTask, RunSnapshot, DurableFollowUp, OutcomeKind, ReceiptOutcome,
}
use agent_loom.Store.Database.{Database, acquired, acquire_receipt, finish_receipt, is_run}
use agent_loom.Store.Database.Receipts.{acquire-acquired}
use agent_loom.Store.Fences.{LockedWorkerTask, lock_worker_task, validate_worker_fences}
use agent_loom.Store.Candidates.{Locks, lock_claim_candidate}
use agent_loom.Store.Claim.{ClaimTask, apply_claim}
use agent_loom.Store.Renew.{RenewTaskLease, extend_lease}
use agent_loom.Store.Reclaim.{apply_reclaim}
use agent_loom.Store.Failure.{FailTask}
use agent_loom.Store.Fail.{apply_failure}
use agent_loom.Store.Transition.{ControlRun, ControlKind, is_no_op}
use agent_loom.Store.Control.{apply_control}
use agent_loom.Store.Completion.{CompleteTask}
use agent_loom.Store.Completion.Shape.{validate_completion_shape}
use agent_loom.Store.Completion.Fences.{
  LockedCompletion, lock_completion, validate_completion_fences,
}
use agent_loom.Store.Completion.Commit.{apply_completion}

-- The tables other than that of the receipts are alike.
pub record IsSame (a b : Database) : Type 0 where
  pub runs : b.runs ≡ a.runs
  pub tasks : b.tasks ≡ a.tasks
  pub events : b.events ≡ a.events

-- The effects of the commands, with what each has checked before.
pub data Effect (pointer : Value → String → Option Value) (db : Database) : Database → Type 0 where
  claimed :
      (locks : Locks) (context : CommandContext) (command : ClaimTask) (now : ℕ)
      (locked : LockedWorkerTask) {after : Database} {value : ClaimedTask} {attempt : ℕ}
      → lock_claim_candidate db locks context.tenant_id now command.candidate_window command.kind
        ≡ some locked
      → apply_claim db context command now locked ≡ ok (after, value, attempt)
      → Effect pointer db after
  extended :
      (context : CommandContext) (command : RenewTaskLease) (now expires : ℕ)
      (locked : LockedWorkerTask) {after : Database}
      → extend_lease db context.tenant_id locked command.lease.token expires now ≡ ok after
      → Effect pointer db after
  reclaimed :
      (context : CommandContext) (event_id now run_id : ℕ) (run : RunRow) (task : TaskRow)
      {after : Database}
      → find_where (is_run context.tenant_id run_id) db.runs ≡ some run
      → exists_where
          (λ (r : RunRow). is_run context.tenant_id run_id r && not (is_some r.terminal_event_id))
          db.runs
        ≡ true
      → apply_reclaim db context event_id now run task ≡ ok after
      → Effect pointer db after
  failed :
      (context : CommandContext) (command : FailTask) (now : ℕ) (locked : LockedWorkerTask)
      {after : Database} {answer : RunSnapshot × List DurableFollowUp}
      → lock_worker_task db context.tenant_id command.expected_run.run_id command.lease.task_id
        ≡ ok locked
      → validate_worker_fences command.expected_run command.lease locked now ≡ ok tt
      → apply_failure pointer db context command now locked ≡ ok (after, answer.0, answer.1)
      → Effect pointer db after
  completed :
      (context : CommandContext) (command : CompleteTask) (now : ℕ) (locked : LockedCompletion)
      {after : Database} {answer : RunSnapshot × List DurableFollowUp}
      → validate_completion_shape command ≡ passed
      → lock_completion db context.tenant_id command.expected_run.run_id command.lease.task_id
        ≡ ok locked
      → validate_completion_fences command locked now ≡ ok tt
      → apply_completion pointer db context command now locked ≡ ok (after, answer.0, answer.1)
      → Effect pointer db after
  controlled :
      (context : CommandContext) (command : ControlRun) (kind : ControlKind) (now : ℕ)
      (run : RunRow) {after : Database} {answer : RunSnapshot × List DurableFollowUp}
      → find_where (is_run context.tenant_id command.expected_run.run_id) db.runs ≡ some run
      → is_no_op kind run.status ≡ false
      → apply_control db context command kind now run ≡ ok (after, answer.0, answer.1)
      → Effect pointer db after

-- A step's receipt is opened, its effect takes place, and the receipt is finished; or there is no
-- effect.
abbrev pub HasEffect : (Value → String → Option Value) → Database → Database → Type 0
HasEffect pointer db after =
    IsSame db after
    ⊎ ((opened : Database) × (changed : Database) × IsSame db opened
        × Effect pointer opened changed
        × IsSame changed after)

pub acquired-IsSame :
    (db : Database) (c : CommandContext) (now ttl : ℕ) {opened : Database}
    → acquire_receipt db c now ttl ≡ ok (acquired opened)
    → IsSame db opened
acquired-IsSame db c now ttl h =
    let (_, _, same) = acquire-acquired db c now ttl h in
    record {
      runs = ap (λ (d : Database). d.runs) same;
      tasks = ap (λ (d : Database). d.tasks) same;
      events = ap (λ (d : Database). d.events) same;
    }

pub finish-IsSame :
    {A : Type 0} (db : Database) (c : CommandContext) (kind : OutcomeKind)
    (outcome : ReceiptOutcome) (event_id : Option ℕ) (resource : Option (String × ℕ × ℕ)) (a : A)
    {final : Database} {answer : A}
    → ◌>>=◌ {B = Database × A}
        (finish_receipt db c kind outcome event_id resource)
        (λ finished. ok (finished, a))
      ≡ ok (final, answer)
    → IsSame db final
unfolding finish_receipt
finish-IsSame db c kind outcome event_id resource a h = record {
  runs = ground arith;
  tasks = ground arith;
  events = ground arith;
}

-- A command that only reads its receipt.
pub eq-IsSame : (db after : Database) → db ≡ after → IsSame db after
eq-IsSame db after e = record {
  runs = ap (λ (d : Database). d.runs) (sym e);
  tasks = ap (λ (d : Database). d.tasks) (sym e);
  events = ap (λ (d : Database). d.events) (sym e);
}

-- The effect that a command has on the tables as its receipt is open.
abbrev pub Inner : (Value → String → Option Value) → Database → Database → Type 0
Inner pointer opened after =
    IsSame opened after
    ⊎ ((changed : Database) × Effect pointer opened changed × IsSame changed after)

IsSame-trans : (a b c : Database) → IsSame a b → IsSame b c → IsSame a c
IsSame-trans a b c h k = record {
  runs = k.runs ∙ h.runs;
  tasks = k.tasks ∙ h.tasks;
  events = k.events ∙ h.events;
}

pub opened-HasEffect :
    (pointer : Value → String → Option Value) (db opened after : Database)
    → IsSame db opened
    → Inner pointer opened after
    → HasEffect pointer db after
opened-HasEffect pointer db opened after same (inl rest) =
    inl (IsSame-trans db opened after same rest)
opened-HasEffect pointer db opened after same (inr (changed, effect, rest)) =
    inr (opened, changed, same, effect, rest)
