-- ===== src/Store/Fail/Steps.antt =====
-- The steps of a failure that succeeds, one after the other.
use Prim.Native.String.{String}
use agent_loom.Base.{
  ℕ, ◌+◌, ◌≡◌, sym, Bool, ◌&&◌, Option, none, some, List, [], ◌∷◌, ◌++◌, arith, update_where,
  count_where, inl, inr, if◌then◌else◌,
}
use mathlib.Core.Path.{subst}
use agent_loom.Domain.Status.{accepts_task_claim}
use agent_loom.Domain.Json.{Value}
use agent_loom.Store.Result.{ok, >>=-eq-ok}
use agent_loom.Store.Rows.{RunRow}
use agent_loom.Store.Outcome.{CommandContext, RunSnapshot, DurableFollowUp}
use agent_loom.Store.Database.{Database, insert_event, event_row}
use agent_loom.Store.Fences.{LockedWorkerTask}
use agent_loom.Store.Expiry.{is_current_run}
use agent_loom.Store.Dependencies.Laws.{settled_tables, resolve-keeps}
use agent_loom.Store.Failure.{FailTask, FailureTransition, is_failing, failed_row}
use agent_loom.Store.Fail.{
  resolve_after_failure, close_if_terminal, apply_failure, record_failure, commit_failure,
  transition_of,
}
use agent_loom.Store.Fail.Laws.{after_failure-cases}

abbrev pub failed_run_row : FailureTransition → ℕ → ℕ → ℕ → ℕ → RunRow → RunRow
failed_run_row transition version sequence event_id now r = record r {
  status = transition.run_status;
  suspended_from_status = none;
  version = version;
  next_event_sequence = sequence;
  terminal_event_id = if transition.terminal then some event_id else none;
  terminal_at = if transition.terminal then some now else none;
  updated_at = now;
}

module _ (db : Database) (context : CommandContext) (command : FailTask) (now : ℕ)
    (locked : LockedWorkerTask) {finalized : Database}
    (h : record_failure db context command now locked ≡ ok finalized) where
  pub recorded-tasks :
      finalized.tasks
      ≡ update_where
          (is_failing context.tenant_id locked.task)
          (failed_row (transition_of command locked) command.error_code now)
          db.tasks
  unfolding record_failure insert_event
  recorded-tasks = ground arith

  pub recorded-runs : finalized.runs ≡ db.runs
  unfolding record_failure insert_event
  recorded-runs = ground arith

  pub recorded-receipts : finalized.receipts ≡ db.receipts
  unfolding record_failure insert_event
  recorded-receipts = ground arith

  pub recorded-events :
      finalized.events
      ≡ db.events
        ++ event_row context command.failure_event_id locked.task.run_id
            locked.run.next_event_sequence
            (transition_of command locked).event_type
            "worker"
            now
          ∷ []
  unfolding record_failure insert_event
  recorded-events = ground arith

module _ (resolved : Database) (context : CommandContext) (command : FailTask) (now : ℕ)
    (locked : LockedWorkerTask) (settled : FailureTransition) (activated : List DurableFollowUp)
    {changed : Database} {snapshot : RunSnapshot} {follow_ups : List DurableFollowUp}
    (h : commit_failure resolved context command now locked settled activated
      ≡ ok (changed, snapshot, follow_ups)) where
  abbrev pub closed_tables : Database
  closed_tables =
      (close_if_terminal context.tenant_id locked.task now settled.terminal resolved activated).0

  pub committed-tasks : changed.tasks ≡ closed_tables.tasks
  unfolding commit_failure
  committed-tasks = ground arith

  pub committed-runs :
      changed.runs
      ≡ update_where
          (λ r. is_current_run context.tenant_id locked.run r && accepts_task_claim r.status)
          (failed_run_row settled
            (locked.run.version + 1)
            (locked.run.next_event_sequence + 1)
            command.failure_event_id
            now)
          closed_tables.runs
  unfolding commit_failure
  committed-runs = ground arith

  -- The UPDATE of the run has found it.
  pub committed-count :
      count_where
        (λ r. is_current_run context.tenant_id locked.run r && accepts_task_claim r.status)
        closed_tables.runs
      ≡ 1
  unfolding commit_failure
  committed-count = ground arith

  pub committed-receipts : changed.receipts ≡ closed_tables.receipts
  unfolding commit_failure
  committed-receipts = ground arith

  pub committed-events : changed.events ≡ closed_tables.events
  unfolding commit_failure
  committed-events = ground arith

  pub committed-snapshot :
      (snapshot.status ≡ settled.run_status)
      × (snapshot.version ≡ locked.run.version + 1)
      × (snapshot.next_event_sequence ≡ locked.run.next_event_sequence + 1)
      × (snapshot.execution_generation ≡ locked.run.execution_generation)
  unfolding commit_failure
  committed-snapshot = ground arith

module _ (pointer : Value → String → Option Value) (db : Database) (context : CommandContext)
    (command : FailTask) (now : ℕ) (locked : LockedWorkerTask) {changed : Database}
    {snapshot : RunSnapshot} {follow_ups : List DurableFollowUp} where
  -- The parts of a failure that is applied.
  pub failure-steps :
      apply_failure pointer db context command now locked ≡ ok (changed, snapshot, follow_ups)
      → (finalized : Database) × (resolved : Database) × (settled : FailureTransition)
        × (activated : List DurableFollowUp) × (record_failure db context command now locked
            ≡ ok finalized)
        × (resolve_after_failure pointer finalized context.tenant_id locked.task now
              (transition_of command locked)
            ≡ ok (resolved, settled, activated))
        × (commit_failure resolved context command now locked settled activated
            ≡ ok (changed, snapshot, follow_ups))
  unfolding apply_failure
  failure-steps h =
      let (finalized, recorded, h1) =
        >>=-eq-ok (record_failure db context command now locked) _ h in
      let ((resolved, settled, activated), settles, h2) =
        >>=-eq-ok
          (resolve_after_failure pointer finalized context.tenant_id locked.task now
            (transition_of command locked))
          _ h1 in
      (finalized, resolved, settled, activated, recorded, settles, h2)

  -- What the tables keep through each part, the failure keeps.
  pub failure-keeps {κ} :
      (P : Database → Type κ)
      → ((finalized : Database)
          → record_failure db context command now locked ≡ ok finalized
          → P finalized)
      → ((task_id : ℕ) (ready : Bool) (d : Database)
          → P d
          → P (settled_tables context.tenant_id locked.task.run_id now task_id ready d))
      → ((resolved : Database) (settled : FailureTransition) (activated : List DurableFollowUp)
          → P resolved
          → commit_failure resolved context command now locked settled activated
            ≡ ok (changed, snapshot, follow_ups)
          → P changed)
      → apply_failure pointer db context command now locked ≡ ok (changed, snapshot, follow_ups)
      → P changed
  failure-keeps P recording settling committing h =
      let (finalized, resolved, settled, activated, recorded, settles, committed) =
        failure-steps h in
      let start = recording finalized recorded in
      elim (after_failure-cases pointer finalized context.tenant_id now locked.task
        (transition_of command locked) settles) [
          | inl (_, same, _) ↦
              committing resolved settled activated (subst P (sym same) start) committed
          | inr (ids, _, done, _) ↦
              committing resolved settled activated
                (resolve-keeps pointer context.tenant_id locked.task.run_id now P settling finalized
                  locked.task.task_id start done)
                committed
        ]
