-- ===== src/Store/Claim/Laws.antt =====
-- What a claim changes.
use agent_loom.Base.{ℕ, ◌+◌, ◌≡◌, [], ◌∷◌, ◌++◌, arith, update_where}
use agent_loom.Domain.Status.{TaskStatus}
use agent_loom.Store.Result.{ok}
use agent_loom.Store.Outcome.{ClaimedTask, CommandContext}
use agent_loom.Store.Database.{Database, insert_event, event_row, is_run, is_task}
use agent_loom.Store.Fences.{LockedWorkerTask, claimed_task}
use agent_loom.Store.Claim.{ClaimTask, apply_claim, leased_row, running_row}

module _ (db : Database) (context : CommandContext) (command : ClaimTask) (now : ℕ)
    (locked : LockedWorkerTask) {changed : Database} {value : ClaimedTask} {attempt : ℕ}
    (h : apply_claim db context command now locked ≡ ok (changed, value, attempt)) where
  pub claim-receipts : changed.receipts ≡ db.receipts
  unfolding apply_claim insert_event claimed_task
  claim-receipts = ground arith

  -- The tables after a claim, the ids and the counters of the locked rows being those before it.
  pub claim-tasks :
      (expires : ℕ) × (changed.tasks
        ≡ update_where
            (is_task context.tenant_id locked.task.task_id)
            (leased_row command (locked.task.attempt + 1) expires now)
            db.tasks)
      × (expires ≡ now + command.lease_duration)
      × (value.lease_expires_at ≡ expires)
  unfolding apply_claim insert_event claimed_task
  claim-tasks = (now + command.lease_duration, ground arith, ground arith, ground arith)

  pub claim-runs :
      changed.runs
      ≡ update_where (is_run context.tenant_id locked.run.run_id) (running_row now) db.runs
  unfolding apply_claim insert_event claimed_task
  claim-runs = ground arith

  pub claim-events :
      changed.events
      ≡ db.events
        ++ event_row context context.command_id locked.run.run_id locked.run.next_event_sequence
            "task.claimed" "worker" now
          ∷ []
  unfolding apply_claim insert_event claimed_task
  claim-events = ground arith

  -- The answer describes the task as it is now leased.
  pub claim-value :
      (value.task.task_id ≡ locked.task.task_id)
      × (value.task.run_id ≡ locked.task.run_id)
      × (value.task.status ≡ TaskStatus.leased)
      × (value.task.attempt ≡ locked.task.attempt + 1)
      × (value.task.generation ≡ locked.task.generation)
      × (value.run_version ≡ locked.run.version + 1)
      × (attempt ≡ locked.task.attempt + 1)
  unfolding apply_claim insert_event claimed_task
  claim-value = ground arith
