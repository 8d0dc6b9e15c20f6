-- ===== src/Store/Claim/Lease.antt =====
-- The lease that a claim gives.
use mathlib.Core.Path.{subst}
use agent_loom.Base.{
  ℕ, ◌+◌, ◌<◌, ◌≡◌, ◌↔◌, ◌∙◌, refl, sym, ap, true, some, arith, IsKeyed, find_where, find_where-key,
  find_where-update_where, some-eq,
}
use agent_loom.Store.Result.{ok, i64_bound}
use agent_loom.Store.Rows.{RunRow, TaskRow}
use agent_loom.Store.Outcome.{ClaimedTask, CommandContext, ExpectedRun, LeaseProof}
use agent_loom.Store.Database.{Database, is_run, is_task, insert_event}
use agent_loom.Store.Fences.{
  LockedWorkerTask, lock_worker_task, validate_worker_fences, claimed_task,
}
use agent_loom.Store.Fences.Laws.{fences_iff, Agrees}
use agent_loom.Store.Candidates.{Locks, lock_claim_candidate}
use agent_loom.Store.Candidates.Laws.{lock_claim_candidate-IsClaimable}
use agent_loom.Store.Claim.{ClaimTask, apply_claim, leased_row, running_row}
use agent_loom.Store.Claim.Laws.{claim-tasks, claim-runs, claim-value}

-- A command that shows what the claim asked for and was answered, in time.
pub record IsClaimed (command : ClaimTask) (value : ClaimedTask) (expected : ExpectedRun)
    (lease : LeaseProof) (now : ℕ) : Type 0 where
  pub worker : lease.worker_id ≡ command.worker_id
  pub token : lease.token ≡ command.lease_token
  pub generation : lease.execution_generation ≡ value.task.generation
  pub version : Agrees expected.version value.run_version
  pub run_generation : Agrees expected.execution_generation value.task.generation
  pub time : now < value.lease_expires_at

module _ (db : Database) (locks : Locks) (context : CommandContext) (command : ClaimTask) (now : ℕ)
    (locked : LockedWorkerTask) {after : Database} {value : ClaimedTask} {attempt : ℕ}
    (keyed_runs : IsKeyed (λ (r : RunRow). r.tenant_id) (λ r. r.run_id) db.runs)
    (keyed_tasks : IsKeyed (λ (t : TaskRow). t.tenant_id) (λ t. t.task_id) db.tasks)
    (found : lock_claim_candidate db locks context.tenant_id now command.candidate_window
        command.kind
      ≡ some locked)
    (applied : apply_claim db context command now locked ≡ ok (after, value, attempt)) where
  -- The claim checks that the run's counter does not overflow.
  claim-version_bound : locked.run.version + 1 < i64_bound
  unfolding apply_claim insert_event claimed_task
  claim-version_bound = ground arith

  claimed_run :
      find_where (is_run context.tenant_id locked.run.run_id) after.runs
      ≡ some (running_row now locked.run)
  claimed_run =
      let c =
        lock_claim_candidate-IsClaimable db locks context.tenant_id now command.kind
          command.candidate_window found in
      let query = is_run context.tenant_id locked.run.run_id in
      let own : query locked.run ≡ true = ground (arith, c.run_tenant) in
      ap (find_where query) (claim-runs db context command now locked applied)
      ∙ find_where-update_where query query (running_row now) db.runs (λ y. refl)
          (find_where-key (λ (r : RunRow). r.tenant_id) (λ r. r.run_id) c.run_query query db.runs
            keyed_runs c.run_found own (λ y e. ground (arith, e, c.run_tenant)))
          own

  claimed_row :
      (expires : ℕ) × (find_where (is_task context.tenant_id locked.task.task_id) after.tasks
        ≡ some (leased_row command (locked.task.attempt + 1) expires now locked.task))
      × (value.lease_expires_at ≡ expires)
  claimed_row =
      let c =
        lock_claim_candidate-IsClaimable db locks context.tenant_id now command.kind
          command.candidate_window found in
      let query = is_task context.tenant_id locked.task.task_id in
      let own : query locked.task ≡ true = ground (arith, c.task_tenant) in
      let (expires, tasks, _, until) = claim-tasks db context command now locked applied in
      (
        expires,
        ap (find_where query) tasks
            ∙ find_where-update_where query query _ db.tasks (λ y. refl)
                (find_where-key (λ (t : TaskRow). t.tenant_id) (λ t. t.task_id) c.task_query query
                  db.tasks keyed_tasks c.task_found own (λ y e. ground (arith, e, c.task_tenant)))
                own,
        until,
      )

  -- On the tables that a claim leaves, with unique keys of runs and tasks, a command for the
  -- claimed task and its run passes the fences at a time exactly if its lease is that of the claim,
  -- by worker, token and generation, the version and generation that it expects, if any, are those
  -- of the claim's answer, and the answer's expiry is later. The generation is that of a 64-bit
  -- column.
  pub claim-fences :
      (expected : ExpectedRun) (lease : LeaseProof) (later : ℕ)
      → expected.run_id ≡ value.task.run_id
      → lease.task_id ≡ value.task.task_id
      → locked.run.execution_generation < i64_bound
      → (held : LockedWorkerTask) × (lock_worker_task after context.tenant_id expected.run_id
            lease.task_id
          ≡ ok held)
        × ((validate_worker_fences expected lease held later ≡ ok tt)
            ↔ IsClaimed command value expected lease later)
  unfolding lock_worker_task
  claim-fences expected lease later named owned bound =
      let c =
        lock_claim_candidate-IsClaimable db locks context.tenant_id now command.kind
          command.candidate_window found in
      let (expires, row, until) = claimed_row in
      let (id, run_id, _, _, generation, version, _) =
        claim-value db context command now locked applied in
      let held : LockedWorkerTask = record {
        run = running_row now locked.run;
        task = leased_row command (locked.task.attempt + 1) expires now locked.task;
      } in
      let iff = fences_iff expected lease held later claim-version_bound bound in
      (
        held,
        rw (named ∙ run_id ∙ c.same_run, owned ∙ id, claimed_run, row),
        (
          λ h.
              let f = iff.0 h in
              let (t, held_until, time) = f.expiry in
              let same_time : expires ≡ t = some-eq expires t held_until in
              record {
                worker = sym (some-eq _ _ f.owner);
                token = sym (some-eq _ _ f.token);
                generation = f.task_generation ∙ sym generation;
                version = subst (Agrees expected.version) (sym version) f.version;
                run_generation =
                    subst (Agrees expected.execution_generation) (sym (generation ∙ c.generation))
                      f.generation;
                time = omega (arith, time, same_time, until);
              },
          λ mine.
              let time = mine.time in
              iff.1 (record {
                same_run = sym (named ∙ run_id);
                leased = refl;
                not_paused = refl;
                not_terminal = refl;
                version = subst (Agrees expected.version) version mine.version;
                generation =
                    subst (Agrees expected.execution_generation) (generation ∙ c.generation)
                      mine.run_generation;
                run_generation = mine.generation ∙ (generation ∙ c.generation);
                task_generation = mine.generation ∙ generation;
                owner = ap some (sym mine.worker);
                token = ap some (sym mine.token);
                expiry = (expires, refl, omega (arith, time, until));
              }),
        ),
      )
