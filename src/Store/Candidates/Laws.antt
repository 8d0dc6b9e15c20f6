-- ===== src/Store/Candidates/Laws.antt =====
-- What `lock_claim_candidate` finds.
use agent_loom.Base.{
  ℕ, ◌≡◌, ◌∙◌, Bool, true, false, ◌&&◌, not, Option, some, List, [], ◌∷◌, ◌==◌, arith, find_where,
  find_where_sound, Option-cases, inl, inr, keep_where,
}
use mathlib.Core.Path.{subst}
use agent_loom.Domain.Status.{accepts_task_claim, TaskKind}
use agent_loom.Store.Rows.{RunRow, TaskRow}
use agent_loom.Store.Database.{Database, is_run, is_task}
use agent_loom.Store.Fences.{LockedWorkerTask}
use agent_loom.Store.Candidates.{
  Locks, is_due, lock_candidate, first_lockable, lock_claim_candidate, order_by, limit,
  is_candidate,
}

-- A task that may be claimed now: it is a row of the table, due, and of the current generation of
-- its run, which accepts claims; no other transaction holds either row.
pub record IsClaimable (db : Database) (locks : Locks) (tenant_id now : ℕ) (kind : Option TaskKind)
    (locked : LockedWorkerTask) : Type 0 where
  pub task_query : TaskRow → Bool
  pub task_found : find_where task_query db.tasks ≡ some locked.task
  pub run_query : RunRow → Bool
  pub run_found : find_where run_query db.runs ≡ some locked.run
  pub task_tenant : locked.task.tenant_id ≡ tenant_id
  pub run_tenant : locked.run.tenant_id ≡ tenant_id
  pub same_run : locked.task.run_id ≡ locked.run.run_id
  pub due : is_due now kind locked.task ≡ true
  pub accepts : accepts_task_claim locked.run.status ≡ true
  pub generation : locked.task.generation ≡ locked.run.execution_generation
  pub task_free : locks.task locked.task ≡ false
  pub run_free : locks.run locked.run ≡ false

module _ (db : Database) (locks : Locks) (tenant_id now : ℕ) (kind : Option TaskKind) where
  claimable :
      (t : TaskRow) (r : RunRow) (u : TaskRow) (run_query : RunRow → Bool)
      (task_query : TaskRow → Bool)
      → find_where run_query db.runs ≡ some r
      → find_where task_query db.tasks ≡ some u
      → (is_run tenant_id t.run_id r && (accepts_task_claim r.status && not (locks.run r))) ≡ true
      → (is_task tenant_id t.task_id u
          && (u.run_id == t.run_id
              && (u.generation == r.execution_generation
                  && (is_due now kind u && not (locks.task u)))))
        ≡ true
      → IsClaimable db locks tenant_id now kind (record { run = r; task = u })
  claimable t r u run_query task_query e f run_fits task_fits = record {
    task_query = task_query;
    task_found = f;
    run_query = run_query;
    run_found = e;
    task_tenant = ground arith;
    run_tenant = ground arith;
    same_run = ground arith;
    due = ground arith;
    accepts = ground arith;
    generation = ground arith;
    task_free = ground arith;
    run_free = ground arith;
  }

  lock_candidate-IsClaimable :
      (t : TaskRow) {locked : LockedWorkerTask}
      → lock_candidate db locks tenant_id now kind t ≡ some locked
      → IsClaimable db locks tenant_id now kind locked
  unfolding lock_candidate
  lock_candidate-IsClaimable t {locked} h =
      let run_query : RunRow → Bool =
        λ r. is_run tenant_id t.run_id r && (accepts_task_claim r.status && not (locks.run r)) in
      let task_query : RunRow → TaskRow → Bool = λ r u.
        is_task tenant_id t.task_id u
        && (u.run_id == t.run_id
            && (u.generation == r.execution_generation
                && (is_due now kind u && not (locks.task u)))) in
      elim (Option-cases (find_where run_query db.runs)) [
        | inl e ↦ absurd (ground (arith, e))
        | inr (r, e) ↦ elim (Option-cases (find_where (task_query r) db.tasks)) [
          | inl f ↦ absurd (ground (arith, e, f))
          | inr (u, f) ↦
              let same : ◌≡◌ {A = LockedWorkerTask} (record { run = r; task = u }) locked =
                ground (arith, e, f) in
              subst (IsClaimable db locks tenant_id now kind) same (
                claimable t r u run_query (task_query r) e f (find_where_sound run_query db.runs e)
                  (find_where_sound (task_query r) db.tasks f))
        ]
      ]

  first_lockable-IsClaimable :
      (ts : List TaskRow) {locked : LockedWorkerTask}
      → first_lockable db locks tenant_id now kind ts ≡ some locked
      → IsClaimable db locks tenant_id now kind locked
  unfolding first_lockable
  first_lockable-IsClaimable [] h = absurd (cc)
  first_lockable-IsClaimable (t ∷ ts) {locked} h =
      elim (Option-cases (lock_candidate db locks tenant_id now kind t)) [
        | inl e ↦ first_lockable-IsClaimable ts (rw (e, first_lockable) at h)
        | inr (l, e) ↦ lock_candidate-IsClaimable t (e ∙ rw (e, first_lockable) at h)
      ]

  pub lock_claim_candidate-IsClaimable :
      (window : ℕ) {locked : LockedWorkerTask}
      → lock_claim_candidate db locks tenant_id now window kind ≡ some locked
      → IsClaimable db locks tenant_id now kind locked
  unfolding lock_claim_candidate
  lock_claim_candidate-IsClaimable window h =
      first_lockable-IsClaimable
        (limit window (order_by (keep_where (is_candidate db tenant_id now kind) db.tasks))) h
