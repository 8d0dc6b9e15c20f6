-- ===== src/Store/Candidates.antt =====
-- transaction_executor.rs: `lock_claim_candidate`, the choice of the task that a worker claims.
pub mod Laws
use agent_loom.Base.{
  ℕ, Bool, true, false, ◌&&◌, ◌||◌, not, Option, none, some, List, [], ◌∷◌, zero, suc, ◌==◌, ltb,
  leb, if◌then◌else◌, is_none_or, find_where, exists_where, keep_where,
}
use agent_loom.Domain.Status.{accepts_task_claim, is_claimable, TaskKind}
use agent_loom.Store.Rows.{RunRow, TaskRow}
use agent_loom.Store.Database.{Database, is_run, is_task}
use agent_loom.Store.Fences.{LockedWorkerTask}

-- The rows that other transactions hold locked, which SKIP LOCKED leaves out.
pub record Locks : Type 0 where
  pub run : RunRow → Bool
  pub task : TaskRow → Bool

pub TaskKind-discrete : Discrete TaskKind
TaskKind-discrete = hlevel

pub same_kind : TaskKind → TaskKind → Bool
unfolding TaskKind-discrete
same_kind a b = elim (TaskKind-discrete a b) [ yes h ↦ true | no h ↦ false ]

-- The conditions on a task that both SELECTs of `lock_claim_candidate` have.
unfoldable pub is_due : ℕ → Option TaskKind → TaskRow → Bool
is_due now kind t =
    is_claimable t.status
    && (leb t.available_at now
        && (is_none_or t.deadline (λ deadline. leb now deadline)
            && (ltb t.attempt t.max_attempts && is_none_or kind (λ k. same_kind t.kind k))))

-- WHERE of the first SELECT, the join with the run included.
unfoldable pub is_candidate : Database → ℕ → ℕ → Option TaskKind → TaskRow → Bool
unfolding is_due
is_candidate db tenant_id now kind t =
    t.tenant_id == tenant_id
    && (is_due now kind t
        && exists_where
            (λ (r : RunRow).
              is_run tenant_id t.run_id r
              && (accepts_task_claim r.status && t.generation == r.execution_generation))
            db.runs)

-- ORDER BY priority DESC, available_at, task_id.
pub comes_before : TaskRow → TaskRow → Bool
comes_before a b =
    ltb b.priority a.priority
    || (a.priority == b.priority
        && (ltb a.available_at b.available_at
            || (a.available_at == b.available_at && leb a.task_id b.task_id)))

unfoldable pub insert_in_order : TaskRow → List TaskRow → List TaskRow
insert_in_order t [] = t ∷ []
insert_in_order t (u ∷ us) =
    let rest = insert_in_order t us in if comes_before t u then t ∷ u ∷ us else u ∷ rest

unfoldable pub order_by : List TaskRow → List TaskRow
unfolding insert_in_order comes_before
order_by [] = []
order_by (t ∷ ts) = insert_in_order t (order_by ts)

-- LIMIT.
unfoldable pub limit : ℕ → List TaskRow → List TaskRow
limit zero ts = []
limit (suc n) [] = []
limit (suc n) (t ∷ ts) = t ∷ limit n ts

-- The second and the third SELECT, for one candidate: both rows are locked, or it is passed over.
unfoldable pub lock_candidate :
    Database → Locks → ℕ → ℕ → Option TaskKind → TaskRow → Option LockedWorkerTask
unfolding is_due
lock_candidate db locks tenant_id now kind t = elim run [
  | none ↦ none
  | some r ↦
      elim (find_where
        (λ (u : TaskRow).
          is_task tenant_id t.task_id u
          && (u.run_id == t.run_id
              && (u.generation == r.execution_generation
                  && (is_due now kind u && not (locks.task u)))))
        db.tasks) [ none ↦ none | some u ↦ some (record { run = r; task = u }) ]
]
  where
    run : Option RunRow
    run =
        find_where
          (λ r. is_run tenant_id t.run_id r && (accepts_task_claim r.status && not (locks.run r)))
          db.runs

-- The loop over the candidates.
unfoldable pub first_lockable :
    Database → Locks → ℕ → ℕ → Option TaskKind → List TaskRow → Option LockedWorkerTask
first_lockable db locks tenant_id now kind [] = none
first_lockable db locks tenant_id now kind (t ∷ ts) =
    let rest = first_lockable db locks tenant_id now kind ts in
    elim (lock_candidate db locks tenant_id now kind t) [ some l ↦ some l | none ↦ rest ]

-- `lock_claim_candidate`.
unfoldable pub lock_claim_candidate :
    Database → Locks → ℕ → ℕ → ℕ → Option TaskKind → Option LockedWorkerTask
unfolding order_by limit is_candidate first_lockable lock_candidate
lock_claim_candidate db locks tenant_id now window kind =
    first_lockable db locks tenant_id now kind
      (limit window (order_by (keep_where (is_candidate db tenant_id now kind) db.tasks)))
