-- ===== src/Store/Dependencies.antt =====
-- transaction_executor.rs: `resolve_dependent_tasks`. `Value::pointer` of serde_json is a parameter.
pub mod Laws
use Prim.Native.String.{String}
use agent_loom.Base.{
  ℕ, zero, suc, ◌+◌, Bool, true, false, ◌&&◌, ◌||◌, not, Option, none, some, List, [], ◌∷◌, ◌++◌,
  ◌==◌, leb, if◌then◌else◌, find_where, exists_where, keep_where, update_where, count_where,
}
use agent_loom.Domain.Status.{TaskStatus, is_terminal_task, is_scheduled, JoinPolicy}
use agent_loom.Domain.Json.{Value}
use agent_loom.Store.Result.{StoreResult, ok, err, ◌>>=◌}
use agent_loom.Store.Rows.{TaskRow, DependencyRow}
use agent_loom.Store.Database.{Database, is_task_of}
use agent_loom.Store.Conditions.{dependency_condition_satisfied}

abbrev pub is_dependency_of : ℕ → ℕ → ℕ → DependencyRow → Bool
is_dependency_of tenant_id run_id task_id d =
    d.tenant_id == tenant_id && (d.run_id == run_id && d.task_id == task_id)

-- The prerequisites of a task, joined with their rows: the status, the result and the condition.
unfoldable pub prerequisites :
    List TaskRow → ℕ → ℕ → ℕ → List DependencyRow → List (TaskRow × Value)
prerequisites tasks tenant_id run_id task_id [] = []
prerequisites tasks tenant_id run_id task_id (d ∷ ds) =
    let rest = prerequisites tasks tenant_id run_id task_id ds in
    if is_dependency_of tenant_id run_id task_id d
    then elim (find_where
        (λ (t : TaskRow). is_task_of tenant_id run_id t && t.task_id == d.prerequisite_task_id)
        tasks) [ none ↦ rest | some t ↦ (t, d.condition) ∷ rest ]
    else rest

module _ (pointer : Value → String → Option Value) where
  -- The conditions of all prerequisites, in turn.
  unfoldable pub satisfied : List (TaskRow × Value) → StoreResult (List Bool)
  satisfied [] = ok []
  satisfied ((t, condition) ∷ ps) = do
    b ← dependency_condition_satisfied pointer t.status t.result condition
    bs ← satisfied ps
    ok (b ∷ bs)

abbrev pub every : List Bool → Bool
every [] = true
every (b ∷ bs) = b && every bs

abbrev pub some_of : List Bool → Bool
some_of [] = false
some_of (b ∷ bs) = b || some_of bs

abbrev is_empty_list : List Bool → Bool
is_empty_list [] = true
is_empty_list _ = false

unfoldable pub is_ready : JoinPolicy → List Bool → Bool
is_ready JoinPolicy.all bs = not (is_empty_list bs) && every bs
is_ready JoinPolicy.any bs = some_of bs

unfoldable pub all_settled : List (TaskRow × Value) → Bool
all_settled [] = true
all_settled ((t, condition) ∷ ps) = is_terminal_task t.status && all_settled ps

-- WHERE of the dependent task's UPDATE.
abbrev pub is_waiting_task : ℕ → ℕ → ℕ → TaskRow → Bool
is_waiting_task tenant_id run_id task_id t =
    is_task_of tenant_id run_id t && (t.task_id == task_id && is_scheduled t.status)

abbrev pub queued_row : ℕ → TaskRow → TaskRow
queued_row now t = record t {
  status = TaskStatus.queued;
  available_at = now;
  completed_at = none;
  updated_at = now;
}

abbrev pub skipped_row : ℕ → TaskRow → TaskRow
skipped_row now t = record t {
  status = TaskStatus.skipped;
  completed_at = some now;
  updated_at = now;
}

-- What the loop carries: the tables, the tasks activated and the stack `terminal_tasks`, its top
-- first.
pub record Progress : Type 0 where
  pub database : Database
  pub activated : List ℕ
  pub terminal_tasks : List ℕ

-- The UPDATE of a dependent task that is ready or settled, and the push that follows it.
unfoldable pub settle_task : ℕ → ℕ → ℕ → ℕ → Bool → Progress → Progress
settle_task tenant_id run_id now task_id ready p =
    let tasks =
      update_where (is_waiting_task tenant_id run_id task_id)
        (λ t. if ready then queued_row now t else skipped_row now t) p.database.tasks in
    let updated = count_where (is_waiting_task tenant_id run_id task_id) p.database.tasks == 1 in
    let db : Database = record p.database { tasks = tasks } in
    if updated && ready
    then record p { database = db; activated = p.activated ++ task_id ∷ [] }
    else if updated
    then record p { database = db; terminal_tasks = task_id ∷ p.terminal_tasks }
    else record p { database = db }

-- Whether a task waits on `completed`, a row of the first SELECT.
abbrev pub is_dependent : Database → ℕ → ℕ → ℕ → TaskRow → Bool
is_dependent db tenant_id run_id completed t =
    is_task_of tenant_id run_id t
    && (is_scheduled t.status
        && exists_where
            (λ (d : DependencyRow).
              is_dependency_of tenant_id run_id t.task_id d && d.prerequisite_task_id == completed)
            db.dependencies)

-- ORDER BY t.task_id.
unfoldable pub insert_by_id : TaskRow → List TaskRow → List TaskRow
insert_by_id t [] = t ∷ []
insert_by_id t (u ∷ us) =
    let rest = insert_by_id t us in if leb t.task_id u.task_id then t ∷ u ∷ us else u ∷ rest

unfoldable pub order_by_id : List TaskRow → List TaskRow
unfolding insert_by_id
order_by_id [] = []
order_by_id (t ∷ ts) = insert_by_id t (order_by_id ts)

-- Each turn of the loop pops a task, and a task is pushed as it stops being scheduled.
abbrev pub resolve_fuel : Database → ℕ
resolve_fuel db = count_where (λ (t : TaskRow). is_scheduled t.status) db.tasks + 2

module _ (pointer : Value → String → Option Value) (tenant_id run_id now : ℕ) where
  -- One dependent task: left alone while it is neither ready nor settled.
  unfoldable pub resolve_row : TaskRow → Progress → StoreResult Progress
  unfolding prerequisites satisfied is_ready all_settled settle_task
  resolve_row t p = do
    let dependencies =
        prerequisites p.database.tasks tenant_id run_id t.task_id p.database.dependencies
    conditions ← satisfied pointer dependencies
    let ready = is_ready t.join_policy conditions
    if ready || all_settled dependencies
        then ok (settle_task tenant_id run_id now t.task_id ready p)
        else ok p

  unfoldable pub resolve_rows : List TaskRow → Progress → StoreResult Progress
  unfolding resolve_row
  resolve_rows [] p = ok p
  resolve_rows (t ∷ ts) p = resolve_row t p >>= resolve_rows ts

  -- `while let Some(completed_task_id) = terminal_tasks.pop()`. The result is `none` if the fuel
  -- ran out.
  unfoldable pub resolve_loop : ℕ → Progress → Option (StoreResult Progress)
  unfolding resolve_rows order_by_id
  resolve_loop zero p = none
  resolve_loop (suc fuel) p = elim p.terminal_tasks [
    | [] ↦ some (ok p)
    | completed ∷ rest ↦
        elim (resolve_rows
          (order_by_id
            (keep_where (is_dependent p.database tenant_id run_id completed) p.database.tasks))
          (record p { terminal_tasks = rest })) [
            | err e ↦ some (err e)
            | ok q ↦ resolve_loop fuel q
          ]
  ]

  -- `resolve_dependent_tasks`.
  unfoldable pub resolve_dependent_tasks : Database → ℕ → Option (StoreResult (Database × List ℕ))
  unfolding resolve_loop
  resolve_dependent_tasks db terminal_task_id =
      elim (resolve_loop (resolve_fuel db)
        (record { database = db; activated = []; terminal_tasks = terminal_task_id ∷ [] })) [
          | none ↦ none
          | some (err e) ↦ some (err e)
          | some (ok p) ↦ some (ok (p.database, p.activated))
        ]
