-- ===== src/Store/Completion/NextKept.antt =====
-- What the next actions of a completion leave alone, and what they keep of the tasks.
use mathlib.Core.Path.{subst}
use agent_loom.Base.{ℕ, ◌≡◌, refl, sym, false, exists_where, List, [], ◌∷◌, ◌++◌, arith}
use agent_loom.Domain.Status.{TaskStatus, is_leased, is_terminal_task}
use agent_loom.Store.Result.{ok, >>=-eq-ok, ok-eq, to_i64}
use agent_loom.Store.Rows.{WaitRow}
use agent_loom.Store.Database.{Database}
use agent_loom.Store.Completion.{NextActions, NewTask, NewWaitSubscription}
use agent_loom.Store.Completion.Inserts.{
  insert_new_task, insert_new_wait, task_conflicts, new_task_row, new_wait_row,
}
use agent_loom.Store.Completion.Actions.{insert_new_tasks, insert_next}
use agent_loom.Store.Completion.Kept.{IsQuiet, IsQuiet-refl, IsQuiet-with}

-- A status of a task that is neither leased nor ended.
abbrev pub IsFree : TaskStatus → Type 0
IsFree status = (is_leased status ≡ false) × (is_terminal_task status ≡ false)

module _ {κ} (P : Database → Type κ) (tenant_id run_id now : ℕ)
    (keep_task : (d : Database) (task : NewTask) (status : TaskStatus) (generation : ℕ)
      → IsFree status
      → exists_where (task_conflicts tenant_id run_id task generation) d.tasks ≡ false
      → P d
      → P (record d {
        tasks = d.tasks ++ new_task_row tenant_id run_id now task status generation ∷ [];
      }))
    (keep_wait : (d : Database) (row : WaitRow)
      → P d
      → P (record d { waits = d.waits ++ row ∷ [] })) where
  task-keeps :
      (db : Database) (task : NewTask) (status : TaskStatus) {after : Database}
      → IsFree status
      → P db
      → insert_new_task db tenant_id run_id now task status ≡ ok after
      → P after
  unfolding insert_new_task
  task-keeps db task status {after} free h e =
      let (generation, e1, h1) = >>=-eq-ok (to_i64 task.generation) _ e in
      let (sequence, e2, h2) = >>=-eq-ok (to_i64 task.based_on_checkpoint_sequence) _ h1 in
      let row = new_task_row tenant_id run_id now task status generation in
      let new : exists_where (task_conflicts tenant_id run_id task generation) db.tasks ≡ false =
        ground (arith, h2) in
      let same : after ≡ record db { tasks = db.tasks ++ row ∷ [] } = ground (arith, h2) in
      subst P (sym same) (keep_task db task status generation free new h)

  wait-keeps :
      (db : Database) (wait : NewWaitSubscription) {after : Database}
      → P db
      → insert_new_wait db tenant_id run_id now wait ≡ ok after
      → P after
  unfolding insert_new_wait
  wait-keeps db wait {after} h e =
      let row = new_wait_row tenant_id run_id now wait in
      let same : after ≡ record db { waits = db.waits ++ row ∷ [] } = ground arith in
      subst P (sym same) (keep_wait db row h)

  new_tasks-keeps :
      (db : Database) (tasks : List NewTask) {after : Database}
      → P db
      → insert_new_tasks db tenant_id run_id now tasks ≡ ok after
      → P after
  unfolding insert_new_tasks
  new_tasks-keeps db [] h e = subst P (ok-eq e) h
  new_tasks-keeps db (task ∷ tasks) h e =
      let (inserted, first, rest) =
        >>=-eq-ok (insert_new_task db tenant_id run_id now task TaskStatus.queued) _ e in
      new_tasks-keeps inserted tasks (task-keeps db task TaskStatus.queued (refl, refl) h first)
        rest

  -- What each new task and each new wait keeps, the next actions keep.
  pub next-keeps :
      (db : Database) (next : NextActions) {after : Database}
      → P db
      → insert_next db tenant_id run_id now next ≡ ok after
      → P after
  unfolding insert_next
  next-keeps db (NextActions.tasks tasks) h e = new_tasks-keeps db tasks h e
  next-keeps db (NextActions.wait wait) h e = wait-keeps db wait h e
  next-keeps db (NextActions.retry retry) h e =
      task-keeps db retry.task TaskStatus.retry_scheduled (refl, refl) h e
  next-keeps db (NextActions.finish_run result) h e = subst P (ok-eq e) h
  next-keeps db NextActions.no_further_work h e = subst P (ok-eq e) h

-- The next actions leave the runs alone.
pub next-IsQuiet :
    (tenant_id run_id now : ℕ) (db : Database) (next : NextActions) {after : Database}
    → insert_next db tenant_id run_id now next ≡ ok after
    → IsQuiet db after
next-IsQuiet tenant_id run_id now db next =
    next-keeps (IsQuiet db) tenant_id run_id now
      (λ d task status generation free new k. IsQuiet-with k) (λ d row k. IsQuiet-with k) db next
      (IsQuiet-refl db)
