-- ===== src/Store/Dependencies/Laws.antt =====
-- What the resolution of dependencies keeps, and that its loop ends.
use Prim.Native.String.{String}
use native.Mathlib.Nat.{le_trans}
use mathlib.Core.Path.{subst, sym}
use mathlib.Core.Logic.{◌⊎◌}
use agent_loom.Base.{
  ℕ, zero, suc, ◌+◌, ◌≤◌, ◌<◌, ◌≡◌, refl, Bool, ◌||◌, Option, some, List, [], ◌∷◌, arith,
  if◌then◌else◌, update_where, count_where, keep_where, length, Bool-cases, Option-cases, inl, inr,
}
use agent_loom.Domain.Status.{is_scheduled}
use agent_loom.Domain.Json.{Value}
use agent_loom.Store.Result.{StoreResult, ok, err, >>=-eq-ok, StoreResult-cases, ok-eq}
use agent_loom.Store.Rows.{TaskRow}
use agent_loom.Store.Database.{Database}
use agent_loom.Store.Dependencies.{
  Progress, settle_task, resolve_row, resolve_rows, resolve_loop, resolve_dependent_tasks,
  resolve_fuel, is_waiting_task, queued_row, skipped_row, satisfied, prerequisites, is_ready,
  all_settled, order_by_id, is_dependent,
}

-- The tables after a dependent task is queued or skipped.
abbrev pub settled_tables : ℕ → ℕ → ℕ → ℕ → Bool → Database → Database
settled_tables tenant_id run_id now task_id ready db = record db {
  tasks =
      update_where (is_waiting_task tenant_id run_id task_id)
        (λ t. if ready then queued_row now t else skipped_row now t) db.tasks;
}

List-cases {ℓ} : {A : Type ℓ} (xs : List A) → (xs ≡ []) ⊎ ((y : A) × (ys : List A) × (xs ≡ y ∷ ys))
List-cases [] = inl refl
List-cases (x ∷ xs) = inr (x, xs, refl)

settle-database :
    (tenant_id run_id now task_id : ℕ) (ready : Bool) (p : Progress)
    → (settle_task tenant_id run_id now task_id ready p).database
      ≡ settled_tables tenant_id run_id now task_id ready p.database
unfolding settle_task
settle-database tenant_id run_id now task_id ready p = ground arith

-- What the loop starts with.
abbrev start_of : Database → ℕ → Progress
start_of db task_id = record { database = db; activated = []; terminal_tasks = task_id ∷ [] }

-- The tasks that are still scheduled.
abbrev pub still_scheduled : List TaskRow → ℕ
still_scheduled = count_where (λ t. is_scheduled t.status)

count-settled :
    (tenant_id run_id now task_id : ℕ) (ready : Bool) (ts : List TaskRow)
    → still_scheduled (
          update_where
            (is_waiting_task tenant_id run_id task_id)
            (λ t. if ready then queued_row now t else skipped_row now t)
            ts)
        + count_where (is_waiting_task tenant_id run_id task_id) ts
      ≤ still_scheduled ts
unfolding update_where count_where
count-settled tenant_id run_id now task_id ready [] = omega arith
count-settled tenant_id run_id now task_id ready (t ∷ ts) =
    ground (arith, count-settled tenant_id run_id now task_id ready ts)

-- The turns that the loop can still make.
abbrev pub turns : Progress → ℕ
turns p = length p.terminal_tasks + still_scheduled p.database.tasks

settle-turns :
    (tenant_id run_id now task_id : ℕ) (ready : Bool) (p : Progress)
    → turns (settle_task tenant_id run_id now task_id ready p) ≤ turns p
unfolding settle_task
settle-turns tenant_id run_id now task_id ready p =
    ground (arith, count-settled tenant_id run_id now task_id ready p.database.tasks)

module _ (pointer : Value → String → Option Value) (tenant_id run_id now : ℕ) where
  resolve_row-cases :
      (t : TaskRow) (p : Progress) {q : Progress}
      → resolve_row pointer tenant_id run_id now t p ≡ ok q
      → (q ≡ p) ⊎ ((ready : Bool) × (q ≡ settle_task tenant_id run_id now t.task_id ready p))
  unfolding resolve_row
  resolve_row-cases t p {q} h =
      let dependencies =
        prerequisites p.database.tasks tenant_id run_id t.task_id p.database.dependencies in
      let (conditions, found, rest) = >>=-eq-ok (satisfied pointer dependencies) _ h in
      elim (Bool-cases (is_ready t.join_policy conditions || all_settled dependencies)) [
        | inl e ↦ inr (is_ready t.join_policy conditions, cc (rw e at rest))
        | inr e ↦ inl (cc (rw e at rest))
      ]

  resolve_rows-turns :
      (ts : List TaskRow) (p : Progress) {q : Progress}
      → resolve_rows pointer tenant_id run_id now ts p ≡ ok q
      → turns q ≤ turns p
  unfolding resolve_rows
  resolve_rows-turns [] p {q} h = ground arith
  resolve_rows-turns (t ∷ ts) p {q} h =
      let (r, first, rest) = >>=-eq-ok (resolve_row pointer tenant_id run_id now t p) _ h in
      let later = resolve_rows-turns ts r rest in
      elim (resolve_row-cases t p first) [
        | inl same ↦ rw same at later
        | inr (ready, moved) ↦ le_trans later (
            subst (λ (z : Progress). turns z ≤ turns p) (sym moved)
              (settle-turns tenant_id run_id now t.task_id ready p))
      ]

  abbrev Ends : ℕ → Progress → Type 0
  Ends fuel p =
      (r : StoreResult Progress) × (resolve_loop pointer tenant_id run_id now fuel p ≡ some r)

  -- The rows that one turn of the loop goes through.
  abbrev dependents : Progress → ℕ → List TaskRow
  dependents p completed =
      order_by_id (keep_where (is_dependent p.database tenant_id run_id completed) p.database.tasks)

  turn-Ends :
      (fuel : ℕ) (p : Progress) (completed : ℕ) (rest : List ℕ)
      → p.terminal_tasks ≡ completed ∷ rest
      → turns p < suc fuel
      → ((q : Progress) → turns q < fuel → Ends fuel q)
      → Ends (suc fuel) p
  unfolding resolve_loop
  turn-Ends fuel p completed rest e h ih =
      elim (StoreResult-cases (
        resolve_rows pointer tenant_id run_id now (dependents p completed)
          (record p { terminal_tasks = rest }))) [
            | inl (q, done) ↦
                let (r, ends) = ih q (
                  ground (
                    arith,
                    resolve_rows-turns (dependents p completed) (record p { terminal_tasks = rest })
                        done,
                  )) in
                (r, ground (arith, e, done, ends))
            | inr (x, failed) ↦ (err x, ground (arith, e, failed))
          ]

  -- Each turn of the loop uses up one of the turns left, so that many and one more are enough.
  pub resolve_loop-Ends : (fuel : ℕ) (p : Progress) → turns p < fuel → Ends fuel p
  unfolding resolve_loop
  resolve_loop-Ends zero p h = absurd (omega arith)
  resolve_loop-Ends (suc fuel) p h = elim (List-cases p.terminal_tasks) [
    | inl e ↦ (ok p, ground (arith, e))
    | inr (completed, rest, e) ↦ turn-Ends fuel p completed rest e h (resolve_loop-Ends fuel)
  ]

module _ {κ} (pointer : Value → String → Option Value) (tenant_id run_id now : ℕ)
    (P : Database → Type κ)
    (keep : (task_id : ℕ) (ready : Bool) (db : Database)
      → P db
      → P (settled_tables tenant_id run_id now task_id ready db)) where
  resolve_row-keeps :
      (t : TaskRow) (p : Progress) {q : Progress}
      → P p.database
      → resolve_row pointer tenant_id run_id now t p ≡ ok q
      → P q.database
  resolve_row-keeps t p {q} hp h = elim (resolve_row-cases pointer tenant_id run_id now t p h) [
    | inl same ↦ subst (λ (z : Progress). P z.database) (sym same) hp
    | inr (ready, moved) ↦
        subst (λ (z : Progress). P z.database) (sym moved)
          (subst P (sym (settle-database tenant_id run_id now t.task_id ready p))
            (keep t.task_id ready p.database hp))
  ]

  resolve_rows-keeps :
      (ts : List TaskRow) (p : Progress) {q : Progress}
      → P p.database
      → resolve_rows pointer tenant_id run_id now ts p ≡ ok q
      → P q.database
  unfolding resolve_rows
  resolve_rows-keeps [] p hp h = subst (λ (z : Progress). P z.database) (ok-eq h) hp
  resolve_rows-keeps (t ∷ ts) p hp h =
      let (r, first, rest) = >>=-eq-ok (resolve_row pointer tenant_id run_id now t p) _ h in
      resolve_rows-keeps ts r (resolve_row-keeps t p hp first) rest

  resolve_loop-keeps :
      (fuel : ℕ) (p : Progress) {q : Progress}
      → P p.database
      → resolve_loop pointer tenant_id run_id now fuel p ≡ some (ok q)
      → P q.database
  unfolding resolve_loop
  resolve_loop-keeps zero p hp h = cc
  resolve_loop-keeps (suc fuel) p {q} hp h = elim (List-cases p.terminal_tasks) [
    | inl e ↦ let same : p ≡ q = ground (arith, e) in subst (λ (z : Progress). P z.database) same hp
    | inr (completed, rest, e) ↦
        let popped : Progress = record p { terminal_tasks = rest } in
        let rows = dependents pointer tenant_id run_id now p completed in
        elim (StoreResult-cases (resolve_rows pointer tenant_id run_id now rows popped)) [
          | inl (r, done) ↦
              resolve_loop-keeps fuel r {q = q} (resolve_rows-keeps rows popped hp done)
                (ground (arith, e, done))
          | inr (x, failed) ↦ absurd (ground (arith, e, failed))
        ]
  ]

  -- What each change of a dependent task keeps, the whole resolution keeps.
  pub resolve-keeps :
      (db : Database) (task_id : ℕ) {resolved : Database} {activated : List ℕ}
      → P db
      → resolve_dependent_tasks pointer tenant_id run_id now db task_id
        ≡ some (ok (resolved, activated))
      → P resolved
  unfolding resolve_dependent_tasks
  resolve-keeps db task_id {resolved} {activated} hp h =
      let start : Progress = start_of db task_id in
      elim (Option-cases (resolve_loop pointer tenant_id run_id now (resolve_fuel db) start)) [
        | inl e ↦ absurd (ground (arith, e))
        | inr (m, e) ↦ elim (StoreResult-cases m) [
          | inl (q, ends) ↦
              let same : q.database ≡ resolved = ground (arith, e, ends) in
              subst P same
                (resolve_loop-keeps (resolve_fuel db) start {q = q} hp (ground (arith, e, ends)))
          | inr (x, failed) ↦ absurd (ground (arith, e, failed))
        ]
      ]

-- The resolution always has an answer: its fuel does not run out.
pub resolve-ends :
    (pointer : Value → String → Option Value) (tenant_id run_id now : ℕ) (db : Database)
    (task_id : ℕ)
    → (r : StoreResult (Database × List ℕ)) × (resolve_dependent_tasks pointer tenant_id run_id now
          db task_id
        ≡ some r)
unfolding resolve_dependent_tasks
resolve-ends pointer tenant_id run_id now db task_id =
    let (m, e) =
      resolve_loop-Ends pointer tenant_id run_id now (resolve_fuel db) (start_of db task_id)
        (omega arith) in
    elim (StoreResult-cases m) [
      | inl (q, done) ↦ (ok (q.database, q.activated), ground (arith, e, done))
      | inr (x, failed) ↦ (err x, ground (arith, e, failed))
    ]
