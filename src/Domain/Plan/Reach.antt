-- ===== src/Domain/Plan/Reach.antt =====
-- plan.rs: that `dependency_reaches` ends and decides what depends on what.
use agent_loom.Base.{
  ℕ, zero, suc, ◌≤◌, ◌<◌, ◌≡◌, refl, sym, ◌⊎◌, ◌↔◌, inl, inr, Bool, true, false, not, Option, some,
  List, [], ◌∷◌, ◌==◌, arith, find_where, exists_where, count_where, length, contains, Bool-cases,
  Option-cases, ==→eq, ==-refl, some-eq,
}
use agent_loom.Domain.Plan.{
  ExecutionTaskSpec, TaskDependencySpec, has_task_key, has_dependency_key, any_dependency,
  dependency_reaches, reach_fuel,
}
use agent_loom.Domain.Plan.Chains.{Needs, DependsOn, direct, through, IsSimple, IsSimple-chain}

module _ (next : ℕ → Option Bool) (target : ℕ) where
  any_dependency-true :
      (ds : List TaskDependencySpec)
      → any_dependency next target ds ≡ some true
      → (key : ℕ) × (exists_where (has_dependency_key key) ds ≡ true)
        × ((key ≡ target) ⊎ (next key ≡ some true))
  unfolding any_dependency exists_where
  any_dependency-true [] h = absurd cc
  any_dependency-true (d ∷ ds) h = elim (Bool-cases (d.task_key == target)) [
    | inl e ↦ (d.task_key, rw (==-refl d.task_key), inl (==→eq d.task_key target e))
    | inr e ↦ elim (Option-cases (next d.task_key)) [
      | inl ended ↦ absurd (let bad = rw (e, ended) at h in cc)
      | inr (true, found) ↦ (d.task_key, rw (==-refl d.task_key), inr found)
      | inr (false, found) ↦
          let (key, has, reached) = any_dependency-true ds (rw (e, found) at h) in
          (key, ground (arith, has), reached)
    ]
  ]

  -- A dependency that would be found is found, whichever come before it.
  any_dependency-found :
      (ds : List TaskDependencySpec) {key : ℕ} {b : Bool}
      → exists_where (has_dependency_key key) ds ≡ true
      → (key ≡ target) ⊎ ((c : Bool) → next key ≡ some c → c ≡ true)
      → any_dependency next target ds ≡ some b
      → b ≡ true
  unfolding any_dependency exists_where
  any_dependency-found [] has reached h = absurd cc
  any_dependency-found (d ∷ ds) {key} {b} has reached h = elim (Bool-cases (d.task_key == target)) [
    | inl e ↦ sym (some-eq true b (rw e at h))
    | inr e ↦ elim (Option-cases (next d.task_key)) [
      | inl ended ↦ absurd (let bad = rw (e, ended) at h in cc)
      | inr (true, found) ↦ sym (some-eq true b (rw (e, found) at h))
      | inr (false, found) ↦ elim (Bool-cases (d.task_key == key)) [
        | inl same ↦
            let here : d.task_key ≡ key = ==→eq d.task_key key same in
            elim reached [
              | inl aim ↦ absurd (ground arith)
              | inr finds ↦ absurd (let bad = finds false (rw here at found) in cc)
            ]
        | inr other ↦ any_dependency-found ds (rw other at has) reached (rw (e, found) at h)
      ]
    ]
  ]

  -- The search ends if it does for every dependency.
  any_dependency-ends :
      (ds : List TaskDependencySpec)
      → ((key : ℕ) → (b : Bool) × (next key ≡ some b))
      → (b : Bool) × (any_dependency next target ds ≡ some b)
  unfolding any_dependency
  any_dependency-ends [] h = (false, refl)
  any_dependency-ends (d ∷ ds) h = elim (Bool-cases (d.task_key == target)) [
    | inl e ↦ (true, rw e)
    | inr e ↦
        let (b, found) = h d.task_key in
        elim (Bool-cases b) [
          | inl hit ↦ (true, rw (e, found, hit))
          | inr miss ↦ let (c, later) = any_dependency-ends ds h in (c, rw (e, found, miss, later))
        ]
  ]

module _ (tasks : List ExecutionTaskSpec) (target : ℕ) where
  -- What the search finds is there.
  pub dependency_reaches_sound :
      (fuel current : ℕ) (visited : List ℕ)
      → dependency_reaches fuel tasks current target visited ≡ some true
      → DependsOn tasks current target
  unfolding dependency_reaches
  dependency_reaches_sound zero current visited h = absurd cc
  dependency_reaches_sound (suc fuel) current visited h =
      elim (Bool-cases (contains visited current)) [
        | inl seen ↦ absurd (let bad = rw seen at h in cc)
        | inr fresh ↦ elim (Option-cases (find_where (has_task_key current) tasks)) [
          | inl missing ↦ absurd (let bad = rw (fresh, missing) at h in cc)
          | inr (task, found) ↦
              let next =
                λ (key : ℕ). dependency_reaches fuel tasks key target (current ∷ visited) in
              let (key, has, reached) =
                any_dependency-true next target task.dependencies (rw (fresh, found) at h) in
              let need : Needs tasks current key = (task, found, has) in
              elim reached [
                | inl same ↦ direct (rw same at need)
                | inr later ↦
                    through need (dependency_reaches_sound fuel key (current ∷ visited) later)
              ]
        ]
      ]

  -- A simple chain off the visited tasks is found.
  dependency_reaches-chain :
      (fuel current : ℕ) (visited via : List ℕ) {b : Bool}
      → IsSimple tasks current target via
      → ((key : ℕ) → contains (current ∷ via) key ≡ true → contains visited key ≡ false)
      → dependency_reaches fuel tasks current target visited ≡ some b
      → b ≡ true
  unfolding dependency_reaches contains
  dependency_reaches-chain zero current visited via chain off h = absurd cc
  dependency_reaches-chain (suc fuel) current visited [] chain off h =
      let (task, found, has) = chain.0 in
      let fresh : contains visited current ≡ false = off current (rw (==-refl current)) in
      any_dependency-found
        (λ (key : ℕ). dependency_reaches fuel tasks key target (current ∷ visited)) target
        task.dependencies has (inl refl) (rw (fresh, found) at h)
  dependency_reaches-chain (suc fuel) current visited (m ∷ via) chain off h =
      let (task, found, has) = chain.0.0 in
      let fresh : contains visited current ≡ false = off current (rw (==-refl current)) in
      any_dependency-found
        (λ (key : ℕ). dependency_reaches fuel tasks key target (current ∷ visited)) target
        task.dependencies has
        (inr (λ c reached.
          dependency_reaches-chain fuel m (current ∷ visited) via (chain.0.1, chain.1.1)
            (λ key on. elim (Bool-cases (current == key)) [
              | inl e ↦ absurd (let same = ==→eq current key e in let apart = chain.1.0 in cc)
              | inr e ↦ rw e (off key (rw e on))
            ])
            reached))
        (rw (fresh, found) at h)

abbrev unvisited : List ℕ → List ExecutionTaskSpec → ℕ
unvisited visited =
    count_where (λ (task : ExecutionTaskSpec). not (contains visited task.logical_key))

unvisited-le :
    (current : ℕ) (visited : List ℕ) (tasks : List ExecutionTaskSpec)
    → unvisited (current ∷ visited) tasks ≤ unvisited visited tasks
unfolding count_where contains
unvisited-le current visited [] = omega arith
unvisited-le current visited (task ∷ tasks) = ground (arith, unvisited-le current visited tasks)

-- A visit leaves a task less.
unvisited-lt :
    (current : ℕ) (visited : List ℕ) (tasks : List ExecutionTaskSpec) {task : ExecutionTaskSpec}
    → contains visited current ≡ false
    → find_where (has_task_key current) tasks ≡ some task
    → unvisited (current ∷ visited) tasks < unvisited visited tasks
unfolding count_where contains find_where
unvisited-lt current visited [] fresh found = absurd cc
unvisited-lt current visited (task ∷ tasks) fresh found =
    elim (Bool-cases (task.logical_key == current)) [
      | inl e ↦
          let same : task.logical_key ≡ current = ==→eq task.logical_key current e in
          rw (same, fresh, ==-refl current)
            (let less = unvisited-le current visited tasks in omega arith)
      | inr e ↦ let less = unvisited-lt current visited tasks fresh (rw e at found) in ground arith
    ]

module _ (tasks : List ExecutionTaskSpec) (target : ℕ) where
  pub dependency_reaches-ends :
      (fuel current : ℕ) (visited : List ℕ)
      → unvisited visited tasks < fuel
      → (b : Bool) × (dependency_reaches fuel tasks current target visited ≡ some b)
  unfolding dependency_reaches
  dependency_reaches-ends zero current visited enough = absurd (omega arith)
  dependency_reaches-ends (suc fuel) current visited enough =
      elim (Bool-cases (contains visited current)) [
        | inl seen ↦ (false, rw seen)
        | inr fresh ↦ elim (Option-cases (find_where (has_task_key current) tasks)) [
          | inl missing ↦ (false, rw (fresh, missing))
          | inr (task, found) ↦
              let less = unvisited-lt current visited tasks fresh found in
              rw (fresh, found)
                (any_dependency-ends
                  (λ (key : ℕ). dependency_reaches fuel tasks key target (current ∷ visited)) target
                  task.dependencies
                  (λ key. dependency_reaches-ends fuel key (current ∷ visited) (omega arith)))
        ]
      ]

unvisited-length : (tasks : List ExecutionTaskSpec) → unvisited [] tasks ≤ length tasks
unfolding count_where contains
unvisited-length [] = omega arith
unvisited-length (task ∷ tasks) = ground (arith, unvisited-length tasks)

-- The search of dependencies ends within its fuel, and finds `target` from `current` if and only if
-- `current` depends on it, directly or through other tasks.
pub dependency_reaches-decides :
    (tasks : List ExecutionTaskSpec) (current target : ℕ)
    → (b : Bool) × (dependency_reaches (reach_fuel tasks) tasks current target [] ≡ some b)
      × ((b ≡ true) ↔ DependsOn tasks current target)
unfolding contains
dependency_reaches-decides tasks current target =
    let fuel = reach_fuel tasks in
    let bound = unvisited-length tasks in
    let (b, found) = dependency_reaches-ends tasks target fuel current [] (omega arith) in
    (
      b,
      found,
      (
        λ e. dependency_reaches_sound tasks target fuel current [] (rw e at found),
        λ depends.
            let (via, chain) = IsSimple-chain tasks depends in
            dependency_reaches-chain tasks target fuel current [] via chain (λ key on. refl) found,
      ),
    )
