-- ===== src/Domain/Plan/Cycles.antt =====
-- plan.rs: that the search of `validate_shape` finds the cycles, and what `validate_shape` answers.
use Prim.Native.String.{String}
use agent_loom.Base.{
  ℕ, ◌≡◌, refl, ◌⊎◌, ◌↔◌, inl, inr, Bool, true, false, Option, none, some, List, [], ◌∷◌, ◌==◌,
  arith, find_where, not, Any, Check, passed, refused, refuse_if, each, Bool-cases, Option-cases,
  ==→eq,
}
use agent_loom.Domain.Plan.{
  ExecutionPlan, ExecutionStageSpec, ExecutionTaskSpec, TaskDependencySpec, ExecutionPlanShapeError,
  has_stage_key, has_task_key, is_active, check_stage, check_task_stage, check_dependency,
  check_pointer, check_task, check_parts, has_cycle, validate_shape,
}
use agent_loom.Domain.Plan.Chains.{DependsOn, direct, through}
use agent_loom.Domain.Plan.Reach.{dependency_reaches-decides}
use agent_loom.Domain.Plan.Laws.{PartsAreShaped, HasCycle, check_parts-passed}

-- The search goes on while no task reaches itself, and a cycle is found at each of its tasks.
has_cycle-decides :
    (tasks later : List ExecutionTaskSpec)
    → (b : Bool) × (has_cycle tasks later ≡ some b)
      × ((b ≡ true)
          ↔ Any
              (λ (task : ExecutionTaskSpec). DependsOn tasks task.logical_key task.logical_key)
              later)
unfolding has_cycle
has_cycle-decides tasks [] = (false, refl, (λ e. absurd cc, λ no_task. absurd no_task))
has_cycle-decides tasks (task ∷ later) =
    let (b, found, decides) = dependency_reaches-decides tasks task.logical_key task.logical_key in
    elim (Bool-cases b) [
      | inl e ↦ (true, rw (has_cycle, found, e), (λ same. inl (decides.0 e), λ has. refl))
      | inr e ↦
          let (c, rest, others) = has_cycle-decides tasks later in
          (
            c,
            rw (has_cycle, found, e, rest),
            (
              λ same. inr (others.0 same),
              λ has. elim has [
                | inl here ↦ absurd (let bad = decides.1 here in cc)
                | inr there ↦ others.1 there
              ],
            ),
          )
    ]

Any-find :
    (P : ℕ → Type 0) (ts : List ExecutionTaskSpec) {key : ℕ} {task : ExecutionTaskSpec}
    → find_where (has_task_key key) ts ≡ some task
    → P key
    → Any (λ (t : ExecutionTaskSpec). P t.logical_key) ts
unfolding find_where
Any-find P [] found has = absurd cc
Any-find P (t ∷ ts) {key} found has = elim (Bool-cases (t.logical_key == key)) [
  | inl e ↦ let same = ==→eq t.logical_key key e in inl (rw same has)
  | inr e ↦ inr (Any-find P ts (rw e at found) has)
]

Any-witness :
    (P : ℕ → Type 0) (ts : List ExecutionTaskSpec)
    → Any (λ (t : ExecutionTaskSpec). P t.logical_key) ts
    → (key : ℕ) × P key
Any-witness P [] has = absurd has
Any-witness P (t ∷ ts) (inl here) = (t.logical_key, here)
Any-witness P (t ∷ ts) (inr there) = Any-witness P ts there

-- A task that depends on anything is one of the plan's.
DependsOn-find :
    (tasks : List ExecutionTaskSpec) {k d : ℕ}
    → DependsOn tasks k d
    → (task : ExecutionTaskSpec) × (find_where (has_task_key k) tasks ≡ some task)
DependsOn-find tasks (direct need) = (need.0, need.1)
DependsOn-find tasks (through need later) = (need.0, need.1)

plan_cycles :
    (plan : ExecutionPlan)
    → (b : Bool) × (has_cycle plan.initial_tasks plan.initial_tasks ≡ some b)
      × ((b ≡ true) ↔ HasCycle plan)
plan_cycles plan =
    let tasks = plan.initial_tasks in
    let loops = λ (key : ℕ). DependsOn tasks key key in
    let (b, found, decides) = has_cycle-decides tasks tasks in
    (
      b,
      found,
      (
        λ e. Any-witness loops tasks (decides.0 e),
        λ cycle. decides.1 (Any-find loops tasks (DependsOn-find tasks cycle.1).1 cycle.1),
      ),
    )

-- What a check refuses with, if it refuses.
abbrev RefusesWith : (ExecutionPlanShapeError → Type 0) → Check ExecutionPlanShapeError → Type 0
RefusesWith P check = (e : ExecutionPlanShapeError) → check ≡ refused e → P e

module _ (P : ExecutionPlanShapeError → Type 0) where
  RefusesWith-refuse_if :
      (bad : Bool) (e : ExecutionPlanShapeError) → P e → RefusesWith P (refuse_if bad e)
  RefusesWith-refuse_if true e has f h = let same : e ≡ f = cc in rw same at has
  RefusesWith-refuse_if false e has f h = absurd cc

  RefusesWith-each {ℓ} :
      {A : Type ℓ} (check : A → List A → Check ExecutionPlanShapeError) (xs : List A)
      → ((x : A) (rest : List A) → RefusesWith P (check x rest))
      → RefusesWith P (each check xs)
  unfolding each
  RefusesWith-each check [] h f bad = absurd cc
  RefusesWith-each check (x ∷ xs) h f bad =
      let here = h x xs f in let later = RefusesWith-each check xs h f in ground arith

abbrev is_other : ExecutionPlanShapeError → Bool
is_other ExecutionPlanShapeError.dependency_cycle = false
is_other _ = true

abbrev IsOther : ExecutionPlanShapeError → Type 0
IsOther e = is_other e ≡ true

check_task_stage-IsOther :
    (stages : List ExecutionStageSpec) (key : Option ℕ)
    → RefusesWith IsOther (check_task_stage stages key)
unfolding check_task_stage
check_task_stage-IsOther stages none e h = absurd cc
check_task_stage-IsOther stages (some key) e h =
    elim (Option-cases (find_where (has_stage_key key) stages)) [
      | inl missing ↦ let same = rw (check_task_stage, missing) at h in ground arith
      | inr (stage, found) ↦
          RefusesWith-refuse_if IsOther (not (is_active stage.initial_status))
            ExecutionPlanShapeError.task_stage_not_active refl e (rw (check_task_stage, found) at h)
    ]

check_dependency-IsOther :
    (tasks : List ExecutionTaskSpec) (key : ℕ) (d : TaskDependencySpec)
    (later : List TaskDependencySpec)
    → RefusesWith IsOther (check_dependency tasks key d later)
unfolding check_dependency
check_dependency-IsOther tasks key d later e h = ground arith

check_pointer-IsOther :
    (pointer : String) (later : List String) → RefusesWith IsOther (check_pointer pointer later)
unfolding check_pointer
check_pointer-IsOther pointer later e h = ground arith

check_stage-IsOther :
    (stage : ExecutionStageSpec) (later : List ExecutionStageSpec)
    → RefusesWith IsOther (check_stage stage later)
unfolding check_stage
check_stage-IsOther stage later e h = ground arith

check_task-IsOther :
    (plan : ExecutionPlan) (task : ExecutionTaskSpec) (later : List ExecutionTaskSpec)
    → RefusesWith IsOther (check_task plan task later)
unfolding check_task
check_task-IsOther plan task later e h =
    let names = check_dependency-IsOther plan.initial_tasks task.logical_key in
    let stage = check_task_stage-IsOther plan.stages task.stage_key e in
    let dependencies = RefusesWith-each IsOther _ task.dependencies names e in
    let pointers = RefusesWith-each IsOther _ task.context_projection check_pointer-IsOther e in
    ground arith

check_parts-IsOther : (plan : ExecutionPlan) → RefusesWith IsOther (check_parts plan)
unfolding check_parts
check_parts-IsOther plan e h =
    let stages = RefusesWith-each IsOther _ plan.stages check_stage-IsOther e in
    let tasks = RefusesWith-each IsOther _ plan.initial_tasks (check_task-IsOther plan) e in
    ground arith

Check-cases {ℓ} : {E : Type ℓ} (c : Check E) → (c ≡ passed) ⊎ ((e : E) × (c ≡ refused e))
Check-cases passed = inl refl
Check-cases (refused e) = inr (e, refl)

-- The validation of a plan ends within the fuel of its search. The plan is accepted if and only if
-- each of its parts is valid and no task depends on itself, directly or through other tasks; it is
-- refused for a cycle if and only if each part is valid and some task does depend on itself.
pub validate_shape-decides :
    (plan : ExecutionPlan)
    → (answer : Check ExecutionPlanShapeError) × (validate_shape plan ≡ some answer)
      × ((answer ≡ passed) ↔ (PartsAreShaped plan × (¬ HasCycle plan)))
      × ((answer ≡ refused ExecutionPlanShapeError.dependency_cycle)
          ↔ (PartsAreShaped plan × HasCycle plan))
unfolding validate_shape
validate_shape-decides plan =
    let parts = check_parts-passed plan in
    let (b, found, cycles) = plan_cycles plan in
    elim (Check-cases (check_parts plan)) [
      | inr (e, bad) ↦
          let other : IsOther e = check_parts-IsOther plan e bad in
          (
            refused e,
            rw (validate_shape, bad),
            (λ same. absurd cc, λ h. absurd (let good = parts.1 h.0 in cc)),
            (λ same. absurd (ground arith), λ h. absurd (let good = parts.1 h.0 in cc)),
          )
      | inl good ↦ elim (Bool-cases b) [
        | inl e ↦ (
          refused ExecutionPlanShapeError.dependency_cycle,
          rw (validate_shape, good, found, e),
          (λ same. absurd cc, λ h. absurd (h.1 (cycles.0 e))),
          (λ same. (parts.0 good, cycles.0 e), λ h. refl),
        )
        | inr e ↦ (
          passed,
          rw (validate_shape, good, found, e),
          (λ same. (parts.0 good, λ cycle. absurd (let bad = cycles.1 cycle in cc)), λ h. refl),
          (λ same. absurd cc, λ h. absurd (let bad = cycles.1 h.1 in cc)),
        )
      ]
    ]
