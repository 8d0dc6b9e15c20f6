-- ===== src/Domain/Plan/Laws.antt =====
-- plan.rs: what a valid plan is, said without the order of the checks, and that `validate_shape`
-- accepts the valid plans alone.
use Prim.Native.String.{String}
use text.Mathlib.Text.{◌==◌ as str_eq, starts_with}
use text.Mathlib.TextEquality.{eq_iff}
use agent_loom.Base.{
  ℕ, ◌<◌, ◌≡◌, ◌≢◌, refl, ◌⊎◌, ◌↔◌, inl, inr, Bool, true, false, ◌||◌, not, Option, none, some,
  List, ◌==◌, arith, find_where, exists_where, length, is_some, All, Any, exists_where-All,
  exists_where-Any, passed, Each, refuse_if-passed, &>-passed, each-passed, Bool-cases,
  Option-cases, some-eq,
}
use agent_loom.Domain.Status.{StageStatus}
use agent_loom.Domain.Plan.{
  ExecutionPlan, ExecutionStageSpec, ExecutionTaskSpec, TaskDependencySpec, has_stage_key,
  is_initial_status, is_active, differ, check_stage, check_task_stage, check_dependency,
  check_pointer, check_task, check_parts,
}
use agent_loom.Domain.Plan.Chains.{DependsOn}

-- A stage starts planned or active, has both parts of an assignee or none, and its key is not the
-- key of a later stage.
abbrev StageIsShaped : ExecutionStageSpec → List ExecutionStageSpec → Type 0
StageIsShaped stage later =
    ((stage.initial_status ≡ StageStatus.planned) ⊎ (stage.initial_status ≡ StageStatus.active))
    × ((is_some stage.assignee_kind ≡ is_some stage.assignee_ref)
        × All (λ (other : ExecutionStageSpec). other.logical_key ≢ stage.logical_key) later)

-- The stage that a task names, if it names one, is active.
abbrev StageIsActive : List ExecutionStageSpec → Option ℕ → Type 0
StageIsActive stages none = Unit
StageIsActive stages (some key) =
    (stage : ExecutionStageSpec) × (find_where (has_stage_key key) stages ≡ some stage)
    × (stage.initial_status ≡ StageStatus.active)

-- A task depends on other tasks of the plan, on each of them once.
abbrev DependencyIsShaped :
    List ExecutionTaskSpec → ℕ → TaskDependencySpec → List TaskDependencySpec → Type 0
DependencyIsShaped tasks key dependency later =
    (dependency.task_key ≢ key)
    × (Any (λ (task : ExecutionTaskSpec). task.logical_key ≡ dependency.task_key) tasks
        × All (λ (other : TaskDependencySpec). other.task_key ≢ dependency.task_key) later)

-- A pointer starts with a slash and occurs once.
abbrev PointerIsShaped : String → List String → Type 0
PointerIsShaped pointer later =
    (starts_with pointer "/" ≡ true) × All (λ (other : String). other ≢ pointer) later

abbrev TaskIsShaped : ExecutionPlan → ExecutionTaskSpec → List ExecutionTaskSpec → Type 0
TaskIsShaped plan task later =
    (0 < task.max_attempts)
    × (All (λ (other : ExecutionTaskSpec). other.logical_key ≢ task.logical_key) later
        × (StageIsActive plan.stages task.stage_key
            × (Each (DependencyIsShaped plan.initial_tasks task.logical_key) task.dependencies
                × Each PointerIsShaped task.context_projection)))

-- The parts of a plan are valid, each for itself.
abbrev pub PartsAreShaped : ExecutionPlan → Type 0
PartsAreShaped plan =
    (plan.schema_version ≡ 1)
    × ((0 < length plan.initial_tasks)
        × (Each StageIsShaped plan.stages × Each (TaskIsShaped plan) plan.initial_tasks))

-- A task depends on itself, directly or through others.
abbrev pub HasCycle : ExecutionPlan → Type 0
HasCycle plan = (key : ℕ) × DependsOn plan.initial_tasks key key

-- The keys a loop finds in the rest of a list.
keys_differ {ℓ} :
    {A : Type ℓ} (k : A → ℕ) (key : ℕ) (xs : List A)
    → (exists_where (λ x. k x == key) xs ≡ false) ↔ All (λ x. k x ≢ key) xs
keys_differ k key xs =
    exists_where-All (λ x. k x ≢ key) (λ x. k x == key) xs
      (λ x. (λ e same. ground arith, λ apart. ground arith))

initial_status_iff :
    (status : StageStatus)
    → (not (is_initial_status status) ≡ false)
      ↔ ((status ≡ StageStatus.planned) ⊎ (status ≡ StageStatus.active))
initial_status_iff StageStatus.planned = (λ e. inl refl, λ h. refl)
initial_status_iff StageStatus.active = (λ e. inr refl, λ h. refl)
initial_status_iff StageStatus.waiting_approval = (λ e. absurd cc, λ h. absurd (ground arith))
initial_status_iff StageStatus.rework_required = (λ e. absurd cc, λ h. absurd (ground arith))
initial_status_iff StageStatus.succeeded = (λ e. absurd cc, λ h. absurd (ground arith))
initial_status_iff StageStatus.failed = (λ e. absurd cc, λ h. absurd (ground arith))
initial_status_iff StageStatus.skipped = (λ e. absurd cc, λ h. absurd (ground arith))
initial_status_iff StageStatus.cancelled = (λ e. absurd cc, λ h. absurd (ground arith))

active_iff :
    (status : StageStatus) → (not (is_active status) ≡ false) ↔ (status ≡ StageStatus.active)
active_iff status = (λ e. ground arith, λ h. ground arith)

differ_iff : (a b : Bool) → (differ a b ≡ false) ↔ (a ≡ b)
differ_iff a b = (λ e. ground arith, λ h. ground arith)

check_stage-passed :
    (stage : ExecutionStageSpec) (later : List ExecutionStageSpec)
    → (check_stage stage later ≡ passed) ↔ StageIsShaped stage later
unfolding check_stage
check_stage-passed stage later =
    &>-passed _ _ (refuse_if-passed _ _ (initial_status_iff stage.initial_status)) (
      &>-passed _ _ (refuse_if-passed _ _ (differ_iff _ _))
        (refuse_if-passed _ _ (keys_differ (λ (s : ExecutionStageSpec). s.logical_key) _ later)))

check_task_stage-passed :
    (stages : List ExecutionStageSpec) (key : Option ℕ)
    → (check_task_stage stages key ≡ passed) ↔ StageIsActive stages key
unfolding check_task_stage
check_task_stage-passed stages none = (λ e. tt, λ h. refl)
check_task_stage-passed stages (some key) =
    elim (Option-cases (find_where (has_stage_key key) stages)) [
      | inl missing ↦ (
        λ e. absurd (let bad = rw (missing, check_task_stage) at e in cc),
        λ h. absurd (let bad = h.1 in cc),
      )
      | inr (stage, found) ↦
          rw (found, check_task_stage)
            ((
              λ e. (stage, refl, (refuse_if-passed _ _ (active_iff stage.initial_status)).0 e),
              λ h.
                  let same = some-eq stage h.0 h.1 in
                  (refuse_if-passed _ _ (active_iff stage.initial_status)).1 (rw same h.2),
            ))
    ]

==_iff : (a b : ℕ) → ((a == b) ≡ true) ↔ (a ≡ b)
==_iff a b = (λ e. ground arith, λ h. ground arith)

==_apart : (a b : ℕ) → ((a == b) ≡ false) ↔ (a ≢ b)
==_apart a b = (λ e same. ground arith, λ h. ground arith)

positive_iff : (n : ℕ) → ((n == 0) ≡ false) ↔ (0 < n)
positive_iff n = (λ e. ground arith, λ h. ground arith)

not-false_iff {ℓ} : {P : Type ℓ} (b : Bool) → (b ≡ true) ↔ P → (not b ≡ false) ↔ P
not-false_iff true h = (λ e. h.0 refl, λ p. refl)
not-false_iff false h = (λ e. absurd cc, λ p. absurd (let bad = h.1 p in cc))

check_dependency-passed :
    (tasks : List ExecutionTaskSpec) (key : ℕ) (d : TaskDependencySpec)
    (later : List TaskDependencySpec)
    → (check_dependency tasks key d later ≡ passed) ↔ DependencyIsShaped tasks key d later
unfolding check_dependency
check_dependency-passed tasks key d later =
    &>-passed _ _ (refuse_if-passed _ _ (==_apart d.task_key key)) (
      &>-passed _ _
        (refuse_if-passed _ _
          (not-false_iff _ (exists_where-Any _ _ tasks (λ t. ==_iff t.logical_key d.task_key))))
        (refuse_if-passed _ _ (keys_differ (λ (s : TaskDependencySpec). s.task_key) _ later)))

or_false_iff {ℓ κ} :
    {P : Type ℓ} {Q : Type κ} (a b : Bool)
    → (a ≡ false) ↔ P
    → (b ≡ false) ↔ Q
    → ((a || b) ≡ false) ↔ (P × Q)
or_false_iff true b hp hq = (λ e. absurd cc, λ pq. absurd (let bad = hp.1 pq.0 in cc))
or_false_iff false b hp hq = (λ e. (hp.0 refl, hq.0 e), λ pq. hq.1 pq.1)

strings_apart : (a b : String) → (str_eq a b ≡ false) ↔ (a ≢ b)
strings_apart a b = (
  λ e same. absurd (let equal = (eq_iff a b).1 same in cc),
  λ apart. elim (Bool-cases (str_eq a b)) [
    | inl equal ↦ absurd (apart ((eq_iff a b).0 equal))
    | inr other ↦ other
  ],
)

check_pointer-passed :
    (pointer : String) (later : List String)
    → (check_pointer pointer later ≡ passed) ↔ PointerIsShaped pointer later
unfolding check_pointer
check_pointer-passed pointer later = refuse_if-passed _ _ (
    or_false_iff _ _ (not-false_iff _ (λ e. e, λ h. h))
      (exists_where-All _ _ later (λ other. strings_apart other pointer)))

check_task-passed :
    (plan : ExecutionPlan) (task : ExecutionTaskSpec) (later : List ExecutionTaskSpec)
    → (check_task plan task later ≡ passed) ↔ TaskIsShaped plan task later
unfolding check_task
check_task-passed plan task later =
    &>-passed _ _ (refuse_if-passed _ _ (positive_iff task.max_attempts)) (
      &>-passed _ _
        (refuse_if-passed _ _ (keys_differ (λ (t : ExecutionTaskSpec). t.logical_key) _ later))
        (&>-passed _ _ (check_task_stage-passed plan.stages task.stage_key) (
          &>-passed _ _
            (each-passed _ _ task.dependencies
              (check_dependency-passed plan.initial_tasks task.logical_key))
            (each-passed _ _ task.context_projection check_pointer-passed))))

pub check_parts-passed : (plan : ExecutionPlan) → (check_parts plan ≡ passed) ↔ PartsAreShaped plan
unfolding check_parts
check_parts-passed plan =
    &>-passed _ _ (refuse_if-passed _ _ (not-false_iff _ (==_iff plan.schema_version 1))) (
      &>-passed _ _ (refuse_if-passed _ _ (positive_iff (length plan.initial_tasks))) (
        &>-passed _ _ (each-passed _ _ plan.stages check_stage-passed)
          (each-passed _ _ plan.initial_tasks (check_task-passed plan))))
