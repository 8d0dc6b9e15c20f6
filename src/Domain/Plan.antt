-- ===== src/Domain/Plan.antt =====
-- crates/domain/src/plan.rs: the plan a Run is made of, and its validation. A `LogicalKey` is a
-- number, since only its equality is used.
pub mod Chains
pub mod Reach
pub mod Laws
pub mod Cycles
pub mod Examples
use Prim.Native.String.{String}
use text.Mathlib.Text.{◌==◌ as str_eq, starts_with}
use agent_loom.Base.{
  ℕ, zero, suc, ◌+◌, Bool, true, false, ◌||◌, not, Option, none, some, List, [], ◌∷◌, ◌==◌,
  if◌then◌else◌, find_where, exists_where, is_some, length, Check, passed, refused, refuse_if, ◌&>◌,
  each, contains,
}
use agent_loom.Domain.Status.{StageStatus, TaskKind, JoinPolicy}
use agent_loom.Domain.Json.{Value}

pub data ExecutionPlanShapeError : Type 0 where
  unsupported_schema_version no_initial_tasks invalid_initial_stage_status incomplete_stage_assignee
        duplicate_stage_key zero_task_attempts duplicate_task_key unknown_task_stage
        task_stage_not_active unknown_dependency self_dependency duplicate_dependency
        dependency_cycle invalid_context_projection :
      ExecutionPlanShapeError

pub record TaskDependencySpec : Type 0 where
  pub task_key : ℕ
  pub condition : Value

-- `priority` counts from the least `i32`.
pub record ExecutionTaskSpec : Type 0 where
  pub logical_key : ℕ
  pub stage_key : Option ℕ
  pub handler_key : ℕ
  pub kind : TaskKind
  pub priority : ℕ
  pub max_attempts : ℕ
  pub input : Value
  pub dependencies : List TaskDependencySpec
  pub join_policy : JoinPolicy
  pub context_projection : List String

pub record ExecutionStageSpec : Type 0 where
  pub logical_key : ℕ
  pub initial_status : StageStatus
  pub assignee_kind : Option String
  pub assignee_ref : Option String
  pub input_contract : Value
  pub output_contract : Value
  pub policy : Value

pub record ExecutionPlan : Type 0 where
  pub schema_version : ℕ
  pub plan_key : ℕ
  pub stages : List ExecutionStageSpec
  pub initial_tasks : List ExecutionTaskSpec
  pub extension : Value

abbrev pub execution_plan_schema_version : ℕ
execution_plan_schema_version = 1

abbrev pub has_task_key : ℕ → ExecutionTaskSpec → Bool
has_task_key key task = task.logical_key == key

abbrev pub has_dependency_key : ℕ → TaskDependencySpec → Bool
has_dependency_key key dependency = dependency.task_key == key

abbrev pub has_stage_key : ℕ → ExecutionStageSpec → Bool
has_stage_key key stage = stage.logical_key == key

abbrev pub is_initial_status : StageStatus → Bool
is_initial_status StageStatus.planned = true
is_initial_status StageStatus.active = true
is_initial_status _ = false

abbrev pub is_active : StageStatus → Bool
is_active StageStatus.active = true
is_active _ = false

-- `a != b`.
abbrev pub differ : Bool → Bool → Bool
differ true b = not b
differ false b = b

-- The loop over the stages.
unfoldable pub check_stage :
    ExecutionStageSpec → List ExecutionStageSpec → Check ExecutionPlanShapeError
check_stage stage later =
    refuse_if (not (is_initial_status stage.initial_status))
      ExecutionPlanShapeError.invalid_initial_stage_status
    &> (refuse_if (differ (is_some stage.assignee_kind) (is_some stage.assignee_ref))
          ExecutionPlanShapeError.incomplete_stage_assignee
        &> refuse_if (exists_where (has_stage_key stage.logical_key) later)
            ExecutionPlanShapeError.duplicate_stage_key)

-- The stage that a task names.
unfoldable pub check_task_stage : List ExecutionStageSpec → Option ℕ → Check ExecutionPlanShapeError
check_task_stage stages none = passed
check_task_stage stages (some stage_key) = elim (find_where (has_stage_key stage_key) stages) [
  | none ↦ refused ExecutionPlanShapeError.unknown_task_stage
  | some stage ↦
      refuse_if (not (is_active stage.initial_status)) ExecutionPlanShapeError.task_stage_not_active
]

-- The loop over a task's dependencies.
unfoldable pub check_dependency :
    List ExecutionTaskSpec
    → ℕ
    → TaskDependencySpec
    → List TaskDependencySpec
    → Check ExecutionPlanShapeError
check_dependency tasks task_key dependency later =
    refuse_if (dependency.task_key == task_key) ExecutionPlanShapeError.self_dependency
    &> (refuse_if (not (exists_where (has_task_key dependency.task_key) tasks))
          ExecutionPlanShapeError.unknown_dependency
        &> refuse_if (exists_where (has_dependency_key dependency.task_key) later)
            ExecutionPlanShapeError.duplicate_dependency)

-- The loop over a task's context pointers.
unfoldable pub check_pointer : String → List String → Check ExecutionPlanShapeError
check_pointer pointer later =
    refuse_if (not (starts_with pointer "/") || exists_where (λ other. str_eq other pointer) later)
      ExecutionPlanShapeError.invalid_context_projection

-- The loop over the tasks.
unfoldable pub check_task :
    ExecutionPlan → ExecutionTaskSpec → List ExecutionTaskSpec → Check ExecutionPlanShapeError
unfolding check_task_stage check_dependency check_pointer
check_task plan task later =
    refuse_if (task.max_attempts == 0) ExecutionPlanShapeError.zero_task_attempts
    &> (refuse_if (exists_where (has_task_key task.logical_key) later)
          ExecutionPlanShapeError.duplicate_task_key
        &> (check_task_stage plan.stages task.stage_key
            &> (each (check_dependency plan.initial_tasks task.logical_key) task.dependencies
                &> each check_pointer task.context_projection)))

-- `any` over the dependencies of a task, with `next` for the recursive call. Like the two
-- functions below, `none` where the fuel ran out.
unfoldable pub any_dependency : (ℕ → Option Bool) → ℕ → List TaskDependencySpec → Option Bool
any_dependency next target [] = some false
any_dependency next target (dependency ∷ later) =
    if dependency.task_key == target then some true else elim (next dependency.task_key) [
      | none ↦ none
      | some true ↦ some true
      | some false ↦ any_dependency next target later
    ]

-- `dependency_reaches`: `visited` holds the tasks between the start and `current`.
unfoldable pub dependency_reaches : ℕ → List ExecutionTaskSpec → ℕ → ℕ → List ℕ → Option Bool
unfolding any_dependency
dependency_reaches zero tasks current target visited = none
dependency_reaches (suc fuel) tasks current target visited =
    if contains visited current
    then some false
    else elim (find_where (has_task_key current) tasks) [
      | none ↦ some false
      | some task ↦
          any_dependency (λ key. dependency_reaches fuel tasks key target (current ∷ visited))
            target task.dependencies
    ]

-- A call visits one task more than its caller did, so that one call more than there are tasks is
-- enough.
abbrev pub reach_fuel : List ExecutionTaskSpec → ℕ
reach_fuel tasks = length tasks + 1

-- `any` over the initial tasks.
unfoldable pub has_cycle : List ExecutionTaskSpec → List ExecutionTaskSpec → Option Bool
unfolding dependency_reaches
has_cycle tasks [] = some false
has_cycle tasks (task ∷ later) =
    elim (dependency_reaches (reach_fuel tasks) tasks task.logical_key task.logical_key []) [
      | none ↦ none
      | some true ↦ some true
      | some false ↦ has_cycle tasks later
    ]

-- The checks before the search for cycles.
unfoldable pub check_parts : ExecutionPlan → Check ExecutionPlanShapeError
unfolding check_stage check_task
check_parts plan =
    refuse_if (not (plan.schema_version == execution_plan_schema_version))
      ExecutionPlanShapeError.unsupported_schema_version
    &> (refuse_if (length plan.initial_tasks == 0) ExecutionPlanShapeError.no_initial_tasks
        &> (each check_stage plan.stages &> each (check_task plan) plan.initial_tasks))

-- `ExecutionPlan::validate_shape`.
unfoldable pub validate_shape : ExecutionPlan → Option (Check ExecutionPlanShapeError)
unfolding check_parts has_cycle
validate_shape plan = elim (check_parts plan) [
  | refused e ↦ some (refused e)
  | passed ↦ elim (has_cycle plan.initial_tasks plan.initial_tasks) [
    | none ↦ none
    | some true ↦ some (refused ExecutionPlanShapeError.dependency_cycle)
    | some false ↦ some passed
  ]
]
