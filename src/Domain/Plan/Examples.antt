-- ===== src/Domain/Plan/Examples.antt =====
-- Plans on which the validation is run, and the witnesses of its theorems.
use agent_loom.Base.{
  ℕ, ◌≡◌, refl, ◌↔◌, Bool, true, none, some, List, [], ◌∷◌, Check, passed, refused, find_where,
  exists_where, each, contains,
}
use agent_loom.Domain.Status.{StageStatus, TaskKind, JoinPolicy}
use agent_loom.Domain.Json.{null}
use agent_loom.Domain.Plan.{
  ExecutionPlan, ExecutionTaskSpec, TaskDependencySpec, ExecutionPlanShapeError, check_stage,
  check_task_stage, check_dependency, check_pointer, check_task, check_parts, any_dependency,
  dependency_reaches, reach_fuel, has_cycle, validate_shape,
}
use agent_loom.Domain.Plan.Laws.{PartsAreShaped, HasCycle}
use agent_loom.Domain.Plan.Chains.{DependsOn}
use agent_loom.Domain.Plan.Reach.{dependency_reaches-decides}
use agent_loom.Domain.Plan.Cycles.{validate_shape-decides}

abbrev needs : ℕ → TaskDependencySpec
needs key = record { task_key = key; condition = null }

abbrev task_of : ℕ → List TaskDependencySpec → ExecutionTaskSpec
task_of key dependencies = record {
  logical_key = key;
  stage_key = some 7;
  handler_key = 40;
  kind = TaskKind.model;
  priority = 0;
  max_attempts = 3;
  input = null;
  dependencies = dependencies;
  join_policy = JoinPolicy.all;
  context_projection = "/goal" ∷ "/notes" ∷ [];
}

abbrev plan_of : List ExecutionTaskSpec → ExecutionPlan
plan_of tasks = record {
  schema_version = 1;
  plan_key = 1;
  stages =
      record {
        logical_key = 7;
        initial_status = StageStatus.active;
        assignee_kind = none;
        assignee_ref = none;
        input_contract = null;
        output_contract = null;
        policy = null;
      }
      ∷ [];
  initial_tasks = tasks;
  extension = null;
}

-- Two tasks after the first, and one that joins them.
abbrev diamond : ExecutionPlan
diamond = plan_of (
    task_of 1 []
    ∷ task_of 2 (needs 1 ∷ [])
    ∷ task_of 3 (needs 1 ∷ [])
    ∷ task_of 4 (needs 2 ∷ needs 3 ∷ [])
    ∷ [])

-- Three tasks that wait for each other.
abbrev circle : ExecutionPlan
circle =
    plan_of (task_of 1 (needs 2 ∷ []) ∷ task_of 2 (needs 3 ∷ []) ∷ task_of 3 (needs 1 ∷ []) ∷ [])

diamond_passes : validate_shape diamond ≡ some passed
unfolding validate_shape check_parts check_stage check_task check_task_stage check_dependency
    check_pointer has_cycle dependency_reaches any_dependency each contains find_where exists_where
diamond_passes = refl

circle_refused : validate_shape circle ≡ some (refused ExecutionPlanShapeError.dependency_cycle)
unfolding validate_shape check_parts check_stage check_task check_task_stage check_dependency
    check_pointer has_cycle dependency_reaches any_dependency each contains find_where exists_where
circle_refused = refl

-- A task that names itself is refused before the search.
self_refused :
    validate_shape (plan_of (task_of 1 (needs 1 ∷ []) ∷ []))
    ≡ some (refused ExecutionPlanShapeError.self_dependency)
unfolding validate_shape check_parts check_stage check_task check_task_stage check_dependency
    check_pointer has_cycle dependency_reaches any_dependency each contains find_where exists_where
self_refused = refl

validate_shape-decides_example :
    (answer : Check ExecutionPlanShapeError) × (validate_shape circle ≡ some answer)
    × ((answer ≡ passed) ↔ (PartsAreShaped circle × (¬ HasCycle circle)))
    × ((answer ≡ refused ExecutionPlanShapeError.dependency_cycle)
        ↔ (PartsAreShaped circle × HasCycle circle))
validate_shape-decides_example = validate_shape-decides circle

dependency_reaches-decides_example :
    (b : Bool) × (dependency_reaches (reach_fuel circle.initial_tasks) circle.initial_tasks 1 3 []
      ≡ some b)
    × ((b ≡ true) ↔ DependsOn circle.initial_tasks 1 3)
dependency_reaches-decides_example = dependency_reaches-decides circle.initial_tasks 1 3
