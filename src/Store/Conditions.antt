-- ===== src/Store/Conditions.antt =====
-- transaction_executor.rs: the conditions of a task dependency.
-- `Value::pointer`, the JSON pointer lookup of serde_json, is a parameter.
use Prim.Native.String.{String}
use text.Mathlib.Text.{◌==◌ as str_eq, starts_with}
use agent_loom.Base.{
  Bool, true, false, ◌&&◌, ◌||◌, not, Option, none, some, ◌==◌, if◌then◌else◌, is_some, is_some_and,
}
use agent_loom.Domain.Status.{TaskStatus}
use agent_loom.Domain.Json.{Value, Fields}
use agent_loom.Domain.Json.Equality.{value_eq, get, size, as_object, as_str}
use agent_loom.Store.Result.{StoreErrorCode, StoreResult, ok, err, ◌>>=◌, ◌>>◌, reject_if, ok_or}

-- The text of a task's status in its column.
abbrev task_status_text : TaskStatus → String
task_status_text TaskStatus.scheduled = "scheduled"
task_status_text TaskStatus.queued = "queued"
task_status_text TaskStatus.leased = "leased"
task_status_text TaskStatus.retry_scheduled = "retry_scheduled"
task_status_text TaskStatus.succeeded = "succeeded"
task_status_text TaskStatus.failed = "failed"
task_status_text TaskStatus.dead_lettered = "dead_lettered"
task_status_text TaskStatus.skipped = "skipped"
task_status_text TaskStatus.cancelled = "cancelled"

abbrev is_terminal_text : String → Bool
is_terminal_text s =
    str_eq s "succeeded"
    || (str_eq s "failed"
        || (str_eq s "dead_lettered" || (str_eq s "skipped" || str_eq s "cancelled")))

abbrev is_empty : Fields → Bool
is_empty fs = size fs == 0

and_then : Option Value → (Value → Option String) → Option String
and_then none f = none
and_then (some v) f = f v

object_of : Option Value → Option Fields
object_of none = none
object_of (some v) = as_object v

has_result_equals_shape : Fields → Bool
unfolding get size and_then
has_result_equals_shape equals =
    size equals == 2
    && (is_some_and (and_then (get "pointer" equals) as_str) (λ pointer. starts_with pointer "/")
        && is_some (get "value" equals))

-- The conditions on the fields of a Condition.
unfoldable pub fields_shape_is_valid : Fields → Bool
unfolding get size and_then object_of has_result_equals_shape
fields_shape_is_valid fs =
    if is_empty fs
    then true
    else if size fs == 1 && is_some (get "status" fs)
    then is_some_and (and_then (get "status" fs) as_str) is_terminal_text
    else size fs == 1 && is_some_and (object_of (get "result_equals" fs)) has_result_equals_shape

-- `dependency_condition_shape_is_valid`.
unfoldable pub dependency_condition_shape_is_valid : Value → Bool
unfolding fields_shape_is_valid
dependency_condition_shape_is_valid condition =
    is_some_and (as_object condition) fields_shape_is_valid

module _ (pointer : Value → String → Option Value) where
  -- `result.and_then(|value| value.pointer(pointer)) == Some(expected)`.
  unfoldable pub result_equals : Option Value → String → Value → Bool
  result_equals none path expected = false
  result_equals (some value) path expected =
      is_some_and (pointer value path) (λ found. value_eq found expected)

  check_result : TaskStatus → Option Value → Fields → StoreResult Bool
  unfolding get and_then
  check_result status result equals = do
    path ← ok_or (and_then (get "pointer" equals) as_str) StoreErrorCode.inconsistent_projection
    expected ← ok_or (get "value" equals) StoreErrorCode.inconsistent_projection
    ok (str_eq (task_status_text status) "succeeded" && result_equals result path expected)

  check_fields : TaskStatus → Option Value → Fields → StoreResult Bool
  unfolding get and_then object_of check_result
  check_fields status result fs =
      if is_empty fs
      then ok (str_eq (task_status_text status) "succeeded")
      else elim (and_then (get "status" fs) as_str) [
        | some expected ↦ ok (str_eq (task_status_text status) expected)
        | none ↦ elim (object_of (get "result_equals" fs)) [
          | some equals ↦ check_result status result equals
          | none ↦ err StoreErrorCode.inconsistent_projection
        ]
      ]

  -- `dependency_condition_satisfied`.
  unfoldable pub dependency_condition_satisfied :
      TaskStatus → Option Value → Value → StoreResult Bool
  unfolding check_fields
  dependency_condition_satisfied status result condition = do
    reject_if (not (dependency_condition_shape_is_valid condition))
        StoreErrorCode.inconsistent_projection
    fs ← ok_or (as_object condition) StoreErrorCode.inconsistent_projection
    check_fields status result fs
