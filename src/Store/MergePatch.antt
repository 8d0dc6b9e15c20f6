-- ===== src/Store/MergePatch.antt =====
-- transaction_executor.rs: `merge_json_patch`, the RFC 7396 merge of a context patch. The map of
-- serde_json, with the operations that the merge calls, is a parameter.
pub mod Laws
pub mod Rfc
use Prim.Native.String.{String}
use agent_loom.Base.{Bool, true, false, Option, none, some, if◌then◌else◌}
use agent_loom.Domain.Json.{
  Value, Items, Fields, null, bool, number, string, array, object, nil, item, end, field,
}

-- The operations of serde_json's `Map` on its entries, `entry(key).or_insert` by `get` and `insert`.
pub record JsonMap : Type 0 where
  pub get : String → Fields → Option Value
  pub remove : String → Fields → Fields
  pub insert : String → Value → Fields → Fields

abbrev pub is_null : Value → Bool
is_null null = true
is_null _ = false

-- `entry(key).or_insert(Value::Null)`.
abbrev pub or_null : Option Value → Value
or_null none = null
or_null (some v) = v

-- A target that is no object counts as the empty one.
abbrev pub object_fields : Value → Fields
object_fields (object fs) = fs
object_fields _ = end

module _ (m : JsonMap) where
  unfoldable mutual
    -- `merge_json_patch`.
    pub merge_json_patch : Value → Value → Value
    merge_json_patch target (object patch) = object (merge_fields (object_fields target) patch)
    merge_json_patch target null = null
    merge_json_patch target (bool b) = bool b
    merge_json_patch target (number n) = number n
    merge_json_patch target (string s) = string s
    merge_json_patch target (array xs) = array xs

    -- Its loop over the fields of the patch.
    pub merge_fields : Fields → Fields → Fields
    merge_fields target end = target
    merge_fields target (field k v patch) =
        merge_fields
          (if is_null v
            then m.remove k target
            else m.insert k (merge_json_patch (or_null (m.get k target)) v) target)
          patch
