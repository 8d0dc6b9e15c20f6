-- ===== src/Domain/Json/Equality.antt =====
-- `Value == Value` and the reads of a JSON object. The keys of an object are sorted and distinct.
use Prim.Native.String.{String}
use text.Mathlib.Text.{◌==◌ as str_eq}
use agent_loom.Base.{ℕ, suc, Bool, true, false, ◌&&◌, Option, none, some, if◌then◌else◌}
use agent_loom.Domain.Json.{
  Value, Items, Fields, null, bool, number, string, array, object, nil, item, end, field,
}

abbrev bool_eq : Bool → Bool → Bool
bool_eq true true = true
bool_eq false false = true
bool_eq _ _ = false

unfoldable mutual
  pub value_eq : Value → Value → Bool
  value_eq null null = true
  value_eq (bool a) (bool b) = bool_eq a b
  value_eq (number a) (number b) = str_eq a b
  value_eq (string a) (string b) = str_eq a b
  value_eq (array a) (array b) = items_eq a b
  value_eq (object a) (object b) = fields_eq a b
  value_eq _ _ = false

  pub items_eq : Items → Items → Bool
  items_eq nil nil = true
  items_eq (item a xs) (item b bs) = value_eq a b && items_eq xs bs
  items_eq _ _ = false

  pub fields_eq : Fields → Fields → Bool
  fields_eq end end = true
  fields_eq (field j a xs) (field k b bs) = str_eq j k && (value_eq a b && fields_eq xs bs)
  fields_eq _ _ = false

-- `Map::get`.
unfoldable pub get : String → Fields → Option Value
get k end = none
get k (field j v fs) = if str_eq j k then some v else get k fs

-- `Map::len`.
unfoldable pub size : Fields → ℕ
size end = 0
size (field j v fs) = suc (size fs)

-- `Value::as_object` and `Value::as_str`.
abbrev pub as_object : Value → Option Fields
as_object (object fs) = some fs
as_object _ = none

abbrev pub as_str : Value → Option String
as_str (string s) = some s
as_str _ = none
