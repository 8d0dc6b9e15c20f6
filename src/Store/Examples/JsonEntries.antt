-- ===== src/Store/Examples/JsonEntries.antt =====
-- A map as the list of its entries, in the order of the keys, and a merge of such maps.
use Prim.Native.String.{String, compare}
use text.Mathlib.Text.{◌==◌ as str_eq, is_lt}
use mathlib.Core.Path.{subst}
use agent_loom.Base.{◌≡◌, refl, sym, true, false, none, some, if◌then◌else◌, Bool-cases, inl, inr}
use agent_loom.Domain.Json.{Value, Fields, end, field, null, number, object}
use agent_loom.Domain.Json.Equality.{get}
use agent_loom.Store.MergePatch.{JsonMap, merge_fields, merge_json_patch}
use agent_loom.Store.MergePatch.Laws.{IsJsonMap, keys-cases, eq_refl}
use agent_loom.Store.MergePatch.Rfc.{
  IsProper, AllProper, IsMergePatch, merge_json_patch-IsMergePatch,
}

-- `Map::remove`.
unfoldable pub remove : String → Fields → Fields
remove k end = end
remove k (field j v fs) = let rest = remove k fs in if str_eq j k then rest else field j v rest

-- `Map::insert`, in the order of the keys.
unfoldable pub insert : String → Value → Fields → Fields
insert k v end = field k v end
insert k v (field j w fs) =
    let rest = insert k v fs in
    if str_eq j k
    then field k v fs
    else if is_lt (compare k j)
    then field k v (field j w fs)
    else field j w rest

get-field_same : (k : String) (v : Value) (fs : Fields) → get k (field k v fs) ≡ some v
unfolding get
get-field_same k v fs = rw (eq_refl k) refl

get-field_other :
    (j k : String) (v : Value) (fs : Fields) → str_eq k j ≡ false → get j (field k v fs) ≡ get j fs
unfolding get
get-field_other j k v fs e = rw e refl

get-remove_other :
    (j k : String) (fs : Fields) → str_eq k j ≡ false → get j (remove k fs) ≡ get j fs
unfolding get remove
get-remove_other j k end e = refl
get-remove_other j k (field i v fs) e = elim (keys-cases i k) [
  | inl same ↦
      rw
        (
          subst (λ x. str_eq x k ≡ true) (sym same) (eq_refl k),
          subst (λ x. str_eq x j ≡ false) (sym same) e,
        )
        (get-remove_other j k fs e)
  | inr (f, g) ↦ elim (Bool-cases (str_eq i j)) [
    | inl h ↦ rw (f, h) refl
    | inr h ↦ rw (f, h) (get-remove_other j k fs e)
  ]
]

get-remove_same : (k : String) (fs : Fields) → get k (remove k fs) ≡ none
unfolding get remove
get-remove_same k end = refl
get-remove_same k (field i v fs) = elim (Bool-cases (str_eq i k)) [
  | inl e ↦ rw e (get-remove_same k fs)
  | inr e ↦ rw (e, e) (get-remove_same k fs)
]

get-insert_same : (k : String) (v : Value) (fs : Fields) → get k (insert k v fs) ≡ some v
unfolding get insert
get-insert_same k v end = get-field_same k v end
get-insert_same k v (field i w fs) = elim (Bool-cases (str_eq i k)) [
  | inl e ↦ rw e (get-field_same k v fs)
  | inr e ↦ elim (Bool-cases (is_lt (compare k i))) [
    | inl f ↦ rw (e, f) (get-field_same k v (field i w fs))
    | inr f ↦ rw (e, f, e) (get-insert_same k v fs)
  ]
]

get-insert_other :
    (j k : String) (v : Value) (fs : Fields) → str_eq k j ≡ false → get j (insert k v fs) ≡ get j fs
unfolding get insert
get-insert_other j k v end h = get-field_other j k v end h
get-insert_other j k v (field i w fs) h = elim (keys-cases i k) [
  | inl same ↦
      rw
        (
          subst (λ x. str_eq x k ≡ true) (sym same) (eq_refl k),
          subst (λ x. str_eq x j ≡ false) (sym same) h,
        )
        (get-field_other j k v fs h)
  | inr (e, _) ↦ elim (Bool-cases (is_lt (compare k i))) [
    | inl f ↦ rw (e, f) (get-field_other j k v (field i w fs) h)
    | inr f ↦ elim (Bool-cases (str_eq i j)) [
      | inl g ↦ rw (e, f, g) refl
      | inr g ↦ rw (e, f, g) (get-insert_other j k v fs h)
    ]
  ]
]

abbrev pub entries : JsonMap
entries = record { get = get; remove = remove; insert = insert }

pub entries-IsJsonMap : IsJsonMap entries
unfolding get
entries-IsJsonMap = record {
  end_none = λ k. refl;
  field_same = get-field_same;
  field_other = get-field_other;
  remove_same = get-remove_same;
  remove_other = get-remove_other;
  insert_same = get-insert_same;
  insert_other = get-insert_other;
}

-- {"a": 1, "b": {"c": 2, "d": 3}, "e": 4}
abbrev before_merge : Value
before_merge = object (
    field "a" (number "1") (
      field "b" (object (field "c" (number "2") (field "d" (number "3") end)))
        (field "e" (number "4") end)))

-- {"a": null, "b": {"c": null}, "e": {"f": 5}}
abbrev patch : Value
patch = object (
    field "a" null (
      field "b" (object (field "c" null end))
        (field "e" (object (field "f" (number "5") end)) end)))

-- {"b": {"d": 3}, "e": {"f": 5}}
merged_entries :
    merge_json_patch entries before_merge patch
    ≡ object (
        field "b"
          (object (field "d" (number "3") end))
          (field "e" (object (field "f" (number "5") end)) end))
unfolding merge_json_patch merge_fields get insert remove
merged_entries = refl

patch-IsProper : IsProper entries patch
unfolding get IsProper AllProper
patch-IsProper =
    ((refl, (refl, (refl, tt))), (tt, (((refl, tt), (tt, tt)), (((refl, tt), (tt, tt)), tt))))

merge_json_patch-IsMergePatch_example :
    IsMergePatch entries before_merge patch (merge_json_patch entries before_merge patch)
merge_json_patch-IsMergePatch_example =
    merge_json_patch-IsMergePatch entries entries-IsJsonMap before_merge patch patch-IsProper
