-- ===== src/Store/MergePatch/Laws.antt =====
-- The merge of a context patch, field by field (RFC 7396).
use Prim.Native.String.{String}
use text.Mathlib.Text.{◌==◌ as str_eq}
use text.Mathlib.TextEquality.{eq_iff}
use mathlib.Core.Path.{subst}
use agent_loom.Base.{
  ◌≡◌, ◌∙◌, refl, sym, ap, true, false, Option, none, some, if◌then◌else◌, Bool-cases, inl, inr,
  ◌⊎◌,
}
use agent_loom.Domain.Json.{Value, Fields, end, field}
use agent_loom.Store.MergePatch.{JsonMap, is_null, or_null, merge_json_patch, merge_fields}

-- What the documentation of serde_json's `Map` says of its operations: a lookup finds the entry
-- of its key, `remove` takes out the entry of a key and leaves the others, and `insert` sets the
-- entry of a key and leaves the others.
pub record IsJsonMap (m : JsonMap) : Type 0 where
  pub end_none : (k : String) → m.get k end ≡ none
  pub field_same : (k : String) (v : Value) (fs : Fields) → m.get k (field k v fs) ≡ some v
  pub field_other :
      (j k : String) (v : Value) (fs : Fields)
      → str_eq k j ≡ false
      → m.get j (field k v fs) ≡ m.get j fs
  pub remove_same : (k : String) (fs : Fields) → m.get k (m.remove k fs) ≡ none
  pub remove_other :
      (j k : String) (fs : Fields) → str_eq k j ≡ false → m.get j (m.remove k fs) ≡ m.get j fs
  pub insert_same : (k : String) (v : Value) (fs : Fields) → m.get k (m.insert k v fs) ≡ some v
  pub insert_other :
      (j k : String) (v : Value) (fs : Fields)
      → str_eq k j ≡ false
      → m.get j (m.insert k v fs) ≡ m.get j fs

pub eq_refl : (s : String) → str_eq s s ≡ true
eq_refl s = (eq_iff s s).1 refl

-- Two keys are the same, or both tests say that they are not.
pub keys-cases : (j k : String) → (j ≡ k) ⊎ ((str_eq j k ≡ false) × (str_eq k j ≡ false))
keys-cases j k = elim (Bool-cases (str_eq j k)) [
  | inl e ↦ inl ((eq_iff j k).0 e)
  | inr e ↦ elim (Bool-cases (str_eq k j)) [
    | inl f ↦ inl (sym ((eq_iff k j).0 f))
    | inr f ↦ inr (e, f)
  ]
]

module _ (m : JsonMap) where
  -- No key stands twice.
  abbrev pub IsMap : Fields → Type 0
  IsMap end = Unit
  IsMap (field k v fs) = (m.get k fs ≡ none) × IsMap fs

  -- What a patch makes of a field, by the value that the patch has for it and the value it had.
  abbrev pub patched_value : Option Value → Option Value → Option Value
  patched_value none old = old
  patched_value (some v) old = if is_null v then none else some (merge_json_patch m (or_null old) v)

  -- One field of the patch.
  abbrev patched_once : String → Value → Fields → Fields
  patched_once k v target =
      if is_null v
      then m.remove k target
      else m.insert k (merge_json_patch m (or_null (m.get k target)) v) target

module _ (m : JsonMap) (laws : IsJsonMap m) where
  get-patched_same :
      (k : String) (v : Value) (target : Fields)
      → m.get k (patched_once m k v target) ≡ patched_value m (some v) (m.get k target)
  get-patched_same k v target = elim (Bool-cases (is_null v)) [
    | inl e ↦ rw e (laws.remove_same k target)
    | inr e ↦ rw e (laws.insert_same k (merge_json_patch m (or_null (m.get k target)) v) target)
  ]

  get-patched_other :
      (j k : String) (v : Value) (target : Fields)
      → str_eq k j ≡ false
      → m.get j (patched_once m k v target) ≡ m.get j target
  get-patched_other j k v target h = elim (Bool-cases (is_null v)) [
    | inl e ↦ rw e (laws.remove_other j k target h)
    | inr e ↦
        rw e (laws.insert_other j k (merge_json_patch m (or_null (m.get k target)) v) target h)
  ]

  -- After a merge a field that the patch leaves out is as before, one that the patch has as null
  -- is gone, and any other is the merge of the field's own value before, or of null, with the
  -- patch's. The map works as documented, and the patch has no key twice.
  pub get-merge_fields :
      (k : String) (target patch : Fields)
      → IsMap m patch
      → m.get k (merge_fields m target patch) ≡ patched_value m (m.get k patch) (m.get k target)
  unfolding merge_fields
  get-merge_fields k target end none_twice =
      sym (ap (λ o. patched_value m o (m.get k target)) (laws.end_none k))
  get-merge_fields k target (field j v patch) none_twice = elim (keys-cases j k) [
    | inl same ↦
        subst
          (λ x.
            m.get k (merge_fields m (patched_once m x v target) patch)
            ≡ patched_value m (m.get k (field x v patch)) (m.get k target))
          (sym same)
          (get-merge_fields k (patched_once m k v target) patch none_twice.1
            ∙ (ap (λ o. patched_value m o (m.get k (patched_once m k v target)))
                  (subst (λ x. m.get x patch ≡ none) same none_twice.0)
                ∙ (get-patched_same k v target
                    ∙ sym (
                        ap (λ o. patched_value m o (m.get k target)) (laws.field_same k v patch)))))
    | inr (e, _) ↦
        get-merge_fields k (patched_once m j v target) patch none_twice.1
        ∙ (ap (patched_value m (m.get k patch)) (get-patched_other k j v target e)
            ∙ sym (ap (λ o. patched_value m o (m.get k target)) (laws.field_other k j v patch e)))
  ]
