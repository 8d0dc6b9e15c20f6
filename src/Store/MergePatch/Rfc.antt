-- ===== src/Store/MergePatch/Rfc.antt =====
-- RFC 7396's description of a merge, and that the store's merge does it at every depth.
use Prim.Native.String.{String}
use mathlib.Core.Path.{subst}
use agent_loom.Base.{
  ◌≡◌, ◌≢◌, ◌∙◌, refl, sym, ap, true, Option, none, some, if◌then◌else◌, inl, inr, Bool-cases,
}
use agent_loom.Domain.Json.{Value, Fields, null, bool, number, string, array, object, end, field}
use agent_loom.Store.MergePatch.{
  JsonMap, is_null, or_null, object_fields, merge_json_patch, merge_fields,
}
use agent_loom.Store.MergePatch.Laws.{IsJsonMap, IsMap, patched_value, get-merge_fields, keys-cases}

-- A value that is no object.
abbrev pub IsPlain : Value → Type 0
IsPlain (object fs) = ⊥
IsPlain _ = Unit

module _ (m : JsonMap) where
  -- A target's value under a key: none, if it is no object.
  abbrev pub member : Value → String → Option Value
  member (object fs) k = m.get k fs
  member null k = none
  member (bool b) k = none
  member (number n) k = none
  member (string s) k = none
  member (array xs) k = none

  -- What a patch is merged with where the target has no such key.
  abbrev pub current : Value → String → Value
  current target k = elim (member target k) [ none ↦ null | some v ↦ v ]

module _ (m : JsonMap) where
  mutual
    -- target, patch, result.
    pub data IsMergePatch : Value → Value → Value → Type 0 where
      replaces : {target patch : Value} → IsPlain patch → IsMergePatch target patch patch
      merges :
          {target : Value} {patch result : Fields}
          → EachMerged target patch result
          → ((k : String) → m.get k patch ≡ none → m.get k result ≡ member m target k)
          → IsMergePatch target (object patch) (object result)

    -- Every field of the patch: null removes, anything else is merged with the target's own value.
    pub data EachMerged : Value → Fields → Fields → Type 0 where
      all_merged : {target : Value} {result : Fields} → EachMerged target end result
      removes :
          {target : Value} {k : String} {patch result : Fields}
          → m.get k result ≡ none
          → EachMerged target patch result
          → EachMerged target (field k null patch) result
      sets :
          {target v w : Value} {k : String} {patch result : Fields}
          → v ≢ null
          → m.get k result ≡ some w
          → IsMergePatch (current m target k) v w
          → EachMerged target patch result
          → EachMerged target (field k v patch) result

  unfoldable mutual
    -- No object of the patch has a key twice.
    pub IsProper : Value → Type 0
    IsProper (object fs) = IsMap m fs × AllProper fs
    IsProper _ = Unit

    pub AllProper : Fields → Type 0
    AllProper end = Unit
    AllProper (field k v fs) = IsProper v × AllProper fs

  -- Each field of a list of fields is what a map gives for its key.
  abbrev IsPart : Fields → Fields → Type 0
  IsPart whole end = Unit
  IsPart whole (field k v fs) = (m.get k whole ≡ some v) × IsPart whole fs

module _ (m : JsonMap) (laws : IsJsonMap m) where
  IsPart-later :
      (j : String) (v : Value) (whole part : Fields)
      → m.get j whole ≡ none
      → IsPart m whole part
      → IsPart m (field j v whole) part
  IsPart-later j v whole end free part = tt
  IsPart-later j v whole (field k w fs) free part = (
    elim (keys-cases j k) [
      | inl same ↦
          absurd (let bad = sym (subst (λ x. m.get x whole ≡ none) same free) ∙ part.0 in cc)
      | inr (e, _) ↦ laws.field_other k j v whole e ∙ part.0
    ],
    IsPart-later j v whole fs free part.1,
  )

  IsMap-IsPart : (fs : Fields) → IsMap m fs → IsPart m fs fs
  IsMap-IsPart end proper = tt
  IsMap-IsPart (field k v fs) proper =
      (laws.field_same k v fs, IsPart-later k v fs fs proper.0 (IsMap-IsPart fs proper.1))

  member_fields : (target : Value) (k : String) → m.get k (object_fields target) ≡ member m target k
  member_fields (object fs) k = refl
  member_fields null k = laws.end_none k
  member_fields (bool b) k = laws.end_none k
  member_fields (number n) k = laws.end_none k
  member_fields (string s) k = laws.end_none k
  member_fields (array xs) k = laws.end_none k

  current_member : (o : Option Value) → or_null o ≡ elim o [ none ↦ null | some v ↦ v ]
  current_member none = refl
  current_member (some v) = refl

  null_only : (v : Value) → is_null v ≡ true → v ≡ null
  null_only null h = refl
  null_only (bool b) h = absurd cc
  null_only (number n) h = absurd cc
  null_only (string s) h = absurd cc
  null_only (array xs) h = absurd cc
  null_only (object fs) h = absurd cc

  -- What a merge leaves under a key of the patch.
  get-merged :
      (target : Value) (patch : Fields) (k : String) (v : Value)
      → IsMap m patch
      → m.get k patch ≡ some v
      → m.get k (merge_fields m (object_fields target) patch)
        ≡ (if is_null v then none else some (merge_json_patch m (current m target k) v))
  get-merged target patch k v proper here =
      get-merge_fields m laws k (object_fields target) patch proper
      ∙ (ap (λ o. patched_value m o (m.get k (object_fields target))) here
          ∙ ap (λ o. if is_null v then none else some (merge_json_patch m o v))
              (ap or_null (member_fields target k) ∙ current_member (member m target k)))

  mutual
    unfolding merge_json_patch merge_fields IsProper AllProper

    merged :
        (target patch : Value)
        → IsProper m patch
        → IsMergePatch m target patch (merge_json_patch m target patch)
    merged target null proper = replaces tt
    merged target (bool b) proper = replaces tt
    merged target (number n) proper = replaces tt
    merged target (string s) proper = replaces tt
    merged target (array xs) proper = replaces tt
    merged target (object patch) proper =
        merges (each_merged target patch patch proper.0 (IsMap-IsPart patch proper.0) proper.1)
          (λ k free.
            get-merge_fields m laws k (object_fields target) patch proper.0
            ∙ (ap (λ o. patched_value m o (m.get k (object_fields target))) free
                ∙ member_fields target k))

    each_merged :
        (target : Value) (patch part : Fields)
        → IsMap m patch
        → IsPart m patch part
        → AllProper m part
        → EachMerged m target part (merge_fields m (object_fields target) patch)
    each_merged target patch end proper here deep = all_merged
    each_merged target patch (field k v part) proper here deep =
        let rest = each_merged target patch part proper here.1 deep.1 in
        let got = get-merged target patch k v proper here.0 in
        elim (Bool-cases (is_null v)) [
          | inl e ↦
              subst
                (λ x.
                  EachMerged m target (field k x part)
                    (merge_fields m (object_fields target) patch))
                (sym (null_only v e)) (removes (got ∙ rw e refl) rest)
          | inr e ↦
              sets (λ same. absurd (let bad = sym (ap is_null same) ∙ e in cc)) (got ∙ rw e refl)
                (merged (current m target k) v deep.0) rest
        ]

  -- A merge of a patch whose objects have no key twice does what RFC 7396 says, at every depth: a
  -- patch that is no object replaces the target; an object keeps the target's fields that it does
  -- not name, or none if the target is no object, removes those it has as null, and merges any
  -- other of its values with the target's own, or with null. The map works as documented.
  pub merge_json_patch-IsMergePatch :
      (target patch : Value)
      → IsProper m patch
      → IsMergePatch m target patch (merge_json_patch m target patch)
  merge_json_patch-IsMergePatch target patch proper = merged target patch proper
