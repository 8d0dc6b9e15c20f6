-- ===== src/Base/Quantifiers.antt =====
-- What EXISTS says of a list of rows.
use mathlib.Core.Path.{◌≡◌, refl}
use mathlib.Core.Logic.{◌↔◌, ◌⊎◌, inl, inr}
use mathlib.Core.Bool.{Bool, true, false}
use mathlib.Core.Option.{none, some}
use mathlib.Core.List.{List, [], ◌∷◌, ◌++◌}
use native.Mathlib.Omega.{arith}
use mathlib.Core.Path.{subst, sym}
use agent_loom.Base.Tests.{Bool-cases, if◌then◌else◌}
use agent_loom.Base.TableLaws.{
  some-eq, All-map, find_where-All, IsKeyed, has_key_of, has_key_of_symm,
}
use Prim.Native.Nat.{ℕ}
use agent_loom.Base.Tables.{exists_where, find_where, count_where, update_where, All}

module _ {ℓ} {A : Type ℓ} where
  abbrev pub Any : (A → Type 0) → List A → Type 0
  Any P [] = ⊥
  Any P (x ∷ xs) = P x ⊎ Any P xs

  pub exists_where-Any :
      (P : A → Type 0) (p : A → Bool) (xs : List A)
      → ((x : A) → (p x ≡ true) ↔ P x)
      → (exists_where p xs ≡ true) ↔ Any P xs
  unfolding exists_where
  exists_where-Any P p [] h = (λ e. absurd cc, λ none_has. absurd none_has)
  exists_where-Any P p (x ∷ xs) h =
      let later = exists_where-Any P p xs h in
      elim (Bool-cases (p x)) [
        | inl e ↦ (λ has. inl ((h x).0 e), λ has. rw e)
        | inr e ↦ (
          λ has. inr (later.0 (rw e at has)),
          λ has. elim has [
            | inl here ↦ absurd (let bad = (h x).1 here in cc)
            | inr there ↦ rw e (later.1 there)
          ],
        )
      ]

  pub exists_where-All :
      (P : A → Type 0) (p : A → Bool) (xs : List A)
      → ((x : A) → (p x ≡ false) ↔ P x)
      → (exists_where p xs ≡ false) ↔ All P xs
  unfolding exists_where
  exists_where-All P p [] h = (λ e. tt, λ all. refl)
  exists_where-All P p (x ∷ xs) h =
      let later = exists_where-All P p xs h in
      elim (Bool-cases (p x)) [
        | inl e ↦ (
          λ has. absurd (let bad = rw e at has in cc),
          λ all. absurd (let bad = (h x).1 all.0 in cc),
        )
        | inr e ↦ (λ has. ((h x).0 e, later.0 (rw e at has)), λ all. rw e (later.1 all.1))
      ]

module _ {ℓ} {A : Type ℓ} where
  -- A row that is found stays found, whatever rows are added.
  pub find_where-append_later :
      (p : A → Bool) (xs ys : List A) {x : A}
      → find_where p xs ≡ some x
      → find_where p (xs ++ ys) ≡ some x
  unfolding find_where
  find_where-append_later p [] ys h = absurd cc
  find_where-append_later p (z ∷ zs) ys h = elim (Bool-cases (p z)) [
    | inl e ↦ rw e (rw e at h)
    | inr e ↦ rw e (find_where-append_later p zs ys (rw e at h))
  ]

  -- Where no row fits, none of those that fit more closely is found.
  pub find_where-none :
      (p q : A → Bool) (xs : List A)
      → ((x : A) → q x ≡ true → p x ≡ true)
      → exists_where p xs ≡ false
      → find_where q xs ≡ none
  unfolding find_where exists_where
  find_where-none p q [] fits h = refl
  find_where-none p q (x ∷ xs) fits h = elim (Bool-cases (q x)) [
    | inl e ↦ absurd (let hit = fits x e in ground arith)
    | inr e ↦ rw e (find_where-none p q xs fits (ground (arith, h)))
  ]

  -- A row that is looked up by a key goes through an UPDATE that keeps the key.
  pub find_where-update :
      (p q : A → Bool) (f : A → A) (xs : List A) {x : A}
      → ((y : A) → q (f y) ≡ q y)
      → find_where q xs ≡ some x
      → find_where q (update_where p f xs) ≡ some (if p x then f x else x)
  unfolding find_where update_where
  find_where-update p q f [] keep h = absurd cc
  find_where-update p q f (y ∷ ys) {x} keep h = elim (Bool-cases (q y)) [
    | inl e ↦
        let same : y ≡ x = some-eq y x (rw e at h) in
        elim (Bool-cases (p y)) [
          | inl t ↦ rw (sym same, t, keep y, e) refl
          | inr t ↦ rw (sym same, t, e) refl
        ]
    | inr e ↦
        let later = find_where-update p q f ys keep (rw e at h) in
        elim (Bool-cases (p y)) [ inl t ↦ rw (t, keep y, e) later | inr t ↦ rw (t, e) later ]
  ]

  count_where-zero : (p : A → Bool) (xs : List A) → count_where p xs ≡ 0 → All (λ x. p x ≡ false) xs
  unfolding count_where
  count_where-zero p [] h = tt
  count_where-zero p (x ∷ xs) h = elim (Bool-cases (p x)) [
    | inl e ↦ absurd (ground (arith, e))
    | inr e ↦ (e, count_where-zero p xs (ground (arith, e)))
  ]

  -- An UPDATE of one row touches no other row than the one that is known to fit.
  pub count_where-only :
      (p q : A → Bool) (xs : List A) {x : A}
      → count_where p xs ≡ 1
      → find_where q xs ≡ some x
      → p x ≡ true
      → All (λ y. p y ≡ true → y ≡ x) xs
  unfolding count_where find_where
  count_where-only p q [] one found fits = tt
  count_where-only p q (y ∷ ys) {x} one found fits = elim (Bool-cases (p y)) [
    | inl e ↦
        let others = count_where-zero p ys (ground (arith, one, e)) in
        elim (Bool-cases (q y)) [
          | inl t ↦ (
            λ _. some-eq y x (rw t at found),
            All-map _ _ ys (λ z n yes. absurd (let bad = n in cc)) others,
          )
          | inr t ↦
              absurd (let bad = find_where-All (λ z. p z ≡ false) q ys others (rw t at found) in cc)
        ]
    | inr e ↦ elim (Bool-cases (q y)) [
      | inl t ↦ absurd (
          let same : y ≡ x = some-eq y x (rw t at found) in
          let bad : p x ≡ false = subst (λ z. p z ≡ false) same e in cc)
      | inr t ↦
          (λ yes. absurd cc, count_where-only p q ys (ground (arith, one, e)) (rw t at found) fits)
    ]
  ]

module _ {ℓ κ μ} {A : Type ℓ} where
  pub All-both :
      (P : A → Type κ) (Q : A → Type μ) (xs : List A)
      → All P xs
      → All Q xs
      → All (λ x. P x × Q x) xs
  All-both P Q [] p q = tt
  All-both P Q (x ∷ xs) p q = ((p.0, q.0), All-both P Q xs p.1 q.1)

module _ {ℓ} {A : Type ℓ} where
  pub count_where-nothing :
      (p : A → Bool) (xs : List A) → All (λ x. p x ≡ false) xs → count_where p xs ≡ 0
  unfolding count_where
  count_where-nothing p [] all = refl
  count_where-nothing p (x ∷ xs) all = rw all.0 (omega (arith, count_where-nothing p xs all.1))

pub not-true : {b : Bool} → ¬ (b ≡ true) → b ≡ false
not-true {b = true} h = absurd (h refl)
not-true {b = false} h = refl

module _ {ℓ} {A : Type ℓ} (k l : A → ℕ) where
  -- Each row of a keyed table is the one that its key finds.
  pub IsKeyed-found :
      (xs : List A) → IsKeyed k l xs → All (λ x. find_where (has_key_of k l x) xs ≡ some x) xs
  unfolding find_where
  IsKeyed-found [] keyed = tt
  IsKeyed-found (x ∷ xs) keyed = (
    ground arith,
    All-map _ _ xs (λ y apart. let symm = has_key_of_symm k l x y in rw (sym symm, apart.1) apart.0)
        (All-both _ _ xs (IsKeyed-found xs keyed.1) keyed.0),
  )

  -- An UPDATE by the key of a row of the table touches it or none.
  pub count_where-keyed :
      (p q : A → Bool) (xs : List A) {x : A}
      → IsKeyed k l xs
      → find_where q xs ≡ some x
      → ((y : A) → p y ≡ true → has_key_of k l x y ≡ true)
      → count_where p xs ≡ (if p x then 1 else 0)
  unfolding count_where find_where
  count_where-keyed p q [] keyed found close = absurd cc
  count_where-keyed p q (y ∷ ys) {x} keyed found close = elim (Bool-cases (q y)) [
    | inl e ↦
        let same : y ≡ x = some-eq y x (rw e at found) in
        let none_there = count_where-nothing p ys (
          All-map _ _ ys
            (λ z apart. not-true (λ hit. let near = close z hit in ground (arith, same, near)))
            keyed.0) in
        rw (none_there, same) (omega arith)
    | inr e ↦
        let there : find_where q ys ≡ some x = rw e at found in
        let apart = find_where-All (λ z. has_key_of k l y z ≡ false) q ys keyed.0 there in
        let missed : p y ≡ false =
          not-true
            (λ hit. let near = close y hit in let symm = has_key_of_symm k l x y in ground arith) in
        rw missed (omega (arith, count_where-keyed p q ys keyed.1 there close))
  ]
