-- ===== src/Base/TableLaws.antt =====
-- Laws of the operations on tables, and tables with a two-column key.
use agent_loom.Base.Tests.{◌==◌, Bool-cases}
use agent_loom.Base.Tables.{All, update_where, find_where, exists_where, keep_where, All-append}
use Prim.Native.Nat.{ℕ}
use mathlib.Core.Path.{◌≡◌, refl, sym, ap, subst}
use mathlib.Core.Logic.{inl, inr}
use mathlib.Core.Bool.{Bool, true, false, ◌&&◌}
use mathlib.Core.Option.{none, some}
use mathlib.Core.List.{List, [], ◌∷◌, ◌++◌}
use native.Mathlib.Omega.{arith}

pub some-eq {ℓ} : {A : Type ℓ} (x y : A) → some x ≡ some y → x ≡ y
some-eq x y e = cc

module _ {ℓ κ μ} {A : Type ℓ} where
  pub All-map :
      (P : A → Type κ) (Q : A → Type μ) (xs : List A) → ((x : A) → P x → Q x) → All P xs → All Q xs
  All-map P Q [] h all = tt
  All-map P Q (x ∷ xs) h all = (h x all.0, All-map P Q xs h all.1)

module _ {ℓ κ} {A : Type ℓ} where
  pub All-intro : (P : A → Type κ) (xs : List A) → ((x : A) → P x) → All P xs
  All-intro P [] h = tt
  All-intro P (x ∷ xs) h = (h x, All-intro P xs h)

  -- After an UPDATE the touched rows have what the SET gives them.
  pub All-update_where :
      (P : A → Type κ) (p : A → Bool) (f : A → A) (xs : List A)
      → All P xs
      → All (λ x. p x ≡ true → P (f x)) xs
      → All P (update_where p f xs)
  unfolding update_where
  All-update_where P p f [] all new = tt
  All-update_where P p f (x ∷ xs) all new = elim (Bool-cases (p x)) [
    | inl e ↦ rw e (new.0 e, All-update_where P p f xs all.1 new.1)
    | inr e ↦ rw e (all.0, All-update_where P p f xs all.1 new.1)
  ]

  -- The same, where the rows that are left alone have it because they are.
  pub All-update_cases :
      (P : A → Type κ) (p : A → Bool) (f : A → A) (xs : List A)
      → ((x : A) → p x ≡ true → P (f x))
      → ((x : A) → p x ≡ false → P x)
      → All P (update_where p f xs)
  unfolding update_where
  All-update_cases P p f [] touched left = tt
  All-update_cases P p f (x ∷ xs) touched left = elim (Bool-cases (p x)) [
    | inl e ↦ rw e (touched x e, All-update_cases P p f xs touched left)
    | inr e ↦ rw e (left x e, All-update_cases P p f xs touched left)
  ]

  -- The same, row by row.
  pub All-update_rows :
      (P : A → Type κ) (p : A → Bool) (f : A → A) (xs : List A)
      → All (λ x. p x ≡ true → P (f x)) xs
      → All (λ x. p x ≡ false → P x) xs
      → All P (update_where p f xs)
  unfolding update_where
  All-update_rows P p f [] touched left = tt
  All-update_rows P p f (x ∷ xs) touched left = elim (Bool-cases (p x)) [
    | inl e ↦ rw e (touched.0 e, All-update_rows P p f xs touched.1 left.1)
    | inr e ↦ rw e (left.0 e, All-update_rows P p f xs touched.1 left.1)
  ]

  pub find_where-All :
      (P : A → Type κ) (p : A → Bool) (xs : List A) {x : A}
      → All P xs
      → find_where p xs ≡ some x
      → P x
  unfolding find_where
  find_where-All P p [] all e = cc
  find_where-All P p (y ∷ ys) {x} all e = elim (Bool-cases (p y)) [
    | inl h ↦ subst P (some-eq y x (rw h at e)) all.0
    | inr h ↦ find_where-All P p ys all.1 (rw h at e)
  ]

module _ {ℓ} {A : Type ℓ} where
  pub find_where_sound :
      (p : A → Bool) (xs : List A) {x : A} → find_where p xs ≡ some x → p x ≡ true
  unfolding find_where
  find_where_sound p [] e = cc
  find_where_sound p (y ∷ ys) {x} e = elim (Bool-cases (p y)) [
    | inl h ↦ subst (λ z. p z ≡ true) (some-eq y x (rw h at e)) h
    | inr h ↦ find_where_sound p ys (rw h at e)
  ]

  pub keep_where-All : (p : A → Bool) (xs : List A) → All (λ x. p x ≡ true) (keep_where p xs)
  unfolding keep_where
  keep_where-All p [] = tt
  keep_where-All p (x ∷ xs) = elim (Bool-cases (p x)) [
    | inl e ↦ rw e (e, keep_where-All p xs)
    | inr e ↦ rw e (keep_where-All p xs)
  ]

  -- EXISTS holds of a condition only if some row fits it.
  pub exists_where-only {κ} :
      (P : Type κ) (p : A → Bool) (xs : List A)
      → All (λ x. p x ≡ true → P) xs
      → exists_where p xs ≡ true
      → P
  unfolding exists_where
  exists_where-only P p [] all h = cc
  exists_where-only P p (x ∷ xs) all h = elim (Bool-cases (p x)) [
    | inl e ↦ all.0 e
    | inr e ↦ exists_where-only P p xs all.1 (rw e at h)
  ]

  pub find_where-append :
      (p : A → Bool) (xs : List A) (y : A)
      → find_where p xs ≡ none
      → p y ≡ true
      → find_where p (xs ++ y ∷ []) ≡ some y
  unfolding find_where
  find_where-append p [] y e h = rw h
  find_where-append p (x ∷ xs) y e h = elim (Bool-cases (p x)) [
    | inl hx ↦ absurd (cc (rw hx at e))
    | inr hx ↦ rw hx (find_where-append p xs y (rw hx at e) h)
  ]

  -- A row found is found after an UPDATE that leaves the condition alone.
  pub find_where-update_where :
      (p q : A → Bool) (f : A → A) (xs : List A) {x : A}
      → ((y : A) → q (f y) ≡ q y)
      → find_where q xs ≡ some x
      → p x ≡ true
      → find_where q (update_where p f xs) ≡ some (f x)
  unfolding find_where update_where
  find_where-update_where p q f [] keep e h = cc
  find_where-update_where p q f (y ∷ ys) {x} keep e h = elim (Bool-cases (q y)) [
    | inl hq ↦
        let same : y ≡ x = some-eq y x (rw hq at e) in ground (arith, same, hq, h, keep y, keep x)
    | inr hq ↦ ground (arith, hq, keep y, find_where-update_where p q f ys keep (rw hq at e) h)
  ]

  -- A row found is found unchanged after an UPDATE of other rows.
  pub find_where-update_other :
      (p q : A → Bool) (f : A → A) (xs : List A) {x : A}
      → ((y : A) → q (f y) ≡ q y)
      → find_where q xs ≡ some x
      → p x ≡ false
      → find_where q (update_where p f xs) ≡ some x
  unfolding find_where update_where
  find_where-update_other p q f [] keep e h = cc
  find_where-update_other p q f (y ∷ ys) {x} keep e h = elim (Bool-cases (q y)) [
    | inl hq ↦
        let same : y ≡ x = some-eq y x (rw hq at e) in ground (arith, same, hq, h, keep y, keep x)
    | inr hq ↦ ground (arith, hq, keep y, find_where-update_other p q f ys keep (rw hq at e) h)
  ]

  pub exists_where-update_where :
      (p q : A → Bool) (f : A → A) (xs : List A)
      → ((y : A) → p y ≡ true → q (f y) ≡ q y)
      → exists_where q (update_where p f xs) ≡ exists_where q xs
  unfolding exists_where update_where
  exists_where-update_where p q f [] keep = refl
  exists_where-update_where p q f (y ∷ ys) keep =
      ground (arith, keep y, exists_where-update_where p q f ys keep)

-- A table with the key (k, l): no two rows have both columns alike.
module _ {ℓ} {A : Type ℓ} (k l : A → ℕ) where
  abbrev pub has_key_of : A → A → Bool
  has_key_of x y = k x == k y && l x == l y

  abbrev pub IsKeyed : List A → Type 0
  IsKeyed [] = Unit
  IsKeyed (x ∷ xs) = All (λ y. has_key_of x y ≡ false) xs × IsKeyed xs

  pub has_key_of_symm : (x y : A) → has_key_of x y ≡ has_key_of y x
  has_key_of_symm x y = ground arith

module _ {ℓ} {A : Type ℓ} (k l : A → ℕ) where
  pub update_where-IsKeyed :
      (p : A → Bool) (f : A → A) (xs : List A)
      → ((x : A) → k (f x) ≡ k x)
      → ((x : A) → l (f x) ≡ l x)
      → IsKeyed k l xs
      → IsKeyed k l (update_where p f xs)
  unfolding update_where
  update_where-IsKeyed p f [] fk fl keyed = tt
  update_where-IsKeyed p f (x ∷ xs) fk fl keyed = (
    All-update_where _ p f xs (All-map _ _ xs (λ y h. ground (arith, fk x, fl x, h)) keyed.0)
        (All-map _ _ xs (λ y h e. ground (arith, fk x, fl x, fk y, fl y, h)) keyed.0),
    update_where-IsKeyed p f xs fk fl keyed.1,
  )

module _ {ℓ κ} {A : Type ℓ} (k l : A → ℕ) where
  -- The row that a lookup finds is the only one with its key.
  pub find_where-only :
      (P : A → Type κ) (q : A → Bool) (xs : List A) {x : A}
      → IsKeyed k l xs
      → find_where q xs ≡ some x
      → P x
      → All (λ y. has_key_of k l x y ≡ true → P y) xs
  unfolding find_where
  find_where-only P q [] keyed e px = tt
  find_where-only P q (y ∷ ys) {x} keyed e px = elim (Bool-cases (q y)) [
    | inl h ↦
        let same : y ≡ x = some-eq y x (rw h at e) in
        (
          λ _. subst P (sym same) px,
          All-map _ _ ys (λ z n s. absurd (ground (arith, same, n, s))) keyed.0,
        )
    | inr h ↦
        let found : find_where q ys ≡ some x = rw h at e in
        (
          λ s. absurd (
              ground (
                arith,
                find_where-All (λ z. has_key_of k l y z ≡ false) q ys keyed.0 found,
                has_key_of_symm k l x y,
                s,
              )),
          find_where-only P q ys keyed.1 found px,
        )
  ]

module _ {ℓ} {A : Type ℓ} (k l : A → ℕ) where
  -- A row found by any query is found by its key.
  pub find_where-key :
      (q p : A → Bool) (xs : List A) {x : A}
      → IsKeyed k l xs
      → find_where q xs ≡ some x
      → p x ≡ true
      → ((y : A) → p y ≡ true → has_key_of k l x y ≡ true)
      → find_where p xs ≡ some x
  unfolding find_where
  find_where-key q p [] keyed e px only = cc
  find_where-key q p (y ∷ ys) {x} keyed e px only = elim (Bool-cases (q y)) [
    | inl h ↦
        let same : y ≡ x = some-eq y x (rw h at e) in
        rw (subst (λ z. p z ≡ true) (sym same) px) (ap some same)
    | inr h ↦
        let found : find_where q ys ≡ some x = rw h at e in
        elim (Bool-cases (p y)) [
          | inl own ↦ absurd (
              ground (
                arith,
                find_where-All (λ z. has_key_of k l y z ≡ false) q ys keyed.0 found,
                has_key_of_symm k l x y,
                only y own,
              ))
          | inr other ↦ rw other (find_where-key q p ys keyed.1 found px only)
        ]
  ]

module _ {ℓ} {A : Type ℓ} (k l : A → ℕ) where
  -- A row with a key of its own may be added.
  pub IsKeyed-append :
      (xs : List A) (x : A)
      → IsKeyed k l xs
      → All (λ y. has_key_of k l y x ≡ false) xs
      → IsKeyed k l (xs ++ x ∷ [])
  IsKeyed-append [] x keyed apart = (tt, tt)
  IsKeyed-append (y ∷ ys) x keyed apart =
      (All-append _ ys (x ∷ []) keyed.0 (apart.0, tt), IsKeyed-append ys x keyed.1 apart.1)
