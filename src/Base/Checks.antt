-- ===== src/Base/Checks.antt =====
-- Validators: `Result<(), E>` as the source's checks return it, and the loops over a list that also
-- look at the items after the current one.
use Prim.Native.Nat.{ℕ}
use mathlib.Core.Path.{◌≡◌, refl}
use mathlib.Core.Logic.{◌↔◌}
use mathlib.Core.Bool.{Bool, true, false, ◌||◌}
use mathlib.Core.List.{List, [], ◌∷◌}
use agent_loom.Base.Tests.{◌==◌}

pub data Check {ℓ} (E : Type ℓ) : Type ℓ where
  passed : Check E
  refused : E → Check E

-- `if bad { return Err(e) }`.
abbrev pub refuse_if {ℓ} : {E : Type ℓ} → Bool → E → Check E
refuse_if true e = refused e
refuse_if false e = passed

-- A check, and what follows it.
infixr 5 ◌&>◌
abbrev pub ◌&>◌ {ℓ} : {E : Type ℓ} → Check E → Check E → Check E
refused e &> next = refused e
passed &> next = next

-- `for (index, x) in xs.iter().enumerate()`, with `xs[index + 1..]` for the body.
unfoldable pub each {ℓ κ} : {A : Type ℓ} {E : Type κ} → (A → List A → Check E) → List A → Check E
each check [] = passed
each check (x ∷ xs) = check x xs &> each check xs

unfoldable pub contains : List ℕ → ℕ → Bool
contains [] k = false
contains (x ∷ xs) k = x == k || contains xs k

-- What every item satisfies, together with the items after it.
abbrev pub Each {ℓ κ} : {A : Type ℓ} → (A → List A → Type κ) → List A → Type κ
Each P [] = Unit
Each P (x ∷ xs) = P x xs × Each P xs

pub refuse_if-passed {ℓ κ} :
    {E : Type ℓ} {P : Type κ} (bad : Bool) (e : E)
    → (bad ≡ false) ↔ P
    → (refuse_if bad e ≡ passed) ↔ P
refuse_if-passed true e h = (λ done. absurd cc, λ p. absurd (let bad = h.1 p in cc))
refuse_if-passed false e h = (λ done. h.0 refl, λ p. refl)

-- A sequence of checks passes if both do.
pub &>-passed {ℓ κ μ} :
    {E : Type ℓ} {P : Type κ} {Q : Type μ} (first next : Check E)
    → (first ≡ passed) ↔ P
    → (next ≡ passed) ↔ Q
    → ((first &> next) ≡ passed) ↔ (P × Q)
&>-passed passed next hp hq = (λ h. (hp.0 refl, hq.0 h), λ pq. hq.1 pq.1)
&>-passed (refused e) next hp hq = (λ h. absurd cc, λ pq. absurd (let bad = hp.1 pq.0 in cc))

pub each-passed {ℓ κ μ} :
    {A : Type ℓ} {E : Type κ} (P : A → List A → Type μ) (check : A → List A → Check E) (xs : List A)
    → ((x : A) (rest : List A) → (check x rest ≡ passed) ↔ P x rest)
    → (each check xs ≡ passed) ↔ Each P xs
unfolding each
each-passed P check [] h = (λ e. tt, λ e. refl)
each-passed P check (x ∷ xs) h =
    &>-passed (check x xs) (each check xs) (h x xs) (each-passed P check xs h)
