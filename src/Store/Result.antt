-- ===== src/Store/Result.antt =====
-- durable-store/src/error.rs and the checked conversions at the end of
-- store-postgres/src/transaction_executor.rs. An error keeps its code; the message is text only,
-- and the retry class is `store_error`'s function of the code.
use agent_loom.Base.{
  ℕ, ◌+◌, ◌<◌, ◌≡◌, refl, ◌⊎◌, inl, inr, Bool, true, false, Option, none, some, ltb, if◌then◌else◌,
  arith,
}

pub data StoreErrorCode : Type 0 where
  not_found tenant_mismatch invalid_transition version_conflict terminal_run lease_lost
        lease_expired idempotency_key_reused wait_mismatch wait_already_consumed wait_expired
        deadline_exceeded outcome_unknown pause_recovery_required adapter_capability_missing
        inconsistent_projection constraint_violation serialization_conflict store_unavailable
        migration_required :
      StoreErrorCode

pub data StoreResult {ℓ} (A : Type ℓ) : Type ℓ where
  ok : A → StoreResult A
  err : StoreErrorCode → StoreResult A

-- `?` on a result: an error ends the function, a value goes on.
infixl 5 ◌>>=◌
abbrev pub ◌>>=◌ {ℓ κ} :
    {A : Type ℓ} {B : Type κ} → StoreResult A → (A → StoreResult B) → StoreResult B
err code >>= next = err code
ok value >>= next = next value

-- `if bad { return Err(e) }`.
abbrev pub reject_if : Bool → StoreErrorCode → StoreResult (Unit {0})
reject_if true e = err e
reject_if false e = ok tt

-- A check, and what follows it.
infixl 5 ◌>>◌
abbrev pub ◌>>◌ {κ} : {B : Type κ} → StoreResult (Unit {0}) → StoreResult B → StoreResult B
check >> next = check >>= (λ passed. next)

-- `ok_or_else`.
abbrev pub ok_or {ℓ} : {A : Type ℓ} → Option A → StoreErrorCode → StoreResult A
ok_or none e = err e
ok_or (some a) e = ok a

-- One more than `i64::MAX`.
abbrev pub i64_bound : ℕ
i64_bound = 9223372036854775808

-- `i64::checked_add` on values that are not negative.
unfoldable pub checked_add : ℕ → ℕ → Option ℕ
checked_add a b = if ltb (a + b) i64_bound then some (a + b) else none

-- `u64::checked_add`.
unfoldable pub checked_add_u64 : ℕ → ℕ → Option ℕ
checked_add_u64 a b = if ltb (a + b) 18446744073709551616 then some (a + b) else none

-- `i64::try_from` of a `u64`.
unfoldable pub try_i64 : ℕ → Option ℕ
try_i64 v = if ltb v i64_bound then some v else none

unfoldable pub to_i64 : ℕ → StoreResult ℕ
unfolding try_i64
to_i64 v = ok_or (try_i64 v) StoreErrorCode.constraint_violation

pub checked_add-some : (a b c : ℕ) → checked_add a b ≡ some c → (c ≡ a + b) × (a + b < i64_bound)
unfolding checked_add
checked_add-some a b c h = ground arith

pub try_i64-some : (v w : ℕ) → try_i64 v ≡ some w → (w ≡ v) × (v < i64_bound)
unfolding try_i64
try_i64-some v w h = ground arith

-- What holds of the result if there is one.
abbrev pub Ensures {ℓ κ} : {A : Type ℓ} → (A → Type κ) → StoreResult A → Type κ
Ensures P (ok a) = P a
Ensures P (err e) = Unit

-- A bind ensures what its second part ensures on each result of the first.
pub Ensures-bind {ℓ κ μ} :
    {A : Type ℓ} {B : Type κ} (P : B → Type μ) (m : StoreResult A) (f : A → StoreResult B)
    → ((a : A) → m ≡ ok a → Ensures P (f a))
    → Ensures P (m >>= f)
Ensures-bind P (ok a) f h = h a refl
Ensures-bind P (err e) f h = tt

-- A bind that is ok has two parts that are.
pub >>=-eq-ok {ℓ κ} :
    {A : Type ℓ} {B : Type κ} {result : B} (step : StoreResult A) (next : A → StoreResult B)
    → ◌>>=◌ {B = B} step next ≡ ok result
    → (value : A) × (step ≡ ok value) × (next value ≡ ok result)
>>=-eq-ok (err code) next done = absurd cc
>>=-eq-ok (ok value) next done = (value, refl, done)

-- To split on a result and keep the equation.
pub StoreResult-cases {ℓ} :
    {A : Type ℓ} (m : StoreResult A) → ((a : A) × (m ≡ ok a)) ⊎ ((e : StoreErrorCode) × (m ≡ err e))
StoreResult-cases (ok a) = inl (a, refl)
StoreResult-cases (err e) = inr (e, refl)

pub ok-eq {ℓ} : {A : Type ℓ} {x y : A} → ok x ≡ ok y → x ≡ y
ok-eq h = cc

pub ok-pair-eq {ℓ κ} :
    {A : Type ℓ} {B : Type κ} {a c : A} {b d : B}
    → ◌≡◌ {A = StoreResult (A × B)} (ok (a, b)) (ok (c, d))
    → (a ≡ c) × (b ≡ d)
ok-pair-eq h = (ground arith, ground arith)

pub ok-triple-eq :
    {A B C : Type 0} {a x : A} {b y : B} {c z : C}
    → ◌≡◌ {A = StoreResult (A × B × C)} (ok (a, b, c)) (ok (x, y, z))
    → (a ≡ x) × (b ≡ y) × (c ≡ z)
ok-triple-eq h = (ground arith, ground arith, ground arith)

-- A bind goes on with the value of its first part.
pub >>=-ok {ℓ κ} :
    {A : Type ℓ} {B : Type κ} {step : StoreResult A} {value : A} (next : A → StoreResult B)
    → step ≡ ok value
    → ◌>>=◌ {B = B} step next ≡ next value
>>=-ok next e = rw e refl

pub reject_if-passes :
    {bad : Bool} (code : StoreErrorCode) → bad ≡ false → reject_if bad code ≡ ok tt
reject_if-passes code e = rw e refl
