-- ===== src/Domain/Plan/Chains.antt =====
-- plan.rs: the dependencies of a plan's tasks as a relation, and its chains without repetition.
use agent_loom.Base.{
  ℕ, ◌≡◌, refl, inl, inr, true, false, some, List, [], ◌∷◌, ◌==◌, arith, find_where, exists_where,
  contains, Bool-cases, ==→eq,
}
use agent_loom.Domain.Plan.{ExecutionTaskSpec, has_task_key, has_dependency_key}

-- The task of key `k` names the key `d` as a dependency.
abbrev pub Needs : List ExecutionTaskSpec → ℕ → ℕ → Type 0
Needs tasks k d =
    (task : ExecutionTaskSpec) × (find_where (has_task_key k) tasks ≡ some task)
    × (exists_where (has_dependency_key d) task.dependencies ≡ true)

-- `d` is a dependency of `k`, directly or through others.
pub data DependsOn (tasks : List ExecutionTaskSpec) : ℕ → ℕ → Type 0 where
  direct : {k d : ℕ} → Needs tasks k d → DependsOn tasks k d
  through : {k m d : ℕ} → Needs tasks k m → DependsOn tasks m d → DependsOn tasks k d

-- A chain of dependencies from `k` to `d`, with the keys between.
abbrev Chain : List ExecutionTaskSpec → ℕ → List ℕ → ℕ → Type 0
Chain tasks k [] d = Needs tasks k d
Chain tasks k (m ∷ via) d = Needs tasks k m × Chain tasks m via d

abbrev IsDistinct : List ℕ → Type 0
IsDistinct [] = Unit
IsDistinct (k ∷ ks) = (contains ks k ≡ false) × IsDistinct ks

-- A chain without a repeated key.
abbrev pub IsSimple : List ExecutionTaskSpec → ℕ → ℕ → List ℕ → Type 0
IsSimple tasks k d via = Chain tasks k via d × IsDistinct (k ∷ via)

-- What follows the first visit of `k`.
cut :
    (tasks : List ExecutionTaskSpec) (k d m : ℕ) (via : List ℕ)
    → contains (m ∷ via) k ≡ true
    → IsSimple tasks m d via
    → (rest : List ℕ) × IsSimple tasks k d rest
unfolding contains
cut tasks k d m [] seen chain = let same : m ≡ k = ground arith in ([], rw same at chain)
cut tasks k d m (n ∷ via) seen chain = elim (Bool-cases (m == k)) [
  | inl e ↦ let same : m ≡ k = ==→eq m k e in (n ∷ via, rw same at chain)
  | inr e ↦ cut tasks k d n via (rw e at seen) (chain.0.1, chain.1.1)
]

pub IsSimple-chain :
    (tasks : List ExecutionTaskSpec) {k d : ℕ}
    → DependsOn tasks k d
    → (via : List ℕ) × IsSimple tasks k d via
unfolding contains
IsSimple-chain tasks (direct need) = ([], (need, (refl, tt)))
IsSimple-chain tasks {k} {d} (through {m = m} need later) =
    let (via, chain) = IsSimple-chain tasks later in
    elim (Bool-cases (contains (m ∷ via) k)) [
      | inl seen ↦ cut tasks k d m via seen chain
      | inr fresh ↦ (m ∷ via, ((need, chain.0), (fresh, chain.1)))
    ]
