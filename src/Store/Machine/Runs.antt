-- ===== src/Store/Machine/Runs.antt =====
-- How a run changes: its counters never go back, and what has ended stays as it is.
use Prim.Native.String.{String}
use native.Mathlib.Nat.{le_trans, le_refl}
use mathlib.Core.Path.{subst}
use agent_loom.Base.{
  ℕ, ◌≤◌, ◌≡◌, ◌∙◌, sym, refl, ap, true, false, List, [], ◌∷◌, inl, inr, arith, update_where,
  has_key_of, All, All-map, Bool-cases, exists_where-only, Option, All-update_where, find_where-All,
}
use agent_loom.Domain.Json.{Value}
use agent_loom.Domain.Status.{is_terminal_run}
use agent_loom.Store.Rows.{RunRow}
use agent_loom.Store.Database.{Database}
use agent_loom.Store.Machine.{Step, Steps, done, then_step}
use agent_loom.Store.Machine.Effects.{Effect}
use agent_loom.Store.Machine.Decompose.{Step-HasEffect}
use agent_loom.Store.Machine.RunChanges.{RunChange, run_tenant, run_key, IsProjected}
use agent_loom.Store.Machine.Failures.{Effect-RunChange}
use agent_loom.Store.Machine.Log.{IsLogged, only_run, changed-IsLogged, same-IsLogged}

-- A run as it may be later.
pub record Evolves (r s : RunRow) : Type 0 where
  pub tenant : s.tenant_id ≡ r.tenant_id
  pub key : s.run_id ≡ r.run_id
  pub version : r.version ≤ s.version
  pub generation : r.execution_generation ≤ s.execution_generation
  pub sequence : r.next_event_sequence ≤ s.next_event_sequence
  pub ended : is_terminal_run r.status ≡ true → s ≡ r

-- A table of runs as it may be later: the same runs, in the same places.
pub data EvolvesAll : List RunRow → List RunRow → Type 0 where
  no_runs : EvolvesAll [] []
  each_run :
      {r s : RunRow} {rs ss : List RunRow}
      → Evolves r s
      → EvolvesAll rs ss
      → EvolvesAll (r ∷ rs) (s ∷ ss)

Evolves-refl : (r : RunRow) → Evolves r r
Evolves-refl r = record {
  tenant = refl;
  key = refl;
  version = le_refl _;
  generation = le_refl _;
  sequence = le_refl _;
  ended = λ e. refl;
}

Evolves-trans : (r s t : RunRow) → Evolves r s → Evolves s t → Evolves r t
Evolves-trans r s t h k = record {
  tenant = k.tenant ∙ h.tenant;
  key = k.key ∙ h.key;
  version = le_trans h.version k.version;
  generation = le_trans h.generation k.generation;
  sequence = le_trans h.sequence k.sequence;
  ended = λ e.
      k.ended (subst (λ (x : RunRow). is_terminal_run x.status ≡ true) (sym (h.ended e)) e)
      ∙ h.ended e;
}

EvolvesAll-refl : (rs : List RunRow) → EvolvesAll rs rs
EvolvesAll-refl [] = no_runs
EvolvesAll-refl (r ∷ rs) = each_run (Evolves-refl r) (EvolvesAll-refl rs)

EvolvesAll-trans : (rs ss ts : List RunRow) → EvolvesAll rs ss → EvolvesAll ss ts → EvolvesAll rs ts
EvolvesAll-trans [] [] [] no_runs no_runs = no_runs
EvolvesAll-trans [] [] (t ∷ ts) h k = elim k [ ]
EvolvesAll-trans [] (s ∷ ss) ts h k = elim h [ ]
EvolvesAll-trans (r ∷ rs) [] ts h k = elim h [ ]
EvolvesAll-trans (r ∷ rs) (s ∷ ss) [] h k = elim k [ ]
EvolvesAll-trans (r ∷ rs) (s ∷ ss) (t ∷ ts) (each_run h hs) (each_run k ks) =
    each_run (Evolves-trans r s t h k) (EvolvesAll-trans rs ss ts hs ks)

-- Each run has its terminal event exactly if it has ended.
abbrev pub AllProjected : Database → Type 0
AllProjected db = All IsProjected db.runs

module _ (db after : Database) (h : IsLogged db) (ps : AllProjected db)
    (c : RunChange db after) where
  -- The run that changes has not ended.
  changed_run-live : is_terminal_run c.run.status ≡ false
  changed_run-live = elim c.live [
    | inl e ↦ e
    | inr unended ↦
        exists_where-only (is_terminal_run c.run.status ≡ false) _ db.runs
          (All-map _ _ db.runs
            (λ r only e. ground (
              arith,
              find_where-All IsProjected c.query db.runs ps c.found,
              ap (λ (x : RunRow). x.terminal_event_id) (only (ground (arith, e))),
              e,
            ))
            (only_run db after h c))
          unended
  ]

  changed_row-Evolves : (r : RunRow) → r ≡ c.run → Evolves r (c.change r)
  changed_row-Evolves r e =
      subst (λ x. Evolves x (c.change x)) (sym e)
        (record {
          tenant = c.tenant c.run;
          key = c.key c.run;
          version = omega (arith, c.version);
          generation = c.generation;
          sequence = omega (arith, c.sequence);
          ended = λ t. absurd (ground (arith, t, changed_run-live));
        })

  rows-EvolvesAll :
      (rs : List RunRow)
      → All (λ r. has_key_of run_tenant run_key c.run r ≡ true → r ≡ c.run) rs
      → EvolvesAll rs (update_where c.touched c.change rs)
  unfolding update_where
  rows-EvolvesAll [] only = no_runs
  rows-EvolvesAll (r ∷ rs) only = elim (Bool-cases (c.touched r)) [
    | inl e ↦
        rw e (each_run (changed_row-Evolves r (only.0 (c.touches r e))) (rows-EvolvesAll rs only.1))
    | inr e ↦ rw e (each_run (Evolves-refl r) (rows-EvolvesAll rs only.1))
  ]

  changed-EvolvesAll : EvolvesAll db.runs after.runs
  changed-EvolvesAll =
      subst (EvolvesAll db.runs) (sym c.runs) (rows-EvolvesAll db.runs (only_run db after h c))

  changed-AllProjected : AllProjected after
  changed-AllProjected =
      let own = find_where-All IsProjected c.query db.runs ps c.found in
      subst (All IsProjected) (sym c.runs) (
        All-update_where IsProjected c.touched c.change db.runs ps (
          All-map _ _ db.runs
            (λ r only e.
              subst (λ x. IsProjected (c.change x)) (sym (only (c.touches r e)))
                (c.projected own changed_run-live))
            (only_run db after h c)))

-- What the runs keep, and how they change, over one transaction or more.
pub record RunsEvolve (db after : Database) : Type 0 where
  pub logged : IsLogged after
  pub projected : AllProjected after
  pub evolve : EvolvesAll db.runs after.runs

same-RunsEvolve :
    (a b : Database)
    → b.runs ≡ a.runs
    → b.events ≡ a.events
    → IsLogged a
    → AllProjected a
    → RunsEvolve a b
same-RunsEvolve a b runs events h ps = record {
  logged = same-IsLogged a b runs events h;
  projected = subst (All IsProjected) (sym runs) ps;
  evolve = subst (EvolvesAll a.runs) (sym runs) (EvolvesAll-refl a.runs);
}

RunsEvolve-trans : (a b c : Database) → RunsEvolve a b → RunsEvolve b c → RunsEvolve a c
RunsEvolve-trans a b c h k = record {
  logged = k.logged;
  projected = k.projected;
  evolve = EvolvesAll-trans a.runs b.runs c.runs h.evolve k.evolve;
}

Effect-RunsEvolve :
    (pointer : Value → String → Option Value) (db after : Database)
    → IsLogged db
    → AllProjected db
    → Effect pointer db after
    → RunsEvolve db after
Effect-RunsEvolve pointer db after h ps effect = elim (Effect-RunChange pointer db after effect) [
  | inl (runs, events) ↦ same-RunsEvolve db after runs events h ps
  | inr c ↦ record {
    logged = changed-IsLogged db after h c;
    projected = changed-AllProjected db after h ps c;
    evolve = changed-EvolvesAll db after h ps c;
  }
]

Step-RunsEvolve :
    (pointer : Value → String → Option Value) (ttl : ℕ) (db after : Database)
    → IsLogged db
    → AllProjected db
    → Step pointer ttl db after
    → RunsEvolve db after
Step-RunsEvolve pointer ttl db after h ps step = elim (Step-HasEffect pointer ttl db after step) [
  | inl same ↦ same-RunsEvolve db after same.runs same.events h ps
  | inr (opened, changed, opening, effect, closing) ↦
      let first = same-RunsEvolve db opened opening.runs opening.events h ps in
      let second = Effect-RunsEvolve pointer opened changed first.logged first.projected effect in
      RunsEvolve-trans db changed after (RunsEvolve-trans db opened changed first second)
        (same-RunsEvolve changed after closing.runs closing.events second.logged second.projected)
]

-- However many transactions commit, the runs stay in their places, their versions, generations and
-- next event numbers never go back, a run that has ended stays exactly as it is, a run has its
-- terminal event exactly if it has ended, and the log stays numbered. At the start the log is
-- numbered, with unique keys of the runs, and the runs that have ended have their terminal event,
-- they alone.
pub Steps-RunsEvolve :
    (pointer : Value → String → Option Value) (ttl : ℕ) (db after : Database)
    → IsLogged db
    → AllProjected db
    → Steps pointer ttl db after
    → RunsEvolve db after
Steps-RunsEvolve pointer ttl db after h ps done = same-RunsEvolve db db refl refl h ps
Steps-RunsEvolve pointer ttl db after h ps (then_step {middle = middle} before step) =
    let first = Steps-RunsEvolve pointer ttl db middle h ps before in
    RunsEvolve-trans db middle after first
      (Step-RunsEvolve pointer ttl middle after first.logged first.projected step)
