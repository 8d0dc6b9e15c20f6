-- ===== src/Store/Machine/Log.antt =====
-- The event log: the numbers of a run's events stay below the next one that the run will give.
use Prim.Native.String.{String}
use mathlib.Core.Path.{subst}
use agent_loom.Base.{
  ℕ, ◌+◌, ◌<◌, ◌≤◌, ◌≡◌, sym, refl, ap, Bool, true, ◌&&◌, List, [], ◌∷◌, inl, inr, arith,
  update_where, count_where, Bool-cases, if◌then◌else◌, find_where-only, has_key_of, IsKeyed,
  update_where-IsKeyed, All, All-map, All-append, All-update_where, ◌==◌, Option,
}
use agent_loom.Domain.Json.{Value}
use agent_loom.Store.Rows.{RunRow, EventRow}
use agent_loom.Store.Database.{Database}
use agent_loom.Store.Machine.{Step}
use agent_loom.Store.Machine.Decompose.{Step-HasEffect}
use agent_loom.Store.Machine.RunChanges.{RunChange, run_tenant, run_key}
use agent_loom.Store.Machine.Failures.{Effect-RunChange}

-- The event is one of the run's.
abbrev pub is_event_of : RunRow → EventRow → Bool
is_event_of r e = e.tenant_id == r.tenant_id && e.run_id == r.run_id

-- An event has a number that its run has given before.
abbrev pub IsBelow : EventRow → RunRow → Type 0
IsBelow e r = is_event_of r e ≡ true → e.sequence < r.next_event_sequence

-- The key of the runs is unique, and each event is numbered below its run's next number.
pub record IsNumbered (runs : List RunRow) (events : List EventRow) : Type 0 where
  pub keyed : IsKeyed run_tenant run_key runs
  pub below : All (λ e. All (IsBelow e) runs) events

abbrev pub IsLogged : Database → Type 0
IsLogged db = IsNumbered db.runs db.events

module _ (db after : Database) (h : IsLogged db) (c : RunChange db after) where
  -- The rows that the change touches are the run itself.
  pub only_run : All (λ r. has_key_of run_tenant run_key c.run r ≡ true → r ≡ c.run) db.runs
  only_run =
      find_where-only run_tenant run_key (λ r. r ≡ c.run) c.query db.runs h.keyed c.found refl

  changed_runs-IsKeyed : IsKeyed run_tenant run_key (update_where c.touched c.change db.runs)
  changed_runs-IsKeyed =
      update_where-IsKeyed run_tenant run_key c.touched c.change db.runs c.tenant c.key h.keyed

  changed-next :
      (r : RunRow) → r ≡ c.run → (c.change r).next_event_sequence ≡ r.next_event_sequence + 1
  changed-next r e =
      subst (λ (x : RunRow). (c.change x).next_event_sequence ≡ x.next_event_sequence + 1) (sym e)
        c.sequence

  -- An older event stays below.
  older-IsBelow :
      (e : EventRow)
      → All (IsBelow e) db.runs
      → All (IsBelow e) (update_where c.touched c.change db.runs)
  older-IsBelow e below =
      All-update_where (IsBelow e) c.touched c.change db.runs below (both db.runs below only_run)
    where
      both :
          (rs : List RunRow)
          → All (IsBelow e) rs
          → All (λ r. has_key_of run_tenant run_key c.run r ≡ true → r ≡ c.run) rs
          → All (λ r. c.touched r ≡ true → IsBelow e (c.change r)) rs
      both [] b o = tt
      both (r ∷ rs) b o = (
        λ t own.
            ground (arith, b.0, changed-next r (o.0 (c.touches r t)), c.tenant r, c.key r, own),
        both rs b.1 o.1,
      )

  touched_run : c.touched c.run ≡ true
  unfolding count_where
  touched_run = elim c.hit [ inl e ↦ e | inr found ↦ counted db.runs only_run found ]
    where
      counted :
          (rs : List RunRow)
          → All (λ r. has_key_of run_tenant run_key c.run r ≡ true → r ≡ c.run) rs
          → 1 ≤ count_where c.touched rs
          → c.touched c.run ≡ true
      counted [] o n = absurd (omega arith)
      counted (r ∷ rs) o n = elim (Bool-cases (c.touched r)) [
        | inl e ↦ subst (λ (x : RunRow). c.touched x ≡ true) (o.0 (c.touches r e)) e
        | inr e ↦ counted rs o.1 (ground (arith, e))
      ]

  newest-IsBelow_row :
      (r : RunRow)
      → (has_key_of run_tenant run_key c.run r ≡ true → r ≡ c.run)
      → IsBelow c.event (if c.touched r then c.change r else r)
  newest-IsBelow_row r only own = elim (Bool-cases (has_key_of run_tenant run_key c.run r)) [
    | inl e ↦
        let hit : c.touched r ≡ true =
          subst (λ (x : RunRow). c.touched x ≡ true) (sym (only e)) touched_run in
        let next : r.next_event_sequence ≡ c.run.next_event_sequence =
          ap (λ (x : RunRow). x.next_event_sequence) (only e) in
        ground (arith, hit, next, changed-next r (only e), c.event_sequence)
    | inr e ↦ absurd (ground (arith, e, own, c.tenant r, c.key r, c.event_tenant, c.event_run))
  ]

  -- The new event is the last number of the run.
  newest-IsBelow : All (IsBelow c.event) (update_where c.touched c.change db.runs)
  unfolding update_where
  newest-IsBelow = rows db.runs only_run
    where
      rows :
          (rs : List RunRow)
          → All (λ r. has_key_of run_tenant run_key c.run r ≡ true → r ≡ c.run) rs
          → All (IsBelow c.event) (update_where c.touched c.change rs)
      rows [] o = tt
      rows (r ∷ rs) o = (newest-IsBelow_row r (o.0), rows rs o.1)

  pub changed-IsLogged : IsLogged after
  changed-IsLogged =
      subst (λ runs. IsNumbered runs after.events) (sym c.runs)
        (subst (IsNumbered (update_where c.touched c.change db.runs)) (sym c.events) (record {
          keyed = changed_runs-IsKeyed;
          below =
              All-append _ db.events (c.event ∷ [])
                (All-map _ _ db.events (λ e b. older-IsBelow e b) h.below) (newest-IsBelow, tt);
        }))

pub same-IsLogged :
    (a b : Database) → b.runs ≡ a.runs → b.events ≡ a.events → IsLogged a → IsLogged b
same-IsLogged a b runs events h =
    subst (λ rs. IsNumbered rs b.events) (sym runs) (subst (IsNumbered a.runs) (sym events) h)

-- One transaction keeps the log numbered.
pub Step-IsLogged :
    (pointer : Value → String → Option Value) (ttl : ℕ) (db after : Database)
    → IsLogged db
    → Step pointer ttl db after
    → IsLogged after
Step-IsLogged pointer ttl db after h step = elim (Step-HasEffect pointer ttl db after step) [
  | inl same ↦ same-IsLogged db after same.runs same.events h
  | inr (opened, changed, opening, effect, closing) ↦
      let start = same-IsLogged db opened opening.runs opening.events h in
      same-IsLogged changed after closing.runs closing.events
        (elim (Effect-RunChange pointer opened changed effect) [
          | inl (runs, events) ↦ same-IsLogged opened changed runs events start
          | inr c ↦ changed-IsLogged opened changed start c
        ])
]
