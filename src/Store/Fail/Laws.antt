-- ===== src/Store/Fail/Laws.antt =====
-- What a failure changes.
use Prim.Native.String.{String}
use agent_loom.Base.{
  ℕ, ◌≡◌, refl, Bool, true, false, Option, some, List, arith, Bool-cases, Option-cases, inl, inr,
  ◌⊎◌,
}
use agent_loom.Domain.Json.{Value}
use agent_loom.Store.Result.{ok, StoreResult-cases}
use agent_loom.Store.Rows.{TaskRow}
use agent_loom.Store.Outcome.{DurableFollowUp}
use agent_loom.Store.Database.{Database}
use agent_loom.Store.Dependencies.{resolve_dependent_tasks}
use agent_loom.Store.External.{
  close_work_after_fatal_failure, request_external_stops, mark_executing_tools_uncertain,
}
use agent_loom.Store.Failure.{FailureTransition, is_retry}
use agent_loom.Store.Fail.{resolve_after_failure, close_if_terminal, after_activation}

-- The tables that neither the resolution of dependents nor the closing of work changes.
abbrev pub Untouched : Database → Database → Type 0
Untouched a b =
    (b.runs ≡ a.runs) × (b.events ≡ a.events) × (b.receipts ≡ a.receipts) × (b.outbox ≡ a.outbox)

module _ (pointer : Value → String → Option Value) (db : Database) (tenant_id now : ℕ)
    (task : TaskRow) (transition : FailureTransition) where
  -- A retry resolves no dependents; any other failure does.
  pub after_failure-cases :
      {resolved : Database} {settled : FailureTransition} {follow_ups : List DurableFollowUp}
      → resolve_after_failure pointer db tenant_id task now transition
        ≡ ok (resolved, settled, follow_ups)
      → ((is_retry transition.task_status ≡ true) × (resolved ≡ db) × (settled ≡ transition))
        ⊎ ((activated : List ℕ) × (is_retry transition.task_status ≡ false)
            × (resolve_dependent_tasks pointer tenant_id task.run_id now db task.task_id
                ≡ some (ok (resolved, activated)))
            × (settled ≡ (after_activation resolved transition activated).1))
  unfolding resolve_after_failure
  after_failure-cases {resolved} {settled} {follow_ups} h =
      elim (Bool-cases (is_retry transition.task_status)) [
        | inl e ↦ inl (e, ground (arith, e), ground (arith, e))
        | inr e ↦
            elim (Option-cases
              (resolve_dependent_tasks pointer tenant_id task.run_id now db task.task_id)) [
                | inl out ↦ absurd (ground (arith, e, out))
                | inr (m, some_m) ↦ elim (StoreResult-cases m) [
                  | inr (x, failed) ↦ absurd (ground (arith, e, some_m, failed))
                  | inl ((r, activated), done) ↦
                      let first : r ≡ resolved = ground (arith, e, some_m, done) in
                      inr (
                        activated,
                        e,
                        ground (arith, some_m, done, first),
                        ground (arith, e, some_m, done, first),
                      )
                ]
              ]
      ]

pub close-Untouched :
    (tenant_id now : ℕ) (task : TaskRow) (terminal : Bool) (db : Database)
    (follow_ups : List DurableFollowUp)
    → Untouched db (close_if_terminal tenant_id task now terminal db follow_ups).0
unfolding close_if_terminal close_work_after_fatal_failure request_external_stops
    mark_executing_tools_uncertain
close-Untouched tenant_id now task false db follow_ups = (refl, refl, refl, refl)
close-Untouched tenant_id now task true db follow_ups = (refl, refl, refl, refl)
