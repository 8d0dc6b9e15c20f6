-- ===== src/Store/Reclaim/Laws.antt =====
-- What the reclamation of an expired lease changes.
use agent_loom.Base.{
  ℕ, ◌+◌, ◌≡◌, [], ◌∷◌, ◌++◌, arith, update_where, List, some, All, Option-cases, Bool-cases, inl,
  inr,
}
use mathlib.Core.Path.{subst}
use agent_loom.Store.Result.{ok}
use agent_loom.Store.Rows.{RunRow, TaskRow}
use agent_loom.Store.Outcome.{CommandContext}
use agent_loom.Store.Database.{Database, insert_event, event_row}
use agent_loom.Store.Expiry.{
  first_expired, expires_before, is_reclaimed, reclaimed_row, expiry_action, is_current_run,
  reclaimed_run_status, reclaimed_event_type,
}
use agent_loom.Store.Reclaim.{apply_reclaim}

-- The lease that is reclaimed first is one of those that have expired.
pub first_expired-All {κ} :
    (P : TaskRow → Type κ) (ts : List TaskRow) {t : TaskRow}
    → All P ts
    → first_expired ts ≡ some t
    → P t
unfolding first_expired
first_expired-All P [] all h = absurd cc
first_expired-All P (t ∷ ts) {t = u} all h = elim (Option-cases (first_expired ts)) [
  | inl e ↦ subst P (ground (arith, e)) all.0
  | inr (w, e) ↦ elim (Bool-cases (expires_before t w)) [
    | inl b ↦ subst P (ground (arith, e, b)) all.0
    | inr b ↦ first_expired-All P ts {t = u} all.1 (ground (arith, e, b))
  ]
]

module _ (db : Database) (context : CommandContext) (event_id now : ℕ) (run : RunRow)
    (task : TaskRow) {changed : Database}
    (h : apply_reclaim db context event_id now run task ≡ ok changed) where
  pub reclaim-receipts : changed.receipts ≡ db.receipts
  unfolding apply_reclaim insert_event
  reclaim-receipts = ground arith

  pub reclaim-tasks :
      changed.tasks
      ≡ update_where
          (is_reclaimed context.tenant_id task now)
          (reclaimed_row (expiry_action task) run.execution_generation now)
          db.tasks
  unfolding apply_reclaim insert_event
  reclaim-tasks = ground arith

  pub reclaim-runs :
      changed.runs
      ≡ update_where
          (is_current_run context.tenant_id run)
          (λ r. record r {
            version = r.version + 1;
            next_event_sequence = run.next_event_sequence + 1;
            status = reclaimed_run_status (expiry_action task);
            updated_at = now;
          })
          db.runs
  unfolding apply_reclaim insert_event
  reclaim-runs = ground arith

  pub reclaim-events :
      changed.events
      ≡ db.events
        ++ event_row context event_id run.run_id run.next_event_sequence
            (reclaimed_event_type (expiry_action task))
            "scheduler"
            now
          ∷ []
  unfolding apply_reclaim insert_event
  reclaim-events = ground arith
