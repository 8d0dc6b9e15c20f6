-- ===== src/Store/Renew/Laws.antt =====
-- What a renewal changes.
use agent_loom.Base.{ℕ, ◌≡◌, arith, some, update_where}
use agent_loom.Store.Result.{ok}
use agent_loom.Store.Database.{Database}
use agent_loom.Store.Fences.{LockedWorkerTask}
use agent_loom.Store.Renew.{extend_lease, is_renewed}

module _ (db : Database) (tenant_id : ℕ) (locked : LockedWorkerTask) (token expires now : ℕ)
    {changed : Database} (h : extend_lease db tenant_id locked token expires now ≡ ok changed) where
  pub extend-receipts : changed.receipts ≡ db.receipts
  unfolding extend_lease
  extend-receipts = ground arith

  pub extend-runs : changed.runs ≡ db.runs
  unfolding extend_lease
  extend-runs = ground arith

  pub extend-events : changed.events ≡ db.events
  unfolding extend_lease
  extend-events = ground arith

  pub extend-tasks :
      changed.tasks
      ≡ update_where
          (is_renewed tenant_id locked token)
          (λ t. record t { lease_expires_at = some expires; updated_at = now })
          db.tasks
  unfolding extend_lease
  extend-tasks = ground arith
