-- ===== src/Store/Machine/Commands.antt =====
-- The effect of each command under an open receipt.
use Prim.Native.String.{String}
use agent_loom.Base.{
  ℕ, ◌≡◌, true, not, ◌||◌, ◌&&◌, inl, inr, Option, none, some, arith, Option-cases, Bool-cases,
  keep_where-All, find_where, ◌==◌, keep_where, is_none_or, exists_where, is_some, ltb,
}
use agent_loom.Domain.Json.{Value}
use agent_loom.Domain.Status.{is_leased}
use agent_loom.Store.Result.{StoreErrorCode, checked_add, ok, >>=-eq-ok, ok_or, to_i64}
use agent_loom.Store.Rows.{RunRow, TaskRow}
use agent_loom.Store.Outcome.{
  CommandContext, Committed, ClaimedTask, RunSnapshot, LeaseReclaimOutcome, OutcomeKind,
  ReceiptOutcome,
}
use agent_loom.Store.Database.{Database, is_run, is_task_of}
use agent_loom.Store.Fences.{lock_worker_task, validate_worker_fences, claimed_task, positive_u32}
use agent_loom.Store.Candidates.{Locks, lock_claim_candidate}
use agent_loom.Store.Claim.{ClaimTask, claim_new, claim_none, claim_locked, apply_claim}
use agent_loom.Store.Renew.{RenewTaskLease, renew_new, extend_lease}
use agent_loom.Store.Expiry.{first_expired, is_expired_lease}
use agent_loom.Store.Reclaim.{
  reclaim_new, reclaim_none, reclaim_candidate, reclaim_locked, reclaim_applied, apply_reclaim,
}
use agent_loom.Store.Failure.{FailTask}
use agent_loom.Store.Fail.{fail_new, apply_failure}
use agent_loom.Store.Transition.{ControlRun, ControlKind, is_no_op}
use agent_loom.Store.Control.{control_new, control_no_op, control_applied, apply_control}
use agent_loom.Store.Reclaim.Laws.{first_expired-All}
use agent_loom.Store.Machine.Effects.{
  IsSame, claimed, extended, reclaimed, failed, controlled, Inner, finish-IsSame,
}

module _ (opened : Database) (context : CommandContext) (now : ℕ) where
  -- The row that is reclaimed is one of those that the query selects.
  expired_row :
      {c : TaskRow}
      → first_expired (keep_where (is_expired_lease opened context.tenant_id now) opened.tasks)
        ≡ some c
      → is_expired_lease opened context.tenant_id now c ≡ true
  expired_row e =
      first_expired-All (λ t. is_expired_lease opened context.tenant_id now t ≡ true) _
        (keep_where-All (is_expired_lease opened context.tenant_id now) opened.tasks) e

module _ (pointer : Value → String → Option Value) (opened : Database) (context : CommandContext)
    (now : ℕ) {after : Database} where
  pub claim_new-Inner :
      (locks : Locks) (command : ClaimTask) {answer : Option (Committed ClaimedTask)}
      → claim_new opened locks context command now ≡ ok (after, answer)
      → Inner pointer opened after
  unfolding claim_new claim_none claim_locked
  claim_new-Inner locks command h =
      elim (Option-cases (
        lock_claim_candidate opened locks context.tenant_id now command.candidate_window
          command.kind)) [
            | inl e ↦ inl (
                finish-IsSame opened context OutcomeKind.no_op (ReceiptOutcome.claim none) none none
                  none (rw (e, claim_new) at h))
            | inr (locked, e) ↦
                let ((changed, value, attempt), applied, h1) =
                  >>=-eq-ok (apply_claim opened context command now locked) _
                    (rw (e, claim_new) at h) in
                inr (
                  changed,
                  claimed locks context command now locked e applied,
                  finish-IsSame changed context OutcomeKind.applied _ (some context.command_id)
                      (some ("task", locked.task.task_id, attempt)) _ h1,
                )
          ]

  pub renew_new-Inner :
      (command : RenewTaskLease) {answer : Committed ClaimedTask}
      → renew_new opened context command now ≡ ok (after, answer)
      → Inner pointer opened after
  unfolding renew_new
  renew_new-Inner command h =
      let (locked, found, h1) =
        >>=-eq-ok
          (lock_worker_task opened context.tenant_id command.expected_run.run_id
            command.lease.task_id)
          _ h in
      let (u, fenced, h2) =
        >>=-eq-ok (validate_worker_fences command.expected_run command.lease locked now) _ h1 in
      let (extension, e3, h3) = >>=-eq-ok (to_i64 command.extension) _ h2 in
      let (expires, e4, h4) =
        >>=-eq-ok (ok_or locked.task.lease_expires_at StoreErrorCode.constraint_violation) _ h3 in
      let (later, e5, h5) =
        >>=-eq-ok (ok_or (checked_add expires extension) StoreErrorCode.constraint_violation) _
          h4 in
      let (changed, extension, h6) =
        >>=-eq-ok (extend_lease opened context.tenant_id locked command.lease.token later now) _
          h5 in
      let (value, e7, h7) = >>=-eq-ok (claimed_task locked context.tenant_id later) _ h6 in
      inr (
        changed,
        extended context command now later locked extension,
        finish-IsSame changed context OutcomeKind.applied _ none
            (some ("task", locked.task.task_id, locked.task.attempt)) _ h7,
      )

  reclaim_none-IsSame :
      {answer : Option (Committed LeaseReclaimOutcome)}
      → reclaim_none opened context ≡ ok (after, answer)
      → IsSame opened after
  unfolding reclaim_none
  reclaim_none-IsSame h = finish-IsSame opened context OutcomeKind.no_op _ none none none h

  reclaim_applied-Inner :
      (event_id run_id : ℕ) (run : RunRow) (task : TaskRow)
      {answer : Option (Committed LeaseReclaimOutcome)}
      → find_where (is_run context.tenant_id run_id) opened.runs ≡ some run
      → exists_where
          (λ (r : RunRow). is_run context.tenant_id run_id r && not (is_some r.terminal_event_id))
          opened.runs
        ≡ true
      → reclaim_applied opened context event_id now run task ≡ ok (after, answer)
      → Inner pointer opened after
  unfolding reclaim_applied
  reclaim_applied-Inner event_id run_id run task found live h =
      let (changed, applied, h1) =
        >>=-eq-ok (apply_reclaim opened context event_id now run task) _ h in
      let (attempt, e2, h2) = >>=-eq-ok (positive_u32 task.attempt) _ h1 in
      inr (
        changed,
        reclaimed context event_id now run_id run task found live applied,
        finish-IsSame changed context OutcomeKind.applied _ (some event_id)
            (some ("task", task.task_id, task.attempt)) _ h2,
      )

  pub reclaim_new-Inner :
      (event_id : ℕ) {answer : Option (Committed LeaseReclaimOutcome)}
      → reclaim_new opened context event_id now ≡ ok (after, answer)
      → Inner pointer opened after
  unfolding reclaim_new reclaim_candidate reclaim_locked is_expired_lease
  reclaim_new-Inner event_id h =
      elim (Option-cases
        (first_expired (keep_where (is_expired_lease opened context.tenant_id now) opened.tasks))) [
          | inl e ↦ inl (reclaim_none-IsSame (rw (e, reclaim_new) at h))
          | inr (candidate, e) ↦
              let (run, found, h1) =
                >>=-eq-ok
                  (ok_or (find_where (is_run context.tenant_id candidate.run_id) opened.runs)
                    StoreErrorCode.not_found)
                  _ (rw (e, reclaim_new) at h) in
              let (task, e2, h2) =
                >>=-eq-ok
                  (ok_or
                    (find_where
                      (λ (t : TaskRow).
                        is_task_of context.tenant_id candidate.run_id t
                        && t.task_id == candidate.task_id)
                      opened.tasks)
                    StoreErrorCode.inconsistent_projection)
                  _ h1 in
              elim (Bool-cases (
                not (is_leased task.status)
                || is_none_or task.lease_expires_at (λ expires. ltb now expires))) [
                  | inl lost ↦ inl (reclaim_none-IsSame (rw lost at h2))
                  | inr held ↦
                      reclaim_applied-Inner event_id candidate.run_id run task
                        (ground (arith, found)) (ground (arith, expired_row opened context now e))
                        (rw held at h2)
                ]
        ]

  pub fail_new-Inner :
      (command : FailTask) {answer : Committed RunSnapshot}
      → fail_new pointer opened context command now ≡ ok (after, answer)
      → Inner pointer opened after
  unfolding fail_new
  fail_new-Inner command h =
      let (locked, found, h1) =
        >>=-eq-ok
          (lock_worker_task opened context.tenant_id command.expected_run.run_id
            command.lease.task_id)
          _ h in
      let (u, fenced, h2) =
        >>=-eq-ok (validate_worker_fences command.expected_run command.lease locked now) _ h1 in
      let ((changed, snapshot, follow_ups), applied, h3) =
        >>=-eq-ok (apply_failure pointer opened context command now locked) _ h2 in
      inr (
        changed,
        failed context command now locked {answer = (snapshot, follow_ups)} found fenced applied,
        finish-IsSame changed context OutcomeKind.applied _ (some command.failure_event_id)
            (some ("run", snapshot.run_id, snapshot.version)) _ h3,
      )

  pub control_new-Inner :
      (command : ControlRun) (kind : ControlKind) {answer : Committed RunSnapshot}
      → control_new opened context command kind now ≡ ok (after, answer)
      → Inner pointer opened after
  unfolding control_new control_no_op control_applied
  control_new-Inner command kind h =
      let (run, found, h1) =
        >>=-eq-ok
          (ok_or (find_where (is_run context.tenant_id command.expected_run.run_id) opened.runs)
            StoreErrorCode.not_found)
          _ h in
      elim (Bool-cases (is_no_op kind run.status)) [
        | inl e ↦ inl (
            finish-IsSame opened context OutcomeKind.no_op _ none
              (some ("run", run.run_id, run.version)) _ (rw e at h1))
        | inr e ↦
            let ((changed, snapshot, follow_ups), applied, h2) =
              >>=-eq-ok (apply_control opened context command kind now run) _ (rw e at h1) in
            inr (
              changed,
              controlled context command kind now run {answer = (snapshot, follow_ups)}
                  (ground (arith, found)) e applied,
              finish-IsSame changed context OutcomeKind.applied _ (some command.event_id)
                  (some ("run", run.run_id, snapshot.version)) _ h2,
            )
      ]
