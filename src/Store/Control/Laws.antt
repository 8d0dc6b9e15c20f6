-- ===== src/Store/Control/Laws.antt =====
-- What a control command changes.
use agent_loom.Base.{ℕ, ◌+◌, ◌≡◌, ap, ◌∙◌, List, [], ◌∷◌, ◌++◌, arith, update_where}
use agent_loom.Store.Result.{StoreResult, ok, >>=-eq-ok}
use agent_loom.Store.Rows.{RunRow}
use agent_loom.Store.Outcome.{CommandContext, RunSnapshot, DurableFollowUp}
use agent_loom.Store.Database.{Database, insert_event, event_row}
use agent_loom.Store.Expiry.{is_current_run}
use agent_loom.Store.External.{
  cancel_run_children, finalize_open_task_attempts, freeze_leased_tasks, request_external_stops,
  mark_executing_tools_uncertain,
}
use agent_loom.Store.Transition.{
  ControlRun, ControlKind, pause, resume, cancel, ControlTransition, control_transition,
  rebase_preserved_tasks, control_event_type,
}
use agent_loom.Store.Control.{validate_control, apply_control, commit_control, controlled_row}

module _ (tenant_id now : ℕ) (run : RunRow) (db : Database) {changed : Database}
    {transition : ControlTransition} where
  pub transition-Untouched :
      (kind : ControlKind)
      → control_transition kind tenant_id run now db ≡ ok (changed, transition)
      → (changed.runs ≡ db.runs) × (changed.events ≡ db.events) × (changed.receipts ≡ db.receipts)
  unfolding control_transition freeze_leased_tasks finalize_open_task_attempts
      request_external_stops cancel_run_children mark_executing_tools_uncertain
      rebase_preserved_tasks
  transition-Untouched pause h = ground arith
  transition-Untouched resume h = ground arith
  transition-Untouched cancel h = ground arith

module _ (after : Database) (context : CommandContext) (command : ControlRun) (kind : ControlKind)
    (now : ℕ) (run : RunRow) (transition : ControlTransition) {changed : Database}
    {snapshot : RunSnapshot}
    (h : commit_control after context command kind now run transition
      ≡ ok (changed, snapshot)) where
  pub committed-tasks : changed.tasks ≡ after.tasks
  unfolding commit_control insert_event
  committed-tasks = ground arith

  pub committed-receipts : changed.receipts ≡ after.receipts
  unfolding commit_control insert_event
  committed-receipts = ground arith

  pub committed-events :
      changed.events
      ≡ after.events
        ++ event_row context command.event_id run.run_id run.next_event_sequence
            (control_event_type kind)
            "control-plane"
            now
          ∷ []
  unfolding commit_control insert_event
  committed-events = ground arith

  pub committed-runs :
      changed.runs
      ≡ update_where
          (is_current_run context.tenant_id run)
          (controlled_row transition
            (run.version + 1)
            (run.next_event_sequence + 1)
            command.event_id
            now)
          after.runs
  unfolding commit_control insert_event
  committed-runs = ground arith

  pub committed-snapshot :
      (snapshot.status ≡ transition.status)
      × (snapshot.version ≡ run.version + 1)
      × (snapshot.next_event_sequence ≡ run.next_event_sequence + 1)
      × (snapshot.execution_generation ≡ transition.generation)
  unfolding commit_control insert_event
  committed-snapshot = ground arith

answer-eq :
    {changed : Database} {snapshot : RunSnapshot} {follow_ups later : List DurableFollowUp}
    (answer : Database × RunSnapshot)
    → ◌≡◌ {A = StoreResult (Database × RunSnapshot × List DurableFollowUp)}
        (ok (answer.0, answer.1, later))
        (ok (changed, snapshot, follow_ups))
    → answer ≡ (changed, snapshot)
answer-eq answer h = ground arith

module _ (db : Database) (context : CommandContext) (command : ControlRun) (kind : ControlKind)
    (now : ℕ) (run : RunRow) {changed : Database} {snapshot : RunSnapshot}
    {follow_ups : List DurableFollowUp} where
  -- The parts of a command that is applied.
  pub control-steps :
      apply_control db context command kind now run ≡ ok (changed, snapshot, follow_ups)
      → (after : Database) × (transition : ControlTransition) × (validate_control kind
            command.expected_run run now
          ≡ ok tt)
        × (control_transition kind context.tenant_id run now db ≡ ok (after, transition))
        × (commit_control after context command kind now run transition ≡ ok (changed, snapshot))
  unfolding apply_control
  control-steps h =
      let (checked, valid, h1) =
        >>=-eq-ok (validate_control kind command.expected_run run now) _ h in
      let (parts, moved, h2) =
        >>=-eq-ok (control_transition kind context.tenant_id run now db) _ h1 in
      let (answer, committed, h3) =
        >>=-eq-ok (commit_control parts.0 context command kind now run parts.1) _ h2 in
      let same : answer ≡ (changed, snapshot) = answer-eq answer h3 in
      (parts.0, parts.1, valid, moved, committed ∙ ap ok same)
