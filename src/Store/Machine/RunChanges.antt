-- ===== src/Store/Machine/RunChanges.antt =====
-- What the effects do to the table of runs and to the event log.
use mathlib.Core.Path.{subst}
use agent_loom.Base.{
  ℕ, ◌+◌, ◌≤◌, ◌≡◌, sym, refl, ◌∙◌, ap, Bool, true, false, ◌&&◌, some, List, [], ◌∷◌, ◌++◌, ◌⊎◌,
  inl, inr, arith, update_where, count_where, find_where, find_where_sound, has_key_of, is_some,
  exists_where, not,
}
use agent_loom.Domain.Status.{RunStatus, is_terminal_run}
use agent_loom.Store.Result.{StoreErrorCode, ok, >>=-eq-ok, reject_if}
use agent_loom.Store.Rows.{RunRow, TaskRow, EventRow}
use agent_loom.Store.Outcome.{
  CommandContext, RunSnapshot, DurableFollowUp, ClaimedTask, ExpectedRun,
}
use agent_loom.Store.Database.{Database, is_run, event_row}
use agent_loom.Store.Fences.{LockedWorkerTask}
use agent_loom.Store.Candidates.{Locks, lock_claim_candidate}
use agent_loom.Store.Candidates.Laws.{lock_claim_candidate-IsClaimable}
use agent_loom.Store.Claim.{ClaimTask, apply_claim, running_row}
use agent_loom.Store.Claim.Laws.{claim-runs, claim-events}
use agent_loom.Store.Expiry.{
  expiry_action, is_current_run, reclaimed_run_status, reclaimed_event_type,
}
use agent_loom.Store.Reclaim.{apply_reclaim}
use agent_loom.Store.Reclaim.Laws.{reclaim-runs, reclaim-events}
use agent_loom.Store.Transition.{
  ControlRun, ControlKind, pause, resume, cancel, ControlTransition, control_transition, is_no_op,
  control_event_type, project_resumed_status, rebase_preserved_tasks,
}
use agent_loom.Store.Control.{controlled_row, apply_control, validate_control}
use agent_loom.Store.External.{external_work_blocks}
use agent_loom.Store.Control.Laws.{
  control-steps, transition-Untouched, committed-runs, committed-events,
}

abbrev pub run_tenant : RunRow → ℕ
run_tenant r = r.tenant_id

abbrev pub run_key : RunRow → ℕ
run_key r = r.run_id

-- A run has its terminal event exactly if it has ended (`ck_runs__terminal_projection`).
abbrev pub IsProjected : RunRow → Type 0
IsProjected r = is_some r.terminal_event_id ≡ is_terminal_run r.status

-- Some row of the run has no terminal event.
abbrev pub IsUnended : Database → RunRow → Type 0
IsUnended db run =
    exists_where
      (λ (r : RunRow). is_run run.tenant_id run.run_id r && not (is_some r.terminal_event_id))
      db.runs
    ≡ true

-- One run, found in the table, gets its next version and its next event.
pub record RunChange (db after : Database) : Type 0 where
  pub query : RunRow → Bool
  pub run : RunRow
  pub found : find_where query db.runs ≡ some run
  pub touched : RunRow → Bool
  pub change : RunRow → RunRow
  pub runs : after.runs ≡ update_where touched change db.runs
  pub touches : (r : RunRow) → touched r ≡ true → has_key_of run_tenant run_key run r ≡ true
  pub hit : (touched run ≡ true) ⊎ (1 ≤ count_where touched db.runs)
  pub tenant : (r : RunRow) → (change r).tenant_id ≡ r.tenant_id
  pub key : (r : RunRow) → (change r).run_id ≡ r.run_id
  pub version : (change run).version ≡ run.version + 1
  pub sequence : (change run).next_event_sequence ≡ run.next_event_sequence + 1
  pub generation : run.execution_generation ≤ (change run).execution_generation
  pub live : (is_terminal_run run.status ≡ false) ⊎ IsUnended db run
  pub projected : IsProjected run → is_terminal_run run.status ≡ false → IsProjected (change run)
  pub event : EventRow
  pub events : after.events ≡ db.events ++ event ∷ []
  pub event_tenant : event.tenant_id ≡ run.tenant_id
  pub event_run : event.run_id ≡ run.run_id
  pub event_sequence : event.sequence ≡ run.next_event_sequence

pub claim-RunChange :
    (db : Database) (locks : Locks) (context : CommandContext) (command : ClaimTask) (now : ℕ)
    (locked : LockedWorkerTask) {after : Database} {value : ClaimedTask} {attempt : ℕ}
    → lock_claim_candidate db locks context.tenant_id now command.candidate_window command.kind
      ≡ some locked
    → apply_claim db context command now locked ≡ ok (after, value, attempt)
    → RunChange db after
claim-RunChange db locks context command now locked found applied =
    let c =
      lock_claim_candidate-IsClaimable db locks context.tenant_id now command.kind
        command.candidate_window found in
    record {
      query = c.run_query;
      run = locked.run;
      found = c.run_found;
      touched = is_run context.tenant_id locked.run.run_id;
      change = running_row now;
      runs = claim-runs db context command now locked applied;
      touches = λ r e. ground (arith, e, c.run_tenant);
      hit = inl (ground (arith, c.run_tenant));
      tenant = λ r. refl;
      key = λ r. refl;
      version = refl;
      sequence = refl;
      generation = omega arith;
      live = inl (ground (arith, c.accepts));
      projected = λ p l. ground (arith, p, l);
      event =
          event_row context context.command_id locked.run.run_id locked.run.next_event_sequence
            "task.claimed" "worker" now;
      events = claim-events db context command now locked applied;
      event_tenant = sym c.run_tenant;
      event_run = refl;
      event_sequence = refl;
    }

pub reclaim-RunChange :
    (db : Database) (context : CommandContext) (event_id now run_id : ℕ) (run : RunRow)
    (task : TaskRow) {after : Database}
    → find_where (is_run context.tenant_id run_id) db.runs ≡ some run
    → exists_where
        (λ (r : RunRow). is_run context.tenant_id run_id r && not (is_some r.terminal_event_id))
        db.runs
      ≡ true
    → apply_reclaim db context event_id now run task ≡ ok after
    → RunChange db after
reclaim-RunChange db context event_id now run_id run task found unended applied =
    let own = find_where_sound (is_run context.tenant_id run_id) db.runs found in
    let tenant : context.tenant_id ≡ run.tenant_id = ground (arith, own) in
    let key : run_id ≡ run.run_id = ground (arith, own) in
    record {
      query = is_run context.tenant_id run_id;
      run = run;
      found = found;
      touched = is_current_run context.tenant_id run;
      change = λ r. record r {
        version = r.version + 1;
        next_event_sequence = run.next_event_sequence + 1;
        status = reclaimed_run_status (expiry_action task);
        updated_at = now;
      };
      runs = reclaim-runs db context event_id now run task applied;
      touches = λ r e. ground (arith, e, own);
      hit = inl (ground (arith, own));
      tenant = λ r. refl;
      key = λ r. refl;
      version = refl;
      sequence = refl;
      generation = omega arith;
      live = inr (
          subst
            (λ t.
              exists_where (λ r. is_run t run.run_id r && not (is_some r.terminal_event_id)) db.runs
              ≡ true)
            tenant
            (subst
              (λ i.
                exists_where
                  (λ r. is_run context.tenant_id i r && not (is_some r.terminal_event_id)) db.runs
                ≡ true)
              key unended));
      projected = λ p l. ground (arith, p, l);
      event =
          event_row context event_id run.run_id run.next_event_sequence
            (reclaimed_event_type (expiry_action task)) "scheduler" now;
      events = reclaim-events db context event_id now run task applied;
      event_tenant = ground (arith, own);
      event_run = refl;
      event_sequence = refl;
    }

-- A control command never lowers the generation.
transition-generation :
    (kind : ControlKind) (tenant_id now : ℕ) (run : RunRow) (db : Database) {after : Database}
    {transition : ControlTransition}
    → control_transition kind tenant_id run now db ≡ ok (after, transition)
    → run.execution_generation ≤ transition.generation
unfolding control_transition
transition-generation pause tenant_id now run db h = ground arith
transition-generation resume tenant_id now run db h = ground arith
transition-generation cancel tenant_id now run db h = ground arith

-- A command that acts finds its run before its end.
acting-live :
    (kind : ControlKind) (expected : ExpectedRun) (run : RunRow) (now : ℕ)
    → is_no_op kind run.status ≡ false
    → validate_control kind expected run now ≡ ok tt
    → is_terminal_run run.status ≡ false
unfolding validate_control
acting-live pause expected run now acts valid = ground arith
acting-live resume expected run now acts valid = ground arith
acting-live cancel expected run now acts valid = ground arith

resumed-live :
    (tenant_id run_id now : ℕ) (db : Database) {status : RunStatus}
    → project_resumed_status tenant_id run_id now db ≡ ok status
    → is_terminal_run status ≡ false
unfolding project_resumed_status
resumed-live tenant_id run_id now db h = ground arith

transition-IsProjected :
    (kind : ControlKind) (tenant_id now : ℕ) (run : RunRow) (db : Database) {after : Database}
    {transition : ControlTransition} (version sequence event_id : ℕ)
    → control_transition kind tenant_id run now db ≡ ok (after, transition)
    → IsProjected run
    → is_terminal_run run.status ≡ false
    → IsProjected (controlled_row transition version sequence event_id now run)
unfolding control_transition
transition-IsProjected pause tenant_id now run db version sequence event_id h p l = ground arith
transition-IsProjected resume tenant_id now run db version sequence event_id h p l =
    let rebased = rebase_preserved_tasks tenant_id run.run_id run.execution_generation now db in
    let (u, safe, h1) =
      >>=-eq-ok
        (reject_if (external_work_blocks tenant_id run.run_id db)
          StoreErrorCode.pause_recovery_required)
        _ h in
    let (status, projected, h2) =
      >>=-eq-ok (project_resumed_status tenant_id run.run_id now rebased) _ h1 in
    ground (arith, h2, p, l, resumed-live tenant_id run.run_id now rebased projected)
transition-IsProjected cancel tenant_id now run db version sequence event_id h p l = ground arith

pub control-RunChange :
    (db : Database) (context : CommandContext) (command : ControlRun) (kind : ControlKind) (now : ℕ)
    (run : RunRow) {after : Database} {snapshot : RunSnapshot} {follow_ups : List DurableFollowUp}
    → find_where (is_run context.tenant_id command.expected_run.run_id) db.runs ≡ some run
    → is_no_op kind run.status ≡ false
    → apply_control db context command kind now run ≡ ok (after, snapshot, follow_ups)
    → RunChange db after
control-RunChange db context command kind now run found acts applied =
    let query = is_run context.tenant_id command.expected_run.run_id in
    let own = find_where_sound query db.runs found in
    let (middle, transition, valid, moved, committed) =
      control-steps db context command kind now run applied in
    let (kept_runs, kept_events, _) =
      transition-Untouched context.tenant_id now run db kind moved in
    let change =
      controlled_row transition (run.version + 1) (run.next_event_sequence + 1) command.event_id
        now in
    let event =
      event_row context command.event_id run.run_id run.next_event_sequence
        (control_event_type kind) "control-plane" now in
    record {
      query = query;
      run = run;
      found = found;
      touched = is_current_run context.tenant_id run;
      change = change;
      runs =
          committed-runs middle context command kind now run transition committed
          ∙ ap (update_where (is_current_run context.tenant_id run) change) kept_runs;
      touches = λ r e. ground (arith, e, own);
      hit = inl (ground (arith, own));
      tenant = λ r. refl;
      key = λ r. refl;
      version = refl;
      sequence = refl;
      generation = transition-generation kind context.tenant_id now run db moved;
      live = inl (acting-live kind command.expected_run run now acts valid);
      projected = λ p l.
          transition-IsProjected kind context.tenant_id now run db (run.version + 1)
            (run.next_event_sequence + 1) command.event_id moved p l;
      event = event;
      events =
          committed-events middle context command kind now run transition committed
          ∙ ap (λ (es : List EventRow). es ++ event ∷ []) kept_events;
      event_tenant = ground (arith, own);
      event_run = refl;
      event_sequence = refl;
    }
