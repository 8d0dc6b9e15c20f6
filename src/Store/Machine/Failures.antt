-- ===== src/Store/Machine/Failures.antt =====
-- What a failure does to the table of runs and to the event log.
use Prim.Native.String.{String}
use agent_loom.Base.{
  ℕ, ◌+◌, ◌≡◌, sym, refl, ◌∙◌, ap, Bool, ◌&&◌, Option, some, List, [], ◌∷◌, ◌++◌, ◌⊎◌, inl, inr,
  arith, update_where, count_where, find_where, find_where_sound,
}
use agent_loom.Domain.Json.{Value}
use mathlib.Core.Path.{subst}
use agent_loom.Domain.Status.{accepts_task_claim, is_terminal_run}
use agent_loom.Store.Result.{ok}
use agent_loom.Store.Rows.{RunRow}
use agent_loom.Store.Outcome.{CommandContext, RunSnapshot, DurableFollowUp}
use agent_loom.Store.Database.{Database, is_run, event_row}
use agent_loom.Store.Fences.{LockedWorkerTask, lock_worker_task, validate_worker_fences}
use agent_loom.Store.Fences.Laws.{fences-IsFenced}
use agent_loom.Store.Dependencies.Laws.{resolve-keeps}
use agent_loom.Store.Expiry.{is_current_run}
use agent_loom.Store.Failure.{FailTask, FailureTransition, classify}
use agent_loom.Store.Fail.{apply_failure, transition_of, after_activation, resolve_after_failure}
use agent_loom.Store.Fail.Laws.{after_failure-cases, close-Untouched}
use agent_loom.Store.Fail.Steps.{
  failure-steps, failed_run_row, recorded-runs, recorded-events, committed-runs, committed-count,
  committed-events,
}
use agent_loom.Store.Machine.Effects.{
  Effect, claimed, extended, reclaimed, failed, controlled, completed,
}
use agent_loom.Store.Renew.Laws.{extend-runs, extend-events}
use agent_loom.Store.Machine.RunChanges.{
  RunChange, claim-RunChange, reclaim-RunChange, control-RunChange,
}
use agent_loom.Store.Machine.Completions.{complete-RunChange}

-- A transition of a failure ends the run exactly if it is terminal.
abbrev Fits : FailureTransition → Type 0
Fits t = t.terminal ≡ is_terminal_run t.run_status

classify-Fits :
    (attempt max_attempts : ℕ) (retry_at : Option ℕ) → Fits (classify attempt max_attempts retry_at)
unfolding classify
classify-Fits attempt max_attempts retry_at = ground arith

after_activation-Fits :
    (db : Database) (t : FailureTransition) (ids : List ℕ)
    → Fits t
    → Fits (after_activation db t ids).1
after_activation-Fits db t [] h = h
after_activation-Fits db t (i ∷ is) h = refl

settled-Fits :
    (pointer : Value → String → Option Value) (finalized : Database) (context : CommandContext)
    (command : FailTask) (locked : LockedWorkerTask) (now : ℕ) {resolved : Database}
    {settled : FailureTransition} {activated : List DurableFollowUp}
    → resolve_after_failure pointer finalized context.tenant_id locked.task now
        (transition_of command locked)
      ≡ ok (resolved, settled, activated)
    → Fits settled
settled-Fits pointer finalized context command locked now {resolved} h =
    let first = classify-Fits locked.task.attempt locked.task.max_attempts command.retry_at in
    elim (after_failure-cases pointer finalized context.tenant_id now locked.task
      (transition_of command locked) h) [
        | inl (_, _, same) ↦ subst Fits (sym same) first
        | inr (ids, _, _, same) ↦
            subst Fits (sym same)
              (after_activation-Fits resolved (transition_of command locked) ids first)
      ]

fail-RunChange :
    (pointer : Value → String → Option Value) (db : Database) (context : CommandContext)
    (command : FailTask) (now : ℕ) (locked : LockedWorkerTask) {changed : Database}
    {snapshot : RunSnapshot} {follow_ups : List DurableFollowUp}
    → lock_worker_task db context.tenant_id command.expected_run.run_id command.lease.task_id
      ≡ ok locked
    → validate_worker_fences command.expected_run command.lease locked now ≡ ok tt
    → apply_failure pointer db context command now locked ≡ ok (changed, snapshot, follow_ups)
    → RunChange db changed
unfolding lock_worker_task
fail-RunChange pointer db context command now locked {changed} lock fenced applied =
    let query = is_run context.tenant_id command.expected_run.run_id in
    let found : find_where query db.runs ≡ some locked.run = ground arith in
    let own = find_where_sound query db.runs found in
    let f = fences-IsFenced command.expected_run command.lease locked now fenced in
    let (finalized, resolved, settled, activated, recorded, settles, committed) =
      failure-steps pointer db context command now locked applied in
    let event =
      event_row context command.failure_event_id locked.task.run_id locked.run.next_event_sequence
        (transition_of command locked).event_type "worker" now in
    let Kept : Database → Type 0 = λ d. (d.runs ≡ db.runs) × (d.events ≡ db.events ++ event ∷ []) in
    let start : Kept finalized = (
      recorded-runs db context command now locked recorded,
      recorded-events db context command now locked recorded,
    ) in
    let kept : Kept resolved =
      elim (after_failure-cases pointer finalized context.tenant_id now locked.task
        (transition_of command locked) settles) [
          | inl (_, same, _) ↦ (
            ap (λ (d : Database). d.runs) same ∙ start.0,
            ap (λ (d : Database). d.events) same ∙ start.1,
          )
          | inr (ids, _, done, _) ↦
              resolve-keeps pointer context.tenant_id locked.task.run_id now Kept
                (λ task_id ready d k. k) finalized locked.task.task_id start done
        ] in
    let fits = settled-Fits pointer finalized context command locked now settles in
    let closed =
      close-Untouched context.tenant_id now locked.task settled.terminal resolved activated in
    let touched : RunRow → Bool =
      λ r. is_current_run context.tenant_id locked.run r && accepts_task_claim r.status in
    let change =
      failed_run_row settled (locked.run.version + 1) (locked.run.next_event_sequence + 1)
        command.failure_event_id now in
    record {
      query = query;
      run = locked.run;
      found = found;
      touched = touched;
      change = change;
      runs =
          committed-runs resolved context command now locked settled activated committed
          ∙ ap (update_where touched change) (closed.0 ∙ kept.0);
      touches = λ r e. ground (arith, e, own);
      hit = inr (
          omega (
            arith,
            ap (count_where touched) (closed.0 ∙ kept.0),
            committed-count resolved context command now locked settled activated committed,
          ));
      tenant = λ r. refl;
      key = λ r. refl;
      version = refl;
      sequence = refl;
      generation = omega arith;
      live = inl f.not_terminal;
      projected = λ p l. ground (arith, fits);
      event = event;
      events =
          committed-events resolved context command now locked settled activated committed
          ∙ (closed.1 ∙ kept.1);
      event_tenant = ground (arith, own);
      event_run = ground (arith, own, f.same_run);
      event_sequence = refl;
    }

-- An effect changes one run and appends its event, or leaves both tables as they are.
pub Effect-RunChange :
    (pointer : Value → String → Option Value) (db after : Database)
    → Effect pointer db after
    → ((after.runs ≡ db.runs) × (after.events ≡ db.events)) ⊎ RunChange db after
Effect-RunChange pointer db after (claimed locks context command now locked found e) =
    inr (claim-RunChange db locks context command now locked found e)
Effect-RunChange pointer db after (extended context command now expires locked e) = inl (
  extend-runs db context.tenant_id locked command.lease.token expires now e,
  extend-events db context.tenant_id locked command.lease.token expires now e,
)
Effect-RunChange pointer db after (reclaimed context event_id now run_id run task found live e) =
    inr (reclaim-RunChange db context event_id now run_id run task found live e)
Effect-RunChange pointer db after (failed context command now locked found fenced e) =
    inr (fail-RunChange pointer db context command now locked found fenced e)
Effect-RunChange pointer db after (completed context command now locked shaped found fenced e) =
    inr (complete-RunChange pointer db context command now locked e found fenced shaped)
Effect-RunChange pointer db after (controlled context command kind now run found acts e) =
    inr (control-RunChange db context command kind now run found acts e)
