-- ===== src/Store/Machine/Completing.antt =====
-- The effect of a completion under an open receipt.
use Prim.Native.String.{String}
use agent_loom.Base.{ℕ, ◌≡◌, refl, inr, Option, some, Check, passed, refused}
use agent_loom.Domain.Json.{Value}
use agent_loom.Store.Result.{ok, >>=-eq-ok}
use agent_loom.Store.Outcome.{CommandContext, Committed, RunSnapshot, OutcomeKind}
use agent_loom.Store.Database.{Database}
use agent_loom.Store.Completion.{CompleteTask, CompletionShapeError}
use agent_loom.Store.Completion.Shape.{validate_completion_shape}
use agent_loom.Store.Completion.Fences.{lock_completion, validate_completion_fences}
use agent_loom.Store.Completion.Commit.{complete_new, apply_completion, shape_result}
use agent_loom.Store.Machine.Effects.{completed, Inner, finish-IsSame}

pub shape_result-passed :
    (check : Check CompletionShapeError) {u : Unit {0}} → shape_result check ≡ ok u → check ≡ passed
shape_result-passed passed h = refl
shape_result-passed (refused e) h = absurd cc

pub complete_new-Inner :
    (pointer : Value → String → Option Value) (opened : Database) (context : CommandContext)
    (now : ℕ) (command : CompleteTask) {after : Database} {answer : Committed RunSnapshot}
    → validate_completion_shape command ≡ passed
    → complete_new pointer opened context command now ≡ ok (after, answer)
    → Inner pointer opened after
unfolding complete_new
complete_new-Inner pointer opened context now command shaped h =
    let (locked, found, h1) =
      >>=-eq-ok
        (lock_completion opened context.tenant_id command.expected_run.run_id command.lease.task_id)
        _ h in
    let (u, fenced, h2) = >>=-eq-ok (validate_completion_fences command locked now) _ h1 in
    let ((changed, snapshot, follow_ups), applied, h3) =
      >>=-eq-ok (apply_completion pointer opened context command now locked) _ h2 in
    inr (
      changed,
      completed context command now locked {answer = (snapshot, follow_ups)} shaped found fenced
          applied,
      finish-IsSame changed context OutcomeKind.applied _ (some command.completion_event_id)
          (some ("run", snapshot.run_id, snapshot.version)) _ h3,
    )
