-- ===== src/Store/Completion/Actions.antt =====
-- transaction_executor.rs: `apply_next_actions`, what a completion makes of the run.
use agent_loom.Base.{ℕ, Bool, true, false, List, [], ◌∷◌, map, if◌then◌else◌}
use agent_loom.Domain.Status.{RunStatus, TaskStatus}
use agent_loom.Store.Result.{StoreResult, ok, ◌>>=◌}
use agent_loom.Store.Outcome.{DurableFollowUp}
use agent_loom.Store.Database.{Database}
use agent_loom.Store.Work.{is_approval_type}
use agent_loom.Store.Completion.{NewTask, NextActions}
use agent_loom.Store.Completion.Inserts.{insert_new_task, insert_new_wait}

pub record NextTransition : Type 0 where
  pub status : RunStatus
  pub terminal : Bool
  pub follow_ups : List DurableFollowUp

-- `for task in tasks`.
unfoldable pub insert_new_tasks : Database → ℕ → ℕ → ℕ → List NewTask → StoreResult Database
unfolding insert_new_task
insert_new_tasks db tenant_id run_id now [] = ok db
insert_new_tasks db tenant_id run_id now (task ∷ tasks) =
    insert_new_task db tenant_id run_id now task TaskStatus.queued
    >>= (λ inserted. insert_new_tasks inserted tenant_id run_id now tasks)

-- The status that the next actions give the run.
unfoldable pub next_transition : NextActions → NextTransition
next_transition (NextActions.tasks tasks) = record {
  status = RunStatus.queued;
  terminal = false;
  follow_ups = map (λ (task : NewTask). DurableFollowUp.task task.task_id) tasks;
}
next_transition (NextActions.retry retry) = record {
  status = RunStatus.retrying;
  terminal = false;
  follow_ups = DurableFollowUp.task retry.task.task_id ∷ [];
}
next_transition (NextActions.wait wait) = record {
  status =
      if is_approval_type wait.wait_type then RunStatus.approval_required else RunStatus.waiting;
  terminal = false;
  follow_ups = [];
}
next_transition (NextActions.finish_run result) = record {
  status = result.status;
  terminal = true;
  follow_ups = [];
}
next_transition NextActions.no_further_work = record {
  status = RunStatus.running;
  terminal = false;
  follow_ups = [];
}

-- The inserts of the next actions.
unfoldable pub insert_next : Database → ℕ → ℕ → ℕ → NextActions → StoreResult Database
unfolding insert_new_tasks insert_new_task insert_new_wait
insert_next db tenant_id run_id now (NextActions.tasks tasks) =
    insert_new_tasks db tenant_id run_id now tasks
insert_next db tenant_id run_id now (NextActions.retry retry) =
    insert_new_task db tenant_id run_id now retry.task TaskStatus.retry_scheduled
insert_next db tenant_id run_id now (NextActions.wait wait) =
    insert_new_wait db tenant_id run_id now wait
insert_next db tenant_id run_id now (NextActions.finish_run result) = ok db
insert_next db tenant_id run_id now NextActions.no_further_work = ok db

-- `apply_next_actions`.
unfoldable pub apply_next_actions :
    Database → ℕ → ℕ → ℕ → NextActions → StoreResult (Database × NextTransition)
unfolding insert_next next_transition
apply_next_actions db tenant_id run_id now next = do
  inserted ← insert_next db tenant_id run_id now next
  ok (inserted, next_transition next)
