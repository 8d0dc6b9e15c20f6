-- ===== src/Store/External.antt =====
-- transaction_executor.rs: what a run's end or pause does to its open work:
-- `close_work_after_fatal_failure`, `request_external_stops`, `mark_executing_tools_uncertain`,
-- `cancel_run_children`, `finalize_open_task_attempts` and `freeze_leased_tasks`.
use Prim.Native.String.{String}
use agent_loom.Base.{
  ℕ, ◌+◌, Bool, ◌&&◌, ◌||◌, not, none, some, List, map, ◌==◌, exists_where, keep_where,
  update_where,
}
use agent_loom.Domain.Status.{
  TaskStatus, StageStatus, WaitStatus, ToolExecutionStatus, AgentExecutionStatus, is_leased,
}
use agent_loom.Store.Rows.{TaskRow, StageRow, WaitRow, AgentRow, ToolRow}
use agent_loom.Store.Outcome.{DurableFollowUp}
use agent_loom.Store.Database.{Database, is_task_of}
use agent_loom.Store.Expiry.{closed_attempt}
use agent_loom.Store.Work.{
  agent_blocks, cancelled_row, is_attempt_of, is_executing_tool, is_open_stage, is_open_task,
  is_open_wait, is_planned_agent, is_started_agent, is_unstarted_tool, tool_blocks,
}

-- The UPDATEs of waits, agents and tools that `close_work_after_fatal_failure` and
-- `cancel_run_children` have in common, under the error code of each.
unfoldable pub close_external : ℕ → ℕ → ℕ → String → Database → Database
close_external tenant_id run_id now error_code db = record db {
  waits =
      update_where
        (λ (w : WaitRow). w.tenant_id == tenant_id && (w.run_id == run_id && is_open_wait w.status))
        (λ w. record w { status = WaitStatus.cancelled; active_slot = none; updated_at = now })
        db.waits;
  agents =
      update_where
        (λ (a : AgentRow).
          a.tenant_id == tenant_id && (a.run_id == run_id && is_planned_agent a.status))
        (λ a. record a {
          status = AgentExecutionStatus.cancelled;
          version = a.version + 1;
          error_code = some error_code;
          completed_at = some now;
          updated_at = now;
        })
        db.agents;
  tools =
      update_where
        (λ (t : ToolRow).
          t.tenant_id == tenant_id && (t.run_id == run_id && is_unstarted_tool t.status))
        (λ t. record t {
          status = ToolExecutionStatus.failed;
          error_code = some error_code;
          completed_at = some now;
          updated_at = now;
        })
        db.tools;
}

-- `close_work_after_fatal_failure`.
unfoldable pub close_work_after_fatal_failure : ℕ → ℕ → ℕ → ℕ → Database → Database
unfolding close_external
close_work_after_fatal_failure tenant_id run_id failed_task_id now db =
    close_external tenant_id run_id now "run_failed" (record db {
      tasks =
          update_where
            (λ (t : TaskRow).
              is_task_of tenant_id run_id t
              && (not (t.task_id == failed_task_id) && is_open_task t.status))
            (cancelled_row (λ _. some "run_failed") now) db.tasks;
      attempts =
          update_where (λ a. is_attempt_of tenant_id run_id a && not (a.task_id == failed_task_id))
            (closed_attempt now "cancelled" (some "run_failed")) db.attempts;
    })

-- `cancel_run_children`.
unfoldable pub cancel_run_children : ℕ → ℕ → ℕ → Database → Database
unfolding close_external
cancel_run_children tenant_id run_id now db =
    close_external tenant_id run_id now "run_cancelled" (record db {
      stages =
          update_where
            (λ (s : StageRow).
              s.tenant_id == tenant_id && (s.run_id == run_id && is_open_stage s.status))
            (λ s. record s {
              status = StageStatus.cancelled;
              version = s.version + 1;
              completed_at = some now;
              updated_at = now;
            })
            db.stages;
      tasks =
          update_where (λ (t : TaskRow). is_task_of tenant_id run_id t && is_open_task t.status)
            (cancelled_row (λ error_code. error_code) now) db.tasks;
    })

-- `finalize_open_task_attempts`.
unfoldable pub finalize_open_task_attempts : ℕ → ℕ → ℕ → Database → Database
finalize_open_task_attempts tenant_id run_id now db = record db {
  attempts =
      update_where (is_attempt_of tenant_id run_id) (closed_attempt now "cancelled" none)
        db.attempts;
}

-- A leased task of a run that is paused goes back for another attempt.
abbrev pub frozen_row : ℕ → TaskRow → TaskRow
frozen_row now t = record t {
  status = TaskStatus.retry_scheduled;
  available_at = now;
  lease_owner = none;
  lease_token = none;
  lease_expires_at = none;
  updated_at = now;
}

-- `freeze_leased_tasks`: the attempts first, while their tasks are still leased.
unfoldable pub freeze_leased_tasks : ℕ → ℕ → ℕ → Database → Database
freeze_leased_tasks tenant_id run_id now db = record db {
  attempts =
      update_where
        (λ a.
          is_attempt_of tenant_id run_id a
          && exists_where
              (λ (t : TaskRow).
                t.tenant_id == a.tenant_id && (t.task_id == a.task_id && is_leased t.status))
              db.tasks)
        (closed_attempt now "cancelled" (some "run_paused")) db.attempts;
  tasks =
      update_where (λ (t : TaskRow). is_task_of tenant_id run_id t && is_leased t.status)
        (frozen_row now) db.tasks;
}

abbrev pub is_stopped : ℕ → ℕ → AgentRow → Bool
is_stopped tenant_id run_id a =
    a.tenant_id == tenant_id && (a.run_id == run_id && is_started_agent a.status)

-- The query that `ensure_resume_is_safe` and `request_external_stops` share.
unfoldable pub external_work_blocks : ℕ → ℕ → Database → Bool
external_work_blocks tenant_id run_id db =
    exists_where
      (λ (t : ToolRow). t.tenant_id == tenant_id && (t.run_id == run_id && tool_blocks t.status))
      db.tools
    || exists_where
        (λ (a : AgentRow).
          a.tenant_id == tenant_id && (a.run_id == run_id && agent_blocks a.status))
        db.agents

-- `request_external_stops`: the tables, whether external work blocks a resume, and the follow-ups.
unfoldable pub request_external_stops :
    ℕ → ℕ → ℕ → Database → Database × Bool × List DurableFollowUp
unfolding external_work_blocks
request_external_stops tenant_id run_id now db =
    let stopped : Database = record db {
      agents =
          update_where (is_stopped tenant_id run_id)
            (λ a. record a {
              status = AgentExecutionStatus.stopping;
              version = a.version + 1;
              stop_requested_at = some now;
              updated_at = now;
            })
            db.agents;
    } in
    (
      stopped,
      external_work_blocks tenant_id run_id stopped,
      map (λ (a : AgentRow). DurableFollowUp.stop_agent a.agent_execution_id)
          (keep_where (is_stopped tenant_id run_id) db.agents),
    )

abbrev pub is_executing : ℕ → ℕ → ToolRow → Bool
is_executing tenant_id run_id t =
    t.tenant_id == tenant_id && (t.run_id == run_id && is_executing_tool t.status)

-- `mark_executing_tools_uncertain`.
unfoldable pub mark_executing_tools_uncertain :
    ℕ → ℕ → ℕ → Database → Database × List DurableFollowUp
mark_executing_tools_uncertain tenant_id run_id now db = (
  record db {
    tools =
        update_where (is_executing tenant_id run_id)
          (λ t. record t {
            status = ToolExecutionStatus.outcome_unknown;
            recovery_action = some "query_outcome";
            updated_at = now;
          })
          db.tools;
  },
  map (λ (t : ToolRow). DurableFollowUp.reconcile_tool t.tool_execution_id)
      (keep_where (is_executing tenant_id run_id) db.tools),
)
