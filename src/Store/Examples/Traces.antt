-- ===== src/Store/Examples/Traces.antt =====
-- The claim of the task and the pause of its run, one after the other.
use agent_loom.Base.{refl, arith}
use agent_loom.Store.Machine.{Steps, Step, claim, control, done, then_step}
use agent_loom.Store.Machine.Invariant.{HasValidTasks, Steps-HasValidTasks}
use agent_loom.Store.Machine.Log.{IsLogged}
use agent_loom.Store.Machine.Runs.{RunsEvolve, Steps-RunsEvolve}
use agent_loom.Store.Transition.{pause}
use agent_loom.Store.Examples.{
  value_of, no_pointer, first_tables, free, context_of, claiming, no_claim, claim_result,
  claimed_tables, claim_result-ok, stopping, no_control, pause_result, paused_tables,
  pause_result-ok,
}

claiming-Step : Step no_pointer 3600 first_tables claimed_tables
claiming-Step =
    claim free (context_of 1000) claiming 100 {answer = (value_of no_claim claim_result).1}
      claim_result-ok

both-Steps : Steps no_pointer 3600 first_tables paused_tables
both-Steps = then_step (then_step done claiming-Step) (
    control (context_of 1001) (stopping 2001) pause 200
      {answer = (value_of no_control pause_result).1} pause_result-ok)

first_tables-HasValidTasks : HasValidTasks first_tables
first_tables-HasValidTasks = record {
  keyed = (tt, tt);
  valid = (
    record { owned = refl; held = refl; bounded = refl; completed = refl; attempts = omega arith },
    tt,
  );
}

first_tables-IsLogged : IsLogged first_tables
first_tables-IsLogged = record { keyed = (tt, tt); below = tt }

Steps-HasValidTasks_example : HasValidTasks paused_tables
Steps-HasValidTasks_example =
    Steps-HasValidTasks no_pointer 3600 first_tables paused_tables first_tables-HasValidTasks
      both-Steps

Steps-RunsEvolve_example : RunsEvolve first_tables paused_tables
Steps-RunsEvolve_example =
    Steps-RunsEvolve no_pointer 3600 first_tables paused_tables first_tables-IsLogged (refl, tt)
      both-Steps
