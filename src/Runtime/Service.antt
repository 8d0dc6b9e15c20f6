-- ===== src/Runtime/Service.antt =====
-- The polling service of runtime/src/service/mod.rs. What the job answers in each slot of a batch,
-- the order in which tokio's JoinSet gives the answers, and when a shutdown is seen, are arguments:
-- the rounds of a run. The
-- counts are natural numbers; the code's are u64.
pub mod Laws
use Prim.Native.String.{String}
use agent_loom.Base.{
  ℕ, zero, suc, ◌+◌, Bool, true, false, ◌||◌, Option, none, some, List, [], ◌∷◌, ◌==◌, ltb,
  if◌then◌else◌, is_some,
}

-- `PollingActivity`, an error of the job, and a job that did not end by itself.
pub data JobResult : Type 0 where
  idle : JobResult
  progress : (completed failed : ℕ) (last_failure : Option String) → JobResult
  job_error : (safe_message : String) → JobResult
  terminated : JobResult

pub record PollingServiceConfig : Type 0 where
  pub concurrency : ℕ
  pub busy_delay : ℕ
  pub idle_delay : ℕ
  pub error_delay : ℕ

pub record PollingServiceReport : Type 0 where
  pub batches : ℕ
  pub attempts : ℕ
  pub idle : ℕ
  pub completed : ℕ
  pub failed : ℕ
  pub infrastructure_failures : ℕ
  pub last_error : Option String

abbrev pub empty_report : PollingServiceReport
empty_report = record {
  batches = 0;
  attempts = 0;
  idle = 0;
  completed = 0;
  failed = 0;
  infrastructure_failures = 0;
  last_error = none;
}

abbrev pub max_service_concurrency : ℕ
max_service_concurrency = 256

-- `validate_service_config`; false is an error.
unfoldable pub service_config_is_valid : PollingServiceConfig → ℕ → Bool
service_config_is_valid config job_limit =
    if config.concurrency == 0
      || (ltb max_service_concurrency config.concurrency || ltb job_limit config.concurrency)
    then false
    else if config.busy_delay == 0 || (config.idle_delay == 0 || config.error_delay == 0)
    then false
    else true

-- One result of a batch.
abbrev pub record_result : PollingServiceReport → JobResult → PollingServiceReport
record_result report JobResult.idle = record report {
  attempts = report.attempts + 1;
  idle = report.idle + 1;
}
record_result report (JobResult.progress completed failed last_failure) = record report {
  attempts = report.attempts + 1;
  completed = report.completed + completed;
  failed = report.failed + failed;
  last_error = if is_some last_failure then last_failure else report.last_error;
}
record_result report (JobResult.job_error safe_message) = record report {
  attempts = report.attempts + 1;
  infrastructure_failures = report.infrastructure_failures + 1;
  last_error = some safe_message;
}
record_result report JobResult.terminated = record report {
  attempts = report.attempts + 1;
  infrastructure_failures = report.infrastructure_failures + 1;
  last_error = some "Polling Job terminated unexpectedly";
}

unfoldable pub record_results : PollingServiceReport → List JobResult → PollingServiceReport
record_results report [] = report
record_results report (result ∷ results) = record_results (record_result report result) results

abbrev pub record_batch : PollingServiceReport → List JobResult → PollingServiceReport
record_batch report results =
    record_results (record report { batches = report.batches + 1 }) results

-- The delay after a batch, from the counts before and after it.
unfoldable pub delay_after : PollingServiceConfig → PollingServiceReport → PollingServiceReport → ℕ
delay_after config before after =
    if ltb before.infrastructure_failures after.infrastructure_failures
    then config.error_delay
    else if ltb (before.completed + before.failed) (after.completed + after.failed)
    then config.busy_delay
    else config.idle_delay

-- One turn of the loop: what `run_once` answers in each slot, the order in which the JoinSet gives
-- the answers, and whether a shutdown is seen after them or in the delay.
pub record Round : Type 0 where
  pub answer : ℕ → JobResult
  pub join : List JobResult → List JobResult
  pub stopped_after : Bool
  pub stopped_in_delay : Bool

-- The loop that spawns a job for each slot, on the slots that are left.
unfoldable pub spawn_jobs : (ℕ → JobResult) → ℕ → ℕ → List JobResult
spawn_jobs answer slot zero = []
spawn_jobs answer slot (suc left) = answer slot ∷ spawn_jobs answer (suc slot) left

abbrev pub round_results : PollingServiceConfig → Round → List JobResult
round_results config round = round.join (spawn_jobs round.answer 0 config.concurrency)

-- `PollingService::run`: the report, and the delays that were begun. A shutdown at the head of the
-- loop is the end of the rounds.
unfoldable pub run :
    PollingServiceConfig → PollingServiceReport → List Round → PollingServiceReport × List ℕ
unfolding delay_after record_results spawn_jobs
run config report [] = (report, [])
run config report (round ∷ rounds) =
    let after = record_batch report (round_results config round) in
    let delay = delay_after config report after in
    let rest = run config after rounds in
    if round.stopped_after
    then (after, [])
    else if round.stopped_in_delay
    then (after, delay ∷ [])
    else (rest.0, delay ∷ rest.1)
