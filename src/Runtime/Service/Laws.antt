-- ===== src/Runtime/Service/Laws.antt =====
-- What a run of the polling service reports, and how long it waits between two batches.
use mathlib.Core.Logic.{∥∥₁_elim}
use mathlib.Core.Path.{subst}
use native.Mathlib.Nat.{ℕ_set}
use mathlib.Core.List.{Permᴰ, Perm}
use agent_loom.Base.{
  ℕ, zero, suc, ◌+◌, ◌*◌, ◌<◌, ◌≡◌, refl, sym, ap, ◌∙◌, inl, inr, true, List, [], ◌∷◌, length, All,
  ltb, arith, Bool-cases, if◌then◌else◌,
}
use agent_loom.Runtime.Service.{
  JobResult, PollingServiceConfig, PollingServiceReport, Round, service_config_is_valid,
  record_result, record_results, record_batch, delay_after, run, empty_report, spawn_jobs,
  round_results,
}

-- What JoinSet is documented to do: each job that was spawned is given back once.
abbrev pub IsJoined : Round → Type 0
IsJoined round = (jobs : List JobResult) → Perm (round.join jobs) jobs

abbrev pub idle_of : JobResult → ℕ
idle_of JobResult.idle = 1
idle_of _ = 0

abbrev pub broken_of : JobResult → ℕ
broken_of (JobResult.job_error message) = 1
broken_of JobResult.terminated = 1
broken_of _ = 0

abbrev pub completed_of : JobResult → ℕ
completed_of (JobResult.progress completed failed last) = completed
completed_of _ = 0

abbrev pub failed_of : JobResult → ℕ
failed_of (JobResult.progress completed failed last) = failed
failed_of _ = 0

-- The sum over the slots below a number.
unfoldable pub over_slots : (JobResult → ℕ) → (ℕ → JobResult) → ℕ → ℕ
over_slots weight answer zero = 0
over_slots weight answer (suc slot) = over_slots weight answer slot + weight (answer slot)

-- The rounds that are run, up to the first that a shutdown stops.
unfoldable pub rounds_run : List Round → List Round
rounds_run [] = []
rounds_run (round ∷ rounds) =
    let rest = rounds_run rounds in
    if round.stopped_after
    then round ∷ []
    else if round.stopped_in_delay
    then round ∷ []
    else round ∷ rest

unfoldable pub over_rounds : (JobResult → ℕ) → ℕ → List Round → ℕ
unfolding over_slots
over_rounds weight slots [] = 0
over_rounds weight slots (round ∷ rounds) =
    over_slots weight round.answer slots + over_rounds weight slots rounds

-- The delay after a round: for errors if some slot broke, the busy one if some slot got on, and the
-- idle one else.
abbrev pub pause_after : PollingServiceConfig → Round → ℕ
pause_after config round =
    if ltb 0 (over_slots broken_of round.answer config.concurrency)
    then config.error_delay
    else if ltb 0 (
        over_slots completed_of round.answer config.concurrency
        + over_slots failed_of round.answer config.concurrency)
    then config.busy_delay
    else config.idle_delay

unfoldable pub pauses : PollingServiceConfig → List Round → List ℕ
unfolding over_slots
pauses config [] = []
pauses config (round ∷ rounds) =
    let rest = pauses config rounds in
    if round.stopped_after
    then []
    else if round.stopped_in_delay
    then pause_after config round ∷ []
    else pause_after config round ∷ rest

-- A report that goes on from another by some rounds.
pub record Reports (config : PollingServiceConfig) (before : PollingServiceReport)
    (rounds : List Round) (after : PollingServiceReport) : Type 0 where
  pub batches : after.batches ≡ before.batches + length rounds
  pub attempts : after.attempts ≡ before.attempts + length rounds * config.concurrency
  pub idle : after.idle ≡ before.idle + over_rounds idle_of config.concurrency rounds
  pub broken :
      after.infrastructure_failures
      ≡ before.infrastructure_failures + over_rounds broken_of config.concurrency rounds
  pub completed :
      after.completed ≡ before.completed + over_rounds completed_of config.concurrency rounds
  pub failed : after.failed ≡ before.failed + over_rounds failed_of config.concurrency rounds

unfoldable sum_of : (JobResult → ℕ) → List JobResult → ℕ
sum_of weight [] = 0
sum_of weight (x ∷ xs) = weight x + sum_of weight xs

abbrev one_of : JobResult → ℕ
one_of result = 1

sum_of-Permᴰ :
    (weight : JobResult → ℕ) {xs ys : List JobResult}
    → Permᴰ xs ys
    → sum_of weight xs ≡ sum_of weight ys
unfolding sum_of
sum_of-Permᴰ weight Permᴰ.nil = refl
sum_of-Permᴰ weight (Permᴰ.cons e p) =
    let head = ap weight e in let tail = sum_of-Permᴰ weight p in omega (arith, head, tail)
sum_of-Permᴰ weight (Permᴰ.swap e f) =
    let first = ap weight e in let second = ap weight f in omega (arith, first, second)
sum_of-Permᴰ weight (Permᴰ.trans p q) = sum_of-Permᴰ weight p ∙ sum_of-Permᴰ weight q

sum_of-Perm :
    (weight : JobResult → ℕ) {xs ys : List JobResult}
    → Perm xs ys
    → sum_of weight xs ≡ sum_of weight ys
sum_of-Perm weight p = ∥∥₁_elim p (ℕ_set _ _) (sum_of-Permᴰ weight)

-- A list of spawned jobs, slot by slot, and the sum over all slots before it.
sum_of-spawn_jobs :
    (weight : JobResult → ℕ) (answer : ℕ → JobResult) (slot left : ℕ)
    → over_slots weight answer slot + sum_of weight (spawn_jobs answer slot left)
      ≡ over_slots weight answer (slot + left)
unfolding sum_of spawn_jobs over_slots
sum_of-spawn_jobs weight answer slot zero =
    let e : slot + zero ≡ slot = omega arith in rw e (omega arith)
sum_of-spawn_jobs weight answer slot (suc left) =
    let later = sum_of-spawn_jobs weight answer (suc slot) left in
    let e : slot + suc left ≡ suc slot + left = omega arith in rw e (omega (arith, later))

over_slots-one : (answer : ℕ → JobResult) (slots : ℕ) → over_slots one_of answer slots ≡ slots
unfolding over_slots
over_slots-one answer zero = refl
over_slots-one answer (suc slots) = omega (arith, over_slots-one answer slots)

-- In whatever order the answers of a batch come, their sum is that over the slots.
sum_of-round_results :
    (config : PollingServiceConfig) (round : Round) (weight : JobResult → ℕ)
    → IsJoined round
    → sum_of weight (round_results config round) ≡ over_slots weight round.answer config.concurrency
unfolding over_slots
sum_of-round_results config round weight joined =
    let all = sum_of-spawn_jobs weight round.answer 0 config.concurrency in
    let e : 0 + config.concurrency ≡ config.concurrency = omega arith in
    sum_of-Perm weight (joined (spawn_jobs round.answer 0 config.concurrency))
    ∙ (sym (omega arith) ∙ (all ∙ ap (over_slots weight round.answer) e))

-- The counts after some results.
record Counts (before : PollingServiceReport) (results : List JobResult)
    (after : PollingServiceReport) : Type 0 where
  pub batches : after.batches ≡ before.batches
  pub attempts : after.attempts ≡ before.attempts + sum_of one_of results
  pub idle : after.idle ≡ before.idle + sum_of idle_of results
  pub broken :
      after.infrastructure_failures ≡ before.infrastructure_failures + sum_of broken_of results
  pub completed : after.completed ≡ before.completed + sum_of completed_of results
  pub failed : after.failed ≡ before.failed + sum_of failed_of results

result-Counts :
    (before : PollingServiceReport) (result : JobResult)
    → Counts before (result ∷ []) (record_result before result)
unfolding sum_of
result-Counts before JobResult.idle = record {
  batches = refl;
  attempts = omega arith;
  idle = omega arith;
  broken = omega arith;
  completed = omega arith;
  failed = omega arith;
}
result-Counts before (JobResult.progress completed failed last) = record {
  batches = refl;
  attempts = omega arith;
  idle = omega arith;
  broken = omega arith;
  completed = omega arith;
  failed = omega arith;
}
result-Counts before (JobResult.job_error message) = record {
  batches = refl;
  attempts = omega arith;
  idle = omega arith;
  broken = omega arith;
  completed = omega arith;
  failed = omega arith;
}
result-Counts before JobResult.terminated = record {
  batches = refl;
  attempts = omega arith;
  idle = omega arith;
  broken = omega arith;
  completed = omega arith;
  failed = omega arith;
}

record_results-Counts :
    (before : PollingServiceReport) (results : List JobResult)
    → Counts before results (record_results before results)
unfolding record_results sum_of
record_results-Counts before [] = record {
  batches = refl;
  attempts = omega arith;
  idle = omega arith;
  broken = omega arith;
  completed = omega arith;
  failed = omega arith;
}
record_results-Counts before (result ∷ results) =
    let first = result-Counts before result in
    let rest = record_results-Counts (record_result before result) results in
    record {
      batches = rest.batches ∙ first.batches;
      attempts = let a = first.attempts in let b = rest.attempts in omega (arith, a, b);
      idle = let a = first.idle in let b = rest.idle in omega (arith, a, b);
      broken = let a = first.broken in let b = rest.broken in omega (arith, a, b);
      completed = let a = first.completed in let b = rest.completed in omega (arith, a, b);
      failed = let a = first.failed in let b = rest.failed in omega (arith, a, b);
    }

batch-Reports :
    (config : PollingServiceConfig) (before : PollingServiceReport) (round : Round)
    → IsJoined round
    → Reports config before (round ∷ []) (record_batch before (round_results config round))
unfolding over_rounds
batch-Reports config before round joined =
    let counts =
      record_results-Counts (record before { batches = before.batches + 1 })
        (round_results config round) in
    record {
      batches = counts.batches;
      attempts =
          let a = counts.attempts in
          let b = sum_of-round_results config round one_of joined in
          let c = over_slots-one round.answer config.concurrency in omega (arith, a, b, c);
      idle =
          let a = counts.idle in
          let b = sum_of-round_results config round idle_of joined in omega (arith, a, b);
      broken =
          let a = counts.broken in
          let b = sum_of-round_results config round broken_of joined in omega (arith, a, b);
      completed =
          let a = counts.completed in
          let b = sum_of-round_results config round completed_of joined in omega (arith, a, b);
      failed =
          let a = counts.failed in
          let b = sum_of-round_results config round failed_of joined in omega (arith, a, b);
    }

Reports-trans :
    (config : PollingServiceConfig) {a b c : PollingServiceReport} (round : Round)
    (rounds : List Round)
    → Reports config a (round ∷ []) b
    → Reports config b rounds c
    → Reports config a (round ∷ rounds) c
unfolding over_rounds
Reports-trans config round rounds first rest = record {
  batches = let a = first.batches in let b = rest.batches in omega (arith, a, b);
  attempts = let a = first.attempts in let b = rest.attempts in grind arith;
  idle = let a = first.idle in let b = rest.idle in omega (arith, a, b);
  broken = let a = first.broken in let b = rest.broken in omega (arith, a, b);
  completed = let a = first.completed in let b = rest.completed in omega (arith, a, b);
  failed = let a = first.failed in let b = rest.failed in omega (arith, a, b);
}

Reports-refl : (config : PollingServiceConfig) (a : PollingServiceReport) → Reports config a [] a
unfolding over_rounds
Reports-refl config a = record {
  batches = omega arith;
  attempts = omega arith;
  idle = omega arith;
  broken = omega arith;
  completed = omega arith;
  failed = omega arith;
}

ltb-more : (a b : ℕ) {c : ℕ} → c ≡ a + b → ltb a c ≡ ltb 0 b
ltb-more a b e = elim (Bool-cases (ltb 0 b)) [
  | inl h ↦ ground (arith, e, h)
  | inr h ↦ ground (arith, e, h)
]

delay_after-pause :
    (config : PollingServiceConfig) (before after : PollingServiceReport) (round : Round)
    → Reports config before (round ∷ []) after
    → delay_after config before after ≡ pause_after config round
unfolding delay_after over_rounds
delay_after-pause config before after round counted =
    let a = counted.broken in
    let b = counted.completed in
    let c = counted.failed in
    let broke : ltb before.infrastructure_failures after.infrastructure_failures
        ≡ ltb 0 (over_slots broken_of round.answer config.concurrency) =
      ltb-more before.infrastructure_failures _ (omega (arith, a)) in
    let moved : ltb (before.completed + before.failed) (after.completed + after.failed)
        ≡ ltb 0 (
            over_slots completed_of round.answer config.concurrency
            + over_slots failed_of round.answer config.concurrency) =
      ltb-more (before.completed + before.failed) _ (omega (arith, b, c)) in
    rw (broke, moved) refl

run-Reports_from :
    (config : PollingServiceConfig) (before : PollingServiceReport) (rounds : List Round)
    → All IsJoined rounds
    → Reports config before (rounds_run rounds) (run config before rounds).0
      × ((run config before rounds).1 ≡ pauses config rounds)
unfolding run rounds_run pauses
run-Reports_from config before [] joined = (Reports-refl config before, refl)
run-Reports_from config before (round ∷ rounds) joined =
    let after = record_batch before (round_results config round) in
    let first = batch-Reports config before round joined.0 in
    let (rest, waits) = run-Reports_from config after rounds joined.1 in
    let pause = delay_after-pause config before after round first in
    elim (Bool-cases round.stopped_after) [
      | inl e ↦ simp e (first, refl)
      | inr e ↦ elim (Bool-cases round.stopped_in_delay) [
        | inl f ↦ simp (e, f) (first, ap (λ d. d ∷ []) pause)
        | inr f ↦
            simp (e, f)
              (
                Reports-trans config round (rounds_run rounds) first rest,
                rw pause (ap (λ ds. pause_after config round ∷ ds) waits),
              )
      ]
    ]

module _ (config : PollingServiceConfig) (job_limit : ℕ)
    (valid : service_config_is_valid config job_limit ≡ true) where
  pause_after-positive : (round : Round) → 0 < pause_after config round
  unfolding service_config_is_valid
  pause_after-positive round = ground (arith, valid)

  pauses-positive : (rounds : List Round) → All (λ pause. 0 < pause) (pauses config rounds)
  unfolding pauses
  pauses-positive [] = tt
  pauses-positive (round ∷ rounds) =
      let rest = pauses-positive rounds in
      let slept = pause_after-positive round in
      elim (Bool-cases round.stopped_after) [
        | inl e ↦ rw e tt
        | inr e ↦ elim (Bool-cases round.stopped_in_delay) [
          | inl f ↦ rw (e, f) (slept, tt)
          | inr f ↦ rw (e, f) (slept, rest)
        ]
      ]

  -- With a configuration that was accepted, in whatever order the JoinSet gives the answers of a
  -- batch, each once, and whenever the shutdown comes, a run reports the rounds up to the one that
  -- stops it: one attempt for each slot of each, and the idle, broken, completed and failed work
  -- of all their slots. It waits after a round for errors if some slot broke, the busy delay if
  -- some slot got on, and the idle delay otherwise; and it never goes on without a wait.
  pub run-Reports :
      (rounds : List Round)
      → All IsJoined rounds
      → Reports config empty_report (rounds_run rounds) (run config empty_report rounds).0
        × ((run config empty_report rounds).1 ≡ pauses config rounds)
        × All (λ pause. 0 < pause) (run config empty_report rounds).1
  run-Reports rounds joined =
      let (counted, waits) = run-Reports_from config empty_report rounds joined in
      (counted, waits, subst (All (λ pause. 0 < pause)) (sym waits) (pauses-positive rounds))
