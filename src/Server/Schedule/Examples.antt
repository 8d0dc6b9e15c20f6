-- ===== src/Server/Schedule/Examples.antt =====
-- A schedule that is three fires behind, on a calendar of every sixty microseconds.
use agent_loom.Base.{
  ℕ, ◌+◌, ◌*◌, ◌/◌, ◌%◌, ◌≡◌, ◌<◌, ◌⊎◌, ◌≤◌, All, refl, true, false, some, [], ◌∷◌, length, ◌==◌,
  some-eq, arith,
}
use agent_loom.Domain.Status.{ScheduleMisfirePolicy, ScheduleConcurrencyPolicy}
use agent_loom.Server.Schedule.{
  Calendar, ScheduleSnapshot, DispatchPlan, fine, next_after, catch_up, plan_from, dispatch_plan,
  plan_schedule,
}
use agent_loom.Server.Schedule.Laws.{IsCalendar, IsPlan, plan_schedule-IsPlan}
use agent_loom.Server.Schedule.Runs.{IsRun, catch_up-IsRun}

abbrev every_sixty : Calendar
every_sixty = record {
  is_cron = λ expression. true;
  is_timezone = λ timezone. true;
  is_timestamp = λ time. true;
  includes = λ expression timezone time. time % 60 == 0;
  after = λ expression timezone time. some (time / 60 * 60 + 60);
}

every_sixty-IsCalendar : IsCalendar every_sixty
every_sixty-IsCalendar expression timezone time later h =
    let same = some-eq _ _ h in omega (arith, same)

abbrev behind : ScheduleSnapshot
behind = record {
  cron_expression = "* * * * *";
  timezone = "UTC";
  misfire_policy = ScheduleMisfirePolicy.catch_up;
  concurrency_policy = ScheduleConcurrencyPolicy.forbid;
  catch_up_limit = 2;
  next_fire_at = 60;
}

abbrev two_fires : DispatchPlan
two_fires = record { fires = 60 ∷ 120 ∷ []; next_fire_at = 180 }

catch_up-ok : catch_up every_sixty behind 200 60 2 ≡ fine two_fires
unfolding catch_up next_after
catch_up-ok = refl

plan-ok : plan_schedule every_sixty behind false 200 ≡ fine two_fires
unfolding plan_schedule dispatch_plan plan_from catch_up next_after
plan-ok = refl

-- An active run leaves them out.
plan-blocked :
    plan_schedule every_sixty behind true 200 ≡ fine (record { fires = []; next_fire_at = 240 })
unfolding plan_schedule dispatch_plan plan_from catch_up next_after
plan-blocked = refl

plan_schedule-IsPlan_example : IsPlan 60 200 100 two_fires
plan_schedule-IsPlan_example =
    plan_schedule-IsPlan every_sixty every_sixty-IsCalendar behind false 200 plan-ok

catch_up-IsRun_example :
    IsRun every_sixty behind 60 (60 ∷ 120 ∷ []) 180
    × All (λ f. f ≤ 200) (60 ∷ 120 ∷ [])
    × ((200 < 180) ⊎ (length {A = ℕ} (60 ∷ 120 ∷ []) ≡ 2))
catch_up-IsRun_example = catch_up-IsRun every_sixty behind 200 60 2 catch_up-ok
