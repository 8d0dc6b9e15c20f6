-- ===== src/Server/Schedule.antt =====
-- dispatch_plan of server/src/schedule.rs, and the plan that `dispatch_due_schedule` makes of it;
-- whether the schedule has active runs is an argument. The calendar is a parameter: the cron and jiff crates'
-- reading of an expression and a time zone.
pub mod Laws
pub mod Runs
pub mod Examples
use Prim.Native.String.{String}
use agent_loom.Base.{
  ℕ, zero, suc, Bool, true, false, ◌&&◌, not, Option, none, some, List, [], ◌∷◌, leb, ltb,
  if◌then◌else◌,
}
use agent_loom.Domain.Status.{ScheduleMisfirePolicy, ScheduleConcurrencyPolicy}

-- What is read of a `ScheduleSnapshot`.
pub record ScheduleSnapshot : Type 0 where
  pub cron_expression : String
  pub timezone : String
  pub misfire_policy : ScheduleMisfirePolicy
  pub concurrency_policy : ScheduleConcurrencyPolicy
  pub catch_up_limit : ℕ
  pub next_fire_at : ℕ

pub record DispatchPlan : Type 0 where
  pub fires : List ℕ
  pub next_fire_at : ℕ

pub data DispatchError : Type 0 where
  invalid_cron invalid_timezone out_of_range no_later_time : DispatchError

pub data Dispatch (A : Type 0) : Type 0 where
  fine : A → Dispatch A
  refused : DispatchError → Dispatch A

infixl 5 ◌>>=◌
abbrev pub ◌>>=◌ : {A B : Type 0} → Dispatch A → (A → Dispatch B) → Dispatch B
fine a >>= next = next a
refused e >>= next = refused e

infixl 5 ◌>>◌
abbrev pub ◌>>◌ : {B : Type 0} → Dispatch (Unit {0}) → Dispatch B → Dispatch B
check >> next = check >>= (λ passed. next)

abbrev require : Bool → DispatchError → Dispatch (Unit {0})
require true e = fine tt
require false e = refused e

abbrev or_refuse : Option ℕ → DispatchError → Dispatch ℕ
or_refuse none e = refused e
or_refuse (some a) e = fine a

-- What the code asks of the crates: whether a text is an expression or a zone, whether a time is in
-- the range of timestamps, whether a time of a zone fits an expression, and the next that does.
pub record Calendar : Type 0 where
  pub is_cron : String → Bool
  pub is_timezone : String → Bool
  pub is_timestamp : ℕ → Bool
  pub includes : String → String → ℕ → Bool
  pub after : String → String → ℕ → Option ℕ

abbrev pub max_catch_up_limit : ℕ
max_catch_up_limit = 100

-- `next_after`.
unfoldable pub next_after : Calendar → ScheduleSnapshot → ℕ → Dispatch ℕ
next_after calendar schedule after = do
  require (calendar.is_timestamp after) DispatchError.out_of_range
  or_refuse (calendar.after schedule.cron_expression schedule.timezone after)
      DispatchError.no_later_time

-- `clamp(1, MAX_CATCH_UP_LIMIT)`.
abbrev pub clamped_limit : ℕ → ℕ
clamped_limit limit =
    if leb limit 0 then 1 else if leb max_catch_up_limit limit then max_catch_up_limit else limit

-- The loop of a catch-up, on the fires that are left of its limit.
unfoldable pub catch_up : Calendar → ScheduleSnapshot → ℕ → ℕ → ℕ → Dispatch DispatchPlan
unfolding next_after
catch_up calendar schedule now cursor zero = fine (record { fires = []; next_fire_at = cursor })
catch_up calendar schedule now cursor (suc left) = elim (leb cursor now) [
  | false ↦ fine (record { fires = []; next_fire_at = cursor })
  | true ↦ do
    later ← next_after calendar schedule cursor
    plan ← catch_up calendar schedule now later left
    fine (record { fires = cursor ∷ plan.fires; next_fire_at = plan.next_fire_at })
]

abbrev due_plan : Calendar → ScheduleSnapshot → ℕ → Dispatch DispatchPlan
due_plan calendar schedule now = elim schedule.misfire_policy [
  | ScheduleMisfirePolicy.skip ↦
      next_after calendar schedule now
      >>= (λ next. fine (record { fires = []; next_fire_at = next }))
  | ScheduleMisfirePolicy.fire_once ↦
      next_after calendar schedule now
      >>= (λ next. fine (record { fires = schedule.next_fire_at ∷ []; next_fire_at = next }))
  | ScheduleMisfirePolicy.catch_up ↦
      catch_up calendar schedule now schedule.next_fire_at (clamped_limit schedule.catch_up_limit)
]

-- A time that is due.
unfoldable pub plan_from : Calendar → ScheduleSnapshot → ℕ → Dispatch DispatchPlan
unfolding next_after
plan_from calendar schedule now = do
  require (calendar.is_cron schedule.cron_expression) DispatchError.invalid_cron
  require (calendar.is_timezone schedule.timezone) DispatchError.invalid_timezone
  require (calendar.is_timestamp schedule.next_fire_at) DispatchError.out_of_range
  if calendar.includes schedule.cron_expression schedule.timezone schedule.next_fire_at
      then due_plan calendar schedule now
      else next_after calendar schedule now
        >>= (λ next. fine (record { fires = []; next_fire_at = next }))

-- `dispatch_plan`.
unfoldable pub dispatch_plan : Calendar → ScheduleSnapshot → ℕ → Dispatch DispatchPlan
dispatch_plan calendar schedule now =
    if ltb now schedule.next_fire_at
    then fine (record { fires = []; next_fire_at = schedule.next_fire_at })
    else plan_from calendar schedule now

abbrev is_forbid : ScheduleConcurrencyPolicy → Bool
is_forbid ScheduleConcurrencyPolicy.forbid = true
is_forbid _ = false

-- The plan of `dispatch_due_schedule`.
unfoldable pub plan_schedule : Calendar → ScheduleSnapshot → Bool → ℕ → Dispatch DispatchPlan
plan_schedule calendar schedule has_active_runs now =
    if is_forbid schedule.concurrency_policy && has_active_runs
    then dispatch_plan calendar (record schedule { misfire_policy = ScheduleMisfirePolicy.skip })
        now
    else dispatch_plan calendar schedule now
