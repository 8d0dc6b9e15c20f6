-- ===== src/Server/Schedule/Laws.antt =====
-- What a plan of a schedule fires.
use Prim.Native.String.{String}
use mathlib.Core.Path.{subst}
use agent_loom.Base.{
  ℕ, zero, suc, ◌≤◌, ◌<◌, ◌≡◌, refl, inl, inr, Bool, ◌&&◌, some, List, [], ◌∷◌, length, All,
  All-map, leb, ltb, arith, Bool-cases, Option-cases,
}
use agent_loom.Domain.Status.{ScheduleMisfirePolicy}
use agent_loom.Server.Schedule.{
  Calendar, ScheduleSnapshot, DispatchPlan, Dispatch, fine, refused, DispatchError, ◌>>=◌,
  next_after, catch_up, clamped_limit, due_plan, plan_from, dispatch_plan, plan_schedule, require,
  is_forbid, max_catch_up_limit,
}

-- The documented order of the iterator: the next time is later.
abbrev pub IsCalendar : Calendar → Type 0
IsCalendar calendar =
    (expression timezone : String) (time later : ℕ)
    → calendar.after expression timezone time ≡ some later
    → time < later

abbrev pub IsIncreasing : ℕ → List ℕ → Type 0
IsIncreasing start [] = Unit
IsIncreasing start (f ∷ fs) = (start ≤ f) × IsIncreasing (suc f) fs

-- A plan that fires in order what is due, and goes on after that.
pub record IsPlan (start now limit : ℕ) (plan : DispatchPlan) : Type 0 where
  pub ordered : IsIncreasing start plan.fires
  pub due : All (λ f. (f ≤ now) × (f < plan.next_fire_at)) plan.fires
  pub onward : start ≤ plan.next_fire_at
  pub few : length plan.fires ≤ limit

pub >>=-fine :
    {A B : Type 0} {result : B} (step : Dispatch A) (next : A → Dispatch B)
    → (step >>= next) ≡ fine result
    → (value : A) × (step ≡ fine value) × (next value ≡ fine result)
>>=-fine (fine a) next h = (a, refl, h)
>>=-fine (refused e) next h = absurd cc

pub fine-eq : {A : Type 0} {x y : A} → fine x ≡ fine y → x ≡ y
fine-eq h = cc

module _ (calendar : Calendar) (lawful : IsCalendar calendar) (schedule : ScheduleSnapshot)
    (now : ℕ) where
  next_after-later :
      (time : ℕ) {later : ℕ} → next_after calendar schedule time ≡ fine later → time < later
  unfolding next_after
  next_after-later time {later} h =
      let (u, ranged, h1) =
        >>=-fine (require (calendar.is_timestamp time) DispatchError.out_of_range) _ h in
      elim (Option-cases (calendar.after schedule.cron_expression schedule.timezone time)) [
        | inl e ↦ absurd (let bad = rw e at h1 in cc)
        | inr (next, e) ↦
            let same = fine-eq (rw e at h1) in
            let after = lawful schedule.cron_expression schedule.timezone time next e in
            omega (arith, same, after)
      ]

  IsIncreasing-from :
      (low high : ℕ) (fs : List ℕ) → low ≤ high → IsIncreasing high fs → IsIncreasing low fs
  IsIncreasing-from low high [] le h = tt
  IsIncreasing-from low high (f ∷ fs) le h = (let first = h.0 in omega (arith, le, first), h.1)

  catch_up-IsPlan :
      (cursor left : ℕ) {plan : DispatchPlan}
      → catch_up calendar schedule now cursor left ≡ fine plan
      → IsPlan cursor now left plan
  unfolding catch_up
  catch_up-IsPlan cursor zero h =
      subst (IsPlan cursor now zero) (fine-eq h)
        (record { ordered = tt; due = tt; onward = omega arith; few = omega arith })
  catch_up-IsPlan cursor (suc left) h = elim (Bool-cases (leb cursor now)) [
    | inr e ↦
        subst (IsPlan cursor now (suc left)) (fine-eq (rw (catch_up, e) at h))
          (record { ordered = tt; due = tt; onward = omega arith; few = omega arith })
    | inl e ↦
        let (later, e1, h1) =
          >>=-fine (next_after calendar schedule cursor) _ (rw (catch_up, e) at h) in
        let (rest, e2, h2) = >>=-fine (catch_up calendar schedule now later left) _ h1 in
        let good = catch_up-IsPlan later left e2 in
        let after = next_after-later cursor e1 in
        let onward = good.onward in
        let few = good.few in
        subst (IsPlan cursor now (suc left)) (fine-eq h2) (record {
          ordered = (
            omega arith,
            IsIncreasing-from (suc cursor) later _ (omega (arith, after)) good.ordered,
          );
          due = ((ground (arith, e), omega (arith, after, onward)), good.due);
          onward = omega (arith, after, onward);
          few = omega (arith, few);
        })
  ]

  next-IsPlan :
      (fires : List ℕ) (limit : ℕ) {start : ℕ} {plan : DispatchPlan}
      → start ≤ now
      → IsIncreasing start fires
      → All (λ f. f ≤ now) fires
      → length fires ≤ limit
      → (next_after calendar schedule now
          >>= (λ next. fine (record { fires = fires; next_fire_at = next })))
        ≡ fine plan
      → IsPlan start now limit plan
  next-IsPlan fires limit {start} begun ordered due few h =
      let (next, e, h1) = >>=-fine (next_after calendar schedule now) _ h in
      let after = next_after-later now e in
      subst (IsPlan start now limit) (fine-eq h1) (record {
        ordered = ordered;
        due = All-map _ _ fires (λ f le. (le, omega (arith, le, after))) due;
        onward = omega (arith, begun, after);
        few = few;
      })

  clamped_limit-le : clamped_limit schedule.catch_up_limit ≤ max_catch_up_limit
  clamped_limit-le = ground arith

module _ (calendar : Calendar) (lawful : IsCalendar calendar) where
  due_plan-IsPlan :
      (schedule : ScheduleSnapshot) (now : ℕ) (policy : ScheduleMisfirePolicy) {plan : DispatchPlan}
      → schedule.next_fire_at ≤ now
      → due_plan calendar (record schedule { misfire_policy = policy }) now ≡ fine plan
      → IsPlan schedule.next_fire_at now max_catch_up_limit plan
  due_plan-IsPlan schedule now ScheduleMisfirePolicy.skip begun h =
      next-IsPlan calendar lawful (record schedule { misfire_policy = ScheduleMisfirePolicy.skip })
        now [] max_catch_up_limit begun tt tt (omega arith) h
  due_plan-IsPlan schedule now ScheduleMisfirePolicy.fire_once begun h =
      next-IsPlan calendar lawful
        (record schedule { misfire_policy = ScheduleMisfirePolicy.fire_once }) now
        (schedule.next_fire_at ∷ []) max_catch_up_limit begun (omega arith, tt) (begun, tt)
        (omega arith) h
  due_plan-IsPlan schedule now ScheduleMisfirePolicy.catch_up begun h =
      let good =
        catch_up-IsPlan calendar lawful
          (record schedule { misfire_policy = ScheduleMisfirePolicy.catch_up }) now
          schedule.next_fire_at (clamped_limit schedule.catch_up_limit) h in
      let few = good.few in
      let bound = clamped_limit-le calendar lawful schedule now in
      record {
        ordered = good.ordered;
        due = good.due;
        onward = good.onward;
        few = omega (arith, few, bound);
      }

  plan_from-IsPlan :
      (schedule : ScheduleSnapshot) (now : ℕ) {plan : DispatchPlan}
      → schedule.next_fire_at ≤ now
      → plan_from calendar schedule now ≡ fine plan
      → IsPlan schedule.next_fire_at now max_catch_up_limit plan
  unfolding plan_from
  plan_from-IsPlan schedule now begun h =
      let (u, e1, h1) =
        >>=-fine (require (calendar.is_cron schedule.cron_expression) DispatchError.invalid_cron) _
          h in
      let (v, e2, h2) =
        >>=-fine (require (calendar.is_timezone schedule.timezone) DispatchError.invalid_timezone) _
          h1 in
      let (w, e3, h3) =
        >>=-fine (require (calendar.is_timestamp schedule.next_fire_at) DispatchError.out_of_range)
          _ h2 in
      elim (Bool-cases
        (calendar.includes schedule.cron_expression schedule.timezone schedule.next_fire_at)) [
          | inl e ↦ due_plan-IsPlan schedule now schedule.misfire_policy begun (rw e at h3)
          | inr e ↦
              next-IsPlan calendar lawful schedule now [] max_catch_up_limit begun tt tt
                (omega arith) (rw e at h3)
        ]

  dispatch_plan-IsPlan :
      (schedule : ScheduleSnapshot) (now : ℕ) {plan : DispatchPlan}
      → dispatch_plan calendar schedule now ≡ fine plan
      → IsPlan schedule.next_fire_at now max_catch_up_limit plan
  unfolding dispatch_plan
  dispatch_plan-IsPlan schedule now h = elim (Bool-cases (ltb now schedule.next_fire_at)) [
    | inl e ↦
        subst (IsPlan schedule.next_fire_at now max_catch_up_limit) (fine-eq (rw e at h))
          (record { ordered = tt; due = tt; onward = omega arith; few = omega arith })
    | inr e ↦ plan_from-IsPlan schedule now (ground (arith, e)) (rw e at h)
  ]

  -- On a lawful calendar a plan, also of a schedule that is blocked by an active run, fires in order
  -- only times that are due, from the schedule's next time on and before the plan's, and at most a
  -- hundred of them; the plan's next time is never earlier than the schedule's.
  pub plan_schedule-IsPlan :
      (schedule : ScheduleSnapshot) (has_active_runs : Bool) (now : ℕ) {plan : DispatchPlan}
      → plan_schedule calendar schedule has_active_runs now ≡ fine plan
      → IsPlan schedule.next_fire_at now max_catch_up_limit plan
  unfolding plan_schedule
  plan_schedule-IsPlan schedule has_active_runs now h =
      elim (Bool-cases (is_forbid schedule.concurrency_policy && has_active_runs)) [
        | inl e ↦
            dispatch_plan-IsPlan (record schedule { misfire_policy = ScheduleMisfirePolicy.skip })
              now (rw e at h)
        | inr e ↦ dispatch_plan-IsPlan schedule now (rw e at h)
      ]
