-- ===== src/Server/Schedule/Runs.antt =====
-- That a catch-up leaves no time out.
use mathlib.Core.Path.{subst}
use agent_loom.Base.{
  ℕ, zero, suc, ◌<◌, ◌≡◌, refl, ap, ◌∙◌, ◌⊎◌, inl, inr, some, List, [], ◌∷◌, length, All, ◌≤◌, leb,
  arith, Bool-cases, Option-cases,
}
use agent_loom.Server.Schedule.{
  Calendar, ScheduleSnapshot, DispatchPlan, fine, DispatchError, next_after, catch_up, require,
}
use agent_loom.Server.Schedule.Laws.{>>=-fine, fine-eq}

-- The times that follow each other from one to another.
abbrev pub IsRun : Calendar → ScheduleSnapshot → ℕ → List ℕ → ℕ → Type 0
IsRun calendar schedule cursor [] end = cursor ≡ end
IsRun calendar schedule cursor (f ∷ fs) end =
    (f ≡ cursor)
    × ((later : ℕ) × (calendar.after schedule.cron_expression schedule.timezone cursor ≡ some later)
        × IsRun calendar schedule later fs end)

module _ (calendar : Calendar) (schedule : ScheduleSnapshot) (now : ℕ) where
  next_after-after :
      (time : ℕ) {later : ℕ}
      → next_after calendar schedule time ≡ fine later
      → calendar.after schedule.cron_expression schedule.timezone time ≡ some later
  unfolding next_after
  next_after-after time h =
      let (u, ranged, h1) =
        >>=-fine (require (calendar.is_timestamp time) DispatchError.out_of_range) _ h in
      elim (Option-cases (calendar.after schedule.cron_expression schedule.timezone time)) [
        | inl e ↦ absurd (let bad = rw e at h1 in cc)
        | inr (next, e) ↦ e ∙ ap some (fine-eq (rw e at h1))
      ]

  -- The loop of a catch-up fires the consecutive times of the calendar from its cursor on, only
  -- those that are due, and ends when the next one is not due or at its limit; the next time is the
  -- one that follows the fired ones.
  pub catch_up-IsRun :
      (cursor left : ℕ) {plan : DispatchPlan}
      → catch_up calendar schedule now cursor left ≡ fine plan
      → IsRun calendar schedule cursor plan.fires plan.next_fire_at
        × All (λ f. f ≤ now) plan.fires
        × ((now < plan.next_fire_at) ⊎ (length plan.fires ≡ left))
  unfolding catch_up
  catch_up-IsRun cursor zero h =
      subst
        (λ p.
          IsRun calendar schedule cursor p.fires p.next_fire_at
          × All (λ f. f ≤ now) p.fires
          × ((now < p.next_fire_at) ⊎ (length p.fires ≡ zero)))
        (fine-eq h) (refl, tt, inr refl)
  catch_up-IsRun cursor (suc left) h = elim (Bool-cases (leb cursor now)) [
    | inr e ↦
        subst
          (λ p.
            IsRun calendar schedule cursor p.fires p.next_fire_at
            × All (λ f. f ≤ now) p.fires
            × ((now < p.next_fire_at) ⊎ (length p.fires ≡ suc left)))
          (fine-eq (rw (catch_up, e) at h)) (refl, tt, inl (ground (arith, e)))
    | inl e ↦
        let (later, e1, h1) =
          >>=-fine (next_after calendar schedule cursor) _ (rw (catch_up, e) at h) in
        let (rest, e2, h2) = >>=-fine (catch_up calendar schedule now later left) _ h1 in
        let (run, due, finish) = catch_up-IsRun later left e2 in
        subst
          (λ p.
            IsRun calendar schedule cursor p.fires p.next_fire_at
            × All (λ f. f ≤ now) p.fires
            × ((now < p.next_fire_at) ⊎ (length p.fires ≡ suc left)))
          (fine-eq h2)
          (
            (refl, (later, next_after-after cursor e1, run)),
            (ground (arith, e), due),
            elim finish [ inl past ↦ inl past | inr full ↦ inr (ap suc full) ],
          )
  ]
