-- ===== src/Video/Days.antt =====
-- The bound on the days that a plan's loop visits.
use onepark_smart_park.Prelude.{
  ℕ, zero, suc, ◌+◌, ◌*◌, ◌≤◌, ◌<◌, ◌≡◌, refl, ap, Bool-cases, inl, inr, All, ltb, lt→ltb, arith,
}
use onepark_smart_park.Video.{
  Calendar, RecordPlan, Schedule, days_to, windows_on, plan_days, max_plan_window_days,
}

module _ (c : Calendar) (to hours : ℕ) (days_last : (day : ℕ) → day + hours ≤ c.next_day day) where
  next_day-reaches :
      (day rounds : ℕ) → to < day + suc rounds * hours → to < c.next_day day + rounds * hours
  next_day-reaches day rounds h = let last = days_last day in grind arith

  days_to-stops :
      (rounds more day : ℕ)
      → rounds ≤ more
      → to < day + rounds * hours
      → days_to c to more day ≡ days_to c to rounds day
  unfolding days_to
  days_to-stops zero zero day le far = refl
  days_to-stops zero (suc more) day le far = rw (lt→ltb to day (omega arith)) refl
  days_to-stops (suc rounds) zero day le far = absurd (omega arith)
  days_to-stops (suc rounds) (suc more) day le far =
      rw
        (days_to-stops rounds more (c.next_day day) (omega arith) (next_day-reaches day rounds far))
        refl

days_to-until : (c : Calendar) (to rounds day : ℕ) → All (λ d. d ≤ to) (days_to c to rounds day)
unfolding days_to
days_to-until c to zero day = tt
days_to-until c to (suc rounds) day = elim (Bool-cases (ltb to day)) [
  | inl past ↦ rw past tt
  | inr reached ↦ rw reached (ground arith, days_to-until c to rounds (c.next_day day))
]

-- Where each day has at least so many nanoseconds and the request ends within 400 such days of the
-- first day's midnight, the loop over the days ends by its own test, before the bound of 400: it
-- visits only days that start by the request's end, and however many more rounds it were allowed it
-- would visit the same days, and so find the same windows.
pub plan_days-enough :
    (c : Calendar) (p : RecordPlan) (s : Schedule) (from to floor hours : ℕ)
    → ((day : ℕ) → day + hours ≤ c.next_day day)
    → to < c.midnight from + max_plan_window_days * hours
    → (more : ℕ) → max_plan_window_days ≤ more
    → All (λ d. d ≤ to) (days_to c to max_plan_window_days (c.midnight from))
      × ((days_to c to more (c.midnight from) ≡ days_to c to max_plan_window_days (c.midnight from))
          × (plan_days c p s from to floor more (c.midnight from)
              ≡ plan_days c p s from to floor max_plan_window_days (c.midnight from)))
unfolding plan_days
plan_days-enough c p s from to floor hours days_last far more le =
    let same =
      days_to-stops c to hours days_last max_plan_window_days more (c.midnight from) le far in
    (
      days_to-until c to max_plan_window_days (c.midnight from),
      (same, ap (windows_on c p s from to floor) same),
    )
