-- ===== src/Billing/Clock.antt =====
-- The hours of a period, over midnight or not.
use onepark_smart_park.Prelude.{ℕ, ◌+◌, ◌-◌, ◌%◌, ◌<◌, ◌≡◌, some, ◌∷◌, Text, ltb, arith}
use onepark_smart_park.Billing.{Period, parse_clock, in_hours, in_period}

-- How many hours after `from` the hour comes, on a clock of 24
abbrev pub hours_after : ℕ → ℕ → ℕ
hours_after from hour = (hour + 24 - from) % 24

in_hours-hours_after :
    (hour from to : ℕ)
    → hour < 24
    → from < 24
    → to < 24
    → in_hours hour (some from) (some to) ≡ ltb (hours_after from hour) (hours_after from to)
in_hours-hours_after hour from to h f t = ground arith

parse_clock-lt : (s : Text) {h : ℕ} → parse_clock s ≡ some h → h < 24
unfolding parse_clock
parse_clock-lt (a ∷ b ∷ sep ∷ c ∷ d ∷ rest) e = ground arith
parse_clock-lt _ e = cc

-- An hour of the day is in a period whose two clock times can be read exactly if it comes fewer hours
-- after the period's start than the period's end does, on a clock of 24: so also over midnight, and
-- never where start and end are one hour.
pub in_period-hours_after :
    {F : Type 0} (hour : ℕ) (p : Period F) {from to : ℕ}
    → hour < 24
    → parse_clock p.from ≡ some from
    → parse_clock p.to ≡ some to
    → in_period hour p ≡ ltb (hours_after from hour) (hours_after from to)
unfolding in_period
in_period-hours_after hour p {from} {to} h f t =
    rw (f, t)
      (in_hours-hours_after hour from to h (parse_clock-lt p.from f) (parse_clock-lt p.to t))
