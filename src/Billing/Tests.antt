-- ===== src/Billing/Tests.antt =====
-- Runs of the price calculation, and its theorems at concrete inputs. The numbers are fixed-point
-- ones here, counted in ten-thousandths.
use onepark_smart_park.Prelude.{
  ℕ, ◌+◌, ◌-◌, ◌*◌, ◌/◌, ◌≡◌, refl, none, some, List, [], ◌∷◌, map, codes, ltb, leb, arith,
}
use onepark_smart_park.Prelude.Int.{pos}
use onepark_smart_park.Billing.{
  Float, Period, round2, of_period, calc_tiered, tiered, calc_tou, charge_hours, tariff, add_usage,
  in_period, parse_clock,
}
use onepark_smart_park.Billing.Tiers.{
  least, IsExact, Band, tier_of, shares_total, calc_tiered-shares_total,
}
use onepark_smart_park.Billing.Clock.{hours_after, in_period-hours_after}

abbrev fixed : Float ℕ
fixed = record {
  zero = 0;
  hundred = 1000000;
  add = λ a b. a + b;
  sub = λ a b. a - b;
  mul = λ a b. a * b / 10000;
  div = λ a b. a * 10000 / b;
  min = least;
  le = leb;
  round = λ a. (a + 5000) / 10000 * 10000;
}

abbrev value : ℕ → ℕ
value n = n * 10000

fixed-IsExact : (limit : ℕ) → IsExact fixed value limit
fixed-IsExact limit = record {
  zero_value = refl;
  add_value = λ a b h. omega arith;
  sub_value = λ a b h k. omega arith;
  le_value = λ a b h k. ground arith;
  min_value = λ a b h k. ground arith;
  round2_zero = refl;
}

-- The source's example: to 100 at 0.6, to 300 at 0.8, above at 1.0.
abbrev tiers_example : List (Band ℕ)
tiers_example =
    record { up_to = some 100; price = 6000 }
    ∷ record { up_to = some 300; price = 8000 }
    ∷ record { up_to = none; price = 10000 }
    ∷ []

-- 350 kWh cost 60 and 160 and 50 yuan.
tiers_run : (calc_tiered fixed (value 350) (map (tier_of fixed value) tiers_example)).0 ≡ value 270
unfolding calc_tiered tiered
tiers_run = refl

calc_tiered-shares_total_example :
    (calc_tiered fixed (value 350) (map (tier_of fixed value) tiers_example)).0
    ≡ round2 fixed (shares_total fixed value 350 0 0 tiers_example)
calc_tiered-shares_total_example =
    calc_tiered-shares_total fixed value 1000 350 tiers_example (fixed-IsExact 1000) (omega arith)
      (omega arith, (omega arith, (omega arith, (omega arith, tt))))

-- Where the last tier has a bound, what is above it costs nothing.
above_the_last :
    (calc_tiered fixed (value 350) (record { up_to = some (value 100); price = 6000 } ∷ [])).0
    ≡ value 60
unfolding calc_tiered tiered
above_the_last = refl

abbrev night : Period ℕ
night = record { name = codes "night"; from = codes "23:00"; to = codes "07:00"; price = 3000 }

in_period-hours_after_example : in_period 3 night ≡ ltb (hours_after 23 3) (hours_after 23 7)
unfolding parse_clock
in_period-hours_after_example = in_period-hours_after 3 night (omega arith) refl refl

-- Two periods of one name and two prices share a line of the bill, which shows the first price only.
abbrev dear_night : Period ℕ
dear_night = record night { from = codes "08:00"; to = codes "09:00"; price = 9000 }

shared_line :
    calc_tou fixed
      (record { hour = pos 3; usage = value 1 } ∷ record { hour = pos 8; usage = value 1 } ∷ [])
      5000
      (night ∷ dear_night ∷ [])
    ≡ (
      12000,
      record { name = of_period (codes "night"); usage = value 2; price = 3000; amount = 12000 }
          ∷ [],
    )
unfolding calc_tou charge_hours tariff add_usage in_period parse_clock
shared_line = refl
