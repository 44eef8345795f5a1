-- ===== src/Parking/Fee/Laws.antt =====
-- What a stay costs.
use onepark_smart_park.Prelude.{
  ℕ, ◌+◌, ◌*◌, ◌≤◌, ◌<◌, ◌≡◌, refl, false, Option, none, some, arith, Bool-cases, inl, inr, leb,
  ◌==◌, if◌then◌else◌,
}
use onepark_smart_park.Prelude.Int.{ℤ, ◌≤ℤ◌, pos, leb_ℤ}
use onepark_smart_park.Parking.Model.{ParkingFeeRuleConfig}
use onepark_smart_park.Parking.Fee.{
  minute, ceil_minutes, is_free, hours_of, days_of, capped, charge, calc_fee, calc_fee_by_rule,
}

abbrev pub default_rule : ParkingFeeRuleConfig
default_rule = record { free_minutes = 15; hourly_fee = 500; daily_cap = 0 }

-- Without a configured rule a stay costs what the rule of 15 free minutes, 5 yuan an hour and no
-- daily cap makes it cost.
pub calc_fee-default_rule :
    (entry exit : Option ℕ) (vehicle_type : ℕ)
    → calc_fee entry exit vehicle_type
      ≡ calc_fee_by_rule entry exit vehicle_type (some default_rule)
unfolding calc_fee calc_fee_by_rule
calc_fee-default_rule none exit vehicle_type = refl
calc_fee-default_rule (some a) none vehicle_type = refl
calc_fee-default_rule (some a) (some b) vehicle_type = refl

abbrev pub hour : ℕ
hour = 3600000000000

abbrev pub day : ℕ
day = 86400000000000

-- `n` is the least number of units that covers `stay`.
abbrev pub IsLeast : ℕ → ℕ → ℕ → Type 0
IsLeast unit stay n = (stay ≤ n * unit) × (n * unit < stay + unit)

-- The smaller of two amounts, where a cap of 0 is none.
abbrev pub least_of : ℕ → ℕ → ℕ → ℕ
least_of cap amount limit = if cap == 0 then amount else if leb amount limit then amount else limit

hours_of-IsLeast : (a stay : ℕ) → IsLeast hour stay (hours_of (ceil_minutes a (a + stay)))
unfolding ceil_minutes
hours_of-IsLeast a stay = ground arith

days_of-IsLeast : (a stay : ℕ) → 0 < stay → IsLeast day stay (days_of (ceil_minutes a (a + stay)))
unfolding ceil_minutes
days_of-IsLeast a stay h = ground arith

is_paid :
    (free a stay : ℕ) → free * minute < stay → leb_ℤ (ceil_minutes a (a + stay)) (pos free) ≡ false
unfolding ceil_minutes
is_paid free a stay h = ground arith

capped_lem :
    (cap : ℕ) (mins : ℤ) (fee : ℕ) → capped cap mins fee ≡ least_of cap fee (days_of mins * cap)
capped_lem cap mins fee = ground arith

charge_lem :
    (cfg : ParkingFeeRuleConfig) (a stay : ℕ)
    → cfg.free_minutes * minute < stay
    → charge cfg (ceil_minutes a (a + stay))
      ≡ least_of cfg.daily_cap
          (hours_of (ceil_minutes a (a + stay)) * cfg.hourly_fee)
          (days_of (ceil_minutes a (a + stay)) * cfg.daily_cap)
charge_lem cfg a stay long =
    rw (is_paid cfg.free_minutes a stay long)
      (capped_lem cfg.daily_cap (ceil_minutes a (a + stay)) _)

-- A vehicle that pays and stays longer than the free time pays for the least numbers of hours and of
-- days, each 24 hours from the entry on, that cover the stay: hours times the price, but at most
-- days times the cap.
pub calc_fee_by_rule_lem :
    (a stay vehicle_type : ℕ) (cfg : ParkingFeeRuleConfig)
    → is_free vehicle_type ≡ false
    → cfg.free_minutes * minute < stay
    → (hours days : ℕ) × IsLeast hour stay hours
      × IsLeast day stay days
      × (calc_fee_by_rule (some a) (some (a + stay)) vehicle_type (some cfg)
          ≡ least_of cfg.daily_cap (hours * cfg.hourly_fee) (days * cfg.daily_cap))
unfolding calc_fee_by_rule ceil_minutes
calc_fee_by_rule_lem a stay vehicle_type cfg pays long = (
  hours_of (ceil_minutes a (a + stay)),
  days_of (ceil_minutes a (a + stay)),
  hours_of-IsLeast a stay,
  days_of-IsLeast a stay (omega arith),
  rw pays (charge_lem cfg a stay long),
)

ceil_minutes_mono : (a b c : ℕ) → b ≤ c → ceil_minutes a b ≤ℤ ceil_minutes a c
unfolding ceil_minutes
ceil_minutes_mono a b c h = ground arith

still_paid : (free : ℕ) (m n : ℤ) → m ≤ℤ n → leb_ℤ m (pos free) ≡ false → leb_ℤ n (pos free) ≡ false
still_paid free m n h paid = ground arith

product_mono : (k m n : ℕ) → m ≤ n → m * k ≤ n * k
product_mono k m n h = grind arith

hours_of_mono : (m n : ℤ) → m ≤ℤ n → hours_of m ≤ hours_of n
hours_of_mono m n h = ground arith

days_of_mono : (m n : ℤ) → m ≤ℤ n → days_of m ≤ days_of n
days_of_mono m n h = ground arith

least_of_mono :
    (cap a b limit bound : ℕ) → a ≤ b → limit ≤ bound → least_of cap a limit ≤ least_of cap b bound
least_of_mono cap a b limit bound h k = ground arith

charge_mono : (cfg : ParkingFeeRuleConfig) (m n : ℤ) → m ≤ℤ n → charge cfg m ≤ charge cfg n
charge_mono cfg m n h = elim (Bool-cases (leb_ℤ m (pos cfg.free_minutes))) [
  | inl free ↦ rw free (omega arith)
  | inr paid ↦
      rw
        (
          paid,
          still_paid cfg.free_minutes m n h paid,
          capped_lem cfg.daily_cap m _,
          capped_lem cfg.daily_cap n _,
        )
        (least_of_mono cfg.daily_cap _ _ _ _ (product_mono cfg.hourly_fee _ _ (hours_of_mono m n h))
          (product_mono cfg.daily_cap _ _ (days_of_mono m n h)))
]

-- For one entry, type of vehicle and rule, a longer stay never costs less.
pub calc_fee_by_rule_mono :
    (a b c vehicle_type : ℕ) (cfg : ParkingFeeRuleConfig)
    → b ≤ c
    → calc_fee_by_rule (some a) (some b) vehicle_type (some cfg)
      ≤ calc_fee_by_rule (some a) (some c) vehicle_type (some cfg)
unfolding calc_fee_by_rule ceil_minutes
calc_fee_by_rule_mono a b c vehicle_type cfg h = elim (Bool-cases (is_free vehicle_type)) [
  | inl free ↦ rw free (omega arith)
  | inr pays ↦
      rw pays (charge_mono cfg (ceil_minutes a b) (ceil_minutes a c) (ceil_minutes_mono a b c h))
]
