-- ===== src/Parking/Fee.antt =====
-- Fees: `CalcFee` and `CalcFeeByRule` of internal/svc/consumer.go.
-- The source multiplies float64 numbers of yuan; here the products are exact and in cents.
pub mod Laws
use onepark_smart_park.Prelude.{
  ℕ, ◌+◌, ◌-◌, ◌*◌, ◌/◌, zero, suc, Bool, ◌||◌, Option, none, some, ltb, leb, ◌==◌, if◌then◌else◌,
}
use onepark_smart_park.Prelude.Int.{ℤ, pos, negsuc, pos_part, leb_ℤ}
use onepark_smart_park.Parking.Model.{ParkingFeeRuleConfig, vehicle_type_monthly, vehicle_type_vip}

abbrev pub minute : ℕ
minute = 60000000000

abbrev pub minus : ℕ → ℤ
minus zero = pos 0
minus (suc n) = negsuc n

-- `int(math.Ceil(exit.Sub(entry).Minutes()))`; a stay that ends before it starts rounds up to 0.
unfoldable pub ceil_minutes : ℕ → ℕ → ℤ
ceil_minutes entry exit =
    if leb entry exit
    then pos ((exit - entry + 59999999999) / minute)
    else minus ((entry - exit) / minute)

abbrev pub is_free : ℕ → Bool
is_free vehicle_type = vehicle_type == vehicle_type_monthly || vehicle_type == vehicle_type_vip

abbrev pub hours_of : ℤ → ℕ
hours_of mins = (pos_part mins + 59) / 60

abbrev pub charge_default : ℤ → ℕ
charge_default mins = if leb_ℤ mins (pos 15) then 0 else hours_of mins * 500

unfoldable pub calc_fee : Option ℕ → Option ℕ → ℕ → ℕ
unfolding ceil_minutes
calc_fee none exit vehicle_type = 0
calc_fee (some a) none vehicle_type = 0
calc_fee (some a) (some b) vehicle_type =
    if is_free vehicle_type then 0 else charge_default (ceil_minutes a b)

abbrev pub at_least_one : ℕ → ℕ
at_least_one days = if ltb days 1 then 1 else days

-- Blocks of 24 hours; the source's comment speaks of calendar days.
abbrev pub days_of : ℤ → ℕ
days_of mins = at_least_one ((pos_part mins + 1439) / 1440)

abbrev pub capped : ℕ → ℤ → ℕ → ℕ
capped cap mins fee =
    if ltb 0 cap then (if ltb (days_of mins * cap) fee then days_of mins * cap else fee) else fee

abbrev pub charge : ParkingFeeRuleConfig → ℤ → ℕ
charge cfg mins =
    if leb_ℤ mins (pos cfg.free_minutes)
    then 0
    else capped cfg.daily_cap mins (hours_of mins * cfg.hourly_fee)

unfoldable pub calc_fee_by_rule : Option ℕ → Option ℕ → ℕ → Option ParkingFeeRuleConfig → ℕ
unfolding ceil_minutes calc_fee
calc_fee_by_rule entry exit vehicle_type none = calc_fee entry exit vehicle_type
calc_fee_by_rule none exit vehicle_type (some cfg) = 0
calc_fee_by_rule (some a) none vehicle_type (some cfg) = 0
calc_fee_by_rule (some a) (some b) vehicle_type (some cfg) =
    if is_free vehicle_type then 0 else charge cfg (ceil_minutes a b)
