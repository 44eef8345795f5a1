-- ===== src/Parking/Model.antt =====
-- The rows of parking_db: internal/model/parking.go and internal/model/monthlycard.go.
-- A time is its nanoseconds since 1970 and money is counted in cents (the column is DECIMAL(10,2)).
-- The time stamps `created_at` and `updated_at` are left out: nothing reads them.
use onepark_smart_park.Prelude.{
  ℕ, Bool, true, false, ◌&&◌, not, Option, none, some, List, [], ◌∷◌, Text, ltb, leb, ◌==◌,
  is_empty, text_eq, if◌then◌else◌,
}
use onepark_smart_park.Prelude.Int.{ℤ}
use onepark_smart_park.Table.{affected}

abbrev pub parking_status_parking : ℕ
parking_status_parking = 1

abbrev pub parking_status_done : ℕ
parking_status_done = 2

abbrev pub vehicle_type_monthly : ℕ
vehicle_type_monthly = 1

abbrev pub vehicle_type_temp : ℕ
vehicle_type_temp = 2

abbrev pub vehicle_type_vip : ℕ
vehicle_type_vip = 3

abbrev pub vehicle_type_abnormal : ℕ
vehicle_type_abnormal = 4

pub record ParkingRecord : Type 0 where
  pub id : ℕ
  pub tenant_id : ℕ
  pub plate_no : Text
  pub entry_time : Option ℕ
  pub exit_time : Option ℕ
  pub duration_min : Option ℤ
  pub fee : ℕ
  pub vehicle_type : ℕ
  pub status : ℕ
  pub device_id_in : Text
  pub device_id_out : Text
  pub request_id : Option Text

-- The numbers of a stored rule are not negative: its only writer refuses others.
pub record ParkingFeeRuleConfig : Type 0 where
  pub free_minutes : ℕ
  pub hourly_fee : ℕ
  pub daily_cap : ℕ

pub record ParkingFeeRule : Type 0 where
  pub id : ℕ
  pub tenant_id : ℕ
  pub rule_json : Text
  pub effective_from : Option ℕ
  pub effective_to : Option ℕ

-- `ParseRule`; `encoding/json` is the argument, and `none` is an error.
unfoldable pub parse_rule :
    (Text → Option ParkingFeeRuleConfig) → ParkingFeeRule → Option ParkingFeeRuleConfig
parse_rule unmarshal r = if is_empty r.rule_json then none else unmarshal r.rule_json

abbrev pub not_after : Option ℕ → ℕ → Bool
not_after none at = true
not_after (some from) at = leb from at

abbrev pub not_before : Option ℕ → ℕ → Bool
not_before none at = true
not_before (some to) at = leb at to

abbrev pub in_force : ℕ → ℕ → ParkingFeeRule → Bool
in_force tenant at r =
    (r.tenant_id == tenant) && (not_after r.effective_from at && not_before r.effective_to at)

abbrev pub newer {ℓ} : {R : Type ℓ} → Option R → Option R → Option R
newer (some later) earlier = some later
newer none earlier = earlier

-- `Where(p).Order("id DESC").First(&row)` on rows in the order of their ids
abbrev pub newest {ℓ} : {R : Type ℓ} → (R → Bool) → List R → Option R
newest p [] = none
newest p (r ∷ rs) = newer (newest p rs) (if p r then some r else none)

-- The answer of a query that can fail: `none` is an error, `some none` is no row.
-- `GetActiveParkingFeeRule`
unfoldable pub get_active_parking_fee_rule :
    Option (List ParkingFeeRule) → Bool → ℕ → ℕ → Option (Option ParkingFeeRule)
get_active_parking_fee_rule none fails tenant at = some none
get_active_parking_fee_rule (some rules) fails tenant at =
    if fails then none else some (newest (in_force tenant at) rules)

abbrev pub monthly_card_status_active : ℕ
monthly_card_status_active = 1

abbrev pub monthly_card_status_disabled : ℕ
monthly_card_status_disabled = 2

pub record MonthlyCard : Type 0 where
  pub id : ℕ
  pub tenant_id : ℕ
  pub plate_no : Text
  pub owner_name : Text
  pub phone : Text
  pub start_time : ℕ
  pub end_time : ℕ
  pub status : ℕ

abbrev pub covers : ℕ → Text → ℕ → MonthlyCard → Bool
covers tenant plate at c =
    (c.tenant_id == tenant)
    && (text_eq c.plate_no plate
        && ((c.status == monthly_card_status_active) && (leb c.start_time at && leb at c.end_time)))

-- `HasActiveMonthlyCard`: `none` is a service without a database.
unfoldable pub has_active_monthly_card : Option (List MonthlyCard) → Bool → ℕ → Text → ℕ → Bool
has_active_monthly_card none fails tenant plate at = false
has_active_monthly_card (some cards) fails tenant plate at =
    not fails && ltb 0 (affected (covers tenant plate at) cards)
