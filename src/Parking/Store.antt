-- ===== src/Parking/Store.antt =====
-- What the handlers of parking-service share: the state they change, and how its parts answer.
-- Log lines are left out: nothing reads them.
use onepark_smart_park.Prelude.{
  ℕ, Bool, ◌&&◌, not, Option, none, some, List, [], ◌∷◌, ◌++◌, Text, text_eq, ◌==◌, if◌then◌else◌,
}
use onepark_smart_park.Prelude.Int.{ℤ}
use onepark_smart_park.Parking.Model.{
  ParkingRecord, ParkingFeeRule, ParkingFeeRuleConfig, MonthlyCard, parking_status_parking,
  parking_status_done, vehicle_type_monthly, vehicle_type_temp, parse_rule,
  get_active_parking_fee_rule, has_active_monthly_card,
}
use onepark_smart_park.Parking.Fee.{ceil_minutes, calc_fee, calc_fee_by_rule}

-- The messages to Kafka: the record as sent, or the plate, the device and the time of an alarm.
pub data Event : Type 0 where
  parking_entry parking_exit : ParkingRecord → Event
  alarm : Text → Text → ℕ → Event

-- The tables of parking_db, the keys in Redis, and the messages sent so far.
pub record State : Type 0 where
  pub records : List ParkingRecord
  pub next_id : ℕ  -- the next value of AUTO_INCREMENT
  pub rules : List ParkingFeeRule
  pub cards : List MonthlyCard
  pub keys : List Text
  pub events : List Event

-- How Redis, MySQL and Kafka answer during one call, what the clock shows, and what other calls do
-- to the state between reading a record and writing it.
pub record Answers : Type 0 where
  pub has_dedup : Bool  -- `s.Dedup != nil`
  pub seen_fails : Bool
  pub release_fails : Bool
  pub load_fails : Bool
  pub rule_fails : Bool
  pub card_fails : Bool
  pub insert_fails : Bool
  pub update_fails : Bool
  pub has_producer : Bool  -- `s.Producer != nil`
  pub publish_fails : Event → Bool
  pub now : ℕ
  pub unmarshal : Text → Option ParkingFeeRuleConfig  -- `encoding/json` on a rule
  pub meanwhile : State → State

-- `publish`: a message that is not sent is only reported.
unfoldable pub publish : Answers → Event → State → State
publish a e st =
    if not a.has_producer
    then st
    else if a.publish_fails e
    then st
    else record st { events = st.events ++ e ∷ [] }

-- `ResolveVehicleType`
unfoldable pub resolve_vehicle_type : Option (List MonthlyCard) → Bool → ℕ → Text → ℕ → ℕ
unfolding has_active_monthly_card
resolve_vehicle_type cards fails tenant plate at =
    if has_active_monthly_card cards fails tenant plate at
    then vehicle_type_monthly
    else vehicle_type_temp

abbrev pub active_of : ℕ → Text → ParkingRecord → Bool
active_of tenant plate r =
    text_eq r.plate_no plate && (r.tenant_id == tenant && r.status == parking_status_parking)

-- The condition of the update that settles a record: it must still be parked.
abbrev pub still_parking : ℕ → ℕ → ParkingRecord → Bool
still_parking id tenant r =
    r.id == id && (r.tenant_id == tenant && r.status == parking_status_parking)

-- What an exit writes.
pub record Settlement : Type 0 where
  pub exit_time : ℕ
  pub duration_min : ℤ
  pub fee : ℕ
  pub device_id_out : Text

abbrev pub set_settled : Settlement → ParkingRecord → ParkingRecord
set_settled s r = record r {
  status = parking_status_done;
  exit_time = some s.exit_time;
  duration_min = some s.duration_min;
  fee = s.fee;
  device_id_out = s.device_id_out;
}

abbrev pub stay_minutes : Option ℕ → ℕ → ℤ
stay_minutes none exit = ℤ.pos 0
stay_minutes (some entry) exit = ceil_minutes entry exit

abbrev by_config : ParkingRecord → ℕ → Option ParkingFeeRuleConfig → ℕ
by_config r exit none = calc_fee r.entry_time (some exit) r.vehicle_type
by_config r exit (some cfg) = calc_fee_by_rule r.entry_time (some exit) r.vehicle_type (some cfg)

abbrev by_rule : Answers → ParkingRecord → ℕ → Option (Option ParkingFeeRule) → ℕ
by_rule a r exit none = by_config r exit none
by_rule a r exit (some none) = by_config r exit none
by_rule a r exit (some (some rule)) = by_config r exit (parse_rule a.unmarshal rule)

-- The fee at an exit, by message or by request: by the rule in force now, or by default.
unfoldable pub exit_fee : Answers → List ParkingFeeRule → ParkingRecord → ℕ → ℕ → ℕ
exit_fee a rules r tenant exit =
    by_rule a r exit (get_active_parking_fee_rule (some rules) a.rule_fails tenant a.now)
