-- ===== src/Parking/Tests.antt =====
-- Runs of the code and the theorems at concrete inputs.
use onepark_smart_park.Prelude.{
  ℕ, ◌*◌, ◌≡◌, ◌≤◌, refl, true, false, none, some, [], ◌∷◌, ◌++◌, codes, arith, is_empty, inl,
}
use onepark_smart_park.Prelude.Int.{pos}
use onepark_smart_park.Table.{first, affected}
use onepark_smart_park.Parking.Model.{
  ParkingRecord, ParkingFeeRuleConfig, MonthlyCard, get_active_parking_fee_rule,
}
use onepark_smart_park.Parking.Fee.{ceil_minutes, calc_fee, calc_fee_by_rule}
use onepark_smart_park.Parking.Fee.Laws.{
  IsLeast, hour, day, least_of, calc_fee_by_rule_lem, calc_fee_by_rule_mono,
}
use onepark_smart_park.Parking.Store.{
  parking_exit, State, Answers, Settlement, set_settled, exit_fee, publish,
}
use onepark_smart_park.Parking.Telemetry.{
  DeviceTelemetry, Telemetry, normalize_telemetry, format_int, idempotent_id, trim_space, trim_left,
  trim_right,
}
use onepark_smart_park.Parking.Consumer.{
  commit, repeat, dedup_key, seen, insert_entry, on_telemetry_entry, on_telemetry_exit, settle_exit,
  handle_telemetry,
}
use onepark_smart_park.Parking.Consumer.Delivery.{Untouched, on_telemetry_entry-repeatable}
use onepark_smart_park.Parking.Consumer.Redelivered.{handle_telemetry-once}
use onepark_smart_park.Parking.Consumer.Lost.{on_telemetry_exit-lost}
use onepark_smart_park.Parking.Manual.{
  ParkingExitReq, ParkingRecordResp, answered, failed, already_settled, settle_request,
  parking_exit_request,
}
use onepark_smart_park.Parking.Settle.{settle_exit-excludes}
use onepark_smart_park.Parking.Announce.{parking_exit_request-sends_loaded}
use onepark_smart_park.Parking.Card.{
  Cards, CardAnswers, CreateMonthlyCardReq, refused, card_exists, create_monthly_card,
}
use onepark_smart_park.Parking.Card.Steps.{create, stay, more, active_for, CardSteps-one_active}
use onepark_smart_park.Parking.Card.Expired.{create_monthly_card-blocked}

abbrev night_rule : ParkingFeeRuleConfig
night_rule = record { free_minutes = 30; hourly_fee = 400; daily_cap = 3000 }

-- 15 minutes are free, one second more is an hour.
free_stay_run : calc_fee (some 0) (some 900000000000) 2 ≡ 0
unfolding calc_fee ceil_minutes
free_stay_run = refl

paid_stay_run : calc_fee (some 0) (some 901000000000) 2 ≡ 500
unfolding calc_fee ceil_minutes
paid_stay_run = refl

-- 25 hours under a daily cap count as two days.
capped_stay_run : calc_fee_by_rule (some 0) (some 90000000000000) 2 (some night_rule) ≡ 6000
unfolding calc_fee_by_rule ceil_minutes
capped_stay_run = refl

-- 23:00 to 01:00 on two calendar days, under a cap of 6 yuan a day, counts as one day.
over_midnight_run :
    calc_fee_by_rule
      (some (23 * hour))
      (some (25 * hour))
      2
      (some (record night_rule { daily_cap = 600 }))
    ≡ 600
unfolding calc_fee_by_rule ceil_minutes
over_midnight_run = refl

calc_fee_by_rule_lem_example :
    (hours days : ℕ) × IsLeast hour 90000000000000 hours
    × IsLeast day 90000000000000 days
    × (calc_fee_by_rule (some 5) (some 90000000000005) 2 (some night_rule)
        ≡ least_of 3000 (hours * 400) (days * 3000))
calc_fee_by_rule_lem_example = calc_fee_by_rule_lem 5 90000000000000 2 night_rule refl (omega arith)

calc_fee_by_rule_mono_example :
    calc_fee_by_rule (some 5) (some 2000000000000) 2 (some night_rule)
    ≤ calc_fee_by_rule (some 5) (some 9000000000000) 2 (some night_rule)
calc_fee_by_rule_mono_example =
    calc_fee_by_rule_mono 5 2000000000000 9000000000000 2 night_rule (omega arith)

abbrev up : Answers
up = record {
  has_dedup = true;
  seen_fails = false;
  release_fails = false;
  load_fails = false;
  rule_fails = false;
  card_fails = false;
  insert_fails = false;
  update_fails = false;
  has_producer = true;
  publish_fails = λ e. false;
  now = 7300000000000;
  unmarshal = λ s. some night_rule;
  meanwhile = λ st. st;
}

abbrev no_insert : Answers
no_insert = record up { insert_fails = true }

abbrev no_load : Answers
no_load = record up { load_fails = true }

abbrev arrival : Telemetry
arrival = record {
  request_id = codes " r1 ";
  tenant_id = 5;
  device_id = codes "d1";
  event = codes "entry";
  plate_no = codes "A1";
  vehicle_type = 2;
  timestamp = 100;
}

abbrev departure : Telemetry
departure = record arrival { request_id = codes "r2"; event = codes "exit"; timestamp = 7300 }

abbrev empty : State
empty = record { records = []; next_id = 1; rules = []; cards = []; keys = []; events = [] }

abbrev parked : ParkingRecord
parked = record {
  id = 1;
  tenant_id = 5;
  plate_no = codes "A1";
  entry_time = some 100000000000;
  exit_time = none;
  duration_min = none;
  fee = 0;
  vehicle_type = 2;
  status = 1;
  device_id_in = codes "d1";
  device_id_out = [];
  request_id = some (codes "r1");
}

abbrev one_parked : State
one_parked = record empty { records = parked ∷ []; next_id = 2 }

abbrev bill : Settlement
bill = record {
  exit_time = 7300000000000;
  duration_min = pos 120;
  fee = 1000;
  device_id_out = codes "d2";
}

-- An entry writes the record that the exit then settles: two hours at the default price.
entry_run : (on_telemetry_entry (λ s. s) up arrival empty).0.records ≡ parked ∷ []
unfolding on_telemetry_entry insert_entry seen publish idempotent_id trim_space trim_left trim_right
    dedup_key
entry_run = refl

exit_run :
    (on_telemetry_exit (λ s. s) up departure one_parked).0.records
    ≡ set_settled (record bill { device_id_out = codes "d1" }) parked ∷ []
unfolding on_telemetry_exit settle_exit seen publish idempotent_id trim_space trim_left trim_right
    exit_fee calc_fee ceil_minutes dedup_key get_active_parking_fee_rule
exit_run = refl

on_telemetry_entry-repeatable_example :
    on_telemetry_entry (λ s. s) no_insert arrival empty ≡ (empty, repeat)
on_telemetry_entry-repeatable_example =
    on_telemetry_entry-repeatable (λ s. s) no_insert arrival empty refl refl refl refl

entry-commit : (on_telemetry_entry (λ s. s) up arrival empty).1 ≡ commit
unfolding on_telemetry_entry insert_entry seen publish idempotent_id trim_space trim_left trim_right
    dedup_key
entry-commit = refl

-- A message with a request id and no time
abbrev untimed : DeviceTelemetry
untimed = record {
  request_id = codes " r1 ";
  device_id = codes "d1";
  event_type = codes "entry";
  occurred_at = pos 0;
  payload = none;
  tenant_id = 5;
  plate_no = codes "A1";
  vehicle_type = 2;
  event = [];
  timestamp = pos 0;
}

untimed-commit : (handle_telemetry (λ s. s) up (some untimed) empty).1 ≡ commit
unfolding handle_telemetry normalize_telemetry on_telemetry_entry insert_entry seen publish
    idempotent_id trim_space trim_left trim_right dedup_key
untimed-commit = refl

abbrev an_hour_later : Answers
an_hour_later = record no_load { now = 10900000000000 }

handle_telemetry-once_example :
    Untouched
      (handle_telemetry (λ s. s) up (some untimed) empty).0
      (handle_telemetry
        (λ s. s)
        an_hour_later
        (some untimed)
        (record (handle_telemetry (λ s. s) up (some untimed) empty).0 { keys = [] })).0
unfolding normalize_telemetry trim_space trim_left trim_right
handle_telemetry-once_example =
    handle_telemetry-once (λ s. s) up an_hour_later untimed empty [] (inl refl) refl refl
      untimed-commit

-- Without a request id and a time the clock is in the key: redelivered, the message is a second entry.
abbrev nameless : DeviceTelemetry
nameless = record untimed { request_id = [] }

two_entries :
    affected
      (λ (r : ParkingRecord). true)
      (handle_telemetry
        (λ s. s)
        an_hour_later
        (some nameless)
        (handle_telemetry (λ s. s) up (some nameless) empty).0).0.records
    ≡ 2
unfolding handle_telemetry normalize_telemetry on_telemetry_entry insert_entry seen publish
    idempotent_id trim_space trim_left trim_right dedup_key format_int
two_entries = refl

on_telemetry_exit-lost_example :
    ((on_telemetry_exit (λ s. s) no_load departure one_parked).1 ≡ repeat)
    × ((on_telemetry_exit (λ s. s) no_load departure one_parked).0.records ≡ parked ∷ [])
    × ((on_telemetry_exit
          (λ s. s)
          up
          departure
          (on_telemetry_exit (λ s. s) no_load departure one_parked).0).0
        ≡ (on_telemetry_exit (λ s. s) no_load departure one_parked).0)
on_telemetry_exit-lost_example =
    on_telemetry_exit-lost (λ s. s) no_load up departure one_parked refl refl refl refl refl

abbrev leaving : ParkingExitReq
leaving = record { plate_no = codes "A1"; device_id_out = codes "d2" }

settle_exit-excludes_example :
    (settle_exit up departure
        (codes "r3")
        parked
        bill
        (settle_exit up departure (codes "r2") parked bill one_parked).0
      ≡ ((settle_exit up departure (codes "r2") parked bill one_parked).0, commit))
    × (settle_request up 5 leaving parked bill
          (settle_exit up departure (codes "r2") parked bill one_parked).0
        ≡ (
          (settle_exit up departure (codes "r2") parked bill one_parked).0,
          failed already_settled,
        ))
settle_exit-excludes_example =
    settle_exit-excludes up up departure departure (codes "r2") (codes "r3") parked parked bill bill
      leaving one_parked refl refl refl refl

abbrev receipt : ParkingRecordResp
receipt = record {
  id = 1;
  plate_no = codes "A1";
  entry_time = 100;
  exit_time = 7300;
  duration_min = pos 120;
  fee = 1000;
  status = 2;
}

parking_exit_request-answered : (parking_exit_request up 5 leaving one_parked).1 ≡ answered receipt
unfolding parking_exit_request settle_request publish exit_fee calc_fee ceil_minutes
    get_active_parking_fee_rule
parking_exit_request-answered = refl

parking_exit_request-sends_loaded_example :
    ((parking_exit_request up 5 leaving one_parked).0.events ≡ [] ++ parking_exit parked ∷ [])
    × (parked.status ≡ 1)
    × (receipt.status ≡ 2)
parking_exit_request-sends_loaded_example =
    parking_exit_request-sends_loaded up 5 leaving one_parked {r = parked} {resp = receipt} refl
      parking_exit_request-answered refl refl refl

abbrev mysql : CardAnswers
mysql = record {
  connected = true;
  query_fails = false;
  write_fails = false;
  now = 9000000000000;
  meanwhile = λ t. t;
}

abbrev application : CreateMonthlyCardReq
application = record {
  plate_no = codes "A1 ";
  owner_name = codes "li";
  phone = [];
  start_time = 9000;
  end_time = 20000;
}

abbrev no_cards : Cards
no_cards = record { rows = []; next_id = 1 }

CardSteps-one_active_example :
    affected (active_for 5 (codes "A1")) (create_monthly_card mysql 5 application no_cards).0.rows
    ≤ 1
CardSteps-one_active_example =
    CardSteps-one_active 1 5 (codes "A1") refl
      (more (create mysql 5 application (λ seen v. v)) stay)

abbrev expired : MonthlyCard
expired = record {
  id = 1;
  tenant_id = 5;
  plate_no = codes "A1";
  owner_name = codes "li";
  phone = [];
  start_time = 0;
  end_time = 1000;
  status = 1;
}

trimmed : is_empty (trim_space application.plate_no) ≡ false
unfolding trim_space trim_left trim_right
trimmed = refl

held : first (active_for 5 (trim_space application.plate_no)) (expired ∷ []) ≡ some expired
unfolding trim_space trim_left trim_right
held = refl

create_monthly_card-blocked_example :
    create_monthly_card mysql 5 application (record { rows = expired ∷ []; next_id = 2 })
    ≡ (record { rows = expired ∷ []; next_id = 2 }, refused card_exists)
create_monthly_card-blocked_example =
    create_monthly_card-blocked mysql 5 application (record { rows = expired ∷ []; next_id = 2 })
      {c = expired} trimmed refl refl refl refl refl held
