-- ===== src/Parking/Manual.antt =====
-- Entry and exit by request: internal/logic/parkingentrylogic.go and parkingexitlogic.go.
use onepark_smart_park.Prelude.{ℕ, ◌/◌, Option, none, some, [], Text, ◌==◌, if◌then◌else◌}
use onepark_smart_park.Prelude.Int.{ℤ, pos}
use onepark_smart_park.Table.{update, affected}
use onepark_smart_park.Parking.Model.{
  ParkingRecord, parking_status_parking, parking_status_done, vehicle_type_abnormal, newest,
}
use onepark_smart_park.Parking.Store.{
  parking_entry, parking_exit, alarm, State, Answers, publish, resolve_vehicle_type, active_of,
  still_parking, Settlement, set_settled, stay_minutes, exit_fee,
}
use onepark_smart_park.Parking.Telemetry.{second}
use onepark_smart_park.Parking.Consumer.{add_record}

pub data ParkingError : Type 0 where
  parking_record_not_found load_failed create_failed settle_failed already_settled : ParkingError

pub record ParkingEntryReq : Type 0 where
  pub plate_no : Text
  pub vehicle_type : ℕ
  pub device_id_in : Text

pub record ParkingExitReq : Type 0 where
  pub plate_no : Text
  pub device_id_out : Text

-- Times in seconds; the fee in cents, which the source prints as yuan with two decimals.
pub record ParkingRecordResp : Type 0 where
  pub id : ℕ
  pub plate_no : Text
  pub entry_time : ℕ
  pub exit_time : ℕ
  pub duration_min : ℤ
  pub fee : ℕ
  pub status : ℕ

pub data Reply : Type 0 where
  failed : ParkingError → Reply
  answered : ParkingRecordResp → Reply

abbrev pub requested_type : Answers → ℕ → ParkingEntryReq → State → ℕ
requested_type a tenant req st =
    if req.vehicle_type == 0
    then resolve_vehicle_type (some st.cards) a.card_fails tenant req.plate_no a.now
    else req.vehicle_type

abbrev pub requested_record : Answers → ℕ → ParkingEntryReq → State → ParkingRecord
requested_record a tenant req st = record {
  id = st.next_id;
  tenant_id = tenant;
  plate_no = req.plate_no;
  entry_time = some a.now;
  exit_time = none;
  duration_min = none;
  fee = 0;
  vehicle_type = requested_type a tenant req st;
  status = parking_status_parking;
  device_id_in = req.device_id_in;
  device_id_out = [];
  request_id = none;
}

abbrev pub entry_answer : Answers → ParkingRecord → ParkingRecordResp
entry_answer a r = record {
  id = r.id;
  plate_no = r.plate_no;
  entry_time = a.now / second;
  exit_time = 0;
  duration_min = pos 0;
  fee = 0;
  status = r.status;
}

-- `ParkingEntry`, for the tenant of the request's context
unfoldable pub parking_entry_request : Answers → ℕ → ParkingEntryReq → State → State × Reply
parking_entry_request a tenant req st =
    let r = requested_record a tenant req st in
    if a.insert_fails
    then (st, failed create_failed)
    else (publish a (parking_entry r) (add_record r st), answered (entry_answer a r))

abbrev pub manual_settlement : Answers → ℕ → ParkingExitReq → ParkingRecord → State → Settlement
manual_settlement a tenant req r st = record {
  exit_time = a.now;
  duration_min = stay_minutes r.entry_time a.now;
  fee = exit_fee a st.rules r tenant a.now;
  device_id_out = req.device_id_out;
}

-- The messages of a manual exit: the record as it was read.
abbrev pub announce_loaded : Answers → ParkingExitReq → ParkingRecord → State → State
announce_loaded a req r st =
    let sent = publish a (parking_exit r) st in
    if r.vehicle_type == vehicle_type_abnormal
    then publish a (alarm req.plate_no req.device_id_out (a.now / second)) sent
    else sent

-- `timeOrUnix`
abbrev pub time_or_unix : Option ℕ → ℕ
time_or_unix none = 0
time_or_unix (some t) = t / second

abbrev pub exit_answer : Answers → ParkingRecord → Settlement → ParkingRecordResp
exit_answer a r s = record {
  id = r.id;
  plate_no = r.plate_no;
  entry_time = time_or_unix r.entry_time;
  exit_time = a.now / second;
  duration_min = s.duration_min;
  fee = s.fee;
  status = parking_status_done;
}

-- The update of the manual exit, on the state as it is then
unfoldable pub settle_request :
    Answers → ℕ → ParkingExitReq → ParkingRecord → Settlement → State → State × Reply
settle_request a tenant req r s st =
    if a.update_fails
    then (st, failed settle_failed)
    else if affected (still_parking r.id tenant) st.records == 0
    then (st, failed already_settled)
    else (
      announce_loaded a req r
          (record st { records = update (still_parking r.id tenant) (set_settled s) st.records }),
      answered (exit_answer a r s),
    )

abbrev pub settle_found :
    Answers → ℕ → ParkingExitReq → State → Option ParkingRecord → State × Reply
settle_found a tenant req st none = (st, failed parking_record_not_found)
settle_found a tenant req st (some r) =
    settle_request a tenant req r (manual_settlement a tenant req r st) (a.meanwhile st)

-- `ParkingExit`
unfoldable pub parking_exit_request : Answers → ℕ → ParkingExitReq → State → State × Reply
parking_exit_request a tenant req st =
    if a.load_fails
    then (st, failed load_failed)
    else settle_found a tenant req st (newest (active_of tenant req.plate_no) st.records)
