-- ===== src/Parking/Consumer.antt =====
-- The consumer of sensor messages: `handleTelemetry`, `onTelemetryEntry` and `onTelemetryExit` of
-- internal/svc/consumer.go, on a service with a database, and the deduplication of
-- common/dedup/dedup.go. The 24 hours after which Redis forgets a key are not modelled: where a
-- theorem allows any keys, they may be forgotten too.
pub mod Delivery
pub mod Redelivered
pub mod Lost
use onepark_smart_park.Prelude.{
  ℕ, zero, suc, ◌+◌, ◌*◌, Bool, true, false, ◌||◌, not, Option, none, some, List, [], ◌∷◌, ◌++◌,
  Text, codes, text_eq, select, ◌==◌, if◌then◌else◌,
}
use onepark_smart_park.Table.{update, affected}
use onepark_smart_park.Parking.Model.{
  ParkingRecord, parking_status_parking, parking_status_done, vehicle_type_abnormal, newest,
}
use onepark_smart_park.Parking.Store.{
  Event, parking_entry, parking_exit, alarm, State, Answers, publish, resolve_vehicle_type,
  active_of, still_parking, Settlement, set_settled, stay_minutes, exit_fee,
}
use onepark_smart_park.Parking.Telemetry.{
  DeviceTelemetry, Telemetry, second, normalize_telemetry, idempotent_id,
}

-- What the handler returns to the Kafka client: `nil` commits the message, an error repeats it.
pub data Verdict : Type 0 where
  commit repeat : Verdict

unfoldable pub dedup_key : Text → Text
dedup_key id = codes "parking:dedup:" ++ id

abbrev pub has_key : Text → List Text → Bool
has_key key [] = false
has_key key (k ∷ ks) = text_eq k key || has_key key ks

pub data Claim : Type 0 where
  unavailable duplicate : Claim
  fresh : State → Claim

-- `seen`: the key is set (SetNX) as it is looked for.
unfoldable pub seen : Answers → Text → State → Claim
seen a id st =
    if not a.has_dedup
    then fresh st
    else if a.seen_fails
    then unavailable
    else if has_key (dedup_key id) st.keys
    then duplicate
    else fresh (record st { keys = dedup_key id ∷ st.keys })

-- `Release`, whose own error the handlers ignore
unfoldable pub release : Answers → Text → State → State
release a id st =
    if not a.has_dedup
    then st
    else if a.release_fails
    then st
    else record st { keys = select (λ k. not (text_eq k (dedup_key id))) st.keys }

abbrev pub has_request : Option Text → Text → Bool
has_request none id = false
has_request (some own) id = text_eq own id

abbrev pub same_request : Text → ParkingRecord → Bool
same_request id r = has_request r.request_id id

abbrev pub entry_type : Answers → Telemetry → State → ℕ
entry_type a t st =
    if t.vehicle_type == 0
    then resolve_vehicle_type (some st.cards) a.card_fails t.tenant_id t.plate_no
        (t.timestamp * second)
    else t.vehicle_type

abbrev pub entry_record : Answers → Telemetry → Text → State → ParkingRecord
entry_record a t id st = record {
  id = st.next_id;
  tenant_id = t.tenant_id;
  plate_no = t.plate_no;
  entry_time = some (t.timestamp * second);
  exit_time = none;
  duration_min = none;
  fee = 0;
  vehicle_type = entry_type a t st;
  status = parking_status_parking;
  device_id_in = t.device_id;
  device_id_out = [];
  request_id = some id;
}

abbrev pub add_record : ParkingRecord → State → State
add_record r st = record st { records = st.records ++ r ∷ []; next_id = st.next_id + 1 }

-- INSERT that does nothing where the request is known (`uk_request`)
unfoldable pub insert_entry : Answers → Telemetry → Text → State → State × Verdict
insert_entry a t id st =
    if a.insert_fails
    then (release a id st, repeat)
    else if affected (same_request id) st.records == 0
    then (
      publish a (parking_entry (entry_record a t id st)) (add_record (entry_record a t id st) st),
      commit,
    )
    else (st, commit)

abbrev pub enter : Answers → Telemetry → Text → State → Claim → State × Verdict
enter a t id st unavailable = (st, repeat)
enter a t id st duplicate = (st, commit)
enter a t id st (fresh claimed) = insert_entry a t id claimed

unfoldable pub on_telemetry_entry : (Text → Text) → Answers → Telemetry → State → State × Verdict
on_telemetry_entry sha1_hex a t st =
    let id = idempotent_id sha1_hex t in enter a t id st (seen a id st)

abbrev pub exit_settlement : Answers → Telemetry → ParkingRecord → State → Settlement
exit_settlement a t r st = record {
  exit_time = t.timestamp * second;
  duration_min = stay_minutes r.entry_time (t.timestamp * second);
  fee = exit_fee a st.rules r t.tenant_id (t.timestamp * second);
  device_id_out = t.device_id;
}

-- The record as the message shows it: the handler does not set the device in its copy.
abbrev pub as_sent : Settlement → ParkingRecord → ParkingRecord
as_sent s r = record r {
  status = parking_status_done;
  exit_time = some s.exit_time;
  duration_min = some s.duration_min;
  fee = s.fee;
}

abbrev pub announce : Answers → Telemetry → ParkingRecord → State → State
announce a t settled st =
    let sent = publish a (parking_exit settled) st in
    if settled.vehicle_type == vehicle_type_abnormal
    then publish a (alarm t.plate_no t.device_id t.timestamp) sent
    else sent

-- The update of an exit, on the state as it is then
unfoldable pub settle_exit :
    Answers → Telemetry → Text → ParkingRecord → Settlement → State → State × Verdict
settle_exit a t id r s st =
    if a.update_fails
    then (release a id st, repeat)
    else if affected (still_parking r.id t.tenant_id) st.records == 0
    then (st, commit)
    else (
      announce a t (as_sent s r) (record st {
        records = update (still_parking r.id t.tenant_id) (set_settled s) st.records;
      }),
      commit,
    )

abbrev pub settle_loaded :
    Answers → Telemetry → Text → State → Option ParkingRecord → State × Verdict
settle_loaded a t id st none = (st, commit)
settle_loaded a t id st (some r) = settle_exit a t id r (exit_settlement a t r st) (a.meanwhile st)

abbrev pub leave : Answers → Telemetry → Text → State → Claim → State × Verdict
leave a t id st unavailable = (st, repeat)
leave a t id st duplicate = (st, commit)
leave a t id st (fresh claimed) =
    if a.load_fails
    then (claimed, repeat)
    else settle_loaded a t id claimed (newest (active_of t.tenant_id t.plate_no) claimed.records)

unfoldable pub on_telemetry_exit : (Text → Text) → Answers → Telemetry → State → State × Verdict
on_telemetry_exit sha1_hex a t st =
    let id = idempotent_id sha1_hex t in leave a t id st (seen a id st)

-- `handleTelemetry`: `none` is a message that is not JSON.
unfoldable pub handle_telemetry :
    (Text → Text) → Answers → Option DeviceTelemetry → State → State × Verdict
handle_telemetry sha1_hex a none st = (st, commit)
handle_telemetry sha1_hex a (some raw) st =
    let t = normalize_telemetry a.now raw in
    if t.tenant_id == 0
    then (st, commit)
    else if text_eq t.event (codes "entry")
    then on_telemetry_entry sha1_hex a t st
    else if text_eq t.event (codes "exit")
    then on_telemetry_exit sha1_hex a t st
    else (st, commit)
