-- ===== src/Gateway/Model.antt =====
-- The tables that the gateway reads and writes: internal/model/model.go; and the messages of
-- common/kafka/contract.go. A deleted device is one whose `deleted_at` is set.
use onepark_smart_park.Prelude.{
  ℕ, Bool, ◌&&◌, ◌||◌, not, Option, some, List, [], ◌∷◌, Text, codes, text_eq, is_some, lookup,
  ◌==◌,
}
use onepark_smart_park.Table.{first, update}

abbrev pub device_status_online : ℕ
device_status_online = 1

abbrev pub command_status_success : ℕ
command_status_success = 2

abbrev pub command_status_failed : ℕ
command_status_failed = 3

pub record Device : Type 0 where
  pub device_id : Text
  pub device_secret : Text  -- the bcrypt hash
  pub tenant_id : ℕ
  pub zone_id : Text
  pub status : ℕ
  pub last_online_at : Option ℕ
  pub deleted : Bool

-- The value of a JSON object: its keys with their values as text.
abbrev pub Object : Type 0
Object = List (Text × Text)

pub record CommandLog : Type 0 where
  pub request_id : Text
  pub device_id : Text
  pub status : ℕ
  pub response : Object
  pub executed_at : Option ℕ

-- What a message carries: the metrics under their key, an event's payload, or the status.
pub data Payload : Type 0 where
  of_metrics of_payload : Object → Payload
  of_status : Text → Payload

-- `DeviceTelemetry`
pub record Message : Type 0 where
  pub request_id : Text
  pub tenant_id : ℕ
  pub device_id : Text
  pub device_type : Text
  pub event_type : Text
  pub zone_id : Text
  pub occurred_at : ℕ
  pub payload : Payload
  pub source : Text

-- The tables, and the messages in the topics of telemetry and alarms.
pub record Hub : Type 0 where
  pub devices : List Device
  pub commands : List CommandLog
  pub telemetry : List Message
  pub alarms : List Message

abbrev pub has_device_id : Text → Device → Bool
has_device_id id d = text_eq d.device_id id && not d.deleted

-- `FindByDeviceID`
unfoldable pub find_by_device_id : Text → List Device → Option Device
find_by_device_id id ds = first (has_device_id id) ds

abbrev pub set_online : ℕ → Device → Device
set_online at d = record d { status = device_status_online; last_online_at = some at }

-- `UpdateOnline` with the status online
unfoldable pub update_online : Text → ℕ → List Device → List Device
update_online id at ds = update (has_device_id id) (set_online at) ds

abbrev pub is_open : Text → CommandLog → Bool
is_open request_id c = text_eq c.request_id request_id && (c.status == 0 || c.status == 1)

abbrev pub set_finished : ℕ → Object → ℕ → CommandLog → CommandLog
set_finished status response at c = record c {
  status = status;
  response = response;
  executed_at = some at;
}

-- `Finish`
unfoldable pub finish : Text → ℕ → Object → ℕ → List CommandLog → List CommandLog
finish request_id status response at cs =
    update (is_open request_id) (set_finished status response at) cs

-- `IsAlarmEvent`
abbrev pub alarm_event_types : List (Text × Unit {0})
alarm_event_types =
    (codes "intrusion", tt)
    ∷ (codes "fire", tt)
    ∷ (codes "smoke", tt)
    ∷ (codes "fault", tt)
    ∷ (codes "door_force", tt)
    ∷ (codes "offline_alert", tt)
    ∷ []

unfoldable pub is_alarm_event : Text → Bool
is_alarm_event event_type = is_some (lookup event_type alarm_event_types)
