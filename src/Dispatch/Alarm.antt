-- ===== src/Dispatch/Alarm.antt =====
-- Tasks from alarm events: internal/consumer/alarm.go and handler.go.
-- The JSON decoder is an argument; a text is the list of its code points.
pub mod Idempotent
pub mod Laws
use onepark_smart_park.Prelude.{
  utf8, ℕ, zero, suc, ◌+◌, Bool, true, false, not, Option, none, some, List, [], ◌∷◌, ◌++◌, Text,
  codes, is_empty, if◌then◌else◌, lookup, text_eq,
}
use onepark_smart_park.Dispatch.Model.{DispatchTask, source_alarm, status_pending_assign}
use onepark_smart_park.Dispatch.Store.{Db, is_duplicate_key_on, new_task_no}
use onepark_smart_park.Dispatch.Create.{
  max_task_no_attempts, uk_task_no, uk_alarm_id, Inserts, create_log, Draft, row_of, Made, made,
  already_there, not_made,
}

-- `AlarmEvent`: the fields that the consumer reads
pub record AlarmEvent : Type 0 where
  pub request_id : Text
  pub device_id : Text
  pub event_type : Text
  pub payload : Text

-- `encoding/json` on the event and on its payload (zone code and location)
pub record Json : Type 0 where
  pub event : Text → Option AlarmEvent
  pub zone : Text → Option (Text × Text)

abbrev require_ids : Option AlarmEvent → Option AlarmEvent
require_ids none = none
require_ids (some evt) =
    if is_empty evt.request_id then none else if is_empty evt.device_id then none else some evt

-- `DecodeAlarm`: `none` is an error.
unfoldable pub decode_alarm : Json → Text → Option AlarmEvent
decode_alarm json value = require_ids (json.event value)

-- `eventMetaT`: title, priority, skill
abbrev pub EventMeta : Type 0
EventMeta = Text × ℕ × Text

abbrev pub event_meta : List (Text × EventMeta)
event_meta =
    (codes "fire", (utf8 "火灾告警", 1, codes "fire"))
    ∷ (codes "smoke", (utf8 "烟雾告警", 1, codes "fire"))
    ∷ (codes "intrusion", (utf8 "非法入侵告警", 2, codes "security"))
    ∷ (codes "door_force", (utf8 "门禁强开告警", 2, codes "security"))
    ∷ (codes "fault", (utf8 "设备故障告警", 3, codes "electrical"))
    ∷ (codes "offline_alert", (utf8 "设备离线告警", 3, codes "electrical"))
    ∷ []

abbrev meta_or_default : Text → Option EventMeta → EventMeta
meta_or_default event_type (some m) = m
meta_or_default event_type none = (utf8 "设备告警(" ++ (event_type ++ codes ")"), 3, [])

abbrev zone_or_location : Option (Text × Text) → Text
zone_or_location none = []
zone_or_location (some (zone, location)) = if is_empty zone then location else zone

-- `extractZone`
unfoldable pub extract_zone : Json → Text → Text
extract_zone json payload = if is_empty payload then [] else zone_or_location (json.zone payload)

-- `BuildTaskDraft`, and the columns that `Handle` adds
unfoldable pub build_draft : Json → ℕ → AlarmEvent → Draft
unfolding extract_zone
build_draft json default_tenant evt =
    let m = meta_or_default evt.event_type (lookup evt.event_type event_meta) in
    record {
      tenant_id = default_tenant;
      title = m.0;
      source = source_alarm;
      alarm_id = some evt.request_id;
      zone_code = extract_zone json evt.payload;
      required_skill = m.2;
      priority = m.1;
      status = status_pending_assign;
    }

-- The log entry is written after the row, outside a transaction: a failure is only reported.
abbrev pub keep_log : Option Text → DispatchTask → Db → Db
keep_log none t db = record db { logs = db.logs ++ create_log t 0 ∷ [] }
keep_log (some e) t db = db

abbrev pub end_attempt : Inserts → ℕ → DispatchTask → ℕ → Db → Made → Option Text → Made
end_attempt i attempt t seq db retry none =
    let stored : Db = record db { tasks = db.tasks ++ t ∷ [] } in
    made t (keep_log (i.log_error attempt stored) t stored) seq
end_attempt i attempt t seq db retry (some e) =
    if is_duplicate_key_on (some e) uk_alarm_id
    then already_there db seq
    else if is_duplicate_key_on (some e) uk_task_no
    then retry
    else not_made db seq

-- The loop of `Handle`
unfoldable pub alarm_loop : Inserts → Draft → ℕ → ℕ → Text × ℕ → Db → Made
unfolding new_task_no
alarm_loop i draft zero attempt number db = not_made db number.1
alarm_loop i draft (suc left) attempt number db =
    let seen = i.meanwhile attempt db in
    let t = row_of draft (i.fresh_id attempt seen) number.0 in
    let retry = alarm_loop i draft left (attempt + 1) (new_task_no i.stamp number.1) seen in
    end_attempt i attempt t number.1 seen retry (i.insert_error attempt t seen)

-- What the consumer tells Kafka: `commit` is a nil error, after which the message does not come
-- again, and `redeliver` an error.
pub data Ack : Type 0 where
  commit redeliver : Ack

abbrev pub ack_made : Made → Ack × Db × ℕ
ack_made (made t db seq) = (commit, db, seq)
ack_made (already_there db seq) = (commit, db, seq)
ack_made (not_made db seq) = (redeliver, db, seq)

abbrev pub handle_event : Json → Inserts → ℕ → ℕ → Db → Option AlarmEvent → Ack × Db × ℕ
handle_event json i default_tenant seq db none = (commit, db, seq)
handle_event json i default_tenant seq db (some evt) =
    let loop =
      alarm_loop i (build_draft json default_tenant evt) max_task_no_attempts 1
        (new_task_no i.stamp seq) db in
    if not i.connected then (redeliver, db, seq) else ack_made loop

-- `Handle`
unfoldable pub handle : Json → Inserts → ℕ → Text → ℕ → Db → Ack × Db × ℕ
handle json i default_tenant value seq db =
    handle_event json i default_tenant seq db (decode_alarm json value)
