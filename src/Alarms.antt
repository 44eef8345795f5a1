-- ===== src/Alarms.antt =====
-- A device's message and the alarm made from it: app/alarm-service/internal/svc/consumer.go, with
-- the tables of internal/model/alarm_model.go and alarm_dlq.go.
pub mod Freed
pub mod Handle
pub mod Lost
pub mod Settled
pub mod Tests
use onepark_smart_park.Prelude.{
  ℕ, zero, suc, ◌+◌, ◌/◌, Bool, true, false, ◌&&◌, ◌||◌, not, Option, none, some, List, [], ◌∷◌,
  ◌++◌, Text, codes, utf8, text_eq, is_empty, ◌==◌, Result, ok, err, if◌then◌else◌,
}
use onepark_smart_park.Prelude.Int.{ℤ, pos, negsuc, is_zero, is_positive, pos_part, eq_ℤ}
use onepark_smart_park.Strings.{trim_space}
use onepark_smart_park.Dedup.{Key, seen, release}
use onepark_smart_park.Rules.Value.{Go, Entries, end}
use onepark_smart_park.Rules.Condition.{Fields}
use onepark_smart_park.Rules.Window.{Window, Redis}
use onepark_smart_park.Rules.Engine.{Draft, Content, reported, RuleError}
use onepark_smart_park.Rules.Snapshot.{Engine, Ask, has_rules, evaluate}

pub record DeviceEvent : Type 0 where
  pub request_id : Text
  pub tenant_id : ℤ
  pub device_id : Text
  pub device_type : Text
  pub event_type : Text
  pub zone_id : Text
  pub occurred_at : ℤ
  pub payload : Entries
  pub area_id : ℤ
  pub timestamp : ℤ

pub record Alarm : Type 0 where
  pub alarm_no : Text
  pub rule_id : ℤ
  pub tenant_id : ℤ
  pub device_id : Text
  pub area_id : ℤ
  pub event_type : Text
  pub level : ℤ
  pub status : ℤ
  pub content : Content
  pub request_id : Text
  pub created_at : ℕ

-- A dead letter; its place in the topic, the error's text and its times are left out.
pub record AlarmDlq : Type 0 where
  pub payload : Text
  pub retry_count : ℕ
  pub tenant_id : ℤ
  pub request_id : Text
  pub device_id : Text
  pub event_type : Text

-- What the consumer reads and changes: the rules, Redis, the tables, and what it pushes and sends
pub record Stores : Type 0 where
  pub engine : Option Engine
  pub windows : List Window
  pub keys : List Key
  pub cooling : List Key
  pub alarms : List Alarm
  pub dead : List AlarmDlq
  pub pushed : List Alarm
  pub notified : List Alarm

-- What the service is built with
pub record Config : Type 0 where
  pub has_alarms : Bool
  pub has_dedup : Bool
  pub has_cooldown : Bool
  pub has_dead_letters : Bool
  pub has_hub : Bool
  pub has_notifier : Bool
  pub reject_missing_tenant : Bool
  pub disable_legacy_fallback : Bool

-- How the dependencies answer one attempt; the calls for a rule's alarm are told apart by its id.
pub record Answers : Type 0 where
  pub redis : Redis
  pub has_ask : Ask
  pub ask : Ask
  pub seen_fails : Bool
  pub release_fails : Bool
  pub cooldown_fails : ℤ → Bool
  pub create_fails : ℤ → Bool
  pub notify_fails : Bool
  pub now : ℕ

-- `encoding/json` on a message, SHA-1 in hexadecimal, and the number of an alarm
pub record Codec : Type 0 where
  pub decode : Text → Option DeviceEvent
  pub fingerprint : Text → Text
  pub alarm_no : Text → ℕ → Text

pub data HandleError : Type 0 where
  malformed not_ready dedup_unavailable cooldown_unavailable not_created : HandleError
  not_evaluated : RuleError → HandleError

-- `EventTime`
unfoldable pub event_time : DeviceEvent → ℕ
event_time e =
    if is_positive e.occurred_at
    then pos_part e.occurred_at
    else if is_positive e.timestamp
    then pos_part e.timestamp / 1000
    else 0

-- `MatchIntrusionRule`
unfoldable pub match_intrusion_rule : DeviceEvent → Bool
match_intrusion_rule e =
    if not (text_eq e.event_type (codes "intrusion"))
    then false
    else is_empty e.device_type || text_eq e.device_type (codes "access_control")

-- `RuleFields`
abbrev pub rule_fields : DeviceEvent → Fields
rule_fields e = record {
  event_type = e.event_type;
  device_id = e.device_id;
  device_type = e.device_type;
  area_id = e.area_id;
  zone_id = e.zone_id;
  tenant_id = e.tenant_id;
  payload = e.payload;
}

-- The draft of the fallback rule: level 3, rule 0. Its content is empty in the source.
abbrev pub legacy_draft : DeviceEvent → Draft
legacy_draft e = record {
  rule_id = pos 0;
  rule_name = utf8 "硬编码门禁闯入规则";
  level = pos 3;
  content = reported [] [] [];
  event_type = e.event_type;
  device_id = e.device_id;
  area_id = e.area_id;
  window_hits = 0;
}

-- 24 hours and one minute, in seconds
abbrev pub dedup_ttl : ℕ
dedup_ttl = 86400

abbrev pub cooldown_ttl : ℕ
cooldown_ttl = 60

abbrev pub required : Option DeviceEvent → Option DeviceEvent
required none = none
required (some e) =
    if is_empty e.device_id then none else if is_empty e.event_type then none else some e

module _ (go : Go) (codec : Codec) where
  -- `parseDeviceEvent`
  unfoldable pub parse_device_event : Text → Option DeviceEvent
  parse_device_event body = required (codec.decode body)

  -- `IdempotentID`
  unfoldable pub idempotent_id : DeviceEvent → Text
  unfolding trim_space event_time
  idempotent_id e =
      if not (is_empty (trim_space e.request_id))
      then trim_space e.request_id
      else codes "fp:"
        ++ codec.fingerprint (
            e.device_id
            ++ codes "|"
            ++ e.event_type
            ++ codes "|"
            ++ go.format_int (pos (event_time e)))

  -- `ToAlarmFromDraft`
  unfoldable pub to_alarm : DeviceEvent → Draft → Text → ℕ → Alarm
  to_alarm e d id now = record {
    alarm_no = codec.alarm_no (id ++ codes "#" ++ go.format_int d.rule_id) now;
    rule_id = d.rule_id;
    tenant_id = e.tenant_id;
    device_id = e.device_id;
    area_id = d.area_id;
    event_type = e.event_type;
    level = d.level;
    status = pos 0;
    content = d.content;
    request_id = id;
    created_at = now;
  }

  -- `cooldownKey`
  unfoldable pub cooldown_key : DeviceEvent → ℤ → Text
  cooldown_key e rule =
      codes "alarm:cooldown:"
      ++ e.device_id
      ++ codes ":"
      ++ e.event_type
      ++ codes ":"
      ++ go.format_int rule
