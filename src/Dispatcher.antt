-- ===== src/Dispatcher.antt =====
-- From a device's MQTT report to Kafka: app/event-dispatcher/internal/dispatch/dispatch.go, and
-- the envelope of a dead letter in common/kafka/contract.go.
pub mod Report
pub mod Kept
pub mod Tests
use onepark_smart_park.Prelude.{
  ℕ, zero, suc, Bool, true, false, ◌||◌, ◌==◌, Option, none, some, List, [], ◌∷◌, ◌++◌, Text, codes,
  ltb, length, take, text_eq, is_empty, Result, ok, err, if◌then◌else◌,
}
use onepark_smart_park.Prelude.Int.{ℤ, pos}
use onepark_smart_park.Strings.{split}
use onepark_smart_park.Gateway.Model.{is_alarm_event}

abbrev pub slash : ℕ
slash = 47

-- `strings.TrimLeft` of one character
unfoldable pub drop_leading : ℕ → Text → Text
drop_leading sep [] = []
drop_leading sep (c ∷ s) = let rest = drop_leading sep s in if c == sep then rest else c ∷ s

abbrev pub cons_unless_last : ℕ → ℕ → Text → Text
cons_unless_last sep c [] = if c == sep then [] else c ∷ []
cons_unless_last sep c (d ∷ s) = c ∷ d ∷ s

-- `strings.TrimRight` of one character
unfoldable pub drop_trailing : ℕ → Text → Text
drop_trailing sep [] = []
drop_trailing sep (c ∷ s) = cons_unless_last sep c (drop_trailing sep s)

-- The device and the kind, the fourth and the fifth part of the topic
abbrev pub device_and_kind : List Text → Option (Text × Text)
device_and_kind (_ ∷ _ ∷ _ ∷ device ∷ kind ∷ _) = some (device, kind)
device_and_kind _ = none

-- `SplitTopic`
unfoldable pub split_topic : Text → Option (Text × Text)
unfolding drop_leading drop_trailing split
split_topic topic = device_and_kind (split slash (drop_trailing slash (drop_leading slash topic)))

-- `rawMessage`; the payload is its JSON.
pub record RawMessage : Type 0 where
  pub request_id : Text
  pub device_id : Text
  pub device_type : Text
  pub event_type : Text
  pub occurred_at : ℤ
  pub payload : Option Text

pub record Telemetry : Type 0 where
  pub request_id : Text
  pub tenant_id : ℤ
  pub device_id : Text
  pub device_type : Text
  pub event_type : Text
  pub zone_id : Text
  pub occurred_at : ℤ
  pub payload : Text
  pub source : Text

-- Why a report becomes a dead letter
pub data Reason : Type 0 where
  bad_topic unreadable no_device archive_failed not_encoded : Reason
  unknown_device unknown_kind exhausted : Text → Reason

pub record Profile : Type 0 where
  pub tenant_id : ℤ
  pub zone_id : Text

-- A message in Kafka
pub record Sent : Type 0 where
  pub topic : Text
  pub key : Text
  pub value : Text

-- `DLQEnvelope`
pub record DlqEnvelope : Type 0 where
  pub source_topic : Text
  pub reason : Reason
  pub raw : Text
  pub failed_at : ℕ

abbrev pub max_dlq_raw_bytes : ℕ
max_dlq_raw_bytes = 4096

-- `NewDLQEnvelope`: of a long report only the first 4096 bytes are kept.
unfoldable pub new_dlq_envelope : Text → Reason → Text → ℕ → DlqEnvelope
new_dlq_envelope source why raw now = record {
  source_topic = source;
  reason = why;
  raw = if ltb max_dlq_raw_bytes (length raw) then take max_dlq_raw_bytes raw else raw;
  failed_at = now;
}

-- `encoding/json`
pub record Codec : Type 0 where
  pub decode : Text → Option RawMessage
  pub encode : Telemetry → Option Text
  pub encode_letter : DlqEnvelope → Option Text

-- How the dependencies answer: each call at a topic, the clock after so many calls, and the archive of
-- devices, if there is one
pub record Answers : Type 0 where
  pub refuses : Text → ℕ → Bool
  pub now : ℕ → ℕ
  pub archive : Option (Text → Result (Unit {0}) (Option Profile))

abbrev pub topic_telemetry : Text
topic_telemetry = codes "device-telemetry"

abbrev pub topic_alarm : Text
topic_alarm = codes "alarm-event"

abbrev pub topic_dlq : Text
topic_dlq = codes "event-dispatcher-dlq"

abbrev pub is_kind : Text → Bool
is_kind k =
    text_eq k (codes "event") || (text_eq k (codes "telemetry") || text_eq k (codes "status"))

-- How often Kafka was asked, and what it holds
pub record Kafka : Type 0 where
  pub calls : ℕ
  pub sent : List Sent

module _ (codec : Codec) (a : Answers) where
  -- `publish`; true is that Kafka took the message. No producer is one that refuses.
  unfoldable pub publish_once : Sent → Kafka → Kafka × Bool
  publish_once m s =
      if a.refuses m.topic s.calls
      then (record s { calls = suc s.calls }, false)
      else (record { calls = suc s.calls; sent = s.sent ++ m ∷ [] }, true)

  abbrev pub to_dlq_encoded : Option Text → Kafka → Kafka
  to_dlq_encoded none s = s
  to_dlq_encoded (some value) s =
      let (s', _) = publish_once (record { topic = topic_dlq; key = []; value = value }) s in s'

  -- `toDLQ`
  unfoldable pub to_dlq : Text → Reason → Text → Kafka → Kafka
  unfolding new_dlq_envelope
  to_dlq source reason raw s =
      to_dlq_encoded (codec.encode_letter (new_dlq_envelope source reason raw (a.now s.calls))) s

  abbrev pub taken_or : Kafka × Bool → (Kafka → Kafka) → Kafka
  taken_or (s, true) again = s
  taken_or (s, false) again = again s

  -- The loop of `publishWithRetry`, with `left` pauses left
  unfoldable pub publish_from : Text → Sent → ℕ → Kafka → Kafka
  publish_from source m zero s =
      taken_or (publish_once m s) (to_dlq source (exhausted m.topic) m.value)
  publish_from source m (suc left) s = taken_or (publish_once m s) (publish_from source m left)

  -- `publishWithRetry`: three pauses
  unfoldable pub publish_with_retry : Text → Sent → Kafka → Kafka
  publish_with_retry source m s = publish_from source m 3 s

  abbrev pub or_else : Text → Text → Text
  or_else s t = if is_empty s then t else s

  abbrev pub payload_of : Option Text → Text
  payload_of none = codes "{}"
  payload_of (some p) = p

  -- The message for Kafka
  abbrev pub telemetry_of : Text → Text → Profile → RawMessage → Telemetry
  telemetry_of device kind p raw = record {
    request_id = raw.request_id;
    tenant_id = p.tenant_id;
    device_id = device;
    device_type = raw.device_type;
    event_type = or_else raw.event_type kind;
    zone_id = p.zone_id;
    occurred_at = raw.occurred_at;
    payload = payload_of raw.payload;
    source = codes "mqtt";
  }

  -- An event that is an alarm goes to a second topic.
  abbrev pub and_alarm : Text → Text → Text → Text → Kafka → Kafka
  and_alarm topic device event value s =
      if is_alarm_event event
      then publish_with_retry topic (record { topic = topic_alarm; key = device; value = value }) s
      else s

  abbrev pub forward : Text → Text → Text → Text → Text → Text → Kafka → Kafka
  forward topic body device kind event value s =
      if is_kind kind
      then and_alarm topic device event value (
          publish_with_retry topic (record { topic = topic_telemetry; key = device; value = value })
            s)
      else to_dlq topic (unknown_kind kind) body s

  abbrev pub encoded : Text → Text → Text → Text → Text → Option Text → Kafka → Kafka
  encoded topic body device kind event none s = to_dlq topic not_encoded body s
  encoded topic body device kind event (some value) s = forward topic body device kind event value s

  abbrev pub with_profile : Text → Text → Text → Text → RawMessage → Profile → Kafka → Kafka
  with_profile topic body device kind raw p s =
      encoded topic body device kind (or_else raw.event_type kind)
        (codec.encode (telemetry_of device kind p raw)) s

  abbrev pub resolved :
      Text → Text → Text → Text → RawMessage → Result (Unit {0}) (Option Profile) → Kafka → Kafka
  resolved topic body device kind raw (err e) s = to_dlq topic archive_failed body s
  resolved topic body device kind raw (ok none) s = to_dlq topic (unknown_device device) body s
  resolved topic body device kind raw (ok (some p)) s = with_profile topic body device kind raw p s

  -- The step with the archive: without one the tenant and the zone are the zero values.
  abbrev pub of_device :
      Option (Text → Result (Unit {0}) (Option Profile))
      → Text
      → Text
      → Text
      → Text
      → RawMessage
      → Kafka
      → Kafka
  of_device none topic body device kind raw s =
      with_profile topic body device kind raw (record { tenant_id = pos 0; zone_id = [] }) s
  of_device (some resolve) topic body device kind raw s =
      resolved topic body device kind raw (resolve device) s

  abbrev pub of_raw : Text → Text → Text → Text → Option RawMessage → Kafka → Kafka
  of_raw topic body device kind none s = to_dlq topic unreadable body s
  of_raw topic body device kind (some raw) s =
      if is_empty (or_else raw.device_id device)
      then to_dlq topic no_device body s
      else of_device a.archive topic body (or_else raw.device_id device) kind raw s

  abbrev pub of_parts : Text → Text → Option (Text × Text) → Kafka → Kafka
  of_parts topic body none s = to_dlq topic bad_topic body s
  of_parts topic body (some (device, kind)) s = of_raw topic body device kind (codec.decode body) s

  -- `Dispatch`
  unfoldable pub dispatch_report : Text → Text → Kafka → Kafka
  dispatch_report topic body s = of_parts topic body (split_topic topic) s
