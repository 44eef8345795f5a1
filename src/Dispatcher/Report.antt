-- ===== src/Dispatcher/Report.antt =====
-- What it is for a message in Kafka to carry a device's report.
use onepark_smart_park.Prelude.{
  true, take, ◌≡◌, false, Option, none, some, [], Text, Result, ok, ◌⊎◌, is_empty,
}
use onepark_smart_park.Prelude.Int.{pos}
use onepark_smart_park.Dispatcher.{
  Telemetry, RawMessage, Profile, Sent, Codec, Answers, topic_telemetry, topic_dlq, split_topic,
  DlqEnvelope,
}

-- What the archive says of a device: without an archive the tenant and the zone are the zero values.
pub data IsProfile (device : Text) (p : Profile)
    : Option (Text → Result (Unit {0}) (Option Profile)) → Type 0 where
  unasked : p ≡ record { tenant_id = pos 0; zone_id = [] } → IsProfile device p none
  found :
      {resolve : Text → Result (Unit {0}) (Option Profile)}
      → resolve device ≡ ok (some p)
      → IsProfile device p (some resolve)

-- A text, or the other in its place where it is empty
pub data IsText (own other : Text) (t : Text) : Type 0 where
  given : is_empty own ≡ false → t ≡ own → IsText own other t
  instead : is_empty own ≡ true → t ≡ other → IsText own other t

module _ (codec : Codec) (a : Answers) (topic body : Text) where
  -- The value is the report as telemetry: of the device that the body names, or else the topic, with
  -- the body's data, the topic's kind where the body names no event, and the tenant and the zone of
  -- the archive.
  pub record IsTelemetry (device value : Text) : Type 0 where
    pub part : Text
    pub kind : Text
    pub raw : RawMessage
    pub profile : Profile
    pub message : Telemetry
    pub in_topic : split_topic topic ≡ some (part, kind)
    pub decoded : codec.decode body ≡ some raw
    pub named : IsText raw.device_id part device
    pub archived : IsProfile device profile a.archive
    pub of_device_id : message.device_id ≡ device
    pub of_event : IsText raw.event_type kind message.event_type
    pub of_tenant : message.tenant_id ≡ profile.tenant_id
    pub of_zone : message.zone_id ≡ profile.zone_id
    pub of_request : message.request_id ≡ raw.request_id
    pub of_time : message.occurred_at ≡ raw.occurred_at
    pub of_type : message.device_type ≡ raw.device_type
    pub of_payload : (p : Text) → raw.payload ≡ some p → message.payload ≡ p
    pub written : codec.encode message ≡ some value

  -- What a dead letter is about: the report's body, or the report as telemetry
  abbrev pub IsAbout : Text → Type 0
  IsAbout raw = (raw ≡ body) ⊎ ((device : Text) × IsTelemetry device raw)

  -- A message that carries the report: as telemetry under its device, or in a dead letter of the
  -- topic, up to the first 4096 bytes
  pub data IsReport (m : Sent) : Type 0 where
    told : m.topic ≡ topic_telemetry → IsTelemetry m.key m.value → IsReport m
    lettered :
        (e : DlqEnvelope) (raw : Text)
        → m.topic ≡ topic_dlq
        → IsAbout raw
        → e.source_topic ≡ topic
        → e.raw ≡ take 4096 raw
        → codec.encode_letter e ≡ some m.value
        → IsReport m
