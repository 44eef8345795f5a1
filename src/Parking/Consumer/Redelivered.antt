-- ===== src/Parking/Consumer/Redelivered.antt =====
-- A raw message that arrives again, as `handleTelemetry` of internal/svc/consumer.go meets it.
use onepark_smart_park.Prelude.{
  ℕ, ◌≡◌, ◌⊎◌, refl, sym, ap, ◌∙◌, false, true, Option, none, some, List, [], ◌∷◌, Text, codes,
  is_empty, Bool-cases, inl, inr, ◌==◌,
}
use onepark_smart_park.Prelude.Int.{is_positive}
use onepark_smart_park.Parking.Store.{State, Answers}
use onepark_smart_park.Parking.Telemetry.{
  TelemetryPayload, DeviceTelemetry, Telemetry, normalize_telemetry, event_time, idempotent_id,
  own_or, trim_space, fill_in, text_or,
}
use onepark_smart_park.Parking.Consumer.{commit, dedup_key, has_key, handle_telemetry}
use onepark_smart_park.Parking.Consumer.Delivery.{Untouched, on_telemetry_entry-once}

-- The message brings its request id or a time, so that its key does not hang on the clock.
abbrev pub IsIdentified : DeviceTelemetry → Type 0
IsIdentified raw =
    (is_empty (trim_space raw.request_id) ≡ false)
    ⊎ ((is_positive raw.occurred_at ≡ true) ⊎ (is_positive raw.timestamp ≡ true))

own_or-own :
    (s fingerprint other : Text) → is_empty s ≡ false → own_or s fingerprint ≡ own_or s other
own_or-own [] fingerprint other named = cc
own_or-own (b ∷ s) fingerprint other named = refl

fill_in-request_id :
    (o : Option TelemetryPayload) (t : Telemetry) → (fill_in o t).request_id ≡ t.request_id
fill_in-request_id none t = refl
fill_in-request_id (some p) t = refl

fill_in-event :
    (o : Option TelemetryPayload) (t : Telemetry) (at : ℕ)
    → (fill_in o (record t { timestamp = at })).event ≡ (fill_in o t).event
fill_in-event none t at = refl
fill_in-event (some p) t at = refl

fill_in-tenant_id :
    (o : Option TelemetryPayload) (t : Telemetry) (at : ℕ)
    → (fill_in o (record t { timestamp = at })).tenant_id ≡ (fill_in o t).tenant_id
fill_in-tenant_id none t at = refl
fill_in-tenant_id (some p) t at = refl

module _ (sha1_hex : Text → Text) (raw : DeviceTelemetry) (m n : ℕ) where
  idempotent_id-own :
      (t u : Telemetry)
      → t.request_id ≡ raw.request_id
      → u.request_id ≡ raw.request_id
      → is_empty (trim_space raw.request_id) ≡ false
      → idempotent_id sha1_hex t ≡ idempotent_id sha1_hex u
  unfolding idempotent_id
  idempotent_id-own t u e e' named = rw (e, e') (own_or-own (trim_space raw.request_id) _ _ named)

  event_time-clock :
      (is_positive raw.occurred_at ≡ true) ⊎ (is_positive raw.timestamp ≡ true)
      → event_time raw.occurred_at raw.timestamp m ≡ event_time raw.occurred_at raw.timestamp n
  event_time-clock (inl e) = simp e
  event_time-clock (inr e) = elim (Bool-cases (is_positive raw.occurred_at)) [
    | inl occurred ↦ simp occurred
    | inr not_occurred ↦ simp (not_occurred, e)
  ]

  -- What the message is at the second m of the clock, but with another time
  abbrev at_time : ℕ → Telemetry
  at_time at = record {
    request_id = raw.request_id;
    tenant_id = raw.tenant_id;
    device_id = raw.device_id;
    event = text_or raw.event_type raw.event;
    plate_no = raw.plate_no;
    vehicle_type = raw.vehicle_type;
    timestamp = at;
  }

  idempotent_id-clock :
      IsIdentified raw
      → idempotent_id sha1_hex (normalize_telemetry n raw)
        ≡ idempotent_id sha1_hex (normalize_telemetry m raw)
  unfolding normalize_telemetry
  idempotent_id-clock (inl named) =
      idempotent_id-own (normalize_telemetry n raw) (normalize_telemetry m raw)
        (fill_in-request_id raw.payload _) (fill_in-request_id raw.payload _) named
  idempotent_id-clock (inr timed) =
      ap (λ at. idempotent_id sha1_hex (fill_in raw.payload (at_time at)))
        (sym (event_time-clock timed))

  event-clock : (normalize_telemetry n raw).event ≡ (normalize_telemetry m raw).event
  unfolding normalize_telemetry
  event-clock =
      fill_in-event raw.payload (at_time (event_time raw.occurred_at raw.timestamp m))
        (event_time raw.occurred_at raw.timestamp n)

  tenant_id-clock : (normalize_telemetry n raw).tenant_id ≡ (normalize_telemetry m raw).tenant_id
  unfolding normalize_telemetry
  tenant_id-clock =
      fill_in-tenant_id raw.payload (at_time (event_time raw.occurred_at raw.timestamp m))
        (event_time raw.occurred_at raw.timestamp n)

-- Once a raw message of an entry, which brings a request id or a time, has been committed, and its
-- key was not there before, the same raw message, delivered again at whatever time, changes no
-- record and sends nothing, whatever Redis then remembers and however the parts answer.
pub handle_telemetry-once :
    (sha1_hex : Text → Text) (a b : Answers) (raw : DeviceTelemetry) (st : State) (keys : List Text)
    → IsIdentified raw
    → (normalize_telemetry a.now raw).event ≡ codes "entry"
    → has_key (dedup_key (idempotent_id sha1_hex (normalize_telemetry a.now raw))) st.keys ≡ false
    → (handle_telemetry sha1_hex a (some raw) st).1 ≡ commit
    → let after = (handle_telemetry sha1_hex a (some raw) st).0 in
      Untouched after (handle_telemetry sha1_hex b (some raw) (record after { keys = keys })).0
unfolding handle_telemetry normalize_telemetry
handle_telemetry-once sha1_hex a b raw st keys identified entry new done =
    let t = normalize_telemetry a.now raw in
    let u = normalize_telemetry b.now raw in
    let same = idempotent_id-clock sha1_hex raw a.now b.now identified in
    let entry' : u.event ≡ codes "entry" = event-clock sha1_hex raw a.now b.now ∙ entry in
    let tenant = tenant_id-clock sha1_hex raw a.now b.now in
    elim (Bool-cases (t.tenant_id == 0)) [
      | inl no_tenant ↦ rw (tenant, no_tenant) (refl, refl)
      | inr owned ↦
          let done' = rw (owned, entry) at done in
          rw (tenant, owned, entry', entry)
            (on_telemetry_entry-once sha1_hex a b t u st keys same new done')
    ]
