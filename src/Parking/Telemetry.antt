-- ===== src/Parking/Telemetry.antt =====
-- Messages of parking sensors: `deviceTelemetry`, `normalizeTelemetry` and `IdempotentID` of
-- internal/svc/consumer.go. `encoding/json` has read the message; SHA-1 is an argument.
use onepark_smart_park.Prelude.{
  ℕ, zero, suc, ◌+◌, ◌/◌, ◌%◌, Bool, ◌||◌, Option, none, some, [], ◌∷◌, ◌++◌, Text, codes, is_empty,
  ltb, ◌==◌, if◌then◌else◌,
}
use onepark_smart_park.Prelude.Int.{ℤ, is_positive, pos_part}

-- `telemetryPayload`
pub record TelemetryPayload : Type 0 where
  pub tenant_id : ℕ
  pub plate_no : Text
  pub vehicle_type : ℕ

pub record DeviceTelemetry : Type 0 where
  pub request_id : Text
  pub device_id : Text
  pub event_type : Text
  pub occurred_at : ℤ
  pub payload : Option TelemetryPayload  -- `none`: absent, or not this JSON
  pub tenant_id : ℕ
  pub plate_no : Text
  pub vehicle_type : ℕ
  pub event : Text
  pub timestamp : ℤ

-- What `normalizeTelemetry` returns; its time stamp is in seconds and positive.
pub record Telemetry : Type 0 where
  pub request_id : Text
  pub tenant_id : ℕ
  pub device_id : Text
  pub event : Text
  pub plate_no : Text
  pub vehicle_type : ℕ
  pub timestamp : ℕ

abbrev pub second : ℕ
second = 1000000000

abbrev pub text_or : Text → Text → Text
text_or s t = if is_empty s then t else s

abbrev nat_or : ℕ → ℕ → ℕ
nat_or n m = if n == 0 then m else n

abbrev pub fill_in : Option TelemetryPayload → Telemetry → Telemetry
fill_in none t = t
fill_in (some p) t = record t {
  tenant_id = nat_or t.tenant_id p.tenant_id;
  plate_no = text_or t.plate_no p.plate_no;
  vehicle_type = nat_or t.vehicle_type p.vehicle_type;
}

-- The first of the two times that is positive, else the clock's seconds.
abbrev pub event_time : ℤ → ℤ → ℕ → ℕ
event_time occurred timestamp now =
    if is_positive occurred
    then pos_part occurred
    else if is_positive timestamp
    then pos_part timestamp
    else now / second

unfoldable pub normalize_telemetry : ℕ → DeviceTelemetry → Telemetry
normalize_telemetry now raw = fill_in raw.payload (record {
  request_id = raw.request_id;
  tenant_id = raw.tenant_id;
  device_id = raw.device_id;
  event = text_or raw.event_type raw.event;
  plate_no = raw.plate_no;
  vehicle_type = raw.vehicle_type;
  timestamp = event_time raw.occurred_at raw.timestamp now;
})

-- `unicode.IsSpace` on a byte of ASCII
abbrev pub is_space : ℕ → Bool
is_space b = b == 32 || (b == 9 || (b == 10 || (b == 11 || (b == 12 || b == 13))))

unfoldable pub trim_left : Text → Text
trim_left [] = []
trim_left (b ∷ s) = let rest = trim_left s in if is_space b then rest else b ∷ s

abbrev pub join_unless_blank : ℕ → Text → Text
join_unless_blank b [] = if is_space b then [] else b ∷ []
join_unless_blank b (c ∷ s) = b ∷ c ∷ s

unfoldable pub trim_right : Text → Text
trim_right [] = []
trim_right (b ∷ s) = join_unless_blank b (trim_right s)

-- `strings.TrimSpace`
unfoldable pub trim_space : Text → Text
unfolding trim_left trim_right
trim_space s = trim_right (trim_left s)

abbrev pub last_digit : ℕ → ℕ
last_digit n = b'0' + n % 10

-- `strconv.FormatInt(n, 10)`, on fuel: an int64 has at most 19 digits.
abbrev pub decimal_on : ℕ → ℕ → Text → Text
decimal_on zero n acc = acc
decimal_on (suc fuel) n acc =
    let rest = decimal_on fuel (n / 10) (last_digit n ∷ acc) in
    if ltb n 10 then last_digit n ∷ acc else rest

unfoldable pub format_int : ℕ → Text
format_int n = decimal_on 19 n []

abbrev pub fingerprint_text : Telemetry → Text
fingerprint_text t =
    t.device_id
    ++ (codes "|"
        ++ (t.event ++ (codes "|" ++ (t.plate_no ++ (codes "|" ++ format_int t.timestamp)))))

abbrev pub own_or : Text → Text → Text
own_or [] fingerprint = fingerprint
own_or (b ∷ s) fingerprint = b ∷ s

-- `IdempotentID`; the argument is the hexadecimal SHA-1 of a text.
unfoldable pub idempotent_id : (Text → Text) → Telemetry → Text
unfolding trim_space format_int
idempotent_id sha1_hex t =
    own_or (trim_space t.request_id) (codes "fp:" ++ sha1_hex (fingerprint_text t))
