-- ===== src/Gateway/Tests.antt =====
-- Runs of the code and the theorems at concrete inputs.
use onepark_smart_park.Prelude.{
  ◌≡◌, refl, Bool, false, Option, none, some, List, [], ◌∷◌, ◌++◌, Text, codes, text_eq, map, arith,
  if◌then◌else◌,
}
use onepark_smart_park.Prelude.Int.{pos}
use onepark_smart_park.Gateway.Model.{
  Device, CommandLog, Message, Hub, find_by_device_id, update_online, is_alarm_event, set_finished,
}
use onepark_smart_park.Gateway.Frame.{Frame, Response, lines_of, read, trim_eol}
use onepark_smart_park.Gateway.Session.{
  Answers, new_session, publish, auth, dispatch, handle_frame, command_status,
}
use onepark_smart_park.Gateway.Serve.{serve, serve_connection}
use onepark_smart_park.Gateway.Framing.{on_wire, read-on_wire}
use onepark_smart_park.Gateway.Identity.{IsHonest}
use onepark_smart_park.Gateway.Connection.{serve_connection-IsHonest}
use onepark_smart_park.Gateway.Login.{LogsIn, serve-refused}
use onepark_smart_park.Gateway.Receipt.{serve-finishes_any}
use mathlib.Core.List.{Memᴰ}

abbrev same_text : Text → Text → Bool
same_text hash secret = text_eq hash secret

abbrev all_up : Answers
all_up = record {
  find_fails = false;
  online_fails = false;
  finish_fails = false;
  telemetry_fails = false;
  alarm_fails = false;
  now = 100;
  uuid = codes "u1";
}

abbrev sensor : Device
sensor = record {
  device_id = codes "d1";
  device_secret = codes "key";
  tenant_id = 5;
  zone_id = codes "A";
  status = 0;
  last_online_at = none;
  deleted = false;
}

abbrev command : CommandLog
command = record {
  request_id = codes "c1";
  device_id = codes "d2";
  status = 1;
  response = [];
  executed_at = none;
}

abbrev quiet : Hub
quiet = record { devices = sensor ∷ []; commands = command ∷ []; telemetry = []; alarms = [] }

abbrev blank : Frame
blank = record {
  type = [];
  device_id = [];
  secret = [];
  request_id = [];
  device_type = [];
  event_type = [];
  metrics = [];
  payload = [];
  status = [];
  occurred_at = pos 0;
}

abbrev login : Frame
login = record blank { type = codes "auth"; device_id = codes "d1"; secret = codes "key" }

abbrev fire : Frame
fire = record blank { type = codes "event"; event_type = codes "fire"; device_id = codes "d9" }

abbrev receipt : Frame
receipt = record blank { type = codes "ack"; request_id = codes "c1" }

-- `L` is a login, any other line an event.
abbrev decoder : Text → Option Frame
decoder [] = none
decoder (b ∷ s) = if text_eq (b ∷ []) (codes "L") then some login else some fire

abbrev inputs : List (Answers × Text)
inputs = (all_up, codes "L" ++ 10 ∷ []) ∷ (all_up, codes "E" ++ 10 ∷ []) ∷ []

abbrev topics : Hub → List Text × List Text
topics hub = (
  map (λ (m : Message). m.device_id) hub.telemetry,
  map (λ (m : Message). m.device_id) hub.alarms,
)

-- After a login an event of a fire goes to both topics, under the device that logged in.
connection_run :
    topics (serve_connection same_text decoder (pos 0) inputs quiet).0
    ≡ (codes "d1" ∷ [], codes "d1" ∷ [])
unfolding serve_connection serve read trim_eol handle_frame auth find_by_device_id update_online
    dispatch publish is_alarm_event
connection_run = refl

serve_connection-IsHonest_example :
    IsHonest same_text (serve_connection same_text decoder (pos 0) inputs quiet).0
serve_connection-IsHonest_example =
    serve_connection-IsHonest same_text decoder (pos 0) inputs quiet
      (record { telemetry_ok = tt; alarms_ok = tt })

read-on_wire_example :
    map (read 8) (lines_of (on_wire (codes "ping" ∷ codes "{}" ∷ [])))
    ≡ map some (codes "ping" ∷ codes "{}" ∷ [])
read-on_wire_example =
    read-on_wire 8 (codes "ping" ∷ codes "{}" ∷ [])
      (((refl, (refl, (refl, (refl, tt)))), omega arith), (((refl, (refl, tt)), omega arith), tt))

event_read : read 100 (codes "E" ++ 10 ∷ []) ≡ some (codes "E")
unfolding read trim_eol
event_read = refl

no_login : ¬ LogsIn same_text all_up fire quiet
no_login login = let e = login.is_auth in cc

serve-refused_example :
    (r : Response) × ((r.ok ≡ false)
      × (serve same_text decoder 100 ((all_up, codes "E" ++ 10 ∷ []) ∷ inputs) new_session quiet
          ≡ (quiet, r ∷ [])))
serve-refused_example =
    serve-refused same_text decoder 100 all_up (codes "E" ++ 10 ∷ []) inputs quiet event_read refl
      no_login

-- `L` is a login, any other line a receipt.
abbrev receipts : Text → Option Frame
receipts [] = none
receipts (b ∷ s) = if text_eq (b ∷ []) (codes "L") then some login else some receipt

login_read : read 100 (codes "L" ++ 10 ∷ []) ≡ some (codes "L")
unfolding read trim_eol
login_read = refl

logs_in : LogsIn same_text all_up login quiet
unfolding find_by_device_id
logs_in = record {
  device = sensor;
  is_auth = refl;
  named = refl;
  answers = refl;
  found = refl;
  proved = refl;
}

-- The command was sent to the device d2, and d1 finishes it.
serve-finishes_any_example :
    Memᴰ
      (set_finished (command_status receipt.status) receipt.payload 100 command)
      (serve same_text receipts 100
        ((all_up, codes "L" ++ 10 ∷ []) ∷ (all_up, codes "E" ++ 10 ∷ []) ∷ [])
        new_session
        quiet).0.commands
serve-finishes_any_example =
    serve-finishes_any same_text all_up all_up login receipt quiet logs_in receipts 100
      (codes "L" ++ 10 ∷ []) (codes "E" ++ 10 ∷ []) login_read refl event_read refl refl refl refl
      command (Memᴰ.head refl) refl
