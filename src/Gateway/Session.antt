-- ===== src/Gateway/Session.antt =====
-- What a device may do: internal/frame/session.go.
use onepark_smart_park.Prelude.{
  ℕ, Bool, true, false, ◌||◌, not, Option, none, some, [], ◌∷◌, ◌++◌, Text, codes, is_empty,
  text_eq, if◌then◌else◌,
}
use onepark_smart_park.Prelude.Int.{is_positive, pos_part}
use onepark_smart_park.Gateway.Model.{
  Device, Object, Payload, of_metrics, of_payload, of_status, Message, Hub, find_by_device_id,
  update_online, finish, is_alarm_event, command_status_success, command_status_failed,
}
use onepark_smart_park.Gateway.Frame.{
  Frame, ResponseError, not_authenticated, empty_credentials, no_device, auth_failed, wrong_secret,
  empty_metrics, empty_event_type, empty_status, empty_request_id, publish_failed, ack_failed,
  unknown_type, Response,
}

pub record Session : Type 0 where
  pub source : Text
  pub device_id : Text
  pub tenant_id : ℕ
  pub zone_id : Text
  pub authed : Bool

-- `NewSession`
abbrev pub new_session : Session
new_session = record {
  source = codes "tcp-gateway";
  device_id = [];
  tenant_id = 0;
  zone_id = [];
  authed = false;
}

-- How MySQL and Kafka answer while one frame is handled, the clock in seconds, and `uuid.NewString`.
pub record Answers : Type 0 where
  pub find_fails : Bool
  pub online_fails : Bool
  pub finish_fails : Bool
  pub telemetry_fails : Bool
  pub alarm_fails : Bool
  pub now : ℕ
  pub uuid : Text

-- What the handler of a frame leaves: the session, the hub, the response, and whether the
-- connection goes on.
pub record Handled : Type 0 where
  pub session : Session
  pub hub : Hub
  pub response : Response
  pub keep : Bool

abbrev pub accepted : Text → Response
accepted type = record { ok = true; type = type; error = none }

abbrev pub refused : Text → ResponseError → Response
refused type e = record { ok = false; type = type; error = some e }

abbrev pub handled : Session → Hub → Response → Bool → Handled
handled s hub r keep = record { session = s; hub = hub; response = r; keep = keep }

abbrev pub logged_in : Session → Device → Session
logged_in s d = record s {
  authed = true;
  device_id = d.device_id;
  tenant_id = d.tenant_id;
  zone_id = d.zone_id;
}

-- A failed write of the online status is only reported.
abbrev pub mark_online : Answers → Device → Hub → Hub
mark_online a d hub =
    if a.online_fails
    then hub
    else record hub { devices = update_online d.device_id a.now hub.devices }

-- `bcrypt.CompareHashAndPassword` is the argument.
abbrev pub auth_found :
    (Text → Text → Bool) → Answers → Text → Session → Hub → Option Device → Handled
auth_found bcrypt a secret s hub none = handled s hub (refused (codes "auth") no_device) false
auth_found bcrypt a secret s hub (some d) =
    if bcrypt d.device_secret secret
    then handled (logged_in s d) (mark_online a d hub) (accepted (codes "auth")) true
    else handled s hub (refused (codes "auth") wrong_secret) false

unfoldable pub auth : (Text → Text → Bool) → Answers → Text → Text → Session → Hub → Handled
auth bcrypt a device_id secret s hub =
    if is_empty device_id || is_empty secret
    then handled s hub (refused (codes "auth") empty_credentials) false
    else if a.find_fails
    then handled s hub (refused (codes "auth") auth_failed) false
    else auth_found bcrypt a secret s hub (find_by_device_id device_id hub.devices)

abbrev pub message_of : Answers → Frame → Text → Payload → Session → Message
message_of a f event_type p s = record {
  request_id = if is_empty f.request_id then a.uuid else f.request_id;
  tenant_id = s.tenant_id;
  device_id = s.device_id;
  device_type = f.device_type;
  event_type = event_type;
  zone_id = s.zone_id;
  occurred_at = if is_positive f.occurred_at then pos_part f.occurred_at else a.now;
  payload = p;
  source = s.source;
}

abbrev pub raise_alarm : Answers → Message → Hub → Hub
raise_alarm a m hub = if a.alarm_fails then hub else record hub { alarms = hub.alarms ++ m ∷ [] }

-- `publish`; `none` is an error. A failed alarm is only reported.
unfoldable pub publish : Answers → Message → Hub → Option Hub
publish a m hub =
    if a.telemetry_fails
    then none
    else let sent : Hub = record hub { telemetry = hub.telemetry ++ m ∷ [] } in
      if is_alarm_event m.event_type then some (raise_alarm a m sent) else some sent

abbrev pub after_publish : Session → Hub → Text → Option Hub → Handled
after_publish s hub type none = handled s hub (refused type publish_failed) true
after_publish s hub type (some sent) = handled s sent (accepted type) true

abbrev pub report : Answers → Frame → Text → Text → Payload → Session → Hub → Handled
report a f type event_type p s hub =
    after_publish s hub type (publish a (message_of a f event_type p s) hub)

abbrev pub is_none : Object → Bool
is_none [] = true
is_none (_ ∷ _) = false

abbrev pub command_status : Text → ℕ
command_status s =
    if text_eq s (codes "failed") || text_eq s (codes "error")
    then command_status_failed
    else command_status_success

-- `finishCommand`
abbrev pub finish_command : Answers → Frame → Session → Hub → Handled
finish_command a f s hub =
    if a.finish_fails
    then handled s hub (refused (codes "ack") ack_failed) true
    else handled s
        (record hub {
          commands = finish f.request_id (command_status f.status) f.payload a.now hub.commands;
        })
        (accepted (codes "ack")) true

unfoldable pub dispatch : Answers → Frame → Session → Hub → Handled
dispatch a f s hub =
    if text_eq f.type (codes "ping")
    then handled s hub (accepted f.type) true
    else if text_eq f.type (codes "telemetry")
    then if is_none f.metrics
      then handled s hub (refused f.type empty_metrics) true
      else report a f f.type (codes "telemetry") (of_metrics f.metrics) s hub
    else if text_eq f.type (codes "event")
    then if is_empty f.event_type
      then handled s hub (refused f.type empty_event_type) true
      else report a f f.type f.event_type (of_payload f.payload) s hub
    else if text_eq f.type (codes "status")
    then if is_empty f.status
      then handled s hub (refused f.type empty_status) true
      else report a f f.type (codes "status") (of_status f.status) s hub
    else if text_eq f.type (codes "ack")
    then if is_empty f.request_id
      then handled s hub (refused f.type empty_request_id) true
      else finish_command a f s hub
    else handled s hub (refused [] unknown_type) true

-- `HandleFrame`: TCP, where a login holds for the connection
unfoldable pub handle_frame : (Text → Text → Bool) → Answers → Frame → Session → Hub → Handled
handle_frame bcrypt a f s hub =
    if not s.authed
    then if not (text_eq f.type (codes "auth"))
      then handled s hub (refused [] not_authenticated) false
      else auth bcrypt a f.device_id f.secret s hub
    else dispatch a f s hub

abbrev pub after_auth : Answers → Frame → Handled → Handled
after_auth a f h =
    if not h.keep
    then record h { keep = true }
    else if text_eq f.type (codes "auth")
    then record h { response = accepted (codes "auth") }
    else dispatch a f h.session h.hub

-- `HandleStateless`: CoAP, where every request logs in
unfoldable pub handle_stateless : (Text → Text → Bool) → Answers → Frame → Session → Hub → Handled
handle_stateless bcrypt a f s hub =
    if is_empty f.device_id || is_empty f.secret
    then handled s hub (refused [] empty_credentials) true
    else after_auth a f (auth bcrypt a f.device_id f.secret s hub)
