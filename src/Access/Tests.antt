-- ===== src/Access/Tests.antt =====
-- Runs of the access handlers, and their theorems at concrete inputs.
use onepark_smart_park.Prelude.{
  ℕ, ◌*◌, ◌≡◌, refl, true, false, none, some, [], ◌∷◌, Text, codes, ok, arith,
}
use onepark_smart_park.Prelude.Int.{ℤ, pos, negsuc}
use onepark_smart_park.Strings.{trim_space}
use onepark_smart_park.Dedup.{seen, is_held, drop_key, release}
use onepark_smart_park.Access.{
  Moment, TimeWindow, Json, AccessPermission, permission_allowed, Caller, allowed, denied,
  wrong_time, parse_window_minutes,
}
use onepark_smart_park.Access.Grant.{
  GrantAccessReq, Answers, grant_access, rows_of, normalize_targets, distinct_ids, distinct_texts,
  marshal_time_window, parse_expire_at, permissions_for, grant, upsert, find_effective,
}
use onepark_smart_park.Access.RemoteOpen.{
  World, Config, Call, RemoteOpenReq, remote_open, is_duplicate, release_duplicate, authorize,
  send_command, write_traces, opened, open_failed, ignored, command_sent, timed_out, answer,
  timeout, remote_open_dedup_key,
}
use onepark_smart_park.Access.RemoteOpen.Sent.{Sends, remote_open-Sends}
use onepark_smart_park.Access.RemoteOpen.Reopen.{open_all, open_all-reopen}
use onepark_smart_park.Access.RemoteOpen.Retry.{remote_open-retry}
use onepark_smart_park.Workorder.Status.{has_role}

abbrev office_hours : TimeWindow
office_hours = record { start = codes "08:00"; end = codes "20:00"; days = pos 1 ∷ pos 7 ∷ [] }

abbrev json_example : Json
json_example = record { marshal = λ w. codes "{}"; unmarshal = λ t. some office_hours }

abbrev show : ℤ → Text
show n = codes "3"

abbrev guard : Caller
guard = record { tenant_id = pos 3; user_id = pos 9; roles = 6 ∷ [] }

abbrev sunday : ℕ → Moment
sunday hour = record { instant = hour * 3600; weekday = 0; hour = hour; minute = 0 }

abbrev answers_example : Answers
answers_example = record {
  has_db = true;
  grant_fails = false;
  revoke_fails = false;
  now = 0;
  parse_time = λ t. none;
}

abbrev grant_example : GrantAccessReq
grant_example = record {
  person_ids = pos 9 ∷ negsuc 0 ∷ pos 9 ∷ [];
  device_ids = codes " door1 " ∷ codes "door1" ∷ [];
  time_window = some office_hours;
  whitelist = false;
  expire_at = [];
}

abbrev permission_example : AccessPermission
permission_example = record {
  tenant_id = pos 3;
  person_id = pos 9;
  device_id = codes "door1";
  time_window = some (codes "{}");
  whitelist = pos 0;
  status = pos 1;
  expire_at = none;
  created_at = 0;
  updated_at = 0;
}

-- A repeated person and device make one row.
granted :
    grant_access json_example answers_example guard grant_example []
    ≡ (permission_example ∷ [], ok 1)
unfolding grant_access rows_of normalize_targets distinct_ids distinct_texts marshal_time_window
    parse_window_minutes parse_expire_at permissions_for grant upsert trim_space has_role
granted = refl

-- Sunday is day 7; the last minute of the period is allowed, the next hour is not.
on_sunday : permission_allowed json_example permission_example (sunday 20) ≡ allowed
unfolding permission_allowed
on_sunday = refl

late_on_sunday : permission_allowed json_example permission_example (sunday 21) ≡ denied wrong_time
unfolding permission_allowed
late_on_sunday = refl

abbrev config_example : Config
config_example = record {
  has_device_rpc = true;
  has_dedup = true;
  has_permissions = true;
  has_logs = true;
  has_records = true;
  allowed_device_ids = [];
}

abbrev call_example : Call
call_example = record {
  seen_fails = false;
  release_fails = false;
  find_fails = false;
  log_fails = false;
  record_fails = false;
  now = sunday 9;
  reply = answer true [];
}

abbrev world_example : World
world_example = record {
  keys = [];
  permissions = permission_example ∷ [];
  logs = [];
  records = [];
  commands = [];
}

abbrev open_example : RemoteOpenReq
open_example = record {
  device_id = codes " door1";
  reason = codes "guest";
  request_id = codes "r1";
}

remote_open-Sends_example :
    Sends json_example config_example call_example guard
      (codes "door1")
      (permission_example ∷ [])
      []
      (remote_open show json_example config_example call_example guard open_example
        world_example).0.commands
unfolding trim_space
remote_open-Sends_example =
    remote_open-Sends show json_example config_example call_example guard open_example world_example

opens :
    (remote_open show json_example config_example call_example guard open_example world_example).1
    ≡ opened (codes "door1") command_sent
unfolding remote_open is_duplicate seen is_held authorize find_effective permission_allowed
    send_command trim_space
opens = refl

open_all-reopen_example :
    remote_open show json_example config_example
      (record call_example { now = sunday 9 })
      guard
      open_example
      (remote_open show json_example config_example call_example guard open_example world_example).0
    ≡ (
      (remote_open show json_example config_example call_example guard open_example
          world_example).0,
      ignored (codes "door1"),
    )
unfolding trim_space open_all
open_all-reopen_example =
    open_all-reopen show json_example config_example guard open_example call_example world_example
      [] (record call_example { now = sunday 9 }) refl refl opens tt (omega arith) refl

-- The device does not answer in time: it was told to open, and the same request tells it again.
abbrev slow_call : Call
slow_call = record call_example { reply = timeout }

times_out :
    (remote_open show json_example config_example slow_call guard open_example world_example).1
    ≡ open_failed timed_out
unfolding remote_open is_duplicate seen is_held authorize find_effective permission_allowed
    send_command trim_space
times_out = refl

told_twice :
    (remote_open show json_example config_example call_example guard open_example
      (remote_open show json_example config_example slow_call guard open_example
        world_example).0).0.commands
    ≡ codes "door1" ∷ codes "door1" ∷ []
unfolding remote_open is_duplicate seen is_held drop_key authorize find_effective permission_allowed
    send_command write_traces release_duplicate release remote_open_dedup_key trim_space
told_twice = refl

remote_open-retry_example : ¬ (
    (remote_open show json_example config_example call_example guard open_example
      (remote_open show json_example config_example slow_call guard open_example world_example).0).1
    ≡ ignored (codes "door1"))
unfolding remote_open is_duplicate seen is_held authorize find_effective permission_allowed
    send_command trim_space
remote_open-retry_example =
    remote_open-retry show json_example config_example guard open_example slow_call call_example
      world_example (codes "door1") refl refl refl refl
