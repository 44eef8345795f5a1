-- ===== src/Access/RemoteOpen.antt =====
-- Opening a door from afar: app/access-control-service/internal/logic/remoteopenlogic.go.
pub mod Sent
pub mod Once
pub mod Reopen
pub mod Retry
use onepark_smart_park.Prelude.{
  ℕ, ◌+◌, ◌*◌, Bool, true, false, ◌&&◌, ◌||◌, not, Option, none, some, List, [], ◌∷◌, ◌++◌, Text,
  codes, text_eq, is_empty, Result, ok, err, if◌then◌else◌,
}
use onepark_smart_park.Prelude.Int.{ℤ, is_zero}
use onepark_smart_park.Strings.{trim_space}
use onepark_smart_park.Dedup.{Key, seen, release}
use onepark_smart_park.Access.{
  Moment, Json, AccessPermission, Reason, Decision, allowed, denied, permission_allowed, Caller,
  command_result_fail, command_result_success, command_result_timeout,
}
use onepark_smart_park.Access.Grant.{find_effective, has_text}

-- Why a door is not opened, and what is said of a command
pub data Message : Type 0 where
  not_authorized : Text → Reason → Message
  not_on_list : Text → Message
  timed_out : Message
  call_failed : Text → Message
  device_failed : Message
  command_sent : Message
  device_says : Text → Message
  blank : Message

pub record AccessOperateLog : Type 0 where
  pub tenant_id : ℤ
  pub device_id : Text
  pub operator_id : ℤ
  pub result : ℕ
  pub message : Message
  pub reason : Text

pub record AccessRecord : Type 0 where
  pub tenant_id : ℤ
  pub person_id : ℤ
  pub device_id : Text
  pub result : ℕ
  pub fail_reason : Message

-- What the handler reads and changes: Redis, the tables, and the devices that were told to open
pub record World : Type 0 where
  pub keys : List Key
  pub permissions : List AccessPermission
  pub logs : List AccessOperateLog
  pub records : List AccessRecord
  pub commands : List Text

-- What the service is built with; a dependency that is missing is `nil` in the source.
pub record Config : Type 0 where
  pub has_device_rpc : Bool
  pub has_dedup : Bool
  pub has_permissions : Bool
  pub has_logs : Bool
  pub has_records : Bool
  pub allowed_device_ids : List Text

-- What `SendCommand` gives: an error that is a timeout or another, or an answer, which may be nil
pub data Reply : Type 0 where
  timeout : Reply
  failure : Text → Reply
  nothing : Reply
  answer : (success : Bool) → (message : Text) → Reply

-- How the dependencies answer one request
pub record Call : Type 0 where
  pub seen_fails : Bool
  pub release_fails : Bool
  pub find_fails : Bool
  pub log_fails : Bool
  pub record_fails : Bool
  pub now : Moment
  pub reply : Reply

pub record RemoteOpenReq : Type 0 where
  pub device_id : Text
  pub reason : Text
  pub request_id : Text

pub data Outcome : Type 0 where
  no_tenant no_device no_operator no_device_rpc dedup_unavailable : Outcome
  forbidden : Message → Outcome
  open_failed : Message → Outcome
  ignored : Text → Outcome
  opened : Text → Message → Outcome

-- Ten minutes, in seconds
abbrev pub remote_open_dedup_ttl : ℕ
remote_open_dedup_ttl = 600

module _ (format_int : ℤ → Text) where
  -- `remoteOpenDedupKey`
  unfoldable pub remote_open_dedup_key : ℤ → Text → Text
  remote_open_dedup_key tenant request =
      codes "access:remote-open:" ++ format_int tenant ++ codes ":" ++ request

  -- `isDuplicate`
  unfoldable pub is_duplicate :
      Config → Call → ℤ → Text → List Key → List Key × Result (Unit {0}) Bool
  is_duplicate cfg call tenant request ks =
      if is_empty request || not cfg.has_dedup
      then (ks, ok false)
      else seen call.now.instant remote_open_dedup_ttl call.seen_fails
          (remote_open_dedup_key tenant request) ks

  -- `releaseDuplicate`
  unfoldable pub release_duplicate : Config → Call → ℤ → Text → World → World
  release_duplicate cfg call tenant request w =
      if is_empty request || not cfg.has_dedup then w else record w {
        keys = release call.release_fails (remote_open_dedup_key tenant request) w.keys;
      }

-- The loop of `deviceAllowed`
unfoldable pub device_allowed : List Text → Text → Bool
unfolding trim_space
device_allowed [] device = false
device_allowed (id ∷ ids) device = text_eq (trim_space id) device || device_allowed ids device

pub data Verdict : Type 0 where
  may_open : Verdict
  may_not : Message → Verdict

abbrev pub by_list : Config → Text → Verdict
by_list cfg device =
    if device_allowed cfg.allowed_device_ids device then may_open else may_not (not_on_list device)

abbrev pub by_decision : Text → Decision → Verdict
by_decision device allowed = may_open
by_decision device (denied reason) = may_not (not_authorized device reason)

abbrev pub by_permission : Json → Config → Call → Text → Option AccessPermission → Verdict
by_permission json cfg call device none = by_list cfg device
by_permission json cfg call device (some p) =
    by_decision device (permission_allowed json p call.now)

-- `authorize`
unfoldable pub authorize : Json → Config → Call → ℤ → ℤ → Text → World → Verdict
unfolding find_effective
authorize json cfg call tenant operator device w =
    if cfg.has_permissions && not call.find_fails
    then by_permission json cfg call device (find_effective tenant operator device w.permissions)
    else by_list cfg device

abbrev pub said : Text → Message → Message
said text default = if is_empty (trim_space text) then default else device_says text

-- `sendCommand`: the result for the audit, the message, and whether it succeeded
unfoldable pub send_command : Reply → ℕ × Message × Bool
unfolding trim_space
send_command timeout = (command_result_timeout, timed_out, false)
send_command (failure e) = (command_result_fail, call_failed e, false)
send_command nothing = (command_result_fail, device_failed, false)
send_command (answer true text) = (command_result_success, said text command_sent, true)
send_command (answer false text) = (command_result_fail, said text device_failed, false)

-- `writeAudit`
unfoldable pub write_audit : Config → Call → AccessOperateLog → World → World
write_audit cfg call log w =
    if cfg.has_logs && not call.log_fails then record w { logs = w.logs ++ log ∷ [] } else w

-- `writeRecord`
unfoldable pub write_record : Config → Call → AccessRecord → World → World
write_record cfg call r w =
    if cfg.has_records && not call.record_fails
    then record w { records = w.records ++ r ∷ [] }
    else w

abbrev pub log_of : Caller → RemoteOpenReq → ℕ → Message → AccessOperateLog
log_of caller req result message = record {
  tenant_id = caller.tenant_id;
  device_id = trim_space req.device_id;
  operator_id = caller.user_id;
  result = result;
  message = message;
  reason = req.reason;
}

abbrev pub record_of : Caller → RemoteOpenReq → Bool → Message → AccessRecord
record_of caller req success message = record {
  tenant_id = caller.tenant_id;
  person_id = caller.user_id;
  device_id = trim_space req.device_id;
  result = if success then 1 else 0;
  fail_reason = if success then blank else message;
}

-- Both traces of an attempt
unfoldable pub write_traces :
    Config → Call → Caller → RemoteOpenReq → ℕ × Message × Bool → World → World
unfolding write_audit write_record
write_traces cfg call caller req (result, message, success) w =
    write_record cfg call (record_of caller req success message)
      (write_audit cfg call (log_of caller req result message) w)

module _ (format_int : ℤ → Text) (json : Json) where
  abbrev pub answered :
      Config → Call → Caller → RemoteOpenReq → World → ℕ × Message × Bool → World × Outcome
  answered cfg call caller req w (result, message, success) =
      let traced = write_traces cfg call caller req (result, message, success) w in
      if success then (traced, opened (trim_space req.device_id) message) else (
        release_duplicate format_int cfg call caller.tenant_id (trim_space req.request_id) traced,
        open_failed message,
      )

  abbrev pub decided : Config → Call → Caller → RemoteOpenReq → World → Verdict → World × Outcome
  decided cfg call caller req w (may_not message) = (
    release_duplicate format_int cfg call caller.tenant_id (trim_space req.request_id)
        (write_traces cfg call caller req (command_result_fail, message, false) w),
    forbidden message,
  )
  decided cfg call caller req w may_open =
      answered cfg call caller req
        (record w { commands = w.commands ++ trim_space req.device_id ∷ [] })
        (send_command call.reply)

  abbrev pub after_dedup :
      Config
      → Call
      → Caller
      → RemoteOpenReq
      → World
      → List Key × Result (Unit {0}) Bool
      → World × Outcome
  after_dedup cfg call caller req w (ks, err e) = (record w { keys = ks }, dedup_unavailable)
  after_dedup cfg call caller req w (ks, ok true) =
      (record w { keys = ks }, ignored (trim_space req.device_id))
  after_dedup cfg call caller req w (ks, ok false) =
      decided cfg call caller req (record w { keys = ks })
        (authorize json cfg call caller.tenant_id caller.user_id (trim_space req.device_id) w)

  -- `RemoteOpen`
  unfoldable pub remote_open : Config → Call → Caller → RemoteOpenReq → World → World × Outcome
  remote_open cfg call caller req w =
      if is_zero caller.tenant_id
      then (w, no_tenant)
      else if is_empty (trim_space req.device_id)
      then (w, no_device)
      else if is_zero caller.user_id
      then (w, no_operator)
      else if not cfg.has_device_rpc
      then (w, no_device_rpc)
      else after_dedup cfg call caller req w
          (is_duplicate format_int cfg call caller.tenant_id (trim_space req.request_id) w.keys)
