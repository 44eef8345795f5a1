-- ===== src/Rules/Manage.antt =====
-- Creating and reading alarm rules, and the checks that creating and changing them share:
-- app/alarm-service/internal/logic/rulelogic.go.
pub mod Update
pub mod Calls
pub mod Fresh
use onepark_smart_park.Prelude.{
  ℕ, Bool, true, false, ◌&&◌, ◌||◌, not, Option, none, some, Text, codes, text_eq, is_empty,
  is_some, length, ltb, Result, ok, err, if◌then◌else◌,
}
use onepark_smart_park.Prelude.Int.{ℤ, pos, is_zero, is_positive, ltb_ℤ, leb_ℤ, eq_ℤ}
use onepark_smart_park.Strings.{trim_space, to_lower}
use onepark_smart_park.Rules.Spec.{
  Spec, SpecError, NormalizedSpec, parse_spec, is_valid_rule_type, threshold, combination,
  time_window,
}
use onepark_smart_park.Rules.RuleTable.{
  AlarmRule, RuleDb, Updates, create, update_rule_row, find_by_id, rule_status_disabled,
  rule_status_enabled,
}
use onepark_smart_park.Rules.Snapshot.{Engine, invalidate}

pub record CreateRuleReq : Type 0 where
  pub name : Text
  pub device_type : Text
  pub device_id : Text
  pub area_id : ℤ
  pub event_type : Text
  pub rule_type : Text
  pub conditions : Text
  pub window_seconds : ℤ
  pub level : ℤ
  pub status : ℤ

-- `Level` and `Status` are pointers.
pub record UpdateRuleReq : Type 0 where
  pub id : ℤ
  pub name : Text
  pub device_type : Text
  pub device_id : Text
  pub area_id : ℤ
  pub event_type : Text
  pub rule_type : Text
  pub conditions : Text
  pub window_seconds : ℤ
  pub level : Option ℤ
  pub status : Option ℤ

-- The errors that a handler answers, by the code and the check that gives it
pub data ManageError : Type 0 where
  no_tenant no_store no_name no_event_type bad_level bad_rule_type bad_window bad_status :
      ManageError
  long_device_type bad_id no_updates rule_not_found not_written not_read : ManageError
  bad_conditions : SpecError → ManageError

-- The rule table and the engine of one instance of the service; `has_db` is false where no MySQL is
-- configured.
pub record Service : Type 0 where
  pub has_db : Bool
  pub db : RuleDb
  pub engine : Option Engine

-- How MySQL answers, and the clock
pub record Answers : Type 0 where
  pub write_fails : Bool
  pub read_fails : Bool
  pub now : ℕ

abbrev pub max_device_type_len : ℕ
max_device_type_len = 32

abbrev pub is_level : ℤ → Bool
is_level l = not (ltb_ℤ l (pos 1) || ltb_ℤ (pos 4) l)

abbrev pub is_status : ℤ → Bool
is_status s = eq_ℤ s rule_status_disabled || eq_ℤ s rule_status_enabled

-- `normalizeRuleType`
unfoldable pub normalize_rule_type : Text → Text
unfolding to_lower trim_space
normalize_rule_type t =
    let u = to_lower (trim_space t) in
    if text_eq u combination || text_eq u (codes "composite")
    then combination
    else if text_eq u time_window || text_eq u (codes "window")
    then time_window
    else threshold

abbrev pub has_window_type : Option NormalizedSpec → Bool
has_window_type none = false
has_window_type (some spec) = text_eq spec.type time_window

abbrev pub has_window_sec : Option NormalizedSpec → Bool
has_window_sec none = false
has_window_sec (some spec) = is_positive spec.window_sec

-- `checkWindowSeconds`: true where it returns no error
unfoldable pub check_window_seconds : Text → Option NormalizedSpec → ℤ → Bool
check_window_seconds declared spec seconds =
    if ltb_ℤ seconds (pos 0)
    then false
    else if not (text_eq declared time_window || has_window_type spec)
    then true
    else if is_positive seconds
    then true
    else has_window_sec spec

-- `invalidateRuleCache`
abbrev pub invalidate_rule_cache : Option Engine → Option Engine
invalidate_rule_cache none = none
invalidate_rule_cache (some e) = some (invalidate e)

abbrev pub row_of : Answers → ℤ → CreateRuleReq → AlarmRule
row_of a tenant req = record {
  id = pos 0;
  tenant_id = tenant;
  name = trim_space req.name;
  device_type = trim_space req.device_type;
  device_id = trim_space req.device_id;
  area_id = req.area_id;
  event_type = trim_space req.event_type;
  rule_type = normalize_rule_type req.rule_type;
  conditions = req.conditions;
  window_seconds = req.window_seconds;
  level = req.level;
  status = req.status;
  created_at = a.now;
  updated_at = a.now;
}

-- The insert, and the cache behind it
unfoldable pub create_row : Answers → AlarmRule → Service → Service × Result ManageError ℤ
unfolding create
create_row a r s = if a.write_fails then (s, err not_written) else (
  record s { db = create r s.db; engine = invalidate_rule_cache s.engine },
  ok (pos s.db.next_id),
)

-- The checks after the conditions are parsed
abbrev pub create_parsed :
    Answers
    → ℤ
    → CreateRuleReq
    → Service
    → Result SpecError NormalizedSpec
    → Service × Result ManageError ℤ
create_parsed a tenant req s (err e) = (s, err (bad_conditions e))
create_parsed a tenant req s (ok spec) =
    if not (check_window_seconds (normalize_rule_type req.rule_type) (some spec) req.window_seconds)
    then (s, err bad_window)
    else if not (is_status req.status)
    then (s, err bad_status)
    else if ltb max_device_type_len (length (trim_space req.device_type))
    then (s, err long_device_type)
    else create_row a (row_of a tenant req) s

-- `CreateRule`; texts are bytes, so that `length` is Go's `len`
unfoldable pub create_rule :
    (Text → Option Spec) → Answers → ℤ → CreateRuleReq → Service → Service × Result ManageError ℤ
create_rule unmarshal a tenant req s =
    if is_zero tenant
    then (s, err no_tenant)
    else if not s.has_db
    then (s, err no_store)
    else if is_empty (trim_space req.name)
    then (s, err no_name)
    else if is_empty (trim_space req.event_type)
    then (s, err no_event_type)
    else if not (is_level req.level)
    then (s, err bad_level)
    else if not (is_valid_rule_type req.rule_type)
    then (s, err bad_rule_type)
    else create_parsed a tenant req s (parse_spec unmarshal req.conditions)

abbrev pub found_rule : Option AlarmRule → Result ManageError AlarmRule
found_rule none = err rule_not_found
found_rule (some r) = ok r

-- `GetRule`
unfoldable pub get_rule : Answers → ℤ → ℤ → Service → Result ManageError AlarmRule
unfolding find_by_id
get_rule a tenant id s =
    if is_zero tenant
    then err no_tenant
    else if not s.has_db
    then err no_store
    else if a.read_fails
    then err not_read
    else found_rule (find_by_id tenant id s.db)
