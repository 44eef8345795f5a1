-- ===== src/Rules/Manage/Update.antt =====
-- Changing an alarm rule: `UpdateRule` of app/alarm-service/internal/logic/rulelogic.go.
use onepark_smart_park.Prelude.{
  Bool, true, false, ◌||◌, not, Option, none, some, [], Text, is_empty, is_some, length, ltb,
  Result, ok, err, if◌then◌else◌, ◌>>=◌, ◌>>◌,
}
use onepark_smart_park.Prelude.Int.{ℤ, is_zero, is_positive}
use onepark_smart_park.Strings.{trim_space}
use onepark_smart_park.Rules.Spec.{Spec, SpecError, NormalizedSpec, parse_spec, is_valid_rule_type}
use onepark_smart_park.Rules.RuleTable.{RuleDb, Updates, update_rule_row}
use onepark_smart_park.Rules.Manage.{
  UpdateRuleReq, ManageError, no_tenant, no_store, bad_id, long_device_type, bad_level, bad_status,
  bad_rule_type, bad_conditions, bad_window, no_updates, not_written, rule_not_found, Service,
  Answers, max_device_type_len, is_level, is_status, normalize_rule_type, check_window_seconds,
  invalidate_rule_cache,
}

-- A text that is given: not blank, and trimmed
abbrev pub trimmed : Text → Option Text
trimmed s = if is_empty (trim_space s) then none else some (trim_space s)

abbrev pub check_level : Option ℤ → Result ManageError (Unit {0})
check_level none = ok tt
check_level (some l) = if is_level l then ok tt else err bad_level

abbrev pub check_status : Option ℤ → Result ManageError (Unit {0})
check_status none = ok tt
check_status (some s) = if is_status s then ok tt else err bad_status

-- The declared type that a request gives, and its column
abbrev pub declared_type : Text → Result ManageError (Option Text)
declared_type t =
    if is_empty t
    then ok none
    else if is_valid_rule_type t
    then ok (some (normalize_rule_type t))
    else err bad_rule_type

abbrev pub parsed : Result SpecError NormalizedSpec → Result ManageError (Option NormalizedSpec)
parsed (err e) = err (bad_conditions e)
parsed (ok spec) = ok (some spec)

abbrev pub parse_given : (Text → Option Spec) → Text → Result ManageError (Option NormalizedSpec)
parse_given unmarshal conditions =
    if is_empty conditions then ok none else parsed (parse_spec unmarshal conditions)

abbrev pub text_or_empty : Option Text → Text
text_or_empty none = []
text_or_empty (some t) = t

abbrev pub unless_zero : ℤ → Option ℤ
unless_zero n = if is_zero n then none else some n

abbrev pub updates_of : UpdateRuleReq → Option Text → Updates
updates_of req declared = record {
  name = trimmed req.name;
  device_type = trimmed req.device_type;
  device_id = trimmed req.device_id;
  area_id = unless_zero req.area_id;
  event_type = trimmed req.event_type;
  rule_type = declared;
  conditions = if is_empty req.conditions then none else some req.conditions;
  window_seconds = unless_zero req.window_seconds;
  level = req.level;
  status = req.status;
}

-- `len(updates) == 0`
abbrev pub has_updates : Updates → Bool
has_updates u =
    is_some u.name
    || (is_some u.device_type
        || (is_some u.device_id
            || (is_some u.area_id
                || (is_some u.event_type
                    || (is_some u.rule_type
                        || (is_some u.conditions
                            || (is_some u.window_seconds
                                || (is_some u.level || is_some u.status))))))))

abbrev pub require : Bool → ManageError → Result ManageError (Unit {0})
require true e = ok tt
require false e = err e

-- The checks of `UpdateRule`, in their order, and the columns that they collect
unfoldable pub collect_updates : (Text → Option Spec) → UpdateRuleReq → Result ManageError Updates
collect_updates unmarshal req = do
  require (not (ltb max_device_type_len (length (trim_space req.device_type)))) long_device_type
  check_level req.level
  check_status req.status
  declared ← declared_type req.rule_type
  spec ← parse_given unmarshal req.conditions
  require (check_window_seconds (text_or_empty declared) spec req.window_seconds) bad_window
  require (has_updates (updates_of req declared)) no_updates
  ok (updates_of req declared)

abbrev pub wrote : Service → ℤ → RuleDb × Bool → Service × Result ManageError ℤ
wrote s id (db, false) = (s, err rule_not_found)
wrote s id (db, true) = (record s { db = db; engine = invalidate_rule_cache s.engine }, ok id)

-- The write, and the cache behind it
unfoldable pub write_updates :
    Answers → ℤ → ℤ → Service → Result ManageError Updates → Service × Result ManageError ℤ
unfolding update_rule_row
write_updates a tenant id s (err e) = (s, err e)
write_updates a tenant id s (ok u) =
    if a.write_fails
    then (s, err not_written)
    else wrote s id (update_rule_row a.now tenant id u s.db)

-- `UpdateRule`
unfoldable pub update_rule :
    (Text → Option Spec) → Answers → ℤ → UpdateRuleReq → Service → Service × Result ManageError ℤ
update_rule unmarshal a tenant req s =
    if is_zero tenant
    then (s, err no_tenant)
    else if not (is_positive req.id)
    then (s, err bad_id)
    else if not s.has_db
    then (s, err no_store)
    else write_updates a tenant req.id s (collect_updates unmarshal req)
