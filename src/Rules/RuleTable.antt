-- ===== src/Rules/RuleTable.antt =====
-- The table alarm_rule: `alarmRuleModel` of app/alarm-service/internal/model/alarm_rule_model.go.
pub mod Sound
use onepark_smart_park.Prelude.{
  ℕ, ◌+◌, Bool, true, false, ◌&&◌, Option, none, some, List, [], ◌∷◌, ◌++◌, Text, ◌==◌, Result, ok,
  err, if◌then◌else◌,
}
use onepark_smart_park.Prelude.Int.{ℤ, eq_ℤ, pos}
use onepark_smart_park.Table.{first, update, affected}
use onepark_smart_park.Rules.Spec.{Spec, SpecError, NormalizedSpec, parse_spec, with_declared_type}
use onepark_smart_park.Rules.Engine.{Rule}

pub record AlarmRule : Type 0 where
  pub id : ℤ
  pub tenant_id : ℤ
  pub name : Text
  pub device_type : Text
  pub device_id : Text
  pub area_id : ℤ
  pub event_type : Text
  pub rule_type : Text
  pub conditions : Text
  pub window_seconds : ℤ
  pub level : ℤ
  pub status : ℤ
  pub created_at : ℕ
  pub updated_at : ℕ

abbrev pub rule_status_disabled : ℤ
rule_status_disabled = pos 0

abbrev pub rule_status_enabled : ℤ
rule_status_enabled = pos 1

-- The rows, and the table's AUTO_INCREMENT
pub record RuleDb : Type 0 where
  pub rules : List AlarmRule
  pub next_id : ℕ

-- The columns that an update names
pub record Updates : Type 0 where
  pub name : Option Text
  pub device_type : Option Text
  pub device_id : Option Text
  pub area_id : Option ℤ
  pub event_type : Option Text
  pub rule_type : Option Text
  pub conditions : Option Text
  pub window_seconds : Option ℤ
  pub level : Option ℤ
  pub status : Option ℤ

abbrev pub given {ℓ} : {A : Type ℓ} → A → Option A → A
given a none = a
given a (some b) = b

-- `Create`: the row gets the next id.
unfoldable pub create : AlarmRule → RuleDb → RuleDb
create r db = record {
  rules = db.rules ++ record r { id = pos db.next_id } ∷ [];
  next_id = db.next_id + 1;
}

abbrev pub is_rule : ℤ → ℤ → AlarmRule → Bool
is_rule tenant id r = eq_ℤ r.id id && eq_ℤ r.tenant_id tenant

abbrev pub set_columns : ℕ → Updates → AlarmRule → AlarmRule
set_columns now u r = record r {
  name = given r.name u.name;
  device_type = given r.device_type u.device_type;
  device_id = given r.device_id u.device_id;
  area_id = given r.area_id u.area_id;
  event_type = given r.event_type u.event_type;
  rule_type = given r.rule_type u.rule_type;
  conditions = given r.conditions u.conditions;
  window_seconds = given r.window_seconds u.window_seconds;
  level = given r.level u.level;
  status = given r.status u.status;
  updated_at = now;
}

-- `Update`: the table, and whether a row was affected
unfoldable pub update_rule_row : ℕ → ℤ → ℤ → Updates → RuleDb → RuleDb × Bool
update_rule_row now tenant id u db =
    if affected (is_rule tenant id) db.rules == 0
    then (db, false)
    else (record db { rules = update (is_rule tenant id) (set_columns now u) db.rules }, true)

-- `FindByID`
unfoldable pub find_by_id : ℤ → ℤ → RuleDb → Option AlarmRule
find_by_id tenant id db = first (is_rule tenant id) db.rules

abbrev pub rule_with : AlarmRule → NormalizedSpec → Rule
rule_with r spec = record {
  id = r.id;
  name = r.name;
  tenant_id = r.tenant_id;
  rule_type = r.rule_type;
  window_seconds = r.window_seconds;
  device_type = r.device_type;
  device_id = r.device_id;
  area_id = r.area_id;
  event_type = r.event_type;
  level = r.level;
  spec = some (with_declared_type spec r.rule_type);
}

-- A row whose conditions do not parse is left out.
abbrev pub with_parsed : AlarmRule → Result SpecError NormalizedSpec → List Rule → List Rule
with_parsed r (err e) rules = rules
with_parsed r (ok spec) rules = rule_with r spec ∷ rules

-- The loop of `ListEnabled` over the rows that the query selects
unfoldable pub list_enabled : (Text → Option Spec) → List AlarmRule → List Rule
list_enabled unmarshal [] = []
list_enabled unmarshal (r ∷ rs) =
    let rest = list_enabled unmarshal rs in
    if eq_ℤ r.status rule_status_enabled
    then with_parsed r (parse_spec unmarshal r.conditions) rest
    else rest
