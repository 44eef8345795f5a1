-- ===== src/Rules/Tests.antt =====
-- Runs of the rule engine, and its theorems at concrete inputs.
use onepark_smart_park.Prelude.{
  ◌≡◌, refl, true, false, Option, none, some, List, [], ◌∷◌, Text, codes, ltb, leb, ◌==◌, ok, err,
  All,
}
use onepark_smart_park.Prelude.Int.{pos}
use onepark_smart_park.Strings.{trim_space, to_lower, to_upper, split}
use onepark_smart_park.Rules.Value.{null, float64, end, entry, Go, to_float, get_entry}
use onepark_smart_park.Rules.Operator.{to_operator}
use onepark_smart_park.Rules.Spec.{
  Condition, Spec, NormalizedSpec, parse_spec, time_window, and_logic, with_declared_type,
  resolve_alias, rule_type_of, check_spec, check_logic, check_conditions, check_match, normalize,
}
use onepark_smart_park.Rules.Condition.{
  Fields, evaluate_condition, match_conditions, unknown_operator, compare, resolve_field,
}
use onepark_smart_park.Rules.Window.{Redis, window_lua, members_at, counted, zadd, add, delete}
use onepark_smart_park.Rules.Window.Redelivery.{add-again}
use onepark_smart_park.Rules.Engine.{
  Rule, Draft, evaluate_rules, evaluate_rule, evaluate_spec, applies_to, new_draft,
  match_not_evaluated,
}
use onepark_smart_park.Rules.Engine.Tenants.{Raised, evaluate_rules-Raised}
use onepark_smart_park.Rules.Snapshot.{new_engine}
use onepark_smart_park.Rules.RuleTable.{AlarmRule, list_enabled}
use onepark_smart_park.Rules.RuleTable.Sound.{IsSound, list_enabled-IsSound}
use onepark_smart_park.Rules.Manage.{Service, CreateRuleReq}
use onepark_smart_park.Rules.Manage.Calls.{
  Call, create_call, rules_call, replies, table_replies, AllImplement, without_cache,
}
use onepark_smart_park.Rules.Manage.Fresh.{replies-AllImplement}

-- Numbers are naturals here, and every other value prints as nothing.
abbrev go_example : Go
go_example = record {
  parse_float = λ s. none;
  float_of_int = λ n. 0;
  float_lt = ltb;
  float_le = leb;
  float_eq = λ a b. a == b;
  sprint = λ v. [];
  format_int = λ n. codes "7";
}

abbrev redis_example : Redis
redis_example = record { fails = λ k. false; now = λ k. 90000 }

abbrev too_hot : Condition
too_hot = record {
  field = codes "payload.temperature";
  op = codes "GTE ";
  operator = [];
  value = float64 80;
}

abbrev hot_spec : Spec
hot_spec = record {
  type = [];
  logic = [];
  conditions = too_hot ∷ [];
  field = [];
  op = [];
  operator = [];
  value = null;
  window_sec = pos 0;
  threshold = pos 0;
  match_ = none;
}

abbrev hot_row : AlarmRule
hot_row = record {
  id = pos 7;
  tenant_id = pos 3;
  name = codes "hot";
  device_type = [];
  device_id = codes "*";
  area_id = pos 0;
  event_type = codes "temperature";
  rule_type = codes "threshold";
  conditions = codes "{}";
  window_seconds = pos 0;
  level = pos 3;
  status = pos 1;
  created_at = 0;
  updated_at = 0;
}

abbrev decode : Text → Option Spec
decode t = some hot_spec

abbrev event_example : Fields
event_example = record {
  event_type = codes "temperature";
  device_id = codes "d1";
  device_type = [];
  area_id = pos 5;
  zone_id = [];
  tenant_id = pos 3;
  payload = entry (codes "temperature") (float64 81) end;
}

-- The operator is read in any case and with spaces, and the condition holds of 81.
hot_matches : evaluate_condition go_example event_example too_hot ≡ ok true
unfolding evaluate_condition to_operator resolve_field compare trim_space to_lower split to_float
    get_entry
hot_matches = refl

-- A symbol with a space is no operator.
symbol_with_space : to_operator (codes "> ") ≡ none
unfolding to_operator
symbol_with_space = refl

abbrev hot_rule : Rule
hot_rule = record {
  id = pos 7;
  name = codes "hot";
  tenant_id = pos 3;
  rule_type = codes "threshold";
  window_seconds = pos 0;
  device_type = [];
  device_id = codes "*";
  area_id = pos 0;
  event_type = codes "temperature";
  level = pos 3;
  spec = some (record {
    type = codes "threshold";
    logic = codes "AND";
    conditions = too_hot ∷ [];
    window_sec = pos 0;
    threshold = pos 0;
    match_ = none;
  });
}

hot_listed : list_enabled decode (hot_row ∷ []) ≡ hot_rule ∷ []
unfolding list_enabled parse_spec normalize check_spec check_logic check_conditions check_match
    rule_type_of with_declared_type resolve_alias to_upper trim_space to_lower to_operator
hot_listed = refl

abbrev hot_draft : Draft
unfolding new_draft
hot_draft = new_draft hot_rule event_example 0

hot_evaluated :
    (evaluate_rules go_example redis_example true (hot_rule ∷ []) event_example (codes "m1") []).1
    ≡ ok (hot_draft ∷ [])
unfolding evaluate_rules evaluate_rule evaluate_spec match_conditions evaluate_condition to_operator
    resolve_field compare trim_space to_lower split to_float get_entry applies_to new_draft
hot_evaluated = refl

evaluate_rules-Raised_example : All (Raised event_example (hot_rule ∷ [])) (hot_draft ∷ [])
evaluate_rules-Raised_example =
    evaluate_rules-Raised event_example go_example redis_example true (codes "m1") (hot_rule ∷ [])
      [] (hot_draft ∷ []) hot_evaluated

list_enabled-IsSound_example :
    All
      (λ r.
        IsSound go_example redis_example true event_example
          (codes "m1")
          r
          (evaluate_rule go_example redis_example true r event_example (codes "m1") []))
      (list_enabled decode (hot_row ∷ []))
list_enabled-IsSound_example =
    list_enabled-IsSound go_example redis_example true event_example (codes "m1") decode
      (hot_row ∷ []) []

-- The first of two hits that are needed in five minutes
first_hit : add redis_example (codes "w") (codes "m1") 300 2 360 [] ≡ (
  record {
    key = codes "w";
    members = record { name = codes "m1"; score = 90000 } ∷ [];
    expires_at = 450000;
  }
      ∷ [],
  some (false, 0),
)
unfolding add window_lua members_at counted zadd delete
first_hit = refl

add-again_example :
    (add redis_example (codes "w") (codes "m1") 60 2 120 (
      record {
        key = codes "w";
        members = record { name = codes "m1"; score = 90000 } ∷ [];
        expires_at = 450000;
      }
      ∷ [])).1
    ≡ some (false, 0)
add-again_example =
    add-again (codes "w") (codes "m1") 2 redis_example redis_example 300 360 [] first_hit refl 60
      120

abbrev service_example : Service
service_example = record {
  has_db = true;
  db = record { rules = hot_row ∷ []; next_id = 8 };
  engine = some (new_engine true true 30);
}

abbrev request_example : CreateRuleReq
request_example = record {
  name = codes "hotter";
  device_type = [];
  device_id = [];
  area_id = pos 0;
  event_type = codes "temperature";
  rule_type = codes "threshold";
  conditions = codes "{}";
  window_seconds = pos 0;
  level = pos 4;
  status = pos 1;
}

-- The engine reads the table, a rule is created, and the engine asks again within its lifetime.
abbrev calls_example : List Call
calls_example =
    rules_call 100 false 101
    ∷ create_call (record { write_fails = false; read_fails = false; now = 105 }) (pos 3)
        request_example
    ∷ rules_call 110 false 111
    ∷ []

replies-AllImplement_example :
    AllImplement
      (replies decode calls_example service_example)
      (table_replies decode calls_example (without_cache service_example))
replies-AllImplement_example =
    replies-AllImplement decode calls_example service_example (record { fresh = (refl, λ h. cc) })

-- A row declared as a time window over conditions whose JSON says otherwise: the operator of its
-- match was never checked, and every event that the rule applies to fails.
abbrev bad_match : NormalizedSpec
bad_match = record {
  type = time_window;
  logic = and_logic;
  conditions = [];
  window_sec = pos 60;
  threshold = pos 3;
  match_ =
      some (record { field = codes "event_type"; op = codes "is"; operator = []; value = null });
}

unchecked_match :
    evaluate_rules go_example redis_example true
      (record hot_rule { spec = some bad_match } ∷ [])
      event_example
      (codes "m1")
      []
    ≡ ([], err (match_not_evaluated (pos 7) unknown_operator))
unfolding evaluate_rules evaluate_rule evaluate_spec evaluate_condition to_operator trim_space
    to_lower applies_to
unchecked_match = refl

parsed_match :
    (s : Spec)
    → s ≡ record hot_spec {
      type = codes "threshold";
      conditions = [];
      match_ = bad_match.match_;
      window_sec = pos 60;
      threshold = pos 3;
    }
    → (spec : NormalizedSpec) × (normalize s ≡ ok spec)
      × (with_declared_type spec (codes "time_window") ≡ bad_match)
unfolding normalize check_spec check_logic check_conditions check_match rule_type_of
    with_declared_type resolve_alias to_upper trim_space to_lower
parsed_match s e = rw e (record bad_match { type = codes "threshold" }, refl, refl)
