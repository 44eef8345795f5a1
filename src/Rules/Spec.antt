-- ===== src/Rules/Spec.antt =====
-- A rule's conditions and their normalisation: `Spec`, `ParseSpec`, `IsValidRuleType` and
-- `WithDeclaredType` of internal/rule/rule.go. Decoding the JSON text is a parameter.
use onepark_smart_park.Prelude.{
  Bool, true, ◌&&◌, ◌||◌, not, Option, none, some, List, [], ◌∷◌, Text, codes, text_eq, is_empty,
  is_some, lookup, Result, ok, err, if◌then◌else◌, ◌>>=◌, ◌>>◌,
}
use onepark_smart_park.Prelude.Int.{ℤ, is_positive}
use onepark_smart_park.Strings.{trim_space, to_lower, to_upper}
use onepark_smart_park.Rules.Value.{Value}
use onepark_smart_park.Rules.Operator.{to_operator}

abbrev pub threshold : Text
threshold = codes "threshold"

abbrev pub combination : Text
combination = codes "combination"

abbrev pub time_window : Text
time_window = codes "time_window"

abbrev pub and_logic : Text
and_logic = codes "AND"

abbrev pub or_logic : Text
or_logic = codes "OR"

abbrev pub rule_type_alias : List (Text × Text)
rule_type_alias = (codes "composite", combination) ∷ (codes "window", time_window) ∷ []

pub record Condition : Type 0 where
  pub field : Text
  pub op : Text
  pub operator : Text
  pub value : Value

abbrev pub operator_of : Condition → Text
operator_of c = if not (is_empty c.op) then c.op else c.operator

pub record Spec : Type 0 where
  pub type : Text
  pub logic : Text
  pub conditions : List Condition
  pub field : Text
  pub op : Text
  pub operator : Text
  pub value : Value
  pub window_sec : ℤ
  pub threshold : ℤ
  pub match_ : Option Condition

abbrev pub spec_operator_of : Spec → Text
spec_operator_of s = if not (is_empty s.op) then s.op else s.operator

pub record NormalizedSpec : Type 0 where
  pub type : Text
  pub logic : Text
  pub conditions : List Condition
  pub window_sec : ℤ
  pub threshold : ℤ
  pub match_ : Option Condition

pub data SpecError : Type 0 where
  conditions_empty bad_json bad_logic missing_field bad_operator bad_match_operator : SpecError

-- The declared type, or the one that the fields suggest
abbrev pub inferred_type : Spec → Text → Text
inferred_type s declared =
    if not (is_empty declared)
    then declared
    else if is_positive s.threshold || (is_positive s.window_sec && is_some s.match_)
    then time_window
    else threshold

abbrev pub or_else : Text → Option Text → Text
or_else t none = t
or_else t (some u) = u

unfoldable pub resolve_alias : Text → Text
resolve_alias t = or_else t (lookup t rule_type_alias)

unfoldable pub rule_type_of : Spec → Text
unfolding resolve_alias to_lower trim_space
rule_type_of s = resolve_alias (inferred_type s (to_lower (trim_space s.type)))

abbrev pub flat_conditions : Spec → List Condition → List Condition
flat_conditions s [] =
    if is_empty s.field
    then []
    else record { field = s.field; op = spec_operator_of s; operator = []; value = s.value } ∷ []
flat_conditions s (c ∷ cs) = c ∷ cs

abbrev pub default_logic : Text → Text
default_logic l = if is_empty l then and_logic else l

-- The loop that checks each condition's field and operator
unfoldable pub check_conditions : List Condition → Result SpecError (Unit {0})
unfolding trim_space
check_conditions [] = ok tt
check_conditions (c ∷ cs) =
    if is_empty (trim_space c.field)
    then err missing_field
    else if is_some (to_operator (operator_of c))
    then check_conditions cs
    else err bad_operator

abbrev pub is_known_match : Option Condition → Bool
is_known_match none = true
is_known_match (some c) = is_some (to_operator (operator_of c))

unfoldable pub check_match : Text → Option Condition → Result SpecError (Unit {0})
check_match type m =
    if text_eq type time_window && not (is_known_match m) then err bad_match_operator else ok tt

unfoldable pub check_logic : Text → Result SpecError (Unit {0})
check_logic logic =
    if text_eq logic and_logic || text_eq logic or_logic then ok tt else err bad_logic

abbrev pub spec_of : Spec → NormalizedSpec
spec_of s = record {
  type = rule_type_of s;
  logic = default_logic (to_upper (trim_space s.logic));
  conditions = flat_conditions s s.conditions;
  window_sec = s.window_sec;
  threshold = s.threshold;
  match_ = s.match_;
}

unfoldable pub check_spec : NormalizedSpec → Result SpecError NormalizedSpec
check_spec spec =
    check_logic spec.logic
    >> check_conditions spec.conditions
    >> check_match spec.type spec.match_
    >> ok spec

-- `ParseSpec` after `json.Unmarshal`
unfoldable pub normalize : Spec → Result SpecError NormalizedSpec
normalize s = check_spec (spec_of s)

abbrev pub decoded : Option Spec → Result SpecError Spec
decoded none = err bad_json
decoded (some s) = ok s

-- `ParseSpec`
unfoldable pub parse_spec : (Text → Option Spec) → Text → Result SpecError NormalizedSpec
unfolding trim_space normalize
parse_spec unmarshal raw =
    if is_empty (trim_space raw)
    then err conditions_empty
    else decoded (unmarshal (trim_space raw)) >>= normalize

abbrev pub is_engine_type : Text → Bool
is_engine_type t = text_eq t threshold || (text_eq t combination || text_eq t time_window)

-- `IsValidRuleType`
unfoldable pub is_valid_rule_type : Text → Bool
unfolding to_lower trim_space
is_valid_rule_type t =
    let u = to_lower (trim_space t) in is_engine_type u || is_some (lookup u rule_type_alias)

-- `WithDeclaredType`
unfoldable pub with_declared_type : NormalizedSpec → Text → NormalizedSpec
unfolding resolve_alias to_lower trim_space
with_declared_type spec declared =
    let t = to_lower (trim_space declared) in
    if is_empty t
    then spec
    else if is_engine_type (resolve_alias t)
    then record spec { type = resolve_alias t }
    else spec
