-- ===== src/Rules/Condition.antt =====
-- One condition on one event: `Fields.ResolveField`, `compare`, `EvaluateCondition` of
-- internal/rule/rule.go and `matchConditions` of engine.go.
pub mod Known
use onepark_smart_park.Prelude.{
  ℕ, Bool, true, false, ◌&&◌, ◌||◌, not, Option, none, some, List, [], ◌∷◌, map, Text, codes,
  text_eq, is_empty, Result, ok, err, if◌then◌else◌, ◌>>=◌,
}
use onepark_smart_park.Prelude.Int.{ℤ}
use onepark_smart_park.Strings.{trim_space, split, text_lt}
use onepark_smart_park.Rules.Value.{
  Value, text, int64, object, array, null, boolean, float64, Items, nil, cons, Entries, Go,
  get_entry, to_float, equal_value,
}
use onepark_smart_park.Rules.Operator.{
  Operator, gt, gte, lt, lte, eq, ne, is_in, between, to_operator,
}
use onepark_smart_park.Rules.Spec.{Condition, operator_of, NormalizedSpec, and_logic, or_logic}

pub record Fields : Type 0 where
  pub event_type : Text
  pub device_id : Text
  pub device_type : Text
  pub area_id : ℤ
  pub zone_id : Text
  pub tenant_id : ℤ
  pub payload : Entries

abbrev pub get_member : Value → Text → Option Value
get_member (object m) seg = get_entry seg m
get_member null seg = none
get_member (boolean b) seg = none
get_member (float64 n) seg = none
get_member (int64 n) seg = none
get_member (text s) seg = none
get_member (array vs) seg = none

-- The loop over the path's segments
unfoldable pub descend : Option Value → List Text → Option Value
descend none segs = none
descend (some cur) [] = some cur
descend (some cur) (seg ∷ segs) = descend (get_member cur seg) segs

abbrev pub resolve_path : Fields → List Text → Option Value
resolve_path f [] = none
resolve_path f (root ∷ segs) =
    if text_eq root (codes "payload") then descend (some (object f.payload)) segs else none

-- `ResolveField`
unfoldable pub resolve_field : Fields → Text → Option Value
unfolding trim_space split descend
resolve_field f raw =
    let path = trim_space raw in
    if is_empty path
    then none
    else if text_eq path (codes "event_type")
    then some (text f.event_type)
    else if text_eq path (codes "device_id")
    then some (text f.device_id)
    else if text_eq path (codes "device_type")
    then some (text f.device_type)
    else if text_eq path (codes "area_id")
    then some (int64 f.area_id)
    else if text_eq path (codes "zone_id")
    then some (text f.zone_id)
    else if text_eq path (codes "tenant_id")
    then some (int64 f.tenant_id)
    else resolve_path f (split 46 path)

pub data EvalError : Type 0 where
  unknown_operator between_shape bound_not_number in_shape : EvalError

abbrev pub is_member : Go → Value → Items → Bool
is_member go actual nil = false
is_member go actual (cons m ms) = equal_value go actual m || is_member go actual ms

abbrev pub items_of : List Text → Items
items_of [] = nil
items_of (s ∷ ss) = cons (text s) (items_of ss)

-- The members that an `in` names: an array, or a comma-separated text
unfoldable pub members_of : Value → Option Items
unfolding trim_space split
members_of (array vs) = some vs
members_of (text s) = some (items_of (map trim_space (split 44 s)))
members_of null = none
members_of (boolean b) = none
members_of (float64 n) = none
members_of (int64 n) = none
members_of (object m) = none

abbrev pub compare_in : Go → Value → Option Items → Result EvalError Bool
compare_in go actual none = err in_shape
compare_in go actual (some ms) = ok (is_member go actual ms)

abbrev pub within_bounds : Go → Option ℕ → Option ℕ → Option ℕ → Result EvalError Bool
within_bounds go none hi v = err bound_not_number
within_bounds go (some lo) none v = err bound_not_number
within_bounds go (some lo) (some hi) none = ok false
within_bounds go (some lo) (some hi) (some v) = ok (go.float_le lo v && go.float_le v hi)

-- `between`: an array of length two
unfoldable pub compare_between : Go → Value → Value → Result EvalError Bool
compare_between go actual (array (cons lo (cons hi nil))) =
    within_bounds go (to_float go lo) (to_float go hi) (to_float go actual)
compare_between go actual _ = err between_shape

abbrev pub compare_floats : Go → Operator → ℕ → ℕ → Bool
compare_floats go gt a e = go.float_lt e a
compare_floats go gte a e = go.float_le e a
compare_floats go lt a e = go.float_lt a e
compare_floats go lte a e = go.float_le a e
compare_floats go eq a e = go.float_eq a e
compare_floats go ne a e = not (go.float_eq a e)
compare_floats go is_in a e = false
compare_floats go between a e = false

abbrev pub compare_texts : Operator → Text → Text → Bool
compare_texts gt a e = text_lt e a
compare_texts gte a e = not (text_lt a e)
compare_texts lt a e = text_lt a e
compare_texts lte a e = not (text_lt e a)
compare_texts eq a e = text_eq a e
compare_texts ne a e = not (text_eq a e)
compare_texts is_in a e = false
compare_texts between a e = false

abbrev pub compare_by : Go → Operator → Value → Value → Option ℕ → Option ℕ → Bool
compare_by go o actual expected (some a) (some e) = compare_floats go o a e
compare_by go o actual expected none e = compare_texts o (go.sprint actual) (go.sprint expected)
compare_by go o actual expected (some a) none =
    compare_texts o (go.sprint actual) (go.sprint expected)

-- `compare`; its last two helpers are never called with `in` or `between`
unfoldable pub compare : Go → Operator → Value → Value → Result EvalError Bool
unfolding members_of compare_between to_float
compare go between actual expected = compare_between go actual expected
compare go is_in actual expected = compare_in go actual (members_of expected)
compare go o actual expected =
    ok (compare_by go o actual expected (to_float go actual) (to_float go expected))

abbrev pub compare_found : Go → Operator → Option Value → Value → Result EvalError Bool
compare_found go o none expected = ok false
compare_found go o (some actual) expected = compare go o actual expected

abbrev pub evaluate_with : Go → Fields → Condition → Option Operator → Result EvalError Bool
evaluate_with go f c none = err unknown_operator
evaluate_with go f c (some o) = compare_found go o (resolve_field f c.field) c.value

-- `EvaluateCondition`
unfoldable pub evaluate_condition : Go → Fields → Condition → Result EvalError Bool
evaluate_condition go f c = evaluate_with go f c (to_operator (operator_of c))

abbrev pub matched_by : Text → Bool → Result EvalError Bool → Result EvalError Bool
matched_by logic hit rest =
    if text_eq logic or_logic && hit
    then ok true
    else if text_eq logic and_logic && not hit
    then ok false
    else rest

-- The loop of `matchConditions`
unfoldable pub match_rest : Go → Fields → Text → List Condition → Result EvalError Bool
match_rest go f logic [] = ok (text_eq logic and_logic)
match_rest go f logic (c ∷ cs) =
    let rest = match_rest go f logic cs in
    evaluate_condition go f c >>= λ hit. matched_by logic hit rest

abbrev pub match_all : Go → Fields → Text → List Condition → Result EvalError Bool
match_all go f logic [] = ok true
match_all go f logic (c ∷ cs) = match_rest go f logic (c ∷ cs)

-- `matchConditions`
unfoldable pub match_conditions : Go → Fields → NormalizedSpec → Result EvalError Bool
unfolding match_rest
match_conditions go f spec = match_all go f spec.logic spec.conditions
