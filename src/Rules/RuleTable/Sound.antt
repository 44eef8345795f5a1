-- ===== src/Rules/RuleTable/Sound.antt =====
-- The operators of an enabled rule's conditions were checked when its JSON was parsed.
use onepark_smart_park.Prelude.{
  ℕ, ◌+◌, ◌≡◌, refl, ◌≢◌, Bool, ◌||◌, Option, none, some, List, [], ◌∷◌, Text, text_eq, is_empty,
  All, Result, ok, err, ◌>>=◌, ◌>>◌, Bool-cases, both_branches, inl, inr, arith,
}
use onepark_smart_park.Prelude.Int.{eq_ℤ}
use onepark_smart_park.Strings.{trim_space, to_lower}
use onepark_smart_park.Rules.Value.{Go}
use onepark_smart_park.Rules.Spec.{
  Spec, SpecError, NormalizedSpec, spec_of, check_spec, normalize, parse_spec, decoded,
  check_conditions, check_logic, check_match, with_declared_type, resolve_alias, is_engine_type,
  threshold, combination, time_window,
}
use onepark_smart_park.Rules.Condition.{Fields, EvalError, unknown_operator, match_conditions}
use onepark_smart_park.Rules.Window.{Redis, Window, add, window_key}
use onepark_smart_park.Rules.Engine.{
  Rule, not_evaluated, Verdict, matched, evaluate_rule, evaluate_spec, count_if, count_event,
  window_counted, pre_match, applies_to, window_of, threshold_of,
}
use onepark_smart_park.Rules.RuleTable.{
  AlarmRule, rule_with, with_parsed, list_enabled, rule_status_enabled,
}
use onepark_smart_park.Rules.Condition.Known.{
  HasOperator, check_conditions-HasOperator, match_conditions-Known,
}

-- Checks that all passed, and what they let through
passed :
    {t spec : NormalizedSpec} (a b c : Result SpecError (Unit {0}))
    → (a >> b >> c >> ok t) ≡ ok spec
    → (b ≡ ok tt) × (t ≡ spec)
passed (ok _) (ok _) (ok _) h = (refl, ground arith)
passed (ok _) (ok _) (err e) h = cc
passed (ok _) (err e) c h = cc
passed (err e) b c h = cc

check_spec-HasOperator :
    (t : NormalizedSpec) {spec : NormalizedSpec}
    → check_spec t ≡ ok spec
    → All HasOperator spec.conditions
unfolding check_spec
check_spec-HasOperator t h =
    let (checked, same) =
      passed (check_logic t.logic) (check_conditions t.conditions) (check_match t.type t.match_)
        h in
    rw (← same) (check_conditions-HasOperator t.conditions checked)

decoded-HasOperator :
    (d : Option Spec) {spec : NormalizedSpec}
    → (decoded d >>= normalize) ≡ ok spec
    → All HasOperator spec.conditions
unfolding normalize
decoded-HasOperator none h = cc
decoded-HasOperator (some s) h = check_spec-HasOperator (spec_of s) h

parse_spec-HasOperator :
    (unmarshal : Text → Option Spec) (raw : Text) {spec : NormalizedSpec}
    → parse_spec unmarshal raw ≡ ok spec
    → All HasOperator spec.conditions
unfolding parse_spec
parse_spec-HasOperator unmarshal raw h = elim (Bool-cases (is_empty (trim_space raw))) [
  | inl blank ↦ absurd (let h' = rw blank at h in cc)
  | inr given ↦ decoded-HasOperator (unmarshal (trim_space raw)) (rw given at h)
]

record IsKnown (spec : NormalizedSpec) : Type 0 where
  known : All HasOperator spec.conditions

with_declared_type-IsKnown :
    (spec : NormalizedSpec) (declared : Text)
    → IsKnown spec
    → IsKnown (with_declared_type spec declared)
unfolding with_declared_type
with_declared_type-IsKnown spec declared h =
    both_branches IsKnown (is_empty (to_lower (trim_space declared))) h (
      both_branches IsKnown (is_engine_type (resolve_alias (to_lower (trim_space declared))))
        (record { known = h.known }) h)

module _ (go : Go) (redis : Redis) (has_windows : Bool) (f : Fields) (member : Text) where
  -- The verdict is not that a condition's operator is unknown.
  pub record IsSound (r : Rule) (v : Verdict) : Type 0 where
    pub sound : v.1 ≢ err (not_evaluated r.id unknown_operator)

  quiet-IsSound : (r : Rule) (ws : List Window) → IsSound r (ws, ok none)
  quiet-IsSound r ws = record { sound = λ h. cc }

  matched-IsSound :
      (r : Rule) (ws : List Window) (m : Result EvalError Bool)
      → m ≢ err unknown_operator
      → IsSound r (matched r f ws m)
  matched-IsSound r ws (ok hit) n = record { sound = λ h. cc }
  matched-IsSound r ws (err e) n = record { sound = λ h. n (ground arith) }

  window_counted-IsSound :
      (r : Rule) (c : List Window × Option (Bool × ℕ)) → IsSound r (window_counted r f c)
  window_counted-IsSound r (ws, none) = record { sound = λ h. cc }
  window_counted-IsSound r (ws, some (triggered, cnt)) = record { sound = λ h. cc }

  count_event-IsSound :
      (r : Rule) (spec : NormalizedSpec) (ws : List Window)
      → IsSound r (count_event go redis r spec f member ws)
  unfolding count_event
  count_event-IsSound r spec ws = window_counted-IsSound r (
      add redis (window_key go r.id f.device_id) member (window_of r spec) (threshold_of spec)
        (window_of r spec + 60) ws)

  count_if-IsSound :
      (r : Rule) (spec : NormalizedSpec) (ws : List Window) (m : Result EvalError Bool)
      → IsSound r (count_if go redis r spec f member ws m)
  count_if-IsSound r spec ws (err e) = record { sound = λ h. cc }
  count_if-IsSound r spec ws (ok hit) =
      both_branches (IsSound r) hit (count_event-IsSound r spec ws) (quiet-IsSound r ws)

  evaluate_rule-IsSound :
      (r : Rule) (spec : NormalizedSpec) (ws : List Window)
      → r.spec ≡ some spec
      → IsKnown spec
      → IsSound r (evaluate_rule go redis has_windows r f member ws)
  unfolding evaluate_rule evaluate_spec
  evaluate_rule-IsSound r spec ws e k =
      let skipped = quiet-IsSound r ws in
      both_branches (IsSound r) (applies_to r f)
        (simp e (
          both_branches (IsSound r) (text_eq spec.type threshold || text_eq spec.type combination)
            (matched-IsSound r ws (match_conditions go f spec)
              (match_conditions-Known go f spec spec.conditions refl k.known))
            (both_branches (IsSound r) (text_eq spec.type time_window)
              (both_branches (IsSound r) has_windows
                (count_if-IsSound r spec ws (pre_match go f spec.match_)) skipped)
              skipped)))
        skipped

  with_parsed-IsSound :
      (r : AlarmRule) (rules : List Rule) (ws : List Window) (p : Result SpecError NormalizedSpec)
      → ((spec : NormalizedSpec) → p ≡ ok spec → All HasOperator spec.conditions)
      → All (λ r. IsSound r (evaluate_rule go redis has_windows r f member ws)) rules
      → All
          (λ r. IsSound r (evaluate_rule go redis has_windows r f member ws))
          (with_parsed r p rules)
  with_parsed-IsSound r rules ws (err e) k rest = rest
  with_parsed-IsSound r rules ws (ok spec) k rest = (
    evaluate_rule-IsSound (rule_with r spec) (with_declared_type spec r.rule_type) ws refl
        (with_declared_type-IsKnown spec r.rule_type (record { known = k spec refl })),
    rest,
  )

  -- Of an enabled rule that the table lists, whatever its type and its columns, the evaluation never
  -- fails with an unknown operator in one of its conditions: on any event, at any windows.
  pub list_enabled-IsSound :
      (unmarshal : Text → Option Spec) (rows : List AlarmRule) (ws : List Window)
      → All
          (λ r. IsSound r (evaluate_rule go redis has_windows r f member ws))
          (list_enabled unmarshal rows)
  unfolding list_enabled
  list_enabled-IsSound unmarshal [] ws = tt
  list_enabled-IsSound unmarshal (r ∷ rs) ws =
      elim (Bool-cases (eq_ℤ r.status rule_status_enabled)) [
        | inl on ↦ simp on (
            with_parsed-IsSound r (list_enabled unmarshal rs) ws (parse_spec unmarshal r.conditions)
              (λ spec. parse_spec-HasOperator unmarshal r.conditions)
              (list_enabled-IsSound unmarshal rs ws))
        | inr off ↦ simp off (list_enabled-IsSound unmarshal rs ws)
      ]
