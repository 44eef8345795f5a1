-- ===== src/Rules/Condition/Known.antt =====
-- A condition whose operator is known never fails for want of one: internal/rule/rule.go.
use onepark_smart_park.Prelude.{
  ℕ, ◌≡◌, ◌≢◌, Bool, true, Option, none, some, List, [], ◌∷◌, Text, is_empty, is_some, All, Result,
  ok, err, ◌>>=◌, Bool-cases, Option-cases, inl, inr, arith,
}
use onepark_smart_park.Strings.{trim_space}
use onepark_smart_park.Rules.Value.{Value, Go, array, Items, nil, cons, to_float}
use onepark_smart_park.Rules.Operator.{Operator, is_in, between, to_operator}
use onepark_smart_park.Rules.Spec.{Condition, operator_of, NormalizedSpec, check_conditions}
use onepark_smart_park.Rules.Condition.{
  Fields, EvalError, unknown_operator, compare, compare_found, compare_between, compare_in,
  members_of, resolve_field, evaluate_condition, match_rest, match_conditions, within_bounds,
  matched_by,
}

-- A condition that names an operator
abbrev pub HasOperator : Condition → Type 0
HasOperator c = (o : Operator) × (to_operator (operator_of c) ≡ some o)

has_operator : (c : Condition) → is_some (to_operator (operator_of c)) ≡ true → HasOperator c
has_operator c h = elim (Option-cases (to_operator (operator_of c))) [
  | inl e ↦ absurd (let h' = rw e at h in ground arith)
  | inr (o, e) ↦ (o, e)
]

pub check_conditions-HasOperator :
    (cs : List Condition) → check_conditions cs ≡ ok tt → All HasOperator cs
unfolding check_conditions
check_conditions-HasOperator [] h = tt
check_conditions-HasOperator (c ∷ cs) h = elim (Bool-cases (is_empty (trim_space c.field))) [
  | inl blank ↦ absurd (let h' = rw blank at h in cc)
  | inr named ↦ elim (Bool-cases (is_some (to_operator (operator_of c)))) [
    | inl known ↦ (has_operator c known, check_conditions-HasOperator cs (rw (named, known) at h))
    | inr unknown ↦ absurd (let h' = rw (named, unknown) at h in cc)
  ]
]

module _ (go : Go) where
  within_bounds-Known : (lo hi v : Option ℕ) → within_bounds go lo hi v ≢ err unknown_operator
  within_bounds-Known none hi v h = cc
  within_bounds-Known (some lo) none v h = cc
  within_bounds-Known (some lo) (some hi) none h = cc
  within_bounds-Known (some lo) (some hi) (some v) h = cc

  compare_between-Known :
      (actual expected : Value) → compare_between go actual expected ≢ err unknown_operator
  unfolding compare_between
  compare_between-Known actual (array (cons lo (cons hi nil))) h =
      within_bounds-Known (to_float go lo) (to_float go hi) (to_float go actual) h
  compare_between-Known actual _ h = cc

  compare_in-Known :
      (actual : Value) (ms : Option Items) → compare_in go actual ms ≢ err unknown_operator
  compare_in-Known actual none h = cc
  compare_in-Known actual (some ms) h = cc

  compare-Known :
      (o : Operator) (actual expected : Value) → compare go o actual expected ≢ err unknown_operator
  unfolding compare
  compare-Known between actual expected h = compare_between-Known actual expected h
  compare-Known is_in actual expected h = compare_in-Known actual (members_of expected) h
  compare-Known _ actual expected h = cc

  compare_found-Known :
      (o : Operator) (actual : Option Value) (expected : Value)
      → compare_found go o actual expected ≢ err unknown_operator
  compare_found-Known o none expected h = cc
  compare_found-Known o (some actual) expected h = compare-Known o actual expected h

  evaluate_condition-Known :
      (f : Fields) (c : Condition)
      → HasOperator c
      → evaluate_condition go f c ≢ err unknown_operator
  unfolding evaluate_condition
  evaluate_condition-Known f c (o, e) h =
      compare_found-Known o (resolve_field f c.field) c.value (rw e at h)

  matched_by-Known :
      (logic : Text) (rest : Result EvalError Bool) (now : Result EvalError Bool)
      → rest ≢ err unknown_operator
      → now ≢ err unknown_operator
      → (now >>= λ hit. matched_by logic hit rest) ≢ err unknown_operator
  matched_by-Known logic rest (err e) r n h = n h
  matched_by-Known logic rest (ok hit) r n h = ground (arith, r)

  match_rest-Known :
      (f : Fields) (logic : Text) (cs : List Condition)
      → All HasOperator cs
      → match_rest go f logic cs ≢ err unknown_operator
  unfolding match_rest
  match_rest-Known f logic [] known h = cc
  match_rest-Known f logic (c ∷ cs) known h =
      matched_by-Known logic (match_rest go f logic cs) (evaluate_condition go f c)
        (match_rest-Known f logic cs known.1) (evaluate_condition-Known f c known.0) h

  pub match_conditions-Known :
      (f : Fields) (spec : NormalizedSpec) (cs : List Condition)
      → spec.conditions ≡ cs
      → All HasOperator cs
      → match_conditions go f spec ≢ err unknown_operator
  unfolding match_conditions
  match_conditions-Known f spec [] e known h = let h' = rw e at h in cc
  match_conditions-Known f spec (c ∷ cs) e known h =
      match_rest-Known f spec.logic (c ∷ cs) known (rw e at h)
