-- ===== src/Rules/Engine.antt =====
-- Evaluating the rules on one event: `Rule`, `AppliesTo`, `newDraft` and `Engine.Evaluate` of
-- app/alarm-service/internal/rule/engine.go.
pub mod Tenants
use onepark_smart_park.Prelude.{
  ℕ, ◌+◌, Bool, true, false, ◌&&◌, ◌||◌, not, Option, none, some, List, [], ◌∷◌, Text, codes,
  text_eq, is_empty, Result, ok, err, if◌then◌else◌,
}
use onepark_smart_park.Prelude.Int.{ℤ, is_positive, pos_part, is_zero, eq_ℤ}
use onepark_smart_park.Rules.Value.{Go}
use onepark_smart_park.Rules.Spec.{Condition, NormalizedSpec, threshold, combination, time_window}
use onepark_smart_park.Rules.Condition.{Fields, EvalError, evaluate_condition, match_conditions}
use onepark_smart_park.Rules.Window.{Window, Redis, add, window_key}

pub record Rule : Type 0 where
  pub id : ℤ
  pub name : Text
  pub tenant_id : ℤ
  pub rule_type : Text
  pub window_seconds : ℤ
  pub device_type : Text
  pub device_id : Text
  pub area_id : ℤ
  pub event_type : Text
  pub level : ℤ
  pub spec : Option NormalizedSpec

-- The two formats of an alarm's content, with their arguments
pub data Content : Type 0 where
  reported : (rule device event : Text) → Content
  accumulated : (rule device : Text) → (hits : ℕ) → (event : Text) → Content

pub record Draft : Type 0 where
  pub rule_id : ℤ
  pub rule_name : Text
  pub level : ℤ
  pub content : Content
  pub event_type : Text
  pub device_id : Text
  pub area_id : ℤ
  pub window_hits : ℕ

pub data RuleError : Type 0 where
  not_evaluated : (rule : ℤ) → EvalError → RuleError
  match_not_evaluated : (rule : ℤ) → EvalError → RuleError
  window_not_counted : (rule : ℤ) → RuleError
  not_listed : RuleError

-- `AppliesTo`
unfoldable pub applies_to : Rule → Fields → Bool
applies_to r f =
    if not (is_zero r.tenant_id) && not (eq_ℤ r.tenant_id f.tenant_id)
    then false
    else if not (is_empty r.event_type) && not (text_eq r.event_type f.event_type)
    then false
    else if not (is_empty r.device_type)
        && (not (is_empty f.device_type) && not (text_eq r.device_type f.device_type))
    then false
    else if not (is_empty r.device_id)
        && (not (text_eq r.device_id (codes "*")) && not (text_eq r.device_id f.device_id))
    then false
    else if not (is_zero r.area_id) && not (eq_ℤ r.area_id f.area_id)
    then false
    else true

abbrev pub is_window_spec : Option NormalizedSpec → Bool
is_window_spec none = false
is_window_spec (some spec) = text_eq spec.type time_window

-- `newDraft`
unfoldable pub new_draft : Rule → Fields → ℕ → Draft
new_draft r f hits = record {
  rule_id = r.id;
  rule_name = r.name;
  level = r.level;
  content =
      if is_window_spec r.spec
      then accumulated r.name f.device_id hits f.event_type
      else reported r.name f.device_id f.event_type;
  event_type = f.event_type;
  device_id = f.device_id;
  area_id = f.area_id;
  window_hits = hits;
}

-- What one rule gives: the windows after it, and an alarm or none
abbrev pub Verdict : Type 0
Verdict = List Window × Result RuleError (Option Draft)

abbrev pub matched : Rule → Fields → List Window → Result EvalError Bool → Verdict
matched r f ws (err e) = (ws, err (not_evaluated r.id e))
matched r f ws (ok hit) = (ws, ok (if hit then some (new_draft r f 0) else none))

-- The window: the conditions' `window_sec`, else the column, else a minute
unfoldable pub window_of : Rule → NormalizedSpec → ℕ
window_of r spec =
    let sec = if is_positive spec.window_sec then spec.window_sec else r.window_seconds in
    if is_positive sec then pos_part sec else 60

unfoldable pub threshold_of : NormalizedSpec → ℕ
threshold_of spec = if is_positive spec.threshold then pos_part spec.threshold else 1

abbrev pub window_counted : Rule → Fields → List Window × Option (Bool × ℕ) → Verdict
window_counted r f (ws, none) = (ws, err (window_not_counted r.id))
window_counted r f (ws, some (triggered, cnt)) =
    (ws, ok (if triggered then some (new_draft r f cnt) else none))

unfoldable pub count_event :
    Go → Redis → Rule → NormalizedSpec → Fields → Text → List Window → Verdict
unfolding window_of threshold_of
count_event go redis r spec f member ws = window_counted r f (
    add redis (window_key go r.id f.device_id) member (window_of r spec) (threshold_of spec)
      (window_of r spec + 60) ws)

-- The window's own condition, where there is one
abbrev pub pre_match : Go → Fields → Option Condition → Result EvalError Bool
pre_match go f none = ok true
pre_match go f (some c) = evaluate_condition go f c

abbrev pub count_if :
    Go
    → Redis
    → Rule
    → NormalizedSpec
    → Fields
    → Text
    → List Window
    → Result EvalError Bool
    → Verdict
count_if go redis r spec f member ws (err e) = (ws, err (match_not_evaluated r.id e))
count_if go redis r spec f member ws (ok hit) =
    if hit then count_event go redis r spec f member ws else (ws, ok none)

-- The switch on the rule's type; `has_windows` is false where there is no window counter.
unfoldable pub evaluate_spec :
    Go → Redis → Bool → Rule → NormalizedSpec → Fields → Text → List Window → Verdict
unfolding count_event
evaluate_spec go redis has_windows r spec f member ws =
    if text_eq spec.type threshold || text_eq spec.type combination
    then matched r f ws (match_conditions go f spec)
    else if text_eq spec.type time_window
    then (if has_windows
        then count_if go redis r spec f member ws (pre_match go f spec.match_)
        else (ws, ok none))
    else (ws, ok none)

abbrev pub evaluate_some :
    Go → Redis → Bool → Rule → Fields → Text → List Window → Option NormalizedSpec → Verdict
evaluate_some go redis has_windows r f member ws none = (ws, ok none)
evaluate_some go redis has_windows r f member ws (some spec) =
    evaluate_spec go redis has_windows r spec f member ws

-- One round of the loop of `Evaluate`
unfoldable pub evaluate_rule : Go → Redis → Bool → Rule → Fields → Text → List Window → Verdict
evaluate_rule go redis has_windows r f member ws =
    if applies_to r f
    then evaluate_some go redis has_windows r f member ws r.spec
    else (ws, ok none)

abbrev pub Evaluation : Type 0
Evaluation = List Window × Result RuleError (List Draft)

abbrev pub with_draft : Option Draft → List Draft → List Draft
with_draft none ds = ds
with_draft (some d) ds = d ∷ ds

abbrev pub collect : Option Draft → Evaluation → Evaluation
collect d (ws, err e) = (ws, err e)
collect d (ws, ok ds) = (ws, ok (with_draft d ds))

-- An error ends the loop.
abbrev pub then_rest : Verdict → (List Window → Evaluation) → Evaluation
then_rest (ws, err e) rest = (ws, err e)
then_rest (ws, ok d) rest = collect d (rest ws)

-- The loop of `Evaluate` over the rules of the snapshot
unfoldable pub evaluate_rules :
    Go → Redis → Bool → List Rule → Fields → Text → List Window → Evaluation
evaluate_rules go redis has_windows [] f member ws = (ws, ok [])
evaluate_rules go redis has_windows (r ∷ rs) f member ws =
    then_rest (evaluate_rule go redis has_windows r f member ws)
      λ ws'. evaluate_rules go redis has_windows rs f member ws'
