-- ===== src/Rules/Engine/Tenants.antt =====
-- An alarm is raised only by a rule that is meant for the event.
use onepark_smart_park.Prelude.{
  ℕ, ◌+◌, ◌≡◌, refl, ap, Bool, true, false, ◌||◌, Option, none, some, List, [], ◌∷◌, Text, text_eq,
  is_empty, All, All-map, Result, ok, err, Bool-cases, both_branches, inl, inr, arith,
}
use onepark_smart_park.Prelude.Int.{is_zero, eq_ℤ}
use onepark_smart_park.Rules.Value.{Go}
use onepark_smart_park.Rules.Spec.{NormalizedSpec, threshold, combination, time_window}
use onepark_smart_park.Rules.Condition.{Fields, EvalError, match_conditions}
use onepark_smart_park.Rules.Window.{Window, Redis, add, window_key}
use onepark_smart_park.Rules.Engine.{
  Rule, Draft, RuleError, Verdict, Evaluation, applies_to, new_draft, matched, window_counted,
  window_of, threshold_of, count_event, count_if, pre_match, evaluate_spec, evaluate_some,
  evaluate_rule, evaluate_rules, then_rest, collect,
}

-- What the rule asks of the event, and what the alarm takes from both
pub record IsRaisedBy (f : Fields) (r : Rule) (d : Draft) : Type 0 where
  pub tenant_ok : (is_zero r.tenant_id || eq_ℤ r.tenant_id f.tenant_id) ≡ true
  pub event_ok : (is_empty r.event_type || text_eq r.event_type f.event_type) ≡ true
  pub area_ok : (is_zero r.area_id || eq_ℤ r.area_id f.area_id) ≡ true
  pub id_ok : d.rule_id ≡ r.id
  pub level_ok : d.level ≡ r.level
  pub device_ok : d.device_id ≡ f.device_id

pub data Raised (f : Fields) : List Rule → Draft → Type 0 where
  by_first : {r : Rule} {rs : List Rule} {d : Draft} → IsRaisedBy f r d → Raised f (r ∷ rs) d
  by_rest : {r : Rule} {rs : List Rule} {d : Draft} → Raised f rs d → Raised f (r ∷ rs) d

new_draft-IsRaisedBy :
    (r : Rule) (f : Fields) (hits : ℕ) → applies_to r f ≡ true → IsRaisedBy f r (new_draft r f hits)
unfolding applies_to new_draft
new_draft-IsRaisedBy r f hits h = record {
  tenant_ok = ground arith;
  event_ok = ground arith;
  area_ok = ground arith;
  id_ok = refl;
  level_ok = refl;
  device_ok = refl;
}

module _ (f : Fields) where
  record IsMeant (r : Rule) (v : Verdict) : Type 0 where
    meant : (d : Draft) → v.1 ≡ ok (some d) → IsRaisedBy f r d

  silent-IsMeant : (r : Rule) (ws : List Window) → IsMeant r (ws, ok none)
  silent-IsMeant r ws = record { meant = λ d h. absurd (ground arith) }

  failed-IsMeant : (r : Rule) (ws : List Window) (e : RuleError) → IsMeant r (ws, err e)
  failed-IsMeant r ws e = record { meant = λ d h. absurd (ground arith) }

  raised-IsMeant :
      (r : Rule) (ws : List Window) (hits : ℕ)
      → applies_to r f ≡ true
      → IsMeant r (ws, ok (some (new_draft r f hits)))
  raised-IsMeant r ws hits a = record {
    meant = λ d h.
        let same : new_draft r f hits ≡ d = ground arith in
        rw (← same) (new_draft-IsRaisedBy r f hits a);
  }

  matched-IsMeant :
      (r : Rule) (ws : List Window) (m : Result EvalError Bool)
      → applies_to r f ≡ true
      → IsMeant r (matched r f ws m)
  matched-IsMeant r ws (ok true) a = raised-IsMeant r ws 0 a
  matched-IsMeant r ws (ok false) a = silent-IsMeant r ws
  matched-IsMeant r ws (err e) a = failed-IsMeant r ws _

  window_counted-IsMeant :
      (r : Rule) (c : List Window × Option (Bool × ℕ))
      → applies_to r f ≡ true
      → IsMeant r (window_counted r f c)
  window_counted-IsMeant r (ws, none) a = failed-IsMeant r ws _
  window_counted-IsMeant r (ws, some (true, cnt)) a = raised-IsMeant r ws cnt a
  window_counted-IsMeant r (ws, some (false, cnt)) a = silent-IsMeant r ws

  module _ (go : Go) (redis : Redis) (has_windows : Bool) (member : Text) where
    count_event-IsMeant :
        (r : Rule) (spec : NormalizedSpec) (ws : List Window)
        → applies_to r f ≡ true
        → IsMeant r (count_event go redis r spec f member ws)
    unfolding count_event
    count_event-IsMeant r spec ws a =
        window_counted-IsMeant r
          (add redis (window_key go r.id f.device_id) member (window_of r spec) (threshold_of spec)
            (window_of r spec + 60) ws)
          a

    count_if-IsMeant :
        (r : Rule) (spec : NormalizedSpec) (ws : List Window) (m : Result EvalError Bool)
        → applies_to r f ≡ true
        → IsMeant r (count_if go redis r spec f member ws m)
    count_if-IsMeant r spec ws (err e) a = failed-IsMeant r ws _
    count_if-IsMeant r spec ws (ok true) a = count_event-IsMeant r spec ws a
    count_if-IsMeant r spec ws (ok false) a = silent-IsMeant r ws

    evaluate_some-IsMeant :
        (r : Rule) (spec : Option NormalizedSpec) (ws : List Window)
        → applies_to r f ≡ true
        → IsMeant r (evaluate_some go redis has_windows r f member ws spec)
    unfolding evaluate_spec
    evaluate_some-IsMeant r none ws a = silent-IsMeant r ws
    evaluate_some-IsMeant r (some spec) ws a =
        let quiet = silent-IsMeant r ws in
        both_branches (IsMeant r) (text_eq spec.type threshold || text_eq spec.type combination)
          (matched-IsMeant r ws (match_conditions go f spec) a)
          (both_branches (IsMeant r) (text_eq spec.type time_window)
            (both_branches (IsMeant r) has_windows
              (count_if-IsMeant r spec ws (pre_match go f spec.match_) a) quiet)
            quiet)

    evaluate_rule-IsMeant :
        (r : Rule) (ws : List Window) → IsMeant r (evaluate_rule go redis has_windows r f member ws)
    unfolding evaluate_rule
    evaluate_rule-IsMeant r ws = elim (Bool-cases (applies_to r f)) [
      | inl a ↦ rw a (evaluate_some-IsMeant r r.spec ws a)
      | inr other ↦ rw other (silent-IsMeant r ws)
    ]

    collect-Raised :
        (r : Rule) (rs : List Rule) (d : Option Draft) (e : Evaluation)
        → ((x : Draft) → d ≡ some x → IsRaisedBy f r x)
        → ((ds : List Draft) → e.1 ≡ ok ds → All (Raised f rs) ds)
        → (ds : List Draft) → (collect d e).1 ≡ ok ds
        → All (Raised f (r ∷ rs)) ds
    collect-Raised r rs d (ws, err e) m k ds h = absurd (ground arith)
    collect-Raised r rs none (ws, ok later) m k ds h =
        All-map (Raised f rs) (Raised f (r ∷ rs)) (λ x. by_rest) ds (k ds h)
    collect-Raised r rs (some x) (ws, ok later) m k ds h =
        let same : x ∷ later ≡ ds = ground arith in
        rw (← same) (
          by_first (m x refl),
          All-map (Raised f rs) (Raised f (r ∷ rs)) (λ x. by_rest) later (k later refl),
        )

    -- A round whose verdict is right, and a rest that is right at any windows
    then_rest-Raised :
        (r : Rule) (rs : List Rule) (v : Verdict) (rest : List Window → Evaluation)
        → IsMeant r v
        → ((ws : List Window) (ds : List Draft) → (rest ws).1 ≡ ok ds → All (Raised f rs) ds)
        → (ds : List Draft) → (then_rest v rest).1 ≡ ok ds
        → All (Raised f (r ∷ rs)) ds
    then_rest-Raised r rs (ws, err e) rest m k ds h = absurd (ground arith)
    then_rest-Raised r rs (ws, ok d) rest m k ds h =
        collect-Raised r rs d (rest ws) (λ x e. m.meant x (ap ok e)) (k ws) ds h

    -- Every alarm that an evaluation gives comes from one of the rules: a rule of the event's tenant or
    -- of none, for the event's type or for all, for its area or for all. It has that rule's id and
    -- level and names the event's device. That holds at any windows, and of any answers of Redis.
    pub evaluate_rules-Raised :
        (rules : List Rule) (ws : List Window) (ds : List Draft)
        → (evaluate_rules go redis has_windows rules f member ws).1 ≡ ok ds
        → All (Raised f rules) ds
    unfolding evaluate_rules
    evaluate_rules-Raised [] ws [] h = tt
    evaluate_rules-Raised [] ws (d ∷ ds) h = absurd (ground arith)
    evaluate_rules-Raised (r ∷ rs) ws ds h =
        then_rest-Raised r rs (evaluate_rule go redis has_windows r f member ws)
          (λ ws'. evaluate_rules go redis has_windows rs f member ws') (evaluate_rule-IsMeant r ws)
          (evaluate_rules-Raised rs) ds h
