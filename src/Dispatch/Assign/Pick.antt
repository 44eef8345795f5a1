-- ===== src/Dispatch/Assign/Pick.antt =====
-- What `Pick` and `Without` promise.
use onepark_smart_park.Prelude.{
  ℕ, ◌≤◌, ◌<◌, ◌≡◌, ◌≢◌, refl, ap, true, not, some, none, List, [], ◌∷◌, ◌++◌, Text, All, arith,
  inl, inr, Bool-cases, ltb, select, select-holds, select-All, All-map, All-middle,
}
use mathlib.Core.Path.{subst}
use mathlib.Core.Logic.{◌↔◌}
use onepark_smart_park.Prelude.Int.{ℤ, is_positive, eq_ℤ, eq_ℤ-refl}
use onepark_smart_park.Dispatch.Assign.{Candidate, explain, pick_from, pick, without}

module _ (zone skill : Text) where
  abbrev pub score_of : Candidate → ℕ
  score_of c = (explain zone skill c).score

  -- `r` is the first candidate of the list with the highest score.
  pub record IsFirstBest (cs : List Candidate) (r : Candidate) : Type 0 where
    pub before : List Candidate
    pub after : List Candidate
    pub place : cs ≡ before ++ r ∷ after
    pub before_lower : All (λ c. score_of c < score_of r) before
    pub after_le : All (λ c. score_of c ≤ score_of r) after

  pick_from-ge :
      (best : Candidate) (cs : List Candidate)
      → score_of best ≤ score_of (pick_from zone skill best cs)
  unfolding pick_from
  pick_from-ge best [] = omega arith
  pick_from-ge best (c ∷ cs) = ground (arith, pick_from-ge best cs, pick_from-ge c cs)

  -- A candidate that is not better than the best so far is passed over.
  extend :
      (best c r : Candidate) (cs pre post : List Candidate)
      → score_of c ≤ score_of best
      → (best ∷ cs) ≡ pre ++ r ∷ post
      → All (λ x. score_of x < score_of r) pre
      → All (λ x. score_of x ≤ score_of r) post
      → IsFirstBest (best ∷ c ∷ cs) r
  extend best c r cs [] post le e lower up = record {
    before = [];
    after = c ∷ cs;
    place = cc;
    before_lower = tt;
    after_le = (ground arith, subst (All (λ x. score_of x ≤ score_of r)) (cc) up);
  }
  extend best c r cs (x ∷ pre) post le e lower up = record {
    before = best ∷ c ∷ pre;
    after = post;
    place = cc;
    before_lower = (ground arith, (ground arith, lower.1));
    after_le = up;
  }

  pick_from-IsFirstBest :
      (best : Candidate) (cs : List Candidate)
      → IsFirstBest (best ∷ cs) (pick_from zone skill best cs)
  unfolding pick_from
  pick_from-IsFirstBest best [] = record {
    before = [];
    after = [];
    place = refl;
    before_lower = tt;
    after_le = tt;
  }
  pick_from-IsFirstBest best (c ∷ cs) = elim (Bool-cases (ltb (score_of best) (score_of c))) [
    | inl better ↦
        let h = pick_from-IsFirstBest c cs in
        let at_least = pick_from-ge c cs in
        rw better (record {
          before = best ∷ h.before;
          after = h.after;
          place = ap (λ t. best ∷ t) h.place;
          before_lower = (ground arith, h.before_lower);
          after_le = h.after_le;
        })
    | inr worse ↦
        let h = pick_from-IsFirstBest best cs in
        rw worse (
          extend best c (pick_from zone skill best cs) cs h.before h.after (ground arith) h.place
            h.before_lower h.after_le)
  ]

  -- From a pool that is not empty `Pick` takes the first candidate with the highest score, whether
  -- or not anybody has the skill; from an empty pool it takes nobody.
  pub pick_lem :
      (cs : List Candidate)
      → ((pick zone skill cs ≡ none) ↔ (cs ≡ []))
        × ((r : Candidate) → pick zone skill cs ≡ some r → IsFirstBest cs r)
  unfolding pick
  pick_lem [] = ((λ h. refl, λ h. refl), λ r h. cc)
  pick_lem (c ∷ cs) = (
    (λ h. cc, λ h. cc),
    λ r h. subst (IsFirstBest (c ∷ cs)) (ground arith) (pick_from-IsFirstBest c cs),
  )

  pub pick-All {ℓ} :
      (P : Candidate → Type ℓ) (cs : List Candidate) (r : Candidate)
      → All P cs
      → pick zone skill cs ≡ some r
      → P r
  pick-All P cs r all e =
      let h = (pick_lem cs).1 r e in All-middle P h.before r h.after (subst (All P) h.place all)

pub without-ne :
    (cs : List Candidate) (id : ℤ)
    → is_positive id ≡ true
    → All (λ c. c.assignee_id ≢ id) (without cs id)
unfolding without
without-ne cs id h = rw h (
    All-map (λ (c : Candidate). not (eq_ℤ c.assignee_id id) ≡ true) (λ c. c.assignee_id ≢ id)
      (λ c e same. not_self c.assignee_id id e same) (select _ cs)
      (select-holds (λ (c : Candidate). not (eq_ℤ c.assignee_id id)) cs))
  where
    not_self : (a b : ℤ) → not (eq_ℤ a b) ≡ true → a ≢ b
    not_self a b e same = ground (arith, eq_ℤ-refl b)

pub without-All {ℓ} :
    (P : Candidate → Type ℓ) (cs : List Candidate) (id : ℤ) → All P cs → All P (without cs id)
unfolding without
without-All P cs id all = elim (Bool-cases (is_positive id)) [
  | inl e ↦ rw e (select-All P (λ (c : Candidate). not (eq_ℤ c.assignee_id id)) cs all)
  | inr e ↦ rw e all
]
