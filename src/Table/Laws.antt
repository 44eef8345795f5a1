-- ===== src/Table/Laws.antt =====
-- Laws of the table operations.
use mathlib.Core.Path.{subst}
use onepark_smart_park.Prelude.{
  ◌≢◌, inl, inr, Bool-cases, ◌≡◌, refl, ap, Bool, true, false, some, List, [], ◌∷◌, All, arith,
}
use onepark_smart_park.Table.{first, update, affected}

module _ {ℓ} {R : Type ℓ} where
  pub first-holds : (p : R → Bool) (rs : List R) {r : R} → first p rs ≡ some r → p r ≡ true
  first-holds p [] h = cc
  first-holds p (x ∷ rs) {r = r} h = ground (arith, first-holds p rs {r = r})

  -- A row that a query finds has what all rows have.
  pub first-All {κ} :
      (P : R → Type κ) (p : R → Bool) (rs : List R) {r : R} → All P rs → first p rs ≡ some r → P r
  first-All P p [] h e = cc
  first-All P p (x ∷ rs) {r = r} h e = ground (arith, first-All P p rs {r = r})

  -- An update that affects no row changes no row.
  pub update-unaffected :
      (p : R → Bool) (set : R → R) (rs : List R) → affected p rs ≡ 0 → update p set rs ≡ rs
  update-unaffected p set [] h = refl
  update-unaffected p set (x ∷ rs) h = ground (arith, update-unaffected p set rs)

  pub update-All {κ} :
      (P : R → Type κ) (p : R → Bool) (set : R → R) (rs : List R)
      → ((r : R) → P r → p r ≡ true → P (set r))
      → All P rs
      → All P (update p set rs)
  update-All P p set [] keep h = tt
  update-All P p set (x ∷ rs) keep h = (ground (arith, keep x), update-All P p set rs keep h.1)

  -- Once every selected row has left the selection, the same condition selects nothing.
  pub affected-update :
      (p : R → Bool) (set : R → R) (rs : List R)
      → ((r : R) → p r ≡ true → p (set r) ≡ false)
      → affected p (update p set rs) ≡ 0
  affected-update p set [] leave = refl
  affected-update p set (x ∷ rs) leave = ground (arith, leave x, affected-update p set rs leave)

  -- A row that a query finds and an update selects is there after the update, as written.
  pub first-update-All {κ} :
      (P : R → Type κ) (p q : R → Bool) (set : R → R) (rs : List R) (r : R)
      → first p rs ≡ some r
      → q r ≡ true
      → All P (update q set rs)
      → P (set r)
  first-update-All P p q set [] r h e all = cc
  first-update-All P p q set (x ∷ rs) r h e all = elim (Bool-cases (p x)) [
    | inl here ↦
        let same : x ≡ r = ground arith in
        let sel : q x ≡ true = ground arith in subst (λ y. P (set y)) same (rw sel at all.0)
    | inr later ↦ first-update-All P p q set rs r (ground arith) e all.1
  ]

  -- Where an update keeps the rows of a query in it, and out of it the others, the query finds the row
  -- as written.
  pub first-update-some :
      (p q : R → Bool) (set : R → R) (rs : List R) (r : R)
      → ((x : R) → p (set x) ≡ p x)
      → first p rs ≡ some r
      → q r ≡ true
      → first p (update q set rs) ≡ some (set r)
  first-update-some p q set [] r keep h e = cc
  first-update-some p q set (x ∷ rs) r keep h e = elim (Bool-cases (p x)) [
    | inl here ↦
        let same : x ≡ r = ground arith in
        let sel : q x ≡ true = rw same e in rw (sel, keep x, here) (ap (λ y. some (set y)) same)
    | inr later ↦ elim (Bool-cases (q x)) [
      | inl sel ↦ rw (sel, keep x, later) (first-update-some p q set rs r keep (rw later at h) e)
      | inr not_sel ↦ rw (not_sel, later) (first-update-some p q set rs r keep (rw later at h) e)
    ]
  ]

  -- The update of a selection that holds such a row affects a row.
  pub first-affected :
      (p q : R → Bool) (rs : List R) (r : R) → first p rs ≡ some r → q r ≡ true → affected q rs ≢ 0
  first-affected p q [] r h e = cc
  first-affected p q (x ∷ rs) r h e = ground (arith, first-affected p q rs r)

  -- A selection that the update has emptied, and that held no other row, affects nothing.
  pub affected-after_update :
      (p q : R → Bool) (set : R → R) (rs : List R)
      → ((r : R) → p r ≡ true → q (set r) ≡ false)
      → ((r : R) → p r ≡ false → q r ≡ false)
      → affected q (update p set rs) ≡ 0
  affected-after_update p q set [] left other = refl
  affected-after_update p q set (x ∷ rs) left other =
      ground (arith, left x, other x, affected-after_update p q set rs left other)
