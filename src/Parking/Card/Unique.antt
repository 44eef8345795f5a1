-- ===== src/Parking/Card/Unique.antt =====
-- At most one active card of a tenant for a plate.
use onepark_smart_park.Prelude.{
  ℕ, ◌<◌, ◌≡◌, ◌≢◌, refl, sym, ap, ◌∙◌, Bool, true, false, none, some, List, [], ◌∷◌, ◌++◌, All,
  All-map, All-append, text_eq→≡, text_eq_refl, is_empty, inl, inr, Bool-cases, Option-cases, arith,
  text_eq,
}
use onepark_smart_park.Table.{first, update, affected}
use onepark_smart_park.Table.Laws.{update-All}
use onepark_smart_park.Parking.Model.{MonthlyCard}
use onepark_smart_park.Parking.Card.{Cards, clashes, same_id}

-- Two rows have different ids, and the index tells them apart.
abbrev pub Apart : MonthlyCard → MonthlyCard → Type 0
Apart c d = (c.id ≢ d.id) × (clashes c d ≡ false)

abbrev pub Pairwise : List MonthlyCard → Type 0
Pairwise [] = Unit
Pairwise (c ∷ cs) = All (Apart c) cs × Pairwise cs

-- The rows are pairwise apart, and the next id is new.
pub record IsValid (t : Cards) : Type 0 where
  pub apart : Pairwise t.rows
  pub below : All (λ c. c.id < t.next_id) t.rows

clashes_sym : (c d : MonthlyCard) → clashes c d ≡ false → clashes d c ≡ false
unfolding clashes
clashes_sym c d h = elim (Bool-cases (text_eq d.plate_no c.plate_no)) [
  | inl e ↦
      let same = text_eq→≡ d.plate_no c.plate_no e in
      let back : text_eq c.plate_no d.plate_no ≡ true = rw same (text_eq_refl c.plate_no) in
      let empty : is_empty d.plate_no ≡ is_empty c.plate_no = ap is_empty same in ground arith
  | inr e ↦ ground arith
]

pub Pairwise-append_last :
    (cs : List MonthlyCard) (c : MonthlyCard)
    → Pairwise cs
    → All (λ d. Apart d c) cs
    → Pairwise (cs ++ c ∷ [])
Pairwise-append_last [] c p h = (tt, tt)
Pairwise-append_last (d ∷ cs) c p h =
    (All-append (Apart d) cs (c ∷ []) p.0 (h.0, tt), Pairwise-append_last cs c p.1 h.1)

pub affected-none :
    (p : MonthlyCard → Bool) (cs : List MonthlyCard) → affected p cs ≡ 0 → All (λ c. p c ≡ false) cs
affected-none p [] h = tt
affected-none p (c ∷ cs) h = (ground arith, affected-none p cs (ground arith))

pub new-Apart :
    (c : MonthlyCard) (cs : List MonthlyCard)
    → All (λ d. d.id < c.id) cs
    → All (λ d. clashes c d ≡ false) cs
    → All (λ d. Apart d c) cs
new-Apart c [] lt free = tt
new-Apart c (d ∷ cs) lt free =
    ((omega (arith, lt.0), clashes_sym c d free.0), new-Apart c cs lt.1 free.1)

-- The only row with an id is the first.
abbrev Is : ℕ → MonthlyCard → MonthlyCard → Type 0
Is id r c = (same_id id c ≡ true) → c ≡ r

first-Is :
    (id : ℕ) (cs : List MonthlyCard) {r : MonthlyCard}
    → Pairwise cs
    → first (same_id id) cs ≡ some r
    → All (Is id r) cs
first-Is id [] p e = tt
first-Is id (c ∷ cs) {r} p e = elim (Bool-cases (same_id id c)) [
  | inl here ↦
      let this : some c ≡ some r = rw here at e in
      ((λ _. ground arith), All-map (Apart c) (Is id r) (λ d apart h. ground arith) cs p.0)
  | inr later ↦ ((λ h. ground arith), first-Is id cs p.1 (rw later at e))
]

update-Apart :
    (id : ℕ) (set : MonthlyCard → MonthlyCard) (r x : MonthlyCard) (cs : List MonthlyCard)
    → ((c : MonthlyCard) → (set c).id ≡ c.id)
    → All (Is id r) cs
    → clashes (set r) x ≡ false
    → All (Apart x) cs
    → All (Apart x) (update (same_id id) set cs)
update-Apart id set r x [] keeps is free h = tt
update-Apart id set r x (c ∷ cs) keeps is free h = (
  elim (Bool-cases (same_id id c)) [
    | inl here ↦
        rw (here, is.0 here) (rw (← is.0 here) (rw (keeps c) h.0.0), clashes_sym (set r) x free)
    | inr other ↦ rw other h.0
  ],
  update-Apart id set r x cs keeps is.1 free h.1,
)

first-none :
    (id : ℕ) (cs : List MonthlyCard)
    → first (same_id id) cs ≡ none
    → All (λ c. same_id id c ≡ false) cs
first-none id [] e = tt
first-none id (c ∷ cs) e = elim (Bool-cases (same_id id c)) [
  | inl here ↦ let absent : some c ≡ none = rw here at e in cc
  | inr other ↦ (other, first-none id cs (rw other at e))
]

update-others :
    (id : ℕ) (set : MonthlyCard → MonthlyCard) (cs : List MonthlyCard)
    → All (λ c. same_id id c ≡ false) cs
    → update (same_id id) set cs ≡ cs
update-others id set [] h = refl
update-others id set (c ∷ cs) h = rw (h.0, update-others id set cs h.1) refl

changed-Apart :
    (id : ℕ) (set : MonthlyCard → MonthlyCard) (r : MonthlyCard) (cs : List MonthlyCard)
    → ((c : MonthlyCard) → (set c).id ≡ c.id)
    → same_id id r ≡ true
    → All (λ c. same_id id c ≡ false) cs
    → All (λ x. same_id id x ≡ false → clashes (set r) x ≡ false) cs
    → All (Apart (set r)) cs
changed-Apart id set r [] keeps own others free = tt
changed-Apart id set r (c ∷ cs) keeps own others free = (
  ((λ e. let k = sym (keeps r) ∙ e in ground arith), free.0 others.0),
  changed-Apart id set r cs keeps own others.1 free.1,
)

-- Changing the one row with an id keeps the rows apart if the changed row clashes with no other.
update-Pairwise :
    (id : ℕ) (set : MonthlyCard → MonthlyCard) (r : MonthlyCard) (cs : List MonthlyCard)
    → ((c : MonthlyCard) → (set c).id ≡ c.id)
    → Pairwise cs
    → All (Is id r) cs
    → All (λ x. same_id id x ≡ false → clashes (set r) x ≡ false) cs
    → Pairwise (update (same_id id) set cs)
update-Pairwise id set r [] keeps p is free = tt
update-Pairwise id set r (c ∷ cs) keeps p is free = elim (Bool-cases (same_id id c)) [
  | inl here ↦
      let others = All-map (Apart c) (λ d. same_id id d ≡ false) (λ d apart. ground arith) cs p.0 in
      rw (here, update-others id set cs others, is.0 here)
        (changed-Apart id set r cs keeps (ground arith) others free.1, p.1)
  | inr other ↦ rw other (
    update-Apart id set r c cs keeps is.1 (free.0 other) p.0,
    update-Pairwise id set r cs keeps p.1 is.1 free.1,
  )
]

update-below :
    (id bound : ℕ) (set : MonthlyCard → MonthlyCard) (cs : List MonthlyCard)
    → ((c : MonthlyCard) → (set c).id ≡ c.id)
    → All (λ c. c.id < bound) cs
    → All (λ c. c.id < bound) (update (same_id id) set cs)
update-below id bound set cs keeps h =
    update-All (λ c. c.id < bound) (same_id id) set cs (λ c lt e. rw (keeps c) lt) h

-- Updating the row with an id keeps the table valid if the changed row clashes with no other.
pub update-IsValid :
    (t : Cards) (id : ℕ) (set : MonthlyCard → MonthlyCard)
    → ((c : MonthlyCard) → (set c).id ≡ c.id)
    → ((r : MonthlyCard)
        → first (same_id id) t.rows ≡ some r
        → All (λ x. same_id id x ≡ false → clashes (set r) x ≡ false) t.rows)
    → IsValid t
    → IsValid (record t { rows = update (same_id id) set t.rows })
update-IsValid t id set keeps free v = record {
  apart = elim (Option-cases (first (same_id id) t.rows)) [
    | inl e ↦ rw (update-others id set t.rows (first-none id t.rows e)) v.apart
    | inr (r, e) ↦
        update-Pairwise id set r t.rows keeps v.apart (first-Is id t.rows v.apart e) (free r e)
  ];
  below = update-below id t.next_id set t.rows keeps v.below;
}
