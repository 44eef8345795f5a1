-- ===== src/Billing/Tiers.antt =====
-- The bill by tiers against the price of each tier's share of the usage.
use onepark_smart_park.Prelude.{
  ℕ, zero, suc, ◌+◌, ◌-◌, ◌≤◌, ◌<◌, ◌≡◌, refl, sym, ap, ◌∙◌, true, false, Option, none, some, List,
  [], ◌∷◌, map, ltb, leb, ◌==◌, leb→le, Bool-cases, inl, inr, arith, if◌then◌else◌,
}
use onepark_smart_park.Billing.{Float, Tier, round2, bill_tier, tiered, total_from, calc_tiered}

abbrev pub least : ℕ → ℕ → ℕ
least a b = if ltb b a then b else a

-- On the values of the numbers up to the limit the operations are exact, as those of float64 are on
-- whole numbers up to 2 ^ 53, and `round2` keeps 0.
pub record IsExact {F : Type 0} (fl : Float F) (value : ℕ → F) (limit : ℕ) : Type 0 where
  pub zero_value : value 0 ≡ fl.zero
  pub add_value : (a b : ℕ) → a + b ≤ limit → fl.add (value a) (value b) ≡ value (a + b)
  pub sub_value : (a b : ℕ) → b ≤ a → a ≤ limit → fl.sub (value a) (value b) ≡ value (a - b)
  pub le_value : (a b : ℕ) → a ≤ limit → b ≤ limit → fl.le (value a) (value b) ≡ leb a b
  pub min_value : (a b : ℕ) → a ≤ limit → b ≤ limit → fl.min (value a) (value b) ≡ value (least a b)
  pub round2_zero : round2 fl fl.zero ≡ fl.zero

-- A tier whose bound is such a number; its price is any float64.
pub record Band (F : Type 0) : Type 0 where
  pub up_to : Option ℕ
  pub price : F

-- How much of the usage lies between two bounds
abbrev pub share : ℕ → ℕ → Option ℕ → ℕ
share usage lower none = usage - lower
share usage lower (some up) = least usage up - least usage lower

abbrev pub next_bound : ℕ → Option ℕ → ℕ
next_bound lower none = lower
next_bound lower (some up) = up

abbrev pub IsLast : {F : Type 0} → List (Band F) → Type 0
IsLast [] = Unit
IsLast (t ∷ ts) = ⊥

abbrev pub Rises : ℕ → ℕ → Option ℕ → Type 0 → Type 0 → Type 0
Rises limit lower none last later = last
Rises limit lower (some up) last later = (lower < up) × ((up ≤ limit) × later)

-- The bounds increase up to the limit, and only the last tier may have none.
abbrev pub IsIncreasing : {F : Type 0} → ℕ → ℕ → List (Band F) → Type 0
IsIncreasing limit lower [] = Unit
IsIncreasing limit lower (t ∷ ts) =
    Rises limit lower t.up_to (IsLast ts) (IsIncreasing limit (next_bound lower t.up_to) ts)

module _ {F : Type 0} (fl : Float F) (value : ℕ → F) where
  abbrev pub bound_of : Option ℕ → Option F
  bound_of none = none
  bound_of (some up) = some (value up)

  abbrev pub tier_of : Band F → Tier F
  tier_of t = record { up_to = bound_of t.up_to; price = t.price }

  -- To a total the price of a tier's share of the usage, rounded to a cent, if it has one
  abbrev pub plus_share : F → ℕ → F → F
  plus_share total amount price =
      if amount == 0 then total else fl.add total (round2 fl (fl.mul (value amount) price))

  -- To a total the prices of every tier's share, one after the other
  abbrev pub shares_total : ℕ → F → ℕ → List (Band F) → F
  shares_total usage total lower [] = total
  shares_total usage total lower (t ∷ ts) =
      shares_total usage (plus_share total (share usage lower t.up_to) t.price)
        (next_bound lower t.up_to) ts

module _ {F : Type 0} (fl : Float F) (value : ℕ → F) (limit usage : ℕ)
    (exact : IsExact fl value limit) (small : usage ≤ limit) where
  abbrev bill : ℕ → F → F → List (Band F) → F → F
  bill index lower used ts total =
      total_from fl total (tiered fl (value usage) index lower used (map (tier_of fl value) ts))

  above_zero : (n : ℕ) → 0 < n → n ≤ limit → fl.le (value n) fl.zero ≡ false
  above_zero n many low =
      let above : fl.le (value n) (value 0) ≡ false =
        exact.le_value n 0 low (omega arith) ∙ ground arith in
      rw exact.zero_value at above

  share_none :
      (lower : ℕ) (o : Option ℕ) (last later : Type 0)
      → usage ≤ lower
      → Rises limit lower o last later
      → share usage lower o ≡ 0
  share_none lower none last later le k = omega arith
  share_none lower (some up) last later le k = let up_le = k.0 in ground arith

  last_total :
      (total : F) (lower : ℕ) (ts : List (Band F))
      → IsLast ts
      → shares_total fl value usage total lower ts ≡ total
  last_total total lower [] h = refl
  last_total total lower (t ∷ ts) h = absurd h

  later_none :
      (total : F) (lower : ℕ) (o : Option ℕ) (ts : List (Band F))
      → usage ≤ lower
      → ((up : ℕ)
          → usage ≤ up
          → IsIncreasing limit up ts
          → shares_total fl value usage total up ts ≡ total)
      → Rises limit lower o (IsLast ts) (IsIncreasing limit (next_bound lower o) ts)
      → shares_total fl value usage total (next_bound lower o) ts ≡ total
  later_none total lower none ts le rest k = last_total total lower ts k
  later_none total lower (some up) ts le rest k = let rises = k.0 in rest up (omega arith) k.1.1

  -- Past the usage no tier has a share.
  shares_total_none :
      (total : F) (lower : ℕ) (ts : List (Band F))
      → usage ≤ lower
      → IsIncreasing limit lower ts
      → shares_total fl value usage total lower ts ≡ total
  shares_total_none total lower [] le k = refl
  shares_total_none total lower (t ∷ ts) le k =
      let none_left =
        share_none lower t.up_to (IsLast ts) (IsIncreasing limit (next_bound lower t.up_to) ts) le
          k in
      rw none_left
        (later_none total lower t.up_to ts le (λ up le' k'. shares_total_none total up ts le' k') k)

  last_bill :
      (index : ℕ) (lower used total : F) (ts : List (Band F))
      → IsLast ts
      → bill index lower used ts total ≡ total
  unfolding tiered
  last_bill index lower used total [] h = refl
  last_bill index lower used total (t ∷ ts) h = absurd h

  -- One tier, where something is left for it
  bill_tier-share :
      (index lower : ℕ) (price total : F) (o : Option ℕ) (ts : List (Band F))
      → lower < usage
      → Rises limit lower o (IsLast ts) (IsIncreasing limit (next_bound lower o) ts)
      → ((total' : F) (up : ℕ)
          → up ≤ limit
          → IsIncreasing limit up ts
          → bill (suc index) (value up) (value (least usage up)) ts total'
            ≡ shares_total fl value usage total' up ts)
      → total_from fl total (
          bill_tier fl index
            (value lower)
            (value lower)
            (value (usage - lower))
            price
            (bound_of fl value o)
            λ lower' used'.
              tiered fl (value usage) (suc index) lower' used' (map (tier_of fl value) ts))
        ≡ shares_total fl value usage
            (plus_share fl value total (share usage lower o) price)
            (next_bound lower o)
            ts
  bill_tier-share index lower price total none ts more k rest =
      let left = above_zero (usage - lower) (omega arith) (omega arith) in
      let some_left : (usage - lower == 0) ≡ false = ground arith in
      rw (left, some_left)
        (last_bill (suc index) (value lower) (fl.add (value lower) (value (usage - lower))) _ ts k
          ∙ sym (last_total _ lower ts k))
  bill_tier-share index lower price total (some up) ts more k rest =
      let rises = k.0 in
      let bounded = k.1.0 in
      let room : fl.sub (value up) (value lower) ≡ value (up - lower) =
        exact.sub_value up lower (omega arith) bounded in
      let open_tier = above_zero (up - lower) (omega arith) (omega arith) in
      let take = least (usage - lower) (up - lower) in
      let least_taken : fl.min (value (usage - lower)) (value (up - lower)) ≡ value take =
        exact.min_value (usage - lower) (up - lower) (omega arith) (omega arith) in
      let taken = above_zero take (ground arith) (ground arith) in
      let whole : share usage lower (some up) ≡ take = ground arith in
      let some_taken : (take == 0) ≡ false = ground arith in
      let dealt : fl.add (value lower) (value take) ≡ value (least usage up) =
        exact.add_value lower take (ground arith) ∙ ap value (ground arith) in
      rw (room, open_tier, least_taken, taken, whole, some_taken, dealt) (rest _ up bounded k.1.1)

  bill-shares_total :
      (index lower : ℕ) (total : F) (ts : List (Band F))
      → lower ≤ limit
      → IsIncreasing limit lower ts
      → bill index (value lower) (value (least usage lower)) ts total
        ≡ shares_total fl value usage total lower ts
  unfolding tiered
  bill-shares_total index lower total [] low k = refl
  bill-shares_total index lower total (t ∷ ts) low k = elim (Bool-cases (leb usage lower)) [
    | inl done ↦
        let stops : fl.le (value usage) (value (least usage lower)) ≡ true =
          exact.le_value usage (least usage lower) small (ground arith) ∙ ground arith in
        rw stops (sym (shares_total_none total lower (t ∷ ts) (leb→le usage lower done) k))
    | inr more ↦
        let dealt : least usage lower ≡ lower = ground arith in
        let goes_on : fl.le (value usage) (value lower) ≡ false =
          exact.le_value usage lower small low ∙ more in
        let left : fl.sub (value usage) (value lower) ≡ value (usage - lower) =
          exact.sub_value usage lower (ground arith) small in
        rw (dealt, goes_on, left)
          (bill_tier-share index lower t.price total t.up_to ts (ground arith) k
            λ total' up bounded k'. bill-shares_total (suc index) up total' ts bounded k')
  ]

-- Where the operations are exact on the usage and the bounds, the bounds increase and only the last
-- tier may have none, a bill by tiers is, rounded to a cent, the sum over the tiers, one after the
-- other, of the price, rounded to a cent, of what part of the usage lies between the tier's bounds.
pub calc_tiered-shares_total :
    {F : Type 0} (fl : Float F) (value : ℕ → F) (limit usage : ℕ) (tiers : List (Band F))
    → IsExact fl value limit
    → usage ≤ limit
    → IsIncreasing limit 0 tiers
    → (calc_tiered fl (value usage) (map (tier_of fl value) tiers)).0
      ≡ round2 fl (shares_total fl value usage fl.zero 0 tiers)
unfolding calc_tiered
calc_tiered-shares_total fl value limit usage [] exact small k = sym exact.round2_zero
calc_tiered-shares_total fl value limit zero (t ∷ ts) exact small k =
    let at_zero : fl.le (value 0) (value 0) ≡ true =
      exact.le_value 0 0 (omega arith) (omega arith) ∙ ground arith in
    let nothing : fl.le (value 0) fl.zero ≡ true =
      ap (fl.le (value 0)) (sym exact.zero_value) ∙ at_zero in
    let none_shared =
      shares_total_none fl value limit 0 exact small fl.zero 0 (t ∷ ts) (omega arith) k in
    rw (nothing, none_shared) (sym exact.round2_zero)
calc_tiered-shares_total fl value limit (suc n) (t ∷ ts) exact small k =
    let something : fl.le (value (suc n)) fl.zero ≡ false =
      above_zero fl value limit (suc n) exact small (suc n) (omega arith) small in
    let whole =
      bill-shares_total fl value limit (suc n) exact small 0 0 fl.zero (t ∷ ts) (omega arith) k in
    let none_dealt : least (suc n) 0 ≡ 0 = ground arith in
    let whole' = rw (none_dealt, exact.zero_value) at whole in rw something (ap (round2 fl) whole')
