-- ===== src/Billing.antt =====
-- The prices of energy: app/billing-service/internal/calc/price.go. Usage, prices and amounts are
-- float64 in the source; here they are of any type F with the operations of float64, so that every
-- sum and product is rounded where the source rounds it.
pub mod Tiers
pub mod Clock
pub mod Tests
use onepark_smart_park.Prelude.{
  ℕ, suc, ◌+◌, ◌*◌, ◌%◌, Bool, true, false, ◌&&◌, ◌||◌, Option, none, some, List, [], ◌∷◌, map,
  Text, text_eq, ltb, leb, ◌==◌, if◌then◌else◌,
}
use onepark_smart_park.Prelude.Int.{ℤ, pos, negsuc}

-- float64: its constants 0 and 100, its operations and `<=`, and `math.Min` and `math.Round`
pub record Float (F : Type 0) : Type 0 where
  pub zero : F
  pub hundred : F
  pub add : F → F → F
  pub sub : F → F → F
  pub mul : F → F → F
  pub div : F → F → F
  pub min : F → F → F
  pub le : F → F → Bool
  pub round : F → F

pub record Tier (F : Type 0) : Type 0 where
  pub up_to : Option F
  pub price : F

pub record HourUsage (F : Type 0) : Type 0 where
  pub hour : ℤ
  pub usage : F

pub record Period (F : Type 0) : Type 0 where
  pub name : Text
  pub from : Text
  pub to : Text
  pub price : F

-- What `tierName` prints: the number of the tier, where it starts and where it ends
pub data Name (F : Type 0) : Type 0 where
  of_tier : (index : ℕ) → (lower : F) → Option F → Name F
  of_period : Text → Name F

pub record DetailItem (F : Type 0) : Type 0 where
  pub name : Name F
  pub usage : F
  pub price : F
  pub amount : F

pub record Bucket (F : Type 0) : Type 0 where
  pub name : Text
  pub usage : F
  pub price : F
  pub amount : F

-- `int(s[i]-'0')`, a byte that wraps
abbrev pub byte_digit : ℕ → ℕ
byte_digit c = (c + 208) % 256

-- `parseClock`: the hour; what stands between and after the digits is not looked at.
unfoldable pub parse_clock : Text → Option ℕ
parse_clock (a ∷ b ∷ sep ∷ c ∷ d ∷ rest) =
    let h = byte_digit a * 10 + byte_digit b in
    let m = byte_digit c * 10 + byte_digit d in if ltb 23 h || ltb 59 m then none else some h
parse_clock _ = none

abbrev pub in_hours : ℕ → Option ℕ → Option ℕ → Bool
in_hours hour none to = false
in_hours hour (some from) none = false
in_hours hour (some from) (some to) =
    if from == to
    then false
    else if ltb from to
    then leb from hour && ltb hour to
    else leb from hour || ltb hour to

-- `inPeriod`
unfoldable pub in_period : {F : Type 0} → ℕ → Period F → Bool
unfolding parse_clock
in_period hour p = in_hours hour (parse_clock p.from) (parse_clock p.to)

-- 平, the name of the hours in no period
abbrev pub flat_name : Text
flat_name = 229 ∷ 185 ∷ 179 ∷ []

abbrev pub hour_of : ℤ → Option ℕ
hour_of (pos h) = if ltb 23 h then none else some h
hour_of (negsuc n) = none

module _ {F : Type 0} (fl : Float F) where
  -- `round2`
  abbrev pub round2 : F → F
  round2 v = fl.div (fl.round (fl.mul v fl.hundred)) fl.hundred

  -- `CalcFlat`
  unfoldable pub calc_flat : F → F → F
  calc_flat usage price =
      if fl.le usage fl.zero || fl.le price fl.zero then fl.zero else round2 (fl.mul usage price)

  abbrev pub item_of : ℕ → F → Option F → F → F → DetailItem F
  item_of index lower up_to take price = record {
    name = of_tier index lower up_to;
    usage = round2 take;
    price = price;
    amount = round2 (fl.mul take price);
  }

  -- One tier, with `left` still to deal with; `rest` is the loop from a start and a usage dealt with.
  abbrev pub bill_tier :
      ℕ → F → F → F → F → Option F → (F → F → List (DetailItem F)) → List (DetailItem F)
  bill_tier index lower used left price none rest =
      if fl.le left fl.zero
      then rest lower used
      else item_of index lower none left price ∷ rest lower (fl.add used left)
  bill_tier index lower used left price (some up) rest =
      let take = fl.min left (fl.sub up lower) in
      if fl.le (fl.sub up lower) fl.zero
      then rest lower used
      else if fl.le take fl.zero
      then rest lower used
      else item_of index lower (some up) take price ∷ rest up (fl.add used take)

  -- The loop of `CalcTiered`: the tier's number, where it starts and how much is dealt with
  unfoldable pub tiered : F → ℕ → F → F → List (Tier F) → List (DetailItem F)
  tiered usage index lower used [] = []
  tiered usage index lower used (t ∷ ts) =
      if fl.le usage used
      then []
      else bill_tier index lower used (fl.sub usage used) t.price t.up_to
          λ lower' used'. tiered usage (suc index) lower' used' ts

  -- `total += amount`
  abbrev pub total_from : F → List (DetailItem F) → F
  total_from total [] = total
  total_from total (d ∷ ds) = total_from (fl.add total d.amount) ds

  -- `CalcTiered`
  unfoldable pub calc_tiered : F → List (Tier F) → F × List (DetailItem F)
  calc_tiered usage [] = (fl.zero, [])
  calc_tiered usage (t ∷ ts) = if fl.le usage fl.zero then (fl.zero, []) else (
    round2 (total_from fl.zero (tiered usage 0 fl.zero fl.zero (t ∷ ts))),
    tiered usage 0 fl.zero fl.zero (t ∷ ts),
  )

  -- `nameOf` and `priceOf` at an hour: those of the first period that has it
  unfoldable pub tariff : F → ℕ → List (Period F) → Text × F
  tariff base hour [] = (flat_name, base)
  tariff base hour (p ∷ ps) = if in_period hour p then (p.name, p.price) else tariff base hour ps

  -- The bucket of that name takes the usage; a new one gets the price at hand.
  unfoldable pub add_usage : Text → F → F → List (Bucket F) → List (Bucket F)
  add_usage name price usage [] =
      record {
        name = name;
        usage = fl.add fl.zero usage;
        price = price;
        amount = fl.add fl.zero (round2 (fl.mul usage price));
      }
      ∷ []
  add_usage name price usage (b ∷ bs) =
      if text_eq b.name name
      then record b {
        usage = fl.add b.usage usage;
        amount = fl.add b.amount (round2 (fl.mul usage price));
      }
        ∷ bs
      else b ∷ add_usage name price usage bs

  abbrev pub charge : F → List (Period F) → F → Option ℕ → F × List (Bucket F) → F × List (Bucket F)
  charge base periods usage none (total, bs) = (total, bs)
  charge base periods usage (some h) (total, bs) = if fl.le usage fl.zero then (total, bs) else (
    fl.add total (round2 (fl.mul usage (tariff base h periods).1)),
    add_usage (tariff base h periods).0 (tariff base h periods).1 usage bs,
  )

  -- The loop of `CalcTou` over the hours
  unfoldable pub charge_hours :
      F → List (Period F) → List (HourUsage F) → F × List (Bucket F) → F × List (Bucket F)
  charge_hours base periods [] acc = acc
  charge_hours base periods (u ∷ us) acc =
      charge_hours base periods us (charge base periods u.usage (hour_of u.hour) acc)

  abbrev pub period_item : Bucket F → DetailItem F
  period_item b = record {
    name = of_period b.name;
    usage = round2 b.usage;
    price = b.price;
    amount = round2 b.amount;
  }

  -- `CalcTou`
  unfoldable pub calc_tou : List (HourUsage F) → F → List (Period F) → F × List (DetailItem F)
  unfolding charge_hours
  calc_tou [] base periods = (fl.zero, [])
  calc_tou (u ∷ us) base periods =
      let (total, bs) = charge_hours base periods (u ∷ us) (fl.zero, []) in
      (round2 total, map period_item bs)
