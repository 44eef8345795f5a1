-- ===== src/Table.antt =====
-- A relational table as the services' GORM calls use it: the list of its rows in primary-key order.
-- A query of the source is its WHERE condition as a Boolean test and its SET clause as a function
-- on rows; `RowsAffected` is the number of rows that the condition selects (each SET clause of the
-- source changes the row, by `version+1` or by a new status).
pub mod Laws
use onepark_smart_park.Prelude.{
  ℕ, zero, suc, Bool, Option, none, some, List, [], ◌∷◌, if◌then◌else◌,
}

module _ {ℓ} {R : Type ℓ} where
  -- `Where(p).First(&row)`
  abbrev pub first : (R → Bool) → List R → Option R
  first p [] = none
  first p (r ∷ rs) = if p r then some r else first p rs

  -- `Where(p).Updates(set)`
  abbrev pub update : (R → Bool) → (R → R) → List R → List R
  update p set [] = []
  update p set (r ∷ rs) = (if p r then set r else r) ∷ update p set rs

  -- `RowsAffected` of that update, and `Where(p).Count(&n)`
  abbrev pub affected : (R → Bool) → List R → ℕ
  affected p [] = zero
  affected p (r ∷ rs) = let rest = affected p rs in if p r then suc rest else rest
