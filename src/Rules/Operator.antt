-- ===== src/Rules/Operator.antt =====
-- The comparison operators: `operator`, `opAlias` and `toOperator` of internal/rule/rule.go.
use onepark_smart_park.Prelude.{Option, none, some, List, [], ◌∷◌, Text, codes, lookup}
use onepark_smart_park.Strings.{trim_space, to_lower}

pub data Operator : Type 0 where
  gt gte lt lte eq ne is_in between : Operator

abbrev pub op_alias : List (Text × Operator)
op_alias =
    (codes ">", gt)
    ∷ (codes ">=", gte)
    ∷ (codes "<", lt)
    ∷ (codes "<=", lte)
    ∷ (codes "=", eq)
    ∷ (codes "==", eq)
    ∷ (codes "!=", ne)
    ∷ (codes "<>", ne)
    ∷ []

abbrev pub operators : List (Text × Operator)
operators =
    (codes "gt", gt)
    ∷ (codes "gte", gte)
    ∷ (codes "lt", lt)
    ∷ (codes "lte", lte)
    ∷ (codes "eq", eq)
    ∷ (codes "ne", ne)
    ∷ (codes "in", is_in)
    ∷ (codes "between", between)
    ∷ []

abbrev pub or_named : Text → Option Operator → Option Operator
or_named normalized (some o) = some o
or_named normalized none = lookup normalized operators

-- `toOperator`: a symbol as it stands, or a name in any case and with spaces round it
unfoldable pub to_operator : Text → Option Operator
unfolding to_lower trim_space
to_operator raw = or_named (to_lower (trim_space raw)) (lookup raw op_alias)
