-- ===== src/Rules/Value.antt =====
-- Values of a decoded JSON document (`interface{}`), and what the rule engine takes from Go's
-- `strconv`, `fmt` and float64 arithmetic: internal/rule/rule.go.
use onepark_smart_park.Prelude.{ℕ, Bool, Option, none, some, Text, text_eq, is_empty, if◌then◌else◌}
use onepark_smart_park.Prelude.Int.{ℤ}
use onepark_smart_park.Strings.{trim_space}

-- A float64 is its bit pattern. The struct fields of an event are strings and int64s.
mutual
  pub data Value : Type 0 where
    null : Value
    boolean : Bool → Value
    float64 : ℕ → Value
    int64 : ℤ → Value
    text : Text → Value
    array : Items → Value
    object : Entries → Value

  pub data Items : Type 0 where
    nil : Items
    cons : Value → Items → Items

  pub data Entries : Type 0 where
    end : Entries
    entry : Text → Value → Entries → Entries

-- `m[seg]` of a `map[string]interface{}`
unfoldable pub get_entry : Text → Entries → Option Value
get_entry k end = none
get_entry k (entry j v m) = if text_eq j k then some v else get_entry k m

-- `strconv.ParseFloat`, the conversion and the comparisons of float64, and `fmt.Sprint`
pub record Go : Type 0 where
  pub parse_float : Text → Option ℕ
  pub float_of_int : ℤ → ℕ
  pub float_lt : ℕ → ℕ → Bool
  pub float_le : ℕ → ℕ → Bool
  pub float_eq : ℕ → ℕ → Bool
  pub sprint : Value → Text
  pub format_int : ℤ → Text

abbrev pub float_of_text : Go → Text → Option ℕ
float_of_text go s = if is_empty s then none else go.parse_float s

-- `toFloat`
unfoldable pub to_float : Go → Value → Option ℕ
unfolding trim_space
to_float go (float64 n) = some n
to_float go (int64 n) = some (go.float_of_int n)
to_float go (text s) = float_of_text go (trim_space s)
to_float go null = none
to_float go (boolean b) = none
to_float go (array vs) = none
to_float go (object es) = none

abbrev pub equal_by : Go → Value → Value → Option ℕ → Option ℕ → Bool
equal_by go actual expected (some a) (some e) = go.float_eq a e
equal_by go actual expected none e = text_eq (go.sprint actual) (go.sprint expected)
equal_by go actual expected (some a) none = text_eq (go.sprint actual) (go.sprint expected)

-- `equalValue`
unfoldable pub equal_value : Go → Value → Value → Bool
unfolding to_float
equal_value go actual expected =
    equal_by go actual expected (to_float go actual) (to_float go expected)
