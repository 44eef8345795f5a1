-- ===== src/Strings.antt =====
-- Go's `strings` as the services use it, on byte strings: `TrimSpace`, `ToLower`, `ToUpper`,
-- `Split` and the order of strings. Letters and spaces are those of ASCII.
use onepark_smart_park.Prelude.{
  ℕ, ◌+◌, ◌-◌, Bool, true, false, ◌&&◌, ◌||◌, List, [], ◌∷◌, map, Text, ltb, leb, ◌==◌,
  if◌then◌else◌,
}

abbrev pub is_space : ℕ → Bool
is_space c = (leb 9 c && leb c 13) || c == 32

-- `strings.TrimLeft` of spaces
unfoldable pub trim_left : Text → Text
trim_left [] = []
trim_left (c ∷ s) = if is_space c then trim_left s else c ∷ s

-- A space is dropped where only spaces follow it.
abbrev pub cons_unless_last_space : ℕ → Text → Text
cons_unless_last_space c [] = if is_space c then [] else c ∷ []
cons_unless_last_space c (d ∷ s) = c ∷ d ∷ s

-- `strings.TrimRight` of spaces
unfoldable pub trim_right : Text → Text
trim_right [] = []
trim_right (c ∷ s) = cons_unless_last_space c (trim_right s)

-- `strings.TrimSpace`
unfoldable pub trim_space : Text → Text
unfolding trim_left trim_right
trim_space s = trim_right (trim_left s)

abbrev pub lower : ℕ → ℕ
lower c = if leb 65 c && leb c 90 then c + 32 else c

abbrev pub upper : ℕ → ℕ
upper c = if leb 97 c && leb c 122 then c - 32 else c

-- `strings.ToLower`
unfoldable pub to_lower : Text → Text
to_lower s = map lower s

-- `strings.ToUpper`
unfoldable pub to_upper : Text → Text
to_upper s = map upper s

abbrev pub cons_first : ℕ → List Text → List Text
cons_first c [] = (c ∷ []) ∷ []
cons_first c (s ∷ ss) = (c ∷ s) ∷ ss

-- `strings.Split` at a one-byte separator
unfoldable pub split : ℕ → Text → List Text
split sep [] = [] ∷ []
split sep (c ∷ s) = let rest = split sep s in if c == sep then [] ∷ rest else cons_first c rest

-- `s < t` on Go strings: bytewise
unfoldable pub text_lt : Text → Text → Bool
text_lt s [] = false
text_lt [] (d ∷ t) = true
text_lt (c ∷ s) (d ∷ t) = ltb c d || (c == d && text_lt s t)
