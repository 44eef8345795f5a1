-- ===== src/Prelude/Texts.antt =====
-- Byte strings. Go's `string` is its bytes; the texts of the model are lists of byte values.
use Prim.Native.Nat.{ℕ, ◌+◌, ◌/◌, ◌%◌}
use Prim.Native.Char.{code}
use Prim.Native.String.{String}
use mathlib.Core.Path.{◌≡◌, refl}
use mathlib.Core.Logic.{◌≢◌}
use mathlib.Core.Bool.{Bool, true, false, ◌&&◌, ◌||◌}
use mathlib.Core.Option.{Option, none, some}
use mathlib.Core.List.{List, [], ◌∷◌, ◌++◌}
use native.Mathlib.Omega.{arith}
use onepark_smart_park.Prelude.Lists.{All}
use mathlib.Core.Logic.{inl, inr}
use onepark_smart_park.Prelude.Tests.{Bool-cases, ◌==◌, ltb, if◌then◌else◌}

abbrev pub Text : Type 0
Text = List ℕ

-- The code points of a literal: its bytes, where it is ASCII.
abbrev pub codes : String → Text
codes String.[] = []
codes (String.◌∷◌ c s) = code c ∷ codes s

-- A byte with the low six bits
abbrev rest_bytes : ℕ → Text → Text
rest_bytes n s = (128 + n % 64) ∷ s

-- The bytes of a character in UTF-8
abbrev utf8_bytes : ℕ → Text
utf8_bytes n =
    if ltb n 128
    then n ∷ []
    else if ltb n 2048
    then (192 + n / 64) ∷ rest_bytes n []
    else if ltb n 65536
    then (224 + n / 4096) ∷ rest_bytes (n / 64) (rest_bytes n [])
    else (240 + n / 262144) ∷ rest_bytes (n / 4096) (rest_bytes (n / 64) (rest_bytes n []))

-- The bytes of any literal
abbrev pub utf8 : String → Text
utf8 String.[] = []
utf8 (String.◌∷◌ c s) = utf8_bytes (code c) ++ utf8 s

abbrev pub text_eq : Text → Text → Bool
text_eq [] [] = true
text_eq [] (b ∷ t) = false
text_eq (a ∷ s) [] = false
text_eq (a ∷ s) (b ∷ t) = (a == b) && text_eq s t

pub text_eq_refl : (s : Text) → text_eq s s ≡ true
text_eq_refl [] = refl
text_eq_refl (a ∷ s) = ground (arith, text_eq_refl s)

pub text_eq→≡ : (s t : Text) → text_eq s t ≡ true → s ≡ t
text_eq→≡ [] [] h = refl
text_eq→≡ [] (b ∷ t) h = cc
text_eq→≡ (a ∷ s) [] h = cc
text_eq→≡ (a ∷ s) (b ∷ t) h = ground (arith, text_eq→≡ s t)

pub text_eq-false : (s t : Text) → s ≢ t → text_eq s t ≡ false
text_eq-false s t ne = ground (arith, text_eq→≡ s t)

-- A Go `map[string]V` literal, and its lookup `v, ok := m[k]`.
abbrev pub lookup {ℓ} : {V : Type ℓ} → Text → List (Text × V) → Option V
lookup k [] = none
lookup k ((j, v) ∷ m) = if text_eq j k then some v else lookup k m

abbrev pub is_empty : Text → Bool
is_empty [] = true
is_empty (_ ∷ _) = false

-- What all entries of a map literal have, the entry that a lookup finds has.
pub lookup-All {ℓ κ} :
    {V : Type ℓ} (P : Text → V → Type κ) (k : Text) (m : List (Text × V)) {v : V}
    → All (λ e. P e.0 e.1) m
    → lookup k m ≡ some v
    → P k v
lookup-All P k [] h e = cc
lookup-All P k ((j, w) ∷ m) {v = v} h e = elim (Bool-cases (text_eq j k)) [
  | inl same ↦ let found : w ≡ v = ground arith in rw (← text_eq→≡ j k same, ← found) h.0
  | inr other ↦ lookup-All P k m h.1 (ground arith)
]

-- `strings.HasPrefix` and `strings.Contains`
abbrev pub starts_with : Text → Text → Bool
starts_with s [] = true
starts_with [] (b ∷ t) = false
starts_with (a ∷ s) (b ∷ t) = (a == b) && starts_with s t

unfoldable pub contains : Text → Text → Bool
contains [] t = starts_with [] t
contains (a ∷ s) t = starts_with (a ∷ s) t || contains s t
