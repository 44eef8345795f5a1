-- ===== src/Chunker/Pieces.antt =====
-- What a long paragraph is cut into.
use onepark_smart_park.Prelude.{
  ℕ, ◌≤◌, ◌≡◌, refl, ◌∙◌, true, ◌&&◌, List, [], ◌∷◌, ◌++◌, length, Text, leb, Bool-cases, inl, inr,
  arith,
}
use mathlib.Core.List.{append_assoc, append-nil}
use onepark_smart_park.Chunker.{is_sentence_end, last_piece, split_from, hard_split}

-- The pieces, one after the other
abbrev pub concat : List Text → Text
concat [] = []
concat (s ∷ ss) = s ++ concat ss

-- It ends with a sentence.
abbrev pub EndsSentence : Text → Type 0
EndsSentence s = (front : Text) × ((r : ℕ) × ((s ≡ front ++ r ∷ []) × (is_sentence_end r ≡ true)))

-- Each piece but the last is as long as asked for and ends with a sentence.
abbrev pub AreCut : ℕ → List Text → Type 0
AreCut max [] = Unit
AreCut max (s ∷ []) = Unit
AreCut max (s ∷ t ∷ ts) = (max ≤ length s) × EndsSentence s × AreCut max (t ∷ ts)

last_piece-concat : (cur : Text) → concat (last_piece cur) ≡ cur
last_piece-concat [] = refl
last_piece-concat (c ∷ s) = append-nil (c ∷ s)

split_from-concat : (max : ℕ) (cur s : Text) → concat (split_from max cur s) ≡ cur ++ s
unfolding split_from
split_from-concat max cur [] = last_piece-concat cur ∙ (rw append-nil refl)
split_from-concat max cur (r ∷ s) =
    elim (Bool-cases (is_sentence_end r && leb max (length (cur ++ r ∷ [])))) [
      | inl ends ↦ rw (ends, split_from-concat max [] s, append_assoc cur (r ∷ []) s) refl
      | inr on ↦ rw (on, split_from-concat max (cur ++ r ∷ []) s, append_assoc cur (r ∷ []) s) refl
    ]

cut-AreCut :
    (max : ℕ) (piece : Text) (rest : List Text)
    → max ≤ length piece
    → EndsSentence piece
    → AreCut max rest
    → AreCut max (piece ∷ rest)
cut-AreCut max piece [] long ends k = tt
cut-AreCut max piece (t ∷ ts) long ends k = (long, ends, k)

last_piece-AreCut : (max : ℕ) (cur : Text) → AreCut max (last_piece cur)
last_piece-AreCut max [] = tt
last_piece-AreCut max (c ∷ s) = tt

split_from-AreCut : (max : ℕ) (cur s : Text) → AreCut max (split_from max cur s)
unfolding split_from
split_from-AreCut max cur [] = last_piece-AreCut max cur
split_from-AreCut max cur (r ∷ s) =
    elim (Bool-cases (is_sentence_end r && leb max (length (cur ++ r ∷ [])))) [
      | inl ends ↦ rw ends (
          cut-AreCut max (cur ++ r ∷ []) (split_from max [] s) (ground arith)
            (cur, (r, (refl, ground arith))) (split_from-AreCut max [] s))
      | inr on ↦ rw on (split_from-AreCut max (cur ++ r ∷ []) s)
    ]

-- The pieces that a text is cut into, put together, are the text; each of them but the last has at
-- least as many characters as asked for, and ends with the end of a sentence or a line.
pub hard_split-concat :
    (max : ℕ) (s : Text) → (concat (hard_split max s) ≡ s) × AreCut max (hard_split max s)
unfolding hard_split
hard_split-concat max s = elim (Bool-cases (leb (length s) max)) [
  | inl short ↦ rw short (append-nil s, tt)
  | inr long ↦ rw long (split_from-concat max [] s, split_from-AreCut max [] s)
]
