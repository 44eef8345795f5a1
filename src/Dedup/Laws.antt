-- ===== src/Dedup/Laws.antt =====
-- What a held key survives, and what a released one does not.
use onepark_smart_park.Prelude.{
  ℕ, ◌≡◌, refl, false, List, [], ◌∷◌, Text, text_eq, text_eq→≡, Bool-cases, inl, inr,
}
use onepark_smart_park.Dedup.{Key, is_held, drop_key}

pub is_held-drop_key_self :
    (now : ℕ) (key : Text) (ks : List Key) → is_held now key (drop_key key ks) ≡ false
unfolding is_held drop_key
is_held-drop_key_self now key [] = refl
is_held-drop_key_self now key (k ∷ ks) = elim (Bool-cases (text_eq k.name key)) [
  | inl same ↦ simp (same, is_held-drop_key_self now key ks)
  | inr other ↦ simp (other, is_held-drop_key_self now key ks)
]

-- Dropping another key leaves it.
pub is_held-drop_key_ne :
    (now : ℕ) (key other : Text) (ks : List Key)
    → text_eq other key ≡ false
    → is_held now key (drop_key other ks) ≡ is_held now key ks
unfolding is_held drop_key
is_held-drop_key_ne now key other [] ne = refl
is_held-drop_key_ne now key other (k ∷ ks) ne = elim (Bool-cases (text_eq k.name other)) [
  | inl same ↦
      let name = text_eq→≡ k.name other same in
      let gone : text_eq k.name key ≡ false = rw name ne in
      simp (same, gone, is_held-drop_key_ne now key other ks ne)
  | inr kept ↦ simp (kept, is_held-drop_key_ne now key other ks ne)
]
