-- ===== src/Video/Merged.antt =====
-- The windows that are answered: what they cover, and that they neither touch nor overlap.
use onepark_smart_park.Prelude.{
  ℕ, ◌≤◌, ◌<◌, ◌≡◌, refl, ap, ◌∙◌, Bool, true, false, ◌&&◌, ◌||◌, List, [], ◌∷◌, ◌++◌, All, All-map,
  ltb, leb, Bool-cases, inl, inr, arith,
}
use onepark_smart_park.Video.{
  Calendar, RecordPlan, Window, latest, comes_before, insert_window, sort_windows, merge_from,
  merge_sorted, merge_windows, plan_windows, collect_windows, available_windows,
}

abbrev pub in_window : ℕ → Window → Bool
in_window t w = leb w.start t && ltb t w.end

-- An instant lies in one of the windows.
abbrev pub covers : ℕ → List Window → Bool
covers t [] = false
covers t (w ∷ ws) = in_window t w || covers t ws

abbrev pub StartsAfter : ℕ → List Window → Type 0
StartsAfter n [] = Unit
StartsAfter n (w ∷ ws) = n < w.start

-- Each window ends before the next starts.
abbrev pub IsSeparated : List Window → Type 0
IsSeparated [] = Unit
IsSeparated (w ∷ ws) = StartsAfter w.end ws × IsSeparated ws

abbrev StartFrom : ℕ → List Window → Type 0
StartFrom n = All (λ w. n ≤ w.start)

abbrev IsOrdered : List Window → Type 0
IsOrdered [] = Unit
IsOrdered (w ∷ ws) = StartFrom w.start ws × IsOrdered ws

insert_window-StartFrom :
    (n : ℕ) (w : Window) (ws : List Window)
    → n ≤ w.start
    → StartFrom n ws
    → StartFrom n (insert_window w ws)
unfolding insert_window
insert_window-StartFrom n w [] h k = (h, tt)
insert_window-StartFrom n w (v ∷ vs) h k = elim (Bool-cases (comes_before v w)) [
  | inl before ↦ rw before (k.0, insert_window-StartFrom n w vs h k.1)
  | inr after ↦ rw after (h, k)
]

before-le : (v w : Window) → comes_before v w ≡ true → v.start ≤ w.start
before-le v w h = ground arith

after-le : (v w : Window) → comes_before v w ≡ false → w.start ≤ v.start
after-le v w h = ground arith

insert_window-IsOrdered :
    (w : Window) (ws : List Window) → IsOrdered ws → IsOrdered (insert_window w ws)
unfolding insert_window
insert_window-IsOrdered w [] v = (tt, tt)
insert_window-IsOrdered w (v ∷ vs) k = elim (Bool-cases (comes_before v w)) [
  | inl before ↦ rw before (
    insert_window-StartFrom v.start w vs (before-le v w before) k.0,
    insert_window-IsOrdered w vs k.1,
  )
  | inr after ↦
      let le = after-le v w after in
      rw after (
        (
          le,
          All-map (λ (u : Window). v.start ≤ u.start) (λ u. w.start ≤ u.start) (λ u h. omega arith)
              vs k.0,
        ),
        k,
      )
]

sort_windows-IsOrdered : (ws : List Window) → IsOrdered (sort_windows ws)
unfolding sort_windows
sort_windows-IsOrdered [] = tt
sort_windows-IsOrdered (w ∷ ws) =
    insert_window-IsOrdered w (sort_windows ws) (sort_windows-IsOrdered ws)

module _ (t : ℕ) where
  or_swap : (a b c : Bool) → (a || (b || c)) ≡ (b || (a || c))
  or_swap a b c = ground arith

  insert_window-covers :
      (w : Window) (ws : List Window)
      → covers t (insert_window w ws) ≡ (in_window t w || covers t ws)
  unfolding insert_window
  insert_window-covers w [] = refl
  insert_window-covers w (v ∷ vs) = elim (Bool-cases (comes_before v w)) [
    | inl before ↦
        rw (before, insert_window-covers w vs)
          (or_swap (in_window t v) (in_window t w) (covers t vs))
    | inr after ↦ rw after refl
  ]

  sort_windows-covers : (ws : List Window) → covers t (sort_windows ws) ≡ covers t ws
  unfolding sort_windows
  sort_windows-covers [] = refl
  sort_windows-covers (w ∷ ws) =
      insert_window-covers w (sort_windows ws)
      ∙ ap (λ b. in_window t w || b) (sort_windows-covers ws)

  -- A window that starts inside the last one, or where it ends, joined to it
  joined-covers :
      (last w : Window)
      → last.start ≤ w.start
      → leb w.start last.end ≡ true
      → in_window t (record last { end = latest last.end w.end })
        ≡ (in_window t last || in_window t w)
  joined-covers last w h k = ground arith

  or_assoc : (a b c : Bool) → ((a || b) || c) ≡ (a || (b || c))
  or_assoc a b c = ground arith

  merge_from-covers :
      (last : Window) (ws : List Window)
      → StartFrom last.start ws
      → IsOrdered ws
      → covers t (merge_from last ws) ≡ (in_window t last || covers t ws)
  unfolding merge_from
  merge_from-covers last [] h k = refl
  merge_from-covers last (w ∷ ws) h k = elim (Bool-cases (leb w.start last.end)) [
    | inl inside ↦
        rw
          (
            inside,
            merge_from-covers (record last { end = latest last.end w.end }) ws h.1 k.1,
            joined-covers last w h.0 inside,
          )
          (or_assoc (in_window t last) (in_window t w) (covers t ws))
    | inr outside ↦ rw (outside, merge_from-covers w ws k.0 k.1) refl
  ]

  merge_sorted-covers : (ws : List Window) → IsOrdered ws → covers t (merge_sorted ws) ≡ covers t ws
  merge_sorted-covers [] k = refl
  merge_sorted-covers (w ∷ ws) k = merge_from-covers w ws k.0 k.1

  pub merge_windows-covers : (ws : List Window) → covers t (merge_windows ws) ≡ covers t ws
  unfolding merge_windows
  merge_windows-covers ws =
      merge_sorted-covers (sort_windows ws) (sort_windows-IsOrdered ws) ∙ sort_windows-covers ws

  append-covers : (ws vs : List Window) → covers t (ws ++ vs) ≡ (covers t ws || covers t vs)
  append-covers [] vs = refl
  append-covers (w ∷ ws) vs =
      ap (λ b. in_window t w || b) (append-covers ws vs)
      ∙ (rw (or_assoc (in_window t w) (covers t ws) (covers t vs)) refl)

merge_from-StartsAfter :
    (n : ℕ) (last : Window) (ws : List Window) → n < last.start → StartsAfter n (merge_from last ws)
unfolding merge_from
merge_from-StartsAfter n last [] h = h
merge_from-StartsAfter n last (w ∷ ws) h = elim (Bool-cases (leb w.start last.end)) [
  | inl inside ↦
      rw inside (merge_from-StartsAfter n (record last { end = latest last.end w.end }) ws h)
  | inr outside ↦ rw outside h
]

merge_from-IsSeparated : (last : Window) (ws : List Window) → IsSeparated (merge_from last ws)
unfolding merge_from
merge_from-IsSeparated last [] = (tt, tt)
merge_from-IsSeparated last (w ∷ ws) = elim (Bool-cases (leb w.start last.end)) [
  | inl inside ↦ rw inside (merge_from-IsSeparated (record last { end = latest last.end w.end }) ws)
  | inr outside ↦
      rw outside (merge_from-StartsAfter last.end w ws (ground arith), merge_from-IsSeparated w ws)
]

merge_windows-IsSeparated : (ws : List Window) → IsSeparated (merge_windows ws)
unfolding merge_windows
merge_windows-IsSeparated ws = sorted (sort_windows ws)
  where
    sorted : (vs : List Window) → IsSeparated (merge_sorted vs)
    sorted [] = tt
    sorted (v ∷ vs) = merge_from-IsSeparated v vs

-- An instant lies in a window of one of the plans.
abbrev pub some_plan_covers : Calendar → ℕ → ℕ → ℕ → ℕ → List RecordPlan → Bool
some_plan_covers c from to now t [] = false
some_plan_covers c from to now t (p ∷ ps) =
    covers t (plan_windows c p from to now) || some_plan_covers c from to now t ps

collect_windows-covers :
    (c : Calendar) (ps : List RecordPlan) (from to now t : ℕ)
    → covers t (collect_windows c ps from to now) ≡ some_plan_covers c from to now t ps
unfolding collect_windows
collect_windows-covers c [] from to now t = refl
collect_windows-covers c (p ∷ ps) from to now t =
    append-covers t (plan_windows c p from to now) (collect_windows c ps from to now)
    ∙ ap (λ b. covers t (plan_windows c p from to now) || b)
        (collect_windows-covers c ps from to now t)

-- The answered windows cover exactly the instants that lie in a window of one of the plans, and each
-- of them ends before the next one starts.
pub available_windows-covers :
    (c : Calendar) (ps : List RecordPlan) (from to now t : ℕ)
    → (covers t (available_windows c ps from to now) ≡ some_plan_covers c from to now t ps)
      × IsSeparated (available_windows c ps from to now)
unfolding available_windows
available_windows-covers c ps from to now t = (
  merge_windows-covers t (collect_windows c ps from to now)
      ∙ collect_windows-covers c ps from to now t,
  merge_windows-IsSeparated (collect_windows c ps from to now),
)
