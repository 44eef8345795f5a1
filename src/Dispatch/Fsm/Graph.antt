-- ===== src/Dispatch/Fsm/Graph.antt =====
-- The state machine against the diagram of its package comment.
use onepark_smart_park.Prelude.{
  ℕ, zero, suc, ◌≤◌, ◌≡◌, refl, ◌↔◌, inl, inr, true, none, some, Text, arith, All, lookup-All,
  Bool-cases, Option-cases, [],
}
use onepark_smart_park.Dispatch.Fsm.{
  next, is_terminal, edges_of, transitions, action_create, action_assign, action_release,
  action_start, action_finish, action_close,
}

-- The arrows that the package comment of fsm.go and the comments on the actions name.
pub data Edge : ℕ → Text → ℕ → Type 0 where
  create : Edge 0 action_create 1
  assign : Edge 1 action_assign 2
  reassign : Edge 2 action_assign 2
  release : Edge 2 action_release 1
  start : Edge 2 action_start 3
  finish : Edge 3 action_finish 4
  close : (s : ℕ) → 1 ≤ s → s ≤ 4 → Edge s action_close 5

next-close : (s : ℕ) → 1 ≤ s → s ≤ 4 → next s action_close ≡ some 5
unfolding next
next-close zero lo hi = absurd (omega arith)
next-close (suc zero) lo hi = refl
next-close (suc (suc zero)) lo hi = refl
next-close (suc (suc (suc zero))) lo hi = refl
next-close (suc (suc (suc (suc zero)))) lo hi = refl
next-close (suc (suc (suc (suc (suc s))))) lo hi = absurd (omega arith)

next_of_Edge : {s t : ℕ} {a : Text} → Edge s a t → next s a ≡ some t
unfolding next
next_of_Edge create = refl
next_of_Edge assign = refl
next_of_Edge reassign = refl
next_of_Edge release = refl
next_of_Edge start = refl
next_of_Edge finish = refl
next_of_Edge (close s lo hi) = next-close s lo hi

edges_of-nil : (s : ℕ) → 5 ≤ s → edges_of transitions s ≡ []
edges_of-nil s h = ground arith

-- Every entry of the transition table is an arrow of the diagram.
table-Edge : (s : ℕ) → All (λ e. Edge s e.0 e.1) (edges_of transitions s)
table-Edge zero = (create, tt)
table-Edge (suc zero) = (assign, (close 1 (omega arith) (omega arith), tt))
table-Edge (suc (suc zero)) =
    (reassign, (release, (start, (close 2 (omega arith) (omega arith), tt))))
table-Edge (suc (suc (suc zero))) = (finish, (close 3 (omega arith) (omega arith), tt))
table-Edge (suc (suc (suc (suc zero)))) = (close 4 (omega arith) (omega arith), tt)
table-Edge (suc (suc (suc (suc (suc s))))) =
    rw (edges_of-nil (suc (suc (suc (suc (suc s))))) (omega arith)) tt

-- `Next` accepts an action in a status exactly when the diagram has the arrow, and then leads to
-- the arrow's end.
pub next-iff-Edge : (s t : ℕ) (a : Text) → (next s a ≡ some t) ↔ Edge s a t
unfolding next
next-iff-Edge s t a = (lookup-All (Edge s) a (edges_of transitions s) (table-Edge s), next_of_Edge)

Edge-bounds : {s t : ℕ} {a : Text} → Edge s a t → (s ≤ 4) × (1 ≤ t) × (t ≤ 5)
Edge-bounds create = omega arith
Edge-bounds assign = omega arith
Edge-bounds reassign = omega arith
Edge-bounds release = omega arith
Edge-bounds start = omega arith
Edge-bounds finish = omega arith
Edge-bounds (close s lo hi) = omega arith

-- An accepted action starts below `closed` and ends in one of the five stored statuses.
pub next_bounds : (s t : ℕ) (a : Text) → next s a ≡ some t → (s ≤ 4) × (1 ≤ t) × (t ≤ 5)
next_bounds s t a h = Edge-bounds ((next-iff-Edge s t a).0 h)

-- Of the stored statuses exactly the terminal one accepts no action at all.
pub is_terminal_iff :
    (s : ℕ) → 1 ≤ s → s ≤ 5 → (is_terminal s ≡ true) ↔ ((a : Text) → next s a ≡ none)
unfolding is_terminal
is_terminal_iff s lo hi = (stuck, ended)
  where
    stuck : is_terminal s ≡ true → (a : Text) → next s a ≡ none
    stuck h a = elim (Option-cases (next s a)) [
      | inl e ↦ e
      | inr (t, e) ↦ ground (arith, next_bounds s t a e)
    ]

    ended : ((a : Text) → next s a ≡ none) → is_terminal s ≡ true
    ended h = elim (Bool-cases (is_terminal s)) [
      | inl e ↦ e
      | inr e ↦ ground (arith, h action_close, next-close s)
    ]
