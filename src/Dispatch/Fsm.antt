-- ===== src/Dispatch/Fsm.antt =====
-- The state machine of a dispatch task: internal/state/fsm.go.
pub mod Graph
use onepark_smart_park.Prelude.{
  ℕ, Bool, Option, none, some, List, [], ◌∷◌, Text, codes, lookup, ◌==◌, if◌then◌else◌,
}
use onepark_smart_park.Dispatch.Model.{
  status_none, status_pending_assign, status_assigned, status_processing, status_completed,
  status_closed,
}

abbrev pub action_create : Text
action_create = codes "create"

abbrev pub action_assign : Text
action_assign = codes "assign"

abbrev pub action_release : Text
action_release = codes "release"

abbrev pub action_start : Text
action_start = codes "start"

abbrev pub action_finish : Text
action_finish = codes "finish"

abbrev pub action_close : Text
action_close = codes "close"

-- `transitions`: from -> action -> to. A Go map of maps; a missing outer key gives a nil map.
abbrev pub Edges : Type 0
Edges = List (Text × ℕ)

abbrev pub transitions : List (ℕ × Edges)
transitions =
    (status_none, (action_create, status_pending_assign) ∷ [])
    ∷ (status_pending_assign, (action_assign, status_assigned) ∷ (action_close, status_closed) ∷ [])
    ∷ (
      status_assigned,
      (action_assign, status_assigned)
          ∷ (action_release, status_pending_assign)
          ∷ (action_start, status_processing)
          ∷ (action_close, status_closed)
          ∷ [],
    )
    ∷ (status_processing, (action_finish, status_completed) ∷ (action_close, status_closed) ∷ [])
    ∷ (status_completed, (action_close, status_closed) ∷ [])
    ∷ []

abbrev pub edges_of : List (ℕ × Edges) → ℕ → Edges
edges_of [] from = []
edges_of ((s, edges) ∷ m) from = if s == from then edges else edges_of m from

-- `Next`: `none` is `ok == false`.
unfoldable pub next : ℕ → Text → Option ℕ
next from action = lookup action (edges_of transitions from)

unfoldable pub is_terminal : ℕ → Bool
is_terminal status = status == status_closed
