-- ===== src/Workorder/Fsm.antt =====
-- The state machine of a work order: internal/state/fsm.go.
use onepark_smart_park.Prelude.{
  ℕ, Bool, Option, List, [], ◌∷◌, Text, codes, lookup, is_some, ◌==◌, if◌then◌else◌,
}

abbrev pub status_pending_dispatch : ℕ
status_pending_dispatch = 0

abbrev pub status_processing : ℕ
status_processing = 1

abbrev pub status_pending_verify : ℕ
status_pending_verify = 2

abbrev pub status_completed : ℕ
status_completed = 3

abbrev pub status_closed : ℕ
status_closed = 4

abbrev pub action_assign : Text
action_assign = codes "assign"

abbrev pub action_submit : Text
action_submit = codes "submit"

abbrev pub action_approve : Text
action_approve = codes "approve"

abbrev pub action_reject : Text
action_reject = codes "reject"

abbrev pub action_close : Text
action_close = codes "close"

-- `transitions`: the row of the map for a status; a status without row has no arrows.
unfoldable pub transitions_from : ℕ → List (Text × ℕ)
transitions_from s =
    if s == status_pending_dispatch
    then (action_assign, status_processing) ∷ (action_close, status_closed) ∷ []
    else if s == status_processing
    then (action_submit, status_pending_verify) ∷ (action_close, status_closed) ∷ []
    else if s == status_pending_verify
    then (action_approve, status_completed)
      ∷ (action_reject, status_processing)
      ∷ (action_close, status_closed)
      ∷ []
    else if s == status_completed
    then (action_close, status_closed) ∷ []
    else []

-- `NextStatus`: `none` is `ok == false`.
unfoldable pub next_status : ℕ → Text → Option ℕ
unfolding transitions_from
next_status from action = lookup action (transitions_from from)

-- `CanTransition`
unfoldable pub can_transition : ℕ → Text → Bool
unfolding next_status
can_transition from action = is_some (next_status from action)

-- The arrows that the package comment of fsm.go and the comments on the actions name.
pub data Arrow : ℕ → Text → ℕ → Type 0 where
  assign : Arrow 0 action_assign 1
  submit : Arrow 1 action_submit 2
  approve : Arrow 2 action_approve 3
  reject : Arrow 2 action_reject 1
  close_pending : Arrow 0 action_close 4
  close_processing : Arrow 1 action_close 4
  close_verify : Arrow 2 action_close 4
  close_completed : Arrow 3 action_close 4
