-- ===== src/Dispatch/Invariant.antt =====
-- What holds of the dispatch database between two requests.
pub mod Handlers
pub mod Unheld
pub mod Decide
pub mod Loop
pub mod Cron
use onepark_smart_park.Prelude.{
  ℕ, ◌≤◌, ◌≡◌, ◌≢◌, Bool, true, false, some, none, List, Text, All, is_some,
}
use onepark_smart_park.Prelude.Int.{ℤ, pos, is_positive, ◌≤ℤ◌}
use onepark_smart_park.Dispatch.Model.{DispatchTask, DispatchTaskLog, DispatchStaff}
use onepark_smart_park.Dispatch.Fsm.{next}
use onepark_smart_park.Dispatch.Assign.{Candidate}
use onepark_smart_park.Dispatch.Store.{Db}

-- A stored status; nobody holds a pending task; an assigned task has a person and a deadline; the
-- count of automatic reassignments does not pass the limit.
pub record TaskOk (limit : ℤ) (t : DispatchTask) : Type 0 where
  pub status_low : 1 ≤ t.status
  pub status_high : t.status ≤ 5
  pub pending_free : t.status ≡ 1 → (t.assignee_id ≡ pos 0) × (t.assign_expire_at ≡ none)
  pub assigned_held :
      t.status ≡ 2 → (is_positive t.assignee_id ≡ true) × (is_some t.assign_expire_at ≡ true)
  pub count_capped : pos t.reassign_count ≤ℤ limit

-- Each entry of the log is a transition of the state machine.
abbrev pub LogOk : DispatchTaskLog → Type 0
LogOk l = next l.from_status l.action ≡ some l.to_status

-- `StaffUpsert` refuses an id that is not positive.
abbrev pub StaffOk : DispatchStaff → Type 0
StaffOk s = is_positive s.staff_id ≡ true

pub record IsValid (limit : ℤ) (db : Db) : Type 0 where
  pub tasks_ok : All (TaskOk limit) db.tasks
  pub logs_ok : All LogOk db.logs
  pub staff_ok : All StaffOk db.staff

abbrev pub HasId : Candidate → Type 0
HasId c = is_positive c.assignee_id ≡ true
