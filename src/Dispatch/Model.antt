-- ===== src/Dispatch/Model.antt =====
-- Data of dispatch-service: internal/model/task.go and internal/model/staff.go.
-- Times are Unix nanoseconds. A column that no modelled operation reads is kept where the
-- operations write it, and left out otherwise (title, description, finished_at's siblings).
use onepark_smart_park.Prelude.{ℕ, ◌*◌, Option, Text}
use onepark_smart_park.Prelude.Int.{ℤ}

-- `StatusPendingAssign` and the rest; 0 stands for a task that does not exist.
abbrev pub status_none : ℕ
status_none = 0

abbrev pub status_pending_assign : ℕ
status_pending_assign = 1

abbrev pub status_assigned : ℕ
status_assigned = 2

abbrev pub status_processing : ℕ
status_processing = 3

abbrev pub status_completed : ℕ
status_completed = 4

abbrev pub status_closed : ℕ
status_closed = 5

abbrev pub source_manual : ℕ
source_manual = 1

abbrev pub source_alarm : ℕ
source_alarm = 2

-- `AssignExpireWindow`: five minutes, in nanoseconds.
abbrev pub assign_expire_window : ℕ
assign_expire_window = 5 * 60 * 1000000000

abbrev pub max_reassign_default : ℕ
max_reassign_default = 3

-- `DispatchTask`; `AlarmId` is a nullable column.
pub record DispatchTask : Type 0 where
  pub id : ℕ
  pub tenant_id : ℕ
  pub task_no : Text
  pub title : Text
  pub source : ℕ
  pub alarm_id : Option Text
  pub zone_code : Text
  pub required_skill : Text
  pub priority : ℕ
  pub status : ℕ
  pub assignee_id : ℤ
  pub assignee_name : Text
  pub assign_expire_at : Option ℕ
  pub reassign_count : ℕ
  pub finished_at : Option ℕ
  pub version : ℕ

-- `DispatchTaskLog`
pub record DispatchTaskLog : Type 0 where
  pub tenant_id : ℕ
  pub task_id : ℕ
  pub from_status : ℕ
  pub to_status : ℕ
  pub action : Text
  pub operator_id : ℕ

abbrev pub staff_on_duty : ℕ
staff_on_duty = 1

abbrev pub staff_enabled : ℕ
staff_enabled = 1

-- `DispatchStaff`
pub record DispatchStaff : Type 0 where
  pub staff_id : ℤ
  pub name : Text
  pub zone_code : Text
  pub skills : Text
  pub on_duty : ℕ
  pub status : ℕ
