-- ===== src/Dispatch.antt =====
-- dispatch-service: dispatch tasks, their state machine, the assignment of staff, and the
-- timed reassignment (app/dispatch-service/internal).
pub mod Model
pub mod Fsm
pub mod Assign
pub mod Store
pub mod Create
pub mod Alarm
pub mod TaskAssign
pub mod TaskStatus
pub mod Reassign
pub mod Invariant
pub mod Locking
pub mod Reachable
mod Tests
