-- ===== src/Workorder.antt =====
-- workorder-service (app/workorder-service): the life of a work order.
pub mod Fsm
pub mod Status
pub mod Audit
mod Tests
