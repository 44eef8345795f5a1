-- ===== src/Rules.antt =====
-- The alarm rule engine: app/alarm-service/internal/rule, the rule table of internal/model and the
-- rule handlers of internal/logic/rulelogic.go.
pub mod Value
pub mod Operator
pub mod Spec
pub mod Condition
pub mod Window
pub mod Engine
pub mod Snapshot
pub mod RuleTable
pub mod Manage
pub mod Tests
