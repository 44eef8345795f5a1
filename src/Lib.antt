-- ===== src/Lib.antt =====
-- onepark smart park: a model of the services' core logic and its theorems.
--
-- The program is a set of Go services for a park. They share no memory: each has its own MySQL
-- database, reads and writes messages on Kafka, and keeps locks and idempotency keys in Redis. The
-- services modelled here are those whose mistakes cost most: the one that hands out tasks, the one
-- that bills parked vehicles, and the one that lets devices in.
--
-- dispatch-service (app/dispatch-service/internal) in Dispatch/:
--   Model        model/task.go and model/staff.go: rows and constants
--   Fsm          state/fsm.go: `next`, `is_terminal`
--   Assign       assign/: `explain`, `pick`, `pool`, `without`
--   Store        the database, the answers of MySQL, error results with `do`, `new_task_no`
--   Create       logic/dispatch/taskcreatelogic.go: `task_create`
--   Alarm        consumer/: `handle`, from a message to a task
--   TaskAssign   logic/dispatch/taskassignlogic.go: `task_assign`
--   TaskStatus   logic/dispatch/taskstatuslogic.go: `task_status`
--   Reassign     cron/reassign.go and cron/cron.go: `run_reassign_once`
-- Invariant says what a valid database is, and Reachable puts all these steps into one relation. The
-- alarm service's messages reach Alarm; the other handlers answer requests; the timed run takes
-- overdue tasks from their people.
--
-- parking-service (app/parking-service/internal) in Parking/:
--   Model        model/parking.go and model/monthlycard.go
--   Fee          `CalcFee` and `CalcFeeByRule` of svc/consumer.go
--   Store        the state that the handlers share, `publish`, the fee of an exit
--   Telemetry    `normalizeTelemetry` and `IdempotentID` of svc/consumer.go
--   Consumer     `handleTelemetry`, entry and exit by message, and common/dedup/dedup.go
--   Manual       logic/parkingentrylogic.go and logic/parkingexitlogic.go
--   Settle, Announce: exits by message and by request against each other, and what they send
--   Card         logic/createmonthlycardlogic.go, renewmonthlycardlogic.go and
--                disablemonthlycardlogic.go, with deploy/sql/m2_p2_monthly_card_unique.sql
--
-- gateway-service (app/gateway-service/internal) in Gateway/:
--   Model        model/model.go, and the messages of common/kafka/contract.go
--   Frame        frame/protocol.go: lines of JSON on the wire
--   Session      frame/session.go: `handle_frame` (TCP), `handle_stateless` (CoAP), `publish`
--   Serve        frame/handler.go: one connection
-- Devices log in here, and what they report goes to Kafka, where the consumers of the other services
-- take it up.
--
-- workorder-service (app/workorder-service/internal) in Workorder/:
--   Fsm          state/fsm.go
--   Status       logic/updateworkorderstatuslogic.go, with the roles of common/rbac
--   Audit        what a move of a work order leaves in the audit trail
--
-- alarm-service (app/alarm-service/internal), the rules, in Rules/:
--   Value        `interface{}` and `toFloat`, `equalValue` of rule/rule.go
--   Operator, Spec, Condition: `toOperator`, `ParseSpec`, `compare` and `EvaluateCondition`
--   Window       rule/window.go: the sliding windows in Redis, with the Lua script
--   Engine       rule/engine.go: `AppliesTo`, `newDraft` and the loop of `Evaluate`
--   Snapshot     the cached rules: `snapshot`, `Invalidate`, `HasRules`, `Evaluate`
--   RuleTable    model/alarm_rule_model.go: `list_enabled` is what the engine loads
--   Manage       logic/rulelogic.go: `create_rule`, `update_rule`, `get_rule`
-- An operator changes the rules through Manage, which writes the table and empties the cache; the
-- engine reads the table through its cache and turns an event into alarms.
--
-- alarm-service, the consumer of device messages, svc/consumer.go, in Alarms/:
--   Alarms       `DeviceEvent`, the alarm made from one, and what the service reads and changes
--   Handle       `HandleDeviceEvent`, `HandleWithDeadLetter` and `ReplayDeadLetter`; three retries, so
--                the loop counts down from 3 and needs no fuel
--   Settled, Freed, Lost: what is left of a message, of its key, and of an alarm not stored
-- The consumer asks Rules' engine for the alarms of an event. The copy of an alarm in Elasticsearch is
-- not modelled, as nothing reads it back.
--
-- event-dispatcher (app/event-dispatcher/internal/dispatch/dispatch.go) in Dispatcher.antt: a device's
-- MQTT report, with its tenant and zone, goes to the topic that the alarm consumer reads; three retries,
-- so the loop counts down from 3. The reports that cannot be sent on are dead letters (Report, Kept).
--
-- access-control-service (app/access-control-service/internal) in Access/:
--   Access       `PermissionAllowed` of logic/permission.go, and the table of permissions
--   Grant        logic/grantaccesslogic.go, logic/revokeaccesslogic.go, model/accesspermission_impl.go
--   RemoteOpen   logic/remoteopenlogic.go, on the keys of common/dedup/dedup.go (Dedup)
--
-- video-service (app/video-service/internal) in Video.antt: logic/recordwindow.go, which recordings the
-- plans of a camera promise, and the plans' days and minutes of model/record_plan.go.
--
-- billing-service (app/billing-service/internal/calc/price.go) in Billing.antt: bills by one price, by
-- tiers and by periods of the day, from usage that is read elsewhere.
--
-- kb-service (app/kb-service/internal/chunker/chunker.go) in Chunker.antt: documents cut into chunks.
--
-- How the code is translated. A handler is a function from the state (a record of tables, keys and
-- messages sent) to the new state and its answer. A table is the list of its rows, and a GORM call
-- is an operation on that list (Table): the condition is a Boolean test, the columns written are a
-- function on rows, and `RowsAffected` is a count. Whether a call of MySQL, Redis or Kafka fails is
-- an argument, so that every error path is a value. What other requests do between a handler's
-- reading and its writing is an argument too (`others`, `meanwhile`); a theorem says which of those
-- it allows. Code outside the repository is an argument: `encoding/json`, `strconv`, `fmt` and
-- float64 (the record `Go`), SHA-1, bcrypt, and the
-- queries whose result rests on MySQL's collation.
--
-- Numbers. Ids, versions and counts are natural numbers, and a ℤ where the code tests a sign; they
-- are not bounded, but the task sequence wraps at 2 ^ 32 as uint32 does. Times are nanoseconds,
-- parking fees are cents and exact where the source uses float64;
-- in Billing the operations of float64 are a parameter. Strings are lists of bytes;
-- `strings.TrimSpace` and `ToLower` (Strings) know ASCII. A message in Chinese is a constructor with
-- the arguments of its format. Texts are compared exactly, where MySQL's default
-- collation would ignore case.
--
-- Loops. All are structural on a list or on the number of attempts left (three for a task number and
-- 400 for the days of a plan, as in the source; as many as the text has characters
-- for the fences of a document), except the decimal digits of a time stamp, where 19 is enough for an int64.
--
-- Not modelled: reading pages and statistics, which change nothing; log lines; time stamps that
-- nothing reads; the expiry of Redis keys in parking-service; the handlers of the other services.
pub mod Access
pub mod Alarms
pub mod Billing
pub mod Chunker
pub mod Dedup
pub mod Dispatch
pub mod Dispatcher
pub mod Gateway
pub mod Parking
pub mod Prelude
pub mod Rules
pub mod Strings
pub mod Table
pub mod Video
pub mod Workorder
