-- ===== src/Dispatch/TaskStatus.antt =====
-- Reporting progress on a task: internal/logic/dispatch/taskstatuslogic.go.
use onepark_smart_park.Prelude.{
  ℕ, ◌+◌, Bool, ◌&&◌, ◌||◌, not, some, [], ◌∷◌, ◌++◌, Text, ◌==◌, if◌then◌else◌,
}
use onepark_smart_park.Table.{first, update, affected}
use onepark_smart_park.Dispatch.Model.{
  DispatchTask, DispatchTaskLog, status_completed, status_closed,
}
use onepark_smart_park.Dispatch.Fsm.{next}
use onepark_smart_park.Dispatch.Store.{
  dep_connect, task_not_found, task_query_failed, task_status_invalid, task_conflict,
  task_update_failed, Result, ok, err, ◌>>=◌, ◌>>◌, refuse_if, some_or, Db, RequestContext, Driver,
}

pub record TaskStatusReq : Type 0 where
  pub id : ℕ
  pub action : Text

pub record TaskStatusResp : Type 0 where
  pub id : ℕ
  pub status : ℕ

-- What the handler knows when it starts to write: the task as read, and the status to write.
pub record StatusPlan : Type 0 where
  pub task : DispatchTask
  pub to : ℕ

unfoldable pub status_plan : Driver → RequestContext → TaskStatusReq → Db → Result StatusPlan
status_plan d ctx req db = do
  refuse_if (not d.connected) dep_connect
  refuse_if d.load_fails task_query_failed
  task ←
      some_or
        (first (λ (t : DispatchTask). t.id == req.id && t.tenant_id == ctx.tenant_id) db.tasks)
        task_not_found
  to ← some_or (next task.status req.action) task_status_invalid
  ok (record { task = task; to = to })

abbrev pub ends : ℕ → Bool
ends to = to == status_completed || to == status_closed

abbrev pub set_status : ℕ → ℕ → DispatchTask → DispatchTask
set_status now to t = record t {
  status = to;
  finished_at = if ends to then some now else t.finished_at;
  version = t.version + 1;
}

abbrev pub own_version : RequestContext → DispatchTask → DispatchTask → Bool
own_version ctx snapshot t =
    t.id == snapshot.id && (t.tenant_id == ctx.tenant_id && t.version == snapshot.version)

abbrev pub status_log : RequestContext → TaskStatusReq → StatusPlan → DispatchTaskLog
status_log ctx req p = record {
  tenant_id = ctx.tenant_id;
  task_id = p.task.id;
  from_status = p.task.status;
  to_status = p.to;
  action = req.action;
  operator_id = ctx.user_id;
}

-- The transaction: the update and the log entry, or, on any error, neither.
unfoldable pub status_commit :
    Driver → RequestContext → ℕ → TaskStatusReq → StatusPlan → Db → Result TaskStatusResp × Db
status_commit d ctx now req p db =
    if d.update_fails
    then (err task_update_failed, db)
    else if affected (own_version ctx p.task) db.tasks == 0
    then (err task_conflict, db)
    else if d.log_fails
    then (err task_update_failed, db)
    else (
      ok (record { id = p.task.id; status = p.to }),
      record db {
        tasks = update (own_version ctx p.task) (set_status now p.to) db.tasks;
        logs = db.logs ++ status_log ctx req p ∷ [];
      },
    )

-- A refused plan leaves the database as the handler found it; others may act before a commit.
abbrev pub after_plan :
    Driver
    → RequestContext
    → ℕ
    → TaskStatusReq
    → Db
    → (Db → Db)
    → Result StatusPlan
    → Result TaskStatusResp × Db
after_plan d ctx now req db others (err code) = (err code, db)
after_plan d ctx now req db others (ok p) = status_commit d ctx now req p (others db)

-- `TaskStatus`; `others` acts between its read and its transaction.
unfoldable pub task_status :
    Driver → RequestContext → ℕ → TaskStatusReq → (Db → Db) → Db → Result TaskStatusResp × Db
task_status d ctx now req others db = after_plan d ctx now req db others (status_plan d ctx req db)
