-- ===== src/Dispatch/TaskAssign.antt =====
-- Assigning a task: internal/logic/dispatch/taskassignlogic.go.
-- The handler reads the task and the pool, and then writes under the version that it read: others
-- may change the database between the two, so the handler is a plan and a commit.
use onepark_smart_park.Prelude.{
  ℕ, ◌+◌, Bool, ◌&&◌, not, Option, none, some, List, [], ◌∷◌, ◌++◌, Text, is_empty, ◌==◌,
  if◌then◌else◌,
}
use onepark_smart_park.Prelude.Int.{ℤ, is_positive, is_zero, eq_ℤ}
use onepark_smart_park.Table.{first, update, affected}
use onepark_smart_park.Dispatch.Model.{
  DispatchTask, DispatchTaskLog, DispatchStaff, assign_expire_window,
}
use onepark_smart_park.Dispatch.Fsm.{next, action_assign}
use onepark_smart_park.Dispatch.Assign.{Candidate, pick, pool, staff_candidates}
use onepark_smart_park.Dispatch.Store.{
  dep_connect, not_found, bad_request, internal, Result, ok, err, ◌>>=◌, ◌>>◌, refuse_if, some_or,
  Db, RequestContext, Driver,
}

pub record TaskAssignReq : Type 0 where
  pub id : ℕ
  pub assignee_id : ℤ

pub record TaskAssignResp : Type 0 where
  pub id : ℕ
  pub status : ℕ
  pub assignee_id : ℤ
  pub assignee_name : Text

-- What the handler knows when it starts to write.
pub record AssignPlan : Type 0 where
  pub task : DispatchTask
  pub to : ℕ
  pub assignee_id : ℤ
  pub assignee_name : Text

abbrev pub name_of_staff : Option DispatchStaff → Text
name_of_staff none = []
name_of_staff (some s) = s.name

abbrev pub text_or_empty : Option Text → Text
text_or_empty none = []
text_or_empty (some s) = s

-- `lookupAssigneeName`
unfoldable pub lookup_assignee_name : Driver → Db → ℤ → Text
lookup_assignee_name d db id =
    let by_staff = name_of_staff (first (λ (s : DispatchStaff). eq_ℤ s.staff_id id) db.staff) in
    let staff_name = if d.staff_name_fails then [] else by_staff in
    if not (is_positive id)
    then []
    else if not (is_empty staff_name)
    then staff_name
    else text_or_empty (d.max_name db.tasks id)

-- `assign.Pool`
unfoldable pub load_pool : Driver → Db → Result (List Candidate)
unfolding pool staff_candidates
load_pool d db =
    if d.pool_fails
    then err internal
    else ok (pool (staff_candidates db.staff db.tasks) (d.history db.tasks))

-- `pickAutoAssignee`, with the answer for an empty pool
unfoldable pub pick_auto_assignee : Driver → DispatchTask → Db → Result (ℤ × Text)
pick_auto_assignee d task db = do
  candidates ← load_pool d db
  best ← some_or (pick task.zone_code task.required_skill candidates) bad_request
  ok (best.assignee_id, best.assignee_name)

unfoldable pub choose_assignee : Driver → TaskAssignReq → DispatchTask → Db → Result (ℤ × Text)
choose_assignee d req task db =
    if is_zero req.assignee_id
    then pick_auto_assignee d task db
    else ok (req.assignee_id, lookup_assignee_name d db req.assignee_id)

-- The part of `TaskAssign` before the update
unfoldable pub assign_plan : Driver → TaskAssignReq → Db → Result AssignPlan
assign_plan d req db = do
  refuse_if (not d.connected) dep_connect
  refuse_if d.load_fails internal
  task ← some_or (first (λ (t : DispatchTask). t.id == req.id) db.tasks) not_found
  to ← some_or (next task.status action_assign) bad_request
  who ← choose_assignee d req task db
  refuse_if (not (is_positive who.0)) bad_request
  ok (record { task = task; to = to; assignee_id = who.0; assignee_name = who.1 })

-- The WHERE of the update: the optimistic lock
abbrev pub same_version : DispatchTask → DispatchTask → Bool
same_version snapshot t = t.id == snapshot.id && t.version == snapshot.version

abbrev pub set_assignee : ℕ → AssignPlan → DispatchTask → DispatchTask
set_assignee now p t = record t {
  assignee_id = p.assignee_id;
  assignee_name = p.assignee_name;
  status = p.to;
  assign_expire_at = some (now + assign_expire_window);
  reassign_count = 0;
  version = t.version + 1;
}

-- `writeLog`: a failure is only reported.
abbrev pub write_log : Driver → DispatchTaskLog → List DispatchTaskLog → List DispatchTaskLog
write_log d entry logs = if d.log_fails then logs else logs ++ entry ∷ []

abbrev pub assign_log : RequestContext → AssignPlan → DispatchTaskLog
assign_log ctx p = record {
  tenant_id = ctx.tenant_id;
  task_id = p.task.id;
  from_status = p.task.status;
  to_status = p.to;
  action = action_assign;
  operator_id = ctx.user_id;
}

-- The part of `TaskAssign` from the update on
unfoldable pub assign_commit :
    Driver → RequestContext → ℕ → AssignPlan → Db → Result TaskAssignResp × Db
assign_commit d ctx now p db =
    if d.update_fails
    then (err internal, db)
    else if affected (same_version p.task) db.tasks == 0
    then (err bad_request, db)
    else (
      ok (record {
        id = p.task.id;
        status = p.to;
        assignee_id = p.assignee_id;
        assignee_name = p.assignee_name;
      }),
      record db {
        tasks = update (same_version p.task) (set_assignee now p) db.tasks;
        logs = write_log d (assign_log ctx p) db.logs;
      },
    )

-- A refused plan leaves the database as the handler found it; others may act before a commit.
abbrev pub after_plan :
    Driver → RequestContext → ℕ → Db → (Db → Db) → Result AssignPlan → Result TaskAssignResp × Db
after_plan d ctx now db others (err code) = (err code, db)
after_plan d ctx now db others (ok p) = assign_commit d ctx now p (others db)

-- `TaskAssign`; `others` is what other requests do to the database between its read and its write.
unfoldable pub task_assign :
    Driver → RequestContext → ℕ → TaskAssignReq → (Db → Db) → Db → Result TaskAssignResp × Db
task_assign d ctx now req others db = after_plan d ctx now db others (assign_plan d req db)
