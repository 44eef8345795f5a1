-- ===== src/Dispatch/Locking.antt =====
-- The optimistic lock of the two request handlers, and the transaction of the status report.
use onepark_smart_park.Prelude.{
  ℕ, ◌≡◌, ◌≢◌, ◌⊎◌, refl, false, some, List, [], ◌∷◌, ◌++◌, arith, inl, inr,
}
use onepark_smart_park.Table.{update, affected}
use onepark_smart_park.Table.Laws.{affected-after_update}
use onepark_smart_park.Dispatch.Model.{DispatchTask}
use onepark_smart_park.Dispatch.Fsm.{next}
use onepark_smart_park.Dispatch.Store.{
  Db, Driver, RequestContext, Result, ok, err, Code, bad_request, task_conflict,
}
use onepark_smart_park.Dispatch.TaskAssign
use onepark_smart_park.Dispatch.TaskAssign.{
  TaskAssignReq, TaskAssignResp, AssignPlan, assign_plan, assign_commit, task_assign, same_version,
  set_assignee, assign_log,
}
use onepark_smart_park.Dispatch.TaskStatus
use onepark_smart_park.Dispatch.Invariant.Handlers.{PlanOk, assign_plan-PlanOk, status_plan-next}
use onepark_smart_park.Dispatch.TaskStatus.{
  TaskStatusReq, TaskStatusResp, StatusPlan, status_plan, status_commit, task_status, own_version,
  set_status, status_log,
}

-- Two requests have read the same version of the same task.
abbrev pub SameRead : DispatchTask → DispatchTask → Type 0
SameRead t u = (t.id ≡ u.id) × (t.version ≡ u.version)

commit_updates :
    (d : Driver) (ctx : RequestContext) (now : ℕ) (p : AssignPlan) (db : Db) {r : TaskAssignResp}
    → (assign_commit d ctx now p db).0 ≡ ok r
    → (assign_commit d ctx now p db).1.tasks
      ≡ update (same_version p.task) (set_assignee now p) db.tasks
unfolding assign_commit
commit_updates d ctx now p db h = ground arith

stale_assign :
    (now : ℕ) (p : AssignPlan) (u : DispatchTask) (rows : List DispatchTask)
    → SameRead p.task u
    → affected (same_version u) (update (same_version p.task) (set_assignee now p) rows) ≡ 0
stale_assign now p u rows same =
    affected-after_update (same_version p.task) (same_version u) (set_assignee now p) rows
      (λ r h. ground arith) (λ r h. ground arith)

stale_status :
    (now : ℕ) (ctx : RequestContext) (p : AssignPlan) (u : DispatchTask) (rows : List DispatchTask)
    → SameRead p.task u
    → affected (own_version ctx u) (update (same_version p.task) (set_assignee now p) rows) ≡ 0
stale_status now ctx p u rows same =
    affected-after_update (same_version p.task) (own_version ctx u) (set_assignee now p) rows
      (λ r h. ground arith) (λ r h. ground arith)

-- Of two requests that read the same version of a task, once an assignment has committed, the
-- other, be it an assignment or a status report, is refused as a conflict and changes nothing.
pub assign_commit-excludes :
    (d e : Driver) (ctx ctx' : RequestContext) (now now' : ℕ) (p q : AssignPlan)
    (req : TaskStatusReq) (s : StatusPlan) (db : Db) {r : TaskAssignResp}
    → (assign_commit d ctx now p db).0 ≡ ok r
    → e.update_fails ≡ false
    → SameRead p.task q.task
    → SameRead p.task s.task
    → let db' = (assign_commit d ctx now p db).1 in
      (assign_commit e ctx' now' q db' ≡ (err bad_request, db'))
      × (status_commit e ctx' now' req s db' ≡ (err task_conflict, db'))
assign_commit-excludes d e ctx ctx' now now' p q req s db h works same_q same_s =
    let rows = commit_updates d ctx now p db h in
    let db' = (assign_commit d ctx now p db).1 in
    (
      stale_assign_refused db' (rw rows (stale_assign now p q.task db.tasks same_q)),
      stale_status_refused db' (rw rows (stale_status now ctx' p s.task db.tasks same_s)),
    )
  where
    stale_assign_refused :
        (b : Db)
        → affected (same_version q.task) b.tasks ≡ 0
        → assign_commit e ctx' now' q b ≡ (err bad_request, b)
    stale_assign_refused b z = unfold assign_commit in ground arith

    stale_status_refused :
        (b : Db)
        → affected (own_version ctx' s.task) b.tasks ≡ 0
        → status_commit e ctx' now' req s b ≡ (err task_conflict, b)
    stale_status_refused b z = unfold status_commit in ground arith

-- What a committed status report has done: the row changed and exactly one entry, which records
-- that change, was added to the log.
pub record Reported (ctx : RequestContext) (now : ℕ) (req : TaskStatusReq) (before after : Db)
    (r : TaskStatusResp) : Type 0 where
  pub task : DispatchTask
  pub accepted : next task.status req.action ≡ some r.status
  pub is_own : r.id ≡ task.id
  pub affects : affected (own_version ctx task) before.tasks ≢ 0
  pub rows : after.tasks ≡ update (own_version ctx task) (set_status now r.status) before.tasks
  pub entry :
      after.logs ≡ before.logs ++ status_log ctx req (record { task = task; to = r.status }) ∷ []

status_commit-Reported :
    (d : Driver) (ctx : RequestContext) (now : ℕ) (req : TaskStatusReq) (p : StatusPlan) (db : Db)
    {r : TaskStatusResp}
    → next p.task.status req.action ≡ some p.to
    → (status_commit d ctx now req p db).0 ≡ ok r
    → Reported ctx now req db (status_commit d ctx now req p db).1 r
unfolding status_commit
status_commit-Reported d ctx now req p db acc h = record {
  task = p.task;
  accepted = ground arith;
  is_own = ground arith;
  affects = ground arith;
  rows = ground arith;
  entry = ground arith;
}

-- A handler's outcome: what a success has done, or that the handler wrote nothing. `before` is the
-- database that it read, `later` the one that it found when it came to write.
abbrev pub StatusOutcome :
    RequestContext → ℕ → TaskStatusReq → Db → Db → Result TaskStatusResp × Db → Type 0
StatusOutcome ctx now req before later (ok r, after) = Reported ctx now req later after r
StatusOutcome ctx now req before later (err code, after) = (after ≡ before) ⊎ (after ≡ later)

status_commit_outcome :
    (d : Driver) (ctx : RequestContext) (now : ℕ) (req : TaskStatusReq) (p : StatusPlan)
    (before db : Db)
    → next p.task.status req.action ≡ some p.to
    → StatusOutcome ctx now req before db (status_commit d ctx now req p db)
status_commit_outcome d ctx now req p before db acc =
    go (status_commit d ctx now req p db).0 (status_commit d ctx now req p db).1
      (λ r h. status_commit-Reported d ctx now req p db acc h)
      (λ c h. unfold status_commit in ground arith)
  where
    go :
        (r : Result TaskStatusResp) (after : Db)
        → ((x : TaskStatusResp) → r ≡ ok x → Reported ctx now req db after x)
        → ((c : Code) → r ≡ err c → after ≡ db)
        → StatusOutcome ctx now req before db (r, after)
    go (ok x) after s f = s x refl
    go (err c) after s f = inr (f c refl)

-- A status report is atomic on every branch: a success has changed the row and added its one log
-- entry, and an error, the failed log entry included, has written nothing.
pub task_status-atomic :
    (d : Driver) (ctx : RequestContext) (now : ℕ) (req : TaskStatusReq) (others : Db → Db) (db : Db)
    → StatusOutcome ctx now req db (others db) (task_status d ctx now req others db)
unfolding task_status
task_status-atomic d ctx now req others db =
    go (status_plan d ctx req db) (λ p h. status_plan-next d ctx req db h)
  where
    go :
        (r : Result StatusPlan)
        → ((p : StatusPlan) → r ≡ ok p → next p.task.status req.action ≡ some p.to)
        → StatusOutcome ctx now req db (others db) (TaskStatus.after_plan d ctx now req db others r)
    go (ok p) h = status_commit_outcome d ctx now req p db (others db) (h p refl)
    go (err c) h = inl refl

-- What a committed assignment has done. Its log entry may be lost, which the handler only reports.
pub record Assigned (ctx : RequestContext) (now : ℕ) (before after : Db) (r : TaskAssignResp)
    : Type 0 where
  pub plan : AssignPlan
  pub checked : PlanOk plan
  pub answer : r ≡ record {
    id = plan.task.id;
    status = plan.to;
    assignee_id = plan.assignee_id;
    assignee_name = plan.assignee_name;
  }
  pub affects : affected (same_version plan.task) before.tasks ≢ 0
  pub rows : after.tasks ≡ update (same_version plan.task) (set_assignee now plan) before.tasks
  pub entry : (after.logs ≡ before.logs) ⊎ (after.logs ≡ before.logs ++ assign_log ctx plan ∷ [])

abbrev pub AssignOutcome : RequestContext → ℕ → Db → Db → Result TaskAssignResp × Db → Type 0
AssignOutcome ctx now before later (ok r, after) = Assigned ctx now later after r
AssignOutcome ctx now before later (err code, after) = (after ≡ before) ⊎ (after ≡ later)

assign_commit_outcome :
    (d : Driver) (ctx : RequestContext) (now : ℕ) (p : AssignPlan) (before db : Db)
    → PlanOk p
    → AssignOutcome ctx now before db (assign_commit d ctx now p db)
assign_commit_outcome d ctx now p before db ok_p =
    go (assign_commit d ctx now p db).0 (assign_commit d ctx now p db).1
      (λ r h.
        unfold assign_commit in
        record {
          plan = p;
          checked = ok_p;
          answer = ground arith;
          affects = ground arith;
          rows = ground arith;
          entry = ground arith;
        })
      (λ c h. unfold assign_commit in ground arith)
  where
    go :
        (r : Result TaskAssignResp) (after : Db)
        → ((x : TaskAssignResp) → r ≡ ok x → Assigned ctx now db after x)
        → ((c : Code) → r ≡ err c → after ≡ db)
        → AssignOutcome ctx now before db (r, after)
    go (ok x) after s f = s x refl
    go (err c) after s f = inr (f c refl)

-- An assignment on every branch: a success has given the task, from a status that allows it, to
-- somebody with a positive id; an error has written nothing.
pub task_assign_outcome :
    (d : Driver) (ctx : RequestContext) (now : ℕ) (req : TaskAssignReq) (others : Db → Db) (db : Db)
    → AssignOutcome ctx now db (others db) (task_assign d ctx now req others db)
unfolding task_assign
task_assign_outcome d ctx now req others db =
    go (assign_plan d req db) (λ p h. assign_plan-PlanOk d req db h)
  where
    go :
        (r : Result AssignPlan)
        → ((p : AssignPlan) → r ≡ ok p → PlanOk p)
        → AssignOutcome ctx now db (others db) (TaskAssign.after_plan d ctx now db others r)
    go (ok p) h = assign_commit_outcome d ctx now p db (others db) (h p refl)
    go (err c) h = inl refl
