-- ===== src/Dispatch/Invariant/Handlers.antt =====
-- The request handlers keep the database valid, whatever other requests do in between.
use onepark_smart_park.Prelude.{
  ℕ, ◌≤◌, ◌≡◌, refl, ◌⊎◌, true, some, List, [], ◌∷◌, Text, All, All-append, arith, inl, inr,
  Bool-cases, ◌==◌,
}
use onepark_smart_park.Prelude.Int.{ℤ, pos, is_positive, ◌≤ℤ◌}
use onepark_smart_park.Table.{affected}
use onepark_smart_park.Table.Laws.{update-All}
use onepark_smart_park.Dispatch.Model.{DispatchTask, DispatchTaskLog}
use onepark_smart_park.Dispatch.Fsm.{next, action_assign, action_start, action_finish, action_close}
use onepark_smart_park.Dispatch.Store.{Db, Driver, RequestContext, Result, ok, err}
use onepark_smart_park.Dispatch.Invariant.{TaskOk, LogOk, IsValid}
use onepark_smart_park.Dispatch.TaskAssign
use onepark_smart_park.Dispatch.TaskStatus
use onepark_smart_park.Dispatch.TaskStatus.{
  TaskStatusReq, TaskStatusResp, StatusPlan, status_plan, status_commit, task_status, own_version,
  set_status, status_log,
}
use onepark_smart_park.Dispatch.TaskAssign.{
  AssignPlan, assign_plan, assign_commit, task_assign, TaskAssignReq, TaskAssignResp,
  choose_assignee, same_version, set_assignee, assign_log, write_log,
}

-- What a successful plan has checked.
pub record PlanOk (p : AssignPlan) : Type 0 where
  pub accepted : next p.task.status action_assign ≡ some p.to
  pub somebody : is_positive p.assignee_id ≡ true

pub assign_plan-PlanOk :
    (d : Driver) (req : TaskAssignReq) (db : Db) {p : AssignPlan}
    → assign_plan d req db ≡ ok p
    → PlanOk p
unfolding assign_plan
assign_plan-PlanOk d req db h = ground arith

assign_to : (s t : ℕ) → next s action_assign ≡ some t → t ≡ 2
unfolding next
assign_to s t h = ground arith

assigned-TaskOk :
    (limit : ℤ) (now : ℕ) (p : AssignPlan) (t : DispatchTask)
    → PlanOk p
    → pos 0 ≤ℤ limit
    → TaskOk limit (set_assignee now p t)
assigned-TaskOk limit now p t h lim = ground (arith, assign_to p.task.status p.to h.accepted)

write_log-All :
    (d : Driver) (entry : DispatchTaskLog) (logs : List DispatchTaskLog)
    → LogOk entry
    → All LogOk logs
    → All LogOk (write_log d entry logs)
write_log-All d entry logs e h = elim (Bool-cases d.log_fails) [
  | inl lost ↦ rw lost h
  | inr kept ↦ rw kept (All-append LogOk logs (entry ∷ []) h (e, tt))
]

assign_commit-IsValid :
    (d : Driver) (ctx : RequestContext) (now : ℕ) (p : AssignPlan) {limit : ℤ} {db : Db}
    → PlanOk p
    → pos 0 ≤ℤ limit
    → IsValid limit db
    → IsValid limit (assign_commit d ctx now p db).1
unfolding assign_commit
assign_commit-IsValid d ctx now p {limit} {db} h lim v = elim (Bool-cases d.update_fails) [
  | inl e ↦ rw e v
  | inr e ↦ elim (Bool-cases (affected (same_version p.task) db.tasks == 0)) [
    | inl z ↦ rw (e, z) v
    | inr z ↦
        rw (e, z)
          (record {
            tasks_ok =
                update-All (TaskOk limit) (same_version p.task) (set_assignee now p) db.tasks
                  (λ t _ _. assigned-TaskOk limit now p t h lim) v.tasks_ok;
            logs_ok = write_log-All d (assign_log ctx p) db.logs h.accepted v.logs_ok;
            staff_ok = v.staff_ok;
          })
  ]
]

-- Assigning a task, by hand or automatically, keeps the database valid on every branch.
pub task_assign-IsValid :
    (d : Driver) (ctx : RequestContext) (now : ℕ) (req : TaskAssignReq) (others : Db → Db)
    (limit : ℤ) (db : Db)
    → pos 0 ≤ℤ limit
    → ((b : Db) → IsValid limit b → IsValid limit (others b))
    → IsValid limit db
    → IsValid limit (task_assign d ctx now req others db).1
unfolding task_assign
task_assign-IsValid d ctx now req others limit db lim keep v =
    go (assign_plan d req db) (λ p e. assign_plan-PlanOk d req db e)
  where
    go :
        (r : Result AssignPlan)
        → ((p : AssignPlan) → r ≡ ok p → PlanOk p)
        → IsValid limit (TaskAssign.after_plan d ctx now db others r).1
    go (ok p) h = assign_commit-IsValid d ctx now p (h p refl) lim (keep db v)
    go (err code) h = v

pub status_plan-next :
    (d : Driver) (ctx : RequestContext) (req : TaskStatusReq) (db : Db) {p : StatusPlan}
    → status_plan d ctx req db ≡ ok p
    → next p.task.status req.action ≡ some p.to
unfolding status_plan
status_plan-next d ctx req db h = ground arith

-- The actions that the interface documents for a status report.
abbrev pub IsReport : Text → Type 0
IsReport a = (a ≡ action_start) ⊎ ((a ≡ action_finish) ⊎ (a ≡ action_close))

start_to : (s t : ℕ) → next s action_start ≡ some t → t ≡ 3
unfolding next
start_to s t h = ground arith

finish_to : (s t : ℕ) → next s action_finish ≡ some t → t ≡ 4
unfolding next
finish_to s t h = ground arith

close_to : (s t : ℕ) → next s action_close ≡ some t → t ≡ 5
unfolding next
close_to s t h = ground arith

report_to : (s t : ℕ) (a : Text) → IsReport a → next s a ≡ some t → (3 ≤ t) × (t ≤ 5)
report_to s t a (inl e) h = omega (arith, start_to s t (rw e at h))
report_to s t a (inr (inl e)) h = omega (arith, finish_to s t (rw e at h))
report_to s t a (inr (inr e)) h = omega (arith, close_to s t (rw e at h))

reported-TaskOk :
    (limit : ℤ) (now to : ℕ) (t : DispatchTask)
    → (3 ≤ to) × (to ≤ 5)
    → TaskOk limit t
    → TaskOk limit (set_status now to t)
reported-TaskOk limit now to t h ok_t = ground arith

status_commit-IsValid :
    (d : Driver) (ctx : RequestContext) (now : ℕ) (req : TaskStatusReq) (p : StatusPlan) {limit : ℤ}
    {db : Db}
    → next p.task.status req.action ≡ some p.to
    → IsReport req.action
    → IsValid limit db
    → IsValid limit (status_commit d ctx now req p db).1
unfolding status_commit
status_commit-IsValid d ctx now req p {limit} {db} h doc v = elim (Bool-cases d.update_fails) [
  | inl e ↦ rw e v
  | inr e ↦ elim (Bool-cases (affected (own_version ctx p.task) db.tasks == 0)) [
    | inl z ↦ rw (e, z) v
    | inr z ↦ elim (Bool-cases d.log_fails) [
      | inl lost ↦ rw (e, z, lost) v
      | inr kept ↦
          rw (e, z, kept)
            (record {
              tasks_ok =
                  update-All (TaskOk limit) (own_version ctx p.task) (set_status now p.to) db.tasks
                    (λ t ok_t _. reported-TaskOk limit now p.to t (report_to _ _ _ doc h) ok_t)
                    v.tasks_ok;
              logs_ok = All-append LogOk db.logs (status_log ctx req p ∷ []) v.logs_ok (h, tt);
              staff_ok = v.staff_ok;
            })
    ]
  ]
]

-- A status report with a documented action (start, finish or close) keeps the database valid on
-- every branch.
pub task_status-IsValid :
    (d : Driver) (ctx : RequestContext) (now : ℕ) (req : TaskStatusReq) (others : Db → Db)
    (limit : ℤ) (db : Db)
    → IsReport req.action
    → ((b : Db) → IsValid limit b → IsValid limit (others b))
    → IsValid limit db
    → IsValid limit (task_status d ctx now req others db).1
unfolding task_status
task_status-IsValid d ctx now req others limit db doc keep v =
    go (status_plan d ctx req db) (λ p e. status_plan-next d ctx req db e)
  where
    go :
        (r : Result StatusPlan)
        → ((p : StatusPlan) → r ≡ ok p → next p.task.status req.action ≡ some p.to)
        → IsValid limit (TaskStatus.after_plan d ctx now req db others r).1
    go (ok p) h = status_commit-IsValid d ctx now req p (h p refl) doc (keep db v)
    go (err code) h = v
