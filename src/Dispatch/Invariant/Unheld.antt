-- ===== src/Dispatch/Invariant/Unheld.antt =====
-- What the status handler does with an action that is not a report.
use onepark_smart_park.Prelude.{
  ℕ, ◌≡◌, refl, Bool, true, false, ◌&&◌, some, none, [], ◌∷◌, ◌++◌, arith, ◌==◌,
}
use onepark_smart_park.Prelude.Int.{ℤ, pos}
use onepark_smart_park.Table.{first, update}
use onepark_smart_park.Table.Laws.{
  first-holds, first-affected, first-update-All, first-update-some, first-All,
}
use onepark_smart_park.Dispatch.Model.{DispatchTask}
use onepark_smart_park.Dispatch.Fsm.{next, action_assign}
use onepark_smart_park.Dispatch.Store.{Db, Driver, RequestContext, ok}
use onepark_smart_park.Dispatch.Invariant.{TaskOk, IsValid}
use onepark_smart_park.Dispatch.TaskStatus.{
  TaskStatusReq, StatusPlan, status_plan, status_commit, task_status, own_version, set_status,
  status_log,
}

-- Every statement of the call succeeds.
pub record IsUp (d : Driver) : Type 0 where
  pub connected : d.connected ≡ true
  pub loads : d.load_fails ≡ false
  pub updates : d.update_fails ≡ false
  pub writes_log : d.log_fails ≡ false

module _ (d : Driver) (ctx : RequestContext) (now id : ℕ) (db : Db) (t : DispatchTask)
    (up : IsUp d) where
  abbrev own_task : DispatchTask → Bool
  own_task u = u.id == id && u.tenant_id == ctx.tenant_id

  abbrev request : TaskStatusReq
  request = record { id = id; action = action_assign }

  abbrev plan : StatusPlan
  plan = record { task = t; to = 2 }

  plan_made :
      first own_task db.tasks ≡ some t → t.status ≡ 1 → status_plan d ctx request db ≡ ok plan
  unfolding status_plan next
  plan_made found pending = ground arith

  selects_own : first own_task db.tasks ≡ some t → own_version ctx t t ≡ true
  selects_own found = ground (arith, first-holds own_task db.tasks {r = t} found)

  commit_made :
      first own_task db.tasks ≡ some t
      → status_commit d ctx now request plan db ≡ (
        ok (record { id = t.id; status = 2 }),
        record db {
          tasks = update (own_version ctx t) (set_status now 2) db.tasks;
          logs = db.logs ++ status_log ctx request plan ∷ [];
        },
      )
  unfolding status_commit
  commit_made found =
      ground
        (arith, first-affected own_task (own_version ctx t) db.tasks t found (selects_own found))

  not_held : (limit : ℤ) → t.status ≡ 1 → TaskOk limit t → ¬ TaskOk limit (set_status now 2 t)
  not_held limit pending before after = ground arith

  stored :
      first own_task db.tasks ≡ some t
      → first own_task (update (own_version ctx t) (set_status now 2) db.tasks)
        ≡ some (set_status now 2 t)
  stored found =
      first-update-some own_task (own_version ctx t) (set_status now 2) db.tasks t (λ u. refl) found
        (selects_own found)

-- The handler takes any action of the state machine: in a valid database a report `assign` on a
-- pending task answers success, and then the task with that id is an assigned one with no assignee
-- and no deadline, so that the database is not valid any more. Condition: every statement succeeds.
pub task_status-assign_breaks :
    (d : Driver) (ctx : RequestContext) (now : ℕ) (id : ℕ) (limit : ℤ) (db : Db) (t : DispatchTask)
    → IsUp d
    → first (λ (u : DispatchTask). u.id == id && u.tenant_id == ctx.tenant_id) db.tasks ≡ some t
    → t.status ≡ 1
    → IsValid limit db
    → let (r, db') =
        task_status d ctx now (record { id = id; action = action_assign }) (λ b. b) db in
      (r ≡ ok (record { id = t.id; status = 2 }))
      × (((u : DispatchTask) × ((first
                  (λ (u : DispatchTask). u.id == id && u.tenant_id == ctx.tenant_id)
                  db'.tasks
                ≡ some u)
              × ((u.status ≡ 2) × ((u.assignee_id ≡ pos 0) × (u.assign_expire_at ≡ none)))))
          × ¬ IsValid limit db')
unfolding task_status
task_status-assign_breaks d ctx now id limit db t up found pending v =
    rw (plan_made d ctx now id db t up found pending, commit_made d ctx now id db t up found)
      (
        refl,
        (
          (
            set_status now 2 t,
            (
              stored d ctx now id db t up found,
              (refl, (first-All (TaskOk limit) _ db.tasks v.tasks_ok found).pending_free pending),
            ),
          ),
          λ after.
              not_held d ctx now id db t up limit pending
                (first-All (TaskOk limit) _ db.tasks v.tasks_ok found)
                (first-update-All (TaskOk limit) _ (own_version ctx t) (set_status now 2) db.tasks t
                  found (selects_own d ctx now id db t up found) after.tasks_ok),
        ),
      )
