-- ===== src/Dispatch/Reachable.antt =====
-- Any sequence of requests, alarm messages and timed runs, from an empty database.
use mathlib.Core.Path.{subst, sym}
use onepark_smart_park.Prelude.{ℕ, ◌≡◌, Text, All, List, [], arith}
use onepark_smart_park.Prelude.Int.{ℤ, pos, ◌≤ℤ◌}
use onepark_smart_park.Dispatch.Model.{DispatchTask, DispatchStaff}
use onepark_smart_park.Dispatch.Store.{Db, Driver, RequestContext}
use onepark_smart_park.Dispatch.Create.{Inserts, TaskCreateReq, task_create}
use onepark_smart_park.Dispatch.Create.Laws.{task_create-IsValid}
use onepark_smart_park.Dispatch.Alarm.{Json, handle}
use onepark_smart_park.Dispatch.Alarm.Laws.{handle-IsValid}
use onepark_smart_park.Dispatch.TaskAssign.{TaskAssignReq, task_assign}
use onepark_smart_park.Dispatch.TaskStatus.{TaskStatusReq, task_status}
use onepark_smart_park.Dispatch.Reassign.{CronDriver, limit_of, reassign_locked}
use onepark_smart_park.Dispatch.Invariant.{IsValid, StaffOk, HasId}
use onepark_smart_park.Dispatch.Invariant.Handlers.{
  IsReport, task_assign-IsValid, task_status-IsValid,
}
use onepark_smart_park.Dispatch.Invariant.Cron.{UniqueIds, reassign_locked-IsValid}

-- One call, with nothing else in between. The driver, the clock and the request are anything; a
-- status report has a documented action, and the rows that a timed run scans have distinct keys.
pub data Step (max_reassign : ℤ) (db : Db) : Db → Type 0 where
  create :
      (i : Inserts) (ctx : RequestContext) (req : TaskCreateReq) (seq : ℕ)
      → ((n : ℕ) (b : Db) → i.meanwhile n b ≡ b)
      → Step max_reassign db (task_create i ctx req seq db).1
  alarm :
      (json : Json) (i : Inserts) (tenant : ℕ) (value : Text) (seq : ℕ)
      → ((n : ℕ) (b : Db) → i.meanwhile n b ≡ b)
      → Step max_reassign db (handle json i tenant value seq db).1
  assign :
      (d : Driver) (ctx : RequestContext) (now : ℕ) (req : TaskAssignReq)
      → Step max_reassign db (task_assign d ctx now req (λ b. b) db).1
  report :
      (d : Driver) (ctx : RequestContext) (now : ℕ) (req : TaskStatusReq)
      → IsReport req.action
      → Step max_reassign db (task_status d ctx now req (λ b. b) db).1
  timer :
      (d : CronDriver) (now : ℕ)
      → ((ts : List DispatchTask) → All HasId (d.history ts))
      → UniqueIds db.tasks
      → Step max_reassign db (reassign_locked d now max_reassign (λ t b. b) db).1

pub data Reach (max_reassign : ℤ) (db : Db) : Db → Type 0 where
  here : Reach max_reassign db db
  next : {b c : Db} → Reach max_reassign db b → Step max_reassign b c → Reach max_reassign db c

limit_of-nonneg : (m : ℤ) → pos 0 ≤ℤ limit_of m
unfolding limit_of
limit_of-nonneg m = ground arith

Step-IsValid :
    (m : ℤ) {db db' : Db} → Step m db db' → IsValid (limit_of m) db → IsValid (limit_of m) db'
Step-IsValid m {db} (create i ctx req seq alone) v =
    task_create-IsValid i ctx req seq (limit_of m) db (limit_of-nonneg m)
      (λ n b h. subst (IsValid (limit_of m)) (sym (alone n b)) h) v
Step-IsValid m {db} (alarm json i tenant value seq alone) v =
    handle-IsValid json i tenant value seq (limit_of m) db (limit_of-nonneg m)
      (λ n b h. subst (IsValid (limit_of m)) (sym (alone n b)) h) v
Step-IsValid m {db} (assign d ctx now req) v =
    task_assign-IsValid d ctx now req (λ b. b) (limit_of m) db (limit_of-nonneg m) (λ b h. h) v
Step-IsValid m {db} (report d ctx now req doc) v =
    task_status-IsValid d ctx now req (λ b. b) (limit_of m) db doc (λ b h. h) v
Step-IsValid m {db} (timer d now history unique) v =
    reassign_locked-IsValid d now m (λ t b. b) db history (λ t ts b h. h) unique v

-- Whatever requests, alarms and timed runs came before, in a service that started without tasks
-- each stored task has one of the five statuses, a pending task nobody, an assigned task a person
-- and a deadline, no task more automatic reassignments than the limit, and the log only
-- transitions of the state machine.
pub Reach-IsValid :
    (max_reassign : ℤ) (staff : List DispatchStaff) {db : Db}
    → All StaffOk staff
    → Reach max_reassign (record { tasks = []; logs = []; staff = staff }) db
    → IsValid (limit_of max_reassign) db
Reach-IsValid m staff ids here = record { tasks_ok = tt; logs_ok = tt; staff_ok = ids }
Reach-IsValid m staff ids (next r st) = Step-IsValid m st (Reach-IsValid m staff ids r)
