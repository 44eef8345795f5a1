-- ===== src/Dispatch/Reassign.antt =====
-- The timed reassignment of tasks that nobody took up: internal/cron/reassign.go and the lock TTL
-- of internal/cron/cron.go.
pub mod Progress
use onepark_smart_park.Prelude.{
  ℕ, zero, suc, ◌+◌, ◌-◌, ◌*◌, ◌/◌, Bool, true, false, ◌&&◌, ◌||◌, not, Option, none, some, List,
  [], ◌∷◌, ◌++◌, Text, ltb, leb, ◌==◌, if◌then◌else◌, select,
}
use onepark_smart_park.Prelude.Int.{ℤ, pos, pos_part, is_positive, eq_ℤ, leb_ℤ}
use onepark_smart_park.Table.{first, update, affected}
use onepark_smart_park.Dispatch.Model.{
  DispatchTask, DispatchTaskLog, assign_expire_window, max_reassign_default, status_assigned,
}
use onepark_smart_park.Dispatch.Fsm.{next, action_assign, action_release}
use onepark_smart_park.Dispatch.Assign.{Candidate, pick, pool, without, staff_candidates}
use onepark_smart_park.Dispatch.Store.{Db}

pub record ReassignResult : Type 0 where
  pub reassigned : ℕ
  pub released : ℕ

-- `Decision` with the candidate that goes with it
pub data Decision : Type 0 where
  reassign : Candidate → Decision
  release : Decision

-- The default of a limit that is not positive
unfoldable pub limit_of : ℤ → ℤ
limit_of max_reassign = if is_positive max_reassign then max_reassign else pos max_reassign_default

abbrev decide_on : Option Candidate → Decision
decide_on none = release
decide_on (some best) = reassign best

unfoldable pub decide_reassign : DispatchTask → List Candidate → ℤ → Decision
unfolding limit_of
decide_reassign t candidates max_reassign =
    if leb_ℤ (limit_of max_reassign) (pos t.reassign_count)
    then release
    else decide_on (pick t.zone_code t.required_skill (without candidates t.assignee_id))

-- How the driver answers in one run: failures of the run's queries, and of the statements for each
-- task; `history` is the query of `LoadCandidates`.
pub record CronDriver : Type 0 where
  pub db_ready : Bool
  pub redis_ready : Bool
  pub token_fails : Bool
  pub lock_fails : Bool
  pub find_fails : Bool
  pub pool_fails : Bool
  pub update_fails : DispatchTask → Bool
  pub log_fails : DispatchTask → Bool
  pub history : List DispatchTask → List Candidate

-- The WHERE of both updates
abbrev pub still_assigned : DispatchTask → DispatchTask → Bool
still_assigned snapshot t =
    t.id == snapshot.id && (t.version == snapshot.version && t.status == status_assigned)

abbrev pub cron_log : DispatchTask → ℕ → Text → DispatchTaskLog
cron_log t to action = record {
  tenant_id = t.tenant_id;
  task_id = t.id;
  from_status = status_assigned;
  to_status = to;
  action = action;
  operator_id = 0;
}

-- What one statement for a task came to: an error, no row affected, or done.
pub data Written : Type 0 where
  failed skipped done : Written

abbrev pub write_where :
    CronDriver → DispatchTask → (DispatchTask → DispatchTask) → DispatchTaskLog → Db → Written × Db
write_where d t set entry db =
    if d.update_fails t
    then (failed, db)
    else if affected (still_assigned t) db.tasks == 0
    then (skipped, db)
    else (
      done,
      record db {
        tasks = update (still_assigned t) set db.tasks;
        logs = if d.log_fails t then db.logs else db.logs ++ entry ∷ [];
      },
    )

abbrev pub set_reassigned : ℕ → Candidate → DispatchTask → DispatchTask
set_reassigned now to t = record t {
  assignee_id = to.assignee_id;
  assignee_name = to.assignee_name;
  assign_expire_at = some (now + assign_expire_window);
  reassign_count = t.reassign_count + 1;
  version = t.version + 1;
}

abbrev pub set_released : ℕ → DispatchTask → DispatchTask
set_released to t = record t {
  status = to;
  assignee_id = pos 0;
  assignee_name = [];
  assign_expire_at = none;
  version = t.version + 1;
}

unfoldable pub reassign_task : CronDriver → ℕ → DispatchTask → Candidate → Db → Written × Db
reassign_task d now t to db =
    write_where d t (set_reassigned now to) (cron_log t status_assigned action_assign) db

unfoldable pub release_task : CronDriver → DispatchTask → Db → Written × Db
release_task d t db = elim (next status_assigned action_release) [
  | none ↦ (failed, db)
  | some to ↦ write_where d t (set_released to) (cron_log t to action_release) db
]

-- `pool[j].Load++` for the first candidate with the id
unfoldable pub add_load : ℤ → List Candidate → List Candidate
add_load id [] = []
add_load id (c ∷ cs) =
    let rest = add_load id cs in
    if eq_ℤ c.assignee_id id then record c { load = c.load + 1 } ∷ cs else c ∷ rest

pub record RunState : Type 0 where
  pub db : Db
  pub candidates : List Candidate
  pub result : ReassignResult

abbrev pub after_release : RunState → Written × Db → RunState
after_release s (done, db) = record s {
  db = db;
  result = record { reassigned = s.result.reassigned; released = s.result.released + 1 };
}
after_release s (skipped, db) = record s { db = db }
after_release s (failed, db) = record s { db = db }

abbrev pub after_reassign : RunState → Candidate → Written × Db → RunState
after_reassign s best (done, db) = record {
  db = db;
  candidates = add_load best.assignee_id s.candidates;
  result = record { reassigned = s.result.reassigned + 1; released = s.result.released };
}
after_reassign s best (skipped, db) = record s { db = db }
after_reassign s best (failed, db) = record s { db = db }

abbrev pub carry_out : CronDriver → ℕ → DispatchTask → RunState → Decision → RunState
carry_out d now t s release = after_release s (release_task d t s.db)
carry_out d now t s (reassign best) = after_reassign s best (reassign_task d now t best s.db)

-- The body of the loop for one task
unfoldable pub settle : CronDriver → ℕ → ℤ → DispatchTask → RunState → RunState
settle d now max_reassign t s = carry_out d now t s (decide_reassign t s.candidates max_reassign)

-- The loop; `others t` is what other requests do before the task `t` is settled.
unfoldable pub settle_all :
    CronDriver → ℕ → ℤ → (DispatchTask → Db → Db) → List DispatchTask → RunState → RunState
settle_all d now max_reassign others [] s = s
settle_all d now max_reassign others (t ∷ ts) s =
    settle_all d now max_reassign others ts
      (settle d now max_reassign t (record s { db = others t s.db }))

abbrev expires_before : Option ℕ → ℕ → Bool
expires_before none now = false
expires_before (some at) now = ltb at now

-- The WHERE of the scan
abbrev pub is_expired : ℕ → DispatchTask → Bool
is_expired now t = t.status == status_assigned && expires_before t.assign_expire_at now

abbrev pub expire_le : Option ℕ → Option ℕ → Bool
expire_le none b = true
expire_le (some a) none = false
expire_le (some a) (some b) = leb a b

-- `Order("assign_expire_at ASC")`; rows that expire together keep their order.
unfoldable pub insert_by_expiry : DispatchTask → List DispatchTask → List DispatchTask
insert_by_expiry t [] = t ∷ []
insert_by_expiry t (u ∷ us) =
    let rest = insert_by_expiry t us in
    if expire_le t.assign_expire_at u.assign_expire_at then t ∷ u ∷ us else u ∷ rest

unfoldable pub sort_by_expiry : List DispatchTask → List DispatchTask
unfolding insert_by_expiry
sort_by_expiry [] = []
sort_by_expiry (t ∷ ts) = insert_by_expiry t (sort_by_expiry ts)

unfoldable pub find_expired : ℕ → List DispatchTask → List DispatchTask
unfolding sort_by_expiry
find_expired now tasks = sort_by_expiry (select (is_expired now) tasks)

-- `releaseLockScript`: the lock goes only if it still holds the run's own token.
unfoldable pub release_lock : ℕ → Option ℕ → Option ℕ
release_lock token none = none
release_lock token (some held) = if held == token then none else some held

abbrev pub start_run : CronDriver → Db → RunState
start_run d db = record {
  db = db;
  candidates = pool (staff_candidates db.staff db.tasks) (d.history db.tasks);
  result = record { reassigned = 0; released = 0 };
}

-- The pool is loaded once, and only if there is a task to settle.
abbrev pub settle_found :
    CronDriver
    → ℕ
    → ℤ
    → (DispatchTask → Db → Db)
    → Db
    → List DispatchTask
    → Option ReassignResult × Db
settle_found d now max_reassign others db [] = (some (record { reassigned = 0; released = 0 }), db)
settle_found d now max_reassign others db (t ∷ ts) =
    let finish = settle_all d now max_reassign others (t ∷ ts) (start_run d db) in
    if d.pool_fails then (none, db) else (some finish.result, finish.db)

-- The part of `RunReassignOnce` that runs under the lock: `none` is an error.
unfoldable pub reassign_locked :
    CronDriver → ℕ → ℤ → (DispatchTask → Db → Db) → Db → Option ReassignResult × Db
reassign_locked d now max_reassign others db =
    if d.find_fails
    then (none, db)
    else settle_found d now max_reassign others db (find_expired now db.tasks)

-- `RunReassignOnce`; `meanwhile` is what happens to the lock while the run holds it (it may expire
-- and be taken by another instance). The result is the run's, the database and the lock.
unfoldable pub run_reassign_once :
    CronDriver
    → ℕ
    → ℤ
    → ℕ
    → (Option ℕ → Option ℕ)
    → (DispatchTask → Db → Db)
    → Option ℕ
    → Db
    → Option ReassignResult × Db × Option ℕ
unfolding reassign_locked release_lock
run_reassign_once d now max_reassign token meanwhile others lock db =
    if not d.db_ready || (not d.redis_ready || (d.token_fails || d.lock_fails))
    then (none, db, lock)
    else elim lock [
      | some held ↦ (some (record { reassigned = 0; released = 0 }), db, some held)
      | none ↦
          let (result, db') = reassign_locked d now max_reassign others db in
          (result, db', release_lock token (meanwhile (some token)))
    ]

-- `ReassignLockTTL`, in seconds: the source multiplies by a second and divides by two.
abbrev pub default_interval_sec : ℕ
default_interval_sec = 60

abbrev pub lock_ttl_margin : ℕ
lock_ttl_margin = 10

-- In nanoseconds. Truncated subtraction differs from Go's only where the difference is negative,
-- and both are below the minimum there.
unfoldable pub reassign_lock_ttl : ℤ → ℕ
reassign_lock_ttl interval_sec =
    let secs = if is_positive interval_sec then pos_part interval_sec else default_interval_sec in
    let interval = secs * 1000000000 in
    let ttl = interval - lock_ttl_margin * 1000000000 in
    let least = interval / 2 in if ltb ttl least then least else ttl
