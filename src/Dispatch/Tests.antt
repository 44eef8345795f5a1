-- ===== src/Dispatch/Tests.antt =====
-- The theorems of dispatch-service at concrete inputs, and runs of its functions.
use onepark_smart_park.Prelude.{
  ◌&&◌, ◌==◌, ◌<◌, ◌≡◌, ◌↔◌, refl, inr, true, false, none, some, [], ◌∷◌, codes, arith, All,
}
use onepark_smart_park.Prelude.Int.{pos}
use onepark_smart_park.Table.{first}
use onepark_smart_park.Dispatch.Model.{DispatchTask, DispatchStaff}
use onepark_smart_park.Dispatch.Fsm.{next, action_assign, action_close}
use onepark_smart_park.Dispatch.Assign.{
  Candidate, explain, pick, zone_distance, has_skill, floor_key, building_key,
}
use onepark_smart_park.Dispatch.Assign.Score.{Worse, score-lt-iff-Worse}
use onepark_smart_park.Dispatch.Assign.Pick.{IsFirstBest, pick_lem}
use onepark_smart_park.Dispatch.Store.{
  Db, Driver, RequestContext, ok, err, bad_request, task_conflict, is_duplicate_key_on,
}
use onepark_smart_park.Dispatch.Create.{Inserts, TaskCreateReq, task_create, normalize_skills}
use onepark_smart_park.Dispatch.Alarm.{
  AlarmEvent, Json, decode_alarm, build_draft, alarm_loop, handle, commit,
}
use onepark_smart_park.Dispatch.Alarm.Idempotent.{HasTask, handle-commit_kept}
use onepark_smart_park.Dispatch.TaskAssign.{
  TaskAssignReq, AssignPlan, assign_plan, choose_assignee, pick_auto_assignee, load_pool,
  assign_commit, task_assign,
}
use onepark_smart_park.Dispatch.TaskStatus.{TaskStatusReq, status_commit, task_status}
use onepark_smart_park.Dispatch.Locking.{StatusOutcome, assign_commit-excludes, task_status-atomic}
use onepark_smart_park.Dispatch.Reassign.{CronDriver, limit_of, reassign_locked, is_expired}
use onepark_smart_park.Dispatch.Reassign.Progress.{reassign_locked-settles}
use onepark_smart_park.Dispatch.Invariant.{IsValid}
use onepark_smart_park.Dispatch.Invariant.Cron.{reassign_locked-IsValid}
use onepark_smart_park.Dispatch.Invariant.Handlers.{task_assign-IsValid, task_status-IsValid}
use onepark_smart_park.Dispatch.Invariant.Unheld.{task_status-assign_breaks}
use onepark_smart_park.Dispatch.Reachable.{Reach, Reach-IsValid}
use onepark_smart_park.Dispatch.Reachable

abbrev li : DispatchStaff
li = record {
  staff_id = pos 7;
  name = codes "li";
  zone_code = codes "A-3F-301";
  skills = codes "fire, Electrical";
  on_duty = 1;
  status = 1;
}

abbrev wang : DispatchStaff
wang = record {
  staff_id = pos 8;
  name = codes "wang";
  zone_code = codes "A-2F-210";
  skills = codes "security";
  on_duty = 1;
  status = 1;
}

abbrev pending : DispatchTask
pending = record {
  id = 1;
  tenant_id = 5;
  task_no = codes "DT1";
  title = codes "leak";
  source = 1;
  alarm_id = none;
  zone_code = codes "A-3F-305";
  required_skill = codes "fire";
  priority = 2;
  status = 1;
  assignee_id = pos 0;
  assignee_name = [];
  assign_expire_at = none;
  reassign_count = 0;
  finished_at = none;
  version = 0;
}

abbrev overdue : DispatchTask
overdue = record pending {
  status = 2;
  assignee_id = pos 7;
  assignee_name = codes "li";
  assign_expire_at = some 100;
  version = 1;
}

abbrev empty_db : Db
empty_db = record { tasks = []; logs = []; staff = li ∷ wang ∷ [] }

abbrev one_pending : Db
one_pending = record empty_db { tasks = pending ∷ [] }

abbrev one_overdue : Db
one_overdue = record empty_db { tasks = overdue ∷ [] }

abbrev up : Driver
up = record {
  connected = true;
  load_fails = false;
  pool_fails = false;
  update_fails = false;
  log_fails = false;
  history = λ ts. [];
  staff_name_fails = false;
  max_name = λ ts id. none;
}

abbrev ctx : RequestContext
ctx = record { tenant_id = 5; user_id = 2 }

abbrev inserts : Inserts
inserts = record {
  connected = true;
  insert_error = λ n t b. none;
  fresh_id = λ n b. 1;
  log_error = λ n b. none;
  meanwhile = λ n b. b;
  stamp = codes "20260101000000";
}

abbrev cron_up : CronDriver
cron_up = record {
  db_ready = true;
  redis_ready = true;
  token_fails = false;
  lock_fails = false;
  find_fails = false;
  pool_fails = false;
  update_fails = λ t. false;
  log_fails = λ t. false;
  history = λ ts. [];
}

abbrev new_request : TaskCreateReq
new_request = record {
  title = codes "leak";
  zone_code = codes "A-3F-305";
  required_skill = codes "Fire";
  priority = 2;
  source = 1;
}

abbrev auto : TaskAssignReq
auto = record { id = 1; assignee_id = pos 0 }

-- An automatic assignment finds the person with the skill on the same floor.
auto_assign_run :
    (task_assign up ctx 0 auto (λ b. b) one_pending).0
    ≡ ok (record { id = 1; status = 2; assignee_id = pos 7; assignee_name = codes "li" })
unfolding task_assign assign_plan choose_assignee pick_auto_assignee load_pool pick explain
    zone_distance has_skill next assign_commit floor_key building_key
auto_assign_run = refl

normalize_skills_run : normalize_skills (codes "Fire, fire ,electrical") ≡ codes "fire,electrical"
unfolding normalize_skills
normalize_skills_run = refl

zone_distance_run : zone_distance (codes "A-3F-301") (codes "A-3F-305") ≡ 1
unfolding zone_distance floor_key building_key
zone_distance_run = refl

IsValid-pending : IsValid (pos 3) one_pending
IsValid-pending = record {
  tasks_ok = (ground arith, tt);
  logs_ok = tt;
  staff_ok = (refl, (refl, tt));
}

IsValid-overdue : IsValid (pos 3) one_overdue
IsValid-overdue = record {
  tasks_ok = (ground arith, tt);
  logs_ok = tt;
  staff_ok = (refl, (refl, tt));
}

abbrev created : Db
created = (task_create inserts ctx new_request 0 empty_db).1

Reach-IsValid_example : IsValid (limit_of (pos 3)) (task_assign up ctx 0 auto (λ b. b) created).1
Reach-IsValid_example =
    Reach-IsValid (pos 3) (li ∷ wang ∷ []) (refl, (refl, tt))
      (Reachable.Reach.next
        (Reachable.Reach.next Reachable.Reach.here
          (Reachable.Step.create inserts ctx new_request 0 (λ n b. refl)))
        (Reachable.Step.assign up ctx 0 auto))

abbrev fire_event : AlarmEvent
fire_event = record {
  request_id = codes "r1";
  device_id = codes "d1";
  event_type = codes "fire";
  payload = [];
}

abbrev one_message : Json
one_message = record { event = λ v. some fire_event; zone = λ p. none }

no_clash : is_duplicate_key_on none (codes "uk_alarm_id") ≡ false
unfolding is_duplicate_key_on
no_clash = refl

handled : (handle one_message inserts 1 (codes "m") 0 empty_db).0 ≡ commit
unfolding handle decode_alarm build_draft alarm_loop
handled = refl

handle-commit_kept_example :
    HasTask (codes "r1") (handle one_message inserts 1 (codes "m") 0 empty_db).1.tasks
handle-commit_kept_example =
    handle-commit_kept one_message inserts 1 (codes "m") 0 empty_db {evt = fire_event}
      (λ n t b id h dup. let f = no_clash in cc) (unfold decode_alarm in refl) handled

abbrev to_li : AssignPlan
to_li = record { task = pending; to = 2; assignee_id = pos 7; assignee_name = codes "li" }

abbrev to_wang : AssignPlan
to_wang = record { task = pending; to = 2; assignee_id = pos 8; assignee_name = codes "wang" }

abbrev closing : TaskStatusReq
closing = record { id = 1; action = action_close }

li_commits :
    (assign_commit up ctx 0 to_li one_pending).0
    ≡ ok (record { id = 1; status = 2; assignee_id = pos 7; assignee_name = codes "li" })
unfolding assign_commit
li_commits = refl

assign_commit-excludes_example :
    let db' = (assign_commit up ctx 0 to_li one_pending).1 in
    (assign_commit up ctx 9 to_wang db' ≡ (err bad_request, db'))
    × (status_commit up ctx 9 closing (record { task = pending; to = 5 }) db'
        ≡ (err task_conflict, db'))
assign_commit-excludes_example =
    assign_commit-excludes up up ctx ctx 0 9 to_li to_wang closing
      (record { task = pending; to = 5 }) one_pending li_commits refl (refl, refl) (refl, refl)

reassign_locked-settles_example :
    All
      (λ u. is_expired 200 u ≡ false)
      (reassign_locked cron_up 200 (pos 3) (λ t b. b) one_overdue).1.tasks
reassign_locked-settles_example =
    reassign_locked-settles cron_up 200 (pos 3) (λ t b. b) one_overdue (refl, (refl, λ t. refl))
      (λ t us b h. h)

reassign_locked-IsValid_example :
    IsValid (limit_of (pos 3)) (reassign_locked cron_up 200 (pos 3) (λ t b. b) one_overdue).1
reassign_locked-IsValid_example =
    reassign_locked-IsValid cron_up 200 (pos 3) (λ t b. b) one_overdue (λ ts. tt) (λ t ts b h. h)
      (((λ e. refl), tt), tt) (unfold limit_of in IsValid-overdue)

task_assign-IsValid_example : IsValid (pos 3) (task_assign up ctx 0 auto (λ b. b) one_pending).1
task_assign-IsValid_example =
    task_assign-IsValid up ctx 0 auto (λ b. b) (pos 3) one_pending (omega arith) (λ b h. h)
      IsValid-pending

task_status-IsValid_example : IsValid (pos 3) (task_status up ctx 0 closing (λ b. b) one_pending).1
task_status-IsValid_example =
    task_status-IsValid up ctx 0 closing (λ b. b) (pos 3) one_pending (inr (inr refl)) (λ b h. h)
      IsValid-pending

task_status-assign_breaks_example :
    let (r, db') =
      task_status up ctx 0 (record { id = 1; action = action_assign }) (λ b. b) one_pending in
    (r ≡ ok (record { id = 1; status = 2 }))
    × (((u : DispatchTask) × ((first
                (λ (u : DispatchTask). u.id == 1 && u.tenant_id == ctx.tenant_id)
                db'.tasks
              ≡ some u)
            × ((u.status ≡ 2) × ((u.assignee_id ≡ pos 0) × (u.assign_expire_at ≡ none)))))
        × ¬ IsValid (pos 3) db')
task_status-assign_breaks_example =
    task_status-assign_breaks up ctx 0 1 (pos 3) one_pending pending
      (record { connected = refl; loads = refl; updates = refl; writes_log = refl }) refl refl
      IsValid-pending

task_status-atomic_example :
    StatusOutcome ctx 0 closing one_pending one_pending
      (task_status up ctx 0 closing (λ b. b) one_pending)
task_status-atomic_example = task_status-atomic up ctx 0 closing (λ b. b) one_pending

abbrev cand_li : Candidate
cand_li = record {
  assignee_id = pos 7;
  assignee_name = codes "li";
  zone_code = codes "A-3F-301";
  skills = codes "fire" ∷ [];
  load = 120;
}

abbrev cand_wang : Candidate
cand_wang = record {
  assignee_id = pos 8;
  assignee_name = codes "wang";
  zone_code = codes "A-3F-305";
  skills = [];
  load = 0;
}

score-lt-iff-Worse_example :
    ((explain (codes "A-3F-305") (codes "fire") cand_wang).score
      < (explain (codes "A-3F-305") (codes "fire") cand_li).score)
    ↔ Worse
        (explain (codes "A-3F-305") (codes "fire") cand_wang)
        (explain (codes "A-3F-305") (codes "fire") cand_li)
score-lt-iff-Worse_example = score-lt-iff-Worse (codes "A-3F-305") (codes "fire") cand_wang cand_li

pick_lem_example :
    ((pick (codes "A-3F-305") (codes "fire") (cand_wang ∷ cand_li ∷ []) ≡ none)
      ↔ (cand_wang ∷ cand_li ∷ [] ≡ []))
    × ((r : Candidate)
        → pick (codes "A-3F-305") (codes "fire") (cand_wang ∷ cand_li ∷ []) ≡ some r
        → IsFirstBest (codes "A-3F-305") (codes "fire") (cand_wang ∷ cand_li ∷ []) r)
pick_lem_example = pick_lem (codes "A-3F-305") (codes "fire") (cand_wang ∷ cand_li ∷ [])
