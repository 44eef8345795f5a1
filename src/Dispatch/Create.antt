-- ===== src/Dispatch/Create.antt =====
-- Creating a task: internal/logic/dispatch/taskcreatelogic.go for a person, and
-- internal/consumer/handler.go with alarm.go for an alarm event. Both retry under a new task number.
pub mod Laws
use onepark_smart_park.Prelude.{
  ℕ, zero, suc, ◌+◌, ◌%◌, Bool, true, false, ◌&&◌, ◌||◌, not, Option, none, some, List, [], ◌∷◌,
  ◌++◌, Text, codes, is_empty, ltb, text_eq, ◌==◌, if◌then◌else◌, lookup,
}
use onepark_smart_park.Prelude.Int.{ℤ, pos}
use onepark_smart_park.Dispatch.Model.{
  DispatchTask, DispatchTaskLog, source_manual, source_alarm, status_pending_assign,
}
use onepark_smart_park.Dispatch.Assign.{split, trim_space, to_lower}
use onepark_smart_park.Dispatch.Fsm.{next, action_create}
use onepark_smart_park.Dispatch.Store.{
  Code, dep_connect, bad_request, internal, Result, ok, err, ◌>>=◌, ◌>>◌, refuse_if, some_or, Db,
  RequestContext, is_duplicate_key_on, new_task_no,
}

abbrev pub max_task_no_attempts : ℕ
max_task_no_attempts = 3

abbrev pub uk_task_no : Text
uk_task_no = codes "uk_task_no"

abbrev pub uk_alarm_id : Text
uk_alarm_id = codes "uk_alarm_id"

-- How the database answers an insert: the id that it gives, and the text of an error.
pub record Inserts : Type 0 where
  pub connected : Bool
  pub insert_error : ℕ → DispatchTask → Db → Option Text  -- at the attempt with this number
  pub fresh_id : ℕ → Db → ℕ
  pub log_error : ℕ → Db → Option Text
  pub meanwhile : ℕ → Db → Db  -- what other requests do before the attempt with this number
  pub stamp : Text  -- `time.Now().Format("20060102150405")`

abbrev pub create_log : DispatchTask → ℕ → DispatchTaskLog
create_log t operator = record {
  tenant_id = t.tenant_id;
  task_id = t.id;
  from_status = 0;
  to_status = t.status;
  action = action_create;
  operator_id = operator;
}

-- What a row is created from: the columns that the caller fills.
pub record Draft : Type 0 where
  pub tenant_id : ℕ
  pub title : Text
  pub source : ℕ
  pub alarm_id : Option Text
  pub zone_code : Text
  pub required_skill : Text
  pub priority : ℕ
  pub status : ℕ

-- The row of a draft: the columns that are not filled are Go's zero values.
abbrev pub row_of : Draft → ℕ → Text → DispatchTask
row_of draft id task_no = record {
  id = id;
  tenant_id = draft.tenant_id;
  task_no = task_no;
  title = draft.title;
  source = draft.source;
  alarm_id = draft.alarm_id;
  zone_code = draft.zone_code;
  required_skill = draft.required_skill;
  priority = draft.priority;
  status = draft.status;
  assignee_id = pos 0;
  assignee_name = [];
  assign_expire_at = none;
  reassign_count = 0;
  finished_at = none;
  version = 0;
}

-- The end of a retry loop, with the database and the counter of task numbers after it.
pub data Made : Type 0 where
  made : DispatchTask → Db → ℕ → Made
  already_there : Db → ℕ → Made  -- the alarm has a task
  not_made : Db → ℕ → Made

-- The transaction of one manual attempt: the row and its log entry, or an error and neither.
unfoldable pub insert_with_log : Inserts → ℕ → DispatchTask → ℕ → Db → Option Text × Db
insert_with_log i attempt t operator db = elim (i.insert_error attempt t db) [
  | some e ↦ (some e, db)
  | none ↦ elim (i.log_error attempt db) [
    | some e ↦ (some e, db)
    | none ↦ (
      none,
      record db { tasks = db.tasks ++ t ∷ []; logs = db.logs ++ create_log t operator ∷ [] },
    )
  ]
]

abbrev pub end_attempt : DispatchTask → ℕ → Made → Option Text × Db → Made
end_attempt t seq retry (none, db) = made t db seq
end_attempt t seq retry (some e, db) =
    if is_duplicate_key_on (some e) uk_task_no then retry else not_made db seq

-- The loop of `TaskCreate`: `left` attempts remain, and the next has the number `attempt`.
unfoldable pub create_loop : Inserts → Draft → ℕ → ℕ → ℕ → Text × ℕ → Db → Made
unfolding new_task_no
create_loop i draft operator zero attempt number db = not_made db number.1
create_loop i draft operator (suc left) attempt number db =
    let seen = i.meanwhile attempt db in
    let t = row_of draft (i.fresh_id attempt seen) number.0 in
    let retry =
      create_loop i draft operator left (attempt + 1) (new_task_no i.stamp number.1) seen in
    end_attempt t number.1 retry (insert_with_log i attempt t operator seen)

pub record TaskCreateReq : Type 0 where
  pub title : Text
  pub zone_code : Text
  pub required_skill : Text
  pub priority : ℕ
  pub source : ℕ

-- `validPriority`, `int8` conversions included
abbrev pub int8 : ℕ → ℕ
int8 n = n % 256

abbrev pub valid_priority : ℕ → Bool
valid_priority p = int8 p == 1 || (int8 p == 2 || int8 p == 3)

pub record TaskCreateResp : Type 0 where
  pub id : ℕ
  pub task_no : Text
  pub status : ℕ

-- `NormalizeSkills`: trimmed, in lower case, without empty or repeated tags.
abbrev pub seen_before : Text → List Text → Bool
seen_before v [] = false
seen_before v (w ∷ ws) = text_eq w v || seen_before v ws

unfoldable pub distinct_tags : List Text → List Text → List Text
unfolding to_lower trim_space
distinct_tags seen [] = []
distinct_tags seen (r ∷ rs) =
    let v = to_lower (trim_space r) in
    let skip = is_empty v || seen_before v seen in
    let rest = distinct_tags (if skip then seen else v ∷ seen) rs in if skip then rest else v ∷ rest

-- `strings.Join` with a comma
unfoldable pub join_tags : List Text → Text
join_tags [] = []
join_tags (t ∷ []) = t
join_tags (t ∷ u ∷ us) = t ++ b',' ∷ join_tags (u ∷ us)

unfoldable pub normalize_skills : Text → Text
unfolding distinct_tags join_tags split trim_space
normalize_skills skills =
    let (piece, pieces) = split b',' skills in
    if is_empty (trim_space skills) then [] else join_tags (distinct_tags [] (piece ∷ pieces))

-- The checks of `TaskCreate`, and the row that it will insert.
unfoldable pub create_draft : Inserts → RequestContext → TaskCreateReq → Result Draft
unfolding normalize_skills
create_draft i ctx req = do
  refuse_if (not i.connected) dep_connect
  refuse_if (is_empty req.title) bad_request
  refuse_if (is_empty req.zone_code) bad_request
  refuse_if (not (valid_priority req.priority)) bad_request
  refuse_if (int8 req.source == source_alarm) bad_request
  initial ← some_or (next 0 action_create) internal
  ok (record {
    tenant_id = ctx.tenant_id;
    title = req.title;
    source = source_manual;
    alarm_id = none;
    zone_code = req.zone_code;
    required_skill = normalize_skills req.required_skill;
    priority = int8 req.priority;
    status = initial;
  })

-- The answer, the database and the counter
abbrev pub create_answer : Made → Result TaskCreateResp × Db × ℕ
create_answer (made t db seq) =
    (ok (record { id = t.id; task_no = t.task_no; status = t.status }), db, seq)
create_answer (already_there db seq) = (err internal, db, seq)
create_answer (not_made db seq) = (err internal, db, seq)

abbrev pub create_from :
    Inserts → RequestContext → ℕ → Db → Result Draft → Result TaskCreateResp × Db × ℕ
create_from i ctx seq db (err code) = (err code, db, seq)
create_from i ctx seq db (ok draft) =
    create_answer
      (create_loop i draft ctx.user_id max_task_no_attempts 1 (new_task_no i.stamp seq) db)

unfoldable pub task_create :
    Inserts → RequestContext → TaskCreateReq → ℕ → Db → Result TaskCreateResp × Db × ℕ
task_create i ctx req seq db = create_from i ctx seq db (create_draft i ctx req)
