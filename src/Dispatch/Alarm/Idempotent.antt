-- ===== src/Dispatch/Alarm/Idempotent.antt =====
-- No alarm is lost, and none has two tasks.
use onepark_smart_park.Prelude.{
  ℕ, zero, suc, ◌+◌, ◌≡◌, refl, true, Option, none, some, List, [], ◌∷◌, ◌++◌, Text, inl, inr,
  Bool-cases,
}
use onepark_smart_park.Dispatch.Model.{DispatchTask}
use onepark_smart_park.Dispatch.Store.{Db, is_duplicate_key_on, new_task_no}
use onepark_smart_park.Dispatch.Create.{
  uk_task_no, uk_alarm_id, Inserts, Draft, row_of, Made, made, already_there, not_made,
}
use onepark_smart_park.Dispatch.Alarm.{
  AlarmEvent, Json, decode_alarm, build_draft, keep_log, end_attempt, alarm_loop, commit, ack_made,
  handle_event, handle,
}

-- A task of the alarm with this id.
pub data HasTask (id : Text) : List DispatchTask → Type 0 where
  here : {t : DispatchTask} {ts : List DispatchTask} → t.alarm_id ≡ some id → HasTask id (t ∷ ts)
  later : {t : DispatchTask} {ts : List DispatchTask} → HasTask id ts → HasTask id (t ∷ ts)

-- The unique index on `alarm_id`, as MySQL documents it: its error means that the row is there.
abbrev pub IndexIsHonest : Inserts → Type 0
IndexIsHonest i =
    (attempt : ℕ) (t : DispatchTask) (db : Db) (id : Text)
    → t.alarm_id ≡ some id
    → is_duplicate_key_on (i.insert_error attempt t db) uk_alarm_id ≡ true
    → HasTask id db.tasks

HasTask-append_last :
    (id : Text) (ts : List DispatchTask) (t : DispatchTask)
    → t.alarm_id ≡ some id
    → HasTask id (ts ++ t ∷ [])
HasTask-append_last id [] t h = here h
HasTask-append_last id (u ∷ ts) t h = later (HasTask-append_last id ts t h)

abbrev Kept : Text → Made → Type 0
Kept id (made t db seq) = HasTask id db.tasks
Kept id (already_there db seq) = HasTask id db.tasks
Kept id (not_made db seq) = Unit

keep_log-HasTask :
    (id : Text) (e : Option Text) (t : DispatchTask) (db : Db)
    → HasTask id db.tasks
    → HasTask id (keep_log e t db).tasks
keep_log-HasTask id none t db h = h
keep_log-HasTask id (some e) t db h = h

end_attempt-Kept :
    (i : Inserts) (attempt : ℕ) (t : DispatchTask) (seq : ℕ) (db : Db) (retry : Made) (id : Text)
    → t.alarm_id ≡ some id
    → Kept id retry
    → (e : Option Text) → (is_duplicate_key_on e uk_alarm_id ≡ true → HasTask id db.tasks)
    → Kept id (end_attempt i attempt t seq db retry e)
end_attempt-Kept i attempt t seq db retry id h ih none honest =
    keep_log-HasTask id (i.log_error attempt _) t _ (HasTask-append_last id db.tasks t h)
end_attempt-Kept i attempt t seq db retry id h ih (some e) honest =
    elim (Bool-cases (is_duplicate_key_on (some e) uk_alarm_id)) [
      | inl x ↦ rw x (honest x)
      | inr x ↦ elim (Bool-cases (is_duplicate_key_on (some e) uk_task_no)) [
        | inl y ↦ rw (x, y) ih
        | inr y ↦ rw (x, y) tt
      ]
    ]

alarm_loop-Kept :
    (i : Inserts) (draft : Draft) (left attempt : ℕ) (number : Text × ℕ) (db : Db) (id : Text)
    → IndexIsHonest i
    → draft.alarm_id ≡ some id
    → Kept id (alarm_loop i draft left attempt number db)
unfolding alarm_loop
alarm_loop-Kept i draft zero attempt number db id honest h = tt
alarm_loop-Kept i draft (suc left) attempt number db id honest h =
    let seen = i.meanwhile attempt db in
    let t = row_of draft (i.fresh_id attempt seen) number.0 in
    end_attempt-Kept i attempt t number.1 seen _ id h
      (alarm_loop-Kept i draft left (attempt + 1) (new_task_no i.stamp number.1) seen id honest h)
      (i.insert_error attempt t seen) (honest attempt t seen id h)

ack_made-HasTask :
    (id : Text) (m : Made) → Kept id m → (ack_made m).0 ≡ commit → HasTask id (ack_made m).1.tasks
ack_made-HasTask id (made t b s) k h = k
ack_made-HasTask id (already_there b s) k h = k
ack_made-HasTask id (not_made b s) k h = cc

handle_event-HasTask :
    (json : Json) (i : Inserts) (default_tenant seq : ℕ) (db : Db) (evt : AlarmEvent)
    → IndexIsHonest i
    → (handle_event json i default_tenant seq db (some evt)).0 ≡ commit
    → HasTask evt.request_id (handle_event json i default_tenant seq db (some evt)).1.tasks
unfolding build_draft
handle_event-HasTask json i default_tenant seq db evt honest =
    let draft = build_draft json default_tenant evt in
    elim (Bool-cases i.connected) [
      | inl c ↦ simp c (
          ack_made-HasTask evt.request_id _
            (alarm_loop-Kept i draft 3 1 (new_task_no i.stamp seq) db evt.request_id honest refl))
      | inr c ↦ simp c (λ h. cc)
    ]

-- No alarm is lost silently: when the consumer commits a message that decodes, the task of that
-- alarm is in the table. A clash of task numbers is never taken for a repeated alarm.
pub handle-commit_kept :
    (json : Json) (i : Inserts) (default_tenant : ℕ) (value : Text) (seq : ℕ) (db : Db)
    {evt : AlarmEvent}
    → IndexIsHonest i
    → decode_alarm json value ≡ some evt
    → (handle json i default_tenant value seq db).0 ≡ commit
    → HasTask evt.request_id (handle json i default_tenant value seq db).1.tasks
unfolding handle
handle-commit_kept json i default_tenant value seq db {evt} honest decoded =
    rw decoded (handle_event-HasTask json i default_tenant seq db evt honest)
