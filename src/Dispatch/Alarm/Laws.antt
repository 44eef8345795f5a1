-- ===== src/Dispatch/Alarm/Laws.antt =====
-- Tasks that alarms create keep the database valid.
use onepark_smart_park.Prelude.{
  ℕ, zero, suc, ◌+◌, ◌≡◌, refl, Option, none, some, [], ◌∷◌, Text, inl, inr, Bool-cases, All-append,
}
use onepark_smart_park.Prelude.Int.{ℤ, pos, ◌≤ℤ◌}
use onepark_smart_park.Dispatch.Model.{DispatchTask}
use onepark_smart_park.Dispatch.Store.{Db, is_duplicate_key_on, new_task_no}
use onepark_smart_park.Dispatch.Create.{
  uk_task_no, uk_alarm_id, Inserts, create_log, Draft, row_of, Made, made, already_there, not_made,
}
use onepark_smart_park.Dispatch.Create.Laws.{MadeOk, MeanwhileOk, row_of-TaskOk, create_log-LogOk}
use onepark_smart_park.Dispatch.Invariant.{TaskOk, LogOk, IsValid}
use onepark_smart_park.Dispatch.Alarm.{
  AlarmEvent, Json, decode_alarm, build_draft, keep_log, end_attempt, alarm_loop, ack_made,
  handle_event, handle,
}

keep_log-IsValid :
    (limit : ℤ) (e : Option Text) (t : DispatchTask) (db : Db)
    → t.status ≡ 1
    → IsValid limit db
    → IsValid limit (keep_log e t db)
keep_log-IsValid limit none t db s v = record {
  tasks_ok = v.tasks_ok;
  logs_ok = All-append LogOk db.logs (create_log t 0 ∷ []) v.logs_ok (create_log-LogOk t 0 s, tt);
  staff_ok = v.staff_ok;
}
keep_log-IsValid limit (some e) t db s v = v

end_attempt-MadeOk :
    (i : Inserts) (attempt : ℕ) (t : DispatchTask) (seq : ℕ) (limit : ℤ) (db : Db) (retry : Made)
    → TaskOk limit t
    → t.status ≡ 1
    → IsValid limit db
    → MadeOk limit retry
    → (e : Option Text) → MadeOk limit (end_attempt i attempt t seq db retry e)
end_attempt-MadeOk i attempt t seq limit db retry h s v ih none =
    keep_log-IsValid limit (i.log_error attempt _) t _ s (record {
      tasks_ok = All-append (TaskOk limit) db.tasks (t ∷ []) v.tasks_ok (h, tt);
      logs_ok = v.logs_ok;
      staff_ok = v.staff_ok;
    })
end_attempt-MadeOk i attempt t seq limit db retry h s v ih (some e) =
    elim (Bool-cases (is_duplicate_key_on (some e) uk_alarm_id)) [
      | inl x ↦ rw x v
      | inr x ↦ elim (Bool-cases (is_duplicate_key_on (some e) uk_task_no)) [
        | inl y ↦ rw (x, y) ih
        | inr y ↦ rw (x, y) v
      ]
    ]

alarm_loop-MadeOk :
    (i : Inserts) (draft : Draft) (left attempt : ℕ) (number : Text × ℕ) (limit : ℤ) (db : Db)
    → draft.status ≡ 1
    → pos 0 ≤ℤ limit
    → MeanwhileOk limit i
    → IsValid limit db
    → MadeOk limit (alarm_loop i draft left attempt number db)
unfolding alarm_loop
alarm_loop-MadeOk i draft zero attempt number limit db s lim keep v = v
alarm_loop-MadeOk i draft (suc left) attempt number limit db s lim keep v =
    let seen = i.meanwhile attempt db in
    let id = i.fresh_id attempt seen in
    let v' = keep attempt db v in
    end_attempt-MadeOk i attempt (row_of draft id number.0) number.1 limit seen _
      (row_of-TaskOk limit draft id number.0 s lim) s v'
      (alarm_loop-MadeOk i draft left (attempt + 1) (new_task_no i.stamp number.1) limit seen s lim
        keep v')
      (i.insert_error attempt (row_of draft id number.0) seen)

ack_made-IsValid : (limit : ℤ) (m : Made) → MadeOk limit m → IsValid limit (ack_made m).1
ack_made-IsValid limit (made t db seq) h = h
ack_made-IsValid limit (already_there db seq) h = h
ack_made-IsValid limit (not_made db seq) h = h

handle_event-IsValid :
    (json : Json) (i : Inserts) (default_tenant seq : ℕ) (limit : ℤ) (db : Db)
    → pos 0 ≤ℤ limit
    → MeanwhileOk limit i
    → IsValid limit db
    → (e : Option AlarmEvent) → IsValid limit (handle_event json i default_tenant seq db e).1
unfolding build_draft
handle_event-IsValid json i default_tenant seq limit db lim keep v none = v
handle_event-IsValid json i default_tenant seq limit db lim keep v (some evt) =
    elim (Bool-cases i.connected) [
      | inl c ↦ simp c (
          ack_made-IsValid limit _ (
            alarm_loop-MadeOk i (build_draft json default_tenant evt) 3 1 (new_task_no i.stamp seq)
              limit db refl lim keep v))
      | inr c ↦ simp c v
    ]

-- An alarm message, whatever it holds and however the inserts fail, keeps the database valid.
pub handle-IsValid :
    (json : Json) (i : Inserts) (default_tenant : ℕ) (value : Text) (seq : ℕ) (limit : ℤ) (db : Db)
    → pos 0 ≤ℤ limit
    → MeanwhileOk limit i
    → IsValid limit db
    → IsValid limit (handle json i default_tenant value seq db).1
unfolding handle
handle-IsValid json i default_tenant value seq limit db lim keep v =
    handle_event-IsValid json i default_tenant seq limit db lim keep v (decode_alarm json value)
