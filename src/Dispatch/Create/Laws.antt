-- ===== src/Dispatch/Create/Laws.antt =====
-- What a created task looks like, and the numbers of tasks.
use onepark_smart_park.Prelude.{
  ℕ, zero, suc, ◌+◌, ◌≡◌, refl, Option, none, some, [], ◌∷◌, ◌++◌, Text, arith, inl, inr,
  Bool-cases, Option-cases, All-append,
}
use onepark_smart_park.Prelude.Int.{ℤ, pos, ◌≤ℤ◌}
use onepark_smart_park.Dispatch.Model.{DispatchTask}
use onepark_smart_park.Dispatch.Fsm.{next}
use onepark_smart_park.Dispatch.Store.{
  Db, RequestContext, Result, ok, err, is_duplicate_key_on, new_task_no,
}
use onepark_smart_park.Dispatch.Create.{
  uk_task_no, Inserts, create_log, Draft, row_of, Made, made, already_there, not_made, end_attempt,
  insert_with_log, create_loop, create_draft, create_answer, create_from, task_create,
  TaskCreateReq,
}
use onepark_smart_park.Dispatch.Invariant.{TaskOk, LogOk, IsValid}

-- A loop's end that keeps the database valid
abbrev pub MadeOk : ℤ → Made → Type 0
MadeOk limit (made t db seq) = IsValid limit db
MadeOk limit (already_there db seq) = IsValid limit db
MadeOk limit (not_made db seq) = IsValid limit db

pub row_of-TaskOk :
    (limit : ℤ) (draft : Draft) (id : ℕ) (task_no : Text)
    → draft.status ≡ 1
    → pos 0 ≤ℤ limit
    → TaskOk limit (row_of draft id task_no)
row_of-TaskOk limit draft id task_no h lim = ground arith

pub create_log-LogOk :
    (t : DispatchTask) (operator : ℕ) → t.status ≡ 1 → LogOk (create_log t operator)
unfolding next
create_log-LogOk t operator h = ground arith

pub append-IsValid :
    {limit : ℤ} {db : Db} (t : DispatchTask) (operator : ℕ)
    → TaskOk limit t
    → t.status ≡ 1
    → IsValid limit db
    → IsValid limit
        (record db { tasks = db.tasks ++ t ∷ []; logs = db.logs ++ create_log t operator ∷ [] })
append-IsValid {limit} {db} t operator h s v = record {
  tasks_ok = All-append (TaskOk limit) db.tasks (t ∷ []) v.tasks_ok (h, tt);
  logs_ok =
      All-append LogOk db.logs (create_log t operator ∷ []) v.logs_ok
        (create_log-LogOk t operator s, tt);
  staff_ok = v.staff_ok;
}

end_attempt-MadeOk :
    (limit : ℤ) (t : DispatchTask) (seq : ℕ) (retry : Made) (r : Option Text × Db)
    → MadeOk limit retry
    → IsValid limit r.1
    → MadeOk limit (end_attempt t seq retry r)
end_attempt-MadeOk limit t seq retry (none, db) ih v = v
end_attempt-MadeOk limit t seq retry (some e, db) ih v =
    elim (Bool-cases (is_duplicate_key_on (some e) uk_task_no)) [ inl x ↦ rw x ih | inr x ↦ rw x v ]

insert_with_log-IsValid :
    (i : Inserts) (attempt : ℕ) (t : DispatchTask) (operator : ℕ) {limit : ℤ} {db : Db}
    → TaskOk limit t
    → t.status ≡ 1
    → IsValid limit db
    → IsValid limit (insert_with_log i attempt t operator db).1
unfolding insert_with_log
insert_with_log-IsValid i attempt t operator {limit} {db} h s v =
    elim (Option-cases (i.insert_error attempt t db)) [
      | inr (e, x) ↦ rw (x, insert_with_log) v
      | inl x ↦ elim (Option-cases (i.log_error attempt db)) [
        | inr (e, y) ↦ rw (x, insert_with_log, y) v
        | inl y ↦ rw (x, insert_with_log, y) (append-IsValid t operator h s v)
      ]
    ]

-- Other requests between two attempts keep the database valid.
abbrev pub MeanwhileOk : ℤ → Inserts → Type 0
MeanwhileOk limit i =
    (attempt : ℕ) (b : Db) → IsValid limit b → IsValid limit (i.meanwhile attempt b)

create_loop-MadeOk :
    (i : Inserts) (draft : Draft) (operator left attempt : ℕ) (number : Text × ℕ) (limit : ℤ)
    (db : Db)
    → draft.status ≡ 1
    → pos 0 ≤ℤ limit
    → MeanwhileOk limit i
    → IsValid limit db
    → MadeOk limit (create_loop i draft operator left attempt number db)
unfolding create_loop
create_loop-MadeOk i draft operator zero attempt number limit db s lim keep v = v
create_loop-MadeOk i draft operator (suc left) attempt number limit db s lim keep v =
    let seen = i.meanwhile attempt db in
    let t = row_of draft (i.fresh_id attempt seen) number.0 in
    let v' = keep attempt db v in
    end_attempt-MadeOk limit t number.1 _ (insert_with_log i attempt t operator seen)
      (create_loop-MadeOk i draft operator left (attempt + 1) (new_task_no i.stamp number.1) limit
        seen s lim keep v')
      (insert_with_log-IsValid i attempt t operator
        (row_of-TaskOk limit draft (i.fresh_id attempt seen) number.0 s lim) s v')

create_draft-pending :
    (i : Inserts) (ctx : RequestContext) (req : TaskCreateReq) {draft : Draft}
    → create_draft i ctx req ≡ ok draft
    → draft.status ≡ 1
unfolding create_draft next
create_draft-pending i ctx req h = ground arith

create_answer-IsValid : (limit : ℤ) (m : Made) → MadeOk limit m → IsValid limit (create_answer m).1
create_answer-IsValid limit (made t db seq) h = h
create_answer-IsValid limit (already_there db seq) h = h
create_answer-IsValid limit (not_made db seq) h = h

-- Creating a task by hand keeps the database valid, whatever the request holds and however the
-- inserts fail.
pub task_create-IsValid :
    (i : Inserts) (ctx : RequestContext) (req : TaskCreateReq) (seq : ℕ) (limit : ℤ) (db : Db)
    → pos 0 ≤ℤ limit
    → MeanwhileOk limit i
    → IsValid limit db
    → IsValid limit (task_create i ctx req seq db).1
unfolding task_create
task_create-IsValid i ctx req seq limit db lim keep v =
    go (create_draft i ctx req) (λ draft h. create_draft-pending i ctx req h)
  where
    go :
        (r : Result Draft)
        → ((draft : Draft) → r ≡ ok draft → draft.status ≡ 1)
        → IsValid limit (create_from i ctx seq db r).1
    go (ok draft) h = create_answer-IsValid limit _ (
        create_loop-MadeOk i draft ctx.user_id 3 1 (new_task_no i.stamp seq) limit db (h draft refl)
          lim keep v)
    go (err code) h = v
