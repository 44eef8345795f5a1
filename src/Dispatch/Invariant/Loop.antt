-- ===== src/Dispatch/Invariant/Loop.antt =====
-- One pass over the overdue tasks keeps the database valid.
use onepark_smart_park.Prelude.{
  ℕ, ◌+◌, ◌≤◌, ◌≡◌, refl, true, List, [], ◌∷◌, ◌++◌, All, All-append, All-map, All-zip, All-fst,
  arith, inl, inr, Bool-cases, ◌==◌, if◌then◌else◌,
}
use onepark_smart_park.Prelude.Int.{ℤ, pos, eq_ℤ, ◌≤ℤ◌}
use onepark_smart_park.Table.{affected}
use onepark_smart_park.Table.Laws.{update-All}
use onepark_smart_park.Dispatch.Model.{DispatchTask, DispatchTaskLog}
use onepark_smart_park.Dispatch.Fsm.{next, action_assign, action_release}
use onepark_smart_park.Dispatch.Assign.{Candidate}
use onepark_smart_park.Dispatch.Store.{Db}
use onepark_smart_park.Dispatch.Invariant.{TaskOk, LogOk, IsValid, HasId}
use onepark_smart_park.Dispatch.Reassign.{
  Decision, reassign, release, limit_of, decide_reassign, CronDriver, still_assigned, Written,
  failed, skipped, done, write_where, set_reassigned, set_released, cron_log, reassign_task,
  release_task, add_load, RunState, after_release, after_reassign, carry_out, settle, settle_all,
}
use onepark_smart_park.Dispatch.Invariant.Decide.{decide_reassign-reassign}

-- A row that still is at the snapshot's version is the snapshot's row; a row never goes back.
pub record Follows (t u : DispatchTask) : Type 0 where
  pub forward : u.id ≡ t.id → t.version ≤ u.version
  pub same_count : u.id ≡ t.id → u.version ≡ t.version → u.reassign_count ≡ t.reassign_count

-- The table has moved on from the snapshot `ts` by versions only.
abbrev pub SnapshotOf : List DispatchTask → Db → Type 0
SnapshotOf ts db = All (λ t. All (Follows t) db.tasks) ts

-- What one write has to know of the rows that it changes
pub record WriteOk (limit : ℤ) (t : DispatchTask) (set : DispatchTask → DispatchTask) : Type 0 where
  pub task_kept :
      (u : DispatchTask)
      → TaskOk limit u
      → Follows t u
      → still_assigned t u ≡ true
      → TaskOk limit (set u)
  pub moves_on : (v u : DispatchTask) → Follows v u → Follows v (set u)

module _ (d : CronDriver) (t : DispatchTask) (set : DispatchTask → DispatchTask)
    (entry : DispatchTaskLog) {limit : ℤ} (w : WriteOk limit t set) (db : Db) where
  write_where-IsValid :
      LogOk entry
      → All (Follows t) db.tasks
      → IsValid limit db
      → IsValid limit (write_where d t set entry db).1
  write_where-IsValid e f v = elim (Bool-cases (d.update_fails t)) [
    | inl x ↦ rw x v
    | inr x ↦ elim (Bool-cases (affected (still_assigned t) db.tasks == 0)) [
      | inl z ↦ rw (x, z) v
      | inr z ↦
          rw (x, z)
            (record {
              tasks_ok = All-fst (TaskOk limit) (Follows t) _ (
                  update-All (λ u. TaskOk limit u × Follows t u) (still_assigned t) set db.tasks
                    (λ u h s. (w.task_kept u h.0 h.1 s, w.moves_on t u h.1))
                    (All-zip (TaskOk limit) (Follows t) db.tasks v.tasks_ok f));
              logs_ok = logs_kept;
              staff_ok = v.staff_ok;
            })
    ]
  ]
    where
      logs_kept : All LogOk (if d.log_fails t then db.logs else db.logs ++ entry ∷ [])
      logs_kept = elim (Bool-cases (d.log_fails t)) [
        | inl lost ↦ rw lost v.logs_ok
        | inr kept ↦ rw kept (All-append LogOk db.logs (entry ∷ []) v.logs_ok (e, tt))
      ]

  write_where-SnapshotOf :
      (ts : List DispatchTask) → SnapshotOf ts db → SnapshotOf ts (write_where d t set entry db).1
  write_where-SnapshotOf ts s = elim (Bool-cases (d.update_fails t)) [
    | inl x ↦ rw x s
    | inr x ↦ elim (Bool-cases (affected (still_assigned t) db.tasks == 0)) [
      | inl z ↦ rw (x, z) s
      | inr z ↦
          rw (x, z)
            (All-map (λ v. All (Follows v) db.tasks) _
              (λ v f.
                update-All (Follows v) (still_assigned t) set db.tasks (λ u h _. w.moves_on v u h)
                  f)
              ts s)
    ]
  ]

pub release-WriteOk : (limit : ℤ) (t : DispatchTask) → WriteOk limit t (set_released 1)
release-WriteOk limit t = record {
  task_kept = λ u h f s. ground arith;
  moves_on = λ v u f. ground arith;
}

pub reassign-WriteOk :
    (limit : ℤ) (now : ℕ) (t : DispatchTask) (best : Candidate)
    → HasId best
    → pos (t.reassign_count + 1) ≤ℤ limit
    → WriteOk limit t (set_reassigned now best)
reassign-WriteOk limit now t best has room = record {
  task_kept = λ u h f s. ground arith;
  moves_on = λ v u f. ground arith;
}

pub add_load-HasId : (id : ℤ) (cs : List Candidate) → All HasId cs → All HasId (add_load id cs)
unfolding add_load
add_load-HasId id [] h = tt
add_load-HasId id (c ∷ cs) h = elim (Bool-cases (eq_ℤ c.assignee_id id)) [
  | inl e ↦ rw e (h.0, h.1)
  | inr e ↦ rw e (h.0, add_load-HasId id cs h.1)
]

-- What the loop keeps: a valid database that follows the snapshot, and candidates with an id.
pub record LoopOk (limit : ℤ) (ts : List DispatchTask) (s : RunState) : Type 0 where
  pub valid : IsValid limit s.db
  pub follows : SnapshotOf ts s.db
  pub with_id : All HasId s.candidates

pub after_release-LoopOk :
    (limit : ℤ) (ts : List DispatchTask) (s : RunState) (w : Written × Db)
    → IsValid limit w.1
    → SnapshotOf ts w.1
    → All HasId s.candidates
    → LoopOk limit ts (after_release s w)
after_release-LoopOk limit ts s (failed, db) v f h = record { valid = v; follows = f; with_id = h }
after_release-LoopOk limit ts s (skipped, db) v f h = record { valid = v; follows = f; with_id = h }
after_release-LoopOk limit ts s (done, db) v f h = record { valid = v; follows = f; with_id = h }

pub after_reassign-LoopOk :
    (limit : ℤ) (ts : List DispatchTask) (s : RunState) (best : Candidate) (w : Written × Db)
    → IsValid limit w.1
    → SnapshotOf ts w.1
    → All HasId s.candidates
    → LoopOk limit ts (after_reassign s best w)
after_reassign-LoopOk limit ts s best (failed, db) v f h = record {
  valid = v;
  follows = f;
  with_id = h;
}
after_reassign-LoopOk limit ts s best (skipped, db) v f h = record {
  valid = v;
  follows = f;
  with_id = h;
}
after_reassign-LoopOk limit ts s best (done, db) v f h = record {
  valid = v;
  follows = f;
  with_id = add_load-HasId best.assignee_id s.candidates h;
}

pub carry_out-LoopOk :
    (d : CronDriver) (now : ℕ) (max_reassign : ℤ) (t : DispatchTask) (ts : List DispatchTask)
    (s : RunState) (dec : Decision)
    → ((best : Candidate)
        → dec ≡ reassign best
        → HasId best × (pos (t.reassign_count + 1) ≤ℤ limit_of max_reassign))
    → LoopOk (limit_of max_reassign) (t ∷ ts) s
    → LoopOk (limit_of max_reassign) ts (carry_out d now t s dec)
unfolding release_task reassign_task next
carry_out-LoopOk d now m t ts s release h l =
    let w = release-WriteOk (limit_of m) t in
    let entry = cron_log t 1 action_release in
    after_release-LoopOk (limit_of m) ts s (write_where d t (set_released 1) entry s.db)
      (write_where-IsValid d t (set_released 1) entry w s.db refl l.follows.0 l.valid)
      (write_where-SnapshotOf d t (set_released 1) entry w s.db ts l.follows.1) l.with_id
carry_out-LoopOk d now m t ts s (reassign best) h l =
    let (has, room) = h best refl in
    let w = reassign-WriteOk (limit_of m) now t best has room in
    let entry = cron_log t 2 action_assign in
    after_reassign-LoopOk (limit_of m) ts s best
      (write_where d t (set_reassigned now best) entry s.db)
      (write_where-IsValid d t (set_reassigned now best) entry w s.db refl l.follows.0 l.valid)
      (write_where-SnapshotOf d t (set_reassigned now best) entry w s.db ts l.follows.1) l.with_id

-- Other requests between two tasks of the loop keep the database valid and only move it on.
abbrev pub OthersOk : ℤ → (DispatchTask → Db → Db) → Type 0
OthersOk limit others =
    (t : DispatchTask) (ts : List DispatchTask) (b : Db)
    → IsValid limit b × SnapshotOf ts b
    → IsValid limit (others t b) × SnapshotOf ts (others t b)

pub settle_all-LoopOk :
    (d : CronDriver) (now : ℕ) (max_reassign : ℤ) (others : DispatchTask → Db → Db)
    (ts : List DispatchTask) (s : RunState)
    → OthersOk (limit_of max_reassign) others
    → LoopOk (limit_of max_reassign) ts s
    → LoopOk (limit_of max_reassign) [] (settle_all d now max_reassign others ts s)
unfolding settle_all settle
settle_all-LoopOk d now m others [] s keep l = l
settle_all-LoopOk d now m others (t ∷ ts) s keep l =
    let s' : RunState = record s { db = others t s.db } in
    let kept = keep t (t ∷ ts) s.db (l.valid, l.follows) in
    let dec = decide_reassign t s.candidates m in
    settle_all-LoopOk d now m others ts (carry_out d now t s' dec) keep (
      carry_out-LoopOk d now m t ts s' dec
        (λ best e.
          let (room, has, _) = decide_reassign-reassign t s.candidates m l.with_id e in (has, room))
        (record { valid = kept.0; follows = kept.1; with_id = l.with_id }))
