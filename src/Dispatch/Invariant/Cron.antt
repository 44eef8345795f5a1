-- ===== src/Dispatch/Invariant/Cron.antt =====
-- The timed run keeps the database valid, so no task is reassigned more often than the limit.
use onepark_smart_park.Prelude.{
  ℕ, ◌≡◌, ap, List, [], ◌∷◌, All, All-map, map-All, ◌&&◌, select-All, arith, inl, inr, Bool-cases,
  ◌==◌,
}
use onepark_smart_park.Prelude.Int.{ℤ}
use onepark_smart_park.Dispatch.Model.{DispatchTask, DispatchStaff, staff_on_duty, staff_enabled}
use onepark_smart_park.Dispatch.Assign.{Candidate, pool, staff_candidates}
use onepark_smart_park.Dispatch.Store.{Db}
use onepark_smart_park.Dispatch.Invariant.{IsValid, HasId, StaffOk}
use onepark_smart_park.Dispatch.Reassign.{
  limit_of, CronDriver, insert_by_expiry, sort_by_expiry, expire_le, is_expired, insert_by_expiry,
  sort_by_expiry, expire_le, is_expired, start_run, settle_found, reassign_locked, find_expired,
}
use onepark_smart_park.Dispatch.Invariant.Loop.{Follows, SnapshotOf, OthersOk, settle_all-LoopOk}

-- No two rows have the same primary key.
abbrev pub UniqueIds : List DispatchTask → Type 0
UniqueIds ts = All (λ t. All (λ (u : DispatchTask). u.id ≡ t.id → u ≡ t) ts) ts

insert_by_expiry-All {ℓ} :
    (P : DispatchTask → Type ℓ) (t : DispatchTask) (ts : List DispatchTask)
    → P t
    → All P ts
    → All P (insert_by_expiry t ts)
unfolding insert_by_expiry
insert_by_expiry-All P t [] p h = (p, tt)
insert_by_expiry-All P t (u ∷ us) p h =
    elim (Bool-cases (expire_le t.assign_expire_at u.assign_expire_at)) [
      | inl e ↦ rw e (p, h)
      | inr e ↦ rw e (h.0, insert_by_expiry-All P t us p h.1)
    ]

sort_by_expiry-All {ℓ} :
    (P : DispatchTask → Type ℓ) (ts : List DispatchTask) → All P ts → All P (sort_by_expiry ts)
unfolding sort_by_expiry
sort_by_expiry-All P [] h = tt
sort_by_expiry-All P (t ∷ ts) h =
    insert_by_expiry-All P t (sort_by_expiry ts) h.0 (sort_by_expiry-All P ts h.1)

find_expired-SnapshotOf :
    (now : ℕ) (db : Db) → UniqueIds db.tasks → SnapshotOf (find_expired now db.tasks) db
unfolding find_expired
find_expired-SnapshotOf now db unique =
    sort_by_expiry-All (λ t. All (Follows t) db.tasks) _
      (select-All (λ t. All (Follows t) db.tasks) (is_expired now) db.tasks
        (All-map (λ t. All (λ (u : DispatchTask). u.id ≡ t.id → u ≡ t) db.tasks) _
          (λ t row.
            All-map (λ (u : DispatchTask). u.id ≡ t.id → u ≡ t) (Follows t)
              (λ u same. record {
                forward = λ e. omega (arith, ap (λ (x : DispatchTask). x.version) (same e));
                same_count = λ e _. ap (λ (x : DispatchTask). x.reassign_count) (same e);
              })
              db.tasks row)
          db.tasks unique))

pool-HasId :
    (d : CronDriver) (db : Db)
    → All StaffOk db.staff
    → All HasId (d.history db.tasks)
    → All HasId (pool (staff_candidates db.staff db.tasks) (d.history db.tasks))
unfolding pool staff_candidates
pool-HasId d db staff history = first_or (staff_candidates db.staff db.tasks) (
    map-All HasId _ _ (
      select-All StaffOk
        (λ (s : DispatchStaff). s.on_duty == staff_on_duty && s.status == staff_enabled) db.staff
        staff))
  where
    first_or : (cs : List Candidate) → All HasId cs → All HasId (pool cs (d.history db.tasks))
    first_or [] h = history
    first_or (c ∷ cs) h = h

-- A timed run keeps the database valid: what it reassigns has a person and a new deadline, what it
-- releases is free again, each change is in the state machine, and no count passes the limit.
pub reassign_locked-IsValid :
    (d : CronDriver) (now : ℕ) (max_reassign : ℤ) (others : DispatchTask → Db → Db) (db : Db)
    → ((ts : List DispatchTask) → All HasId (d.history ts))
    → OthersOk (limit_of max_reassign) others
    → UniqueIds db.tasks
    → IsValid (limit_of max_reassign) db
    → IsValid (limit_of max_reassign) (reassign_locked d now max_reassign others db).1
unfolding reassign_locked
reassign_locked-IsValid d now m others db history keep unique v = elim (Bool-cases d.find_fails) [
  | inl e ↦ simp e v
  | inr e ↦ simp e (go (find_expired now db.tasks) (find_expired-SnapshotOf now db unique))
]
  where
    go :
        (ts : List DispatchTask)
        → SnapshotOf ts db
        → IsValid (limit_of m) (settle_found d now m others db ts).1
    go [] f = v
    go (t ∷ ts) f = elim (Bool-cases d.pool_fails) [
      | inl e ↦ simp e v
      | inr e ↦
          simp e
            (settle_all-LoopOk d now m others (t ∷ ts) (start_run d db) keep (record {
              valid = v;
              follows = f;
              with_id = pool-HasId d db v.staff_ok (history db.tasks);
            })).valid
    ]
