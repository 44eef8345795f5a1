-- ===== src/Dispatch/Reassign/Progress.antt =====
-- After a run nothing is overdue.
use mathlib.Core.List.{Memᴰ}
use mathlib.Core.Path.{subst}
use onepark_smart_park.Prelude.{
  ℕ, ◌≡◌, ◌≢◌, refl, Bool, true, false, List, [], ◌∷◌, All, All-map, arith, inl, inr, Bool-cases,
  ◌==◌, select,
}
use onepark_smart_park.Prelude.Int.{ℤ}
use onepark_smart_park.Table.{update, affected}
use onepark_smart_park.Dispatch.Model.{DispatchTask, DispatchTaskLog}
use onepark_smart_park.Table.Laws.{update-unaffected}
use onepark_smart_park.Dispatch.Fsm.{next, action_release, action_assign}
use onepark_smart_park.Dispatch.Assign.{Candidate}
use onepark_smart_park.Dispatch.Store.{Db}
use onepark_smart_park.Dispatch.Reassign.{
  Decision, reassign, release, decide_reassign, CronDriver, still_assigned, Written, failed,
  skipped, done, write_where, set_reassigned, set_released, cron_log, reassign_task, release_task,
  RunState, after_release, after_reassign, carry_out, settle, settle_all, start_run, settle_found,
  reassign_locked, find_expired, is_expired, sort_by_expiry, insert_by_expiry, expire_le,
}

-- Every overdue row is one of the tasks that are still to be settled.
abbrev OverdueIn : ℕ → List DispatchTask → Db → Type 0
OverdueIn now ts db = All (λ u. is_expired now u ≡ true → Memᴰ u ts) db.tasks

-- A row that is overdue and equals the snapshot is selected by the snapshot's write.
still_assigned-same :
    (now : ℕ) (t u : DispatchTask) → u ≡ t → is_expired now u ≡ true → still_assigned t u ≡ true
still_assigned-same now t u same h = ground arith

Memᴰ-tail : {t u : DispatchTask} {ts : List DispatchTask} → Memᴰ u (t ∷ ts) → u ≢ t → Memᴰ u ts
Memᴰ-tail (Memᴰ.head e) ne = absurd (ne e)
Memᴰ-tail (Memᴰ.tail m) ne = m

update-OverdueIn :
    (now : ℕ) (t : DispatchTask) (ts : List DispatchTask) (set : DispatchTask → DispatchTask)
    → ((u : DispatchTask) → is_expired now (set u) ≡ false)
    → (rows : List DispatchTask) → All (λ u. is_expired now u ≡ true → Memᴰ u (t ∷ ts)) rows
    → All (λ u. is_expired now u ≡ true → Memᴰ u ts) (update (still_assigned t) set rows)
update-OverdueIn now t ts set fresh [] h = tt
update-OverdueIn now t ts set fresh (u ∷ rows) h = elim (Bool-cases (still_assigned t u)) [
  | inl e ↦ rw e (λ x. let f = fresh u in cc, update-OverdueIn now t ts set fresh rows h.1)
  | inr e ↦ rw e (
    λ x. Memᴰ-tail (h.0 x) (λ same. let s = still_assigned-same now t u same x in cc),
    update-OverdueIn now t ts set fresh rows h.1,
  )
]

-- A statement that does not fail takes its task off the list of overdue rows.
write_where-OverdueIn :
    (d : CronDriver) (now : ℕ) (t : DispatchTask) (ts : List DispatchTask)
    (set : DispatchTask → DispatchTask) (entry : DispatchTaskLog) (db : Db)
    → d.update_fails t ≡ false
    → ((u : DispatchTask) → is_expired now (set u) ≡ false)
    → OverdueIn now (t ∷ ts) db
    → OverdueIn now ts (write_where d t set entry db).1
write_where-OverdueIn d now t ts set entry db works fresh h =
    elim (Bool-cases (affected (still_assigned t) db.tasks == 0)) [
      | inl z ↦
          simp (works, z)
            (subst (λ rows. All (λ u. is_expired now u ≡ true → Memᴰ u ts) rows)
              (update-unaffected (still_assigned t) set db.tasks (ground arith))
              (update-OverdueIn now t ts set fresh db.tasks h))
      | inr z ↦ simp (works, z) (update-OverdueIn now t ts set fresh db.tasks h)
    ]

after_release-OverdueIn :
    (now : ℕ) (ts : List DispatchTask) (s : RunState) (w : Written × Db)
    → OverdueIn now ts w.1
    → OverdueIn now ts (after_release s w).db
after_release-OverdueIn now ts s (failed, db) h = h
after_release-OverdueIn now ts s (skipped, db) h = h
after_release-OverdueIn now ts s (done, db) h = h

after_reassign-OverdueIn :
    (now : ℕ) (ts : List DispatchTask) (s : RunState) (best : Candidate) (w : Written × Db)
    → OverdueIn now ts w.1
    → OverdueIn now ts (after_reassign s best w).db
after_reassign-OverdueIn now ts s best (failed, db) h = h
after_reassign-OverdueIn now ts s best (skipped, db) h = h
after_reassign-OverdueIn now ts s best (done, db) h = h

carry_out-OverdueIn :
    (d : CronDriver) (now : ℕ) (t : DispatchTask) (ts : List DispatchTask) (s : RunState)
    (dec : Decision)
    → d.update_fails t ≡ false
    → OverdueIn now (t ∷ ts) s.db
    → OverdueIn now ts (carry_out d now t s dec).db
unfolding release_task reassign_task next
carry_out-OverdueIn d now t ts s release works h = after_release-OverdueIn now ts s _ (
    write_where-OverdueIn d now t ts (set_released 1) (cron_log t 1 action_release) s.db works
      (λ u. ground arith) h)
carry_out-OverdueIn d now t ts s (reassign best) works h =
    after_reassign-OverdueIn now ts s best _ (
      write_where-OverdueIn d now t ts (set_reassigned now best) (cron_log t 2 action_assign) s.db
        works (λ u. ground arith) h)

settle_all-OverdueIn :
    (d : CronDriver) (now : ℕ) (m : ℤ) (others : DispatchTask → Db → Db) (ts : List DispatchTask)
    (s : RunState)
    → ((t : DispatchTask) → d.update_fails t ≡ false)
    → ((t : DispatchTask) (us : List DispatchTask) (b : Db)
        → OverdueIn now us b
        → OverdueIn now us (others t b))
    → OverdueIn now ts s.db
    → OverdueIn now [] (settle_all d now m others ts s).db
unfolding settle_all settle
settle_all-OverdueIn d now m others [] s works keep h = h
settle_all-OverdueIn d now m others (t ∷ ts) s works keep h =
    let s' : RunState = record s { db = others t s.db } in
    let dec = decide_reassign t s.candidates m in
    settle_all-OverdueIn d now m others ts (carry_out d now t s' dec) works keep
      (carry_out-OverdueIn d now t ts s' dec (works t) (keep t (t ∷ ts) s.db h))

step_past :
    (t u v : DispatchTask) (vs : List DispatchTask)
    → (Memᴰ u (t ∷ vs) → Memᴰ u (insert_by_expiry t vs))
    → Memᴰ u (t ∷ v ∷ vs)
    → Memᴰ u (v ∷ insert_by_expiry t vs)
step_past t u v vs ih (Memᴰ.head e) = Memᴰ.tail (ih (Memᴰ.head e))
step_past t u v vs ih (Memᴰ.tail (Memᴰ.head e)) = Memᴰ.head e
step_past t u v vs ih (Memᴰ.tail (Memᴰ.tail m)) = Memᴰ.tail (ih (Memᴰ.tail m))

insert_by_expiry-Memᴰ :
    (t u : DispatchTask) (ts : List DispatchTask) → Memᴰ u (t ∷ ts) → Memᴰ u (insert_by_expiry t ts)
unfolding insert_by_expiry
insert_by_expiry-Memᴰ t u [] m = m
insert_by_expiry-Memᴰ t u (v ∷ vs) m =
    elim (Bool-cases (expire_le t.assign_expire_at v.assign_expire_at)) [
      | inl e ↦ rw e m
      | inr e ↦ rw e (step_past t u v vs (insert_by_expiry-Memᴰ t u vs) m)
    ]

sort_by_expiry-Memᴰ :
    (u : DispatchTask) (ts : List DispatchTask) → Memᴰ u ts → Memᴰ u (sort_by_expiry ts)
unfolding sort_by_expiry
sort_by_expiry-Memᴰ u [] m = elim m [ ]
sort_by_expiry-Memᴰ u (t ∷ ts) (Memᴰ.head e) =
    insert_by_expiry-Memᴰ t u (sort_by_expiry ts) (Memᴰ.head e)
sort_by_expiry-Memᴰ u (t ∷ ts) (Memᴰ.tail m) =
    insert_by_expiry-Memᴰ t u (sort_by_expiry ts) (Memᴰ.tail (sort_by_expiry-Memᴰ u ts m))

select-Memᴰ :
    (p : DispatchTask → Bool) (u : DispatchTask) (ts : List DispatchTask)
    → Memᴰ u ts
    → p u ≡ true
    → Memᴰ u (select p ts)
select-Memᴰ p u [] m h = elim m [ ]
select-Memᴰ p u (t ∷ ts) (Memᴰ.head e) h =
    let passes : p t ≡ true = subst (λ x. p x ≡ true) e h in rw passes (Memᴰ.head e)
select-Memᴰ p u (t ∷ ts) (Memᴰ.tail m) h = elim (Bool-cases (p t)) [
  | inl e ↦ rw e (Memᴰ.tail (select-Memᴰ p u ts m h))
  | inr e ↦ rw e (select-Memᴰ p u ts m h)
]

All-of_Memᴰ {ℓ} :
    (P : DispatchTask → Type ℓ) (ts : List DispatchTask)
    → ((u : DispatchTask) → Memᴰ u ts → P u)
    → All P ts
All-of_Memᴰ P [] h = tt
All-of_Memᴰ P (t ∷ ts) h = (h t (Memᴰ.head refl), All-of_Memᴰ P ts (λ u m. h u (Memᴰ.tail m)))

-- Whenever no statement fails and the other requests make no row overdue, a run that was given the
-- lock ends with no overdue task: each was handed on with a new deadline, or released.
pub reassign_locked-settles :
    (d : CronDriver) (now : ℕ) (max_reassign : ℤ) (others : DispatchTask → Db → Db) (db : Db)
    → (d.find_fails ≡ false)
      × ((d.pool_fails ≡ false) × ((t : DispatchTask) → d.update_fails t ≡ false))
    → ((t : DispatchTask) (us : List DispatchTask) (b : Db)
        → All (λ u. is_expired now u ≡ true → Memᴰ u us) b.tasks
        → All (λ u. is_expired now u ≡ true → Memᴰ u us) (others t b).tasks)
    → All (λ u. is_expired now u ≡ false) (reassign_locked d now max_reassign others db).1.tasks
unfolding reassign_locked
reassign_locked-settles d now m others db works keep =
    All-map (λ u. is_expired now u ≡ true → Memᴰ u []) (λ u. is_expired now u ≡ false)
      (λ u none_left. not_overdue u none_left) _
      (simp (works.0) (go (find_expired now db.tasks) initial))
  where
    not_overdue :
        (u : DispatchTask) → (is_expired now u ≡ true → Memᴰ u []) → is_expired now u ≡ false
    not_overdue u none_left = elim (Bool-cases (is_expired now u)) [
      | inl e ↦ elim (none_left e) [ ]
      | inr e ↦ e
    ]

    initial : OverdueIn now (find_expired now db.tasks) db
    initial = All-of_Memᴰ _ db.tasks (λ u m x.
        unfold find_expired in
        sort_by_expiry-Memᴰ u _ (select-Memᴰ (is_expired now) u db.tasks m x))

    go :
        (ts : List DispatchTask)
        → OverdueIn now ts db
        → OverdueIn now [] (settle_found d now m others db ts).1
    go [] h = h
    go (t ∷ ts) h =
        simp (works.1.0)
          (settle_all-OverdueIn d now m others (t ∷ ts) (start_run d db) works.1.1 keep h)
