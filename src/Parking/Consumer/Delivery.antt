-- ===== src/Parking/Consumer/Delivery.antt =====
-- Messages that arrive again.
use onepark_smart_park.Prelude.{
  ◌≡◌, ◌⊎◌, refl, Bool, true, false, not, List, [], ◌∷◌, ◌++◌, Text, text_eq, text_eq_refl, select,
  ◌==◌, Bool-cases, inl, inr, arith,
}
use onepark_smart_park.Table.{affected}
use onepark_smart_park.Parking.Model.{ParkingRecord}
use onepark_smart_park.Parking.Store.{Event, parking_entry, State, Answers, publish}
use onepark_smart_park.Parking.Telemetry.{Telemetry, idempotent_id}
use onepark_smart_park.Parking.Consumer.{
  commit, repeat, dedup_key, has_key, unavailable, duplicate, fresh, seen, release, same_request,
  entry_record, add_record, insert_entry, enter, on_telemetry_entry,
}

select_without :
    (key : Text) (ks : List Text)
    → has_key key ks ≡ false
    → select (λ k. not (text_eq k key)) ks ≡ ks
select_without key [] h = refl
select_without key (k ∷ ks) h = ground (arith, select_without key ks)

release_claimed :
    (a : Answers) (id : Text) (st : State)
    → has_key (dedup_key id) st.keys ≡ false
    → a.has_dedup ≡ true
    → a.release_fails ≡ false
    → release a id (record st { keys = dedup_key id ∷ st.keys }) ≡ st
unfolding release
release_claimed a id st new on works =
    simp (on, works, text_eq_refl (dedup_key id), select_without (dedup_key id) st.keys new)

seen_known_key :
    (a : Answers) (id : Text) (st : State)
    → a.has_dedup ≡ true
    → a.seen_fails ≡ false
    → has_key (dedup_key id) st.keys ≡ true
    → seen a id st ≡ duplicate
unfolding seen
seen_known_key a id st on sees known = simp (on, sees, known)

seen_new_key :
    (a : Answers) (id : Text) (st : State)
    → a.has_dedup ≡ true
    → a.seen_fails ≡ false
    → has_key (dedup_key id) st.keys ≡ false
    → seen a id st ≡ fresh (record st { keys = dedup_key id ∷ st.keys })
unfolding seen
seen_new_key a id st on sees new = simp (on, sees, new)

seen_off : (a : Answers) (id : Text) (st : State) → a.has_dedup ≡ false → seen a id st ≡ fresh st
unfolding seen
seen_off a id st off = simp off

release_off : (a : Answers) (id : Text) (st : State) → a.has_dedup ≡ false → release a id st ≡ st
unfolding release
release_off a id st off = simp off

insert_entry_fails :
    (a : Answers) (t : Telemetry) (id : Text) (st : State)
    → a.insert_fails ≡ true
    → insert_entry a t id st ≡ (release a id st, repeat)
unfolding insert_entry
insert_entry_fails a t id st fails = simp fails

-- An entry whose row cannot be written leaves no trace, so that the repeated message runs as the
-- first one: the key that was claimed for it is free again. Conditions: the key was not there, and
-- Redis answers.
pub on_telemetry_entry-repeatable :
    (sha1_hex : Text → Text) (a : Answers) (t : Telemetry) (st : State)
    → has_key (dedup_key (idempotent_id sha1_hex t)) st.keys ≡ false
    → a.seen_fails ≡ false
    → a.release_fails ≡ false
    → a.insert_fails ≡ true
    → on_telemetry_entry sha1_hex a t st ≡ (st, repeat)
unfolding on_telemetry_entry
on_telemetry_entry-repeatable sha1_hex a t st new sees works fails =
    let id = idempotent_id sha1_hex t in
    elim (Bool-cases a.has_dedup) [
      | inl on ↦
          rw
            (
              seen_new_key a id st on sees new,
              insert_entry_fails a t id (record st { keys = dedup_key id ∷ st.keys }) fails,
              release_claimed a id st new on works,
            )
            refl
      | inr off ↦
          rw (seen_off a id st off, insert_entry_fails a t id st fails, release_off a id st off)
            refl
    ]

-- What redelivery must leave alone.
abbrev pub Untouched : State → State → Type 0
Untouched st after = (after.records ≡ st.records) × (after.events ≡ st.events)

pub release-Untouched : (a : Answers) (id : Text) (st : State) → Untouched st (release a id st)
unfolding release
release-Untouched a id st = elim (Bool-cases a.has_dedup) [
  | inl on ↦ elim (Bool-cases a.release_fails) [
    | inl fails ↦ simp (on, fails) (refl, refl)
    | inr works ↦ simp (on, works) (refl, refl)
  ]
  | inr off ↦ simp off (refl, refl)
]

insert_entry_known :
    (a : Answers) (t : Telemetry) (id : Text) (st : State)
    → a.insert_fails ≡ false
    → (affected (same_request id) st.records == 0) ≡ false
    → insert_entry a t id st ≡ (st, commit)
unfolding insert_entry
insert_entry_known a t id st works known = simp (works, known)

insert_entry_new :
    (a : Answers) (t : Telemetry) (id : Text) (st : State)
    → a.insert_fails ≡ false
    → (affected (same_request id) st.records == 0) ≡ true
    → let r = entry_record a t id st in
      insert_entry a t id st ≡ (publish a (parking_entry r) (add_record r st), commit)
unfolding insert_entry
insert_entry_new a t id st works new = simp (works, new)

insert_entry-Untouched :
    (a : Answers) (t : Telemetry) (id : Text) (st : State)
    → (affected (same_request id) st.records == 0) ≡ false
    → Untouched st (insert_entry a t id st).0
insert_entry-Untouched a t id st known = elim (Bool-cases a.insert_fails) [
  | inl fails ↦ rw (insert_entry_fails a t id st fails) (release-Untouched a id st)
  | inr works ↦ rw (insert_entry_known a t id st works known) (refl, refl)
]

affected-append_last :
    (p : ParkingRecord → Bool) (rs : List ParkingRecord) (r : ParkingRecord)
    → p r ≡ true
    → (affected p (rs ++ r ∷ []) == 0) ≡ false
affected-append_last p [] r h = rw h refl
affected-append_last p (x ∷ rs) r h = ground (arith, affected-append_last p rs r h)

pub publish-records : (a : Answers) (e : Event) (st : State) → (publish a e st).records ≡ st.records
unfolding publish
publish-records a e st = elim (Bool-cases a.has_producer) [
  | inl on ↦ elim (Bool-cases (a.publish_fails e)) [
    | inl fails ↦ simp (on, fails)
    | inr works ↦ simp (on, works)
  ]
  | inr off ↦ simp off
]

insert_entry-commit :
    (a : Answers) (t : Telemetry) (id : Text) (st : State)
    → (insert_entry a t id st).1 ≡ commit
    → (affected (same_request id) (insert_entry a t id st).0.records == 0) ≡ false
insert_entry-commit a t id st done = elim (Bool-cases a.insert_fails) [
  | inl fails ↦ let no : repeat ≡ commit = rw (insert_entry_fails a t id st fails) at done in cc
  | inr works ↦ elim (Bool-cases (affected (same_request id) st.records == 0)) [
    | inl new ↦
        let r = entry_record a t id st in
        rw
          (
            insert_entry_new a t id st works new,
            publish-records a (parking_entry r) (add_record r st),
          )
          (affected-append_last (same_request id) st.records r (text_eq_refl id))
    | inr known ↦ rw (insert_entry_known a t id st works known) known
  ]
]

seen_unavailable :
    (a : Answers) (id : Text) (st : State)
    → a.has_dedup ≡ true
    → a.seen_fails ≡ true
    → seen a id st ≡ unavailable
unfolding seen
seen_unavailable a id st on fails = simp (on, fails)

seen-cases :
    (a : Answers) (id : Text) (st : State)
    → (seen a id st ≡ unavailable)
      ⊎ ((seen a id st ≡ duplicate)
          ⊎ ((ks : List Text) × (seen a id st ≡ fresh (record st { keys = ks }))))
unfolding seen
seen-cases a id st = elim (Bool-cases a.has_dedup) [
  | inl on ↦ elim (Bool-cases a.seen_fails) [
    | inl fails ↦ inl (simp (on, fails))
    | inr sees ↦ elim (Bool-cases (has_key (dedup_key id) st.keys)) [
      | inl held ↦ inr (inl (simp (on, sees, held)))
      | inr free ↦ inr (inr (dedup_key id ∷ st.keys, simp (on, sees, free)))
    ]
  ]
  | inr off ↦ inr (inr (st.keys, simp off))
]

enter-Untouched :
    (a : Answers) (t : Telemetry) (id : Text) (st : State)
    → (affected (same_request id) st.records == 0) ≡ false
    → Untouched st (enter a t id st (seen a id st)).0
enter-Untouched a t id st known = elim (seen-cases a id st) [
  | inl e ↦ rw e (refl, refl)
  | inr (inl e) ↦ rw e (refl, refl)
  | inr (inr (ks, e)) ↦ rw e (insert_entry-Untouched a t id (record st { keys = ks }) known)
]

enter-commit :
    (a : Answers) (t : Telemetry) (id : Text) (st : State)
    → has_key (dedup_key id) st.keys ≡ false
    → (enter a t id st (seen a id st)).1 ≡ commit
    → (affected (same_request id) (enter a t id st (seen a id st)).0.records == 0) ≡ false
enter-commit a t id st new done = elim (Bool-cases a.has_dedup) [
  | inl on ↦ elim (Bool-cases a.seen_fails) [
    | inl fails ↦ let no : repeat ≡ commit = rw (seen_unavailable a id st on fails) at done in cc
    | inr sees ↦
        let held = record st { keys = dedup_key id ∷ st.keys } in
        let e = seen_new_key a id st on sees new in
        rw e (insert_entry-commit a t id held (rw e at done))
  ]
  | inr off ↦ let e = seen_off a id st off in rw e (insert_entry-commit a t id st (rw e at done))
]

-- Once an entry has been committed whose key was not there, a message with the same idempotency key
-- changes no record and sends nothing, whatever Redis then remembers and however its parts answer.
pub on_telemetry_entry-once :
    (sha1_hex : Text → Text) (a b : Answers) (t u : Telemetry) (st : State) (keys : List Text)
    → idempotent_id sha1_hex u ≡ idempotent_id sha1_hex t
    → has_key (dedup_key (idempotent_id sha1_hex t)) st.keys ≡ false
    → (on_telemetry_entry sha1_hex a t st).1 ≡ commit
    → let after = (on_telemetry_entry sha1_hex a t st).0 in
      Untouched after (on_telemetry_entry sha1_hex b u (record after { keys = keys })).0
unfolding on_telemetry_entry
on_telemetry_entry-once sha1_hex a b t u st keys same new done =
    let id = idempotent_id sha1_hex t in
    let after = (on_telemetry_entry sha1_hex a t st).0 in
    rw same
      (enter-Untouched b u id (record after { keys = keys }) (enter-commit a t id st new done))
