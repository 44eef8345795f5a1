-- ===== src/Parking/Announce.antt =====
-- What an exit by request sends.
use onepark_smart_park.Prelude.{
  ℕ, ◌≡◌, sym, ap, Bool, true, false, some, List, [], ◌∷◌, ◌++◌, Text, ◌==◌, ==_iff, Bool-cases,
  Option-cases, inl, inr, arith, ◌∙◌, none, if◌then◌else◌,
}
use onepark_smart_park.Table.{update, affected}
use onepark_smart_park.Parking.Model.{
  ParkingRecord, parking_status_parking, parking_status_done, vehicle_type_abnormal, newest,
}
use onepark_smart_park.Parking.Store.{
  Event, parking_exit, State, Answers, publish, still_parking, active_of, Settlement, set_settled,
}
use onepark_smart_park.Parking.Manual.{
  ParkingExitReq, ParkingRecordResp, failed, already_settled, load_failed, settle_failed, answered,
  settle_request, exit_answer, manual_settlement, parking_exit_request, announce_loaded,
}
use onepark_smart_park.Parking.Settle.{settle_request_done}

newest-holds {ℓ} :
    {R : Type ℓ} (p : R → Bool) (rs : List R) {r : R} → newest p rs ≡ some r → p r ≡ true
newest-holds p [] h = cc
newest-holds p (x ∷ rs) {r = r} h = elim (Option-cases (newest p rs)) [
  | inl e ↦ let k : (if p x then some x else none) ≡ some r = rw e at h in ground arith
  | inr (y, e) ↦ let k : some y ≡ some r = rw e at h in newest-holds p rs (e ∙ k)
]

settle_request_fails :
    (a : Answers) (tenant : ℕ) (req : ParkingExitReq) (r : ParkingRecord) (s : Settlement)
    (st : State)
    → a.update_fails ≡ true
    → settle_request a tenant req r s st ≡ (st, failed settle_failed)
unfolding settle_request
settle_request_fails a tenant req r s st fails = simp fails

settle_request_parked :
    (a : Answers) (tenant : ℕ) (req : ParkingExitReq) (r : ParkingRecord) (s : Settlement)
    (st : State)
    → a.update_fails ≡ false
    → (affected (still_parking r.id tenant) st.records == 0) ≡ false
    → let after = record st {
      records = update (still_parking r.id tenant) (set_settled s) st.records;
    } in
      settle_request a tenant req r s st
      ≡ (announce_loaded a req r after, answered (exit_answer a r s))
unfolding settle_request
settle_request_parked a tenant req r s st works parked = simp (works, parked)

settle_request-answered :
    (a : Answers) (tenant : ℕ) (req : ParkingExitReq) (r : ParkingRecord) (s : Settlement)
    (st : State) {resp : ParkingRecordResp}
    → (settle_request a tenant req r s st).1 ≡ answered resp
    → settle_request a tenant req r s st ≡ (
      announce_loaded a req r
          (record st { records = update (still_parking r.id tenant) (set_settled s) st.records }),
      answered (exit_answer a r s),
    )
settle_request-answered a tenant req r s st {resp} h = elim (Bool-cases a.update_fails) [
  | inl fails ↦
      let no : failed settle_failed ≡ answered resp =
        rw (settle_request_fails a tenant req r s st fails) at h in
      cc
  | inr works ↦ elim (Bool-cases (affected (still_parking r.id tenant) st.records == 0)) [
    | inl gone ↦
        let no : failed already_settled ≡ answered resp =
          rw (settle_request_done a tenant req r s st works ((==_iff _ 0).0 gone)) at h in
        cc
    | inr parked ↦ settle_request_parked a tenant req r s st works parked
  ]
]

publish_sent :
    (a : Answers) (e : Event) (st : State)
    → a.has_producer ≡ true
    → a.publish_fails e ≡ false
    → (publish a e st).events ≡ st.events ++ e ∷ []
unfolding publish
publish_sent a e st on sends = simp (on, sends)

parking_exit_request_found :
    (a : Answers) (tenant : ℕ) (req : ParkingExitReq) (st : State) {r : ParkingRecord}
    {resp : ParkingRecordResp}
    → newest (active_of tenant req.plate_no) st.records ≡ some r
    → (parking_exit_request a tenant req st).1 ≡ answered resp
    → parking_exit_request a tenant req st
      ≡ settle_request a tenant req r (manual_settlement a tenant req r st) (a.meanwhile st)
unfolding parking_exit_request
parking_exit_request_found a tenant req st {r} {resp} found done = elim (Bool-cases a.load_fails) [
  | inl fails ↦ let no : failed load_failed ≡ answered resp = simp fails at done in cc
  | inr loads ↦ simp (loads, found)
]

active-parking :
    (tenant : ℕ) (plate : Text) (rs : List ParkingRecord) {r : ParkingRecord}
    → newest (active_of tenant plate) rs ≡ some r
    → r.status ≡ parking_status_parking
active-parking tenant plate rs {r} found =
    let h = newest-holds (active_of tenant plate) rs found in ground arith

answered-status : {p q : ParkingRecordResp} → answered p ≡ answered q → p.status ≡ q.status
answered-status h = ground arith

-- The message of an exit by request shows the record as it was read, still parked,
-- although the answer says that it is settled. Conditions: the request is answered,
-- the vehicle is not abnormal, and Kafka takes the message.
pub parking_exit_request-sends_loaded :
    (a : Answers) (tenant : ℕ) (req : ParkingExitReq) (st : State) {r : ParkingRecord}
    {resp : ParkingRecordResp}
    → newest (active_of tenant req.plate_no) st.records ≡ some r
    → (parking_exit_request a tenant req st).1 ≡ answered resp
    → (r.vehicle_type == vehicle_type_abnormal) ≡ false
    → a.has_producer ≡ true
    → a.publish_fails (parking_exit r) ≡ false
    → ((parking_exit_request a tenant req st).0.events
        ≡ (a.meanwhile st).events ++ parking_exit r ∷ [])
      × (r.status ≡ parking_status_parking)
      × (resp.status ≡ parking_status_done)
parking_exit_request-sends_loaded a tenant req st {r} {resp} found done usual on sends =
    let s = manual_settlement a tenant req r st in
    let e = parking_exit_request_found a tenant req st found done in
    let k = rw e at done in
    let settled = settle_request-answered a tenant req r s (a.meanwhile st) k in
    rw (e, settled, usual)
      (
        publish_sent a (parking_exit r) _ on sends,
        active-parking tenant req.plate_no st.records found,
        answered-status (sym k ∙ ap (λ z. z.1) settled),
      )
