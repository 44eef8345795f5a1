-- ===== src/Parking/Settle.antt =====
-- Exits by message and by request: who settles a record, and what is sent.
use onepark_smart_park.Prelude.{
  ℕ, ◌≡◌, refl, false, List, Text, ◌==◌, ==_iff, Bool-cases, inl, inr, arith,
}
use onepark_smart_park.Table.{update, affected}
use onepark_smart_park.Table.Laws.{affected-update}
use onepark_smart_park.Parking.Model.{ParkingRecord, vehicle_type_abnormal}
use onepark_smart_park.Parking.Store.{
  parking_exit, alarm, State, Answers, publish, still_parking, Settlement, set_settled,
}
use onepark_smart_park.Parking.Telemetry.{Telemetry}
use onepark_smart_park.Parking.Consumer.{commit, settle_exit, announce, as_sent}
use onepark_smart_park.Parking.Consumer.Delivery.{publish-records}
use onepark_smart_park.Parking.Manual.{ParkingExitReq, failed, already_settled, settle_request}

-- No record of this id and tenant is parked any more.
abbrev pub NoneParked : ℕ → ℕ → State → Type 0
NoneParked id tenant st = affected (still_parking id tenant) st.records ≡ 0

settle_exit_done :
    (a : Answers) (t : Telemetry) (id : Text) (r : ParkingRecord) (s : Settlement) (st : State)
    → a.update_fails ≡ false
    → NoneParked r.id t.tenant_id st
    → settle_exit a t id r s st ≡ (st, commit)
unfolding settle_exit
settle_exit_done a t id r s st works gone = simp (works, gone)

settle_exit_parked :
    (a : Answers) (t : Telemetry) (id : Text) (r : ParkingRecord) (s : Settlement) (st : State)
    → a.update_fails ≡ false
    → (affected (still_parking r.id t.tenant_id) st.records == 0) ≡ false
    → settle_exit a t id r s st ≡ (
      announce a t (as_sent s r) (record st {
        records = update (still_parking r.id t.tenant_id) (set_settled s) st.records;
      }),
      commit,
    )
unfolding settle_exit
settle_exit_parked a t id r s st works parked = simp (works, parked)

pub settle_request_done :
    (a : Answers) (tenant : ℕ) (req : ParkingExitReq) (r : ParkingRecord) (s : Settlement)
    (st : State)
    → a.update_fails ≡ false
    → NoneParked r.id tenant st
    → settle_request a tenant req r s st ≡ (st, failed already_settled)
unfolding settle_request
settle_request_done a tenant req r s st works gone = simp (works, gone)

announce-records :
    (a : Answers) (t : Telemetry) (r : ParkingRecord) (st : State)
    → (announce a t r st).records ≡ st.records
announce-records a t r st =
    let sent = publish a (parking_exit r) st in
    elim (Bool-cases (r.vehicle_type == vehicle_type_abnormal)) [
      | inl odd ↦
          rw
            (
              odd,
              publish-records a (alarm t.plate_no t.device_id t.timestamp) sent,
              publish-records a (parking_exit r) st,
            )
            refl
      | inr usual ↦ rw (usual, publish-records a (parking_exit r) st) refl
    ]

update-NoneParked :
    (id tenant : ℕ) (s : Settlement) (rs : List ParkingRecord)
    → affected (still_parking id tenant) (update (still_parking id tenant) (set_settled s) rs) ≡ 0
update-NoneParked id tenant s rs =
    affected-update (still_parking id tenant) (set_settled s) rs (λ r h. ground arith)

settle_exit-NoneParked :
    (a : Answers) (t : Telemetry) (id : Text) (r : ParkingRecord) (s : Settlement) (st : State)
    → a.update_fails ≡ false
    → NoneParked r.id t.tenant_id (settle_exit a t id r s st).0
settle_exit-NoneParked a t id r s st works =
    elim (Bool-cases (affected (still_parking r.id t.tenant_id) st.records == 0)) [
      | inl none_left ↦
          let gone : NoneParked r.id t.tenant_id st = (==_iff _ 0).0 none_left in
          rw (settle_exit_done a t id r s st works gone) gone
      | inr parked ↦
          rw (settle_exit_parked a t id r s st works parked, announce-records a t (as_sent s r) _)
            (update-NoneParked r.id t.tenant_id s st.records)
    ]

-- A record is settled once: after an exit message has written, another exit that had read the same
-- record, by message or by request, for the same tenant, changes nothing and sends nothing; the
-- request is answered that it is settled. Condition: neither update fails.
pub settle_exit-excludes :
    (a b : Answers) (t u : Telemetry) (id again : Text) (r q : ParkingRecord) (s z : Settlement)
    (req : ParkingExitReq) (st : State)
    → a.update_fails ≡ false
    → b.update_fails ≡ false
    → q.id ≡ r.id
    → u.tenant_id ≡ t.tenant_id
    → let after = (settle_exit a t id r s st).0 in
      (settle_exit b u again q z after ≡ (after, commit))
      × (settle_request b t.tenant_id req q z after ≡ (after, failed already_settled))
settle_exit-excludes a b t u id again r q s z req st works wb same tenant =
    let after = (settle_exit a t id r s st).0 in
    let gone : NoneParked r.id t.tenant_id after = settle_exit-NoneParked a t id r s st works in
    (
      settle_exit_done b u again q z after wb (rw (same, tenant) gone),
      settle_request_done b t.tenant_id req q z after wb (rw same gone),
    )
