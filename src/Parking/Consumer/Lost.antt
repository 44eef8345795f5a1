-- ===== src/Parking/Consumer/Lost.antt =====
-- Exits whose record could not be read.
use onepark_smart_park.Prelude.{
  ◌≡◌, refl, true, false, ◌∷◌, Text, text_eq_refl, Bool-cases, inl, inr,
}
use onepark_smart_park.Parking.Store.{State, Answers}
use onepark_smart_park.Parking.Telemetry.{Telemetry, idempotent_id}
use onepark_smart_park.Parking.Consumer.{repeat, dedup_key, has_key, seen, on_telemetry_exit}

on_telemetry_exit_held :
    (sha1_hex : Text → Text) (a : Answers) (t : Telemetry) (st : State)
    → a.has_dedup ≡ true
    → has_key (dedup_key (idempotent_id sha1_hex t)) st.keys ≡ true
    → (on_telemetry_exit sha1_hex a t st).0 ≡ st
unfolding on_telemetry_exit seen
on_telemetry_exit_held sha1_hex a t st on held = elim (Bool-cases a.seen_fails) [
  | inl fails ↦ simp (on, fails)
  | inr sees ↦ simp (on, sees, held)
]

on_telemetry_exit_unread :
    (sha1_hex : Text → Text) (a : Answers) (t : Telemetry) (st : State)
    → let key = dedup_key (idempotent_id sha1_hex t) in
      has_key key st.keys ≡ false
      → a.has_dedup ≡ true
      → a.seen_fails ≡ false
      → a.load_fails ≡ true
      → on_telemetry_exit sha1_hex a t st ≡ (record st { keys = key ∷ st.keys }, repeat)
unfolding on_telemetry_exit seen
on_telemetry_exit_unread sha1_hex a t st new on sees fails = simp (on, sees, new, fails)

-- An exit whose record could not be read stays claimed, so that the repeated message changes nothing
-- and the vehicle stays parked. Conditions: both deliveries deduplicate, and at the first one Redis
-- answers and does not yet hold the key of the message.
pub on_telemetry_exit-lost :
    (sha1_hex : Text → Text) (a b : Answers) (t : Telemetry) (st : State)
    → has_key (dedup_key (idempotent_id sha1_hex t)) st.keys ≡ false
    → a.has_dedup ≡ true
    → a.seen_fails ≡ false
    → a.load_fails ≡ true
    → b.has_dedup ≡ true
    → let after = (on_telemetry_exit sha1_hex a t st).0 in
      ((on_telemetry_exit sha1_hex a t st).1 ≡ repeat)
      × (after.records ≡ st.records)
      × ((on_telemetry_exit sha1_hex b t after).0 ≡ after)
on_telemetry_exit-lost sha1_hex a b t st new on sees fails bon =
    let key = dedup_key (idempotent_id sha1_hex t) in
    rw (on_telemetry_exit_unread sha1_hex a t st new on sees fails) (
      refl,
      refl,
      on_telemetry_exit_held sha1_hex b t (record st { keys = key ∷ st.keys }) bon
          (rw (text_eq_refl key) refl),
    )
