-- ===== src/Gateway/Identity.antt =====
-- A device speaks only for itself.
use onepark_smart_park.Prelude.{
  ℕ, ◌≡◌, refl, ap, Bool, true, ◌||◌, not, Option, none, some, List, [], ◌∷◌, Text, codes, text_eq,
  is_empty, All, All-map, All-append, Bool-cases, both_branches, inl, inr, arith,
}
use onepark_smart_park.Table.{first, update}
use onepark_smart_park.Gateway.Model.{
  Device, Message, Hub, has_device_id, set_online, find_by_device_id, update_online, is_alarm_event,
  Payload, of_metrics, of_payload, of_status,
}
use onepark_smart_park.Gateway.Frame.{Frame, Response}
use onepark_smart_park.Gateway.Session.{
  Session, Answers, Handled, handled, mark_online, auth_found, auth, publish, after_publish,
  message_of, dispatch, handle_frame, is_none,
}

module _ (bcrypt : Text → Text → Bool) where
  -- Some row has this identity and a secret that bcrypt accepts.
  pub data HasDevice (id : Text) (tenant : ℕ) (zone : Text) : List Device → Type 0 where
    here :
        {d : Device} {ds : List Device} (secret : Text)
        → d.device_id ≡ id
        → d.tenant_id ≡ tenant
        → d.zone_id ≡ zone
        → bcrypt d.device_secret secret ≡ true
        → HasDevice id tenant zone (d ∷ ds)
    later :
        {d : Device} {ds : List Device}
        → HasDevice id tenant zone ds
        → HasDevice id tenant zone (d ∷ ds)

  -- The message carries the identity of such a row.
  abbrev pub Speaks : List Device → Message → Type 0
  Speaks ds m = HasDevice m.device_id m.tenant_id m.zone_id ds

  pub record IsHonest (hub : Hub) : Type 0 where
    pub telemetry_ok : All (Speaks hub.devices) hub.telemetry
    pub alarms_ok : All (Speaks hub.devices) hub.alarms

  -- A session that has logged in has the identity of such a row.
  abbrev pub LoggedIn : Session → Hub → Type 0
  LoggedIn s hub = s.authed ≡ true → HasDevice s.device_id s.tenant_id s.zone_id hub.devices

  update_online-HasDevice :
      (which : Text) (at : ℕ) (ds : List Device) {id zone : Text} {tenant : ℕ}
      → HasDevice id tenant zone ds
      → HasDevice id tenant zone (update (has_device_id which) (set_online at) ds)
  update_online-HasDevice which at [] h = elim h [ ]
  update_online-HasDevice which at (d ∷ ds) (here secret i t z b) =
      elim (Bool-cases (has_device_id which d)) [
        | inl same ↦ rw same (here secret i t z b)
        | inr other ↦ rw other (here secret i t z b)
      ]
  update_online-HasDevice which at (d ∷ ds) (later h) =
      later (update_online-HasDevice which at ds h)

  mark_online-HasDevice :
      (a : Answers) (d : Device) (hub : Hub) {id zone : Text} {tenant : ℕ}
      → HasDevice id tenant zone hub.devices
      → HasDevice id tenant zone (mark_online a d hub).devices
  unfolding update_online
  mark_online-HasDevice a d hub h = elim (Bool-cases a.online_fails) [
    | inl fails ↦ simp fails h
    | inr works ↦ simp works (update_online-HasDevice d.device_id a.now hub.devices h)
  ]

  mark_online-IsHonest :
      (a : Answers) (d : Device) (hub : Hub) → IsHonest hub → IsHonest (mark_online a d hub)
  unfolding update_online
  mark_online-IsHonest a d hub v = both_branches IsHonest a.online_fails v (record {
    telemetry_ok =
        All-map (Speaks hub.devices)
          (Speaks (update (has_device_id d.device_id) (set_online a.now) hub.devices))
          (λ m. update_online-HasDevice d.device_id a.now hub.devices) hub.telemetry v.telemetry_ok;
    alarms_ok =
        All-map (Speaks hub.devices)
          (Speaks (update (has_device_id d.device_id) (set_online a.now) hub.devices))
          (λ m. update_online-HasDevice d.device_id a.now hub.devices) hub.alarms v.alarms_ok;
  })

  first-HasDevice :
      (id secret : Text) (ds : List Device) {d : Device}
      → first (has_device_id id) ds ≡ some d
      → bcrypt d.device_secret secret ≡ true
      → HasDevice d.device_id d.tenant_id d.zone_id ds
  first-HasDevice id secret [] e b = cc
  first-HasDevice id secret (x ∷ ds) {d} e b = elim (Bool-cases (has_device_id id x)) [
    | inl same ↦
        let this : some x ≡ some d = rw same at e in
        let k : x ≡ d = ground arith in
        here secret (ap (λ y. y.device_id) k) (ap (λ y. y.tenant_id) k) (ap (λ y. y.zone_id) k)
          (rw k b)
    | inr other ↦ later (first-HasDevice id secret ds (rw other at e) b)
  ]

  -- What the handler of a frame leaves is right.
  pub record IsProper (h : Handled) : Type 0 where
    pub hub_ok : IsHonest h.hub
    pub session_ok : LoggedIn h.session h.hub

  pub handled-IsProper :
      (s : Session) (hub : Hub) (r : Response) (keep : Bool)
      → LoggedIn s hub
      → IsHonest hub
      → IsProper (handled s hub r keep)
  handled-IsProper s hub r keep own v = record { hub_ok = v; session_ok = own }

  publish-IsProper :
      (a : Answers) (m : Message) (hub : Hub) (s : Session) (type : Text)
      → Speaks hub.devices m
      → LoggedIn s hub
      → IsHonest hub
      → IsProper (after_publish s hub type (publish a m hub))
  unfolding publish
  publish-IsProper a m hub s type speaks own v =
      let sent =
        All-append (Speaks hub.devices) hub.telemetry (m ∷ []) v.telemetry_ok (speaks, tt) in
      let raised = All-append (Speaks hub.devices) hub.alarms (m ∷ []) v.alarms_ok (speaks, tt) in
      both_branches (λ p. IsProper (after_publish s hub type p)) a.telemetry_fails
        (record { hub_ok = v; session_ok = own })
        (both_branches (λ p. IsProper (after_publish s hub type p)) (is_alarm_event m.event_type)
          (both_branches (λ h. IsProper (after_publish s hub type (some h))) a.alarm_fails
            (record {
              hub_ok = record { telemetry_ok = sent; alarms_ok = v.alarms_ok };
              session_ok = own;
            })
            (record {
              hub_ok = record { telemetry_ok = sent; alarms_ok = raised };
              session_ok = own;
            }))
          (record {
            hub_ok = record { telemetry_ok = sent; alarms_ok = v.alarms_ok };
            session_ok = own;
          }))

  pub dispatch-IsProper :
      (a : Answers) (f : Frame) (s : Session) (hub : Hub)
      → s.authed ≡ true
      → LoggedIn s hub
      → IsHonest hub
      → IsProper (dispatch a f s hub)
  unfolding dispatch
  dispatch-IsProper a f s hub on own v =
      let same = λ (r : Response). handled-IsProper s hub r true own v in
      let reported = λ (e : Text) (p : Payload).
        publish-IsProper a (message_of a f e p s) hub s f.type (own on) own v in
      both_branches IsProper (text_eq f.type (codes "ping")) (same _) (
        both_branches IsProper (text_eq f.type (codes "telemetry"))
          (both_branches IsProper (is_none f.metrics) (same _)
            (reported (codes "telemetry") (of_metrics f.metrics)))
          (both_branches IsProper (text_eq f.type (codes "event"))
            (both_branches IsProper (is_empty f.event_type) (same _)
              (reported f.event_type (of_payload f.payload)))
            (both_branches IsProper (text_eq f.type (codes "status"))
              (both_branches IsProper (is_empty f.status) (same _)
                (reported (codes "status") (of_status f.status)))
              (both_branches IsProper (text_eq f.type (codes "ack"))
                (both_branches IsProper (is_empty f.request_id) (same _) (
                  both_branches IsProper a.finish_fails (same _) (record {
                    hub_ok = record { telemetry_ok = v.telemetry_ok; alarms_ok = v.alarms_ok };
                    session_ok = own;
                  })))
                (same _)))))

  auth_found-IsProper :
      (a : Answers) (id secret : Text) (s : Session) (hub : Hub)
      → LoggedIn s hub
      → IsHonest hub
      → (found : Option Device) → find_by_device_id id hub.devices ≡ found
      → IsProper (auth_found bcrypt a secret s hub found)
  unfolding find_by_device_id
  auth_found-IsProper a id secret s hub own v none e = handled-IsProper s hub _ _ own v
  auth_found-IsProper a id secret s hub own v (some d) e =
      elim (Bool-cases (bcrypt d.device_secret secret)) [
        | inl good ↦
            let row = first-HasDevice id secret hub.devices e good in
            rw good (record {
              hub_ok = mark_online-IsHonest a d hub v;
              session_ok = λ _. mark_online-HasDevice a d hub row;
            })
        | inr bad ↦ rw bad (handled-IsProper s hub _ _ own v)
      ]

  pub auth-IsProper :
      (a : Answers) (id secret : Text) (s : Session) (hub : Hub)
      → LoggedIn s hub
      → IsHonest hub
      → IsProper (auth bcrypt a id secret s hub)
  unfolding auth
  auth-IsProper a id secret s hub own v =
      both_branches IsProper (is_empty id || is_empty secret) (handled-IsProper s hub _ _ own v) (
        both_branches IsProper a.find_fails (handled-IsProper s hub _ _ own v)
          (auth_found-IsProper a id secret s hub own v (find_by_device_id id hub.devices) refl))

  pub handle_frame-IsProper :
      (a : Answers) (f : Frame) (s : Session) (hub : Hub)
      → LoggedIn s hub
      → IsHonest hub
      → IsProper (handle_frame bcrypt a f s hub)
  unfolding handle_frame
  handle_frame-IsProper a f s hub own v = elim (Bool-cases s.authed) [
    | inl on ↦ simp on (dispatch-IsProper a f s hub on own v)
    | inr off ↦ simp off (
        both_branches IsProper (not (text_eq f.type (codes "auth")))
          (handled-IsProper s hub _ _ own v) (auth-IsProper a f.device_id f.secret s hub own v))
  ]
