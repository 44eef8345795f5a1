-- ===== src/Gateway/Login.antt =====
-- What a connection can do before it has logged in: `HandleFrame` of internal/frame/session.go and
-- the loop of internal/frame/handler.go.
use onepark_smart_park.Prelude.{
  ℕ, ◌≡◌, refl, Bool, true, false, ◌||◌, Option, none, some, List, [], ◌∷◌, Text, codes, text_eq,
  text_eq→≡, is_empty, Bool-cases, inl, inr,
}
use onepark_smart_park.Gateway.Model.{Device, Hub, find_by_device_id}
use onepark_smart_park.Gateway.Frame.{Frame, Response, read}
use onepark_smart_park.Gateway.Session.{
  Answers, Handled, new_session, auth_found, auth, handle_frame,
}
use onepark_smart_park.Gateway.Serve.{serve}

-- A frame `auth` that names a device of the table, with the secret that the device's hash accepts,
-- while the table answers
pub record LogsIn (bcrypt : Text → Text → Bool) (a : Answers) (f : Frame) (hub : Hub) : Type 0 where
  pub device : Device
  pub is_auth : f.type ≡ codes "auth"
  pub named : (is_empty f.device_id || is_empty f.secret) ≡ false
  pub answers : a.find_fails ≡ false
  pub found : find_by_device_id f.device_id hub.devices ≡ some device
  pub proved : bcrypt device.device_secret f.secret ≡ true

-- A frame that does not log in is refused, the connection ends, and the hub is left alone.
data Outcome (login : Type 0) (hub : Hub) (h : Handled) : Type 0 where
  let_in : login → Outcome login hub h
  turned_away : h.keep ≡ false → h.hub ≡ hub → h.response.ok ≡ false → Outcome login hub h

module _ (bcrypt : Text → Text → Bool) (a : Answers) (f : Frame) (hub : Hub) where
  auth_found-Outcome :
      (found : Option Device)
      → f.type ≡ codes "auth"
      → (is_empty f.device_id || is_empty f.secret) ≡ false
      → a.find_fails ≡ false
      → find_by_device_id f.device_id hub.devices ≡ found
      → Outcome (LogsIn bcrypt a f hub) hub (auth_found bcrypt a f.secret new_session hub found)
  auth_found-Outcome none is named answers e = turned_away refl refl refl
  auth_found-Outcome (some d) is named answers e =
      elim (Bool-cases (bcrypt d.device_secret f.secret)) [
        | inl good ↦ let_in (record {
          device = d;
          is_auth = is;
          named = named;
          answers = answers;
          found = e;
          proved = good;
        })
        | inr bad ↦ rw bad (turned_away refl refl refl)
      ]

  handle_frame-Outcome :
      Outcome (LogsIn bcrypt a f hub) hub (handle_frame bcrypt a f new_session hub)
  unfolding handle_frame auth
  handle_frame-Outcome = elim (Bool-cases (text_eq f.type (codes "auth"))) [
    | inr other ↦ rw other (turned_away refl refl refl)
    | inl is ↦ elim (Bool-cases (is_empty f.device_id || is_empty f.secret)) [
      | inl unnamed ↦ rw (is, unnamed) (turned_away refl refl refl)
      | inr named ↦ elim (Bool-cases a.find_fails) [
        | inl fails ↦ rw (is, named, fails) (turned_away refl refl refl)
        | inr answers ↦
            simp (is, named, answers)
              (auth_found-Outcome (find_by_device_id f.device_id hub.devices)
                (text_eq→≡ f.type (codes "auth") is) named answers refl)
      ]
    ]
  ]

-- A connection whose first frame is none that logs in gets one response, a refusal, and is closed:
-- whatever it sends with and after that frame, no table changes and nothing is sent on.
pub serve-refused :
    (bcrypt : Text → Text → Bool) (json : Text → Option Frame) (max_bytes : ℕ) (a : Answers)
    (line : Text) (inputs : List (Answers × Text)) (hub : Hub) {b : ℕ} {rest : Text} {f : Frame}
    → read max_bytes line ≡ some (b ∷ rest)
    → json (b ∷ rest) ≡ some f
    → ¬ LogsIn bcrypt a f hub
    → (r : Response) × ((r.ok ≡ false)
        × (serve bcrypt json max_bytes ((a, line) ∷ inputs) new_session hub ≡ (hub, r ∷ [])))
unfolding serve
serve-refused bcrypt json max_bytes a line inputs hub {b} {rest} {f} taken parsed stranger =
    let h = handle_frame bcrypt a f new_session hub in
    elim (handle_frame-Outcome bcrypt a f hub) [
      | let_in login ↦ absurd (stranger login)
      | turned_away ends same refused ↦
          (h.response, (refused, rw (taken, parsed, ends, same, serve) refl))
    ]
