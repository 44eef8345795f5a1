-- ===== src/Gateway/Receipt.antt =====
-- Whose commands a connection can finish: `finishCommand` of internal/frame/session.go.
use mathlib.Core.List.{Memᴰ}
use onepark_smart_park.Prelude.{
  ℕ, ◌≡◌, refl, ap, sym, ◌∙◌, Bool, true, false, Option, none, some, List, [], ◌∷◌, Text, codes,
  is_empty, Bool-cases, inl, inr,
}
use onepark_smart_park.Table.{update}
use onepark_smart_park.Gateway.Model.{CommandLog, Hub, set_finished, finish, is_open}
use onepark_smart_park.Gateway.Frame.{Frame, read}
use onepark_smart_park.Gateway.Session.{
  Session, Answers, new_session, logged_in, mark_online, auth, dispatch, handle_frame,
  command_status,
}
use onepark_smart_park.Gateway.Serve.{serve}
use onepark_smart_park.Gateway.Login.{LogsIn}

-- A row that an update selects is there as written.
Memᴰ-update :
    (p : CommandLog → Bool) (set : CommandLog → CommandLog) (cs : List CommandLog) {c : CommandLog}
    → Memᴰ c cs
    → p c ≡ true
    → Memᴰ (set c) (update p set cs)
Memᴰ-update p set [] m h = elim m [ ]
Memᴰ-update p set (x ∷ cs) (Memᴰ.head e) h =
    let hit : p x ≡ true = rw (sym e) h in rw hit (Memᴰ.head (ap set e))
Memᴰ-update p set (x ∷ cs) (Memᴰ.tail m) h = Memᴰ.tail (Memᴰ-update p set cs m h)

-- The hub after a frame, where the connection goes on
serve-goes_on :
    (bcrypt : Text → Text → Bool) (json : Text → Option Frame) (max_bytes : ℕ) (a : Answers)
    (line : Text) (inputs : List (Answers × Text)) (s : Session) (hub : Hub) {x : ℕ} {xs : Text}
    {f : Frame}
    → read max_bytes line ≡ some (x ∷ xs)
    → json (x ∷ xs) ≡ some f
    → (handle_frame bcrypt a f s hub).keep ≡ true
    → (serve bcrypt json max_bytes ((a, line) ∷ inputs) s hub).0
      ≡ (serve bcrypt json max_bytes inputs
          (handle_frame bcrypt a f s hub).session
          (handle_frame bcrypt a f s hub).hub).0
unfolding serve
serve-goes_on bcrypt json max_bytes a line inputs s hub taken parsed keeps =
    rw (taken, parsed, keeps, serve) refl

-- The hub after the last frame
serve-last :
    (bcrypt : Text → Text → Bool) (json : Text → Option Frame) (max_bytes : ℕ) (a : Answers)
    (line : Text) (s : Session) (hub : Hub) {x : ℕ} {xs : Text} {f : Frame}
    → read max_bytes line ≡ some (x ∷ xs)
    → json (x ∷ xs) ≡ some f
    → (serve bcrypt json max_bytes ((a, line) ∷ []) s hub).0 ≡ (handle_frame bcrypt a f s hub).hub
unfolding serve
serve-last bcrypt json max_bytes a line s hub {x} {xs} {f} taken parsed =
    elim (Bool-cases (handle_frame bcrypt a f s hub).keep) [
      | inl keeps ↦ rw (taken, parsed, keeps, serve) refl
      | inr ends ↦ rw (taken, parsed, ends, serve) refl
    ]

module _ (bcrypt : Text → Text → Bool) (a b : Answers) (f g : Frame) (hub : Hub)
    (login : LogsIn bcrypt a f hub) where
  -- The connection after the login
  abbrev after : Session
  after = logged_in new_session login.device

  handle_frame-login : handle_frame bcrypt a f new_session hub ≡ record {
    session = after;
    hub = mark_online a login.device hub;
    response = record { ok = true; type = codes "auth"; error = none };
    keep = true;
  }
  unfolding handle_frame auth
  handle_frame-login = simp (login.is_auth, login.named, login.answers, login.found, login.proved)

  mark_online-commands : (mark_online a login.device hub).commands ≡ hub.commands
  mark_online-commands = elim (Bool-cases a.online_fails) [
    | inl fails ↦ rw fails refl
    | inr works ↦ rw works refl
  ]

  -- What a receipt of the connection leaves of the commands
  dispatch-receipt :
      (s : Session) (now : Hub)
      → g.type ≡ codes "ack"
      → is_empty g.request_id ≡ false
      → b.finish_fails ≡ false
      → (dispatch b g s now).hub.commands
        ≡ finish g.request_id (command_status g.status) g.payload b.now now.commands
  unfolding dispatch
  dispatch-receipt s now ack named works = simp (ack, named, works)

  handle_frame-after : (now : Hub) → handle_frame bcrypt b g after now ≡ dispatch b g after now
  unfolding handle_frame
  handle_frame-after now = refl

  serve-receipt :
      (json : Text → Option Frame) (max_bytes : ℕ) (line receipt : Text) {x y : ℕ} {xs ys : Text}
      → read max_bytes line ≡ some (x ∷ xs)
      → json (x ∷ xs) ≡ some f
      → read max_bytes receipt ≡ some (y ∷ ys)
      → json (y ∷ ys) ≡ some g
      → (serve bcrypt json max_bytes ((a, line) ∷ (b, receipt) ∷ []) new_session hub).0
        ≡ (dispatch b g after (mark_online a login.device hub)).hub
  serve-receipt json max_bytes line receipt taken parsed taken' parsed' =
      let now = mark_online a login.device hub in
      serve-goes_on bcrypt json max_bytes a line ((b, receipt) ∷ []) new_session hub taken parsed
        (ap (λ h. h.keep) handle_frame-login)
      ∙ ap (λ h. (serve bcrypt json max_bytes ((b, receipt) ∷ []) h.session h.hub).0)
          handle_frame-login
      ∙ serve-last bcrypt json max_bytes b receipt after now taken' parsed'
      ∙ ap (λ h. h.hub) (handle_frame-after now)

  -- A connection that logs in and then sends a receipt finishes every open command with the
  -- receipt's request id, whatever device and tenant it was sent to: the command stands in the table
  -- afterwards with the receipt's status and payload. Condition: the table of commands answers.
  pub serve-finishes_any :
      (json : Text → Option Frame) (max_bytes : ℕ) (line receipt : Text) {x y : ℕ} {xs ys : Text}
      → read max_bytes line ≡ some (x ∷ xs)
      → json (x ∷ xs) ≡ some f
      → read max_bytes receipt ≡ some (y ∷ ys)
      → json (y ∷ ys) ≡ some g
      → g.type ≡ codes "ack"
      → is_empty g.request_id ≡ false
      → b.finish_fails ≡ false
      → (c : CommandLog) → Memᴰ c hub.commands
      → is_open g.request_id c ≡ true
      → Memᴰ
          (set_finished (command_status g.status) g.payload b.now c)
          (serve bcrypt json max_bytes ((a, line) ∷ (b, receipt) ∷ []) new_session hub).0.commands
  unfolding finish
  serve-finishes_any json max_bytes line receipt taken parsed taken' parsed' ack named works c m
        unfinished =
      let now = mark_online a login.device hub in
      rw
        (
          serve-receipt json max_bytes line receipt taken parsed taken' parsed',
          dispatch-receipt after now ack named works,
          mark_online-commands,
        )
        (Memᴰ-update (is_open g.request_id) (set_finished (command_status g.status) g.payload b.now)
          hub.commands m unfinished)
