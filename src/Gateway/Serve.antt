-- ===== src/Gateway/Serve.antt =====
-- One TCP connection: internal/frame/handler.go. An input is a complete line with the answers of
-- the databases while it is handled; a time-out, a lost connection or a shutdown ends the list.
use onepark_smart_park.Prelude.{
  ℕ, Bool, true, false, Option, none, some, List, [], ◌∷◌, Text, if◌then◌else◌,
}
use onepark_smart_park.Prelude.Int.{ℤ, is_positive, pos_part}
use onepark_smart_park.Gateway.Model.{Hub}
use onepark_smart_park.Gateway.Frame.{Frame, Response, bad_frame, read}
use onepark_smart_park.Gateway.Session.{Session, Answers, new_session, refused, handle_frame}

abbrev pub max_frame_bytes : ℤ → ℕ
max_frame_bytes configured = if is_positive configured then pos_part configured else 8192

-- The hub after the connection and the responses written to it.
abbrev pub Served : Type 0
Served = Hub × List Response

abbrev pub answer : Response → Served → Served
answer r (hub, rs) = (hub, r ∷ rs)

-- The arguments: bcrypt, the JSON decoder (`none` is an error) and the limit of a frame.
unfoldable pub serve :
    (Text → Text → Bool)
    → (Text → Option Frame)
    → ℕ
    → List (Answers × Text)
    → Session
    → Hub
    → Served
serve bcrypt json max_bytes [] s hub = (hub, [])
serve bcrypt json max_bytes ((a, line) ∷ inputs) s hub = elim (read max_bytes line) [
  | none ↦ (hub, [])
  | some [] ↦ serve bcrypt json max_bytes inputs s hub
  | some (b ∷ rest) ↦ elim (json (b ∷ rest)) [
    | none ↦ (hub, refused [] bad_frame ∷ [])
    | some f ↦
        let h = handle_frame bcrypt a f s hub in
        let more = serve bcrypt json max_bytes inputs h.session h.hub in
        elim h.keep [ true ↦ answer h.response more | false ↦ (h.hub, h.response ∷ []) ]
  ]
]

-- `Serve`
unfoldable pub serve_connection :
    (Text → Text → Bool) → (Text → Option Frame) → ℤ → List (Answers × Text) → Hub → Served
unfolding serve
serve_connection bcrypt json configured inputs hub =
    serve bcrypt json (max_frame_bytes configured) inputs new_session hub
