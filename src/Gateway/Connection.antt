-- ===== src/Gateway/Connection.antt =====
-- All that a connection sends on carries its device.
use onepark_smart_park.Prelude.{
  ℕ, Bool, Option, List, [], ◌∷◌, Text, Bool-cases, Option-cases, inl, inr,
}
use onepark_smart_park.Prelude.Int.{ℤ}
use onepark_smart_park.Gateway.Model.{Hub}
use onepark_smart_park.Gateway.Frame.{Frame, read}
use onepark_smart_park.Gateway.Session.{Session, Answers, new_session, handle_frame}
use onepark_smart_park.Gateway.Serve.{serve, serve_connection, max_frame_bytes}
use onepark_smart_park.Gateway.Identity.{IsHonest, LoggedIn, handle_frame-IsProper}

module _ (bcrypt : Text → Text → Bool) where
  serve-IsHonest :
      (json : Text → Option Frame) (max_bytes : ℕ) (inputs : List (Answers × Text)) (s : Session)
      (hub : Hub)
      → LoggedIn bcrypt s hub
      → IsHonest bcrypt hub
      → IsHonest bcrypt (serve bcrypt json max_bytes inputs s hub).0
  unfolding serve
  serve-IsHonest json max_bytes [] s hub own v = v
  serve-IsHonest json max_bytes ((a, line) ∷ inputs) s hub own v =
      elim (Option-cases (read max_bytes line)) [
        | inl e ↦ rw (e, serve) v
        | inr ([], e) ↦ rw (e, serve) (serve-IsHonest json max_bytes inputs s hub own v)
        | inr (b ∷ rest, e) ↦ elim (Option-cases (json (b ∷ rest))) [
          | inl k ↦ rw (e, k, serve) v
          | inr (f, k) ↦
              let h = handle_frame bcrypt a f s hub in
              let p = handle_frame-IsProper bcrypt a f s hub own v in
              elim (Bool-cases h.keep) [
                | inl goes_on ↦
                    rw (e, k, goes_on, serve)
                      (serve-IsHonest json max_bytes inputs h.session h.hub p.session_ok p.hub_ok)
                | inr ends ↦ rw (e, k, ends, serve) p.hub_ok
              ]
        ]
      ]

  -- Whatever a connection sends, each message in the topics of telemetry and alarms carries the
  -- device, tenant and zone of a row of the device table, for whose stored hash bcrypt accepts some
  -- secret, if the messages before did.
  pub serve_connection-IsHonest :
      (json : Text → Option Frame) (configured : ℤ) (inputs : List (Answers × Text)) (hub : Hub)
      → IsHonest bcrypt hub
      → IsHonest bcrypt (serve_connection bcrypt json configured inputs hub).0
  unfolding serve_connection
  serve_connection-IsHonest json configured inputs hub v =
      serve-IsHonest json (max_frame_bytes configured) inputs new_session hub (λ e. cc) v
