-- ===== src/Gateway/Stateless.antt =====
-- Requests without a connection (CoAP): each logs in by itself.
use onepark_smart_park.Prelude.{
  ◌≡◌, refl, Bool, true, ◌||◌, Option, none, some, Text, codes, text_eq, is_empty, Bool-cases,
  both_branches, inl, inr,
}
use onepark_smart_park.Gateway.Model.{Device, Hub, find_by_device_id}
use onepark_smart_park.Gateway.Frame.{Frame}
use onepark_smart_park.Gateway.Session.{
  Session, Answers, Handled, auth_found, auth, after_auth, handle_stateless,
}
use onepark_smart_park.Gateway.Identity.{
  IsHonest, LoggedIn, IsProper, auth-IsProper, dispatch-IsProper,
}

-- A login that goes on has opened the session.
record Opens (h : Handled) : Type 0 where
  opened : h.keep ≡ true → h.session.authed ≡ true

auth_found-Opens :
    (bcrypt : Text → Text → Bool) (a : Answers) (secret : Text) (s : Session) (hub : Hub)
    (found : Option Device)
    → Opens (auth_found bcrypt a secret s hub found)
auth_found-Opens bcrypt a secret s hub none = record { opened = λ e. cc }
auth_found-Opens bcrypt a secret s hub (some d) =
    both_branches Opens (bcrypt d.device_secret secret) (record { opened = λ _. refl })
      (record { opened = λ e. cc })

auth-Opens :
    (bcrypt : Text → Text → Bool) (a : Answers) (id secret : Text) (s : Session) (hub : Hub)
    → Opens (auth bcrypt a id secret s hub)
unfolding auth
auth-Opens bcrypt a id secret s hub =
    both_branches Opens (is_empty id || is_empty secret) (record { opened = λ e. cc })
      (both_branches Opens a.find_fails (record { opened = λ e. cc })
        (auth_found-Opens bcrypt a secret s hub (find_by_device_id id hub.devices)))

after_auth-IsHonest :
    (bcrypt : Text → Text → Bool) (a : Answers) (f : Frame) (h : Handled)
    → IsProper bcrypt h
    → Opens h
    → IsHonest bcrypt (after_auth a f h).hub
after_auth-IsHonest bcrypt a f h p o = elim (Bool-cases h.keep) [
  | inl goes_on ↦ elim (Bool-cases (text_eq f.type (codes "auth"))) [
    | inl only ↦ simp (goes_on, only) p.hub_ok
    | inr more ↦
        simp (goes_on, more)
          (dispatch-IsProper bcrypt a f h.session h.hub (o.opened goes_on) p.session_ok
            p.hub_ok).hub_ok
  ]
  | inr ends ↦ simp ends p.hub_ok
]

-- A request without a connection sends on only messages that carry the device, tenant and zone of a
-- row of the device table for whose stored hash bcrypt accepts some secret, if the messages before
-- did and the session, where it is logged in, has the identity of such a row.
pub handle_stateless-IsHonest :
    (bcrypt : Text → Text → Bool) (a : Answers) (f : Frame) (s : Session) (hub : Hub)
    → LoggedIn bcrypt s hub
    → IsHonest bcrypt hub
    → IsHonest bcrypt (handle_stateless bcrypt a f s hub).hub
unfolding handle_stateless
handle_stateless-IsHonest bcrypt a f s hub own v =
    elim (Bool-cases (is_empty f.device_id || is_empty f.secret)) [
      | inl missing ↦ simp missing v
      | inr given ↦ simp given (
          after_auth-IsHonest bcrypt a f (auth bcrypt a f.device_id f.secret s hub)
            (auth-IsProper bcrypt a f.device_id f.secret s hub own v)
            (auth-Opens bcrypt a f.device_id f.secret s hub))
    ]
