-- ===== src/Access/RemoteOpen/Reopen.antt =====
-- A request that opened a door, sent again.
use onepark_smart_park.Prelude.{
  ℕ, ◌+◌, ◌<◌, ◌≡◌, refl, ap, ◌∙◌, Bool, true, false, List, [], ◌∷◌, ◌++◌, Text, text_eq_refl,
  is_empty, lt→ltb, All, Bool-cases, inl, inr, arith,
}
use onepark_smart_park.Prelude.Int.{ℤ}
use onepark_smart_park.Strings.{trim_space}
use onepark_smart_park.Dedup.{Key, is_held, drop_key, seen}
use onepark_smart_park.Access.{Json, Caller}
use onepark_smart_park.Access.RemoteOpen.{
  World, Config, Call, RemoteOpenReq, opened, ignored, Message, Verdict, may_open, may_not,
  remote_open_dedup_ttl, is_duplicate, answered, decided, after_dedup, authorize, send_command,
  remote_open,
}
use onepark_smart_park.Access.RemoteOpen.Once.{
  IsHeldUntil, is_stopped, stop_outcome, remote_open-stopped, remote_open-passed, skips, own_key,
  remote_open-IsHeldUntil, write_traces-keys,
}

stop_outcome-Closed :
    (cfg : Config) (caller : Caller) (req : RemoteOpenReq) (d : Text) (m : Message)
    → ¬ (stop_outcome cfg caller req ≡ opened d m)
stop_outcome-Closed cfg caller req d m h = ground arith

module _ (format_int : ℤ → Text) (json : Json) (cfg : Config) where
  -- A request of an operator
  pub record Request : Type 0 where
    pub call : Call
    pub caller : Caller
    pub req : RemoteOpenReq

  -- Requests one after the other
  unfoldable pub open_all : List Request → World → World
  open_all [] w = w
  open_all (r ∷ rs) w = open_all rs (remote_open format_int json cfg r.call r.caller r.req w).0

  open_all-IsHeldUntil :
      (until : ℕ) (key : Text) (rs : List Request) (w : World)
      → All (λ r. r.call.now.instant < until) rs
      → IsHeldUntil until key w.keys
      → IsHeldUntil until key (open_all rs w).keys
  unfolding open_all
  open_all-IsHeldUntil until key [] w early h = h
  open_all-IsHeldUntil until key (r ∷ rs) w early h =
      open_all-IsHeldUntil until key rs (remote_open format_int json cfg r.call r.caller r.req w).0
        early.1
        (remote_open-IsHeldUntil until key format_int cfg json r.call r.caller r.req w early.0 h)

  module _ (caller : Caller) (req : RemoteOpenReq) where
    answered-keys :
        (call : Call) (w : World) (sent : ℕ × Message × Bool) {d : Text} {m : Message}
        → (answered format_int json cfg call caller req w sent).1 ≡ opened d m
        → (answered format_int json cfg call caller req w sent).0.keys ≡ w.keys
    answered-keys call w (result, said, true) h =
        write_traces-keys cfg call caller req (result, said, true) w
    answered-keys call w (result, said, false) h = absurd (ground arith)

    decided-keys :
        (call : Call) (w : World) (v : Verdict) {d : Text} {m : Message}
        → (decided format_int json cfg call caller req w v).1 ≡ opened d m
        → (decided format_int json cfg call caller req w v).0.keys ≡ w.keys
    decided-keys call w (may_not x) h = absurd (ground arith)
    decided-keys call w may_open h =
        answered-keys call (record w { commands = w.commands ++ trim_space req.device_id ∷ [] })
          (send_command call.reply) h

    new_key-IsHeldUntil :
        (end : ℕ) (key : Text) (ks : List Key)
        → IsHeldUntil end key (record { name = key; expires_at = end } ∷ ks)
    unfolding is_held
    new_key-IsHeldUntil end key ks = record {
      held = λ now h. rw (text_eq_refl key, lt→ltb now end h) refl;
    }

    after_dedup-IsHeldUntil :
        (call : Call) (w : World) {d : Text} {m : Message}
        → (after_dedup format_int json cfg call caller req w (
            seen call.now.instant remote_open_dedup_ttl call.seen_fails
              (own_key format_int caller req)
              w.keys)).1
          ≡ opened d m
        → IsHeldUntil
            (call.now.instant + remote_open_dedup_ttl)
            (own_key format_int caller req)
            (after_dedup format_int json cfg call caller req w (
              seen call.now.instant remote_open_dedup_ttl call.seen_fails
                (own_key format_int caller req)
                w.keys)).0.keys
    unfolding seen
    after_dedup-IsHeldUntil call w h = elim (Bool-cases call.seen_fails) [
      | inl f ↦ absurd (let h' = simp f at h in ground arith)
      | inr f ↦
          elim (Bool-cases (is_held call.now.instant (own_key format_int caller req) w.keys)) [
            | inl k ↦ absurd (let h' = simp (f, k) at h in ground arith)
            | inr k ↦
                let key = own_key format_int caller req in
                let end = call.now.instant + remote_open_dedup_ttl in
                let ks = record { name = key; expires_at = end } ∷ drop_key key w.keys in
                let kept =
                  decided-keys call (record w { keys = ks })
                    (authorize json cfg call caller.tenant_id caller.user_id
                      (trim_space req.device_id) w)
                    (simp (f, k) at h) in
                simp (f, k) (rw kept (new_key-IsHeldUntil end key (drop_key key w.keys)))
          ]
    ]

    is_duplicate-seen :
        (call : Call) (ks : List Key)
        → skips cfg req ≡ false
        → is_duplicate format_int cfg call caller.tenant_id (trim_space req.request_id) ks
          ≡ seen call.now.instant remote_open_dedup_ttl call.seen_fails
              (own_key format_int caller req)
              ks
    unfolding is_duplicate
    is_duplicate-seen call ks own = rw own

    opened-passed :
        (call : Call) (w : World) {d : Text} {m : Message}
        → (remote_open format_int json cfg call caller req w).1 ≡ opened d m
        → is_stopped cfg caller req ≡ false
    opened-passed call w {d} {m} h = elim (Bool-cases (is_stopped cfg caller req)) [
      | inl stopped ↦ absurd (
          stop_outcome-Closed cfg caller req d m
            (rw (remote_open-stopped format_int json cfg call caller req w stopped) at h))
      | inr passed ↦ passed
    ]

    opened-IsHeldUntil :
        (call : Call) (w : World) {d : Text} {m : Message}
        → skips cfg req ≡ false
        → (remote_open format_int json cfg call caller req w).1 ≡ opened d m
        → IsHeldUntil
            (call.now.instant + remote_open_dedup_ttl)
            (own_key format_int caller req)
            (remote_open format_int json cfg call caller req w).0.keys
    opened-IsHeldUntil call w own h =
        let passed =
          remote_open-passed format_int json cfg call caller req w (opened-passed call w h) in
        let path =
          passed
          ∙ ap (after_dedup format_int json cfg call caller req w)
              (is_duplicate-seen call w.keys own) in
        rw path (after_dedup-IsHeldUntil call w (rw path at h))

    held-ignored :
        (call : Call) (w : World)
        → skips cfg req ≡ false
        → is_stopped cfg caller req ≡ false
        → call.seen_fails ≡ false
        → is_held call.now.instant (own_key format_int caller req) w.keys ≡ true
        → remote_open format_int json cfg call caller req w
          ≡ (w, ignored (trim_space req.device_id))
    unfolding seen
    held-ignored call w own go works held =
        remote_open-passed format_int json cfg call caller req w go
        ∙ (rw (is_duplicate-seen call w.keys own) (simp (works, held)))

    -- A request with an id that opened its door, sent again within ten minutes, where Redis answers,
    -- is ignored and changes nothing: no command, no trace. Between the two there may be any requests
    -- within those ten minutes, of any operators and doors.
    pub open_all-reopen :
        (call : Call) (w : World) {d : Text} {m : Message} (between : List Request) (again : Call)
        → cfg.has_dedup ≡ true
        → is_empty (trim_space req.request_id) ≡ false
        → (remote_open format_int json cfg call caller req w).1 ≡ opened d m
        → All (λ r. r.call.now.instant < call.now.instant + remote_open_dedup_ttl) between
        → again.now.instant < call.now.instant + remote_open_dedup_ttl
        → again.seen_fails ≡ false
        → remote_open format_int json cfg again caller req
            (open_all between (remote_open format_int json cfg call caller req w).0)
          ≡ (
            open_all between (remote_open format_int json cfg call caller req w).0,
            ignored (trim_space req.device_id),
          )
    open_all-reopen call w between again stores named h early soon works =
        let own : skips cfg req ≡ false = rw (named, stores) in
        let left = (remote_open format_int json cfg call caller req w).0 in
        let v =
          open_all-IsHeldUntil (call.now.instant + remote_open_dedup_ttl)
            (own_key format_int caller req) between left early (opened-IsHeldUntil call w own h) in
        held-ignored again (open_all between left) own (opened-passed call w h) works
          (v.held again.now.instant soon)
