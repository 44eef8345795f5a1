-- ===== src/Access/RemoteOpen/Retry.antt =====
-- A request whose command failed or was not allowed does not take its retries for repetitions.
use onepark_smart_park.Prelude.{
  ℕ, ◌+◌, ◌≡◌, Bool, true, false, List, [], ◌∷◌, ◌++◌, Text, is_empty, Result, ok, err, Bool-cases,
  inl, inr, arith,
}
use onepark_smart_park.Prelude.Int.{ℤ}
use onepark_smart_park.Strings.{trim_space}
use onepark_smart_park.Dedup.{Key, is_held, drop_key, seen, release}
use onepark_smart_park.Dedup.Laws.{is_held-drop_key_self}
use onepark_smart_park.Access.{Json, Caller}
use onepark_smart_park.Access.RemoteOpen.{
  World, Config, Call, RemoteOpenReq, Outcome, no_tenant, no_device, no_operator, no_device_rpc,
  dedup_unavailable, forbidden, open_failed, opened, ignored, Message, Verdict, may_open, may_not,
  remote_open_dedup_ttl, is_duplicate, release_duplicate, write_traces, authorize, answered,
  decided, after_dedup, send_command, remote_open,
}
use onepark_smart_park.Access.RemoteOpen.Once.{
  is_stopped, stop_outcome, remote_open-stopped, remote_open-passed, skips, own_key,
}

-- Denied, or sent in vain
abbrev pub is_failure : Outcome → Bool
is_failure (forbidden m) = true
is_failure (open_failed m) = true
is_failure no_tenant = false
is_failure no_device = false
is_failure no_operator = false
is_failure no_device_rpc = false
is_failure dedup_unavailable = false
is_failure (ignored d) = false
is_failure (opened d m) = false

module _ (format_int : ℤ → Text) (json : Json) (cfg : Config) (caller : Caller)
    (req : RemoteOpenReq) where
  -- The key is free at all times.
  record IsFree (ks : List Key) : Type 0 where
    free : (now : ℕ) → is_held now (own_key format_int caller req) ks ≡ false

  release_duplicate-IsFree :
      (call : Call) (w : World)
      → skips cfg req ≡ false
      → call.release_fails ≡ false
      → IsFree
          (release_duplicate format_int cfg call caller.tenant_id
            (trim_space req.request_id)
            w).keys
  unfolding release_duplicate release
  release_duplicate-IsFree call w own works =
      simp (own, works)
        (record { free = λ now. is_held-drop_key_self now (own_key format_int caller req) w.keys })

  answered-IsFree :
      (call : Call) (w : World) (sent : ℕ × Message × Bool)
      → skips cfg req ≡ false
      → call.release_fails ≡ false
      → is_failure (answered format_int json cfg call caller req w sent).1 ≡ true
      → IsFree (answered format_int json cfg call caller req w sent).0.keys
  answered-IsFree call w (result, m, true) own works h = absurd (ground arith)
  answered-IsFree call w (result, m, false) own works h =
      release_duplicate-IsFree call (write_traces cfg call caller req (result, m, false) w) own
        works

  decided-IsFree :
      (call : Call) (w : World) (v : Verdict)
      → skips cfg req ≡ false
      → call.release_fails ≡ false
      → is_failure (decided format_int json cfg call caller req w v).1 ≡ true
      → IsFree (decided format_int json cfg call caller req w v).0.keys
  decided-IsFree call w (may_not m) own works h =
      release_duplicate-IsFree call (write_traces cfg call caller req (0, m, false) w) own works
  decided-IsFree call w may_open own works h =
      answered-IsFree call (record w { commands = w.commands ++ trim_space req.device_id ∷ [] })
        (send_command call.reply) own works h

  after_dedup-IsFree :
      (call : Call) (w : World) (d : List Key × Result (Unit {0}) Bool)
      → skips cfg req ≡ false
      → call.release_fails ≡ false
      → is_failure (after_dedup format_int json cfg call caller req w d).1 ≡ true
      → IsFree (after_dedup format_int json cfg call caller req w d).0.keys
  after_dedup-IsFree call w (ks, err e) own works h = absurd (ground arith)
  after_dedup-IsFree call w (ks, ok true) own works h = absurd (ground arith)
  after_dedup-IsFree call w (ks, ok false) own works h =
      decided-IsFree call (record w { keys = ks })
        (authorize json cfg call caller.tenant_id caller.user_id (trim_space req.device_id) w) own
        works h

  stop_outcome-Succeeds : ¬ (is_failure (stop_outcome cfg caller req) ≡ true)
  stop_outcome-Succeeds h = ground arith

  remote_open-IsFree :
      (call : Call) (w : World)
      → skips cfg req ≡ false
      → call.release_fails ≡ false
      → is_failure (remote_open format_int json cfg call caller req w).1 ≡ true
      → IsFree (remote_open format_int json cfg call caller req w).0.keys
  remote_open-IsFree call w own works h = elim (Bool-cases (is_stopped cfg caller req)) [
    | inl stopped ↦ absurd (
        stop_outcome-Succeeds
          (rw (remote_open-stopped format_int json cfg call caller req w stopped) at h))
    | inr passed ↦
        let path = remote_open-passed format_int json cfg call caller req w passed in
        rw path (
          after_dedup-IsFree call w
            (is_duplicate format_int cfg call caller.tenant_id (trim_space req.request_id) w.keys)
            own works (rw path at h))
  ]

  answered-Fresh :
      (call : Call) (w : World) (sent : ℕ × Message × Bool) (d : Text)
      → ¬ ((answered format_int json cfg call caller req w sent).1 ≡ ignored d)
  answered-Fresh call w (result, m, true) d h = ground arith
  answered-Fresh call w (result, m, false) d h = ground arith

  decided-Fresh :
      (call : Call) (w : World) (v : Verdict) (d : Text)
      → ¬ ((decided format_int json cfg call caller req w v).1 ≡ ignored d)
  decided-Fresh call w (may_not m) d h = ground arith
  decided-Fresh call w may_open d h =
      answered-Fresh call (record w { commands = w.commands ++ trim_space req.device_id ∷ [] })
        (send_command call.reply) d h

  stop_outcome-Fresh : (d : Text) → ¬ (stop_outcome cfg caller req ≡ ignored d)
  stop_outcome-Fresh d h = ground arith

  free-Fresh :
      (call : Call) (w : World) (d : Text)
      → skips cfg req ≡ false
      → is_held call.now.instant (own_key format_int caller req) w.keys ≡ false
      → ¬ (
          (after_dedup format_int json cfg call caller req w (
            is_duplicate format_int cfg call caller.tenant_id (trim_space req.request_id) w.keys)).1
          ≡ ignored d)
  unfolding is_duplicate seen
  free-Fresh call w d own free h = elim (Bool-cases call.seen_fails) [
    | inl f ↦ absurd (let h' = simp (own, f) at h in ground arith)
    | inr f ↦
        decided-Fresh call
          (record w {
            keys =
                record {
                  name = own_key format_int caller req;
                  expires_at = call.now.instant + remote_open_dedup_ttl;
                }
                ∷ drop_key (own_key format_int caller req) w.keys;
          })
          (authorize json cfg call caller.tenant_id caller.user_id (trim_space req.device_id) w) d
          (simp (own, f, free) at h)
  ]

  -- Where keys are kept and the first request could release its own: a request that was denied, or
  -- whose command failed or timed out, is not ignored when it is sent again next, at any time.
  pub remote_open-retry :
      (call again : Call) (w : World) (d : Text)
      → cfg.has_dedup ≡ true
      → is_empty (trim_space req.request_id) ≡ false
      → call.release_fails ≡ false
      → is_failure (remote_open format_int json cfg call caller req w).1 ≡ true
      → ¬ (
          (remote_open format_int json cfg again caller req
            (remote_open format_int json cfg call caller req w).0).1
          ≡ ignored d)
  remote_open-retry call again w d stores named works h again_ignored =
      let own : skips cfg req ≡ false = rw (named, stores) in
      let left = (remote_open format_int json cfg call caller req w).0 in
      let free = remote_open-IsFree call w own works h in
      elim (Bool-cases (is_stopped cfg caller req)) [
        | inl stopped ↦ stop_outcome-Fresh d (
            rw (remote_open-stopped format_int json cfg again caller req left stopped) at
              again_ignored)
        | inr passed ↦ free-Fresh again left d own (free.free again.now.instant) (
            rw (remote_open-passed format_int json cfg again caller req left passed) at
              again_ignored)
      ]
