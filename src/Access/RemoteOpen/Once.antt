-- ===== src/Access/RemoteOpen/Once.antt =====
-- A request that opened a door does not open it again.
use onepark_smart_park.Prelude.{
  ℕ, ◌+◌, ◌<◌, ◌≡◌, ap, ◌⊎◌, Bool, true, false, ◌||◌, not, List, [], ◌∷◌, ◌++◌, Text, text_eq,
  text_eq→≡, is_empty, Result, ok, err, if◌then◌else◌, Bool-cases, inl, inr, arith,
}
use onepark_smart_park.Prelude.Int.{ℤ, is_zero}
use onepark_smart_park.Strings.{trim_space}
use onepark_smart_park.Dedup.{Key, is_held, drop_key, seen, release}
use onepark_smart_park.Dedup.Laws.{is_held-drop_key_ne}
use onepark_smart_park.Access.{Json, Caller}
use onepark_smart_park.Access.RemoteOpen.{
  World, Config, Call, RemoteOpenReq, Outcome, no_tenant, no_device, no_operator, no_device_rpc,
  Message, Verdict, may_open, may_not, remote_open_dedup_ttl, remote_open_dedup_key, is_duplicate,
  release_duplicate, write_audit, write_record, write_traces, answered, decided, after_dedup,
  authorize, send_command, remote_open,
}

-- The key exists until then.
pub record IsHeldUntil (until : ℕ) (key : Text) (ks : List Key) : Type 0 where
  pub held : (now : ℕ) → now < until → is_held now key ks ≡ true

pub write_traces-keys :
    (cfg : Config) (call : Call) (caller : Caller) (req : RemoteOpenReq) (sent : ℕ × Message × Bool)
    (w : World)
    → (write_traces cfg call caller req sent w).keys ≡ w.keys
unfolding write_traces write_record write_audit
write_traces-keys cfg call caller req (result, m, success) w = ground arith

-- The request is handled without a key.
abbrev pub skips : Config → RemoteOpenReq → Bool
skips cfg req = is_empty (trim_space req.request_id) || not cfg.has_dedup

abbrev pub own_key : (ℤ → Text) → Caller → RemoteOpenReq → Text
own_key format_int caller req =
    remote_open_dedup_key format_int caller.tenant_id (trim_space req.request_id)

-- The checks before the key
abbrev pub is_stopped : Config → Caller → RemoteOpenReq → Bool
is_stopped cfg caller req =
    is_zero caller.tenant_id
    || (is_empty (trim_space req.device_id) || (is_zero caller.user_id || not cfg.has_device_rpc))

abbrev pub stop_outcome : Config → Caller → RemoteOpenReq → Outcome
stop_outcome cfg caller req =
    if is_zero caller.tenant_id
    then no_tenant
    else if is_empty (trim_space req.device_id)
    then no_device
    else if is_zero caller.user_id
    then no_operator
    else no_device_rpc

module _ (format_int : ℤ → Text) (json : Json) (cfg : Config) (call : Call) (caller : Caller)
    (req : RemoteOpenReq) (w : World) where
  pub remote_open-stopped :
      is_stopped cfg caller req ≡ true
      → remote_open format_int json cfg call caller req w ≡ (w, stop_outcome cfg caller req)
  unfolding remote_open
  remote_open-stopped stopped = ground arith

  pub remote_open-passed :
      is_stopped cfg caller req ≡ false
      → remote_open format_int json cfg call caller req w
        ≡ after_dedup format_int json cfg call caller req w
            (is_duplicate format_int cfg call caller.tenant_id (trim_space req.request_id) w.keys)
  unfolding remote_open
  remote_open-passed passed = ground arith

module _ (until : ℕ) (key : Text) where
  drop_key-IsHeldUntil :
      (other : Text) (ks : List Key)
      → text_eq other key ≡ false
      → IsHeldUntil until key ks
      → IsHeldUntil until key (drop_key other ks)
  drop_key-IsHeldUntil other ks ne v = record {
    held = λ now h. rw (is_held-drop_key_ne now key other ks ne) (v.held now h);
  }

  new_key-IsHeldUntil :
      (end : ℕ) (other : Text) (ks : List Key)
      → text_eq other key ≡ false
      → IsHeldUntil until key ks
      → IsHeldUntil until key (record { name = other; expires_at = end } ∷ drop_key other ks)
  unfolding is_held
  new_key-IsHeldUntil end other ks ne v = record {
    held = λ now h. rw (ne, is_held-drop_key_ne now key other ks ne) (v.held now h);
  }

  seen-IsHeldUntil :
      (now ttl : ℕ) (fails : Bool) (other : Text) (ks : List Key)
      → text_eq other key ≡ false
      → IsHeldUntil until key ks
      → IsHeldUntil until key (seen now ttl fails other ks).0
  unfolding seen
  seen-IsHeldUntil now ttl fails other ks ne v = elim (Bool-cases fails) [
    | inl f ↦ rw f v
    | inr f ↦ elim (Bool-cases (is_held now other ks)) [
      | inl h ↦ rw (f, h) v
      | inr h ↦ rw (f, h) (new_key-IsHeldUntil (now + ttl) other ks ne v)
    ]
  ]

  -- The request has no key, or another.
  abbrev pub IsOther : Text → Bool → Type 0
  IsOther own skipped = (skipped ≡ true) ⊎ (text_eq own key ≡ false)

  module _ (format_int : ℤ → Text) (cfg : Config) where
    release_duplicate-IsHeldUntil :
        (call : Call) (caller : Caller) (req : RemoteOpenReq) (w : World)
        → IsOther (own_key format_int caller req) (skips cfg req)
        → IsHeldUntil until key w.keys
        → IsHeldUntil until key
            (release_duplicate format_int cfg call caller.tenant_id
              (trim_space req.request_id)
              w).keys
    unfolding release_duplicate release
    release_duplicate-IsHeldUntil call caller req w (inl none) v = rw none v
    release_duplicate-IsHeldUntil call caller req w (inr ne) v = elim (Bool-cases (skips cfg req)) [
      | inl none ↦ rw none v
      | inr own ↦ elim (Bool-cases call.release_fails) [
        | inl f ↦ simp (own, f) v
        | inr f ↦ simp (own, f) (drop_key-IsHeldUntil (own_key format_int caller req) w.keys ne v)
      ]
    ]

    module _ (json : Json) where
      answered-IsHeldUntil :
          (call : Call) (caller : Caller) (req : RemoteOpenReq) (w : World)
          (sent : ℕ × Message × Bool)
          → IsOther (own_key format_int caller req) (skips cfg req)
          → IsHeldUntil until key w.keys
          → IsHeldUntil until key (answered format_int json cfg call caller req w sent).0.keys
      answered-IsHeldUntil call caller req w (result, m, true) other h =
          rw (write_traces-keys cfg call caller req (result, m, true) w) h
      answered-IsHeldUntil call caller req w (result, m, false) other h =
          release_duplicate-IsHeldUntil call caller req
            (write_traces cfg call caller req (result, m, false) w) other
            (rw (write_traces-keys cfg call caller req (result, m, false) w) h)

      decided-IsHeldUntil :
          (call : Call) (caller : Caller) (req : RemoteOpenReq) (w : World) (v : Verdict)
          → IsOther (own_key format_int caller req) (skips cfg req)
          → IsHeldUntil until key w.keys
          → IsHeldUntil until key (decided format_int json cfg call caller req w v).0.keys
      decided-IsHeldUntil call caller req w (may_not m) other h =
          release_duplicate-IsHeldUntil call caller req
            (write_traces cfg call caller req (0, m, false) w) other
            (rw (write_traces-keys cfg call caller req (0, m, false) w) h)
      decided-IsHeldUntil call caller req w may_open other h =
          answered-IsHeldUntil call caller req
            (record w { commands = w.commands ++ trim_space req.device_id ∷ [] })
            (send_command call.reply) other h

      after_dedup-IsHeldUntil :
          (call : Call) (caller : Caller) (req : RemoteOpenReq) (w : World)
          (d : List Key × Result (Unit {0}) Bool)
          → IsOther (own_key format_int caller req) (skips cfg req)
          → IsHeldUntil until key d.0
          → IsHeldUntil until key (after_dedup format_int json cfg call caller req w d).0.keys
      after_dedup-IsHeldUntil call caller req w (ks, err e) other h = h
      after_dedup-IsHeldUntil call caller req w (ks, ok true) other h = h
      after_dedup-IsHeldUntil call caller req w (ks, ok false) other h =
          decided-IsHeldUntil call caller req (record w { keys = ks })
            (authorize json cfg call caller.tenant_id caller.user_id (trim_space req.device_id) w)
            other h

      -- A request of the key itself finds it, and leaves it.
      after_dedup-found :
          (call : Call) (caller : Caller) (req : RemoteOpenReq) (w : World)
          → skips cfg req ≡ false
          → own_key format_int caller req ≡ key
          → is_held call.now.instant key w.keys ≡ true
          → (after_dedup format_int json cfg call caller req w (
              is_duplicate format_int cfg call caller.tenant_id
                (trim_space req.request_id)
                w.keys)).0
            ≡ w
      unfolding is_duplicate seen
      after_dedup-found call caller req w own same h = elim (Bool-cases call.seen_fails) [
        | inl f ↦ simp (own, f)
        | inr f ↦ simp (own, f, same, h)
      ]

      skipped-IsHeldUntil :
          (call : Call) (caller : Caller) (req : RemoteOpenReq) (w : World)
          → skips cfg req ≡ true
          → IsHeldUntil until key w.keys
          → IsHeldUntil until key
              (is_duplicate format_int cfg call caller.tenant_id
                (trim_space req.request_id)
                w.keys).0
      unfolding is_duplicate
      skipped-IsHeldUntil call caller req w none h = rw none h

      other-IsHeldUntil :
          (call : Call) (caller : Caller) (req : RemoteOpenReq) (w : World)
          → skips cfg req ≡ false
          → text_eq (own_key format_int caller req) key ≡ false
          → IsHeldUntil until key w.keys
          → IsHeldUntil until key
              (is_duplicate format_int cfg call caller.tenant_id
                (trim_space req.request_id)
                w.keys).0
      unfolding is_duplicate
      other-IsHeldUntil call caller req w own ne h = rw own (
          seen-IsHeldUntil call.now.instant remote_open_dedup_ttl call.seen_fails
            (own_key format_int caller req) w.keys ne h)

      checked-IsHeldUntil :
          (call : Call) (caller : Caller) (req : RemoteOpenReq) (w : World)
          → call.now.instant < until
          → IsHeldUntil until key w.keys
          → IsHeldUntil until key
              (after_dedup format_int json cfg call caller req w (
                is_duplicate format_int cfg call caller.tenant_id
                  (trim_space req.request_id)
                  w.keys)).0.keys
      checked-IsHeldUntil call caller req w early h = elim (Bool-cases (skips cfg req)) [
        | inl none ↦
            after_dedup-IsHeldUntil call caller req w
              (is_duplicate format_int cfg call caller.tenant_id (trim_space req.request_id) w.keys)
              (inl none) (skipped-IsHeldUntil call caller req w none h)
        | inr own ↦ elim (Bool-cases (text_eq (own_key format_int caller req) key)) [
          | inl same ↦
              rw
                (after_dedup-found call caller req w own
                  (text_eq→≡ (own_key format_int caller req) key same)
                  (h.held call.now.instant early))
                h
          | inr ne ↦
              after_dedup-IsHeldUntil call caller req w
                (is_duplicate format_int cfg call caller.tenant_id (trim_space req.request_id)
                  w.keys)
                (inr ne) (other-IsHeldUntil call caller req w own ne h)
        ]
      ]

      pub remote_open-IsHeldUntil :
          (call : Call) (caller : Caller) (req : RemoteOpenReq) (w : World)
          → call.now.instant < until
          → IsHeldUntil until key w.keys
          → IsHeldUntil until key (remote_open format_int json cfg call caller req w).0.keys
      remote_open-IsHeldUntil call caller req w early h =
          elim (Bool-cases (is_stopped cfg caller req)) [
            | inl stopped ↦
                rw
                  (ap (λ r. r.0)
                    (remote_open-stopped format_int json cfg call caller req w stopped))
                  h
            | inr passed ↦
                rw (remote_open-passed format_int json cfg call caller req w passed)
                  (checked-IsHeldUntil call caller req w early h)
          ]
