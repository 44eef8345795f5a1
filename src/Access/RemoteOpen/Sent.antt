-- ===== src/Access/RemoteOpen/Sent.antt =====
-- Only who may open a door makes the service send a command, and a request that sent none in vain can
-- be sent again.
use onepark_smart_park.Prelude.{
  ℕ, ◌≡◌, refl, ap, ◌∙◌, ◌⊎◌, Bool, true, false, ◌&&◌, not, Option, none, some, List, [], ◌∷◌, ◌++◌,
  Text, Result, ok, err, Bool-cases, inl, inr, arith,
}
use onepark_smart_park.Prelude.Int.{ℤ}
use onepark_smart_park.Strings.{trim_space}
use onepark_smart_park.Dedup.{Key}
use onepark_smart_park.Access.{
  Json, AccessPermission, Decision, allowed, denied, permission_allowed, Caller,
}
use onepark_smart_park.Access.Grant.{find_effective}
use onepark_smart_park.Access.RemoteOpen.{
  World, Config, Call, RemoteOpenReq, Outcome, Message, Verdict, may_open, may_not, is_duplicate,
  release_duplicate, write_traces, write_audit, write_record, device_allowed, by_decision, by_list,
  by_permission, authorize, answered, decided, after_dedup, send_command, remote_open,
}
use onepark_smart_park.Access.RemoteOpen.Once.{is_stopped, remote_open-stopped, remote_open-passed}

-- Who may open: with a permission that allows it now; or, where no permission was found or could be
-- read, at a door on the list.
pub data MayOpen (json : Json) (cfg : Config) (call : Call) (tenant operator : ℤ) (device : Text)
    (ps : List AccessPermission) : Type 0 where
  permitted :
      {p : AccessPermission}
      → find_effective tenant operator device ps ≡ some p
      → permission_allowed json p call.now ≡ allowed
      → MayOpen json cfg call tenant operator device ps
  listed :
      (find_effective tenant operator device ps ≡ none)
        ⊎ ((cfg.has_permissions && not call.find_fails) ≡ false)
      → device_allowed cfg.allowed_device_ids device ≡ true
      → MayOpen json cfg call tenant operator device ps

module _ (json : Json) (cfg : Config) (call : Call) (tenant operator : ℤ) (device : Text) where
  by_list-listed :
      by_list cfg device ≡ may_open → device_allowed cfg.allowed_device_ids device ≡ true
  by_list-listed h = ground arith

  by_permission-MayOpen :
      (ps : List AccessPermission) (found : Option AccessPermission)
      → find_effective tenant operator device ps ≡ found
      → by_permission json cfg call device found ≡ may_open
      → MayOpen json cfg call tenant operator device ps
  by_permission-MayOpen ps none e h = listed (inl e) (by_list-listed h)
  by_permission-MayOpen ps (some p) e h = permitted e (by_decision-allowed _ h)
    where
      by_decision-allowed : (d : Decision) → by_decision device d ≡ may_open → d ≡ allowed
      by_decision-allowed allowed h = refl
      by_decision-allowed (denied r) h = absurd (ground arith)

  authorize-MayOpen :
      (w : World)
      → authorize json cfg call tenant operator device w ≡ may_open
      → MayOpen json cfg call tenant operator device w.permissions
  unfolding authorize
  authorize-MayOpen w h = elim (Bool-cases (cfg.has_permissions && not call.find_fails)) [
    | inl reads ↦
        by_permission-MayOpen w.permissions (find_effective tenant operator device w.permissions)
          refl (rw reads at h)
    | inr blind ↦ listed (inr blind) (by_list-listed (rw blind at h))
  ]

-- What a request does to the commands: none, or one, to its door, by who may open it
pub data Sends (json : Json) (cfg : Config) (call : Call) (caller : Caller) (device : Text)
    (ps : List AccessPermission) (before : List Text) : List Text → Type 0 where
  sends_none : Sends json cfg call caller device ps before before
  sends_one :
      MayOpen json cfg call caller.tenant_id caller.user_id device ps
      → Sends json cfg call caller device ps before (before ++ device ∷ [])

write_traces-commands :
    (cfg : Config) (call : Call) (caller : Caller) (req : RemoteOpenReq) (sent : ℕ × Message × Bool)
    (w : World)
    → (write_traces cfg call caller req sent w).commands ≡ w.commands
unfolding write_traces write_record write_audit
write_traces-commands cfg call caller req (result, m, success) w = ground arith

module _ (format_int : ℤ → Text) where
  release_duplicate-commands :
      (cfg : Config) (call : Call) (tenant : ℤ) (request : Text) (w : World)
      → (release_duplicate format_int cfg call tenant request w).commands ≡ w.commands
  unfolding release_duplicate
  release_duplicate-commands cfg call tenant request w = ground arith

  module _ (json : Json) (cfg : Config) (call : Call) (caller : Caller) (req : RemoteOpenReq) where
    abbrev device : Text
    device = trim_space req.device_id

    abbrev SendsFrom : World → World × Outcome → Type 0
    SendsFrom w r = Sends json cfg call caller device w.permissions w.commands r.0.commands

    answered-commands :
        (w : World) (sent : ℕ × Message × Bool)
        → (answered format_int json cfg call caller req w sent).0.commands ≡ w.commands
    answered-commands w (result, m, true) =
        write_traces-commands cfg call caller req (result, m, true) w
    answered-commands w (result, m, false) =
        release_duplicate-commands cfg call caller.tenant_id (trim_space req.request_id)
          (write_traces cfg call caller req (result, m, false) w)
        ∙ write_traces-commands cfg call caller req (result, m, false) w

    decided-Sends :
        (w : World) (v : Verdict)
        → (v ≡ may_open
            → MayOpen json cfg call caller.tenant_id caller.user_id device w.permissions)
        → SendsFrom w (decided format_int json cfg call caller req w v)
    decided-Sends w (may_not m) k =
        rw
          (release_duplicate-commands cfg call caller.tenant_id (trim_space req.request_id)
              (write_traces cfg call caller req (0, m, false) w)
            ∙ write_traces-commands cfg call caller req (0, m, false) w)
          sends_none
    decided-Sends w may_open k =
        rw
          (answered-commands (record w { commands = w.commands ++ device ∷ [] })
            (send_command call.reply))
          (sends_one (k refl))

    after_dedup-Sends :
        (w : World) (d : List Key × Result (Unit {0}) Bool)
        → SendsFrom w (after_dedup format_int json cfg call caller req w d)
    after_dedup-Sends w (ks, err e) = sends_none
    after_dedup-Sends w (ks, ok true) = sends_none
    after_dedup-Sends w (ks, ok false) =
        decided-Sends (record w { keys = ks })
          (authorize json cfg call caller.tenant_id caller.user_id device w)
          (authorize-MayOpen json cfg call caller.tenant_id caller.user_id device w)

    -- A request sends no command, or one to its own door; then the operator may open that door: with
    -- a permission in the table that allows it at that moment, or, where none was found or could be
    -- read, because the door is on the list.
    pub remote_open-Sends :
        (w : World) → SendsFrom w (remote_open format_int json cfg call caller req w)
    remote_open-Sends w = elim (Bool-cases (is_stopped cfg caller req)) [
      | inl stopped ↦
          rw (ap (λ r. r.0) (remote_open-stopped format_int json cfg call caller req w stopped))
            sends_none
      | inr passed ↦ rw (remote_open-passed format_int json cfg call caller req w passed) (
          after_dedup-Sends w
            (is_duplicate format_int cfg call caller.tenant_id (trim_space req.request_id) w.keys))
    ]
