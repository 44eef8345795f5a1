-- ===== src/Alarms/Freed.antt =====
-- The key of a message whose handling fails: `HandleDeviceEvent` and `releaseDedupKey` of
-- app/alarm-service/internal/svc/consumer.go.
use onepark_smart_park.Prelude.{
  ◌≡◌, Bool, true, false, ◌&&◌, not, Option, some, none, List, [], ◌∷◌, ◌++◌, Text, codes, Result,
  ok, err, both_branches,
}
use onepark_smart_park.Prelude.Int.{is_positive}
use onepark_smart_park.Dedup.{seen, release, is_held}
use onepark_smart_park.Dedup.Laws.{is_held-drop_key_self}
use onepark_smart_park.Rules.Value.{Go}
use onepark_smart_park.Rules.Window.{Window}
use onepark_smart_park.Rules.Engine.{Draft, RuleError}
use onepark_smart_park.Rules.Snapshot.{Engine, has_rules, evaluate}
use onepark_smart_park.Alarms.{
  DeviceEvent, Stores, Config, Answers, Codec, HandleError, dedup_ttl, parse_device_event,
  idempotent_id, rule_fields,
}
use onepark_smart_park.Alarms.Handle.{
  Handled, release_dedup_key, raise_one, raise_all, then_next, after_seen, on_drafts, legacy,
  evaluated, with_rules, by_engine, handle_device_event,
}

abbrev pub message_key : Text → Text
message_key id = codes "alarm:dedup:" ++ id

module _ (go : Go) (codec : Codec) (cfg : Config) (a : Answers)
    (can : a.release_fails ≡ false) where
  -- Where this outcome is an error, the key is not held.
  abbrev Freed : Text → Handled → Type 0
  Freed id (st, ok u) = Unit {0}
  Freed id (st, err x) = is_held a.now (message_key id) st.keys ≡ false

  release_dedup_key-frees :
      (id : Text) (st : Stores)
      → is_held a.now (message_key id) (release_dedup_key a id st).keys ≡ false
  unfolding release_dedup_key release
  release_dedup_key-frees id st = simp (can, is_held-drop_key_self a.now (message_key id) st.keys)

  then_next-Freed :
      (id : Text) (rest : Stores → Handled)
      → ((st : Stores) → Freed id (rest st))
      → (out : Stores × Result HandleError Bool) → Freed id (then_next go codec cfg a id out rest)
  then_next-Freed id rest later (st, err x) = release_dedup_key-frees id st
  then_next-Freed id rest later (st, ok b) = later st

  raise_all-Freed :
      (e : DeviceEvent) (id : Text) (ds : List Draft) (st : Stores)
      → Freed id (raise_all go codec cfg a e id ds st)
  unfolding raise_all
  raise_all-Freed e id [] st = tt
  raise_all-Freed e id (d ∷ ds) st =
      then_next-Freed id (λ st'. raise_all go codec cfg a e id ds st')
        (λ st'. raise_all-Freed e id ds st') (raise_one go codec cfg a e d id st)

  after_seen-Freed :
      (e : DeviceEvent) (id : Text) (ds : List Draft) (st : Stores)
      → is_held a.now (message_key id) st.keys ≡ false
      → (fails : Bool)
      → Freed id (
          after_seen go codec cfg a e id ds st
            (seen a.now dedup_ttl fails (message_key id) st.keys))
  unfolding seen
  after_seen-Freed e id ds st free true = free
  after_seen-Freed e id ds st free false = rw free (raise_all-Freed e id ds _)

  on_drafts-Freed :
      (e : DeviceEvent) (id : Text) (st : Stores) (ds : List Draft)
      → is_held a.now (message_key id) st.keys ≡ false
      → Freed id (on_drafts go codec cfg a e id st ds)
  on_drafts-Freed e id st [] free = tt
  on_drafts-Freed e id st (d ∷ ds) free =
      both_branches (Freed id) (not (cfg.has_alarms && cfg.has_dedup)) free (
        both_branches (Freed id)
          (not (is_positive e.tenant_id) && (cfg.reject_missing_tenant && cfg.has_dead_letters))
          free (after_seen-Freed e id (d ∷ ds) st free a.seen_fails))

  evaluated-Freed :
      (e : DeviceEvent) (id : Text) (st : Stores)
      → is_held a.now (message_key id) st.keys ≡ false
      → (out : Engine × (List Window × Result RuleError (List Draft)))
      → Freed id (evaluated go codec cfg a e id st out)
  evaluated-Freed e id st free (engine, (ws, err x)) = free
  evaluated-Freed e id st free (engine, (ws, ok ds)) = on_drafts-Freed e id _ ds free

  with_rules-Freed :
      (e : DeviceEvent) (id : Text) (st : Stores)
      → is_held a.now (message_key id) st.keys ≡ false
      → (out : Engine × Bool) → Freed id (with_rules go codec cfg a e id st out)
  with_rules-Freed e id st free (engine, false) =
      on_drafts-Freed e id _ (legacy go codec cfg a e) free
  with_rules-Freed e id st free (engine, true) =
      evaluated-Freed e id st free (evaluate go a.redis a.ask (rule_fields e) id engine st.windows)

  by_engine-Freed :
      (e : DeviceEvent) (id : Text) (st : Stores)
      → is_held a.now (message_key id) st.keys ≡ false
      → (o : Option Engine) → Freed id (by_engine go codec cfg a e id st o)
  by_engine-Freed e id st free none = on_drafts-Freed e id st (legacy go codec cfg a e) free
  by_engine-Freed e id st free (some engine) =
      with_rules-Freed e id st free (has_rules a.has_ask engine)

  -- Where Redis takes the release, a message can be read, and its key was not held before, the key
  -- is not held after a handling that answers with an error.
  pub handle_device_event-frees :
      (body : Text) (e : DeviceEvent) (st st' : Stores) (x : HandleError)
      → parse_device_event go codec body ≡ some e
      → is_held a.now (message_key (idempotent_id go codec e)) st.keys ≡ false
      → handle_device_event go codec cfg a body st ≡ (st', err x)
      → is_held a.now (message_key (idempotent_id go codec e)) st'.keys ≡ false
  unfolding handle_device_event
  handle_device_event-frees body e st st' x parsed free h =
      let all : Freed (idempotent_id go codec e) (handle_device_event go codec cfg a body st) =
        rw parsed (by_engine-Freed e (idempotent_id go codec e) st free st.engine) in
      let freed : Freed (idempotent_id go codec e) (st', err x) = rw h at all in freed
