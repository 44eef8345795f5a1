-- ===== src/Alarms/Lost.antt =====
-- An alarm that is not stored and not tried again: the cooling-off in the loop over the drafts of
-- `HandleDeviceEvent`, app/alarm-service/internal/svc/consumer.go.
use onepark_smart_park.Prelude.{
  ◌+◌, ◌<◌, ◌≡◌, refl, true, false, ◌∷◌, Text, text_eq_refl, lt→ltb, ok, err,
}
use onepark_smart_park.Dedup.{seen, is_held, drop_key}
use onepark_smart_park.Rules.Value.{Go}
use onepark_smart_park.Rules.Engine.{Draft}
use onepark_smart_park.Alarms.{
  DeviceEvent, Stores, Config, Answers, Codec, not_created, cooldown_ttl, cooldown_key,
}
use onepark_smart_park.Alarms.Handle.{raise_one}

-- Where the service cools off, an alarm's device, event and rule are not cooling, Redis takes their
-- cooling-off, and the insert of the alarm fails, the round answers with an error and leaves the
-- table of alarms as it was; but every round for this alarm at which Redis answers, up to 60
-- seconds from there, passes over it as suppressed and changes nothing, whether or not the table
-- would take it.
pub raise_one-lost :
    (go : Go) (codec : Codec) (cfg : Config) (a later : Answers) (e : DeviceEvent) (d : Draft)
    (id : Text) (st : Stores)
    → cfg.has_cooldown ≡ true
    → is_held a.now (cooldown_key go codec e d.rule_id) st.cooling ≡ false
    → a.cooldown_fails d.rule_id ≡ false
    → a.create_fails d.rule_id ≡ true
    → later.cooldown_fails d.rule_id ≡ false
    → later.now < a.now + cooldown_ttl
    → (st' : Stores) × ((raise_one go codec cfg a e d id st ≡ (st', err not_created))
        × ((st'.alarms ≡ st.alarms) × (raise_one go codec cfg later e d id st' ≡ (st', ok true))))
unfolding raise_one seen is_held
raise_one-lost go codec cfg a later e d id st cools free redis broken back soon =
    let key = cooldown_key go codec e d.rule_id in
    let kept = record { name = key; expires_at = a.now + cooldown_ttl } ∷ drop_key key st.cooling in
    let held : is_held later.now key kept ≡ true =
      simp (text_eq_refl key, lt→ltb later.now (a.now + cooldown_ttl) soon) in
    (
      record st { cooling = kept },
      (simp (cools, redis, free, broken), (refl, simp (cools, back, held))),
    )
