-- ===== src/Alarms/Handle.antt =====
-- The alarm consumer: `HandleDeviceEvent` and `HandleWithDeadLetter` of
-- app/alarm-service/internal/svc/consumer.go, with `Create` of internal/model/alarm_model.go and the
-- cooling-off of common/dedup/cooldown.go.
use onepark_smart_park.Prelude.{
  ℕ, zero, suc, Bool, true, false, ◌&&◌, ◌||◌, not, Option, none, some, List, [], ◌∷◌, ◌++◌, Text,
  codes, text_eq, is_empty, ◌==◌, Result, ok, err, if◌then◌else◌,
}
use onepark_smart_park.Prelude.Int.{pos, is_zero, is_positive, eq_ℤ}
use onepark_smart_park.Dedup.{Key, seen, release}
use onepark_smart_park.Rules.Value.{Go}
use onepark_smart_park.Rules.Window.{Window}
use onepark_smart_park.Rules.Engine.{Draft, RuleError}
use onepark_smart_park.Rules.Snapshot.{Engine, has_rules, evaluate}
use onepark_smart_park.Alarms.{
  DeviceEvent, Alarm, AlarmDlq, Stores, Config, Answers, Codec, HandleError, malformed, not_ready,
  dedup_unavailable, cooldown_unavailable, not_created, not_evaluated, match_intrusion_rule,
  rule_fields, legacy_draft, dedup_ttl, cooldown_ttl, parse_device_event, idempotent_id, to_alarm,
  cooldown_key,
}

-- Another row has the number, or the request and the rule.
abbrev pub conflicts : Alarm → List Alarm → Bool
conflicts a [] = false
conflicts a (b ∷ bs) =
    (text_eq b.alarm_no a.alarm_no
      || (eq_ℤ b.rule_id a.rule_id && text_eq b.request_id a.request_id))
    || conflicts a bs

-- What follows an alarm's insert: the push to the screens of its tenant, and the message to dispatch
abbrev pub announce : Config → Answers → Alarm → Stores → Stores
announce cfg a alarm st = record st {
  pushed =
      if cfg.has_hub && not (is_zero alarm.tenant_id) then st.pushed ++ alarm ∷ [] else st.pushed;
  notified =
      if cfg.has_notifier && not a.notify_fails then st.notified ++ alarm ∷ [] else st.notified;
}

-- A row that clashes is not written, and taken for a repeated request. The audit row that is written
-- with each alarm is left out.
abbrev pub insert_alarm : Config → Answers → Alarm → Stores → Stores
insert_alarm cfg a alarm st =
    if conflicts alarm st.alarms
    then st
    else announce cfg a alarm (record st { alarms = st.alarms ++ alarm ∷ [] })

-- `releaseDedupKey`
unfoldable pub release_dedup_key : Answers → Text → Stores → Stores
release_dedup_key a id st = record st {
  keys = release a.release_fails (codes "alarm:dedup:" ++ id) st.keys;
}

abbrev pub Handled : Type 0
Handled = Stores × Result HandleError (Unit {0})

abbrev pub when_cool :
    Stores
    → List Key × Result (Unit {0}) Bool
    → (Stores → Stores × Result HandleError Bool)
    → Stores × Result HandleError Bool
when_cool st (ks, err e) k = (record st { cooling = ks }, err cooldown_unavailable)
when_cool st (ks, ok true) k = (record st { cooling = ks }, ok true)
when_cool st (ks, ok false) k = k (record st { cooling = ks })

module _ (go : Go) (codec : Codec) (cfg : Config) (a : Answers) where
  abbrev pub create_alarm : DeviceEvent → Draft → Text → Stores → Stores × Result HandleError Bool
  create_alarm e d id st =
      if a.create_fails d.rule_id
      then (st, err not_created)
      else (insert_alarm cfg a (to_alarm go codec e d id a.now) st, ok false)

  -- One round of the loop over the drafts; the answer true is that the alarm was suppressed.
  unfoldable pub raise_one : DeviceEvent → Draft → Text → Stores → Stores × Result HandleError Bool
  raise_one e d id st =
      if cfg.has_cooldown
      then when_cool st
          (seen a.now cooldown_ttl (a.cooldown_fails d.rule_id) (cooldown_key go codec e d.rule_id)
            st.cooling)
          (create_alarm e d id)
      else create_alarm e d id st

  abbrev pub then_next : Text → Stores × Result HandleError Bool → (Stores → Handled) → Handled
  then_next id (st, err x) rest = (release_dedup_key a id st, err x)
  then_next id (st, ok suppressed) rest = rest st

  -- The loop over the drafts
  unfoldable pub raise_all : DeviceEvent → Text → List Draft → Stores → Handled
  raise_all e id [] st = (st, ok tt)
  raise_all e id (d ∷ ds) st = then_next id (raise_one e d id st) λ st'. raise_all e id ds st'

  abbrev pub after_seen :
      DeviceEvent → Text → List Draft → Stores → List Key × Result (Unit {0}) Bool → Handled
  after_seen e id ds st (ks, err x) = (record st { keys = ks }, err dedup_unavailable)
  after_seen e id ds st (ks, ok true) = (record st { keys = ks }, ok tt)
  after_seen e id ds st (ks, ok false) = raise_all e id ds (record st { keys = ks })

  -- The steps after the rules: the tenant, the message's key and the alarms
  abbrev pub on_drafts : DeviceEvent → Text → Stores → List Draft → Handled
  on_drafts e id st [] = (st, ok tt)
  on_drafts e id st (d ∷ ds) =
      if not (cfg.has_alarms && cfg.has_dedup)
      then (st, err not_ready)
      else if not (is_positive e.tenant_id) && (cfg.reject_missing_tenant && cfg.has_dead_letters)
      then (st, err malformed)
      else after_seen e id (d ∷ ds) st
          (seen a.now dedup_ttl a.seen_fails (codes "alarm:dedup:" ++ id) st.keys)

  abbrev pub legacy : DeviceEvent → List Draft
  legacy e =
      if cfg.disable_legacy_fallback
      then []
      else if match_intrusion_rule e
      then legacy_draft e ∷ []
      else []

  abbrev pub evaluated :
      DeviceEvent → Text → Stores → Engine × (List Window × Result RuleError (List Draft)) → Handled
  evaluated e id st (engine, (ws, err x)) =
      (record st { engine = some engine; windows = ws }, err (not_evaluated x))
  evaluated e id st (engine, (ws, ok ds)) =
      on_drafts e id (record st { engine = some engine; windows = ws }) ds

  abbrev pub with_rules : DeviceEvent → Text → Stores → Engine × Bool → Handled
  with_rules e id st (engine, false) =
      on_drafts e id (record st { engine = some engine }) (legacy e)
  with_rules e id st (engine, true) =
      evaluated e id st (evaluate go a.redis a.ask (rule_fields e) id engine st.windows)

  -- `evaluateRules`, and what follows
  abbrev pub by_engine : DeviceEvent → Text → Stores → Option Engine → Handled
  by_engine e id st none = on_drafts e id st (legacy e)
  by_engine e id st (some engine) = with_rules e id st (has_rules a.has_ask engine)

  abbrev pub handle_parsed : Stores → Option DeviceEvent → Handled
  handle_parsed st none = (st, err malformed)
  handle_parsed st (some e) = by_engine e (idempotent_id go codec e) st st.engine

  -- `HandleDeviceEvent`
  unfoldable pub handle_device_event : Text → Stores → Handled
  handle_device_event body st = handle_parsed st (parse_device_event go codec body)

-- How an attempt of `HandleWithDeadLetter` is met, and the wait behind it
pub record Attempt : Type 0 where
  pub answers : Answers
  pub cancelled : Bool

abbrev pub is_malformed : HandleError → Bool
is_malformed malformed = true
is_malformed _ = false

module _ (go : Go) (codec : Codec) (cfg : Config) where
  abbrev pub entry_of : Text → ℕ → Option DeviceEvent → AlarmDlq
  entry_of body retries none = record {
    payload = body;
    retry_count = retries;
    tenant_id = pos 0;
    request_id = [];
    device_id = [];
    event_type = [];
  }
  entry_of body retries (some e) = record {
    payload = body;
    retry_count = retries;
    tenant_id = e.tenant_id;
    request_id = idempotent_id go codec e;
    device_id = e.device_id;
    event_type = e.event_type;
  }

  -- `recordDeadLetter`; true is that the message is committed.
  unfoldable pub record_dead_letter : Bool → Text → ℕ → Stores → Stores × Bool
  record_dead_letter fails body retries st =
      if cfg.has_dead_letters && not fails
      then (
        record st {
          dead = st.dead ++ entry_of body retries (parse_device_event go codec body) ∷ [];
        },
        true,
      )
      else (st, false)

  abbrev pub after_attempt :
      Bool → Text → ℕ → ℕ → Bool → (Stores → Stores × Bool) → Handled → Stores × Bool
  after_attempt fails body retries left cancelled again (st, ok x) = (st, true)
  after_attempt fails body retries left cancelled again (st, err e) =
      if is_malformed e || left == 0
      then record_dead_letter fails body retries st
      else if cancelled
      then (st, false)
      else again st

  -- The loop of `HandleWithDeadLetter`, with `left` waits of `retryBackoff` left
  unfoldable pub attempts : Bool → (ℕ → Attempt) → Text → ℕ → ℕ → Stores → Stores × Bool
  attempts fails how body retries zero st =
      after_attempt fails body retries 0 (how retries).cancelled (λ st'. (st', false))
        (handle_device_event go codec cfg (how retries).answers body st)
  attempts fails how body retries (suc left) st =
      after_attempt fails body retries (suc left) (how retries).cancelled
        (λ st'. attempts fails how body (suc retries) left st')
        (handle_device_event go codec cfg (how retries).answers body st)

  -- `HandleWithDeadLetter`: three retries
  unfoldable pub handle_with_dead_letter : Bool → (ℕ → Attempt) → Text → Stores → Stores × Bool
  handle_with_dead_letter fails how body st = attempts fails how body 0 3 st

-- `ReplayDeadLetter`: Redis and the deduplication are built together.
unfoldable pub replay_dead_letter : Go → Codec → Config → Answers → AlarmDlq → Stores → Handled
unfolding release_dedup_key
replay_dead_letter go codec cfg a entry st = handle_device_event go codec cfg a entry.payload (
    if cfg.has_dedup && not (is_empty entry.request_id)
    then release_dedup_key a entry.request_id st
    else st)
