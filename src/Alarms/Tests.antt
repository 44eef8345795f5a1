-- ===== src/Alarms/Tests.antt =====
-- Runs of the alarm consumer, and its theorems at concrete inputs.
use onepark_smart_park.Prelude.{
  ℕ, suc, ◌+◌, ◌≡◌, refl, Bool, true, false, none, some, [], ◌∷◌, Text, codes, leb, ◌==◌, ok, err,
  arith,
}
use onepark_smart_park.Prelude.Int.{pos}
use onepark_smart_park.Strings.{trim_space}
use onepark_smart_park.Dedup.{seen, release, is_held, drop_key}
use onepark_smart_park.Rules.Value.{end, Go}
use onepark_smart_park.Alarms.{
  DeviceEvent, Alarm, Stores, Config, Answers, Codec, not_created, match_intrusion_rule,
  parse_device_event, idempotent_id, to_alarm, cooldown_key, legacy_draft,
}
use onepark_smart_park.Alarms.Handle.{
  Attempt, release_dedup_key, raise_one, raise_all, handle_device_event, record_dead_letter,
  attempts, handle_with_dead_letter, replay_dead_letter,
}
use onepark_smart_park.Alarms.Settled.{
  Settled, handle_with_dead_letter-Settled, handle_with_dead_letter-commits,
}
use onepark_smart_park.Alarms.Freed.{message_key, handle_device_event-frees}
use onepark_smart_park.Alarms.Lost.{raise_one-lost}

abbrev go_example : Go
go_example = record {
  parse_float = λ s. none;
  float_of_int = λ n. 0;
  float_lt = λ a b. false;
  float_le = leb;
  float_eq = λ a b. a == b;
  sprint = λ v. [];
  format_int = λ n. codes "0";
}

abbrev forced_door : DeviceEvent
forced_door = record {
  request_id = codes " r1 ";
  tenant_id = pos 3;
  device_id = codes "door-1";
  device_type = [];
  event_type = codes "intrusion";
  zone_id = [];
  occurred_at = pos 0;
  payload = end;
  area_id = pos 2;
  timestamp = pos 5000;
}

-- Every message but the empty one is the event, with no tenant where it is of one character.
abbrev codec_example : Codec
codec_example = record {
  decode = λ body. elim body [
    | [] ↦ none
    | _ ∷ rest ↦ elim rest [
      | [] ↦ some (record forced_door { tenant_id = pos 0 })
      | _ ∷ _ ↦ some forced_door
    ]
  ];
  fingerprint = λ s. s;
  alarm_no = λ s now. s;
}

abbrev config_example : Config
config_example = record {
  has_alarms = true;
  has_dedup = true;
  has_cooldown = true;
  has_dead_letters = true;
  has_hub = true;
  has_notifier = true;
  reject_missing_tenant = true;
  disable_legacy_fallback = false;
}

abbrev no_alarms : Stores
no_alarms = record {
  engine = none;
  windows = [];
  keys = [];
  cooling = [];
  alarms = [];
  dead = [];
  pushed = [];
  notified = [];
}

-- The tables fail or do not.
abbrev answers_example : Bool → ℕ → Answers
answers_example broken now = record {
  redis = record { fails = λ k. false; now = λ k. now };
  has_ask = record { now = now; listed = some []; loaded_at = now };
  ask = record { now = now; listed = some []; loaded_at = now };
  seen_fails = false;
  release_fails = false;
  cooldown_fails = λ r. false;
  create_fails = λ r. broken;
  notify_fails = false;
  now = now;
}

-- The tables fail at the first attempts only.
abbrev tables_back : ℕ → ℕ → Attempt
tables_back n k = record { answers = answers_example (leb (suc k) n) (100 + k); cancelled = false }

abbrev message : Text
message = codes "{}"

abbrev consume : ℕ → Text → Stores → Stores × Bool
consume n = handle_with_dead_letter go_example codec_example config_example false (tables_back n)

abbrev unowned : Text
unowned = codes "1"

abbrev kept_unowned : Stores
kept_unowned = record no_alarms {
  dead =
      record {
        payload = unowned;
        retry_count = 0;
        tenant_id = pos 0;
        request_id = codes "r1";
        device_id = codes "door-1";
        event_type = codes "intrusion";
      }
      ∷ [];
}

-- A message without a tenant is written to the ledger at once, and not as an alarm.
unowned_kept : consume 0 unowned no_alarms ≡ (kept_unowned, true)
unfolding handle_with_dead_letter attempts handle_device_event parse_device_event idempotent_id
    trim_space match_intrusion_rule record_dead_letter
unowned_kept = refl

abbrev only_cooling : Stores
only_cooling = record no_alarms {
  cooling = record { name = codes "alarm:cooldown:door-1:intrusion:0"; expires_at = 160 } ∷ [];
  keys = record { name = codes "alarm:dedup:r1"; expires_at = 86501 } ∷ [];
}

-- The insert fails once; the second attempt passes over the alarm, and the message is committed
-- without an alarm and without an entry in the ledger.
alarm_lost : consume 1 message no_alarms ≡ (only_cooling, true)
unfolding handle_with_dead_letter attempts handle_device_event parse_device_event idempotent_id
    trim_space match_intrusion_rule record_dead_letter seen is_held drop_key release
    release_dedup_key raise_all raise_one to_alarm cooldown_key
alarm_lost = refl

handle_with_dead_letter-Settled_example :
    Settled
      (λ k st.
        handle_device_event go_example codec_example config_example
          (tables_back 0 k).answers
          unowned
          st)
      (λ k. record {
        payload = unowned;
        retry_count = k;
        tenant_id = pos 0;
        request_id =
            idempotent_id go_example codec_example (record forced_door { tenant_id = pos 0 });
        device_id = codes "door-1";
        event_type = codes "intrusion";
      })
      no_alarms
      kept_unowned
unfolding parse_device_event
handle_with_dead_letter-Settled_example =
    handle_with_dead_letter-Settled go_example codec_example config_example (tables_back 0) unowned
      false no_alarms kept_unowned unowned_kept

handle_with_dead_letter-commits_example :
    (st' : Stores) × ((consume 9 message no_alarms ≡ (st', true))
      × Settled
          (λ k st.
            handle_device_event go_example codec_example config_example
              (tables_back 9 k).answers
              message
              st)
          (λ k. record {
            payload = message;
            retry_count = k;
            tenant_id = pos 3;
            request_id = idempotent_id go_example codec_example forced_door;
            device_id = codes "door-1";
            event_type = codes "intrusion";
          })
          no_alarms
          st')
unfolding parse_device_event
handle_with_dead_letter-commits_example =
    handle_with_dead_letter-commits go_example codec_example config_example (tables_back 9) message
      refl (λ k. refl) no_alarms

-- The first attempt of `alarm_lost`
abbrev failed_once : Stores
failed_once = record only_cooling { keys = [] }

attempt_fails :
    handle_device_event go_example codec_example config_example
      (answers_example true 100)
      message
      no_alarms
    ≡ (failed_once, err not_created)
unfolding handle_device_event parse_device_event idempotent_id trim_space match_intrusion_rule seen
    is_held drop_key release release_dedup_key raise_all raise_one to_alarm cooldown_key
attempt_fails = refl

handle_device_event-frees_example :
    is_held 100 (message_key (idempotent_id go_example codec_example forced_door)) [] ≡ false
unfolding parse_device_event is_held
handle_device_event-frees_example =
    handle_device_event-frees go_example codec_example config_example (answers_example true 100)
      refl message forced_door no_alarms failed_once not_created refl refl attempt_fails

raise_one-lost_example :
    (st' : Stores) × ((raise_one go_example codec_example config_example
          (answers_example true 100)
          forced_door
          (legacy_draft forced_door)
          (codes "r1")
          no_alarms
        ≡ (st', err not_created))
      × ((st'.alarms ≡ [])
          × (raise_one go_example codec_example config_example
                (answers_example false 101)
                forced_door
                (legacy_draft forced_door)
                (codes "r1")
                st'
              ≡ (st', ok true))))
unfolding is_held cooldown_key
raise_one-lost_example =
    raise_one-lost go_example codec_example config_example (answers_example true 100)
      (answers_example false 101) forced_door (legacy_draft forced_door) (codes "r1") no_alarms refl
      refl refl refl refl (omega arith)

abbrev raised : Alarm
raised = to_alarm go_example codec_example forced_door (legacy_draft forced_door) (codes "r1") 200

-- A replay of a message whose key is still held raises its alarm.
replayed :
    (replay_dead_letter go_example codec_example config_example
      (answers_example false 200)
      (record {
        payload = message;
        retry_count = 3;
        tenant_id = pos 3;
        request_id = codes "r1";
        device_id = codes "door-1";
        event_type = codes "intrusion";
      })
      only_cooling)
    ≡ (
      record only_cooling {
        cooling =
            record { name = codes "alarm:cooldown:door-1:intrusion:0"; expires_at = 260 } ∷ [];
        keys = record { name = codes "alarm:dedup:r1"; expires_at = 86600 } ∷ [];
        alarms = raised ∷ [];
        pushed = raised ∷ [];
        notified = raised ∷ [];
      },
      ok tt,
    )
unfolding replay_dead_letter handle_device_event parse_device_event idempotent_id trim_space
    match_intrusion_rule seen is_held drop_key release release_dedup_key raise_all raise_one
    to_alarm cooldown_key
replayed = refl
