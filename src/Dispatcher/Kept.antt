-- ===== src/Dispatcher/Kept.antt =====
-- No report is dropped in silence: `Dispatch` of app/event-dispatcher/internal/dispatch/dispatch.go.
use onepark_smart_park.Prelude.{
  sym, arith, ltb, length, take, ◌≤◌, ℕ, zero, suc, ◌≡◌, refl, ◌∙◌, ap, false, Option, none, some,
  List, [], ◌∷◌, ◌++◌, Text, Result, ok, err, inl, inr, Bool-cases, both_branches, is_empty,
}
use onepark_smart_park.Gateway.Model.{is_alarm_event}
use onepark_smart_park.Dispatcher.{
  RawMessage, Reason, Profile, Sent, Codec, Answers, Kafka, topic_dlq, exhausted, publish_once,
  to_dlq_encoded, to_dlq, taken_or, publish_from, publish_with_retry, is_kind, and_alarm, forward,
  encoded, with_profile, resolved, of_device, of_raw, of_parts, or_else, dispatch_report,
  split_topic, unknown_kind, bad_topic, unreadable, no_device, not_encoded, archive_failed,
  unknown_device, telemetry_of, new_dlq_envelope, DlqEnvelope,
}
use onepark_smart_park.Dispatcher.Report.{
  IsText, given, instead, IsProfile, unasked, found, IsTelemetry, IsAbout, IsReport, told, lettered,
}
use mathlib.Core.List.{append_assoc}
use mathlib.Core.Path.{subst}

-- The next message that Kafka has after what it held has P.
pub data Kept (P : Sent → Type 0) (before after : List Sent) : Type 0 where
  kept : (m : Sent) (more : List Sent) → after ≡ before ++ m ∷ more → P m → Kept P before after

Kept-again :
    {P Q : Sent → Type 0} {xs ys zs : List Sent} → Kept P xs ys → Kept Q ys zs → Kept P xs zs
Kept-again {xs = xs} (kept m more e is) (kept n rest e' _) =
    kept m (more ++ n ∷ rest)
      (e' ∙ ap (λ l. l ++ n ∷ rest) e ∙ append_assoc xs (m ∷ more) (n ∷ rest)) is

take-all : (n : ℕ) (s : Text) → length s ≤ n → take n s ≡ s
take-all zero [] le = refl
take-all zero (b ∷ s) le = absurd (omega arith)
take-all (suc n) [] le = refl
take-all (suc n) (b ∷ s) le = ap (λ t. b ∷ t) (take-all n s (omega arith))

new_dlq_envelope-raw :
    (source : Text) (why : Reason) (raw : Text) (at : ℕ)
    → (new_dlq_envelope source why raw at).raw ≡ take 4096 raw
unfolding new_dlq_envelope
new_dlq_envelope-raw source why raw at = elim (Bool-cases (ltb 4096 (length raw))) [
  | inl long ↦ rw long refl
  | inr short ↦ rw short (sym (take-all 4096 raw (ground arith)))
]

or_else-IsText : (codec : Codec) (a : Answers) (s t : Text) → IsText s t (or_else codec a s t)
or_else-IsText codec a [] t = instead refl refl
or_else-IsText codec a (b ∷ s) t = given refl refl

module _ (codec : Codec) (a : Answers) (takes : (n : ℕ) → a.refuses topic_dlq n ≡ false)
    (writes : (e : DlqEnvelope) → (v : Text) × (codec.encode_letter e ≡ some v)) where
  abbrev letter : Text → Sent
  letter value = record { topic = topic_dlq; key = []; value = value }

  -- Every letter about this text has P.
  abbrev Letters : (Sent → Type 0) → Text → Text → Type 0
  Letters P source raw =
      (why : Reason) (at : ℕ) (value : Text)
      → codec.encode_letter (new_dlq_envelope source why raw at) ≡ some value
      → P (letter value)

  to_dlq_encoded-Kept :
      (P : Sent → Type 0) (value : Text) (s : Kafka)
      → P (letter value)
      → Kept P s.sent (to_dlq_encoded codec a (some value) s).sent
  unfolding publish_once
  to_dlq_encoded-Kept P value s holds =
      rw (to_dlq_encoded, takes s.calls) (kept (letter value) [] refl holds)

  to_dlq-Kept :
      (P : Sent → Type 0) (source : Text) (why : Reason) (raw : Text) (s : Kafka)
      → Letters P source raw
      → Kept P s.sent (to_dlq codec a source why raw s).sent
  unfolding to_dlq
  to_dlq-Kept P source why raw s letters =
      let (value, e) = writes (new_dlq_envelope source why raw (a.now s.calls)) in
      rw e (to_dlq_encoded-Kept P value s (letters why (a.now s.calls) value e))

  -- Where an attempt that Kafka refuses is followed by what keeps the message, it is kept.
  taken_or-Kept :
      (P : Sent → Type 0) (m : Sent) (s : Kafka) (again : Kafka → Kafka)
      → P m
      → ((later : Kafka) → later.sent ≡ s.sent → Kept P s.sent (again later).sent)
      → Kept P s.sent (taken_or codec a (publish_once codec a m s) again).sent
  unfolding publish_once
  taken_or-Kept P m s again holds next = elim (Bool-cases (a.refuses m.topic s.calls)) [
    | inl refused ↦ rw refused (next (record s { calls = suc s.calls }) refl)
    | inr taken ↦ rw taken (kept m [] refl holds)
  ]

  publish_from-Kept :
      (P : Sent → Type 0) (source : Text) (m : Sent) (left : ℕ) (s : Kafka)
      → P m
      → Letters P source m.value
      → Kept P s.sent (publish_from codec a source m left s).sent
  unfolding publish_from
  publish_from-Kept P source m zero s holds letters =
      taken_or-Kept P m s (to_dlq codec a source (exhausted m.topic) m.value) holds λ later same.
        subst (λ l. Kept P l (to_dlq codec a source (exhausted m.topic) m.value later).sent) same
          (to_dlq-Kept P source (exhausted m.topic) m.value later letters)
  publish_from-Kept P source m (suc left) s holds letters =
      taken_or-Kept P m s (publish_from codec a source m left) holds λ later same.
        subst (λ l. Kept P l (publish_from codec a source m left later).sent) same
          (publish_from-Kept P source m left later holds letters)

  and_alarm-Kept :
      {P : Sent → Type 0} (topic device event value : Text) {before : List Sent} (s : Kafka)
      → Kept P before s.sent
      → Kept P before (and_alarm codec a topic device event value s).sent
  unfolding publish_with_retry
  and_alarm-Kept {P} topic device event value {before} s done =
      both_branches (λ (s' : Kafka). Kept P before s'.sent) (is_alarm_event event)
        (Kept-again done (publish_from-Kept (λ m. Unit {0}) topic _ 3 s tt (λ why at v e. tt))) done

  module _ (topic body : Text) where
    abbrev Report : Sent → Type 0
    Report = IsReport codec a topic body

    IsAbout-Letters : (raw : Text) → IsAbout codec a topic body raw → Letters Report topic raw
    unfolding new_dlq_envelope
    IsAbout-Letters raw about why at value e =
        lettered (new_dlq_envelope topic why raw at) raw refl about refl
          (new_dlq_envelope-raw topic why raw at) e

    body_lettered :
        (why : Reason) (s : Kafka) → Kept Report s.sent (to_dlq codec a topic why body s).sent
    body_lettered why s = to_dlq-Kept Report topic why body s (IsAbout-Letters body (inl refl))

    forward-Kept :
        (device kind event value : Text) (s : Kafka)
        → IsTelemetry codec a topic body device value
        → Kept Report s.sent (forward codec a topic body device kind event value s).sent
    unfolding publish_with_retry
    forward-Kept device kind event value s is =
        both_branches (λ (s' : Kafka). Kept Report s.sent s'.sent) (is_kind kind)
          (and_alarm-Kept topic device event value _ (
            publish_from-Kept Report topic _ 3 s (told refl is)
              (IsAbout-Letters value (inr (device, is)))))
          (body_lettered (unknown_kind kind) s)

    encoded-Kept :
        (device kind event : Text) (o : Option Text) (s : Kafka)
        → ((value : Text) → o ≡ some value → IsTelemetry codec a topic body device value)
        → Kept Report s.sent (encoded codec a topic body device kind event o s).sent
    encoded-Kept device kind event none s is = body_lettered not_encoded s
    encoded-Kept device kind event (some value) s is =
        forward-Kept device kind event value s (is value refl)

    module _ (part kind : Text) (raw : RawMessage)
        (in_topic : split_topic topic ≡ some (part, kind))
        (decoded : codec.decode body ≡ some raw) where
      abbrev device : Text
      device = or_else codec a raw.device_id part

      with_profile-Kept :
          (p : Profile) (s : Kafka)
          → IsProfile device p a.archive
          → Kept Report s.sent (with_profile codec a topic body device kind raw p s).sent
      with_profile-Kept p s archived = encoded-Kept device kind _ _ s λ value written. record {
        part = part;
        kind = kind;
        raw = raw;
        profile = p;
        message = telemetry_of codec a device kind p raw;
        in_topic = in_topic;
        decoded = decoded;
        named = or_else-IsText codec a raw.device_id part;
        archived = archived;
        of_device_id = refl;
        of_event = or_else-IsText codec a raw.event_type kind;
        of_tenant = refl;
        of_zone = refl;
        of_request = refl;
        of_time = refl;
        of_type = refl;
        of_payload = λ payload e. rw e refl;
        written = written;
      }

      resolved-Kept :
          (answer : Result (Unit {0}) (Option Profile)) (s : Kafka)
          → ((p : Profile) → answer ≡ ok (some p) → IsProfile device p a.archive)
          → Kept Report s.sent (resolved codec a topic body device kind raw answer s).sent
      resolved-Kept (err e) s archived = body_lettered archive_failed s
      resolved-Kept (ok none) s archived = body_lettered (unknown_device device) s
      resolved-Kept (ok (some p)) s archived = with_profile-Kept p s (archived p refl)

      of_device-Kept :
          (archive : Option (Text → Result (Unit {0}) (Option Profile))) (s : Kafka)
          → a.archive ≡ archive
          → Kept Report s.sent (of_device codec a archive topic body device kind raw s).sent
      of_device-Kept none s e = with_profile-Kept _ s (rw e (unasked refl))
      of_device-Kept (some resolve) s e = resolved-Kept (resolve device) s λ p is. rw e (found is)

    of_raw-Kept :
        (part kind : Text) (o : Option RawMessage) (s : Kafka)
        → split_topic topic ≡ some (part, kind)
        → codec.decode body ≡ o
        → Kept Report s.sent (of_raw codec a topic body part kind o s).sent
    of_raw-Kept part kind none s in_topic decoded = body_lettered unreadable s
    of_raw-Kept part kind (some raw) s in_topic decoded =
        both_branches (λ (s' : Kafka). Kept Report s.sent s'.sent)
          (is_empty (or_else codec a raw.device_id part)) (body_lettered no_device s)
          (of_device-Kept part kind raw in_topic decoded a.archive s refl)

    of_parts-Kept :
        (o : Option (Text × Text)) (s : Kafka)
        → split_topic topic ≡ o
        → Kept Report s.sent (of_parts codec a topic body o s).sent
    of_parts-Kept none s in_topic = body_lettered bad_topic s
    of_parts-Kept (some (part, kind)) s in_topic =
        of_raw-Kept part kind (codec.decode body) s in_topic refl

  -- Where Kafka takes every dead letter, and each can be written, a report of whatever topic and body
  -- is not dropped: the next message that Kafka has behind what it had carries it. That message is
  -- the telemetry of the device that the body names, or else the topic, with the body's data and the
  -- archive's tenant and zone; or a dead letter of the topic with the body or with that telemetry,
  -- up to its first 4096 bytes.
  pub dispatch_report-Kept :
      (topic body : Text) (s : Kafka)
      → Kept (IsReport codec a topic body) s.sent (dispatch_report codec a topic body s).sent
  unfolding dispatch_report
  dispatch_report-Kept topic body s = of_parts-Kept topic body (split_topic topic) s refl
