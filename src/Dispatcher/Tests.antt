-- ===== src/Dispatcher/Tests.antt =====
-- Runs of the dispatcher of device reports, and its theorem at a concrete input.
use onepark_smart_park.Prelude.{
  ℕ, suc, ◌≡◌, refl, none, some, [], ◌∷◌, Text, codes, text_eq, leb, not, ◌&&◌, ok,
}
use onepark_smart_park.Prelude.Int.{pos}
use onepark_smart_park.Strings.{split}
use onepark_smart_park.Gateway.Model.{is_alarm_event}
use onepark_smart_park.Dispatcher.{
  RawMessage, Codec, Answers, Kafka, topic_telemetry, topic_alarm, topic_dlq, drop_leading,
  drop_trailing, split_topic, publish_once, to_dlq, publish_from, publish_with_retry,
  dispatch_report,
}
use onepark_smart_park.Dispatcher.Report.{IsReport}
use onepark_smart_park.Dispatcher.Kept.{Kept, dispatch_report-Kept}

abbrev report_topic : Text
report_topic = codes "/onepark/device/pk/door-1/event/"

topic_split : split_topic report_topic ≡ some (codes "door-1", codes "event")
unfolding split_topic drop_leading drop_trailing split
topic_split = refl

short_topic : split_topic (codes "onepark/device/door-1/event") ≡ none
unfolding split_topic drop_leading drop_trailing split
short_topic = refl

-- A report of a forced door that names another device than its topic
abbrev report : RawMessage
report = record {
  request_id = codes "r1";
  device_id = codes "door-2";
  device_type = [];
  event_type = codes "intrusion";
  occurred_at = pos 5;
  payload = none;
}

-- A message is written as its device, and a dead letter as the report.
abbrev codec_example : Codec
codec_example = record {
  decode = λ body. some report;
  encode = λ t. some t.device_id;
  encode_letter = λ letter. some letter.raw;
}

-- The archive knows every device; the first calls but those for dead letters are refused.
abbrev first_refused : ℕ → Answers
first_refused n = record {
  refuses = λ topic calls. not (text_eq topic topic_dlq) && leb (suc calls) n;
  now = λ calls. 0;
  archive = some (λ device. ok (some (record { tenant_id = pos 3; zone_id = codes "A1" })));
}

abbrev no_messages : Kafka
no_messages = record { calls = 0; sent = [] }

-- The device of the report, not that of the topic, is the key of both messages.
named_by_body :
    (dispatch_report codec_example (first_refused 0) report_topic [] no_messages).sent ≡ (
      record { topic = topic_telemetry; key = codes "door-2"; value = codes "door-2" }
      ∷ record { topic = topic_alarm; key = codes "door-2"; value = codes "door-2" }
      ∷ [])
unfolding dispatch_report split_topic drop_leading drop_trailing split publish_with_retry
    publish_from publish_once is_alarm_event
named_by_body = refl

-- Four attempts are refused, and the dead letter is taken; the alarm's message goes through.
lettered : (dispatch_report codec_example (first_refused 4) report_topic [] no_messages).sent ≡ (
    record { topic = topic_dlq; key = []; value = codes "door-2" }
    ∷ record { topic = topic_alarm; key = codes "door-2"; value = codes "door-2" }
    ∷ [])
unfolding dispatch_report split_topic drop_leading drop_trailing split publish_with_retry
    publish_from publish_once is_alarm_event to_dlq
lettered = refl

dispatch_report-Kept_example :
    Kept
      (IsReport codec_example (first_refused 9) report_topic [])
      []
      (dispatch_report codec_example (first_refused 9) report_topic [] no_messages).sent
dispatch_report-Kept_example =
    dispatch_report-Kept codec_example (first_refused 9) (λ n. refl) (λ letter. (letter.raw, refl))
      report_topic [] no_messages
