-- ===== src/Video/Tests.antt =====
-- Runs of the recording windows, and their theorems at concrete inputs.
use onepark_smart_park.Prelude.{
  All, ℕ, ◌+◌, ◌-◌, ◌*◌, ◌/◌, ◌%◌, ◌≤◌, ◌≡◌, refl, true, none, some, [], ◌∷◌, codes, text_eq,
  if◌then◌else◌, arith,
}
use onepark_smart_park.Prelude.Int.{pos}
use onepark_smart_park.Strings.{trim_space, split}
use onepark_smart_park.Video.{
  Calendar, RecordPlan, Schedule, available_windows, collect_windows, plan_windows, plan_days,
  days_to, windows_on, clip_window, floor_of, parse_days_of_week, merge_windows, sort_windows,
  insert_window, merge_from, max_plan_window_days,
}
use onepark_smart_park.Video.Merged.{
  covers, some_plan_covers, IsSeparated, available_windows-covers,
}
use onepark_smart_park.Video.Days.{plan_days-enough}

abbrev day : ℕ
day = 86400000000000

abbrev hour : ℕ
hour = 3600000000000

-- A zone without summer time; day 0 is a Thursday.
abbrev utc : Calendar
utc = record {
  midnight = λ t. t / day * day;
  next_day = λ t. t + day;
  days_before = λ t n. t - n * day;
  weekday = λ t. (t / day + 4) % 7;
  atoi = λ t. if text_eq t (codes "4") then some (pos 4) else none;
}

abbrev mornings : RecordPlan
mornings = record {
  id = 2;
  name = codes "mornings";
  strategy = codes "scheduled";
  days_of_week = codes " 4";
  start_minute = pos 480;
  end_minute = pos 600;
  retention_days = pos 0;
  status = pos 1;
  created_at = 0;
}

abbrev later_mornings : RecordPlan
later_mornings = record mornings { id = 1; start_minute = pos 600; end_minute = pos 720 }

-- On a Thursday from seven, the two plans' windows join at ten; the Friday is no day of theirs.
thursday :
    available_windows utc (later_mornings ∷ mornings ∷ []) (7 * day + 7 * hour) (9 * day) (9 * day)
    ≡ record {
      start = 7 * day + 8 * hour;
      end = 7 * day + 12 * hour;
      plan_id = 2;
      plan_name = codes "mornings";
    }
      ∷ []
unfolding available_windows collect_windows plan_windows plan_days days_to windows_on clip_window
    floor_of parse_days_of_week merge_windows sort_windows insert_window merge_from trim_space split
thursday = refl

available_windows-covers_example :
    (covers
        (7 * day + 9 * hour)
        (available_windows utc (mornings ∷ []) (7 * day + 7 * hour) (9 * day) (9 * day))
      ≡ some_plan_covers utc
          (7 * day + 7 * hour)
          (9 * day)
          (9 * day)
          (7 * day + 9 * hour)
          (mornings ∷ []))
    × IsSeparated (available_windows utc (mornings ∷ []) (7 * day + 7 * hour) (9 * day) (9 * day))
available_windows-covers_example =
    available_windows-covers utc (mornings ∷ []) (7 * day + 7 * hour) (9 * day) (9 * day)
      (7 * day + 9 * hour)

abbrev every_morning : Schedule
every_morning = record { scheduled = true; days = []; start_minute = 480; end_minute = 600 }

utc-lasts : (t : ℕ) → t + 23 * hour ≤ utc.next_day t
utc-lasts t = omega arith

plan_days-enough_example :
    All (λ d. d ≤ 9 * day) (days_to utc (9 * day) max_plan_window_days (utc.midnight (7 * day)))
    × ((days_to utc (9 * day) 500 (utc.midnight (7 * day))
          ≡ days_to utc (9 * day) max_plan_window_days (utc.midnight (7 * day)))
        × (plan_days utc mornings every_morning (7 * day) (9 * day) 0 500 (utc.midnight (7 * day))
            ≡ plan_days utc mornings every_morning
                (7 * day)
                (9 * day)
                0
                max_plan_window_days
                (utc.midnight (7 * day))))
plan_days-enough_example =
    plan_days-enough utc mornings every_morning (7 * day) (9 * day) 0 (23 * hour) utc-lasts
      (omega arith) 500 (omega arith)
