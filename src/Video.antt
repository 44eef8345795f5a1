-- ===== src/Video.antt =====
-- The recordings that a camera's plans promise: app/video-service/internal/logic/recordwindow.go
-- and the parsing of plans in internal/model/record_plan.go. Go's calendar is a parameter.
pub mod Merged
pub mod Days
pub mod Tests
use onepark_smart_park.Prelude.{
  ℕ, zero, suc, ◌+◌, ◌-◌, ◌*◌, ◌%◌, Bool, true, false, ◌&&◌, ◌||◌, not, Option, none, some, List,
  [], ◌∷◌, ◌++◌, Text, codes, text_eq, is_empty, ltb, leb, ◌==◌, if◌then◌else◌,
}
use onepark_smart_park.Prelude.Int.{ℤ, pos, negsuc, is_positive, pos_part, ltb_ℤ}
use onepark_smart_park.Strings.{trim_space, split}

-- Instants are nanoseconds. The calendar is that of the time zone of the request: a day's midnight
-- and its weekday (Sunday is 0), and `AddDate` by whole days; `atoi` is `strconv.Atoi`.
pub record Calendar : Type 0 where
  pub midnight : ℕ → ℕ
  pub next_day : ℕ → ℕ
  pub days_before : ℕ → ℕ → ℕ
  pub weekday : ℕ → ℕ
  pub atoi : Text → Option ℤ

pub record RecordPlan : Type 0 where
  pub id : ℕ
  pub name : Text
  pub strategy : Text
  pub days_of_week : Text
  pub start_minute : ℤ
  pub end_minute : ℤ
  pub retention_days : ℤ
  pub status : ℤ
  pub created_at : ℕ

pub record Window : Type 0 where
  pub start : ℕ
  pub end : ℕ
  pub plan_id : ℕ
  pub plan_name : Text

abbrev pub record_strategy_scheduled : Text
record_strategy_scheduled = codes "scheduled"

abbrev pub default_retention_days : ℕ
default_retention_days = 7

abbrev pub minutes_per_day : ℕ
minutes_per_day = 1440

abbrev pub minute : ℕ
minute = 60000000000

-- A minute of the day, between 0 and 1440
abbrev pub clamp_minute : ℤ → ℕ
clamp_minute (negsuc n) = 0
clamp_minute (pos n) = if ltb minutes_per_day n then minutes_per_day else n

-- `NormalizeMinutes`
unfoldable pub normalize_minutes : ℤ → ℤ → ℕ × ℕ
normalize_minutes start end = (clamp_minute start, clamp_minute end)

-- One day of the list: 1 to 7, and 7 is Sunday
abbrev pub weekday_of : Option ℤ → Option ℕ
weekday_of none = none
weekday_of (some n) = if ltb_ℤ n (pos 1) || ltb_ℤ (pos 7) n then none else some (pos_part n % 7)

abbrev pub add_day : Option ℕ → Option (List ℕ) → Option (List ℕ)
add_day none rest = none
add_day (some d) none = none
add_day (some d) (some ds) = some (d ∷ ds)

abbrev pub parse_days : Calendar → List Text → Option (List ℕ)
parse_days c [] = some []
parse_days c (t ∷ ts) = add_day (weekday_of (c.atoi (trim_space t))) (parse_days c ts)

-- `ParseDaysOfWeek`; the set is a list, and the empty one means every day.
unfoldable pub parse_days_of_week : Calendar → Text → Option (List ℕ)
unfolding trim_space split
parse_days_of_week c s =
    let t = trim_space s in
    if is_empty t || text_eq t (codes "*") then some [] else parse_days c (split 44 t)

abbrev pub latest : ℕ → ℕ → ℕ
latest a b = if ltb a b then b else a

abbrev pub earliest : ℕ → ℕ → ℕ
earliest a b = if ltb b a then b else a

-- `clipWindow`
unfoldable pub clip_window : ℕ → ℕ → ℕ → ℕ → ℕ → Option (ℕ × ℕ)
clip_window ws we from to floor =
    let start = latest ws from in
    let end = earliest we to in
    if not (ltb start end)
    then none
    else if not (ltb (latest start floor) end)
    then none
    else some (latest start floor, end)

abbrev pub has_weekday : ℕ → List ℕ → Bool
has_weekday d [] = false
has_weekday d (e ∷ es) = e == d || has_weekday d es

abbrev pub is_day_off : Calendar → List ℕ → ℕ → Bool
is_day_off c [] day = false
is_day_off c (d ∷ ds) day = not (has_weekday (c.weekday day) (d ∷ ds))

abbrev pub with_window : RecordPlan → Option (ℕ × ℕ) → List Window → List Window
with_window p none ws = ws
with_window p (some (s, e)) ws =
    record { start = s; end = e; plan_id = p.id; plan_name = p.name } ∷ ws

-- What the loop knows of a plan: whether it is by schedule, its days and its minutes
pub record Schedule : Type 0 where
  pub scheduled : Bool
  pub days : List ℕ
  pub start_minute : ℕ
  pub end_minute : ℕ

abbrev pub day_start : Schedule → ℕ → ℕ
day_start s day = if s.scheduled then day + s.start_minute * minute else day

abbrev pub day_end : Calendar → Schedule → ℕ → ℕ
day_end c s day = if s.scheduled then day + s.end_minute * minute else c.next_day day

-- The days that the loop visits: at most `rounds` of them
unfoldable pub days_to : Calendar → ℕ → ℕ → ℕ → List ℕ
days_to c to zero day = []
days_to c to (suc rounds) day =
    let rest = days_to c to rounds (c.next_day day) in if ltb to day then [] else day ∷ rest

-- What the loop's body finds on those days
unfoldable pub windows_on : Calendar → RecordPlan → Schedule → ℕ → ℕ → ℕ → List ℕ → List Window
windows_on c p s from to floor [] = []
windows_on c p s from to floor (day ∷ days) =
    let rest = windows_on c p s from to floor days in
    if s.scheduled && is_day_off c s.days day
    then rest
    else with_window p (clip_window (day_start s day) (day_end c s day) from to floor) rest

-- The loop over the days
unfoldable pub plan_days : Calendar → RecordPlan → Schedule → ℕ → ℕ → ℕ → ℕ → ℕ → List Window
plan_days c p s from to floor rounds day = windows_on c p s from to floor (days_to c to rounds day)

abbrev pub max_plan_window_days : ℕ
max_plan_window_days = 400

-- The later of the plan's creation and of the end of its retention
unfoldable pub floor_of : Calendar → RecordPlan → ℕ → ℕ
floor_of c p now =
    latest
      (c.days_before now (
        if is_positive p.retention_days then pos_part p.retention_days else default_retention_days))
      p.created_at

abbrev pub plan_schedule :
    Calendar → RecordPlan → ℕ → ℕ → ℕ → Bool → Option (List ℕ) → ℕ × ℕ → List Window
plan_schedule c p from to now true none minutes = []
plan_schedule c p from to now false none (s, e) =
    plan_days c p (record { scheduled = false; days = []; start_minute = s; end_minute = e }) from
      to (floor_of c p now) max_plan_window_days (c.midnight from)
plan_schedule c p from to now scheduled (some days) (s, e) =
    if scheduled && leb e s
    then []
    else plan_days c p
        (record { scheduled = scheduled; days = days; start_minute = s; end_minute = e }) from to
        (floor_of c p now) max_plan_window_days (c.midnight from)

-- `planWindows` of a plan that is there
unfoldable pub plan_windows : Calendar → RecordPlan → ℕ → ℕ → ℕ → List Window
unfolding parse_days_of_week normalize_minutes
plan_windows c p from to now =
    if not (ltb from to)
    then []
    else if is_enabled p.status
    then plan_schedule c p from to now (text_eq p.strategy record_strategy_scheduled)
        (parse_days_of_week c p.days_of_week) (normalize_minutes p.start_minute p.end_minute)
    else []
  where
    is_enabled : ℤ → Bool
    is_enabled (pos n) = n == 1
    is_enabled (negsuc n) = false

-- `sort.Slice` by start and then by plan. It leaves open how windows of one plan with one start
-- stand; here they keep their order.
abbrev pub comes_before : Window → Window → Bool
comes_before a b = ltb a.start b.start || (a.start == b.start && ltb a.plan_id b.plan_id)

unfoldable pub insert_window : Window → List Window → List Window
insert_window w [] = w ∷ []
insert_window w (v ∷ vs) = if comes_before v w then v ∷ insert_window w vs else w ∷ v ∷ vs

unfoldable pub sort_windows : List Window → List Window
sort_windows [] = []
sort_windows (w ∷ ws) = insert_window w (sort_windows ws)

-- The loop of `mergeWindows`; `last` is the last window of the result so far.
unfoldable pub merge_from : Window → List Window → List Window
merge_from last [] = last ∷ []
merge_from last (w ∷ ws) =
    let joined = merge_from (record last { end = latest last.end w.end }) ws in
    let apart = last ∷ merge_from w ws in if leb w.start last.end then joined else apart

abbrev pub merge_sorted : List Window → List Window
merge_sorted [] = []
merge_sorted (w ∷ ws) = merge_from w ws

-- `mergeWindows`: a list of at most one window is returned as it is, which the loop does too.
unfoldable pub merge_windows : List Window → List Window
merge_windows ws = merge_sorted (sort_windows ws)

unfoldable pub collect_windows : Calendar → List RecordPlan → ℕ → ℕ → ℕ → List Window
collect_windows c [] from to now = []
collect_windows c (p ∷ ps) from to now =
    plan_windows c p from to now ++ collect_windows c ps from to now

-- `availableWindows`
unfoldable pub available_windows : Calendar → List RecordPlan → ℕ → ℕ → ℕ → List Window
available_windows c ps from to now = merge_windows (collect_windows c ps from to now)
