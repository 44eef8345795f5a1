-- ===== src/Access.antt =====
-- Access control: app/access-control-service/internal/{model,logic}. The tables, the caller, and
-- `PermissionAllowed` of internal/logic/permission.go.
pub mod Grant
pub mod RemoteOpen
pub mod Tests
use onepark_smart_park.Prelude.{
  ℕ, ◌+◌, ◌-◌, ◌*◌, Bool, true, false, ◌&&◌, ◌||◌, not, Option, none, some, List, [], ◌∷◌, Text,
  is_empty, ltb, leb, ◌==◌, if◌then◌else◌,
}
use onepark_smart_park.Prelude.Int.{ℤ, pos, negsuc, eq_ℤ}

-- A moment: its instant, and weekday (Sunday is 0), hour and minute in the server's time zone
pub record Moment : Type 0 where
  pub instant : ℕ
  pub weekday : ℕ
  pub hour : ℕ
  pub minute : ℕ

-- A period of the day on some days of the week: the JSON of a permission
pub record TimeWindow : Type 0 where
  pub start : Text
  pub end : Text
  pub days : List ℤ

-- `encoding/json` on such a period
pub record Json : Type 0 where
  pub marshal : TimeWindow → Text
  pub unmarshal : Text → Option TimeWindow

pub record AccessPermission : Type 0 where
  pub tenant_id : ℤ
  pub person_id : ℤ
  pub device_id : Text
  pub time_window : Option Text
  pub whitelist : ℤ
  pub status : ℤ
  pub expire_at : Option ℕ
  pub created_at : ℕ
  pub updated_at : ℕ

abbrev pub permission_status_valid : ℤ
permission_status_valid = pos 1

abbrev pub command_result_fail : ℕ
command_result_fail = 0

abbrev pub command_result_success : ℕ
command_result_success = 1

abbrev pub command_result_timeout : ℕ
command_result_timeout = 2

pub data Reason : Type 0 where
  no_permission invalid expired bad_window wrong_day wrong_time : Reason

pub data Decision : Type 0 where
  allowed : Decision
  denied : Reason → Decision

abbrev pub is_digit : ℕ → Bool
is_digit c = leb 48 c && leb c 57

abbrev pub two_digits : ℕ → ℕ → ℕ
two_digits a b = (a - 48) * 10 + (b - 48)

-- `parseHHMM`, as the minutes that `parseWindowMinutes` makes of it: two digits below 24, a colon,
-- two digits below 60
unfoldable pub parse_window_minutes : Text → Option ℕ
parse_window_minutes (a ∷ b ∷ c ∷ d ∷ e ∷ []) =
    if is_digit a
      && (is_digit b
          && (c == 58
              && (is_digit d
                  && (is_digit e && (ltb (two_digits a b) 24 && ltb (two_digits d e) 60)))))
    then some (two_digits a b * 60 + two_digits d e)
    else none
parse_window_minutes _ = none

-- Monday is 1 and Sunday is 7.
abbrev pub iso_weekday : ℕ → ℕ
iso_weekday wd = if wd == 0 then 7 else wd

abbrev pub has_day : ℕ → List ℤ → Bool
has_day wd [] = false
has_day wd (d ∷ ds) = eq_ℤ d (pos wd) || has_day wd ds

-- `dayMatches`
unfoldable pub day_matches : List ℤ → Moment → Bool
day_matches [] at = true
day_matches (d ∷ ds) at = has_day (iso_weekday at.weekday) (d ∷ ds)

abbrev pub within_minutes : Moment → Option ℕ → Option ℕ → Decision
within_minutes at none end = denied bad_window
within_minutes at (some start) none = denied bad_window
within_minutes at (some start) (some end) =
    let minutes = at.hour * 60 + at.minute in
    if ltb minutes start || ltb end minutes then denied wrong_time else allowed

abbrev pub window_allows : Option TimeWindow → Moment → Decision
window_allows none at = denied bad_window
window_allows (some w) at =
    if day_matches w.days at
    then within_minutes at (parse_window_minutes w.start) (parse_window_minutes w.end)
    else denied wrong_day

abbrev pub window_text_allows : Json → Option Text → Moment → Decision
window_text_allows json none at = allowed
window_text_allows json (some t) at =
    if is_empty t then allowed else window_allows (json.unmarshal t) at

abbrev pub has_expired : Option ℕ → Moment → Bool
has_expired none at = false
has_expired (some t) at = leb t at.instant

-- `PermissionAllowed` of a permission; it is never called without one.
unfoldable pub permission_allowed : Json → AccessPermission → Moment → Decision
unfolding day_matches parse_window_minutes
permission_allowed json p at =
    if not (eq_ℤ p.status permission_status_valid)
    then denied invalid
    else if has_expired p.expire_at at
    then denied expired
    else if eq_ℤ p.whitelist (pos 1)
    then allowed
    else window_text_allows json p.time_window at

pub record Caller : Type 0 where
  pub tenant_id : ℤ
  pub user_id : ℤ
  pub roles : List ℕ
