-- ===== src/Parking/Card.antt =====
-- Monthly cards: internal/logic/createmonthlycardlogic.go, renewmonthlycardlogic.go and
-- disablemonthlycardlogic.go, on the table of deploy/sql/m2_p2_monthly_card_unique.sql, whose
-- index `uk_monthly_active_plate` allows a tenant one card of status 1 for a plate.
pub mod Unique
pub mod Valid
pub mod Steps
pub mod Expired
use onepark_smart_park.Prelude.{
  ℕ, ◌+◌, ◌*◌, ◌/◌, Bool, true, false, ◌&&◌, not, Option, none, some, List, [], ◌∷◌, ◌++◌, Text,
  is_empty, text_eq, ltb, leb, ◌==◌, if◌then◌else◌,
}
use onepark_smart_park.Prelude.Int.{ℤ, pos, pos_part, is_positive, ltb_ℤ}
use onepark_smart_park.Table.{first, update, affected}
use onepark_smart_park.Parking.Model.{
  MonthlyCard, monthly_card_status_active, monthly_card_status_disabled,
}
use onepark_smart_park.Parking.Telemetry.{second, trim_space}

pub data CardError : Type 0 where
  empty_plate bad_times no_database check_failed card_exists create_failed : CardError
  bad_id end_in_past no_card query_failed not_later renew_failed disable_failed : CardError

-- Times in seconds; they are taken to be positive.
pub record CreateMonthlyCardReq : Type 0 where
  pub plate_no : Text
  pub owner_name : Text
  pub phone : Text
  pub start_time : ℕ
  pub end_time : ℕ

pub record RenewMonthlyCardReq : Type 0 where
  pub id : ℤ
  pub end_time : ℕ

pub record MonthlyCardResp : Type 0 where
  pub id : ℕ
  pub plate_no : Text
  pub owner_name : Text
  pub phone : Text
  pub start_time : ℕ
  pub end_time : ℕ
  pub status : ℕ

pub data CardReply : Type 0 where
  refused : CardError → CardReply
  card : MonthlyCardResp → CardReply

pub record Cards : Type 0 where
  pub rows : List MonthlyCard
  pub next_id : ℕ

-- How MySQL answers, what the clock shows, and what other requests do between the handler's
-- query and its statement that writes.
pub record CardAnswers : Type 0 where
  pub connected : Bool
  pub query_fails : Bool
  pub write_fails : Bool
  pub now : ℕ
  pub meanwhile : Cards → Cards

-- `monthlyCardResp`
abbrev pub monthly_card_resp : MonthlyCard → MonthlyCardResp
monthly_card_resp c = record {
  id = c.id;
  plate_no = c.plate_no;
  owner_name = c.owner_name;
  phone = c.phone;
  start_time = c.start_time / second;
  end_time = c.end_time / second;
  status = c.status;
}

abbrev pub is_active : MonthlyCard → Bool
is_active c = c.status == monthly_card_status_active

-- The key of the index `uk_monthly_active_plate` is the same: the generated column is NULL, which
-- clashes with nothing, unless the card has status 1 and a plate.
unfoldable pub clashes : MonthlyCard → MonthlyCard → Bool
clashes c d =
    (is_active c && not (is_empty c.plate_no))
    && (is_active d && (c.tenant_id == d.tenant_id && text_eq c.plate_no d.plate_no))

abbrev pub valid_now : ℕ → Text → ℕ → MonthlyCard → Bool
valid_now tenant plate now c =
    (c.tenant_id == tenant) && (text_eq c.plate_no plate && (is_active c && leb now c.end_time))

abbrev pub new_card : ℕ → CreateMonthlyCardReq → ℕ → MonthlyCard
new_card tenant req id = record {
  id = id;
  tenant_id = tenant;
  plate_no = trim_space req.plate_no;
  owner_name = req.owner_name;
  phone = req.phone;
  start_time = req.start_time * second;
  end_time = req.end_time * second;
  status = monthly_card_status_active;
}

-- INSERT, which the index may refuse
unfoldable pub insert_card : CardAnswers → ℕ → CreateMonthlyCardReq → Cards → Cards × CardReply
unfolding clashes
insert_card a tenant req t =
    let c = new_card tenant req t.next_id in
    if a.write_fails
    then (t, refused create_failed)
    else if affected (clashes c) t.rows == 0
    then (record { rows = t.rows ++ c ∷ []; next_id = t.next_id + 1 }, card (monthly_card_resp c))
    else (t, refused card_exists)

-- `CreateMonthlyCard`
unfoldable pub create_monthly_card :
    CardAnswers → ℕ → CreateMonthlyCardReq → Cards → Cards × CardReply
create_monthly_card a tenant req t =
    let plate = trim_space req.plate_no in
    if is_empty plate
    then (t, refused empty_plate)
    else if not (ltb req.start_time req.end_time)
    then (t, refused bad_times)
    else if not a.connected
    then (t, refused no_database)
    else if a.query_fails
    then (t, refused check_failed)
    else if ltb 0 (affected (valid_now tenant plate a.now) t.rows)
    then (t, refused card_exists)
    else insert_card a tenant req (a.meanwhile t)

abbrev pub own_card : ℕ → ℕ → MonthlyCard → Bool
own_card id tenant c = (c.id == id) && (c.tenant_id == tenant)

abbrev pub same_id : ℕ → MonthlyCard → Bool
same_id id c = c.id == id

abbrev pub renewed : ℕ → MonthlyCard → MonthlyCard
renewed end c = record c { end_time = end; status = monthly_card_status_active }

abbrev pub clashes_elsewhere : MonthlyCard → MonthlyCard → Bool
clashes_elsewhere c d = not (d.id == c.id) && clashes c d

-- Whether the index allows a row to be renewed.
abbrev pub index_allows : ℕ → Option MonthlyCard → List MonthlyCard → Bool
index_allows end none rows = true
index_allows end (some c) rows = affected (clashes_elsewhere (renewed end c)) rows == 0

-- UPDATE by the primary key, which the index may refuse
unfoldable pub update_renewed : CardAnswers → MonthlyCard → ℕ → Cards → Cards × CardReply
unfolding clashes
update_renewed a c end t =
    if a.write_fails
    then (t, refused renew_failed)
    else if index_allows end (first (same_id c.id) t.rows) t.rows
    then (
      record t { rows = update (same_id c.id) (renewed end) t.rows },
      card (monthly_card_resp (renewed end c)),
    )
    else (t, refused renew_failed)

abbrev pub renew_found : CardAnswers → ℕ → Cards → Option MonthlyCard → Cards × CardReply
renew_found a end t none = (t, refused no_card)
renew_found a end t (some c) =
    if not (ltb c.end_time end)
    then (t, refused not_later)
    else update_renewed a c end (a.meanwhile t)

-- `RenewMonthlyCard`
unfoldable pub renew_monthly_card :
    CardAnswers → ℕ → RenewMonthlyCardReq → Cards → Cards × CardReply
renew_monthly_card a tenant req t =
    let end = req.end_time * second in
    if not (is_positive req.id)
    then (t, refused bad_id)
    else if not (ltb a.now end)
    then (t, refused end_in_past)
    else if not a.connected
    then (t, refused no_database)
    else if a.query_fails
    then (t, refused query_failed)
    else renew_found a end t (first (own_card (pos_part req.id) tenant) t.rows)

abbrev pub disabled : MonthlyCard → MonthlyCard
disabled c = record c { status = monthly_card_status_disabled }

unfoldable pub disable_found : CardAnswers → Cards → Option MonthlyCard → Cards × CardReply
disable_found a t none = (t, refused no_card)
disable_found a t (some c) =
    if c.status == monthly_card_status_disabled
    then (t, card (monthly_card_resp c))
    else if a.write_fails
    then (t, refused disable_failed)
    else (
      (let seen = a.meanwhile t in record seen { rows = update (same_id c.id) disabled seen.rows }),
      card (monthly_card_resp (disabled c)),
    )

-- `DisableMonthlyCard`
unfoldable pub disable_monthly_card : CardAnswers → ℕ → ℤ → Cards → Cards × CardReply
unfolding disable_found
disable_monthly_card a tenant id t =
    if not (is_positive id)
    then (t, refused bad_id)
    else if not a.connected
    then (t, refused no_database)
    else if a.query_fails
    then (t, refused query_failed)
    else disable_found a t (first (own_card (pos_part id) tenant) t.rows)
