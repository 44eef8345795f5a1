-- ===== src/Parking/Card/Expired.antt =====
-- Expired cards and the index.
use onepark_smart_park.Prelude.{
  ℕ, ◌≡◌, true, false, some, ◌==◌, is_empty, inl, inr, Bool-cases, arith, ltb, text_eq_refl,
}
use onepark_smart_park.Table.{first, affected}
use onepark_smart_park.Table.Laws.{first-holds, first-affected}
use onepark_smart_park.Parking.Model.{MonthlyCard}
use onepark_smart_park.Parking.Telemetry.{trim_space}
use onepark_smart_park.Parking.Card.{
  Cards, CardAnswers, refused, card_exists, clashes, new_card, insert_card, create_monthly_card,
  CreateMonthlyCardReq, valid_now,
}
use onepark_smart_park.Parking.Card.Steps.{active_for, active_for-clashes}

own_active :
    (tenant : ℕ) (req : CreateMonthlyCardReq) (id : ℕ)
    → active_for tenant (trim_space req.plate_no) (new_card tenant req id) ≡ true
own_active tenant req id = let same = text_eq_refl (trim_space req.plate_no) in ground arith

insert_card_taken :
    (a : CardAnswers) (tenant : ℕ) (req : CreateMonthlyCardReq) (t : Cards) {c : MonthlyCard}
    → is_empty (trim_space req.plate_no) ≡ false
    → a.write_fails ≡ false
    → first (active_for tenant (trim_space req.plate_no)) t.rows ≡ some c
    → insert_card a tenant req t ≡ (t, refused card_exists)
unfolding insert_card
insert_card_taken a tenant req t {c} full writes held =
    let p = active_for tenant (trim_space req.plate_no) in
    let n = new_card tenant req t.next_id in
    let clash =
      active_for-clashes n c tenant (trim_space req.plate_no) full (own_active tenant req t.next_id)
        (first-holds p t.rows held) in
    let many = first-affected p (clashes n) t.rows c held clash in
    let taken : (affected (clashes n) t.rows == 0) ≡ false = ground arith in simp (writes, taken)

-- A card that has expired but was not disabled keeps its place in the index, so that its plate gets
-- no new card: where the table holds a card of the tenant for the plate with status 1, whatever its
-- time of expiry, a request to create one is refused and changes nothing. Conditions: the plate is
-- not empty, the times are in order, MySQL answers, and no other request runs meanwhile.
pub create_monthly_card-blocked :
    (a : CardAnswers) (tenant : ℕ) (req : CreateMonthlyCardReq) (t : Cards) {c : MonthlyCard}
    → is_empty (trim_space req.plate_no) ≡ false
    → ltb req.start_time req.end_time ≡ true
    → a.connected ≡ true
    → a.query_fails ≡ false
    → a.write_fails ≡ false
    → a.meanwhile t ≡ t
    → first (active_for tenant (trim_space req.plate_no)) t.rows ≡ some c
    → create_monthly_card a tenant req t ≡ (t, refused card_exists)
unfolding create_monthly_card
create_monthly_card-blocked a tenant req t {c} full order on queries writes alone held =
    elim (Bool-cases (ltb 0 (affected (valid_now tenant (trim_space req.plate_no) a.now) t.rows))) [
      | inl valid ↦ simp (full, order, on, queries, valid)
      | inr expired ↦ simp (
        full,
        order,
        on,
        queries,
        expired,
        alone,
        insert_card_taken a tenant req t full writes held,
      )
    ]
