-- ===== src/Parking/Card/Valid.antt =====
-- The card requests keep the table valid.
use onepark_smart_park.Prelude.{
  ℕ, ◌+◌, ◌<◌, ◌≡◌, refl, true, false, Option, none, some, List, [], ◌∷◌, All, All-map, All-append,
  ◌==◌, ==_iff, inl, inr, Bool-cases, arith, ltb, ◌*◌,
}
use onepark_smart_park.Prelude.Int.{ℤ, pos_part}
use onepark_smart_park.Table.{first, affected}
use onepark_smart_park.Table.Laws.{first-holds}
use onepark_smart_park.Parking.Model.{MonthlyCard}
use onepark_smart_park.Parking.Telemetry.{second}
use onepark_smart_park.Parking.Card.{
  Cards, CardAnswers, clashes, same_id, clashes_elsewhere, renewed, disabled, index_allows,
  new_card, insert_card, create_monthly_card, update_renewed, renew_found, renew_monthly_card,
  disable_found, disable_monthly_card, CreateMonthlyCardReq, own_card, RenewMonthlyCardReq,
}
use onepark_smart_park.Parking.Card.Unique.{
  IsValid, Pairwise-append_last, affected-none, new-Apart, update-IsValid,
}

allowed :
    (end : ℕ) (c r : MonthlyCard) (rows : List MonthlyCard)
    → index_allows end (first (same_id c.id) rows) rows ≡ true
    → first (same_id c.id) rows ≡ some r
    → All (λ x. same_id c.id x ≡ false → clashes (renewed end r) x ≡ false) rows
allowed end c r rows free e =
    let own = first-holds (same_id c.id) rows e in
    let zero = rw e at free in
    All-map (λ x. clashes_elsewhere (renewed end r) x ≡ false)
      (λ x. same_id c.id x ≡ false → clashes (renewed end r) x ≡ false)
      (λ x no_clash other. ground arith) rows
      (affected-none (clashes_elsewhere (renewed end r)) rows ((==_iff _ 0).0 zero))

insert_card-IsValid :
    (a : CardAnswers) (tenant : ℕ) (req : CreateMonthlyCardReq) (t : Cards)
    → IsValid t
    → IsValid (insert_card a tenant req t).0
unfolding insert_card
insert_card-IsValid a tenant req t v = elim (Bool-cases a.write_fails) [
  | inl fails ↦ simp fails v
  | inr works ↦ elim (Bool-cases (affected (clashes (new_card tenant req t.next_id)) t.rows == 0)) [
    | inl free ↦
        let c = new_card tenant req t.next_id in
        let alone = affected-none (clashes c) t.rows ((==_iff _ 0).0 free) in
        simp (works, free)
          (record {
            apart = Pairwise-append_last t.rows c v.apart (new-Apart c t.rows v.below alone);
            below =
                All-append (λ d. d.id < t.next_id + 1) t.rows (c ∷ [])
                  (All-map (λ d. d.id < t.next_id) (λ d. d.id < t.next_id + 1)
                    (λ d lt. omega (arith, lt)) t.rows v.below)
                  (omega arith, tt);
          })
    | inr taken ↦ simp (works, taken) v
  ]
]

update_renewed-IsValid :
    (a : CardAnswers) (c : MonthlyCard) (end : ℕ) (t : Cards)
    → IsValid t
    → IsValid (update_renewed a c end t).0
unfolding update_renewed
update_renewed-IsValid a c end t v = elim (Bool-cases a.write_fails) [
  | inl fails ↦ simp fails v
  | inr works ↦ elim (Bool-cases (index_allows end (first (same_id c.id) t.rows) t.rows)) [
    | inl free ↦
        simp (works, free)
          (update-IsValid t c.id (renewed end) (λ d. refl) (λ r e. allowed end c r t.rows free e) v)
    | inr taken ↦ simp (works, taken) v
  ]
]

disabled-clashes :
    (c : MonthlyCard) (rows : List MonthlyCard) (id : ℕ)
    → All (λ x. same_id id x ≡ false → clashes (disabled c) x ≡ false) rows
unfolding clashes
disabled-clashes c [] id = tt
disabled-clashes c (x ∷ rows) id = ((λ other. refl), disabled-clashes c rows id)

pub create_monthly_card-IsValid :
    (a : CardAnswers) (tenant : ℕ) (req : CreateMonthlyCardReq) (t : Cards)
    → ((seen : Cards) → IsValid seen → IsValid (a.meanwhile seen))
    → IsValid t
    → IsValid (create_monthly_card a tenant req t).0
unfolding create_monthly_card
create_monthly_card-IsValid a tenant req t keeps v =
    let inserted = insert_card-IsValid a tenant req (a.meanwhile t) (keeps t v) in ground arith

renew_found-IsValid :
    (a : CardAnswers) (end : ℕ) (t : Cards)
    → ((seen : Cards) → IsValid seen → IsValid (a.meanwhile seen))
    → IsValid t
    → (found : Option MonthlyCard) → IsValid (renew_found a end t found).0
renew_found-IsValid a end t keeps v none = v
renew_found-IsValid a end t keeps v (some c) = elim (Bool-cases (ltb c.end_time end)) [
  | inl later ↦ rw later (update_renewed-IsValid a c end (a.meanwhile t) (keeps t v))
  | inr early ↦ rw early v
]

pub renew_monthly_card-IsValid :
    (a : CardAnswers) (tenant : ℕ) (req : RenewMonthlyCardReq) (t : Cards)
    → ((seen : Cards) → IsValid seen → IsValid (a.meanwhile seen))
    → IsValid t
    → IsValid (renew_monthly_card a tenant req t).0
unfolding renew_monthly_card
renew_monthly_card-IsValid a tenant req t keeps v =
    let found =
      renew_found-IsValid a (req.end_time * second) t keeps v
        (first (own_card (pos_part req.id) tenant) t.rows) in
    ground arith

disable_found-IsValid :
    (a : CardAnswers) (t : Cards)
    → ((seen : Cards) → IsValid seen → IsValid (a.meanwhile seen))
    → IsValid t
    → (found : Option MonthlyCard) → IsValid (disable_found a t found).0
unfolding disable_found
disable_found-IsValid a t keeps v none = v
disable_found-IsValid a t keeps v (some c) =
    let seen = a.meanwhile t in
    let written =
      update-IsValid seen c.id disabled (λ d. refl) (λ r e. disabled-clashes r seen.rows c.id)
        (keeps t v) in
    ground arith

pub disable_monthly_card-IsValid :
    (a : CardAnswers) (tenant : ℕ) (id : ℤ) (t : Cards)
    → ((seen : Cards) → IsValid seen → IsValid (a.meanwhile seen))
    → IsValid t
    → IsValid (disable_monthly_card a tenant id t).0
unfolding disable_monthly_card
disable_monthly_card-IsValid a tenant id t keeps v =
    let found = disable_found-IsValid a t keeps v (first (own_card (pos_part id) tenant) t.rows) in
    ground arith
