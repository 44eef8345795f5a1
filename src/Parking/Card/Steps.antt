-- ===== src/Parking/Card/Steps.antt =====
-- Sequences of card requests.
use onepark_smart_park.Prelude.{
  ℕ, ◌≤◌, ◌≡◌, refl, Bool, true, false, List, [], ◌∷◌, Text, All, ◌==◌, is_empty, inl, inr,
  Bool-cases, arith, ◌&&◌, text_eq, text_eq_refl, text_eq→≡,
}
use onepark_smart_park.Prelude.Int.{ℤ}
use onepark_smart_park.Table.{affected}
use onepark_smart_park.Parking.Model.{MonthlyCard}
use onepark_smart_park.Parking.Card.{
  Cards, CardAnswers, clashes, is_active, create_monthly_card, renew_monthly_card,
  disable_monthly_card, CreateMonthlyCardReq, RenewMonthlyCardReq,
}
use onepark_smart_park.Parking.Card.Unique.{Apart, Pairwise, IsValid}
use onepark_smart_park.Parking.Card.Valid.{
  create_monthly_card-IsValid, renew_monthly_card-IsValid, disable_monthly_card-IsValid,
}

-- One request, where the requests that run meanwhile keep the table valid.
pub data CardStep : Cards → Cards → Type 0 where
  create :
      (a : CardAnswers) (tenant : ℕ) (req : CreateMonthlyCardReq) {t : Cards}
      → ((seen : Cards) → IsValid seen → IsValid (a.meanwhile seen))
      → CardStep t (create_monthly_card a tenant req t).0
  renew :
      (a : CardAnswers) (tenant : ℕ) (req : RenewMonthlyCardReq) {t : Cards}
      → ((seen : Cards) → IsValid seen → IsValid (a.meanwhile seen))
      → CardStep t (renew_monthly_card a tenant req t).0
  disable :
      (a : CardAnswers) (tenant : ℕ) (id : ℤ) {t : Cards}
      → ((seen : Cards) → IsValid seen → IsValid (a.meanwhile seen))
      → CardStep t (disable_monthly_card a tenant id t).0

pub data CardSteps : Cards → Cards → Type 0 where
  stay : {t : Cards} → CardSteps t t
  more : {t u w : Cards} → CardStep t u → CardSteps u w → CardSteps t w

CardStep-IsValid : {t u : Cards} → CardStep t u → IsValid t → IsValid u
CardStep-IsValid (create a tenant req keeps) v = create_monthly_card-IsValid a tenant req _ keeps v
CardStep-IsValid (renew a tenant req keeps) v = renew_monthly_card-IsValid a tenant req _ keeps v
CardStep-IsValid (disable a tenant id keeps) v = disable_monthly_card-IsValid a tenant id _ keeps v

CardSteps-IsValid : {t u : Cards} → CardSteps t u → IsValid t → IsValid u
CardSteps-IsValid stay v = v
CardSteps-IsValid (more step steps) v = CardSteps-IsValid steps (CardStep-IsValid step v)

abbrev pub active_for : ℕ → Text → MonthlyCard → Bool
active_for tenant plate c = is_active c && (c.tenant_id == tenant && text_eq c.plate_no plate)

pub active_for-clashes :
    (c d : MonthlyCard) (tenant : ℕ) (plate : Text)
    → is_empty plate ≡ false
    → active_for tenant plate c ≡ true
    → active_for tenant plate d ≡ true
    → clashes c d ≡ true
unfolding clashes
active_for-clashes c d tenant plate full own also =
    let one = text_eq→≡ c.plate_no plate (ground arith) in
    let two = text_eq→≡ d.plate_no plate (ground arith) in
    let same : text_eq c.plate_no d.plate_no ≡ true = rw (one, two) (text_eq_refl plate) in
    let some_plate : is_empty c.plate_no ≡ false = rw one full in ground arith

Apart-none :
    (c : MonthlyCard) (tenant : ℕ) (plate : Text) (cs : List MonthlyCard)
    → is_empty plate ≡ false
    → active_for tenant plate c ≡ true
    → All (Apart c) cs
    → affected (active_for tenant plate) cs ≡ 0
Apart-none c tenant plate [] full own h = refl
Apart-none c tenant plate (d ∷ cs) full own h = elim (Bool-cases (active_for tenant plate d)) [
  | inl also ↦
      let clash = active_for-clashes c d tenant plate full own also in let apart = h.0.1 in cc
  | inr other ↦ rw other (Apart-none c tenant plate cs full own h.1)
]

Pairwise-one :
    (tenant : ℕ) (plate : Text) (cs : List MonthlyCard)
    → is_empty plate ≡ false
    → Pairwise cs
    → affected (active_for tenant plate) cs ≤ 1
Pairwise-one tenant plate [] full p = omega arith
Pairwise-one tenant plate (c ∷ cs) full p = elim (Bool-cases (active_for tenant plate c)) [
  | inl own ↦ rw (own, Apart-none c tenant plate cs full own p.0) (omega arith)
  | inr other ↦ rw other (Pairwise-one tenant plate cs full p.1)
]

-- From an empty table, any sequence of requests to create, renew or disable monthly cards leaves a
-- tenant at most one active card for a plate, if the requests that run during another keep the
-- table valid.
pub CardSteps-one_active :
    (next_id tenant : ℕ) (plate : Text) {t : Cards}
    → is_empty plate ≡ false
    → CardSteps (record { rows = []; next_id = next_id }) t
    → affected (active_for tenant plate) t.rows ≤ 1
CardSteps-one_active next_id tenant plate {t} full steps =
    let v = CardSteps-IsValid steps (record { apart = tt; below = tt }) in
    Pairwise-one tenant plate t.rows full v.apart
