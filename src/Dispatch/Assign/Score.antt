-- ===== src/Dispatch/Assign/Score.antt =====
-- The weights of the score: 10000 for the skill, 100 a step of distance, 99 for the load.
use Prim.Native.Nat.{min}
use onepark_smart_park.Prelude.{◌≤◌, ◌<◌, ◌≡◌, ◌↔◌, ◌⊎◌, true, false, Text, arith}
use onepark_smart_park.Dispatch.Assign.{Candidate, ScoreBreakdown, explain, zone_distance, load_cap}

pub zone_distance-le : (a b : Text) → zone_distance a b ≤ 3
unfolding zone_distance
zone_distance-le a b = ground arith

-- `a` comes after `b` in the order that the package comment promises: skill, then distance, then
-- load, the load counted up to 99.
abbrev pub Worse : ScoreBreakdown → ScoreBreakdown → Type 0
Worse a b =
    ((a.skill_matched ≡ false) × (b.skill_matched ≡ true))
    ⊎ ((a.skill_matched ≡ b.skill_matched)
        × ((b.distance < a.distance)
            ⊎ ((a.distance ≡ b.distance) × (min load_cap b.load < min load_cap a.load))))

-- The weighted sum orders candidates exactly as skill before distance before capped load.
pub score-lt-iff-Worse :
    (zone skill : Text) (c d : Candidate)
    → ((explain zone skill c).score < (explain zone skill d).score)
      ↔ Worse (explain zone skill c) (explain zone skill d)
unfolding explain
score-lt-iff-Worse zone skill c d = (
  λ h. ground (arith, zone_distance-le zone c.zone_code, zone_distance-le zone d.zone_code),
  λ h. ground (arith, zone_distance-le zone c.zone_code, zone_distance-le zone d.zone_code),
)
