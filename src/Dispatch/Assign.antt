-- ===== src/Dispatch/Assign.antt =====
-- The choice of an assignee: internal/assign/assign.go, pool.go and staff.go.
-- Texts are ASCII: `strings.ToLower` and `strings.TrimSpace` also treat letters and spaces beyond
-- ASCII, which zone codes and skill tags do not hold.
pub mod Score
pub mod Pick
use onepark_smart_park.Prelude.{
  ℕ, zero, suc, ◌+◌, ◌-◌, ◌*◌, Bool, true, false, not, ◌&&◌, ◌||◌, Option, none, some, List, [],
  ◌∷◌, ◌++◌, map, Text, codes, text_eq, is_empty, ltb, leb, ◌==◌, select, if◌then◌else◌,
}
use onepark_smart_park.Prelude.Int.{ℤ, is_positive, eq_ℤ}
use mathlib.Core.List.{reverse}
use onepark_smart_park.Table.{affected}
use onepark_smart_park.Dispatch.Model.{
  DispatchTask, DispatchStaff, status_assigned, status_processing, staff_on_duty, staff_enabled,
}

abbrev pub skill_weight : ℕ
skill_weight = 10000

abbrev pub zone_weight : ℕ
zone_weight = 100

abbrev pub load_cap : ℕ
load_cap = 99

abbrev pub max_zone_dist : ℕ
max_zone_dist = 3

-- `Candidate`. `Load` comes from a SQL count, so it is not negative.
pub record Candidate : Type 0 where
  pub assignee_id : ℤ
  pub assignee_name : Text
  pub zone_code : Text
  pub skills : List Text
  pub load : ℕ

-- `ScoreBreakdown`
pub record ScoreBreakdown : Type 0 where
  pub skill_matched : Bool
  pub distance : ℕ
  pub load : ℕ
  pub score : ℕ

-- `strings.TrimLeft` and `strings.Trim` for a set of bytes
trim_left : (ℕ → Bool) → Text → Text
trim_left cut [] = []
trim_left cut (b ∷ s) = let rest = trim_left cut s in if cut b then rest else b ∷ s

unfoldable pub trim : (ℕ → Bool) → Text → Text
unfolding trim_left
trim cut s = reverse (trim_left cut (reverse (trim_left cut s)))

is_space : ℕ → Bool
is_space b = b == b' ' || (leb 9 b && leb b 13)

unfoldable pub trim_space : Text → Text
unfolding trim is_space
trim_space = trim is_space

lower_byte : ℕ → ℕ
lower_byte b = if leb b'A' b && leb b b'Z' then b + 32 else b

unfoldable pub to_lower : Text → Text
unfolding lower_byte
to_lower = map lower_byte

-- `strings.Split` at one byte: the first piece and the pieces after it, so never empty.
unfoldable pub split : ℕ → Text → Text × List Text
split sep [] = ([], [])
split sep (b ∷ s) =
    let (piece, pieces) = split sep s in
    if b == sep then ([], piece ∷ pieces) else (b ∷ piece, pieces)

unfoldable pub parts : Text → Text × List Text
unfolding trim split
parts s = split b'-' (trim (λ b. b == b'-' || b == b'/') s)

key_of_two : Text × List Text → Text
key_of_two (p, []) = p
key_of_two (p, q ∷ _) = p ++ codes "-" ++ q

unfoldable pub floor_key : Text → Text
unfolding parts key_of_two
floor_key s = key_of_two (parts s)

unfoldable pub building_key : Text → Text
unfolding parts
building_key s = (parts s).0

-- `ZoneDistance`: 0 same zone, 1 same floor, 2 same building, 3 otherwise or a code missing.
unfoldable pub zone_distance : Text → Text → ℕ
zone_distance a b =
    if is_empty a || is_empty b
    then 3
    else if text_eq a b
    then 0
    else if text_eq (floor_key a) (floor_key b)
    then 1
    else if text_eq (building_key a) (building_key b)
    then 2
    else 3

-- the loop of `HasSkill`
any_skill : Text → List Text → Bool
any_skill want [] = false
any_skill want (s ∷ skills) = text_eq (to_lower (trim_space s)) want || any_skill want skills

unfoldable pub has_skill : Candidate → Text → Bool
unfolding any_skill to_lower trim_space
has_skill c skill =
    let want = to_lower (trim_space skill) in
    if is_empty want then false else any_skill want c.skills

-- `Explain`
unfoldable pub explain : Text → Text → Candidate → ScoreBreakdown
explain target_zone required_skill c =
    let matched = is_empty required_skill || has_skill c required_skill in
    let dist = zone_distance target_zone c.zone_code in
    let load = if ltb load_cap c.load then load_cap else c.load in
    record {
      skill_matched = matched;
      distance = dist;
      load = c.load;
      score =
          (if matched then skill_weight else 0)
          + zone_weight * (max_zone_dist - dist)
          + (load_cap - load);
    }

-- The loop of `Pick` over `candidates[1:]`: a later candidate wins only by a higher score.
unfoldable pub pick_from : Text → Text → Candidate → List Candidate → Candidate
pick_from zone skill best [] = best
pick_from zone skill best (c ∷ cs) =
    pick_from zone skill
      (if ltb (explain zone skill best).score (explain zone skill c).score then c else best) cs

-- `Pick`: `none` is `ok == false`.
unfoldable pub pick : Text → Text → List Candidate → Option Candidate
unfolding pick_from
pick zone skill [] = none
pick zone skill (c ∷ cs) = some (pick_from zone skill c cs)

-- `Without`
unfoldable pub without : List Candidate → ℤ → List Candidate
without cs exclude_id =
    if is_positive exclude_id then select (λ c. not (eq_ℤ c.assignee_id exclude_id)) cs else cs

-- `SkillList`
unfoldable pub skill_list : DispatchStaff → List Text
unfolding trim_space split
skill_list s =
    if is_empty (trim_space s.skills)
    then []
    else let (piece, pieces) = split b',' s.skills in
      select (λ v. not (is_empty v)) (map trim_space (piece ∷ pieces))

-- One entry of `loadByAssignee`: COUNT(*) of the tasks in hand. A staff member without a row in
-- the grouped result reads 0 from the Go map, as the count does.
unfoldable pub load_of : List DispatchTask → ℤ → ℕ
load_of tasks id =
    affected
      (λ (t : DispatchTask).
        is_positive t.assignee_id
        && (t.status == status_assigned || t.status == status_processing)
        && eq_ℤ t.assignee_id id)
      tasks

-- `LoadStaffCandidates` without its driver errors
unfoldable pub staff_candidates : List DispatchStaff → List DispatchTask → List Candidate
unfolding load_of skill_list
staff_candidates staff tasks =
    map
      (λ (s : DispatchStaff). record {
        assignee_id = s.staff_id;
        assignee_name = s.name;
        zone_code = s.zone_code;
        skills = skill_list s;
        load = load_of tasks s.staff_id;
      })
      (select (λ (s : DispatchStaff). s.on_duty == staff_on_duty && s.status == staff_enabled)
        staff)

-- `Pool`: the staff table first, the history of assignments if that gives nobody.
unfoldable pub pool : List Candidate → List Candidate → List Candidate
pool [] history = history
pool (c ∷ staff) history = c ∷ staff
