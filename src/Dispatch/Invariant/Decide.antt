-- ===== src/Dispatch/Invariant/Decide.antt =====
-- When a task that nobody took up is handed on, and when it is released.
use onepark_smart_park.Prelude.{
  ◌+◌, ◌≡◌, ◌≢◌, true, some, List, [], All, arith, inl, inr, ◌↔◌, ◌⊎◌, Option-cases,
}
use onepark_smart_park.Prelude.Int.{ℤ, pos, is_positive, ◌≤ℤ◌}
use onepark_smart_park.Dispatch.Model.{DispatchTask}
use onepark_smart_park.Dispatch.Assign.{Candidate, pick, without}
use onepark_smart_park.Dispatch.Assign.Pick.{pick_lem, pick-All, without-All, without-ne}
use onepark_smart_park.Dispatch.Invariant.{HasId}
use onepark_smart_park.Dispatch.Reassign.{reassign, release, limit_of, decide_reassign}

-- A task is handed on only below the limit, to somebody of the pool who has an id and who is not
-- the person that let it expire.
pub decide_reassign-reassign :
    (t : DispatchTask) (cs : List Candidate) (max_reassign : ℤ) {best : Candidate}
    → All HasId cs
    → decide_reassign t cs max_reassign ≡ reassign best
    → (pos (t.reassign_count + 1) ≤ℤ limit_of max_reassign)
      × HasId best
      × (is_positive t.assignee_id ≡ true → best.assignee_id ≢ t.assignee_id)
unfolding decide_reassign
decide_reassign-reassign t cs max_reassign {best} ids h =
    let chosen : pick t.zone_code t.required_skill (without cs t.assignee_id) ≡ some best =
      ground arith in
    (
      ground arith,
      pick-All t.zone_code t.required_skill HasId (without cs t.assignee_id) best
          (without-All HasId cs t.assignee_id ids) chosen,
      λ held.
          pick-All t.zone_code t.required_skill (λ c. c.assignee_id ≢ t.assignee_id)
            (without cs t.assignee_id) best (without-ne cs t.assignee_id held) chosen,
    )

-- A task is given back to the pending pool exactly when its count has reached the limit or there
-- is nobody else in the pool.
pub decide_reassign-release :
    (t : DispatchTask) (cs : List Candidate) (max_reassign : ℤ)
    → (decide_reassign t cs max_reassign ≡ release)
      ↔ ((limit_of max_reassign ≤ℤ pos t.reassign_count) ⊎ (without cs t.assignee_id ≡ []))
unfolding decide_reassign
decide_reassign-release t cs max_reassign =
    let others = without cs t.assignee_id in
    let nobody = (pick_lem t.zone_code t.required_skill others).0 in
    (
      λ h. elim (Option-cases (pick t.zone_code t.required_skill others)) [
        | inl e ↦ inr (nobody.0 e)
        | inr (c, e) ↦ inl (ground arith)
      ],
      λ h. elim h [ inl full ↦ ground arith | inr empty ↦ let e = nobody.1 empty in ground arith ],
    )
