-- ===== src/Access/Grant.antt =====
-- Granting and revoking access: internal/logic/{grantaccesslogic,revokeaccesslogic}.go and
-- `permissionModel` of internal/model/accesspermission_impl.go.
use onepark_smart_park.Prelude.{
  ℕ, ◌*◌, Bool, false, ◌&&◌, ◌||◌, not, Option, none, some, List, [], ◌∷◌, ◌++◌, map, length,
  select, Text, text_eq, is_empty, ltb, ◌==◌, Result, ok, err, if◌then◌else◌, ◌>>=◌, ◌>>◌,
}
use onepark_smart_park.Prelude.Int.{ℤ, pos, is_zero, is_positive, eq_ℤ, ltb_ℤ}
use onepark_smart_park.Strings.{trim_space}
use onepark_smart_park.Table.{first, update, affected}
use onepark_smart_park.Workorder.Status.{has_role}
use onepark_smart_park.Access.{
  TimeWindow, Json, AccessPermission, permission_status_valid, parse_window_minutes, Caller,
}

abbrev pub is_key : ℤ → ℤ → Text → AccessPermission → Bool
is_key tenant person device p =
    eq_ℤ p.tenant_id tenant && (eq_ℤ p.person_id person && text_eq p.device_id device)

abbrev pub same_key : AccessPermission → AccessPermission → Bool
same_key p = is_key p.tenant_id p.person_id p.device_id

-- The columns that a repeated grant writes over
abbrev pub regrant : AccessPermission → AccessPermission → AccessPermission
regrant p old = record old {
  time_window = p.time_window;
  whitelist = p.whitelist;
  expire_at = p.expire_at;
  status = p.status;
  updated_at = p.updated_at;
}

-- INSERT ... ON DUPLICATE KEY UPDATE of one row
unfoldable pub upsert : AccessPermission → List AccessPermission → List AccessPermission
upsert p ps =
    if affected (same_key p) ps == 0 then ps ++ p ∷ [] else update (same_key p) (regrant p) ps

-- `Grant`
unfoldable pub grant : List AccessPermission → List AccessPermission → List AccessPermission
grant [] ps = ps
grant (p ∷ new) ps = grant new (upsert p ps)

-- `FindEffective`
unfoldable pub find_effective : ℤ → ℤ → Text → List AccessPermission → Option AccessPermission
find_effective tenant person device ps =
    first (λ p. is_key tenant person device p && eq_ℤ p.status permission_status_valid) ps

abbrev pub has_id : ℤ → List ℤ → Bool
has_id n [] = false
has_id n (m ∷ ms) = eq_ℤ m n || has_id n ms

abbrev pub has_text : Text → List Text → Bool
has_text t [] = false
has_text t (u ∷ us) = text_eq u t || has_text t us

-- `Revoke`: the rows left, and how many went
unfoldable pub revoke : ℤ → List ℤ → List Text → List AccessPermission → List AccessPermission × ℕ
revoke tenant persons devices ps =
    let hit = λ (p : AccessPermission).
      eq_ℤ p.tenant_id tenant && (has_id p.person_id persons && has_text p.device_id devices) in
    (select (λ p. not (hit p)) ps, affected hit ps)

pub record GrantAccessReq : Type 0 where
  pub person_ids : List ℤ
  pub device_ids : List Text
  pub time_window : Option TimeWindow
  pub whitelist : Bool
  pub expire_at : Text

pub record RevokeAccessReq : Type 0 where
  pub person_ids : List ℤ
  pub device_ids : List Text

pub data GrantError : Type 0 where
  no_tenant forbidden no_store no_targets too_many bad_start bad_end no_days bad_day bad_time :
      GrantError
  already_expired not_granted not_revoked nothing_revoked : GrantError

-- The first loop of `normalizeTargets`; `seen` are the ids that it has taken.
unfoldable pub distinct_ids : List ℤ → List ℤ → List ℤ
distinct_ids taken [] = []
distinct_ids taken (n ∷ ns) =
    let skip = distinct_ids taken ns in
    let take = distinct_ids (n ∷ taken) ns in
    if not (is_positive n) || has_id n taken then skip else n ∷ take

-- The second
unfoldable pub distinct_texts : List Text → List Text → List Text
unfolding trim_space
distinct_texts taken [] = []
distinct_texts taken (t ∷ ts) =
    let skip = distinct_texts taken ts in
    let take = distinct_texts (trim_space t ∷ taken) ts in
    if is_empty (trim_space t) || has_text (trim_space t) taken then skip else trim_space t ∷ take

-- `normalizeTargets`
unfoldable pub normalize_targets : List ℤ → List Text → Result GrantError (List ℤ × List Text)
unfolding distinct_ids distinct_texts
normalize_targets persons devices =
    let ps = distinct_ids [] persons in
    let ds = distinct_texts [] devices in
    if length ps == 0 || length ds == 0 then err no_targets else ok (ps, ds)

abbrev pub check_time : Option ℕ → GrantError → Result GrantError (Unit {0})
check_time none e = err e
check_time (some m) e = ok tt

-- The loop over the days
abbrev pub check_days : List ℤ → Result GrantError (Unit {0})
check_days [] = ok tt
check_days (d ∷ ds) = if ltb_ℤ d (pos 1) || ltb_ℤ (pos 7) d then err bad_day else check_days ds

abbrev pub check_some_day : List ℤ → Result GrantError (Unit {0})
check_some_day [] = err no_days
check_some_day (d ∷ ds) = ok tt

-- `marshalTimeWindow`
unfoldable pub marshal_time_window : Json → Option TimeWindow → Result GrantError (Option Text)
unfolding parse_window_minutes
marshal_time_window json none = ok none
marshal_time_window json (some w) = do
  check_time (parse_window_minutes w.start) bad_start
  check_time (parse_window_minutes w.end) bad_end
  check_some_day w.days
  check_days w.days
  ok (some (json.marshal w))

abbrev pub later_than : ℕ → Option ℕ → Result GrantError (Option ℕ)
later_than now none = err bad_time
later_than now (some at) = if ltb now at then ok (some at) else err already_expired

-- `parseExpireAt`; RFC 3339 is read by `parse_time`.
unfoldable pub parse_expire_at : (Text → Option ℕ) → ℕ → Text → Result GrantError (Option ℕ)
unfolding trim_space
parse_expire_at parse_time now s =
    if is_empty (trim_space s) then ok none else later_than now (parse_time (trim_space s))

abbrev pub max_grant_items : ℕ
max_grant_items = 500

-- May manage permissions: the administrators and the guards
abbrev pub may_manage : List ℕ → Bool
may_manage roles = has_role roles 1 || (has_role roles 2 || has_role roles 6)

abbrev pub permission_for : ℤ → ℕ → Option Text → Bool → Option ℕ → ℤ → Text → AccessPermission
permission_for tenant now window whitelist expire person device = record {
  tenant_id = tenant;
  person_id = person;
  device_id = device;
  time_window = window;
  whitelist = if whitelist then pos 1 else pos 0;
  status = permission_status_valid;
  expire_at = expire;
  created_at = now;
  updated_at = now;
}

-- The two loops of `GrantAccess`: each person with each device
unfoldable pub permissions_for :
    (ℤ → Text → AccessPermission) → List ℤ → List Text → List AccessPermission
permissions_for make [] ds = []
permissions_for make (p ∷ ps) ds = map (make p) ds ++ permissions_for make ps ds

-- How the service's dependencies answer
pub record Answers : Type 0 where
  pub has_db : Bool
  pub grant_fails : Bool
  pub revoke_fails : Bool
  pub now : ℕ
  pub parse_time : Text → Option ℕ

abbrev pub at_most : ℕ → List ℤ × List Text → Result GrantError (List ℤ × List Text)
at_most max (ps, ds) = if ltb max (length ps * length ds) then err too_many else ok (ps, ds)

-- The checks of `GrantAccess`, and the rows that it makes
unfoldable pub rows_of :
    Json → Answers → Caller → GrantAccessReq → Result GrantError (List AccessPermission)
rows_of json a caller req = do
  targets ← normalize_targets req.person_ids req.device_ids
  (persons, devices) ← at_most max_grant_items targets
  window ← marshal_time_window json req.time_window
  expire ← parse_expire_at a.parse_time a.now req.expire_at
  ok (
      permissions_for (permission_for caller.tenant_id a.now window req.whitelist expire) persons
        devices)

abbrev pub grant_rows :
    Answers
    → List AccessPermission
    → Result GrantError (List AccessPermission)
    → List AccessPermission × Result GrantError ℕ
grant_rows a ps (err e) = (ps, err e)
grant_rows a ps (ok rows) =
    if a.grant_fails then (ps, err not_granted) else (grant rows ps, ok (length rows))

-- `GrantAccess`
unfoldable pub grant_access :
    Json
    → Answers
    → Caller
    → GrantAccessReq
    → List AccessPermission
    → List AccessPermission × Result GrantError ℕ
grant_access json a caller req ps =
    if is_zero caller.tenant_id
    then (ps, err no_tenant)
    else if not (may_manage caller.roles)
    then (ps, err forbidden)
    else if not a.has_db
    then (ps, err no_store)
    else grant_rows a ps (rows_of json a caller req)

abbrev pub revoked :
    List AccessPermission → List AccessPermission × ℕ → List AccessPermission × Result GrantError ℕ
revoked before (after, n) = (after, if n == 0 then err nothing_revoked else ok n)

abbrev pub revoke_targets :
    Answers
    → Caller
    → List AccessPermission
    → Result GrantError (List ℤ × List Text)
    → List AccessPermission × Result GrantError ℕ
revoke_targets a caller ps (err e) = (ps, err e)
revoke_targets a caller ps (ok (persons, devices)) =
    if a.revoke_fails
    then (ps, err not_revoked)
    else revoked ps (revoke caller.tenant_id persons devices ps)

-- `RevokeAccess`
unfoldable pub revoke_access :
    Answers
    → Caller
    → RevokeAccessReq
    → List AccessPermission
    → List AccessPermission × Result GrantError ℕ
unfolding revoke
revoke_access a caller req ps =
    if is_zero caller.tenant_id
    then (ps, err no_tenant)
    else if not (may_manage caller.roles)
    then (ps, err forbidden)
    else if not a.has_db
    then (ps, err no_store)
    else revoke_targets a caller ps (normalize_targets req.person_ids req.device_ids)
