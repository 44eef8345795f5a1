-- ===== src/Dispatch/Store.antt =====
-- What the handlers of dispatch-service share: the database, the driver, errors, and the request's
-- context. A handler returns its result and the database after it.
-- Log remarks and log lines are left out: nothing reads them.
use onepark_smart_park.Prelude.{
  ℕ, ◌+◌, ◌%◌, ◌/◌, Bool, true, false, ◌&&◌, not, Option, none, some, List, [], ◌∷◌, ◌++◌, Text,
  codes, if◌then◌else◌, contains,
}
use onepark_smart_park.Prelude.Int.{ℤ}
use onepark_smart_park.Dispatch.Model.{DispatchTask, DispatchTaskLog, DispatchStaff}
use onepark_smart_park.Dispatch.Assign.{Candidate}

-- The error codes that the handlers answer with (common/errorx/codes.go, internal/ecode).
pub data Code : Type 0 where
  dep_connect not_found bad_request internal : Code
  task_not_found task_query_failed task_status_invalid task_conflict task_update_failed : Code

pub data Result {κ} (R : Type κ) : Type κ where
  err : Code → Result R
  ok : R → Result R

infixl 5 ◌>>=◌ ◌>>◌
abbrev pub ◌>>=◌ {κ μ} : {R : Type κ} → {S : Type μ} → Result R → (R → Result S) → Result S
err code >>= continue = err code
ok r >>= continue = continue r

abbrev pub ◌>>◌ {κ μ} : {R : Type κ} → {S : Type μ} → Result R → Result S → Result S
err code >> after = err code
ok _ >> after = after

abbrev pub refuse_if : Bool → Code → Result (Unit {0})
refuse_if false code = ok tt
refuse_if true code = err code

abbrev pub some_or {ℓ} : {A : Type ℓ} → Option A → Code → Result A
some_or (some a) e = ok a
some_or none e = err e

pub record Db : Type 0 where
  pub tasks : List DispatchTask
  pub logs : List DispatchTaskLog
  pub staff : List DispatchStaff

-- `ctxdata`: the tenant and user that the gateway put into the request's context.
pub record RequestContext : Type 0 where
  pub tenant_id : ℕ
  pub user_id : ℕ

-- How the driver answers during one call of a handler: whether a statement fails, and the result
-- of the two aggregate queries whose value rests on MySQL's collation.
pub record Driver : Type 0 where
  pub connected : Bool  -- `svcCtx.DB != nil`
  pub load_fails : Bool
  pub pool_fails : Bool
  pub update_fails : Bool
  pub log_fails : Bool
  pub history : List DispatchTask → List Candidate  -- the query of `LoadCandidates`
  pub staff_name_fails : Bool
  pub max_name : List DispatchTask → ℤ → Option Text  -- MAX(assignee_name); `none` is an error

-- `IsDuplicateKeyOn`, on the text of an error
unfoldable pub is_duplicate_key_on : Option Text → Text → Bool
unfolding contains
is_duplicate_key_on none index = false
is_duplicate_key_on (some msg) index =
    if not (contains msg (codes "1062")) && not (contains msg (codes "Duplicate entry"))
    then false
    else contains msg index

-- `taskNoSeq`, a uint32 counter, and `NewTaskNo`. The date part of the number is an argument.
abbrev pub u32 : ℕ → ℕ
u32 n = n % 4294967296

abbrev pub digit : ℕ → ℕ
digit n = b'0' + n % 10

-- `%03d` below 1000
unfoldable pub pad3 : ℕ → Text
pad3 n = digit (n / 100) ∷ digit (n / 10) ∷ digit n ∷ []

unfoldable pub new_task_no : Text → ℕ → Text × ℕ
unfolding pad3
new_task_no stamp seq = let n = u32 (seq + 1) in (codes "DT" ++ stamp ++ pad3 (n % 1000), n)
