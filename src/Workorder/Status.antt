-- ===== src/Workorder/Status.antt =====
-- Moving a work order on: internal/logic/updateworkorderstatuslogic.go and common/rbac.
use onepark_smart_park.Prelude.{
  ℕ, ◌+◌, Bool, false, ◌&&◌, ◌||◌, not, Option, none, some, List, [], ◌∷◌, ◌++◌, Text, ◌==◌,
  if◌then◌else◌,
}
use onepark_smart_park.Table.{first, update, affected}
use onepark_smart_park.Workorder.Fsm.{next_status, status_completed, status_closed}

-- The columns that the handler reads or writes.
pub record WorkOrder : Type 0 where
  pub id : ℕ
  pub tenant_id : ℕ
  pub order_no : Text
  pub reporter_id : ℕ
  pub assignee_id : ℕ
  pub status : ℕ
  pub finished_at : Option ℕ
  pub version : ℕ

pub record WorkOrderFlow : Type 0 where
  pub tenant_id : ℕ
  pub work_order_id : ℕ
  pub from_status : ℕ
  pub to_status : ℕ
  pub action : Text
  pub operator_id : ℕ
  pub remark : Text

pub record WorkorderDb : Type 0 where
  pub orders : List WorkOrder
  pub flows : List WorkOrderFlow

-- The gateway's headers, with the roles as `ParseRoleIds` reads them.
pub record Caller : Type 0 where
  pub tenant_id : ℕ
  pub user_id : ℕ
  pub roles : List ℕ

pub record UpdateWorkOrderStatusReq : Type 0 where
  pub id : ℕ
  pub action : Text
  pub remark : Text

pub record WorkOrderResp : Type 0 where
  pub id : ℕ
  pub order_no : Text
  pub status : ℕ

pub data UpdateError : Type 0 where
  not_found load_failed not_assignee not_reporter invalid_action conflict update_failed :
      UpdateError

pub data Outcome : Type 0 where
  failed : UpdateError → Outcome
  moved : WorkOrderResp → Outcome

-- How MySQL answers, the clock, and what other requests do between reading and writing.
pub record Mysql : Type 0 where
  pub load_fails : Bool
  pub update_fails : Bool
  pub flow_fails : Bool
  pub now : ℕ
  pub meanwhile : WorkorderDb → WorkorderDb

abbrev pub role_repair : ℕ
role_repair = 4

abbrev pub role_owner : ℕ
role_owner = 5

-- `HasRole`
unfoldable pub has_role : List ℕ → ℕ → Bool
has_role [] role = false
has_role (r ∷ roles) role = r == role || has_role roles role

-- `setsFinishedAt`
abbrev pub sets_finished_at : ℕ → Bool
sets_finished_at next = next == status_completed || next == status_closed

abbrev pub set_moved : ℕ → ℕ → WorkOrder → WorkOrder
set_moved now next o = record o {
  status = next;
  version = o.version + 1;
  finished_at = if sets_finished_at next then some now else o.finished_at;
}

abbrev pub unmoved : ℕ → WorkOrder → WorkOrder → Bool
unmoved tenant seen o = o.id == seen.id && (o.tenant_id == tenant && o.version == seen.version)

abbrev pub flow_of : Caller → UpdateWorkOrderStatusReq → WorkOrder → ℕ → WorkOrderFlow
flow_of caller req o next = record {
  tenant_id = caller.tenant_id;
  work_order_id = o.id;
  from_status = o.status;
  to_status = next;
  action = req.action;
  operator_id = caller.user_id;
  remark = req.remark;
}

-- The transaction: a failure of either statement, or a version that has moved on, undoes both.
unfoldable pub move :
    Mysql → Caller → UpdateWorkOrderStatusReq → WorkOrder → ℕ → WorkorderDb → WorkorderDb × Outcome
move my caller req o next db =
    if my.update_fails
    then (db, failed update_failed)
    else if affected (unmoved caller.tenant_id o) db.orders == 0
    then (db, failed conflict)
    else if my.flow_fails
    then (db, failed update_failed)
    else (
      record {
        orders = update (unmoved caller.tenant_id o) (set_moved my.now next) db.orders;
        flows = db.flows ++ flow_of caller req o next ∷ [];
      },
      moved (record { id = o.id; order_no = o.order_no; status = next }),
    )

abbrev pub move_to :
    Mysql
    → Caller
    → UpdateWorkOrderStatusReq
    → WorkorderDb
    → WorkOrder
    → Option ℕ
    → WorkorderDb × Outcome
move_to my caller req db o none = (db, failed invalid_action)
move_to my caller req db o (some next) = move my caller req o next (my.meanwhile db)

-- The checks of the caller's roles
abbrev pub update_found :
    Mysql
    → Caller
    → UpdateWorkOrderStatusReq
    → WorkorderDb
    → Option WorkOrder
    → WorkorderDb × Outcome
update_found my caller req db none = (db, failed not_found)
update_found my caller req db (some o) =
    if has_role caller.roles role_repair && not (o.assignee_id == caller.user_id)
    then (db, failed not_assignee)
    else if has_role caller.roles role_owner && not (o.reporter_id == caller.user_id)
    then (db, failed not_reporter)
    else move_to my caller req db o (next_status o.status req.action)

abbrev pub own_order : ℕ → ℕ → WorkOrder → Bool
own_order id tenant o = o.id == id && o.tenant_id == tenant

-- `UpdateWorkOrderStatus`; the event that it sends afterwards has no effect on the answer.
unfoldable pub update_work_order_status :
    Mysql → Caller → UpdateWorkOrderStatusReq → WorkorderDb → WorkorderDb × Outcome
update_work_order_status my caller req db =
    if my.load_fails
    then (db, failed load_failed)
    else update_found my caller req db (first (own_order req.id caller.tenant_id) db.orders)
