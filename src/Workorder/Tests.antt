-- ===== src/Workorder/Tests.antt =====
-- The theorems at concrete inputs.
use onepark_smart_park.Prelude.{◌≡◌, refl, false, none, [], ◌∷◌, codes}
use onepark_smart_park.Workorder.Status.{
  WorkOrder, WorkorderDb, Caller, UpdateWorkOrderStatusReq, Mysql, failed, not_assignee, has_role,
  update_work_order_status,
}
use onepark_smart_park.Workorder.Audit.{IsRecorded, update_work_order_status-IsRecorded}

abbrev up : Mysql
up = record {
  load_fails = false;
  update_fails = false;
  flow_fails = false;
  now = 100;
  meanwhile = λ db. db;
}

abbrev leak : WorkOrder
leak = record {
  id = 1;
  tenant_id = 5;
  order_no = codes "WO-1";
  reporter_id = 9;
  assignee_id = 7;
  status = 1;
  finished_at = none;
  version = 3;
}

abbrev orders : WorkorderDb
orders = record { orders = leak ∷ []; flows = [] }

abbrev repairer : Caller
repairer = record { tenant_id = 5; user_id = 7; roles = 4 ∷ [] }

abbrev submit_request : UpdateWorkOrderStatusReq
submit_request = record { id = 1; action = codes "submit"; remark = [] }

-- Another repairer may not move the order.
stranger_run :
    (update_work_order_status up (record repairer { user_id = 8 }) submit_request orders).1
    ≡ failed not_assignee
unfolding update_work_order_status has_role
stranger_run = refl

update_work_order_status-IsRecorded_example :
    IsRecorded [] (update_work_order_status up repairer submit_request orders)
update_work_order_status-IsRecorded_example =
    update_work_order_status-IsRecorded up repairer submit_request orders (λ seen. refl)
