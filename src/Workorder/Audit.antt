-- ===== src/Workorder/Audit.antt =====
-- Every move is in the audit trail, and every entry of the trail is an arrow of the state machine.
use onepark_smart_park.Prelude.{
  ℕ, suc, zero, ◌≤◌, ◌≡◌, refl, ap, ◌↔◌, ◌&&◌, not, Option, none, some, List, [], ◌∷◌, ◌++◌, Text,
  lookup-All, All, both_branches, arith, ◌==◌,
}
use onepark_smart_park.Table.{first, update, affected}
use onepark_smart_park.Workorder.Fsm.{
  next_status, transitions_from, Arrow, assign, submit, approve, reject, close_pending,
  close_processing, close_verify, close_completed,
}
use onepark_smart_park.Workorder.Status.{
  WorkOrder, WorkOrderFlow, WorkorderDb, Caller, UpdateWorkOrderStatusReq, WorkOrderResp, Outcome,
  failed, moved, Mysql, flow_of, move, move_to, update_found, UpdateError, unmoved, set_moved,
  has_role, role_repair, role_owner, update_work_order_status, own_order,
}

transitions_from-nil : (s : ℕ) → 4 ≤ s → transitions_from s ≡ []
unfolding transitions_from
transitions_from-nil s h = ground arith

table-Arrow : (s : ℕ) → All (λ e. Arrow s e.0 e.1) (transitions_from s)
unfolding transitions_from
table-Arrow zero = (assign, (close_pending, tt))
table-Arrow (suc zero) = (submit, (close_processing, tt))
table-Arrow (suc (suc zero)) = (approve, (reject, (close_verify, tt)))
table-Arrow (suc (suc (suc zero))) = (close_completed, tt)
table-Arrow (suc (suc (suc (suc s)))) =
    rw (transitions_from-nil (suc (suc (suc (suc s)))) (omega arith)) tt

next_of_Arrow : {s t : ℕ} {a : Text} → Arrow s a t → next_status s a ≡ some t
unfolding next_status transitions_from
next_of_Arrow assign = refl
next_of_Arrow submit = refl
next_of_Arrow approve = refl
next_of_Arrow reject = refl
next_of_Arrow close_pending = refl
next_of_Arrow close_processing = refl
next_of_Arrow close_verify = refl
next_of_Arrow close_completed = refl

-- `NextStatus` accepts an action in a status exactly when the documented diagram has the arrow, and
-- then leads to the arrow's end.
pub next_status-iff-Arrow : (s t : ℕ) (a : Text) → (next_status s a ≡ some t) ↔ Arrow s a t
unfolding next_status
next_status-iff-Arrow s t a =
    (lookup-All (Arrow s) a (transitions_from s) (table-Arrow s), next_of_Arrow)

-- The entry is an arrow of the diagram.
abbrev pub FlowOk : WorkOrderFlow → Type 0
FlowOk e = Arrow e.from_status e.action e.to_status

-- An update that fails has written nothing of its own, and one that succeeds has added one entry.
abbrev pub Recorded : List WorkOrderFlow → WorkorderDb × Outcome → Type 0
Recorded flows (db, failed e) = db.flows ≡ flows
Recorded flows (db, moved r) =
    (e : WorkOrderFlow) × (db.flows ≡ flows ++ e ∷ [])
    × FlowOk e
    × (e.to_status ≡ r.status)
    × (e.work_order_id ≡ r.id)

pub record IsRecorded (flows : List WorkOrderFlow) (result : WorkorderDb × Outcome) : Type 0 where
  pub recorded : Recorded flows result

failed-IsRecorded :
    (flows : List WorkOrderFlow) (db : WorkorderDb) (e : UpdateError)
    → db.flows ≡ flows
    → IsRecorded flows (db, failed e)
failed-IsRecorded flows db e same = record { recorded = same }

moved-IsRecorded :
    (flows : List WorkOrderFlow) (db : WorkorderDb) (r : WorkOrderResp) (e : WorkOrderFlow)
    → db.flows ≡ flows ++ e ∷ []
    → FlowOk e
    → e.to_status ≡ r.status
    → e.work_order_id ≡ r.id
    → IsRecorded flows (db, moved r)
moved-IsRecorded flows db r e grown fine to id = record { recorded = (e, grown, fine, to, id) }

move-IsRecorded :
    (my : Mysql) (caller : Caller) (req : UpdateWorkOrderStatusReq) (o : WorkOrder) (next : ℕ)
    (flows : List WorkOrderFlow) (db : WorkorderDb)
    → db.flows ≡ flows
    → next_status o.status req.action ≡ some next
    → IsRecorded flows (move my caller req o next db)
unfolding move
move-IsRecorded my caller req o next flows db same e =
    let entry = flow_of caller req o next in
    let arrow = (next_status-iff-Arrow o.status next req.action).0 e in
    both_branches (IsRecorded flows) my.update_fails (failed-IsRecorded flows db _ same) (
      both_branches (IsRecorded flows) (affected (unmoved caller.tenant_id o) db.orders == 0)
        (failed-IsRecorded flows db _ same)
        (both_branches (IsRecorded flows) my.flow_fails (failed-IsRecorded flows db _ same) (
          moved-IsRecorded flows
            (record {
              orders = update (unmoved caller.tenant_id o) (set_moved my.now next) db.orders;
              flows = db.flows ++ entry ∷ [];
            })
            (record { id = o.id; order_no = o.order_no; status = next }) entry
            (ap (λ fs. fs ++ entry ∷ []) same) arrow refl refl)))

move_to-IsRecorded :
    (my : Mysql) (caller : Caller) (req : UpdateWorkOrderStatusReq) (db : WorkorderDb)
    (o : WorkOrder)
    → ((seen : WorkorderDb) → (my.meanwhile seen).flows ≡ seen.flows)
    → (found : Option ℕ) → next_status o.status req.action ≡ found
    → IsRecorded db.flows (move_to my caller req db o found)
move_to-IsRecorded my caller req db o quiet none e = failed-IsRecorded db.flows db _ refl
move_to-IsRecorded my caller req db o quiet (some next) e =
    move-IsRecorded my caller req o next db.flows (my.meanwhile db) (quiet db) e

update_found-IsRecorded :
    (my : Mysql) (caller : Caller) (req : UpdateWorkOrderStatusReq) (db : WorkorderDb)
    → ((seen : WorkorderDb) → (my.meanwhile seen).flows ≡ seen.flows)
    → (found : Option WorkOrder) → IsRecorded db.flows (update_found my caller req db found)
update_found-IsRecorded my caller req db quiet none = failed-IsRecorded db.flows db _ refl
update_found-IsRecorded my caller req db quiet (some o) =
    both_branches (IsRecorded db.flows)
      (has_role caller.roles role_repair && not (o.assignee_id == caller.user_id))
      (failed-IsRecorded db.flows db _ refl)
      (both_branches (IsRecorded db.flows)
        (has_role caller.roles role_owner && not (o.reporter_id == caller.user_id))
        (failed-IsRecorded db.flows db _ refl)
        (move_to-IsRecorded my caller req db o quiet (next_status o.status req.action) refl))

-- A request to move a work order on that fails leaves the audit trail as it was; one that succeeds
-- adds one entry, for the work order and the status that it answers, and the entry is an arrow of
-- the diagram. Condition: the requests that run between its reading and writing add none.
pub update_work_order_status-IsRecorded :
    (my : Mysql) (caller : Caller) (req : UpdateWorkOrderStatusReq) (db : WorkorderDb)
    → ((seen : WorkorderDb) → (my.meanwhile seen).flows ≡ seen.flows)
    → IsRecorded db.flows (update_work_order_status my caller req db)
unfolding update_work_order_status
update_work_order_status-IsRecorded my caller req db quiet =
    both_branches (IsRecorded db.flows) my.load_fails (failed-IsRecorded db.flows db _ refl) (
      update_found-IsRecorded my caller req db quiet
        (first (own_order req.id caller.tenant_id) db.orders))
