-- ===== src/Catalog/Requests/Guards.antt =====
-- What each operation of catalog-requests.service.ts requires before it changes anything.
use support_desk.Base.{
  ◌≡◌, ◌⊎◌, inl, Text, true, false, not, ◌||◌, Option, none, some, Result, ok, arith,
}
use support_desk.Base.Actions.{◌>>=◌, ◌>>◌, require, read_or, Refused, require-or, read_or-or}
use support_desk.Catalog.Status.{submitted, awaiting_approval, approved, status_eq}
use support_desk.Catalog.Gate.{ApprovalDecision, pending_step, step_eq}
use support_desk.Catalog.Requests.{
  ServiceRequest, ServiceRequestApproval, ServiceItem, Desk, RequestError, forbidden,
  not_awaiting_approval, not_startable, request_not_found, service_not_found, approval_not_found,
  gate_unsatisfied, step_decided, own_request, find_by_id, get_approval,
}
use support_desk.Catalog.Requests.Service.{
  Context, Op, find_service, is_own, step_of, or_throw, load_request_or_throw, carry_out_decision,
  decide,
}
use support_desk.Catalog.Requests.Fulfillment.{
  gate_open, carry_out_start, require_gate, load_service, start_fulfillment,
}

or_throw-eq-ok :
    {A : Type 0} (e : RequestError) (o : Option A) {a : A} → or_throw e o ≡ ok a → o ≡ some a
or_throw-eq-ok e none h = cc
or_throw-eq-ok e (some a) h = cc

-- The reads of the two operations below.
abbrev load : Context → (id : Text) → Desk → Result RequestError ServiceRequest
load ctx id db = or_throw request_not_found (find_by_id ctx.tenant_id id db)

abbrev service_of : Context → ServiceRequest → Desk → Result RequestError ServiceItem
service_of ctx r db = or_throw service_not_found (find_service ctx r.service_id db)

abbrev step_in :
    Context → ServiceRequest → (approval : Text) → Desk → Result RequestError ServiceRequestApproval
step_in ctx r approval db =
    or_throw approval_not_found (step_of r (get_approval ctx.tenant_id approval db.approvals))

-- What is left of `startFulfillment` when its request, and then its service, is there.
abbrev service_tail : Context → ServiceRequest → ServiceItem → Op ServiceRequest
service_tail ctx r i = require_gate ctx r i >> carry_out_start ctx r i

abbrev start_tail : Context → ServiceRequest → Op ServiceRequest
start_tail ctx r =
    require (status_eq r.status approved || status_eq r.status submitted) not_startable
    >> (load_service ctx r.service_id >>= service_tail ctx r)

-- What stands behind fulfilment: the request, in a status it may start from, and its service, whose
-- gate is open.
pub record Startable (ctx : Context) (id : Text) (db : Desk) : Type 0 where
  pub allowed : ctx.can "catalog.request.fulfill" ≡ true
  pub request : ServiceRequest
  pub found : find_by_id ctx.tenant_id id db ≡ some request
  pub startable : (status_eq request.status approved || status_eq request.status submitted) ≡ true
  pub service : ServiceItem
  pub service_found : find_service ctx request.service_id db ≡ some service
  pub gate : gate_open ctx request service db ≡ true

-- Whatever the outcome, with or without an error: either the user may fulfil, the request is APPROVED
-- or SUBMITTED, and the approval gate of its service is open, or the call throws and changes nothing.
pub start_fulfillment_gated :
    (ctx : Context) (id : Text) (db : Desk)
    → Startable ctx id db ⊎ Refused (start_fulfillment ctx id) db
unfolding start_fulfillment
start_fulfillment_gated ctx id db =
    require-or (ctx.can "catalog.request.fulfill") forbidden
      (load_request_or_throw ctx id >>= start_tail ctx) db
      (λ c. read_or-or (load ctx id) (start_tail ctx) db (λ r e.
        require-or (status_eq r.status approved || status_eq r.status submitted) not_startable
          (load_service ctx r.service_id >>= service_tail ctx r) db
          (λ s. read_or-or (service_of ctx r) (service_tail ctx r) db (λ i n.
            require-or (gate_open ctx r i db) gate_unsatisfied (carry_out_start ctx r i) db (λ g.
              inl (record {
                allowed = c;
                request = r;
                found = or_throw-eq-ok _ _ e;
                startable = s;
                service = i;
                service_found = or_throw-eq-ok _ _ n;
                gate = g;
              }))))))

-- What is left of `decideApproval` when its request, and then its step, is there.
abbrev step_tail :
    Context → ServiceRequest → Op ServiceRequest → ServiceRequestApproval → Op ServiceRequest
step_tail ctx r finish a =
    require (step_eq a.status pending_step) step_decided
    >> (require (not (is_own r a)) own_request >> finish)

abbrev decide_tail :
    Context
    → (approval : Text) → (ServiceRequest → Op ServiceRequest)
    → ServiceRequest
    → Op ServiceRequest
decide_tail ctx approval finish r =
    require (status_eq r.status awaiting_approval) not_awaiting_approval
    >> (read_or (step_in ctx r approval) >>= step_tail ctx r (finish r))

-- What stands behind a decision.
pub record Decidable (ctx : Context) (id approval : Text) (db : Desk) : Type 0 where
  pub allowed : ctx.can "catalog.approval.decide" ≡ true
  pub request : ServiceRequest
  pub found : find_by_id ctx.tenant_id id db ≡ some request
  pub awaiting : status_eq request.status awaiting_approval ≡ true
  pub step : ServiceRequestApproval
  pub step_found : step_of request (get_approval ctx.tenant_id approval db.approvals) ≡ some step
  pub still_pending : step_eq step.status pending_step ≡ true
  pub not_own : is_own request step ≡ false

-- Whatever the outcome, with or without an error: either the user may decide, the request awaits
-- approval, and the step is pending, belongs to that request, and is not assigned to the requester,
-- or the call throws and changes nothing.
pub decide_checked :
    (ctx : Context) (id approval : Text) (d : ApprovalDecision) (comment : Option Text) (db : Desk)
    → Decidable ctx id approval db ⊎ Refused (decide ctx id approval d comment) db
unfolding decide
decide_checked ctx id approval d comment db =
    let finish : ServiceRequest → Op ServiceRequest =
      λ r. carry_out_decision ctx r approval d comment in
    require-or (ctx.can "catalog.approval.decide") forbidden
      (load_request_or_throw ctx id >>= decide_tail ctx approval finish) db
      (λ c. read_or-or (load ctx id) (decide_tail ctx approval finish) db (λ r e.
        require-or (status_eq r.status awaiting_approval) not_awaiting_approval
          (read_or (step_in ctx r approval) >>= step_tail ctx r (finish r)) db
          (λ s. read_or-or (step_in ctx r approval) (step_tail ctx r (finish r)) db (λ a n.
            require-or (step_eq a.status pending_step) step_decided
              (require (not (is_own r a)) own_request >> finish r) db
              (λ p. require-or (not (is_own r a)) own_request (finish r) db (λ o. inl (record {
                allowed = c;
                request = r;
                found = or_throw-eq-ok _ _ e;
                awaiting = s;
                step = a;
                step_found = or_throw-eq-ok _ _ n;
                still_pending = p;
                not_own = ground arith;
              })))))))
