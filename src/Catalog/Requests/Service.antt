-- ===== src/Catalog/Requests/Service.antt =====
-- The operations on submitted service requests, apps/api/src/catalog/catalog-requests.service.ts. An
-- operation is a sequence of transactions and calls, so that what an earlier one committed stays when
-- a later one throws. `can` is what the RBAC service answers for the user and the tenant.
use Prim.Native.String.{String}
use support_desk.Base.{
  ℕ, ◌+◌, Text, text_eq, Bool, false, not, ◌&&◌, ◌||◌, Option, none, some, [], ◌∷◌, ◌++◌,
  if◌then◌else◌, find, is_some, Result, ok, err,
}
use support_desk.Base.Actions.{Action, ◌>>=◌, ◌>>◌, require, transaction, read_or, change}
use support_desk.Outbox.{Fresh}
use support_desk.Catalog.Status.{
  ServiceRequestStatus, awaiting_approval, approved, rejected, changes_requested, in_fulfillment,
  completed, cancelled, status_eq, is_terminal_status,
}
use support_desk.Catalog.Gate.{
  ApprovalMode, all_mode, ApprovalDecision, pending_step, step_eq, step_decision_outcome,
}
use support_desk.Catalog.Requests.{
  ServiceRequest, ServiceRequestApproval, ServiceItem, Desk, Extra, RequestError, forbidden,
  request_not_found, approval_not_found, already_terminal, fulfilled, lost_race,
  not_awaiting_approval, step_decided, own_request, find_by_id, get_approval, audit_row,
}
use support_desk.Catalog.Requests.Transactions.{
  Move, transition_status, add_history, decide_approval, trimmed,
}

-- `RequestContext`, with the permissions of its user and what the runtime supplies to the call: the
-- time and the results of `randomUUID()`.
pub record Context : Type 0 where
  pub tenant_id : Text
  pub user_id : Text
  pub can : String → Bool
  pub now : ℕ
  pub uuid : ℕ → Text
  pub correlation_id : Option Text

abbrev pub Op : Type 0 → Type 0
Op A = Action Desk RequestError A

abbrev pub fresh : Context → ℕ → Fresh
fresh ctx n = record { now = ctx.now; id = ctx.uuid n; correlation_id = ctx.uuid (n + 1) }

abbrev pub or_throw : {A : Type 0} → RequestError → Option A → Result RequestError A
or_throw e none = err e
or_throw e (some a) = ok a

abbrev pub assert_can : Context → String → Op Unit
assert_can ctx key = require (ctx.can key) forbidden

abbrev pub load_request_or_throw : Context → (id : Text) → Op ServiceRequest
load_request_or_throw ctx id =
    read_or (λ db. or_throw request_not_found (find_by_id ctx.tenant_id id db))

-- `servicesRepository.findById`
abbrev pub find_service : Context → (id : Text) → Desk → Option ServiceItem
find_service ctx id db =
    find (λ s. text_eq s.tenant_id ctx.tenant_id && text_eq s.id id && not (is_some s.deleted_at))
      db.services

-- `notificationsService.createSafe`, which does not throw.
abbrev pub notify : Context → (recipient : Text) → String → (id : Text) → Op Unit
notify ctx recipient event_type id = change (λ db. record db {
  notices =
      db.notices
      ++ record {
        recipient_user_id = recipient;
        event_type = event_type;
        resource_id = id;
        actor_user_id = ctx.user_id;
      }
        ∷ [];
})

abbrev pub no_extra : Extra
no_extra = record {
  approved_at = none;
  fulfillment_started_at = none;
  completed_at = none;
  cancelled_at = none;
  cancelled_reason = none;
}

abbrev pub is_requester_or : Context → String → ServiceRequest → Bool
is_requester_or ctx key r = text_eq r.requester_user_id ctx.user_id || ctx.can key

-- `repository.transitionStatus` within an operation.
abbrev pub transition : Context → ℕ → (id : Text) → Move → Op (Option ServiceRequest)
transition ctx n id m = transaction (transition_status (fresh ctx n) ctx.tenant_id id m)

abbrev pub cancel_move : Context → Option Text → ServiceRequest → Move
cancel_move ctx reason r = record {
  from = r.status;
  to = cancelled;
  actor = ctx.user_id;
  action = "catalog.request.cancelled";
  audit_action = "catalog.request.cancelled";
  event_type = "service_request.cancelled";
  comment = trimmed reason;
  extra = record no_extra { cancelled_at = some ctx.now; cancelled_reason = some (trimmed reason) };
  correlation_id = ctx.correlation_id;
}

unfoldable pub cancel : Context → (id : Text) → (reason : Option Text) → Op ServiceRequest
cancel ctx id reason = do
  request ← load_request_or_throw ctx id
  require (is_requester_or ctx "catalog.request.read_all" request) forbidden
  assert_can ctx "catalog.request.cancel"
  require (not (is_terminal_status request.status)) already_terminal
  require (not (status_eq request.status in_fulfillment || status_eq request.status completed))
      fulfilled
  moved ← transition ctx 0 request.id (cancel_move ctx reason request)
  require (is_some moved) lost_race
  notify ctx request.requester_user_id "REQUEST_CANCELLED" request.id
  load_request_or_throw ctx request.id

abbrev pub decision_move :
    Context → Option Text → ServiceRequestStatus → (action event_type : String) → Extra → Move
decision_move ctx comment to action event_type extra = record {
  from = awaiting_approval;
  to = to;
  actor = ctx.user_id;
  action = action;
  audit_action = "catalog.approval.decided";
  event_type = event_type;
  comment = trimmed comment;
  extra = extra;
  correlation_id = ctx.correlation_id;
}

-- What follows a decision: the transition is made, and its result is not looked at.
abbrev pub move_and_notify : Context → ServiceRequest → Move → String → Op Unit
move_and_notify ctx request m notice = do
  moved ← transition ctx 0 request.id m
  notify ctx request.requester_user_id notice request.id

-- The branch for a decision that leaves further steps.
abbrev pub record_decision : Context → ServiceRequest → Option Text → Op Unit
record_decision ctx request comment = do
  change (
      add_history ctx.tenant_id request.id "catalog.approval.decided" ctx.user_id (trimmed comment))
  change (λ db. record db {
    tables = record db.tables {
      audit_events =
          db.tables.audit_events
          ++ audit_row ctx.tenant_id ctx.user_id ctx.correlation_id "catalog.approval.decided"
              "service_request" request.id
            ∷ [];
    };
  })

unfoldable pub follow_up : Context → ServiceRequest → Option Text → ServiceRequestStatus → Op Unit
follow_up ctx request comment rejected =
    move_and_notify ctx request
      (decision_move ctx comment rejected "catalog.request.rejected"
        "service_request.approval_decided" no_extra)
      "REQUEST_REJECTED"
follow_up ctx request comment changes_requested =
    move_and_notify ctx request
      (decision_move ctx comment changes_requested "catalog.request.changes_requested"
        "service_request.changes_requested" no_extra)
      "REQUEST_CHANGES_REQUESTED"
follow_up ctx request comment approved =
    move_and_notify ctx request
      (decision_move ctx comment approved "catalog.request.approved"
        "service_request.approval_decided" (record no_extra { approved_at = some ctx.now }))
      "REQUEST_APPROVAL_DECIDED"
follow_up ctx request comment _ = record_decision ctx request comment

-- `service?.approvalMode ?? "ALL"`
abbrev pub mode_of : Option ServiceItem → ApprovalMode
mode_of none = all_mode
mode_of (some s) = s.approval_mode

-- `step.approverUserId && step.approverUserId === request.requesterUserId`
abbrev pub is_own : ServiceRequest → ServiceRequestApproval → Bool
is_own request step = elim step.approver_user_id [
  | none ↦ false
  | some [] ↦ false
  | some (c ∷ s) ↦ text_eq (c ∷ s) request.requester_user_id
]

abbrev pub step_of : ServiceRequest → Option ServiceRequestApproval → Option ServiceRequestApproval
step_of request none = none
step_of request (some step) = if text_eq step.request_id request.id then some step else none

-- `decideApproval` behind its checks.
unfoldable pub carry_out_decision :
    Context
    → ServiceRequest
    → (approval : Text) → ApprovalDecision
    → Option Text
    → Op ServiceRequest
carry_out_decision ctx request approval decision comment = do
  statuses ←
      transaction
        (decide_approval ctx.now ctx.tenant_id request.id approval ctx.user_id decision comment)
  mode ← read_or (λ db. ok (mode_of (find_service ctx request.service_id db)))
  follow_up ctx request comment (step_decision_outcome mode statuses decision).1
  load_request_or_throw ctx request.id

unfoldable pub decide :
    Context → (id approval : Text) → ApprovalDecision → Option Text → Op ServiceRequest
decide ctx id approval decision comment = do
  assert_can ctx "catalog.approval.decide"
  request ← load_request_or_throw ctx id
  require (status_eq request.status awaiting_approval) not_awaiting_approval
  step ← read_or (λ db.
      or_throw approval_not_found
        (step_of request (get_approval ctx.tenant_id approval db.approvals)))
  require (step_eq step.status pending_step) step_decided
  require (not (is_own request step)) own_request
  carry_out_decision ctx request approval decision comment
