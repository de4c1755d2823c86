-- ===== src/Catalog/Requests/Fulfillment.antt =====
-- The fulfilment of service requests and their tickets, startFulfillment, generateTicket and complete
-- of apps/api/src/catalog/catalog-requests.service.ts.
use support_desk.Base.{
  Text, codes, Bool, true, false, not, ◌&&◌, ◌||◌, Option, none, some, List, [], ◌∷◌, ◌++◌, map,
  is_some, or_else,
}
use support_desk.Base.Actions.{◌>>=◌, ◌>>◌, require, transaction, read_or, change}
use support_desk.Ticketing.Ticket.{Ticket}
use support_desk.Catalog.Status.{
  submitted, approved, in_fulfillment, completed, status_eq, is_terminal_status,
}
use support_desk.Catalog.Gate.{none_mode, is_approval_gate_satisfied}
use support_desk.Catalog.Requests.{
  Answer, ServiceRequest, ServiceItem, Desk, service_not_found, lost_race, not_startable,
  gate_unsatisfied, no_ticket_from, not_in_fulfillment, list_approvals,
}
use support_desk.Catalog.Requests.Transactions.{Move, TicketInput, generate_ticket, trimmed}
use support_desk.Catalog.Requests.Service.{
  Context, Op, fresh, or_throw, assert_can, load_request_or_throw, find_service, notify, no_extra,
  transition,
}

-- `service.approvalMode !== "NONE" && !isApprovalGateSatisfied(…)`, negated.
unfoldable pub gate_open : Context → ServiceRequest → ServiceItem → Desk → Bool
gate_open ctx request service db = elim service.approval_mode [
  | none_mode ↦ true
  | mode ↦
      is_approval_gate_satisfied mode
        (map (λ a. a.status) (list_approvals ctx.tenant_id request.id db.approvals))
]

abbrev pub require_gate : Context → ServiceRequest → ServiceItem → Op Unit
require_gate ctx request service db = require (gate_open ctx request service db) gate_unsatisfied db

abbrev pub load_service : Context → (id : Text) → Op ServiceItem
load_service ctx id = read_or (λ db. or_throw service_not_found (find_service ctx id db))

abbrev pub start_move : Context → ServiceRequest → Move
start_move ctx r = record {
  from = r.status;
  to = in_fulfillment;
  actor = ctx.user_id;
  action = "catalog.request.fulfillment_started";
  audit_action = "catalog.request.fulfillment_started";
  event_type = "service_request.fulfillment_started";
  comment = none;
  extra = record no_extra { fulfillment_started_at = some ctx.now };
  correlation_id = ctx.correlation_id;
}

-- `answers.map(…).join("\n")`
unfoldable pub describe : List Answer → Text
describe [] = []
describe (a ∷ []) = a.key ++ codes ": " ++ a.shown
describe (a ∷ b ∷ answers) = a.key ++ codes ": " ++ a.shown ++ 10 ∷ describe (b ∷ answers)

-- `a || b` on texts, where null is falsy too.
abbrev pub or_text : Text → Text → Text
or_text [] b = b
or_text (c ∷ s) b = c ∷ s

unfoldable pub ticket_input : Context → ServiceRequest → ServiceItem → TicketInput
unfolding describe
ticket_input ctx request service = record {
  title = codes "[" ++ request.request_ref ++ codes "] " ++ service.name;
  description =
      or_text (describe request.answers)
        (or_text (or_else service.description []) (codes "Service request fulfillment"));
  priority = request.priority;
  type = service.default_ticket_type;
  requester_user_id = request.requester_user_id;
  actor_user_id = ctx.user_id;
  correlation_id = ctx.correlation_id;
}

-- `startTargetsForTicketWithPolicy`, which does not throw, if the service has a policy.
abbrev pub pin_policy : ServiceItem → Ticket → Op Unit
pin_policy service ticket = elim service.sla_policy_id [
  | some (c ∷ s) ↦ change (λ db. record db { pinned = db.pinned ++ (ticket.id, c ∷ s) ∷ [] })
  | _ ↦ change (λ db. db)
]

-- `generateTicket` of the service. The ticket's id and those of its two events are the results 10 to
-- 14 of `randomUUID()`.
unfoldable pub create_ticket : Context → (id : Text) → Op ServiceRequest
create_ticket ctx id = do
  assert_can ctx "catalog.request.generate_ticket"
  request ← load_request_or_throw ctx id
  require (not (is_terminal_status request.status)) no_ticket_from
  service ← load_service ctx request.service_id
  require_gate ctx request service
  ticket ← transaction (
      generate_ticket (fresh ctx 11) (fresh ctx 13) (ctx.uuid 10) ctx.tenant_id request.id
        (ticket_input ctx request service))
  pin_policy service ticket
  notify ctx request.requester_user_id "REQUEST_TICKET_CREATED" request.id
  load_request_or_throw ctx request.id

abbrev pub create_if : Bool → Context → (id : Text) → Op Unit
create_if true ctx id = do request ← create_ticket ctx id; change (λ db. db)
create_if false ctx id = change (λ db. db)

-- `startFulfillment` behind its checks.
unfoldable pub carry_out_start : Context → ServiceRequest → ServiceItem → Op ServiceRequest
carry_out_start ctx request service = do
  moved ← transition ctx 0 request.id (start_move ctx request)
  require (is_some moved) lost_race
  notify ctx request.requester_user_id "REQUEST_FULFILLMENT_STARTED" request.id
  create_if (service.generate_ticket_on_fulfillment && not (is_some request.ticket_id)) ctx
      request.id
  load_request_or_throw ctx request.id

unfoldable pub start_fulfillment : Context → (id : Text) → Op ServiceRequest
start_fulfillment ctx id = do
  assert_can ctx "catalog.request.fulfill"
  request ← load_request_or_throw ctx id
  require (status_eq request.status approved || status_eq request.status submitted) not_startable
  service ← load_service ctx request.service_id
  require_gate ctx request service
  carry_out_start ctx request service

abbrev pub complete_move : Context → Option Text → Move
complete_move ctx note = record {
  from = in_fulfillment;
  to = completed;
  actor = ctx.user_id;
  action = "catalog.request.completed";
  audit_action = "catalog.request.completed";
  event_type = "service_request.completed";
  comment = trimmed note;
  extra = record no_extra { completed_at = some ctx.now };
  correlation_id = ctx.correlation_id;
}

unfoldable pub complete : Context → (id : Text) → (note : Option Text) → Op ServiceRequest
complete ctx id note = do
  assert_can ctx "catalog.request.complete"
  request ← load_request_or_throw ctx id
  require (status_eq request.status in_fulfillment) not_in_fulfillment
  moved ← transition ctx 0 request.id (complete_move ctx note)
  require (is_some moved) lost_race
  notify ctx request.requester_user_id "REQUEST_COMPLETED" request.id
  load_request_or_throw ctx request.id
