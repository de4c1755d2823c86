-- ===== src/Catalog/Requests/Transactions.antt =====
-- The transactions of catalog-requests.repository.ts that change a request.
use Prim.Native.String.{String}
use support_desk.Base.{
  ℕ, Text, text_eq, trim, Bool, ◌&&◌, Option, none, some, List, [], ◌∷◌, ◌++◌, map, if◌then◌else◌,
  find, update_where, is_some, Result, ok, err, ◌>>=◌, ◌>>◌, guard,
}
use support_desk.Outbox.{Fresh}
use support_desk.Ticketing.Ticket.{Ticket, TicketPriority, TicketType, PublicRef, web}
use support_desk.Ticketing.Ticket.Status.{new}
use support_desk.Ticketing.Store.{is_row, next_public_ref}
use support_desk.Catalog.Status.{ServiceRequestStatus, status_eq}
use support_desk.Catalog.Gate.{
  ApprovalStatus, ApprovalDecision, approve, reject, request_changes, pending_step, approved_step,
  rejected_step, changes_step, step_eq,
}
use support_desk.Catalog.Requests.{
  ServiceRequest, ServiceRequestApproval, generated, HistoryEntry, Desk, RequestError,
  request_not_found, not_pending, is_request, find_by_id, of_request, list_approvals, non_empty,
  written_comment, Extra, moved_row, append_outbox, audit_row,
}

-- `{ tenantId, id, status: from }`
abbrev pub is_in : (tenant id : Text) → ServiceRequestStatus → ServiceRequest → Bool
is_in tenant id from r = is_request tenant id r && status_eq r.status from

-- What a transition writes beside the status.
pub record Move : Type 0 where
  pub from : ServiceRequestStatus
  pub to : ServiceRequestStatus
  pub actor : Text
  pub action : String
  pub audit_action : String
  pub event_type : String
  pub comment : Option Text
  pub extra : Extra
  pub correlation_id : Option Text

abbrev pub history_of : (tenant id : Text) → Move → HistoryEntry
history_of tenant id m = record {
  tenant_id = tenant;
  request_id = id;
  action = m.action;
  from_status = some m.from;
  to_status = some m.to;
  actor_user_id = m.actor;
  comment = written_comment m.comment;
}

-- `transitionStatus` with the one event and the audit that each of its callers gives.
unfoldable pub transition_status :
    Fresh → (tenant id : Text) → Move → Desk → Result RequestError (Desk × Option ServiceRequest)
transition_status f tenant id m db = elim (find (is_in tenant id m.from) db.requests) [
  | none ↦ ok (db, none)
  | some r ↦ do
    outbox ←
        append_outbox f tenant m.event_type "service_request" id m.correlation_id
          db.tables.outbox_events
    ok (
      record db {
        requests = update_where (is_in tenant id m.from) (moved_row m.to m.extra) db.requests;
        history = db.history ++ history_of tenant id m ∷ [];
        tables = record db.tables {
          outbox_events = outbox;
          audit_events =
              db.tables.audit_events
              ++ audit_row tenant m.actor m.correlation_id m.audit_action "service_request" id ∷ [];
        };
      },
      some (moved_row m.to m.extra r),
    )
]

unfoldable pub add_history :
    (tenant request : Text) → String → (actor : Text) → Option Text → Desk → Desk
add_history tenant request action actor comment db = record db {
  history =
      db.history
      ++ record {
        tenant_id = tenant;
        request_id = request;
        action = action;
        from_status = none;
        to_status = none;
        actor_user_id = actor;
        comment = written_comment comment;
      }
        ∷ [];
}

-- `status: dto.decision`
abbrev pub decided_as : ApprovalDecision → ApprovalStatus
decided_as approve = approved_step
decided_as reject = rejected_step
decided_as request_changes = changes_step

abbrev pub trimmed : Option Text → Option Text
trimmed none = none
trimmed (some s) = some (trim s)

unfoldable pub decided_row :
    ℕ
    → (actor : Text) → ApprovalDecision
    → Option Text
    → ServiceRequestApproval
    → ServiceRequestApproval
decided_row now actor decision comment a = record a {
  status = decided_as decision;
  decided_by_user_id = some actor;
  decided_at = some now;
  decision_comment = non_empty (trimmed comment);
}

-- The step of the id and the request, still pending.
abbrev pub pending_of : Option ServiceRequestApproval → Result RequestError ServiceRequestApproval
pending_of none = err not_pending
pending_of (some a) = if step_eq a.status pending_step then ok a else err not_pending

-- `decideApproval`: the tables, and the statuses of all steps of the request in their order.
unfoldable pub decide_approval :
    ℕ
    → (tenant request approval actor : Text) → ApprovalDecision
    → Option Text
    → Desk
    → Result RequestError (Desk × List ApprovalStatus)
unfolding decided_row list_approvals find_by_id
decide_approval now tenant request approval actor decision comment db = do
  step ← pending_of (find (λ a. of_request tenant request a && text_eq a.id approval) db.approvals)
  let approvals =
      update_where (λ a. text_eq a.id step.id) (decided_row now actor decision comment) db.approvals
  guard (is_some (find_by_id tenant request db)) request_not_found
  ok (
    record db { approvals = approvals },
    map (λ a. a.status) (list_approvals tenant request approvals),
  )

-- The input of `generateTicket`, with who asks.
pub record TicketInput : Type 0 where
  pub title : Text
  pub description : Text
  pub priority : TicketPriority
  pub type : TicketType
  pub requester_user_id : Text
  pub actor_user_id : Text
  pub correlation_id : Option Text

unfoldable pub generated_row : ℕ → (id tenant : Text) → PublicRef → TicketInput → Ticket
generated_row now id tenant public_ref input = record {
  id = id;
  tenant_id = tenant;
  public_ref = public_ref;
  title = input.title;
  description = input.description;
  status = new;
  priority = input.priority;
  channel = web;
  type = input.type;
  requester_user_id = input.requester_user_id;
  assignee_user_id = none;
  assigned_group_id = none;
  solved_at = none;
  closed_at = none;
  due_date = none;
  version = 1;
  created_at = now;
  updated_at = now;
  deleted_at = none;
}

-- The ticket that the request already has, if its row is there.
unfoldable pub linked_ticket : Text → ServiceRequest → List Ticket → Option Ticket
linked_ticket tenant r tickets = elim r.ticket_id [
  | none ↦ none
  | some t ↦ find (is_row tenant t) tickets
]

-- The branch of `generateTicket` that makes the ticket: `f` is for its event, with the ticket's id
-- as well, and `g` for the event of the request.
unfoldable pub insert_ticket :
    (f g : Fresh)
    → (ticket_id tenant request : Text) → TicketInput
    → ServiceRequest
    → Desk
    → Result RequestError (Desk × Ticket)
unfolding generated_row next_public_ref
insert_ticket f g ticket_id tenant request input r db = do
  let public_ref = next_public_ref tenant db.tables.tickets
  let ticket = generated_row f.now ticket_id tenant public_ref input
  rows ←
      append_outbox f tenant "ticket.created" "ticket" ticket_id input.correlation_id
        db.tables.outbox_events
  outbox ←
      append_outbox g tenant "service_request.ticket_created" "service_request" request
        input.correlation_id rows
  ok (
    record db {
      requests =
          update_where (λ x. text_eq x.id request) (λ x. record x { ticket_id = some ticket_id })
            db.requests;
      history =
          db.history
          ++ record {
            tenant_id = tenant;
            request_id = request;
            action = "catalog.request.ticket_created";
            from_status = none;
            to_status = some r.status;
            actor_user_id = input.actor_user_id;
            comment = some (generated public_ref);
          }
            ∷ [];
      tables = record db.tables {
        tickets = db.tables.tickets ++ ticket ∷ [];
        outbox_events = outbox;
        audit_events =
            db.tables.audit_events
            ++ audit_row tenant input.actor_user_id input.correlation_id
                "catalog.request.ticket_created" "ticket" ticket_id
              ∷ [];
      };
    },
    ticket,
  )

unfoldable pub generate_ticket :
    (f g : Fresh)
    → (ticket_id tenant request : Text) → TicketInput
    → Desk
    → Result RequestError (Desk × Ticket)
unfolding find_by_id linked_ticket insert_ticket
generate_ticket f g ticket_id tenant request input db = elim (find_by_id tenant request db) [
  | none ↦ err request_not_found
  | some r ↦ elim (linked_ticket tenant r db.tables.tickets) [
    | some existing ↦ ok (db, existing)
    | none ↦ insert_ticket f g ticket_id tenant request input r db
  ]
]
