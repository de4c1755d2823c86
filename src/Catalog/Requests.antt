-- ===== src/Catalog/Requests.antt =====
-- The repository of service requests, apps/api/src/catalog/catalog-requests.repository.ts: the rows it
-- keeps, and its transactions on them. The metadata of audits and the payloads of events are left out.
pub mod Transactions
pub mod Service
pub mod Fulfillment
pub mod Transitions
pub mod Tickets
pub mod Guards
pub mod Terminal
use Prim.Native.String.{String}
use support_desk.Base.{
  ℕ, ◌+◌, Text, text_eq, trim, Bool, true, false, not, ◌&&◌, Option, none, some, List, [], ◌∷◌,
  ◌++◌, map, if◌then◌else◌, or_else, any, find, filter, update_where, Result, ok, err, ◌>>=◌, ◌>>◌,
  guard,
}
use support_desk.Base.Sort.{sort_by}
use support_desk.Audit.{AuditEvent, success}
use support_desk.Outbox.{Fresh, OutboxEvent, OutboxError, append_outbox_event}
use support_desk.Ticketing.Ticket.{Ticket, TicketPriority, TicketType, PublicRef, web}
use support_desk.Ticketing.Ticket.Status.{new}
use support_desk.Ticketing.Store.{Tables, is_row, next_public_ref}
use support_desk.Catalog.Status.{
  ServiceRequestStatus, submitted, awaiting_approval, changes_requested, status_eq,
}
use support_desk.Catalog.Gate.{
  ApprovalMode, ApprovalStatus, ApprovalDecision, approve, reject, request_changes, pending_step,
  approved_step, rejected_step, changes_step, step_eq,
}

-- An answer of the form, with the text that a generated ticket shows for its value.
pub record Answer : Type 0 where
  pub key : Text
  pub shown : Text

pub record ServiceRequest : Type 0 where
  pub id : Text
  pub tenant_id : Text
  pub request_ref : Text
  pub service_id : Text
  pub answers : List Answer
  pub requester_user_id : Text
  pub status : ServiceRequestStatus
  pub priority : TicketPriority
  pub ticket_id : Option Text
  pub approved_at : Option ℕ
  pub fulfillment_started_at : Option ℕ
  pub completed_at : Option ℕ
  pub cancelled_at : Option ℕ
  pub cancelled_reason : Option Text

pub record ServiceRequestApproval : Type 0 where
  pub id : Text
  pub tenant_id : Text
  pub request_id : Text
  pub step_number : ℕ
  pub approver_role : Option Text
  pub approver_user_id : Option Text
  pub status : ApprovalStatus
  pub decided_by_user_id : Option Text
  pub decided_at : Option ℕ
  pub decision_comment : Option Text

-- What a user wrote, or `Ticket ${publicRef} generated`.
pub data Comment : Type 0 where
  written : Text → Comment
  generated : PublicRef → Comment

pub record HistoryEntry : Type 0 where
  pub tenant_id : Text
  pub request_id : Text
  pub action : String
  pub from_status : Option ServiceRequestStatus
  pub to_status : Option ServiceRequestStatus
  pub actor_user_id : Text
  pub comment : Option Comment

pub record ServiceItem : Type 0 where
  pub id : Text
  pub tenant_id : Text
  pub name : Text
  pub description : Option Text
  pub approval_mode : ApprovalMode
  pub generate_ticket_on_fulfillment : Bool
  pub default_ticket_type : TicketType
  pub sla_policy_id : Option Text
  pub deleted_at : Option ℕ

pub record RequestNotice : Type 0 where
  pub recipient_user_id : Text
  pub event_type : String
  pub resource_id : Text
  pub actor_user_id : Text

-- The tables, the notices that were asked for, and the tickets handed to the SLA engine with a policy.
pub record Desk : Type 0 where
  pub tables : Tables
  pub requests : List ServiceRequest
  pub approvals : List ServiceRequestApproval
  pub history : List HistoryEntry
  pub services : List ServiceItem
  pub notices : List RequestNotice
  pub pinned : List (Text × Text)

pub data RequestError : Type 0 where
  forbidden request_not_found service_not_found approval_not_found : RequestError
  already_terminal fulfilled lost_race not_awaiting_approval step_decided own_request : RequestError
  not_startable gate_unsatisfied no_ticket_from not_in_fulfillment not_pending : RequestError
  outbox_error : OutboxError → RequestError

abbrev pub is_request : (tenant id : Text) → ServiceRequest → Bool
is_request tenant id r = text_eq r.tenant_id tenant && text_eq r.id id

unfoldable pub find_by_id : (tenant id : Text) → Desk → Option ServiceRequest
find_by_id tenant id db = find (is_request tenant id) db.requests

abbrev pub of_request : (tenant request : Text) → ServiceRequestApproval → Bool
of_request tenant request a = text_eq a.tenant_id tenant && text_eq a.request_id request

unfoldable pub list_approvals :
    (tenant request : Text) → List ServiceRequestApproval → List ServiceRequestApproval
list_approvals tenant request approvals =
    sort_by (λ a. a.step_number) (filter (of_request tenant request) approvals)

unfoldable pub get_approval :
    (tenant approval : Text) → List ServiceRequestApproval → Option ServiceRequestApproval
get_approval tenant approval approvals =
    find (λ a. text_eq a.tenant_id tenant && text_eq a.id approval) approvals

-- `xs || null` for a text
abbrev pub non_empty : Option Text → Option Text
non_empty (some (c ∷ s)) = some (c ∷ s)
non_empty _ = none

abbrev pub written_comment : Option Text → Option Comment
written_comment (some (c ∷ s)) = some (written (c ∷ s))
written_comment _ = none

-- `extra`: a present instant is written, and the reason whenever the key is given.
pub record Extra : Type 0 where
  pub approved_at : Option ℕ
  pub fulfillment_started_at : Option ℕ
  pub completed_at : Option ℕ
  pub cancelled_at : Option ℕ
  pub cancelled_reason : Option (Option Text)

abbrev pub or_kept {ℓ} : {A : Type ℓ} → Option A → Option A → Option A
or_kept none kept = kept
or_kept (some a) kept = some a

abbrev pub reason_or_kept : Option (Option Text) → Option Text → Option Text
reason_or_kept none kept = kept
reason_or_kept (some reason) kept = non_empty reason

unfoldable pub moved_row : ServiceRequestStatus → Extra → ServiceRequest → ServiceRequest
moved_row to x r = record r {
  status = to;
  approved_at = or_kept x.approved_at r.approved_at;
  fulfillment_started_at = or_kept x.fulfillment_started_at r.fulfillment_started_at;
  completed_at = or_kept x.completed_at r.completed_at;
  cancelled_at = or_kept x.cancelled_at r.cancelled_at;
  cancelled_reason = reason_or_kept x.cancelled_reason r.cancelled_reason;
}

abbrev pub lift_outbox {ℓ} : {A : Type ℓ} → Result OutboxError A → Result RequestError A
lift_outbox (ok a) = ok a
lift_outbox (err e) = err (outbox_error e)

-- `appendOutbox` for an event of the aggregate `id`.
unfoldable pub append_outbox :
    Fresh
    → (tenant : Text) → (event_type aggregate_type : String) → (id : Text) → Option Text
    → List OutboxEvent
    → Result RequestError (List OutboxEvent)
append_outbox f tenant event_type aggregate_type id correlation rows = lift_outbox (
    append_outbox_event f
      (record {
        tenant_id = tenant;
        event_type = event_type;
        aggregate_type = aggregate_type;
        aggregate_id = id;
        correlation_id = correlation;
        causation_id = none;
        automation_depth = none;
        dedupe_key = none;
      })
      rows)

abbrev pub audit_row :
    (tenant actor : Text) → Option Text → String → (target_type : String) → (id : Text) → AuditEvent
audit_row tenant actor correlation action target_type id = record {
  action = action;
  actor_user_id = some actor;
  correlation_id = correlation;
  outcome = success;
  target_id = some id;
  target_type = target_type;
  tenant_id = tenant;
}
