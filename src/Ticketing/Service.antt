-- ===== src/Ticketing/Service.antt =====
-- The operations that change tickets, apps/api/src/ticketing/tickets.service.ts. What the service
-- asks of the notifications and of the SLA engine behind a commit is listed in the order of the
-- calls; neither throws (createSafe, and the try blocks of sla-engine.service.ts).
pub mod Effects
use Prim.Native.String.{String}
use support_desk.Base.{
  ℕ, Text, text_eq, Bool, true, false, not, ◌&&◌, ◌||◌, Option, none, some, List, [], ◌∷◌, ◌++◌,
  map, if◌then◌else◌, is_some, or_else, Result, ok, err, ◌>>=◌, ◌>>◌, guard,
}
use support_desk.Audit.{AuditEvent, success}
use support_desk.Outbox.{Fresh}
use support_desk.Ticketing.Ticket.{
  Ticket, TicketError, TicketPriority, TicketChannel, TicketType, placeholder, UpdateParams,
  Previous, not_found, group_unsupported, assignee_inactive, create, transition_to, update_fields,
  assign, unassign,
}
use support_desk.Ticketing.Ticket.Status.{TicketStatus}
use support_desk.Ticketing.Store.{
  Tables, find_by_id, create_with_audit, update_with_audit, find_active_user_in_tenant, id_eq,
}

pub data NoticeType : Type 0 where
  ticket_status_changed ticket_assigned ticket_reassigned : NoticeType

pub record Notice : Type 0 where
  pub recipient_user_id : Text
  pub event_type : NoticeType
  pub resource_id : Text
  pub actor_user_id : Text

pub data SlaCall : Type 0 where
  on_ticket_created : Ticket → SlaCall
  on_ticket_status_changed : Ticket → TicketStatus → SlaCall

pub record Desk : Type 0 where
  pub tables : Tables
  pub notices : List Notice
  pub sla_calls : List SlaCall

-- Who asks, for which tenant, and what the runtime supplies to the call.
pub record Request : Type 0 where
  pub tenant_id : Text
  pub actor_user_id : Text
  pub correlation_id : Option Text
  pub fresh : Fresh
  pub fresh' : Fresh

abbrev pub audit_of : String → Request → Text → AuditEvent
audit_of action r id = record {
  action = action;
  actor_user_id = some r.actor_user_id;
  correlation_id = r.correlation_id;
  outcome = success;
  target_id = some id;
  target_type = "ticket";
  tenant_id = r.tenant_id;
}

abbrev pub required : Option Ticket → Result TicketError Ticket
required none = err not_found
required (some t) = ok t

unfoldable pub get_ticket_by_id : (tenant id : Text) → Tables → Result TicketError Ticket
get_ticket_by_id tenant id db = find_by_id tenant id db >>= required

pub record NewTicket : Type 0 where
  pub title : Text
  pub description : Text
  pub priority : Option TicketPriority
  pub channel : Option TicketChannel
  pub type : Option TicketType
  pub assignee_user_id : Option Text
  pub assigned_group_id : Option Text
  pub due_date : Option ℕ

-- `ticket_id` is the service's own `randomUUID()`; the requester is the actor.
unfoldable pub create_ticket :
    Request → (ticket_id : Text) → NewTicket → Desk → Result TicketError (Desk × Ticket)
create_ticket r ticket_id n w = do
  aggregate ← create r.fresh.now (record {
    id = ticket_id;
    tenant_id = r.tenant_id;
    public_ref = placeholder;
    title = n.title;
    description = n.description;
    requester_user_id = r.actor_user_id;
    priority = n.priority;
    channel = n.channel;
    type = n.type;
    assignee_user_id = n.assignee_user_id;
    assigned_group_id = n.assigned_group_id;
    due_date = n.due_date;
  })
  (db, created) ←
      create_with_audit r.fresh aggregate (audit_of "ticket.created" r aggregate.id) w.tables
  ok (record w { tables = db; sla_calls = w.sla_calls ++ on_ticket_created created ∷ [] }, created)

unfoldable pub update_ticket :
    Request → (id : Text) → UpdateParams → ℕ → Desk → Result TicketError (Desk × Ticket)
update_ticket r id p expected w = do
  ticket ← get_ticket_by_id r.tenant_id id w.tables
  changed ← update_fields r.fresh.now p expected ticket
  (db, updated) ←
      update_with_audit r.fresh r.fresh' changed expected (audit_of "ticket.updated" r changed.id)
        w.tables
  ok (record w { tables = db }, updated)

-- The set of the requester and the assignee, if there is one: each person once.
abbrev pub recipients : Ticket → List Text
recipients t = t.requester_user_id ∷ elim t.assignee_user_id [
  | none ↦ []
  | some a ↦ if text_eq a t.requester_user_id then [] else a ∷ []
]

abbrev pub notice : NoticeType → Request → Ticket → Text → Notice
notice event_type r t recipient = record {
  recipient_user_id = recipient;
  event_type = event_type;
  resource_id = t.id;
  actor_user_id = r.actor_user_id;
}

unfoldable pub transition_status :
    Request → (id : Text) → TicketStatus → ℕ → Desk → Result TicketError (Desk × Ticket)
transition_status r id new_status expected w = do
  ticket ← get_ticket_by_id r.tenant_id id w.tables
  moved ← transition_to r.fresh.now new_status expected ticket
  (db, updated) ←
      update_with_audit r.fresh r.fresh' moved expected
        (audit_of "ticket.status_changed" r moved.id) w.tables
  ok (
    record w {
      tables = db;
      notices = w.notices ++ map (notice ticket_status_changed r updated) (recipients updated);
      sla_calls = w.sla_calls ++ on_ticket_status_changed updated ticket.status ∷ [];
    },
    updated,
  )

-- The test of the assignee that `assignTicket` makes before it changes the ticket. An empty text is
-- falsy, so it is left to the aggregate to refuse.
unfoldable pub check_assignee : Text → Option (Option Text) → Tables → Result TicketError (Unit {0})
check_assignee tenant (some (some [])) db = ok tt
check_assignee tenant (some (some user)) db =
    guard (is_some (find_active_user_in_tenant tenant user db.users)) assignee_inactive
check_assignee tenant _ db = ok tt

-- `a !== b` where `a` may be undefined, which no stored value is.
abbrev pub differs : Option (Option Text) → Option Text → Bool
differs none old = true
differs (some a) old = not (id_eq a old)

abbrev pub is_reassign : Option (Option Text) → Option (Option Text) → Ticket → Bool
is_reassign assignee group t =
    is_some t.assignee_user_id
    && (differs assignee t.assignee_user_id || differs group t.assigned_group_id)

abbrev pub assign_notices : Bool → Request → Ticket → List Notice
assign_notices reassign r t = elim t.assignee_user_id [
  | none ↦ []
  | some a ↦ notice (if reassign then ticket_reassigned else ticket_assigned) r t a ∷ []
]

abbrev pub is_given : Option (Option Text) → Bool
is_given (some (some a)) = true
is_given _ = false

unfoldable pub assign_ticket :
    Request
    → (id : Text) → (assignee group : Option (Option Text)) → ℕ
    → Desk
    → Result TicketError (Desk × Ticket)
assign_ticket r id assignee group expected w = do
  ticket ← get_ticket_by_id r.tenant_id id w.tables
  guard (not (is_given group)) group_unsupported
  check_assignee r.tenant_id assignee w.tables
  let reassign = is_reassign assignee group ticket
  (changed, previous) ← assign r.fresh.now assignee group expected ticket
  (db, updated) ←
      update_with_audit r.fresh r.fresh' changed expected
        (audit_of (if reassign then "ticket.reassigned" else "ticket.assigned") r changed.id)
        w.tables
  ok (record w { tables = db; notices = w.notices ++ assign_notices reassign r updated }, updated)

unfoldable pub unassign_ticket :
    Request → (id : Text) → ℕ → Desk → Result TicketError (Desk × Ticket)
unassign_ticket r id expected w = do
  ticket ← get_ticket_by_id r.tenant_id id w.tables
  (changed, previous) ← unassign r.fresh.now expected ticket
  (db, updated) ←
      update_with_audit r.fresh r.fresh' changed expected
        (audit_of "ticket.unassigned" r changed.id) w.tables
  ok (record w { tables = db }, updated)
