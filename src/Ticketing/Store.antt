-- ===== src/Ticketing/Store.antt =====
-- The repository of tickets, apps/api/src/ticketing/tickets.repository.ts. A transaction takes the
-- tables and returns them changed, or an error that leaves them as they were.
pub mod Conflicts
pub mod References
use Prim.Native.String.{String}
use support_desk.Base.{
  ℕ, ◌+◌, Text, text_eq, Bool, true, false, not, ◌&&◌, ◌||◌, Option, none, some, List, [], ◌∷◌,
  ◌++◌, ◌==◌, if◌then◌else◌, is_some, any, find, count_if, update_where, Result, ok, err, ◌>>=◌,
  ◌>>◌,
}
use support_desk.Audit.{AuditEvent, AuditOutcome, success}
use support_desk.Outbox.{Fresh, OutboxEvent, OutboxError, AppendOutboxParams, append_outbox_event}
use support_desk.Ticketing.Ticket.{
  Ticket, TicketError, PublicRef, placeholder, tkt, concurrency, reload_failed, outbox_failed,
  aggregate,
}
use support_desk.Ticketing.Ticket.Status.{status_eq}

-- A role of a user: its tenant, and whether it or its definition is withdrawn.
pub record UserRole : Type 0 where
  pub tenant_id : Text
  pub revoked_at : Option ℕ
  pub role_deleted_at : Option ℕ

pub record User : Type 0 where
  pub id : Text
  pub deleted_at : Option ℕ
  pub is_active : Bool
  pub roles : List UserRole

-- The tables that the ticket repository reads and writes.
pub record Tables : Type 0 where
  pub tickets : List Ticket
  pub users : List User
  pub audit_events : List AuditEvent
  pub outbox_events : List OutboxEvent

abbrev pub is_row : (tenant id : Text) → Ticket → Bool
is_row tenant id t = text_eq t.tenant_id tenant && text_eq t.id id

-- `{ deletedAt: null, id, tenantId }`
abbrev pub is_live_row : (tenant id : Text) → Ticket → Bool
is_live_row tenant id t = is_row tenant id t && not (is_some t.deleted_at)

unfoldable pub find_by_id : (tenant id : Text) → Tables → Result TicketError (Option Ticket)
find_by_id tenant id db = elim (find (is_live_row tenant id) db.tickets) [
  | none ↦ ok none
  | some record_ ↦ aggregate record_ >>= λ t. ok (some t)
]

abbrev pub in_tenant : Text → Ticket → Bool
in_tenant tenant t = text_eq t.tenant_id tenant

-- `TKT-${count + 1001}`, the count being of all the tenant's rows.
unfoldable pub next_public_ref : Text → List Ticket → PublicRef
next_public_ref tenant tickets = tkt (count_if (in_tenant tenant) tickets + 1001)

-- An error of the outbox ends the transaction.
abbrev pub lift_outbox {ℓ} : {A : Type ℓ} → Result OutboxError A → Result TicketError A
lift_outbox (ok a) = ok a
lift_outbox (err e) = err (outbox_failed e)

abbrev pub ticket_event : String → Ticket → Option Text → AppendOutboxParams
ticket_event event_type t correlation = record {
  tenant_id = t.tenant_id;
  event_type = event_type;
  aggregate_type = "ticket";
  aggregate_id = t.id;
  correlation_id = correlation;
  causation_id = none;
  automation_depth = none;
  dedupe_key = none;
}

-- The row of a new ticket: the database sets the creation and the update to the same instant.
unfoldable pub create_row : ℕ → PublicRef → Ticket → Ticket
create_row now public_ref props = record props {
  public_ref = public_ref;
  created_at = now;
  updated_at = now;
  deleted_at = none;
}

unfoldable pub create_with_audit :
    Fresh → Ticket → AuditEvent → Tables → Result TicketError (Tables × Ticket)
unfolding create_row next_public_ref
create_with_audit f props audit db =
    let row = create_row f.now (next_public_ref props.tenant_id db.tickets) props in
    do
      outbox ← lift_outbox (
          append_outbox_event f (ticket_event "ticket.created" row audit.correlation_id)
            db.outbox_events)
      created ← aggregate row
      ok (
        record db {
          tickets = db.tickets ++ row ∷ [];
          audit_events = db.audit_events ++ audit ∷ [];
          outbox_events = outbox;
        },
        created,
      )

-- The columns that an update writes.
unfoldable pub write_columns : ℕ → Ticket → Ticket → Ticket
write_columns now props row = record row {
  assigned_group_id = props.assigned_group_id;
  assignee_user_id = props.assignee_user_id;
  channel = props.channel;
  closed_at = props.closed_at;
  description = props.description;
  due_date = props.due_date;
  priority = props.priority;
  solved_at = props.solved_at;
  status = props.status;
  title = props.title;
  type = props.type;
  version = props.version;
  updated_at = now;
}

-- `{ id, tenantId, version: expectedVersion }`
abbrev pub is_version_of : Ticket → ℕ → Ticket → Bool
is_version_of props expected t = is_row props.tenant_id props.id t && t.version == expected

-- The version that the error of a lost race names.
abbrev pub current_version : Ticket → Option Ticket → ℕ
current_version props none = props.version
current_version props (some t) = t.version

unfoldable pub reload : Ticket → List Ticket → Result TicketError (List Ticket × Ticket)
reload props tickets = elim (find (is_live_row props.tenant_id props.id) tickets) [
  | none ↦ err reload_failed
  | some row ↦ aggregate row >>= λ t. ok (tickets, t)
]

unfoldable pub update_with_client :
    ℕ → Ticket → ℕ → List Ticket → Result TicketError (List Ticket × Ticket)
unfolding write_columns reload
update_with_client now props expected tickets =
    if any (is_version_of props expected) tickets
    then reload props
        (update_where (is_version_of props expected) (write_columns now props) tickets)
    else err (
        concurrency expected
          (current_version props (find (is_live_row props.tenant_id props.id) tickets)))

-- `===` on a nullable id
abbrev pub id_eq : Option Text → Option Text → Bool
id_eq none none = true
id_eq none (some b) = false
id_eq (some a) none = false
id_eq (some a) (some b) = text_eq a b

abbrev pub status_changed : Option Ticket → Ticket → Bool
status_changed none u = false
status_changed (some t) u = not (status_eq t.status u.status)

abbrev pub assignment_changed : Option Ticket → Ticket → Bool
assignment_changed none u = false
assignment_changed (some t) u =
    not (id_eq t.assignee_user_id u.assignee_user_id)
    || not (id_eq t.assigned_group_id u.assigned_group_id)

-- `if (test) await appendOutboxEvent(…)`
abbrev pub append_if :
    Bool → Fresh → AppendOutboxParams → List OutboxEvent → Result TicketError (List OutboxEvent)
append_if test f p rows = if test then lift_outbox (append_outbox_event f p rows) else ok rows

-- The events of an update: for a change of the status, and for one of the assignment.
unfoldable pub append_changes :
    (f g : Fresh)
    → Option Ticket
    → Ticket
    → Option Text
    → List OutboxEvent
    → Result TicketError (List OutboxEvent)
append_changes f g previous updated correlation rows = do
  rows' ←
      append_if (status_changed previous updated) f
        (ticket_event "ticket.status_changed" updated correlation) rows
  append_if (assignment_changed previous updated) g
      (ticket_event "ticket.assigned" updated correlation) rows'

unfoldable pub update_with_audit :
    (f g : Fresh) → Ticket → ℕ → AuditEvent → Tables → Result TicketError (Tables × Ticket)
update_with_audit f g props expected audit db = do
  let previous = find (λ t. text_eq t.id props.id) db.tickets
  (tickets, updated) ← update_with_client f.now props expected db.tickets
  outbox ← append_changes f g previous updated audit.correlation_id db.outbox_events
  ok (
    record db {
      tickets = tickets;
      audit_events = db.audit_events ++ audit ∷ [];
      outbox_events = outbox;
    },
    updated,
  )

abbrev pub is_member : Text → UserRole → Bool
is_member tenant r =
    text_eq r.tenant_id tenant && not (is_some r.revoked_at) && not (is_some r.role_deleted_at)

unfoldable pub find_active_user_in_tenant : (tenant user : Text) → List User → Option User
find_active_user_in_tenant tenant user users =
    find
      (λ u.
        text_eq u.id user
        && not (is_some u.deleted_at)
        && u.is_active
        && any (is_member tenant) u.roles)
      users
