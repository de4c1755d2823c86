-- ===== src/Ticketing/Ticket.antt =====
-- The ticket aggregate, apps/api/src/ticketing/domain/ticket.aggregate.ts. A method that mutates
-- the aggregate returns the new ticket, an exception is an `err`, and `new Date()` is the
-- argument `now`, in milliseconds.
pub mod Status
pub mod Invariant
pub mod Moves
use support_desk.Base.{
  ℕ, ◌+◌, Text, trim, is_blank, is_uuid, Bool, true, false, not, Option, none, some, ◌==◌,
  if◌then◌else◌, is_some, or_else, Result, ok, err, ◌>>=◌, ◌>>◌, guard,
}
use support_desk.Outbox.{OutboxError}
use support_desk.Ticketing.Ticket.Status.{
  TicketStatus, new, open_, pending, on_hold, solved, closed, status_eq, valid_transitions,
  includes,
}

pub data TicketPriority : Type 0 where
  low medium high urgent : TicketPriority

pub data TicketChannel : Type 0 where
  web email api chat : TicketChannel

pub data TicketType : Type 0 where
  question incident problem feature_request : TicketType

-- `TKT-<n>`, or the text that stands for it until the row is inserted.
pub data PublicRef : Type 0 where
  placeholder : PublicRef
  tkt : ℕ → PublicRef

pub data TicketError : Type 0 where
  invalid_transition : TicketStatus → TicketStatus → TicketError
  concurrency : (expected current : ℕ) → TicketError
  closed_assignment : TicketError
  title_empty description_empty invalid_assignee invalid_group : TicketError
  tenant_required title_required description_required requester_required : TicketError
  not_found group_unsupported assignee_inactive reload_failed : TicketError
  outbox_failed : OutboxError → TicketError

-- `TicketProps`
pub record Ticket : Type 0 where
  pub id : Text
  pub tenant_id : Text
  pub public_ref : PublicRef
  pub title : Text
  pub description : Text
  pub status : TicketStatus
  pub priority : TicketPriority
  pub channel : TicketChannel
  pub type : TicketType
  pub requester_user_id : Text
  pub assignee_user_id : Option Text
  pub assigned_group_id : Option Text
  pub solved_at : Option ℕ
  pub closed_at : Option ℕ
  pub due_date : Option ℕ
  pub version : ℕ
  pub created_at : ℕ
  pub updated_at : ℕ
  pub deleted_at : Option ℕ

-- The reference is never blank, so its test is left out.
unfoldable pub validate_initial_props : Ticket → Result TicketError (Unit {0})
validate_initial_props t = do
  guard (not (is_blank t.tenant_id)) tenant_required
  guard (not (is_blank t.title)) title_required
  guard (not (is_blank t.description)) description_required
  guard (not (is_blank t.requester_user_id)) requester_required

-- `new TicketAggregate(props)`
unfoldable pub aggregate : Ticket → Result TicketError Ticket
unfolding validate_initial_props
aggregate t = do validate_initial_props t; ok t

pub record CreateParams : Type 0 where
  pub id : Text
  pub tenant_id : Text
  pub public_ref : PublicRef
  pub title : Text
  pub description : Text
  pub requester_user_id : Text
  pub priority : Option TicketPriority
  pub channel : Option TicketChannel
  pub type : Option TicketType
  pub assignee_user_id : Option Text
  pub assigned_group_id : Option Text
  pub due_date : Option ℕ

unfoldable pub create : ℕ → CreateParams → Result TicketError Ticket
unfolding aggregate
create now p = aggregate (record {
  id = p.id;
  tenant_id = p.tenant_id;
  public_ref = p.public_ref;
  title = trim p.title;
  description = trim p.description;
  status = new;
  priority = or_else p.priority medium;
  channel = or_else p.channel web;
  type = or_else p.type question;
  requester_user_id = p.requester_user_id;
  assignee_user_id = p.assignee_user_id;
  assigned_group_id = p.assigned_group_id;
  solved_at = none;
  closed_at = none;
  due_date = p.due_date;
  version = 1;
  created_at = now;
  updated_at = now;
  deleted_at = none;
})

unfoldable pub verify_version : Ticket → ℕ → Result TicketError (Unit {0})
verify_version t expected = guard (t.version == expected) (concurrency expected t.version)

-- The stamps that a move to a status sets: the middle part of `transitionTo`.
unfoldable pub stamp : ℕ → TicketStatus → Ticket → Ticket
stamp now solved t = record t { solved_at = some now }
stamp now closed t = record t { closed_at = some now }
stamp now open_ t = if is_some t.solved_at then record t { solved_at = none } else t
stamp now _ t = t

-- `transitionTo` behind its check of the version.
unfoldable pub change_status : ℕ → TicketStatus → Ticket → Result TicketError Ticket
unfolding stamp
change_status now new_status t =
    if status_eq t.status new_status
    then ok t
    else if includes (valid_transitions t.status) new_status
    then ok (record (stamp now new_status (record t { status = new_status; updated_at = now })) {
      version = t.version + 1;
    })
    else err (invalid_transition t.status new_status)

unfoldable pub transition_to : ℕ → TicketStatus → ℕ → Ticket → Result TicketError Ticket
unfolding verify_version change_status
transition_to now new_status expected t = do
  verify_version t expected
  change_status now new_status t

-- A field that the caller left out is `none`; one that the caller set to null is `some none`.
pub record UpdateParams : Type 0 where
  pub title : Option Text
  pub description : Option Text
  pub priority : Option TicketPriority
  pub channel : Option TicketChannel
  pub type : Option TicketType
  pub assignee_user_id : Option (Option Text)
  pub assigned_group_id : Option (Option Text)
  pub due_date : Option (Option ℕ)

-- `if (s !== undefined) { if (!s.trim()) throw e; field = s.trim(); }`
unfoldable pub update_text : Option Text → Text → TicketError → Result TicketError Text
update_text none old e = ok old
update_text (some s) old e = if is_blank s then err e else ok (trim s)

unfoldable pub update_fields : ℕ → UpdateParams → ℕ → Ticket → Result TicketError Ticket
unfolding verify_version
update_fields now p expected t = do
  verify_version t expected
  title ← update_text p.title t.title title_empty
  description ← update_text p.description t.description description_empty
  ok (record t {
    title = title;
    description = description;
    priority = or_else p.priority t.priority;
    channel = or_else p.channel t.channel;
    type = or_else p.type t.type;
    assignee_user_id = or_else p.assignee_user_id t.assignee_user_id;
    assigned_group_id = or_else p.assigned_group_id t.assigned_group_id;
    due_date = or_else p.due_date t.due_date;
    updated_at = now;
    version = t.version + 1;
  })

-- The assignee and the group before the call, for the audit event.
pub record Previous : Type 0 where
  pub assignee : Option Text
  pub group : Option Text

-- An id that is given and not null has to be a UUID.
unfoldable pub valid_id : Option (Option Text) → Bool
valid_id (some (some s)) = is_uuid s
valid_id _ = true

unfoldable pub verify_open : Ticket → Result TicketError (Unit {0})
verify_open t = guard (not (status_eq t.status closed)) closed_assignment

unfoldable pub assign :
    ℕ
    → (assignee group : Option (Option Text)) → ℕ
    → Ticket
    → Result TicketError (Ticket × Previous)
unfolding verify_version verify_open valid_id
assign now assignee group expected t = do
  verify_version t expected
  verify_open t
  guard (valid_id assignee) invalid_assignee
  guard (valid_id group) invalid_group
  ok (
    record t {
      assignee_user_id = or_else assignee t.assignee_user_id;
      assigned_group_id = or_else group t.assigned_group_id;
      updated_at = now;
      version = t.version + 1;
    },
    record { assignee = t.assignee_user_id; group = t.assigned_group_id },
  )

unfoldable pub unassign : ℕ → ℕ → Ticket → Result TicketError (Ticket × Previous)
unfolding verify_version verify_open
unassign now expected t = do
  verify_version t expected
  verify_open t
  ok (
    record t {
      assignee_user_id = none;
      assigned_group_id = none;
      updated_at = now;
      version = t.version + 1;
    },
    record { assignee = t.assignee_user_id; group = t.assigned_group_id },
  )
