-- ===== src/Workflows/Actions/Tickets.antt =====
-- The executors that change a ticket: change-status-action.executor.ts, assign-action.executor.ts and
-- add-comment-action.executor.ts of apps/api/src/workflows/runtime/action-executors.
use Prim.Native.String.{String}
use support_desk.Base.{
  ℕ, ◌+◌, Text, codes, text_eq, is_blank, Bool, not, ◌&&◌, Option, none, some, List, [], ◌∷◌, ◌++◌,
  or_else, find, update_where, if◌then◌else◌, Result, ok, err, ◌>>=◌, ◌>>◌, guard,
}
use support_desk.Base.Json.{Fields, get, text_of}
use support_desk.Ticketing.Store.{User}
use support_desk.Ticketing.Ticket.{Ticket}
use support_desk.Ticketing.Ticket.Status.{
  TicketStatus, new, open_, pending, on_hold, solved, closed, status_eq,
}
use support_desk.Workflows.Actions.{
  CommentVisibility, public, internal, Rows, ActionFresh, Executor, or_fail, first_text,
  ticket_id_of, subject_id, automation_audit, automation_event, publish, find_ticket,
  ticket_missing,
}

-- A text among those of an enumeration.
abbrev pub named : {A : Type 0} → List (String × A) → Text → Option A
named [] s = none
named ((name, a) ∷ names) s = if text_eq s (codes name) then some a else named names s

abbrev pub status_names : List (String × TicketStatus)
status_names =
    ("NEW", new)
    ∷ ("OPEN", open_)
    ∷ ("PENDING", pending)
    ∷ ("ON_HOLD", on_hold)
    ∷ ("SOLVED", solved)
    ∷ ("CLOSED", closed)
    ∷ []

-- The columns that the change of status writes.
unfoldable pub with_status : ℕ → TicketStatus → Ticket → Ticket
with_status now status t = record t {
  status = status;
  solved_at = if status_eq status solved then some now else t.solved_at;
  closed_at = if status_eq status closed then some now else t.closed_at;
  version = t.version + 1;
  updated_at = now;
}

abbrev pub update_ticket : (id : Text) → (Ticket → Ticket) → Rows → Rows
update_ticket id change rows = record rows {
  tickets = update_where (λ t. text_eq t.id id) change rows.tickets;
}

abbrev pub is_active_user : Text → User → Bool
is_active_user id u = text_eq u.id id && u.is_active

-- `if (assigneeUserId) { ... }`
unfoldable pub require_active : Option Text → List User → Result Text (Unit {0})
require_active (some (a ∷ id)) users = elim (find (is_active_user (a ∷ id)) users) [
  | none ↦ err (codes "Assignee user " ++ ((a ∷ id) ++ codes " is not active in tenant"))
  | some user ↦ ok tt
]
require_active _ users = ok tt

-- `visibility`: INTERNAL, unless a text is given, which the database refuses if it names none.
abbrev pub visibility_of : (invalid : Text) → Option Text → Result Text CommentVisibility
visibility_of invalid none = ok internal
visibility_of invalid (some s) =
    or_fail invalid (named (("PUBLIC", public) ∷ ("INTERNAL", internal) ∷ []) s)

module _ {N : Type 0} where
  -- `rawStatus`
  unfoldable pub target_status : Fields N → Text
  target_status params =
      or_else (first_text (codes "status" ∷ codes "toStatus" ∷ codes "targetStatus" ∷ []) params) []

  unfoldable pub change_status : ActionFresh → Executor N
  unfolding target_status subject_id find_ticket with_status
  change_status f c d = do
    id ← or_fail (codes "Missing ticket ID in workflow payload") (ticket_id_of c.payload)
    status ←
        or_fail (codes "Invalid target status '" ++ (target_status c.params ++ codes "'"))
          (named status_names (target_status c.params))
    ticket ← or_fail (ticket_missing id) (find_ticket c.tenant_id id d.rest.tickets)
    if status_eq ticket.status status
        then ok d
        else publish f (automation_audit c "ticket.status_changed" "ticket" id)
            (automation_event c "ticket.status_changed" "ticket" id "change_status")
            (update_ticket id (λ t. with_status f.fresh.now status t) d.rest) d

  unfoldable pub assign : ActionFresh → Executor N
  unfolding require_active subject_id find_ticket
  assign f c d = do
    id ← or_fail (codes "Missing ticket ID in workflow payload") (ticket_id_of c.payload)
    let assignee = first_text (codes "assigneeUserId" ∷ codes "assigneeId" ∷ []) c.params
    let group = first_text (codes "assignedGroupId" ∷ codes "groupId" ∷ []) c.params
    ticket ← or_fail (ticket_missing id) (find_ticket c.tenant_id id d.rest.tickets)
    require_active assignee d.rest.users
    publish f (automation_audit c "ticket.assigned" "ticket" id)
        (automation_event c "ticket.assigned" "ticket" id "assign")
        (update_ticket id
          (λ t. record t {
            assignee_user_id = assignee;
            assigned_group_id = group;
            version = t.version + 1;
            updated_at = f.fresh.now;
          })
          d.rest)
        d

  unfoldable pub add_comment : ActionFresh → Executor N
  unfolding subject_id find_ticket is_blank
  add_comment f c d = do
    id ← or_fail (codes "Missing ticket ID in workflow payload") (ticket_id_of c.payload)
    let body = or_else (first_text (codes "body" ∷ codes "commentBody" ∷ []) c.params) []
    guard (not (is_blank body)) (codes "Comment body cannot be empty")
    ticket ← or_fail (ticket_missing id) (find_ticket c.tenant_id id d.rest.tickets)
    visibility ← visibility_of f.invalid_message (text_of (get (codes "visibility") c.params))
    publish f (automation_audit c "comment.created" "comment" f.row_id)
        (automation_event c "comment.added" "comment" f.row_id "add_comment")
        (record d.rest {
          comments =
              d.rest.comments
              ++ record {
                id = f.row_id;
                tenant_id = c.tenant_id;
                ticket_id = id;
                author_user_id =
                    or_else (text_of (get (codes "authorUserId") c.params))
                      ticket.requester_user_id;
                body = body;
                visibility = visibility;
                version = 1;
              }
                ∷ [];
        })
        d
