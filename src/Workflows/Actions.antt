-- ===== src/Workflows/Actions.antt =====
-- The executors of the actions of workflows, apps/api/src/workflows/runtime/action-executors: what they
-- share, and the tables that they read and write. An error that an executor returns makes the caller
-- throw, so it is an `err` that leaves the tables as they were; the texts of the errors of the database
-- are the runtime's. References to rows of other tables are not checked.
pub mod Tickets
pub mod Others
pub mod Registry
pub mod Depth
pub mod Reopening
mod Tests
use Prim.Native.String.{String}
use support_desk.Assets.{Asset}
use support_desk.Assets.Lifecycle.{LifecycleState}
use support_desk.Audit.{AuditEvent, success}
use support_desk.Base.{
  ℕ, ◌+◌, Text, codes, text_eq, Bool, true, false, Option, none, some, List, [], ◌∷◌, ◌++◌, find,
  if◌then◌else◌, Result, ok, err,
}
use support_desk.Base.Json.{Json, Fields, get, property, text_of}
use support_desk.Outbox.{
  Fresh, OutboxEvent, OutboxError, DedupeKey, action_key, AppendOutboxParams, append_outbox_event,
}
use support_desk.Ticketing.Store.{User}
use support_desk.Ticketing.Ticket.{Ticket}
use support_desk.Workflows.{ExecutionContext, ActionExecutor}
use support_desk.Workflows.Tables.{Domain}

pub data CommentVisibility : Type 0 where
  public internal : CommentVisibility

pub record Comment : Type 0 where
  pub id : Text
  pub tenant_id : Text
  pub ticket_id : Text
  pub author_user_id : Text
  pub body : Text
  pub visibility : CommentVisibility
  pub version : ℕ

-- `intent:<tenant>:<execution>:<ordinal>:<recipient>`, by its parts, is the key of an intent.
pub record NotificationIntent : Type 0 where
  pub id : Text
  pub tenant_id : Text
  pub source_id : Text
  pub ordinal : ℕ
  pub recipient_user_id : Text
  pub channel : Text
  pub template_key : Text

pub data SlaTargetType : Type 0 where
  response resolution : SlaTargetType

pub data SlaTargetState : Type 0 where
  running paused met breached cancelled : SlaTargetState

pub record SlaTarget : Type 0 where
  pub id : Text
  pub tenant_id : Text
  pub ticket_id : Text
  pub type : SlaTargetType
  pub state : SlaTargetState
  pub due_at : ℕ
  pub paused_at : Option ℕ
  pub accumulated_pause_ms : ℕ
  pub completed_at : Option ℕ
  pub version : ℕ

-- An entry of asset_history that a workflow writes.
pub record AutomatedHistory : Type 0 where
  pub tenant_id : Text
  pub asset_id : Text
  pub from_state : LifecycleState
  pub to_state : LifecycleState
  pub execution_id : Text

pub record Rows : Type 0 where
  pub tickets : List Ticket
  pub users : List User
  pub comments : List Comment
  pub assets : List Asset
  pub asset_history : List AutomatedHistory
  pub notification_intents : List NotificationIntent
  pub sla_targets : List SlaTarget

-- What the runtime gives to an action, and the texts of the errors that the database throws.
pub record ActionFresh : Type 0 where
  pub fresh : Fresh
  pub row_id : Text
  pub outbox_message : OutboxError → Text
  pub invalid_message : Text

module _ (N : Type 0) where
  abbrev pub Context : Type 0
  Context = ExecutionContext (Domain Rows) (Fields N) (Fields N)

  abbrev pub Executor : Type 0
  Executor = ActionExecutor (Domain Rows) (Fields N) (Fields N)

-- `a ?? b`
abbrev pub or_option : {A : Type 0} → Option A → Option A → Option A
or_option (some a) b = some a
or_option none b = b

-- `if (!a) return { success: false, error }`
abbrev pub or_fail : {A : Type 0} → Text → Option A → Result Text A
or_fail message none = err message
or_fail message (some a) = ok a

-- A text that is not empty.
abbrev pub non_empty : Option Text → Option Text
non_empty (some (c ∷ s)) = some (c ∷ s)
non_empty _ = none

module _ {N : Type 0} where
  -- The first of the properties that is a text.
  abbrev pub first_text : List Text → Fields N → Option Text
  first_text [] fields = none
  first_text (key ∷ keys) fields = or_option (text_of (get key fields)) (first_text keys fields)

  -- `payload.<kind>Id ?? payload.<kind>.id ?? payload.aggregateId`
  unfoldable pub subject_id : (id_key object_key : Text) → Fields N → Option Text
  subject_id id_key object_key payload = non_empty (
      or_option (text_of (get id_key payload)) (
        or_option (text_of (property (get object_key payload) (codes "id")))
          (text_of (get (codes "aggregateId") payload))))

  abbrev pub ticket_id_of : Fields N → Option Text
  ticket_id_of payload = subject_id (codes "ticketId") (codes "ticket") payload

  abbrev pub automation_audit : Context N → String → String → (target : Text) → AuditEvent
  automation_audit c action target_type target = record {
    action = action;
    actor_user_id = none;
    correlation_id = none;
    outcome = success;
    target_id = some target;
    target_type = target_type;
    tenant_id = c.tenant_id;
  }

  abbrev pub automation_event :
      Context N
      → (event_type aggregate_type : String) → (id : Text) → (action : String) → AppendOutboxParams
  automation_event c event_type aggregate_type id action = record {
    tenant_id = c.tenant_id;
    event_type = event_type;
    aggregate_type = aggregate_type;
    aggregate_id = id;
    correlation_id = some c.correlation_id;
    causation_id = some c.execution_id;
    automation_depth = some (c.parent_depth + 1);
    dedupe_key = some (action_key c.execution_id c.ordinal action);
  }

-- The end of an action: its audit row and its event, with the rows that it changed.
unfoldable pub publish :
    ActionFresh → AuditEvent → AppendOutboxParams → Rows → Domain Rows → Result Text (Domain Rows)
publish f audit event rows d = elim (append_outbox_event f.fresh event d.outbox) [
  | err e ↦ err (f.outbox_message e)
  | ok outbox ↦
      ok (record { outbox = outbox; audit_events = d.audit_events ++ audit ∷ []; rest = rows })
]

-- `tx.ticket.findUnique({ where: { id } })` and the check of the tenant behind it.
abbrev pub of_tenant : Text → Option Ticket → Option Ticket
of_tenant tenant none = none
of_tenant tenant (some t) = if text_eq t.tenant_id tenant then some t else none

unfoldable pub find_ticket : (tenant id : Text) → List Ticket → Option Ticket
find_ticket tenant id tickets = of_tenant tenant (find (λ t. text_eq t.id id) tickets)

abbrev pub ticket_missing : Text → Text
ticket_missing id = codes "Ticket " ++ id ++ codes " not found for tenant"
