-- ===== src/Workflows/Tables.antt =====
-- The tables workflows, workflow_versions and workflow_executions of apps/api/prisma/schema.prisma and
-- what apps/api/src/workflows/runtime/workflow-dispatcher.service.ts reads of them. `W` is the part of
-- the database that only the executors of the actions read and write, `P` the parameters of an action,
-- `X` the payload of an event and `C` the conditions of a version. The columns of JSON hold the value
-- that is read from them, not its text.
use Prim.Native.String.{String}
use text.Mathlib.Text.{◌==◌ as str_eq}
use support_desk.Audit.{AuditEvent, success, failure}
use support_desk.Base.{
  ℕ, ◌+◌, ◌*◌, Text, text_eq, Bool, true, false, not, ◌&&◌, Option, none, some, List, [], ◌==◌, leb,
  if◌then◌else◌, is_some, any, find, filter, count_if, take,
}
use support_desk.Base.Sort.{sort_by}
use support_desk.Outbox.{OutboxEvent}
use support_desk.Workflows.{
  ActionAttempt, Failure, ExecutorState, succeeded, partial_failed, failed, ActionDefinition,
  ActionExecutor,
}

pub data PublicationState : Type 0 where
  draft published retired : PublicationState

abbrev is_published : PublicationState → Bool
is_published published = true
is_published _ = false

pub data ExecutionState : Type 0 where
  running execution_succeeded skipped_conditions execution_failed execution_partial_failed :
      ExecutionState
  execution_dead_lettered skipped_depth_cap : ExecutionState

abbrev pub is_running : ExecutionState → Bool
is_running running = true
is_running _ = false

-- FAILED, PARTIAL_FAILED or DEAD_LETTERED
abbrev pub counts_as_failure : ExecutionState → Bool
counts_as_failure execution_failed = true
counts_as_failure execution_partial_failed = true
counts_as_failure execution_dead_lettered = true
counts_as_failure _ = false

-- An entry of `triggers`: a text, an object with its eventType, if that is a text, or another value.
pub data Trigger : Type 0 where
  by_name : String → Trigger
  by_event_type : Option String → Trigger
  other_value : Trigger

abbrev is_trigger : String → Trigger → Bool
is_trigger event_type (by_name name) = str_eq name event_type
is_trigger event_type (by_event_type (some name)) = str_eq name event_type
is_trigger event_type (by_event_type none) = false
is_trigger event_type other_value = false

pub record WorkflowExecution : Type 0 where
  pub id : Text
  pub tenant_id : Text
  pub outbox_event_id : Text
  pub workflow_id : Text
  pub workflow_version_id : Text
  pub workflow_version_number : ℕ
  pub trigger_event_type : String
  pub priority : ℕ
  pub automation_depth : ℕ
  pub condition_passed : Option Bool
  pub state : ExecutionState
  pub last_error : Option Failure
  pub started_at : ℕ
  pub completed_at : Option ℕ

-- What the executors of the actions see of the database.
pub record Domain (W : Type 0) : Type 0 where
  pub outbox : List OutboxEvent
  pub audit_events : List AuditEvent
  pub rest : W

abbrev pub is_execution_id : Text → WorkflowExecution → Bool
is_execution_id id x = text_eq x.id id

-- `workflowExecution.update` at the end of an execution.
abbrev pub close :
    ℕ → (passed : Bool) → ExecutionState → Option Failure → WorkflowExecution → WorkflowExecution
close now passed state error x = record x {
  state = state;
  condition_passed = some passed;
  last_error = error;
  completed_at = some now;
}

abbrev pub final_state : ExecutorState → ExecutionState
final_state succeeded = execution_succeeded
final_state partial_failed = execution_partial_failed
final_state failed = execution_failed

abbrev pub workflow_audit : String → Bool → (tenant target : Text) → String → AuditEvent
workflow_audit action is_success tenant target target_type = record {
  action = action;
  actor_user_id = none;
  correlation_id = none;
  outcome = if is_success then success else failure;
  target_id = some target;
  target_type = target_type;
  tenant_id = tenant;
}

-- The failures of a workflow that began in the hour before `now`.
unfoldable pub recent_failures : ℕ → (tenant workflow : Text) → List WorkflowExecution → ℕ
recent_failures now tenant workflow = count_if (λ x.
    text_eq x.tenant_id tenant
    && text_eq x.workflow_id workflow
    && leb now (x.started_at + 60 * 60 * 1000)
    && counts_as_failure x.state)

module _ (W P X C : Type 0) where
  pub record WorkflowVersion : Type 0 where
    pub id : Text
    pub version_number : ℕ
    pub state : PublicationState
    pub triggers : List Trigger
    pub conditions : List C
    pub actions : List (Option (ActionDefinition (Domain W) P X))

  -- A row of workflows with its versions. The text of paused_reason stands by the number in it.
  pub record Workflow : Type 0 where
    pub id : Text
    pub tenant_id : Text
    pub priority : ℕ
    pub enabled : Bool
    pub paused_at : Option ℕ
    pub paused_reason : Option ℕ
    pub active_version_number : Option ℕ
    pub deleted_at : Option ℕ
    pub versions : List WorkflowVersion

  pub record Store : Type 0 where
    pub workflows : List Workflow
    pub executions : List WorkflowExecution
    pub attempts : List ActionAttempt
    pub domain : Domain W

  -- The executors, and what the runtime gives to a call: the instant, a new id for a version's
  -- execution, and whether another worker's insert of that execution comes first.
  pub record Env : Type 0 where
    pub executors : Text → Option (ActionExecutor (Domain W) P X)
    pub conditions_pass : List C → X → Bool
    pub payload : OutboxEvent → X
    pub now : ℕ
    pub new_id : Text → Text
    pub raced : Text → Bool

module _ {W P X C : Type 0} where
  -- `wf.versions.find((v) => v.versionNumber === wf.activeVersionNumber)` of the published versions.
  unfoldable pub active_version : Workflow W P X C → Option (WorkflowVersion W P X C)
  active_version w = elim w.active_version_number [
    | none ↦ none
    | some n ↦
        if n == 0
        then none
        else find (λ v. v.version_number == n) (filter (λ v. is_published v.state) w.versions)
  ]

  abbrev triggers_of : Option (WorkflowVersion W P X C) → List Trigger
  triggers_of none = []
  triggers_of (some v) = v.triggers

  -- The query and the filter behind it.
  abbrev pub can_match : OutboxEvent → Workflow W P X C → Bool
  can_match e w = text_eq w.tenant_id e.tenant_id && w.enabled && not (is_some w.deleted_at)

  unfoldable pub active_workflows : OutboxEvent → List (Workflow W P X C) → List (Workflow W P X C)
  unfolding active_version
  active_workflows e workflows =
      filter (λ w. any (is_trigger e.event_type) (triggers_of (active_version w)))
        (take 50 (sort_by (λ w. w.priority) (filter (can_match e) workflows)))

  -- `tenantId_outboxEventId_workflowVersionId`
  abbrev pub is_execution : OutboxEvent → WorkflowVersion W P X C → WorkflowExecution → Bool
  is_execution e v x =
      text_eq x.tenant_id e.tenant_id
      && text_eq x.outbox_event_id e.id
      && text_eq x.workflow_version_id v.id

  unfoldable pub new_execution :
      Env W P X C → OutboxEvent → Workflow W P X C → WorkflowVersion W P X C → WorkflowExecution
  new_execution env e w v = record {
    id = env.new_id v.id;
    tenant_id = e.tenant_id;
    outbox_event_id = e.id;
    workflow_id = w.id;
    workflow_version_id = v.id;
    workflow_version_number = v.version_number;
    trigger_event_type = e.event_type;
    priority = w.priority;
    automation_depth = e.automation_depth;
    condition_passed = none;
    state = running;
    last_error = none;
    started_at = env.now;
    completed_at = none;
  }
