-- ===== src/Workflows/Dispatcher.antt =====
-- The dispatch of an outbox event to the workflows that it triggers, dispatchOutboxEvent and
-- evaluateAutoPauseThreshold of apps/api/src/workflows/runtime/workflow-dispatcher.service.ts.
pub mod Batch
pub mod Appends
pub mod Cascade
pub mod Completion
pub mod Redelivery
mod Tests
use Prim.Native.String.{String}
use support_desk.Audit.{AuditEvent}
use support_desk.Base.{
  ℕ, ◌+◌, Text, text_eq, Bool, true, false, not, Option, none, some, List, [], ◌∷◌, ◌++◌, leb,
  if◌then◌else◌, find, update_where, Result, ok, err,
}
use support_desk.Base.Actions.{Action}
use support_desk.Outbox.{OutboxEvent, OutboxError, mark_processed}
use support_desk.Workflows.{
  evaluate_recursion_budget, ActionAttempt, ExecutorResult, Job, execute_actions,
}
use support_desk.Workflows.Tables.{
  ExecutionState, running, skipped_conditions, is_running, counts_as_failure, WorkflowExecution,
  Domain, WorkflowVersion, Workflow, Store, Env, active_version, active_workflows, is_execution,
  new_execution, is_execution_id, close, final_state, workflow_audit, recent_failures,
}

module _ {W P X C : Type 0} where
  abbrev pub audited : AuditEvent → Store W P X C → Store W P X C
  audited a s = record s {
    domain = record s.domain { audit_events = s.domain.audit_events ++ a ∷ [] };
  }

  abbrev pub pause : ℕ → (failures : ℕ) → Workflow W P X C → Workflow W P X C
  pause now failures w = record w {
    enabled = false;
    paused_at = some now;
    paused_reason = some failures;
  }

  unfoldable pub evaluate_auto_pause_threshold :
      ℕ → (tenant workflow : Text) → Store W P X C → Store W P X C
  unfolding recent_failures
  evaluate_auto_pause_threshold now tenant workflow s =
      let failures = recent_failures now tenant workflow s.executions in
      if leb 10 failures
      then audited (workflow_audit "workflow.paused" true tenant workflow "workflow") (record s {
        workflows = update_where (λ w. text_eq w.id workflow) (pause now failures) s.workflows;
      })
      else s

  abbrev pub job : Env W P X C → OutboxEvent → (execution_id : Text) → Job (Domain W) P X
  job env e execution_id = record {
    executors = env.executors;
    execution_id = execution_id;
    tenant_id = e.tenant_id;
    payload = env.payload e;
    automation_depth = e.automation_depth;
    correlation_id = e.correlation_id;
    max_action_attempts = 5;
  }

  abbrev pub failed_audit :
      Env W P X C
      → OutboxEvent
      → Workflow W P X C
      → (execution_id : Text) → ExecutionState
      → Store W P X C
      → Store W P X C
  failed_audit env e w id state s =
      if counts_as_failure state
      then evaluate_auto_pause_threshold env.now e.tenant_id w.id (
          audited
            (workflow_audit "workflow.execution_failed" false e.tenant_id id "workflow_execution")
            s)
      else s

  -- The result of the actions, recorded.
  abbrev pub record_result :
      Env W P X C
      → OutboxEvent
      → Workflow W P X C
      → (execution_id : Text) → Store W P X C
      → Domain W × List ActionAttempt × ExecutorResult
      → Store W P X C
  record_result env e w id s (domain, attempts, result) =
      let state = final_state result.state in
      failed_audit env e w id state (record s {
        domain = domain;
        attempts = attempts;
        executions =
            update_where (is_execution_id id) (close env.now true state result.last_error)
              s.executions;
      })

  -- The conditions and the actions of an execution that is RUNNING.
  unfoldable pub run_execution :
      Env W P X C
      → OutboxEvent
      → Workflow W P X C
      → WorkflowVersion W P X C
      → (execution_id : Text) → Store W P X C
      → Store W P X C
  unfolding evaluate_auto_pause_threshold
  run_execution env e w v id s =
      if not (env.conditions_pass v.conditions (env.payload e))
      then record s {
        executions =
            update_where (is_execution_id id)
              (λ x. close env.now false skipped_conditions x.last_error x) s.executions;
      }
      else record_result env e w id s (execute_actions (job env e id) v.actions s.domain s.attempts)

  -- The execution of a version is found, or created unless another worker was faster.
  abbrev pub run_version :
      Env W P X C
      → OutboxEvent
      → Workflow W P X C
      → WorkflowVersion W P X C
      → Option WorkflowExecution
      → Store W P X C
      → Store W P X C
  run_version env e w v (some x) s =
      if is_running x.state then run_execution env e w v x.id s else s
  run_version env e w v none s =
      if env.raced v.id
      then s
      else run_execution env e w v (env.new_id v.id)
          (record s { executions = s.executions ++ new_execution env e w v ∷ [] })

  -- One round of the loop.
  unfoldable pub run_workflow :
      Env W P X C → OutboxEvent → Workflow W P X C → Store W P X C → Store W P X C
  unfolding active_version new_execution run_execution
  run_workflow env e w s = elim (active_version w) [
    | none ↦ s
    | some v ↦ run_version env e w v (find (is_execution e v) s.executions) s
  ]

  unfoldable pub run_workflows :
      Env W P X C → OutboxEvent → List (Workflow W P X C) → Store W P X C → Store W P X C
  unfolding run_workflow
  run_workflows env e [] s = s
  run_workflows env e (w ∷ ws) s = run_workflows env e ws (run_workflow env e w s)

  abbrev pub with_outbox : Store W P X C → List OutboxEvent → Store W P X C
  with_outbox s rows = record s { domain = record s.domain { outbox = rows } }

  abbrev marked :
      Store W P X C
      → Result OutboxError (List OutboxEvent)
      → Store W P X C × Result OutboxError (Unit {0})
  marked s (ok rows) = (with_outbox s rows, ok tt)
  marked s (err e) = (s, err e)

  abbrev pub mark : Env W P X C → OutboxEvent → Action (Store W P X C) OutboxError (Unit {0})
  mark env e s = marked s (mark_processed env.now e.id e.tenant_id s.domain.outbox)

  unfoldable pub dispatch_outbox_event :
      Env W P X C → OutboxEvent → Action (Store W P X C) OutboxError (Unit {0})
  unfolding run_workflows active_workflows
  dispatch_outbox_event env e s =
      if (evaluate_recursion_budget e.automation_depth none).is_capped
      then mark env e (
          audited
            (workflow_audit "workflow.automation_depth_capped" true e.tenant_id e.id "outbox_event")
            s)
      else mark env e (run_workflows env e (active_workflows e s.workflows) s)
