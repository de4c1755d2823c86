-- ===== src/Workflows/Dispatcher/Redelivery.antt =====
-- An event that is dispatched again after its dispatch (workflow-dispatcher.service.ts,
-- dispatchOutboxEvent).
use support_desk.Base.{
  ◌<◌, ◌≡◌, refl, ap₂, ◌∙◌, inl, inr, Text, text_eq, false, ◌&&◌, Option-cases, some, List, [], ◌∷◌,
  leb, find, In, arith,
}
use support_desk.Outbox.{OutboxEvent}
use support_desk.Workflows.{evaluate_recursion_budget}
use support_desk.Workflows.Tables.{
  WorkflowExecution, WorkflowVersion, Workflow, Store, Env, active_version, active_workflows,
}
use support_desk.Workflows.Dispatcher.{run_workflow, run_workflows, mark, dispatch_outbox_event}
use support_desk.Workflows.Dispatcher.Completion.{IsOver, run_workflow-inactive, dispatch_completes}

module _ {W P X C : Type 0} (e : OutboxEvent) where
  over_skips :
      (other : Env W P X C) (w : Workflow W P X C) (v : WorkflowVersion W P X C) (s : Store W P X C)
      → active_version w ≡ some v
      → IsOver e v s.executions
      → run_workflow other e w s ≡ s
  unfolding run_workflow
  over_skips other w v s active done = rw (active, run_workflow, done.is_found, done.is_over)

  -- Workflows whose executions for the event are over are all passed over.
  run_workflows-skips :
      (other : Env W P X C) (ws : List (Workflow W P X C)) (s : Store W P X C)
      → ((w : Workflow W P X C) (v : WorkflowVersion W P X C)
          → In w ws
          → active_version w ≡ some v
          → IsOver e v s.executions)
      → run_workflows other e ws s ≡ s
  unfolding run_workflows
  run_workflows-skips other [] s all_over = refl
  run_workflows-skips other (w ∷ ws) s all_over =
      let first : run_workflow other e w s ≡ s = elim (Option-cases (active_version w)) [
        | inl none_active ↦ run_workflow-inactive other e w s none_active
        | inr (v, active) ↦ over_skips other w v s active (all_over w v (inl refl) active)
      ] in
      rw first (run_workflows-skips other ws s (λ x v i active. all_over x v (inr i) active))

module _ {W P X C : Type 0} (env : Env W P X C) (e again : OutboxEvent) (same_id : again.id ≡ e.id)
    (same_tenant : again.tenant_id ≡ e.tenant_id) where
  again-IsOver :
      (v : WorkflowVersion W P X C) (xs : List WorkflowExecution)
      → IsOver e v xs
      → IsOver again v xs
  again-IsOver v xs done = record {
    execution = done.execution;
    is_found =
        ap₂
          (λ (tenant id : Text).
            find
              (λ (x : WorkflowExecution).
                text_eq x.tenant_id tenant
                && text_eq x.outbox_event_id id
                && text_eq x.workflow_version_id v.id)
              xs)
          same_tenant same_id
        ∙ done.is_found;
    is_over = done.is_over;
  }

  -- The event delivered again, with whatever lease and attempts, to this or to any other worker,
  -- below the cap: if no other worker raced the first dispatch, and the second triggers only
  -- workflows that the first did, then the second runs nothing. It does exactly what marking the
  -- row as processed does, and fails only where that fails.
  pub redelivery_skips :
      (s : Store W P X C) (other : Env W P X C)
      → e.automation_depth < 3
      → again.automation_depth < 3
      → ((v : Text) → env.raced v ≡ false)
      → ((w : Workflow W P X C)
          → In w (active_workflows again (dispatch_outbox_event env e s).0.workflows)
          → In w (active_workflows e s.workflows))
      → dispatch_outbox_event other again (dispatch_outbox_event env e s).0
        ≡ mark other again (dispatch_outbox_event env e s).0
  unfolding dispatch_outbox_event evaluate_recursion_budget
  redelivery_skips s other below again_below alone triggered =
      let t = (dispatch_outbox_event env e s).0 in
      let free : leb 3 again.automation_depth ≡ false = (ground arith) in
      let still : run_workflows other again (active_workflows again t.workflows) t ≡ t =
        run_workflows-skips again other (active_workflows again t.workflows) t (λ w v i active.
          again-IsOver v t.executions
            (dispatch_completes env e w v s below (triggered w i) active (alone v.id))) in
      rw (free, still)
