-- ===== src/Workflows/Dispatcher/Completion.antt =====
-- The executions of the workflows of an event (workflow-dispatcher.service.ts, dispatchOutboxEvent).
use support_desk.Base.{
  ◌<◌, ◌≡◌, refl, ◌∙◌, inl, inr, Text, text_eq, text_eq_refl, Bool, true, false, Bool-cases,
  Option-cases, Result-cases, Option, none, some, List, [], ◌∷◌, ◌++◌, if◌then◌else◌, leb, find,
  update_where, In, arith,
}
use support_desk.Base.Finds.{find-append, find-append_left}
use support_desk.Outbox.{OutboxEvent, mark_processed}
use support_desk.Workflows.{
  ActionAttempt, ExecutorState, succeeded, partial_failed, failed, ExecutorResult,
  evaluate_recursion_budget, execute_actions,
}
use support_desk.Workflows.Tables.{
  ExecutionState, is_running, WorkflowExecution, Domain, WorkflowVersion, Workflow, Store, Env,
  skipped_conditions, active_version, active_workflows, is_execution, is_execution_id,
  new_execution, close, final_state,
}
use support_desk.Workflows.Dispatcher.{
  evaluate_auto_pause_threshold, failed_audit, record_result, job, run_execution, run_version,
  run_workflow, run_workflows, mark, dispatch_outbox_event,
}

find-update_any :
    {A : Type 0} (p q : A → Bool) (f : A → A) (xs : List A) (a : A)
    → ((x : A) → p (f x) ≡ p x)
    → find p xs ≡ some a
    → find p (update_where q f xs) ≡ some (if q a then f a else a)
find-update_any p q f [] a same h = cc
find-update_any p q f (x ∷ xs) a same h = elim (Bool-cases (p x)) [
  | inl e ↦
      let xa : x ≡ a = (ground arith) in
      let s = same x in let px : p (if q x then f x else x) ≡ true = (ground arith) in rw (px, xa)
  | inr e ↦
      let rest = find-update_any p q f xs a same (rw (e, if◌then◌else◌) at h) in
      let s = same x in let px : p (if q x then f x else x) ≡ false = (ground arith) in rw px rest
]

-- The executions `ys` are `xs` with those of one id ended.
record Closing (id : Text) (xs ys : List WorkflowExecution) : Type 0 where
  closed : WorkflowExecution → WorkflowExecution
  is_update : ys ≡ update_where (is_execution_id id) closed xs
  keeps_tenant : (x : WorkflowExecution) → (closed x).tenant_id ≡ x.tenant_id
  keeps_event : (x : WorkflowExecution) → (closed x).outbox_event_id ≡ x.outbox_event_id
  keeps_version : (x : WorkflowExecution) → (closed x).workflow_version_id ≡ x.workflow_version_id
  ends : (x : WorkflowExecution) → is_running (closed x).state ≡ false

final_state_ends : (x : ExecutorState) → is_running (final_state x) ≡ false
final_state_ends succeeded = refl
final_state_ends partial_failed = refl
final_state_ends failed = refl

module _ {W P X C : Type 0} (env : Env W P X C) (e : OutboxEvent) where
  failed_audit-executions :
      (w : Workflow W P X C) (id : Text) (x : ExecutionState) (s : Store W P X C)
      → (failed_audit env e w id x s).executions ≡ s.executions
  unfolding evaluate_auto_pause_threshold
  failed_audit-executions w id x s = ground arith

  record_result-Closing :
      (w : Workflow W P X C) (id : Text) (s : Store W P X C)
      (o : Domain W × List ActionAttempt × ExecutorResult)
      → Closing id s.executions (record_result env e w id s o).executions
  record_result-Closing w id s (domain, attempts, result) =
      let change = close env.now true (final_state result.state) result.last_error in
      record {
        closed = change;
        is_update = failed_audit-executions w id (final_state result.state) (record s {
          domain = domain;
          attempts = attempts;
          executions = update_where (is_execution_id id) change s.executions;
        });
        keeps_tenant = λ x. refl;
        keeps_event = λ x. refl;
        keeps_version = λ x. refl;
        ends = λ x. final_state_ends result.state;
      }

  run_execution-Closing :
      (w : Workflow W P X C) (v : WorkflowVersion W P X C) (id : Text) (s : Store W P X C)
      → Closing id s.executions (run_execution env e w v id s).executions
  unfolding run_execution
  run_execution-Closing w v id s =
      elim (Bool-cases (env.conditions_pass v.conditions (env.payload e))) [
        | inl passes ↦ rw passes (
            record_result-Closing w id s
              (execute_actions (job env e id) v.actions s.domain s.attempts))
        | inr fails ↦ rw fails (skipped_closes w id s)
      ]
    where
      skipped_closes :
          (w : Workflow W P X C) (id : Text) (s : Store W P X C)
          → Closing id s.executions (
              update_where
                (is_execution_id id)
                (λ x. close env.now false skipped_conditions x.last_error x)
                s.executions)
      skipped_closes w id s = record {
        closed = λ x. close env.now false skipped_conditions x.last_error x;
        is_update = refl;
        keeps_tenant = λ x. refl;
        keeps_event = λ x. refl;
        keeps_version = λ x. refl;
        ends = λ x. refl;
      }

module _ {W P X C : Type 0} (e : OutboxEvent) (v : WorkflowVersion W P X C) where
  -- The event's execution of the version is there, and is over.
  pub record IsOver (xs : List WorkflowExecution) : Type 0 where
    pub execution : WorkflowExecution
    pub is_found : find (is_execution e v) xs ≡ some execution
    pub is_over : is_running execution.state ≡ false

  Closing-find :
      (id : Text) (xs ys : List WorkflowExecution) (x : WorkflowExecution) (c : Closing id xs ys)
      → find (is_execution e v) xs ≡ some x
      → find (is_execution e v) ys ≡ some (if is_execution_id id x then c.closed x else x)
  Closing-find id xs ys x c h = rw c.is_update (
      find-update_any (is_execution e v) (is_execution_id id) c.closed xs x
        (λ y. rw (c.keeps_tenant y, c.keeps_event y, c.keeps_version y)) h)

  Closing-IsOver_kept :
      (id : Text) (xs ys : List WorkflowExecution) → Closing id xs ys → IsOver xs → IsOver ys
  Closing-IsOver_kept id xs ys c o = record {
    execution = if is_execution_id id o.execution then c.closed o.execution else o.execution;
    is_found = Closing-find id xs ys o.execution c o.is_found;
    is_over = elim (Bool-cases (is_execution_id id o.execution)) [
      | inl q ↦ rw q (c.ends o.execution)
      | inr q ↦ rw q o.is_over
    ];
  }

  Closing-IsOver :
      (xs ys : List WorkflowExecution) (x : WorkflowExecution)
      → Closing x.id xs ys
      → find (is_execution e v) xs ≡ some x
      → IsOver ys
  Closing-IsOver xs ys x c h = record {
    execution = c.closed x;
    is_found = Closing-find x.id xs ys x c h ∙ rw (text_eq_refl x.id);
    is_over = c.ends x;
  }

  append-IsOver :
      (x : WorkflowExecution) (xs : List WorkflowExecution) → IsOver xs → IsOver (xs ++ x ∷ [])
  append-IsOver x xs o = record {
    execution = o.execution;
    is_found = find-append_left (is_execution e v) xs (x ∷ []) o.execution o.is_found;
    is_over = o.is_over;
  }

-- Running one workflow for the event.
module _ {W P X C : Type 0} (env : Env W P X C) (e : OutboxEvent) where
  run_version-IsOver :
      (w : Workflow W P X C) (v : WorkflowVersion W P X C) (s : Store W P X C)
      → env.raced v.id ≡ false
      → (o : Option WorkflowExecution) → find (is_execution e v) s.executions ≡ o
      → IsOver e v (run_version env e w v o s).executions
  unfolding text_eq new_execution
  run_version-IsOver w v s alone none h =
      let x = new_execution env e w v in
      let begun : Store W P X C = record s { executions = s.executions ++ x ∷ [] } in
      rw alone (
        Closing-IsOver e v begun.executions (run_execution env e w v x.id begun).executions x
          (run_execution-Closing env e w v x.id begun)
          (find-append (is_execution e v) s.executions x h (is_own w v)))
    where
      is_own :
          (w : Workflow W P X C) (v : WorkflowVersion W P X C)
          → is_execution e v (new_execution env e w v) ≡ true
      is_own w v = rw (text_eq_refl e.tenant_id, text_eq_refl e.id, text_eq_refl v.id)
  run_version-IsOver w v s alone (some x) h = elim (Bool-cases (is_running x.state)) [
    | inl again ↦ rw again (
        Closing-IsOver e v s.executions (run_execution env e w v x.id s).executions x
          (run_execution-Closing env e w v x.id s) h)
    | inr done ↦ rw done (record { execution = x; is_found = h; is_over = done })
  ]

  -- The execution of a version stays over when another version runs.
  run_version-IsOver_kept :
      (w : Workflow W P X C) (v u : WorkflowVersion W P X C) (o : Option WorkflowExecution)
      (s : Store W P X C)
      → IsOver e u s.executions
      → IsOver e u (run_version env e w v o s).executions
  unfolding new_execution
  run_version-IsOver_kept w v u none s done = elim (Bool-cases (env.raced v.id)) [
    | inl lost ↦ rw lost done
    | inr won ↦
        let x = new_execution env e w v in
        let begun : Store W P X C = record s { executions = s.executions ++ x ∷ [] } in
        rw won (
          Closing-IsOver_kept e u x.id begun.executions
            (run_execution env e w v x.id begun).executions
            (run_execution-Closing env e w v x.id begun) (append-IsOver e u x s.executions done))
  ]
  run_version-IsOver_kept w v u (some x) s done = elim (Bool-cases (is_running x.state)) [
    | inl again ↦ rw again (
        Closing-IsOver_kept e u x.id s.executions (run_execution env e w v x.id s).executions
          (run_execution-Closing env e w v x.id s) done)
    | inr over ↦ rw over done
  ]

  run_workflow-active :
      (w : Workflow W P X C) (v : WorkflowVersion W P X C) (s : Store W P X C)
      → active_version w ≡ some v
      → run_workflow env e w s ≡ run_version env e w v (find (is_execution e v) s.executions) s
  unfolding run_workflow
  run_workflow-active w v s active = rw (active, run_workflow)

  pub run_workflow-inactive :
      (w : Workflow W P X C) (s : Store W P X C)
      → active_version w ≡ none
      → run_workflow env e w s ≡ s
  unfolding run_workflow
  run_workflow-inactive w s none_active = rw (none_active, run_workflow)

  run_workflow-IsOver_kept :
      (w : Workflow W P X C) (u : WorkflowVersion W P X C) (s : Store W P X C)
      → IsOver e u s.executions
      → IsOver e u (run_workflow env e w s).executions
  run_workflow-IsOver_kept w u s done = elim (Option-cases (active_version w)) [
    | inl none_active ↦ rw (run_workflow-inactive w s none_active) done
    | inr (v, active) ↦
        rw (run_workflow-active w v s active)
          (run_version-IsOver_kept w v u (find (is_execution e v) s.executions) s done)
  ]

  run_workflows-IsOver_kept :
      (ws : List (Workflow W P X C)) (u : WorkflowVersion W P X C) (s : Store W P X C)
      → IsOver e u s.executions
      → IsOver e u (run_workflows env e ws s).executions
  unfolding run_workflows
  run_workflows-IsOver_kept [] u s done = done
  run_workflows-IsOver_kept (w ∷ ws) u s done =
      run_workflows-IsOver_kept ws u (run_workflow env e w s) (run_workflow-IsOver_kept w u s done)

  run_workflows-IsOver :
      (ws : List (Workflow W P X C)) (w : Workflow W P X C) (v : WorkflowVersion W P X C)
      (s : Store W P X C)
      → In w ws
      → active_version w ≡ some v
      → env.raced v.id ≡ false
      → IsOver e v (run_workflows env e ws s).executions
  unfolding run_workflows
  run_workflows-IsOver [] w v s i active alone = absurd i
  run_workflows-IsOver (y ∷ ws) w v s (inl same) active alone =
      run_workflows-IsOver_kept ws v (run_workflow env e y s) (
        rw (run_workflow-active y v s (rw (← same) active))
          (run_version-IsOver y v s alone (find (is_execution e v) s.executions) refl))
  run_workflows-IsOver (y ∷ ws) w v s (inr i) active alone =
      run_workflows-IsOver ws w v (run_workflow env e y s) i active alone

  mark-executions : (s : Store W P X C) → (mark env e s).0.executions ≡ s.executions
  mark-executions s =
      elim (Result-cases (mark_processed env.now e.id e.tenant_id s.domain.outbox)) [
        | inl (rows, h) ↦ rw h
        | inr (x, h) ↦ rw h
      ]

  -- A dispatch of an event below the cap leaves no workflow behind: each of the workflows that the
  -- event triggers has an execution for it that is over, with whatever result, where no other
  -- worker inserted that execution meanwhile.
  pub dispatch_completes :
      (w : Workflow W P X C) (v : WorkflowVersion W P X C) (s : Store W P X C)
      → e.automation_depth < 3
      → In w (active_workflows e s.workflows)
      → active_version w ≡ some v
      → env.raced v.id ≡ false
      → IsOver e v (dispatch_outbox_event env e s).0.executions
  unfolding dispatch_outbox_event evaluate_recursion_budget
  dispatch_completes w v s below i active alone =
      let t = run_workflows env e (active_workflows e s.workflows) s in
      let free : leb 3 e.automation_depth ≡ false = (ground arith) in
      rw (free, mark-executions t)
        (run_workflows-IsOver (active_workflows e s.workflows) w v s i active alone)
