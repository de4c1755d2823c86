-- ===== src/Workflows/Dispatcher/Appends.antt =====
-- What a dispatch (workflow-dispatcher.service.ts, with executeActions of workflow-executor.service.ts)
-- adds to the outbox before it marks the event.
use support_desk.Base.{
  ℕ, suc, ◌+◌, ◌*◌, ◌≤◌, ◌≡◌, refl, ap, inl, inr, Text, true, Bool-cases, Option, none, some, List,
  [], ◌∷◌, ◌++◌, find, update_where, length, length-append, All, In, Result, ok, err, arith,
}
use support_desk.Outbox.{OutboxEvent}
use support_desk.Workflows.{
  ActionAttempt, ExecutorResult, ExecutionContext, ActionDefinition, ActionExecutor, Job, Run,
  run_action, run_actions, finish_action, attempt_action, execute_actions, find_attempt, is_done,
  attempts_made, type_of, context_of, start,
}
use support_desk.Workflows.Tables.{
  Domain, ExecutionState, Workflow, WorkflowVersion, WorkflowExecution, Store, Env, active_version,
  new_execution, is_execution, is_execution_id, close, final_state, is_running,
}
use support_desk.Workflows.Dispatcher.{
  evaluate_auto_pause_threshold, failed_audit, run_execution, run_version, run_workflow,
  run_workflows, job, record_result,
}

-- `ys` is `xs` with at most `m` more rows of the depth `d`.
pub record Appends (m d : ℕ) (xs ys : List OutboxEvent) : Type 0 where
  pub new_rows : List OutboxEvent
  pub is_append : ys ≡ xs ++ new_rows
  pub is_bounded : length new_rows ≤ m
  pub is_deeper : All (λ e. e.automation_depth ≡ d) new_rows

All-++ : {A : Type 0} (Q : A → Type 0) (xs ys : List A) → All Q xs → All Q ys → All Q (xs ++ ys)
All-++ Q [] ys h k = k
All-++ Q (x ∷ xs) ys h k = (h.0, All-++ Q xs ys h.1 k)

++_nil : {A : Type 0} (xs : List A) → xs ≡ xs ++ []
++_nil [] = refl
++_nil (x ∷ xs) = ap (λ ys. x ∷ ys) (++_nil xs)

++_assoc : {A : Type 0} (xs ys zs : List A) → (xs ++ ys) ++ zs ≡ xs ++ (ys ++ zs)
++_assoc [] ys zs = refl
++_assoc (x ∷ xs) ys zs = ap (λ l. x ∷ l) (++_assoc xs ys zs)

pub Appends-refl : (m d : ℕ) (xs : List OutboxEvent) → Appends m d xs xs
Appends-refl m d xs = record {
  new_rows = [];
  is_append = ++_nil xs;
  is_bounded = omega arith;
  is_deeper = tt;
}

Appends-trans :
    (m n d : ℕ) {xs ys zs : List OutboxEvent}
    → Appends m d xs ys
    → Appends n d ys zs
    → Appends (m + n) d xs zs
Appends-trans m n d {xs} p q = record {
  new_rows = p.new_rows ++ q.new_rows;
  is_append = rw (q.is_append, p.is_append) (++_assoc xs p.new_rows q.new_rows);
  is_bounded = omega (arith, length-append p.new_rows q.new_rows, p.is_bounded, q.is_bounded);
  is_deeper = All-++ (λ e. e.automation_depth ≡ d) p.new_rows q.new_rows p.is_deeper q.is_deeper;
}

Appends-weaken :
    (m n d : ℕ) {xs ys : List OutboxEvent} → m ≤ n → Appends m d xs ys → Appends n d xs ys
Appends-weaken m n d le p = record {
  new_rows = p.new_rows;
  is_append = p.is_append;
  is_bounded = omega (arith, p.is_bounded, le);
  is_deeper = p.is_deeper;
}

-- What the executors do with the outbox: they append at most `m` rows, one depth below the event.
abbrev pub AppendsBelow :
    {W P X : Type 0} → (m : ℕ) → (Text → Option (ActionExecutor (Domain W) P X)) → Type 0
AppendsBelow {W} {P} {X} m executors =
    (name : Text) (execute : ActionExecutor (Domain W) P X)
    → executors name ≡ some execute
    → (c : ExecutionContext (Domain W) P X) (d d' : Domain W) → execute c d ≡ ok d'
    → Appends m (c.parent_depth + 1) d.outbox d'.outbox

module _ {W P X : Type 0} (m : ℕ) (j : Job (Domain W) P X)
    (below : AppendsBelow m j.executors) where
  finish_action-Appends :
      (k made : ℕ) (a : ActionDefinition (Domain W) P X) (execute : ActionExecutor (Domain W) P X)
      (r : Run (Domain W) P X) (o : Result Text (Domain W))
      → j.executors (type_of a) ≡ some execute
      → execute (context_of j k a) r.world ≡ o
      → Appends m
          (j.automation_depth + 1)
          r.world.outbox
          (finish_action j k (type_of a) made r o).world.outbox
  finish_action-Appends k made a execute r (ok world) e h =
      below (type_of a) execute e (context_of j k a) r.world world h
  finish_action-Appends k made a execute r (err message) e h =
      Appends-refl m (j.automation_depth + 1) r.world.outbox

  attempt_action-Appends :
      (k made : ℕ) (a : ActionDefinition (Domain W) P X)
      (o : Option (ActionExecutor (Domain W) P X)) (r : Run (Domain W) P X)
      → j.executors (type_of a) ≡ o
      → Appends m
          (j.automation_depth + 1)
          r.world.outbox
          (attempt_action j k a made o r).world.outbox
  attempt_action-Appends k made a none r h = Appends-refl m (j.automation_depth + 1) r.world.outbox
  attempt_action-Appends k made a (some execute) r h =
      finish_action-Appends k made a execute r (execute (context_of j k a) r.world) h refl

  run_action-Appends :
      (k : ℕ) (a : ActionDefinition (Domain W) P X) (r : Run (Domain W) P X)
      → Appends m (j.automation_depth + 1) r.world.outbox (run_action j k a r).world.outbox
  unfolding run_action
  run_action-Appends k a r =
      let existing = find_attempt j.tenant_id j.execution_id k r.attempts in
      elim (Bool-cases (is_done existing)) [
        | inl before ↦ rw before (Appends-refl m (j.automation_depth + 1) r.world.outbox)
        | inr open_yet ↦
            rw open_yet
              (attempt_action-Appends k (attempts_made existing) a (j.executors (type_of a)) r refl)
      ]

  run_actions-Appends :
      (k : ℕ) (actions : List (Option (ActionDefinition (Domain W) P X))) (r : Run (Domain W) P X)
      → Appends
          (length actions * m)
          (j.automation_depth + 1)
          r.world.outbox
          (run_actions j k actions r).world.outbox
  unfolding run_actions
  run_actions-Appends k [] r = Appends-refl (0 * m) (j.automation_depth + 1) r.world.outbox
  run_actions-Appends k (none ∷ actions) r =
      Appends-weaken (length actions * m) (suc (length actions) * m) (j.automation_depth + 1)
        (grind arith) (run_actions-Appends (suc k) actions r)
  run_actions-Appends k (some a ∷ actions) r =
      Appends-weaken (m + length actions * m) (suc (length actions) * m) (j.automation_depth + 1)
        (grind arith)
        (Appends-trans m (length actions * m) (j.automation_depth + 1) (run_action-Appends k a r)
          (run_actions-Appends (suc k) actions (run_action j k a r)))

  execute_actions-Appends :
      (actions : List (Option (ActionDefinition (Domain W) P X))) (d : Domain W)
      (attempts : List ActionAttempt)
      → Appends
          (length actions * m)
          (j.automation_depth + 1)
          d.outbox
          (execute_actions j actions d attempts).0.outbox
  unfolding execute_actions
  execute_actions-Appends [] d attempts = Appends-refl (0 * m) (j.automation_depth + 1) d.outbox
  execute_actions-Appends (a ∷ actions) d attempts =
      run_actions-Appends 0 (a ∷ actions) (start d attempts)

-- The actions of a workflow are at most `a` in number.
abbrev pub IsSmall : {W P X C : Type 0} → (a : ℕ) → Workflow W P X C → Type 0
IsSmall {W} {P} {X} {C} a w =
    (v : WorkflowVersion W P X C) → active_version w ≡ some v → length v.actions ≤ a

module _ {W P X C : Type 0} (m a : ℕ) (env : Env W P X C) (e : OutboxEvent)
    (below : AppendsBelow m env.executors) where
  failed_audit-outbox :
      (w : Workflow W P X C) (id : Text) (x : ExecutionState) (s : Store W P X C)
      → (failed_audit env e w id x s).domain.outbox ≡ s.domain.outbox
  unfolding evaluate_auto_pause_threshold
  failed_audit-outbox w id x s = ground arith

  record_result-outbox :
      (w : Workflow W P X C) (id : Text) (s : Store W P X C)
      (o : Domain W × List ActionAttempt × ExecutorResult)
      → (record_result env e w id s o).domain.outbox ≡ o.0.outbox
  record_result-outbox w id s (domain, attempts, result) =
      failed_audit-outbox w id (final_state result.state) (record s {
        domain = domain;
        attempts = attempts;
        executions =
            update_where (is_execution_id id)
              (close env.now true (final_state result.state) result.last_error) s.executions;
      })

  run_execution-Appends :
      (w : Workflow W P X C) (v : WorkflowVersion W P X C) (id : Text) (s : Store W P X C)
      → length v.actions ≤ a
      → Appends
          (a * m)
          (e.automation_depth + 1)
          s.domain.outbox
          (run_execution env e w v id s).domain.outbox
  unfolding run_execution
  run_execution-Appends w v id s le =
      elim (Bool-cases (env.conditions_pass v.conditions (env.payload e))) [
        | inr fails ↦ rw fails (Appends-refl (a * m) (e.automation_depth + 1) s.domain.outbox)
        | inl passes ↦ rw passes (
            rw
              (record_result-outbox w id s
                (execute_actions (job env e id) v.actions s.domain s.attempts))
              (Appends-weaken (length v.actions * m) (a * m) (e.automation_depth + 1) (grind arith)
                (execute_actions-Appends m (job env e id) below v.actions s.domain s.attempts)))
      ]

  run_version-Appends :
      (w : Workflow W P X C) (v : WorkflowVersion W P X C) (o : Option WorkflowExecution)
      (s : Store W P X C)
      → length v.actions ≤ a
      → Appends
          (a * m)
          (e.automation_depth + 1)
          s.domain.outbox
          (run_version env e w v o s).domain.outbox
  run_version-Appends w v none s le = elim (Bool-cases (env.raced v.id)) [
    | inl lost ↦ rw lost (Appends-refl (a * m) (e.automation_depth + 1) s.domain.outbox)
    | inr won ↦ rw won (
        run_execution-Appends w v (env.new_id v.id)
          (record s { executions = s.executions ++ new_execution env e w v ∷ [] }) le)
  ]
  run_version-Appends w v (some x) s le = elim (Bool-cases (is_running x.state)) [
    | inl again ↦ rw again (run_execution-Appends w v x.id s le)
    | inr over ↦ rw over (Appends-refl (a * m) (e.automation_depth + 1) s.domain.outbox)
  ]

  run_workflow-Appends :
      (w : Workflow W P X C) (s : Store W P X C)
      → IsSmall a w
      → Appends
          (a * m)
          (e.automation_depth + 1)
          s.domain.outbox
          (run_workflow env e w s).domain.outbox
  unfolding run_workflow
  run_workflow-Appends w s small = of_version w s (active_version w) refl small
    where
      of_version :
          (w : Workflow W P X C) (s : Store W P X C) (o : Option (WorkflowVersion W P X C))
          → active_version w ≡ o
          → IsSmall a w
          → Appends
              (a * m)
              (e.automation_depth + 1)
              s.domain.outbox
              (run_workflow env e w s).domain.outbox
      of_version w s none none_active small =
          rw (none_active, run_workflow)
            (Appends-refl (a * m) (e.automation_depth + 1) s.domain.outbox)
      of_version w s (some v) active small =
          rw (active, run_workflow)
            (run_version-Appends w v (find (is_execution e v) s.executions) s (small v active))

  pub run_workflows-Appends :
      (ws : List (Workflow W P X C)) (s : Store W P X C)
      → ((w : Workflow W P X C) → In w ws → IsSmall a w)
      → Appends
          (length ws * (a * m))
          (e.automation_depth + 1)
          s.domain.outbox
          (run_workflows env e ws s).domain.outbox
  unfolding run_workflows
  run_workflows-Appends [] s small =
      Appends-refl (0 * (a * m)) (e.automation_depth + 1) s.domain.outbox
  run_workflows-Appends (w ∷ ws) s small =
      Appends-weaken (a * m + length ws * (a * m)) (suc (length ws) * (a * m))
        (e.automation_depth + 1) (grind arith)
        (Appends-trans (a * m) (length ws * (a * m)) (e.automation_depth + 1)
          (run_workflow-Appends w s (small w (inl refl)))
          (run_workflows-Appends ws (run_workflow env e w s) (λ x i. small x (inr i))))
