-- ===== src/Workflows/Resumption.antt =====
-- Running the actions of a workflow again (workflow-executor.service.ts, executeActions).
use support_desk.Base.{
  ℕ, suc, ◌≡◌, refl, sym, ap, subst, ◌∙◌, inl, inr, Text, Bool, true, false, Bool-cases, Option,
  none, some, List, [], ◌∷◌, Result, ok, err, arith,
}
use support_desk.Workflows.{
  ActionAttempt, succeeded, find_attempt, attempts_made, is_done, ActionDefinition, ActionExecutor,
  Job, Run, type_of, finish_action, attempt_action, run_action, run_actions, result_of, start,
  outcome, execute_actions, context_of,
}
use support_desk.Workflows.Attempts.{done_at, run_actions-keeps, run_action-done}

-- The attempt of each action, from an ordinal on, has succeeded.
abbrev AllDone :
    {W P X : Type 0} (tenant execution : Text)
    → ℕ
    → List (Option (ActionDefinition W P X))
    → List ActionAttempt
    → Type 0
AllDone tenant execution k [] rows = Unit {0}
AllDone tenant execution k (none ∷ actions) rows = AllDone tenant execution (suc k) actions rows
AllDone tenant execution k (some a ∷ actions) rows =
    (done_at tenant execution k rows ≡ true) × AllDone tenant execution (suc k) actions rows

-- A failure is not forgotten.
module _ {W P X : Type 0} (j : Job W P X) where
  attempt_action-failure :
      (k made : ℕ) (a : ActionDefinition W P X) (o : Option (ActionExecutor W P X)) (r : Run W P X)
      → (attempt_action j k a made o r).has_failure ≡ false
      → r.has_failure ≡ false
  attempt_action-failure k made a none r h = cc
  attempt_action-failure k made a (some execute) r h =
      of_result (execute (context_of j k a) r.world) h
    where
      of_result :
          (o : Result Text W)
          → (finish_action j k (type_of a) made r o).has_failure ≡ false
          → r.has_failure ≡ false
      of_result (ok world) h = h
      of_result (err message) h = cc

  run_action-failure :
      (k : ℕ) (a : ActionDefinition W P X) (r : Run W P X)
      → (run_action j k a r).has_failure ≡ false
      → r.has_failure ≡ false
  unfolding run_action
  run_action-failure k a r h =
      let existing = find_attempt j.tenant_id j.execution_id k r.attempts in
      elim (Bool-cases (is_done existing)) [
        | inl before ↦ rw before at h
        | inr open_yet ↦
            attempt_action-failure k (attempts_made existing) a (j.executors (type_of a)) r
              (rw open_yet at h)
      ]

  run_actions-failure :
      (k : ℕ) (actions : List (Option (ActionDefinition W P X))) (r : Run W P X)
      → (run_actions j k actions r).has_failure ≡ false
      → r.has_failure ≡ false
  unfolding run_actions
  run_actions-failure k [] r h = h
  run_actions-failure k (none ∷ actions) r h = run_actions-failure (suc k) actions r h
  run_actions-failure k (some a ∷ actions) r h =
      run_action-failure k a r (run_actions-failure (suc k) actions (run_action j k a r) h)

  run_actions-AllDone :
      (k : ℕ) (actions : List (Option (ActionDefinition W P X))) (r : Run W P X)
      → (run_actions j k actions r).has_failure ≡ false
      → AllDone j.tenant_id j.execution_id k actions (run_actions j k actions r).attempts
  unfolding run_actions
  run_actions-AllDone k [] r h = tt
  run_actions-AllDone k (none ∷ actions) r h = run_actions-AllDone (suc k) actions r h
  run_actions-AllDone k (some a ∷ actions) r h =
      let mid = run_action j k a r in
      (
        run_actions-keeps j k (suc k) actions mid (omega arith)
            ∙ run_action-done j k a r (run_actions-failure (suc k) actions mid h),
        run_actions-AllDone (suc k) actions mid h,
      )

-- Whether there is an action at all.
has_any : {W P X : Type 0} → List (Option (ActionDefinition W P X)) → Bool
has_any [] = false
has_any (none ∷ actions) = has_any actions
has_any (some a ∷ actions) = true

marked : {W P X : Type 0} → Bool → Run W P X → Run W P X
marked true r = record r { has_success = true }
marked false r = r

module _ {W P X : Type 0} (j : Job W P X) where
  none_to_run :
      (k : ℕ) (actions : List (Option (ActionDefinition W P X))) (r : Run W P X)
      → has_any actions ≡ false
      → run_actions j k actions r ≡ r
  unfolding run_actions has_any
  none_to_run k [] r h = refl
  none_to_run k (none ∷ actions) r h = none_to_run (suc k) actions r h
  none_to_run k (some a ∷ actions) r h = cc

  -- Actions that have all succeeded are passed over.
  all_passed_over :
      (k : ℕ) (actions : List (Option (ActionDefinition W P X))) (r : Run W P X)
      → AllDone j.tenant_id j.execution_id k actions r.attempts
      → run_actions j k actions r ≡ marked (has_any actions) r
  unfolding run_actions run_action has_any marked
  all_passed_over k [] r h = refl
  all_passed_over k (none ∷ actions) r h = all_passed_over (suc k) actions r h
  all_passed_over k (some a ∷ actions) r h =
      let next : Run W P X = record r { has_success = true } in
      rw h.0 (all_passed_over (suc k) actions next h.1 ∙ once (has_any actions) next refl)
    where
      once : (b : Bool) (r : Run W P X) → r.has_success ≡ true → marked b r ≡ r
      once true r h = ground arith
      once false r h = refl

result_of-succeeded :
    {W P X : Type 0} (r : Run W P X)
    → (result_of r).state ≡ succeeded
    → (r.has_success ≡ true) × (r.has_failure ≡ false)
result_of-succeeded r h = ground arith

-- A workflow that has succeeded is not executed again. If executeActions answers SUCCEEDED, then any
-- later call for the same execution with the same list of actions, whatever the executors are by then
-- and whatever the rest of the database, runs none of them: it answers SUCCEEDED and leaves the
-- attempts and the rest of the database as they are.
pub execute_actions_resumes :
    {W P X : Type 0} (j j' : Job W P X) (actions : List (Option (ActionDefinition W P X)))
    (world world' : W) (attempts : List ActionAttempt)
    → j'.tenant_id ≡ j.tenant_id
    → j'.execution_id ≡ j.execution_id
    → let r = execute_actions j actions world attempts in
      r.2.state ≡ succeeded
      → execute_actions j' actions world' r.1
        ≡ (world', r.1, record { state = succeeded; last_error = none })
unfolding execute_actions marked
execute_actions_resumes j j' [] world world' attempts et ee h = refl
execute_actions_resumes {W} {P} {X} j j' (a ∷ actions) world world' attempts et ee h =
    let r = run_actions j 0 (a ∷ actions) (start world attempts) in
    let (success, clean) = result_of-succeeded r h in
    let later : Run W P X = start world' r.attempts in
    let done_all =
      subst (λ t. AllDone t j'.execution_id 0 (a ∷ actions) r.attempts) (sym et)
        (subst (λ e. AllDone j.tenant_id e 0 (a ∷ actions) r.attempts) (sym ee)
          (run_actions-AllDone j 0 (a ∷ actions) (start world attempts) clean)) in
    ap outcome (all_passed_over j' 0 (a ∷ actions) later done_all)
    ∙ elim (Bool-cases (has_any (a ∷ actions))) [
      | inl some_there ↦ ap (λ b. outcome (marked b later)) some_there ∙ refl
      | inr none_there ↦
          let still = none_to_run j 0 (a ∷ actions) (start world attempts) none_there in
          let x = ap (λ (z : Run W P X). z.has_success) still in cc
    ]
