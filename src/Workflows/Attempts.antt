-- ===== src/Workflows/Attempts.antt =====
-- What an action of a workflow leaves of the attempts (workflow-executor.service.ts, executeActions).
use support_desk.Base.{
  ℕ, suc, ◌+◌, ◌<◌, ◌≡◌, refl, ap, ◌∙◌, inl, inr, Text, text_eq_refl, Bool, true, false, Bool-cases,
  Option, none, some, Option-cases, List, [], ◌∷◌, ◌++◌, any, find, update_where, Result, ok, err,
  arith,
}
use support_desk.Base.Members.{any-In, In-any, find-In}
use support_desk.Base.Finds.{find-update_where, find-append, find-none-In}
use support_desk.Workflows.{
  failed_state, Failure, thrown, unknown_type, unknown_message, context_of, attempt_running,
  ActionAttempt, is_attempt, find_attempt, upsert, new_attempt, restarted, completed,
  record_attempt_failure, attempts_made, is_done, ActionDefinition, ActionExecutor, Job, Run,
  type_of, fail_action, finish_action, attempt_action, run_action, run_actions,
}

-- A change of the rows that one test selects, seen by a test that never holds of those.
module _ (p q : ActionAttempt → Bool) (change : ActionAttempt → ActionAttempt)
    (apart : (x : ActionAttempt) → p x ≡ true → (q x ≡ false) × (q (change x) ≡ false)) where
  find-update_apart :
      (rows : List ActionAttempt) → find q (update_where p change rows) ≡ find q rows
  find-update_apart [] = refl
  find-update_apart (x ∷ rows) = elim (Bool-cases (p x)) [
    | inl hit ↦ rw (hit, (apart x hit).0, (apart x hit).1) (find-update_apart rows)
    | inr miss ↦ rw (miss, find-update_apart rows)
  ]

  find-append_apart :
      (row : ActionAttempt) (rows : List ActionAttempt)
      → q row ≡ false
      → find q (rows ++ row ∷ []) ≡ find q rows
  find-append_apart row [] other = rw other
  find-append_apart row (x ∷ rows) other = rw (find-append_apart row rows other)

  find-upsert_apart :
      (row : ActionAttempt) (rows : List ActionAttempt)
      → q row ≡ false
      → find q (upsert p change row rows) ≡ find q rows
  unfolding upsert
  find-upsert_apart row rows other = elim (Bool-cases (any p rows)) [
    | inl there ↦ rw there (find-update_apart rows)
    | inr new ↦ rw new (find-append_apart row rows other)
  ]

-- The row that an upsert leaves is found.
find-upsert_own :
    (p : ActionAttempt → Bool) (change : ActionAttempt → ActionAttempt) (row : ActionAttempt)
    (rows : List ActionAttempt)
    → ((x : ActionAttempt) → p (change x) ≡ p x)
    → p row ≡ true
    → (a : ActionAttempt) × (find p (upsert p change row rows) ≡ some a)
unfolding upsert
find-upsert_own p change row rows same hit = elim (Option-cases (find p rows)) [
  | inr (a, there) ↦
      let (m, holds) = find-In p a rows there in
      let met = In-any p a rows m holds in
      (change a, rw met (find-update_where p p change rows a same there holds))
  | inl gone ↦ elim (Bool-cases (any p rows)) [
    | inl met ↦
        let (a, m, holds) = any-In p rows met in let missed = find-none-In p a rows gone m in cc
    | inr unmet ↦ (row, rw unmet (find-append p rows row gone hit))
  ]
]

module _ (tenant execution : Text) where
  -- Whether the attempt of an ordinal has succeeded.
  abbrev pub done_at : ℕ → List ActionAttempt → Bool
  done_at ordinal rows = is_done (find_attempt tenant execution ordinal rows)

  other_ordinal :
      (i k : ℕ) (a : ActionAttempt)
      → i < k
      → is_attempt tenant execution k a ≡ true
      → is_attempt tenant execution i a ≡ false
  other_ordinal i k a less h = ground arith

  own_ordinal :
      (k : ℕ) (a : ActionAttempt)
      → a.ordinal ≡ k
      → a.execution_id ≡ execution
      → a.tenant_id ≡ tenant
      → is_attempt tenant execution k a ≡ true
  own_ordinal k a eo ee et =
      rw (eo, ee, et, text_eq_refl tenant, text_eq_refl execution) (ground arith)

module _ {W P X : Type 0} (j : Job W P X) where
  abbrev pub done : ℕ → List ActionAttempt → Bool
  done = done_at j.tenant_id j.execution_id

  -- An action leaves the attempts of the ordinals before it as they are.
  upsert-keeps :
      (i k : ℕ) (change : ActionAttempt → ActionAttempt) (row : ActionAttempt)
      (rows : List ActionAttempt)
      → i < k
      → ((x : ActionAttempt)
          → is_attempt j.tenant_id j.execution_id i (change x)
            ≡ is_attempt j.tenant_id j.execution_id i x)
      → row.ordinal ≡ k
      → row.execution_id ≡ j.execution_id
      → row.tenant_id ≡ j.tenant_id
      → find_attempt j.tenant_id j.execution_id i
          (upsert (is_attempt j.tenant_id j.execution_id k) change row rows)
        ≡ find_attempt j.tenant_id j.execution_id i rows
  unfolding find_attempt
  upsert-keeps i k change row rows less same eo ee et =
      let own = own_ordinal j.tenant_id j.execution_id k row eo ee et in
      let apart = other_ordinal j.tenant_id j.execution_id i k in
      find-upsert_apart (is_attempt j.tenant_id j.execution_id k)
        (is_attempt j.tenant_id j.execution_id i) change
        (λ x h. (apart x less h, same x ∙ apart x less h)) row rows (apart row less own)

  fail_action-keeps :
      (i k made : ℕ) (action_type message : Text) (f : Failure) (r : Run W P X)
      → i < k
      → done i (fail_action j k action_type message f made r).attempts ≡ done i r.attempts
  unfolding record_attempt_failure
  fail_action-keeps i k made action_type message f r less =
      let next = made + 1 in
      let state = failed_state next j.max_action_attempts in
      ap is_done (
        upsert-keeps i k
          (λ a. record a { state = state; attempt_number = next; last_error = some message })
          (new_attempt j.tenant_id j.execution_id k action_type state next (some message))
          r.attempts less (λ x. refl) refl refl refl)

  finish_action-keeps :
      (i k made : ℕ) (action_type : Text) (r : Run W P X) (o : Result Text W)
      → i < k
      → done i (finish_action j k action_type made r o).attempts ≡ done i r.attempts
  unfolding find_attempt
  finish_action-keeps i k made action_type r (err message) less =
      fail_action-keeps i k made action_type message (thrown k action_type message) r less
  finish_action-keeps i k made action_type r (ok world) less =
      let p = is_attempt j.tenant_id j.execution_id k in
      let q = is_attempt j.tenant_id j.execution_id i in
      let row = new_attempt j.tenant_id j.execution_id k action_type attempt_running 1 none in
      let apart = other_ordinal j.tenant_id j.execution_id i k in
      ap is_done (
        find-update_apart p q completed (λ x h. (apart x less h, apart x less h))
          (upsert p restarted row r.attempts)
        ∙ upsert-keeps i k restarted row r.attempts less (λ x. refl) refl refl refl)

  attempt_action-keeps :
      (i k made : ℕ) (a : ActionDefinition W P X) (o : Option (ActionExecutor W P X))
      (r : Run W P X)
      → i < k
      → done i (attempt_action j k a made o r).attempts ≡ done i r.attempts
  attempt_action-keeps i k made a none r less =
      fail_action-keeps i k made (type_of a) (unknown_message (type_of a))
        (unknown_type k (type_of a)) r less
  attempt_action-keeps i k made a (some execute) r less =
      finish_action-keeps i k made (type_of a) r (execute (context_of j k a) r.world) less

  pub run_action-keeps :
      (i k : ℕ) (a : ActionDefinition W P X) (r : Run W P X)
      → i < k
      → done i (run_action j k a r).attempts ≡ done i r.attempts
  unfolding run_action
  run_action-keeps i k a r less =
      elim (Bool-cases (is_done (find_attempt j.tenant_id j.execution_id k r.attempts))) [
        | inl before ↦ rw before refl
        | inr open_yet ↦ rw open_yet (
            attempt_action-keeps i k
              (attempts_made (find_attempt j.tenant_id j.execution_id k r.attempts)) a
              (j.executors (type_of a)) r less)
      ]

  pub run_actions-keeps :
      (i k : ℕ) (actions : List (Option (ActionDefinition W P X))) (r : Run W P X)
      → i < k
      → done i (run_actions j k actions r).attempts ≡ done i r.attempts
  unfolding run_actions
  run_actions-keeps i k [] r less = refl
  run_actions-keeps i k (none ∷ actions) r less =
      run_actions-keeps i (suc k) actions r (omega (arith, less))
  run_actions-keeps i k (some a ∷ actions) r less =
      run_actions-keeps i (suc k) actions (run_action j k a r) (omega (arith, less))
      ∙ run_action-keeps i k a r less

  finish_action-done :
      (k made : ℕ) (action_type : Text) (r : Run W P X) (o : Result Text W)
      → (finish_action j k action_type made r o).has_failure ≡ false
      → done k (finish_action j k action_type made r o).attempts ≡ true
  unfolding find_attempt
  finish_action-done k made action_type r (err message) h = cc
  finish_action-done k made action_type r (ok world) h =
      let p = is_attempt j.tenant_id j.execution_id k in
      let row = new_attempt j.tenant_id j.execution_id k action_type attempt_running 1 none in
      let (a, there) =
        find-upsert_own p restarted row r.attempts (λ x. refl)
          (own_ordinal j.tenant_id j.execution_id k row refl refl refl) in
      let rows = upsert p restarted row r.attempts in
      ap is_done
        (find-update_where p p completed rows a (λ x. refl) there (find-In p a rows there).1)

  attempt_action-done :
      (k made : ℕ) (a : ActionDefinition W P X) (o : Option (ActionExecutor W P X)) (r : Run W P X)
      → (attempt_action j k a made o r).has_failure ≡ false
      → done k (attempt_action j k a made o r).attempts ≡ true
  attempt_action-done k made a none r h = cc
  attempt_action-done k made a (some execute) r h =
      finish_action-done k made (type_of a) r (execute (context_of j k a) r.world) h

  pub run_action-done :
      (k : ℕ) (a : ActionDefinition W P X) (r : Run W P X)
      → (run_action j k a r).has_failure ≡ false
      → done k (run_action j k a r).attempts ≡ true
  unfolding run_action
  run_action-done k a r h =
      let existing = find_attempt j.tenant_id j.execution_id k r.attempts in
      elim (Bool-cases (is_done existing)) [
        | inl before ↦ rw (before, before) refl
        | inr open_yet ↦ rw open_yet (
            attempt_action-done k (attempts_made existing) a (j.executors (type_of a)) r
              (rw open_yet at h))
      ]
