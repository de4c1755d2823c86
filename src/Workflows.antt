-- ===== src/Workflows.antt =====
-- The execution of the actions of a workflow, executeActions and recordAttemptFailure of
-- apps/api/src/workflows/runtime/workflow-executor.service.ts, and the budget for recursion of
-- apps/api/src/workflows/domain/workflow-recursion-budget.ts. The executors of the actions stand behind
-- their interface: functions of the rest of the database, `W`, which may throw. Parameters and payloads
-- are of any type; the parameters of an action are what `action.params ?? action` gives.
pub mod Attempts
pub mod Resumption
pub mod Tables
pub mod Conditions
pub mod Dispatcher
pub mod Actions
mod Tests
use Prim.Native.String.{String}
use support_desk.Base.{
  ℕ, suc, ◌+◌, min, Text, codes, text_eq, Bool, true, false, not, ◌&&◌, ◌==◌, Option, none, some,
  List, [], ◌∷◌, ◌++◌, if◌then◌else◌, leb, or_else, any, find, update_where, Result, ok, err,
}

abbrev pub platform_hard_max_automation_depth : ℕ
platform_hard_max_automation_depth = 3

pub record RecursionBudget : Type 0 where
  pub is_capped : Bool
  pub current_depth : ℕ
  pub max_allowed_depth : ℕ

abbrev pub effective_max : Option ℕ → ℕ
effective_max none = platform_hard_max_automation_depth
effective_max (some setting) = min setting platform_hard_max_automation_depth

unfoldable pub evaluate_recursion_budget : (depth : ℕ) → (setting : Option ℕ) → RecursionBudget
evaluate_recursion_budget depth setting = record {
  is_capped = leb (effective_max setting) depth;
  current_depth = depth;
  max_allowed_depth = effective_max setting;
}

pub data AttemptState : Type 0 where
  attempt_pending attempt_running attempt_succeeded attempt_failed attempt_dead : AttemptState

abbrev pub is_succeeded : AttemptState → Bool
is_succeeded attempt_succeeded = true
is_succeeded _ = false

-- A row of workflow_action_attempts, without the snapshot of its parameters and its times.
pub record ActionAttempt : Type 0 where
  pub tenant_id : Text
  pub execution_id : Text
  pub ordinal : ℕ
  pub action_type : Text
  pub state : AttemptState
  pub attempt_number : ℕ
  pub last_error : Option Text

-- What went wrong, where; `unknown_type` for a type without an executor.
pub data Failure : Type 0 where
  unknown_type : (ordinal : ℕ) (action_type : Text) → Failure
  thrown : (ordinal : ℕ) (action_type message : Text) → Failure

pub data ExecutorState : Type 0 where
  succeeded partial_failed failed : ExecutorState

pub record ExecutorResult : Type 0 where
  pub state : ExecutorState
  pub last_error : Option Failure

-- `where: { tenantId_executionId_ordinal: ... }`
abbrev pub is_attempt : (tenant execution : Text) → (ordinal : ℕ) → ActionAttempt → Bool
is_attempt tenant execution ordinal a =
    a.ordinal == ordinal && text_eq a.execution_id execution && text_eq a.tenant_id tenant

unfoldable pub find_attempt :
    (tenant execution : Text) → (ordinal : ℕ) → List ActionAttempt → Option ActionAttempt
find_attempt tenant execution ordinal rows = find (is_attempt tenant execution ordinal) rows

-- `upsert`: the rows that the test selects are changed, or a row is added.
unfoldable pub upsert :
    (ActionAttempt → Bool)
    → (ActionAttempt → ActionAttempt)
    → ActionAttempt
    → List ActionAttempt
    → List ActionAttempt
upsert p change row rows = if any p rows then update_where p change rows else rows ++ row ∷ []

abbrev pub new_attempt :
    (tenant execution : Text)
    → (ordinal : ℕ) → (action_type : Text) → AttemptState
    → (number : ℕ) → Option Text
    → ActionAttempt
new_attempt tenant execution ordinal action_type state number error = record {
  tenant_id = tenant;
  execution_id = execution;
  ordinal = ordinal;
  action_type = action_type;
  state = state;
  attempt_number = number;
  last_error = error;
}

abbrev pub restarted : ActionAttempt → ActionAttempt
restarted a = record a { state = attempt_running; attempt_number = a.attempt_number + 1 }

abbrev pub completed : ActionAttempt → ActionAttempt
completed a = record a { state = attempt_succeeded; last_error = none }

abbrev pub failed_state : (attempts max_attempts : ℕ) → AttemptState
failed_state attempts max = if leb max attempts then attempt_dead else attempt_failed

-- `recordAttemptFailure`
unfoldable pub record_attempt_failure :
    (tenant execution : Text)
    → (ordinal : ℕ) → (action_type message : Text) → (current_attempts max_attempts : ℕ)
    → List ActionAttempt
    → List ActionAttempt
unfolding upsert
record_attempt_failure tenant execution ordinal action_type message current max rows =
    let next = current + 1 in
    let state = failed_state next max in
    upsert (is_attempt tenant execution ordinal)
      (λ a. record a { state = state; attempt_number = next; last_error = some message })
      (new_attempt tenant execution ordinal action_type state next (some message)) rows

-- `existingAttempt?.attemptNumber ?? 0`
abbrev pub attempts_made : Option ActionAttempt → ℕ
attempts_made none = 0
attempts_made (some a) = a.attempt_number

abbrev pub is_done : Option ActionAttempt → Bool
is_done none = false
is_done (some a) = is_succeeded a.state

abbrev pub unknown_message : (action_type : Text) → Text
unknown_message action_type =
    codes "No executor registered for action type '" ++ action_type ++ codes "'"

module _ (W P X : Type 0) where
  pub record ActionDefinition : Type 0 where
    pub type_name : Option Text
    pub action_type : Option Text
    pub params : P

  pub record ExecutionContext : Type 0 where
    pub tenant_id : Text
    pub execution_id : Text
    pub ordinal : ℕ
    pub action_type : Text
    pub params : P
    pub payload : X
    pub parent_depth : ℕ
    pub correlation_id : Text

  -- `WorkflowActionExecutor.execute` in a transaction: the database that it leaves, or the error that
  -- it throws or returns, which rolls back.
  abbrev pub ActionExecutor : Type 0
  ActionExecutor = ExecutionContext → W → Result Text W

  -- The arguments of `executeActions`, and the executors that are registered.
  pub record Job : Type 0 where
    pub executors : Text → Option ActionExecutor
    pub execution_id : Text
    pub tenant_id : Text
    pub payload : X
    pub automation_depth : ℕ
    pub correlation_id : Text
    pub max_action_attempts : ℕ

  pub record Run : Type 0 where
    pub world : W
    pub attempts : List ActionAttempt
    pub has_success : Bool
    pub has_failure : Bool
    pub last_error : Option Failure

module _ {W P X : Type 0} where
  -- `action.type ?? action.actionType ?? ""`
  abbrev pub type_of : ActionDefinition W P X → Text
  type_of a = or_else a.type_name (or_else a.action_type [])

  abbrev pub context_of :
      Job W P X → (ordinal : ℕ) → ActionDefinition W P X → ExecutionContext W P X
  context_of j ordinal a = record {
    tenant_id = j.tenant_id;
    execution_id = j.execution_id;
    ordinal = ordinal;
    action_type = type_of a;
    params = a.params;
    payload = j.payload;
    parent_depth = j.automation_depth;
    correlation_id = j.correlation_id;
  }

  abbrev pub fail_action :
      Job W P X
      → (ordinal : ℕ) → (action_type message : Text) → Failure
      → (made : ℕ) → Run W P X
      → Run W P X
  fail_action j ordinal action_type message failure made r = record r {
    attempts =
        record_attempt_failure j.tenant_id j.execution_id ordinal action_type message made
          j.max_action_attempts r.attempts;
    has_failure = true;
    last_error = some failure;
  }

  -- The transaction: the attempt is RUNNING, the executor runs, and the attempt has SUCCEEDED; if it
  -- throws, only the failure is recorded.
  abbrev pub finish_action :
      Job W P X
      → (ordinal : ℕ) → (action_type : Text) → (made : ℕ) → Run W P X
      → Result Text W
      → Run W P X
  finish_action j ordinal action_type made r (ok world) =
      let p = is_attempt j.tenant_id j.execution_id ordinal in
      record r {
        world = world;
        attempts = update_where p completed (
            upsert p restarted
              (new_attempt j.tenant_id j.execution_id ordinal action_type attempt_running 1 none)
              r.attempts);
        has_success = true;
      }
  finish_action j ordinal action_type made r (err message) =
      fail_action j ordinal action_type message (thrown ordinal action_type message) made r

  abbrev pub attempt_action :
      Job W P X
      → (ordinal : ℕ) → ActionDefinition W P X
      → (made : ℕ) → Option (ActionExecutor W P X)
      → Run W P X
      → Run W P X
  attempt_action j ordinal a made none r =
      fail_action j ordinal (type_of a) (unknown_message (type_of a))
        (unknown_type ordinal (type_of a)) made r
  attempt_action j ordinal a made (some execute) r =
      finish_action j ordinal (type_of a) made r (execute (context_of j ordinal a) r.world)

  -- One round of the loop.
  unfoldable pub run_action :
      Job W P X → (ordinal : ℕ) → ActionDefinition W P X → Run W P X → Run W P X
  unfolding find_attempt record_attempt_failure upsert
  run_action j ordinal a r =
      let existing = find_attempt j.tenant_id j.execution_id ordinal r.attempts in
      if is_done existing
      then record r { has_success = true }
      else attempt_action j ordinal a (attempts_made existing) (j.executors (type_of a)) r

  -- The loop; an entry that is not there is passed over.
  unfoldable pub run_actions :
      Job W P X → (ordinal : ℕ) → List (Option (ActionDefinition W P X)) → Run W P X → Run W P X
  unfolding run_action
  run_actions j ordinal [] r = r
  run_actions j ordinal (none ∷ actions) r = run_actions j (suc ordinal) actions r
  run_actions j ordinal (some a ∷ actions) r =
      run_actions j (suc ordinal) actions (run_action j ordinal a r)

  abbrev pub result_of : Run W P X → ExecutorResult
  result_of r =
      if r.has_success && not r.has_failure
      then record { state = succeeded; last_error = none }
      else if r.has_success && r.has_failure
      then record { state = partial_failed; last_error = r.last_error }
      else record { state = failed; last_error = r.last_error }

  abbrev pub start : W → List ActionAttempt → Run W P X
  start world attempts = record {
    world = world;
    attempts = attempts;
    has_success = false;
    has_failure = false;
    last_error = none;
  }

  abbrev pub outcome : Run W P X → W × List ActionAttempt × ExecutorResult
  outcome r = (r.world, r.attempts, result_of r)

  unfoldable pub execute_actions :
      Job W P X
      → List (Option (ActionDefinition W P X))
      → W
      → List ActionAttempt
      → W × List ActionAttempt × ExecutorResult
  unfolding run_actions
  execute_actions j [] world attempts =
      (world, attempts, record { state = succeeded; last_error = none })
  execute_actions j (a ∷ actions) world attempts =
      outcome (run_actions j 0 (a ∷ actions) (start world attempts))
