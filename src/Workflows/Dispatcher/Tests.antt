-- ===== src/Workflows/Dispatcher/Tests.antt =====
-- The theorems on the dispatcher and on the conditions at a concrete event and its workflows.
use support_desk.Base.{
  ℕ, ◌+◌, ◌≤◌, ◌≡◌, refl, sym, inl, inr, ap, ◌++◌, or_else, Text, codes, text_eq, true, false,
  Option, none, some, [], ◌∷◌, Result, ok, err, ltb, ◌==◌, In, length, arith,
}
use support_desk.Base.Json.{text, object, Fields, end, field, Runtime, split, split_at, member}
use support_desk.Base.Sort.{insert, sort_by}
use support_desk.Outbox.{
  OutboxEvent, pending, event_key, append_outbox_event, outbox_row, mark_processed,
}
use support_desk.Workflows.{
  ActionDefinition, ActionExecutor, ExecutionContext, evaluate_recursion_budget, find_attempt,
  upsert, run_action, run_actions, execute_actions, record_attempt_failure,
}
use support_desk.Workflows.Conditions.{
  WorkflowCondition, equals, passes, evaluate_workflow_conditions, evaluate_condition,
  get_nested_value, walk,
}
use support_desk.Workflows.Dispatcher.Redelivery.{redelivery_skips}
use support_desk.Workflows.Dispatcher.{
  mark, dispatch_outbox_event, run_workflows, run_workflow, run_execution,
  evaluate_auto_pause_threshold,
}
use support_desk.Workflows.Dispatcher.Appends.{AppendsBelow, IsSmall}
use support_desk.Workflows.Dispatcher.Cascade.{over, dispatch, total, weight, Dispatches-end}
use support_desk.Workflows.Dispatcher.Completion.{IsOver, dispatch_completes}
use support_desk.Workflows.Tables.{
  by_name, published, Domain, WorkflowVersion, Workflow, Store, Env, active_version,
  active_workflows, new_execution, recent_failures,
}

run : Unit {0}
unfolding evaluate_recursion_budget find_attempt upsert run_action run_actions execute_actions
    record_attempt_failure dispatch_outbox_event run_workflows run_workflow run_execution
    evaluate_auto_pause_threshold total weight active_version active_workflows new_execution
    recent_failures append_outbox_event outbox_row mark_processed insert sort_by text_eq
run = tt

abbrev event : Text → ℕ → OutboxEvent
event id depth = record {
  id = id;
  tenant_id = codes "acme";
  event_type = "ticket.created";
  aggregate_type = "ticket";
  aggregate_id = codes "t1";
  dedupe_key = event_key "ticket.created" id id;
  correlation_id = codes "c";
  causation_id = none;
  automation_depth = depth;
  state = pending;
  attempt_count = 0;
  available_at = 5;
  lease_owner = none;
  lease_expires_at = none;
  last_error = none;
  created_at = 5;
  processed_at = none;
}

abbrev append_once : ExecutionContext (Domain ℕ) ℕ ℕ → Domain ℕ → Domain ℕ
append_once c d = record d { outbox = d.outbox ++ event (codes "new") (c.parent_depth + 1) ∷ [] }

abbrev append_again : ActionExecutor (Domain ℕ) ℕ ℕ
append_again c d = ok (append_once c d)

abbrev value_or : {A : Type 0} → A → Result Text A → A
value_or a (ok b) = b
value_or a (err e) = a

-- An executor that appends an event.
abbrev again : Text → Option (ActionExecutor (Domain ℕ) ℕ ℕ)
again name = some append_again

abbrev once : ActionDefinition (Domain ℕ) ℕ ℕ
once = record { type_name = some (codes "again"); action_type = none; params = 0 }

abbrev version : WorkflowVersion ℕ ℕ ℕ ℕ
version = record {
  id = codes "v1";
  version_number = 1;
  state = published;
  triggers = by_name "ticket.created" ∷ [];
  conditions = [];
  actions = some once ∷ [];
}

abbrev workflow : Workflow ℕ ℕ ℕ ℕ
workflow = record {
  id = codes "w1";
  tenant_id = codes "acme";
  priority = 1;
  enabled = true;
  paused_at = none;
  paused_reason = none;
  active_version_number = some 1;
  deleted_at = none;
  versions = version ∷ [];
}

abbrev env : Env ℕ ℕ ℕ ℕ
env = record {
  executors = again;
  conditions_pass = λ conditions payload. true;
  payload = λ e. 0;
  now = 10;
  new_id = λ v. codes "x1";
  raced = λ v. false;
}

abbrev first : OutboxEvent
first = event (codes "e1") 0

abbrev store : Store ℕ ℕ ℕ ℕ
store = record {
  workflows = workflow ∷ [];
  executions = [];
  attempts = [];
  domain = record { outbox = first ∷ []; audit_events = []; rest = 0 };
}

abbrev after : Store ℕ ℕ ℕ ℕ
after = (dispatch_outbox_event env first store).0

appends_one : length after.domain.outbox ≡ 2
unfolding run
appends_one = refl

active : active_workflows first store.workflows ≡ workflow ∷ []
unfolding run
active = refl

has_version : active_version workflow ≡ some version
unfolding run
has_version = refl

is_active : In workflow (active_workflows first store.workflows)
is_active = rw active (inl refl)

dispatch_completes_example : IsOver first version after.executions
dispatch_completes_example =
    dispatch_completes env first workflow version store (omega arith) is_active has_version refl

-- The row as another claim returns it.
abbrev first_again : OutboxEvent
first_again = record first { attempt_count = 1; lease_owner = some (codes "w2") }

abbrev fast : Env ℕ ℕ ℕ ℕ
fast = record env { executors = λ name. none; now = 20 }

triggered_before :
    (w : Workflow ℕ ℕ ℕ ℕ)
    → In w (active_workflows first_again after.workflows)
    → In w (active_workflows first store.workflows)
unfolding run
triggered_before w i = i

redelivery_skips_example :
    dispatch_outbox_event fast first_again after ≡ mark fast first_again after
redelivery_skips_example =
    redelivery_skips env first first_again refl refl store fast (omega arith) (omega arith)
      (λ v. refl) triggered_before

-- That executor keeps to one event, one depth below.
below : AppendsBelow 1 again
below name execute h c d d' r =
    let same : append_again ≡ execute = ap (λ o. or_else o execute) h in
    let done : ok (append_once c d) ≡ ok d' = rw (← same) at r in
    let rows : d'.outbox ≡ (append_once c d).outbox = sym (ap (λ x. (value_or d x).outbox) done) in
    record {
      new_rows = event (codes "new") (c.parent_depth + 1) ∷ [];
      is_append = rows;
      is_bounded = omega arith;
      is_deeper = (refl, tt);
    }

small : (w : Workflow ℕ ℕ ℕ ℕ) → In w store.workflows → IsSmall 1 w
unfolding run
small w (inl same) v h =
    let this : active_version w ≡ some version = rw same refl in
    let equal : v ≡ version = (cc) in rw equal (omega arith)
small w (inr i) v h = absurd i

Dispatches-end_example : 1 + total 50 after.domain.outbox ≤ total 50 store.domain.outbox
Dispatches-end_example =
    Dispatches-end 1 1 1 (dispatch env first below small (inl refl) refl refl (over after))

abbrev js : Runtime ℕ
js = record {
  prototype = λ key. none;
  num_eq = λ a b. a == b;
  num_lt = ltb;
  of_ℕ = λ n. n;
  parse_number = λ s. 0;
  is_finite = λ n. true;
  show_number = λ n. [];
  time_of = λ s. 0;
  to_lower = λ s. s;
  test_pattern = λ p s. none;
}

abbrev is_urgent : WorkflowCondition ℕ
is_urgent = record {
  field_path = codes "ticket.priority";
  operator = equals;
  value = some (text (codes "URGENT"));
}

abbrev snapshot : Fields ℕ
snapshot =
    field (codes "ticket") (object (field (codes "priority") (text (codes "URGENT")) end)) end

urgent_passes : (evaluate_workflow_conditions js (is_urgent ∷ []) snapshot).passed ≡ true
unfolding evaluate_workflow_conditions evaluate_condition get_nested_value passes walk split
    split_at member text_eq
urgent_passes = refl
