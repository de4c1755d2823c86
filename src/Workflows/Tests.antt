-- ===== src/Workflows/Tests.antt =====
-- The theorem on workflows at a concrete execution.
use support_desk.Base.{
  ℕ, ◌+◌, ◌≡◌, refl, Text, codes, text_eq, Option, none, some, List, [], ◌∷◌, if◌then◌else◌, ok,
}
use support_desk.Workflows.{
  succeeded, find_attempt, upsert, ActionDefinition, ActionExecutor, Job, run_action, run_actions,
  execute_actions,
}
use support_desk.Workflows.Resumption.{execute_actions_resumes}

run : Unit {0}
unfolding text_eq find_attempt upsert run_action run_actions execute_actions
run = tt

-- The database is a number, which the only executor adds its parameter to.
abbrev bump : ActionExecutor ℕ ℕ ℕ
bump c n = ok (n + c.params)

abbrev job : (Text → Option (ActionExecutor ℕ ℕ ℕ)) → Job ℕ ℕ ℕ
job executors = record {
  executors = executors;
  execution_id = codes "run";
  tenant_id = codes "acme";
  payload = 0;
  automation_depth = 0;
  correlation_id = codes "c";
  max_action_attempts = 5;
}

abbrev executors : Text → Option (ActionExecutor ℕ ℕ ℕ)
executors name = if text_eq name (codes "bump") then some bump else none

abbrev bump_by : ℕ → Option (ActionDefinition ℕ ℕ ℕ)
bump_by n = some (record { type_name = some (codes "bump"); action_type = none; params = n })

abbrev actions : List (Option (ActionDefinition ℕ ℕ ℕ))
actions = bump_by 2 ∷ none ∷ bump_by 5 ∷ []

adds : (execute_actions (job executors) actions 10 []).0 ≡ 17
unfolding run
adds = refl

goes_well : (execute_actions (job executors) actions 10 []).2.state ≡ succeeded
unfolding run
goes_well = refl

execute_actions_resumes_example :
    execute_actions
      (job (λ name. none))
      actions
      40
      (execute_actions (job executors) actions 10 []).1
    ≡ (
      40,
      (execute_actions (job executors) actions 10 []).1,
      record { state = succeeded; last_error = none },
    )
execute_actions_resumes_example =
    execute_actions_resumes (job executors) (job (λ name. none)) actions 10 40 [] refl refl
      goes_well
