-- ===== src/Workflows/Conditions.antt =====
-- The conditions of a workflow, evaluateCondition and evaluateWorkflowConditions of
-- apps/api/src/workflows/domain/workflow-condition-evaluator.ts. The values that the details repeat
-- are left out of them, all but what was compared.
pub mod Laws
use support_desk.Base.{
  ℕ, Text, codes, Bool, true, false, not, ◌&&◌, ◌||◌, Option, none, some, List, [], ◌∷◌,
}
use support_desk.Base.Json.{
  Json, null, boolean, number, text, array, object, Fields, Runtime, includes, includes_text,
  strict_eq, member, split,
}

-- The operators; `unknown_operator` for a text that is none of them.
pub data Operator : Type 0 where
  equals not_equals contains not_contains in_list not_in greater_than less_than : Operator
  set not_set unknown_operator : Operator

pub record WorkflowCondition (N : Type 0) : Type 0 where
  pub field_path : Text
  pub operator : Operator
  pub value : Option (Json N)

pub record ConditionEvaluationDetail (N : Type 0) : Type 0 where
  pub condition : WorkflowCondition N
  pub actual_value : Option (Json N)
  pub passed : Bool

pub record ConditionEvaluationResult (N : Type 0) : Type 0 where
  pub passed : Bool
  pub details : List (ConditionEvaluationDetail N)

-- `v !== null && v !== undefined && v !== ""`
abbrev pub is_set : {N : Type 0} → Option (Json N) → Bool
is_set none = false
is_set (some null) = false
is_set (some (text [])) = false
is_set (some _) = true

module _ {N : Type 0} (js : Runtime N) where
  -- The loop of `getNestedValue`.
  unfoldable pub walk : List Text → Option (Json N) → Option (Json N)
  unfolding member
  walk [] current = current
  walk (part ∷ parts) current = walk parts (member js current part)

  unfoldable pub get_nested_value : Fields N → Text → Option (Json N)
  unfolding walk split
  get_nested_value fields path = walk (split 46 path) (some (object fields))

  -- The case "contains".
  unfoldable pub does_contain : Option (Json N) → Option (Json N) → Bool
  unfolding includes_text
  does_contain (some (text s)) (some (text t)) = includes_text (js.to_lower s) (js.to_lower t)
  does_contain (some (array xs)) expected = includes js xs expected
  does_contain _ expected = false

  unfoldable pub does_not_contain : Option (Json N) → Option (Json N) → Bool
  unfolding includes_text
  does_not_contain (some (text s)) (some (text t)) =
      not (includes_text (js.to_lower s) (js.to_lower t))
  does_not_contain (some (array xs)) expected = not (includes js xs expected)
  does_not_contain _ expected = true

  unfoldable pub is_in : Option (Json N) → Option (Json N) → Bool
  is_in actual (some (array xs)) = includes js xs actual
  is_in actual _ = false

  unfoldable pub is_not_in : Option (Json N) → Option (Json N) → Bool
  is_not_in actual (some (array xs)) = not (includes js xs actual)
  is_not_in actual _ = true

  -- Numbers as they are, texts as instants.
  unfoldable pub is_less : Option (Json N) → Option (Json N) → Bool
  is_less (some (number a)) (some (number b)) = js.num_lt a b
  is_less (some (text s)) (some (text t)) = js.num_lt (js.time_of s) (js.time_of t)
  is_less _ _ = false

  unfoldable pub passes : Operator → (actual expected : Option (Json N)) → Bool
  unfolding does_contain does_not_contain is_in is_not_in is_less
  passes equals actual expected = strict_eq js actual expected
  passes not_equals actual expected = not (strict_eq js actual expected)
  passes contains actual expected = does_contain actual expected
  passes not_contains actual expected = does_not_contain actual expected
  passes in_list actual expected = is_in actual expected
  passes not_in actual expected = is_not_in actual expected
  passes greater_than actual expected = is_less expected actual
  passes less_than actual expected = is_less actual expected
  passes set actual expected = is_set actual
  passes not_set actual expected = not (is_set actual)
  passes unknown_operator actual expected = false

  unfoldable pub evaluate_condition : WorkflowCondition N → Fields N → ConditionEvaluationDetail N
  unfolding get_nested_value passes
  evaluate_condition c snapshot =
      let actual = get_nested_value snapshot c.field_path in
      record { condition = c; actual_value = actual; passed = passes c.operator actual c.value }

  abbrev with_detail :
      ConditionEvaluationDetail N → ConditionEvaluationResult N → ConditionEvaluationResult N
  with_detail d r = record { passed = d.passed && r.passed; details = d ∷ r.details }

  unfoldable pub evaluate_workflow_conditions :
      List (WorkflowCondition N) → Fields N → ConditionEvaluationResult N
  unfolding evaluate_condition
  evaluate_workflow_conditions [] snapshot = record { passed = true; details = [] }
  evaluate_workflow_conditions (c ∷ conditions) snapshot =
      with_detail (evaluate_condition c snapshot) (evaluate_workflow_conditions conditions snapshot)
