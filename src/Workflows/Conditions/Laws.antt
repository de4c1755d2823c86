-- ===== src/Workflows/Conditions/Laws.antt =====
-- What the conditions decide (workflow-condition-evaluator.ts).
use support_desk.Base.{
  &&-eq-true, ◌≡◌, refl, Bool, true, false, not, ◌↔◌, Option, none, some, List, [], ◌∷◌, All,
}
use support_desk.Base.Json.{Json, text, array, Fields, Runtime, strict_eq}
use support_desk.Workflows.Conditions.{
  Operator, equals, not_equals, contains, not_contains, in_list, not_in, set, not_set,
  WorkflowCondition, passes, does_contain, does_not_contain, is_in, is_not_in, evaluate_condition,
  is_set, get_nested_value, evaluate_workflow_conditions,
}

-- The operator that asks the opposite.
abbrev negation : Operator → Option Operator
negation equals = some not_equals
negation not_equals = some equals
negation contains = some not_contains
negation not_contains = some contains
negation in_list = some not_in
negation not_in = some in_list
negation set = some not_set
negation not_set = some set
negation _ = none

not-not : (b : Bool) → b ≡ not (not b)
not-not true = refl
not-not false = refl

module _ {N : Type 0} (js : Runtime N) where
  contains_negation :
      (actual expected : Option (Json N))
      → does_not_contain js actual expected ≡ not (does_contain js actual expected)
  unfolding does_contain does_not_contain
  contains_negation (some (text s)) (some (text t)) = refl
  contains_negation (some (array xs)) expected = refl
  contains_negation _ expected = refl

  in_negation :
      (actual expected : Option (Json N))
      → is_not_in js actual expected ≡ not (is_in js actual expected)
  unfolding is_in is_not_in
  in_negation actual (some (array xs)) = refl
  in_negation actual _ = refl

  -- Operators that ask the opposite of each other never pass together and never fail together,
  -- whatever the types of the two values: equals and not_equals, contains and not_contains, in and
  -- not_in, set and not_set.
  passes-negation :
      (o n : Operator) (actual expected : Option (Json N))
      → negation o ≡ some n
      → passes js n actual expected ≡ not (passes js o actual expected)
  unfolding passes
  passes-negation equals not_equals actual expected h = refl
  passes-negation not_equals equals actual expected h = not-not (strict_eq js actual expected)
  passes-negation contains not_contains actual expected h = contains_negation actual expected
  passes-negation not_contains contains actual expected h =
      rw (contains_negation actual expected) (not-not (does_contain js actual expected))
  passes-negation in_list not_in actual expected h = in_negation actual expected
  passes-negation not_in in_list actual expected h =
      rw (in_negation actual expected) (not-not (is_in js actual expected))
  passes-negation set not_set actual expected h = refl
  passes-negation not_set set actual expected h = not-not (is_set actual)
  passes-negation _ _ actual expected h = cc

  abbrev ConditionHolds : Fields N → WorkflowCondition N → Type 0
  ConditionHolds snapshot c =
      passes js c.operator (get_nested_value js snapshot c.field_path) c.value ≡ true

  passed-All :
      (conditions : List (WorkflowCondition N)) (snapshot : Fields N)
      → (evaluate_workflow_conditions js conditions snapshot).passed ≡ true
      → All (ConditionHolds snapshot) conditions
  unfolding evaluate_workflow_conditions evaluate_condition
  passed-All [] snapshot h = tt
  passed-All (c ∷ conditions) snapshot h =
      let (first, rest) =
        &&-eq-true (passes js c.operator (get_nested_value js snapshot c.field_path) c.value)
          (evaluate_workflow_conditions js conditions snapshot).passed h in
      (first, passed-All conditions snapshot rest)

  All-passed :
      (conditions : List (WorkflowCondition N)) (snapshot : Fields N)
      → All (ConditionHolds snapshot) conditions
      → (evaluate_workflow_conditions js conditions snapshot).passed ≡ true
  unfolding evaluate_workflow_conditions evaluate_condition
  All-passed [] snapshot h = refl
  All-passed (c ∷ conditions) snapshot h = rw (h.0, All-passed conditions snapshot h.1)

  -- The conditions pass exactly when each of them does.
  evaluate_workflow_conditions_iff :
      (conditions : List (WorkflowCondition N)) (snapshot : Fields N)
      → ((evaluate_workflow_conditions js conditions snapshot).passed ≡ true)
        ↔ All (ConditionHolds snapshot) conditions
  evaluate_workflow_conditions_iff conditions snapshot =
      (passed-All conditions snapshot, All-passed conditions snapshot)
