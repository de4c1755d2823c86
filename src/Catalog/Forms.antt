-- ===== src/Catalog/Forms.antt =====
-- The forms of services, apps/api/src/catalog/domain/form-engine.ts: the schema of a form, the rules for
-- the visibility of its fields, and the filter of the answers. The answers are an object of JSON,
-- which also inherits the names of Object.prototype; an error stands by its key and its kind, without
-- its text.
pub mod Schema
pub mod Answers
pub mod Laws
pub mod Structure
pub mod Accepted
mod Tests
use support_desk.Base.{
  ℕ, Text, codes, text_eq, trim, Bool, true, false, not, ◌&&◌, ◌||◌, Option, none, some, List, [],
  ◌∷◌, any, map, if◌then◌else◌, leb, ◌==◌, is_some,
}
use support_desk.Base.Json.{
  Json, null, boolean, number, text, array, object, inherited, Items, nil, cons, Fields, end, field,
  Runtime, get, strict_eq, show, to_number, includes_text,
}

pub data FieldType : Type 0 where
  text_field textarea number_field date select multi_select radio checkbox email url file :
      FieldType
  unsupported : Text → FieldType

pub data ConditionalOperator : Type 0 where
  eq neq contains gte lte : ConditionalOperator
  unsupported_operator : Text → ConditionalOperator

pub record FieldValidation (N : Type 0) : Type 0 where
  pub min_length : Option N
  pub max_length : Option N
  pub pattern : Option Text
  pub min : Option N
  pub max : Option N
  pub max_files : Option N

-- `field_key` is `none` where it is no text.
pub record ConditionalVisibility (N : Type 0) : Type 0 where
  pub field_key : Option Text
  pub operator : ConditionalOperator
  pub value : Option (Json N)

-- `key` and `label` are `none` where they are no text, `options` where they are no list.
pub record ServiceFormField (N : Type 0) : Type 0 where
  pub key : Option Text
  pub label : Option Text
  pub type : FieldType
  pub required : Bool
  pub options : Option (List Text)
  pub validation : FieldValidation N
  pub visible_when : Option (ConditionalVisibility N)

-- `a === b` for a text and a value that may be none.
abbrev pub is_key : Text → Option Text → Bool
is_key s none = false
is_key s (some t) = text_eq t s

module _ {N : Type 0} where
  -- `normalizeComparisonValue`
  unfoldable pub normalized : Json N → Json N
  unfolding trim
  normalized (text s) = text (trim s)
  normalized v = v

  abbrev normalized_option : Option (Json N) → Option (Json N)
  normalized_option none = none
  normalized_option (some v) = some (normalized v)

module _ {N : Type 0} (js : Runtime N) where
  -- What an object has under a name of its own, or else what it inherits.
  abbrev own_or : Option Text → Option (Json N) → Option (Json N)
  own_or p (some v) = some v
  own_or none none = none
  own_or (some s) none = some (inherited s)

  -- `answers[field.key]`
  abbrev pub answer : Option Text → Fields N → Option (Json N)
  answer none answers = none
  answer (some key) answers = own_or (js.prototype key) (get key answers)

  abbrev contains_item : Items N → Option (Json N) → Bool
  contains_item nil expected = false
  contains_item (cons x xs) expected =
      strict_eq js (some (normalized x)) expected || contains_item xs expected

  -- `String(v)`, also of undefined.
  abbrev show_option : Option (Json N) → Text
  show_option none = codes "undefined"
  show_option (some v) = show js v

  -- `toComparableNumber`; `none` is minus infinity.
  abbrev finite : N → Option N
  finite n = if js.is_finite n then some n else none

  unfoldable pub to_comparable_number : Option (Json N) → Option N
  unfolding to_number
  to_comparable_number none = none
  to_comparable_number (some (number n)) = some n
  to_comparable_number (some v) = finite (to_number js v)

  -- `a >= b`
  abbrev ge : Option N → Option N → Bool
  ge a none = true
  ge none (some b) = false
  ge (some a) (some b) = js.num_lt b a || js.num_eq a b

  abbrev does_contain : Json N → Option (Json N) → Bool
  does_contain (array xs) expected = contains_item xs expected
  does_contain v expected = includes_text (show js v) (show_option expected)

  abbrev rule_holds : ConditionalOperator → Json N → Option (Json N) → Bool
  rule_holds eq actual expected = strict_eq js (some actual) expected
  rule_holds neq actual expected = not (strict_eq js (some actual) expected)
  rule_holds contains actual expected = does_contain actual expected
  rule_holds gte actual expected =
      ge (to_comparable_number (some actual)) (to_comparable_number expected)
  rule_holds lte actual expected =
      ge (to_comparable_number expected) (to_comparable_number (some actual))
  rule_holds (unsupported_operator s) actual expected = false

  abbrev rule_of_answer : ConditionalVisibility N → Option (Json N) → Bool
  rule_of_answer rule none = false
  rule_of_answer rule (some null) = false
  rule_of_answer rule (some actual) =
      rule_holds rule.operator (normalized actual) (normalized_option rule.value)

  unfoldable pub evaluate_visibility_rule : ConditionalVisibility N → Fields N → Bool
  unfolding normalized to_comparable_number show includes_text
  evaluate_visibility_rule rule answers = rule_of_answer rule (answer rule.field_key answers)

  unfoldable pub is_field_visible : ServiceFormField N → Fields N → Bool
  unfolding evaluate_visibility_rule
  is_field_visible f answers = elim f.visible_when [
    | none ↦ true
    | some rule ↦ evaluate_visibility_rule rule answers
  ]

module _ {N : Type 0} where
  -- `schema.fields.some((field) => field.key === key)`, by a set of the keys.
  abbrev pub is_known : List (ServiceFormField N) → Text → Bool
  is_known fields key = any (λ f. is_key key f.key) fields

  unfoldable pub sanitize_answers : List (ServiceFormField N) → Fields N → Fields N
  sanitize_answers fields end = end
  sanitize_answers fields (field key value rest) =
      let others = sanitize_answers fields rest in
      if is_known fields key then field key value others else others
