-- ===== src/Catalog/Forms/Tests.antt =====
-- The theorems on forms at a concrete schema and its answers.
use support_desk.Base.{
  ℕ, ◌≡◌, refl, inl, inr, codes, text_eq, trim, true, false, if◌then◌else◌, none, some, List, [],
  ◌∷◌, ltb, ◌==◌, All,
}
use support_desk.Base.Texts.{is_space}
use support_desk.Base.Json.{
  text, number, Fields, end, field, Runtime, show, to_number, includes_text, starts_with,
}
use support_desk.Catalog.Forms.{
  text_field, select, number_field, eq, FieldValidation, ServiceFormField, normalized,
  to_comparable_number, evaluate_visibility_rule, is_field_visible, sanitize_answers,
}
use support_desk.Catalog.Forms.Accepted.{IsAnswered, validate_answers_sound}
use support_desk.Catalog.Forms.Answers.{
  is_email, is_url, text_errors, number_errors, validate_field_value, answer_errors, answers_errors,
  unknown_errors, validate_answers,
}
use support_desk.Catalog.Forms.Laws.{validate_answers-sanitize_answers}
use support_desk.Catalog.Forms.Schema.{
  is_well_formed, rule_errors, field_errors, schema_keys, fields_errors, reference_errors,
  validate_form_schema,
}
use support_desk.Catalog.Forms.Structure.{IsProperField, Distinct, validate_form_schema_sound}

run : Unit {0}
unfolding text_eq trim is_space show to_number includes_text starts_with normalized
    to_comparable_number evaluate_visibility_rule is_field_visible sanitize_answers is_email is_url
    text_errors number_errors validate_field_value answer_errors answers_errors unknown_errors
    validate_answers is_well_formed rule_errors field_errors schema_keys fields_errors
    reference_errors validate_form_schema
run = tt

abbrev js : Runtime ℕ
js = record {
  prototype = λ key.
      if text_eq key (codes "constructor")
      then some (codes "function Object() { [native code] }")
      else none;
  num_eq = λ a b. a == b;
  num_lt = ltb;
  of_ℕ = λ n. n;
  parse_number = λ s. 0;
  is_finite = λ n. true;
  show_number = λ n. [];
  time_of = λ s. 0;
  to_lower = λ s. s;
  test_pattern = λ p s. none;
}

abbrev no_validation : FieldValidation ℕ
no_validation = record {
  min_length = none;
  max_length = none;
  pattern = none;
  min = none;
  max = some 9;
  max_files = none;
}

abbrev size : ServiceFormField ℕ
size = record {
  key = some (codes "size");
  label = some (codes "Size");
  type = select;
  required = true;
  options = some (codes "S" ∷ codes "L" ∷ []);
  validation = no_validation;
  visible_when = none;
}

-- The number of large ones.
abbrev amount : ServiceFormField ℕ
amount = record {
  key = some (codes "amount");
  label = some (codes "Amount");
  type = number_field;
  required = true;
  options = none;
  validation = no_validation;
  visible_when =
      some (record {
        field_key = some (codes "size");
        operator = eq;
        value = some (text (codes "L"));
      });
}

abbrev form : List (ServiceFormField ℕ)
form = size ∷ amount ∷ []

abbrev large : Fields ℕ
large = field (codes "size") (text (codes "L")) (field (codes "amount") (number 3) end)

abbrev large_with_more : Fields ℕ
large_with_more = field (codes "colour") (text (codes "red")) large

form_is_valid : validate_form_schema (some form) ≡ []
unfolding run
form_is_valid = refl

large_is_valid : validate_answers js form large ≡ []
unfolding run
large_is_valid = refl

amount_shown : is_field_visible js amount large ≡ true
unfolding run
amount_shown = refl

amount_own : js.prototype (codes "amount") ≡ none
unfolding run
amount_own = refl

-- A key that every object inherits counts as answered where nothing was submitted.
inherited_answers :
    validate_answers js
      (record amount { key = some (codes "constructor"); type = text_field; visible_when = none }
        ∷ [])
      end
    ≡ []
unfolding run
inherited_answers = refl

addresses : is_email (codes "ann@desk.example.org") ≡ true
unfolding run
addresses = refl

no_address : is_email (codes "ann@desk") ≡ false
unfolding run
no_address = refl

links : is_url (codes "HTTPS://desk/x") ≡ true
unfolding run
links = refl

validate_answers-sanitize_answers_example :
    validate_answers js form (sanitize_answers form large_with_more)
    ≡ answers_errors js form large_with_more
validate_answers-sanitize_answers_example =
    validate_answers-sanitize_answers js form large_with_more form_is_valid

validate_form_schema_sound_example : All (IsProperField form) form × Distinct (schema_keys form)
validate_form_schema_sound_example = validate_form_schema_sound form form_is_valid

validate_answers_sound_example : IsAnswered js amount (codes "amount") large
validate_answers_sound_example =
    validate_answers_sound js large amount (codes "amount") form (inr (inl refl)) refl amount_own
      amount_shown large_is_valid
