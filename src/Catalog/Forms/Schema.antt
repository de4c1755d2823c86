-- ===== src/Catalog/Forms/Schema.antt =====
-- The structure of a form's schema, validateFormSchema of apps/api/src/catalog/domain/form-engine.ts.
use support_desk.Base.{
  ℕ, Text, text_eq, Bool, true, false, not, ◌&&◌, ◌||◌, Option, none, some, List, [], ◌∷◌, ◌++◌,
  any, all, leb, ◌==◌, is_some,
}
use support_desk.Base.Json.{Json, null, text}
use support_desk.Catalog.Forms.{
  FieldType, select, multi_select, radio, unsupported, ConditionalOperator, eq, neq, contains,
  ConditionalVisibility, ServiceFormField, is_key,
}

-- An error names the key of its field, and what else its text shows.
pub data SchemaError : Type 0 where
  no_fields key_required : SchemaError
  key_malformed duplicate_key label_required : (key : Text) → SchemaError
  unsupported_type : (key : Text) → FieldType → SchemaError
  options_required options_forbidden : (key : Text) → SchemaError
  rule_reference rule_value : (key : Text) → SchemaError
  rule_operator : (key : Text) → ConditionalOperator → SchemaError
  rule_unknown : (key : Option Text) → SchemaError

abbrev is_lower : ℕ → Bool
is_lower c = leb 97 c && leb c 122

abbrev is_key_char : ℕ → Bool
is_key_char c = is_lower c || (leb 48 c && leb c 57) || c == 95

-- `/^[a-z][a-z0-9_]*$/`
unfoldable pub is_well_formed : Text → Bool
is_well_formed [] = false
is_well_formed (c ∷ s) = is_lower c && all is_key_char s

abbrev pub is_supported : FieldType → Bool
is_supported (unsupported s) = false
is_supported _ = true

-- `OPTION_FIELD_TYPES.has(type)`
abbrev pub has_options : FieldType → Bool
has_options select = true
has_options multi_select = true
has_options radio = true
has_options _ = false

abbrev pub is_empty_list : {A : Type 0} → Option (List A) → Bool
is_empty_list none = true
is_empty_list (some []) = true
is_empty_list (some (x ∷ xs)) = false

-- EQ, NEQ or CONTAINS
abbrev pub is_rule_operator : ConditionalOperator → Bool
is_rule_operator eq = true
is_rule_operator neq = true
is_rule_operator contains = true
is_rule_operator _ = false

abbrev pub is_empty_text : Option Text → Bool
is_empty_text none = true
is_empty_text (some []) = true
is_empty_text (some (c ∷ s)) = false

-- `if (test) errors.push(error)`
abbrev pub unless : Bool → SchemaError → List SchemaError
unless true error = []
unless false error = error ∷ []

-- `typeof key !== "string" || key === own`
abbrev pub refers_away : (own : Text) → Option Text → Bool
refers_away own none = false
refers_away own (some s) = not (text_eq s own)

abbrev pub key_of : Option Text → Option Text
key_of (some (c ∷ s)) = some (c ∷ s)
key_of _ = none

module _ {N : Type 0} where
  abbrev is_empty_value : Option (Json N) → Bool
  is_empty_value none = true
  is_empty_value (some null) = true
  is_empty_value (some (text [])) = true
  is_empty_value (some v) = false

  unfoldable pub rule_errors : (key : Text) → Option (ConditionalVisibility N) → List SchemaError
  rule_errors key none = []
  rule_errors key (some rule) =
      unless (refers_away key rule.field_key) (rule_reference key)
      ++ (unless (is_rule_operator rule.operator) (rule_operator key rule.operator)
          ++ unless (not (is_empty_value rule.value)) (rule_value key))

  -- One round of the first loop, for a field with a key; `keys` are those before it.
  unfoldable pub field_errors :
      (key : Text) → (keys : List Text) → ServiceFormField N → List SchemaError
  unfolding is_well_formed rule_errors
  field_errors key keys f =
      unless (is_well_formed key) (key_malformed key)
      ++ (unless (not (any (λ k. text_eq k key) keys)) (duplicate_key key)
          ++ (unless (not (is_empty_text f.label)) (label_required key)
              ++ (unless (is_supported f.type) (unsupported_type key f.type)
                  ++ (unless (not (has_options f.type && is_empty_list f.options))
                        (options_required key)
                      ++ (unless (not (not (has_options f.type) && is_some f.options))
                            (options_forbidden key)
                          ++ rule_errors key f.visible_when)))))

  -- The keys that the loop has put into its set, from the first field on.
  unfoldable pub schema_keys : List (ServiceFormField N) → List Text
  schema_keys [] = []
  schema_keys (f ∷ fields) = elim (key_of f.key) [
    | none ↦ schema_keys fields
    | some key ↦ key ∷ schema_keys fields
  ]

  unfoldable pub fields_errors : (keys : List Text) → List (ServiceFormField N) → List SchemaError
  unfolding field_errors
  fields_errors keys [] = []
  fields_errors keys (f ∷ fields) = elim (key_of f.key) [
    | none ↦ key_required ∷ fields_errors keys fields
    | some key ↦ field_errors key keys f ++ fields_errors (key ∷ keys) fields
  ]

  abbrev pub refers_to : List Text → Option (ConditionalVisibility N) → Bool
  refers_to keys none = true
  refers_to keys (some rule) = any (λ k. is_key k rule.field_key) keys

  abbrev rule_key : Option (ConditionalVisibility N) → Option Text
  rule_key none = none
  rule_key (some rule) = rule.field_key

  -- The second loop.
  unfoldable pub reference_errors :
      (keys : List Text) → List (ServiceFormField N) → List SchemaError
  reference_errors keys [] = []
  reference_errors keys (f ∷ fields) =
      unless (refers_to keys f.visible_when) (rule_unknown f.key) ++ reference_errors keys fields

  unfoldable pub validate_form_schema : Option (List (ServiceFormField N)) → List SchemaError
  unfolding schema_keys fields_errors reference_errors
  validate_form_schema none = no_fields ∷ []
  validate_form_schema (some []) = no_fields ∷ []
  validate_form_schema (some (f ∷ fields)) =
      fields_errors [] (f ∷ fields) ++ reference_errors (schema_keys (f ∷ fields)) (f ∷ fields)
