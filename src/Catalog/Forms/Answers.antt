-- ===== src/Catalog/Forms/Answers.antt =====
-- The answers to a form, validateAnswers and validateFieldValue of
-- apps/api/src/catalog/domain/form-engine.ts. A text is measured by its UTF-16 code units, and an error
-- stands by its key and its kind. The names of the answers come in the order of the object.
use support_desk.Base.{
  ℕ, ◌+◌, Text, codes, text_eq, Bool, true, false, not, ◌&&◌, ◌||◌, Option, none, some, List, [],
  ◌∷◌, ◌++◌, any, all, length, if◌then◌else◌, leb, ◌==◌,
}
use support_desk.Base.Json.{
  Json, null, boolean, text, array, Items, nil, cons, Fields, end, field, Runtime, length_items,
  show, to_number,
}
use support_desk.Base.Texts.{is_space}
use support_desk.Catalog.Forms.{
  FieldType, text_field, textarea, number_field, date, select, multi_select, radio, checkbox, email,
  url, file, unsupported, ServiceFormField, is_known, answer, is_field_visible,
}

pub data ErrorKind : Type 0 where
  unknown_field required_field too_short too_long invalid_email invalid_url format_mismatch :
      ErrorKind
  not_a_number too_small too_large invalid_date invalid_option not_an_array invalid_options :
      ErrorKind
  not_a_boolean too_many_files : ErrorKind

pub record FieldError : Type 0 where
  pub key : Option Text
  pub kind : ErrorKind

-- `undefined`, `null`, `""` or `[]`
abbrev pub is_empty : {N : Type 0} → Option (Json N) → Bool
is_empty none = true
is_empty (some null) = true
is_empty (some (text [])) = true
is_empty (some (array nil)) = true
is_empty (some v) = false

-- A dot that is neither the first nor the last character.
abbrev inner_dot : Text → Bool
inner_dot [] = false
inner_dot (c ∷ []) = false
inner_dot (c ∷ d ∷ []) = false
inner_dot (c ∷ d ∷ e ∷ s) = d == 46 || inner_dot (d ∷ e ∷ s)

abbrev is_domain : Text → Bool
is_domain s = inner_dot s && all (λ c. not (is_space c) && not (c == 64)) s

-- What follows the first character: characters that are no `@`, an `@`, and a domain.
abbrev is_rest : Text → Bool
is_rest [] = false
is_rest (c ∷ s) = if c == 64 then is_domain s else not (is_space c) && is_rest s

-- `/^[^\s@]+@[^\s@]+\.[^\s@]+$/`
unfoldable pub is_email : Text → Bool
unfolding is_space
is_email [] = false
is_email (c ∷ s) = not (is_space c) && not (c == 64) && is_rest s

-- A letter of ASCII in lower case.
abbrev ascii_lower : ℕ → ℕ
ascii_lower c = if leb 65 c && leb c 90 then c + 32 else c

-- The text after a prefix, whatever the case of its letters.
abbrev after_prefix : (prefix : Text) → Text → Option Text
after_prefix [] s = some s
after_prefix (p ∷ prefix) [] = none
after_prefix (p ∷ prefix) (c ∷ s) = if ascii_lower c == p then after_prefix prefix s else none

abbrev has_no_space : Option Text → Bool
has_no_space none = false
has_no_space (some []) = false
has_no_space (some (c ∷ s)) = all (λ x. not (is_space x)) (c ∷ s)

-- `/^https?:\/\/\S+$/i`
unfoldable pub is_url : Text → Bool
unfolding is_space
is_url s =
    has_no_space (after_prefix (codes "http://") s)
    || has_no_space (after_prefix (codes "https://") s)

module _ {N : Type 0} (js : Runtime N) where
  -- `if (test) errors.push(...)`
  abbrev pub refuse : Bool → Option Text → ErrorKind → List FieldError
  refuse true key kind = record { key = key; kind = kind } ∷ []
  refuse false key kind = []

  -- `limit !== undefined && n < limit`, and the other way round.
  abbrev pub is_below : N → Option N → Bool
  is_below n none = false
  is_below n (some limit) = js.num_lt n limit

  abbrev pub is_above : N → Option N → Bool
  is_above n none = false
  is_above n (some limit) = js.num_lt limit n

  -- A pattern that is not empty, is one, and does not fit.
  abbrev breaks_pattern : Option Text → Text → Bool
  breaks_pattern none s = false
  breaks_pattern (some []) s = false
  breaks_pattern (some (c ∷ p)) s = elim (js.test_pattern (c ∷ p) s) [
    | none ↦ false
    | some fits ↦ not fits
  ]

  abbrev is_email_type : FieldType → Bool
  is_email_type email = true
  is_email_type _ = false

  abbrev is_url_type : FieldType → Bool
  is_url_type url = true
  is_url_type _ = false

  unfoldable pub text_errors : ServiceFormField N → Text → List FieldError
  unfolding is_email is_url
  text_errors f s =
      refuse (is_below (js.of_ℕ (length s)) f.validation.min_length) f.key too_short
      ++ (refuse (is_above (js.of_ℕ (length s)) f.validation.max_length) f.key too_long
          ++ (refuse (is_email_type f.type && not (is_email s)) f.key invalid_email
              ++ (refuse (is_url_type f.type && not (is_url s)) f.key invalid_url
                  ++ refuse (breaks_pattern f.validation.pattern s) f.key format_mismatch)))

  unfoldable pub number_errors : ServiceFormField N → N → List FieldError
  number_errors f n =
      if not (js.is_finite n)
      then refuse true f.key not_a_number
      else refuse (is_below n f.validation.min) f.key too_small
        ++ refuse (is_above n f.validation.max) f.key too_large

  abbrev pub is_option : Option (List Text) → Text → Bool
  is_option none s = false
  is_option (some options) s = any (λ o. text_eq o s) options

  abbrev pub all_options : Option (List Text) → Items N → Bool
  all_options options nil = true
  all_options options (cons x xs) = is_option options (show js x) && all_options options xs

  abbrev pub is_boolean_value : Json N → Bool
  is_boolean_value (boolean b) = true
  is_boolean_value (text s) = text_eq s (codes "true") || text_eq s (codes "false")
  is_boolean_value v = false

  -- The number of files: those of a list, or one.
  abbrev file_count : Json N → ℕ
  file_count (array xs) = length_items xs
  file_count v = 1

  abbrev pub multi_errors : ServiceFormField N → Json N → List FieldError
  multi_errors f (array xs) = refuse (not (all_options f.options xs)) f.key invalid_options
  multi_errors f v = refuse true f.key not_an_array

  -- An instant that is NaN is not equal to itself.
  abbrev is_date : Text → Bool
  is_date s = js.num_eq (js.time_of s) (js.time_of s)

  abbrev value_errors : FieldType → ServiceFormField N → Json N → List FieldError
  value_errors text_field f v = text_errors f (show js v)
  value_errors textarea f v = text_errors f (show js v)
  value_errors email f v = text_errors f (show js v)
  value_errors url f v = text_errors f (show js v)
  value_errors number_field f v = number_errors f (to_number js v)
  value_errors date f v = refuse (not (is_date (show js v))) f.key invalid_date
  value_errors select f v = refuse (not (is_option f.options (show js v))) f.key invalid_option
  value_errors radio f v = refuse (not (is_option f.options (show js v))) f.key invalid_option
  value_errors multi_select f v = multi_errors f v
  value_errors checkbox f v = refuse (not (is_boolean_value v)) f.key not_a_boolean
  value_errors file f v =
      refuse (is_above (js.of_ℕ (file_count v)) f.validation.max_files) f.key too_many_files
  value_errors (unsupported s) f v = []

  unfoldable pub validate_field_value : ServiceFormField N → Json N → List FieldError
  unfolding text_errors number_errors show to_number
  validate_field_value f v = value_errors f.type f v

  abbrev errors_of : ServiceFormField N → Option (Json N) → List FieldError
  errors_of f none = []
  errors_of f (some v) = validate_field_value f v

  -- One round of the loop over the fields.
  unfoldable pub answer_errors : ServiceFormField N → Fields N → List FieldError
  unfolding validate_field_value is_field_visible
  answer_errors f answers =
      let value = answer js f.key answers in
      if not (is_field_visible js f answers)
      then []
      else if is_empty value
      then refuse f.required f.key required_field
      else errors_of f value

  unfoldable pub answers_errors : List (ServiceFormField N) → Fields N → List FieldError
  unfolding answer_errors
  answers_errors [] answers = []
  answers_errors (f ∷ fields) answers = answer_errors f answers ++ answers_errors fields answers

  unfoldable pub unknown_errors : List (ServiceFormField N) → Fields N → List FieldError
  unknown_errors fields end = []
  unknown_errors fields (field key value rest) =
      refuse (not (is_known fields key)) (some key) unknown_field ++ unknown_errors fields rest

  -- The errors; the answers are valid if there are none.
  unfoldable pub validate_answers : List (ServiceFormField N) → Fields N → List FieldError
  unfolding answers_errors unknown_errors
  validate_answers fields answers = unknown_errors fields answers ++ answers_errors fields answers
