-- ===== src/Catalog/Forms/Accepted.antt =====
-- What answers without errors look like (form-engine.ts, validateAnswers).
use support_desk.Base.{
  ◌≡◌, refl, ap, ◌∙◌, inl, inr, Text, Bool, true, false, not, Bool-cases, Option, none, some, List,
  [], ◌∷◌, In,
}
use support_desk.Base.Json.{
  Json, null, boolean, number, text, array, object, inherited, Fields, Runtime, Items, show,
  to_number, get,
}
use support_desk.Catalog.Forms.{
  number_field, select, radio, multi_select, ServiceFormField, answer, is_field_visible,
}
use support_desk.Catalog.Forms.Answers.{
  ErrorKind, refuse, is_empty, is_below, is_above, is_option, all_options, number_errors,
  multi_errors, validate_field_value, answer_errors, answers_errors, unknown_errors,
  validate_answers,
}
use support_desk.Catalog.Forms.Laws.{append-eq_nil}

refuse-eq_nil :
    {N : Type 0} (js : Runtime N) (b : Bool) (key : Option Text) (kind : ErrorKind)
    → refuse js b key kind ≡ []
    → b ≡ false
refuse-eq_nil js true key kind h = cc
refuse-eq_nil js false key kind h = refl

not-false : (b : Bool) → not b ≡ false → b ≡ true
not-false true k = refl
not-false false k = cc

-- An answer that is there: a number lies in the range of its field, a choice is one of the options,
-- and so are all choices of a list.
pub record IsFitting {N : Type 0} (js : Runtime N) (f : ServiceFormField N) (v : Json N)
    : Type 0 where
  pub number_finite : f.type ≡ number_field → js.is_finite (to_number js v) ≡ true
  pub number_min : f.type ≡ number_field → is_below js (to_number js v) f.validation.min ≡ false
  pub number_max : f.type ≡ number_field → is_above js (to_number js v) f.validation.max ≡ false
  pub select_option : f.type ≡ select → is_option js f.options (show js v) ≡ true
  pub radio_option : f.type ≡ radio → is_option js f.options (show js v) ≡ true
  pub multi_options :
      f.type ≡ multi_select → (xs : Items N) × (v ≡ array xs) × (all_options js f.options xs ≡ true)

module _ {N : Type 0} (js : Runtime N) (f : ServiceFormField N) (v : Json N)
    (h : validate_field_value js f v ≡ []) where
  number_fits :
      f.type ≡ number_field
      → (js.is_finite (to_number js v) ≡ true)
        × (is_below js (to_number js v) f.validation.min ≡ false)
        × (is_above js (to_number js v) f.validation.max ≡ false)
  unfolding validate_field_value number_errors
  number_fits e = elim (Bool-cases (js.is_finite (to_number js v))) [
    | inr no_number ↦ let wrong = rw (e, no_number) at h in cc
    | inl is_number ↦
        let (low, high) = append-eq_nil _ _ (rw (e, is_number) at h) in
        (is_number, refuse-eq_nil js _ _ _ low, refuse-eq_nil js _ _ _ high)
  ]

  select_fits : f.type ≡ select → is_option js f.options (show js v) ≡ true
  unfolding validate_field_value
  select_fits e = not-false _ (refuse-eq_nil js _ _ _ (rw e at h))

  radio_fits : f.type ≡ radio → is_option js f.options (show js v) ≡ true
  unfolding validate_field_value
  radio_fits e = not-false _ (refuse-eq_nil js _ _ _ (rw e at h))

  multi_fits :
      f.type ≡ multi_select → (xs : Items N) × (v ≡ array xs) × (all_options js f.options xs ≡ true)
  unfolding validate_field_value
  multi_fits e = of_value f v e (rw e at h)
    where
      of_value :
          (f : ServiceFormField N) (v : Json N)
          → f.type ≡ multi_select
          → multi_errors js f v ≡ []
          → (xs : Items N) × (v ≡ array xs) × (all_options js f.options xs ≡ true)
      of_value f (array xs) e k = (xs, refl, not-false _ (refuse-eq_nil js _ _ _ k))
      of_value f null e k = absurd (cc)
      of_value f (boolean b) e k = absurd (cc)
      of_value f (number n) e k = absurd (cc)
      of_value f (text s) e k = absurd (cc)
      of_value f (object o) e k = absurd (cc)
      of_value f (inherited s) e k = absurd (cc)

  fits : IsFitting js f v
  fits = record {
    number_finite = λ e. (number_fits e).0;
    number_min = λ e. (number_fits e).1;
    number_max = λ e. (number_fits e).2;
    select_option = select_fits;
    radio_option = radio_fits;
    multi_options = multi_fits;
  }

-- What is asked of the answers to a field that is shown: a submitted answer under its key, not empty,
-- if the field is required, and a fitting one if there is one that is not empty.
pub record IsAnswered {N : Type 0} (js : Runtime N) (f : ServiceFormField N) (key : Text)
    (a : Fields N) : Type 0 where
  pub is_given :
      f.required ≡ true → (v : Json N) × (get key a ≡ some v) × (is_empty (some v) ≡ false)
  pub is_fitting : (v : Json N) → get key a ≡ some v → is_empty (some v) ≡ false → IsFitting js f v

module _ {N : Type 0} (js : Runtime N) (a : Fields N) where
  -- The read of a key that is no inherited name.
  answer-own :
      (f : ServiceFormField N) (key : Text)
      → f.key ≡ some key
      → js.prototype key ≡ none
      → (o : Option (Json N)) → get key a ≡ o
      → answer js f.key a ≡ o
  answer-own f key named own none e = rw (named, e, own)
  answer-own f key named own (some v) e = rw (named, e)

  answer_errors-required :
      (f : ServiceFormField N) (key : Text)
      → f.key ≡ some key
      → js.prototype key ≡ none
      → is_field_visible js f a ≡ true
      → answer_errors js f a ≡ []
      → f.required ≡ true
      → (o : Option (Json N)) → get key a ≡ o
      → (v : Json N) × (get key a ≡ some v) × (is_empty (some v) ≡ false)
  unfolding answer_errors
  answer_errors-required f key named own shown h needed none e =
      let wrong = rw (shown, answer-own f key named own none e, needed) at h in absurd (cc)
  answer_errors-required f key named own shown h needed (some v) e =
      elim (Bool-cases (is_empty (some v))) [
        | inl empty ↦
            let wrong = rw (shown, answer-own f key named own (some v) e, empty, needed) at h in
            absurd (cc)
        | inr given ↦ (v, e, given)
      ]

  answer_errors-IsAnswered :
      (f : ServiceFormField N) (key : Text)
      → f.key ≡ some key
      → js.prototype key ≡ none
      → is_field_visible js f a ≡ true
      → answer_errors js f a ≡ []
      → IsAnswered js f key a
  unfolding answer_errors
  answer_errors-IsAnswered f key named own shown h = record {
    is_given = λ needed. answer_errors-required f key named own shown h needed (get key a) refl;
    is_fitting = λ v e given.
        let k = rw (shown, answer-own f key named own (some v) e, given) at h in fits js f v k;
  }

  answers_errors-own :
      (f : ServiceFormField N) (fields : List (ServiceFormField N))
      → In f fields
      → answers_errors js fields a ≡ []
      → answer_errors js f a ≡ []
  unfolding answers_errors
  answers_errors-own f [] i h = absurd i
  answers_errors-own f (g ∷ fields) (inl same) h =
      let (own, rest) = append-eq_nil (answer_errors js g a) (answers_errors js fields a) h in
      ap (λ x. answer_errors js x a) same ∙ own
  answers_errors-own f (g ∷ fields) (inr i) h =
      let (own, rest) = append-eq_nil (answer_errors js g a) (answers_errors js fields a) h in
      answers_errors-own f fields i rest

  -- Answers in which no errors are found, and a field that is shown, with a key that is no name of
  -- Object.prototype: if the field is required, an answer that is not empty was submitted under its
  -- key, and such an answer fits the field's type: a number is finite and in the field's range, a
  -- choice is one of the options, and a multiple choice is a list of options.
  pub validate_answers_sound :
      (f : ServiceFormField N) (key : Text) (fields : List (ServiceFormField N))
      → In f fields
      → f.key ≡ some key
      → js.prototype key ≡ none
      → is_field_visible js f a ≡ true
      → validate_answers js fields a ≡ []
      → IsAnswered js f key a
  unfolding validate_answers
  validate_answers_sound f key fields i named own shown h =
      let (known, rest) =
        append-eq_nil (unknown_errors js fields a) (answers_errors js fields a) h in
      answer_errors-IsAnswered f key named own shown (answers_errors-own f fields i rest)
