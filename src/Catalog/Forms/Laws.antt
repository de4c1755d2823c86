-- ===== src/Catalog/Forms/Laws.antt =====
-- The answers that are kept and checked (form-engine.ts, sanitizeAnswers, validateAnswers).
use support_desk.Base.{
  ℕ, ◌≡◌, refl, ◌⊎◌, ap, ap₂, inl, inr, Text, text_eq, text_eq→eq, text_eq_refl, Bool, true, false,
  Bool-cases, Option, none, some, List, [], ◌∷◌, ◌++◌, any, In, arith,
}
use support_desk.Base.Members.{In-any, any-In}
use support_desk.Base.Json.{Fields, end, field, Runtime, get}
use support_desk.Catalog.Forms.{
  ConditionalVisibility, ServiceFormField, is_key, is_known, answer, evaluate_visibility_rule,
  is_field_visible, sanitize_answers,
}
use support_desk.Catalog.Forms.Answers.{
  answer_errors, answers_errors, unknown_errors, validate_answers,
}
use support_desk.Catalog.Forms.Schema.{
  SchemaError, unless, schema_keys, fields_errors, reference_errors, refers_to, rule_unknown,
  validate_form_schema,
}

pub append-eq_nil : {A : Type 0} (xs ys : List A) → xs ++ ys ≡ [] → (xs ≡ []) × (ys ≡ [])
append-eq_nil [] ys h = (refl, h)
append-eq_nil (x ∷ xs) ys h = cc

pub unless-eq_nil : (b : Bool) (e : SchemaError) → unless b e ≡ [] → b ≡ true
unless-eq_nil true e h = refl
unless-eq_nil false e h = cc

module _ {N : Type 0} (fields : List (ServiceFormField N)) where
  get-sanitize_answers :
      (key : Text) (a : Fields N)
      → is_known fields key ≡ true
      → get key (sanitize_answers fields a) ≡ get key a
  unfolding sanitize_answers
  get-sanitize_answers key end known = refl
  get-sanitize_answers key (field name v rest) known =
      let ih = get-sanitize_answers key rest known in
      elim (Bool-cases (text_eq name key)) [
        | inl same ↦
            let e = text_eq→eq name key same in
            let named : is_known fields name ≡ true = rw e known in rw (named, same)
        | inr other ↦ elim (Bool-cases (is_known fields name)) [
          | inl kept ↦ rw (kept, other) ih
          | inr dropped ↦ rw (dropped, other) ih
        ]
      ]

  unknown_errors-sanitize_answers :
      (js : Runtime N) (a : Fields N) → unknown_errors js fields (sanitize_answers fields a) ≡ []
  unfolding sanitize_answers unknown_errors
  unknown_errors-sanitize_answers js end = refl
  unknown_errors-sanitize_answers js (field name v rest) =
      let ih = unknown_errors-sanitize_answers js rest in
      elim (Bool-cases (is_known fields name)) [
        | inl kept ↦ rw (kept, unknown_errors, kept) ih
        | inr dropped ↦ rw dropped ih
      ]

  sanitize_answers-known :
      (js : Runtime N) (a : Fields N)
      → unknown_errors js fields a ≡ []
      → sanitize_answers fields a ≡ a
  unfolding sanitize_answers unknown_errors
  sanitize_answers-known js end h = refl
  sanitize_answers-known js (field name v rest) h = elim (Bool-cases (is_known fields name)) [
    | inl kept ↦
        rw kept
          (ap (field name v) (sanitize_answers-known js rest (rw (kept, unknown_errors) at h)))
    | inr dropped ↦ let wrong = rw (dropped, unknown_errors) at h in cc
  ]

  -- The answer to a field of the schema stays.
  answer-sanitize_answers :
      (js : Runtime N) (f : ServiceFormField N) (a : Fields N)
      → In f fields
      → answer js f.key (sanitize_answers fields a) ≡ answer js f.key a
  answer-sanitize_answers js f a i = of_key f a i f.key refl
    where
      of_key :
          (f : ServiceFormField N) (a : Fields N)
          → In f fields
          → (o : Option Text) → f.key ≡ o
          → answer js o (sanitize_answers fields a) ≡ answer js o a
      of_key f a i none h = refl
      of_key f a i (some key) h = rw (
          get-sanitize_answers key a
            (In-any (λ g. is_key key g.key) f fields i (rw h (text_eq_refl key))))

pub schema_keys-known :
    {N : Type 0} (fields : List (ServiceFormField N)) (k : Text)
    → In k (schema_keys fields)
    → is_known fields k ≡ true
unfolding schema_keys
schema_keys-known [] k i = absurd i
schema_keys-known (f ∷ fields) k i = of_key f fields k f.key refl (schema_keys-known fields k) i
  where
    of_key :
        {N : Type 0} (f : ServiceFormField N) (fields : List (ServiceFormField N)) (k : Text)
        (o : Option Text)
        → f.key ≡ o
        → (In k (schema_keys fields) → is_known fields k ≡ true)
        → In k (schema_keys (f ∷ fields))
        → is_known (f ∷ fields) k ≡ true
    of_key f fields k none h ih i = let j = rw (h, schema_keys) at i in ground (arith, ih j)
    of_key f fields k (some []) h ih i = let j = rw (h, schema_keys) at i in ground (arith, ih j)
    of_key f fields k (some (c ∷ s)) h ih i =
        of_cases f fields k c s h ih (rw (h, schema_keys) at i)
      where
        of_cases :
            {N : Type 0} (f : ServiceFormField N) (fields : List (ServiceFormField N)) (k : Text)
            (c : ℕ) (s : Text)
            → f.key ≡ some (c ∷ s)
            → (In k (schema_keys fields) → is_known fields k ≡ true)
            → (k ≡ c ∷ s) ⊎ In k (schema_keys fields)
            → is_known (f ∷ fields) k ≡ true
        of_cases f fields k c s h ih (inl e) = rw (h, e, text_eq_refl (c ∷ s))
        of_cases f fields k c s h ih (inr j) = ground (arith, ih j)

pub valid_parts :
    {N : Type 0} (fields : List (ServiceFormField N))
    → validate_form_schema (some fields) ≡ []
    → (fields_errors [] fields ≡ []) × (reference_errors (schema_keys fields) fields ≡ [])
unfolding validate_form_schema
valid_parts [] h = cc
valid_parts (f ∷ fields) h = append-eq_nil _ _ h

module _ {N : Type 0} (js : Runtime N) (fields : List (ServiceFormField N)) (a : Fields N) where
  answer_of_rule :
      (o : Option Text)
      → any (λ k. is_key k o) (schema_keys fields) ≡ true
      → answer js o (sanitize_answers fields a) ≡ answer js o a
  answer_of_rule none h = refl
  answer_of_rule (some s) h =
      let (k, i, same) = any-In (λ k. is_key k (some s)) (schema_keys fields) h in
      let e : s ≡ k = text_eq→eq s k same in
      rw (get-sanitize_answers fields s a (rw e (schema_keys-known fields k i)))

  is_field_visible-sanitize_answers :
      (f : ServiceFormField N)
      → refers_to (schema_keys fields) f.visible_when ≡ true
      → is_field_visible js f (sanitize_answers fields a) ≡ is_field_visible js f a
  unfolding is_field_visible evaluate_visibility_rule
  is_field_visible-sanitize_answers f h = of_rule f f.visible_when refl h
    where
      of_rule :
          (f : ServiceFormField N) (o : Option (ConditionalVisibility N))
          → f.visible_when ≡ o
          → refers_to (schema_keys fields) o ≡ true
          → is_field_visible js f (sanitize_answers fields a) ≡ is_field_visible js f a
      of_rule f none e h = rw (e, is_field_visible)
      of_rule f (some rule) e h = rw (e, is_field_visible, answer_of_rule rule.field_key h)

  answer_errors-sanitize_answers :
      (f : ServiceFormField N)
      → In f fields
      → refers_to (schema_keys fields) f.visible_when ≡ true
      → answer_errors js f (sanitize_answers fields a) ≡ answer_errors js f a
  unfolding answer_errors
  answer_errors-sanitize_answers f i h =
      rw (is_field_visible-sanitize_answers f h, answer-sanitize_answers fields js f a i)

  answers_errors-sanitize_answers :
      (gs : List (ServiceFormField N))
      → ((f : ServiceFormField N) → In f gs → In f fields)
      → reference_errors (schema_keys fields) gs ≡ []
      → answers_errors js gs (sanitize_answers fields a) ≡ answers_errors js gs a
  unfolding answers_errors reference_errors
  answers_errors-sanitize_answers [] inside h = refl
  answers_errors-sanitize_answers (f ∷ gs) inside h =
      let (own, rest) =
        append-eq_nil (unless (refers_to (schema_keys fields) f.visible_when) (rule_unknown f.key))
          (reference_errors (schema_keys fields) gs) h in
      ap₂ ◌++◌ (answer_errors-sanitize_answers f (inside f (inl refl)) (unless-eq_nil _ _ own))
        (answers_errors-sanitize_answers gs (λ g i. inside g (inr i)) rest)

  -- Where the schema is valid, dropping the answers to fields that it does not have changes nothing
  -- for the others: the errors of the answers that are kept are exactly the errors of the fields in
  -- what was submitted, the visibility of each included, and no answer is reported as unknown.
  pub validate_answers-sanitize_answers :
      validate_form_schema (some fields) ≡ []
      → validate_answers js fields (sanitize_answers fields a) ≡ answers_errors js fields a
  unfolding validate_answers
  validate_answers-sanitize_answers h =
      rw (unknown_errors-sanitize_answers fields js a)
        (answers_errors-sanitize_answers fields (λ f i. i) (valid_parts fields h).1)

  -- Answers that are valid as they were submitted are kept whole.
  sanitize_answers-valid : validate_answers js fields a ≡ [] → sanitize_answers fields a ≡ a
  unfolding validate_answers
  sanitize_answers-valid h =
      let (known, rest) =
        append-eq_nil (unknown_errors js fields a) (answers_errors js fields a) h in
      sanitize_answers-known fields js a known
