-- ===== src/Catalog/Forms/Structure.antt =====
-- What a schema without errors looks like (form-engine.ts, validateFormSchema).
use support_desk.Base.{
  ℕ, ◌≡◌, refl, sym, subst, Text, text_eq, text_eq→eq, text_eq_refl, Bool, true, false, not, ◌&&◌,
  Option, none, some, is_some, List, [], ◌∷◌, any, All, All-In, In, arith,
}
use support_desk.Base.Members.{any-In}
use support_desk.Catalog.Forms.{ConditionalVisibility, ServiceFormField, is_key, is_known}
use support_desk.Catalog.Forms.Laws.{append-eq_nil, unless-eq_nil, schema_keys-known, valid_parts}
use support_desk.Catalog.Forms.Schema.{
  unless, schema_keys, field_errors, fields_errors, rule_errors, reference_errors, refers_to,
  refers_away, rule_unknown, validate_form_schema, is_well_formed, is_supported, has_options,
  is_rule_operator, is_empty_list, is_empty_text,
}

-- A rule names another field of the schema, and one of the operators EQ, NEQ and CONTAINS.
pub record IsProperRule {N : Type 0} (fields : List (ServiceFormField N)) (key : Text)
    (rule : ConditionalVisibility N) : Type 0 where
  pub target : Text
  pub names : rule.field_key ≡ some target
  pub is_other : text_eq target key ≡ false
  pub is_field : is_known fields target ≡ true
  pub is_allowed : is_rule_operator rule.operator ≡ true

-- A field has a key of the right form and a type, options exactly if its type has them, and a rule
-- that is proper, if any.
pub record IsProperField {N : Type 0} (fields : List (ServiceFormField N)) (f : ServiceFormField N)
    : Type 0 where
  pub key : Text
  pub has_key : f.key ≡ some key
  pub key_form : is_well_formed key ≡ true
  pub has_type : is_supported f.type ≡ true
  pub options_match : is_some f.options ≡ has_options f.type
  pub has_rule :
      (rule : ConditionalVisibility N) → f.visible_when ≡ some rule → IsProperRule fields key rule

abbrev pub Distinct : List Text → Type 0
Distinct [] = Unit {0}
Distinct (k ∷ ks) = (¬ In k ks) × Distinct ks

abbrev IsFree : List Text → Text → Type 0
IsFree keys k = any (λ x. text_eq x k) keys ≡ false

IsFree-weaken : (k : Text) (keys ks : List Text) → All (IsFree (k ∷ keys)) ks → All (IsFree keys) ks
IsFree-weaken k keys [] h = tt
IsFree-weaken k keys (x ∷ ks) h = (ground (arith, h.0), IsFree-weaken k keys ks h.1)

IsFree-In : (k : Text) (keys ks : List Text) → All (IsFree (k ∷ keys)) ks → ¬ In k ks
IsFree-In k keys ks h i =
    let free = All-In (IsFree (k ∷ keys)) k ks h i in
    let self = text_eq_refl k in let wrong = rw self at free in cc

rule-IsProperRule :
    {N : Type 0} (fields : List (ServiceFormField N)) (key : Text) (rule : ConditionalVisibility N)
    → rule_errors key (some rule) ≡ []
    → refers_to (schema_keys fields) (some rule) ≡ true
    → IsProperRule fields key rule
unfolding rule_errors
rule-IsProperRule fields key rule h k =
    let (away, rest) = append-eq_nil (unless (refers_away key rule.field_key) _) _ h in
    let (operator, value) = append-eq_nil (unless (is_rule_operator rule.operator) _) _ rest in
    of_key fields key rule rule.field_key refl (unless-eq_nil _ _ away) k
      (unless-eq_nil _ _ operator)
  where
    of_key :
        {N : Type 0} (fields : List (ServiceFormField N)) (key : Text)
        (rule : ConditionalVisibility N) (o : Option Text)
        → rule.field_key ≡ o
        → refers_away key o ≡ true
        → any (λ k. is_key k o) (schema_keys fields) ≡ true
        → is_rule_operator rule.operator ≡ true
        → IsProperRule fields key rule
    of_key fields key rule none e away k allowed = absurd (cc)
    of_key fields key rule (some s) e away k allowed =
        let (j, i, same) = any-In (λ k. is_key k (some s)) (schema_keys fields) k in
        let named : s ≡ j = text_eq→eq s j same in
        record {
          target = s;
          names = e;
          is_other = ground arith;
          is_field = rw named (schema_keys-known fields j i);
          is_allowed = allowed;
        }

options-match :
    (b : Bool) (o : Option (List Text))
    → not (b && is_empty_list o) ≡ true
    → not (not b && is_some o) ≡ true
    → is_some o ≡ b
options-match true none h k = cc
options-match true (some []) h k = cc
options-match true (some (x ∷ xs)) h k = refl
options-match false none h k = refl
options-match false (some xs) h k = cc

-- One field, in a schema whose references are in order.
module _ {N : Type 0} (fields : List (ServiceFormField N)) (keys : List Text)
    (f : ServiceFormField N) where
  field-IsProperField :
      (key : Text)
      → f.key ≡ some key
      → field_errors key keys f ≡ []
      → refers_to (schema_keys fields) f.visible_when ≡ true
      → IsProperField fields f × IsFree keys key
  unfolding field_errors
  field-IsProperField key named h known =
      let (form, h1) = append-eq_nil (unless (is_well_formed key) _) _ h in
      let (fresh, h2) = append-eq_nil (unless (not (any (λ k. text_eq k key) keys)) _) _ h1 in
      let (label, h3) = append-eq_nil (unless (not (is_empty_text f.label)) _) _ h2 in
      let (type, h4) = append-eq_nil (unless (is_supported f.type) _) _ h3 in
      let (needed, h5) =
        append-eq_nil (unless (not (has_options f.type && is_empty_list f.options)) _) _ h4 in
      let (spare, rule) =
        append-eq_nil (unless (not (not (has_options f.type) && is_some f.options)) _) _ h5 in
      (
        record {
          key = key;
          has_key = named;
          key_form = unless-eq_nil _ _ form;
          has_type = unless-eq_nil _ _ type;
          options_match =
              options-match (has_options f.type) f.options (unless-eq_nil _ _ needed)
                (unless-eq_nil _ _ spare);
          has_rule = λ r e. rule-IsProperRule fields key r (rw e at rule) (rw e at known);
        },
        not_true _ (unless-eq_nil _ _ fresh),
      )
    where
      not_true : (b : Bool) → not b ≡ true → b ≡ false
      not_true true h = cc
      not_true false h = refl

schema_keys-some :
    {N : Type 0} (f : ServiceFormField N) (gs : List (ServiceFormField N)) (c : ℕ) (s : Text)
    → f.key ≡ some (c ∷ s)
    → schema_keys (f ∷ gs) ≡ (c ∷ s) ∷ schema_keys gs
unfolding schema_keys
schema_keys-some f gs c s e = rw (e, schema_keys)

module _ {N : Type 0} (fields : List (ServiceFormField N)) where
  fields-Distinct :
      (keys : List Text) (gs : List (ServiceFormField N))
      → fields_errors keys gs ≡ []
      → reference_errors (schema_keys fields) gs ≡ []
      → All (IsProperField fields) gs
        × All (IsFree keys) (schema_keys gs)
        × Distinct (schema_keys gs)
  unfolding fields_errors schema_keys reference_errors
  fields-Distinct keys [] h k = (tt, tt, tt)
  fields-Distinct keys (f ∷ gs) h k =
      let (known, others) =
        append-eq_nil (unless (refers_to (schema_keys fields) f.visible_when) (rule_unknown f.key))
          (reference_errors (schema_keys fields) gs) k in
      of_key keys f gs f.key refl h (unless-eq_nil _ _ known)
        (λ e. fields-Distinct keys gs e others) (λ key e. fields-Distinct (key ∷ keys) gs e others)
    where
      of_key :
          (keys : List Text) (f : ServiceFormField N) (gs : List (ServiceFormField N))
          (o : Option Text)
          → f.key ≡ o
          → fields_errors keys (f ∷ gs) ≡ []
          → refers_to (schema_keys fields) f.visible_when ≡ true
          → (fields_errors keys gs ≡ []
              → All (IsProperField fields) gs
                × All (IsFree keys) (schema_keys gs)
                × Distinct (schema_keys gs))
          → ((key : Text)
              → fields_errors (key ∷ keys) gs ≡ []
              → All (IsProperField fields) gs
                × All (IsFree (key ∷ keys)) (schema_keys gs)
                × Distinct (schema_keys gs))
          → All (IsProperField fields) (f ∷ gs)
            × All (IsFree keys) (schema_keys (f ∷ gs))
            × Distinct (schema_keys (f ∷ gs))
      of_key keys f gs none e h known skip ih = let wrong = rw (e, fields_errors) at h in cc
      of_key keys f gs (some []) e h known skip ih = let wrong = rw (e, fields_errors) at h in cc
      of_key keys f gs (some (c ∷ s)) e h known skip ih =
          let (own, rest) =
            append-eq_nil (field_errors (c ∷ s) keys f) (fields_errors ((c ∷ s) ∷ keys) gs)
              (rw (e, fields_errors) at h) in
          let (proper, free) = field-IsProperField fields keys f (c ∷ s) e own known in
          let (others, frees, distinct) = ih (c ∷ s) rest in
          subst (λ ks. All (IsProperField fields) (f ∷ gs) × All (IsFree keys) ks × Distinct ks)
            (sym (schema_keys-some f gs c s e))
            (
              (proper, others),
              (free, IsFree-weaken (c ∷ s) keys (schema_keys gs) frees),
              (IsFree-In (c ∷ s) keys (schema_keys gs) frees, distinct),
            )

-- A schema in which no errors are found is in order: every field has a key of the right form, and no
-- two fields have the same one, a type, options exactly if it is of a type that offers them, and if
-- it is shown under a rule, the rule names another field of the schema, by EQ, NEQ or CONTAINS.
pub validate_form_schema_sound :
    {N : Type 0} (fields : List (ServiceFormField N))
    → validate_form_schema (some fields) ≡ []
    → All (IsProperField fields) fields × Distinct (schema_keys fields)
validate_form_schema_sound fields h =
    let (own, references) = valid_parts fields h in
    let (proper, free, distinct) = fields-Distinct fields [] fields own references in
    (proper, distinct)
