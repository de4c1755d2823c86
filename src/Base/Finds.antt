-- ===== src/Base/Finds.antt =====
-- What `find` gives in a list that was changed.
use mathlib.Core.Path.{◌≡◌, ap, ◌∙◌}
use mathlib.Core.Logic.{inl, inr}
use mathlib.Core.Bool.{Bool, true, false}
use mathlib.Core.Option.{none, some}
use mathlib.Core.List.{List, [], ◌∷◌, ◌++◌}
use native.Mathlib.Omega.{arith}
use support_desk.Base.Tests.{if◌then◌else◌, Bool-cases}
use support_desk.Base.Lists.{In, find, update_where}

module _ {A : Type 0} (p q : A → Bool) (f : A → A) where
  kept : (x : A) → p (f x) ≡ p x → p (if q x then f x else x) ≡ p x
  kept x same = elim (Bool-cases (q x)) [ inl e ↦ rw (e, same) | inr e ↦ rw e ]

  pub find-update_where :
      (xs : List A) (a : A)
      → ((x : A) → p (f x) ≡ p x)
      → find p xs ≡ some a
      → q a ≡ true
      → find p (update_where q f xs) ≡ some (f a)
  find-update_where [] a same h k = cc
  find-update_where (x ∷ xs) a same h k = elim (Bool-cases (p x)) [
    | inl e ↦
        let s = kept x (same x) in
        let xa : x ≡ a = (ground arith) in let qx : q x ≡ true = rw (xa, k) in ground arith
    | inr e ↦
        let s = kept x (same x) in
        let rest = find-update_where xs a same (rw (e, if◌then◌else◌) at h) k in ground arith
  ]

pub find-append :
    {A : Type 0} (p : A → Bool) (xs : List A) (a : A)
    → find p xs ≡ none
    → p a ≡ true
    → find p (xs ++ a ∷ []) ≡ some a
find-append p [] a h k = ground arith
find-append p (x ∷ xs) a h k = elim (Bool-cases (p x)) [
  | inl e ↦ ground arith
  | inr e ↦ let rest = find-append p xs a (rw (e, if◌then◌else◌) at h) k in ground arith
]

pub find-append_left :
    {A : Type 0} (p : A → Bool) (xs ys : List A) (a : A)
    → find p xs ≡ some a
    → find p (xs ++ ys) ≡ some a
find-append_left p [] ys a h = cc
find-append_left p (x ∷ xs) ys a h = elim (Bool-cases (p x)) [
  | inl e ↦ ground arith
  | inr e ↦ let rest = find-append_left p xs ys a (rw (e, if◌then◌else◌) at h) in ground arith
]

-- All elements that pass a test replaced by one.
pub find-update_const :
    {A : Type 0} (p q : A → Bool) (b : A) (xs : List A) (a : A)
    → find p xs ≡ some a
    → q a ≡ true
    → p b ≡ true
    → find p (update_where q (λ x. b) xs) ≡ some b
find-update_const p q b [] a h k l = cc
find-update_const p q b (x ∷ xs) a h k l = elim (Bool-cases (q x)) [
  | inl e ↦ rw (e, l)
  | inr e ↦ elim (Bool-cases (p x)) [
    | inl f ↦ let xa : x ≡ a = (ground arith) in let wrong : q x ≡ true = rw (xa, k) in cc
    | inr f ↦
        let rest = find-update_const p q b xs a (rw (f, if◌then◌else◌) at h) k l in ground arith
  ]
]

pub find-none-In :
    {A : Type 0} (p : A → Bool) (a : A) (xs : List A) → find p xs ≡ none → In a xs → p a ≡ false
find-none-In p a [] h m = absurd m
find-none-In p a (x ∷ xs) h (inl same) = elim (Bool-cases (p x)) [
  | inl e ↦ let y = rw (e, if◌then◌else◌) at h in cc
  | inr e ↦ ap p same ∙ e
]
find-none-In p a (x ∷ xs) h (inr i) = elim (Bool-cases (p x)) [
  | inl e ↦ let y = rw (e, if◌then◌else◌) at h in cc
  | inr e ↦ find-none-In p a xs (rw (e, if◌then◌else◌) at h) i
]
