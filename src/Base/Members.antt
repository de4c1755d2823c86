-- ===== src/Base/Members.antt =====
-- Where the elements of mapped, updated, cut and searched lists come from.
use Prim.Native.Nat.{ℕ, zero, suc, ◌≤◌}
use mathlib.Core.Path.{◌≡◌, refl, ap, ◌∙◌}
use mathlib.Core.Logic.{◌⊎◌, inl, inr}
use mathlib.Core.Bool.{Bool, true}
use mathlib.Core.Option.{some}
use mathlib.Core.List.{List, [], ◌∷◌, ◌++◌, map}
use native.Mathlib.Omega.{arith}
use support_desk.Base.Tests.{if◌then◌else◌, Bool-cases}
use support_desk.Base.Lists.{In, any, find, update_where, take, All-In}
use support_desk.Base.Sort.{IsSorted}

module _ {A : Type 0} where
  pub In-map :
      {B : Type 0} (f : A → B) (b : B) (xs : List A)
      → In b (map f xs)
      → (a : A) × In a xs × (b ≡ f a)
  In-map f b [] m = absurd m
  In-map f b (x ∷ xs) (inl e) = (x, inl refl, e)
  In-map f b (x ∷ xs) (inr m) = let (a, i, e) = In-map f b xs m in (a, inr i, e)

  pub map-In : {B : Type 0} (f : A → B) (a : A) (xs : List A) → In a xs → In (f a) (map f xs)
  map-In f a [] m = m
  map-In f a (x ∷ xs) (inl e) = inl (ap f e)
  map-In f a (x ∷ xs) (inr m) = inr (map-In f a xs m)

  pub In-update_where :
      (p : A → Bool) (f : A → A) (b : A) (xs : List A)
      → In b (update_where p f xs)
      → (a : A) × In a xs × (b ≡ (if p a then f a else a))
  In-update_where p f b [] m = absurd m
  In-update_where p f b (x ∷ xs) (inl e) = (x, inl refl, e)
  In-update_where p f b (x ∷ xs) (inr m) =
      let (a, i, e) = In-update_where p f b xs m in (a, inr i, e)

  pub update_where-In :
      (p : A → Bool) (f : A → A) (a : A) (xs : List A)
      → In a xs
      → In (if p a then f a else a) (update_where p f xs)
  update_where-In p f a [] m = m
  update_where-In p f a (x ∷ xs) (inl e) = inl (ap (λ y. if p y then f y else y) e)
  update_where-In p f a (x ∷ xs) (inr m) = inr (update_where-In p f a xs m)

  pub In-append : (a : A) (xs ys : List A) → In a (xs ++ ys) → In a xs ⊎ In a ys
  In-append a [] ys m = inr m
  In-append a (x ∷ xs) ys (inl e) = inl (inl e)
  In-append a (x ∷ xs) ys (inr m) = elim (In-append a xs ys m) [
    | inl i ↦ inl (inr i)
    | inr i ↦ inr i
  ]

  pub append-In : (a : A) (xs ys : List A) → In a xs ⊎ In a ys → In a (xs ++ ys)
  append-In a [] ys (inl i) = absurd i
  append-In a [] ys (inr i) = i
  append-In a (x ∷ xs) ys (inl (inl e)) = inl e
  append-In a (x ∷ xs) ys (inl (inr i)) = inr (append-In a xs ys (inl i))
  append-In a (x ∷ xs) ys (inr i) = inr (append-In a xs ys (inr i))

  pub any-In : (p : A → Bool) (xs : List A) → any p xs ≡ true → (a : A) × In a xs × (p a ≡ true)
  any-In p [] h = cc
  any-In p (x ∷ xs) h = elim (Bool-cases (p x)) [
    | inl e ↦ (x, inl refl, e)
    | inr e ↦ let (a, i, q) = any-In p xs (rw e at h) in (a, inr i, q)
  ]

  pub In-any : (p : A → Bool) (a : A) (xs : List A) → In a xs → p a ≡ true → any p xs ≡ true
  In-any p a [] m h = absurd m
  In-any p a (x ∷ xs) (inl e) h = rw (← ap p e, h)
  In-any p a (x ∷ xs) (inr m) h = ground (arith, In-any p a xs m h)

  pub find-In : (p : A → Bool) (a : A) (xs : List A) → find p xs ≡ some a → In a xs × (p a ≡ true)
  find-In p a [] h = cc
  find-In p a (x ∷ xs) h = elim (Bool-cases (p x)) [
    | inl e ↦ found p a x xs e (rw (e, if◌then◌else◌) at h)
    | inr e ↦ let (i, q) = find-In p a xs (rw (e, if◌then◌else◌) at h) in (inr i, q)
  ]
    where
      found :
          (p : A → Bool) (a x : A) (xs : List A)
          → p x ≡ true
          → some x ≡ some a
          → In a (x ∷ xs) × (p a ≡ true)
      found p a x xs e h = let same : a ≡ x = cc in (inl same, ap p same ∙ e)

  -- The elements of a sorted list that are cut off are not below those that are kept.
  pub take-IsSorted :
      (key : A → ℕ) (a b : A) (n : ℕ) (xs : List A)
      → IsSorted key xs
      → In a (take n xs)
      → In b xs
      → ¬ In b (take n xs)
      → key a ≤ key b
  take-IsSorted key a b zero xs s i j out = absurd i
  take-IsSorted key a b (suc n) [] s i j out = absurd i
  take-IsSorted key a b (suc n) (x ∷ xs) s i (inl e) out = absurd (out (inl e))
  take-IsSorted key a b (suc n) (x ∷ xs) s (inl e) (inr j) out =
      rw (ap key e) (All-In (λ y. key x ≤ key y) b xs s.0 j)
  take-IsSorted key a b (suc n) (x ∷ xs) s (inr i) (inr j) out =
      take-IsSorted key a b n xs s.1 i j (λ k. out (inr k))
