-- ===== src/Base/Sort.antt =====
-- `xs.sort((a, b) => key(a) - key(b))` as insertion sort, which is stable, with what the
-- components use of it: the order of the result and its elements.
use Prim.Native.Nat.{ℕ, ◌≤◌}
use mathlib.Core.Path.{◌≡◌}
use mathlib.Core.Logic.{◌⊎◌, inl, inr}
use mathlib.Core.List.{List, [], ◌∷◌}
use native.Mathlib.Omega.{arith}
use support_desk.Base.Tests.{leb, if◌then◌else◌, Bool-cases}
use support_desk.Base.Lists.{All, In}

module _ {A : Type 0} (key : A → ℕ) where
  unfoldable pub insert : A → List A → List A
  insert x [] = x ∷ []
  insert x (y ∷ ys) = if leb (key x) (key y) then x ∷ y ∷ ys else y ∷ insert x ys

  unfoldable pub sort_by : List A → List A
  unfolding insert
  sort_by [] = []
  sort_by (x ∷ xs) = insert x (sort_by xs)

  -- Each element's key is at most the keys of those behind it.
  abbrev pub IsSorted : List A → Type 0
  IsSorted [] = Unit
  IsSorted (x ∷ xs) = All (λ y. key x ≤ key y) xs × IsSorted xs

  In-insert : (a : A) (x : A) (ys : List A) → In a (insert x ys) → (a ≡ x) ⊎ In a ys
  unfolding insert
  In-insert a x [] m = m
  In-insert a x (y ∷ ys) m = ground (arith, In-insert a x ys)

  insert-In : (a : A) (x : A) (ys : List A) → (a ≡ x) ⊎ In a ys → In a (insert x ys)
  unfolding insert
  insert-In a x [] m = m
  insert-In a x (y ∷ ys) m = ground (arith, insert-In a x ys)

  pub In-sort_by : (a : A) (xs : List A) → In a (sort_by xs) → In a xs
  unfolding sort_by
  In-sort_by a [] m = m
  In-sort_by a (x ∷ xs) m = elim (In-insert a x (sort_by xs) m) [
    | inl e ↦ inl e
    | inr n ↦ inr (In-sort_by a xs n)
  ]

  pub sort_by-In : (a : A) (xs : List A) → In a xs → In a (sort_by xs)
  unfolding sort_by
  sort_by-In a [] m = m
  sort_by-In a (x ∷ xs) (inl e) = insert-In a x (sort_by xs) (inl e)
  sort_by-In a (x ∷ xs) (inr m) = insert-In a x (sort_by xs) (inr (sort_by-In a xs m))

  All-le_trans : (a b : ℕ) (ys : List A) → a ≤ b → All (λ y. b ≤ key y) ys → All (λ y. a ≤ key y) ys
  All-le_trans a b [] le h = tt
  All-le_trans a b (y ∷ ys) le h = (omega arith, All-le_trans a b ys le h.1)

  All-insert :
      (n : ℕ) (x : A) (ys : List A)
      → n ≤ key x
      → All (λ y. n ≤ key y) ys
      → All (λ y. n ≤ key y) (insert x ys)
  unfolding insert
  All-insert n x [] le h = (le, tt)
  All-insert n x (y ∷ ys) le h = ground (arith, All-insert n x ys)

  insert-IsSorted : (x : A) (ys : List A) → IsSorted ys → IsSorted (insert x ys)
  unfolding insert
  insert-IsSorted x [] s = (tt, tt)
  insert-IsSorted x (y ∷ ys) s = elim (Bool-cases (leb (key x) (key y))) [
    | inl le ↦ rw le (((ground arith, All-le_trans (key x) (key y) ys (ground arith) s.0)), s)
    | inr gt ↦ rw gt (All-insert (key y) x ys (ground arith) s.0, insert-IsSorted x ys s.1)
  ]

  pub sort_by-IsSorted : (xs : List A) → IsSorted (sort_by xs)
  unfolding sort_by
  sort_by-IsSorted [] = tt
  sort_by-IsSorted (x ∷ xs) = insert-IsSorted x (sort_by xs) (sort_by-IsSorted xs)
