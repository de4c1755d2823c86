-- ===== src/Base/Texts/Trim.antt =====
-- `trim` is idempotent, so a text that is not blank is still not blank once it is trimmed.
use Prim.Native.Nat.{ℕ}
use mathlib.Core.Path.{◌≡◌, refl, sym, ap, ◌∙◌}
use mathlib.Core.Logic.{◌⊎◌, inl, inr}
use mathlib.Core.Bool.{Bool, true, false}
use mathlib.Core.List.{[], ◌∷◌, ◌++◌, reverse, reverse-append, reverse-reverse}
use native.Mathlib.Omega.{arith}
use support_desk.Base.Tests.{Bool-cases}
use support_desk.Base.Texts.{Text, is_space, drop_spaces, trim, is_blank}

drop_spaces_idem : (s : Text) → drop_spaces (drop_spaces s) ≡ drop_spaces s
unfolding drop_spaces
drop_spaces_idem [] = refl
drop_spaces_idem (c ∷ s) = elim (Bool-cases (is_space c)) [
  | inl e ↦ rw e (drop_spaces_idem s)
  | inr e ↦ rw (e, e)
]

-- A text that begins with a space or is empty, or one that begins with another character.
drop_spaces-cases :
    (s : Text)
    → (drop_spaces s ≡ []) ⊎ ((c : ℕ) × (r : Text) × (is_space c ≡ false) × (drop_spaces s ≡ c ∷ r))
unfolding drop_spaces
drop_spaces-cases [] = inl refl
drop_spaces-cases (c ∷ s) = elim (Bool-cases (is_space c)) [
  | inl e ↦ rw e (drop_spaces-cases s)
  | inr e ↦ inr (c, s, e, rw e)
]

-- The spaces before a last character that is none do not take it away.
drop_spaces-snoc :
    (c : ℕ) (s : Text) → is_space c ≡ false → (w : Text) × (drop_spaces (s ++ c ∷ []) ≡ w ++ c ∷ [])
unfolding drop_spaces
drop_spaces-snoc c [] e = ([], rw e)
drop_spaces-snoc c (d ∷ s) e = elim (Bool-cases (is_space d)) [
  | inl h ↦ rw h (drop_spaces-snoc c s e)
  | inr h ↦ (d ∷ s, rw h)
]

drop_spaces-cons : (c : ℕ) (s : Text) → is_space c ≡ false → drop_spaces (c ∷ s) ≡ c ∷ s
unfolding drop_spaces
drop_spaces-cons c s e = rw e

-- A trimmed text that is not empty begins with a character that is no space.
trim-cases :
    (s : Text) → (trim s ≡ []) ⊎ ((c : ℕ) × (r : Text) × (is_space c ≡ false) × (trim s ≡ c ∷ r))
unfolding trim
trim-cases s = elim (drop_spaces-cases s) [
  | inl e ↦ inl (rw e (unfold drop_spaces in refl))
  | inr (c, r, n, e) ↦
      let (w, k) = drop_spaces-snoc c (reverse r) n in
      inr (
        c,
        reverse w,
        n,
        ap (λ x. reverse (drop_spaces (reverse x))) e
            ∙ ap (λ x. reverse (drop_spaces x)) (reverse-append (c ∷ []) r)
            ∙ ap reverse k
            ∙ reverse-append w (c ∷ []),
      )
]

-- The spaces behind a trimmed text are gone too.
drop_spaces-reverse-trim : (s : Text) → drop_spaces (reverse (trim s)) ≡ reverse (trim s)
unfolding trim
drop_spaces-reverse-trim s =
    let u = drop_spaces (reverse (drop_spaces s)) in
    ap drop_spaces (reverse-reverse u)
    ∙ drop_spaces_idem (reverse (drop_spaces s))
    ∙ sym (reverse-reverse u)

drop_spaces-trim : (s : Text) → drop_spaces (trim s) ≡ trim s
drop_spaces-trim s = elim (trim-cases s) [
  | inl e ↦ ap drop_spaces e ∙ unfold drop_spaces in refl ∙ sym e
  | inr (c, r, n, e) ↦ ap drop_spaces e ∙ drop_spaces-cons c r n ∙ sym e
]

trim_step : (t : Text) → drop_spaces t ≡ t → drop_spaces (reverse t) ≡ reverse t → trim t ≡ t
unfolding trim
trim_step t front back =
    ap (λ x. reverse (drop_spaces (reverse x))) front ∙ ap reverse back ∙ reverse-reverse t

pub trim-trim : (s : Text) → trim (trim s) ≡ trim s
trim-trim s = trim_step (trim s) (drop_spaces-trim s) (drop_spaces-reverse-trim s)

blank_of : Text → Bool
blank_of [] = true
blank_of (c ∷ s) = false

is_blank-of : (s : Text) → is_blank s ≡ blank_of (trim s)
unfolding is_blank blank_of trim
is_blank-of s = ground arith

-- `s.trim()` is blank exactly when `s` is.
pub is_blank-trim : (s : Text) → is_blank (trim s) ≡ is_blank s
is_blank-trim s = is_blank-of (trim s) ∙ ap blank_of (trim-trim s) ∙ sym (is_blank-of s)
