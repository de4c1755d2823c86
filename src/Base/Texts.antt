-- ===== src/Base/Texts.antt =====
-- Texts as lists of code points: equality, `trim` and the test of the pattern for UUIDs that the
-- ticket aggregate and the workflow validation share.
pub mod Trim
use Prim.Native.Nat.{ℕ, zero, suc}
use Prim.Native.Char.{code}
use Prim.Native.String.{String}
use mathlib.Core.Path.{◌≡◌, refl}
use mathlib.Core.Bool.{Bool, true, false, ◌&&◌, ◌||◌}
use mathlib.Core.Option.{Option, none, some}
use mathlib.Core.List.{List, [], ◌∷◌, reverse}
use native.Mathlib.Omega.{arith}
use support_desk.Base.Tests.{leb, ◌==◌, if◌then◌else◌}

abbrev pub Text : Type 0
Text = List ℕ

-- A literal as its code points.
abbrev pub codes : String → Text
codes String.[] = []
codes (String.◌∷◌ c s) = code c ∷ codes s

unfoldable pub text_eq : Text → Text → Bool
text_eq [] [] = true
text_eq [] (b ∷ bs) = false
text_eq (a ∷ as') [] = false
text_eq (a ∷ as') (b ∷ bs) = a == b && text_eq as' bs

pub text_eq→eq : (s t : Text) → text_eq s t ≡ true → s ≡ t
unfolding text_eq
text_eq→eq [] [] h = refl
text_eq→eq [] (b ∷ bs) h = cc
text_eq→eq (a ∷ as') [] h = cc
text_eq→eq (a ∷ as') (b ∷ bs) h = ground (arith, text_eq→eq as' bs)

pub text_eq_refl : (s : Text) → text_eq s s ≡ true
unfolding text_eq
text_eq_refl [] = refl
text_eq_refl (a ∷ s) = ground (arith, text_eq_refl s)

-- The white space that `String.prototype.trim` removes: WhiteSpace and LineTerminator.
unfoldable pub is_space : ℕ → Bool
is_space c =
    (leb 9 c && leb c 13)
    || c == 32
    || c == 160
    || c == 5760
    || (leb 8192 c && leb c 8202)
    || c == 8232
    || c == 8233
    || c == 8239
    || c == 8287
    || c == 12288
    || c == 65279

drop_spaces : Text → Text
unfolding is_space
drop_spaces [] = []
drop_spaces (c ∷ s) = if is_space c then drop_spaces s else c ∷ s

-- `s.trim()`
unfoldable pub trim : Text → Text
unfolding drop_spaces
trim s = reverse (drop_spaces (reverse (drop_spaces s)))

-- `!s.trim()`
unfoldable pub is_blank : Text → Bool
unfolding trim
is_blank s = elim (trim s) [ [] ↦ true | c ∷ r ↦ false ]

is_hex : ℕ → Bool
is_hex c = (leb b'0' c && leb c b'9') || (leb b'a' c && leb c b'f') || (leb b'A' c && leb c b'F')

is_version : ℕ → Bool
is_version c = leb b'1' c && leb c b'5'

is_variant : ℕ → Bool
is_variant c = c == b'8' || c == b'9' || c == b'a' || c == b'b' || c == b'A' || c == b'B'

-- The part of the text behind a prefix that matches, if it matches.
abbrev Match : Type 0
Match = Text → Option Text

one : (ℕ → Bool) → Match
one p [] = none
one p (c ∷ s) = if p c then some s else none

infixl 5 ◌then_match◌
abbrev ◌then_match◌ : Match → Match → Match
◌then_match◌ m k s = elim (m s) [ none ↦ none | some r ↦ k r ]

times : ℕ → Match → Match
times zero m s = some s
times (suc n) m s = elim (m s) [ none ↦ none | some r ↦ times n m r ]

ends : Option Text → Bool
ends none = false
ends (some []) = true
ends (some (c ∷ s)) = false

hex_group : ℕ → Match
unfolding one times is_hex
hex_group n = times n (one is_hex)

dash : Match
unfolding one
dash = one (λ c. c == b'-')

-- `/^[0-9a-f]{8}-[0-9a-f]{4}-[1-5][0-9a-f]{3}-[89ab][0-9a-f]{3}-[0-9a-f]{12}$/i.test(s)`
unfoldable pub is_uuid : Text → Bool
unfolding hex_group dash one is_version is_variant ends
is_uuid s = ends (
    (hex_group 8
        then_match dash
        then_match hex_group 4
        then_match dash
        then_match one is_version
        then_match hex_group 3
        then_match dash
        then_match one is_variant
        then_match hex_group 3
        then_match dash
        then_match hex_group 12)
      s)
