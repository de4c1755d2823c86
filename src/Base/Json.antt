-- ===== src/Base/Json.antt =====
-- JSON values as JSON.parse gives them, and what the source does with a value of unknown type:
-- `typeof`, `===`, `includes` and the access to a property. Numbers are of any type, with the
-- comparisons of the runtime. `undefined` is `none`. `inherited` is what a name of Object.prototype
-- gives, a function or an object, by what `String` makes of it; JSON.parse does not give it, and
-- the functions below that read a property read an object's own ones.
use Prim.Native.Nat.{ℕ, zero, suc, ◌+◌, ◌-◌, ◌*◌}
use mathlib.Core.Bool.{Bool, true, false, ◌&&◌, ◌||◌}
use mathlib.Core.Option.{Option, none, some}
use mathlib.Core.List.{List, [], ◌∷◌, ◌++◌}
use support_desk.Base.Tests.{if◌then◌else◌, leb, ◌==◌}
use support_desk.Base.Texts.{Text, text_eq, codes}

mutual
  pub data Json (N : Type 0) : Type 0 where
    null : Json N
    boolean : Bool → Json N
    number : N → Json N
    text : Text → Json N
    array : Items N → Json N
    object : Fields N → Json N
    inherited : Text → Json N

  pub data Items (N : Type 0) : Type 0 where
    nil : Items N
    cons : Json N → Items N → Items N

  pub data Fields (N : Type 0) : Type 0 where
    end : Fields N
    field : Text → Json N → Fields N → Fields N

-- What the runtime does with numbers and texts that the model does not: the comparisons of doubles,
-- `Number(s)`, `String(n)`, `new Date(s).getTime()`, `s.toLowerCase()`, and a test of a pattern, which
-- may be no pattern. `prototype` is what `String` makes of the value that every object inherits under a
-- name, if there is one.
pub record Runtime (N : Type 0) : Type 0 where
  pub num_eq : N → N → Bool
  pub num_lt : N → N → Bool
  pub of_ℕ : ℕ → N
  pub parse_number : Text → N
  pub is_finite : N → Bool
  pub show_number : N → Text
  pub time_of : Text → N
  pub to_lower : Text → Text
  pub test_pattern : (pattern : Text) → Text → Option Bool
  pub prototype : (name : Text) → Option Text

module _ {N : Type 0} where
  abbrev pub get : Text → Fields N → Option (Json N)
  get key end = none
  get key (field name value rest) = if text_eq name key then some value else get key rest

  abbrev pub keys : Fields N → List Text
  keys end = []
  keys (field name value rest) = name ∷ keys rest

  abbrev pub length_items : Items N → ℕ
  length_items nil = 0
  length_items (cons x xs) = suc (length_items xs)

  abbrev pub item : ℕ → Items N → Option (Json N)
  item i nil = none
  item zero (cons x xs) = some x
  item (suc i) (cons x xs) = item i xs

  -- `typeof v === "string" ? v : null`
  abbrev pub text_of : Option (Json N) → Option Text
  text_of (some (text s)) = some s
  text_of _ = none

  -- `v && typeof v === "object" ? v : null`, and its property of that name if it is no array.
  abbrev pub property : Option (Json N) → Text → Option (Json N)
  property (some (object fields)) key = get key fields
  property _ key = none

-- `s.startsWith(t)` and `s.includes(t)`
unfoldable pub starts_with : Text → Text → Bool
starts_with s [] = true
starts_with [] (d ∷ t) = false
starts_with (c ∷ s) (d ∷ t) = c == d && starts_with s t

unfoldable pub includes_text : Text → Text → Bool
unfolding starts_with
includes_text [] t = starts_with [] t
includes_text (c ∷ s) t = starts_with (c ∷ s) t || includes_text s t

-- `s.split(c)`, the first part with the others.
abbrev onto : ℕ → Text × List Text → Text × List Text
onto c (part, parts) = (c ∷ part, parts)

abbrev cut : Text × List Text → Text × List Text
cut (part, parts) = ([], part ∷ parts)

unfoldable pub split_at : ℕ → Text → Text × List Text
split_at separator [] = ([], [])
split_at separator (c ∷ s) =
    let rest = split_at separator s in if c == separator then cut rest else onto c rest

unfoldable pub split : ℕ → Text → List Text
unfolding split_at
split separator s = let (part, parts) = split_at separator s in part ∷ parts

-- The index that a property's name stands for: decimal digits without a leading zero.
abbrev is_digit : ℕ → Bool
is_digit c = leb 48 c && leb c 57

abbrev index_from : ℕ → Text → Option ℕ
index_from n [] = some n
index_from n (c ∷ s) = if is_digit c then index_from (n * 10 + (c - 48)) s else none

abbrev index_of : Text → Option ℕ
index_of [] = none
index_of (c ∷ []) = if is_digit c then some (c - 48) else none
index_of (c ∷ d ∷ s) = if c == 48 then none else index_from 0 (c ∷ d ∷ s)

module _ {N : Type 0} (js : Runtime N) where
  -- `===`; two arrays or objects that were read from different texts are not the same.
  abbrev pub strict_eq : Option (Json N) → Option (Json N) → Bool
  strict_eq none none = true
  strict_eq (some null) (some null) = true
  strict_eq (some (boolean true)) (some (boolean true)) = true
  strict_eq (some (boolean false)) (some (boolean false)) = true
  strict_eq (some (number a)) (some (number b)) = js.num_eq a b
  strict_eq (some (text a)) (some (text b)) = text_eq a b
  strict_eq _ _ = false

  -- `xs.includes(v)`
  abbrev pub includes : Items N → Option (Json N) → Bool
  includes nil v = false
  includes (cons x xs) v = strict_eq (some x) v || includes xs v

  -- `v[key]` of an array: an element, or its length.
  abbrev element : Text → Option ℕ → Items N → Option (Json N)
  element key none xs =
      if text_eq key (codes "length") then some (number (js.of_ℕ (length_items xs))) else none
  element key (some i) xs = item i xs

  -- `typeof v === "object" ? v[key] : undefined`
  unfoldable pub member : Option (Json N) → Text → Option (Json N)
  member (some (object fields)) key = get key fields
  member (some (array xs)) key = element key (index_of key) xs
  member _ key = none

  -- `String(v)`: the elements of an array are joined by commas, null and undefined as nothing.
  unfoldable mutual
    pub show : Json N → Text
    show null = codes "null"
    show (boolean true) = codes "true"
    show (boolean false) = codes "false"
    show (number n) = js.show_number n
    show (text s) = s
    show (array xs) = show_items xs
    show (object fields) = codes "[object Object]"
    show (inherited s) = s

    pub show_item : Json N → Text
    show_item null = []
    show_item (boolean true) = codes "true"
    show_item (boolean false) = codes "false"
    show_item (number n) = js.show_number n
    show_item (text s) = s
    show_item (array xs) = show_items xs
    show_item (object fields) = codes "[object Object]"
    show_item (inherited s) = s

    pub show_items : Items N → Text
    show_items nil = []
    show_items (cons x nil) = show_item x
    show_items (cons x (cons y xs)) = show_item x ++ 44 ∷ show_items (cons y xs)

  -- `Number(v)`
  unfoldable pub to_number : Json N → N
  unfolding show
  to_number null = js.of_ℕ 0
  to_number (boolean true) = js.of_ℕ 1
  to_number (boolean false) = js.of_ℕ 0
  to_number (number n) = n
  to_number (text s) = js.parse_number s
  to_number (array xs) = js.parse_number (show (array xs))
  to_number (object fields) = js.parse_number (show (object fields))
  to_number (inherited s) = js.parse_number s
