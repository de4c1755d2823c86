-- ===== src/Base/Actions.antt =====
-- Methods that make several calls, each of which may commit a change before a later one throws: the
-- state is returned with the error too.
use mathlib.Core.Path.{◌≡◌, refl}
use mathlib.Core.Logic.{◌⊎◌, inr}
use mathlib.Core.Bool.{Bool, true, false}
use support_desk.Base.Results.{Result, ok, err}

abbrev pub Action {ℓ} : Type ℓ → Type ℓ → Type ℓ → Type ℓ
Action S E A = S → S × Result E A

module _ {ℓ} {S E : Type ℓ} where
  abbrev pub next : {A B : Type ℓ} → (A → Action S E B) → S × Result E A → S × Result E B
  next f (s, ok a) = f a s
  next f (s, err e) = (s, err e)

  infixl 5 ◌>>=◌ ◌>>◌
  abbrev pub ◌>>=◌ : {A B : Type ℓ} → Action S E A → (A → Action S E B) → Action S E B
  (m >>= f) s = next f (m s)

  abbrev pub ◌>>◌ : {B : Type ℓ} → Action S E (Unit {ℓ}) → Action S E B → Action S E B
  m >> k = m >>= λ _. k

  -- `if (!test) throw e`
  abbrev pub require : Bool → E → Action S E (Unit {ℓ})
  require true e s = (s, ok tt)
  require false e s = (s, err e)

  abbrev committed : {A : Type ℓ} → S → Result E (S × A) → S × Result E A
  committed s (ok (s', a)) = (s', ok a)
  committed s (err e) = (s, err e)

  -- A transaction: an exception inside it leaves the state as it was.
  abbrev pub transaction : {A : Type ℓ} → (S → Result E (S × A)) → Action S E A
  transaction body s = committed s (body s)

  abbrev pub read_or : {A : Type ℓ} → (S → Result E A) → Action S E A
  read_or q s = (s, q s)

  abbrev pub change : (S → S) → Action S E (Unit {ℓ})
  change f s = (f s, ok tt)

  -- The method throws and leaves the state as it was.
  abbrev pub Refused : {A : Type ℓ} → Action S E A → S → Type ℓ
  Refused m s = (e : E) × (m s ≡ (s, err e))

  -- A guard or a read at the start of a method either ends it before anything has changed, or leaves
  -- what the rest asks for.
  pub require-or :
      {A P : Type ℓ} (b : Bool) (e : E) (k : Action S E A) (s : S)
      → (b ≡ true → P ⊎ Refused k s)
      → P ⊎ Refused (require b e >> k) s
  require-or true e k s rest = rest refl
  require-or false e k s rest = inr (e, refl)

  read-or :
      {A B P : Type ℓ} (r : Result E A) (f : A → Action S E B) (s : S)
      → ((a : A) → r ≡ ok a → P ⊎ Refused (f a) s)
      → P ⊎ ((e : E) × (next f (s, r) ≡ (s, err e)))
  read-or (ok a) f s rest = rest a refl
  read-or (err e) f s rest = inr (e, refl)

  pub read_or-or :
      {A B P : Type ℓ} (q : S → Result E A) (f : A → Action S E B) (s : S)
      → ((a : A) → q s ≡ ok a → P ⊎ Refused (f a) s)
      → P ⊎ Refused (read_or q >>= f) s
  read_or-or q f s rest = read-or (q s) f s rest
