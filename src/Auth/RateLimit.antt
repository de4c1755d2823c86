-- ===== src/Auth/RateLimit.antt =====
-- The limit on the rate of calls, apps/api/src/auth/rate-limit/auth-rate-limit.service.ts: the store in
-- memory, whose map is the list of its buckets, and `consume`. Times are milliseconds. The lower case
-- of a text and its SHA-256 digest are the runtime's.
pub mod Bounds
use support_desk.Base.{
  ℕ, suc, ◌+◌, ◌-◌, ◌*◌, ◌/◌, max, Text, text_eq, Bool, true, false, not, Option, none, some, List,
  [], ◌∷◌, ◌++◌, map, trim, leb, find, filter, or_else, if◌then◌else◌,
}

pub record Bucket : Type 0 where
  pub key : Text
  pub count : ℕ
  pub expires_at : ℕ

pub record RateLimitConfig : Type 0 where
  pub default_limit : ℕ
  pub scope_limit : (scope : Text) → Option ℕ
  pub window_seconds : ℕ

pub record RateLimitAttempt : Type 0 where
  pub dimensions : List Text
  pub limit : Option ℕ
  pub scope : Text

pub record Decision : Type 0 where
  pub allowed : Bool
  pub retry_after_seconds : ℕ

abbrev pub has_key : Text → Bucket → Bool
has_key key b = text_eq b.key key

-- `this.buckets.set(key, bucket)`
abbrev pub put : Bucket → List Bucket → List Bucket
put b store = b ∷ filter (λ x. not (has_key b.key x)) store

-- The bucket of the key that the call leaves: a new one, if there is none or it is over.
abbrev pub counted : (key : Text) → (expires_at now : ℕ) → Option Bucket → Bucket
counted key expires now none = record { key = key; count = 1; expires_at = expires }
counted key expires now (some b) =
    if leb b.expires_at now
    then record { key = key; count = 1; expires_at = expires }
    else record b { count = b.count + 1 }

unfoldable pub increment : (key : Text) → (expires_at now : ℕ) → List Bucket → List Bucket × Bucket
increment key expires now store =
    let b = counted key expires now (find (has_key key) store) in (put b store, b)

-- `Math.ceil(ms / 1000)`
abbrev pub ceil_seconds : ℕ → ℕ
ceil_seconds ms = (ms + 999) / 1000

abbrev pub limit_of : RateLimitConfig → RateLimitAttempt → ℕ
limit_of c a = or_else a.limit (or_else (c.scope_limit a.scope) c.default_limit)

abbrev pub decide : (limit now : ℕ) → Bucket → Decision
decide limit now b =
    if leb b.count limit
    then record { allowed = true; retry_after_seconds = 0 }
    else record { allowed = false; retry_after_seconds = max 1 (ceil_seconds (b.expires_at - now)) }

pub record Runtime : Type 0 where
  pub lower : Text → Text
  pub sha256 : Text → Text

-- `join("\u0000")`
abbrev pub join : Text → List Text → Text
join first [] = first
join first (x ∷ xs) = first ++ 0 ∷ join x xs

unfoldable pub hash_key : Runtime → (scope : Text) → (dimensions : List Text) → Text
hash_key rt scope dimensions =
    rt.sha256 (join scope (map (λ value. rt.lower (trim value)) dimensions))

unfoldable pub consume :
    RateLimitConfig → Runtime → (now : ℕ) → RateLimitAttempt → List Bucket → List Bucket × Decision
unfolding increment
consume c rt now a store =
    let (store', b) =
      increment (hash_key rt a.scope a.dimensions) (now + c.window_seconds * 1000) now store in
    (store', decide (limit_of c a) now b)
