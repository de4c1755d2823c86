-- ===== src/Auth/RateLimit/Bounds.antt =====
-- How many calls the limit on the rate allows in a window (auth-rate-limit.service.ts, consume).
use support_desk.Base.{
  ℕ, suc, ◌+◌, ◌-◌, ◌*◌, ◌≤◌, ◌<◌, ◌≡◌, refl, sym, ap, subst, inl, inr, Text, text_eq, text_eq_refl,
  text_eq→eq, Bool, true, false, Bool-cases, not, ◌&&◌, Option, none, some, Option-cases, List, [],
  ◌∷◌, All, leb, find, filter, if◌then◌else◌, arith,
}
use support_desk.Base.Members.{find-In}
use support_desk.Auth.RateLimit.{
  Bucket, RateLimitConfig, RateLimitAttempt, Runtime, has_key, put, counted, increment, limit_of,
  hash_key, consume, decide,
}

pub record Call : Type 0 where
  pub now : ℕ
  pub attempt : RateLimitAttempt

unfoldable pub key_of : Runtime → Call → Text
key_of rt c = hash_key rt c.attempt.scope c.attempt.dimensions

module _ (config : RateLimitConfig) (rt : Runtime) (key : Text) where
  -- The number of calls with the key that are allowed when the calls are made in turn.
  unfoldable pub allowed_calls : List Call → List Bucket → ℕ
  allowed_calls [] store = 0
  allowed_calls (c ∷ calls) store =
      let r = consume config rt c.now c.attempt store in
      let rest = allowed_calls calls r.0 in
      if text_eq (key_of rt c) key && r.1.allowed then suc rest else rest

  -- A call within so many milliseconds, with the limit if it has the key.
  pub record IsInWindow (start limit : ℕ) (c : Call) : Type 0 where
    pub begun : start ≤ c.now
    pub in_time : c.now < start + config.window_seconds * 1000
    pub limited : key_of rt c ≡ key → limit_of config c.attempt ≡ limit

abbrev cost : Bool → ℕ
cost true = 1
cost false = 0

find-filter_other :
    (k key : Text) (store : List Bucket)
    → text_eq k key ≡ false
    → find (has_key key) (filter (λ x. not (has_key k x)) store) ≡ find (has_key key) store
find-filter_other k key [] e = refl
find-filter_other k key (b ∷ store) e =
    let rest = find-filter_other k key store e in
    elim (Bool-cases (has_key k b)) [
      | inr left ↦ rw (left, rest)
      | inl gone ↦
          let other : has_key key b ≡ false =
            subst (λ z. text_eq z key ≡ false) (sym (text_eq→eq b.key k gone)) e in
          rw (gone, other) rest
    ]

-- How many calls may still be allowed: what the bucket leaves, and a window more if it ends in time.
room : (end limit : ℕ) → Option Bucket → ℕ
room end limit none = limit
room end limit (some b) = (limit - b.count) + (if leb end b.expires_at then 0 else limit)

counted-key :
    (key : Text) (expires now : ℕ) (store : List Bucket)
    → (counted key expires now (find (has_key key) store)).key ≡ key
counted-key key expires now store = elim (Option-cases (find (has_key key) store)) [
  | inl gone ↦ rw gone refl
  | inr (b, there) ↦
      let same = text_eq→eq b.key key (find-In (has_key key) b store there).1 in
      rw there (elim (Bool-cases (leb b.expires_at now)) [
        | inl over ↦ rw over refl
        | inr live ↦ rw live same
      ])
]

room-counted :
    (key : Text) (end limit start now window : ℕ) (o : Option Bucket)
    → start ≤ now
    → now < start + window
    → let b = counted key (now + window) now o in
      room (start + window) limit (some b) + cost (leb b.count limit)
      ≤ room (start + window) limit o
unfolding room
room-counted key end limit start now window none late soon = ground arith
room-counted key end limit start now window (some b) late soon = ground arith

find-put :
    (key : Text) (b : Bucket) (store : List Bucket)
    → b.key ≡ key
    → find (has_key key) (put b store) ≡ some b
find-put key b store e =
    let same : text_eq b.key key ≡ true =
      subst (λ z. text_eq b.key z ≡ true) e (text_eq_refl b.key) in
    rw same

find-put_other :
    (key : Text) (b : Bucket) (store : List Bucket)
    → text_eq b.key key ≡ false
    → find (has_key key) (put b store) ≡ find (has_key key) store
find-put_other key b store e = rw e (find-filter_other b.key key store e)

decide-cost :
    (limit now : ℕ) (b : Bucket) → cost (decide limit now b).allowed ≡ cost (leb b.count limit)
decide-cost limit now b = elim (Bool-cases (leb b.count limit)) [ inl e ↦ rw e | inr e ↦ rw e ]

module _ (config : RateLimitConfig) (rt : Runtime) (key : Text) (start limit : ℕ) where
  end : ℕ
  end = start + config.window_seconds * 1000

  abbrev left_for : List Bucket → ℕ
  left_for store = room end limit (find (has_key key) store)

  -- A call with another key leaves the bucket of the key.
  consume-other :
      (c : Call) (store : List Bucket)
      → text_eq (key_of rt c) key ≡ false
      → find (has_key key) (consume config rt c.now c.attempt store).0 ≡ find (has_key key) store
  unfolding consume increment key_of
  consume-other c store other =
      let k = key_of rt c in
      let b = counted k (c.now + config.window_seconds * 1000) c.now (find (has_key k) store) in
      let mine : b.key ≡ k = counted-key k (c.now + config.window_seconds * 1000) c.now store in
      find-put_other key b store (subst (λ z. text_eq z key ≡ false) (sym mine) other)

  consume-own :
      (c : Call) (store : List Bucket)
      → key_of rt c ≡ key
      → IsInWindow config rt key start limit c
      → let r = consume config rt c.now c.attempt store in
        left_for r.0 + cost r.1.allowed ≤ left_for store
  unfolding consume increment key_of end
  consume-own c store own w = subst Cost (sym own) (
      rw
        (
          find-put key b store (counted-key key expires c.now store),
          w.limited own,
          decide-cost limit c.now b,
        )
        (room-counted key end limit start c.now (config.window_seconds * 1000)
          (find (has_key key) store) w.begun w.in_time))
    where
      expires : ℕ
      expires = c.now + config.window_seconds * 1000

      b : Bucket
      b = counted key expires c.now (find (has_key key) store)

      Cost : Text → Type 0
      Cost k =
          let b' = counted k expires c.now (find (has_key k) store) in
          left_for (put b' store) + cost (decide (limit_of config c.attempt) c.now b').allowed
          ≤ left_for store

  allowed_calls-left_for :
      (calls : List Call) (store : List Bucket)
      → All (IsInWindow config rt key start limit) calls
      → allowed_calls config rt key calls store ≤ left_for store
  unfolding allowed_calls
  allowed_calls-left_for [] store all = omega arith
  allowed_calls-left_for (c ∷ calls) store all =
      let rest = allowed_calls-left_for calls (consume config rt c.now c.attempt store).0 all.1 in
      elim (Bool-cases (text_eq (key_of rt c) key)) [
        | inl own ↦
            let less = consume-own c store (text_eq→eq (key_of rt c) key own) all.0 in
            (rw own (elim (Bool-cases (consume config rt c.now c.attempt store).1.allowed) [
              | inl e ↦ let x = rw e at less in rw e (omega (arith, rest, x))
              | inr e ↦ let x = rw e at less in rw e (omega (arith, rest, x))
            ]))
        | inr other ↦
            let same = ap (room end limit) (consume-other c store other) in
            rw other (omega (arith, rest, same))
      ]

-- The limit on the rate of calls. Make any calls whose times lie within one window of a start, and of
-- which those with the key have the same limit. Whatever buckets the store holds at first, at most
-- twice the limit of the calls with the key are allowed, and if it holds none for the key, at most
-- the limit; calls with other keys do not matter.
pub consume_bounds :
    (config : RateLimitConfig) (rt : Runtime) (key : Text) (start limit : ℕ) (calls : List Call)
    (store : List Bucket)
    → All (IsInWindow config rt key start limit) calls
    → (allowed_calls config rt key calls store ≤ 2 * limit)
      × (find (has_key key) store ≡ none → allowed_calls config rt key calls store ≤ limit)
unfolding room end
consume_bounds config rt key start limit calls store all =
    let bound = allowed_calls-left_for config rt key start limit calls store all in
    (
      omega (
        arith,
        bound,
        room-le (start + config.window_seconds * 1000) limit (find (has_key key) store),
      ),
      λ gone.
          subst
            (λ o.
              allowed_calls config rt key calls store
              ≤ room (start + config.window_seconds * 1000) limit o)
            gone bound,
    )
  where
    room-le : (end limit : ℕ) (o : Option Bucket) → room end limit o ≤ 2 * limit
    room-le end limit none = omega arith
    room-le end limit (some b) = ground arith
