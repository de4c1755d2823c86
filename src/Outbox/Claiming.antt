-- ===== src/Outbox/Claiming.antt =====
-- The claim of a batch by a worker (outbox.repository.ts, claimPendingBatch).
use support_desk.Base.{
  ℕ, ◌+◌, ◌≤◌, ◌<◌, Text, text_eq, text_eq→eq, text_eq_refl, ◌≡◌, refl, sym, ap, ◌∙◌, subst, ◌≢◌,
  inl, inr, Bool, true, false, not, ◌&&◌, List, map, if◌then◌else◌, filter, take, In, In-take,
  In-filter, filter-In, update_where, Bool-cases, arith,
}
use support_desk.Base.Sort.{sort_by, In-sort_by, sort_by-In, sort_by-IsSorted}
use support_desk.Base.Members.{In-map, map-In, In-update_where, any-In, In-any, take-IsSorted}
use support_desk.Outbox.{OutboxEvent, claimable, claimable_ids, has_id, lease, claim_pending_batch}

-- The rows that a claim may take.
abbrev pub IsFree : ℕ → (OutboxEvent → Bool) → OutboxEvent → Type 0
IsFree now locked e = (claimable now e ≡ true) × (locked e ≡ false)

-- The primary key: a table holds an id once.
abbrev pub HasDistinctIds : List OutboxEvent → Type 0
HasDistinctIds rows = (a b : OutboxEvent) → In a rows → In b rows → a.id ≡ b.id → a ≡ b

pub has_id-In : (ids : List Text) (e : OutboxEvent) → has_id ids e ≡ true → In e.id ids
has_id-In ids e h =
    let (i, m, q) = any-In (λ i. text_eq i e.id) ids h in same i m (text_eq→eq i e.id q)
  where
    same : (i : Text) → In i ids → i ≡ e.id → In e.id ids
    same i m q = rw (← q) m

In-has_id : (ids : List Text) (e : OutboxEvent) → In e.id ids → has_id ids e ≡ true
In-has_id ids e m = In-any (λ i. text_eq i e.id) e.id ids m (text_eq_refl e.id)

module _ (now : ℕ) (locked : OutboxEvent → Bool) (batch_size : ℕ) (rows : List OutboxEvent) where
  abbrev free : OutboxEvent → Bool
  free e = claimable now e && not (locked e)

  abbrev queue : List OutboxEvent
  queue = sort_by (λ e. e.available_at) (filter free rows)

  claimable_ids-In :
      (i : Text)
      → In i (claimable_ids now locked batch_size rows)
      → (q : OutboxEvent) × In q (take batch_size queue) × (i ≡ q.id)
  unfolding claimable_ids
  claimable_ids-In i m = In-map (λ e. e.id) i (take batch_size queue) m

  free-IsFree : (q : OutboxEvent) → free q ≡ true → IsFree now locked q
  free-IsFree q h = ground arith

  -- An id that is claimed is that of a row that was free.
  pub claimed-IsFree :
      (i : Text)
      → In i (claimable_ids now locked batch_size rows)
      → (q : OutboxEvent) × In q rows × IsFree now locked q × (i ≡ q.id)
  claimed-IsFree i m =
      let (q, t, e) = claimable_ids-In i m in
      let (r, f) =
        In-filter free q rows
          (In-sort_by (λ e. e.available_at) q (filter free rows) (In-take q batch_size queue t)) in
      (q, r, free-IsFree q f, e)

  -- A free row that a batch leaves out is available no earlier than every row that it takes.
  claimable_ids-oldest :
      (i : Text) (b : OutboxEvent)
      → In i (claimable_ids now locked batch_size rows)
      → In b rows
      → free b ≡ true
      → has_id (claimable_ids now locked batch_size rows) b ≡ false
      → (q : OutboxEvent) × In q rows × (i ≡ q.id) × (q.available_at ≤ b.available_at)
  unfolding claimable_ids
  claimable_ids-oldest i b m j f out =
      let (q, t, e) = claimable_ids-In i m in
      let key = λ (e : OutboxEvent). e.available_at in
      (
        q,
        (In-filter free q rows
            (In-sort_by key q (filter free rows) (In-take q batch_size queue t))).0,
        e,
        take-IsSorted key q b batch_size queue (sort_by-IsSorted key (filter free rows)) t
            (sort_by-In key b (filter free rows) (filter-In free b rows j f))
            (λ k. left_out (
              In-has_id (map (λ e. e.id) (take batch_size queue)) b
                (map-In (λ e. e.id) b (take batch_size queue) k))),
      )
    where
      left_out : has_id (map (λ e. e.id) (take batch_size queue)) b ≡ true → ⊥
      left_out h = cc

-- In a table whose ids are distinct, every row that a claim returns is a row that was free, now in
-- state CLAIMED and leased to the caller until the end of the lease.
claim_pending_batch_sound :
    (now : ℕ) (locked : OutboxEvent → Bool) (n d : ℕ) (owner : Text) (rows : List OutboxEvent)
    (e : OutboxEvent)
    → HasDistinctIds rows
    → In e (claim_pending_batch now locked n d owner rows).1
    → (r : OutboxEvent) × In r rows × IsFree now locked r × (e ≡ lease owner (now + d) r)
unfolding claim_pending_batch
claim_pending_batch_sound now locked n d owner rows e distinct m =
    let ids = claimable_ids now locked n rows in
    let (r, f, same) = In-map (lease owner (now + d)) e (filter (has_id ids) rows) m in
    let (i, h) = In-filter (has_id ids) r rows f in
    let (q, j, free, k) = claimed-IsFree now locked n rows r.id (has_id-In ids r h) in
    (r, i, rw (distinct r q i j k) free, same)

leased_is_taken :
    (later expires : ℕ) (owner : Text) (ids : List Text) (x q : OutboxEvent)
    → q ≡ (if has_id ids x then lease owner expires x else x)
    → claimable later q ≡ true
    → later < expires
    → has_id ids q ≡ false
unfolding claimable
leased_is_taken later expires owner ids x q e h early = elim (Bool-cases (has_id ids x)) [
  | inl taken ↦ absurd (ground arith)
  | inr left ↦ rw (e, left, left)
]

-- Two claims of a batch, the second before the leases of the first run out, return no event with
-- the same id, whatever rows are locked.
pub claims_are_disjoint :
    (now later : ℕ) (locked locked' : OutboxEvent → Bool) (n n' d d' : ℕ) (owner owner' : Text)
    (rows : List OutboxEvent) (e f : OutboxEvent)
    → later < now + d
    → In e (claim_pending_batch now locked n d owner rows).1
    → In f
        (claim_pending_batch later locked' n' d' owner'
          (claim_pending_batch now locked n d owner rows).0).1
    → e.id ≢ f.id
unfolding claim_pending_batch
claims_are_disjoint now later locked locked' n n' d d' owner owner' rows e f early m m' same =
    let ids = claimable_ids now locked n rows in
    let table = update_where (has_id ids) (lease owner (now + d)) rows in
    let ids' = claimable_ids later locked' n' table in
    let (r, g, k) = In-map (lease owner (now + d)) e (filter (has_id ids) rows) m in
    let (r', g', k') = In-map (lease owner' (later + d')) f (filter (has_id ids') table) m' in
    let mine = has_id-In ids r (In-filter (has_id ids) r rows g).1 in
    let theirs = has_id-In ids' r' (In-filter (has_id ids') r' table g').1 in
    let (q, j, free, l) = claimed-IsFree later locked' n' table r'.id theirs in
    let (x, i, p) = In-update_where (has_id ids) (lease owner (now + d)) q rows j in
    let again =
      In-has_id ids q
        (subst (λ i. In i ids) (sym (ap (λ x. x.id) k) ∙ same ∙ ap (λ x. x.id) k' ∙ l) mine) in
    let not_taken = leased_is_taken later (now + d) owner ids x q p free.0 early in cc

-- In a table whose ids are distinct, a claim takes the oldest: a free row that it does not return
-- became available no earlier than each row that it returns.
pub claim_pending_batch_oldest :
    (now : ℕ) (locked : OutboxEvent → Bool) (n d : ℕ) (owner : Text) (rows : List OutboxEvent)
    (e b : OutboxEvent)
    → HasDistinctIds rows
    → In e (claim_pending_batch now locked n d owner rows).1
    → In b rows
    → IsFree now locked b
    → ((f : OutboxEvent) → In f (claim_pending_batch now locked n d owner rows).1 → f.id ≢ b.id)
    → e.available_at ≤ b.available_at
unfolding claim_pending_batch
claim_pending_batch_oldest now locked n d owner rows e b distinct m j free out =
    let ids = claimable_ids now locked n rows in
    let (r, f, same) = In-map (lease owner (now + d)) e (filter (has_id ids) rows) m in
    let (i, h) = In-filter (has_id ids) r rows f in
    elim (Bool-cases (has_id ids b)) [
      | inl taken ↦ absurd (
          out (lease owner (now + d) b)
            (map-In (lease owner (now + d)) b (filter (has_id ids) rows)
              (filter-In (has_id ids) b rows j taken))
            refl)
      | inr left ↦
          let (q, k, l, le) =
            claimable_ids-oldest now locked n rows r.id b (has_id-In ids r h) j (ground arith)
              left in
          let ours = ap (λ x. x.available_at) same in
          let theirs = ap (λ x. x.available_at) (distinct r q i k l) in omega arith
    ]
