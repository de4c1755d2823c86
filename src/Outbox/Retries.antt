-- ===== src/Outbox/Retries.antt =====
-- Failed attempts, their backoff and the dead letters (outbox.repository.ts,
-- recordAttemptFailure), as the claim sees them.
use native.Mathlib.Nat.{add-zero, le_refl, add-suc, pow-suc}
use support_desk.Base.{
  ℕ, zero, suc, ◌+◌, ◌-◌, ◌^◌, ◌≤◌, Text, text_eq, ◌≡◌, refl, sym, ap, ◌∙◌, subst, ◌≢◌, ◌⊎◌, inl,
  inr, ◌↔◌, Bool, true, false, not, none, some, List, [], ◌∷◌, ◌++◌, filter, update_where, In,
  In-filter, Bool-cases, if-true, if-false, ok, arith,
}
use support_desk.Base.Members.{In-update_where, update_where-In, find-In, In-append, In-map}
use support_desk.Outbox.Claiming.{HasDistinctIds, claimed-IsFree, has_id-In}
use support_desk.Outbox.{
  OutboxEvent, AppendOutboxParams, Fresh, pending, claimed, processed, failed, dead_lettered,
  claimable, claimable_ids, has_id, lease, claim_pending_batch, append_outbox_event, outbox_row,
  mark_processed, find_event, backoff_ms, failed_row, record_attempt_failure, replayed_row,
  replay_outbox_event, cleanup_old_events, is_event, is_old,
}

pow_mono : (a k : ℕ) → 2 ^ a ≤ 2 ^ (a + k)
pow_mono a zero = rw add-zero (le_refl (2 ^ a))
pow_mono a (suc k) = rw (add-suc, pow-suc) (omega (arith, pow_mono a k))

-- The wait before the next attempt never falls as the attempts grow, for the same jitter, and is at
-- most one hour.
backoff_ms_mono :
    (a b jitter : ℕ)
    → a ≤ b
    → (backoff_ms a jitter ≤ backoff_ms b jitter) × (backoff_ms b jitter ≤ 3600000)
unfolding backoff_ms
backoff_ms_mono a b jitter h =
    let e : a + (b - a) ≡ b = omega arith in
    let p : 2 ^ a ≤ 2 ^ b = rw (← e) (pow_mono a (b - a)) in (omega arith, omega arith)

-- A failure that is recorded for a row adds one to its attempts and gives up its lease. The row is
-- a dead letter exactly when the attempts reach the maximum; it then keeps the time from which it
-- is available, and otherwise waits in state FAILED, for an hour at most.
failed_row_effect :
    (now jitter max_attempts : ℕ) (message : Text) (e : OutboxEvent)
    → let r = failed_row now jitter max_attempts message e in
      (r.attempt_count ≡ e.attempt_count + 1)
      × (r.lease_expires_at ≡ none)
      × ((r.state ≡ dead_lettered) ↔ (max_attempts ≤ e.attempt_count + 1))
      × (r.state ≡ dead_lettered → r.available_at ≡ e.available_at)
      × (r.state ≢ dead_lettered
          → (r.state ≡ failed) × (now ≤ r.available_at) × (r.available_at ≤ now + 3600000))
unfolding failed_row
failed_row_effect now jitter max_attempts message e = ground arith

failed-left_out :
    (now : ℕ) (locked : OutboxEvent → Bool) (n : ℕ) (rows : List OutboxEvent) (r : OutboxEvent)
    → HasDistinctIds rows
    → In r rows
    → r.state ≡ failed
    → has_id (claimable_ids now locked n rows) r ≡ false
unfolding claimable
failed-left_out now locked n rows r distinct m f =
    elim (Bool-cases (has_id (claimable_ids now locked n rows) r)) [
      | inl taken ↦
          let (q, j, free, k) =
            claimed-IsFree now locked n rows r.id
              (has_id-In (claimable_ids now locked n rows) r taken) in
          let is_r = distinct r q m j k in absurd (ground arith)
      | inr left ↦ left
    ]

-- A row in state FAILED is never claimed: at no time, whatever is locked, does a claim from a table
-- with distinct ids return it or change it, also when its backoff has run out.
pub failed_is_never_claimed :
    (now : ℕ) (locked : OutboxEvent → Bool) (n d : ℕ) (owner : Text) (rows : List OutboxEvent)
    (r : OutboxEvent)
    → HasDistinctIds rows
    → In r rows
    → r.state ≡ failed
    → In r (claim_pending_batch now locked n d owner rows).0
      × ((e : OutboxEvent) → In e (claim_pending_batch now locked n d owner rows).1 → e.id ≢ r.id)
unfolding claim_pending_batch
failed_is_never_claimed now locked n d owner rows r distinct m f =
    let ids = claimable_ids now locked n rows in
    let left = failed-left_out now locked n rows r distinct m f in
    (
      subst (λ x. In x (update_where (has_id ids) (lease owner (now + d)) rows))
          (if-false (has_id ids r) (lease owner (now + d) r) r refl left)
          (update_where-In (has_id ids) (lease owner (now + d)) r rows m),
      λ e k same.
          let (q, i, g) = In-map (lease owner (now + d)) e (filter (has_id ids) rows) k in
          let (j, taken) = In-filter (has_id ids) q rows i in
          let is_r = distinct q r j m (sym (ap (λ x. x.id) g) ∙ same) in
          let wrong : has_id ids r ≡ true = subst (λ x. has_id ids x ≡ true) is_r taken in cc,
    )

-- What the tables of a running system look like: they start empty, and workers record a failure
-- only for a row that is claimed when they do. The ids are distinct, as the primary key demands.
pub data Reach : List OutboxEvent → Type 0 where
  empty : Reach []
  appended :
      {rows rows' : List OutboxEvent} (f : Fresh) (p : AppendOutboxParams)
      → Reach rows
      → append_outbox_event f p rows ≡ ok rows'
      → Reach rows'
  leased :
      {rows : List OutboxEvent} (now : ℕ) (locked : OutboxEvent → Bool) (n d : ℕ) (owner : Text)
      → Reach rows
      → HasDistinctIds rows
      → Reach (claim_pending_batch now locked n d owner rows).0
  done :
      {rows rows' : List OutboxEvent} (now : ℕ) (id tenant : Text)
      → Reach rows
      → mark_processed now id tenant rows ≡ ok rows'
      → Reach rows'
  attempted :
      {rows rows' : List OutboxEvent} (now jitter max_attempts : ℕ) (id tenant message : Text)
      (e : OutboxEvent) (b : Bool)
      → Reach rows
      → find_event id tenant rows ≡ ok e
      → e.state ≡ claimed
      → 2 ≤ max_attempts
      → record_attempt_failure now jitter max_attempts id tenant message rows ≡ ok (rows', b)
      → Reach rows'
  replayed :
      {rows rows' : List OutboxEvent} (now : ℕ) (id tenant : Text)
      → Reach rows
      → replay_outbox_event now id tenant rows ≡ ok rows'
      → Reach rows'
  cleaned :
      {rows : List OutboxEvent} (now days : ℕ)
      → Reach rows
      → Reach (cleanup_old_events now days rows).0

-- A row that waits for a worker or is with one has no attempt behind it.
abbrev IsUntried : OutboxEvent → Type 0
IsUntried e =
    (e.state ≢ dead_lettered) × ((e.state ≡ pending) ⊎ (e.state ≡ claimed) → e.attempt_count ≡ 0)

abbrev AllUntried : List OutboxEvent → Type 0
AllUntried rows = (e : OutboxEvent) → In e rows → IsUntried e

update_where-AllUntried :
    (p : OutboxEvent → Bool) (f : OutboxEvent → OutboxEvent) (rows : List OutboxEvent)
    → ((e : OutboxEvent) → In e rows → p e ≡ true → IsUntried (f e))
    → AllUntried rows
    → AllUntried (update_where p f rows)
update_where-AllUntried p f rows keep h e m =
    let (a, i, q) = In-update_where p f e rows m in
    elim (Bool-cases (p a)) [
      | inl hit ↦ subst IsUntried (sym (if-true (p a) (f a) a q hit)) (keep a i hit)
      | inr miss ↦ subst IsUntried (sym (if-false (p a) (f a) a q miss)) (h a i)
    ]

find_event-In :
    (id tenant : Text) (rows : List OutboxEvent) {e : OutboxEvent}
    → find_event id tenant rows ≡ ok e
    → In e rows
unfolding find_event
find_event-In id tenant rows {e} h = (find-In (λ r. text_eq r.id id) e rows (ground arith)).0

IsUntried-tried :
    (now jitter max_attempts : ℕ) (message : Text) (e : OutboxEvent)
    → IsUntried e
    → e.state ≡ claimed
    → 2 ≤ max_attempts
    → IsUntried (failed_row now jitter max_attempts message e)
unfolding failed_row
IsUntried-tried now jitter max_attempts message e u c two = ground arith

append-AllUntried :
    (f : Fresh) (p : AppendOutboxParams) (rows : List OutboxEvent) {rows' : List OutboxEvent}
    → append_outbox_event f p rows ≡ ok rows'
    → AllUntried rows
    → AllUntried rows'
unfolding append_outbox_event
append-AllUntried f p rows {rows'} h u e m =
    let same : rows' ≡ rows ++ outbox_row f p ∷ [] = ground arith in
    elim (In-append e rows (outbox_row f p ∷ []) (subst (In e) same m)) [
      | inl old ↦ u e old
      | inr (inl new) ↦ subst IsUntried (sym new) ((λ h. cc), λ h. refl)
      | inr (inr nil) ↦ absurd nil
    ]

attempt-AllUntried :
    (now jitter max_attempts : ℕ) (id tenant message : Text) (rows : List OutboxEvent)
    (e : OutboxEvent) (b : Bool) {rows' : List OutboxEvent}
    → find_event id tenant rows ≡ ok e
    → e.state ≡ claimed
    → 2 ≤ max_attempts
    → record_attempt_failure now jitter max_attempts id tenant message rows ≡ ok (rows', b)
    → AllUntried rows
    → AllUntried rows'
unfolding record_attempt_failure
attempt-AllUntried now jitter max_attempts id tenant message rows e b {rows'} h c two k u =
    let row = failed_row now jitter max_attempts message e in
    let same : rows' ≡ update_where (λ r. text_eq r.id id) (λ r. row) rows = ground arith in
    let fresh =
      IsUntried-tried now jitter max_attempts message e (u e (find_event-In id tenant rows h)) c
        two in
    subst AllUntried (sym same)
      (update_where-AllUntried (λ r. text_eq r.id id) (λ r. row) rows (λ r i q. fresh) u)

leased-AllUntried :
    (now : ℕ) (locked : OutboxEvent → Bool) (n d : ℕ) (owner : Text) (rows : List OutboxEvent)
    → HasDistinctIds rows
    → AllUntried rows
    → AllUntried (claim_pending_batch now locked n d owner rows).0
unfolding claim_pending_batch claimable
leased-AllUntried now locked n d owner rows distinct u =
    let ids = claimable_ids now locked n rows in
    update_where-AllUntried (has_id ids) (lease owner (now + d)) rows
      (λ e i taken.
        let (q, j, free, k) = claimed-IsFree now locked n rows e.id (has_id-In ids e taken) in
        let is_q = distinct e q i j k in
        let waits : (q.state ≡ pending) ⊎ (q.state ≡ claimed) = ground arith in
        let untried : q.attempt_count ≡ 0 = (u q j).1 waits in
        (λ h. cc, λ h. ap (λ x. x.attempt_count) is_q ∙ untried))
      u

done-AllUntried :
    (now : ℕ) (id tenant : Text) (rows : List OutboxEvent) {rows' : List OutboxEvent}
    → mark_processed now id tenant rows ≡ ok rows'
    → AllUntried rows
    → AllUntried rows'
unfolding mark_processed
done-AllUntried now id tenant rows {rows'} h u =
    let close = λ (e : OutboxEvent). record e {
      state = processed;
      processed_at = some now;
      lease_owner = none;
      lease_expires_at = none;
    } in
    let same : rows' ≡ update_where (is_event id tenant) close rows = ground arith in
    subst AllUntried (sym same) (
      update_where-AllUntried (is_event id tenant) close rows
        (λ e i q. (λ h. cc, λ h. ground arith)) u)

replayed-AllUntried :
    (now : ℕ) (id tenant : Text) (rows : List OutboxEvent) {rows' : List OutboxEvent}
    → replay_outbox_event now id tenant rows ≡ ok rows'
    → AllUntried rows
    → AllUntried rows'
unfolding replay_outbox_event
replayed-AllUntried now id tenant rows {rows'} h u =
    let same : rows' ≡ update_where (λ r. text_eq r.id id) (replayed_row now) rows = ground arith in
    subst AllUntried (sym same) (
      update_where-AllUntried (λ r. text_eq r.id id) (replayed_row now) rows
        (λ e i q. (λ h. cc, λ h. refl)) u)

Reach-AllUntried : {rows : List OutboxEvent} → Reach rows → AllUntried rows
unfolding cleanup_old_events
Reach-AllUntried empty = λ e m. absurd m
Reach-AllUntried (appended {rows} f p r h) = append-AllUntried f p rows h (Reach-AllUntried r)
Reach-AllUntried (leased {rows} now locked n d owner r distinct) =
    leased-AllUntried now locked n d owner rows distinct (Reach-AllUntried r)
Reach-AllUntried (done {rows} now id tenant r h) =
    done-AllUntried now id tenant rows h (Reach-AllUntried r)
Reach-AllUntried (attempted {rows} now jitter k id tenant message e b r f c two h) =
    attempt-AllUntried now jitter k id tenant message rows e b f c two h (Reach-AllUntried r)
Reach-AllUntried (replayed {rows} now id tenant r h) =
    replayed-AllUntried now id tenant rows h (Reach-AllUntried r)
Reach-AllUntried (cleaned {rows} now days r) =
    λ e m. Reach-AllUntried r e (In-filter (λ e. not (is_old now days e)) e rows m).0

-- The retries that the maximum of attempts counts do not happen: in a table that starts empty and
-- in which failures are recorded for claimed rows only, with a maximum of 2 or more, no row is ever
-- a dead letter, and every row that is claimed has no attempt behind it.
pub no_dead_letters :
    {rows : List OutboxEvent} (e : OutboxEvent)
    → Reach rows
    → In e rows
    → (e.state ≢ dead_lettered) × (e.state ≡ claimed → e.attempt_count ≡ 0)
no_dead_letters e r m = let u = Reach-AllUntried r e m in (u.0, λ c. u.1 (inr c))
