-- ===== src/Outbox/Cleanup.antt =====
-- The cleanup of old rows (outbox.repository.ts, cleanupOldEvents).
use support_desk.Base.{
  ℕ, ◌+◌, ◌*◌, ◌≤◌, ◌≡◌, refl, ◌↔◌, Bool, true, not, some, List, [], ◌∷◌, filter, count_if, length,
  In, In-filter, filter-In, Bool-cases, inl, inr, arith,
}
use support_desk.Outbox.{OutboxEvent, processed, is_old, cleanup_old_events}

-- Processed, and that at least so many days ago.
pub data IsExpired (now days : ℕ) (e : OutboxEvent) : Type 0 where
  expired :
      (t : ℕ)
      → e.state ≡ processed
      → e.processed_at ≡ some t
      → t + days * 86400000 ≤ now
      → IsExpired now days e

is_old-IsExpired :
    (now days : ℕ) (e : OutboxEvent) → is_old now days e ≡ true → IsExpired now days e
unfolding is_old
is_old-IsExpired now days e h = let (t, s, p, le) = parts in expired t s p le
  where
    parts :
        (t : ℕ) × (e.state ≡ processed) × (e.processed_at ≡ some t) × (t + days * 86400000 ≤ now)
    parts = ground arith

IsExpired-is_old :
    (now days : ℕ) (e : OutboxEvent) → IsExpired now days e → is_old now days e ≡ true
unfolding is_old
IsExpired-is_old now days e (expired t s p le) = ground arith

count_if-filter :
    (p : OutboxEvent → Bool) (rows : List OutboxEvent)
    → count_if p rows + length (filter (λ e. not (p e)) rows) ≡ length rows
count_if-filter p [] = refl
count_if-filter p (e ∷ rows) = ground (arith, count_if-filter p rows)

-- The cleanup keeps exactly the rows that are not both processed and older than the days to keep,
-- and returns the number of the others.
cleanup_old_events_exact :
    (now days : ℕ) (rows : List OutboxEvent)
    → ((e : OutboxEvent)
        → In e (cleanup_old_events now days rows).0 ↔ (In e rows × ¬ IsExpired now days e))
      × ((cleanup_old_events now days rows).1 + length (cleanup_old_events now days rows).0
          ≡ length rows)
unfolding cleanup_old_events
cleanup_old_events_exact now days rows =
    let keep = λ (e : OutboxEvent). not (is_old now days e) in
    (
      λ e. (
        λ m.
            let (i, k) = In-filter keep e rows m in
            (i, λ x. let old = IsExpired-is_old now days e x in absurd (ground arith)),
        λ h. filter-In keep e rows h.0 (kept now days e h.1),
      ),
      count_if-filter (is_old now days) rows,
    )
  where
    kept :
        (now days : ℕ) (e : OutboxEvent) → ¬ IsExpired now days e → not (is_old now days e) ≡ true
    kept now days e h = elim (Bool-cases (is_old now days e)) [
      | inl old ↦ absurd (h (is_old-IsExpired now days e old))
      | inr new ↦ rw new
    ]
