-- ===== src/Outbox/Tests.antt =====
-- The theorems on the outbox at a concrete table.
use support_desk.Base.{
  ℕ, ◌≤◌, ◌≡◌, ◌≢◌, refl, sym, ap, subst, ◌∙◌, text_eq_refl, inl, inr, Text, codes, text_eq, Bool,
  true, false, none, some, List, [], ◌∷◌, In, ok, err, arith,
}
use support_desk.Base.Sort.{sort_by}
use support_desk.Outbox.{
  event_key, OutboxEvent, Fresh, AppendOutboxParams, OutboxState, pending, claimed, duplicate_key,
  processed, failed, dead_lettered, outbox_row, append_outbox_event, claimable, claimable_ids,
  claim_pending_batch, lease, mark_processed, find_event, backoff_ms, failed_row,
  record_attempt_failure, replay_outbox_event, replayed_row, is_old, cleanup_old_events,
}
use support_desk.Outbox.Claiming.{
  HasDistinctIds, IsFree, claims_are_disjoint, claim_pending_batch_oldest,
}
use support_desk.Outbox.Retries.{empty, appended, failed_is_never_claimed, no_dead_letters}

run : Unit {0}
unfolding sort_by text_eq outbox_row append_outbox_event claimable claimable_ids claim_pending_batch
    mark_processed find_event backoff_ms failed_row record_attempt_failure replay_outbox_event
    replayed_row is_old cleanup_old_events
run = tt

abbrev acme : Text
acme = codes "acme"

abbrev event : (id : Text) → (at : ℕ) → OutboxState → OutboxEvent
event id at state = record {
  id = id;
  tenant_id = acme;
  event_type = "ticket.created";
  aggregate_type = "ticket";
  aggregate_id = id;
  dedupe_key = event_key "ticket.created" id id;
  correlation_id = id;
  causation_id = none;
  automation_depth = 0;
  state = state;
  attempt_count = 0;
  available_at = at;
  lease_owner = none;
  lease_expires_at = none;
  last_error = none;
  created_at = at;
  processed_at = none;
}

abbrev early : OutboxEvent
early = event (codes "e1") 5 pending

abbrev late : OutboxEvent
late = event (codes "e2") 7 pending

abbrev broken : OutboxEvent
broken = record (event (codes "e3") 6 failed) { attempt_count = 1 }

abbrev stored : List OutboxEvent
stored = late ∷ early ∷ broken ∷ []

abbrev nothing_locked : OutboxEvent → Bool
nothing_locked e = false

abbrev worker : Text
worker = codes "w"

abbrev claimed_early : OutboxEvent
claimed_early = lease worker 40 early

claims :
    claim_pending_batch 10 nothing_locked 1 30 worker stored
    ≡ (late ∷ claimed_early ∷ broken ∷ [], claimed_early ∷ [])
unfolding run
claims = refl

differ : (x y a b : OutboxEvent) → a ≡ x → b ≡ y → text_eq x.id y.id ≡ false → a.id ≡ b.id → a ≡ b
differ x y a b i j n e =
    let s = sym (ap (λ (z : OutboxEvent). z.id) i) ∙ e ∙ ap (λ (z : OutboxEvent). z.id) j in
    let r = subst (λ k. text_eq x.id k ≡ true) s (text_eq_refl x.id) in cc

stored-HasDistinctIds : HasDistinctIds stored
unfolding run
stored-HasDistinctIds a b (inl i) (inl j) e = i ∙ sym j
stored-HasDistinctIds a b (inl i) (inr (inl j)) e = differ late early a b i j refl e
stored-HasDistinctIds a b (inl i) (inr (inr (inl j))) e = differ late broken a b i j refl e
stored-HasDistinctIds a b (inr (inl i)) (inl j) e = differ early late a b i j refl e
stored-HasDistinctIds a b (inr (inl i)) (inr (inl j)) e = i ∙ sym j
stored-HasDistinctIds a b (inr (inl i)) (inr (inr (inl j))) e = differ early broken a b i j refl e
stored-HasDistinctIds a b (inr (inr (inl i))) (inl j) e = differ broken late a b i j refl e
stored-HasDistinctIds a b (inr (inr (inl i))) (inr (inl j)) e = differ broken early a b i j refl e
stored-HasDistinctIds a b (inr (inr (inl i))) (inr (inr (inl j))) e = i ∙ sym j
stored-HasDistinctIds a b (inr (inr (inr m))) j e = absurd m
stored-HasDistinctIds a b i (inr (inr (inr m))) e = absurd m

claimed_row : In claimed_early (claim_pending_batch 10 nothing_locked 1 30 worker stored).1
unfolding run
claimed_row = inl refl

abbrev claimed_late : OutboxEvent
claimed_late = lease worker 50 late

second_claim :
    In claimed_late
      (claim_pending_batch 20 nothing_locked 5 30 worker
        (claim_pending_batch 10 nothing_locked 1 30 worker stored).0).1
unfolding run
second_claim = inl refl

claims_are_disjoint_example : claimed_early.id ≢ claimed_late.id
claims_are_disjoint_example =
    claims_are_disjoint 10 20 nothing_locked nothing_locked 1 5 30 30 worker worker stored
      claimed_early claimed_late (omega arith) claimed_row second_claim

late-IsFree : IsFree 10 nothing_locked late
unfolding run
late-IsFree = (refl, refl)

late_left :
    (f : OutboxEvent)
    → In f (claim_pending_batch 10 nothing_locked 1 30 worker stored).1
    → f.id ≢ late.id
unfolding run
late_left f (inl e) same =
    let s = sym (ap (λ (z : OutboxEvent). z.id) e) ∙ same in
    let r = subst (λ k. text_eq early.id k ≡ true) s (text_eq_refl early.id) in cc
late_left f (inr m) same = m

claim_pending_batch_oldest_example : 5 ≤ 7
claim_pending_batch_oldest_example =
    claim_pending_batch_oldest 10 nothing_locked 1 30 worker stored claimed_early late
      stored-HasDistinctIds claimed_row (inl refl) late-IsFree late_left

failed_is_never_claimed_example :
    In broken (claim_pending_batch 100 nothing_locked 5 30 worker stored).0
    × ((e : OutboxEvent)
        → In e (claim_pending_batch 100 nothing_locked 5 30 worker stored).1
        → e.id ≢ broken.id)
failed_is_never_claimed_example =
    failed_is_never_claimed 100 nothing_locked 5 30 worker stored broken stored-HasDistinctIds
      (inr (inr (inl refl))) refl

abbrev fresh : Fresh
fresh = record { now = 5; id = codes "e1"; correlation_id = codes "c1" }

abbrev params : AppendOutboxParams
params = record {
  tenant_id = acme;
  event_type = "ticket.created";
  aggregate_type = "ticket";
  aggregate_id = codes "t1";
  correlation_id = none;
  causation_id = none;
  automation_depth = none;
  dedupe_key = none;
}

abbrev appended_row : OutboxEvent
unfolding run
appended_row = outbox_row fresh params

appends : append_outbox_event fresh params [] ≡ ok (appended_row ∷ [])
unfolding run
appends = refl

no_dead_letters_example :
    (appended_row.state ≢ dead_lettered)
    × (appended_row.state ≡ claimed → appended_row.attempt_count ≡ 0)
no_dead_letters_example =
    no_dead_letters appended_row (appended fresh params empty appends) (inl refl)

abbrev swept : List OutboxEvent
swept = record (event (codes "e4") 1 processed) { processed_at = some 2 } ∷ stored

-- A second event of the same correlation is refused, and the old row is swept.
outbox_tests :
    (append_outbox_event fresh
        (record params { correlation_id = some (codes "c1") })
        (appended_row ∷ [])
      ≡ err duplicate_key)
    × (cleanup_old_events 86400002 1 swept ≡ (stored, 1))
unfolding run
outbox_tests = (refl, refl)
