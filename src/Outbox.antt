-- ===== src/Outbox.antt =====
-- The transactional outbox: apps/api/src/outbox/outbox-publisher.service.ts and
-- outbox.repository.ts, with the column defaults and the unique key of the table outbox_events in
-- apps/api/prisma/schema.prisma. The table is a list of rows in the order of their insertion, an
-- instant is a number of milliseconds, and payloads are left out.
pub mod Claiming
pub mod Retries
pub mod Cleanup
mod Tests
use Prim.Native.String.{String}
use text.Mathlib.Text.{◌==◌ as str_eq}
use support_desk.Base.{
  ℕ, suc, ◌+◌, ◌*◌, ◌^◌, ◌-◌, min, Text, text_eq, Bool, true, false, not, ◌&&◌, ◌||◌, Option, none,
  some, List, [], ◌∷◌, ◌++◌, map, leb, ◌==◌, if◌then◌else◌, or_else, any, find, filter, count_if,
  update_where, take, Result, ok, err, ◌>>=◌, ◌>>◌, guard,
}
use support_desk.Base.Sort.{sort_by}

pub data OutboxState : Type 0 where
  pending claimed processed failed dead_lettered : OutboxState

abbrev pub state_code : OutboxState → ℕ
state_code pending = 0
state_code claimed = 1
state_code processed = 2
state_code failed = 3
state_code dead_lettered = 4

abbrev pub state_eq : OutboxState → OutboxState → Bool
state_eq a b = state_code a == state_code b

-- `lastError` without its time.
pub record LastError : Type 0 where
  pub message : Text
  pub attempt : ℕ

-- `evt:<tenant>:<event type>:<aggregate>:<correlation>`, or what a workflow's action supplies,
-- `wf:<execution>:act:<ordinal>:<action>`, by their parts.
pub data DedupeKey : Type 0 where
  event_key : (event_type : String) (aggregate_id correlation_id : Text) → DedupeKey
  action_key : (execution_id : Text) (ordinal : ℕ) (action : String) → DedupeKey

pub record OutboxEvent : Type 0 where
  pub id : Text
  pub tenant_id : Text
  pub event_type : String
  pub aggregate_type : String
  pub aggregate_id : Text
  pub dedupe_key : DedupeKey
  pub correlation_id : Text
  pub causation_id : Option Text
  pub automation_depth : ℕ
  pub state : OutboxState
  pub attempt_count : ℕ
  pub available_at : ℕ
  pub lease_owner : Option Text
  pub lease_expires_at : Option ℕ
  pub last_error : Option LastError
  pub created_at : ℕ
  pub processed_at : Option ℕ

pub data OutboxError : Type 0 where
  duplicate_key record_not_found event_not_found : OutboxError

pub record AppendOutboxParams : Type 0 where
  pub tenant_id : Text
  pub event_type : String
  pub aggregate_type : String
  pub aggregate_id : Text
  pub correlation_id : Option Text
  pub causation_id : Option Text
  pub automation_depth : Option ℕ
  pub dedupe_key : Option DedupeKey

-- What the runtime supplies to a call: `new Date()` and two results of `randomUUID()`.
pub record Fresh : Type 0 where
  pub now : ℕ
  pub id : Text
  pub correlation_id : Text

abbrev pub key_eq : DedupeKey → DedupeKey → Bool
key_eq (event_key a aggregate correlation) (event_key b aggregate' correlation') =
    str_eq a b && text_eq aggregate aggregate' && text_eq correlation correlation'
key_eq (action_key execution ordinal a) (action_key execution' ordinal' b) =
    text_eq execution execution' && ordinal == ordinal' && str_eq a b
key_eq _ _ = false

-- The row that `appendOutboxEvent` creates.
unfoldable pub outbox_row : Fresh → AppendOutboxParams → OutboxEvent
outbox_row f p =
    let correlation = or_else p.correlation_id f.correlation_id in
    record {
      id = f.id;
      tenant_id = p.tenant_id;
      event_type = p.event_type;
      aggregate_type = p.aggregate_type;
      aggregate_id = p.aggregate_id;
      dedupe_key = or_else p.dedupe_key (event_key p.event_type p.aggregate_id correlation);
      correlation_id = correlation;
      causation_id = p.causation_id;
      automation_depth = or_else p.automation_depth 0;
      state = pending;
      attempt_count = 0;
      available_at = f.now;
      lease_owner = none;
      lease_expires_at = none;
      last_error = none;
      created_at = f.now;
      processed_at = none;
    }

-- The insert fails on a row of the tenant with the same key (uq_outbox_events__tenant_id_dedupe_key).
unfoldable pub append_outbox_event :
    Fresh → AppendOutboxParams → List OutboxEvent → Result OutboxError (List OutboxEvent)
unfolding outbox_row
append_outbox_event f p rows =
    let row = outbox_row f p in
    if any (λ e. text_eq e.tenant_id p.tenant_id && key_eq e.dedupe_key row.dedupe_key) rows
    then err duplicate_key
    else ok (rows ++ row ∷ [])

-- `lease_expires_at <= NOW()`, which does not hold of NULL.
abbrev pub expired : ℕ → Option ℕ → Bool
expired now none = false
expired now (some t) = leb t now

-- The WHERE of the claim.
unfoldable pub claimable : ℕ → OutboxEvent → Bool
claimable now e =
    (state_eq e.state pending && leb e.available_at now)
    || (state_eq e.state claimed && expired now e.lease_expires_at)

abbrev pub has_id : List Text → OutboxEvent → Bool
has_id ids e = any (λ i. text_eq i e.id) ids

-- The CTE of the claim: `locked` tells the rows that another transaction holds, which
-- FOR UPDATE SKIP LOCKED passes over.
unfoldable pub claimable_ids : ℕ → (OutboxEvent → Bool) → ℕ → List OutboxEvent → List Text
unfolding claimable
claimable_ids now locked batch_size rows =
    map (λ e. e.id)
      (take batch_size
        (sort_by (λ e. e.available_at) (filter (λ e. claimable now e && not (locked e)) rows)))

abbrev pub lease : Text → ℕ → OutboxEvent → OutboxEvent
lease owner expires e = record e {
  state = claimed;
  lease_owner = some owner;
  lease_expires_at = some expires;
}

-- `claimPendingBatch`: the table and the rows that the UPDATE returns.
unfoldable pub claim_pending_batch :
    ℕ
    → (OutboxEvent → Bool)
    → (batch_size lease_duration : ℕ) → Text
    → List OutboxEvent
    → List OutboxEvent × List OutboxEvent
unfolding claimable_ids
claim_pending_batch now locked batch_size lease_duration owner rows =
    let ids = claimable_ids now locked batch_size rows in
    let expires = now + lease_duration in
    (
      update_where (has_id ids) (lease owner expires) rows,
      map (lease owner expires) (filter (has_id ids) rows),
    )

abbrev pub is_event : Text → Text → OutboxEvent → Bool
is_event id tenant e = text_eq e.id id && text_eq e.tenant_id tenant

unfoldable pub mark_processed :
    ℕ → (id tenant : Text) → List OutboxEvent → Result OutboxError (List OutboxEvent)
mark_processed now id tenant rows =
    if any (is_event id tenant) rows
    then ok (
        update_where (is_event id tenant)
          (λ e. record e {
            state = processed;
            processed_at = some now;
            lease_owner = none;
            lease_expires_at = none;
          })
          rows)
    else err record_not_found

-- `findUnique({ where: { id } })` and the check of the tenant behind it.
unfoldable pub find_event : Text → Text → List OutboxEvent → Result OutboxError OutboxEvent
find_event id tenant rows = elim (find (λ e. text_eq e.id id) rows) [
  | none ↦ err event_not_found
  | some e ↦ if text_eq e.tenant_id tenant then ok e else err event_not_found
]

-- `Math.min(Math.pow(2, n) * 1000 + Math.random() * 1000, 3600000)`, the jitter as an argument.
unfoldable pub backoff_ms : (attempt jitter : ℕ) → ℕ
backoff_ms attempt jitter = min (2 ^ attempt * 1000 + jitter) 3600000

-- The update of `recordAttemptFailure`, for the row that it read.
unfoldable pub failed_row : (now jitter max_attempts : ℕ) → Text → OutboxEvent → OutboxEvent
unfolding backoff_ms
failed_row now jitter max_attempts message e =
    let next_attempt = e.attempt_count + 1 in
    let is_dead_lettered = leb max_attempts next_attempt in
    record e {
      attempt_count = next_attempt;
      state = if is_dead_lettered then dead_lettered else failed;
      available_at =
          if is_dead_lettered then e.available_at else now + backoff_ms next_attempt jitter;
      lease_owner = none;
      lease_expires_at = none;
      last_error = some (record { message = message; attempt = next_attempt });
    }

unfoldable pub record_attempt_failure :
    (now jitter max_attempts : ℕ)
    → (id tenant message : Text) → List OutboxEvent
    → Result OutboxError (List OutboxEvent × Bool)
unfolding find_event failed_row
record_attempt_failure now jitter max_attempts id tenant message rows = do
  e ← find_event id tenant rows
  ok (
    update_where (λ r. text_eq r.id id) (λ r. failed_row now jitter max_attempts message e) rows,
    leb max_attempts (e.attempt_count + 1),
  )

unfoldable pub replayed_row : ℕ → OutboxEvent → OutboxEvent
replayed_row now e = record e {
  state = pending;
  available_at = now;
  attempt_count = 0;
  lease_owner = none;
  lease_expires_at = none;
  last_error = none;
}

unfoldable pub replay_outbox_event :
    ℕ → (id tenant : Text) → List OutboxEvent → Result OutboxError (List OutboxEvent)
unfolding find_event replayed_row
replay_outbox_event now id tenant rows = do
  e ← find_event id tenant rows
  ok (update_where (λ r. text_eq r.id id) (replayed_row now) rows)

-- The WHERE of the cleanup: PROCESSED, and processed at most at `now - daysToKeep` days.
unfoldable pub is_old : (now days_to_keep : ℕ) → OutboxEvent → Bool
is_old now days_to_keep e =
    state_eq e.state processed
    && elim e.processed_at [ none ↦ false | some t ↦ leb (t + days_to_keep * 86400000) now ]

unfoldable pub cleanup_old_events : (now days_to_keep : ℕ) → List OutboxEvent → List OutboxEvent × ℕ
unfolding is_old
cleanup_old_events now days_to_keep rows =
    (filter (λ e. not (is_old now days_to_keep e)) rows, count_if (is_old now days_to_keep) rows)
