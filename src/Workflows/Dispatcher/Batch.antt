-- ===== src/Workflows/Dispatcher/Batch.antt =====
-- The loop over the outbox events that a worker has claimed, processOutboxBatch of
-- apps/api/src/workflows/runtime/workflow-dispatcher.service.ts.
use support_desk.Base.{ℕ, Text, Bool, List, [], ◌∷◌, length, Result, ok, err}
use support_desk.Base.Actions.{Action}
use support_desk.Outbox.{OutboxEvent, OutboxError, record_attempt_failure, claim_pending_batch}
use support_desk.Workflows.Dispatcher.{with_outbox, dispatch_outbox_event}
use support_desk.Workflows.Tables.{Store, Env}

module _ {W P X C : Type 0} where
  abbrev failure_recorded :
      Store W P X C
      → Result OutboxError (List OutboxEvent × Bool)
      → Store W P X C × Result OutboxError (Unit {0})
  failure_recorded s (ok (rows, is_dead_lettered)) = (with_outbox s rows, ok tt)
  failure_recorded s (err e) = (s, err e)

  -- The handler of the loop over a batch; `jitter` and the message of an error are the runtime's.
  abbrev caught :
      Env W P X C
      → (jitter : ℕ) → (OutboxError → Text)
      → OutboxEvent
      → Store W P X C × Result OutboxError (Unit {0})
      → Store W P X C × Result OutboxError (Unit {0})
  caught env jitter message e (s, ok done) = (s, ok done)
  caught env jitter message e (s, err x) =
      failure_recorded s
        (record_attempt_failure env.now jitter 8 e.id e.tenant_id (message x) s.domain.outbox)

  abbrev after_dispatch :
      (Store W P X C → Store W P X C × Result OutboxError (Unit {0}))
      → Store W P X C × Result OutboxError (Unit {0})
      → Store W P X C × Result OutboxError (Unit {0})
  after_dispatch others (s, ok done) = others s
  after_dispatch others (s, err x) = (s, err x)

  unfoldable pub dispatch_batch :
      Env W P X C
      → (jitter : ℕ) → (OutboxError → Text)
      → List OutboxEvent
      → Action (Store W P X C) OutboxError (Unit {0})
  unfolding dispatch_outbox_event
  dispatch_batch env jitter message [] s = (s, ok tt)
  dispatch_batch env jitter message (e ∷ es) s =
      after_dispatch (dispatch_batch env jitter message es)
        (caught env jitter message e (dispatch_outbox_event env e s))

  abbrev counted :
      (claimed : ℕ)
      → Store W P X C × Result OutboxError (Unit {0})
      → Store W P X C × Result OutboxError ℕ
  counted claimed (s, ok done) = (s, ok claimed)
  counted claimed (s, err x) = (s, err x)

  unfoldable pub process_outbox_batch :
      Env W P X C
      → (locked : OutboxEvent → Bool) → (jitter : ℕ) → (OutboxError → Text)
      → (batch_size lease_duration : ℕ) → (lease_owner : Text)
      → Action (Store W P X C) OutboxError ℕ
  unfolding dispatch_batch
  process_outbox_batch env locked jitter message batch_size lease_duration owner s =
      let (rows, batch) =
        claim_pending_batch env.now locked batch_size lease_duration owner s.domain.outbox in
      counted (length batch) (dispatch_batch env jitter message batch (with_outbox s rows))
