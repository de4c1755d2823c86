-- ===== src/Catalog/Requests/Transitions.antt =====
-- What transitionStatus of catalog-requests.repository.ts promises.
use support_desk.Base.{
  ◌≡◌, refl, subst, ◌⊎◌, inl, inr, Text, Option, none, some, Option-cases, List, [], ◌∷◌, ◌++◌,
  find, update_where, Result, ok, ◌>>=◌, >>=-eq-ok, arith,
}
use support_desk.Outbox.{Fresh, OutboxEvent}
use support_desk.Catalog.Requests.{
  ServiceRequest, Desk, RequestError, moved_row, append_outbox, audit_row,
}
use support_desk.Catalog.Requests.Transactions.{Move, is_in, history_of, transition_status}

-- The effect of a transition that finds its request in the status it names.
pub record Moved (tenant id : Text) (m : Move) (r : ServiceRequest) (db db' : Desk) : Type 0 where
  pub requests :
      db'.requests ≡ update_where (is_in tenant id m.from) (moved_row m.to m.extra) db.requests
  pub history : db'.history ≡ db.history ++ history_of tenant id m ∷ []
  pub tickets : db'.tables.tickets ≡ db.tables.tickets
  pub approvals : db'.approvals ≡ db.approvals
  pub notices : db'.notices ≡ db.notices
  pub audited :
      db'.tables.audit_events
      ≡ db.tables.audit_events
        ++ audit_row tenant m.actor m.correlation_id m.audit_action "service_request" id ∷ []
  pub found : find (is_in tenant id m.from) db.requests ≡ some r

abbrev moved_desk : (tenant id : Text) → Move → List OutboxEvent → Desk → Desk
moved_desk tenant id m outbox db = record db {
  requests = update_where (is_in tenant id m.from) (moved_row m.to m.extra) db.requests;
  history = db.history ++ history_of tenant id m ∷ [];
  tables = record db.tables {
    outbox_events = outbox;
    audit_events =
        db.tables.audit_events
        ++ audit_row tenant m.actor m.correlation_id m.audit_action "service_request" id ∷ [];
  };
}

abbrev landed :
    (tenant id : Text)
    → Move
    → ServiceRequest
    → Desk
    → List OutboxEvent
    → Result RequestError (Desk × Option ServiceRequest)
landed tenant id m r db o = ok (moved_desk tenant id m o db, some (moved_row m.to m.extra r))

moved_desk-Moved :
    (tenant id : Text) (m : Move) (outbox : List OutboxEvent) (r : ServiceRequest) (db : Desk)
    → find (is_in tenant id m.from) db.requests ≡ some r
    → Moved tenant id m r db (moved_desk tenant id m outbox db)
moved_desk-Moved tenant id m outbox r db e = record {
  requests = refl;
  history = refl;
  tickets = refl;
  approvals = refl;
  notices = refl;
  audited = refl;
  found = e;
}

transition_status-found :
    (f : Fresh) (tenant id : Text) (m : Move) (db db' : Desk) (u : Option ServiceRequest)
    (r : ServiceRequest)
    → find (is_in tenant id m.from) db.requests ≡ some r
    → transition_status f tenant id m db ≡ ok (db', u)
    → (u ≡ some (moved_row m.to m.extra r)) × Moved tenant id m r db db'
unfolding transition_status
transition_status-found f tenant id m db db' u r e h =
    let sent =
      append_outbox f tenant m.event_type "service_request" id m.correlation_id
        db.tables.outbox_events in
    let (rows, _, w) = >>=-eq-ok sent (landed tenant id m r db) written in
    let final : landed tenant id m r db rows ≡ ok (db', u) = w in
    (
      ground arith,
      subst (λ d. Moved tenant id m r db d) (ground arith)
          (moved_desk-Moved tenant id m rows r db e),
    )
  where
    written :
        (append_outbox f tenant m.event_type "service_request" id m.correlation_id
            db.tables.outbox_events
          >>= landed tenant id m r db)
        ≡ ok (db', u)
    written = ground arith

-- A transition of the repository either finds no request of the tenant in the status that it names,
-- and leaves everything as it was, or writes the new status with exactly one entry of the history and
-- one audit event, and touches no ticket, approval or notice.
transition_status-Moved :
    (f : Fresh) (tenant id : Text) (m : Move) (db db' : Desk) (u : Option ServiceRequest)
    → transition_status f tenant id m db ≡ ok (db', u)
    → ((find (is_in tenant id m.from) db.requests ≡ none) × (db' ≡ db) × (u ≡ none))
      ⊎ ((r : ServiceRequest) × (u ≡ some (moved_row m.to m.extra r)) × Moved tenant id m r db db')
unfolding transition_status
transition_status-Moved f tenant id m db db' u h =
    elim (Option-cases (find (is_in tenant id m.from) db.requests)) [
      | inl e ↦ inl (e, ground arith, ground arith)
      | inr (r, e) ↦
          let (same, moved) = transition_status-found f tenant id m db db' u r e h in
          inr (r, same, moved)
    ]
