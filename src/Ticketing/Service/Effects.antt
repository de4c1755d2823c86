-- ===== src/Ticketing/Service/Effects.antt =====
-- What a successful operation of tickets.service.ts has done.
use support_desk.Base.{
  ℕ, ◌+◌, Text, text_eq, ◌≡◌, refl, sym, ap, ap₂, ◌∙◌, ◌≢◌, ◌⊎◌, inl, inr, true, false, not, Option,
  none, some, List, [], ◌∷◌, ◌++◌, find, is_some, or_else, map, guard, Result, ok, err, >>=-eq-ok,
  arith,
}
use support_desk.Audit.{AuditEvent}
use support_desk.Outbox.{Fresh, OutboxEvent}
use support_desk.Ticketing.Ticket.{
  Ticket, TicketError, UpdateParams, Previous, aggregate, transition_to, update_fields, assign,
  unassign, update_text, closed_assignment, group_unsupported,
}
use support_desk.Ticketing.Ticket.Status.{TicketStatus, closed}
use support_desk.Ticketing.Ticket.Moves.{Moves, transition_to_effect, transition_to_iff}
use support_desk.Ticketing.Store.{
  Tables, is_live_row, find_by_id, update_with_audit, update_with_client,
  find_active_user_in_tenant, append_changes,
}
use support_desk.Ticketing.Service.{
  Desk, Request, get_ticket_by_id, transition_status, assign_ticket, check_assignee, is_given,
  audit_of, on_ticket_status_changed, notice, ticket_status_changed, recipients,
}

-- The ticket that an operation loads is a live row of the tenant.
get_ticket_by_id-row :
    (tenant id : Text) (db : Tables) {t : Ticket}
    → get_ticket_by_id tenant id db ≡ ok t
    → find (is_live_row tenant id) db.tickets ≡ some t
unfolding get_ticket_by_id find_by_id aggregate
get_ticket_by_id-row tenant id db h = ground arith

update_with_audit-audit :
    (f g : Fresh) (props : Ticket) (e : ℕ) (audit : AuditEvent) (db : Tables) {db' : Tables}
    {u : Ticket}
    → update_with_audit f g props e audit db ≡ ok (db', u)
    → (update_with_client f.now props e db.tickets ≡ ok (db'.tickets, u))
      × (db'.audit_events ≡ db.audit_events ++ audit ∷ [])
      × (db'.users ≡ db.users)
unfolding update_with_audit
update_with_audit-audit f g props e audit db {db'} {u} h =
    let previous = find (λ t. text_eq t.id props.id) db.tickets in
    let (c, i, k) = >>=-eq-ok (update_with_client f.now props e db.tickets) _ h in
    let (o, j, l) =
      >>=-eq-ok (append_changes f g previous c.1 audit.correlation_id db.outbox_events) _ k in
    let (table, audited, same, updated) = written o c.0 c.1 l in
    (i ∙ ap₂ (λ x y. ok (x, y)) (sym table) (sym updated), audited, same)
  where
    written :
        (o : List OutboxEvent) (ts : List Ticket) (v : Ticket)
        → ◌≡◌ {A = Result TicketError (Tables × Ticket)}
            (ok (
              record db {
                tickets = ts;
                audit_events = db.audit_events ++ audit ∷ [];
                outbox_events = o;
              },
              v,
            ))
            (ok (db', u))
        → (db'.tickets ≡ ts)
          × (db'.audit_events ≡ db.audit_events ++ audit ∷ [])
          × (db'.users ≡ db.users)
          × (u ≡ v)
    written o ts v h = ground arith

transition_status-steps :
    (r : Request) (id : Text) (s : TicketStatus) (e : ℕ) (w : Desk) {w' : Desk} {u : Ticket}
    → transition_status r id s e w ≡ ok (w', u)
    → (t v : Ticket) × (get_ticket_by_id r.tenant_id id w.tables ≡ ok t)
      × (transition_to r.fresh.now s e t ≡ ok v)
      × (update_with_audit r.fresh r.fresh' v e (audit_of "ticket.status_changed" r v.id) w.tables
          ≡ ok (w'.tables, u))
      × (w'.sla_calls ≡ w.sla_calls ++ on_ticket_status_changed u t.status ∷ [])
unfolding transition_status
transition_status-steps r id s e w {w'} {u} h =
    let (t, i, k) = >>=-eq-ok (get_ticket_by_id r.tenant_id id w.tables) _ h in
    let (v, j, l) = >>=-eq-ok (transition_to r.fresh.now s e t) _ k in
    let (c, m, n) =
      >>=-eq-ok
        (update_with_audit r.fresh r.fresh' v e (audit_of "ticket.status_changed" r v.id) w.tables)
        _ l in
    let (tables, updated, calls) = written c.0 c.1 t n in
    (t, v, i, j, m ∙ ap₂ (λ x y. ok (x, y)) (sym tables) (sym updated), calls)
  where
    written :
        (db : Tables) (x t : Ticket)
        → ◌≡◌ {A = Result TicketError (Desk × Ticket)}
            (ok (
              record w {
                tables = db;
                notices = w.notices ++ map (notice ticket_status_changed r x) (recipients x);
                sla_calls = w.sla_calls ++ on_ticket_status_changed x t.status ∷ [];
              },
              x,
            ))
            (ok (w', u))
        → (w'.tables ≡ db)
          × (u ≡ x)
          × (w'.sla_calls ≡ w.sla_calls ++ on_ticket_status_changed u t.status ∷ [])
    written db x t h = ground arith

-- A change of status that succeeds found a live ticket of the request's tenant at the version that
-- the caller named, asked for its present status or one that the diagram reaches from it, wrote the
-- table at that version, appended one audit event and told the SLA engine the ticket and its
-- former status.
pub transition_status_effect :
    (r : Request) (id : Text) (s : TicketStatus) (e : ℕ) (w : Desk) {w' : Desk} {u : Ticket}
    → transition_status r id s e w ≡ ok (w', u)
    → (t v : Ticket) × (find (is_live_row r.tenant_id id) w.tables.tickets ≡ some t)
      × (e ≡ t.version)
      × ((t.status ≡ s) ⊎ Moves t.status s)
      × (update_with_client r.fresh.now v e w.tables.tickets ≡ ok (w'.tables.tickets, u))
      × (v.status ≡ s)
      × (w'.tables.audit_events
          ≡ w.tables.audit_events ++ audit_of "ticket.status_changed" r v.id ∷ [])
      × (w'.sla_calls ≡ w.sla_calls ++ on_ticket_status_changed u t.status ∷ [])
transition_status_effect r id s e w h =
    let (t, v, i, j, k, l) = transition_status-steps r id s e w h in
    let (m, n) = (transition_to_iff r.fresh.now s e t).0 (v, j) in
    let (p, q, o) =
      update_with_audit-audit r.fresh r.fresh' v e (audit_of "ticket.status_changed" r v.id)
        w.tables k in
    (
      t,
      v,
      get_ticket_by_id-row r.tenant_id id w.tables i,
      m,
      n,
      p,
      transition_to-status r.fresh.now s e t j,
      q,
      l,
    )
  where
    transition_to-status :
        (now : ℕ) (s : TicketStatus) (e : ℕ) (t : Ticket) {v : Ticket}
        → transition_to now s e t ≡ ok v
        → v.status ≡ s
    transition_to-status now s e t {v} h = elim (transition_to_effect now s e t h) [
      | inl x ↦ ap (λ (y : Ticket). y.status) x.1 ∙ x.0
      | inr x ↦ x.1
    ]

-- A closed ticket refuses `assign` and `unassign` at its version, whoever is named, while
-- `updateFields` gives it any assignee, in an update that leaves its texts out.
pub closed_assignment_guard :
    (now : ℕ) (t : Ticket) (a g : Option (Option Text)) (p : UpdateParams) (assignee : Option Text)
    → t.status ≡ closed
    → p.title ≡ none
    → p.description ≡ none
    → p.assignee_user_id ≡ some assignee
    → (assign now a g t.version t ≡ err closed_assignment)
      × (unassign now t.version t ≡ err closed_assignment)
      × ((u : Ticket) × (update_fields now p t.version t ≡ ok u)
          × (u.status ≡ closed)
          × (u.assignee_user_id ≡ assignee))
unfolding assign unassign update_fields update_text
closed_assignment_guard now t a g p assignee c no_title no_description given = (
  ground arith,
  ground arith,
  (
    record t {
      priority = or_else p.priority t.priority;
      channel = or_else p.channel t.channel;
      type = or_else p.type t.type;
      assignee_user_id = assignee;
      assigned_group_id = or_else p.assigned_group_id t.assigned_group_id;
      due_date = or_else p.due_date t.due_date;
      updated_at = now;
      version = t.version + 1;
    },
    ground arith,
    c,
    refl,
  ),
)

check_assignee-member :
    (tenant user : Text) (db : Tables) {x : Unit {0}}
    → user ≢ []
    → check_assignee tenant (some (some user)) db ≡ ok x
    → is_some (find_active_user_in_tenant tenant user db.users) ≡ true
unfolding check_assignee
check_assignee-member tenant [] db n h = absurd (n refl)
check_assignee-member tenant (c ∷ cs) db n h = ground arith

assign-open :
    (now : ℕ) (a g : Option (Option Text)) (e : ℕ) (t : Ticket) {c : Ticket × Previous}
    → assign now a g e t ≡ ok c
    → (e ≡ t.version) × (t.status ≢ closed)
unfolding assign
assign-open now a g e t h = ground arith

-- An assignment that succeeds names no group, names as the user, if one is named by a text that is
-- not empty, an active member of the tenant, and found a live ticket of the tenant that is not
-- closed, at the version that the caller named.
pub assign_ticket_checked :
    (r : Request) (id : Text) (a g : Option (Option Text)) (e : ℕ) (w : Desk) {z : Desk × Ticket}
    → assign_ticket r id a g e w ≡ ok z
    → (is_given g ≡ false)
      × ((user : Text)
          → user ≢ []
          → a ≡ some (some user)
          → is_some (find_active_user_in_tenant r.tenant_id user w.tables.users) ≡ true)
      × ((t : Ticket) × (find (is_live_row r.tenant_id id) w.tables.tickets ≡ some t)
          × (e ≡ t.version)
          × (t.status ≢ closed))
unfolding assign_ticket
assign_ticket_checked r id a g e w h =
    let (t, i, k) = >>=-eq-ok (get_ticket_by_id r.tenant_id id w.tables) _ h in
    let (x, j, l) = >>=-eq-ok (guard (not (is_given g)) group_unsupported) _ k in
    let (y, m, n) = >>=-eq-ok (check_assignee r.tenant_id a w.tables) _ l in
    let (c, p, q) = >>=-eq-ok (assign r.fresh.now a g e t) _ n in
    let (version, unclosed) = assign-open r.fresh.now a g e t p in
    (
      ground arith,
      λ user filled named.
          check_assignee-member r.tenant_id user w.tables filled
            (ap (λ b. check_assignee r.tenant_id b w.tables) (sym named) ∙ m),
      (t, get_ticket_by_id-row r.tenant_id id w.tables i, version, unclosed),
    )
