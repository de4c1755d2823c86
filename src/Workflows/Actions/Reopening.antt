-- ===== src/Workflows/Actions/Reopening.antt =====
-- What the change of a status by a workflow leaves (change-status-action.executor.ts), against the
-- invariant of the ticket aggregate.
use support_desk.Audit.{AuditEvent}
use support_desk.Base.{
  ℕ, ◌≡◌, refl, inl, inr, Text, text_eq, true, false, ◌&&◌, Bool-cases, Option, none, some, List,
  any, find, update_where, if◌then◌else◌, ok, arith,
}
use support_desk.Base.Finds.{find-update_where}
use support_desk.Base.Members.{find-In}
use support_desk.Outbox.{AppendOutboxParams, append_outbox_event, outbox_row, key_eq}
use support_desk.Ticketing.Ticket.{Ticket}
use support_desk.Ticketing.Ticket.Invariant.{IsConsistent}
use support_desk.Ticketing.Ticket.Status.{TicketStatus, closed, status_eq}
use support_desk.Workflows.Tables.{Domain}
use support_desk.Workflows.Actions.{
  Rows, ActionFresh, Context, publish, find_ticket, of_tenant, ticket_id_of,
}
use support_desk.Workflows.Actions.Tickets.{
  named, status_names, with_status, target_status, change_status,
}

publish-rest :
    (f : ActionFresh) (audit : AuditEvent) (event : AppendOutboxParams) (rows : Rows)
    (d d' : Domain Rows)
    → publish f audit event rows d ≡ ok d'
    → d'.rest ≡ rows
unfolding publish append_outbox_event outbox_row
publish-rest f audit event rows d d' h =
    let row = outbox_row f.fresh event in
    elim (Bool-cases (
      any (λ e. text_eq e.tenant_id event.tenant_id && key_eq e.dedupe_key row.dedupe_key)
        d.outbox)) [
          | inl duplicate ↦ let wrong = rw (duplicate, publish) at h in cc
          | inr fresh ↦ let result = rw (fresh, publish) at h in cc
        ]

of_tenant-some :
    (tenant : Text) (o : Option Ticket) (t : Ticket)
    → of_tenant tenant o ≡ some t
    → (o ≡ some t) × (text_eq t.tenant_id tenant ≡ true)
of_tenant-some tenant none t h = cc
of_tenant-some tenant (some u) t h = elim (Bool-cases (text_eq u.tenant_id tenant)) [
  | inl own ↦
      let same : some u ≡ some t = rw (own, if◌then◌else◌) at h in
      (same, rw (← of_some u t same) own)
  | inr foreign ↦ let wrong = rw (foreign, if◌then◌else◌) at h in cc
]
  where
    of_some : (u t : Ticket) → some u ≡ some t → u ≡ t
    of_some u t h = cc

find_ticket-update :
    (tenant id : Text) (now : ℕ) (s : TicketStatus) (tickets : List Ticket) (t : Ticket)
    → find_ticket tenant id tickets ≡ some t
    → find_ticket tenant id (update_where (λ x. text_eq x.id id) (with_status now s) tickets)
      ≡ some (with_status now s t)
unfolding find_ticket with_status
find_ticket-update tenant id now s tickets t h =
    let (found, own) = of_tenant-some tenant (find (λ x. text_eq x.id id) tickets) t h in
    let (i, same_id) = find-In (λ (x : Ticket). text_eq x.id id) t tickets found in
    let updated =
      find-update_where (λ (x : Ticket). text_eq x.id id) (λ x. text_eq x.id id) (with_status now s)
        tickets t (λ x. refl) found same_id in
    rw (updated, own)

module _ {N : Type 0} (f : ActionFresh) (c : Context N) (d d' : Domain Rows) (id : Text)
    (s : TicketStatus) (t : Ticket) where
  -- A workflow that moves a ticket to another status: the row that is read afterwards has that status
  -- and the next version.
  change_status-find :
      ticket_id_of c.payload ≡ some id
      → named status_names (target_status c.params) ≡ some s
      → find_ticket c.tenant_id id d.rest.tickets ≡ some t
      → status_eq t.status s ≡ false
      → change_status f c d ≡ ok d'
      → find_ticket c.tenant_id id d'.rest.tickets ≡ some (with_status f.fresh.now s t)
  unfolding change_status
  change_status-find subject target found moved done =
      let published = rw (subject, target, found, moved) at done in
      let rows = publish-rest f _ _ _ d d' published in
      rw rows (find_ticket-update c.tenant_id id f.fresh.now s d.rest.tickets t found)

  moved_status : status_eq closed s ≡ false → status_eq s closed ≡ false
  moved_status moved = ground arith

  -- The change of a status by a workflow passes by the transitions of the aggregate: a ticket that is
  -- CLOSED, and keeps the aggregate's invariant, is moved to any other status that the action names,
  -- and the row that is left breaks the invariant, since it keeps the time of its closing.
  pub change_status-breaks :
      ticket_id_of c.payload ≡ some id
      → named status_names (target_status c.params) ≡ some s
      → find_ticket c.tenant_id id d.rest.tickets ≡ some t
      → IsConsistent t
      → t.status ≡ closed
      → status_eq closed s ≡ false
      → change_status f c d ≡ ok d'
      → (u : Ticket) × (find_ticket c.tenant_id id d'.rest.tickets ≡ some u)
        × (u.status ≡ s)
        × (¬ IsConsistent u)
  unfolding with_status
  change_status-breaks subject target found consistent was_closed moved done =
      let away : status_eq t.status s ≡ false = rw (was_closed, moved) in
      (
        with_status f.fresh.now s t,
        change_status-find subject target found away done,
        refl,
        λ broken.
            let stamped = consistent.closed_stamped was_closed in
            let kept = broken.closed_only (rw (moved_status moved) stamped) in
            let wrong = rw kept at moved in cc,
      )
