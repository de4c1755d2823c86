-- ===== src/Catalog/Requests/Tickets.antt =====
-- The idempotence that generateTicket of catalog-requests.repository.ts promises.
use support_desk.Base.{
  ◌≡◌, refl, inl, inr, Text, text_eq, text_eq_refl, true, none, some, Option-cases, &&-eq-true, [],
  ◌∷◌, ◌++◌, find, update_where, ok, >>=-eq-ok, arith,
}
use support_desk.Base.Members.{find-In}
use support_desk.Base.Finds.{find-update_where, find-append}
use support_desk.Outbox.{Fresh}
use support_desk.Ticketing.Ticket.{Ticket}
use support_desk.Ticketing.Store.{is_row}
use support_desk.Catalog.Requests.{ServiceRequest, Desk, find_by_id, append_outbox, is_request}
use support_desk.Catalog.Requests.Transactions.{
  TicketInput, generated_row, linked_ticket, insert_ticket, generate_ticket,
}

-- The desk after `insert_ticket`, in what a second call reads of it.
record Inserted (ticket_id tenant request : Text) (t : Ticket) (db db' : Desk) : Type 0 where
  pub requests :
      db'.requests
      ≡ update_where
          (λ x. text_eq x.id request)
          (λ x. record x { ticket_id = some ticket_id })
          db.requests
  pub tickets : db'.tables.tickets ≡ db.tables.tickets ++ t ∷ []
  pub named : is_row tenant ticket_id t ≡ true

insert_ticket-Inserted :
    (f g : Fresh) (ticket_id tenant request : Text) (input : TicketInput) (r : ServiceRequest)
    (db db' : Desk) (t : Ticket)
    → insert_ticket f g ticket_id tenant request input r db ≡ ok (db', t)
    → Inserted ticket_id tenant request t db db'
unfolding insert_ticket generated_row
insert_ticket-Inserted f g ticket_id tenant request input r db db' t h =
    let sent =
      append_outbox f tenant "ticket.created" "ticket" ticket_id input.correlation_id
        db.tables.outbox_events in
    let (rows, _, k) = >>=-eq-ok sent _ h in
    let more =
      append_outbox g tenant "service_request.ticket_created" "service_request" request
        input.correlation_id rows in
    let (outbox, _, w) = >>=-eq-ok more _ k in
    let t1 = text_eq_refl tenant in
    let t2 = text_eq_refl ticket_id in
    record { requests = ground arith; tickets = ground arith; named = ground arith }

Inserted-request :
    {id tenant request : Text} {t : Ticket} {db db' : Desk} (r : ServiceRequest)
    → Inserted id tenant request t db db'
    → find (is_request tenant request) db.requests ≡ some r
    → find (is_request tenant request) db'.requests ≡ some (record r { ticket_id = some id })
Inserted-request {id} {tenant} {request} {t} {db} {db'} r i e =
    let (_, q) = find-In (is_request tenant request) r db.requests e in
    let (_, same) = &&-eq-true (text_eq r.tenant_id tenant) (text_eq r.id request) q in
    rw (
      i.requests,
      find-update_where (is_request tenant request) (λ x. text_eq x.id request)
          (λ x. record x { ticket_id = some id }) db.requests r (λ x. refl) e same,
    )

Inserted-ticket :
    {id tenant request : Text} {t : Ticket} {db db' : Desk}
    → Inserted id tenant request t db db'
    → find (is_row tenant id) db.tables.tickets ≡ none
    → find (is_row tenant id) db'.tables.tickets ≡ some t
Inserted-ticket {id} {tenant} {request} {t} {db} i unused =
    rw (i.tickets, find-append (is_row tenant id) db.tables.tickets t unused i.named)

-- Generating a ticket twice gives one ticket: whatever the second call is given, it returns the ticket
-- of the first and changes nothing, when the id drawn by the first was not yet in use.
pub generate_ticket_idempotent :
    (f g f' g' : Fresh) (id id' tenant request : Text) (input input' : TicketInput) (db db' : Desk)
    (t : Ticket)
    → find (is_row tenant id) db.tables.tickets ≡ none
    → generate_ticket f g id tenant request input db ≡ ok (db', t)
    → generate_ticket f' g' id' tenant request input' db' ≡ ok (db', t)
unfolding generate_ticket find_by_id linked_ticket
generate_ticket_idempotent f g f' g' id id' tenant request input input' db db' t unused h =
    elim (Option-cases (find_by_id tenant request db)) [
      | inl e ↦ ground arith
      | inr (r, e) ↦ elim (Option-cases (linked_ticket tenant r db.tables.tickets)) [
        | inr (old, l) ↦ ground arith
        | inl l ↦
            let i = insert_ticket-Inserted f g id tenant request input r db db' t (ground arith) in
            let again = Inserted-request r i e in
            let there = Inserted-ticket i unused in ground arith
      ]
    ]
