-- ===== src/Ticketing/Store/References.antt =====
-- The public references of tickets (tickets.repository.ts, createWithAudit): the count of a
-- tenant's rows gives a number that no row of the tenant has, since no row is ever removed.
use support_desk.Base.{
  ℕ, ◌+◌, ◌<◌, Text, text_eq_refl, ◌≡◌, refl, sym, ap, ◌∙◌, subst, ◌≢◌, inl, inr, List, [], ◌∷◌,
  ◌++◌, count_if, update_where, In, ok, arith,
}
use support_desk.Base.Members.{In-append}
use support_desk.Audit.{AuditEvent}
use support_desk.Outbox.{Fresh}
use support_desk.Ticketing.Ticket.{Ticket, tkt, aggregate}
use support_desk.Ticketing.Store.{
  Tables, in_tenant, is_version_of, next_public_ref, create_row, create_with_audit, write_columns,
  update_with_client,
}
use support_desk.Ticketing.Store.Conflicts.{update_with_client-tickets, update_with_client_frame}

-- Every reference of the tenant is numbered below the next one.
abbrev pub HasNumberedRefs : Text → List Ticket → Type 0
HasNumberedRefs tenant tickets =
    (r : Ticket)
    → In r tickets
    → r.tenant_id ≡ tenant
    → (n : ℕ) × (r.public_ref ≡ tkt n) × (n < count_if (in_tenant tenant) tickets + 1001)

count_if-append :
    (tenant : Text) (xs ys : List Ticket)
    → count_if (in_tenant tenant) (xs ++ ys)
      ≡ count_if (in_tenant tenant) xs + count_if (in_tenant tenant) ys
count_if-append tenant [] ys = omega arith
count_if-append tenant (x ∷ xs) ys = ground (arith, count_if-append tenant xs ys)

count_if-written :
    (tenant : Text) (now : ℕ) (props : Ticket) (e : ℕ) (xs : List Ticket)
    → count_if
        (in_tenant tenant)
        (update_where (is_version_of props e) (write_columns now props) xs)
      ≡ count_if (in_tenant tenant) xs
unfolding write_columns
count_if-written tenant now props e [] = refl
count_if-written tenant now props e (x ∷ xs) =
    ground (arith, count_if-written tenant now props e xs)

new_row : Fresh → Ticket → Tables → Ticket
new_row f props db = create_row f.now (next_public_ref props.tenant_id db.tickets) props

create_with_audit-tickets :
    (f : Fresh) (props : Ticket) (audit : AuditEvent) (db : Tables) {db' : Tables} {t : Ticket}
    → create_with_audit f props audit db ≡ ok (db', t)
    → (db'.tickets ≡ db.tickets ++ new_row f props db ∷ [])
      × (t.public_ref ≡ tkt (count_if (in_tenant props.tenant_id) db.tickets + 1001))
      × (t.tenant_id ≡ props.tenant_id)
unfolding create_with_audit aggregate new_row
create_with_audit-tickets f props audit db h = ground arith

count_if-mine :
    (tenant : Text) (t : Ticket) → t.tenant_id ≡ tenant → count_if (in_tenant tenant) (t ∷ []) ≡ 1
count_if-mine tenant t same = rw (← same, text_eq_refl)

next-HasNumberedRefs :
    (f : Fresh) (props : Ticket) (db : Tables) (tenant : Text)
    → HasNumberedRefs tenant db.tickets
    → HasNumberedRefs tenant (db.tickets ++ new_row f props db ∷ [])
unfolding new_row create_row next_public_ref
next-HasNumberedRefs f props db tenant numbered r m same =
    let row = new_row f props db in
    elim (In-append r db.tickets (row ∷ []) m) [
      | inl old ↦
          let (n, p, below) = numbered r old same in
          (n, p, omega (arith, count_if-append tenant db.tickets (row ∷ [])))
      | inr (inl new) ↦
          let mine : props.tenant_id ≡ tenant = sym (ap (λ x. x.tenant_id) new) ∙ same in
          (
            count_if (in_tenant props.tenant_id) db.tickets + 1001,
            ap (λ x. x.public_ref) new,
            omega (
              arith,
              ap (λ x. count_if (in_tenant x) db.tickets) mine,
              count_if-append tenant db.tickets (row ∷ []),
              count_if-mine tenant row mine,
            ),
          )
      | inr (inr nil) ↦ absurd nil
    ]

-- Where every tenant's references are numbered below its next one, a new ticket's reference differs
-- from those of all the tenant's tickets, and the numbering goes on to hold for every tenant.
pub create_with_audit-fresh_ref :
    (f : Fresh) (props : Ticket) (audit : AuditEvent) (db : Tables) {db' : Tables} {t : Ticket}
    → ((tenant : Text) → HasNumberedRefs tenant db.tickets)
    → create_with_audit f props audit db ≡ ok (db', t)
    → ((r : Ticket) → In r db.tickets → r.tenant_id ≡ t.tenant_id → r.public_ref ≢ t.public_ref)
      × ((tenant : Text) → HasNumberedRefs tenant db'.tickets)
create_with_audit-fresh_ref f props audit db {db'} {t} numbered h =
    let (table, ref, mine) = create_with_audit-tickets f props audit db h in
    (
      λ r m same clash.
          let (n, p, below) = numbered props.tenant_id r m (same ∙ mine) in
          let wrong : tkt n ≡ tkt (count_if (in_tenant props.tenant_id) db.tickets + 1001) =
            sym p ∙ clash ∙ ref in
          ground arith,
      λ tenant.
          subst (HasNumberedRefs tenant) (sym table)
            (next-HasNumberedRefs f props db tenant (numbered tenant)),
    )

-- An update leaves every reference of a tenant numbered below the tenant's next one.
update_with_client-HasNumberedRefs :
    (now : ℕ) (props : Ticket) (e : ℕ) (tickets : List Ticket) (tenant : Text) {ts : List Ticket}
    {u : Ticket}
    → HasNumberedRefs tenant tickets
    → update_with_client now props e tickets ≡ ok (ts, u)
    → HasNumberedRefs tenant ts
update_with_client-HasNumberedRefs now props e tickets tenant {ts} numbered h r m same =
    let (t, i, a, b, c) = (update_with_client_frame now props e tickets h).1 r m in
    let (n, p, below) = numbered t i (sym b ∙ same) in
    let written = (update_with_client-tickets now props e tickets h).1 in
    let counted = ap (count_if (in_tenant tenant)) written in
    (n, c ∙ p, omega (arith, counted, count_if-written tenant now props e tickets))
