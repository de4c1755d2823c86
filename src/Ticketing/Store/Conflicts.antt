-- ===== src/Ticketing/Store/Conflicts.antt =====
-- Optimistic concurrency: what `updateWithClient` of tickets.repository.ts does to the table.
use support_desk.Base.{
  ℕ, text_eq→eq, ◌≡◌, refl, sym, subst, ◌≢◌, ◌⊎◌, inl, inr, true, false, ◌&&◌, List, ◌==◌,
  if◌then◌else◌, if-true, if-false, any, find, update_where, In, Bool-cases, ok, err, arith,
}
use support_desk.Base.Members.{In-update_where, update_where-In, any-In}
use support_desk.Ticketing.Ticket.{Ticket, concurrency, aggregate}
use support_desk.Ticketing.Store.{
  is_row, is_live_row, is_version_of, current_version, write_columns, reload, update_with_client,
}

reload-tickets :
    (props : Ticket) (tickets : List Ticket) {ts : List Ticket} {u : Ticket}
    → reload props tickets ≡ ok (ts, u)
    → ts ≡ tickets
unfolding reload aggregate
reload-tickets props tickets h = ground arith

-- A successful update rewrites the rows of the ticket that hold the expected version.
pub update_with_client-tickets :
    (now : ℕ) (props : Ticket) (e : ℕ) (tickets : List Ticket) {ts : List Ticket} {u : Ticket}
    → update_with_client now props e tickets ≡ ok (ts, u)
    → (any (is_version_of props e) tickets ≡ true)
      × (ts ≡ update_where (is_version_of props e) (write_columns now props) tickets)
unfolding update_with_client
update_with_client-tickets now props e tickets h =
    elim (Bool-cases (any (is_version_of props e) tickets)) [
      | inl known ↦ (
        known,
        reload-tickets props
            (update_where (is_version_of props e) (write_columns now props) tickets)
            (rw (known, if◌then◌else◌) at h),
      )
      | inr lost ↦ absurd (ground arith)
    ]

-- No row of the ticket holds a version that an update has just replaced.
stale :
    (now : ℕ) (props : Ticket) (e : ℕ) (tickets : List Ticket) (r : Ticket)
    → props.version ≢ e
    → In r (update_where (is_version_of props e) (write_columns now props) tickets)
    → is_version_of props e r ≡ false
unfolding write_columns
stale now props e tickets r new m =
    let (t, i, q) = In-update_where (is_version_of props e) (write_columns now props) r tickets m in
    elim (Bool-cases (is_version_of props e t)) [
      | inl hit ↦
          let is_new = if-true (is_version_of props e t) (write_columns now props t) t q hit in
          ground arith
      | inr miss ↦
          let is_old = if-false (is_version_of props e t) (write_columns now props t) t q miss in
          rw is_old miss
    ]

none-stale :
    (now : ℕ) (props : Ticket) (e : ℕ) (tickets : List Ticket)
    → props.version ≢ e
    → any
        (is_version_of props e)
        (update_where (is_version_of props e) (write_columns now props) tickets)
      ≡ false
none-stale now props e tickets new =
    let ts = update_where (is_version_of props e) (write_columns now props) tickets in
    elim (Bool-cases (any (is_version_of props e) ts)) [
      | inl found ↦
          let (r, m, q) = any-In (is_version_of props e) ts found in
          let old = stale now props e tickets r new m in cc
      | inr none_left ↦ none_left
    ]

update-refused :
    (now : ℕ) (props : Ticket) (e : ℕ) (ts : List Ticket)
    → any (is_version_of props e) ts ≡ false
    → update_with_client now props e ts
      ≡ err (concurrency e (current_version props (find (is_live_row props.tenant_id props.id) ts)))
unfolding update_with_client
update-refused now props e ts none_left = rw none_left

-- No lost update: of two writers that read the same version of a ticket, the one that comes second
-- gets a concurrency error naming the version that both expected and the one that is stored, and
-- writes nothing, provided that the first one raised the version.
pub second_writer_fails :
    (now now' : ℕ) (first second : Ticket) (e : ℕ) (tickets : List Ticket) {ts : List Ticket}
    {u : Ticket}
    → update_with_client now first e tickets ≡ ok (ts, u)
    → first.version ≢ e
    → second.id ≡ first.id
    → second.tenant_id ≡ first.tenant_id
    → update_with_client now' second e ts
      ≡ err (
          concurrency e (current_version second (find (is_live_row second.tenant_id second.id) ts)))
second_writer_fails now now' first second e tickets {ts} h new same_id same_tenant =
    let (found, written) = update_with_client-tickets now first e tickets h in
    update-refused now' second e ts (
      subst (λ i. any (λ t. is_row second.tenant_id i t && t.version == e) ts ≡ false) (sym same_id)
        (subst (λ k. any (λ t. is_row k first.id t && t.version == e) ts ≡ false) (sym same_tenant)
          (subst (λ l. any (is_version_of first e) l ≡ false) (sym written)
            (none-stale now first e tickets new))))

row-kept :
    (now : ℕ) (props : Ticket) (e : ℕ) (tickets : List Ticket) (r : Ticket)
    → In r tickets
    → (r.id ≢ props.id) ⊎ (r.tenant_id ≢ props.tenant_id)
    → In r (update_where (is_version_of props e) (write_columns now props) tickets)
row-kept now props e tickets r m other =
    subst (λ x. In x (update_where (is_version_of props e) (write_columns now props) tickets))
      (if-false (is_version_of props e r) (write_columns now props r) r refl (other_row other))
      (update_where-In (is_version_of props e) (write_columns now props) r tickets m)
  where
    other_row :
        (r.id ≢ props.id) ⊎ (r.tenant_id ≢ props.tenant_id) → is_version_of props e r ≡ false
    other_row h = ground (arith, text_eq→eq r.id props.id, text_eq→eq r.tenant_id props.tenant_id)

row-origin :
    (now : ℕ) (props : Ticket) (e : ℕ) (tickets : List Ticket) (r : Ticket)
    → In r (update_where (is_version_of props e) (write_columns now props) tickets)
    → (t : Ticket) × In t tickets
      × (r.id ≡ t.id)
      × (r.tenant_id ≡ t.tenant_id)
      × (r.public_ref ≡ t.public_ref)
unfolding write_columns
row-origin now props e tickets r m =
    let (t, i, q) = In-update_where (is_version_of props e) (write_columns now props) r tickets m in
    (t, i, ground arith, ground arith, ground arith)

-- A successful update leaves every other row as it is, those of other tenants among them, and each
-- row of the result has the id, the tenant and the reference of a row that was there.
pub update_with_client_frame :
    (now : ℕ) (props : Ticket) (e : ℕ) (tickets : List Ticket) {ts : List Ticket} {u : Ticket}
    → update_with_client now props e tickets ≡ ok (ts, u)
    → ((r : Ticket) → In r tickets → (r.id ≢ props.id) ⊎ (r.tenant_id ≢ props.tenant_id) → In r ts)
      × ((r : Ticket)
          → In r ts
          → (t : Ticket) × In t tickets
            × (r.id ≡ t.id)
            × (r.tenant_id ≡ t.tenant_id)
            × (r.public_ref ≡ t.public_ref))
update_with_client_frame now props e tickets {ts} h =
    let written = (update_with_client-tickets now props e tickets h).1 in
    (
      λ r m other. subst (In r) (sym written) (row-kept now props e tickets r m other),
      λ r m. row-origin now props e tickets r (subst (In r) written m),
    )
