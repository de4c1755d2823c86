-- ===== src/Ticketing/Ticket/Invariant.antt =====
-- What holds of every ticket that the aggregate creates and changes (ticket.aggregate.ts).
use support_desk.Base.{
  ℕ, ◌+◌, ◌≤◌, ◌<◌, Text, is_blank, ◌≡◌, refl, ◌⊎◌, inl, inr, true, false, Option, none, some,
  is_some, ok, Result-cases, arith,
}
use support_desk.Base.Texts.Trim.{is_blank-trim}
use support_desk.Ticketing.Ticket.{
  Ticket, TicketError, CreateParams, Previous, UpdateParams, title_empty, description_empty,
  aggregate, create, update_text, transition_to, update_fields, assign, unassign,
}
use support_desk.Ticketing.Ticket.Status.{TicketStatus, solved, closed}

pub record IsConsistent (t : Ticket) : Type 0 where
  pub solved_stamped : t.status ≡ solved → is_some t.solved_at ≡ true
  pub closed_solved : t.status ≡ closed → is_some t.solved_at ≡ true
  pub closed_stamped : t.status ≡ closed → is_some t.closed_at ≡ true
  pub solved_only : is_some t.solved_at ≡ true → (t.status ≡ solved) ⊎ (t.status ≡ closed)
  pub closed_only : is_some t.closed_at ≡ true → t.status ≡ closed
  pub has_tenant : is_blank t.tenant_id ≡ false
  pub has_title : is_blank t.title ≡ false
  pub has_description : is_blank t.description ≡ false
  pub has_requester : is_blank t.requester_user_id ≡ false
  pub versioned : 1 ≤ t.version

-- One call of a method of the aggregate that succeeded.
pub data Step : Ticket → Ticket → Type 0 where
  transitioned :
      {t u : Ticket} (now : ℕ) (s : TicketStatus) (e : ℕ)
      → transition_to now s e t ≡ ok u
      → Step t u
  updated :
      {t u : Ticket} (now : ℕ) (p : UpdateParams) (e : ℕ)
      → update_fields now p e t ≡ ok u
      → Step t u
  assigned :
      {t u : Ticket} (now : ℕ) (a g : Option (Option Text)) (e : ℕ) (p : Previous)
      → assign now a g e t ≡ ok (u, p)
      → Step t u
  unassigned : {t u : Ticket} (now e : ℕ) (p : Previous) → unassign now e t ≡ ok (u, p) → Step t u

pub data Reach (t : Ticket) : Ticket → Type 0 where
  here : Reach t t
  next : {u v : Ticket} → Reach t u → Step u v → Reach t v

pub create-IsConsistent :
    (now : ℕ) (p : CreateParams) {t : Ticket} → create now p ≡ ok t → IsConsistent t
unfolding create
create-IsConsistent now p h = ground arith

update_text-not_blank :
    (s : Option Text) (old : Text) (e : TicketError) {t : Text}
    → is_blank old ≡ false
    → update_text s old e ≡ ok t
    → is_blank t ≡ false
unfolding update_text
update_text-not_blank none old e b h = ground arith
update_text-not_blank (some s) old e b h = ground (arith, is_blank-trim s)

update_fields-IsConsistent :
    (now : ℕ) (p : UpdateParams) (e : ℕ) (t : Ticket) {u : Ticket}
    → update_fields now p e t ≡ ok u
    → IsConsistent t
    → IsConsistent u
unfolding update_fields
update_fields-IsConsistent now p e t h c =
    elim (Result-cases (update_text p.title t.title title_empty)) [
      | inl (a, i) ↦
          elim (Result-cases (update_text p.description t.description description_empty)) [
            | inl (b, j) ↦ ground (
              arith,
              update_text-not_blank p.title t.title title_empty c.has_title i,
              update_text-not_blank p.description t.description description_empty c.has_description
                  j,
            )
            | inr (x, j) ↦ ground arith
          ]
      | inr (x, i) ↦ ground arith
    ]

-- Each method keeps a ticket consistent.
pub Step-IsConsistent : {t u : Ticket} → Step t u → IsConsistent t → IsConsistent u
unfolding transition_to assign unassign
Step-IsConsistent (transitioned now s e h) c = ground arith
Step-IsConsistent (updated {t} now p e h) c = update_fields-IsConsistent now p e t h c
Step-IsConsistent (assigned now a g e p h) c = ground arith
Step-IsConsistent (unassigned now e p h) c = ground arith

Reach-IsConsistent : {t u : Ticket} → Reach t u → IsConsistent t → IsConsistent u
Reach-IsConsistent here c = c
Reach-IsConsistent (next r s) c = Step-IsConsistent s (Reach-IsConsistent r c)

-- A ticket that `create` made and that the four methods of the aggregate (transitionTo, updateFields,
-- assign and unassign) then changed, any number of times and in any order, is consistent: it has the
-- stamp of its solution exactly while it is solved or closed and the stamp of its closing exactly
-- while it is closed, its texts are not blank, and its version is at least 1. Writes that pass by
-- the aggregate are not among these.
pub created-IsConsistent :
    (now : ℕ) (p : CreateParams) {t u : Ticket} → create now p ≡ ok t → Reach t u → IsConsistent u
created-IsConsistent now p h r = Reach-IsConsistent r (create-IsConsistent now p h)

-- Such a ticket can be read back: the constructor accepts it.
pub aggregate-IsConsistent : (t : Ticket) → IsConsistent t → aggregate t ≡ ok t
unfolding aggregate
aggregate-IsConsistent t c = ground arith

update_fields-version :
    (now : ℕ) (p : UpdateParams) (e : ℕ) (t : Ticket) {u : Ticket}
    → update_fields now p e t ≡ ok u
    → (u.version ≡ t.version + 1)
      × (u.status ≡ t.status)
      × (u.solved_at ≡ t.solved_at)
      × (u.closed_at ≡ t.closed_at)
unfolding update_fields
update_fields-version now p e t h = ground arith

-- One call either changes nothing or adds one to the version.
pub Step-version : {t u : Ticket} → Step t u → (u ≡ t) ⊎ (u.version ≡ t.version + 1)
unfolding transition_to assign unassign
Step-version (transitioned now s e h) = ground arith
Step-version (updated {t} now p e h) = inr (update_fields-version now p e t h).0
Step-version (assigned now a g e p h) = ground arith
Step-version (unassigned now e p h) = ground arith

-- The version never falls, and it tells the states of a ticket apart: a later state with the same
-- version is the same ticket.
Reach-version : {t u : Ticket} → Reach t u → (u ≡ t) ⊎ (t.version < u.version)
Reach-version here = inl refl
Reach-version (next r s) = ground (arith, Reach-version r, Step-version s)

Step-closed :
    {t u : Ticket}
    → Step t u
    → t.status ≡ closed
    → (u.status ≡ closed) × (u.solved_at ≡ t.solved_at) × (u.closed_at ≡ t.closed_at)
unfolding transition_to assign unassign
Step-closed (transitioned now s e h) c = ground arith
Step-closed (updated {t} now p e h) c = ground (arith, update_fields-version now p e t h)
Step-closed (assigned now a g e p h) c = ground arith
Step-closed (unassigned now e p h) c = ground arith

-- None of the four methods of the aggregate (transitionTo, updateFields, assign and unassign), applied
-- any number of times and in any order, takes a closed ticket out of its status or touches its
-- stamps. Writes that pass by the aggregate are not among these.
pub Reach-closed :
    {t u : Ticket}
    → Reach t u
    → t.status ≡ closed
    → (u.status ≡ closed) × (u.solved_at ≡ t.solved_at) × (u.closed_at ≡ t.closed_at)
Reach-closed here c = (c, refl, refl)
Reach-closed (next r s) c = ground (arith, Reach-closed r c, Step-closed s)
