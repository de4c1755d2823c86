-- ===== src/Ticketing/Ticket/Moves.antt =====
-- How the status of a ticket moves (ticket.aggregate.ts, transitionTo): the diagram as a relation,
-- and the aggregate's operations as steps.
use support_desk.Base.{ℕ, ◌+◌, ◌≡◌, refl, ◌⊎◌, inl, inr, ◌↔◌, true, false, ok, arith}
use support_desk.Ticketing.Ticket.{Ticket, transition_to, stamp}
use support_desk.Ticketing.Ticket.Status.{
  TicketStatus, new, open_, pending, on_hold, solved, closed, status_eq, includes,
  valid_transitions, is_allowed_ticket_transition,
}

-- The documented life of a ticket, an edge for each move.
pub data Moves : TicketStatus → TicketStatus → Type 0 where
  begin : Moves new open_
  solve_new : Moves new solved
  wait : Moves open_ pending
  hold : Moves open_ on_hold
  solve : Moves open_ solved
  answer : Moves pending open_
  solve_pending : Moves pending solved
  release : Moves on_hold open_
  solve_held : Moves on_hold solved
  reopen : Moves solved open_
  close : Moves solved closed

ruleset moves =
    (begin, solve_new, wait, hold, solve, answer, solve_pending, release, solve_held, reopen, close)

allowed-Moves : (a b : TicketStatus) → is_allowed_ticket_transition a b ≡ true → (a ≡ b) ⊎ Moves a b
unfolding is_allowed_ticket_transition
allowed-Moves a b h = grind (arith, moves)

Moves-allowed : {a b : TicketStatus} → Moves a b → is_allowed_ticket_transition a b ≡ true
unfolding is_allowed_ticket_transition
Moves-allowed begin = refl
Moves-allowed _ = refl

transition_to-needs :
    (now : ℕ) (s : TicketStatus) (e : ℕ) (t : Ticket) {u : Ticket}
    → transition_to now s e t ≡ ok u
    → (e ≡ t.version) × ((t.status ≡ s) ⊎ Moves t.status s)
unfolding transition_to
transition_to-needs now s e t h = grind (arith, moves)

transition_to-stays :
    (now : ℕ) (s : TicketStatus) (e : ℕ) (t : Ticket)
    → e ≡ t.version
    → t.status ≡ s
    → transition_to now s e t ≡ ok t
unfolding transition_to
transition_to-stays now s e t v h = ground arith

-- The ticket behind a move to another status.
moved : ℕ → TicketStatus → Ticket → Ticket
unfolding stamp
moved now s t = record (stamp now s (record t { status = s; updated_at = now })) {
  version = t.version + 1;
}

Moves-allows :
    {a s : TicketStatus}
    → Moves a s
    → (status_eq a s ≡ false) × (includes (valid_transitions a) s ≡ true)
Moves-allows begin = (refl, refl)
Moves-allows _ = (refl, refl)

transition_to-Moves :
    (now : ℕ) (s : TicketStatus) (e : ℕ) (t : Ticket)
    → e ≡ t.version
    → Moves t.status s
    → transition_to now s e t ≡ ok (moved now s t)
unfolding transition_to moved
transition_to-Moves now s e t v m = ground (arith, Moves-allows m)

-- `transitionTo` succeeds exactly when the caller knows the ticket's version and asks for the
-- status that the ticket has or one that the diagram reaches from it.
pub transition_to_iff :
    (now : ℕ) (s : TicketStatus) (e : ℕ) (t : Ticket)
    → ((u : Ticket) × (transition_to now s e t ≡ ok u))
      ↔ ((e ≡ t.version) × ((t.status ≡ s) ⊎ Moves t.status s))
transition_to_iff now s e t = (
  λ h. transition_to-needs now s e t h.1,
  λ h. elim h.1 [
    | inl same ↦ (t, transition_to-stays now s e t h.0 same)
    | inr m ↦ (moved now s t, transition_to-Moves now s e t h.0 m)
  ],
)

-- What a successful `transitionTo` does: a request for the present status leaves the ticket as it
-- is; any other moves along an edge, adds one to the version, sets the time of the update, and
-- keeps the assignee, the group, the title and the description.
pub transition_to_effect :
    (now : ℕ) (s : TicketStatus) (e : ℕ) (t : Ticket) {u : Ticket}
    → transition_to now s e t ≡ ok u
    → ((t.status ≡ s) × (u ≡ t))
      ⊎ (Moves t.status s
          × (u.status ≡ s)
          × (u.version ≡ t.version + 1)
          × (u.updated_at ≡ now)
          × (u.assignee_user_id ≡ t.assignee_user_id)
          × (u.assigned_group_id ≡ t.assigned_group_id)
          × (u.title ≡ t.title)
          × (u.description ≡ t.description))
unfolding transition_to
transition_to_effect now s e t h = grind (arith, moves)
