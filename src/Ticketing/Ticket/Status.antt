-- ===== src/Ticketing/Ticket/Status.antt =====
-- The statuses of a ticket and the table VALID_TRANSITIONS of
-- apps/api/src/ticketing/domain/ticket.aggregate.ts.
use support_desk.Base.{ℕ, Bool, true, List, [], ◌∷◌, any, ◌==◌, if◌then◌else◌}

pub data TicketStatus : Type 0 where
  new open_ pending on_hold solved closed : TicketStatus

abbrev pub status_code : TicketStatus → ℕ
status_code new = 0
status_code open_ = 1
status_code pending = 2
status_code on_hold = 3
status_code solved = 4
status_code closed = 5

-- `a === b` on statuses
abbrev pub status_eq : TicketStatus → TicketStatus → Bool
status_eq a b = status_code a == status_code b

abbrev pub includes : List TicketStatus → TicketStatus → Bool
includes ss s = any (λ x. status_eq x s) ss

-- VALID_TRANSITIONS
abbrev pub valid_transitions : TicketStatus → List TicketStatus
valid_transitions new = open_ ∷ solved ∷ []
valid_transitions open_ = pending ∷ on_hold ∷ solved ∷ []
valid_transitions pending = open_ ∷ solved ∷ []
valid_transitions on_hold = open_ ∷ solved ∷ []
valid_transitions solved = open_ ∷ closed ∷ []
valid_transitions closed = []

unfoldable pub is_allowed_ticket_transition : TicketStatus → TicketStatus → Bool
is_allowed_ticket_transition from to =
    if status_eq from to then true else includes (valid_transitions from) to
