-- ===== src/Catalog/Tests.antt =====
-- The theorems on the catalog at a concrete desk, with tests of a request from its approval to its
-- ticket.
use support_desk.Base.{
  ◌⊎◌, ℕ, ◌≡◌, refl, ◌⊎◌, ◌↔◌, Text, codes, trim, text_eq, true, Option, none, some, [], ◌∷◌, ◌++◌,
  map, find, All, ok, err,
}
use support_desk.Base.Sort.{sort_by}
use support_desk.Outbox.{append_outbox_event, outbox_row}
use support_desk.Ticketing.Ticket.{Ticket, medium, question, tkt}
use support_desk.Ticketing.Store.{next_public_ref, is_row}
use support_desk.Catalog.Status.{
  submitted, awaiting_approval, approved, in_fulfillment, cancelled, can_transition,
  is_terminal_status,
}
use support_desk.Catalog.Gate.{
  all_mode, any_mode, single_mode, pending_step, approved_step, rejected_step, approve,
  first_decision, chain_decision, evaluate_approval_gate, is_approval_gate_satisfied,
  step_decision_outcome,
}
use support_desk.Catalog.Gate.Laws.{Decides, all_mode_iff, any_mode_iff, step_decision_outcome_lem}
use support_desk.Catalog.Requests.{
  ServiceRequest, ServiceRequestApproval, ServiceItem, Desk, find_by_id, list_approvals,
  get_approval, moved_row, append_outbox, gate_unsatisfied, own_request, not_startable,
}
use support_desk.Catalog.Requests.Transactions.{
  TicketInput, transition_status, add_history, decided_row, decide_approval, generated_row,
  linked_ticket, insert_ticket, generate_ticket,
}
use support_desk.Catalog.Requests.Service.{
  Context, fresh, cancel_move, follow_up, cancel, carry_out_decision, decide,
}
use support_desk.Catalog.Requests.Fulfillment.{
  gate_open, describe, ticket_input, create_ticket, carry_out_start, start_fulfillment, complete,
}
use support_desk.Catalog.Requests.Tickets.{generate_ticket_idempotent}
use support_desk.Catalog.Requests.Guards.{
  Startable, Decidable, start_fulfillment_gated, decide_checked,
}
use support_desk.Base.Actions.{Refused}
use support_desk.Catalog.Requests.Terminal.{terminal_is_final}

run : Unit {0}
unfolding sort_by text_eq trim append_outbox_event outbox_row next_public_ref can_transition
    is_terminal_status first_decision chain_decision evaluate_approval_gate
    is_approval_gate_satisfied step_decision_outcome find_by_id list_approvals get_approval
    moved_row append_outbox transition_status add_history decided_row decide_approval generated_row
    linked_ticket insert_ticket generate_ticket follow_up cancel carry_out_decision decide gate_open
    describe ticket_input create_ticket carry_out_start start_fulfillment complete
run = tt

all_mode_iff_example :
    (is_approval_gate_satisfied all_mode (approved_step ∷ approved_step ∷ []) ≡ true)
    ↔ All (λ s. s ≡ approved_step) (approved_step ∷ approved_step ∷ [])
all_mode_iff_example = all_mode_iff (approved_step ∷ approved_step ∷ [])

any_mode_iff_example :
    ((is_approval_gate_satisfied any_mode (pending_step ∷ approved_step ∷ rejected_step ∷ [])
        ≡ true)
      ↔ Decides (pending_step ∷ approved_step ∷ rejected_step ∷ []) approved_step)
    × ((is_approval_gate_satisfied single_mode (pending_step ∷ approved_step ∷ rejected_step ∷ [])
          ≡ true)
        ↔ Decides (pending_step ∷ approved_step ∷ rejected_step ∷ []) approved_step)
any_mode_iff_example = any_mode_iff (pending_step ∷ approved_step ∷ rejected_step ∷ [])

step_decision_outcome_lem_example :
    let to = (step_decision_outcome all_mode (approved_step ∷ []) approve).1 in
    ((to ≡ awaiting_approval) ⊎ (can_transition awaiting_approval to ≡ true))
    × (to ≡ approved
        → (approve ≡ approve) × (is_approval_gate_satisfied all_mode (approved_step ∷ []) ≡ true))
step_decision_outcome_lem_example = step_decision_outcome_lem all_mode (approved_step ∷ []) approve

abbrev acme : Text
acme = codes "acme"

abbrev ann : Text
ann = codes "ann"

abbrev bob : Text
bob = codes "bob"

abbrev request_id : Text
request_id = codes "r1"

abbrev laptop : ServiceItem
laptop = record {
  id = codes "s1";
  tenant_id = acme;
  name = codes "Laptop";
  description = none;
  approval_mode = all_mode;
  generate_ticket_on_fulfillment = true;
  default_ticket_type = question;
  sla_policy_id = some (codes "p1");
  deleted_at = none;
}

abbrev wanted : ServiceRequest
wanted = record {
  id = request_id;
  tenant_id = acme;
  request_ref = codes "REQ-000001";
  service_id = codes "s1";
  answers =
      record { key = codes "size"; shown = codes "14" }
      ∷ record { key = codes "os"; shown = codes "linux" }
      ∷ [];
  requester_user_id = ann;
  status = awaiting_approval;
  priority = medium;
  ticket_id = none;
  approved_at = none;
  fulfillment_started_at = none;
  completed_at = none;
  cancelled_at = none;
  cancelled_reason = none;
}

abbrev step_one : ServiceRequestApproval
step_one = record {
  id = codes "a1";
  tenant_id = acme;
  request_id = request_id;
  step_number = 1;
  approver_role = none;
  approver_user_id = some bob;
  status = pending_step;
  decided_by_user_id = none;
  decided_at = none;
  decision_comment = none;
}

abbrev desk : Desk
desk = record {
  tables = record { tickets = []; users = []; audit_events = []; outbox_events = [] };
  requests = wanted ∷ [];
  approvals = step_one ∷ [];
  history = [];
  services = laptop ∷ [];
  notices = [];
  pinned = [];
}

-- Bob at a time, whose n-th id holds the time and n.
abbrev ctx : ℕ → Context
ctx now = record {
  tenant_id = acme;
  user_id = bob;
  can = λ k. true;
  now = now;
  uuid = λ n. 117 ∷ now ∷ n ∷ [];
  correlation_id = none;
}

abbrev decided : Desk
unfolding run
decided = (decide (ctx 50) request_id (codes "a1") approve none desk).0

abbrev approved_request : ServiceRequest
approved_request = record wanted { status = approved; approved_at = some 50 }

decides : decide (ctx 50) request_id (codes "a1") approve none desk ≡ (decided, ok approved_request)
unfolding run
decides = refl

decide_checked_example :
    Decidable (ctx 50) request_id (codes "a1") desk
    ⊎ Refused (decide (ctx 50) request_id (codes "a1") approve none) desk
decide_checked_example = decide_checked (ctx 50) request_id (codes "a1") approve none desk

abbrev started : Desk
unfolding run
started = (start_fulfillment (ctx 60) request_id decided).0

abbrev started_request : ServiceRequest
started_request = record approved_request {
  status = in_fulfillment;
  fulfillment_started_at = some 60;
  ticket_id = some (117 ∷ 60 ∷ 10 ∷ []);
}

starts : start_fulfillment (ctx 60) request_id decided ≡ (started, ok started_request)
unfolding run
starts = refl

start_fulfillment_gated_example :
    Startable (ctx 60) request_id decided ⊎ Refused (start_fulfillment (ctx 60) request_id) decided
start_fulfillment_gated_example = start_fulfillment_gated (ctx 60) request_id decided

abbrev cancelled_request : ServiceRequest
cancelled_request = record wanted {
  status = cancelled;
  cancelled_at = some 55;
  cancelled_reason = none;
}

abbrev closed_desk : Desk
closed_desk = record desk { requests = cancelled_request ∷ [] }

finds_cancelled : find_by_id acme request_id closed_desk ≡ some cancelled_request
unfolding run
finds_cancelled = refl

cancelled_is_terminal : is_terminal_status cancelled ≡ true
unfolding run
cancelled_is_terminal = refl

terminal_is_final_example :
    Refused (cancel (ctx 60) request_id none) closed_desk
    × Refused (decide (ctx 60) request_id (codes "a1") approve none) closed_desk
    × Refused (start_fulfillment (ctx 60) request_id) closed_desk
    × Refused (create_ticket (ctx 60) request_id) closed_desk
    × Refused (complete (ctx 60) request_id none) closed_desk
terminal_is_final_example =
    terminal_is_final (ctx 60) request_id (codes "a1") approve none closed_desk cancelled_request
      finds_cancelled cancelled_is_terminal

abbrev cancelled_desk : Desk × Option ServiceRequest
unfolding run
cancelled_desk =
    elim (transition_status (fresh (ctx 55) 0) acme request_id (cancel_move (ctx 55) none wanted)
      desk) [ ok z ↦ z | err e ↦ (desk, none) ]

cancels :
    transition_status (fresh (ctx 55) 0) acme request_id (cancel_move (ctx 55) none wanted) desk
    ≡ ok cancelled_desk
unfolding run
cancels = refl

abbrev input : TicketInput
unfolding run
input = ticket_input (ctx 60) approved_request laptop

abbrev ticketed : Desk × Ticket
unfolding run
ticketed =
    elim (generate_ticket (fresh (ctx 60) 11) (fresh (ctx 60) 13) (codes "t9") acme request_id input
      decided) [ ok z ↦ z | err e ↦ (decided, generated_row 0 [] [] (tkt 0) input) ]

generates :
    generate_ticket
      (fresh (ctx 60) 11)
      (fresh (ctx 60) 13)
      (codes "t9")
      acme
      request_id
      input
      decided
    ≡ ok ticketed
unfolding run
generates = refl

no_such_ticket : find (is_row acme (codes "t9")) decided.tables.tickets ≡ none
unfolding run
no_such_ticket = refl

generate_ticket_idempotent_example :
    generate_ticket
      (fresh (ctx 70) 11)
      (fresh (ctx 70) 13)
      (codes "t10")
      acme
      request_id
      input
      ticketed.0
    ≡ ok (ticketed.0, ticketed.1)
generate_ticket_idempotent_example =
    generate_ticket_idempotent (fresh (ctx 60) 11) (fresh (ctx 60) 13) (fresh (ctx 70) 11)
      (fresh (ctx 70) 13) (codes "t9") (codes "t10") acme request_id input input decided ticketed.0
      ticketed.1 no_such_ticket generates

-- The title and the description of the ticket, who is told, and the SLA policy that it is pinned to.
fulfillment_tests :
    (map (λ (t : Ticket). t.title) started.tables.tickets ≡ codes "[REQ-000001] Laptop" ∷ [])
    × (input.description ≡ codes "size: 14" ++ 10 ∷ codes "os: linux")
    × (map (λ n. n.event_type) started.notices
        ≡ "REQUEST_APPROVAL_DECIDED" ∷ "REQUEST_FULFILLMENT_STARTED" ∷ "REQUEST_TICKET_CREATED"
          ∷ [])
    × (started.pinned ≡ (117 ∷ 60 ∷ 10 ∷ [], codes "p1") ∷ [])
unfolding run
fulfillment_tests = (refl, refl, refl, refl)

-- Steps that are refused: fulfilment of a request that awaits approval, and of a submitted one whose
-- gate is not open; the requester's own approval.
refusal_tests :
    (start_fulfillment (ctx 60) request_id desk ≡ (desk, err not_startable))
    × (let early = record desk { requests = record wanted { status = submitted } ∷ [] } in
        start_fulfillment (ctx 60) request_id early ≡ (early, err gate_unsatisfied))
    × (let own = record desk { approvals = record step_one { approver_user_id = some ann } ∷ [] } in
        decide (ctx 60) request_id (codes "a1") approve none own ≡ (own, err own_request))
unfolding run
refusal_tests = (refl, refl, refl)
