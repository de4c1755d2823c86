-- ===== src/Ticketing/Tests.antt =====
-- The theorems on tickets at concrete tickets and desks, with tests of the service.
use support_desk.Base.{
  ◌≡◌, refl, ◌⊎◌, ◌↔◌, Text, codes, trim, is_blank, is_uuid, text_eq, none, some, ok, err,
}
use support_desk.Outbox.{append_outbox_event, outbox_row}
use support_desk.Ticketing.Ticket.{
  Ticket, CreateParams, UpdateParams, medium, high, web, question, placeholder, tkt,
  closed_assignment, create, aggregate, validate_initial_props, transition_to, change_status,
  update_fields, update_text, verify_version, verify_open, assign, unassign,
}
use support_desk.Ticketing.Ticket.Status.{new, open_, solved, closed, is_allowed_ticket_transition}
use support_desk.Ticketing.Ticket.Moves.{Moves, transition_to_iff}
use support_desk.Ticketing.Ticket.Invariant.{
  IsConsistent, here, next, transitioned, created-IsConsistent, Reach-closed,
}
use support_desk.Ticketing.Store.{
  find_by_id, next_public_ref, create_row, create_with_audit, write_columns, reload,
  update_with_client, update_with_audit, append_changes, find_active_user_in_tenant,
}
use support_desk.Ticketing.Service.{
  get_ticket_by_id, transition_status, assign_ticket, check_assignee,
}
use support_desk.Ticketing.Service.Effects.{closed_assignment_guard}

run : Unit {0}
unfolding create aggregate validate_initial_props transition_to change_status update_fields
    update_text verify_version verify_open assign unassign trim is_blank is_uuid text_eq find_by_id
    next_public_ref create_row create_with_audit write_columns reload update_with_client
    update_with_audit append_changes append_outbox_event outbox_row find_active_user_in_tenant
    get_ticket_by_id transition_status assign_ticket check_assignee is_allowed_ticket_transition
run = tt

abbrev pub acme : Text
acme = codes "acme"

abbrev pub ann : Text
ann = codes "11111111-1111-4111-8111-111111111111"

abbrev pub bob : Text
bob = codes "22222222-2222-4222-8222-222222222222"

abbrev pub printer_id : Text
printer_id = codes "t1"

abbrev pub printer : Ticket
printer = record {
  id = printer_id;
  tenant_id = acme;
  public_ref = tkt 1001;
  title = codes "Printer";
  description = codes "It is on fire";
  status = open_;
  priority = medium;
  channel = web;
  type = question;
  requester_user_id = ann;
  assignee_user_id = none;
  assigned_group_id = none;
  solved_at = none;
  closed_at = none;
  due_date = none;
  version = 3;
  created_at = 10;
  updated_at = 20;
  deleted_at = none;
}

abbrev shut : Ticket
shut = record printer { status = closed; solved_at = some 30; closed_at = some 40 }

abbrev pub solved_printer : Ticket
solved_printer = record printer {
  status = solved;
  solved_at = some 50;
  updated_at = 50;
  version = 4;
}

transition_to_iff_example :
    ((u : Ticket) × (transition_to 50 solved 3 printer ≡ ok u))
    ↔ ((3 ≡ printer.version) × ((printer.status ≡ solved) ⊎ Moves printer.status solved))
transition_to_iff_example = transition_to_iff 50 solved 3 printer

solves : transition_to 50 solved 3 printer ≡ ok solved_printer
unfolding run
solves = refl

abbrev draft : CreateParams
draft = record {
  id = printer_id;
  tenant_id = acme;
  public_ref = placeholder;
  title = codes " Printer ";
  description = codes "It is on fire";
  requester_user_id = ann;
  priority = none;
  channel = none;
  type = none;
  assignee_user_id = none;
  assigned_group_id = none;
  due_date = none;
}

abbrev pub fresh_ticket : Ticket
fresh_ticket = record printer {
  public_ref = placeholder;
  status = new;
  version = 1;
  created_at = 10;
  updated_at = 10;
}

creates : create 10 draft ≡ ok fresh_ticket
unfolding run
creates = refl

abbrev opened_ticket : Ticket
opened_ticket = record fresh_ticket { status = open_; version = 2; updated_at = 11 }

opens : transition_to 11 open_ 1 fresh_ticket ≡ ok opened_ticket
unfolding run
opens = refl

created-IsConsistent_example : IsConsistent opened_ticket
created-IsConsistent_example =
    created-IsConsistent 10 draft creates (next here (transitioned 11 open_ 1 opens))

stays_shut : transition_to 60 closed 3 shut ≡ ok shut
unfolding run
stays_shut = refl

Reach-closed_example :
    (shut.status ≡ closed) × (shut.solved_at ≡ shut.solved_at) × (shut.closed_at ≡ shut.closed_at)
Reach-closed_example = Reach-closed (next here (transitioned 60 closed 3 stays_shut)) refl

abbrev no_update : UpdateParams
no_update = record {
  title = none;
  description = none;
  priority = some high;
  channel = none;
  type = none;
  assignee_user_id = some (some bob);
  assigned_group_id = none;
  due_date = none;
}

closed_assignment_guard_example :
    (assign 60 (some (some bob)) none 3 shut ≡ err closed_assignment)
    × (unassign 60 3 shut ≡ err closed_assignment)
    × ((u : Ticket) × (update_fields 60 no_update 3 shut ≡ ok u)
        × (u.status ≡ closed)
        × (u.assignee_user_id ≡ some bob))
closed_assignment_guard_example =
    closed_assignment_guard 60 shut (some (some bob)) none no_update (some bob) refl refl refl refl
