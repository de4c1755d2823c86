-- ===== src/Ticketing/Scenarios.antt =====
-- The theorems on the tables and the service of tickets, at concrete desks.
use support_desk.Ticketing.Tests.{acme, ann, bob, fresh_ticket, printer, printer_id, solved_printer}
use support_desk.Base.{
  ℕ, ◌<◌, ◌≡◌, ◌≢◌, refl, sym, ap, subst, ◌∙◌, ◌+◌, count_if, ◌⊎◌, inl, inr, Text, codes, trim,
  is_blank, is_uuid, text_eq, true, false, none, some, List, [], ◌∷◌, ◌++◌, find, map, is_some, In,
  ok, err, arith,
}
use support_desk.Outbox.{append_outbox_event, outbox_row}
use support_desk.Ticketing.Ticket.{
  Ticket, tkt, concurrency, not_found, create, aggregate, validate_initial_props, transition_to,
  change_status, update_fields, update_text, verify_version, verify_open, assign, unassign,
}
use support_desk.Ticketing.Ticket.Status.{solved, closed, is_allowed_ticket_transition}
use support_desk.Ticketing.Ticket.Moves.{Moves}
use support_desk.Ticketing.Store.{
  User, Tables, find_by_id, next_public_ref, create_row, create_with_audit, write_columns,
  is_live_row, in_tenant, current_version, reload, update_with_client, update_with_audit,
  append_changes, find_active_user_in_tenant,
}
use support_desk.Ticketing.Store.Conflicts.{second_writer_fails, update_with_client_frame}
use support_desk.Ticketing.Store.References.{HasNumberedRefs, create_with_audit-fresh_ref}
use support_desk.Ticketing.Service.{
  Desk, Request, get_ticket_by_id, transition_status, assign_ticket, check_assignee, is_given,
  audit_of, on_ticket_status_changed,
}
use support_desk.Ticketing.Service.Effects.{transition_status_effect, assign_ticket_checked}

run : Unit {0}
unfolding create aggregate validate_initial_props transition_to change_status update_fields
    update_text verify_version verify_open assign unassign trim is_blank is_uuid text_eq find_by_id
    next_public_ref create_row create_with_audit write_columns reload update_with_client
    update_with_audit append_changes append_outbox_event outbox_row find_active_user_in_tenant
    get_ticket_by_id transition_status assign_ticket check_assignee is_allowed_ticket_transition
run = tt

abbrev second_ticket : Ticket
second_ticket = record printer { id = codes "t2"; public_ref = tkt 1002 }

abbrev shelf : List Ticket
shelf = printer ∷ second_ticket ∷ []

abbrev saved_printer : Ticket
saved_printer = record solved_printer { updated_at = 51 }

abbrev saved_shelf : List Ticket
saved_shelf = saved_printer ∷ second_ticket ∷ []

saves : update_with_client 51 solved_printer 3 shelf ≡ ok (saved_shelf, saved_printer)
unfolding run
saves = refl

abbrev late : Ticket
late = record printer { title = codes "Printer again"; version = 4 }

second_writer_fails_example :
    update_with_client 52 late 3 saved_shelf
    ≡ err (concurrency 3 (current_version late (find (is_live_row acme printer_id) saved_shelf)))
second_writer_fails_example =
    second_writer_fails 51 52 solved_printer late 3 shelf saves (λ e. omega arith) refl refl

update_with_client_frame_example :
    ((r : Ticket) → In r shelf → (r.id ≢ printer_id) ⊎ (r.tenant_id ≢ acme) → In r saved_shelf)
    × ((r : Ticket)
        → In r saved_shelf
        → (t : Ticket) × In t shelf
          × (r.id ≡ t.id)
          × (r.tenant_id ≡ t.tenant_id)
          × (r.public_ref ≡ t.public_ref))
update_with_client_frame_example = update_with_client_frame 51 solved_printer 3 shelf saves

numbered_at :
    (n : ℕ) (tenant : Text)
    → acme ≡ tenant
    → n < 1003
    → n < count_if (in_tenant tenant) shelf + 1001
unfolding run
numbered_at n tenant e h = subst (λ k. n < count_if (in_tenant k) shelf + 1001) e h

shelf-HasNumberedRefs : (tenant : Text) → HasNumberedRefs tenant shelf
shelf-HasNumberedRefs tenant r (inl e) same =
    let home = ap (λ (t : Ticket). t.tenant_id) e in
    (
      1001,
      ap (λ (t : Ticket). t.public_ref) e,
      numbered_at 1001 tenant (sym home ∙ same) (omega arith),
    )
shelf-HasNumberedRefs tenant r (inr (inl e)) same =
    let home = ap (λ (t : Ticket). t.tenant_id) e in
    (
      1002,
      ap (λ (t : Ticket). t.public_ref) e,
      numbered_at 1002 tenant (sym home ∙ same) (omega arith),
    )
shelf-HasNumberedRefs tenant r (inr (inr m)) same = absurd m

abbrev bob_user : User
bob_user = record {
  id = bob;
  deleted_at = none;
  is_active = true;
  roles = record { tenant_id = acme; revoked_at = none; role_deleted_at = none } ∷ [];
}

abbrev tables : Tables
tables = record { tickets = shelf; users = bob_user ∷ []; audit_events = []; outbox_events = [] }

abbrev desk : Desk
desk = record { tables = tables; notices = []; sla_calls = [] }

abbrev ask : Request
ask = record {
  tenant_id = acme;
  actor_user_id = ann;
  correlation_id = none;
  fresh = record { now = 60; id = codes "e1"; correlation_id = codes "c1" };
  fresh' = record { now = 60; id = codes "e2"; correlation_id = codes "c2" };
}

abbrev created : Tables × Ticket
unfolding run
created =
    elim (create_with_audit ask.fresh fresh_ticket (audit_of "ticket.created" ask printer_id)
      tables) [ ok z ↦ z | err e ↦ (tables, printer) ]

creates_row :
    create_with_audit ask.fresh fresh_ticket (audit_of "ticket.created" ask printer_id) tables
    ≡ ok created
unfolding run
creates_row = refl

create_with_audit-fresh_ref_example :
    ((r : Ticket)
      → In r shelf
      → r.tenant_id ≡ created.1.tenant_id
      → r.public_ref ≢ created.1.public_ref)
    × ((tenant : Text) → HasNumberedRefs tenant created.0.tickets)
create_with_audit-fresh_ref_example =
    create_with_audit-fresh_ref ask.fresh fresh_ticket (audit_of "ticket.created" ask printer_id)
      tables shelf-HasNumberedRefs creates_row

abbrev moved : Desk × Ticket
unfolding run
moved = elim (transition_status ask printer_id solved 3 desk) [ ok z ↦ z | err e ↦ (desk, printer) ]

moves_desk : transition_status ask printer_id solved 3 desk ≡ ok moved
unfolding run
moves_desk = refl

transition_status_effect_example :
    (t v : Ticket) × (find (is_live_row acme printer_id) shelf ≡ some t)
    × (3 ≡ t.version)
    × ((t.status ≡ solved) ⊎ Moves t.status solved)
    × (update_with_client 60 v 3 shelf ≡ ok (moved.0.tables.tickets, moved.1))
    × (v.status ≡ solved)
    × (moved.0.tables.audit_events ≡ [] ++ audit_of "ticket.status_changed" ask v.id ∷ [])
    × (moved.0.sla_calls ≡ [] ++ on_ticket_status_changed moved.1 t.status ∷ [])
transition_status_effect_example = transition_status_effect ask printer_id solved 3 desk moves_desk

abbrev given : Desk × Ticket
unfolding run
given = elim (assign_ticket ask printer_id (some (some bob)) none 3 desk) [
  | ok z ↦ z
  | err e ↦ (desk, printer)
]

gives : assign_ticket ask printer_id (some (some bob)) none 3 desk ≡ ok given
unfolding run
gives = refl

assign_ticket_checked_example :
    (is_given none ≡ false)
    × ((user : Text)
        → user ≢ []
        → some (some bob) ≡ some (some user)
        → is_some (find_active_user_in_tenant acme user tables.users) ≡ true)
    × ((t : Ticket) × (find (is_live_row acme printer_id) shelf ≡ some t)
        × (3 ≡ t.version)
        × (t.status ≢ closed))
assign_ticket_checked_example =
    assign_ticket_checked ask printer_id (some (some bob)) none 3 desk gives

-- Who is told of a change of status, and what a stale version and another tenant get.
desk_tests :
    (moved.0.tables.tickets
      ≡ record solved_printer { solved_at = some 60; updated_at = 60 } ∷ second_ticket ∷ [])
    × (map (λ n. n.recipient_user_id) moved.0.notices ≡ ann ∷ [])
    × (map (λ n. n.recipient_user_id) given.0.notices ≡ bob ∷ [])
    × (transition_status ask printer_id solved 2 desk ≡ err (concurrency 2 3))
    × (transition_status (record ask { tenant_id = codes "other" }) printer_id solved 3 desk
        ≡ err not_found)
unfolding run
desk_tests = (refl, refl, refl, refl, refl)
