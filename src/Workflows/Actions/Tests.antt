-- ===== src/Workflows/Actions/Tests.antt =====
-- The theorems on the actions of workflows at concrete tickets and events.
use support_desk.Base.{
  ℕ, ◌≡◌, refl, inr, Text, codes, text_eq, is_blank, none, some, [], ◌∷◌, Result, ok, err, arith,
}
use support_desk.Base.Json.{text, object, end, field}
use support_desk.Outbox.{append_outbox_event, outbox_row}
use support_desk.Ticketing.Ticket.{Ticket, low, web, question, tkt}
use support_desk.Ticketing.Ticket.Invariant.{IsConsistent}
use support_desk.Ticketing.Ticket.Status.{open_, closed}
use support_desk.Workflows.Tables.{Domain}
use support_desk.Workflows.Actions.{Rows, ActionFresh, Context, subject_id, publish, find_ticket}
use support_desk.Workflows.Actions.Depth.{executors-Appends}
use support_desk.Workflows.Actions.Registry.{executors}
use support_desk.Workflows.Actions.Tickets.{target_status, with_status, change_status}
use support_desk.Workflows.Actions.Reopening.{change_status-breaks}
use support_desk.Workflows.Dispatcher.Appends.{Appends}

run : Unit {0}
unfolding change_status target_status subject_id find_ticket publish with_status append_outbox_event
    outbox_row text_eq executors
run = tt

abbrev printer : Ticket
printer = record {
  id = codes "t1";
  tenant_id = codes "acme";
  public_ref = tkt 1001;
  title = codes "Printer";
  description = codes "Jammed";
  status = closed;
  priority = low;
  channel = web;
  type = question;
  requester_user_id = codes "ann";
  assignee_user_id = none;
  assigned_group_id = none;
  solved_at = some 10;
  closed_at = some 20;
  due_date = none;
  version = 4;
  created_at = 1;
  updated_at = 20;
  deleted_at = none;
}

printer-IsConsistent : IsConsistent printer
unfolding is_blank
printer-IsConsistent = record {
  solved_stamped = λ h. refl;
  closed_solved = λ h. refl;
  closed_stamped = λ h. refl;
  solved_only = λ h. inr refl;
  closed_only = λ h. refl;
  has_tenant = refl;
  has_title = refl;
  has_description = refl;
  has_requester = refl;
  versioned = omega arith;
}

abbrev desk : Domain Rows
desk = record {
  outbox = [];
  audit_events = [];
  rest = record {
    tickets = printer ∷ [];
    users = [];
    comments = [];
    assets = [];
    asset_history = [];
    notification_intents = [];
    sla_targets = [];
  };
}

abbrev fresh : ActionFresh
fresh = record {
  fresh = record { now = 50; id = codes "e2"; correlation_id = codes "c2" };
  row_id = codes "r1";
  outbox_message = λ e. codes "duplicate";
  invalid_message = codes "invalid";
}

abbrev reopen : Context ℕ
reopen = record {
  tenant_id = codes "acme";
  execution_id = codes "x1";
  ordinal = 0;
  action_type = codes "change_status";
  params = field (codes "status") (text (codes "OPEN")) end;
  payload = field (codes "ticket") (object (field (codes "id") (text (codes "t1")) end)) end;
  parent_depth = 1;
  correlation_id = codes "c1";
}

abbrev event_of : Result Text (Domain Rows) → Domain Rows
event_of (ok d) = d
event_of (err e) = desk

change_status-breaks_example :
    (u : Ticket) × (find_ticket
        (codes "acme")
        (codes "t1")
        (event_of (change_status fresh reopen desk)).rest.tickets
      ≡ some u)
    × (u.status ≡ open_)
    × (¬ IsConsistent u)
unfolding run
change_status-breaks_example =
    change_status-breaks fresh reopen desk (event_of (change_status fresh reopen desk)) (codes "t1")
      open_ printer refl refl refl printer-IsConsistent refl refl refl

executors-Appends_example :
    Appends 1 2 desk.outbox (event_of (change_status fresh reopen desk)).outbox
unfolding run
executors-Appends_example =
    executors-Appends fresh (codes "change_status") (change_status fresh) refl reopen desk
      (event_of (change_status fresh reopen desk)) refl
