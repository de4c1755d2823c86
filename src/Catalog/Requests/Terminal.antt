-- ===== src/Catalog/Requests/Terminal.antt =====
-- Requests in a terminal status, before the operations of catalog-requests.service.ts.
use support_desk.Base.{◌≡◌, inl, inr, Text, true, false, ◌||◌, Bool-cases, Option, some, arith}
use support_desk.Base.Actions.{Refused}
use support_desk.Catalog.Status.{
  ServiceRequestStatus, submitted, awaiting_approval, approved, in_fulfillment, status_eq,
  is_terminal_status,
}
use support_desk.Catalog.Gate.{ApprovalDecision}
use support_desk.Catalog.Requests.{
  ServiceRequest, Desk, forbidden, already_terminal, not_awaiting_approval, no_ticket_from,
  not_startable, not_in_fulfillment, find_by_id,
}
use support_desk.Catalog.Requests.Service.{Context, is_requester_or, cancel, decide}
use support_desk.Catalog.Requests.Fulfillment.{start_fulfillment, create_ticket, complete}

terminal-cancel :
    (ctx : Context) (id : Text) (reason : Option Text) (db : Desk) (r : ServiceRequest)
    → find_by_id ctx.tenant_id id db ≡ some r
    → is_terminal_status r.status ≡ true
    → Refused (cancel ctx id reason) db
unfolding cancel
terminal-cancel ctx id reason db r h t =
    elim (Bool-cases (is_requester_or ctx "catalog.request.read_all" r)) [
      | inr e ↦ (forbidden, rw (h, e))
      | inl e ↦ elim (Bool-cases (ctx.can "catalog.request.cancel")) [
        | inr c ↦ (forbidden, rw (h, e, c))
        | inl c ↦ (already_terminal, rw (h, e, c, t))
      ]
    ]

terminal-stuck :
    (s : ServiceRequestStatus)
    → is_terminal_status s ≡ true
    → (status_eq s awaiting_approval ≡ false)
      × (status_eq s in_fulfillment ≡ false)
      × ((status_eq s approved || status_eq s submitted) ≡ false)
unfolding is_terminal_status
terminal-stuck s t = ground arith

terminal-decide :
    (ctx : Context) (id approval : Text) (d : ApprovalDecision) (comment : Option Text) (db : Desk)
    (r : ServiceRequest)
    → find_by_id ctx.tenant_id id db ≡ some r
    → is_terminal_status r.status ≡ true
    → Refused (decide ctx id approval d comment) db
unfolding decide
terminal-decide ctx id approval d comment db r h t =
    elim (Bool-cases (ctx.can "catalog.approval.decide")) [
      | inr c ↦ (forbidden, rw c)
      | inl c ↦ let (s, _, _) = terminal-stuck r.status t in (not_awaiting_approval, rw (c, h, s))
    ]

terminal-start :
    (ctx : Context) (id : Text) (db : Desk) (r : ServiceRequest)
    → find_by_id ctx.tenant_id id db ≡ some r
    → is_terminal_status r.status ≡ true
    → Refused (start_fulfillment ctx id) db
unfolding start_fulfillment
terminal-start ctx id db r h t = elim (Bool-cases (ctx.can "catalog.request.fulfill")) [
  | inr c ↦ (forbidden, rw c)
  | inl c ↦ let (_, _, s) = terminal-stuck r.status t in (not_startable, rw (c, h, s))
]

terminal-create_ticket :
    (ctx : Context) (id : Text) (db : Desk) (r : ServiceRequest)
    → find_by_id ctx.tenant_id id db ≡ some r
    → is_terminal_status r.status ≡ true
    → Refused (create_ticket ctx id) db
unfolding create_ticket
terminal-create_ticket ctx id db r h t =
    elim (Bool-cases (ctx.can "catalog.request.generate_ticket")) [
      | inr c ↦ (forbidden, rw c)
      | inl c ↦ (no_ticket_from, rw (c, h, t))
    ]

terminal-complete :
    (ctx : Context) (id : Text) (text : Option Text) (db : Desk) (r : ServiceRequest)
    → find_by_id ctx.tenant_id id db ≡ some r
    → is_terminal_status r.status ≡ true
    → Refused (complete ctx id text) db
unfolding complete
terminal-complete ctx id text db r h t = elim (Bool-cases (ctx.can "catalog.request.complete")) [
  | inr c ↦ (forbidden, rw c)
  | inl c ↦ let (_, s, _) = terminal-stuck r.status t in (not_in_fulfillment, rw (c, h, s))
]

-- A request that is completed, rejected or cancelled stays as it is: cancelling it, deciding a step of
-- it, starting or completing its fulfilment and generating its ticket all throw, and change nothing.
pub terminal_is_final :
    (ctx : Context) (id approval : Text) (d : ApprovalDecision) (text : Option Text) (db : Desk)
    (r : ServiceRequest)
    → find_by_id ctx.tenant_id id db ≡ some r
    → is_terminal_status r.status ≡ true
    → Refused (cancel ctx id text) db
      × Refused (decide ctx id approval d text) db
      × Refused (start_fulfillment ctx id) db
      × Refused (create_ticket ctx id) db
      × Refused (complete ctx id text) db
terminal_is_final ctx id approval d text db r h t = (
  terminal-cancel ctx id text db r h t,
  terminal-decide ctx id approval d text db r h t,
  terminal-start ctx id db r h t,
  terminal-create_ticket ctx id db r h t,
  terminal-complete ctx id text db r h t,
)
