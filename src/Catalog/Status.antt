-- ===== src/Catalog/Status.antt =====
-- The statuses of a service request and the table of its transitions,
-- apps/api/src/catalog/domain/request-status.ts.
pub mod Laws
use support_desk.Base.{
  ℕ, Bool, true, false, ◌||◌, List, [], ◌∷◌, any, ◌==◌, if◌then◌else◌, Result, ok, err,
}

pub data ServiceRequestStatus : Type 0 where
  submitted awaiting_approval approved rejected : ServiceRequestStatus
  changes_requested in_fulfillment completed cancelled : ServiceRequestStatus

abbrev pub status_code : ServiceRequestStatus → ℕ
status_code submitted = 0
status_code awaiting_approval = 1
status_code approved = 2
status_code rejected = 3
status_code changes_requested = 4
status_code in_fulfillment = 5
status_code completed = 6
status_code cancelled = 7

abbrev pub status_eq : ServiceRequestStatus → ServiceRequestStatus → Bool
status_eq a b = status_code a == status_code b

-- SERVICE_REQUEST_TRANSITIONS
abbrev pub service_request_transitions : ServiceRequestStatus → List ServiceRequestStatus
service_request_transitions submitted =
    awaiting_approval ∷ in_fulfillment ∷ cancelled ∷ changes_requested ∷ []
service_request_transitions awaiting_approval =
    approved ∷ rejected ∷ changes_requested ∷ cancelled ∷ []
service_request_transitions approved = in_fulfillment ∷ cancelled ∷ []
service_request_transitions rejected = []
service_request_transitions changes_requested = submitted ∷ cancelled ∷ []
service_request_transitions in_fulfillment = completed ∷ []
service_request_transitions completed = []
service_request_transitions cancelled = []

unfoldable pub can_transition : ServiceRequestStatus → ServiceRequestStatus → Bool
can_transition from to = any (λ s. status_eq s to) (service_request_transitions from)

-- SUBMITTED and CHANGES_REQUESTED
unfoldable pub is_editable_status : ServiceRequestStatus → Bool
is_editable_status s = any (λ x. status_eq x s) (submitted ∷ changes_requested ∷ [])

unfoldable pub is_terminal_status : ServiceRequestStatus → Bool
is_terminal_status s = status_eq s completed || status_eq s rejected || status_eq s cancelled
