-- ===== src/Catalog/Gate.antt =====
-- The approval gate of a service request, apps/api/src/catalog/domain/approval-gate.ts.
pub mod Laws
use support_desk.Base.{
  ℕ, Bool, true, false, not, Option, none, some, List, [], ◌∷◌, any, all, find, ◌==◌, if◌then◌else◌,
}
use support_desk.Catalog.Status.{
  ServiceRequestStatus, approved, rejected, changes_requested, awaiting_approval,
}

pub data ApprovalMode : Type 0 where
  none_mode single_mode all_mode any_mode : ApprovalMode

pub data ApprovalStatus : Type 0 where
  pending_step approved_step rejected_step changes_step : ApprovalStatus

-- APPROVED, REJECTED or CHANGES_REQUESTED
pub data ApprovalDecision : Type 0 where
  approve reject request_changes : ApprovalDecision

pub data GateOutcome : Type 0 where
  gate_pending gate_passed gate_rejected gate_changes : GateOutcome

abbrev pub step_code : ApprovalStatus → ℕ
step_code pending_step = 0
step_code approved_step = 1
step_code rejected_step = 2
step_code changes_step = 3

abbrev pub step_eq : ApprovalStatus → ApprovalStatus → Bool
step_eq a b = step_code a == step_code b

-- `decided === "APPROVED" ? "PASSED" : decided`
abbrev pub outcome_of : ApprovalStatus → GateOutcome
outcome_of pending_step = gate_pending
outcome_of approved_step = gate_passed
outcome_of rejected_step = gate_rejected
outcome_of changes_step = gate_changes

unfoldable pub first_decision : List ApprovalStatus → GateOutcome
first_decision statuses = elim (find (λ s. not (step_eq s pending_step)) statuses) [
  | none ↦ gate_pending
  | some decided ↦ outcome_of decided
]

unfoldable pub chain_decision : List ApprovalStatus → GateOutcome
chain_decision statuses =
    if any (λ s. step_eq s rejected_step) statuses
    then gate_rejected
    else if any (λ s. step_eq s changes_step) statuses
    then gate_changes
    else if all (λ s. step_eq s approved_step) statuses
    then gate_passed
    else gate_pending

unfoldable pub evaluate_approval_gate : ApprovalMode → List ApprovalStatus → GateOutcome
unfolding first_decision chain_decision
evaluate_approval_gate none_mode statuses = gate_passed
evaluate_approval_gate single_mode statuses = first_decision statuses
evaluate_approval_gate any_mode statuses = first_decision statuses
evaluate_approval_gate all_mode statuses = chain_decision statuses

abbrev pub is_passed : GateOutcome → Bool
is_passed gate_passed = true
is_passed _ = false

unfoldable pub is_approval_gate_satisfied : ApprovalMode → List ApprovalStatus → Bool
is_approval_gate_satisfied mode statuses = is_passed (evaluate_approval_gate mode statuses)

-- The gate and the status of the request behind a decision.
unfoldable pub step_decision_outcome :
    ApprovalMode → List ApprovalStatus → ApprovalDecision → GateOutcome × ServiceRequestStatus
step_decision_outcome mode statuses reject = (gate_rejected, rejected)
step_decision_outcome mode statuses request_changes = (gate_changes, changes_requested)
step_decision_outcome mode statuses approve =
    if is_passed (evaluate_approval_gate mode statuses)
    then (gate_passed, approved)
    else (gate_pending, awaiting_approval)
