-- ===== src/Catalog/Gate/Laws.antt =====
-- What the approval gate of approval-gate.ts decides from the statuses of the steps.
use support_desk.Base.{
  ◌≡◌, refl, ◌≢◌, ◌⊎◌, inl, inr, ◌↔◌, ap, true, false, List, [], ◌∷◌, any, all, All, Bool-cases,
  arith,
}
use support_desk.Catalog.Status.{approved, awaiting_approval, can_transition}
use support_desk.Catalog.Gate.{
  ApprovalMode, single_mode, all_mode, any_mode, ApprovalStatus, pending_step, approved_step,
  rejected_step, changes_step, step_eq, ApprovalDecision, approve, reject, request_changes,
  gate_passed, first_decision, chain_decision, evaluate_approval_gate, is_passed,
  is_approval_gate_satisfied, step_decision_outcome,
}

all-approved :
    (l : List ApprovalStatus)
    → all (λ s. step_eq s approved_step) l ≡ true
    → All (λ s. s ≡ approved_step) l
all-approved [] h = tt
all-approved (approved_step ∷ l) h = (refl, all-approved l (ground arith))
all-approved (pending_step ∷ l) h = ground arith
all-approved (rejected_step ∷ l) h = ground arith
all-approved (changes_step ∷ l) h = ground arith

approved-any :
    (l : List ApprovalStatus) (x : ApprovalStatus)
    → step_eq approved_step x ≡ false
    → All (λ s. s ≡ approved_step) l
    → any (λ s. step_eq s x) l ≡ false
approved-any [] x n h = refl
approved-any (s ∷ l) x n (e, h) =
    let rest = approved-any l x n h in
    let same : step_eq s x ≡ step_eq approved_step x = ap (λ y. step_eq y x) e in ground arith

approved-all :
    (l : List ApprovalStatus)
    → All (λ s. s ≡ approved_step) l
    → all (λ s. step_eq s approved_step) l ≡ true
approved-all [] h = refl
approved-all (s ∷ l) (e, h) =
    let rest = approved-all l h in
    let same : step_eq s approved_step ≡ true = ap (λ y. step_eq y approved_step) e in ground arith

-- In the mode ALL the gate opens exactly when every step has approved.
pub all_mode_iff :
    (l : List ApprovalStatus)
    → (is_approval_gate_satisfied all_mode l ≡ true) ↔ All (λ s. s ≡ approved_step) l
unfolding is_approval_gate_satisfied evaluate_approval_gate chain_decision
all_mode_iff l = (
  (λ h. all-approved l (ground arith)),
  (λ h.
      let a = approved-all l h in
      let b = approved-any l rejected_step refl h in
      let c = approved-any l changes_step refl h in ground arith),
)

-- The first decision of a list of steps: those before it are pending.
pub data Decides : List ApprovalStatus → ApprovalStatus → Type 0 where
  here : {s : ApprovalStatus} {l : List ApprovalStatus} → s ≢ pending_step → Decides (s ∷ l) s
  there :
      {s : ApprovalStatus} {l : List ApprovalStatus} → Decides l s → Decides (pending_step ∷ l) s

first-Decides : (l : List ApprovalStatus) → first_decision l ≡ gate_passed → Decides l approved_step
unfolding first_decision
first-Decides [] h = ground arith
first-Decides (pending_step ∷ l) h = there (first-Decides l h)
first-Decides (approved_step ∷ l) h = here (λ e. cc)
first-Decides (rejected_step ∷ l) h = ground arith
first-Decides (changes_step ∷ l) h = ground arith

Decides-first : {l : List ApprovalStatus} → Decides l approved_step → first_decision l ≡ gate_passed
unfolding first_decision
Decides-first (here n) = refl
Decides-first (there d) = Decides-first d

-- In the modes SINGLE and ANY the gate opens exactly when the first step that is not pending has
-- approved, whatever the later ones say.
pub any_mode_iff :
    (l : List ApprovalStatus)
    → ((is_approval_gate_satisfied any_mode l ≡ true) ↔ Decides l approved_step)
      × ((is_approval_gate_satisfied single_mode l ≡ true) ↔ Decides l approved_step)
unfolding is_approval_gate_satisfied evaluate_approval_gate
any_mode_iff l =
    let f = first-Decides l in
    (
      ((λ h. f (ground arith)), (λ d. let e = Decides-first d in ground arith)),
      ((λ h. f (ground arith)), (λ d. let e = Decides-first d in ground arith)),
    )

-- After a decision the request either keeps awaiting approval or makes a move that the table of
-- transitions allows. It is approved only through an open gate, and then by an approval.
pub step_decision_outcome_lem :
    (mode : ApprovalMode) (l : List ApprovalStatus) (d : ApprovalDecision)
    → let to = (step_decision_outcome mode l d).1 in
      ((to ≡ awaiting_approval) ⊎ (can_transition awaiting_approval to ≡ true))
      × (to ≡ approved → (d ≡ approve) × (is_approval_gate_satisfied mode l ≡ true))
unfolding step_decision_outcome can_transition is_approval_gate_satisfied
step_decision_outcome_lem mode l approve =
    elim (Bool-cases (is_passed (evaluate_approval_gate mode l))) [
      | inl e ↦ (inr (ground arith), (λ h. (refl, e)))
      | inr e ↦ (inl (ground arith), (λ h. ground arith))
    ]
step_decision_outcome_lem mode l reject = (inr refl, (λ h. ground arith))
step_decision_outcome_lem mode l request_changes = (inr refl, (λ h. ground arith))
