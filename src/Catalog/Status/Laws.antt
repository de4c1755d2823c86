-- ===== src/Catalog/Status/Laws.antt =====
-- What the table of request-status.ts says: where a request can still get to.
use support_desk.Base.{◌≡◌, refl, inl, inr, ◌↔◌, true, false, Bool-cases, arith, subst}
use support_desk.Catalog.Status.{
  ServiceRequestStatus, submitted, awaiting_approval, approved, changes_requested, in_fulfillment,
  completed, cancelled, can_transition, is_terminal_status,
}

-- A sequence of transitions that the table allows.
pub data Route : ServiceRequestStatus → ServiceRequestStatus → Type 0 where
  stop : {a : ServiceRequestStatus} → Route a a
  go : {a b c : ServiceRequestStatus} → can_transition a b ≡ true → Route b c → Route a c

terminal-stuck :
    (a b : ServiceRequestStatus) → is_terminal_status a ≡ true → can_transition a b ≡ false
unfolding is_terminal_status can_transition
terminal-stuck a b h = ground arith

Route-terminal : {a b : ServiceRequestStatus} → is_terminal_status a ≡ true → Route a b → b ≡ a
Route-terminal h stop = refl
Route-terminal {a} h (go {b} step r) = let stuck = terminal-stuck a b h in cc

Route-cancelled : (a : ServiceRequestStatus) → can_transition a cancelled ≡ true → Route a cancelled
Route-cancelled a h = go h stop

Route-completed : (a : ServiceRequestStatus) → is_terminal_status a ≡ false → Route a completed
unfolding can_transition is_terminal_status
Route-completed submitted h = go {b = in_fulfillment} refl (go refl stop)
Route-completed awaiting_approval h =
    go {b = approved} refl (go {b = in_fulfillment} refl (go refl stop))
Route-completed approved h = go {b = in_fulfillment} refl (go refl stop)
Route-completed changes_requested h =
    go {b = submitted} refl (go {b = in_fulfillment} refl (go refl stop))
Route-completed in_fulfillment h = go refl stop
Route-completed _ h = cc

completed-IsTerminal : (a : ServiceRequestStatus) → completed ≡ a → is_terminal_status a ≡ true
unfolding is_terminal_status
completed-IsTerminal a e = subst (λ x. is_terminal_status x ≡ true) e refl

stays-IsTerminal :
    (a : ServiceRequestStatus)
    → ((b : ServiceRequestStatus) → Route a b → b ≡ a)
    → is_terminal_status a ≡ true
stays-IsTerminal a h = elim (Bool-cases (is_terminal_status a)) [
  | inl e ↦ e
  | inr e ↦ completed-IsTerminal a (h completed (Route-completed a e))
]

-- The terminal statuses are exactly those that the table never leaves, and from every other status
-- the table leads to COMPLETED.
terminal_iff :
    (a : ServiceRequestStatus)
    → ((is_terminal_status a ≡ true) ↔ ((b : ServiceRequestStatus) → Route a b → b ≡ a))
      × (is_terminal_status a ≡ false → Route a completed)
terminal_iff a = ((λ h b r. Route-terminal h r, stays-IsTerminal a), Route-completed a)
