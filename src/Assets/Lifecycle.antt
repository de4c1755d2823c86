-- ===== src/Assets/Lifecycle.antt =====
-- The lifecycle of an asset, apps/api/src/assets/domain/asset-lifecycle.ts.
use support_desk.Base.{Bool, not, ◌&&◌, List, [], ◌∷◌, any, ℕ, ◌==◌}

pub data LifecycleState : Type 0 where
  draft in_stock assigned in_repair retired disposed lost archived : LifecycleState

abbrev pub state_code : LifecycleState → ℕ
state_code draft = 0
state_code in_stock = 1
state_code assigned = 2
state_code in_repair = 3
state_code retired = 4
state_code disposed = 5
state_code lost = 6
state_code archived = 7

abbrev pub state_eq : LifecycleState → LifecycleState → Bool
state_eq a b = state_code a == state_code b

-- `ASSET_TERMINAL_STATES`
abbrev pub asset_terminal_states : List LifecycleState
asset_terminal_states = retired ∷ disposed ∷ lost ∷ archived ∷ []

-- `TRANSITIONS`
abbrev pub transitions : LifecycleState → List LifecycleState
transitions draft = in_stock ∷ assigned ∷ disposed ∷ archived ∷ []
transitions in_stock = assigned ∷ in_repair ∷ retired ∷ disposed ∷ lost ∷ archived ∷ []
transitions assigned = in_stock ∷ in_repair ∷ retired ∷ disposed ∷ lost ∷ archived ∷ []
transitions in_repair = in_stock ∷ assigned ∷ retired ∷ disposed ∷ lost ∷ archived ∷ []
transitions retired = archived ∷ in_stock ∷ disposed ∷ []
transitions disposed = archived ∷ []
transitions lost = in_stock ∷ archived ∷ []
transitions archived = []

unfoldable pub is_allowed_asset_transition : (from to : LifecycleState) → Bool
is_allowed_asset_transition from to = not (state_eq from to) && any (state_eq to) (transitions from)

unfoldable pub is_terminal_asset_state : LifecycleState → Bool
is_terminal_asset_state s = any (state_eq s) asset_terminal_states
