-- ===== src/Assets/Assignment.antt =====
-- The assignment of assets (assign and unassign of assets.repository.ts).
use support_desk.Base.{
  ◌+◌, Text, codes, text_eq, Bool, true, ◌&&◌, Option, none, some, [], ◌∷◌, ◌++◌, if◌then◌else◌,
  or_else, update_where, ok, ◌>>=◌,
}
use support_desk.Assets.Lifecycle.{LifecycleState, in_stock, assigned, state_eq}
use support_desk.Assets.{
  AssignmentKind, Asset, AssetAssignment, Caller, Tx, append_outbox, find_one, trimmed, save,
  to_user, to_department, to_location,
}

pub record AssignAsset : Type 0 where
  pub kind : AssignmentKind
  pub assigned_to_user_id : Option Text
  pub assigned_department : Option Text
  pub assigned_location_id : Option Text
  pub reason : Option Text
  pub transition_lifecycle : Option Bool

abbrev pub assignment_row : Caller → (id : Text) → AssignAsset → AssetAssignment
assignment_row c id dto = record {
  id = c.row_id;
  tenant_id = c.tenant_id;
  asset_id = id;
  kind = dto.kind;
  assigned_to_user_id = dto.assigned_to_user_id;
  assigned_department = dto.assigned_department;
  assigned_location_id = dto.assigned_location_id;
  assigned_by_user_id = c.actor_user_id;
  assigned_at = c.fresh.now;
  reason = trimmed dto.reason;
  unassigned_at = none;
  unassigned_by_user_id = none;
}

-- Only an asset in stock that goes to a user becomes ASSIGNED, unless the caller forbids it.
abbrev pub target_lifecycle : AssignmentKind → Option Bool → LifecycleState → LifecycleState
target_lifecycle to_user follow in_stock = if or_else follow true then assigned else in_stock
target_lifecycle kind follow state = state

-- A column that the dto leaves out (undefined) is not written.
abbrev pub given : Option Text → Option Text → Option Text
given none old = old
given (some text) old = some text

-- The state is written only if it differs from the one that was read.
abbrev pub assigned_row : AssignAsset → (from : LifecycleState) → Asset → Asset
assigned_row dto from a =
    let next = target_lifecycle dto.kind dto.transition_lifecycle from in
    record a {
      lifecycle_state = if state_eq next from then a.lifecycle_state else next;
      version = a.version + 1;
      assigned_user_id = elim dto.kind [
        | to_user ↦ given dto.assigned_to_user_id a.assigned_user_id
        | _ ↦ a.assigned_user_id
      ];
      assigned_department = elim dto.kind [
        | to_department ↦ given dto.assigned_department a.assigned_department
        | _ ↦ a.assigned_department
      ];
      location_id = elim dto.kind [
        | to_location ↦ given dto.assigned_location_id a.location_id
        | _ ↦ a.location_id
      ];
    }

unfoldable pub assign : Caller → (id : Text) → AssignAsset → Tx (Option Asset)
unfolding find_one
assign c id dto db = elim (find_one c.tenant_id id db) [
  | none ↦ ok (db, none)
  | some a ↦ do
    let made = record db { assignments = db.assignments ++ assignment_row c id dto ∷ [] }
    done ← append_outbox c "asset.assigned" id (
        save c id "asset.assigned" a.lifecycle_state
          (target_lifecycle dto.kind dto.transition_lifecycle a.lifecycle_state)
          (trimmed dto.reason) (assigned_row dto a.lifecycle_state) made)
    ok (done, find_one c.tenant_id id done)
]

abbrev pub unassigned_row : Asset → Asset
unassigned_row a = record a {
  assigned_user_id = none;
  assigned_department = none;
  version = a.version + 1;
}

abbrev pub ended : Caller → AssetAssignment → AssetAssignment
ended c x = record x {
  unassigned_at = some c.fresh.now;
  unassigned_by_user_id = some c.actor_user_id;
}

unfoldable pub unassign : Caller → (id : Text) → Tx (Option Asset)
unfolding find_one
unassign c id db = elim (find_one c.tenant_id id db) [
  | none ↦ ok (db, none)
  | some a ↦ do
    let over = record db {
      assignments =
          update_where
            (λ (x : AssetAssignment). text_eq x.tenant_id c.tenant_id && text_eq x.asset_id id)
            (ended c) db.assignments;
    }
    done ← append_outbox c "asset.unassigned" id (
        save c id "asset.unassigned" a.lifecycle_state a.lifecycle_state
          (some (codes "Assignment removed")) unassigned_row over)
    ok (done, find_one c.tenant_id id done)
]
