-- ===== src/Assets/Operations.antt =====
-- Creating, editing, moving and deleting assets (create, update, transition and softDelete of
-- assets.repository.ts).
use support_desk.Base.{
  ℕ, ◌+◌, Text, codes, text_eq, trim, Bool, true, false, ◌&&◌, Option, none, some, [], ◌∷◌, ◌++◌,
  if◌then◌else◌, or_else, any, filter, length, Result, ok, err, ◌>>=◌,
}
use support_desk.Assets.Lifecycle.{LifecycleState, draft, state_eq, is_allowed_asset_transition}
use support_desk.Assets.{
  Asset, Inventory, AssetError, Caller, Tx, append_outbox, write_history, write_audit, is_live,
  find_one, non_blank, trimmed, save_where, save, same_state, not_retrieved, not_allowed,
}

pub record CreateAsset : Type 0 where
  pub name : Text
  pub asset_type_id : Text
  pub category_id : Option Text
  pub lifecycle_state : Option LifecycleState
  pub owner_user_id : Option Text
  pub location_id : Option Text
  pub notes : Option Text

-- `nextAssetRef`, which also counts deleted assets.
unfoldable pub next_asset_number : (tenant : Text) → Inventory → ℕ
next_asset_number tenant db =
    length (filter (λ (a : Asset). text_eq a.tenant_id tenant) db.assets) + 1

abbrev pub asset_row : Caller → CreateAsset → ℕ → Asset
asset_row c dto number = record {
  id = c.row_id;
  tenant_id = c.tenant_id;
  asset_number = number;
  name = trim dto.name;
  asset_type_id = dto.asset_type_id;
  category_id = dto.category_id;
  lifecycle_state = or_else dto.lifecycle_state draft;
  owner_user_id = dto.owner_user_id;
  assigned_user_id = none;
  assigned_department = none;
  location_id = dto.location_id;
  notes = trimmed dto.notes;
  version = 1;
  deleted_at = none;
}

abbrev retrieved : Inventory → Option Asset → Result AssetError (Inventory × Asset)
retrieved db none = err not_retrieved
retrieved db (some a) = ok (db, a)

unfoldable pub create : Caller → CreateAsset → Tx Asset
unfolding find_one next_asset_number
create c dto db = do
  let a = asset_row c dto (next_asset_number c.tenant_id db)
  let stored = record db { assets = db.assets ++ a ∷ [] }
  let written = write_audit c c.row_id (
      write_history c c.row_id "asset.created" none (some a.lifecycle_state)
        (some (codes "Asset created")) stored)
  done ← append_outbox c "asset.created" c.row_id written
  retrieved done (find_one c.tenant_id c.row_id done)

-- A field of `UpdateAssetDto` that is left out is kept; an empty text clears the column.
pub record UpdateAsset : Type 0 where
  pub name : Option Text
  pub category_id : Option Text
  pub owner_user_id : Option Text
  pub location_id : Option Text
  pub notes : Option Text

abbrev pub or_kept : Option Text → Option Text → Option Text
or_kept none old = old
or_kept (some text) old = non_blank text

abbrev pub updated_row : UpdateAsset → Asset → Asset
updated_row dto a = record a {
  name = elim dto.name [ none ↦ a.name | some name ↦ trim name ];
  category_id = or_kept dto.category_id a.category_id;
  owner_user_id = or_kept dto.owner_user_id a.owner_user_id;
  location_id = or_kept dto.location_id a.location_id;
  notes = elim dto.notes [ none ↦ a.notes | some notes ↦ non_blank (trim notes) ];
  version = a.version + 1;
}

unfoldable pub update : Caller → (id : Text) → UpdateAsset → Tx (Option Asset)
unfolding find_one
update c id dto db = elim (find_one c.tenant_id id db) [
  | none ↦ ok (db, none)
  | some a ↦
      let done =
        save c id "asset.updated" a.lifecycle_state a.lifecycle_state (some (codes "Asset updated"))
          (updated_row dto) db in
      ok (done, find_one c.tenant_id id done)
]

abbrev pub moved_row : LifecycleState → Asset → Asset
moved_row to a = record a { lifecycle_state = to; version = a.version + 1 }

-- The WHERE of the update also asks for the state that was read.
abbrev pub is_live_in : (tenant id : Text) → LifecycleState → Asset → Bool
is_live_in tenant id state a = is_live tenant id a && state_eq a.lifecycle_state state

unfoldable pub carry_out_transition :
    Caller → (id : Text) → (from to : LifecycleState) → Option Text → Tx (Option Asset)
unfolding find_one
carry_out_transition c id from to comment db =
    if any (is_live_in c.tenant_id id from) db.assets
    then (do
      done ← append_outbox c "asset.status_changed" id (
          save_where c id (is_live_in c.tenant_id id from) "asset.status_changed" from to comment
            (moved_row to) db)
      ok (done, find_one c.tenant_id id done))
    else ok (db, none)

unfoldable pub transition :
    Caller → (id : Text) → (to : LifecycleState) → Option Text → Tx (Option Asset)
unfolding carry_out_transition
transition c id to comment db = elim (find_one c.tenant_id id db) [
  | none ↦ ok (db, none)
  | some a ↦
      if state_eq a.lifecycle_state to
      then err same_state
      else if is_allowed_asset_transition a.lifecycle_state to
      then carry_out_transition c id a.lifecycle_state to comment db
      else err (not_allowed a.lifecycle_state to)
]

abbrev pub deleted_row : ℕ → Asset → Asset
deleted_row now a = record a { deleted_at = some now; version = a.version + 1 }

unfoldable pub soft_delete : Caller → (id : Text) → Tx Bool
unfolding find_one
soft_delete c id db = elim (find_one c.tenant_id id db) [
  | none ↦ ok (db, false)
  | some a ↦ ok (
    save c id "asset.deleted" a.lifecycle_state a.lifecycle_state
        (some (codes "Asset soft-deleted")) (deleted_row c.fresh.now) db,
    true,
  )
]
