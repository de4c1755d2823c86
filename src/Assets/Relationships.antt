-- ===== src/Assets/Relationships.antt =====
-- The relationships between assets (createRelationship, assertNoParentCycle and deleteRelationship of
-- apps/api/src/assets/assets.repository.ts).
pub mod Walk
use support_desk.Base.{
  ℕ, zero, suc, Text, text_eq, Bool, true, false, not, ◌&&◌, ◌||◌, ◌==◌, Option, none, some, List,
  [], ◌∷◌, ◌++◌, if◌then◌else◌, any, find, filter, length, Result, ok, err, ◌>>=◌, ◌>>◌,
}
use support_desk.Assets.{
  RelationshipType, parent_child, depends_on, connected_to, installed_on, hosted_on,
  license_assigned_to, AssetRelationship, Inventory, AssetError, self_reference, cycle_detected,
  Caller, Tx, find_one, trimmed, write_history, write_audit,
}

abbrev pub type_code : RelationshipType → ℕ
type_code parent_child = 0
type_code depends_on = 1
type_code connected_to = 2
type_code installed_on = 3
type_code hosted_on = 4
type_code license_assigned_to = 5

abbrev pub type_eq : RelationshipType → RelationshipType → Bool
type_eq a b = type_code a == type_code b

-- A relationship that makes an asset the child of another.
abbrev pub is_parent_of : (tenant child : Text) → AssetRelationship → Bool
is_parent_of tenant child r =
    text_eq r.tenant_id tenant
    && text_eq r.target_asset_id child
    && type_eq r.relationship_type parent_child

-- How the walk over the parents ends; `out_of_fuel` is no result of the code.
pub data WalkResult : Type 0 where
  no_cycle cycle_found out_of_fuel : WalkResult

abbrev pub is_seen : List Text → Text → Bool
is_seen seen id = any (text_eq id) seen

-- The loop of `assertNoParentCycle`, with its set of seen ids and its cursor. The source's loop would
-- also stop at an empty id; the ids of assets are UUIDs.
unfoldable pub walk_parents :
    (tenant child : Text)
    → List AssetRelationship
    → (fuel : ℕ) → (seen : List Text) → (cursor : Text) → WalkResult
walk_parents tenant child rows zero seen cursor = out_of_fuel
walk_parents tenant child rows (suc fuel) seen cursor =
    elim (find (is_parent_of tenant cursor) rows) [
      | none ↦ no_cycle
      | some r ↦
          let rest =
            walk_parents tenant child rows fuel (r.source_asset_id ∷ seen) r.source_asset_id in
          if text_eq r.source_asset_id child || is_seen seen r.source_asset_id
          then cycle_found
          else rest
    ]

-- One round more than there are relationships.
unfoldable pub find_parent_cycle :
    (tenant parent child : Text) → List AssetRelationship → WalkResult
unfolding walk_parents
find_parent_cycle tenant parent child rows =
    walk_parents tenant child rows (suc (length rows)) (parent ∷ []) parent

pub record CreateRelationship : Type 0 where
  pub target_asset_id : Text
  pub relationship_type : RelationshipType
  pub note : Option Text

abbrev pub same_relationship :
    (tenant source : Text) → CreateRelationship → AssetRelationship → Bool
same_relationship tenant source dto r =
    text_eq r.tenant_id tenant
    && text_eq r.source_asset_id source
    && text_eq r.target_asset_id dto.target_asset_id
    && type_eq r.relationship_type dto.relationship_type

abbrev pub relationship_row : Caller → (source : Text) → CreateRelationship → AssetRelationship
relationship_row c source dto = record {
  id = c.row_id;
  tenant_id = c.tenant_id;
  source_asset_id = source;
  target_asset_id = dto.target_asset_id;
  relationship_type = dto.relationship_type;
  note = trimmed dto.note;
  created_by_user_id = c.actor_user_id;
}

-- The test that `createRelationship` makes of a new parent.
abbrev pub cycle_check : WalkResult → Bool
cycle_check no_cycle = true
cycle_check _ = false

unfoldable pub insert_relationship :
    Caller → (source : Text) → CreateRelationship → Tx (Option AssetRelationship)
unfolding find_parent_cycle
insert_relationship c source dto db =
    let row = relationship_row c source dto in
    if type_eq dto.relationship_type parent_child
      && not
          (cycle_check (find_parent_cycle c.tenant_id source dto.target_asset_id db.relationships))
    then err cycle_detected
    else ok (
      write_audit c source (
          write_history c source "asset.relationship_added" none none none
            (record db { relationships = db.relationships ++ row ∷ [] })),
      some row,
    )

unfoldable pub create_relationship :
    Caller → (source : Text) → CreateRelationship → Tx (Option AssetRelationship)
unfolding insert_relationship find_one
create_relationship c source dto db =
    if text_eq source dto.target_asset_id
    then err self_reference
    else elim (find_one c.tenant_id dto.target_asset_id db) [
      | none ↦ ok (db, none)
      | some target ↦ elim (find (same_relationship c.tenant_id source dto) db.relationships) [
        | some existing ↦ ok (db, some existing)
        | none ↦ insert_relationship c source dto db
      ]
    ]

abbrev pub of_asset : (tenant asset id : Text) → AssetRelationship → Bool
of_asset tenant asset id r =
    text_eq r.tenant_id tenant
    && text_eq r.id id
    && (text_eq r.source_asset_id asset || text_eq r.target_asset_id asset)

unfoldable pub delete_relationship : Caller → (asset id : Text) → Tx Bool
delete_relationship c asset id db = elim (find (of_asset c.tenant_id asset id) db.relationships) [
  | none ↦ ok (db, false)
  | some r ↦ ok (
    write_audit c asset (
        write_history c asset "asset.relationship_removed" none none none (record db {
          relationships =
              filter (λ (x : AssetRelationship). not (text_eq x.id id)) db.relationships;
        })),
    true,
  )
]
