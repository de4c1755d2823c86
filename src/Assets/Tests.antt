-- ===== src/Assets/Tests.antt =====
-- The theorems on assets at concrete rows.
use support_desk.Base.{
  ◌≡◌, ◌≢◌, ◌∙◌, refl, sym, ap, ◌⊎◌, inl, inr, true, Text, codes, text_eq, none, some, [], ◌∷◌, In,
  Option, ok,
}
use support_desk.Audit.{success}
use support_desk.Assets.Lifecycle.{LifecycleState, in_stock, assigned, is_allowed_asset_transition}
use support_desk.Assets.{
  Asset, AssetRelationship, parent_child, to_user, Inventory, Caller, find_one,
}
use support_desk.Assets.Operations.{UpdateAsset, update, transition}
use support_desk.Assets.Assignment.{AssignAsset, assign, unassign}
use support_desk.Assets.Relationships.{
  no_cycle, cycle_found, walk_parents, find_parent_cycle, CreateRelationship, relationship_row,
  insert_relationship, create_relationship,
}
use support_desk.Assets.Relationships.Walk.{find_parent_cycle_ends}
use support_desk.Assets.Hierarchy.{IsLink, Above, link, chain, HasOneParent, IsAcyclic}
use support_desk.Outbox.{append_outbox_event}
use support_desk.Assets.Moves.{IsMoved, lifecycle_follows_table}
use support_desk.Assets.Hierarchy.Creation.{create_relationship-IsAcyclic}

run : Unit {0}
unfolding text_eq walk_parents find_parent_cycle find_one assign append_outbox_event
    insert_relationship create_relationship
run = tt

abbrev acme : Text
acme = codes "acme"

abbrev caller : Caller
caller = record {
  tenant_id = acme;
  actor_user_id = codes "ann";
  correlation_id = none;
  audit_action = "asset.relationship.created";
  audit_target_type = "asset_relationship";
  row_id = codes "new";
  fresh = record { now = 9; id = codes "e"; correlation_id = codes "c" };
}

abbrev asset : (id : Text) → Asset
asset id = record {
  id = id;
  tenant_id = acme;
  asset_number = 1;
  name = id;
  asset_type_id = codes "server";
  category_id = none;
  lifecycle_state = in_stock;
  owner_user_id = none;
  assigned_user_id = none;
  assigned_department = none;
  location_id = none;
  notes = none;
  version = 1;
  deleted_at = none;
}

abbrev above : (id parent child : Text) → AssetRelationship
above id parent child = record {
  id = id;
  tenant_id = acme;
  source_asset_id = parent;
  target_asset_id = child;
  relationship_type = parent_child;
  note = none;
  created_by_user_id = codes "ann";
}

abbrev rack_server : AssetRelationship
rack_server = above (codes "r") (codes "rack") (codes "server")

abbrev inventory : Inventory
inventory = record {
  assets = asset (codes "rack") ∷ asset (codes "server") ∷ asset (codes "disk") ∷ [];
  assignments = [];
  relationships = rack_server ∷ [];
  history = [];
  audits = [];
  outbox = [];
}

find_parent_cycle_ends_example :
    (find_parent_cycle acme (codes "server") (codes "rack") (rack_server ∷ []) ≡ no_cycle)
    ⊎ (find_parent_cycle acme (codes "server") (codes "rack") (rack_server ∷ []) ≡ cycle_found)
find_parent_cycle_ends_example =
    find_parent_cycle_ends acme (codes "server") (codes "rack") (rack_server ∷ [])

finds_cycle :
    find_parent_cycle acme (codes "server") (codes "rack") (rack_server ∷ []) ≡ cycle_found
unfolding run
finds_cycle = refl

-- An asset c with the parents x and y: the walk follows x only, and does not see that y is above c
-- already when c is to become a parent of y.
misses_cycle :
    find_parent_cycle acme
      (codes "c")
      (codes "y")
      (above (codes "1") (codes "x") (codes "c") ∷ above (codes "2") (codes "y") (codes "c") ∷ [])
    ≡ no_cycle
unfolding run
misses_cycle = refl

abbrev disk_in_server : CreateRelationship
disk_in_server = record {
  target_asset_id = codes "disk";
  relationship_type = parent_child;
  note = none;
}

rack-ne-server : codes "rack" ≢ codes "server"
unfolding text_eq
rack-ne-server e = let x = ap (text_eq (codes "rack")) e in cc

rack_server-parts :
    (a b : Text) (r : AssetRelationship)
    → In r (rack_server ∷ [])
    → IsLink acme a b r
    → (a ≡ codes "rack") × (b ≡ codes "server")
rack_server-parts a b r (inl e) l = (
  sym l.upper ∙ ap (λ (x : AssetRelationship). x.source_asset_id) e,
  sym l.lower ∙ ap (λ (x : AssetRelationship). x.target_asset_id) e,
)
rack_server-parts a b r (inr i) l = absurd i

rack_server-HasOneParent : HasOneParent acme (rack_server ∷ [])
rack_server-HasOneParent a b c r s i j k l =
    (rack_server-parts a c r i k).0 ∙ sym (rack_server-parts b c s j l).0

rack_server-ends :
    (a b : Text) → Above acme (rack_server ∷ []) a b → (a ≡ codes "rack") × (b ≡ codes "server")
rack_server-ends a b (link _ _ r m l) = rack_server-parts a b r m l
rack_server-ends a c (chain _ b _ r up m l) =
    ((rack_server-ends a b up).0, (rack_server-parts b c r m l).1)

rack_server-IsAcyclic : IsAcyclic acme (rack_server ∷ [])
rack_server-IsAcyclic a up =
    let (top, low) = rack_server-ends a a up in rack-ne-server (sym top ∙ low)

abbrev grown : Inventory
grown = record inventory {
  relationships = rack_server ∷ relationship_row caller (codes "server") disk_in_server ∷ [];
  history =
      record {
        tenant_id = acme;
        asset_id = codes "server";
        action = "asset.relationship_added";
        from_state = none;
        to_state = none;
        actor_user_id = codes "ann";
        comment = none;
      }
      ∷ [];
  audits =
      record {
        action = "asset.relationship.created";
        actor_user_id = some (codes "ann");
        correlation_id = none;
        outcome = success;
        target_id = some (codes "server");
        target_type = "asset_relationship";
        tenant_id = acme;
      }
      ∷ [];
}

grows :
    create_relationship caller (codes "server") disk_in_server inventory
    ≡ ok (grown, some (relationship_row caller (codes "server") disk_in_server))
unfolding run
grows = refl

create_relationship-IsAcyclic_example :
    IsAcyclic acme grown.relationships
    × (((a : Text) (r : AssetRelationship)
          → In r (rack_server ∷ [])
          → ¬ IsLink acme a (codes "disk") r)
        → HasOneParent acme grown.relationships)
create_relationship-IsAcyclic_example =
    create_relationship-IsAcyclic caller (codes "server") disk_in_server inventory grown
      (some (relationship_row caller (codes "server") disk_in_server)) rack_server-HasOneParent
      rack_server-IsAcyclic grows

abbrev to_ann : AssignAsset
to_ann = record {
  kind = to_user;
  assigned_to_user_id = some (codes "ann");
  assigned_department = none;
  assigned_location_id = none;
  reason = none;
  transition_lifecycle = none;
}

abbrev handed_out : Asset
handed_out = record (asset (codes "disk")) {
  lifecycle_state = assigned;
  assigned_user_id = some (codes "ann");
  version = 2;
}

hands_out :
    (db : Inventory) × (assign caller (codes "disk") to_ann inventory ≡ ok (db, some handed_out))
unfolding run
hands_out = (_, refl)

disk_there : find_one acme (codes "disk") inventory ≡ some (asset (codes "disk"))
unfolding run
disk_there = refl

lifecycle_follows_table_example :
    let db = hands_out.0 in
    ((dto : UpdateAsset)
      → update caller (codes "disk") dto inventory ≡ ok (db, some handed_out)
      → IsMoved acme (codes "disk") (asset (codes "disk")) db)
    × ((dto : AssignAsset)
        → assign caller (codes "disk") dto inventory ≡ ok (db, some handed_out)
        → IsMoved acme (codes "disk") (asset (codes "disk")) db)
    × (unassign caller (codes "disk") inventory ≡ ok (db, some handed_out)
        → IsMoved acme (codes "disk") (asset (codes "disk")) db)
    × ((to : LifecycleState) (comment : Option Text)
        → transition caller (codes "disk") to comment inventory ≡ ok (db, some handed_out)
        → IsMoved acme (codes "disk") (asset (codes "disk")) db
          × (is_allowed_asset_transition in_stock to ≡ true))
lifecycle_follows_table_example =
    lifecycle_follows_table caller (codes "disk") (asset (codes "disk")) inventory hands_out.0
      (some handed_out) disk_there
