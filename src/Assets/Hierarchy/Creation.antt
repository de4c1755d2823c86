-- ===== src/Assets/Hierarchy/Creation.antt =====
-- A relationship that createRelationship of assets.repository.ts makes closes no cycle of parents.
use support_desk.Base.{
  ℕ, zero, suc, ◌≡◌, ◌≢◌, refl, sym, ap, subst, ◌∙◌, ◌⊎◌, inl, inr, Text, text_eq, text_eq_refl,
  text_eq→eq, true, Bool-cases, not, ◌&&◌, ◌||◌, Option, Option-cases, List, [], ◌∷◌, ◌++◌, In,
  find, length, ok, arith,
}
use support_desk.Base.Members.{find-In}
use support_desk.Base.Finds.{find-none-In}
use support_desk.Assets.{
  RelationshipType, parent_child, depends_on, connected_to, installed_on, hosted_on,
  license_assigned_to, AssetRelationship, Inventory, Caller, find_one,
}
use support_desk.Assets.Relationships.{
  is_parent_of, is_seen, type_eq, WalkResult, no_cycle, cycle_found, out_of_fuel, walk_parents,
  find_parent_cycle, CreateRelationship, relationship_row, cycle_check, same_relationship,
  insert_relationship, create_relationship,
}
use support_desk.Assets.Hierarchy.{
  IsLink, Above, HasOneParent, IsAcyclic, nearest_parent, append-IsAcyclic, append-HasOneParent,
}

module _ (tenant : Text) where
  type_eq→eq : (k : RelationshipType) → type_eq k parent_child ≡ true → k ≡ parent_child
  type_eq→eq parent_child h = refl
  type_eq→eq depends_on h = cc
  type_eq→eq connected_to h = cc
  type_eq→eq installed_on h = cc
  type_eq→eq hosted_on h = cc
  type_eq→eq license_assigned_to h = cc

  is_parent_of-IsLink :
      (child : Text) (r : AssetRelationship)
      → is_parent_of tenant child r ≡ true
      → IsLink tenant r.source_asset_id child r
  is_parent_of-IsLink child r h = record {
    home = text_eq→eq r.tenant_id tenant (ground arith);
    upper = refl;
    lower = text_eq→eq r.target_asset_id child (ground arith);
    kind = type_eq→eq r.relationship_type (ground arith);
  }

  IsLink-is_parent_of :
      (parent child : Text) (r : AssetRelationship)
      → IsLink tenant parent child r
      → is_parent_of tenant child r ≡ true
  IsLink-is_parent_of parent child r l =
      rw (l.home, l.lower, l.kind, text_eq_refl tenant, text_eq_refl child)

  -- Where each asset has one parent, a walk that finds no cycle has met all that is above its start.
  walk_parents-no_cycle :
      (child : Text) (rows : List AssetRelationship) (fuel : ℕ) (seen : List Text) (cursor : Text)
      → HasOneParent tenant rows
      → walk_parents tenant child rows fuel seen cursor ≡ no_cycle
      → ¬ Above tenant rows child cursor
  unfolding walk_parents
  walk_parents-no_cycle child rows zero seen cursor one h up = cc
  walk_parents-no_cycle child rows (suc fuel) seen cursor one h up =
      let (b, r, m, l, higher) = nearest_parent tenant rows child cursor up in
      elim (Option-cases (find (is_parent_of tenant cursor) rows)) [
        | inl root ↦
            let missed = find-none-In (is_parent_of tenant cursor) r rows root m in
            let met = IsLink-is_parent_of b cursor r l in cc
        | inr (s, there) ↦
            let (i, hit) = find-In (is_parent_of tenant cursor) s rows there in
            let same : b ≡ s.source_asset_id =
              one b s.source_asset_id cursor r s m i l (is_parent_of-IsLink cursor s hit) in
            elim (Bool-cases (text_eq s.source_asset_id child || is_seen seen s.source_asset_id)) [
              | inl stop ↦ let x = rw (walk_parents, there, stop) at h in cc
              | inr go ↦ elim higher [
                | inl own ↦
                    let hit_child : text_eq s.source_asset_id child ≡ true =
                      subst (λ k. text_eq s.source_asset_id k ≡ true) (sym (own ∙ same))
                        (text_eq_refl s.source_asset_id) in
                    ground arith
                | inr above ↦
                    walk_parents-no_cycle child rows fuel (s.source_asset_id ∷ seen)
                      s.source_asset_id one (rw (walk_parents, there, go) at h)
                      (subst (Above tenant rows child) same above)
              ]
            ]
      ]

cycle_check-no_cycle : (w : WalkResult) → cycle_check w ≡ true → w ≡ no_cycle
cycle_check-no_cycle no_cycle h = refl
cycle_check-no_cycle cycle_found h = cc
cycle_check-no_cycle out_of_fuel h = cc

insert_relationship-rows :
    (c : Caller) (source : Text) (dto : CreateRelationship) (db db' : Inventory)
    (result : Option AssetRelationship)
    → insert_relationship c source dto db ≡ ok (db', result)
    → (db'.relationships ≡ db.relationships ++ relationship_row c source dto ∷ [])
      × (dto.relationship_type ≡ parent_child
          → find_parent_cycle c.tenant_id source dto.target_asset_id db.relationships ≡ no_cycle)
unfolding insert_relationship
insert_relationship-rows c source dto db db' result h =
    let walk = find_parent_cycle c.tenant_id source dto.target_asset_id db.relationships in
    elim (Bool-cases (type_eq dto.relationship_type parent_child && not (cycle_check walk))) [
      | inl bad ↦ let x = rw bad at h in cc
      | inr good ↦
          let x = rw good at h in
          (
            ground arith,
            λ kind.
                let own : type_eq dto.relationship_type parent_child ≡ true = rw kind refl in
                cycle_check-no_cycle walk (ground arith),
          )
    ]

-- What a successful call leaves: the rows as they were, or the new row after the checks.
create_relationship-rows :
    (c : Caller) (source : Text) (dto : CreateRelationship) (db db' : Inventory)
    (result : Option AssetRelationship)
    → create_relationship c source dto db ≡ ok (db', result)
    → (db'.relationships ≡ db.relationships)
      ⊎ ((source ≢ dto.target_asset_id)
          × (db'.relationships ≡ db.relationships ++ relationship_row c source dto ∷ [])
          × (dto.relationship_type ≡ parent_child
              → find_parent_cycle c.tenant_id source dto.target_asset_id db.relationships
                ≡ no_cycle))
unfolding create_relationship
create_relationship-rows c source dto db db' result h =
    elim (Bool-cases (text_eq source dto.target_asset_id)) [
      | inl same ↦ let x = rw same at h in cc
      | inr differ ↦ elim (Option-cases (find_one c.tenant_id dto.target_asset_id db)) [
        | inl gone ↦ inl (ground arith)
        | inr (target, there) ↦
            elim (Option-cases (find (same_relationship c.tenant_id source dto) db.relationships)) [
              | inr (old, kept) ↦ inl (ground arith)
              | inl fresh ↦
                  let made = rw (differ, there, fresh) at h in
                  let (rows, checked) = insert_relationship-rows c source dto db db' result made in
                  inr (
                    (λ e. let x = ap (text_eq source) (sym e) ∙ text_eq_refl source in cc),
                    rows,
                    checked,
                  )
            ]
      ]
    ]

-- The hierarchy stays free of cycles. If no asset of the tenant has two parents and none is above
-- itself, then no call of createRelationship that goes through, of whatever type, makes one that is
-- above itself; and if the target had no parent, still no asset has two.
pub create_relationship-IsAcyclic :
    (c : Caller) (source : Text) (dto : CreateRelationship) (db db' : Inventory)
    (result : Option AssetRelationship)
    → HasOneParent c.tenant_id db.relationships
    → IsAcyclic c.tenant_id db.relationships
    → create_relationship c source dto db ≡ ok (db', result)
    → IsAcyclic c.tenant_id db'.relationships
      × (((a : Text) (r : AssetRelationship)
            → In r db.relationships
            → ¬ IsLink c.tenant_id a dto.target_asset_id r)
          → HasOneParent c.tenant_id db'.relationships)
unfolding find_parent_cycle
create_relationship-IsAcyclic c source dto db db' result one old h =
    let t = c.tenant_id in
    elim (create_relationship-rows c source dto db db' result h) [
      | inl same ↦
          (subst (IsAcyclic t) (sym same) old, (λ orphan. subst (HasOneParent t) (sym same) one))
      | inr (differ, rows, checked) ↦
          let n = relationship_row c source dto in
          (
            subst (IsAcyclic t) (sym rows) (
                append-IsAcyclic t db.relationships n old (λ k. (
                  differ,
                  walk_parents-no_cycle t dto.target_asset_id db.relationships
                      (suc (length db.relationships)) (source ∷ []) source one (checked k.kind),
                ))),
            (λ orphan.
                subst (HasOneParent t) (sym rows)
                  (append-HasOneParent t db.relationships n one orphan)),
          )
    ]
