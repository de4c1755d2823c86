-- ===== src/Assets/Hierarchy.antt =====
-- The hierarchy of parents and children among the assets of a tenant (createRelationship of
-- assets.repository.ts): what a new link does to it.
pub mod Creation
use support_desk.Base.{
  ℕ, zero, suc, ◌≡◌, ◌≢◌, refl, sym, ap, subst, ◌∙◌, ◌⊎◌, inl, inr, Text, text_eq, text_eq_refl,
  text_eq→eq, Bool, true, false, Bool-cases, not, ◌&&◌, ◌||◌, Option, none, some, Option-cases,
  List, [], ◌∷◌, ◌++◌, In, find, length, if◌then◌else◌, Result, ok, err, arith,
}
use support_desk.Base.Members.{find-In, In-append}
use support_desk.Base.Finds.{find-none-In}
use support_desk.Assets.{
  RelationshipType, parent_child, depends_on, connected_to, installed_on, hosted_on,
  license_assigned_to, AssetRelationship, Inventory, Caller, find_one,
}
use support_desk.Assets.Relationships.{
  is_parent_of, is_seen, type_eq, WalkResult, no_cycle, cycle_found, out_of_fuel, walk_parents,
  find_parent_cycle, CreateRelationship, relationship_row, cycle_check, same_relationship,
  insert_relationship, create_relationship,
}

module _ (tenant : Text) where
  -- A row that makes one asset the parent of another.
  pub record IsLink (parent child : Text) (r : AssetRelationship) : Type 0 where
    pub home : r.tenant_id ≡ tenant
    pub upper : r.source_asset_id ≡ parent
    pub lower : r.target_asset_id ≡ child
    pub kind : r.relationship_type ≡ parent_child

  -- One asset is above another: its parent, or above the parent.
  pub data Above (rows : List AssetRelationship) : Text → Text → Type 0 where
    link : (a b : Text) (r : AssetRelationship) → In r rows → IsLink a b r → Above rows a b
    chain :
        (a b c : Text) (r : AssetRelationship)
        → Above rows a b
        → In r rows
        → IsLink b c r
        → Above rows a c

  -- No asset has two parents.
  abbrev pub HasOneParent : List AssetRelationship → Type 0
  HasOneParent rows =
      (a b c : Text) (r s : AssetRelationship)
      → In r rows
      → In s rows
      → IsLink a c r
      → IsLink b c s
      → a ≡ b

  abbrev pub IsAcyclic : List AssetRelationship → Type 0
  IsAcyclic rows = (a : Text) → ¬ Above rows a a

  Above-trans :
      (rows : List AssetRelationship) (a b c : Text)
      → Above rows a b
      → Above rows b c
      → Above rows a c
  Above-trans rows a b c x (link _ _ r m l) = chain a b c r x m l
  Above-trans rows a b c x (chain _ d _ r y m l) = chain a d c r (Above-trans rows a b d x y) m l

  pub nearest_parent :
      (rows : List AssetRelationship) (a c : Text)
      → Above rows a c
      → (b : Text) × (r : AssetRelationship) × In r rows × IsLink b c r × ((a ≡ b) ⊎ Above rows a b)
  nearest_parent rows a c (link _ _ r m l) = (a, r, m, l, inl refl)
  nearest_parent rows a c (chain _ b _ r up m l) = (b, r, m, l, inr up)

  module _ (rows : List AssetRelationship) (n : AssetRelationship) where
    -- A path that uses the new row goes down to its source and on from its target.
    Through : Text → Text → Type 0
    Through a b =
        ((a ≡ n.source_asset_id) ⊎ Above rows a n.source_asset_id)
        × ((n.target_asset_id ≡ b) ⊎ Above rows n.target_asset_id b)

    extend :
        (a b c : Text) (r : AssetRelationship)
        → Through a b
        → In r rows
        → IsLink b c r
        → Through a c
    unfolding Through
    extend a b c r (up, inl e) m l =
        (up, inr (link n.target_asset_id c r m (subst (λ k. IsLink k c r) (sym e) l)))
    extend a b c r (up, inr down) m l = (up, inr (chain n.target_asset_id b c r down m l))

    abbrev pub IsNew : Type 0
    IsNew = IsLink n.source_asset_id n.target_asset_id n

    own_link :
        (a b : Text) (r : AssetRelationship)
        → r ≡ n
        → IsLink a b r
        → IsNew × (a ≡ n.source_asset_id) × (n.target_asset_id ≡ b)
    own_link a b r e l =
        let k = subst (IsLink a b) e l in
        (record { home = k.home; upper = refl; lower = refl; kind = k.kind }, sym k.upper, k.lower)

    Above-append :
        (a b : Text) → Above (rows ++ n ∷ []) a b → Above rows a b ⊎ (IsNew × Through a b)
    unfolding Through
    Above-append a b (link _ _ r m l) = elim (In-append r rows (n ∷ []) m) [
      | inl i ↦ inl (link a b r i l)
      | inr (inl e) ↦ let (k, up, down) = own_link a b r e l in inr (k, (inl up, inl down))
      | inr (inr i) ↦ absurd i
    ]
    Above-append a c (chain _ b _ r up m l) = elim (Above-append a b up) [
      | inl old ↦ elim (In-append r rows (n ∷ []) m) [
        | inl i ↦ inl (chain a b c r old i l)
        | inr (inl e) ↦
            let (k, top, down) = own_link b c r e l in
            inr (k, (inr (subst (Above rows a) top old), inl down))
        | inr (inr i) ↦ absurd i
      ]
      | inr (k, through) ↦ elim (In-append r rows (n ∷ []) m) [
        | inl i ↦ inr (k, extend a b c r through i l)
        | inr (inl e) ↦ let (k', top, down) = own_link b c r e l in inr (k, (through.0, inl down))
        | inr (inr i) ↦ absurd i
      ]
    ]

    -- A new link whose target is not its source and not above it closes no cycle.
    pub append-IsAcyclic :
        IsAcyclic rows
        → (IsNew
            → (n.source_asset_id ≢ n.target_asset_id)
              × (¬ Above rows n.target_asset_id n.source_asset_id))
        → IsAcyclic (rows ++ n ∷ [])
    unfolding Through
    append-IsAcyclic old free a up = elim (Above-append a a up) [
      | inl before ↦ old a before
      | inr (k, through) ↦ let (differ, above) = free k in closed differ above through.0 through.1
    ]
      where
        closed :
            (n.source_asset_id ≢ n.target_asset_id)
            → (¬ Above rows n.target_asset_id n.source_asset_id)
            → (a ≡ n.source_asset_id) ⊎ Above rows a n.source_asset_id
            → (n.target_asset_id ≡ a) ⊎ Above rows n.target_asset_id a
            → ⊥
        closed differ above (inl e) (inl f) = differ (sym (f ∙ e))
        closed differ above (inl e) (inr down) = above (subst (Above rows n.target_asset_id) e down)
        closed differ above (inr u) (inl f) =
            above (subst (λ z. Above rows z n.source_asset_id) (sym f) u)
        closed differ above (inr u) (inr down) =
            above (Above-trans rows n.target_asset_id a n.source_asset_id down u)

module _ (tenant : Text) (rows : List AssetRelationship) (n : AssetRelationship) where
  pub append-HasOneParent :
      HasOneParent tenant rows
      → ((a : Text) (r : AssetRelationship) → In r rows → ¬ IsLink tenant a n.target_asset_id r)
      → HasOneParent tenant (rows ++ n ∷ [])
  append-HasOneParent one orphan a b c r s i j k l =
      sides a b c r s k l (In-append r rows (n ∷ []) i) (In-append s rows (n ∷ []) j)
    where
      sides :
          (a b c : Text) (r s : AssetRelationship)
          → IsLink tenant a c r
          → IsLink tenant b c s
          → In r rows ⊎ In r (n ∷ [])
          → In s rows ⊎ In s (n ∷ [])
          → a ≡ b
      sides a b c r s k l (inl i) (inl j) = one a b c r s i j k l
      sides a b c r s k l (inl i) (inr (inl e)) =
          let down = sym l.lower ∙ ap (λ (x : AssetRelationship). x.target_asset_id) e in
          absurd (orphan a r i (subst (λ z. IsLink tenant a z r) down k))
      sides a b c r s k l (inr (inl e)) (inl j) =
          let down = sym k.lower ∙ ap (λ (x : AssetRelationship). x.target_asset_id) e in
          absurd (orphan b s j (subst (λ z. IsLink tenant b z s) down l))
      sides a b c r s k l (inl i) (inr (inr j)) = absurd j
      sides a b c r s k l (inr (inl e)) (inr (inr j)) = absurd j
      sides a b c r s k l (inr (inr i)) j = absurd i
      sides a b c r s k l (inr (inl e)) (inr (inl f)) =
          sym k.upper ∙ ap (λ (x : AssetRelationship). x.source_asset_id) (e ∙ sym f) ∙ l.upper
