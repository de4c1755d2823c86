-- ===== src/Assets/Relationships/Walk.antt =====
-- The walk over the parents of an asset ends (assertNoParentCycle of assets.repository.ts).
use support_desk.Base.{
  ℕ, zero, suc, ◌≤◌, ◌<◌, ◌≡◌, ◌≢◌, refl, sym, subst, ◌⊎◌, inl, inr, Text, text_eq, text_eq_refl,
  true, false, Bool-cases, ◌||◌, Option-cases, List, [], ◌∷◌, In, find, length, if◌then◌else◌,
  arith,
}
use support_desk.Base.Members.{find-In}
use support_desk.Assets.{AssetRelationship}
use support_desk.Assets.Relationships.{
  is_parent_of, is_seen, WalkResult, no_cycle, cycle_found, out_of_fuel, walk_parents,
  find_parent_cycle,
}

-- The number of relationships whose source the walk has not seen yet.
unseen : List Text → List AssetRelationship → ℕ
unseen seen [] = 0
unseen seen (r ∷ rows) =
    let rest = unseen seen rows in if is_seen seen r.source_asset_id then rest else suc rest

unseen-le-length :
    (seen : List Text) (rows : List AssetRelationship) → unseen seen rows ≤ length rows
unfolding unseen
unseen-le-length seen [] = omega arith
unseen-le-length seen (r ∷ rows) = ground (arith, unseen-le-length seen rows)

unseen-add_le :
    (id : Text) (seen : List Text) (rows : List AssetRelationship)
    → unseen (id ∷ seen) rows ≤ unseen seen rows
unfolding unseen
unseen-add_le id seen [] = omega arith
unseen-add_le id seen (r ∷ rows) = ground (arith, unseen-add_le id seen rows)

-- A source that is seen for the first time makes the number smaller.
unseen-add_lt :
    (r : AssetRelationship) (seen : List Text) (rows : List AssetRelationship)
    → In r rows
    → is_seen seen r.source_asset_id ≡ false
    → unseen (r.source_asset_id ∷ seen) rows < unseen seen rows
unfolding unseen
unseen-add_lt r seen [] m fresh = absurd m
unseen-add_lt r seen (x ∷ rows) (inl e) fresh =
    let here : text_eq x.source_asset_id r.source_asset_id ≡ true =
      subst (λ (y : AssetRelationship). text_eq x.source_asset_id y.source_asset_id ≡ true) (sym e)
        (text_eq_refl x.source_asset_id) in
    let unmet : is_seen seen x.source_asset_id ≡ false =
      subst (λ (y : AssetRelationship). is_seen seen y.source_asset_id ≡ false) e fresh in
    ground (arith, unseen-add_le r.source_asset_id seen rows)
unseen-add_lt r seen (x ∷ rows) (inr m) fresh = ground (arith, unseen-add_lt r seen rows m fresh)

walk_parents-ends :
    (tenant child : Text) (rows : List AssetRelationship) (fuel : ℕ) (seen : List Text)
    (cursor : Text)
    → unseen seen rows < fuel
    → walk_parents tenant child rows fuel seen cursor ≢ out_of_fuel
unfolding walk_parents
walk_parents-ends tenant child rows zero seen cursor less h = absurd (omega arith)
walk_parents-ends tenant child rows (suc fuel) seen cursor less h =
    elim (Option-cases (find (is_parent_of tenant cursor) rows)) [
      | inl root ↦ let x = rw (walk_parents, root) at h in cc
      | inr (r, there) ↦
          elim (Bool-cases (text_eq r.source_asset_id child || is_seen seen r.source_asset_id)) [
            | inl stop ↦ let x = rw (walk_parents, there, stop) at h in cc
            | inr go ↦
                let fresh : is_seen seen r.source_asset_id ≡ false = ground arith in
                let fewer =
                  unseen-add_lt r seen rows (find-In (is_parent_of tenant cursor) r rows there).0
                    fresh in
                walk_parents-ends tenant child rows fuel (r.source_asset_id ∷ seen)
                  r.source_asset_id (omega (arith, fewer, less)) (rw (walk_parents, there, go) at h)
          ]
    ]

-- The check for a cycle of parents ends: with one round more than there are relationships, whatever
-- they are, the walk comes to a result, either that there is no cycle or that there is one.
pub find_parent_cycle_ends :
    (tenant parent child : Text) (rows : List AssetRelationship)
    → (find_parent_cycle tenant parent child rows ≡ no_cycle)
      ⊎ (find_parent_cycle tenant parent child rows ≡ cycle_found)
unfolding find_parent_cycle
find_parent_cycle_ends tenant parent child rows =
    decided (walk_parents tenant child rows (suc (length rows)) (parent ∷ []) parent) (
      walk_parents-ends tenant child rows (suc (length rows)) (parent ∷ []) parent
        (omega (arith, unseen-le-length (parent ∷ []) rows)))
  where
    decided : (w : WalkResult) → w ≢ out_of_fuel → (w ≡ no_cycle) ⊎ (w ≡ cycle_found)
    decided no_cycle h = inl refl
    decided cycle_found h = inr refl
    decided out_of_fuel h = absurd (h refl)
