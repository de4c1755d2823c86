-- ===== src/Assets/Moves.antt =====
-- How the operations move an asset through its lifecycle (update, transition, assign and unassign of
-- assets.repository.ts).
use Prim.Native.String.{String}
use support_desk.Base.{
  ◌+◌, ◌≡◌, refl, ap, ◌∙◌, ◌⊎◌, inl, inr, Text, Bool, true, false, Bool-cases, Option, none, some,
  List, find, update_where, if◌then◌else◌, Result, ok, err, ◌>>=◌, >>=-eq-ok, arith,
}
use support_desk.Base.Members.{find-In, In-any}
use support_desk.Base.Finds.{find-update_where}
use support_desk.Outbox.{OutboxEvent, OutboxError}
use support_desk.Assets.Lifecycle.{
  LifecycleState, draft, in_stock, assigned, in_repair, retired, disposed, lost, archived, state_eq,
  is_allowed_asset_transition,
}
use support_desk.Assets.{
  AssignmentKind, to_user, to_department, to_location, Asset, Inventory, AssetError, Caller,
  append_outbox, lift_outbox, is_live, find_one,
}
use support_desk.Assets.Operations.{
  is_live_in, UpdateAsset, updated_row, update, moved_row, carry_out_transition, transition,
}
use support_desk.Assets.Assignment.{
  AssignAsset, target_lifecycle, assigned_row, assign, unassigned_row, unassign,
}

-- The asset is there afterwards, one version on, and its state is the same or one that the table
-- allows next.
pub record IsMoved (tenant id : Text) (a : Asset) (db : Inventory) : Type 0 where
  pub after : Asset
  pub found : find_one tenant id db ≡ some after
  pub counted : after.version ≡ a.version + 1
  pub follows :
      (after.lifecycle_state ≡ a.lifecycle_state)
      ⊎ (is_allowed_asset_transition a.lifecycle_state after.lifecycle_state ≡ true)

lift_outbox-assets :
    (db db' : Inventory) (r : Result OutboxError (List OutboxEvent))
    → lift_outbox db r ≡ ok db'
    → db'.assets ≡ db.assets
lift_outbox-assets db db' (ok rows) h = ground arith
lift_outbox-assets db db' (err e) h = cc

abbrev reread : Caller → (id : Text) → Inventory → Result AssetError (Inventory × Option Asset)
reread c id db = ok (db, find_one c.tenant_id id db)

-- The event is appended without a change of the assets.
appended-assets :
    (c : Caller) (event_type : String) (id : Text) (written db' : Inventory) (r : Option Asset)
    → (append_outbox c event_type id written >>= reread c id) ≡ ok (db', r)
    → db'.assets ≡ written.assets
appended-assets c event_type id written db' r h =
    let (done, appended, e) = >>=-eq-ok (append_outbox c event_type id written) (reread c id) h in
    let same : db' ≡ done = ground arith in
    ap (λ (x : Inventory). x.assets) same ∙ lift_outbox-assets written done _ appended

find_one-is_live :
    (tenant id : Text) (a : Asset) (db : Inventory)
    → find_one tenant id db ≡ some a
    → is_live tenant id a ≡ true
unfolding find_one
find_one-is_live tenant id a db h = (find-In (is_live tenant id) a db.assets h).1

stored-IsMoved :
    (tenant id : Text) (q : Asset → Bool) (f : Asset → Asset) (a : Asset) (db db' : Inventory)
    → find_one tenant id db ≡ some a
    → ((x : Asset) → is_live tenant id (f x) ≡ is_live tenant id x)
    → q a ≡ true
    → db'.assets ≡ update_where q f db.assets
    → (f a).version ≡ a.version + 1
    → ((f a).lifecycle_state ≡ a.lifecycle_state)
      ⊎ (is_allowed_asset_transition a.lifecycle_state (f a).lifecycle_state ≡ true)
    → IsMoved tenant id a db'
unfolding find_one
stored-IsMoved tenant id q f a db db' there same hit rows counted follows = record {
  after = f a;
  found =
      ap (find (is_live tenant id)) rows
      ∙ find-update_where (is_live tenant id) q f db.assets a same there hit;
  counted = counted;
  follows = follows;
}

update-IsMoved :
    (c : Caller) (id : Text) (dto : UpdateAsset) (a : Asset) (db db' : Inventory) (r : Option Asset)
    → find_one c.tenant_id id db ≡ some a
    → update c id dto db ≡ ok (db', r)
    → IsMoved c.tenant_id id a db'
unfolding update
update-IsMoved c id dto a db db' r there h =
    let x = rw (update, there) at h in
    stored-IsMoved c.tenant_id id (is_live c.tenant_id id) (updated_row dto) a db db' there
      (λ y. refl) (find_one-is_live c.tenant_id id a db there) (ground arith) refl (inl refl)

unassign-IsMoved :
    (c : Caller) (id : Text) (a : Asset) (db db' : Inventory) (r : Option Asset)
    → find_one c.tenant_id id db ≡ some a
    → unassign c id db ≡ ok (db', r)
    → IsMoved c.tenant_id id a db'
unfolding unassign
unassign-IsMoved c id a db db' r there h =
    let x = rw (unassign, there) at h in
    stored-IsMoved c.tenant_id id (is_live c.tenant_id id) unassigned_row a db db' there (λ y. refl)
      (find_one-is_live c.tenant_id id a db there)
      (appended-assets c "asset.unassigned" id _ db' r x) refl (inl refl)

state_eq_refl : (s : LifecycleState) → state_eq s s ≡ true
state_eq_refl draft = refl
state_eq_refl in_stock = refl
state_eq_refl assigned = refl
state_eq_refl in_repair = refl
state_eq_refl retired = refl
state_eq_refl disposed = refl
state_eq_refl lost = refl
state_eq_refl archived = refl

-- The state that an assignment writes is the one that was there or one that the table allows next.
target_lifecycle-follows :
    (kind : AssignmentKind) (follow : Option Bool) (s : LifecycleState)
    → let next = target_lifecycle kind follow s in
      ((if state_eq next s then s else next) ≡ s)
      ⊎ (is_allowed_asset_transition s (if state_eq next s then s else next) ≡ true)
unfolding is_allowed_asset_transition
target_lifecycle-follows to_user none in_stock = inr refl
target_lifecycle-follows to_user (some true) in_stock = inr refl
target_lifecycle-follows to_user (some false) in_stock = inl refl
target_lifecycle-follows to_user follow draft = inl refl
target_lifecycle-follows to_user follow assigned = inl refl
target_lifecycle-follows to_user follow in_repair = inl refl
target_lifecycle-follows to_user follow retired = inl refl
target_lifecycle-follows to_user follow disposed = inl refl
target_lifecycle-follows to_user follow lost = inl refl
target_lifecycle-follows to_user follow archived = inl refl
target_lifecycle-follows to_department follow s = inl (rw (state_eq_refl s))
target_lifecycle-follows to_location follow s = inl (rw (state_eq_refl s))

assign-IsMoved :
    (c : Caller) (id : Text) (dto : AssignAsset) (a : Asset) (db db' : Inventory) (r : Option Asset)
    → find_one c.tenant_id id db ≡ some a
    → assign c id dto db ≡ ok (db', r)
    → IsMoved c.tenant_id id a db'
unfolding assign
assign-IsMoved c id dto a db db' r there h =
    let x = rw (assign, there) at h in
    stored-IsMoved c.tenant_id id (is_live c.tenant_id id) (assigned_row dto a.lifecycle_state) a db
      db' there (λ y. refl) (find_one-is_live c.tenant_id id a db there)
      (appended-assets c "asset.assigned" id _ db' r x) refl
      (target_lifecycle-follows dto.kind dto.transition_lifecycle a.lifecycle_state)

carry_out_transition-IsMoved :
    (c : Caller) (id : Text) (to : LifecycleState) (comment : Option Text) (a : Asset)
    (db db' : Inventory) (r : Option Asset)
    → find_one c.tenant_id id db ≡ some a
    → is_allowed_asset_transition a.lifecycle_state to ≡ true
    → carry_out_transition c id a.lifecycle_state to comment db ≡ ok (db', r)
    → IsMoved c.tenant_id id a db'
unfolding carry_out_transition find_one
carry_out_transition-IsMoved c id to comment a db db' r there allowed h =
    let live = find_one-is_live c.tenant_id id a db there in
    let hit : is_live_in c.tenant_id id a.lifecycle_state a ≡ true =
      rw (live, state_eq_refl a.lifecycle_state) in
    let met =
      In-any (is_live_in c.tenant_id id a.lifecycle_state) a db.assets
        (find-In (is_live c.tenant_id id) a db.assets there).0 hit in
    let x = rw met at h in
    stored-IsMoved c.tenant_id id (is_live_in c.tenant_id id a.lifecycle_state) (moved_row to) a db
      db' there (λ y. refl) hit (appended-assets c "asset.status_changed" id _ db' r x) refl
      (inr allowed)

transition-IsMoved :
    (c : Caller) (id : Text) (to : LifecycleState) (comment : Option Text) (a : Asset)
    (db db' : Inventory) (r : Option Asset)
    → find_one c.tenant_id id db ≡ some a
    → transition c id to comment db ≡ ok (db', r)
    → IsMoved c.tenant_id id a db' × (is_allowed_asset_transition a.lifecycle_state to ≡ true)
unfolding transition
transition-IsMoved c id to comment a db db' r there h =
    elim (Bool-cases (state_eq a.lifecycle_state to)) [
      | inl same ↦ let x = rw (transition, there, same) at h in cc
      | inr differ ↦ elim (Bool-cases (is_allowed_asset_transition a.lifecycle_state to)) [
        | inr no_way ↦ let x = rw (transition, there, differ, no_way) at h in cc
        | inl allowed ↦ (
          carry_out_transition-IsMoved c id to comment a db db' r there allowed
              (rw (transition, there, differ, allowed) at h),
          allowed,
        )
      ]
    ]

-- The lifecycle follows its table. Whenever update, assign, unassign or transition goes through on an
-- asset that is there, the asset is there afterwards, its version is one more, and its state is the
-- same or one that the table of transitions allows next; transition goes through only to a state that
-- the table allows.
pub lifecycle_follows_table :
    (c : Caller) (id : Text) (a : Asset) (db db' : Inventory) (r : Option Asset)
    → find_one c.tenant_id id db ≡ some a
    → ((dto : UpdateAsset) → update c id dto db ≡ ok (db', r) → IsMoved c.tenant_id id a db')
      × ((dto : AssignAsset) → assign c id dto db ≡ ok (db', r) → IsMoved c.tenant_id id a db')
      × (unassign c id db ≡ ok (db', r) → IsMoved c.tenant_id id a db')
      × ((to : LifecycleState) (comment : Option Text)
          → transition c id to comment db ≡ ok (db', r)
          → IsMoved c.tenant_id id a db'
            × (is_allowed_asset_transition a.lifecycle_state to ≡ true))
lifecycle_follows_table c id a db db' r there = (
  (λ dto. update-IsMoved c id dto a db db' r there),
  (λ dto. assign-IsMoved c id dto a db db' r there),
  unassign-IsMoved c id a db db' r there,
  (λ to comment. transition-IsMoved c id to comment a db db' r there),
)
