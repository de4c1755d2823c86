-- ===== src/Assets.antt =====
-- The inventory of assets, apps/api/src/assets/assets.repository.ts: the rows it keeps, and its
-- transactions on them. The number of an asset stands for its reference, AST- and six digits or more;
-- the columns that only describe an asset (serial number, vendor, cost, ...) are left out, as are the
-- metadata of histories and audits and the payloads of events.
pub mod Lifecycle
pub mod Operations
pub mod Assignment
pub mod Relationships
pub mod Hierarchy
pub mod Moves
mod Tests
use Prim.Native.String.{String}
use support_desk.Base.{
  ℕ, ◌+◌, Text, codes, text_eq, trim, Bool, true, false, not, ◌&&◌, Option, none, some, List, [],
  ◌∷◌, ◌++◌, if◌then◌else◌, or_else, any, find, filter, length, update_where, is_some, Result, ok,
  err, ◌>>=◌, ◌>>◌,
}
use support_desk.Audit.{AuditEvent, success}
use support_desk.Outbox.{Fresh, OutboxEvent, OutboxError, append_outbox_event}
use support_desk.Assets.Lifecycle.{
  LifecycleState, draft, in_stock, assigned, state_eq, is_allowed_asset_transition,
}

pub data AssignmentKind : Type 0 where
  to_user to_department to_location : AssignmentKind

pub data RelationshipType : Type 0 where
  parent_child depends_on connected_to installed_on hosted_on license_assigned_to : RelationshipType

pub record Asset : Type 0 where
  pub id : Text
  pub tenant_id : Text
  pub asset_number : ℕ
  pub name : Text
  pub asset_type_id : Text
  pub category_id : Option Text
  pub lifecycle_state : LifecycleState
  pub owner_user_id : Option Text
  pub assigned_user_id : Option Text
  pub assigned_department : Option Text
  pub location_id : Option Text
  pub notes : Option Text
  pub version : ℕ
  pub deleted_at : Option ℕ

pub record AssetAssignment : Type 0 where
  pub id : Text
  pub tenant_id : Text
  pub asset_id : Text
  pub kind : AssignmentKind
  pub assigned_to_user_id : Option Text
  pub assigned_department : Option Text
  pub assigned_location_id : Option Text
  pub assigned_by_user_id : Text
  pub assigned_at : ℕ
  pub reason : Option Text
  pub unassigned_at : Option ℕ
  pub unassigned_by_user_id : Option Text

pub record AssetRelationship : Type 0 where
  pub id : Text
  pub tenant_id : Text
  pub source_asset_id : Text
  pub target_asset_id : Text
  pub relationship_type : RelationshipType
  pub note : Option Text
  pub created_by_user_id : Text

pub record HistoryEntry : Type 0 where
  pub tenant_id : Text
  pub asset_id : Text
  pub action : String
  pub from_state : Option LifecycleState
  pub to_state : Option LifecycleState
  pub actor_user_id : Text
  pub comment : Option Text

pub record Inventory : Type 0 where
  pub assets : List Asset
  pub assignments : List AssetAssignment
  pub relationships : List AssetRelationship
  pub history : List HistoryEntry
  pub audits : List AuditEvent
  pub outbox : List OutboxEvent

pub data AssetError : Type 0 where
  same_state self_reference cycle_detected not_retrieved : AssetError
  not_allowed : (from to : LifecycleState) → AssetError
  outbox_error : OutboxError → AssetError

-- Who acts, for which tenant, and with which audit envelope, and what the runtime supplies: the id of
-- the row that is made, and the ids and the time of `Fresh`.
pub record Caller : Type 0 where
  pub tenant_id : Text
  pub actor_user_id : Text
  pub correlation_id : Option Text
  pub audit_action : String
  pub audit_target_type : String
  pub row_id : Text
  pub fresh : Fresh

abbrev pub Tx : Type 0 → Type 0
Tx A = Inventory → Result AssetError (Inventory × A)

abbrev lift_outbox : Inventory → Result OutboxError (List OutboxEvent) → Result AssetError Inventory
lift_outbox db (ok rows) = ok (record db { outbox = rows })
lift_outbox db (err e) = err (outbox_error e)

-- `appendOutbox`
abbrev pub append_outbox :
    Caller → (event_type : String) → (id : Text) → Inventory → Result AssetError Inventory
append_outbox c event_type id db = lift_outbox db (
    append_outbox_event c.fresh
      (record {
        tenant_id = c.tenant_id;
        event_type = event_type;
        aggregate_type = "asset";
        aggregate_id = id;
        correlation_id = c.correlation_id;
        causation_id = none;
        automation_depth = none;
        dedupe_key = none;
      })
      db.outbox)

-- `writeHistory`
abbrev pub write_history :
    Caller
    → (id : Text) → (action : String) → (from to : Option LifecycleState) → Option Text
    → Inventory
    → Inventory
write_history c id action from to comment db = record db {
  history =
      db.history
      ++ record {
        tenant_id = c.tenant_id;
        asset_id = id;
        action = action;
        from_state = from;
        to_state = to;
        actor_user_id = c.actor_user_id;
        comment = comment;
      }
        ∷ [];
}

-- `writeAudit`
abbrev pub write_audit : Caller → (id : Text) → Inventory → Inventory
write_audit c id db = record db {
  audits =
      db.audits
      ++ record {
        action = c.audit_action;
        actor_user_id = some c.actor_user_id;
        correlation_id = c.correlation_id;
        outcome = success;
        target_id = some id;
        target_type = c.audit_target_type;
        tenant_id = c.tenant_id;
      }
        ∷ [];
}

-- `where: { tenantId, id, deletedAt: null }`
abbrev pub is_live : (tenant id : Text) → Asset → Bool
is_live tenant id a = text_eq a.tenant_id tenant && text_eq a.id id && not (is_some a.deleted_at)

unfoldable pub find_one : (tenant id : Text) → Inventory → Option Asset
find_one tenant id db = find (is_live tenant id) db.assets

-- `value?.trim() || null`
abbrev pub non_blank : Text → Option Text
non_blank [] = none
non_blank (c ∷ text) = some (c ∷ text)

abbrev pub trimmed : Option Text → Option Text
trimmed none = none
trimmed (some text) = non_blank (trim text)

-- The rows that the WHERE selects are updated, and the history and the audit are written.
abbrev pub save_where :
    Caller
    → (id : Text) → (Asset → Bool)
    → (action : String) → (from to : LifecycleState) → Option Text
    → (Asset → Asset)
    → Inventory
    → Inventory
save_where c id p action from to comment f db = write_audit c id (
    write_history c id action (some from) (some to) comment
      (record db { assets = update_where p f db.assets }))

abbrev pub save :
    Caller
    → (id : Text) → (action : String) → (from to : LifecycleState) → Option Text
    → (Asset → Asset)
    → Inventory
    → Inventory
save c id = save_where c id (is_live c.tenant_id id)
