-- ===== src/Workflows/Actions/Others.antt =====
-- The executors that change an asset, make a notification and drive an SLA target:
-- change-asset-status-action.executor.ts, create-notification-action.executor.ts and
-- sla-action.executor.ts of apps/api/src/workflows/runtime/action-executors.
use Prim.Native.String.{String}
use support_desk.Assets.{Asset, is_live}
use support_desk.Assets.Lifecycle.{
  LifecycleState, draft, in_stock, assigned, in_repair, retired, disposed, lost, archived, state_eq,
  is_allowed_asset_transition,
}
use support_desk.Base.{
  ℕ, ◌+◌, Text, codes, text_eq, Bool, true, false, ◌&&◌, Option, none, some, List, [], ◌∷◌, ◌++◌,
  ◌==◌, or_else, any, find, update_where, if◌then◌else◌, Result, ok, ◌>>=◌, ◌>>◌, guard,
}
use support_desk.Base.Json.{Json, null, Fields, get, property, text_of}
use support_desk.Workflows.Tables.{Domain}
use support_desk.Workflows.Actions.{
  NotificationIntent, SlaTargetType, response, resolution, SlaTargetState, running, paused, met,
  SlaTarget, AutomatedHistory, Rows, ActionFresh, Executor, or_option, or_fail, non_empty,
  first_text, subject_id, ticket_id_of, automation_audit, automation_event, publish,
}
use support_desk.Workflows.Actions.Tickets.{named}

abbrev pub lifecycle_names : List (String × LifecycleState)
lifecycle_names =
    ("DRAFT", draft)
    ∷ ("IN_STOCK", in_stock)
    ∷ ("ASSIGNED", assigned)
    ∷ ("IN_REPAIR", in_repair)
    ∷ ("RETIRED", retired)
    ∷ ("DISPOSED", disposed)
    ∷ ("LOST", lost)
    ∷ ("ARCHIVED", archived)
    ∷ []

abbrev history_entry :
    (tenant execution asset : Text) → (from to : LifecycleState) → AutomatedHistory
history_entry tenant execution asset from to = record {
  tenant_id = tenant;
  asset_id = asset;
  from_state = from;
  to_state = to;
  execution_id = execution;
}

abbrev moved_asset : (id : Text) → LifecycleState → AutomatedHistory → Rows → Rows
moved_asset id state entry rows = record rows {
  assets =
      update_where (λ (a : Asset). text_eq a.id id)
        (λ a. record a { lifecycle_state = state; version = a.version + 1 }) rows.assets;
  asset_history = rows.asset_history ++ entry ∷ [];
}

abbrev is_live_target : SlaTargetState → Bool
is_live_target running = true
is_live_target paused = true
is_live_target _ = false

abbrev type_eq : SlaTargetType → SlaTargetType → Bool
type_eq response response = true
type_eq resolution resolution = true
type_eq _ _ = false

-- `completedAt`, MET
abbrev pub stopped_target : ℕ → SlaTarget → SlaTarget
stopped_target now t = record t { state = met; completed_at = some now; version = t.version + 1 }

-- RUNNING, not paused
abbrev pub started_target : SlaTarget → SlaTarget
started_target t = record t { state = running; paused_at = none; version = t.version + 1 }

-- The unique key of an intent.
abbrev is_intent : (tenant execution : Text) → ℕ → (recipient : Text) → NotificationIntent → Bool
is_intent tenant execution ordinal recipient i =
    text_eq i.tenant_id tenant
    && text_eq i.source_id execution
    && i.ordinal == ordinal
    && text_eq i.recipient_user_id recipient

abbrev is_target : (tenant ticket : Text) → SlaTargetType → SlaTarget → Bool
is_target tenant ticket type t =
    text_eq t.tenant_id tenant
    && text_eq t.ticket_id ticket
    && type_eq t.type type
    && is_live_target t.state

abbrev pub driven : (change : SlaTarget → SlaTarget) → Option SlaTarget → Domain Rows → Domain Rows
driven change none d = d
driven change (some target) d = record d {
  rest = record d.rest {
    sla_targets = update_where (λ t. text_eq t.id target.id) change d.rest.sla_targets;
  };
}

module _ {N : Type 0} where
  unfoldable pub change_asset_status : ActionFresh → Executor N
  unfolding subject_id is_allowed_asset_transition
  change_asset_status f c d = do
    id ←
        or_fail (codes "Missing asset ID in workflow payload")
          (subject_id (codes "assetId") (codes "asset") c.payload)
    let raw = or_else (first_text (codes "lifecycleState" ∷ codes "toState" ∷ []) c.params) []
    state ←
        or_fail (codes "Invalid target lifecycle state '" ++ (raw ++ codes "'"))
          (named lifecycle_names raw)
    asset ←
        or_fail (codes "Asset " ++ (id ++ codes " not found for tenant"))
          (find (is_live c.tenant_id id) d.rest.assets)
    if state_eq asset.lifecycle_state state
        then ok d
        else guard (is_allowed_asset_transition asset.lifecycle_state state)
            (codes "Lifecycle transition is not allowed")
          >> publish f (automation_audit c "asset.status_changed" "asset" id)
              (automation_event c "asset.status_changed" "asset" id "change_asset_status")
              (moved_asset id state
                (history_entry c.tenant_id c.execution_id id asset.lifecycle_state state) d.rest)
              d

  -- `(v ?? fallback) as string`: a value that is no text is refused by the database.
  abbrev text_or : (invalid fallback : Text) → Option (Json N) → Result Text Text
  text_or invalid fallback none = ok fallback
  text_or invalid fallback (some null) = ok fallback
  text_or invalid fallback (some v) = or_fail invalid (text_of (some v))

  -- `recipientUserId`
  unfoldable pub recipient_of : (params payload : Fields N) → Option Text
  recipient_of params payload =
      let ticket = get (codes "ticket") payload in
      non_empty (
        or_option (first_text (codes "recipientUserId" ∷ codes "recipientId" ∷ []) params) (
          or_option (text_of (property ticket (codes "assigneeUserId"))) (
            or_option (text_of (property ticket (codes "requesterUserId")))
              (text_of (get (codes "requesterUserId") payload)))))

  unfoldable pub create_notification : ActionFresh → Executor N
  unfolding recipient_of
  create_notification f c d = do
    recipient ←
        or_fail (codes "Recipient user ID could not be determined")
          (recipient_of c.params c.payload)
    channel ← text_or f.invalid_message (codes "in_app") (get (codes "channel") c.params)
    template ←
        text_or f.invalid_message (codes "workflow_notification")
          (get (codes "templateKey") c.params)
    if any (is_intent c.tenant_id c.execution_id c.ordinal recipient) d.rest.notification_intents
        then ok d
        else ok (record d {
          rest = record d.rest {
            notification_intents =
                d.rest.notification_intents
                ++ record {
                  id = f.row_id;
                  tenant_id = c.tenant_id;
                  source_id = c.execution_id;
                  ordinal = c.ordinal;
                  recipient_user_id = recipient;
                  channel = channel;
                  template_key = template;
                }
                  ∷ [];
          };
        })

  -- `(params.targetType ?? RESPONSE) as SlaTargetType`
  abbrev target_type : (invalid : Text) → Option (Json N) → Result Text SlaTargetType
  target_type invalid none = ok response
  target_type invalid (some null) = ok response
  target_type invalid (some v) = text_or invalid [] (some v) >>= λ s.
      or_fail invalid (named (("RESPONSE", response) ∷ ("RESOLUTION", resolution) ∷ []) s)

  unfoldable pub sla_action : ActionFresh → Executor N
  unfolding subject_id
  sla_action f c d = do
    id ← or_fail (codes "Missing ticket ID for SLA action") (ticket_id_of c.payload)
    type ← target_type f.invalid_message (get (codes "targetType") c.params)
    ok (
        driven
          (if text_eq c.action_type (codes "sla_stop")
            then stopped_target f.fresh.now
            else started_target)
          (find (is_target c.tenant_id id type) d.rest.sla_targets) d)
