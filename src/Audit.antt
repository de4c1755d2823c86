-- ===== src/Audit.antt =====
-- The rows of audit_events that the services write (apps/api/src/audit/audit-event.ts,
-- buildAuditEventData), without their metadata and the hashes of the request.
use Prim.Native.String.{String}
use support_desk.Base.{Text, Option}

pub data AuditOutcome : Type 0 where
  success failure denied : AuditOutcome

pub record AuditEvent : Type 0 where
  pub action : String
  pub actor_user_id : Option Text
  pub correlation_id : Option Text
  pub outcome : AuditOutcome
  pub target_id : Option Text
  pub target_type : String
  pub tenant_id : Text
