-- ===== src/Workflows/Actions/Registry.antt =====
-- The executors by the type of their action, the constructor of WorkflowExecutorService
-- (apps/api/src/workflows/runtime/workflow-executor.service.ts).
use Prim.Native.String.{String}
use support_desk.Base.{Text, Option, List, [], ◌∷◌}
use support_desk.Workflows.Actions.{ActionFresh, Executor}
use support_desk.Workflows.Actions.Others.{change_asset_status, create_notification, sla_action}
use support_desk.Workflows.Actions.Tickets.{named, change_status, assign, add_comment}

abbrev pub executor_table : {N : Type 0} → ActionFresh → List (String × Executor N)
executor_table f =
    ("change_status", change_status f)
    ∷ ("change_asset_status", change_asset_status f)
    ∷ ("assign", assign f)
    ∷ ("add_internal_comment", add_comment f)
    ∷ ("create_notification", create_notification f)
    ∷ ("sla_start", sla_action f)
    ∷ ("sla_stop", sla_action f)
    ∷ []

unfoldable pub executors : {N : Type 0} → ActionFresh → Text → Option (Executor N)
executors {N} f action_type = named (executor_table f) action_type
