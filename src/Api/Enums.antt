-- ===== src/Api/Enums.antt =====
-- The string types of api/v1alpha1/srepolicy_types.go that have named constants. `other t` is a text
-- `t` that is none of the constants; the API server does not refuse it. `unset` is the empty text
-- where the source tests for it.
use sre_operator.Common.{Text, str}

pub data SeverityLevel : Type 0 where
  critical warning info : SeverityLevel
  other : Text → SeverityLevel

pub data CheckCategory : Type 0 where
  logs ocp_cluster prometheus vm : CheckCategory
  other : Text → CheckCategory

pub data RemediationAction : Type 0 where
  none alert diagnose restart migrate drain scale evict : RemediationAction
  diagnose_logs diagnose_resource_status diagnose_exec_command : RemediationAction
  diagnose_node_journal diagnose_prometheus : RemediationAction
  delete_resource patch_resource scale_deployment virtctl_action node_systemctl : RemediationAction
  other : Text → RemediationAction

pub data RunCondition : Type 0 where
  unset on_success on_failure always : RunCondition
  other : Text → RunCondition

pub data StepState : Type 0 where
  unset pending running succeeded failed skipped : StepState
  other : Text → StepState

-- `string(level)` and `string(category)`.
unfoldable pub severity_text : SeverityLevel → Text
severity_text SeverityLevel.critical = str "Critical"
severity_text SeverityLevel.warning = str "Warning"
severity_text SeverityLevel.info = str "Info"
severity_text (SeverityLevel.other t) = t

unfoldable pub category_text : CheckCategory → Text
category_text CheckCategory.logs = str "Logs"
category_text CheckCategory.ocp_cluster = str "OCPCluster"
category_text CheckCategory.prometheus = str "Prometheus"
category_text CheckCategory.vm = str "VM"
category_text (CheckCategory.other t) = t
