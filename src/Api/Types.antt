-- ===== src/Api/Types.antt =====
-- The structs of api/v1alpha1/srepolicy_types.go. A pointer is an `Option`, a map a `Dict`, an
-- `int32` a `ℤ`, a time the number of nanoseconds since the epoch. No code computes with the two
-- `float64` thresholds of a metric query, which are kept as bit patterns. Of `metav1.ObjectMeta` the
-- fields that the program reads or writes are kept.
use sre_operator.Common.{ℕ, ℤ, Bool, Option, List, Text, Dict}
use sre_operator.Api.Enums.{
  SeverityLevel, CheckCategory, RemediationAction, RunCondition, StepState,
}

abbrev pub Time : Type 0
Time = ℕ

pub record RemediationStep : Type 0 where
  pub name : Text
  pub action : RemediationAction
  pub depends_on : List Text
  pub run_condition : RunCondition
  pub arguments : Dict Text

pub record RemediationWorkflow : Type 0 where
  pub steps : List RemediationStep

pub record CheckResult : Type 0 where
  pub check_name : Text
  pub category : CheckCategory
  pub resource_ref : Text
  pub status : Text
  pub severity : SeverityLevel
  pub message : Text
  pub last_checked : Option Time
  pub trace_id : Text
  pub remediation_applied : Option RemediationAction
  pub remediation_attempts : ℕ
  pub runbook_url : Text

pub record CheckSpec : Type 0 where
  pub name : Text
  pub category : CheckCategory
  pub enabled : Bool
  pub severity : SeverityLevel
  pub remediation : RemediationAction
  pub remediation_workflow : Option RemediationWorkflow
  pub runbook_url : Text
  pub interval_seconds : ℤ

pub record LogCollectionSpec : Type 0 where
  pub enabled : Bool
  pub collect_vm_pod_logs : Bool
  pub collect_operator_logs : Bool
  pub tail_lines : ℤ
  pub since_seconds : ℤ
  pub on_alert_only : Bool
  pub persist_to_config_map : Bool
  pub error_patterns : List Text

pub record ObservabilitySpec : Type 0 where
  pub tracing_enabled : Bool
  pub metrics_enabled : Bool
  pub logs_enabled : Bool
  pub otel_endpoint : Text

pub record OcpClusterSpec : Type 0 where
  pub enabled : Bool
  pub check_cluster_operators : Bool
  pub check_cluster_version : Bool
  pub check_machine_config_pools : Bool
  pub remediation : RemediationAction
  pub runbook_url : Text

pub record AlertTrigger : Type 0 where
  pub name : Text
  pub alert_name : Text
  pub enabled : Bool
  pub remediation : RemediationAction
  pub remediation_workflow : Option RemediationWorkflow
  pub max_firing_duration_minutes : ℤ
  pub collect_logs : Bool
  pub collect_ocp_cluster_state : Bool
  pub runbook_url : Text
  pub label_selectors : Dict Text

pub record MetricQuery : Type 0 where
  pub name : Text
  pub expr : Text
  pub description : Text
  pub operator : Text
  pub warning_threshold : ℕ
  pub critical_threshold : ℕ
  pub enabled : Bool
  pub remediation : RemediationAction
  pub runbook_url : Text

pub record PrometheusSpec : Type 0 where
  pub enabled : Bool
  pub alert_triggers : List AlertTrigger
  pub metric_queries : List MetricQuery

pub record NotificationsSpec : Type 0 where
  pub events_enabled : Bool

pub record SrePolicySpec : Type 0 where
  pub target_namespaces : List Text
  pub checks : List CheckSpec
  pub paused : Bool
  pub ocp_cluster : Option OcpClusterSpec
  pub prometheus : Option PrometheusSpec
  pub log_collection : Option LogCollectionSpec
  pub notifications : Option NotificationsSpec

pub record WorkflowStepStatus : Type 0 where
  pub name : Text
  pub state : StepState
  pub message : Text
  pub start_time : Option Time
  pub finish_time : Option Time

pub record WorkflowExecutionStatus : Type 0 where
  pub id : Text
  pub workflow_name : Text
  pub target_resource : Text
  pub state : StepState
  pub steps : List WorkflowStepStatus
  pub start_time : Option Time

-- `metav1.Condition`, and `metav1.ConditionStatus` as it is written.
pub record Condition : Type 0 where
  pub type : Text
  pub status : Text
  pub reason : Text
  pub message : Text
  pub last_transition_time : Time

pub record SrePolicyStatus : Type 0 where
  pub findings : List CheckResult
  pub active_workflows : List WorkflowExecutionStatus
  pub last_scan_time : Option Time
  pub next_scan_time : Option Time
  pub total_checks : ℤ
  pub remediations_applied : ℤ
  pub observed_generation : ℤ
  pub healthy_count : ℤ
  pub degraded_count : ℤ
  pub failed_count : ℤ
  pub phase : Text
  pub conditions : List Condition
  pub ocp_cluster_healthy : Option Bool
  pub firing_alert_count : ℤ
  pub firing_alert_names : List Text
  pub observability_endpoint_reachable : Option Bool

pub record ObjectMeta : Type 0 where
  pub name : Text
  pub namespace : Text
  pub finalizers : List Text
  pub deletion_timestamp : Option Time
  pub generation : ℤ

pub record SrePolicy : Type 0 where
  pub metadata : ObjectMeta
  pub spec : SrePolicySpec
  pub status : SrePolicyStatus
