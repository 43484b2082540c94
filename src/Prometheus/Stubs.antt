-- ===== src/Prometheus/Stubs.antt =====
-- internal/prometheus/stubs.go. The watcher and the metric checker are stubs that find nothing.
use sre_operator.Common.{List, [], none, Text, str, ◌++◌}
use sre_operator.Api.Enums.{SeverityLevel, CheckCategory}
use sre_operator.Api.Types.{AlertTrigger, MetricQuery, CheckResult}

pub record AlertTriggerResult : Type 0 where
  pub alert_name : Text

unfoldable pub to_check_result : AlertTriggerResult → CheckResult
to_check_result a = record {
  check_name = str "alert-" ++ a.alert_name;
  category = CheckCategory.prometheus;
  resource_ref = str "alertmanager";
  status = str "Degraded";
  severity = SeverityLevel.critical;
  message = str "Alert triggered";
  last_checked = none;
  trace_id = [];
  remediation_applied = none;
  remediation_attempts = 0;
  runbook_url = [];
}

-- `Watcher.Evaluate` and `MetricChecker.EvaluateAll` return nil and no error.
unfoldable pub evaluate : List AlertTrigger → List AlertTriggerResult
evaluate triggers = []

unfoldable pub evaluate_all : List MetricQuery → List CheckResult
evaluate_all queries = []
