-- ===== src/Tests/Findings.antt =====
-- Examples for internal/controller/srepolicy_controller.go.

use mathlib.Core.List.{Memᴰ, Perm}
use sre_operator.Common.{
  arith, ℕ, ◌≤◌, ◌<◌, ◌≡◌, ◌↔◌, true, none, some, List, [], ◌∷◌, Text, str, ◌==◌, pos, count,
  if◌then◌else◌,
}
use sre_operator.Api.Enums.{SeverityLevel, CheckCategory, RemediationAction}
use sre_operator.Api.Types.{CheckResult, CheckSpec, SrePolicyStatus}
use sre_operator.Controller.Findings.{sort_findings_by_priority, cap_findings, count_by_severity}
use sre_operator.Controller.Findings.Sorted.{IsSorted, of_rank, sort_findings-stable}
use sre_operator.Controller.Findings.Capped.{IsCapped, cap_findings-IsCapped}
use sre_operator.Controller.Findings.Counted.{
  first_reports, of_status, Reports, count_by_severity_lem,
}
use sre_operator.Controller.Conditions.{set_condition}
use sre_operator.Controller.Conditions.Upsert.{get_condition, condition_types, set_condition_lem}
use sre_operator.Controller.Interval.{minimum_interval, Asks, minimum_interval_iff}

abbrev healthy : CheckResult
healthy = record {
  check_name = str "pods";
  category = CheckCategory.vm;
  resource_ref = str "vm/a";
  status = str "Healthy";
  severity = SeverityLevel.info;
  message = [];
  last_checked = none;
  trace_id = [];
  remediation_applied = none;
  remediation_attempts = 0;
  runbook_url = [];
}

abbrev pub failed : CheckResult
failed = record healthy { status = str "Failed"; severity = SeverityLevel.critical }

-- A failure behind a healthy report of the same resource.
abbrev two_findings : List CheckResult
two_findings = healthy ∷ failed ∷ []

sort_findings-stable_example :
    IsSorted (sort_findings_by_priority two_findings)
    × Perm (sort_findings_by_priority two_findings) two_findings
    × ((r : ℕ) → of_rank r (sort_findings_by_priority two_findings) ≡ of_rank r two_findings)
sort_findings-stable_example = sort_findings-stable two_findings

cap_findings-IsCapped_example :
    (dropped : List CheckResult) × IsCapped two_findings (cap_findings two_findings).0 dropped
cap_findings-IsCapped_example = cap_findings-IsCapped two_findings

count_by_severity_lem_example :
    let c = count_by_severity two_findings in
    let firsts = first_reports [] two_findings in
    ((c.healthy ≡ of_status (str "Healthy") firsts)
      × (c.degraded ≡ of_status (str "Degraded") firsts)
      × (c.failed ≡ of_status (str "Failed") firsts))
    × ((0 < c.failed) ↔ Reports (str "Failed") [] two_findings)
count_by_severity_lem_example = count_by_severity_lem two_findings

abbrev pub no_status : SrePolicyStatus
no_status = record {
  findings = [];
  active_workflows = [];
  last_scan_time = none;
  next_scan_time = none;
  total_checks = pos 0;
  remediations_applied = pos 0;
  observed_generation = pos 0;
  healthy_count = pos 0;
  degraded_count = pos 0;
  failed_count = pos 0;
  phase = [];
  conditions = [];
  ocp_cluster_healthy = none;
  firing_alert_count = pos 0;
  firing_alert_names = [];
  observability_endpoint_reachable = none;
}

set_condition_lem_example :
    let after = set_condition 7 (str "Ready") (str "True") (str "Done") [] no_status in
    ((t : Text)
      → get_condition t after.conditions ≡ (
          if str "Ready" == t
          then some (record {
            type = str "Ready";
            status = str "True";
            reason = str "Done";
            message = [];
            last_transition_time = 7;
          })
          else none))
    × (((t : Text) → count t [] ≤ 1) → (t : Text) → count t (condition_types after.conditions) ≤ 1)
set_condition_lem_example = set_condition_lem 7 (str "Ready") (str "True") (str "Done") [] no_status

abbrev pub every_45 : CheckSpec
every_45 = record {
  name = str "pods";
  category = CheckCategory.vm;
  enabled = true;
  severity = SeverityLevel.critical;
  remediation = RemediationAction.restart;
  remediation_workflow = none;
  runbook_url = [];
  interval_seconds = pos 45;
}

minimum_interval_iff_example :
    let specs = every_45 ∷ [] in
    (30 ≤ minimum_interval specs)
    × ((40 ≤ minimum_interval specs)
        ↔ ((40 ≤ 60) × ((n : ℕ) (s : CheckSpec) → Memᴰ s specs → Asks n s → 40 ≤ n)))
minimum_interval_iff_example = minimum_interval_iff (every_45 ∷ []) 40 (omega arith)
