-- ===== src/Tests/Reconcile.antt =====
-- Examples for the control loop of internal/controller/srepolicy_controller.go.
use sre_operator.Common.{
  ◌≤◌, ◌<◌, ◌+◌, not, map, select, length, ◌++◌, arith, ◌≡◌, ◌↔◌, refl, true, false, none, some, [],
  ◌∷◌, str, ◌==◌, pos, All,
}
use sre_operator.Api.Enums.{SeverityLevel, category_text, RemediationAction, RunCondition}
use sre_operator.Api.Types.{
  CheckResult, ObservabilitySpec, SrePolicy, CheckSpec, OcpClusterSpec, RemediationStep,
}
use sre_operator.Api.Global.{SreGlobalConfig, GlobalPrometheusSpec}
use sre_operator.Remediation.Engine.{has_steps}
use sre_operator.Telemetry.{Provider, new_provider}
use sre_operator.Controller.Findings.{cap_findings, count_by_severity}
use sre_operator.Controller.Events.{EventType, event_of, emit_events}
use sre_operator.Controller.Events.Emitted.{emit_events-select}
use sre_operator.Controller.Reconcile.Protocol.{Keeps, run_cycle-Keeps}
use sre_operator.Controller.Reconcile.Counts.{final_status_counts}
use sre_operator.Controller.Gather.{prom_specs}
use sre_operator.Controller.Reconcile.Sessions.{run_cycle-reuses, run_cycle-connects_once}
use sre_operator.Controller.Checks.{Checker, Registry, run_built_in_checks, run_ocp_cluster_checks}
use sre_operator.Controller.Checks.Remediated.{gathered, IsOutcome, run_built_in_checks-IsOutcome}
use sre_operator.Controller.Checks.Workflows.{
  run_built_in_checks_workflows, run_ocp_cluster_checks_healthy_iff,
}
use sre_operator.Controller.Session.{Session, ensure_client}
use sre_operator.Controller.World.{World, found, not_found, stub_aggregator}
use sre_operator.Controller.Cycle.{
  panicked, finalizer_name, config_of, connect, connect_if, final_status,
}
use sre_operator.Controller.Reconcile.{run_cycle, reconcile}
use sre_operator.Controller.Reconcile.Ends.{EndsWell, run_cycle-EndsWell}
use sre_operator.Controller.Reconcile.Guards.{
  is_active, Releases, reconcile-panicked_iff, reconcile-Releases,
}
use sre_operator.Controller.Reconcile.Shipped.{shipped, LogsOnly, run_cycle-LogsOnly}
use sre_operator.Tests.Client.{net}
use sre_operator.Tests.Diagnostics.{env, spec}
use sre_operator.Tests.Findings.{no_status, every_45, failed}
use sre_operator.Tests.Rotation.{reports}

-- A checker that finds one failure.
abbrev checker : Checker
checker = record { name = str "vm"; run = λ spec. some (failed ∷ []) }

abbrev registry : Registry
registry = record { checkers = λ namespace category. checker ∷ [] }

run_built_in_checks-IsOutcome_example :
    IsOutcome
      (run_built_in_checks registry (every_45 ∷ []) (str "default" ∷ []))
      (gathered registry (every_45 ∷ []) (str "default" ∷ []))
run_built_in_checks-IsOutcome_example =
    run_built_in_checks-IsOutcome registry (every_45 ∷ []) (str "default" ∷ [])

abbrev step : RemediationStep
step = record {
  name = str "restart";
  action = RemediationAction.restart;
  depends_on = [];
  run_condition = RunCondition.unset;
  arguments = [];
}

abbrev with_workflow : CheckSpec
with_workflow = record every_45 { remediation_workflow = some (record { steps = step ∷ [] }) }

workflow_there : has_steps with_workflow.remediation_workflow ≡ true
unfolding has_steps
workflow_there = refl

run_built_in_checks_workflows_example :
    ((run_built_in_checks registry (with_workflow ∷ []) (str "default" ∷ [])).findings
      ≡ gathered registry (with_workflow ∷ []) (str "default" ∷ []))
    × ((run_built_in_checks registry (with_workflow ∷ []) (str "default" ∷ [])).remediations ≡ 0)
run_built_in_checks_workflows_example =
    run_built_in_checks_workflows registry (with_workflow ∷ []) (str "default" ∷ [])
      (workflow_there, tt)

abbrev ocp : OcpClusterSpec
ocp = record {
  enabled = true;
  check_cluster_operators = true;
  check_cluster_version = true;
  check_machine_config_pools = true;
  remediation = RemediationAction.alert;
  runbook_url = [];
}

run_ocp_cluster_checks_healthy_iff_example :
    let (findings, healthy) = run_ocp_cluster_checks checker (some ocp) in
    (healthy ≡ true) ↔ All (λ f. (f.status == str "Healthy") ≡ true) findings
run_ocp_cluster_checks_healthy_iff_example = run_ocp_cluster_checks_healthy_iff checker (some ocp)

abbrev pub session : Session
session = record {
  telemetry = none;
  prom_client = none;
  last_prom_config = [];
  last_otel_endpoint = [];
}

abbrev prometheus : GlobalPrometheusSpec
prometheus = record {
  prometheus_url = str "https://prometheus";
  alert_manager_url = [];
  insecure_skip_verify = false;
  bearer_token_secret_ref = none;
}

-- The same server, with a token of its own.
abbrev with_token : GlobalPrometheusSpec
with_token = record prometheus {
  bearer_token_secret_ref = some (record { name = str "tokens"; key = str "new" });
}

abbrev pub policy : SrePolicy
policy = record {
  metadata = record {
    name = str "policy";
    namespace = str "default";
    finalizers = finalizer_name ∷ [];
    deletion_timestamp = none;
    generation = pos 3;
  };
  spec = record {
    target_namespaces = str "default" ∷ [];
    checks = every_45 ∷ [];
    paused = false;
    ocp_cluster = some ocp;
    prometheus = none;
    log_collection = none;
    notifications = none;
  };
  status = no_status;
}

abbrev pub deleted : SrePolicy
deleted = record policy { metadata = record policy.metadata { deletion_timestamp = some 9 } }

-- An API server that accepts everything.
abbrev pub world : SrePolicy → World
world p = record {
  policy = found p;
  global_config = not_found;
  update = λ q. none;
  update_status = λ q. none;
  create = λ summary. none;
  config_maps = reports;
  registry = registry;
  ocp_checker = checker;
  aggregator = stub_aggregator;
  network = net;
  exporters = record {
    traces = λ endpoint. true;
    metrics = λ endpoint. true;
    logs = λ endpoint. true;
  };
  logs = none;
  rfc3339 = λ t. [];
  condition_time = λ type. 5;
  finding_time = 5;
  end_time = 6;
  scan_seconds = str "1.0";
}

abbrev pub provider : Provider
provider = record { tracing = false; logger = false }

run_cycle-EndsWell_example :
    EndsWell
      (world policy)
      policy.metadata
      policy.spec
      (run_cycle (world policy) policy provider session)
run_cycle-EndsWell_example = run_cycle-EndsWell (world policy) policy provider session

reconcile-panicked_iff_example :
    ((reconcile (world policy) session).reply_of ≡ panicked)
    ↔ ((is_active policy ≡ true) × (session.telemetry ≡ none))
reconcile-panicked_iff_example = reconcile-panicked_iff (world policy) policy session refl

reconcile-Releases_example :
    Releases deleted (reconcile (world deleted) session).effects
    × ((reconcile (world deleted) session).session ≡ session)
reconcile-Releases_example = reconcile-Releases (world deleted) deleted session 9 refl refl

few : length (failed ∷ failed ∷ []) < 2147483648
few = omega arith

one : 1 < 2147483648
one = omega arith

final_status_counts_example :
    let fs = failed ∷ failed ∷ [] in
    let after = final_status (world policy) policy fs 1 0 no_status in
    let c = count_by_severity (cap_findings fs).1 in
    (after.total_checks ≡ pos (length fs))
    × (after.remediations_applied ≡ pos 1)
    × (after.healthy_count ≡ pos c.healthy)
    × (after.degraded_count ≡ pos c.degraded)
    × (after.failed_count ≡ pos c.failed)
    × (c.healthy + c.degraded + c.failed ≤ length fs)
final_status_counts_example =
    final_status_counts (world policy) policy (failed ∷ failed ∷ []) 1 0 no_status few one

abbrev observability : ObservabilitySpec
observability = record {
  otel_endpoint = str "collector:4317";
  tracing_enabled = false;
  metrics_enabled = false;
  logs_enabled = true;
}

abbrev with_traces : ObservabilitySpec
with_traces = record observability { tracing_enabled = true }

abbrev config : ObservabilitySpec → SreGlobalConfig
config o = record {
  metadata = policy.metadata;
  spec = record { observability = some o; retention = none; defaults = none; prometheus = none };
  status = record { phase = []; conditions = [] };
}

-- A world with that global configuration.
abbrev configured : SreGlobalConfig → World
configured g = record (world policy) { global_config = found g }

new_endpoint : (observability.otel_endpoint == session.last_otel_endpoint) ≡ false
unfolding ◌==◌ str
new_endpoint = refl

-- Tracing is switched on later, and stays off.
run_cycle-connects_once_example :
    let after = (run_cycle (configured (config observability)) policy provider session).session in
    let later = (run_cycle (configured (config with_traces)) policy provider after).session in
    (after.telemetry ≡ some (new_provider (world policy).exporters (some observability)))
    × (after.last_otel_endpoint ≡ observability.otel_endpoint)
    × (later.telemetry ≡ after.telemetry)
    × (later.last_otel_endpoint ≡ after.last_otel_endpoint)
unfolding config_of
run_cycle-connects_once_example =
    run_cycle-connects_once (configured (config observability)) (configured (config with_traces))
      policy policy provider provider session (config observability) (config with_traces)
      observability with_traces refl refl refl refl refl new_endpoint refl

-- A policy with Prometheus checks, and the configurations with and without a secret.
abbrev watching : SrePolicy
watching = record policy {
  spec = record policy.spec {
    prometheus = some (record { enabled = true; alert_triggers = []; metric_queries = [] });
  };
}

abbrev prom_world : GlobalPrometheusSpec → World
prom_world g = configured (record (config observability) {
  spec = record { observability = none; retention = none; defaults = none; prometheus = some g };
})

run_cycle-reuses_example :
    let first = (ensure_client net prometheus session).1 in
    let after = (run_cycle (prom_world prometheus) watching provider session).session in
    let second = (ensure_client net with_token after).1 in
    let later = (run_cycle (prom_world with_token) watching provider after).session in
    (after.prom_client ≡ some first) × (second ≡ first) × (later.prom_client ≡ some first)
unfolding config_of prom_specs connect connect_if
run_cycle-reuses_example =
    run_cycle-reuses (prom_world prometheus) (prom_world with_token) watching watching provider
      provider session (record { enabled = true; alert_triggers = []; metric_queries = [] })
      (record { enabled = true; alert_triggers = []; metric_queries = [] }) prometheus with_token
      refl refl refl refl refl

emit_events-select_example :
    (emit_events (failed ∷ [])
      ≡ map event_of (select (λ f. not (f.status == str "Healthy")) (failed ∷ [])))
    × ((f : CheckResult)
        → (((event_of f).type ≡ EventType.warning) ↔ (f.severity ≡ SeverityLevel.critical))
          × ((event_of f).reason ≡ str "SRE" ++ category_text f.category ++ f.status))
emit_events-select_example = emit_events-select (failed ∷ [])

-- The cycle exports its log records.
abbrev with_logs : World
with_logs = record (world policy) { global_config = found (config observability) }

run_cycle-Keeps_example :
    Keeps (some (config observability)) (run_cycle with_logs policy provider session)
unfolding config_of
run_cycle-Keeps_example = run_cycle-Keeps with_logs policy provider session

-- A policy that collects logs.
abbrev collecting : SrePolicy
collecting = record policy { spec = record policy.spec { log_collection = some spec } }

abbrev with_streams : World
with_streams = record with_logs { logs = some env }

run_cycle-LogsOnly_example :
    LogsOnly with_streams collecting (run_cycle (shipped with_streams) collecting provider session)
run_cycle-LogsOnly_example = run_cycle-LogsOnly with_streams collecting provider session
