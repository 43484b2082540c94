-- ===== src/Controller/Reconcile/Shipped.antt =====
-- A cycle with the program's own checkers and aggregator, which are stubs: internal/checks/checks.go
-- and internal/diagnostics/stubs.go.
use sre_operator.Common.{
  ℕ, ◌+◌, ◌≡◌, refl, ◌∙◌, subst, Bool, true, false, ◌&&◌, not, Option, none, some, List, [], ◌∷◌,
  ◌++◌, Text, str, ◌==◌, pos, length, map, if◌then◌else◌, Bool-cases, inl, inr,
}
use sre_operator.Api.Types.{SrePolicy, SrePolicyStatus, CheckResult, LogCollectionSpec}
use sre_operator.Api.Global.{SreGlobalConfig}
use sre_operator.Diagnostics.Logs.{collect}
use sre_operator.Diagnostics.Pods.{Environment}
use sre_operator.Diagnostics.Report.{to_check_results}
use sre_operator.Prometheus.Stubs.{AlertTriggerResult}
use sre_operator.Telemetry.{Provider}
use sre_operator.Controller.Findings.{cap_findings}
use sre_operator.Controller.Checks.{
  stub_checker, stub_registry, build_registry, run_built_in_checks, run_ocp_cluster_checks,
}
use sre_operator.Controller.Events.{emit_events}
use sre_operator.Controller.Session.{Session}
use sre_operator.Controller.Gather.{
  PromOutcome, run_prometheus_checks, report_logs, collect_logs, collect_if, is_empty_list,
  run_log_collection, logs_enabled,
}
use sre_operator.Controller.Conditions.{set_condition}
use sre_operator.Controller.Cycle.{
  Run, config_of, set_now, to_int32, log_records, events_enabled, target_namespaces, connect,
  ocp_condition, count_dispatched, names_of, diagnose, final_status,
}
use sre_operator.Controller.Reconcile.Quiet.{
  run_built_in_checks-none, run_ocp_cluster_checks-none, Quiet, run_prometheus_checks-Quiet,
}
use sre_operator.Controller.Reconcile.{finish, conclude_cycle, run_cycle, current}
use sre_operator.Controller.World.{World, Effect, status_updated, emitted, stub_aggregator}

-- Any surroundings, with the program's own checkers and aggregator.
abbrev pub shipped : World → World
shipped w = record w {
  registry = build_registry;
  ocp_checker = stub_checker (str "ocp");
  aggregator = stub_aggregator;
}

-- The findings of log collection: none if it is off, has no client or waits for an alert.
pub findings_of_logs :
    World → List Text → Option LogCollectionSpec → Option Environment → List CheckResult
findings_of_logs w namespaces (some spec) (some env) =
    if spec.enabled && not spec.on_alert_only
    then to_check_results w.finding_time (str "log-collection") (collect env spec namespaces)
    else []
findings_of_logs w namespaces _ _ = []

-- The update of the status, with `fs` as the findings before the cap.
pub record ReportsOnly (fs : List CheckResult) (run : Run) : Type 0 where
  pub before : List Effect
  pub written : SrePolicy
  pub last : run.effects ≡ before ++ status_updated written ∷ []
  pub findings : written.status.findings ≡ (cap_findings fs).0
  pub healthy : written.status.ocp_cluster_healthy ≡ some true
  pub remediations : written.status.remediations_applied ≡ pos 0
  pub alerts :
      (written.status.firing_alert_count ≡ pos 0) × (written.status.firing_alert_names ≡ [])

module _ (w : World) where
  collect_if-logs :
      (policy : SrePolicy) (global : Option SreGlobalConfig) (p : Provider)
      (fired : List AlertTriggerResult) (spec : Option LogCollectionSpec) (env : Option Environment)
      → fired ≡ []
      → (collect_if w policy global p fired spec env).findings
        ≡ findings_of_logs w policy.spec.target_namespaces spec env
  unfolding collect_if collect_logs report_logs is_empty_list findings_of_logs
  collect_if-logs policy global p fired none env e = refl
  collect_if-logs policy global p fired (some spec) none e = refl
  collect_if-logs policy global p fired (some spec) (some env) e = elim (Bool-cases spec.enabled) [
    | inl on ↦ elim (Bool-cases spec.on_alert_only) [
      | inl waits ↦ rw (on, waits, e) refl
      | inr all ↦ rw (on, all) refl
    ]
    | inr off ↦ rw off refl
  ]

module _ (w : World) where
  finish-ReportsOnly :
      (policy : SrePolicy) (global : Option SreGlobalConfig) (p : Provider) (fs : List CheckResult)
      (n k : ℕ) (s : Session) (before : List Effect)
      → policy.status.ocp_cluster_healthy ≡ some true
      → (policy.status.firing_alert_count ≡ pos 0) × (policy.status.firing_alert_names ≡ [])
      → n ≡ 0
      → ReportsOnly fs (finish w policy global p fs n k s before)
  unfolding finish final_status set_now set_condition to_int32
  finish-ReportsOnly policy global p fs n k s before healthy quiet none_done = record {
    before =
        before
        ++ (if logs_enabled global then log_records p fs else [])
        ++ (if events_enabled policy.spec.notifications
            then map emitted (emit_events (cap_findings fs).1)
            else []);
    written = record policy { status = final_status w policy fs n k policy.status };
    last = refl;
    findings = refl;
    healthy = healthy;
    remediations = rw none_done refl;
    alerts = quiet;
  }

  diagnose-same :
      (policy : SrePolicy) (global : Option SreGlobalConfig) (fs : List CheckResult) (n : ℕ)
      → (diagnose (shipped w) policy global fs n).0 ≡ fs
  unfolding diagnose ◌==◌
  diagnose-same policy global fs n = refl

module _ (w : World) where
  abbrev pub LogsOnly : SrePolicy → Run → Type 0
  LogsOnly policy =
      ReportsOnly
        (findings_of_logs w policy.spec.target_namespaces policy.spec.log_collection w.logs)

  -- The end of a cycle after checks that found nothing.
  conclude_cycle-LogsOnly :
      (policy : SrePolicy) (global : Option SreGlobalConfig) (p : Provider) (fs : List CheckResult)
      (k : ℕ) (prom : PromOutcome)
      → fs ≡ []
      → k ≡ 0
      → Quiet (some true) prom
      → LogsOnly policy (conclude_cycle (shipped w) policy global p fs k prom)
  unfolding conclude_cycle run_log_collection findings_of_logs names_of to_int32 count_dispatched
  conclude_cycle-LogsOnly policy global p fs k prom e z q =
      let policy' = record policy {
        status = record prom.status {
          firing_alert_count = to_int32 (length prom.triggered);
          firing_alert_names = names_of prom.triggered;
        };
      } in
      let n = k + count_dispatched prom.dispatched in
      let logs = run_log_collection (shipped w) policy' global p prom.triggered in
      let all = fs ++ prom.findings ++ logs.findings in
      let d = diagnose (shipped w) policy' global all n in
      let same : d.0
          ≡ findings_of_logs w policy.spec.target_namespaces policy.spec.log_collection w.logs =
        diagnose-same w policy' global all n
        ∙ rw (e, q.findings)
            (collect_if-logs (shipped w) policy' global p prom.triggered policy.spec.log_collection
              w.logs q.triggered) in
      subst (λ l. ReportsOnly l (conclude_cycle (shipped w) policy global p fs k prom)) same
        (finish-ReportsOnly (shipped w) policy' global p d.0 n (length prom.triggered) prom.session
          (logs.effects ++ d.1) q.healthy (rw q.triggered refl, rw q.triggered refl)
          (rw (z, q.dispatched) refl))

  ocp_condition-healthy :
      (r : List CheckResult × Bool) (status : SrePolicyStatus)
      → (ocp_condition w r status).ocp_cluster_healthy ≡ some r.1
  unfolding ocp_condition set_now set_condition
  ocp_condition-healthy (fs, true) status = refl
  ocp_condition-healthy (fs, false) status = refl

-- With the checkers and the aggregator of the program a cycle reports the findings of its log
-- collection and no others, up to the cap, and without logs that wait for an alert. It reports a
-- healthy cluster, no alert and no remediation.
pub run_cycle-LogsOnly :
    (w : World) (policy : SrePolicy) (p : Provider) (s : Session)
    → LogsOnly w policy (run_cycle (shipped w) policy p s)
unfolding run_cycle
run_cycle-LogsOnly w policy p s =
    let global = config_of w.global_config in
    let c = connect (shipped w) global policy.status s in
    let built_in =
      run_built_in_checks stub_registry policy.spec.checks (target_namespaces policy global) in
    let ocp = run_ocp_cluster_checks (stub_checker (str "ocp")) policy.spec.ocp_cluster in
    let policy' = record policy { status = ocp_condition (shipped w) ocp c.0 } in
    let prom = run_prometheus_checks (shipped w) policy' global c.1 in
    let no_built_in =
      run_built_in_checks-none policy.spec.checks (target_namespaces policy global) in
    let no_ocp = run_ocp_cluster_checks-none policy.spec.ocp_cluster in
    let healthy : policy'.status.ocp_cluster_healthy ≡ some true =
      ocp_condition-healthy (shipped w) ocp c.0 ∙ rw no_ocp refl in
    conclude_cycle-LogsOnly w policy' global (current (shipped w) p c.1)
      (built_in.findings ++ ocp.0) built_in.remediations prom (rw (no_built_in, no_ocp) refl)
      (rw no_built_in refl)
      (subst (λ h. Quiet h prom) healthy
        (run_prometheus_checks-Quiet (shipped w) policy' global c.1))
