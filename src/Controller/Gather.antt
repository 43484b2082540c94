-- ===== src/Controller/Gather.antt =====
-- `runPrometheusChecks` and `runLogCollection` of internal/controller/srepolicy_controller.go.
use sre_operator.Common.{
  ℕ, Bool, true, false, ◌&&◌, not, Option, none, some, List, [], ◌∷◌, ◌++◌, map, Text, str, pos,
  negsuc, length, ltb, decimal, if◌then◌else◌,
}
use sre_operator.Api.Types.{
  SrePolicy, SrePolicyStatus, CheckResult, PrometheusSpec, LogCollectionSpec, AlertTrigger,
  MetricQuery,
}
use sre_operator.Api.Global.{SreGlobalConfig, GlobalPrometheusSpec}
use sre_operator.Diagnostics.Logs.{collect}
use sre_operator.Diagnostics.Pods.{Environment, LogCollection}
use sre_operator.Diagnostics.Report.{format_report, to_check_results}
use sre_operator.Prometheus.Stubs.{AlertTriggerResult, to_check_result, evaluate, evaluate_all}
use sre_operator.Remediation.Engine.{AlertDispatchResult, dispatch}
use sre_operator.Telemetry.{Provider, log_summary}
use sre_operator.Controller.Conditions.{set_condition}
use sre_operator.Controller.Rotation.{ConfigMap, rotate_config_maps}
use sre_operator.Controller.Session.{Session, ensure_client}
use sre_operator.Controller.World.{World, LogSummary, Effect, created, deleted, logged}

-- What the Prometheus checks return, and the session and the status that they leave.
pub record PromOutcome : Type 0 where
  pub session : Session
  pub status : SrePolicyStatus
  pub findings : List CheckResult
  pub triggered : List AlertTriggerResult
  pub dispatched : List AlertDispatchResult

pub record LogOutcome : Type 0 where
  pub findings : List CheckResult
  pub effects : List Effect

abbrev pub no_logs : LogOutcome
no_logs = record { findings = []; effects = [] }

unfoldable pub deletions : List (ConfigMap × Option Text) → List Effect
deletions [] = []
deletions ((cm, e) ∷ rest) = deleted cm ∷ deletions rest

-- `MaxConfigMapCopies`, if there is one that is positive.
unfoldable pub max_copies : Option SreGlobalConfig → Option ℕ
max_copies none = none
max_copies (some g) = elim g.spec.retention [
  | none ↦ none
  | some r ↦ elim r.max_config_map_copies [
    | pos n ↦ if ltb 0 n then some n else none
    | negsuc n ↦ none
  ]
]

unfoldable pub logs_enabled : Option SreGlobalConfig → Bool
logs_enabled none = false
logs_enabled (some g) = elim g.spec.observability [ none ↦ false | some o ↦ o.logs_enabled ]

-- Whether `PrometheusSpec` is there, and the global one too.
unfoldable pub prom_specs :
    SrePolicy → Option SreGlobalConfig → Option (PrometheusSpec × GlobalPrometheusSpec)
prom_specs policy none = none
prom_specs policy (some g) = elim policy.spec.prometheus [
  | none ↦ none
  | some p ↦ elim g.spec.prometheus [
    | none ↦ none
    | some gp ↦ if not p.enabled then none else some (p, gp)
  ]
]

module _ (world : World) where
  -- The rotation of the ConfigMaps of a component, if the number of copies is bounded.
  unfoldable pub rotate : Option SreGlobalConfig → (namespace selector : Text) → List Effect
  unfolding max_copies deletions rotate_config_maps
  rotate global namespace selector = elim (max_copies global) [
    | none ↦ []
    | some n ↦ deletions (rotate_config_maps world.config_maps namespace selector n)
  ]

  -- The alert triggers; `Evaluate` returns no error.
  unfoldable pub run_triggers : List AlertTrigger → SrePolicyStatus → Session → PromOutcome
  unfolding set_condition evaluate dispatch
  run_triggers [] status s = record {
    session = s;
    status = status;
    findings = [];
    triggered = [];
    dispatched = [];
  }
  run_triggers (t ∷ ts) status s =
      let results = evaluate (t ∷ ts) in
      let status' =
        set_condition (world.condition_time (str "PrometheusHealthy")) (str "PrometheusHealthy")
          (str "True") (str "AlertManagerReachable")
          (decimal (length (t ∷ ts))
            ++ str " triggers evaluated, "
            ++ decimal (length results)
            ++ str " fired")
          status in
      record {
        session = s;
        status = status';
        findings = map to_check_result results;
        triggered = results;
        dispatched = dispatch results (t ∷ ts) status'.findings;
      }

  unfoldable pub run_queries : List MetricQuery → PromOutcome → PromOutcome
  unfolding evaluate_all
  run_queries [] o = o
  run_queries (q ∷ qs) o = record o { findings = o.findings ++ evaluate_all (q ∷ qs) }

  unfoldable pub run_prometheus_checks : SrePolicy → Option SreGlobalConfig → Session → PromOutcome
  unfolding prom_specs run_triggers run_queries ensure_client
  run_prometheus_checks policy global s = elim (prom_specs policy global) [
    | none ↦ record {
      session = s;
      status = policy.status;
      findings = [];
      triggered = [];
      dispatched = [];
    }
    | some (p, g) ↦
        let (s', client) = ensure_client world.network g s in
        run_queries p.metric_queries (run_triggers p.alert_triggers policy.status s')
  ]

  -- The ConfigMap of the summary, and the rotation of the older ones unless it fails.
  unfoldable pub keep_summary : Option SreGlobalConfig → LogSummary → List Effect
  unfolding rotate
  keep_summary global cm = created cm ∷ (elim (world.create cm) [
    | some err ↦ []
    | none ↦ rotate global cm.namespace (str "sre.kubevirt.io/component=log-diagnostics")
  ])

  unfoldable pub report_logs :
      SrePolicy → Option SreGlobalConfig → Provider → LogCollection → LogOutcome
  unfolding keep_summary logs_enabled log_summary to_check_results format_report
  report_logs policy global provider c =
      let summary = format_report world.rfc3339 c in
      let records = map logged (log_summary provider summary) in
      record {
        findings = to_check_results world.finding_time (str "log-collection") c;
        effects =
            keep_summary global (record {
              namespace = policy.metadata.namespace;
              summary = summary;
              last_updated = world.rfc3339 c.collected_at;
            })
            ++ (if logs_enabled global then records else []);
      }

  unfoldable pub is_empty_list {ℓ} : {A : Type ℓ} → List A → Bool
  is_empty_list [] = true
  is_empty_list (x ∷ xs) = false

  unfoldable pub collect_logs :
      SrePolicy
      → Option SreGlobalConfig
      → Provider
      → List AlertTriggerResult
      → LogCollectionSpec
      → Environment
      → LogOutcome
  unfolding report_logs is_empty_list collect
  collect_logs policy global provider fired spec env =
      let collected =
        report_logs policy global provider (collect env spec policy.spec.target_namespaces) in
      if spec.on_alert_only && is_empty_list fired then no_logs else collected

  -- The log specification and the client for log streams, where both are there.
  unfoldable pub collect_if :
      SrePolicy
      → Option SreGlobalConfig
      → Provider
      → List AlertTriggerResult
      → Option LogCollectionSpec
      → Option Environment
      → LogOutcome
  unfolding collect_logs
  collect_if policy global provider fired none env = no_logs
  collect_if policy global provider fired (some spec) none = no_logs
  collect_if policy global provider fired (some spec) (some env) =
      if not spec.enabled then no_logs else collect_logs policy global provider fired spec env

  unfoldable pub run_log_collection :
      SrePolicy → Option SreGlobalConfig → Provider → List AlertTriggerResult → LogOutcome
  unfolding collect_if
  run_log_collection policy global provider fired =
      collect_if policy global provider fired policy.spec.log_collection world.logs
