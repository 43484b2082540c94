-- ===== src/Controller/Reconcile/Quiet.antt =====
-- What the stubs of internal/checks/checks.go and internal/prometheus/stubs.go find: nothing.
use sre_operator.Common.{
  ◌≡◌, refl, Bool, true, Option, none, some, List, [], ◌∷◌, Text, str, Bool-cases, Option-cases,
  inl, inr,
}
use sre_operator.Api.Types.{
  SrePolicy, SrePolicyStatus, CheckSpec, OcpClusterSpec, AlertTrigger, MetricQuery,
}
use sre_operator.Api.Global.{SreGlobalConfig}
use sre_operator.Prometheus.Stubs.{evaluate, evaluate_all}
use sre_operator.Remediation.Engine.{dispatch}
use sre_operator.Controller.Checks.{
  no_outcome, plus, stub_checker, stub_registry, run_checkers, run_namespaces, run_built_in_checks,
  ocp_outcome, run_ocp_cluster_checks,
}
use sre_operator.Controller.Session.{Session, ensure_client}
use sre_operator.Controller.Gather.{
  PromOutcome, prom_specs, run_triggers, run_queries, run_prometheus_checks,
}
use sre_operator.Controller.Conditions.{set_condition}
use sre_operator.Controller.World.{World}

run_namespaces-none :
    (spec : CheckSpec) (ns : List Text) → run_namespaces stub_registry spec ns ≡ no_outcome
unfolding run_namespaces run_checkers plus
run_namespaces-none spec [] = refl
run_namespaces-none spec (n ∷ ns) = rw (run_namespaces-none spec ns) refl

pub run_built_in_checks-none :
    (specs : List CheckSpec) (ns : List Text)
    → run_built_in_checks stub_registry specs ns ≡ no_outcome
unfolding run_built_in_checks plus
run_built_in_checks-none [] ns = refl
run_built_in_checks-none (spec ∷ specs) ns = elim (Bool-cases spec.enabled) [
  | inl on ↦ rw (on, run_namespaces-none spec ns, run_built_in_checks-none specs ns) refl
  | inr off ↦ rw off (run_built_in_checks-none specs ns)
]

pub run_ocp_cluster_checks-none :
    (o : Option OcpClusterSpec) → run_ocp_cluster_checks (stub_checker (str "ocp")) o ≡ ([], true)
unfolding run_ocp_cluster_checks ocp_outcome
run_ocp_cluster_checks-none none = refl
run_ocp_cluster_checks-none (some spec) = elim (Bool-cases spec.enabled) [
  | inl on ↦ rw on refl
  | inr off ↦ rw off refl
]

-- The Prometheus checks find nothing, and leave the cluster's health.
pub record Quiet (health : Option Bool) (o : PromOutcome) : Type 0 where
  pub findings : o.findings ≡ []
  pub triggered : o.triggered ≡ []
  pub dispatched : o.dispatched ≡ []
  pub healthy : o.status.ocp_cluster_healthy ≡ health

module _ (w : World) where
  run_triggers-Quiet :
      (ts : List AlertTrigger) (status : SrePolicyStatus) (s : Session)
      → Quiet status.ocp_cluster_healthy (run_triggers w ts status s)
  unfolding run_triggers evaluate dispatch set_condition
  run_triggers-Quiet [] status s = record {
    findings = refl;
    triggered = refl;
    dispatched = refl;
    healthy = refl;
  }
  run_triggers-Quiet (t ∷ ts) status s = record {
    findings = refl;
    triggered = refl;
    dispatched = refl;
    healthy = refl;
  }

  run_queries-Quiet :
      (health : Option Bool) (qs : List MetricQuery) (o : PromOutcome)
      → Quiet health o
      → Quiet health (run_queries w qs o)
  unfolding run_queries evaluate_all
  run_queries-Quiet health [] o q = q
  run_queries-Quiet health (m ∷ ms) o q = record {
    findings = rw q.findings refl;
    triggered = q.triggered;
    dispatched = q.dispatched;
    healthy = q.healthy;
  }

  pub run_prometheus_checks-Quiet :
      (policy : SrePolicy) (global : Option SreGlobalConfig) (s : Session)
      → Quiet policy.status.ocp_cluster_healthy (run_prometheus_checks w policy global s)
  unfolding run_prometheus_checks
  run_prometheus_checks-Quiet policy global s = elim (Option-cases (prom_specs policy global)) [
    | inl e ↦
        rw (e, run_prometheus_checks)
          (record { findings = refl; triggered = refl; dispatched = refl; healthy = refl })
    | inr (pg, e) ↦
        rw (e, run_prometheus_checks)
          (run_queries-Quiet _ pg.0.metric_queries _ (
            run_triggers-Quiet pg.0.alert_triggers policy.status
              (ensure_client w.network pg.1 s).0))
  ]
