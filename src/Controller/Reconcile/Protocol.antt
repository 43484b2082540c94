-- ===== src/Controller/Reconcile/Protocol.antt =====
-- Which calls a cycle makes, part by part.
use sre_operator.Common.{
  ℕ, ◌+◌, ◌≡◌, refl, Bool, true, false, ◌&&◌, not, Option, none, some, List, [], ◌∷◌, ◌++◌, map,
  Text, str, length, if◌then◌else◌, Bool-cases, Option-cases, inl, inr, arith,
}
use sre_operator.Api.Types.{SrePolicy, CheckResult, LogCollectionSpec}
use sre_operator.Api.Global.{SreGlobalConfig}
use sre_operator.Telemetry.{Provider, log_summary}
use sre_operator.Diagnostics.Logs.{collect}
use sre_operator.Diagnostics.Pods.{Environment, LogCollection}
use sre_operator.Diagnostics.Report.{format_report}
use sre_operator.Prometheus.Stubs.{AlertTriggerResult}
use sre_operator.Controller.Findings.{cap_findings}
use sre_operator.Controller.Session.{Session}
use sre_operator.Controller.Rotation.{rotate_config_maps}
use sre_operator.Controller.Events.{Event, emit_events}
use sre_operator.Controller.Checks.{run_built_in_checks, run_ocp_cluster_checks}
use sre_operator.Controller.Gather.{
  PromOutcome, LogOutcome, max_copies, rotate, logs_enabled, keep_summary, report_logs,
  collect_logs, collect_if, no_logs, is_empty_list, run_log_collection, run_prometheus_checks,
}
use sre_operator.Controller.Cycle.{
  Run, log_records, events_enabled, diagnose, config_of, connect, target_namespaces, ocp_condition,
  to_int32, names_of, count_dispatched, final_status,
}
use sre_operator.Controller.Reconcile.{current, finish, conclude_cycle, run_cycle}
use sre_operator.Controller.Reconcile.Calls.{
  Makes, Makes-append, none-Makes, events-Makes, logs-Makes, log_records-Makes, deletions-Makes,
}
use sre_operator.Controller.World.{World, LogSummary, Effect, status_updated, created, emitted}

-- A run whose last call updates the status, after calls as `Makes` says.
pub record Keeps (global : Option SreGlobalConfig) (run : Run) : Type 0 where
  pub before : List Effect
  pub written : SrePolicy
  pub last : run.effects ≡ before ++ status_updated written ∷ []
  pub made : Makes global 1 before

module _ (world : World) (global : Option SreGlobalConfig) where
  rotate-Makes :
      (namespace selector : Text) → Makes global 0 (rotate world global namespace selector)
  unfolding rotate
  rotate-Makes namespace selector = elim (Option-cases (max_copies global)) [
    | inl e ↦ rw (e, rotate) (none-Makes global)
    | inr (n, e) ↦
        rw (e, rotate)
          (deletions-Makes global (rotate_config_maps world.config_maps namespace selector n) n e)
  ]

  created-Makes :
      (cm : LogSummary) (es : List Effect) → Makes global 0 es → Makes global 1 (created cm ∷ es)
  created-Makes cm es m = record {
    updates = m.updates;
    status_updates = m.status_updates;
    creations = omega (arith, m.creations);
    deletions_bounded = m.deletions_bounded;
    logs_wanted = m.logs_wanted;
  }

  keep_summary-Makes : (cm : LogSummary) → Makes global 1 (keep_summary world global cm)
  unfolding keep_summary
  keep_summary-Makes cm = elim (Option-cases (world.create cm)) [
    | inl e ↦
        rw (e, keep_summary)
          (created-Makes cm _
            (rotate-Makes cm.namespace (str "sre.kubevirt.io/component=log-diagnostics")))
    | inr (err, e) ↦ rw (e, keep_summary) (created-Makes cm [] (none-Makes global))
  ]

  if_logs-Makes :
      (es : List Effect)
      → (logs_enabled global ≡ true → Makes global 0 es)
      → Makes global 0 (if logs_enabled global then es else [])
  if_logs-Makes es m = elim (Bool-cases (logs_enabled global)) [
    | inl e ↦ rw e (m e)
    | inr e ↦ rw e (none-Makes global)
  ]

  if_events-Makes :
      (b : Bool) (events : List Event) → Makes global 0 (if b then map emitted events else [])
  if_events-Makes true events = events-Makes global events
  if_events-Makes false events = none-Makes global

  report_logs-Makes :
      (policy : SrePolicy) (p : Provider) (c : LogCollection)
      → Makes global 1 (report_logs world policy global p c).effects
  unfolding report_logs
  report_logs-Makes policy p c =
      Makes-append global 1 0 _ _ (keep_summary-Makes _)
        (if_logs-Makes _ (logs-Makes global (log_summary p (format_report world.rfc3339 c))))

  no_effects : Makes global 1 []
  no_effects = record {
    updates = refl;
    status_updates = refl;
    creations = omega arith;
    deletions_bounded = λ h. refl;
    logs_wanted = λ h. refl;
  }

  if_not-Makes :
      (b : Bool) (o : LogOutcome)
      → Makes global 1 o.effects
      → Makes global 1 (if b then no_logs else o).effects
  if_not-Makes true o m = no_effects
  if_not-Makes false o m = m

  collect_if-Makes :
      (policy : SrePolicy) (p : Provider) (fired : List AlertTriggerResult)
      (spec : Option LogCollectionSpec) (env : Option Environment)
      → Makes global 1 (collect_if world policy global p fired spec env).effects
  unfolding collect_if collect_logs
  collect_if-Makes policy p fired none env = no_effects
  collect_if-Makes policy p fired (some spec) none = no_effects
  collect_if-Makes policy p fired (some spec) (some env) =
      let o = report_logs world policy global p (collect env spec policy.spec.target_namespaces) in
      let m = report_logs-Makes policy p (collect env spec policy.spec.target_namespaces) in
      let alert_only = spec.on_alert_only && is_empty_list world fired in
      if_not-Makes (not spec.enabled) (if alert_only then no_logs else o)
        (if_not-Makes alert_only o m)

  diagnose-Makes :
      (policy : SrePolicy) (fs : List CheckResult) (n : ℕ)
      → Makes global 0 (diagnose world policy global fs n).1
  unfolding diagnose
  diagnose-Makes policy fs n = elim (Option-cases (world.aggregator.build policy fs n)) [
    | inl e ↦ rw (e, diagnose) (none-Makes global)
    | inr (t, e) ↦
        rw (e, diagnose)
          (elim (Option-cases (world.aggregator.persist t policy.metadata.namespace)) [
            | inl f ↦ rw f (rotate-Makes _ _)
            | inr (err, f) ↦ rw f (none-Makes global)
          ])
  ]

  finish-Keeps :
      (policy : SrePolicy) (p : Provider) (fs : List CheckResult) (n k : ℕ) (s : Session)
      (before : List Effect)
      → Makes global 1 before
      → Keeps global (finish world policy global p fs n k s before)
  unfolding finish
  finish-Keeps policy p fs n k s before m =
      let events = emit_events (cap_findings fs).1 in
      record {
        before =
            before
            ++ (if logs_enabled global then log_records p fs else [])
            ++ (if events_enabled policy.spec.notifications then map emitted events else []);
        written = record policy { status = final_status world policy fs n k policy.status };
        last = refl;
        made =
            Makes-append global 1 0 _ _
              (Makes-append global 1 0 _ _ m (if_logs-Makes _ (log_records-Makes global p fs)))
              (if_events-Makes (events_enabled policy.spec.notifications) events);
      }

  conclude_cycle-Keeps :
      (policy : SrePolicy) (p : Provider) (fs : List CheckResult) (n : ℕ) (prom : PromOutcome)
      → Keeps global (conclude_cycle world policy global p fs n prom)
  unfolding conclude_cycle run_log_collection
  conclude_cycle-Keeps policy p fs n prom =
      let policy' = record policy {
        status = record prom.status {
          firing_alert_count = to_int32 (length prom.triggered);
          firing_alert_names = names_of prom.triggered;
        };
      } in
      let m = n + count_dispatched prom.dispatched in
      let logs = run_log_collection world policy' global p prom.triggered in
      let d = diagnose world policy' global (fs ++ prom.findings ++ logs.findings) m in
      finish-Keeps policy' p d.0 m (length prom.triggered) prom.session (logs.effects ++ d.1) (
        Makes-append global 1 0 _ _
          (collect_if-Makes policy' p prom.triggered policy.spec.log_collection world.logs)
          (diagnose-Makes policy' (fs ++ prom.findings ++ logs.findings) m))

-- A cycle never updates the policy itself. It creates one ConfigMap at most, deletes ConfigMaps only
-- if the global configuration bounds their number, and exports log records only if it enables them.
-- It updates the status once, after all that.
pub run_cycle-Keeps :
    (world : World) (policy : SrePolicy) (p : Provider) (s : Session)
    → Keeps (config_of world.global_config) (run_cycle world policy p s)
unfolding run_cycle
run_cycle-Keeps world policy p s =
    let global = config_of world.global_config in
    let c = connect world global policy.status s in
    let built_in =
      run_built_in_checks world.registry policy.spec.checks (target_namespaces policy global) in
    let ocp = run_ocp_cluster_checks world.ocp_checker policy.spec.ocp_cluster in
    let policy' = record policy { status = ocp_condition world ocp c.0 } in
    conclude_cycle-Keeps world global policy' (current world p c.1) (built_in.findings ++ ocp.0)
      built_in.remediations (run_prometheus_checks world policy' global c.1)
