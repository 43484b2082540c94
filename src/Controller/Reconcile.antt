-- ===== src/Controller/Reconcile.antt =====
-- `Reconcile` of internal/controller/srepolicy_controller.go: the order of a cycle.
pub mod Ends
pub mod Guards
pub mod Calls
pub mod Protocol
pub mod Counts
pub mod Endpoint
pub mod Sessions
pub mod Quiet
pub mod Shipped
pub mod Server
pub mod Lifecycle
use sre_operator.Common.{
  ℕ, ◌+◌, Bool, true, false, ◌&&◌, ◌||◌, not, Option, none, some, List, [], ◌∷◌, ◌++◌, map, Text,
  str, ◌==◌, length, if◌then◌else◌,
}
use sre_operator.Api.Types.{Time, SrePolicy, SrePolicySpec, SrePolicyStatus, CheckResult}
use sre_operator.Api.Global.{SreGlobalConfig}
use sre_operator.Telemetry.{Provider}
use sre_operator.Controller.Findings.{cap_findings}
use sre_operator.Controller.Strings.{contains_string}
use sre_operator.Controller.Interval.{minimum_interval}
use sre_operator.Controller.Checks.{Outcome, run_built_in_checks, run_ocp_cluster_checks}
use sre_operator.Controller.Session.{Session}
use sre_operator.Controller.Events.{emit_events}
use sre_operator.Controller.Gather.{
  PromOutcome, LogOutcome, logs_enabled, run_prometheus_checks, run_log_collection,
}
use sre_operator.Controller.Cycle.{
  CtrlResult, Reply, reply, panicked, Run, finalizer_name, nothing, to_int32, count_dispatched,
  names_of, config_of, target_namespaces, log_records, events_enabled, handle_deletion,
  add_finalizer, pause, phase_reply, connect, ocp_condition, diagnose, final_status,
}
use sre_operator.Controller.World.{
  World, Lookup, found, not_found, broken, Effect, updated, status_updated, emitted, logged,
}

module _ (world : World) where
  -- `r.Telemetry`, which stood when the cycle began.
  unfoldable pub current : Provider → Session → Provider
  current p s = elim s.telemetry [ none ↦ p | some q ↦ q ]

  -- The end of a cycle: log records, status, events, the update of the status.
  unfoldable pub finish :
      SrePolicy
      → Option SreGlobalConfig
      → Provider
      → (findings : List CheckResult) → (remediations alerts : ℕ) → Session
      → List Effect
      → Run
  unfolding final_status log_records events_enabled emit_events phase_reply
  finish policy global provider findings remediations alerts s before =
      let done = record policy {
        status = final_status world policy findings remediations alerts policy.status;
      } in
      let records = log_records provider findings in
      let events = map emitted (emit_events (cap_findings findings).1) in
      record {
        session = s;
        effects =
            before
            ++ (if logs_enabled global then records else [])
            ++ (if events_enabled policy.spec.notifications then events else [])
            ++ status_updated done ∷ [];
        reply_of =
            phase_reply world (world.update_status done) (minimum_interval policy.spec.checks)
              (minimum_interval policy.spec.checks);
      }

  -- The part after the Prometheus checks. `findings` are those up to there.
  unfoldable pub conclude_cycle :
      SrePolicy → Option SreGlobalConfig → Provider → List CheckResult → ℕ → PromOutcome → Run
  unfolding run_log_collection diagnose finish count_dispatched names_of to_int32
  conclude_cycle policy global provider findings remediations prom =
      let policy' = record policy {
        status = record prom.status {
          firing_alert_count = to_int32 (length prom.triggered);
          firing_alert_names = names_of prom.triggered;
        };
      } in
      let n = remediations + count_dispatched prom.dispatched in
      let logs = run_log_collection world policy' global provider prom.triggered in
      let (traced, rotated) =
        diagnose world policy' global (findings ++ prom.findings ++ logs.findings) n in
      finish policy' global provider traced n (length prom.triggered) prom.session
        (logs.effects ++ rotated)

  unfoldable pub run_cycle : SrePolicy → Provider → Session → Run
  unfolding connect config_of target_namespaces run_built_in_checks run_ocp_cluster_checks
      ocp_condition run_prometheus_checks conclude_cycle current
  run_cycle policy p s =
      let global = config_of world.global_config in
      let (status, s') = connect world global policy.status s in
      let built_in =
        run_built_in_checks world.registry policy.spec.checks (target_namespaces policy global) in
      let ocp = run_ocp_cluster_checks world.ocp_checker policy.spec.ocp_cluster in
      let policy' = record policy { status = ocp_condition world ocp status } in
      conclude_cycle policy' global (current p s') (built_in.findings ++ ocp.0)
        built_in.remediations (run_prometheus_checks world policy' global s')

  -- A policy that is neither being deleted nor paused, and has its finalizer: `r.Telemetry.Tracer()`
  -- follows the pointer.
  unfoldable pub active_with : Option Provider → SrePolicy → Session → Run
  unfolding run_cycle
  active_with none policy s = record { session = s; effects = []; reply_of = panicked }
  active_with (some p) policy s = run_cycle policy p s

  -- A policy that is not being deleted.
  unfoldable pub reconcile_kept : SrePolicy → Session → Run
  unfolding add_finalizer pause active_with contains_string
  reconcile_kept policy s =
      if not (contains_string policy.metadata.finalizers finalizer_name)
      then add_finalizer world policy s
      else (if policy.spec.paused then pause world policy s else active_with s.telemetry policy s)

  -- `DeletionTimestamp` decides.
  unfoldable pub reconcile_at : Option Time → SrePolicy → Session → Run
  unfolding handle_deletion reconcile_kept
  reconcile_at (some t) policy s = handle_deletion world policy s
  reconcile_at none policy s = reconcile_kept policy s

  unfoldable pub reconcile_policy : SrePolicy → Session → Run
  unfolding reconcile_at
  reconcile_policy policy s = reconcile_at policy.metadata.deletion_timestamp policy s

  unfoldable pub reconcile_lookup : Lookup SrePolicy → Session → Run
  unfolding reconcile_policy
  reconcile_lookup not_found s = record { session = s; effects = []; reply_of = reply nothing none }
  reconcile_lookup (broken err) s = record {
    session = s;
    effects = [];
    reply_of = reply nothing (some (str "get SREPolicy: " ++ err));
  }
  reconcile_lookup (found policy) s = reconcile_policy policy s

  unfoldable pub reconcile : Session → Run
  unfolding reconcile_lookup
  reconcile s = reconcile_lookup world.policy s
