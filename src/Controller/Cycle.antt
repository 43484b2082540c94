-- ===== src/Controller/Cycle.antt =====
-- `Reconcile` of internal/controller/srepolicy_controller.go, with `handleDeletion` and `updatePhase`.
use sre_operator.Common.{
  ℕ, suc, ◌+◌, ◌-◌, ◌%◌, ◌*◌, Bool, true, false, ◌&&◌, ◌||◌, not, Option, none, some, List, [], ◌∷◌,
  ◌++◌, map, Text, str, ◌==◌, ℤ, pos, negsuc, length, ltb, decimal, if◌then◌else◌,
}
use sre_operator.Api.Enums.{RemediationAction}
use sre_operator.Api.Types.{
  SrePolicy, SrePolicyStatus, CheckResult, ObservabilitySpec, NotificationsSpec,
}
use sre_operator.Api.Global.{SreGlobalConfig}
use sre_operator.Prometheus.Stubs.{AlertTriggerResult}
use sre_operator.Remediation.Engine.{AlertDispatchResult}
use sre_operator.Telemetry.{Provider, log_record}
use sre_operator.Controller.Findings.{cap_findings, count_by_severity}
use sre_operator.Controller.Conditions.{set_condition}
use sre_operator.Controller.Strings.{contains_string, remove_string}
use sre_operator.Controller.Interval.{minimum_interval}
use sre_operator.Controller.Session.{Session, reconcile_otel}
use sre_operator.Controller.Gather.{rotate}
use sre_operator.Controller.World.{World, Lookup, found, Effect, updated, status_updated, logged}

-- `ctrl.Result`, the delay in seconds.
pub record CtrlResult : Type 0 where
  pub requeue : Bool
  pub requeue_after : ℕ

pub data Reply : Type 0 where
  reply : CtrlResult → Option Text → Reply
  -- A nil pointer is followed.
  panicked : Reply

pub record Run : Type 0 where
  pub session : Session
  pub effects : List Effect
  pub reply_of : Reply

abbrev pub finalizer_name : Text
finalizer_name = str "sre.kubevirt.io/finalizer"

abbrev pub nothing : CtrlResult
nothing = record { requeue = false; requeue_after = 0 }

-- The conversion `int32(n)`.
unfoldable pub to_int32 : ℕ → ℤ
to_int32 n = let m = n % 4294967296 in if ltb m 2147483648 then pos m else negsuc (4294967295 - m)

no_error : Option Text → Bool
no_error none = true
no_error (some e) = false

remediates : RemediationAction → Bool
remediates RemediationAction.alert = false
remediates RemediationAction.none = false
remediates RemediationAction.diagnose = false
remediates _ = true

-- A dispatched action counts as a remediation.
counts : AlertDispatchResult → Bool
unfolding no_error remediates
counts dr = not dr.skipped && no_error dr.error && remediates dr.action

unfoldable pub count_dispatched : List AlertDispatchResult → ℕ
unfolding counts
count_dispatched [] = 0
count_dispatched (dr ∷ drs) =
    let rest = count_dispatched drs in if counts dr then suc rest else rest

set_trace_id : Text → CheckResult → CheckResult
set_trace_id trace_id f = record f { trace_id = trace_id }

unfoldable pub names_of : List AlertTriggerResult → List Text
names_of [] = []
names_of (t ∷ ts) = t.alert_name ∷ names_of ts

-- The namespaces to check.
unfoldable pub target_namespaces : SrePolicy → Option SreGlobalConfig → List Text
target_namespaces policy global = elim policy.spec.target_namespaces [
  | n ∷ ns ↦ n ∷ ns
  | [] ↦ elim global [
    | none ↦ [] ∷ []
    | some g ↦ elim g.spec.defaults [
      | none ↦ [] ∷ []
      | some d ↦ (if d.vm_namespace == [] then [] else d.vm_namespace) ∷ []
    ]
  ]
]

unfoldable pub config_of : Lookup SreGlobalConfig → Option SreGlobalConfig
config_of (found g) = some g
config_of _ = none

unfoldable pub log_records : Provider → List CheckResult → List Effect
unfolding log_record
log_records p [] = []
log_records p (f ∷ fs) = map logged (log_record p f) ++ log_records p fs

unfoldable pub events_enabled : Option NotificationsSpec → Bool
events_enabled none = true
events_enabled (some n) = n.events_enabled

module _ (world : World) where
  unfoldable pub handle_deletion : SrePolicy → Session → Run
  unfolding contains_string remove_string
  handle_deletion policy s =
      let released = record policy {
        metadata = record policy.metadata {
          finalizers = remove_string policy.metadata.finalizers finalizer_name;
        };
      } in
      if contains_string policy.metadata.finalizers finalizer_name
      then record {
        session = s;
        effects = updated released ∷ [];
        reply_of = reply nothing (world.update released);
      }
      else record { session = s; effects = []; reply_of = reply nothing none }

  -- The reply after `updatePhase`, where no error of the cycle is passed on.
  unfoldable pub phase_reply : Option Text → (on_error after : ℕ) → Reply
  phase_reply none on_error after = reply (record { requeue = false; requeue_after = after }) none
  phase_reply (some err) on_error after =
      reply (record { requeue = false; requeue_after = on_error })
        (some (str "update status: " ++ err))

  unfoldable pub update_phase : SrePolicy → Text → SrePolicy
  update_phase policy phase = record policy { status = record policy.status { phase = phase } }

  unfoldable pub finalizer_reply : Option Text → Reply
  finalizer_reply none = reply (record { requeue = true; requeue_after = 0 }) none
  finalizer_reply (some err) = reply nothing (some (str "add finalizer: " ++ err))

  unfoldable pub add_finalizer : SrePolicy → Session → Run
  unfolding finalizer_reply
  add_finalizer policy s =
      let held = record policy {
        metadata = record policy.metadata {
          finalizers = policy.metadata.finalizers ++ finalizer_name ∷ [];
        };
      } in
      record {
        session = s;
        effects = updated held ∷ [];
        reply_of = finalizer_reply (world.update held);
      }

  unfoldable pub pause : SrePolicy → Session → Run
  unfolding phase_reply update_phase
  pause policy s =
      let paused = update_phase policy (str "Paused") in
      record {
        session = s;
        effects = status_updated paused ∷ [];
        reply_of = phase_reply (world.update_status paused) 0 60;
      }

  -- `setCondition` with the clock.
  unfoldable pub set_now : Text → Text → Text → Text → SrePolicyStatus → SrePolicyStatus
  unfolding set_condition
  set_now type value reason message =
      set_condition (world.condition_time type) type value reason message

  -- The provider for the endpoint; `reconcileOTel` returns no error.
  unfoldable pub connect_to :
      SreGlobalConfig → Text → SrePolicyStatus → Session → SrePolicyStatus × Session
  unfolding reconcile_otel set_now
  connect_to g endpoint status s = (
    record (set_now (str "OTelHealthy") (str "True") (str "ObservabilityConnected")
        (str "OTel endpoint reachable") status) { observability_endpoint_reachable = some true },
    record (reconcile_otel world.exporters g.spec s) { last_otel_endpoint = endpoint },
  )

  -- The test for a new OTel endpoint.
  unfoldable pub connect_if :
      SreGlobalConfig
      → Option ObservabilitySpec
      → SrePolicyStatus
      → Session
      → SrePolicyStatus × Session
  unfolding connect_to
  connect_if g none status s = (status, s)
  connect_if g (some o) status s =
      if (o.tracing_enabled || o.metrics_enabled || o.logs_enabled)
        && not (o.otel_endpoint == s.last_otel_endpoint)
      then connect_to g o.otel_endpoint status s
      else (status, s)

  unfoldable pub connect :
      Option SreGlobalConfig → SrePolicyStatus → Session → SrePolicyStatus × Session
  unfolding connect_if
  connect none status s = (status, s)
  connect (some g) status s = connect_if g g.spec.observability status s

  unfoldable pub ocp_condition : List CheckResult × Bool → SrePolicyStatus → SrePolicyStatus
  unfolding set_now
  ocp_condition (findings, healthy) status =
      let status' = record status { ocp_cluster_healthy = some healthy } in
      if not healthy
      then set_now (str "OCPClusterHealthy") (str "False") (str "OCPClusterDegraded")
          (decimal (length findings) ++ str " OCP cluster findings") status'
      else set_now (str "OCPClusterHealthy") (str "True") (str "OCPClusterHealthy")
          (str "All ClusterOperators, ClusterVersion, and MCPs healthy") status'

  -- The findings with the trace id of the report, and the rotation after it.
  unfoldable pub diagnose :
      SrePolicy → Option SreGlobalConfig → List CheckResult → ℕ → List CheckResult × List Effect
  unfolding set_trace_id rotate
  diagnose policy global findings remediations =
      elim (world.aggregator.build policy findings remediations) [
        | none ↦ (findings, [])
        | some trace_id ↦ (
          (if not (trace_id == []) then map (set_trace_id trace_id) findings else findings),
          elim (world.aggregator.persist trace_id policy.metadata.namespace) [
            | some err ↦ []
            | none ↦
                rotate world global policy.metadata.namespace
                  (str "sre.kubevirt.io/component=diagnostics")
          ],
        )
      ]

  -- The status of the end of a cycle. `findings` are all of them.
  unfoldable pub final_status :
      SrePolicy → List CheckResult → (remediations alerts : ℕ) → SrePolicyStatus → SrePolicyStatus
  unfolding set_now to_int32 cap_findings count_by_severity minimum_interval
  final_status policy findings remediations alerts status =
      let (capped, all) = cap_findings findings in
      let c = count_by_severity all in
      set_now (str "Ready") (str "True") (str "CheckCycleComplete")
        (str "Cycle: "
          ++ decimal c.healthy
          ++ str " healthy, "
          ++ decimal c.degraded
          ++ str " degraded, "
          ++ decimal c.failed
          ++ str " failed | alerts: "
          ++ decimal alerts
          ++ str " | scan: "
          ++ world.scan_seconds
          ++ str "s")
        (record status {
          findings = capped;
          last_scan_time = some world.end_time;
          next_scan_time = some (world.end_time + minimum_interval policy.spec.checks * 1000000000);
          total_checks = to_int32 (length all);
          remediations_applied = to_int32 remediations;
          observed_generation = policy.metadata.generation;
          healthy_count = to_int32 c.healthy;
          degraded_count = to_int32 c.degraded;
          failed_count = to_int32 c.failed;
          phase = if ltb 0 c.failed then str "Degraded" else str "Active";
        })
