-- ===== src/Controller/World.antt =====
-- What one call of `Reconcile` meets outside of the operator's own code, and what it does to it:
-- internal/controller/srepolicy_controller.go. Clock readings are fields, one for each place.
use sre_operator.Common.{ℕ, Option, none, some, List, [], Text}
use sre_operator.Api.Types.{Time, SrePolicy, CheckResult}
use sre_operator.Api.Global.{SreGlobalConfig}
use sre_operator.Diagnostics.Pods.{Environment}
use sre_operator.Prometheus.Network.{Network}
use sre_operator.Telemetry.{Exporters, LogRecord}
use sre_operator.Controller.Checks.{Checker, Registry}
use sre_operator.Controller.Events.{Event}
use sre_operator.Controller.Rotation.{ConfigMap, ConfigMaps}

-- `r.Get`
pub data Lookup (A : Type 0) : Type 0 where
  found : A → Lookup A
  not_found : Lookup A
  broken : Text → Lookup A

-- `diagnostics.Aggregator`: the trace id of the report that `Build` makes, unless it fails, and the
-- error of `PersistToConfigMap`, if it has one.
pub record Aggregator : Type 0 where
  pub build : SrePolicy → List CheckResult → ℕ → Option Text
  pub persist : (trace_id namespace : Text) → Option Text

-- The aggregator of internal/diagnostics/stubs.go.
abbrev pub stub_aggregator : Aggregator
stub_aggregator = record {
  build = λ policy findings remediations. some [];
  persist = λ trace_id namespace. none;
}

-- The ConfigMap with a log summary; its name is generated.
pub record LogSummary : Type 0 where
  pub namespace : Text
  pub summary : Text
  pub last_updated : Text

pub record World : Type 1 where
  pub policy : Lookup SrePolicy
  pub global_config : Lookup SreGlobalConfig
  -- The errors of `Update`, `Status().Update` and `Create`, if they have one.
  pub update : SrePolicy → Option Text
  pub update_status : SrePolicy → Option Text
  pub create : LogSummary → Option Text
  pub config_maps : ConfigMaps
  pub registry : Registry
  pub ocp_checker : Checker
  pub aggregator : Aggregator
  pub network : Network
  pub exporters : Exporters
  -- `KubeClient`, with all that the log collector needs; `none` is nil.
  pub logs : Option Environment
  pub rfc3339 : Time → Text
  -- When the condition of a type is set, when the log findings are made, and when the scan ends.
  pub condition_time : Text → Time
  pub finding_time : Time
  pub end_time : Time
  -- The duration of the scan, as "%.1f" prints it.
  pub scan_seconds : Text

-- The calls that are made, those that fail included.
pub data Effect : Type 0 where
  updated : SrePolicy → Effect
  status_updated : SrePolicy → Effect
  created : LogSummary → Effect
  deleted : ConfigMap → Effect
  emitted : Event → Effect
  logged : LogRecord → Effect
