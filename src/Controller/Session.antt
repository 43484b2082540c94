-- ===== src/Controller/Session.antt =====
-- The Prometheus client that the reconciler keeps between cycles, and `reconcileOTel`:
-- internal/controller/srepolicy_controller.go.
pub mod Reused
use sre_operator.Common.{
  Bool, true, false, ◌||◌, not, Option, none, some, List, [], ◌∷◌, ◌++◌, Text, str, ◌==◌,
  if◌then◌else◌,
}
use sre_operator.Api.Global.{GlobalPrometheusSpec, SecretKeySelector, SreGlobalConfigSpec}
use sre_operator.Prometheus.Client.{new_client}
use sre_operator.Prometheus.Network.{Client, Config, Network}
use sre_operator.Telemetry.{Provider, Exporters, new_provider}

-- The fields of `SREPolicyReconciler` that a cycle changes.
pub record Session : Type 0 where
  pub telemetry : Option Provider
  pub prom_client : Option Client
  pub last_prom_config : Text
  pub last_otel_endpoint : Text

-- `fmt.Sprintf("%v", b)`
bool_text : Bool → Text
bool_text true = str "true"
bool_text false = str "false"

unfoldable pub spec_key : GlobalPrometheusSpec → Text
unfolding bool_text
spec_key g =
    g.prometheus_url ++ b'|' ∷ g.alert_manager_url ++ b'|' ∷ bool_text g.insecure_skip_verify

-- The mounted path of a secret's key.
token_file : Option SecretKeySelector → Text
token_file none = []
token_file (some s) = str "/var/run/secrets/prometheus/" ++ s.name ++ b'/' ∷ s.key

unfoldable pub prom_config : GlobalPrometheusSpec → Config
unfolding token_file
prom_config g = record {
  prometheus_url = g.prometheus_url;
  alert_manager_url = g.alert_manager_url;
  insecure_skip_verify = g.insecure_skip_verify;
  bearer_token_path = token_file g.bearer_token_secret_ref;
}

module _ (net : Network) where
  build_client : GlobalPrometheusSpec → Session → Session × Client
  build_client g s =
      let c = new_client net (prom_config g) in
      (record s { prom_client = some c; last_prom_config = spec_key g }, c)

  reuse : Option Client → GlobalPrometheusSpec → Session → Session × Client
  unfolding build_client
  reuse none g s = build_client g s
  reuse (some c) g s =
      let built = build_client g s in
      if not (s.last_prom_config == spec_key g) then built else (s, c)

  -- `if r.promClient == nil || r.lastPromConfig != specKey`, and the client that is then used.
  unfoldable pub ensure_client : GlobalPrometheusSpec → Session → Session × Client
  unfolding reuse
  ensure_client g s = reuse s.prom_client g s

-- `reconcileOTel`, whose error is always nil.
unfoldable pub reconcile_otel : Exporters → SreGlobalConfigSpec → Session → Session
reconcile_otel ex config s = elim config.observability [
  | none ↦ s
  | some spec ↦ record s { telemetry = some (new_provider ex (some spec)) }
]
