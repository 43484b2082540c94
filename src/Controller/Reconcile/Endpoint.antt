-- ===== src/Controller/Reconcile/Endpoint.antt =====
-- When the telemetry provider is built anew.
use sre_operator.Common.{
  ◌≡◌, refl, Bool, true, false, ◌&&◌, ◌||◌, not, some, ◌==◌, eq_iff, if◌then◌else◌,
}
use sre_operator.Api.Types.{SrePolicyStatus, ObservabilitySpec}
use sre_operator.Api.Global.{SreGlobalConfig}
use sre_operator.Telemetry.{new_provider}
use sre_operator.Controller.Session.{Session, reconcile_otel}
use sre_operator.Controller.Cycle.{connect, connect_if, connect_to}
use sre_operator.Controller.World.{World}

module _ (world : World) where
  pub connected :
      (g : SreGlobalConfig) (o : ObservabilitySpec) (status : SrePolicyStatus) (s : Session)
      → g.spec.observability ≡ some o
      → (o.tracing_enabled || o.metrics_enabled || o.logs_enabled) ≡ true
      → (o.otel_endpoint == s.last_otel_endpoint) ≡ false
      → (connect world (some g) status s).1 ≡ record s {
        telemetry = some (new_provider world.exporters (some o));
        last_otel_endpoint = o.otel_endpoint;
      }
  unfolding connect connect_to reconcile_otel
  connected g o status s e w new = rw (e, connect_if) (rw w (rw new (rw (e, reconcile_otel) refl)))

  -- The endpoint that the session has already.
  pub known :
      (g : SreGlobalConfig) (o : ObservabilitySpec) (status : SrePolicyStatus) (s : Session)
      → g.spec.observability ≡ some o
      → o.otel_endpoint ≡ s.last_otel_endpoint
      → connect world (some g) status s ≡ (status, s)
  unfolding connect
  known g o status s e same =
      rw (e, connect_if) (kept (o.tracing_enabled || o.metrics_enabled || o.logs_enabled))
    where
      equal : (o.otel_endpoint == s.last_otel_endpoint) ≡ true
      equal = (eq_iff _ _).1 same

      kept :
          (b : Bool)
          → (if b && not (o.otel_endpoint == s.last_otel_endpoint)
              then connect_to world g o.otel_endpoint status s
              else (status, s))
            ≡ (status, s)
      kept true = rw equal refl
      kept false = refl
