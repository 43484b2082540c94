-- ===== src/Telemetry/Globals.antt =====
-- The process-wide providers that `NewProvider` of internal/telemetry/telemetry.go sets.
use sre_operator.Common.{
  Bool, ◌&&◌, ◌≡◌, refl, Option, none, some, List, [], ◌∷◌, Text, if◌then◌else◌, Bool-cases, inl,
  inr,
}
use sre_operator.Api.Types.{ObservabilitySpec}
use sre_operator.Telemetry.{Exporters}

-- The endpoint that each provider exports to, once one is set.
pub record Globals : Type 0 where
  pub tracer_provider : Option Text
  pub meter_provider : Option Text
  pub logger_provider : Option Text

-- What `NewProvider` sets, step by step.
set_tracer_provider : Exporters → ObservabilitySpec → Globals → Globals
set_tracer_provider ex spec g =
    if spec.tracing_enabled && ex.traces spec.otel_endpoint
    then record g { tracer_provider = some spec.otel_endpoint }
    else g

set_tracer_provider-if :
    (ex : Exporters) (spec : ObservabilitySpec) (g : Globals)
    → set_tracer_provider ex spec g ≡ record g {
      tracer_provider =
          if spec.tracing_enabled && ex.traces spec.otel_endpoint
          then some spec.otel_endpoint
          else g.tracer_provider;
    }
unfolding set_tracer_provider
set_tracer_provider-if ex spec g =
    elim (Bool-cases (spec.tracing_enabled && ex.traces spec.otel_endpoint)) [
      | inl e ↦ rw e refl
      | inr e ↦ rw e refl
    ]

set_meter_provider : Exporters → ObservabilitySpec → Globals → Globals
set_meter_provider ex spec g =
    if spec.metrics_enabled && ex.metrics spec.otel_endpoint
    then record g { meter_provider = some spec.otel_endpoint }
    else g

set_meter_provider-if :
    (ex : Exporters) (spec : ObservabilitySpec) (g : Globals)
    → set_meter_provider ex spec g ≡ record g {
      meter_provider =
          if spec.metrics_enabled && ex.metrics spec.otel_endpoint
          then some spec.otel_endpoint
          else g.meter_provider;
    }
unfolding set_meter_provider
set_meter_provider-if ex spec g =
    elim (Bool-cases (spec.metrics_enabled && ex.metrics spec.otel_endpoint)) [
      | inl e ↦ rw e refl
      | inr e ↦ rw e refl
    ]

set_logger_provider : Exporters → ObservabilitySpec → Globals → Globals
set_logger_provider ex spec g =
    if spec.logs_enabled && ex.logs spec.otel_endpoint
    then record g { logger_provider = some spec.otel_endpoint }
    else g

set_logger_provider-if :
    (ex : Exporters) (spec : ObservabilitySpec) (g : Globals)
    → set_logger_provider ex spec g ≡ record g {
      logger_provider =
          if spec.logs_enabled && ex.logs spec.otel_endpoint
          then some spec.otel_endpoint
          else g.logger_provider;
    }
unfolding set_logger_provider
set_logger_provider-if ex spec g =
    elim (Bool-cases (spec.logs_enabled && ex.logs spec.otel_endpoint)) [
      | inl e ↦ rw e refl
      | inr e ↦ rw e refl
    ]

unfoldable pub install : Exporters → Option ObservabilitySpec → Globals → Globals
unfolding set_tracer_provider set_meter_provider set_logger_provider
install ex none g = g
install ex (some spec) g =
    set_logger_provider ex spec (set_meter_provider ex spec (set_tracer_provider ex spec g))

-- The providers after a sequence of calls of `NewProvider`.
unfoldable pub install_all : Exporters → List (Option ObservabilitySpec) → Globals → Globals
unfolding install
install_all ex [] g = g
install_all ex (spec ∷ specs) g = install_all ex specs (install ex spec g)

-- The endpoint of the last specification with a property.
pub last_endpoint :
    (ObservabilitySpec → Bool) → List (Option ObservabilitySpec) → Option Text → Option Text
last_endpoint p [] before = before
last_endpoint p (none ∷ specs) before = last_endpoint p specs before
last_endpoint p (some spec ∷ specs) before =
    last_endpoint p specs (if p spec then some spec.otel_endpoint else before)

-- Each process-wide provider exports to the endpoint of the last call that enabled its signal and
-- could build its exporter: later calls that disable the signal, or fail, leave it.
pub install_all-last :
    (ex : Exporters) (specs : List (Option ObservabilitySpec)) (g : Globals)
    → install_all ex specs g ≡ record {
      tracer_provider =
          last_endpoint
            (λ o. o.tracing_enabled && ex.traces o.otel_endpoint)
            specs
            g.tracer_provider;
      meter_provider =
          last_endpoint
            (λ o. o.metrics_enabled && ex.metrics o.otel_endpoint)
            specs
            g.meter_provider;
      logger_provider =
          last_endpoint (λ o. o.logs_enabled && ex.logs o.otel_endpoint) specs g.logger_provider;
    }
unfolding install_all install last_endpoint
install_all-last ex [] g = refl
install_all-last ex (none ∷ specs) g = install_all-last ex specs g
install_all-last ex (some spec ∷ specs) g =
    rw
      (
        install_all-last ex specs _,
        set_logger_provider-if ex spec _,
        set_meter_provider-if ex spec _,
        set_tracer_provider-if ex spec _,
      )
      refl
