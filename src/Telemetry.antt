-- ===== src/Telemetry.antt =====
-- internal/telemetry/telemetry.go. The OTLP exporters are not code of the program: whether each can
-- be built for an endpoint is an argument. The tracer that is used without tracing, whose spans do
-- nothing, is left out.
pub mod Globals
use sre_operator.Common.{
  Bool, false, ◌&&◌, Option, none, some, List, [], ◌∷◌, Text, str, ◌==◌, if◌then◌else◌,
}
use sre_operator.Api.Enums.{category_text}
use sre_operator.Api.Types.{ObservabilitySpec, CheckResult}

-- Whether the tracer is a real one, and whether there is a logger.
pub record Provider : Type 0 where
  pub tracing : Bool
  pub logger : Bool

pub record Exporters : Type 0 where
  pub traces : Text → Bool
  pub metrics : Text → Bool
  pub logs : Text → Bool

-- `NewProvider` returns no error, whatever becomes of the exporters.
unfoldable pub new_provider : Exporters → Option ObservabilitySpec → Provider
new_provider ex none = record { tracing = false; logger = false }
new_provider ex (some spec) = record {
  tracing = spec.tracing_enabled && ex.traces spec.otel_endpoint;
  logger = spec.logs_enabled && ex.logs spec.otel_endpoint;
}

pub data LogSeverity : Type 0 where
  info warn error : LogSeverity

pub record LogRecord : Type 0 where
  pub severity : LogSeverity
  pub body : Text
  pub attributes : List (Text × Text)

log_severity : Text → LogSeverity
log_severity status =
    if status == str "Failed"
    then LogSeverity.error
    else (if status == str "Degraded" then LogSeverity.warn else LogSeverity.info)

-- What `LogRecord` and `LogSummary` emit, if there is a logger.
unfoldable pub log_record : Provider → CheckResult → List LogRecord
unfolding log_severity category_text
log_record p f =
    if p.logger
    then record {
      severity = log_severity f.status;
      body = f.message;
      attributes =
          (str "checkName", f.check_name)
          ∷ (str "category", category_text f.category)
          ∷ (str "resource", f.resource_ref)
          ∷ (str "status", f.status)
          ∷ [];
    }
      ∷ []
    else []

unfoldable pub log_summary : Provider → Text → List LogRecord
log_summary p summary =
    if p.logger
    then record {
      severity = LogSeverity.info;
      body = summary;
      attributes = (str "type", str "log-collection-summary") ∷ [];
    }
      ∷ []
    else []
