-- ===== src/Tests/Main.antt =====
-- Examples for main.go and internal/telemetry/telemetry.go.
use sre_operator.Common.{
  ◌⊎◌, All, ◌≡◌, ◌↔◌, refl, Option, none, some, List, [], ◌∷◌, ◌&&◌, Text, str, true, false,
}
use sre_operator.Api.Types.{ObservabilitySpec}
use sre_operator.Main.{Flags, Call, start, initial_session, main}
use sre_operator.Main.Started.{startup, Follows, main-Follows}
use sre_operator.Main.Running.{Reachable, boot, cycle, LeavesFindings, Reachable-panics}
use sre_operator.Controller.Session.{Session}
use sre_operator.Controller.Cycle.{panicked}
use sre_operator.Controller.Reconcile.{reconcile}
use sre_operator.Controller.Reconcile.Guards.{is_active}
use sre_operator.Telemetry.{Exporters}
use sre_operator.Telemetry.Globals.{Globals, install_all, last_endpoint, install_all-last}
use sre_operator.Tests.Reconcile.{world, policy, deleted}

abbrev flags : Flags
flags = record {
  metrics_addr = str ":8080";
  enable_leader_election = true;
  probe_addr = str ":8081";
}

-- The manager cannot be started.
abbrev host : Call → Option Text
host start = some (str "lost lease")
host _ = none

main-Follows_example : Follows host (startup flags) (main host flags)
main-Follows_example = main-Follows host flags

-- The session after the deletion of a policy.
abbrev later : Session
later = (reconcile (world deleted) initial_session).session

later-Reachable : Reachable later
later-Reachable = cycle (world deleted) boot refl

Reachable-panics_example :
    let run = reconcile (world policy) later in
    (later ≡ initial_session)
    × ((run.reply_of ≡ panicked) ↔ (is_active policy ≡ true))
    × ((run.effects ≡ []) ⊎ (is_active policy ≡ false))
    × All (LeavesFindings policy) run.effects
Reachable-panics_example = Reachable-panics later later-Reachable (world policy) policy refl

abbrev exporters : Exporters
exporters = record {
  traces = λ endpoint. true;
  metrics = λ endpoint. true;
  logs = λ endpoint. false;
}

abbrev first_spec : ObservabilitySpec
first_spec = record {
  otel_endpoint = str "old:4317";
  tracing_enabled = true;
  metrics_enabled = true;
  logs_enabled = true;
}

abbrev second_spec : ObservabilitySpec
second_spec = record first_spec { otel_endpoint = str "new:4317"; tracing_enabled = false }

abbrev specs : List (Option ObservabilitySpec)
specs = some first_spec ∷ some second_spec ∷ none ∷ []

abbrev unset : Globals
unset = record { tracer_provider = none; meter_provider = none; logger_provider = none }

install_all-last_example : install_all exporters specs unset ≡ record {
  tracer_provider =
      last_endpoint (λ o. o.tracing_enabled && exporters.traces o.otel_endpoint) specs none;
  meter_provider =
      last_endpoint (λ o. o.metrics_enabled && exporters.metrics o.otel_endpoint) specs none;
  logger_provider =
      last_endpoint (λ o. o.logs_enabled && exporters.logs o.otel_endpoint) specs none;
}
install_all-last_example = install_all-last exporters specs unset

-- The traces still go to the old endpoint, and the logs nowhere.
old_traces : install_all exporters specs unset ≡ record {
  tracer_provider = some (str "old:4317");
  meter_provider = some (str "new:4317");
  logger_provider = none;
}
unfolding install_all
old_traces = refl
