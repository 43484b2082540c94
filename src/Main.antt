-- ===== src/Main.antt =====
-- main.go. The flags are given as they are parsed; the manager and the clients are not code of the
-- program, so `host` says which of the calls fails. The logger, the configuration of
-- the cluster and `init` are left out.
pub mod Started
pub mod Running
use sre_operator.Common.{ℕ, Bool, Option, none, some, List, [], ◌∷◌, Text, str}
use sre_operator.Controller.Session.{Session}

pub record Flags : Type 0 where
  pub metrics_addr : Text
  pub enable_leader_election : Bool
  pub probe_addr : Text

-- `ctrl.Options`, without the scheme.
pub record ManagerOptions : Type 0 where
  pub bind_address : Text
  pub health_probe_bind_address : Text
  pub leader_election : Bool
  pub leader_election_id : Text

pub data Call : Type 0 where
  new_manager : ManagerOptions → Call
  new_kube_client : Call
  -- `SetupWithManager` of the reconciler; its own fields are as the session says.
  setup_with_manager : Session → Call
  add_healthz_check add_readyz_check : Text → Call
  start : Call

-- The fields that the composite literal does not set.
abbrev pub initial_session : Session
initial_session = record {
  telemetry = none;
  prom_client = none;
  last_prom_config = [];
  last_otel_endpoint = [];
}

abbrev pub manager_options : Flags → ManagerOptions
manager_options flags = record {
  bind_address = flags.metrics_addr;
  health_probe_bind_address = flags.probe_addr;
  leader_election = flags.enable_leader_election;
  leader_election_id = str "12345678.kubevirt.io";
}

-- The calls that were made, and the exit status.
pub record Exit : Type 0 where
  pub calls : List Call
  pub status : ℕ

-- `if err := c; err != nil { os.Exit(1) }`, and the rest of the program otherwise.
pub attempt : (Call → Option Text) → Call → Exit → Exit
attempt host c rest = elim (host c) [
  | some err ↦ record { calls = c ∷ []; status = 1 }
  | none ↦ record { calls = c ∷ rest.calls; status = rest.status }
]

unfoldable pub main : (Call → Option Text) → Flags → Exit
unfolding attempt
main host flags = attempt host (new_manager (manager_options flags)) (
    attempt host new_kube_client (
      attempt host (setup_with_manager initial_session) (
        attempt host (add_healthz_check (str "healthz")) (
          attempt host (add_readyz_check (str "readyz"))
            (attempt host start (record { calls = []; status = 0 }))))))
