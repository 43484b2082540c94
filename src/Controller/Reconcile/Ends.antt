-- ===== src/Controller/Reconcile/Ends.antt =====
-- How a cycle ends.
use sre_operator.Common.{
  ℕ, ◌+◌, ◌↔◌, ◌≤◌, ◌≡◌, refl, false, Option, none, some, List, [], ◌∷◌, ◌++◌, map, Text, str,
  length, ltb, ltb→lt, if◌then◌else◌, Bool-cases, inl, inr, arith,
}
use sre_operator.Api.Types.{ObjectMeta, SrePolicySpec, SrePolicy, SrePolicyStatus, CheckResult}
use sre_operator.Api.Global.{SreGlobalConfig}
use sre_operator.Telemetry.{Provider}
use sre_operator.Controller.Findings.{cap_findings, count_by_severity}
use sre_operator.Controller.Findings.Capped.{cap_findings-IsCapped}
use sre_operator.Controller.Findings.Counted.{Reports, count_by_severity-failed_iff}
use sre_operator.Controller.Interval.{minimum_interval, minimum_interval_bounds}
use sre_operator.Controller.Session.{Session}
use sre_operator.Controller.Cycle.{
  CtrlResult, reply, Run, final_status, set_now, log_records, events_enabled, to_int32, names_of,
  count_dispatched, diagnose, config_of, connect, target_namespaces, ocp_condition, phase_reply,
}
use sre_operator.Controller.Conditions.{set_condition}
use sre_operator.Controller.Reconcile.{current, finish, conclude_cycle, run_cycle}
use sre_operator.Controller.World.{World, Effect, status_updated, emitted}
use sre_operator.Controller.Gather.{
  PromOutcome, logs_enabled, run_log_collection, run_prometheus_checks,
}
use sre_operator.Controller.Checks.{run_built_in_checks, run_ocp_cluster_checks}
use sre_operator.Controller.Events.{emit_events}

-- The phase says what the counts say of the findings `fs`.
abbrev pub PhaseAgrees : SrePolicyStatus → List CheckResult → Type 0
PhaseAgrees status fs =
    (Reports (str "Failed") [] fs → status.phase ≡ str "Degraded")
    × (¬ Reports (str "Failed") [] fs → status.phase ≡ str "Active")

-- A run that ends with an update of the status, for the policy with that metadata and specification,
-- and nothing behind it.
pub record EndsWell (world : World) (m : ObjectMeta) (spec : SrePolicySpec) (run : Run)
    : Type 0 where
  pub before : List Effect
  pub written : SrePolicy
  pub last : run.effects ≡ before ++ status_updated written ∷ []
  pub bounded : length written.status.findings ≤ 500
  pub same : (written.metadata ≡ m) × (written.spec ≡ spec)
  pub generation : written.status.observed_generation ≡ m.generation
  pub all_findings : List CheckResult
  pub shown : written.status.findings ≡ (cap_findings all_findings).0
  pub phase : PhaseAgrees written.status (cap_findings all_findings).1
  pub result : CtrlResult
  pub error : Option Text
  pub replied : run.reply_of ≡ reply result error
  pub fails_iff : (error ≡ none) ↔ (world.update_status written ≡ none)
  pub soon : (30 ≤ result.requeue_after) × (result.requeue_after ≤ 60)

module _ (world : World) where
  final_status-phase :
      (policy : SrePolicy) (fs : List CheckResult) (n k : ℕ) (status : SrePolicyStatus)
      → PhaseAgrees (final_status world policy fs n k status) (cap_findings fs).1
  unfolding final_status set_now set_condition
  final_status-phase policy fs n k status =
      let failed = (count_by_severity (cap_findings fs).1).failed in
      let agrees = count_by_severity-failed_iff (cap_findings fs).1 in
      elim (Bool-cases (ltb 0 failed)) [
        | inl e ↦ rw e (λ r. refl, λ no. absurd (no (agrees.0 (ltb→lt 0 failed e))))
        | inr e ↦ rw e (λ r. absurd (ground (arith, agrees.1 r)), λ no. refl)
      ]

  error_of : Option Text → Option Text
  error_of none = none
  error_of (some err) = some (str "update status: " ++ err)

  error_of_iff : (o : Option Text) → (error_of o ≡ none) ↔ (o ≡ none)
  unfolding error_of
  error_of_iff none = (λ h. refl, λ h. refl)
  error_of_iff (some err) = (λ h. cc, λ h. cc)

  phase_reply-reply :
      (o : Option Text) (i : ℕ)
      → phase_reply world o i i ≡ reply (record { requeue = false; requeue_after = i }) (error_of o)
  unfolding phase_reply error_of
  phase_reply-reply none i = refl
  phase_reply-reply (some err) i = refl

  finish-EndsWell :
      (policy : SrePolicy) (global : Option SreGlobalConfig) (p : Provider) (fs : List CheckResult)
      (n k : ℕ) (s : Session) (before : List Effect)
      → EndsWell world policy.metadata policy.spec (finish world policy global p fs n k s before)
  unfolding finish
  finish-EndsWell policy global p fs n k s earlier =
      let interval = minimum_interval policy.spec.checks in
      let done = record policy { status = final_status world policy fs n k policy.status } in
      record {
        before =
            earlier
            ++ (if logs_enabled global then log_records p fs else [])
            ++ (if events_enabled policy.spec.notifications
                then map emitted (emit_events (cap_findings fs).1)
                else []);
        written = done;
        last = refl;
        bounded = unfold final_status set_now set_condition in (cap_findings-IsCapped fs).1.bounded;
        generation = unfold final_status set_now set_condition in refl;
        all_findings = fs;
        shown = unfold final_status set_now set_condition in refl;
        phase = final_status-phase policy fs n k policy.status;
        result = record { requeue = false; requeue_after = interval };
        same = (refl, refl);
        error = error_of (world.update_status done);
        fails_iff = error_of_iff (world.update_status done);
        replied = phase_reply-reply (world.update_status done) interval;
        soon = (
          (minimum_interval_bounds policy.spec.checks).0,
          (minimum_interval_bounds policy.spec.checks).1,
        );
      }

  conclude_cycle-EndsWell :
      (policy : SrePolicy) (global : Option SreGlobalConfig) (p : Provider) (fs : List CheckResult)
      (n : ℕ) (prom : PromOutcome)
      → EndsWell world policy.metadata policy.spec (conclude_cycle world policy global p fs n prom)
  unfolding conclude_cycle
  conclude_cycle-EndsWell policy global p fs n prom =
      let policy' = record policy {
        status = record prom.status {
          firing_alert_count = to_int32 (length prom.triggered);
          firing_alert_names = names_of prom.triggered;
        };
      } in
      let m = n + count_dispatched prom.dispatched in
      let logs = run_log_collection world policy' global p prom.triggered in
      let d = diagnose world policy' global (fs ++ prom.findings ++ logs.findings) m in
      finish-EndsWell policy' global p d.0 m (length prom.triggered) prom.session
        (logs.effects ++ d.1)

  -- A cycle of a policy ends with one update of its status, behind all other calls. It writes the
  -- generation that it has observed and at most 500 findings, which are the capped list of some list
  -- of findings; the phase is "Degraded" if one in that list, in the order in which the cap leaves it,
  -- has the status "Failed" and is the first of its resource, and "Active" if none is. The reply has a
  -- requeue interval of 30 to 60 seconds, and an error exactly if the update fails.
  pub run_cycle-EndsWell :
      (policy : SrePolicy) (p : Provider) (s : Session)
      → EndsWell world policy.metadata policy.spec (run_cycle world policy p s)
  unfolding run_cycle
  run_cycle-EndsWell policy p s =
      let global = config_of world.global_config in
      let c = connect world global policy.status s in
      let built_in =
        run_built_in_checks world.registry policy.spec.checks (target_namespaces policy global) in
      let ocp = run_ocp_cluster_checks world.ocp_checker policy.spec.ocp_cluster in
      let policy' = record policy { status = ocp_condition world ocp c.0 } in
      conclude_cycle-EndsWell policy' global (current world p c.1) (built_in.findings ++ ocp.0)
        built_in.remediations (run_prometheus_checks world policy' global c.1)
