-- ===== src/Controller/Reconcile/Sessions.antt =====
-- The reconciler's own fields over two cycles.
use sre_operator.Common.{
  ◌≡◌, ◌∙◌, refl, sym, ap, subst, true, false, ◌&&◌, ◌||◌, not, Option, none, some, List, [], ◌∷◌,
  ◌==◌, Bool-cases, Option-cases, inl, inr,
}
use sre_operator.Api.Types.{
  SrePolicy, SrePolicyStatus, PrometheusSpec, ObservabilitySpec, AlertTrigger, MetricQuery,
}
use sre_operator.Api.Global.{SreGlobalConfig, GlobalPrometheusSpec}
use sre_operator.Telemetry.{Provider, new_provider}
use sre_operator.Controller.Session.{Session, ensure_client, reconcile_otel}
use sre_operator.Controller.Session.Reused.{
  Holds, ensure_client-keeps, ensure_client-Holds, ensure_client-held,
}
use sre_operator.Controller.Gather.{
  PromOutcome, prom_specs, run_triggers, run_queries, run_prometheus_checks,
}
use sre_operator.Controller.Checks.{run_ocp_cluster_checks}
use sre_operator.Controller.Cycle.{config_of, connect, connect_if, connect_to, ocp_condition}
use sre_operator.Controller.Reconcile.{finish, conclude_cycle, run_cycle}
use sre_operator.Controller.Reconcile.Endpoint.{connected, known}
use sre_operator.Controller.World.{World}

prom_specs-same :
    (policy : SrePolicy) (status : SrePolicyStatus) (global : Option SreGlobalConfig)
    → prom_specs (record policy { status = status }) global ≡ prom_specs policy global
unfolding prom_specs
prom_specs-same policy status none = refl
prom_specs-same policy status (some g) = refl

module _ (world : World) where
  -- The session after the Prometheus checks.
  prom_session : Option (PrometheusSpec × GlobalPrometheusSpec) → Session → Session
  prom_session none s = s
  prom_session (some (p, g)) s = (ensure_client world.network g s).0

  run_triggers-session :
      (ts : List AlertTrigger) (status : SrePolicyStatus) (s : Session)
      → (run_triggers world ts status s).session ≡ s
  unfolding run_triggers
  run_triggers-session [] status s = refl
  run_triggers-session (t ∷ ts) status s = refl

  run_queries-session :
      (qs : List MetricQuery) (o : PromOutcome) → (run_queries world qs o).session ≡ o.session
  unfolding run_queries
  run_queries-session [] o = refl
  run_queries-session (q ∷ qs) o = refl

  run_prometheus_checks-session :
      (policy : SrePolicy) (global : Option SreGlobalConfig) (s : Session)
      → (run_prometheus_checks world policy global s).session
        ≡ prom_session (prom_specs policy global) s
  unfolding run_prometheus_checks prom_session
  run_prometheus_checks-session policy global s = elim (Option-cases (prom_specs policy global)) [
    | inl e ↦ rw (e, run_prometheus_checks, prom_session) refl
    | inr (pg, e) ↦
        rw (e, run_prometheus_checks, prom_session)
          (run_queries-session pg.0.metric_queries _
            ∙ run_triggers-session pg.0.alert_triggers policy.status
                (ensure_client world.network pg.1 s).0)
  ]

  run_cycle-session :
      (policy : SrePolicy) (p : Provider) (s : Session)
      → let global = config_of world.global_config in
        (run_cycle world policy p s).session
        ≡ prom_session (prom_specs policy global) (connect world global policy.status s).1
  unfolding run_cycle conclude_cycle finish
  run_cycle-session policy p s =
      let global = config_of world.global_config in
      let c = connect world global policy.status s in
      let status =
        ocp_condition world (run_ocp_cluster_checks world.ocp_checker policy.spec.ocp_cluster)
          c.0 in
      run_prometheus_checks-session (record policy { status = status }) global c.1
      ∙ ap (λ o. prom_session o c.1) (prom_specs-same policy status global)

  -- What the two parts leave of the session.
  prom_session-keeps :
      (o : Option (PrometheusSpec × GlobalPrometheusSpec)) (s : Session)
      → ((prom_session o s).telemetry ≡ s.telemetry)
        × ((prom_session o s).last_otel_endpoint ≡ s.last_otel_endpoint)
  unfolding prom_session
  prom_session-keeps none s = (refl, refl)
  prom_session-keeps (some (p, g)) s = ensure_client-keeps world.network g s

  reconcile_otel-keeps :
      (g : SreGlobalConfig) (s : Session) (o : Option ObservabilitySpec)
      → g.spec.observability ≡ o
      → ((reconcile_otel world.exporters g.spec s).prom_client ≡ s.prom_client)
        × ((reconcile_otel world.exporters g.spec s).last_prom_config ≡ s.last_prom_config)
  unfolding reconcile_otel
  reconcile_otel-keeps g s none e = rw (e, reconcile_otel) (refl, refl)
  reconcile_otel-keeps g s (some o) e = rw (e, reconcile_otel) (refl, refl)

  connect_if-keeps :
      (g : SreGlobalConfig) (o : Option ObservabilitySpec) (status : SrePolicyStatus) (s : Session)
      → ((connect_if world g o status s).1.prom_client ≡ s.prom_client)
        × ((connect_if world g o status s).1.last_prom_config ≡ s.last_prom_config)
  unfolding connect_if connect_to
  connect_if-keeps g none status s = (refl, refl)
  connect_if-keeps g (some o) status s =
      elim (Bool-cases (
        (o.tracing_enabled || o.metrics_enabled || o.logs_enabled)
        && not (o.otel_endpoint == s.last_otel_endpoint))) [
          | inl e ↦ rw e (reconcile_otel-keeps g s g.spec.observability refl)
          | inr e ↦ rw e (refl, refl)
        ]

  connect-keeps :
      (global : Option SreGlobalConfig) (status : SrePolicyStatus) (s : Session)
      → ((connect world global status s).1.prom_client ≡ s.prom_client)
        × ((connect world global status s).1.last_prom_config ≡ s.last_prom_config)
  unfolding connect
  connect-keeps none status s = (refl, refl)
  connect-keeps (some g) status s = connect_if-keeps g g.spec.observability status s

  -- A cycle that uses Prometheus leaves its client in the session.
  cycle-Holds :
      (policy : SrePolicy) (p : Provider) (s : Session) (spec : PrometheusSpec)
      (g : GlobalPrometheusSpec)
      → let global = config_of world.global_config in
        prom_specs policy global ≡ some (spec, g)
        → Holds world.network g
            (run_cycle world policy p s).session
            (ensure_client world.network g (connect world global policy.status s).1).1
  unfolding prom_session
  cycle-Holds policy p s spec g e =
      let before = (connect world (config_of world.global_config) policy.status s).1 in
      subst (λ x. Holds world.network g x (ensure_client world.network g before).1)
        (sym (run_cycle-session policy p s ∙ ap (λ o. prom_session o before) e))
        (ensure_client-Holds world.network g before)

  cycle-keeps :
      (policy : SrePolicy) (p : Provider) (s : Session)
      → let before = (connect world (config_of world.global_config) policy.status s).1 in
        ((run_cycle world policy p s).session.telemetry ≡ before.telemetry)
        × ((run_cycle world policy p s).session.last_otel_endpoint ≡ before.last_otel_endpoint)
  cycle-keeps policy p s =
      let global = config_of world.global_config in
      let before = (connect world global policy.status s).1 in
      let kept = prom_session-keeps (prom_specs policy global) before in
      (
        ap (λ (x : Session). x.telemetry) (run_cycle-session policy p s) ∙ kept.0,
        ap (λ (x : Session). x.last_otel_endpoint) (run_cycle-session policy p s) ∙ kept.1,
      )

-- A cycle that runs Prometheus checks leaves the client that it uses in the session. If the next cycle
-- runs them with the same two URLs and the same `InsecureSkipVerify`, it uses that client again and
-- leaves it there, whatever secret its configuration names for the token.
pub run_cycle-reuses :
    (w w' : World) (policy policy' : SrePolicy) (p p' : Provider) (s : Session)
    (spec spec' : PrometheusSpec) (g g' : GlobalPrometheusSpec)
    → prom_specs policy (config_of w.global_config) ≡ some (spec, g)
    → prom_specs policy' (config_of w'.global_config) ≡ some (spec', g')
    → g'.prometheus_url ≡ g.prometheus_url
    → g'.alert_manager_url ≡ g.alert_manager_url
    → g'.insecure_skip_verify ≡ g.insecure_skip_verify
    → let first =
        (ensure_client w.network g (connect w (config_of w.global_config) policy.status s).1).1 in
      let after = (run_cycle w policy p s).session in
      let second =
        (ensure_client w'.network g'
          (connect w' (config_of w'.global_config) policy'.status after).1).1 in
      let later = (run_cycle w' policy' p' after).session in
      (after.prom_client ≡ some first) × (second ≡ first) × (later.prom_client ≡ some first)
run_cycle-reuses w w' policy policy' p p' s spec spec' g g' e e' u a i =
    let h = cycle-Holds w policy p s spec g e in
    let after = (run_cycle w policy p s).session in
    let kept = connect-keeps w' (config_of w'.global_config) policy'.status after in
    let same = ensure_client-held w'.network g g' _ _ u a i (kept.0 ∙ h.0, kept.1 ∙ h.1) in
    let h' = cycle-Holds w' policy' p' after spec' g' e' in
    (h.0, ap (λ x. x.1) same, h'.0 ∙ ap (λ x. some x.1) same)

-- A cycle that meets an OTel endpoint other than the last one, with tracing, metrics or logs enabled,
-- leaves the telemetry provider for its configuration in the session. The next cycle, if its
-- configuration has the same endpoint, leaves that provider and the endpoint there, whatever it enables.
pub run_cycle-connects_once :
    (w w' : World) (policy policy' : SrePolicy) (p p' : Provider) (s : Session)
    (g g' : SreGlobalConfig) (o o' : ObservabilitySpec)
    → config_of w.global_config ≡ some g
    → config_of w'.global_config ≡ some g'
    → g.spec.observability ≡ some o
    → g'.spec.observability ≡ some o'
    → (o.tracing_enabled || o.metrics_enabled || o.logs_enabled) ≡ true
    → (o.otel_endpoint == s.last_otel_endpoint) ≡ false
    → o'.otel_endpoint ≡ o.otel_endpoint
    → let after = (run_cycle w policy p s).session in
      let later = (run_cycle w' policy' p' after).session in
      (after.telemetry ≡ some (new_provider w.exporters (some o)))
      × (after.last_otel_endpoint ≡ o.otel_endpoint)
      × (later.telemetry ≡ after.telemetry)
      × (later.last_otel_endpoint ≡ after.last_otel_endpoint)
run_cycle-connects_once w w' policy policy' p p' s g g' o o' c c' e e' wanted new same =
    let after = (run_cycle w policy p s).session in
    let k = cycle-keeps w policy p s in
    let k' = cycle-keeps w' policy' p' after in
    let built =
      ap (λ x. (connect w x policy.status s).1) c ∙ connected w g o policy.status s e wanted new in
    let endpoint = k.1 ∙ ap (λ (x : Session). x.last_otel_endpoint) built in
    let idle =
      ap (λ x. (connect w' x policy'.status after).1) c'
      ∙ ap (λ x. x.1) (known w' g' o' policy'.status after e' (same ∙ sym endpoint)) in
    (
      k.0 ∙ ap (λ (x : Session). x.telemetry) built,
      endpoint,
      k'.0 ∙ ap (λ (x : Session). x.telemetry) idle,
      k'.1 ∙ ap (λ (x : Session). x.last_otel_endpoint) idle,
    )
