-- ===== src/Controller/Session/Reused.antt =====
-- What `ensure_client` does to the session.
use sre_operator.Common.{
  ◌≡◌, ◌∙◌, refl, sym, Option, none, some, ◌==◌, eq_refl, eq_iff, Bool-cases, inl, inr,
}
use sre_operator.Api.Global.{GlobalPrometheusSpec}
use sre_operator.Prometheus.Network.{Client, Network}
use sre_operator.Controller.Session.{Session, spec_key, build_client, reuse, ensure_client}

module _ (net : Network) where
  -- The session holds a client and the key of this specification.
  abbrev pub Holds : GlobalPrometheusSpec → Session → Client → Type 0
  Holds g s c = (s.prom_client ≡ some c) × (s.last_prom_config ≡ spec_key g)

  reuse-Holds :
      (o : Option Client) (g : GlobalPrometheusSpec) (s : Session)
      → s.prom_client ≡ o
      → Holds g (reuse net o g s).0 (reuse net o g s).1
  unfolding reuse build_client
  reuse-Holds none g s e = (refl, refl)
  reuse-Holds (some c) g s e = elim (Bool-cases (s.last_prom_config == spec_key g)) [
    | inl same ↦ rw same (e, (eq_iff _ _).0 same)
    | inr differs ↦ rw differs (refl, refl)
  ]

  held :
      (g : GlobalPrometheusSpec) (s : Session) (c : Client)
      → Holds g s c
      → ensure_client net g s ≡ (s, c)
  unfolding ensure_client reuse
  held g s c h = rw (h.0, h.1, eq_refl (spec_key g)) refl

  -- What `ensure_client` leaves of the session.
  pub ensure_client-keeps :
      (g : GlobalPrometheusSpec) (s : Session)
      → ((ensure_client net g s).0.telemetry ≡ s.telemetry)
        × ((ensure_client net g s).0.last_otel_endpoint ≡ s.last_otel_endpoint)
  unfolding ensure_client
  ensure_client-keeps g s = kept s.prom_client
    where
      kept :
          (o : Option Client)
          → ((reuse net o g s).0.telemetry ≡ s.telemetry)
            × ((reuse net o g s).0.last_otel_endpoint ≡ s.last_otel_endpoint)
      kept none = unfold reuse build_client in (refl, refl)
      kept (some c) = elim (Bool-cases (s.last_prom_config == spec_key g)) [
        | inl e ↦ rw (e, reuse) (refl, refl)
        | inr e ↦ rw (e, reuse) (unfold build_client in (refl, refl))
      ]

  pub ensure_client-Holds :
      (g : GlobalPrometheusSpec) (s : Session)
      → Holds g (ensure_client net g s).0 (ensure_client net g s).1
  ensure_client-Holds g s = unfold ensure_client in reuse-Holds s.prom_client g s refl

  pub ensure_client-held :
      (g g' : GlobalPrometheusSpec) (s : Session) (c : Client)
      → g'.prometheus_url ≡ g.prometheus_url
      → g'.alert_manager_url ≡ g.alert_manager_url
      → g'.insecure_skip_verify ≡ g.insecure_skip_verify
      → Holds g s c
      → ensure_client net g' s ≡ (s, c)
  ensure_client-held g g' s c u a i h = held g' s c (h.0, h.1 ∙ sym same_key)
    where
      same_key : spec_key g' ≡ spec_key g
      same_key = unfold spec_key in rw (u, a, i) refl
