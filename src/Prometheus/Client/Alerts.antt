-- ===== src/Prometheus/Client/Alerts.antt =====
-- Which alerts the client returns, against those that it receives.
use sre_operator.Common.{
  ◌≡◌, refl, ap, Bool, true, false, ◌&&◌, some, List, [], ◌∷◌, Text, str, ◌==◌, Dict, find_or,
  find_or-put, put, any, select, if◌then◌else◌, arith, Bool-cases, inl, inr,
}
use sre_operator.Prometheus.Client.{
  get, active_alerts, name_set, matching, firing_alerts, alerts_endpoint, alerts_of,
  alerts_matching_names, matching_of,
}
use sre_operator.Prometheus.Network.{Client, Network, FiringAlert, ok, alert_name}

name_set-any :
    (names : List Text) (m : Dict Bool) (k : Text)
    → find_or false k (name_set names m)
      ≡ (if any (λ n. n == k) names then true else find_or false k m)
unfolding name_set
name_set-any [] m k = refl
name_set-any (n ∷ names) m k =
    ground (arith, name_set-any names (put n true m) k, find_or-put false n k true m)

matching-active :
    (names : List Text) (alerts : List FiringAlert)
    → matching (name_set names []) (active_alerts alerts)
      ≡ select (λ a. a.state == str "active" && any (λ n. n == alert_name a) names) alerts
unfolding matching active_alerts
matching-active names [] = refl
matching-active names (a ∷ alerts) =
    let absent : find_or false (alert_name a) [] ≡ false = unfold find_or in refl in
    elim (Bool-cases (a.state == str "active")) [
      | inl e ↦
          rw (e, name_set-any names [] (alert_name a), absent)
            (ground (arith, matching-active names alerts))
      | inr e ↦ rw e (matching-active names alerts)
    ]

-- Of the alerts that AlertManager sends, exactly those are returned that are active and have one of
-- the names, in their order.
pub alerts_matching_names-select :
    (net : Network) (c : Client) (names : List Text) (body : Text) (alerts : List FiringAlert)
    → (get net c (alerts_endpoint net c [])).1 ≡ ok body
    → net.decode_alerts body ≡ some alerts
    → (alerts_matching_names net c names).1
      ≡ ok (select (λ a. a.state == str "active" && any (λ n. n == alert_name a) names) alerts)
unfolding alerts_matching_names firing_alerts alerts_of matching_of
alerts_matching_names-select net c names body alerts sent decoded =
    rw (sent, alerts_of) (rw (decoded, alerts_of) (ap ok (matching-active names alerts)))
