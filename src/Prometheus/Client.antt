-- ===== src/Prometheus/Client.antt =====
-- The client of internal/prometheus/client.go.
pub mod Token
pub mod Alerts
use sre_operator.Common.{
  ℕ, Bool, true, false, ◌&&◌, ◌||◌, not, Option, none, some, List, [], ◌∷◌, ◌++◌, Text, str, ◌==◌,
  Dict, put, find_or, ltb, leb, if◌then◌else◌,
}
use sre_operator.Api.Types.{Time}
use sre_operator.Diagnostics.Lines.{trim_space}
use sre_operator.Prometheus.Network.{
  default_prometheus_url, default_alert_manager_url, token_path, FiringAlert, alert_name, namespace,
  severity, Config, Client, ApiError, ApiResult, Exchange, Json, Sample, PromQueryResponse,
  QueryResult, Network, build_request, transport, read_body, status_code, decode, query, ok, err,
  broken, unread, response, number, string, other,
}

or_default : Text → Text → Text
or_default value default = if value == [] then default else value

-- `if token, err := readToken(tokenPath); err == nil && token != ""`
refreshed : Option Text → Client → Client
refreshed none c = c
refreshed (some t) c = if t == [] then c else record c { token = t }

-- The body, unless the status is not one of 200 to 299.
unfoldable pub body_of : Exchange → ApiResult Text
body_of (broken e) = err (transport e)
body_of (unread e) = err (read_body e)
body_of (response status body) =
    if ltb status 200 || leb 300 status then err (status_code status body) else ok body

-- `strings.Join(filters, ",")` of the filters `key="value"`.
join_filters : List (Text × Text) → Text
join_filters [] = []
join_filters ((k, v) ∷ []) = k ++ b'=' ∷ b'"' ∷ v ++ b'"' ∷ []
join_filters ((k, v) ∷ p ∷ ps) = (k ++ b'=' ∷ b'"' ∷ v ++ b'"' ∷ b',' ∷ []) ++ join_filters (p ∷ ps)

-- The loop that drops what is silenced or inhibited.
unfoldable pub active_alerts : List FiringAlert → List FiringAlert
active_alerts [] = []
active_alerts (a ∷ alerts) =
    let rest = active_alerts alerts in if a.state == str "active" then a ∷ rest else rest

name_set : List Text → Dict Bool → Dict Bool
name_set [] m = m
name_set (n ∷ names) m = name_set names (put n true m)

matching : Dict Bool → List FiringAlert → List FiringAlert
unfolding alert_name
matching m [] = []
matching m (a ∷ alerts) =
    let rest = matching m alerts in if find_or false (alert_name a) m then a ∷ rest else rest

module _ (net : Network) where
  open net use {Float, zero_float, zero_time, unix, scan_float}

  unfoldable pub read_token : Text → Option Text
  unfolding trim_space
  read_token path = elim (net.read_file path) [
    | none ↦ none
    | some content ↦ some (trim_space content)
  ]

  unfoldable pub new_client : Config → Client
  unfolding or_default read_token
  new_client cfg = record {
    prometheus_url = or_default cfg.prometheus_url default_prometheus_url;
    alert_manager_url = or_default cfg.alert_manager_url default_alert_manager_url;
    insecure_skip_verify = cfg.insecure_skip_verify;
    token = elim (read_token (or_default cfg.bearer_token_path token_path)) [
      | none ↦ []
      | some t ↦ t
    ];
  }

  -- The header of a request, if there is a token.
  unfoldable pub authorization : Client → Option Text
  authorization c = if c.token == [] then none else some (str "Bearer " ++ c.token)

  -- `get` stores the refreshed token in the client, which is passed on.
  unfoldable pub get : Client → Text → Client × ApiResult Text
  unfolding refreshed authorization body_of read_token
  get c endpoint = elim (net.refuse endpoint) [
    | some e ↦ (c, err (build_request e))
    | none ↦
        let c' = refreshed (read_token token_path) c in
        (c', body_of (net.exchange c' endpoint (authorization c')))
  ]

  pub alerts_endpoint : Client → Dict Text → Text
  unfolding join_filters
  alerts_endpoint c [] = c.alert_manager_url ++ str "/api/v2/alerts"
  alerts_endpoint c (f ∷ filters) =
      (c.alert_manager_url ++ str "/api/v2/alerts")
      ++ str "?filter="
      ++ net.query_escape (b'{' ∷ join_filters (net.range (f ∷ filters)) ++ b'}' ∷ [])

  alerts_of : ApiResult Text → ApiResult (List FiringAlert)
  unfolding active_alerts
  alerts_of (err e) = err e
  alerts_of (ok body) = elim (net.decode_alerts body) [
    | none ↦ err (decode body)
    | some alerts ↦ ok (active_alerts alerts)
  ]

  unfoldable pub firing_alerts : Client → Dict Text → Client × ApiResult (List FiringAlert)
  unfolding get alerts_endpoint alerts_of
  firing_alerts c filters =
      let (c', body) = get c (alerts_endpoint c filters) in (c', alerts_of body)

  unfoldable pub alerts_by_name : Client → Text → Client × ApiResult (List FiringAlert)
  unfolding firing_alerts
  alerts_by_name c name = firing_alerts c ((str "alertname", name) ∷ [])

  matching_of : List Text → ApiResult (List FiringAlert) → ApiResult (List FiringAlert)
  unfolding name_set matching
  matching_of names (err e) = err e
  matching_of names (ok all) = ok (matching (name_set names []) all)

  unfoldable pub alerts_matching_names : Client → List Text → Client × ApiResult (List FiringAlert)
  unfolding firing_alerts matching_of
  alerts_matching_names c names = let (c', all) = firing_alerts c [] in (c', matching_of names all)

  time_of : Json Float → Time
  time_of (number x) = unix x
  time_of _ = zero_time

  value_of : Json Float → Float
  value_of (string s) = scan_float s
  value_of _ = zero_float

  query_results : List (Sample Float) → List (QueryResult Float)
  unfolding time_of value_of
  query_results [] = []
  query_results (r ∷ rs) =
      record { metric = r.metric; value = value_of r.value; timestamp = time_of r.at }
      ∷ query_results rs

  results_of : ApiResult Text → ApiResult (List (QueryResult Float))
  unfolding query_results
  results_of (err e) = err e
  results_of (ok body) = elim (net.decode_query body) [
    | none ↦ err (decode body)
    | some resp ↦
        if resp.status == str "success"
        then ok (query_results resp.result)
        else err (query resp.error_type resp.error)
  ]

  unfoldable pub query_instant : Client → Text → Client × ApiResult (List (QueryResult Float))
  unfolding get results_of
  query_instant c expr =
      let (c', body) =
        get c (c.prometheus_url ++ str "/api/v1/query?query=" ++ net.query_escape expr) in
      (c', results_of body)

  -- The value and whether there is one.
  scalar_of : ApiResult (List (QueryResult Float)) → ApiResult (Float × Bool)
  scalar_of (err e) = err e
  scalar_of (ok []) = ok (zero_float, false)
  scalar_of (ok (r ∷ rs)) = ok (r.value, true)

  unfoldable pub query_scalar : Client → Text → Client × ApiResult (Float × Bool)
  unfolding query_instant scalar_of
  query_scalar c expr = let (c', results) = query_instant c expr in (c', scalar_of results)
