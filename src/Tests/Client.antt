-- ===== src/Tests/Client.antt =====
-- Examples for internal/prometheus/client.go: a server that answers every request with two alerts.
use sre_operator.Common.{
  ℕ, ◌≤◌, ◌<◌, ◌≡◌, ◌≢◌, refl, false, ◌&&◌, none, some, [], ◌∷◌, ◌++◌, str, ◌==◌, any, select,
}
use sre_operator.Diagnostics.Lines.{trim_space}
use sre_operator.Prometheus.Client.{
  new_client, get, authorization, body_of, alerts_endpoint, alerts_matching_names,
}
use sre_operator.Prometheus.Network.{FiringAlert, alert_name, Client, Config, Network, ok, response}
use sre_operator.Prometheus.Client.Token.{get_ignores_token_path, get_ok}
use sre_operator.Prometheus.Client.Alerts.{alerts_matching_names-select}

abbrev down : FiringAlert
down = record {
  labels = (str "alertname", str "Down") ∷ [];
  annotations = [];
  state = str "active";
  starts_at = 1;
  ends_at = 2;
  generator_url = [];
}

abbrev silenced : FiringAlert
silenced = record down { state = str "suppressed" }

abbrev pub net : Network
net = record {
  read_file = λ path. some (str "token");
  refuse = λ endpoint. none;
  exchange = λ c endpoint auth. response 200 (str "body");
  query_escape = λ t. t;
  decode_alerts = λ body. some (down ∷ silenced ∷ []);
  Float = ℕ;
  zero_float = 0;
  zero_time = 0;
  unix = λ x. x;
  scan_float = λ t. 0;
  decode_query = λ body. none;
  range = λ m. m;
}

abbrev cfg : Config
cfg = record {
  prometheus_url = [];
  alert_manager_url = [];
  insecure_skip_verify = false;
  bearer_token_path = str "/var/run/secrets/prometheus/custom/token";
}

abbrev client : Client
client = record {
  prometheus_url = str "https://prometheus";
  alert_manager_url = str "https://alertmanager";
  insecure_skip_verify = false;
  token = [];
}

token_there : trim_space (str "token") ≢ []
unfolding str trim_space
token_there e = cc

get_ignores_token_path_example :
    let c = record (new_client net cfg) { token = trim_space (str "token") } in
    get net (new_client net cfg) (str "/api")
    ≡ (c, body_of (net.exchange c (str "/api") (some (str "Bearer " ++ trim_space (str "token")))))
get_ignores_token_path_example =
    get_ignores_token_path net (str "token") refl token_there cfg (str "/api") refl

client-answered : (get net client (str "/api")).1 ≡ ok (str "body")
unfolding get body_of
client-answered = refl

get_ok_example :
    let after = (get net client (str "/api")).0 in
    (status : ℕ) × (200 ≤ status)
    × (status < 300)
    × (net.exchange after (str "/api") (authorization net after) ≡ response status (str "body"))
get_ok_example = get_ok net client (str "/api") (str "body") client-answered

alerts-answered : (get net client (alerts_endpoint net client [])).1 ≡ ok (str "body")
unfolding get body_of
alerts-answered = refl

alerts_matching_names-select_example :
    (alerts_matching_names net client (str "Down" ∷ [])).1
    ≡ ok (
        select
          (λ a. a.state == str "active" && any (λ n. n == alert_name a) (str "Down" ∷ []))
          (down ∷ silenced ∷ []))
alerts_matching_names-select_example =
    alerts_matching_names-select net client (str "Down" ∷ []) (str "body") (down ∷ silenced ∷ [])
      alerts-answered refl
