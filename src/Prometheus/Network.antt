-- ===== src/Prometheus/Network.antt =====
-- The data of internal/prometheus/client.go. Files, HTTP, JSON and URL escaping are not code of the
-- program: they are the fields of a `Network`. An error is one of `ApiError`, without the text around
-- it.
use sre_operator.Common.{ℕ, Bool, Option, List, [], Text, str, Dict, find_or}
use sre_operator.Api.Types.{Time}

abbrev pub default_prometheus_url : Text
default_prometheus_url = str "https://thanos-querier.openshift-monitoring.svc.cluster.local:9091"

abbrev pub default_alert_manager_url : Text
default_alert_manager_url =
    str "https://alertmanager-main.openshift-monitoring.svc.cluster.local:9094"

abbrev pub token_path : Text
token_path = str "/var/run/secrets/kubernetes.io/serviceaccount/token"

pub record FiringAlert : Type 0 where
  pub labels : Dict Text
  pub annotations : Dict Text
  pub state : Text
  pub starts_at : Time
  pub ends_at : Time
  pub generator_url : Text

-- The methods `AlertName`, `Namespace` and `Severity`.
unfoldable pub alert_name : FiringAlert → Text
alert_name a = find_or [] (str "alertname") a.labels

unfoldable pub namespace : FiringAlert → Text
namespace a = find_or [] (str "namespace") a.labels

unfoldable pub severity : FiringAlert → Text
severity a = find_or [] (str "severity") a.labels

pub record Config : Type 0 where
  pub prometheus_url : Text
  pub alert_manager_url : Text
  pub insecure_skip_verify : Bool
  pub bearer_token_path : Text

-- The fixed settings of the HTTP transport and the tracer are left out.
pub record Client : Type 0 where
  pub prometheus_url : Text
  pub alert_manager_url : Text
  pub insecure_skip_verify : Bool
  pub token : Text

pub data ApiError : Type 0 where
  build_request transport read_body : Text → ApiError
  status_code : ℕ → Text → ApiError
  decode : Text → ApiError
  query : (error_type error : Text) → ApiError

pub data ApiResult (A : Type 0) : Type 0 where
  ok : A → ApiResult A
  err : ApiError → ApiResult A

-- What `httpClient.Do` and `io.ReadAll` give.
pub data Exchange : Type 0 where
  broken : Text → Exchange
  unread : Text → Exchange
  response : (status : ℕ) (body : Text) → Exchange

-- A decoded entry of the two-element array of a sample.
pub data Json (F : Type 0) : Type 0 where
  number : F → Json F
  string : Text → Json F
  other : Json F

pub record Sample (F : Type 0) : Type 0 where
  pub metric : Dict Text
  pub at : Json F
  pub value : Json F

pub record PromQueryResponse (F : Type 0) : Type 0 where
  pub status : Text
  pub result : List (Sample F)
  pub error : Text
  pub error_type : Text

pub record QueryResult (F : Type 0) : Type 0 where
  pub metric : Dict Text
  pub value : F
  pub timestamp : Time

pub record Network : Type 1 where
  -- `os.ReadFile`; `none` is an error.
  pub read_file : Text → Option Text
  -- The error of `http.NewRequestWithContext`, if it has one.
  pub refuse : Text → Option Text
  -- A GET of an endpoint with an authorization header, if it has one.
  pub exchange : Client → Text → Option Text → Exchange
  pub query_escape : Text → Text
  pub decode_alerts : Text → Option (List FiringAlert)
  -- `float64` with its zero, and what is done with it.
  pub Float : Type 0
  pub zero_float : Float
  pub zero_time : Time
  pub unix : Float → Time
  pub scan_float : Text → Float
  pub decode_query : Text → Option (PromQueryResponse Float)
  -- The order in which Go ranges over the label filters.
  pub range : Dict Text → List (Text × Text)
