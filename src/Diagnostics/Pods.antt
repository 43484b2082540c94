-- ===== src/Diagnostics/Pods.antt =====
-- The data of internal/diagnostics/logcollector.go, and what its collection meets outside of the
-- program. Regular expressions, the API server's list of pods and a container's log stream are not
-- code of the program: they are the fields of an `Environment`. A stream is the bytes that can be read
-- from it before it ends or breaks off.
use sre_operator.Common.{ℕ, Bool, Option, List, [], ◌∷◌, Text, str, Dict}
use sre_operator.Api.Types.{Time}

pub record PodLogEntry : Type 0 where
  pub namespace : Text
  pub pod_name : Text
  pub container_name : Text
  pub line : Text
  pub collected_at : Time

pub record LogCollection : Type 0 where
  pub vm_pod_logs : List PodLogEntry
  pub operator_logs : List PodLogEntry
  pub collected_at : Time
  pub errors : List Text

-- The fields of `corev1.Pod` that are read.
pub record Pod : Type 0 where
  pub namespace : Text
  pub name : Text
  pub phase : Text
  pub containers : List Text
  pub init_containers : List Text

-- The options of `GetLogs` that vary.
pub record LogOptions : Type 0 where
  pub container : Text
  pub tail_lines : ℕ
  pub since_seconds : ℕ

pub data Listing : Type 0 where
  pods : List Pod → Listing
  failed : Text → Listing

pub record Environment : Type 1 where
  pub Regex : Type 0
  pub matches : Regex → Text → Bool
  pub compile : Text → Option Regex
  -- `MustCompile`, which does not fail for the package's own patterns.
  pub must_compile : Text → Regex
  pub list_pods : (namespace : Text) (labels : Dict Text) → Listing
  -- `none` is an error of `req.Stream`.
  pub stream : Pod → LogOptions → Option Text
  pub now : Time

-- The package's own patterns.
abbrev pub pattern_texts : List Text
pattern_texts =
    str "(?i)\\b(error|err|fatal|panic|exception|oom|kill|failed|failure|crash)\\b"
    ∷ str "(?i)reconcil.*fail"
    ∷ str "(?i)unable\\s+to"
    ∷ str "(?i)permission\\s+denied"
    ∷ str "(?i)connection\\s+(refused|reset|timeout)"
    ∷ str "(?i)ImagePullBackOff|ErrImagePull"
    ∷ str "(?i)OOMKilled"
    ∷ []

abbrev pub max_log_lines : ℕ
max_log_lines = 200

abbrev pub max_err_lines_per_container : ℕ
max_err_lines_per_container = 50
