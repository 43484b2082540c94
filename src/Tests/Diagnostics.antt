-- ===== src/Tests/Diagnostics.antt =====
-- Examples for internal/diagnostics/logcollector.go.
use mathlib.Core.List.{Memᴰ}
use sre_operator.Common.{
  ◌+◌, ◌==◌, if◌then◌else◌, zero, suc, ◌≤◌, ◌*◌, ◌≡◌, refl, true, false, some, [], ◌∷◌, ◌++◌, map,
  Text, str, pos, count, All, arith, length, take, select,
}
use sre_operator.Api.Types.{LogCollectionSpec}
use sre_operator.Diagnostics.Lines.{
  strip_kube_timestamp, parse_selector, trim_space, byte_at, contains,
}
use sre_operator.Diagnostics.Lines.Cut.{lacks, strip_kube_timestamp-append}
use sre_operator.Diagnostics.Lines.Selectors.{parse_selector-pair}
use sre_operator.Diagnostics.Logs.{
  matches_any_pattern, all_patterns, log_entry, filter_log_lines, scan_lines, collect_pod_logs,
}
use sre_operator.Diagnostics.Pods.{Environment, Pod, PodLogEntry, LogCollection, pods}
use sre_operator.Diagnostics.Logs.Filter.{filter_log_lines-take}
use sre_operator.Diagnostics.Logs.Bounds.{Logged, collect_pod_logs_bounds}
use sre_operator.Diagnostics.Report.{entry_result, error_result, to_check_results}
use sre_operator.Diagnostics.Report.Results.{first_entries, entry_keys, to_check_results-once}

abbrev bytes : Text
bytes = 101 ∷ 10 ∷ 107 ∷ 10 ∷ []

abbrev pod : Pod
pod = record {
  namespace = str "openshift-cnv";
  name = str "virt-operator";
  phase = str "Running";
  containers = str "main" ∷ [];
  init_containers = str "init" ∷ [];
}

-- A pattern is a text that a line contains.
abbrev pub env : Environment
env = record {
  Regex = Text;
  matches = λ re line. contains line re;
  compile = λ t. some t;
  must_compile = λ t. str "e";
  list_pods = λ namespace labels. pods (pod ∷ []);
  stream = λ p options. some bytes;
  now = 5;
}

abbrev pub spec : LogCollectionSpec
spec = record {
  enabled = true;
  collect_vm_pod_logs = true;
  collect_operator_logs = true;
  tail_lines = pos 0;
  since_seconds = pos 0;
  on_alert_only = false;
  persist_to_config_map = true;
  error_patterns = [];
}

filter_log_lines-take_example :
    filter_log_lines env bytes pod (str "main") spec
    ≡ map (log_entry env pod (str "main")) (
        take 50
          (select (λ l. matches_any_pattern env l (all_patterns env spec)) (scan_lines bytes)))
filter_log_lines-take_example = filter_log_lines-take env bytes pod (str "main") spec

collect_pod_logs_bounds_example :
    let entries = (collect_pod_logs env pod spec).0 in
    (length entries
      ≤ 50
        * (length pod.containers
            + (if pod.phase == str "Failed" then length pod.init_containers else 0)))
    × All (λ e. Logged env pod e.container_name) entries
collect_pod_logs_bounds_example = collect_pod_logs_bounds env pod spec

abbrev entry : PodLogEntry
entry = record {
  namespace = str "default";
  pod_name = str "launcher";
  container_name = str "main";
  line = str "panic";
  collected_at = 5;
}

-- The same line twice, and an error.
abbrev collection : LogCollection
collection = record {
  vm_pod_logs = entry ∷ [];
  operator_logs = entry ∷ [];
  collected_at = 5;
  errors = str "list pods" ∷ [];
}

to_check_results-once_example :
    let entries = entry ∷ entry ∷ [] in
    let taken = first_entries [] entries in
    (to_check_results 5 (str "logs") collection
      ≡ map (entry_result (str "logs") 5) taken
        ++ map (error_result (str "logs") 5) (str "list pods" ∷ []))
    × All (λ e. Memᴰ e entries) taken
    × ((k : Text)
        → count k (entry_keys taken)
          ≡ (elim (count k (entry_keys entries)) [ zero ↦ 0 | suc n ↦ 1 ]))
to_check_results-once_example = to_check_results-once 5 (str "logs") collection

abbrev timestamp : Text
timestamp = str "2024-01-01T00:00:00.000000000Z"

timestamp-length : 30 ≤ length timestamp
unfolding str
timestamp-length = omega arith

timestamp-tee : byte_at 10 timestamp ≡ b'T'
unfolding str byte_at
timestamp-tee = refl

timestamp-lacks : lacks 32 timestamp ≡ true
unfolding str
timestamp-lacks = refl

strip_kube_timestamp-append_example :
    strip_kube_timestamp (timestamp ++ 32 ∷ str " panic ") ≡ trim_space (str " panic ")
strip_kube_timestamp-append_example =
    strip_kube_timestamp-append timestamp (str " panic ") timestamp-length timestamp-tee
      timestamp-lacks

abbrev selector : Text
selector = str "app" ++ b'=' ∷ str "virt"

no_comma : lacks b',' selector ≡ true
unfolding str
no_comma = refl

no_equals : lacks b'=' (str "app") ≡ true
unfolding str
no_equals = refl

no_space : trim_space selector ≡ selector
unfolding str trim_space
no_space = refl

parse_selector-pair_example : parse_selector selector ≡ (str "app", str "virt") ∷ []
parse_selector-pair_example =
    parse_selector-pair (str "app") (str "virt") no_comma no_equals no_space
