-- ===== src/Diagnostics/Logs.antt =====
-- `LogCollector` of internal/diagnostics/logcollector.go.
pub mod Filter
pub mod Bounds
use sre_operator.Common.{
  ℕ, zero, suc, ◌+◌, ◌-◌, ◌*◌, Bool, true, false, ◌&&◌, Option, none, some, List, [], ◌∷◌, ◌++◌,
  map, Text, str, ◌==◌, Dict, ℤ, pos, negsuc, length, any, nat_eq, ltb, leb, if◌then◌else◌,
}
use sre_operator.Api.Types.{Time, LogCollectionSpec}
use sre_operator.Diagnostics.Lines.{split, parse_selector, strip_kube_timestamp}
use sre_operator.Diagnostics.Pods.{
  PodLogEntry, LogCollection, Pod, LogOptions, Listing, pods, failed, Environment, max_log_lines,
  max_err_lines_per_container, pattern_texts,
}

-- The buffer of the scanner; a line that fills it ends the scan.
abbrev max_token : ℕ
max_token = 512 * 1024

-- The `'\r'` before a newline is dropped.
drop_cr : Text → Text
drop_cr [] = []
drop_cr (c ∷ []) = if nat_eq c 13 then [] else c ∷ []
drop_cr (c ∷ d ∷ s) = c ∷ drop_cr (d ∷ s)

-- What stands behind the last newline is a token unless it is empty.
last_token : Text → List Text
unfolding drop_cr
last_token [] = []
last_token (c ∷ s) = if ltb (length (c ∷ s)) max_token then drop_cr (c ∷ s) ∷ [] else []

-- The tokens that `scanner.Scan` yields from the parts between newlines.
tokens : Text → List Text → List Text
unfolding drop_cr last_token
tokens part [] = last_token part
tokens part (next ∷ parts) =
    let rest = tokens next parts in if ltb (length part) max_token then drop_cr part ∷ rest else []

unfoldable pub scan_lines : Text → List Text
unfolding tokens split
scan_lines s = let (part, parts) = split 10 s in tokens part parts

-- `int64(spec.TailLines)` if that is positive, and the default otherwise.
positive_or : ℕ → ℤ → ℕ
positive_or default (pos n) = if ltb 0 n then n else default
positive_or default (negsuc n) = default

unfoldable pub tail_lines : LogCollectionSpec → ℕ
unfolding positive_or
tail_lines spec = positive_or max_log_lines spec.tail_lines

unfoldable pub since_seconds : LogCollectionSpec → ℕ
unfolding positive_or
since_seconds spec = positive_or 300 spec.since_seconds

-- The containers, and the init containers too if the pod has failed.
unfoldable pub log_containers : Pod → List Text
log_containers pod =
    if pod.phase == str "Failed" then pod.containers ++ pod.init_containers else pod.containers

-- The label selectors of `collectVMPodLogs`.
abbrev label_selectors : List Text
label_selectors =
    str "kubevirt.io=virt-launcher"
    ∷ str "kubevirt.io=virt-handler"
    ∷ str "app=containerized-data-importer"
    ∷ []

abbrev operator_selectors : List (Text × Text)
operator_selectors =
    (str "openshift-cnv", str "app=hyperconverged-cluster-operator")
    ∷ (str "openshift-cnv", str "app=virt-operator")
    ∷ (str "openshift-cnv", str "name=cdi-operator")
    ∷ (str "openshift-cnv", str "app=ssp-operator")
    ∷ (str "openshift-cnv", str "app=node-maintenance-operator")
    ∷ (str "kubevirt", str "kubevirt.io=virt-operator")
    ∷ []

-- The two results of a collection: entries and errors.
pub record Collected : Type 0 where
  pub entries : List PodLogEntry
  pub errs : List Text

join : Collected → Collected → Collected
join a b = record { entries = a.entries ++ b.entries; errs = a.errs ++ b.errs }

abbrev nothing : Collected
nothing = record { entries = []; errs = [] }

module _ (env : Environment) where
  open env use {Regex, matches, compile, must_compile, list_pods, stream, now}

  unfoldable pub matches_any_pattern : Text → List Regex → Bool
  matches_any_pattern line [] = false
  matches_any_pattern line (re ∷ patterns) =
      let rest = matches_any_pattern line patterns in if matches re line then true else rest

  abbrev pub error_patterns : List Regex
  error_patterns = map must_compile pattern_texts

  -- The patterns of the specification that compile; the others are left out.
  custom_patterns : List Text → List Regex
  custom_patterns [] = []
  custom_patterns (p ∷ ps) =
      let rest = custom_patterns ps in elim (compile p) [ none ↦ rest | some re ↦ re ∷ rest ]

  unfoldable pub all_patterns : LogCollectionSpec → List Regex
  unfolding custom_patterns
  all_patterns spec = error_patterns ++ custom_patterns spec.error_patterns

  unfoldable pub log_entry : Pod → Text → Text → PodLogEntry
  log_entry pod container line = record {
    namespace = pod.namespace;
    pod_name = pod.name;
    container_name = container;
    line = strip_kube_timestamp line;
    collected_at = now;
  }

  -- The `for scanner.Scan()` loop, with its `count`.
  filter_loop : List Regex → Pod → Text → ℕ → List Text → List PodLogEntry
  unfolding matches_any_pattern log_entry
  filter_loop patterns pod container n [] = []
  filter_loop patterns pod container n (line ∷ lines) =
      let skipped = filter_loop patterns pod container n lines in
      let rest = log_entry pod container line ∷ filter_loop patterns pod container (suc n) lines in
      if leb max_err_lines_per_container n
      then []
      else (if matches_any_pattern line patterns then rest else skipped)

  unfoldable pub filter_log_lines : Text → Pod → Text → LogCollectionSpec → List PodLogEntry
  unfolding filter_loop all_patterns scan_lines
  filter_log_lines bytes pod container spec =
      filter_loop (all_patterns spec) pod container 0 (scan_lines bytes)

  container_entries : Pod → LogCollectionSpec → Text → List PodLogEntry
  unfolding filter_log_lines tail_lines since_seconds
  container_entries pod spec container =
      elim (stream pod (record {
        container = container;
        tail_lines = tail_lines spec;
        since_seconds = since_seconds spec;
      })) [ none ↦ [] | some bytes ↦ filter_log_lines bytes pod container spec ]

  -- The loop over the containers.
  entries_of : Pod → LogCollectionSpec → List Text → List PodLogEntry
  unfolding container_entries
  entries_of pod spec [] = []
  entries_of pod spec (c ∷ cs) = container_entries pod spec c ++ entries_of pod spec cs

  -- The error that `collectPodLogs` returns is always nil.
  unfoldable pub collect_pod_logs : Pod → LogCollectionSpec → List PodLogEntry × Option Text
  unfolding entries_of log_containers
  collect_pod_logs pod spec = (entries_of pod spec (log_containers pod), none)

  pod_outcome : Pod → List PodLogEntry × Option Text → Collected
  pod_outcome pod (entries, none) = record { entries = entries; errs = [] }
  pod_outcome pod (entries, some err) = record {
    entries = [];
    errs = (pod.namespace ++ b'/' ∷ pod.name ++ str ": " ++ err) ∷ [];
  }

  -- The loop over `podList.Items`.
  collect_pods : LogCollectionSpec → List Pod → Collected
  unfolding pod_outcome collect_pod_logs join
  collect_pods spec [] = nothing
  collect_pods spec (pod ∷ rest) =
      join (pod_outcome pod (collect_pod_logs pod spec)) (collect_pods spec rest)

  vm_listing : LogCollectionSpec → Text → Text → Listing → Collected
  unfolding collect_pods
  vm_listing spec ns selector (failed err) = record {
    entries = [];
    errs = (str "list pods (" ++ selector ++ str ") in " ++ ns ++ str ": " ++ err) ∷ [];
  }
  vm_listing spec ns selector (pods l) = collect_pods spec l

  vm_selectors : LogCollectionSpec → Text → List Text → Collected
  unfolding vm_listing join parse_selector
  vm_selectors spec ns [] = nothing
  vm_selectors spec ns (selector ∷ rest) =
      join (vm_listing spec ns selector (list_pods ns (parse_selector selector)))
        (vm_selectors spec ns rest)

  unfoldable pub collect_vm_pod_logs : List Text → LogCollectionSpec → Collected
  unfolding vm_selectors join
  collect_vm_pod_logs [] spec = nothing
  collect_vm_pod_logs (ns ∷ namespaces) spec =
      join (vm_selectors spec ns label_selectors) (collect_vm_pod_logs namespaces spec)

  -- A namespace that cannot be listed is skipped.
  operator_listing : LogCollectionSpec → Listing → Collected
  unfolding collect_pods
  operator_listing spec (failed err) = nothing
  operator_listing spec (pods l) = collect_pods spec l

  operator_loop : LogCollectionSpec → List (Text × Text) → Collected
  unfolding operator_listing join parse_selector
  operator_loop spec [] = nothing
  operator_loop spec ((ns, selector) ∷ rest) =
      join (operator_listing spec (list_pods ns (parse_selector selector)))
        (operator_loop spec rest)

  unfoldable pub collect_operator_logs : LogCollectionSpec → Collected
  unfolding operator_loop
  collect_operator_logs spec = operator_loop spec operator_selectors

  -- The error of `Collect` is always nil.
  unfoldable pub collect : LogCollectionSpec → List Text → LogCollection
  unfolding collect_vm_pod_logs collect_operator_logs
  collect spec target_namespaces =
      let vm =
        if spec.collect_vm_pod_logs then collect_vm_pod_logs target_namespaces spec else nothing in
      let op = if spec.collect_operator_logs then collect_operator_logs spec else nothing in
      record {
        vm_pod_logs = vm.entries;
        operator_logs = op.entries;
        collected_at = now;
        errors = vm.errs ++ op.errs;
      }
