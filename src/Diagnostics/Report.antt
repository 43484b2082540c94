-- ===== src/Diagnostics/Report.antt =====
-- `ToCheckResults` and `FormatReport` of internal/diagnostics/logcollector.go.
pub mod Results
use sre_operator.Common.{
  ℕ, suc, ◌-◌, Bool, true, false, Option, none, some, List, [], ◌∷◌, ◌++◌, Text, str, ◌==◌, Dict,
  put, find_or, decimal, length, take, ltb, if◌then◌else◌,
}
use sre_operator.Api.Enums.{SeverityLevel, CheckCategory}
use sre_operator.Api.Types.{Time, CheckResult}
use sre_operator.Diagnostics.Lines.{truncate, classify_log_severity}
use sre_operator.Diagnostics.Pods.{PodLogEntry, LogCollection}

-- `fmt.Sprintf("%s/%s[%s]", …)`
unfoldable pub entry_ref : PodLogEntry → Text
entry_ref e = e.namespace ++ b'/' ∷ e.pod_name ++ b'[' ∷ e.container_name ++ b']' ∷ []

-- What near-identical lines of one container share.
unfoldable pub entry_key : PodLogEntry → Text
unfolding entry_ref truncate
entry_key e = entry_ref e ++ b':' ∷ truncate e.line 80

unfoldable pub entry_result : Text → Time → PodLogEntry → CheckResult
unfolding entry_ref classify_log_severity
entry_result check_name now e = record {
  check_name = check_name;
  category = CheckCategory.logs;
  resource_ref = entry_ref e;
  status = str "Degraded";
  severity = classify_log_severity e.line;
  message = str "Log error: " ++ e.line;
  last_checked = some now;
  trace_id = [];
  remediation_applied = none;
  remediation_attempts = 0;
  runbook_url = [];
}

unfoldable pub error_result : Text → Time → Text → CheckResult
error_result check_name now err = record {
  check_name = check_name;
  category = CheckCategory.logs;
  resource_ref = str "log-collector/error";
  status = str "Unknown";
  severity = SeverityLevel.warning;
  message = str "Log collection error: " ++ err;
  last_checked = some now;
  trace_id = [];
  remediation_applied = none;
  remediation_attempts = 0;
  runbook_url = [];
}

-- The first loop, with the map `seen`.
pub results_from : Text → Time → Dict Bool → List PodLogEntry → List CheckResult
unfolding entry_key entry_result
results_from check_name now seen [] = []
results_from check_name now seen (e ∷ es) =
    let skipped = results_from check_name now seen es in
    let rest =
      entry_result check_name now e
      ∷ results_from check_name now (put (entry_key e) true seen) es in
    if find_or false (entry_key e) seen then skipped else rest

pub error_results : Text → Time → List Text → List CheckResult
unfolding error_result
error_results check_name now [] = []
error_results check_name now (err ∷ errs) =
    error_result check_name now err ∷ error_results check_name now errs

unfoldable pub to_check_results : Time → Text → LogCollection → List CheckResult
unfolding results_from error_results
to_check_results now check_name c =
    results_from check_name now [] (c.vm_pod_logs ++ c.operator_logs)
    ++ error_results check_name now c.errors

-- The text of `FormatReport`. `rfc3339` is `time.Time.Format(time.RFC3339)`.
error_lines : List Text → Text
error_lines [] = []
error_lines (e ∷ es) = str "  ERR: " ++ e ++ 10 ∷ error_lines es

sample_lines : List PodLogEntry → Text
sample_lines [] = []
sample_lines (e ∷ es) =
    str "  [" ++ e.pod_name ++ b'/' ∷ e.container_name ++ str "] " ++ e.line ++ 10 ∷ sample_lines es

-- At most 20 entries, and how many more there are.
sample : Text → List PodLogEntry → Text
unfolding sample_lines decimal
sample title [] = []
sample title (e ∷ es) =
    let entries = e ∷ es in
    title
    ++ sample_lines (take 20 entries)
    ++ (if ltb 20 (length entries)
        then str "  ... (" ++ decimal (length entries - 20) ++ str " more)" ++ 10 ∷ []
        else [])

report_errors : List Text → Text
unfolding error_lines decimal
report_errors [] = []
report_errors (e ∷ es) =
    str "Collection Errors: "
    ++ decimal (length (e ∷ es))
    ++ 10 ∷ str "---"
    ++ 10 ∷ error_lines (e ∷ es)

-- The bytes 226 128 148 are the dash of the title.
unfoldable pub format_report : (Time → Text) → LogCollection → Text
unfolding sample report_errors decimal
format_report rfc3339 c =
    str "Log Collection "
    ++ 226 ∷ 128 ∷ 148 ∷ 32 ∷ rfc3339 c.collected_at
    ++ 10 ∷ []
    ++ str "VM Pod Log Entries: "
    ++ decimal (length c.vm_pod_logs)
    ++ 10 ∷ []
    ++ str "Operator Log Entries: "
    ++ decimal (length c.operator_logs)
    ++ 10 ∷ []
    ++ report_errors c.errors
    ++ sample (str "--- VM Pod Errors (sample) ---" ++ 10 ∷ []) c.vm_pod_logs
    ++ sample (str "--- Operator Errors (sample) ---" ++ 10 ∷ []) c.operator_logs
