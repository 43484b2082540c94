-- ===== src/Controller/Findings.antt =====
-- `sortFindingsByPriority`, the cap on the findings in the status, and `countBySeverity` of
-- internal/controller/srepolicy_controller.go.
pub mod Sorted
pub mod Capped
pub mod Counted
use sre_operator.Common.{
  ℕ, suc, ◌+◌, ◌*◌, Bool, true, false, List, [], ◌∷◌, ◌++◌, Text, str, ◌==◌, Dict, find_or, has,
  put, length, take, ltb, if◌then◌else◌,
}
use sre_operator.Api.Enums.{SeverityLevel}
use sre_operator.Api.Types.{CheckResult}

-- The map literal `statusRank`. A status that it lacks reads as 0, like "Failed".
abbrev status_ranks : Dict ℕ
status_ranks =
    (str "Failed", 0) ∷ (str "Degraded", 1) ∷ (str "Unknown", 2) ∷ (str "Healthy", 3) ∷ []

status_rank : Text → ℕ
status_rank s = find_or 0 s status_ranks

-- `severityRank`; again 0 for what the map lacks.
severity_rank : SeverityLevel → ℕ
severity_rank SeverityLevel.critical = 0
severity_rank SeverityLevel.warning = 1
severity_rank SeverityLevel.info = 2
severity_rank (SeverityLevel.other t) = 0

unfoldable pub priority : CheckResult → ℕ
unfolding status_rank severity_rank
priority f = status_rank f.status * 10 + severity_rank f.severity

-- The inner loop: `findings[i]` is swapped down past the entries of a larger rank. The entries below
-- `i` are given from `i - 1` down to 0.
pub sink : CheckResult → List CheckResult → List CheckResult
sink b [] = b ∷ []
sink b (a ∷ below) =
    let rest = sink b below in if ltb (priority b) (priority a) then a ∷ rest else b ∷ a ∷ below

-- The outer loop, over the entries from `i` up, with those below `i` in reverse.
pub sort_from : List CheckResult → List CheckResult → List CheckResult
sort_from below [] = below
sort_from below (f ∷ above) = sort_from (sink f below) above

-- The slice, read from its end down to its start.
pub rev_append : List CheckResult → List CheckResult → List CheckResult
rev_append [] acc = acc
rev_append (f ∷ fs) acc = rev_append fs (f ∷ acc)

unfoldable pub sort_findings_by_priority : List CheckResult → List CheckResult
unfolding sort_from sink rev_append
sort_findings_by_priority findings = rev_append (sort_from [] findings) []

abbrev pub max_status_findings : ℕ
max_status_findings = 500

-- `statusFindings`, and `allFindings` as the sort leaves it behind.
unfoldable pub cap_findings : List CheckResult → List CheckResult × List CheckResult
unfolding sort_findings_by_priority
cap_findings findings =
    if ltb max_status_findings (length findings)
    then (
      take max_status_findings (sort_findings_by_priority findings),
      sort_findings_by_priority findings,
    )
    else (findings, findings)

-- The named results of `countBySeverity`.
pub record Counts : Type 0 where
  pub healthy : ℕ
  pub degraded : ℕ
  pub failed : ℕ

-- The `switch` on the status.
unfoldable pub tally : Text → Counts → Counts
tally status c =
    if status == str "Healthy"
    then record c { healthy = suc c.healthy }
    else (if status == str "Degraded"
        then record c { degraded = suc c.degraded }
        else (if status == str "Failed" then record c { failed = suc c.failed } else c))

-- `seen` is the map of the resources met so far.
unfoldable pub count_from : Dict Bool → Counts → List CheckResult → Counts
unfolding tally
count_from seen c [] = c
count_from seen c (f ∷ fs) =
    let rest = count_from (put f.resource_ref true seen) (tally f.status c) fs in
    let skipped = count_from seen c fs in
    if find_or false f.resource_ref seen then skipped else rest

unfoldable pub count_by_severity : List CheckResult → Counts
unfolding count_from
count_by_severity findings =
    count_from [] (record { healthy = 0; degraded = 0; failed = 0 }) findings
