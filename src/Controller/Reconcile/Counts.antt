-- ===== src/Controller/Reconcile/Counts.antt =====
-- The numbers of the final status, which are kept as `int32`.
use sre_operator.Common.{
  ℕ, suc, ◌+◌, ◌≤◌, ◌<◌, ◌≡◌, ◌∙◌, refl, ap, pos, Bool, true, List, [], ◌∷◌, Text, Dict, put,
  length, length-perm, ltb, Bool-cases, inl, inr, arith,
}
use sre_operator.Api.Types.{SrePolicy, SrePolicyStatus, CheckResult}
use sre_operator.Controller.Conditions.{set_condition}
use sre_operator.Controller.Findings.{
  Counts, tally, count_from, count_by_severity, cap_findings, max_status_findings,
}
use sre_operator.Controller.Findings.Sorted.{sort-perm}
use sre_operator.Controller.Cycle.{to_int32, final_status, set_now}
use sre_operator.Controller.World.{World}

abbrev total : Counts → ℕ
total c = c.healthy + c.degraded + c.failed

tally-total : (s : Text) (c : Counts) → total (tally s c) ≤ suc (total c)
unfolding tally
tally-total s c = ground arith

count_from-total :
    (seen : Dict Bool) (c : Counts) (fs : List CheckResult)
    → total (count_from seen c fs) ≤ total c + length fs
unfolding count_from
count_from-total seen c [] = omega arith
count_from-total seen c (f ∷ fs) = ground (
  arith,
  count_from-total (put f.resource_ref true seen) (tally f.status c) fs,
  count_from-total seen c fs,
  tally-total f.status c,
)

count_by_severity-total : (fs : List CheckResult) → total (count_by_severity fs) ≤ length fs
unfolding count_by_severity
count_by_severity-total fs =
    omega (arith, count_from-total [] (record { healthy = 0; degraded = 0; failed = 0 }) fs)

length-capped : (fs : List CheckResult) → length (cap_findings fs).1 ≡ length fs
unfolding cap_findings
length-capped fs = elim (Bool-cases (ltb max_status_findings (length fs))) [
  | inl over ↦ rw over (length-perm (sort-perm fs))
  | inr fits ↦ rw fits refl
]

to_int32-small : (n : ℕ) → n < 2147483648 → to_int32 n ≡ pos n
unfolding to_int32
to_int32-small n h = ground arith

-- With less than 2^31 findings and less than 2^31 remediations the numbers of checks and remediations
-- in the final status are the numbers of findings and of remediations, and the three counts are those
-- of `countBySeverity`, which together are at most the number of findings.
pub final_status_counts :
    (world : World) (policy : SrePolicy) (fs : List CheckResult) (n k : ℕ)
    (status : SrePolicyStatus)
    → length fs < 2147483648
    → n < 2147483648
    → let after = final_status world policy fs n k status in
      let c = count_by_severity (cap_findings fs).1 in
      (after.total_checks ≡ pos (length fs))
      × (after.remediations_applied ≡ pos n)
      × (after.healthy_count ≡ pos c.healthy)
      × (after.degraded_count ≡ pos c.degraded)
      × (after.failed_count ≡ pos c.failed)
      × (c.healthy + c.degraded + c.failed ≤ length fs)
unfolding final_status set_now set_condition
final_status_counts world policy fs n k status h applied =
    let all = (cap_findings fs).1 in
    let c = count_by_severity all in
    let same = length-capped fs in
    let few = count_by_severity-total all in
    (
      to_int32-small (length all) (omega (arith, same)) ∙ ap pos same,
      to_int32-small n applied,
      to_int32-small c.healthy (omega (arith, same, few)),
      to_int32-small c.degraded (omega (arith, same, few)),
      to_int32-small c.failed (omega (arith, same, few)),
      omega (arith, same, few),
    )
