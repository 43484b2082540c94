-- ===== src/Controller/Checks/Workflows.antt =====
-- Checks that have a workflow, and the health of the cluster.
use sre_operator.Common.{
  ◌≡◌, ◌↔◌, refl, ap, Bool, true, false, ◌||◌, not, Option, none, some, List, [], ◌∷◌, ◌++◌, Text,
  str, ◌==◌, All, if◌then◌else◌, arith, Bool-cases, inl, inr,
}
use sre_operator.Api.Types.{CheckResult, CheckSpec, OcpClusterSpec}
use sre_operator.Remediation.Engine.{apply, has_steps}
use sre_operator.Controller.Checks.{
  Checker, Registry, Outcome, is_none, applied, remediate, remediate_all, outcome_of, run_checker,
  run_checkers, run_namespaces, run_built_in_checks, plus, all_healthy, ocp_outcome,
  run_ocp_cluster_checks, ocp_check_spec,
}
use sre_operator.Controller.Checks.Remediated.{reported, reports, in_namespaces, gathered}

abbrev untouched : List CheckResult → Outcome
untouched fs = record { findings = fs; remediations = 0 }

module _ (spec : CheckSpec) (workflow : has_steps spec.remediation_workflow ≡ true) where
  remediate-untouched : (f : CheckResult) → remediate spec f ≡ (f, 0)
  unfolding remediate apply applied
  remediate-untouched f =
      elim (Bool-cases (f.status == str "Healthy" || is_none spec.remediation)) [
        | inl e ↦ rw e refl
        | inr e ↦ rw (e, workflow) refl
      ]

  remediate_all-untouched : (fs : List CheckResult) → remediate_all spec fs ≡ untouched fs
  unfolding remediate_all
  remediate_all-untouched [] = refl
  remediate_all-untouched (f ∷ fs) = rw (remediate-untouched f, remediate_all-untouched fs) refl

  outcome_of-untouched :
      (r : Option (List CheckResult)) → outcome_of spec r ≡ untouched (reported r)
  unfolding outcome_of
  outcome_of-untouched none = refl
  outcome_of-untouched (some fs) = remediate_all-untouched fs

  run_checkers-untouched : (cs : List Checker) → run_checkers spec cs ≡ untouched (reports spec cs)
  unfolding run_checkers run_checker plus
  run_checkers-untouched [] = refl
  run_checkers-untouched (c ∷ cs) =
      rw (outcome_of-untouched (c.run spec), run_checkers-untouched cs) refl

  run_namespaces-untouched :
      (registry : Registry) (nss : List Text)
      → run_namespaces registry spec nss ≡ untouched (in_namespaces registry spec nss)
  unfolding run_namespaces plus
  run_namespaces-untouched registry [] = refl
  run_namespaces-untouched registry (ns ∷ rest) =
      rw
        (
          run_checkers-untouched (registry.checkers ns spec.category),
          run_namespaces-untouched registry rest,
        )
        refl

if_enabled-untouched :
    (enabled : Bool) (a b : Outcome) (xs ys : List CheckResult)
    → a ≡ untouched xs
    → b ≡ untouched ys
    → (if not enabled then b else plus a b) ≡ untouched (if enabled then xs ++ ys else ys)
unfolding plus
if_enabled-untouched true a b xs ys p q = rw (p, q) refl
if_enabled-untouched false a b xs ys p q = q

-- If every check has a workflow with steps, the built-in checks remediate nothing: they return what
-- the checkers report, unchanged, and count no remediation.
pub run_built_in_checks_workflows :
    (registry : Registry) (specs : List CheckSpec) (namespaces : List Text)
    → All (λ spec. has_steps spec.remediation_workflow ≡ true) specs
    → ((run_built_in_checks registry specs namespaces).findings
        ≡ gathered registry specs namespaces)
      × ((run_built_in_checks registry specs namespaces).remediations ≡ 0)
unfolding run_built_in_checks
run_built_in_checks_workflows registry specs namespaces w =
    (ap (λ o. o.findings) (all specs w), ap (λ o. o.remediations) (all specs w))
  where
    all :
        (ss : List CheckSpec)
        → All (λ spec. has_steps spec.remediation_workflow ≡ true) ss
        → run_built_in_checks registry ss namespaces ≡ untouched (gathered registry ss namespaces)
    all [] h = refl
    all (s ∷ ss) h =
        if_enabled-untouched s.enabled _ _ _ _ (run_namespaces-untouched s h.0 registry namespaces)
          (all ss h.1)

all_healthy_iff :
    (fs : List CheckResult)
    → (all_healthy fs ≡ true) ↔ All (λ f. (f.status == str "Healthy") ≡ true) fs
unfolding all_healthy
all_healthy_iff [] = (λ h. tt, λ h. refl)
all_healthy_iff (f ∷ fs) = (
  λ h. (ground arith, (all_healthy_iff fs).0 (ground arith)),
  λ h. ground (arith, h.0, (all_healthy_iff fs).1 h.1),
)

HealthAgrees : List CheckResult × Bool → Type 0
HealthAgrees (findings, healthy) =
    (healthy ≡ true) ↔ All (λ f. (f.status == str "Healthy") ≡ true) findings

no_findings : HealthAgrees ([], true)
unfolding HealthAgrees
no_findings = (λ h. tt, λ h. refl)

ocp_outcome-HealthAgrees : (r : Option (List CheckResult)) → HealthAgrees (ocp_outcome r)
unfolding ocp_outcome HealthAgrees
ocp_outcome-HealthAgrees none = no_findings
ocp_outcome-HealthAgrees (some fs) = all_healthy_iff fs

if_off-HealthAgrees :
    (enabled : Bool) (r : Option (List CheckResult))
    → HealthAgrees (if not enabled then ([], true) else ocp_outcome r)
if_off-HealthAgrees true r = ocp_outcome-HealthAgrees r
if_off-HealthAgrees false r = no_findings

-- The cluster counts as healthy exactly when every finding of the OCP checks is: also when they are
-- switched off or fail, where there is no finding.
pub run_ocp_cluster_checks_healthy_iff :
    (checker : Checker) (spec : Option OcpClusterSpec)
    → let (findings, healthy) = run_ocp_cluster_checks checker spec in
      (healthy ≡ true) ↔ All (λ f. (f.status == str "Healthy") ≡ true) findings
unfolding run_ocp_cluster_checks HealthAgrees
run_ocp_cluster_checks_healthy_iff checker none = no_findings
run_ocp_cluster_checks_healthy_iff checker (some spec) =
    if_off-HealthAgrees spec.enabled (checker.run (ocp_check_spec spec))
