-- ===== src/Controller/Checks.antt =====
-- `runBuiltInChecks` and `runOCPClusterChecks` of internal/controller/srepolicy_controller.go. The
-- checkers are an interface: in the source, internal/checks/checks.go has stubs (`stub_registry`,
-- `stub_checker`).
pub mod Remediated
pub mod Workflows
use sre_operator.Common.{
  ℕ, zero, suc, ◌+◌, Bool, true, false, ◌&&◌, ◌||◌, not, Option, none, some, List, [], ◌∷◌, ◌++◌,
  Text, str, ◌==◌, pos, if◌then◌else◌,
}
use sre_operator.Api.Enums.{SeverityLevel, CheckCategory, RemediationAction}
use sre_operator.Api.Types.{CheckResult, CheckSpec, OcpClusterSpec}
use sre_operator.Remediation.Engine.{apply}

-- The interface `Checker`; `none` is an error of `Run`.
pub record Checker : Type 0 where
  pub name : Text
  pub run : CheckSpec → Option (List CheckResult)

-- `buildRegistry(ns).For(category)`
pub record Registry : Type 0 where
  pub checkers : (namespace : Text) → CheckCategory → List Checker

-- `dummyChecker`
abbrev pub stub_checker : Text → Checker
stub_checker name = record { name = name; run = λ spec. some [] }

abbrev pub stub_registry : Registry
stub_registry = record { checkers = λ namespace category. [] }

-- `Register` forgets the checker.
abbrev pub register : Checker → Registry → Registry
register checker registry = registry

-- The same for every namespace.
abbrev pub build_registry : Registry
build_registry = register (stub_checker (str "network")) (
    register (stub_checker (str "storage"))
      (register (stub_checker (str "node")) (register (stub_checker (str "vm")) stub_registry)))

-- `action == RemediationNone`, and `action != RemediationNone && action != RemediationAlert`.
unfoldable pub is_none : RemediationAction → Bool
is_none RemediationAction.none = true
is_none _ = false

unfoldable pub acts : RemediationAction → Bool
acts RemediationAction.none = false
acts RemediationAction.alert = false
acts _ = true

-- A finding and its part of `totalRemediations`, after `Apply`.
unfoldable pub applied : RemediationAction × Option Text → CheckResult → CheckResult × ℕ
unfolding acts
applied (action, some err) f = (f, 0)
applied (action, none) f =
    if acts action
    then (
      record f {
        remediation_applied = some action;
        remediation_attempts = suc f.remediation_attempts;
      },
      1,
    )
    else (f, 0)

-- The body of the loop over the findings of one checker.
unfoldable pub remediate : CheckSpec → CheckResult → CheckResult × ℕ
unfolding applied apply is_none
remediate spec f =
    if f.status == str "Healthy" || is_none spec.remediation
    then (f, 0)
    else applied (apply f spec) f

-- `allFindings` and `totalRemediations`.
pub record Outcome : Type 0 where
  pub findings : List CheckResult
  pub remediations : ℕ

abbrev pub no_outcome : Outcome
no_outcome = record { findings = []; remediations = 0 }

unfoldable pub plus : Outcome → Outcome → Outcome
plus a b = record {
  findings = a.findings ++ b.findings;
  remediations = a.remediations + b.remediations;
}

unfoldable pub remediate_all : CheckSpec → List CheckResult → Outcome
unfolding remediate
remediate_all spec [] = no_outcome
remediate_all spec (f ∷ fs) =
    let (f', n) = remediate spec f in
    let rest = remediate_all spec fs in
    record { findings = f' ∷ rest.findings; remediations = n + rest.remediations }

-- A checker that returns an error is passed over.
unfoldable pub outcome_of : CheckSpec → Option (List CheckResult) → Outcome
unfolding remediate_all
outcome_of spec none = no_outcome
outcome_of spec (some findings) = remediate_all spec findings

unfoldable pub run_checker : CheckSpec → Checker → Outcome
unfolding outcome_of
run_checker spec checker = outcome_of spec (checker.run spec)

unfoldable pub run_checkers : CheckSpec → List Checker → Outcome
unfolding run_checker plus
run_checkers spec [] = no_outcome
run_checkers spec (c ∷ cs) = plus (run_checker spec c) (run_checkers spec cs)

unfoldable pub run_namespaces : Registry → CheckSpec → List Text → Outcome
unfolding run_checkers plus
run_namespaces registry spec [] = no_outcome
run_namespaces registry spec (ns ∷ rest) =
    plus (run_checkers spec (registry.checkers ns spec.category))
      (run_namespaces registry spec rest)

-- The error that `runBuiltInChecks` returns is always nil, and left out.
unfoldable pub run_built_in_checks : Registry → List CheckSpec → List Text → Outcome
unfolding run_namespaces plus
run_built_in_checks registry [] namespaces = no_outcome
run_built_in_checks registry (spec ∷ specs) namespaces =
    let rest = run_built_in_checks registry specs namespaces in
    if not spec.enabled then rest else plus (run_namespaces registry spec namespaces) rest

-- The synthetic specification of the OCP checks.
abbrev pub ocp_check_spec : OcpClusterSpec → CheckSpec
ocp_check_spec spec = record {
  name = str "ocp-cluster";
  category = CheckCategory.ocp_cluster;
  enabled = true;
  severity = SeverityLevel.critical;
  remediation = spec.remediation;
  remediation_workflow = none;
  runbook_url = spec.runbook_url;
  interval_seconds = pos 0;
}

-- The loop that looks for a finding which is not healthy.
unfoldable pub all_healthy : List CheckResult → Bool
all_healthy [] = true
all_healthy (f ∷ fs) =
    let rest = all_healthy fs in if not (f.status == str "Healthy") then false else rest

unfoldable pub ocp_outcome : Option (List CheckResult) → List CheckResult × Bool
unfolding all_healthy
ocp_outcome none = ([], true)
ocp_outcome (some findings) = (findings, all_healthy findings)

unfoldable pub run_ocp_cluster_checks : Checker → Option OcpClusterSpec → List CheckResult × Bool
unfolding ocp_outcome
run_ocp_cluster_checks checker none = ([], true)
run_ocp_cluster_checks checker (some spec) =
    if not spec.enabled then ([], true) else ocp_outcome (checker.run (ocp_check_spec spec))
