-- ===== src/Controller/Checks/Remediated.antt =====
-- What the built-in checks return, against what the checkers reported.
use sre_operator.Common.{
  ℕ, ◌+◌, ◌≡◌, refl, ap, ◌∙◌, Bool, true, false, ◌||◌, not, Option, none, some, List, [], ◌∷◌, ◌++◌,
  map, Text, str, ◌==◌, if◌then◌else◌, arith, Bool-cases, inl, inr,
}
use sre_operator.Api.Enums.{RemediationAction}
use sre_operator.Api.Types.{CheckResult, CheckSpec}
use sre_operator.Remediation.Engine.{apply}
use sre_operator.Controller.Checks.{
  Checker, Registry, Outcome, is_none, acts, applied, remediate, remediate_all, outcome_of,
  run_checker, run_checkers, run_namespaces, run_built_in_checks, plus, no_outcome,
}

-- What the checkers report, in the order in which they run.
abbrev pub reported : Option (List CheckResult) → List CheckResult
reported none = []
reported (some fs) = fs

abbrev pub reports : CheckSpec → List Checker → List CheckResult
reports spec [] = []
reports spec (c ∷ cs) = reported (c.run spec) ++ reports spec cs

abbrev pub in_namespaces : Registry → CheckSpec → List Text → List CheckResult
in_namespaces registry spec [] = []
in_namespaces registry spec (ns ∷ rest) =
    reports spec (registry.checkers ns spec.category) ++ in_namespaces registry spec rest

abbrev pub gathered : Registry → List CheckSpec → List Text → List CheckResult
gathered registry [] namespaces = []
gathered registry (spec ∷ specs) namespaces =
    let rest = gathered registry specs namespaces in
    if spec.enabled then in_namespaces registry spec namespaces ++ rest else rest

-- A finding without the marks of a remediation.
abbrev pub unmarked : CheckResult → CheckResult
unmarked f = record f { remediation_applied = none; remediation_attempts = 0 }

abbrev pub attempts : List CheckResult → ℕ
attempts [] = 0
attempts (f ∷ fs) = f.remediation_attempts + attempts fs

-- An outcome is one of these findings: marks aside they are the same, and as many remediations are
-- counted as attempts were added.
pub record IsOutcome (out : Outcome) (raw : List CheckResult) : Type 0 where
  pub same : map unmarked out.findings ≡ map unmarked raw
  pub counted : attempts out.findings ≡ attempts raw + out.remediations

map-append_unmarked :
    (xs ys : List CheckResult) → map unmarked (xs ++ ys) ≡ map unmarked xs ++ map unmarked ys
map-append_unmarked [] ys = refl
map-append_unmarked (x ∷ xs) ys = ap (λ l. unmarked x ∷ l) (map-append_unmarked xs ys)

attempts-append : (xs ys : List CheckResult) → attempts (xs ++ ys) ≡ attempts xs + attempts ys
attempts-append [] ys = omega arith
attempts-append (x ∷ xs) ys = ground (arith, attempts-append xs ys)

no_outcome-IsOutcome : IsOutcome no_outcome []
no_outcome-IsOutcome = record { same = refl; counted = refl }

plus-IsOutcome :
    (a b : Outcome) (xs ys : List CheckResult)
    → IsOutcome a xs
    → IsOutcome b ys
    → IsOutcome (plus a b) (xs ++ ys)
unfolding plus
plus-IsOutcome a b xs ys p q = record {
  same =
      rw (map-append_unmarked a.findings b.findings, map-append_unmarked xs ys, p.same, q.same)
        refl;
  counted =
      omega
        (arith, attempts-append a.findings b.findings, attempts-append xs ys, p.counted, q.counted);
}

applied-unmarked :
    (r : RemediationAction × Option Text) (f : CheckResult)
    → (unmarked (applied r f).0 ≡ unmarked f)
      × ((applied r f).0.remediation_attempts ≡ f.remediation_attempts + (applied r f).1)
unfolding applied
applied-unmarked (action, some err) f = (refl, omega arith)
applied-unmarked (action, none) f = elim (Bool-cases (acts action)) [
  | inl e ↦ rw e (refl, omega arith)
  | inr e ↦ rw e (refl, omega arith)
]

remediate-unmarked :
    (spec : CheckSpec) (f : CheckResult)
    → (unmarked (remediate spec f).0 ≡ unmarked f)
      × ((remediate spec f).0.remediation_attempts ≡ f.remediation_attempts + (remediate spec f).1)
unfolding remediate
remediate-unmarked spec f =
    elim (Bool-cases (f.status == str "Healthy" || is_none spec.remediation)) [
      | inl e ↦ rw e (refl, omega arith)
      | inr e ↦ rw e (applied-unmarked (apply f spec) f)
    ]

remediate_all-IsOutcome :
    (spec : CheckSpec) (fs : List CheckResult) → IsOutcome (remediate_all spec fs) fs
unfolding remediate_all
remediate_all-IsOutcome spec [] = no_outcome-IsOutcome
remediate_all-IsOutcome spec (f ∷ fs) =
    let one = remediate-unmarked spec f in
    let rest = remediate_all-IsOutcome spec fs in
    record {
      same =
          ap (λ x. x ∷ map unmarked (remediate_all spec fs).findings) one.0
          ∙ ap (λ l. unmarked f ∷ l) rest.same;
      counted = omega (arith, one.1, rest.counted);
    }

outcome_of-IsOutcome :
    (spec : CheckSpec) (r : Option (List CheckResult)) → IsOutcome (outcome_of spec r) (reported r)
unfolding outcome_of
outcome_of-IsOutcome spec none = no_outcome-IsOutcome
outcome_of-IsOutcome spec (some fs) = remediate_all-IsOutcome spec fs

run_checker-IsOutcome :
    (spec : CheckSpec) (c : Checker) → IsOutcome (run_checker spec c) (reported (c.run spec))
unfolding run_checker
run_checker-IsOutcome spec c = outcome_of-IsOutcome spec (c.run spec)

run_checkers-IsOutcome :
    (spec : CheckSpec) (cs : List Checker) → IsOutcome (run_checkers spec cs) (reports spec cs)
unfolding run_checkers
run_checkers-IsOutcome spec [] = no_outcome-IsOutcome
run_checkers-IsOutcome spec (c ∷ cs) =
    plus-IsOutcome _ _ _ _ (run_checker-IsOutcome spec c) (run_checkers-IsOutcome spec cs)

run_namespaces-IsOutcome :
    (registry : Registry) (spec : CheckSpec) (nss : List Text)
    → IsOutcome (run_namespaces registry spec nss) (in_namespaces registry spec nss)
unfolding run_namespaces
run_namespaces-IsOutcome registry spec [] = no_outcome-IsOutcome
run_namespaces-IsOutcome registry spec (ns ∷ rest) =
    plus-IsOutcome _ _ _ _ (run_checkers-IsOutcome spec (registry.checkers ns spec.category))
      (run_namespaces-IsOutcome registry spec rest)

if_enabled-IsOutcome :
    (enabled : Bool) (a b : Outcome) (xs ys : List CheckResult)
    → IsOutcome a xs
    → IsOutcome b ys
    → IsOutcome (if not enabled then b else plus a b) (if enabled then xs ++ ys else ys)
if_enabled-IsOutcome true a b xs ys p q = plus-IsOutcome a b xs ys p q
if_enabled-IsOutcome false a b xs ys p q = q

-- The built-in checks return what the checkers of the enabled specifications report, for each
-- specification in each namespace, in that order. Only the marks of a remediation are changed, and
-- the number of remediations is that of the attempts added to the findings.
pub run_built_in_checks-IsOutcome :
    (registry : Registry) (specs : List CheckSpec) (namespaces : List Text)
    → IsOutcome (run_built_in_checks registry specs namespaces) (gathered registry specs namespaces)
unfolding run_built_in_checks
run_built_in_checks-IsOutcome registry [] namespaces = no_outcome-IsOutcome
run_built_in_checks-IsOutcome registry (spec ∷ specs) namespaces =
    if_enabled-IsOutcome spec.enabled _ _ _ _ (run_namespaces-IsOutcome registry spec namespaces)
      (run_built_in_checks-IsOutcome registry specs namespaces)
