-- ===== src/Remediation/Topology/Sound.antt =====
-- The results of `topologicalSort`: plans and errors.
use mathlib.Core.List.{Memᴰ}
use sre_operator.Common.{
  ◌≤◌, ◌≡◌, inl, inr, List, [], Text, Dict, ℤ, length, count, All, FitsIn, FitsIn-full,
  if◌then◌else◌, nat_eq, nat_eq_iff, Bool-cases, arith,
}
use sre_operator.Api.Types.{RemediationStep}
use sre_operator.Remediation.Topology.{sorted, failure, cycle_detected, SortError, topological_sort}
use sre_operator.Remediation.Topology.Edges.{names}
use sre_operator.Remediation.Topology.Loop.{IsOrdered, length-names, Inv}
use sre_operator.Remediation.Topology.Sorting.{Visits, topological_sort_ind}

-- A plan for the steps: each of them once, every dependency before its step.
pub record IsPlan (steps plan : List RemediationStep) : Type 0 where
  pub ordered : IsOrdered [] plan
  pub same_names : (n : Text) → count n (names plan) ≡ count n (names steps)
  pub unique : (n : Text) → count n (names steps) ≤ 1
  pub listed : All (λ s. Memᴰ s steps) plan

Inv-IsPlan :
    (steps done : List RemediationStep) (m : Dict ℤ)
    → Inv steps [] m done
    → length done ≡ length steps
    → IsPlan steps done
Inv-IsPlan steps done m inv e = record {
  ordered = inv.ordered;
  same_names = same;
  unique = λ n. omega (arith, same n, inv.once n);
  listed = inv.listed;
}
  where
    fits : FitsIn (names done) (names steps)
    fits n = ground (arith, inv.once n, inv.known n)

    same : (n : Text) → count n (names done) ≡ count n (names steps)
    same =
        FitsIn-full (names done) (names steps) fits
          (omega (arith, length-names done, length-names steps))

-- If the sort returns a plan, it holds the given steps, each once, and every step stands behind all
-- of its dependencies, whatever the order in which Go ranges over the degrees.
pub topological_sort-IsPlan :
    (iteration : List Text → List Text) (visits : Visits iteration)
    (steps plan : List RemediationStep)
    → topological_sort iteration steps ≡ sorted plan
    → IsPlan steps plan
topological_sort-IsPlan iteration visits steps plan =
    topological_sort_ind iteration visits steps (λ r. r ≡ sorted plan → IsPlan steps plan) finish
  where
    finish :
        (m : Dict ℤ) (done : List RemediationStep)
        → Inv steps [] m done
        → (if nat_eq (length done) (length steps) then sorted done else failure cycle_detected)
          ≡ sorted plan
        → IsPlan steps plan
    finish m done inv = elim (Bool-cases (nat_eq (length done) (length steps))) [
      | inl same ↦ rw same λ e.
          let p : done ≡ plan = cc in
          rw p at (Inv-IsPlan steps done m inv ((nat_eq_iff _ _).0 same))
      | inr differs ↦ rw differs λ e. cc
    ]

-- The sort fails in one way only, with "cycle detected": its error for a dependency that is no step
-- is never returned, and its loop ends within as many rounds as there are steps.
pub topological_sort-failure :
    (iteration : List Text → List Text) (visits : Visits iteration) (steps : List RemediationStep)
    (e : SortError)
    → topological_sort iteration steps ≡ failure e
    → e ≡ cycle_detected
topological_sort-failure iteration visits steps e =
    topological_sort_ind iteration visits steps (λ r. r ≡ failure e → e ≡ cycle_detected)
      (λ m done inv. elim (Bool-cases (nat_eq (length done) (length steps))) [
        | inl same ↦ rw same λ h. cc
        | inr differs ↦ rw differs λ h. cc
      ])
