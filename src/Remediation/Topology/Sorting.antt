-- ===== src/Remediation/Topology/Sorting.antt =====
-- What `topologicalSort` returns, for every order in which Go ranges over the map of degrees.
use sre_operator.Common.{
  ◌≡◌, refl, List, [], Text, Dict, ℤ, pos, is_zero, find_or, keys, length, count, count-select,
  if◌then◌else◌, nat_eq, arith,
}
use sre_operator.Api.Types.{RemediationStep}
use sre_operator.Remediation.Topology.{
  SortResult, sorted, failure, cycle_detected, sources, build, topological_sort,
}
use sre_operator.Remediation.Topology.Edges.{names, pending, build-Holds}
use sre_operator.Remediation.Topology.Loop.{Inv, drain_ind}

-- A range over a map visits every key once, in some order.
abbrev pub Visits : (List Text → List Text) → Type 0
Visits iteration = (ks : List Text) (n : Text) → count n (iteration ks) ≡ count n ks

module _ (iteration : List Text → List Text) (visits : Visits iteration)
    (steps : List RemediationStep) where
  sources-count :
      (n : Text)
      → count n (sources iteration (build steps).in_degree) ≡ (
          if nat_eq (pending steps [] n) 0
          then (if nat_eq (count n (names steps)) 0 then 0 else 1)
          else 0)
  unfolding sources
  sources-count n =
      let m = (build steps).in_degree in
      let h = build-Holds steps in
      ground (
        arith,
        count-select (λ name. is_zero (find_or (pos 0) name m)) n (iteration (keys m)),
        visits (keys m) n,
        h.degrees n,
        h.keyed n,
      )

  start-Inv : Inv steps (sources iteration (build steps).in_degree) (build steps).in_degree []
  start-Inv = record {
    degrees = (build-Holds steps).degrees;
    once = λ n. ground (arith, sources-count n);
    known = λ n h. ground (arith, sources-count n);
    ready = λ n h. ground (arith, sources-count n);
    complete = λ n k z. ground (arith, sources-count n);
    listed = tt;
    ordered = tt;
  }

  pub topological_sort_ind {ℓ} :
      (Q : SortResult → Type ℓ)
      → ((m : Dict ℤ) (done : List RemediationStep)
          → Inv steps [] m done
          → Q (if nat_eq (length done) (length steps) then sorted done else failure cycle_detected))
      → Q (topological_sort iteration steps)
  unfolding topological_sort
  topological_sort_ind Q finish =
      drain_ind steps Q finish (length steps) (sources iteration (build steps).in_degree)
        (build steps).in_degree [] 0 refl (omega arith) start-Inv
