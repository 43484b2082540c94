-- ===== src/Remediation/Topology/Complete.antt =====
-- Acyclic workflows under `topologicalSort`.
use mathlib.Core.List.{Memᴰ}
use sre_operator.Common.{
  ℕ, zero, suc, ◌≤◌, ◌<◌, ◌≡◌, refl, ap, inl, inr, List, [], ◌∷◌, Text, ◌==◌, Dict, ℤ, length,
  count, All, FitsIn, FitsIn-length, nat_eq_iff, Bool-cases, arith, eq_sound,
}
use sre_operator.Api.Types.{RemediationStep}
use sre_operator.Remediation.Topology.{sorted, topological_sort}
use sre_operator.Remediation.Topology.Edges.{names, missing, pending}
use sre_operator.Remediation.Topology.Loop.{length-names, Inv}
use sre_operator.Remediation.Topology.Sorting.{Visits, topological_sort_ind}

-- The steps form a directed acyclic graph: names are unique, every dependency is a step, and `rank`
-- puts each dependency below the step that has it.
pub record IsDag (steps : List RemediationStep) : Type 0 where
  pub unique : (n : Text) → count n (names steps) ≤ 1
  pub closed :
      (s : RemediationStep) → Memᴰ s steps → All (λ d. 0 < count d (names steps)) s.depends_on
  pub rank : Text → ℕ
  pub descends : (s : RemediationStep) → Memᴰ s steps → All (λ d. rank d < rank s.name) s.depends_on

pending-zero :
    (steps : List RemediationStep) (seen : List Text) (n : Text)
    → ((s : RemediationStep) → Memᴰ s steps → s.name ≡ n → missing seen s.depends_on ≡ 0)
    → pending steps seen n ≡ 0
pending-zero [] seen n h = refl
pending-zero (s ∷ ss) seen n h =
    let rest = pending-zero ss seen n (λ u m. h u (Memᴰ.tail m)) in
    elim (Bool-cases (s.name == n)) [
      | inl same ↦ ground (arith, h s (Memᴰ.head refl) (eq_sound s.name n same))
      | inr differs ↦ ground arith
    ]

missing-of_All :
    (known seen deps : List Text) (rank : Text → ℕ) (k : ℕ)
    → All (λ d. 0 < count d known) deps
    → All (λ d. rank d < k) deps
    → ((d : Text) → rank d < k → 0 < count d known → 0 < count d seen)
    → missing seen deps ≡ 0
missing-of_All known seen [] rank k a b f = refl
missing-of_All known seen (d ∷ ds) rank k a b f =
    ground (arith, f d b.0 a.0, missing-of_All known seen ds rank k a.1 b.1 f)

module _ (steps : List RemediationStep) (dag : IsDag steps) (m : Dict ℤ)
    (done : List RemediationStep) (inv : Inv steps [] m done) where
  open dag use {rank}

  all_placed :
      (k : ℕ) (n : Text) → rank n < k → 0 < count n (names steps) → 0 < count n (names done)
  all_placed zero n r h = absurd (omega arith)
  all_placed (suc k) n r h = omega (
    arith,
    inv.complete n h (
        pending-zero steps (names done) n λ s mem e.
          missing-of_All (names steps) (names done) s.depends_on rank (rank s.name)
            (dag.closed s mem) (dag.descends s mem)
            (λ d lower listed. all_placed k d (omega (arith, ap rank e)) listed)),
  )

  all_done : length done ≡ length steps
  all_done = omega (
    arith,
    FitsIn-length (names steps) (names done) forth,
    FitsIn-length (names done) (names steps) back,
    length-names done,
    length-names steps,
  )
    where
      forth : FitsIn (names steps) (names done)
      forth n = ground (arith, dag.unique n, all_placed (suc (rank n)) n (omega arith))

      back : FitsIn (names done) (names steps)
      back n = ground (arith, inv.once n, inv.known n)

-- A workflow whose steps form a directed acyclic graph is always sorted.
pub IsDag-sorted :
    (iteration : List Text → List Text) (visits : Visits iteration) (steps : List RemediationStep)
    (dag : IsDag steps)
    → (plan : List RemediationStep) × (topological_sort iteration steps ≡ sorted plan)
IsDag-sorted iteration visits steps dag =
    topological_sort_ind iteration visits steps
      (λ r. (plan : List RemediationStep) × (r ≡ sorted plan))
      (λ m done inv. (done, rw ((nat_eq_iff _ _).1 (all_done steps dag m done inv))))
