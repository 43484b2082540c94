-- ===== src/Remediation/Topology/Exact.antt =====
-- Which workflows `topologicalSort` accepts.
use mathlib.Core.List.{Memᴰ}
use mathlib.Core.List.{append_assoc}
use sre_operator.Common.{
  All-mem, ℕ, suc, ◌≤◌, ◌<◌, ◌≡◌, ◌↔◌, refl, ap, sym, ◌∙◌, inl, inr, List, [], ◌∷◌, ◌++◌, Text,
  ◌==◌, length, count, count-append, All, if◌then◌else◌, Bool-cases, arith, eq_refl, eq_iff,
  eq_sound,
}
use sre_operator.Api.Types.{RemediationStep}
use sre_operator.Remediation.Topology.{sorted, topological_sort}
use sre_operator.Remediation.Topology.Edges.{names}
use sre_operator.Remediation.Topology.Lookup.{count-names_of_mem}
use sre_operator.Remediation.Topology.Loop.{IsOrdered, All-counts}
use sre_operator.Remediation.Topology.Sorting.{Visits}
use sre_operator.Remediation.Topology.Complete.{IsDag, IsDag-sorted}
use sre_operator.Remediation.Topology.Sound.{IsPlan, topological_sort-IsPlan}

-- The place of a name in a list, from 0.
position : Text → List Text → ℕ
position n [] = 0
position n (x ∷ xs) = let rest = position n xs in if x == n then 0 else suc rest

position-lt : (n : Text) (xs ys : List Text) → 0 < count n xs → position n (xs ++ ys) < length xs
unfolding position
position-lt n [] ys h = absurd (omega arith)
position-lt n (x ∷ xs) ys h = ground (arith, position-lt n xs ys)

position-ge : (n : Text) (xs ys : List Text) → count n xs ≡ 0 → length xs ≤ position n (xs ++ ys)
unfolding position
position-ge n [] ys h = omega arith
position-ge n (x ∷ xs) ys h = ground (arith, position-ge n xs ys)

All-below :
    (before rest deps : List Text) (n : Text)
    → count n before ≡ 0
    → All (λ d. 0 < count d before) deps
    → All (λ d. position d (before ++ rest) < position n (before ++ rest)) deps
All-below before rest [] n h a = tt
All-below before rest (d ∷ ds) n h a = (
  omega (arith, position-lt d before rest a.0, position-ge n before rest h),
  All-below before rest ds n h a.1,
)

module _ (l : List Text) (once : (n : Text) → count n l ≤ 1) where
  -- In an ordered plan the position is a rank.
  ordered_descends :
      (plan : List RemediationStep) (seen before : List Text)
      → ((d : Text) → count d seen ≡ count d before)
      → before ++ names plan ≡ l
      → IsOrdered seen plan
      → (s : RemediationStep) → Memᴰ s plan
      → All (λ d. 0 < count d l) s.depends_on
        × All (λ d. position d l < position s.name l) s.depends_on
  ordered_descends [] seen before c e o s m = elim m [ ]
  ordered_descends (u ∷ us) seen before c e o s (Memᴰ.head same) =
      let deps = All-counts seen before u.depends_on (λ d. omega (arith, c d)) o.0 in
      let fresh : count u.name before ≡ 0 = ground (
        arith,
        once u.name,
        ap (count u.name) e,
        count-append u.name before (u.name ∷ names us),
        eq_refl u.name,
      ) in
      rw (same, ← e)
        (
          All-counts before (before ++ u.name ∷ names us) u.depends_on
              (λ d. omega (arith, count-append d before (u.name ∷ names us))) deps,
          All-below before (u.name ∷ names us) u.depends_on u.name fresh deps,
        )
  ordered_descends (u ∷ us) seen before c e o s (Memᴰ.tail m) =
      ordered_descends us (u.name ∷ seen) (before ++ u.name ∷ [])
        (λ d. ground (arith, c d, count-append d before (u.name ∷ []))) (rw append_assoc e) o.1 s m

pub mem-of_count :
    (plan : List RemediationStep) (n : Text)
    → 0 < count n (names plan)
    → (s : RemediationStep) × Memᴰ s plan × (s.name ≡ n)
mem-of_count [] n h = absurd (omega arith)
mem-of_count (u ∷ us) n h = elim (Bool-cases (u.name == n)) [
  | inl same ↦ (u, Memᴰ.head refl, eq_sound u.name n same)
  | inr differs ↦ let (s, m, e) = mem-of_count us n (ground arith) in (s, Memᴰ.tail m, e)
]

-- Two steps of one name are the same step, where names are unique.
pub same_step :
    (steps : List RemediationStep) (s u : RemediationStep)
    → ((n : Text) → count n (names steps) ≤ 1)
    → Memᴰ s steps
    → Memᴰ u steps
    → s.name ≡ u.name
    → s ≡ u
same_step [] s u once m k e = elim m [ ]
same_step (x ∷ xs) s u once (Memᴰ.head p) (Memᴰ.head q) e = p ∙ sym q
same_step (x ∷ xs) s u once (Memᴰ.head p) (Memᴰ.tail k) e = absurd (
    ground (
      arith,
      once u.name,
      count-names_of_mem xs u k,
      eq_iff x.name u.name,
      sym (ap (λ (t : RemediationStep). t.name) p) ∙ e,
    ))
same_step (x ∷ xs) s u once (Memᴰ.tail m) (Memᴰ.head q) e = absurd (
    ground (
      arith,
      once s.name,
      count-names_of_mem xs s m,
      eq_iff x.name s.name,
      sym (ap (λ (t : RemediationStep). t.name) q) ∙ sym e,
    ))
same_step (x ∷ xs) s u once (Memᴰ.tail m) (Memᴰ.tail k) e =
    same_step xs s u (λ n. ground (arith, once n)) m k e

All-same :
    (xs ys deps : List Text)
    → ((n : Text) → count n xs ≡ count n ys)
    → All (λ d. 0 < count d xs) deps
    → All (λ d. 0 < count d ys) deps
All-same xs ys deps e = All-counts xs ys deps (λ d. omega (arith, e d))

-- Every step of the workflow is in the plan.
pub IsPlan-mem :
    (steps plan : List RemediationStep) (s : RemediationStep)
    → IsPlan steps plan
    → Memᴰ s steps
    → Memᴰ s plan
IsPlan-mem steps plan s p m =
    let (u, k, e) =
      mem-of_count plan s.name (omega (arith, p.same_names s.name, count-names_of_mem steps s m)) in
    let same : s ≡ u =
      same_step steps s u p.unique m (All-mem (λ t. Memᴰ t steps) plan p.listed k) (sym e) in
    rw same k

IsPlan-IsDag : (steps plan : List RemediationStep) → IsPlan steps plan → IsDag steps
IsPlan-IsDag steps plan p = record {
  unique = p.unique;
  closed = λ s m. All-same (names plan) (names steps) s.depends_on p.same_names (both s m).0;
  rank = λ n. position n (names plan);
  descends = λ s m. (both s m).1;
}
  where
    once : (n : Text) → count n (names plan) ≤ 1
    once n = omega (arith, p.same_names n, p.unique n)

    both :
        (s : RemediationStep)
        → Memᴰ s steps
        → All (λ d. 0 < count d (names plan)) s.depends_on
          × All (λ d. position d (names plan) < position s.name (names plan)) s.depends_on
    both s m =
        ordered_descends (names plan) once plan [] [] (λ d. refl) refl p.ordered s
          (IsPlan-mem steps plan s p m)

-- The sort returns a plan exactly when the steps form a directed acyclic graph: unique names, only
-- dependencies that are steps, and no cycle.
pub topological_sort_iff :
    (iteration : List Text → List Text) (visits : Visits iteration) (steps : List RemediationStep)
    → ((plan : List RemediationStep) × (topological_sort iteration steps ≡ sorted plan))
      ↔ IsDag steps
topological_sort_iff iteration visits steps = (
  λ (plan, e). IsPlan-IsDag steps plan (topological_sort-IsPlan iteration visits steps plan e),
  IsDag-sorted iteration visits steps,
)
