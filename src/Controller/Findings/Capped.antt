-- ===== src/Controller/Findings/Capped.antt =====
-- The findings of the status against all findings of a cycle.
use mathlib.Core.List.Perm
use mathlib.Core.List.{Perm, append-nil}
use sre_operator.Common.{
  ◌≤◌, ◌<◌, ◌≡◌, refl, List, [], ◌∷◌, ◌++◌, All, All-append_split, take, drop, length, length-take,
  take-append-drop, length-perm, ltb, arith, Bool-cases, inl, inr, ltb→lt, ltb→le,
}
use sre_operator.Api.Types.{CheckResult}
use sre_operator.Controller.Findings.{
  priority, sort_findings_by_priority, cap_findings, max_status_findings,
}
use sre_operator.Controller.Findings.Sorted.{IsSorted, sort-IsSorted, sort-perm}

IsSorted-split :
    (xs ys : List CheckResult)
    → IsSorted (xs ++ ys)
    → All (λ x. All (λ y. priority x ≤ priority y) ys) xs
IsSorted-split [] ys s = tt
IsSorted-split (x ∷ xs) ys s = ((All-append_split _ xs ys s.0).1, IsSorted-split xs ys s.1)

none_dropped : (xs : List CheckResult) → All (λ x. All (λ y. priority x ≤ priority y) []) xs
none_dropped [] = tt
none_dropped (x ∷ xs) = (tt, none_dropped xs)

-- How the status relates to all findings: `dropped` are those that it leaves out.
pub record IsCapped (fs kept dropped : List CheckResult) : Type 0 where
  pub all_there : Perm (kept ++ dropped) fs
  pub bounded : length kept ≤ 500
  pub full : 500 < length fs → length kept ≡ 500
  pub unchanged : length fs ≤ 500 → kept ≡ fs
  pub important : All (λ k. All (λ d. priority k ≤ priority d) dropped) kept

-- The status takes all findings as they are if there are at most 500, and otherwise exactly 500 of
-- them. With those that it leaves out they are all findings, each as often as it was there, and a
-- finding that is left out ranks no higher than any that is kept.
pub cap_findings-IsCapped :
    (fs : List CheckResult) → (dropped : List CheckResult) × IsCapped fs (cap_findings fs).0 dropped
unfolding cap_findings
cap_findings-IsCapped fs = elim (Bool-cases (ltb max_status_findings (length fs))) [
  | inl over ↦
      let l = sort_findings_by_priority fs in
      rw over (
        drop 500 l,
        record {
          all_there = rw (take-append-drop 500 l) (sort-perm fs);
          bounded = omega (arith, length-take 500 l);
          full = λ h. omega (arith, length-take 500 l, length-perm (sort-perm fs));
          unchanged = λ h. absurd (omega (arith, ltb→lt max_status_findings (length fs) over));
          important =
              IsSorted-split (take 500 l) (drop 500 l)
                (rw (take-append-drop 500 l) (sort-IsSorted fs));
        },
      )
  | inr fits ↦ rw fits (
    [],
    record {
      all_there = rw append-nil Perm.rfl;
      bounded = ltb→le max_status_findings (length fs) fits;
      full = λ h. absurd (omega (arith, ltb→le max_status_findings (length fs) fits));
      unchanged = λ h. refl;
      important = none_dropped fs;
    },
  )
]
