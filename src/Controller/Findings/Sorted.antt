-- ===== src/Controller/Findings/Sorted.antt =====
-- `sortFindingsByPriority` against the ranks of the findings.
use mathlib.Core.List.Perm
use mathlib.Core.List.{Perm, perm_middle, append-nil}
use sre_operator.Common.{
  ℕ, ◌≤◌, ◌≡◌, refl, sym, ap, ◌∙◌, List, [], ◌∷◌, ◌++◌, All, All-map, select, ltb, nat_eq, arith,
  Bool-cases, inl, inr, ltb→lt, ltb→le,
}
use sre_operator.Api.Types.{CheckResult}
use sre_operator.Controller.Findings.{
  priority, sink, sort_from, rev_append, sort_findings_by_priority,
}

-- No finding stands behind one of a larger rank.
abbrev pub IsSorted : List CheckResult → Type 0
IsSorted [] = Unit {0}
IsSorted (a ∷ as') = All (λ b. priority a ≤ priority b) as' × IsSorted as'

abbrev IsDescending : List CheckResult → Type 0
IsDescending [] = Unit {0}
IsDescending (a ∷ as') = All (λ b. priority b ≤ priority a) as' × IsDescending as'

sink-All :
    (P : CheckResult → Type 0) (b : CheckResult) (below : List CheckResult)
    → P b
    → All P below
    → All P (sink b below)
unfolding sink
sink-All P b [] h a = (h, tt)
sink-All P b (x ∷ below) h a = elim (Bool-cases (ltb (priority b) (priority x))) [
  | inl e ↦ rw e (a.0, sink-All P b below h a.1)
  | inr e ↦ rw e (h, a)
]

sink-IsDescending :
    (b : CheckResult) (below : List CheckResult) → IsDescending below → IsDescending (sink b below)
unfolding sink
sink-IsDescending b [] d = (tt, tt)
sink-IsDescending b (x ∷ below) d = elim (Bool-cases (ltb (priority b) (priority x))) [
  | inl e ↦ rw e (
    sink-All (λ y. priority y ≤ priority x) b below
        (ground (arith, ltb→lt (priority b) (priority x))) d.0,
    sink-IsDescending b below d.1,
  )
  | inr e ↦
      let low : priority x ≤ priority b = ltb→le (priority b) (priority x) e in
      rw e ((low, All-map below (λ y h. omega arith) d.0), d)
]

sort_from-IsDescending :
    (below above : List CheckResult) → IsDescending below → IsDescending (sort_from below above)
unfolding sort_from
sort_from-IsDescending below [] d = d
sort_from-IsDescending below (f ∷ above) d =
    sort_from-IsDescending (sink f below) above (sink-IsDescending f below d)

rev_append-IsSorted :
    (xs acc : List CheckResult)
    → IsDescending xs
    → IsSorted acc
    → All (λ x. All (λ a. priority x ≤ priority a) acc) xs
    → IsSorted (rev_append xs acc)
unfolding rev_append
rev_append-IsSorted [] acc d s h = s
rev_append-IsSorted (x ∷ xs) acc d s h =
    rev_append-IsSorted xs (x ∷ acc) d.1 (h.0, s) (joined xs d.0 h.1)
  where
    joined :
        (ys : List CheckResult)
        → All (λ y. priority y ≤ priority x) ys
        → All (λ y. All (λ a. priority y ≤ priority a) acc) ys
        → All (λ y. All (λ a. priority y ≤ priority a) (x ∷ acc)) ys
    joined [] a b = tt
    joined (y ∷ ys) a b = ((a.0, b.0), joined ys a.1 b.1)

sink-perm : (b : CheckResult) (below : List CheckResult) → Perm (sink b below) (b ∷ below)
unfolding sink
sink-perm b [] = Perm.rfl
sink-perm b (x ∷ below) = elim (Bool-cases (ltb (priority b) (priority x))) [
  | inl e ↦ rw e (Perm.trans (Perm.cons x (sink-perm b below)) (Perm.swap b x below))
  | inr e ↦ rw e Perm.rfl
]

rev_append-perm : (xs acc : List CheckResult) → Perm (rev_append xs acc) (xs ++ acc)
unfolding rev_append
rev_append-perm [] acc = Perm.rfl
rev_append-perm (x ∷ xs) acc = Perm.trans (rev_append-perm xs (x ∷ acc)) (perm_middle xs acc)

sort_from-perm : (below above : List CheckResult) → Perm (sort_from below above) (above ++ below)
unfolding sort_from
sort_from-perm below [] = Perm.rfl
sort_from-perm below (f ∷ above) =
    Perm.trans (sort_from-perm (sink f below) above)
      (Perm.trans (Perm.append_left above (sink-perm f below)) (perm_middle above below))

-- The findings of one rank, in their order.
abbrev pub of_rank : ℕ → List CheckResult → List CheckResult
of_rank r = select (λ f. nat_eq (priority f) r)

of_rank-sink :
    (r : ℕ) (b : CheckResult) (below : List CheckResult)
    → of_rank r (sink b below) ≡ of_rank r (b ∷ below)
unfolding sink
of_rank-sink r b [] = refl
of_rank-sink r b (x ∷ below) = ground (arith, of_rank-sink r b below)

of_rank-rev_append :
    (r : ℕ) (xs acc : List CheckResult)
    → of_rank r (rev_append xs acc) ≡ rev_append (of_rank r xs) (of_rank r acc)
unfolding rev_append
of_rank-rev_append r [] acc = refl
of_rank-rev_append r (x ∷ xs) acc = elim (Bool-cases (nat_eq (priority x) r)) [
  | inl e ↦ of_rank-rev_append r xs (x ∷ acc) ∙ rw e
  | inr e ↦ of_rank-rev_append r xs (x ∷ acc) ∙ rw e
]

of_rank-sort_from :
    (r : ℕ) (below above : List CheckResult)
    → of_rank r (sort_from below above) ≡ of_rank r (rev_append above below)
unfolding sort_from rev_append
of_rank-sort_from r below [] = refl
of_rank-sort_from r below (f ∷ above) =
    of_rank-sort_from r (sink f below) above
    ∙ of_rank-rev_append r above (sink f below)
    ∙ ap (rev_append (of_rank r above)) (of_rank-sink r f below)
    ∙ sym (of_rank-rev_append r above (f ∷ below))

rev_append-twice :
    (xs ys acc : List CheckResult) → rev_append (rev_append xs ys) acc ≡ rev_append ys (xs ++ acc)
unfolding rev_append
rev_append-twice [] ys acc = refl
rev_append-twice (x ∷ xs) ys acc = rev_append-twice xs (x ∷ ys) acc

pub sort-IsSorted : (fs : List CheckResult) → IsSorted (sort_findings_by_priority fs)
unfolding sort_findings_by_priority
sort-IsSorted fs =
    rev_append-IsSorted (sort_from [] fs) [] (sort_from-IsDescending [] fs tt) tt
      (none_behind (sort_from [] fs))
  where
    none_behind : (xs : List CheckResult) → All (λ x. All (λ a. priority x ≤ priority a) []) xs
    none_behind [] = tt
    none_behind (x ∷ xs) = (tt, none_behind xs)

pub sort-perm : (fs : List CheckResult) → Perm (sort_findings_by_priority fs) fs
unfolding sort_findings_by_priority
sort-perm fs = rw append-nil at (
    Perm.trans (rev_append-perm (sort_from [] fs) [])
      (Perm.append_right [] (rw append-nil at (sort_from-perm [] fs))))

pub of_rank-sort :
    (r : ℕ) (fs : List CheckResult) → of_rank r (sort_findings_by_priority fs) ≡ of_rank r fs
unfolding sort_findings_by_priority rev_append
of_rank-sort r fs =
    of_rank-rev_append r (sort_from [] fs) []
    ∙ ap (λ l. rev_append l []) (of_rank-sort_from r [] fs ∙ of_rank-rev_append r fs [])
    ∙ rev_append-twice (of_rank r fs) [] []
    ∙ append-nil (of_rank r fs)

-- The sort puts the findings in order of rank, most important first, keeps each of them as often as
-- it was given, and leaves findings of one rank in their order.
pub sort_findings-stable :
    (fs : List CheckResult)
    → IsSorted (sort_findings_by_priority fs)
      × Perm (sort_findings_by_priority fs) fs
      × ((r : ℕ) → of_rank r (sort_findings_by_priority fs) ≡ of_rank r fs)
sort_findings-stable fs = (sort-IsSorted fs, sort-perm fs, λ r. of_rank-sort r fs)
