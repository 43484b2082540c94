-- ===== src/Controller/Findings/Counted.antt =====
-- `countBySeverity` against the findings that it counts.
use sre_operator.Common.{
  ℕ, ◌+◌, ◌<◌, ◌≡◌, ◌↔◌, refl, ap, ◌∙◌, Bool, true, false, List, [], ◌∷◌, ◌++◌, Text, str, ◌==◌,
  eq_iff, eq_sound, Dict, find_or, find_or-put, put, any, length, select, if◌then◌else◌, arith,
  Bool-cases, inl, inr,
}
use sre_operator.Api.Types.{CheckResult}
use sre_operator.Controller.Findings.{Counts, tally, count_from, count_by_severity}

-- The findings whose resource is not in `seen` and was not met before.
pub first_reports : List Text → List CheckResult → List CheckResult
first_reports seen [] = []
first_reports seen (f ∷ fs) =
    let skipped = first_reports seen fs in
    let rest = f ∷ first_reports (f.resource_ref ∷ seen) fs in
    if any (λ r. r == f.resource_ref) seen then skipped else rest

abbrev pub of_status : Text → List CheckResult → ℕ
of_status s fs = length (select (λ f. f.status == s) fs)

-- The map `seen` holds the resources of a list.
abbrev Sees : Dict Bool → List Text → Type 0
Sees m seen = (r : Text) → find_or false r m ≡ any (λ k. k == r) seen

Sees-put :
    (m : Dict Bool) (seen : List Text) (k : Text) → Sees m seen → Sees (put k true m) (k ∷ seen)
Sees-put m seen k h r = ground (arith, find_or-put false k r true m, h r)

names_differ :
    ((str "Healthy" == str "Degraded") ≡ false)
    × ((str "Healthy" == str "Failed") ≡ false)
    × ((str "Degraded" == str "Failed") ≡ false)
unfolding ◌==◌ str
names_differ = (refl, refl, refl)

abbrev plus : Counts → List CheckResult → Counts
plus c fs = record {
  healthy = c.healthy + of_status (str "Healthy") fs;
  degraded = c.degraded + of_status (str "Degraded") fs;
  failed = c.failed + of_status (str "Failed") fs;
}

tally-plus :
    (f : CheckResult) (c : Counts) (fs : List CheckResult)
    → plus (tally f.status c) fs ≡ plus c (f ∷ fs)
unfolding tally
tally-plus f c fs = ground (
  arith,
  names_differ,
  eq_iff f.status (str "Healthy"),
  eq_iff f.status (str "Degraded"),
  eq_iff f.status (str "Failed"),
)

count_from-plus :
    (m : Dict Bool) (seen : List Text) (c : Counts) (fs : List CheckResult)
    → Sees m seen
    → count_from m c fs ≡ plus c (first_reports seen fs)
unfolding count_from first_reports
count_from-plus m seen c [] h = ground arith
count_from-plus m seen c (f ∷ fs) h = elim (Bool-cases (any (λ r. r == f.resource_ref) seen)) [
  | inl old ↦ rw (h f.resource_ref, old) (count_from-plus m seen c fs h)
  | inr new ↦
      rw (h f.resource_ref, new)
        (count_from-plus (put f.resource_ref true m) (f.resource_ref ∷ seen) (tally f.status c) fs
            (Sees-put m seen f.resource_ref h)
          ∙ tally-plus f c (first_reports (f.resource_ref ∷ seen) fs))
]

count_by_severity-first :
    (fs : List CheckResult)
    → let c = count_by_severity fs in
      let firsts = first_reports [] fs in
      (c.healthy ≡ of_status (str "Healthy") firsts)
      × (c.degraded ≡ of_status (str "Degraded") firsts)
      × (c.failed ≡ of_status (str "Failed") firsts)
unfolding count_by_severity
count_by_severity-first fs = ground (
  arith,
  count_from-plus [] [] (record { healthy = 0; degraded = 0; failed = 0 }) fs (λ r. no_keys r),
)
  where
    no_keys : (r : Text) → find_or false r [] ≡ false
    no_keys r = unfold find_or in refl

-- `f` stands in `fs`, is the first finding of its resource, and has the status `s`.
pub record Reports (s : Text) (seen : List Text) (fs : List CheckResult) : Type 0 where
  pub before : List CheckResult
  pub finding : CheckResult
  pub after : List CheckResult
  pub split : fs ≡ before ++ finding ∷ after
  pub status : (finding.status == s) ≡ true
  pub new : any (λ r. r == finding.resource_ref) seen ≡ false
  pub first : any (λ f. f.resource_ref == finding.resource_ref) before ≡ false

seen_differ :
    (seen : List Text) (a b : Text)
    → any (λ r. r == a) seen ≡ true
    → any (λ r. r == b) seen ≡ false
    → (a == b) ≡ false
seen_differ seen a b h n = elim (Bool-cases (a == b)) [
  | inl e ↦ absurd (cc (ap (λ x. any (λ r. r == x) seen) (eq_sound a b e)))
  | inr e ↦ e
]

counted-Reports :
    (s : Text) (seen : List Text) (fs : List CheckResult)
    → 0 < of_status s (first_reports seen fs)
    → Reports s seen fs
unfolding first_reports
counted-Reports s seen [] h = absurd (omega arith)
counted-Reports s seen (f ∷ fs) h = elim (Bool-cases (any (λ r. r == f.resource_ref) seen)) [
  | inl old ↦
      let rest = counted-Reports s seen fs (ground arith) in
      record {
        before = f ∷ rest.before;
        finding = rest.finding;
        after = rest.after;
        split = ap (λ l. f ∷ l) rest.split;
        status = rest.status;
        new = rest.new;
        first = ground (
          arith,
          seen_differ seen f.resource_ref rest.finding.resource_ref old rest.new,
          rest.first,
        );
      }
  | inr new ↦ elim (Bool-cases (f.status == s)) [
    | inl same ↦ record {
      before = [];
      finding = f;
      after = fs;
      split = refl;
      status = same;
      new = new;
      first = refl;
    }
    | inr other ↦
        let rest = counted-Reports s (f.resource_ref ∷ seen) fs (ground arith) in
        record {
          before = f ∷ rest.before;
          finding = rest.finding;
          after = rest.after;
          split = ap (λ l. f ∷ l) rest.split;
          status = rest.status;
          new = ground arith;
          first = ground arith;
        }
  ]
]

Reports-counted :
    (s : Text) (seen : List Text) (before : List CheckResult) (f : CheckResult)
    (after : List CheckResult)
    → (f.status == s) ≡ true
    → any (λ r. r == f.resource_ref) seen ≡ false
    → any (λ g. g.resource_ref == f.resource_ref) before ≡ false
    → 0 < of_status s (first_reports seen (before ++ f ∷ after))
unfolding first_reports
Reports-counted s seen [] f after h n b = ground arith
Reports-counted s seen (g ∷ before) f after h n b = ground (
  arith,
  Reports-counted s seen before f after h n,
  Reports-counted s (g.resource_ref ∷ seen) before f after h,
)

pub count_by_severity-failed_iff :
    (fs : List CheckResult) → (0 < (count_by_severity fs).failed) ↔ Reports (str "Failed") [] fs
count_by_severity-failed_iff fs = (
  λ h. counted-Reports (str "Failed") [] fs (omega (arith, (count_by_severity-first fs).2)),
  λ r. omega (
    arith,
    (count_by_severity-first fs).2,
    ap (λ l. of_status (str "Failed") (first_reports [] l)) r.split,
    Reports-counted (str "Failed") [] r.before r.finding r.after r.status r.new r.first,
  ),
)

-- The counts are those of the first finding of each resource, and the count of failures is positive
-- exactly when some finding has the status "Failed" and is the first finding of its resource.
pub count_by_severity_lem :
    (fs : List CheckResult)
    → let c = count_by_severity fs in
      let firsts = first_reports [] fs in
      ((c.healthy ≡ of_status (str "Healthy") firsts)
        × (c.degraded ≡ of_status (str "Degraded") firsts)
        × (c.failed ≡ of_status (str "Failed") firsts))
      × ((0 < c.failed) ↔ Reports (str "Failed") [] fs)
count_by_severity_lem fs = (count_by_severity-first fs, count_by_severity-failed_iff fs)
