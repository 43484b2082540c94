-- ===== src/Remediation/Topology/Loop.antt =====
-- The invariant of the `for len(queue) > 0` loop, and the rule by which its result is reasoned about.
use mathlib.Core.List.{Memᴰ}
use sre_operator.Common.{
  ℕ, zero, suc, ◌+◌, ◌≤◌, ◌<◌, ◌≡◌, refl, ap, ◌∙◌, List, [], ◌∷◌, ◌++◌, Text, Dict, ℤ, find_or,
  length, count, count-append, All, All-append, FitsIn, FitsIn-length, length-append, if◌then◌else◌,
  nat_eq, arith, eq_refl,
}
use sre_operator.Api.Types.{RemediationStep}
use sre_operator.Remediation.Topology.{
  SortResult, sorted, failure, cycle_detected, relax, drain, build,
}
use sre_operator.Remediation.Topology.Edges.{
  names, missing, pending, fanout, pending-snoc, build-Holds,
}
use sre_operator.Remediation.Topology.Lookup.{build-Found, missing-le-pending}
use sre_operator.Remediation.Topology.Relax.{Degrees, released, Relaxed, relax-Relaxed}

-- Every dependency of a step stands before it, or in `seen`.
abbrev pub IsOrdered : List Text → List RemediationStep → Type 0
IsOrdered seen [] = Unit {0}
IsOrdered seen (s ∷ ss) = All (λ d. 0 < count d seen) s.depends_on × IsOrdered (s.name ∷ seen) ss

pub length-names : (ss : List RemediationStep) → length (names ss) ≡ length ss
length-names [] = refl
length-names (s ∷ ss) = ap suc (length-names ss)

names-snoc :
    (ss : List RemediationStep) (s : RemediationStep)
    → names (ss ++ s ∷ []) ≡ names ss ++ s.name ∷ []
names-snoc [] s = refl
names-snoc (u ∷ us) s = ap (λ l. u.name ∷ l) (names-snoc us s)

missing-zero : (seen deps : List Text) → missing seen deps ≡ 0 → All (λ d. 0 < count d seen) deps
missing-zero seen [] h = tt
missing-zero seen (d ∷ ds) h = (ground arith, missing-zero seen ds (ground arith))

pub All-counts :
    (seen more deps : List Text)
    → ((d : Text) → count d seen ≤ count d more)
    → All (λ d. 0 < count d seen) deps
    → All (λ d. 0 < count d more) deps
All-counts seen more [] f h = tt
All-counts seen more (d ∷ ds) f h = (omega (arith, f d), All-counts seen more ds f h.1)

IsOrdered-snoc :
    (seen : List Text) (ss : List RemediationStep) (s : RemediationStep) (before : List Text)
    → IsOrdered seen ss
    → ((d : Text) → count d before ≤ count d seen + count d (names ss))
    → All (λ d. 0 < count d before) s.depends_on
    → IsOrdered seen (ss ++ s ∷ [])
IsOrdered-snoc seen [] s before o f h =
    (All-counts before seen s.depends_on (λ d. omega (arith, f d)) h, tt)
IsOrdered-snoc seen (u ∷ us) s before o f h =
    (o.0, IsOrdered-snoc (u.name ∷ seen) us s before o.1 (λ d. ground (arith, f d)) h)

pub record Inv (steps : List RemediationStep) (queue : List Text) (m : Dict ℤ)
    (done : List RemediationStep) : Type 0 where
  pub degrees : Degrees m (pending steps (names done))
  pub once : (n : Text) → count n queue + count n (names done) ≤ 1
  pub known : (n : Text) → 0 < count n queue + count n (names done) → 0 < count n (names steps)
  pub ready :
      (n : Text) → 0 < count n queue + count n (names done) → pending steps (names done) n ≡ 0
  pub complete :
      (n : Text)
      → 0 < count n (names steps)
      → pending steps (names done) n ≡ 0
      → 0 < count n queue + count n (names done)
  pub listed : All (λ s. Memᴰ s steps) done
  pub ordered : IsOrdered [] done

fanout-known :
    (steps : List RemediationStep) (d n : Text) → 0 < fanout steps d n → 0 < count n (names steps)
fanout-known [] d n h = absurd (omega arith)
fanout-known (s ∷ ss) d n h = ground (arith, fanout-known ss d n)

module _ (steps : List RemediationStep) (c : Text) (queue : List Text) (m : Dict ℤ)
    (done : List RemediationStep) (inv : Inv steps (c ∷ queue) m done) where
  fresh : count c (names done) ≡ 0
  fresh = ground (arith, inv.once c, eq_refl c)

  next_pending :
      (n : Text)
      → pending steps (names done ++ c ∷ []) n + fanout steps c n ≡ pending steps (names done) n
  next_pending n = pending-snoc steps (names done) c n fresh

  module _ (ns : List Text) (edges : (n : Text) → count n ns ≡ fanout steps c n) where
    relaxed :
        Relaxed
          (relax ns m queue).0
          (relax ns m queue).1
          (pending steps (names done))
          (λ n. count n ns)
          (λ n. count n queue)
    relaxed =
        relax-Relaxed ns m queue (pending steps (names done)) inv.degrees
          (λ n. omega (arith, edges n, next_pending n))

    counts_next :
        (n : Text)
        → count n (relax ns m queue).1 + count n (names done ++ c ∷ [])
          ≡ count n (c ∷ queue)
            + count n (names done)
            + released (pending steps (names done) n) (fanout steps c n)
    counts_next n = ground (arith, relaxed.queued n, edges n, count-append n (names done) (c ∷ []))

    module _ (s : RemediationStep) (named : s.name ≡ c) (member : Memᴰ s steps) where
      placed : names (done ++ s ∷ []) ≡ names done ++ c ∷ []
      placed = names-snoc done s ∙ ap (λ x. names done ++ x ∷ []) named

      deps_placed : All (λ d. 0 < count d (names done)) s.depends_on
      deps_placed = missing-zero (names done) s.depends_on (
          omega (
            arith,
            missing-le-pending steps s (names done) member,
            inv.ready c (ground (arith, eq_refl c)),
            ap (pending steps (names done)) named,
          ))

      -- One round keeps the invariant.
      step-Inv : Inv steps (relax ns m queue).1 (relax ns m queue).0 (done ++ s ∷ [])
      step-Inv = record {
        degrees = λ n. rw placed (ground (arith, relaxed.degrees n, edges n, next_pending n));
        once =
            λ n. rw placed (ground (arith, counts_next n, inv.once n, inv.ready n, next_pending n));
        known = λ n.
            rw placed λ h. ground (arith, counts_next n, inv.known n, fanout-known steps c n, h);
        ready = λ n. rw placed λ h. ground (arith, counts_next n, inv.ready n, next_pending n, h);
        complete =
            λ n. rw placed λ k z. ground (arith, counts_next n, inv.complete n, next_pending n);
        listed = All-append _ done (s ∷ []) inv.listed (member, tt);
        ordered = IsOrdered-snoc [] done s (names done) inv.ordered (λ d. omega arith) deps_placed;
      }

-- No more rounds than steps can be made.
Inv-room :
    (steps : List RemediationStep) (c : Text) (queue : List Text) (m : Dict ℤ)
    (done : List RemediationStep)
    → Inv steps (c ∷ queue) m done
    → length done < length steps
Inv-room steps c queue m done inv = omega (
  arith,
  FitsIn-length (c ∷ names done) (names steps) fits,
  length-names done,
  length-names steps,
)
  where
    fits : FitsIn (c ∷ names done) (names steps)
    fits n = ground (arith, inv.once n, inv.known n)

-- To show `Q` of the loop's result, show it of the two ways in which the loop ends with an empty queue.
module _ {ℓ} (steps : List RemediationStep) (Q : SortResult → Type ℓ)
    (finish : (m : Dict ℤ) (done : List RemediationStep)
      → Inv steps [] m done
      → Q (
          if nat_eq (length done) (length steps)
          then sorted done
          else failure cycle_detected)) where
  pub drain_ind :
      (fuel : ℕ) (queue : List Text) (m : Dict ℤ) (done : List RemediationStep) (n : ℕ)
      → n ≡ length done
      → length steps ≤ fuel + n
      → Inv steps queue m done
      → Q (drain fuel (length steps) (build steps).graph (build steps).step_map queue m done n)
  unfolding drain
  drain_ind fuel [] m done n e f inv = rw e (finish m done inv)
  drain_ind zero (c ∷ queue) m done n e f inv =
      absurd (omega (arith, Inv-room steps c queue m done inv))
  drain_ind (suc fuel) (c ∷ queue) m done n e f inv =
      let r = build-Found steps c (inv.known c (ground (arith, eq_refl c))) in
      let ns = find_or [] c (build steps).graph in
      rw (r.found, drain)
        (drain_ind fuel (relax ns m queue).1 (relax ns m queue).0 (done ++ r.step ∷ []) (suc n)
          (omega (arith, length-append done (r.step ∷ []))) (omega arith)
          (step-Inv steps c queue m done inv ns ((build-Holds steps).edges c) r.step r.named
            r.listed))
