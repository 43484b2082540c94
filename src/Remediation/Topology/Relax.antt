-- ===== src/Remediation/Topology/Relax.antt =====
-- The loop of `topologicalSort` over the neighbours of a placed step.
use sre_operator.Common.{
  ℕ, ◌+◌, ◌-◌, ◌≤◌, ◌≡◌, ◌&&◌, List, [], ◌∷◌, ◌++◌, Text, ◌==◌, Dict, ℤ, pos, pred_ℤ, is_zero,
  find_or, find_or-put, put, count, count-append, if◌then◌else◌, nat_eq, ltb, arith, eq_iff,
  eq_refl,
}
use sre_operator.Remediation.Topology.{relax}

abbrev pub Degrees : Dict ℤ → (Text → ℕ) → Type 0
Degrees m k = (n : Text) → find_or (pos 0) n m ≡ pos (k n)

-- A name of degree `k` that is met `c` times is released by the last of these.
abbrev pub released : ℕ → ℕ → ℕ
released k c = if ltb 0 c && nat_eq k c then 1 else 0

pub record Relaxed (m : Dict ℤ) (queue : List Text) (k c : Text → ℕ) (q : Text → ℕ) : Type 0 where
  pub degrees : Degrees m (λ n. k n - c n)
  pub queued : (n : Text) → count n queue ≡ q n + released (k n) (c n)

pub relax-Relaxed :
    (ns : List Text) (m : Dict ℤ) (queue : List Text) (k : Text → ℕ)
    → Degrees m k
    → ((n : Text) → count n ns ≤ k n)
    → Relaxed (relax ns m queue).0 (relax ns m queue).1 k (λ n. count n ns) (λ n. count n queue)
unfolding relax
relax-Relaxed [] m queue k d h = record {
  degrees = λ n. ground (arith, d n);
  queued = λ n. omega arith;
}
relax-Relaxed (x ∷ xs) m queue k d h =
    let v : ℤ = pred_ℤ (find_or (pos 0) x m) in
    let rest =
      relax-Relaxed xs (put x v m) (if is_zero v then queue ++ x ∷ [] else queue)
        (λ n. if x == n then k n - 1 else k n)
        (λ n.
          ground (arith, find_or-put (pos 0) x n v m, d n, d x, h x, h n, eq_iff x n, eq_refl x))
        (λ n. ground (arith, h n)) in
    record {
      degrees = λ n. ground (arith, rest.degrees n);
      queued = λ n. ground (
        arith,
        rest.queued n,
        d x,
        h x,
        h n,
        eq_iff x n,
        eq_refl x,
        count-append n queue (x ∷ []),
      );
    }
