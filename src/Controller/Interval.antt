-- ===== src/Controller/Interval.antt =====
-- `minimumInterval` of internal/controller/srepolicy_controller.go. The intervals are `int32`; the
-- minimum is always positive, and is kept as a natural number.
use sre_operator.Common.{
  ℕ, ◌≤◌, ◌<◌, ◌≡◌, ◌↔◌, ◌⊎◌, refl, ◌∙◌, inl, inr, ◌&&◌, List, [], ◌∷◌, ℤ, pos, negsuc, ltb,
  if◌then◌else◌, arith, Memᴰ,
}
use sre_operator.Api.Types.{CheckSpec}

-- `if s.IntervalSeconds > 0 && s.IntervalSeconds < min { min = s.IntervalSeconds }`
lower : ℤ → ℕ → ℕ
lower (pos n) min = if ltb 0 n && ltb n min then n else min
lower (negsuc n) min = min

lower_all : ℕ → List CheckSpec → ℕ
unfolding lower
lower_all min [] = min
lower_all min (s ∷ specs) = lower_all (lower s.interval_seconds min) specs

unfoldable pub minimum_interval : List CheckSpec → ℕ
unfolding lower_all
minimum_interval specs = let min = lower_all 60 specs in if ltb min 30 then 30 else min

-- `n` seconds, if that is an interval which counts.
abbrev pub Asks : ℕ → CheckSpec → Type 0
Asks n s = (s.interval_seconds ≡ pos n) × (0 < n)

lower_all-le : (min : ℕ) (specs : List CheckSpec) → lower_all min specs ≤ min
unfolding lower_all
lower_all-le min [] = omega arith
lower_all-le min (s ∷ specs) = ground (arith, lower_all-le (lower s.interval_seconds min) specs)

lower_all-le_asked :
    (min n : ℕ) (specs : List CheckSpec) (s : CheckSpec)
    → Memᴰ s specs
    → Asks n s
    → lower_all min specs ≤ n
unfolding lower_all
lower_all-le_asked min n [] s m a = elim m [ ]
lower_all-le_asked min n (u ∷ specs) s (Memᴰ.head e) a =
    ground (arith, e, lower_all-le (lower u.interval_seconds min) specs)
lower_all-le_asked min n (u ∷ specs) s (Memᴰ.tail m) a =
    lower_all-le_asked (lower u.interval_seconds min) n specs s m a

lower_all_attained :
    (min : ℕ) (specs : List CheckSpec)
    → (lower_all min specs ≡ min) ⊎ ((s : CheckSpec) × Memᴰ s specs × Asks (lower_all min specs) s)
unfolding lower_all
lower_all_attained min [] = inl refl
lower_all_attained min (s ∷ specs) =
    elim (lower_all_attained (lower s.interval_seconds min) specs) [
      | inl e ↦ elim (lower_cases s.interval_seconds min) [
        | inl same ↦ inl (e ∙ same)
        | inr asks ↦ inr (s, Memᴰ.head refl, rw e asks)
      ]
      | inr (u, m, a) ↦ inr (u, Memᴰ.tail m, a)
    ]
  where
    lower_cases : (z : ℤ) (k : ℕ) → (lower z k ≡ k) ⊎ ((z ≡ pos (lower z k)) × (0 < lower z k))
    lower_cases (pos n) k = ground arith
    lower_cases (negsuc n) k = inl refl

pub minimum_interval_bounds :
    (specs : List CheckSpec) → (30 ≤ minimum_interval specs) × (minimum_interval specs ≤ 60)
unfolding minimum_interval
minimum_interval_bounds specs =
    (ground (arith, lower_all-le 60 specs), ground (arith, lower_all-le 60 specs))

-- The least of 60 and the intervals that count, from the other side.
lower_all_iff :
    (specs : List CheckSpec) (k : ℕ)
    → (k ≤ lower_all 60 specs)
      ↔ ((k ≤ 60) × ((n : ℕ) (s : CheckSpec) → Memᴰ s specs → Asks n s → k ≤ n))
lower_all_iff specs k = (
  λ h. (
    omega (arith, lower_all-le 60 specs),
    λ n s m a. omega (arith, lower_all-le_asked 60 n specs s m a),
  ),
  λ h. elim (lower_all_attained 60 specs) [
    | inl e ↦ omega (arith, h.0)
    | inr (s, m, a) ↦ h.1 (lower_all 60 specs) s m a
  ],
)

-- The requeue interval is at least 30 seconds. A number above 30 is no greater than it exactly when it
-- is no greater than 60 and than any positive interval of a check, enabled or not: the requeue interval
-- is the least of 60 and those intervals, raised to 30.
pub minimum_interval_iff :
    (specs : List CheckSpec) (k : ℕ)
    → 30 < k
    → (30 ≤ minimum_interval specs)
      × ((k ≤ minimum_interval specs)
          ↔ ((k ≤ 60) × ((n : ℕ) (s : CheckSpec) → Memᴰ s specs → Asks n s → k ≤ n)))
unfolding minimum_interval
minimum_interval_iff specs k h = (
  (minimum_interval_bounds specs).0,
  (
    λ b. (lower_all_iff specs k).0 (ground arith),
    λ all. let least = (lower_all_iff specs k).1 all in ground arith,
  ),
)
