-- ===== src/Common/Maps.antt =====
-- Go maps with string keys, as association lists in the order of insertion. Reading a missing key
-- gives `none`; the callers write out the zero value.
use Prim.Native.Nat.{◌<◌}
use mathlib.Core.Path.{◌≡◌, refl}
use mathlib.Core.Bool.{Bool, true, false}
use mathlib.Core.Option.{Option, none, some}
use mathlib.Core.List.{List, [], ◌∷◌}
use native.Mathlib.Omega.{arith}
use sre_operator.Common.Tests.{if◌then◌else◌}
use sre_operator.Common.Bytes.{Text, ◌==◌, eq_iff}
use sre_operator.Common.Count.{count}

abbrev pub Dict {ℓ} : Type ℓ → Type ℓ
Dict V = List (Text × V)

module _ {ℓ} {V : Type ℓ} where
  unfoldable pub find? : Text → Dict V → Option V
  find? k [] = none
  find? k ((j, v) ∷ m) = let rest = find? k m in if j == k then some v else rest

  unfoldable pub put : Text → V → Dict V → Dict V
  put k v [] = (k, v) ∷ []
  put k v ((j, w) ∷ m) = let rest = put k v m in if j == k then (k, v) ∷ m else (j, w) ∷ rest

  unfoldable pub keys : Dict V → List Text
  keys [] = []
  keys ((j, v) ∷ m) = j ∷ keys m

  unfoldable pub has : Text → Dict V → Bool
  has k [] = false
  has k ((j, v) ∷ m) = let rest = has k m in if j == k then true else rest

  unfoldable pub find_or : V → Text → Dict V → V
  unfolding find?
  find_or d k m = elim (find? k m) [ none ↦ d | some v ↦ v ]

  pub find?-put :
      (k j : Text) (v : V) (m : Dict V)
      → find? j (put k v m) ≡ (if k == j then some v else find? j m)
  unfolding find? put
  find?-put k j v [] = refl
  find?-put k j v ((i, w) ∷ m) =
      ground (arith, eq_iff k j, eq_iff i k, eq_iff i j, find?-put k j v m)

  pub find_or-put :
      (d : V) (k j : Text) (v : V) (m : Dict V)
      → find_or d j (put k v m) ≡ (if k == j then v else find_or d j m)
  unfolding find_or
  find_or-put d k j v m = ground (arith, find?-put k j v m)

  pub has-count : (k : Text) (m : Dict V) → has k m ≡ true → 0 < count k (keys m)
  unfolding has keys
  has-count k [] h = cc
  has-count k ((j, v) ∷ m) h = ground (arith, has-count k m)

  pub count-has : (k : Text) (m : Dict V) → 0 < count k (keys m) → has k m ≡ true
  unfolding has keys
  count-has k [] h = absurd (omega arith)
  count-has k ((j, v) ∷ m) h = ground (arith, count-has k m)

  -- A new key is added once; an old one keeps its place.
  pub count-keys-put :
      (k n : Text) (v : V) (m : Dict V)
      → count n (keys (put k v m)) ≡ (if has k m then count n (keys m) else count n (k ∷ keys m))
  unfolding has keys put
  count-keys-put k n v [] = refl
  count-keys-put k n v ((j, w) ∷ m) =
      ground (arith, count-keys-put k n v m, eq_iff j k, eq_iff j n, eq_iff k n)

  find?-absent : (k : Text) (m : Dict V) → has k m ≡ false → find? k m ≡ none
  unfolding has find?
  find?-absent k [] h = refl
  find?-absent k ((j, v) ∷ m) h = ground (arith, find?-absent k m)

  pub find_or-absent : (d : V) (k : Text) (m : Dict V) → has k m ≡ false → find_or d k m ≡ d
  unfolding find_or
  find_or-absent d k m h = rw (find?-absent k m h, find_or)
