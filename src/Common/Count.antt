-- ===== src/Common/Count.antt =====
-- How often a text stands in a list. Membership, absence of duplicates and equality up to order are
-- statements about this number.
use Prim.Native.Nat.{ℕ, suc, ◌+◌, ◌≤◌, ◌<◌}
use mathlib.Core.Path.{◌≡◌, refl}
use mathlib.Core.Bool.{Bool}
use mathlib.Core.Logic.{inl, inr}
use mathlib.Core.List.{List, [], ◌∷◌, ◌++◌}
use native.Mathlib.Omega.{arith}
use sre_operator.Common.Tests.{if◌then◌else◌, Bool-cases}
use sre_operator.Common.Lists.{length, select}
use sre_operator.Common.Bytes.{Text, ◌==◌, eq_iff, eq_refl, eq_sound}

abbrev pub count : Text → List Text → ℕ
count n [] = 0
count n (x ∷ xs) = let rest = count n xs in if x == n then suc rest else rest

pub count-append : (n : Text) (xs ys : List Text) → count n (xs ++ ys) ≡ count n xs + count n ys
count-append n [] ys = omega arith
count-append n (x ∷ xs) ys = ground (arith, count-append n xs ys)

pub count-le-length : (n : Text) (xs : List Text) → count n xs ≤ length xs
count-le-length n [] = omega arith
count-le-length n (x ∷ xs) = ground (arith, count-le-length n xs)

pub count-snoc_self : (n : Text) (xs : List Text) → count n (xs ++ n ∷ []) ≡ suc (count n xs)
count-snoc_self n xs = ground (arith, count-append n xs (n ∷ []), eq_refl n)

-- Drops the first occurrence.
remove : Text → List Text → List Text
remove n [] = []
remove n (x ∷ xs) = let rest = remove n xs in if x == n then xs else x ∷ rest

length-remove :
    (n : Text) (xs : List Text) → 0 < count n xs → length xs ≡ suc (length (remove n xs))
unfolding remove
length-remove n [] h = absurd (omega arith)
length-remove n (x ∷ xs) h = ground (arith, length-remove n xs)

count-remove :
    (n m : Text) (xs : List Text)
    → 0 < count n xs
    → count m xs ≡ (if n == m then suc (count m (remove n xs)) else count m (remove n xs))
unfolding remove
count-remove n m [] h = absurd (omega arith)
count-remove n m (x ∷ xs) h =
    ground (arith, count-remove n m xs, eq_iff x n, eq_iff x m, eq_iff n m)

abbrev pub FitsIn : List Text → List Text → Type 0
FitsIn xs ys = (n : Text) → count n xs ≤ count n ys

FitsIn-cons :
    (x : Text) (xs ys : List Text) → FitsIn (x ∷ xs) ys → (0 < count x ys) × FitsIn xs (remove x ys)
FitsIn-cons x xs ys h =
    let present : 0 < count x ys = ground (arith, h x, eq_refl x) in
    (present, λ n. ground (arith, h n, count-remove x n ys))

-- A list that fits into another with its multiplicities is no longer than that.
pub FitsIn-length : (xs ys : List Text) → FitsIn xs ys → length xs ≤ length ys
FitsIn-length [] ys h = omega arith
FitsIn-length (x ∷ xs) ys h =
    let (present, fits) = FitsIn-cons x xs ys h in
    ground (arith, length-remove x ys, FitsIn-length xs (remove x ys) fits)

-- If it is as long, the two are equal up to order.
pub FitsIn-full :
    (xs ys : List Text)
    → FitsIn xs ys
    → length ys ≤ length xs
    → (n : Text) → count n xs ≡ count n ys
FitsIn-full [] [] h l n = refl
FitsIn-full [] (y ∷ ys) h l n = absurd (omega arith)
FitsIn-full (x ∷ xs) ys h l n =
    let (present, fits) = FitsIn-cons x xs ys h in
    let shorter : length (remove x ys) ≤ length xs = ground (arith, length-remove x ys) in
    ground (arith, count-remove x n ys, FitsIn-full xs (remove x ys) fits shorter n)

pub count-select :
    (p : Text → Bool) (n : Text) (xs : List Text)
    → count n (select p xs) ≡ (if p n then count n xs else 0)
count-select p n [] = ground arith
count-select p n (x ∷ xs) = elim (Bool-cases (x == n)) [
  | inl same ↦ rw (eq_sound x n same) (ground (arith, count-select p n xs, eq_refl n))
  | inr differs ↦ ground (arith, count-select p n xs)
]
