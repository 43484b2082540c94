-- ===== src/Api/Memory/Cells.antt =====
-- What is read from an array after writes to it and to other arrays.
use sre_operator.Common.{
  ℕ, zero, suc, ◌<◌, ◌≡◌, refl, ap, true, false, List, [], ◌∷◌, ◌++◌, nat_eq, if◌then◌else◌, arith,
}
use sre_operator.Api.Memory.{Heap, cells_up_to, store}

pub nat_eq_refl : (n : ℕ) → nat_eq n n ≡ true
nat_eq_refl n = ground arith

pub nat_eq_lt : (j n : ℕ) → j < n → nat_eq j n ≡ false
nat_eq_lt j n h = ground arith

nat_eq-suc : (j : ℕ) → nat_eq (suc j) 0 ≡ false
nat_eq-suc j = ground arith

nat_eq_0_suc : (j : ℕ) → nat_eq 0 (suc j) ≡ false
nat_eq_0_suc j = ground arith

nat_eq-suc-suc : (j i : ℕ) → nat_eq (suc j) (suc i) ≡ nat_eq j i
nat_eq-suc-suc j i = ground arith

module _ {ℓ} {A : Type ℓ} where
  -- Writes into a function, and a list with the element at a place changed.
  abbrev pub put_cell : ℕ → A → (ℕ → A) → ℕ → A
  put_cell i v f j = if nat_eq j i then v else f j

  abbrev pub modify : (A → A) → List A → ℕ → List A
  modify g [] i = []
  modify g (c ∷ cs) zero = g c ∷ cs
  modify g (c ∷ cs) (suc i) = c ∷ modify g cs i

  pub cells-same :
      (f g : ℕ → A) (n : ℕ) → ((j : ℕ) → j < n → f j ≡ g j) → cells_up_to f n ≡ cells_up_to g n
  cells-same f g zero h = refl
  cells-same f g (suc n) h =
      let head : f 0 ≡ g 0 = h 0 (omega arith) in
      let tail : cells_up_to (λ i. f (suc i)) n ≡ cells_up_to (λ i. g (suc i)) n =
        cells-same (λ i. f (suc i)) (λ i. g (suc i)) n (λ j below. h (suc j) (omega arith)) in
      rw (head, tail) refl

  pub cells-put :
      (g : A → A) (f : ℕ → A) (i n : ℕ)
      → cells_up_to (put_cell i (g (f i)) f) n ≡ modify g (cells_up_to f n) i
  cells-put g f i zero = refl
  cells-put g f zero (suc n) =
      ap (λ l. g (f 0) ∷ l)
        (cells-same (λ j. put_cell 0 (g (f 0)) f (suc j)) (λ j. f (suc j)) n
          (λ j below. rw (nat_eq-suc j) refl))
  cells-put g f (suc i) (suc n) =
      let v : A = g (f (suc i)) in
      let shifted : cells_up_to (λ j. put_cell (suc i) v f (suc j)) n
          ≡ cells_up_to (put_cell i v (λ j. f (suc j))) n =
        cells-same (λ j. put_cell (suc i) v f (suc j)) (put_cell i v (λ j. f (suc j))) n
          (λ j below. rw (nat_eq-suc-suc j i) refl) in
      rw (nat_eq_0_suc i, shifted, cells-put g (λ j. f (suc j)) i n) refl

  cells-snoc : (f : ℕ → A) (n : ℕ) → cells_up_to f (suc n) ≡ cells_up_to f n ++ f n ∷ []
  cells-snoc f zero = refl
  cells-snoc f (suc n) = ap (λ l. f 0 ∷ l) (cells-snoc (λ i. f (suc i)) n)

  -- Reads after a write.
  pub read-store :
      (h : Heap A) (a i n : ℕ) (v : A)
      → cells_up_to ((store a i v h).cells a) n ≡ cells_up_to (put_cell i v (h.cells a)) n
  read-store h a i n v =
      cells-same ((store a i v h).cells a) (put_cell i v (h.cells a)) n
        (λ j below. rw (nat_eq_refl a) refl)

  pub cells-put-past :
      (f : ℕ → A) (n : ℕ) (v : A) → cells_up_to (put_cell n v f) n ≡ cells_up_to f n
  cells-put-past f n v = cells-same (put_cell n v f) f n (λ j below. rw (nat_eq_lt j n below) refl)

  pub cells-put-end :
      (f : ℕ → A) (n : ℕ) (v : A) → cells_up_to (put_cell n v f) (suc n) ≡ cells_up_to f n ++ v ∷ []
  cells-put-end f n v = rw (cells-snoc (put_cell n v f) n, cells-put-past f n v, nat_eq_refl n) refl

  -- The cells of an array after `append` moved the elements to the array `next`.
  abbrev pub moved_cells : Heap A → ℕ → ℕ → ℕ → A → ℕ → ℕ → A
  moved_cells h next base len v b j =
      if nat_eq b next then (if nat_eq j len then v else h.cells base j) else h.cells b j

  pub read-moved :
      (h : Heap A) (next base len n : ℕ) (v : A)
      → nat_eq next next ≡ true
      → cells_up_to (moved_cells h next base len v next) n
        ≡ cells_up_to (put_cell len v (h.cells base)) n
  read-moved h next base len n v e =
      cells-same (moved_cells h next base len v next) (put_cell len v (h.cells base)) n
        (λ j below. rw e refl)

  pub read-kept :
      (h : Heap A) (next base len b n : ℕ) (v : A)
      → nat_eq b next ≡ false
      → cells_up_to (moved_cells h next base len v b) n ≡ cells_up_to (h.cells b) n
  read-kept h next base len b n v e =
      cells-same (moved_cells h next base len v b) (h.cells b) n (λ j below. rw e refl)
