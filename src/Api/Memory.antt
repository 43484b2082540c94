-- ===== src/Api/Memory.antt =====
-- Go slices in memory: a slice is a part of a backing array, which other slices may share.
pub mod Cells
use sre_operator.Common.{
  ℕ, zero, suc, ◌<◌, ◌≤◌, Bool, true, false, List, [], ◌∷◌, nat_eq, ltb, if◌then◌else◌,
}

pub record Slice : Type 0 where
  pub base : ℕ
  pub len : ℕ
  pub cap : ℕ

-- The backing arrays by their number; those from `next` on are not in use.
pub record Heap {ℓ} (A : Type ℓ) : Type ℓ where
  pub next : ℕ
  pub cells : ℕ → ℕ → A

module _ {ℓ} {A : Type ℓ} where
  -- The first `n` cells.
  abbrev pub cells_up_to : (ℕ → A) → ℕ → List A
  cells_up_to f zero = []
  cells_up_to f (suc n) = f 0 ∷ cells_up_to (λ i. f (suc i)) n

  abbrev pub read : Heap A → Slice → List A
  read h s = cells_up_to (h.cells s.base) s.len

  -- `a[i] = v`
  abbrev pub store : ℕ → ℕ → A → Heap A → Heap A
  store a i v h = record h {
    cells = λ b j. if nat_eq b a then (if nat_eq j i then v else h.cells b j) else h.cells b j;
  }

  -- `append(s, v)`: in place if there is room, and otherwise in a new array, whose capacity the
  -- runtime chooses (`grow`).
  unfoldable pub append : (ℕ → ℕ) → A → Slice → Heap A → Slice × Heap A
  append grow v s h =
      let in_place : Slice × Heap A = (record s { len = suc s.len }, store s.base s.len v h) in
      let moved : Slice × Heap A = (
        record { base = h.next; len = suc s.len; cap = grow (suc s.len) },
        record {
          next = suc h.next;
          cells = λ b j.
              if nat_eq b h.next
              then (if nat_eq j s.len then v else h.cells s.base j)
              else h.cells b j;
        },
      ) in
      if ltb s.len s.cap then in_place else moved

-- The slice lies in an array that is in use.
pub record IsSlice {ℓ} {A : Type ℓ} (h : Heap A) (s : Slice) : Type 0 where
  pub allocated : s.base < h.next
  pub within : s.len ≤ s.cap
