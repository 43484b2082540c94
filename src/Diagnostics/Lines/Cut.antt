-- ===== src/Diagnostics/Lines/Cut.antt =====
-- The functions that shorten a line.
use sre_operator.Common.{
  ℕ, zero, suc, ◌≤◌, ◌<◌, ◌≡◌, ◌⊎◌, refl, ap, min, Bool, true, false, some, [], ◌∷◌, ◌++◌, Text,
  length, length-append, length-take, take, drop, nat_eq, ltb, leb, if◌then◌else◌, arith,
  Bool-cases, inl, inr,
}
use sre_operator.Diagnostics.Lines.{
  index_byte, strip_kube_timestamp, byte_at, after_space, trim_space, truncate,
}

-- `truncate` gives the longest prefix of at most `max` bytes.
pub truncate_lem :
    (s : Text) (max : ℕ)
    → (truncate s max ≡ take max s) × (length (truncate s max) ≡ min max (length s))
unfolding truncate
truncate_lem s max = (cut (Bool-cases (leb (length s) max)), ground (arith, length-take max s))
  where
    take_all : (xs : Text) (n : ℕ) → length xs ≤ n → xs ≡ take n xs
    take_all [] zero h = refl
    take_all [] (suc n) h = refl
    take_all (x ∷ xs) zero h = absurd (omega arith)
    take_all (x ∷ xs) (suc n) h = ap (λ l. x ∷ l) (take_all xs n (omega arith))

    cut : (leb (length s) max ≡ true) ⊎ (leb (length s) max ≡ false) → truncate s max ≡ take max s
    cut (inl e) = rw (e, truncate) (take_all s max (ground arith))
    cut (inr e) = rw (e, truncate)

-- `b` does not occur in `s`.
abbrev pub lacks : ℕ → Text → Bool
lacks b [] = true
lacks b (c ∷ s) = let rest = lacks b s in if nat_eq c b then false else rest

index_byte-append :
    (b : ℕ) (s t : Text) → lacks b s ≡ true → index_byte b (s ++ b ∷ t) ≡ some (length s)
unfolding index_byte
index_byte-append b [] t h = ground arith
index_byte-append b (c ∷ s) t h = ground (arith, index_byte-append b s t)

drop-append : (s t : Text) (b : ℕ) → drop (suc (length s)) (s ++ b ∷ t) ≡ t
drop-append [] t b = refl
drop-append (c ∷ s) t b = drop-append s t b

byte_at-append : (i : ℕ) (s t : Text) → i < length s → byte_at i (s ++ t) ≡ byte_at i s
unfolding byte_at
byte_at-append i [] t h = absurd (omega arith)
byte_at-append zero (c ∷ s) t h = refl
byte_at-append (suc i) (c ∷ s) t h = byte_at-append i s t (omega arith)

-- A line that begins with a timestamp of at least 30 bytes, which has no space and a "T" at offset
-- 10, loses the timestamp, the space behind it and the white space around the rest.
pub strip_kube_timestamp-append :
    (timestamp rest : Text)
    → 30 ≤ length timestamp
    → byte_at 10 timestamp ≡ b'T'
    → lacks 32 timestamp ≡ true
    → strip_kube_timestamp (timestamp ++ 32 ∷ rest) ≡ trim_space rest
unfolding strip_kube_timestamp after_space
strip_kube_timestamp-append [] rest l t n = absurd (omega arith)
strip_kube_timestamp-append (c ∷ ts) rest l t n =
    let line = (c ∷ ts) ++ 32 ∷ rest in
    let long : ltb 30 (length line) ≡ true = ground (arith, length-append ts (32 ∷ rest)) in
    let tee : nat_eq (byte_at 10 line) b'T' ≡ true =
      ground (arith, byte_at-append 10 (c ∷ ts) (32 ∷ rest) (omega arith)) in
    rw (long, tee, index_byte-append 32 (c ∷ ts) rest n, drop-append ts rest 32)
