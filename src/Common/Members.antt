-- ===== src/Common/Members.antt =====
-- Membership by position in a list, against the predicates and tests on all of its elements.
use mathlib.Core.Path.{◌≡◌, refl, sym, ap, ◌∙◌}
use mathlib.Core.Logic.{inl, inr}
use mathlib.Core.Bool.{Bool, true}
use mathlib.Core.List.{List, [], ◌∷◌, Memᴰ}
use native.Mathlib.Omega.{arith}
use sre_operator.Common.Tests.{Bool-cases}
use sre_operator.Common.Lists.{All, any}

pub All-mem {ℓ κ} : {A : Type ℓ} (P : A → Type κ) {a : A} (xs : List A) → All P xs → Memᴰ a xs → P a
All-mem P [] h m = elim m [ ]
All-mem P (x ∷ xs) h (Memᴰ.head e) = rw e h.0
All-mem P (x ∷ xs) h (Memᴰ.tail m) = All-mem P xs h.1 m

pub All-of_mem {ℓ κ} :
    {A : Type ℓ} (P : A → Type κ) (xs : List A) → ((a : A) → Memᴰ a xs → P a) → All P xs
All-of_mem P [] h = tt
All-of_mem P (x ∷ xs) h = (h x (Memᴰ.head refl), All-of_mem P xs (λ a m. h a (Memᴰ.tail m)))

pub any-of_mem {ℓ} :
    {A : Type ℓ} (p : A → Bool) (xs : List A) (a : A) → Memᴰ a xs → p a ≡ true → any p xs ≡ true
any-of_mem p [] a m h = elim m [ ]
any-of_mem p (x ∷ xs) a (Memᴰ.head e) h = rw ((sym (ap p e)) ∙ h)
any-of_mem p (x ∷ xs) a (Memᴰ.tail m) h = ground (arith, any-of_mem p xs a m h)

pub any-found {ℓ} :
    {A : Type ℓ} (p : A → Bool) (xs : List A) → any p xs ≡ true → (a : A) × Memᴰ a xs × (p a ≡ true)
any-found p [] h = cc
any-found p (x ∷ xs) h = elim (Bool-cases (p x)) [
  | inl e ↦ (x, Memᴰ.head refl, e)
  | inr e ↦ let (a, m, f) = any-found p xs (ground arith) in (a, Memᴰ.tail m, f)
]

pub any-same {ℓ} :
    {A : Type ℓ} (p : A → Bool) (xs ys : List A)
    → ((a : A) → Memᴰ a xs → Memᴰ a ys)
    → ((a : A) → Memᴰ a ys → Memᴰ a xs)
    → any p xs ≡ any p ys
any-same p xs ys f g = elim (Bool-cases (any p xs)) [
  | inl e ↦ let (a, m, h) = any-found p xs e in rw e (sym (any-of_mem p ys a (f a m) h))
  | inr e ↦ elim (Bool-cases (any p ys)) [
    | inl k ↦ let (a, m, h) = any-found p ys k in absurd (cc (any-of_mem p xs a (g a m) h))
    | inr k ↦ rw (e, k)
  ]
]

pub nil-of_no_mem {ℓ} : {A : Type ℓ} (xs : List A) → ((a : A) → ¬ Memᴰ a xs) → xs ≡ []
nil-of_no_mem [] h = refl
nil-of_no_mem (x ∷ xs) h = absurd (h x (Memᴰ.head refl))

pub not-mem_of_nil {ℓ} : {A : Type ℓ} (xs : List A) (a : A) → xs ≡ [] → ¬ Memᴰ a xs
not-mem_of_nil [] a e m = elim m [ ]
not-mem_of_nil (x ∷ xs) a e m = cc
