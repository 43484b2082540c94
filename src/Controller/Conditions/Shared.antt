-- ===== src/Controller/Conditions/Shared.antt =====
-- `setCondition` of internal/controller/srepolicy_controller.go on a status in memory.
use sre_operator.Common.{
  ℕ, suc, ◌≡◌, refl, sym, ap, ◌∙◌, Bool, true, false, Option, none, some, List, [], ◌∷◌, ◌++◌, Text,
  ◌==◌, any, ltb, if◌then◌else◌, Bool-cases, Option-cases, inl, inr,
}
use sre_operator.Api.Types.{Time, Condition, ObjectMeta}
use sre_operator.Api.Memory.{Slice, Heap, read, store, append, IsSlice}
use sre_operator.Api.Memory.Cells.{
  nat_eq_refl, nat_eq_lt, modify, cells-put, cells-put-past, cells-put-end, read-store, read-moved,
  read-kept,
}
use sre_operator.Api.Copy.{StatusObject, PolicyObject, status_view, deep_copy_into}
use sre_operator.Controller.Conditions.{upsert, set_condition}

-- The place of the first condition of a type.
abbrev index_of : Text → List Condition → Option ℕ
index_of t [] = none
index_of t (c ∷ cs) =
    let rest = index_of t cs in
    if c.type == t then some 0 else (elim rest [ none ↦ none | some i ↦ some (suc i) ])

-- The four assignments to `status.Conditions[i]`.
abbrev overwrite : Condition → Condition → Condition
overwrite new c = record c {
  status = new.status;
  reason = new.reason;
  message = new.message;
  last_transition_time = new.last_transition_time;
}

write_condition : (ℕ → ℕ) → Condition → Slice → Heap Condition → Option ℕ → Slice × Heap Condition
unfolding append
write_condition grow new s h (some i) = (s, store s.base i (overwrite new (h.cells s.base i)) h)
write_condition grow new s h none = append grow new s h

-- The loop of `setCondition`, with the writes to memory.
unfoldable pub upsert_in : (ℕ → ℕ) → Condition → Slice → Heap Condition → Slice × Heap Condition
unfolding write_condition
upsert_in grow new s h = write_condition grow new s h (index_of new.type (read h s))

abbrev revised : Condition → List Condition → Option ℕ → List Condition
revised new cs none = cs ++ new ∷ []
revised new cs (some i) = modify (overwrite new) cs i

upsert-revised :
    (new : Condition) (cs : List Condition) → upsert new cs ≡ revised new cs (index_of new.type cs)
unfolding upsert
upsert-revised new [] = refl
upsert-revised new (c ∷ cs) = elim (Bool-cases (c.type == new.type)) [
  | inl e ↦ rw e refl
  | inr e ↦
      rw (e, upsert-revised new cs)
        (elim (Option-cases (index_of new.type cs)) [ inl f ↦ rw f refl | inr (i, f) ↦ rw f refl ])
]

-- What is read afterwards through the slice that the update returns.
read-upsert_in :
    (grow : ℕ → ℕ) (new : Condition) (s : Slice) (h : Heap Condition)
    → read (upsert_in grow new s h).1 (upsert_in grow new s h).0 ≡ upsert new (read h s)
unfolding upsert_in write_condition append
read-upsert_in grow new s h =
    rw (upsert-revised new (read h s)) (elim (Option-cases (index_of new.type (read h s))) [
      | inl e ↦ rw e (elim (Bool-cases (ltb s.len s.cap)) [
        | inl room ↦
            rw room
              (read-store h s.base s.len (suc s.len) new ∙ cells-put-end (h.cells s.base) s.len new)
        | inr full ↦ rw full (
            read-moved h h.next s.base s.len (suc s.len) new (nat_eq_refl h.next)
            ∙ cells-put-end (h.cells s.base) s.len new)
      ])
      | inr (i, e) ↦ rw e (
          read-store h s.base i s.len (overwrite new (h.cells s.base i))
          ∙ cells-put (overwrite new) (h.cells s.base) i s.len)
    ])

-- What is read afterwards through the slice the update started from.
aliased : Condition → List Condition → Option ℕ → List Condition
aliased new cs none = cs
aliased new cs (some i) = upsert new cs

read-before :
    (grow : ℕ → ℕ) (new : Condition) (s : Slice) (h : Heap Condition)
    → IsSlice h s
    → read (upsert_in grow new s h).1 s ≡ aliased new (read h s) (index_of new.type (read h s))
unfolding upsert_in write_condition append aliased
read-before grow new s h valid = elim (Option-cases (index_of new.type (read h s))) [
  | inl e ↦ rw e (elim (Bool-cases (ltb s.len s.cap)) [
    | inl room ↦
        rw room (read-store h s.base s.len s.len new ∙ cells-put-past (h.cells s.base) s.len new)
    | inr full ↦
        rw full (
          read-kept h h.next s.base s.len s.base s.len new
            (nat_eq_lt s.base h.next valid.allocated))
  ])
  | inr (i, e) ↦
      rw (e, upsert-revised new (read h s), e)
        (read-store h s.base i s.len (overwrite new (h.cells s.base i))
          ∙ cells-put (overwrite new) (h.cells s.base) i s.len)
]

-- `setCondition` on a status in memory.
unfoldable pub set_condition_in :
    (ℕ → ℕ)
    → Time
    → Text
    → Text
    → Text
    → Text
    → StatusObject
    → Heap Condition
    → StatusObject × Heap Condition
unfolding upsert_in
set_condition_in grow now cond_type cond_status reason message o h =
    let new : Condition = record {
      type = cond_type;
      status = cond_status;
      reason = reason;
      message = message;
      last_transition_time = now;
    } in
    let written = upsert_in grow new o.conditions h in
    (record o { conditions = written.0 }, written.1)

-- The writes to memory give the status that `set_condition` gives.
set_condition_in-view :
    (grow : ℕ → ℕ) (now : Time) (t st r m : Text) (o : StatusObject) (h : Heap Condition)
    → status_view
        (set_condition_in grow now t st r m o h).1
        (set_condition_in grow now t st r m o h).0
      ≡ set_condition now t st r m (status_view h o)
unfolding set_condition_in set_condition
set_condition_in-view grow now t st r m o h =
    ap (λ cs. record o.others { conditions = cs })
      (read-upsert_in grow
        (record { type = t; status = st; reason = r; message = m; last_transition_time = now })
        o.conditions h)

found : Option ℕ → Bool
found none = false
found (some i) = true

index_of-found :
    (t : Text) (cs : List Condition) → found (index_of t cs) ≡ any (λ c. c.type == t) cs
unfolding found
index_of-found t [] = refl
index_of-found t (c ∷ cs) = elim (Bool-cases (c.type == t)) [
  | inl e ↦ rw e refl
  | inr e ↦
      rw (e, sym (index_of-found t cs))
        (elim (Option-cases (index_of t cs)) [ inl f ↦ rw f refl | inr (i, f) ↦ rw f refl ])
]

aliased-found :
    (new : Condition) (cs : List Condition) (i : Option ℕ)
    → aliased new cs i ≡ (if found i then upsert new cs else cs)
unfolding aliased found
aliased-found new cs none = refl
aliased-found new cs (some i) = refl

before-if :
    (grow : ℕ → ℕ) (now : Time) (t st r m : Text) (o : StatusObject) (h : Heap Condition)
    → IsSlice h o.conditions
    → status_view (set_condition_in grow now t st r m o h).1 o ≡ (
        let before = status_view h o in
        if any (λ c. c.type == t) before.conditions
        then set_condition now t st r m before
        else before)
unfolding set_condition_in set_condition
before-if grow now t st r m o h valid =
    let new : Condition = record {
      type = t;
      status = st;
      reason = r;
      message = m;
      last_transition_time = now;
    } in
    let cs = read h o.conditions in
    ap (λ l. record o.others { conditions = l }) (read-before grow new o.conditions h valid)
    ∙ (rw (aliased-found new cs (index_of t cs), index_of-found t cs)
        (elim (Bool-cases (any (λ c. c.type == t) cs)) [ inl e ↦ rw e refl | inr e ↦ rw e refl ]))

-- After `setCondition` on a deep copy of a policy whose conditions lie in an array in use, the status
-- of the copy is the one that the update gives. The status of the original is the same where it had a
-- condition of the type, and as before where it had none.
pub deep_copy_into-shares :
    (copy_meta : ObjectMeta → ObjectMeta) (grow : ℕ → ℕ) (now : Time) (t st r m : Text)
    (o : PolicyObject) (h : Heap Condition)
    → IsSlice h o.status.conditions
    → let before = status_view h o.status in
      let after = set_condition_in grow now t st r m (deep_copy_into copy_meta o).status h in
      (status_view after.1 after.0 ≡ set_condition now t st r m before)
      × (status_view after.1 o.status ≡ (
          if any (λ c. c.type == t) before.conditions
          then set_condition now t st r m before
          else before))
unfolding deep_copy_into
deep_copy_into-shares copy_meta grow now t st r m o h valid = (
  set_condition_in-view grow now t st r m o.status h,
  before-if grow now t st r m o.status h valid,
)
