-- ===== src/Controller/Conditions/Upsert.antt =====
-- The conditions of a status as a map from types, which `setCondition` updates at one type.
use sre_operator.Common.{
  zero, suc, ◌≤◌, ◌≡◌, refl, Option, none, some, List, [], ◌∷◌, Text, ◌==◌, eq_iff, count,
  if◌then◌else◌, arith,
}
use sre_operator.Api.Types.{Time, Condition, SrePolicyStatus}
use sre_operator.Controller.Conditions.{upsert, set_condition}

-- The condition of a type, as a reader of the status finds it.
abbrev pub get_condition : Text → List Condition → Option Condition
get_condition t [] = none
get_condition t (c ∷ cs) = let rest = get_condition t cs in if c.type == t then some c else rest

abbrev pub condition_types : List Condition → List Text
condition_types [] = []
condition_types (c ∷ cs) = c.type ∷ condition_types cs

get-upsert :
    (new : Condition) (t : Text) (cs : List Condition)
    → get_condition t (upsert new cs) ≡ (if new.type == t then some new else get_condition t cs)
unfolding upsert
get-upsert new t [] = refl
get-upsert new t (c ∷ cs) =
    ground (arith, get-upsert new t cs, eq_iff c.type new.type, eq_iff c.type t, eq_iff new.type t)

count-upsert :
    (new : Condition) (t : Text) (cs : List Condition)
    → count t (condition_types (upsert new cs)) ≡ (
        if new.type == t
        then (elim (count t (condition_types cs)) [ zero ↦ 1 | suc k ↦ suc k ])
        else count t (condition_types cs))
unfolding upsert
count-upsert new t [] = ground arith
count-upsert new t (c ∷ cs) =
    ground
      (arith, count-upsert new t cs, eq_iff c.type new.type, eq_iff c.type t, eq_iff new.type t)

module _ (now : Time) (cond_type cond_status reason message : Text) (status : SrePolicyStatus) where
  abbrev new_condition : Condition
  new_condition = record {
    type = cond_type;
    status = cond_status;
    reason = reason;
    message = message;
    last_transition_time = now;
  }

  -- After a call a reader finds the new condition under its type and the old ones under all others,
  -- and if no type stood twice among the conditions, none does now.
  pub set_condition_lem :
      let after = set_condition now cond_type cond_status reason message status in
      ((t : Text)
        → get_condition t after.conditions
          ≡ (if cond_type == t then some new_condition else get_condition t status.conditions))
      × (((t : Text) → count t (condition_types status.conditions) ≤ 1)
          → (t : Text) → count t (condition_types after.conditions) ≤ 1)
  unfolding set_condition
  set_condition_lem = (
    λ t. get-upsert new_condition t status.conditions,
    λ once t. ground (arith, once t, count-upsert new_condition t status.conditions),
  )
