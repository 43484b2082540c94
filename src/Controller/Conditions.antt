-- ===== src/Controller/Conditions.antt =====
-- `setCondition` of internal/controller/srepolicy_controller.go.
pub mod Upsert
pub mod Shared
use sre_operator.Common.{
  Bool, Option, none, some, List, [], ◌∷◌, ◌++◌, Text, ◌==◌, any, if◌then◌else◌,
}
use sre_operator.Api.Types.{Time, Condition, SrePolicyStatus}

-- The loop: the first condition of the type is overwritten, and otherwise one is appended.
unfoldable pub upsert : Condition → List Condition → List Condition
upsert new [] = new ∷ []
upsert new (c ∷ cs) =
    let rest = upsert new cs in
    if c.type == new.type
    then record c {
      status = new.status;
      reason = new.reason;
      message = new.message;
      last_transition_time = new.last_transition_time;
    }
      ∷ cs
    else c ∷ rest

unfoldable pub set_condition : Time → Text → Text → Text → Text → SrePolicyStatus → SrePolicyStatus
unfolding upsert
set_condition now cond_type cond_status reason message status = record status {
  conditions =
      upsert
        (record {
          type = cond_type;
          status = cond_status;
          reason = reason;
          message = message;
          last_transition_time = now;
        })
        status.conditions;
}
