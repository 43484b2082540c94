-- ===== src/Tests/Memory.antt =====
-- Examples for the conditions in memory: internal/controller/srepolicy_controller.go and
-- api/v1alpha1/zz_generated.deepcopy.go.
use sre_operator.Common.{ℕ, ◌+◌, ◌≡◌, [], str, ◌==◌, any, if◌then◌else◌, arith}
use sre_operator.Api.Types.{Condition, ObjectMeta}
use sre_operator.Api.Memory.{Heap, IsSlice}
use sre_operator.Api.Copy.{PolicyObject, status_view, deep_copy_into}
use sre_operator.Controller.Conditions.{set_condition}
use sre_operator.Controller.Conditions.Shared.{set_condition_in, deep_copy_into-shares}
use sre_operator.Tests.Findings.{no_status}
use sre_operator.Tests.Reconcile.{policy}

abbrev ready : Condition
ready = record {
  type = str "Ready";
  status = str "False";
  reason = str "Pending";
  message = [];
  last_transition_time = 1;
}

-- One array, which holds one condition.
abbrev heap : Heap Condition
heap = record { next = 1; cells = λ b j. ready }

abbrev object : PolicyObject
object = record {
  metadata = policy.metadata;
  spec = policy.spec;
  status = record { conditions = record { base = 0; len = 1; cap = 1 }; others = no_status };
}

object-IsSlice : IsSlice heap object.status.conditions
object-IsSlice = record { allocated = omega arith; within = omega arith }

abbrev kept : ObjectMeta → ObjectMeta
kept m = m

abbrev double : ℕ → ℕ
double n = n + n

-- "Ready" is written through the copy into the original.
deep_copy_into-shares_example :
    let before = status_view heap object.status in
    let after =
      set_condition_in double 7
        (str "Ready")
        (str "True")
        (str "Done")
        []
        (deep_copy_into kept object).status
        heap in
    (status_view after.1 after.0
      ≡ set_condition 7 (str "Ready") (str "True") (str "Done") [] before)
    × (status_view after.1 object.status ≡ (
        if any (λ c. c.type == str "Ready") before.conditions
        then set_condition 7 (str "Ready") (str "True") (str "Done") [] before
        else before))
deep_copy_into-shares_example =
    deep_copy_into-shares kept double 7 (str "Ready") (str "True") (str "Done") [] object heap
      object-IsSlice
