-- ===== src/Tests/Workflow.antt =====
-- Examples for internal/remediation/remediation.go: a workflow of two steps, one behind the other.
use mathlib.Core.List.{Memᴰ}
use sre_operator.Common.{
  ℕ, ◌≤◌, ◌<◌, ◌≡◌, ◌≢◌, ◌↔◌, ◌⊎◌, inl, refl, true, false, Option, none, some, List, [], ◌∷◌, ◌++◌,
  Text, str, ◌==◌, count, eq_iff, find_or, find?, put, has, keys, All, All-mem, any, arith,
  if◌then◌else◌,
}
use sre_operator.Api.Enums.{RemediationAction, RunCondition, StepState}
use sre_operator.Api.Types.{
  Time, RemediationStep, RemediationWorkflow, WorkflowStepStatus, WorkflowExecutionStatus,
}
use sre_operator.Remediation.Topology.{sorted, failure, cycle_detected, topological_sort}
use sre_operator.Remediation.Topology.Sorting.{Visits}
use sre_operator.Remediation.Topology.Edges.{names}
use sre_operator.Remediation.Topology.Sound.{
  IsPlan, topological_sort-IsPlan, topological_sort-failure,
}
use sre_operator.Remediation.Topology.Complete.{IsDag}
use sre_operator.Remediation.Topology.Exact.{topological_sort_iff}
use sre_operator.Remediation.Workflow.{
  run_with, run_plan, visit_step, visit_steps, check_deps, decide_step, initial_statuses, start,
}
use sre_operator.Remediation.Steps.{
  set_step_status, get_step_state, is_settled, is_failed, is_waiting, is_bad,
}
use sre_operator.Remediation.Workflow.Expected.{expected_state, run_with-expected_state}
use sre_operator.Remediation.Workflow.Statuses.{listed, any_bad}
use sre_operator.Remediation.Workflow.Finish.{IsFresh, is_known}
use sre_operator.Remediation.Workflow.Twice.{AllKnown, run_with_twice}
use sre_operator.Remediation.Workflow.Conditions.{
  was_run, on_success, on_failure, run_with-conditions,
}
use sre_operator.Remediation.Workflow.Independent.{run_with_same}
use sre_operator.Remediation.Workflow.Settled.{status_of, here, next, call, Reaches-settled}
use sre_operator.Remediation.Workflow.Stuck.{Tick, run_many, run_many-stuck}

abbrev drain_node : RemediationStep
drain_node = record {
  name = str "drain";
  action = RemediationAction.drain;
  depends_on = [];
  run_condition = RunCondition.unset;
  arguments = [];
}

abbrev restart_vm : RemediationStep
restart_vm = record {
  name = str "restart";
  action = RemediationAction.restart;
  depends_on = str "drain" ∷ [];
  run_condition = RunCondition.on_success;
  arguments = [];
}

-- The dependent step stands first.
abbrev two_steps : List RemediationStep
two_steps = restart_vm ∷ drain_node ∷ []

abbrev plan : List RemediationStep
plan = drain_node ∷ restart_vm ∷ []

abbrev in_order : List Text → List Text
in_order ks = ks

in_order-Visits : Visits in_order
in_order-Visits ks n = refl

rank : Text → ℕ
rank n = if n == str "drain" then 0 else 1

names_differ : (str "restart" == str "drain") ≡ false
unfolding ◌==◌ str
names_differ = refl

two_steps_unique : (n : Text) → count n (names two_steps) ≤ 1
two_steps_unique n = ground (arith, names_differ, eq_iff (str "restart") n, eq_iff (str "drain") n)

closed : All (λ t. All (λ d. 0 < count d (names two_steps)) t.depends_on) two_steps
unfolding ◌==◌ str
closed = ((omega arith, tt), (tt, tt))

descends : All (λ t. All (λ d. rank d < rank t.name) t.depends_on) two_steps
unfolding ◌==◌ str rank
descends = ((omega arith, tt), (tt, tt))

two_steps-IsDag : IsDag two_steps
two_steps-IsDag = record {
  unique = two_steps_unique;
  closed =
      λ s. All-mem (λ t. All (λ d. 0 < count d (names two_steps)) t.depends_on) two_steps closed;
  rank = rank;
  descends = λ s. All-mem (λ t. All (λ d. rank d < rank t.name) t.depends_on) two_steps descends;
}

two_steps-sorted : topological_sort in_order two_steps ≡ sorted plan
unfolding topological_sort find_or find? put has keys ◌==◌ str
two_steps-sorted = refl

-- A step that waits for itself.
abbrev loop : List RemediationStep
loop = record restart_vm { depends_on = str "restart" ∷ [] } ∷ []

loop-fails : topological_sort in_order loop ≡ failure cycle_detected
unfolding topological_sort find_or find? put has keys ◌==◌ str
loop-fails = refl

topological_sort_iff_example :
    ((p : List RemediationStep) × (topological_sort in_order two_steps ≡ sorted p))
    ↔ IsDag two_steps
topological_sort_iff_example = topological_sort_iff in_order in_order-Visits two_steps

topological_sort-IsPlan_example : IsPlan two_steps plan
topological_sort-IsPlan_example =
    topological_sort-IsPlan in_order in_order-Visits two_steps plan two_steps-sorted

topological_sort-failure_example : cycle_detected ≡ cycle_detected
topological_sort-failure_example =
    topological_sort-failure in_order in_order-Visits loop cycle_detected loop-fails

abbrev workflow : RemediationWorkflow
workflow = record { steps = two_steps }

abbrev fresh_state : WorkflowExecutionStatus
fresh_state = record {
  id = str "w1";
  workflow_name = str "restart";
  target_resource = str "vm/a";
  state = StepState.unset;
  steps = [];
  start_time = none;
}

fresh_state-IsFresh : IsFresh fresh_state
fresh_state-IsFresh = record { unset = refl; no_steps = refl }

-- The drain fails.
abbrev failing : RemediationStep → Option Text
failing step = if step.name == str "drain" then some (str "node is gone") else none

abbrev at_one : Text → Time
at_one name = 1

run_with-expected_state_example :
    let (after, error) = run_with failing 0 at_one in_order workflow fresh_state in
    (error ≡ none)
    × ((s : RemediationStep)
        → Memᴰ s two_steps
        → get_step_state s.name after.steps ≡ expected_state failing after.steps s)
run_with-expected_state_example =
    run_with-expected_state failing 0 at_one in_order in_order-Visits workflow two_steps-IsDag
      fresh_state fresh_state-IsFresh

-- The dependent step is skipped.
run_with-failing :
    get_step_state (str "restart") (run_with failing 0 at_one in_order workflow fresh_state).0.steps
    ≡ StepState.skipped
unfolding run_with run_plan visit_step visit_steps check_deps decide_step set_step_status
    get_step_state initial_statuses start is_settled is_failed is_waiting is_bad topological_sort
    find_or find? put has keys ◌==◌ str
run_with-failing = refl

two_steps-AllKnown : AllKnown two_steps
two_steps-AllKnown s = All-mem (λ t. is_known t.run_condition ≡ true) two_steps (refl, (refl, tt))

not_empty : two_steps ≢ []
not_empty e = cc

run_with_twice_example :
    let first = (run_with failing 0 at_one in_order workflow fresh_state).0 in
    let second = (run_with failing 2 at_one in_order workflow first).0 in
    ((s : RemediationStep)
      → Memᴰ s two_steps
      → is_settled (get_step_state s.name first.steps) ≡ true)
    × (first.state ≡ StepState.running)
    × (second.steps ≡ first.steps)
    × (second.state ≡ (
        if any (λ s. is_failed (get_step_state s.name first.steps)) two_steps
        then StepState.failed
        else StepState.succeeded))
run_with_twice_example =
    run_with_twice failing 0 2 at_one at_one in_order in_order in_order-Visits in_order-Visits
      workflow two_steps-IsDag fresh_state fresh_state-IsFresh not_empty two_steps-AllKnown

drain-was_run :
    was_run (
      get_step_state
        (str "drain")
        (run_with failing 0 at_one in_order workflow fresh_state).0.steps)
    ≡ true
unfolding run_with run_plan visit_step visit_steps check_deps decide_step set_step_status
    get_step_state initial_statuses start is_settled is_failed is_waiting is_bad topological_sort
    find_or find? put has keys ◌==◌ str
drain-was_run = refl

run_with-conditions_example :
    let after = (run_with failing 0 at_one in_order workflow fresh_state).0.steps in
    (on_success RunCondition.unset ≡ true
      → All (λ d. get_step_state d after ≡ StepState.succeeded) [])
    × (on_failure RunCondition.unset ≡ true
        → (◌≡◌ {A = List Text} [] []) ⊎ (any_bad after [] ≡ true))
run_with-conditions_example =
    run_with-conditions failing 0 at_one in_order in_order-Visits workflow two_steps-IsDag
      fresh_state fresh_state-IsFresh drain_node (Memᴰ.tail (Memᴰ.head refl)) drain-was_run

abbrev tick : Tick
tick = record { started = 0; finished = at_one; iteration = in_order; visits = in_order-Visits }

-- A workflow to which `restart` was added after it had started.
abbrev edited_state : WorkflowExecutionStatus
edited_state = record fresh_state {
  state = StepState.running;
  steps =
      record {
        name = str "drain";
        state = StepState.succeeded;
        message = [];
        start_time = none;
        finish_time = none;
      }
      ∷ [];
}

one_recorded : edited_state.steps ≢ []
one_recorded e = cc

restart-unlisted : listed (str "restart") edited_state.steps ≡ false
unfolding ◌==◌ str
restart-unlisted = refl

run_many-stuck_example :
    (run_many failing workflow (tick ∷ tick ∷ []) edited_state).state ≡ StepState.running
run_many-stuck_example =
    run_many-stuck failing workflow two_steps-IsDag restart_vm (Memᴰ.head refl) (tick ∷ tick ∷ [])
      edited_state refl one_recorded (inl restart-unlisted)

abbrev backwards : List Text → List Text
backwards [] = []
backwards (k ∷ ks) = backwards ks ++ k ∷ []

count-snoc : (n k : Text) (ks : List Text) → count n (ks ++ k ∷ []) ≡ count n (k ∷ ks)
count-snoc n k [] = refl
count-snoc n k (x ∷ xs) = ground (arith, count-snoc n k xs)

backwards-Visits : Visits backwards
backwards-Visits [] n = refl
backwards-Visits (k ∷ ks) n = ground (arith, backwards-Visits ks n, count-snoc n k (backwards ks))

at_three : Text → Time
at_three name = 3

run_with_same_example :
    get_step_state (str "restart") (run_with failing 0 at_one in_order workflow fresh_state).0.steps
    ≡ get_step_state
        (str "restart")
        (run_with failing 2 at_three backwards workflow fresh_state).0.steps
run_with_same_example =
    run_with_same failing 0 2 at_one at_three in_order backwards in_order-Visits backwards-Visits
      workflow two_steps-IsDag fresh_state fresh_state fresh_state-IsFresh fresh_state-IsFresh
      restart_vm (Memᴰ.head refl)

abbrev drained : WorkflowStepStatus
drained = record {
  name = str "drain";
  state = StepState.succeeded;
  message = [];
  start_time = none;
  finish_time = none;
}

drained-recorded : status_of (str "drain") edited_state.steps ≡ some drained
unfolding ◌==◌ str
drained-recorded = refl

-- The drain would fail now, but it is not run again.
Reaches-settled_example :
    status_of (str "drain") (run_with failing 2 at_one in_order workflow edited_state).0.steps
    ≡ some drained
unfolding is_settled
Reaches-settled_example =
    Reaches-settled edited_state (run_with failing 2 at_one in_order workflow edited_state).0
      (str "drain") drained (next here (call failing 2 at_one in_order workflow refl)) refl
      drained-recorded
