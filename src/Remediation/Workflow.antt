-- ===== src/Remediation/Workflow.antt =====
-- `WorkflowRunner.Run` of internal/remediation/remediation.go: one iteration over a workflow. The
-- runner's `executeStep` is an argument, as in the test's mock; `run` uses the engine's. A clock
-- reading is an argument too: `started` for the workflow, `finished name` for the step that ends.
pub mod Statuses
pub mod Visit
pub mod Outcome
pub mod Finish
pub mod Runs
pub mod Expected
pub mod Twice
pub mod Conditions
pub mod Stuck
pub mod Independent
pub mod Settled
use sre_operator.Common.{
  ℕ, Bool, true, false, ◌&&◌, ◌||◌, not, Option, none, some, List, [], ◌∷◌, ◌++◌, Text, str, ◌==◌,
  if◌then◌else◌, any,
}
use sre_operator.Api.Enums.{StepState, RunCondition}
use sre_operator.Api.Types.{
  Time, RemediationStep, RemediationWorkflow, WorkflowStepStatus, WorkflowExecutionStatus,
}
use sre_operator.Remediation.Engine.{execute_step}
use sre_operator.Remediation.Topology.{SortResult, sorted, failure, SortError, topological_sort}
use sre_operator.Remediation.Steps.{
  get_step_state, is_final, keep_time, update_status, set_step_status, is_settled, is_failed,
  is_waiting, is_bad,
}

-- The loop over `step.DependsOn`, which ends at the first dependency that is not satisfied:
-- (`depsSatisfied`, `anyDepFailed`).
unfoldable pub check_deps : List WorkflowStepStatus → List Text → Bool → Bool × Bool
unfolding get_step_state is_waiting is_bad
check_deps statuses [] bad = (true, bad)
check_deps statuses (dep ∷ deps) bad =
    let state = get_step_state dep statuses in
    let rest = check_deps statuses deps (if is_bad state then true else bad) in
    if is_waiting state then (false, bad) else rest

pub data Decision : Type 0 where
  execute : Decision
  skip : Text → Decision
  -- No case of the `switch` applies, and `shouldRun` stays false.
  ignore : Decision

abbrev pub is_empty {ℓ} : {A : Type ℓ} → List A → Bool
is_empty [] = true
is_empty (x ∷ xs) = false

-- The `switch` on the run condition; "" counts as `OnSuccess`.
unfoldable pub decide_step : RunCondition → Bool → List Text → Decision
decide_step RunCondition.always bad deps = execute
decide_step RunCondition.on_failure bad deps =
    if bad
    then execute
    else (if is_empty deps then execute else skip (str "Skipped (dependencies succeeded)"))
decide_step RunCondition.on_success bad deps =
    if bad then skip (str "Skipped (dependency failed)") else execute
decide_step RunCondition.unset bad deps =
    if bad then skip (str "Skipped (dependency failed)") else execute
decide_step (RunCondition.other t) bad deps = ignore

-- `state.Steps`, `allComplete` and `anyFailed`.
pub record Progress : Type 0 where
  pub steps : List WorkflowStepStatus
  pub all_complete : Bool
  pub any_failed : Bool

-- Running one action, with the two calls of `setStepStatus` around it.
finish_step : Option Text → Text → Time → Progress → Progress
unfolding set_step_status
finish_step (some message) name now p = record p {
  steps = set_step_status name StepState.failed message now p.steps;
  any_failed = true;
}
finish_step none name now p = record p {
  steps = set_step_status name StepState.succeeded (str "Action completed") now p.steps;
}

run_action : Option Text → Text → Time → Progress → Progress
unfolding finish_step
run_action result name now p =
    finish_step result name now
      (record p { steps = set_step_status name StepState.running [] now p.steps })

act : Decision → Option Text → Text → Time → Progress → Progress
unfolding run_action
act execute result name now p = run_action result name now p
act (skip message) result name now p = record p {
  steps = set_step_status name StepState.skipped message now p.steps;
}
act ignore result name now p = p

module _ (executor : RemediationStep → Option Text) (finished : Text → Time) where
  -- A step that has not settled.
  attempt_step : RemediationStep → Progress → Progress
  unfolding act decide_step check_deps
  attempt_step step p =
      let (satisfied, bad) = check_deps p.steps step.depends_on false in
      if satisfied
      then act (decide_step step.run_condition bad step.depends_on) (executor step) step.name
          (finished step.name) p
      else p

  -- The body of the loop over the sorted steps.
  unfoldable pub visit_step : RemediationStep → Progress → Progress
  unfolding attempt_step is_settled is_failed
  visit_step step p =
      let current = get_step_state step.name p.steps in
      if is_settled current
      then (if is_failed current then record p { any_failed = true } else p)
      else attempt_step step (record p { all_complete = false })

  unfoldable pub visit_steps : List RemediationStep → Progress → Progress
  visit_steps [] p = p
  visit_steps (step ∷ steps) p = visit_steps steps (visit_step step p)

-- `WorkflowStepStatus{Name: step.Name, State: StepPending}` for each sorted step.
unfoldable pub initial_statuses : List RemediationStep → List WorkflowStepStatus
initial_statuses [] = []
initial_statuses (step ∷ steps) =
    record {
      name = step.name;
      state = StepState.pending;
      message = [];
      start_time = none;
      finish_time = none;
    }
    ∷ initial_statuses steps

unfoldable pub start : StepState → Time → WorkflowExecutionStatus → WorkflowExecutionStatus
start StepState.unset started state = record state {
  state = StepState.running;
  start_time = some started;
}
start _ started state = state

is_terminal : StepState → Bool
is_terminal StepState.succeeded = true
is_terminal StepState.failed = true
is_terminal _ = false

ensure_steps : List RemediationStep → List WorkflowStepStatus → List WorkflowStepStatus
unfolding initial_statuses
ensure_steps plan statuses = if is_empty statuses then initial_statuses plan else statuses

-- `if allComplete { … }`
conclude : Progress → WorkflowExecutionStatus → WorkflowExecutionStatus
conclude p state = record state {
  steps = p.steps;
  state =
      if p.all_complete
      then (if p.any_failed then StepState.failed else StepState.succeeded)
      else state.state;
}

-- `%q` is written as quotes; its escapes are left out, on a path that is never taken.
sort_message : SortError → Text
sort_message (SortError.missing_dependency name) =
    str "dependency " ++ b'"' ∷ name ++ b'"' ∷ str " not found in steps"
sort_message SortError.cycle_detected = str "cycle detected in remediation workflow"
sort_message SortError.diverged = []

module _ (executor : RemediationStep → Option Text) (started : Time) (finished : Text → Time) where
  -- The run after a successful sort.
  unfoldable pub run_plan : List RemediationStep → WorkflowExecutionStatus → WorkflowExecutionStatus
  unfolding start is_terminal ensure_steps conclude visit_steps
  run_plan plan state =
      let running = start state.state started state in
      if is_terminal running.state
      then running
      else conclude
          (visit_steps executor finished plan (record {
            steps = ensure_steps plan running.steps;
            all_complete = true;
            any_failed = false;
          }))
          running

  run_sorted : SortResult → WorkflowExecutionStatus → WorkflowExecutionStatus × Option Text
  unfolding run_plan sort_message
  run_sorted (failure e) state = (
    record state { state = StepState.failed },
    some (str "DAG validation failed: " ++ sort_message e),
  )
  run_sorted (sorted plan) state = (run_plan plan state, none)

  -- The state that `Run` leaves behind its pointer, and the error that it returns.
  unfoldable pub run_with :
      (List Text → List Text)
      → RemediationWorkflow
      → WorkflowExecutionStatus
      → WorkflowExecutionStatus × Option Text
  unfolding run_sorted topological_sort
  run_with iteration workflow state = run_sorted (topological_sort iteration workflow.steps) state

-- `Run` with the engine's own `executeStep`.
unfoldable pub run :
    Time
    → (Text → Time)
    → (List Text → List Text)
    → RemediationWorkflow
    → WorkflowExecutionStatus
    → WorkflowExecutionStatus × Option Text
unfolding run_with execute_step
run started finished = run_with execute_step started finished
