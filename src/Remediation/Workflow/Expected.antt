-- ===== src/Remediation/Workflow/Expected.antt =====
-- The states of the steps after `WorkflowRunner.Run`, as a table.
use mathlib.Core.List.{Memᴰ}
use sre_operator.Common.{
  ◌≡◌, Bool, true, false, ◌||◌, not, Option, none, List, Text, if◌then◌else◌, arith, ◌∙◌,
}
use sre_operator.Api.Enums.{StepState, RunCondition}
use sre_operator.Api.Types.{
  Time, RemediationStep, RemediationWorkflow, WorkflowStepStatus, WorkflowExecutionStatus,
}
use sre_operator.Remediation.Topology.Sorting.{Visits}
use sre_operator.Remediation.Topology.Complete.{IsDag}
use sre_operator.Remediation.Workflow.{run_with, decide_step, is_empty}
use sre_operator.Remediation.Steps.{get_step_state}
use sre_operator.Remediation.Workflow.Statuses.{any_waiting, any_bad}
use sre_operator.Remediation.Workflow.Visit.{action_state, verdict}
use sre_operator.Remediation.Workflow.Finish.{IsFresh, is_known}
use sre_operator.Remediation.Workflow.Runs.{run_with-verdict}

-- Whether a run condition lets a step run whose dependencies have all ended. `bad`: one of them
-- failed or was skipped; `free`: there are none.
abbrev pub may_run : RunCondition → (bad free : Bool) → Bool
may_run RunCondition.always bad free = true
may_run RunCondition.on_success bad free = not bad
may_run RunCondition.unset bad free = not bad
may_run RunCondition.on_failure bad free = bad || free
may_run (RunCondition.other t) bad free = false

-- The state of a step, given those of its dependencies.
abbrev pub expected_state :
    (RemediationStep → Option Text) → List WorkflowStepStatus → RemediationStep → StepState
expected_state executor ss step =
    let bad = any_bad ss step.depends_on in
    if any_waiting ss step.depends_on || not (is_known step.run_condition)
    then StepState.pending
    else (if may_run step.run_condition bad (is_empty step.depends_on)
        then action_state (executor step)
        else StepState.skipped)

verdict-expected_state :
    (executor : RemediationStep → Option Text) (ss : List WorkflowStepStatus) (s : RemediationStep)
    → verdict executor ss s ≡ expected_state executor ss s
unfolding decide_step
verdict-expected_state executor ss s = ground arith

-- After one iteration from the beginning, every step of an acyclic workflow has the state that the
-- rules give it from the states of its dependencies: pending while one of them waits, or where the
-- run condition is not one of the API's; succeeded or failed by its action where the run condition
-- lets it run, and skipped where it does not. There is no error, whatever the order of the plan.
pub run_with-expected_state :
    (executor : RemediationStep → Option Text) (started : Time) (finished : Text → Time)
    (iteration : List Text → List Text) (visits : Visits iteration) (workflow : RemediationWorkflow)
    (dag : IsDag workflow.steps) (state : WorkflowExecutionStatus) (fresh : IsFresh state)
    → let (after, error) = run_with executor started finished iteration workflow state in
      (error ≡ none)
      × ((s : RemediationStep)
          → Memᴰ s workflow.steps
          → get_step_state s.name after.steps ≡ expected_state executor after.steps s)
run_with-expected_state executor started finished iteration visits workflow dag state fresh =
    let r = run_with-verdict executor started finished iteration visits workflow dag state fresh in
    (r.0, λ s m. r.1 s m ∙ verdict-expected_state executor _ s)
