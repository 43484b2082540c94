-- ===== src/Remediation/Workflow/Runs.antt =====
-- `WorkflowRunner.Run` on a workflow that has not started.
use mathlib.Core.List.{Memᴰ}
use sre_operator.Common.{All-mem, ◌≡◌, ap, Option, none, List, [], Text, All, arith}
use sre_operator.Api.Types.{
  Time, RemediationStep, RemediationWorkflow, WorkflowStepStatus, WorkflowExecutionStatus,
}
use sre_operator.Remediation.Topology.Sorting.{Visits}
use sre_operator.Remediation.Topology.Sound.{IsPlan, topological_sort-IsPlan}
use sre_operator.Remediation.Topology.Complete.{IsDag, IsDag-sorted}
use sre_operator.Remediation.Topology.Exact.{IsPlan-mem}
use sre_operator.Remediation.Workflow.{run_plan, run_with}
use sre_operator.Remediation.Steps.{get_step_state}
use sre_operator.Remediation.Workflow.Visit.{verdict}
use sre_operator.Remediation.Workflow.Outcome.{visit_steps-verdict}
use sre_operator.Remediation.Workflow.Finish.{
  IsFresh, run_plan-fresh, first_progress, initial-Ready,
}

module _ (executor : RemediationStep → Option Text) (started : Time) (finished : Text → Time)
    (iteration : List Text → List Text) (visits : Visits iteration) (workflow : RemediationWorkflow)
    (dag : IsDag workflow.steps) where
  abbrev pub plan : List RemediationStep
  plan = (IsDag-sorted iteration visits workflow.steps dag).0

  pub plan-IsPlan : IsPlan workflow.steps plan
  plan-IsPlan =
      topological_sort-IsPlan iteration visits workflow.steps plan
        (IsDag-sorted iteration visits workflow.steps dag).1

  pub run_with-plan :
      (state : WorkflowExecutionStatus)
      → run_with executor started finished iteration workflow state
        ≡ (run_plan executor started finished plan state, none)
  unfolding run_with
  run_with-plan state = rw ((IsDag-sorted iteration visits workflow.steps dag).1)

  module _ (state : WorkflowExecutionStatus) (fresh : IsFresh state) where
    abbrev pub final_steps : List WorkflowStepStatus
    final_steps = (first_progress executor started finished plan state fresh).steps

    pub first-steps :
        (run_with executor started finished iteration workflow state).0.steps ≡ final_steps
    first-steps =
        rw (run_with-plan state, run_plan-fresh executor started finished plan state fresh)

    pub plan_verdicts :
        All (λ s. get_step_state s.name final_steps ≡ verdict executor final_steps s) plan
    plan_verdicts =
        visit_steps-verdict executor finished plan [] _
          (λ n. omega (arith, plan-IsPlan.same_names n, plan-IsPlan.unique n))
          (initial-Ready executor started finished plan state fresh) plan-IsPlan.ordered

-- After one iteration from the beginning, every step of an acyclic workflow has the state that the
-- rules give it from the states of its dependencies: pending while one of them waits, and otherwise
-- skipped, succeeded or failed by its run condition and its action, or left alone where the run
-- condition is not one of the API's. There is no error, whatever the order of the plan.
pub run_with-verdict :
    (executor : RemediationStep → Option Text) (started : Time) (finished : Text → Time)
    (iteration : List Text → List Text) (visits : Visits iteration) (workflow : RemediationWorkflow)
    (dag : IsDag workflow.steps) (state : WorkflowExecutionStatus) (fresh : IsFresh state)
    → let (after, error) = run_with executor started finished iteration workflow state in
      (error ≡ none)
      × ((s : RemediationStep)
          → Memᴰ s workflow.steps
          → get_step_state s.name after.steps ≡ verdict executor after.steps s)
run_with-verdict executor started finished iteration visits workflow dag state fresh = (
  ap (λ r. r.1) (run_with-plan executor started finished iteration visits workflow dag state),
  λ s m.
      let p = plan-IsPlan executor started finished iteration visits workflow dag in
      rw (first-steps executor started finished iteration visits workflow dag state fresh) (
        All-mem _ _
          (plan_verdicts executor started finished iteration visits workflow dag state fresh)
          (IsPlan-mem workflow.steps _ s p m)),
)
