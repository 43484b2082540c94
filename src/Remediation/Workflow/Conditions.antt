-- ===== src/Remediation/Workflow/Conditions.antt =====
-- The run conditions of the steps that `WorkflowRunner.Run` has run.
use sre_operator.Common.{
  Memᴰ, ◌<◌, ◌≡◌, ◌⊎◌, Bool, true, false, Option, List, [], ◌∷◌, Text, All, arith, count, subst,
}
use sre_operator.Api.Enums.{StepState, RunCondition}
use sre_operator.Api.Types.{
  Time, RemediationStep, RemediationWorkflow, WorkflowStepStatus, WorkflowExecutionStatus,
}
use sre_operator.Remediation.Topology.Edges.{names}
use sre_operator.Remediation.Topology.Exact.{mem-of_count}
use sre_operator.Remediation.Topology.Sorting.{Visits}
use sre_operator.Remediation.Topology.Complete.{IsDag}
use sre_operator.Remediation.Workflow.{decide_step, run_with}
use sre_operator.Remediation.Steps.{get_step_state, is_waiting, is_bad}
use sre_operator.Remediation.Workflow.Statuses.{any_waiting, any_bad}
use sre_operator.Remediation.Workflow.Visit.{verdict}
use sre_operator.Remediation.Workflow.Finish.{IsFresh}
use sre_operator.Remediation.Workflow.Runs.{run_with-verdict}

-- The action of a step was run.
abbrev pub was_run : StepState → Bool
was_run StepState.succeeded = true
was_run StepState.failed = true
was_run _ = false

abbrev pub on_success : RunCondition → Bool
on_success RunCondition.unset = true
on_success RunCondition.on_success = true
on_success _ = false

abbrev pub on_failure : RunCondition → Bool
on_failure RunCondition.on_failure = true
on_failure _ = false

succeeded_deps :
    (executor : RemediationStep → Option Text) (ss : List WorkflowStepStatus) (deps : List Text)
    → All (λ d. (s : RemediationStep) × (get_step_state d ss ≡ verdict executor ss s)) deps
    → any_waiting ss deps ≡ false
    → any_bad ss deps ≡ false
    → All (λ d. get_step_state d ss ≡ StepState.succeeded) deps
unfolding is_waiting is_bad
succeeded_deps executor ss [] v w b = tt
succeeded_deps executor ss (d ∷ ds) v w b =
    (ground (arith, v.0.1), succeeded_deps executor ss ds v.1 (ground arith) (ground arith))

module _ (executor : RemediationStep → Option Text) (ss : List WorkflowStepStatus)
    (s : RemediationStep) (ran : was_run (verdict executor ss s) ≡ true) where
  ran_waiting : any_waiting ss s.depends_on ≡ false
  ran_waiting = ground arith

  ran_on_success : on_success s.run_condition ≡ true → any_bad ss s.depends_on ≡ false
  unfolding decide_step
  ran_on_success c = ground arith

  ran_on_failure :
      on_failure s.run_condition ≡ true → (s.depends_on ≡ []) ⊎ (any_bad ss s.depends_on ≡ true)
  unfolding decide_step
  ran_on_failure c = ground arith

-- After one iteration of an acyclic workflow from the beginning: a step whose run condition is OnSuccess, or not given, was
-- run only if every dependency succeeded, and a step whose run condition is OnFailure only if it has
-- no dependencies, or one that failed or was skipped.
pub run_with-conditions :
    (executor : RemediationStep → Option Text) (started : Time) (finished : Text → Time)
    (iteration : List Text → List Text) (visits : Visits iteration) (workflow : RemediationWorkflow)
    (dag : IsDag workflow.steps) (state : WorkflowExecutionStatus) (fresh : IsFresh state)
    (s : RemediationStep) (m : Memᴰ s workflow.steps)
    → let after = (run_with executor started finished iteration workflow state).0.steps in
      was_run (get_step_state s.name after) ≡ true
      → (on_success s.run_condition ≡ true
          → All (λ d. get_step_state d after ≡ StepState.succeeded) s.depends_on)
        × (on_failure s.run_condition ≡ true
            → (s.depends_on ≡ []) ⊎ (any_bad after s.depends_on ≡ true))
run_with-conditions executor started finished iteration visits workflow dag state fresh s m ran = (
  λ c.
      succeeded_deps executor after s.depends_on dep_verdicts (ran_waiting executor after s ran')
        (ran_on_success executor after s ran' c),
  λ c. ran_on_failure executor after s ran' c,
)
  where
    after : List WorkflowStepStatus
    after = (run_with executor started finished iteration workflow state).0.steps

    verdicts :
        (u : RemediationStep)
        → Memᴰ u workflow.steps
        → get_step_state u.name after ≡ verdict executor after u
    verdicts =
        (run_with-verdict executor started finished iteration visits workflow dag state fresh).1

    ran' : was_run (verdict executor after s) ≡ true
    ran' = rw (verdicts s m) at ran

    dep_verdict :
        (d : Text)
        → 0 < count d (names workflow.steps)
        → (u : RemediationStep) × (get_step_state d after ≡ verdict executor after u)
    dep_verdict d h =
        let (u, k, e) = mem-of_count workflow.steps d h in
        (u, subst (λ n. get_step_state n after ≡ verdict executor after u) e (verdicts u k))

    dep_all :
        (deps : List Text)
        → All (λ d. 0 < count d (names workflow.steps)) deps
        → All
            (λ d. (u : RemediationStep) × (get_step_state d after ≡ verdict executor after u))
            deps
    dep_all [] a = tt
    dep_all (d ∷ ds) a = (dep_verdict d a.0, dep_all ds a.1)

    dep_verdicts :
        All
          (λ d. (u : RemediationStep) × (get_step_state d after ≡ verdict executor after u))
          s.depends_on
    dep_verdicts = dep_all s.depends_on (dag.closed s m)
