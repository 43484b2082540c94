-- ===== src/Remediation/Workflow/Twice.antt =====
-- Two calls of `WorkflowRunner.Run`, one after the other.
use sre_operator.Common.{
  nil-of_no_mem, not-mem_of_nil, Memᴰ, All-mem, All-of_mem, any-same, ◌≡◌, ◌≢◌, refl, ap, ◌∙◌, Bool,
  true, false, Option, List, [], ◌∷◌, Text, if◌then◌else◌, any, All, arith, Bool-cases, inl, inr,
}
use sre_operator.Api.Enums.{StepState}
use sre_operator.Api.Types.{
  Time, RemediationStep, RemediationWorkflow, WorkflowStepStatus, WorkflowExecutionStatus,
}
use sre_operator.Remediation.Topology.Lookup.{count-names_of_mem}
use sre_operator.Remediation.Topology.Sorting.{Visits}
use sre_operator.Remediation.Topology.Sound.{IsPlan}
use sre_operator.Remediation.Topology.Complete.{IsDag}
use sre_operator.Remediation.Topology.Exact.{IsPlan-mem}
use sre_operator.Remediation.Workflow.{
  visit_steps, start, run_plan, run_with, is_empty, initial_statuses,
}
use sre_operator.Remediation.Steps.{get_step_state, is_settled, is_failed}
use sre_operator.Remediation.Workflow.Statuses.{listed, get-initial, listed-initial}
use sre_operator.Remediation.Workflow.Visit.{visit_step_complete}
use sre_operator.Remediation.Workflow.Finish.{
  IsFresh, is_known, all_settle, visit_steps-listed, visit_steps-incomplete, visit_steps-settled,
  run_plan-fresh,
}
use sre_operator.Remediation.Workflow.Runs.{
  plan, plan-IsPlan, run_with-plan, final_steps, first-steps, plan_verdicts,
}

abbrev pub AllKnown : List RemediationStep → Type 0
AllKnown steps = (s : RemediationStep) → Memᴰ s steps → is_known s.run_condition ≡ true

module _ (executor : RemediationStep → Option Text) (started : Time) (finished : Text → Time)
    (iteration : List Text → List Text) (visits : Visits iteration) (workflow : RemediationWorkflow)
    (dag : IsDag workflow.steps) (state : WorkflowExecutionStatus) (fresh : IsFresh state) where
  abbrev this_plan : List RemediationStep
  this_plan = plan executor started finished iteration visits workflow dag

  abbrev after_steps : List WorkflowStepStatus
  after_steps = final_steps executor started finished iteration visits workflow dag state fresh

  listed-IsPlan : IsPlan workflow.steps this_plan
  listed-IsPlan = plan-IsPlan executor started finished iteration visits workflow dag

  plan_settled :
      AllKnown workflow.steps
      → All (λ s. is_settled (get_step_state s.name after_steps) ≡ true) this_plan
  plan_settled known =
      all_settle executor after_steps this_plan [] (λ d h. absurd (omega arith))
        listed-IsPlan.ordered
        (All-of_mem _ this_plan
          (λ s m. known s (All-mem (λ t. Memᴰ t workflow.steps) this_plan listed-IsPlan.listed m)))
        (plan_verdicts executor started finished iteration visits workflow dag state fresh)

  steps_settled :
      AllKnown workflow.steps
      → (s : RemediationStep) → Memᴰ s workflow.steps
      → is_settled (get_step_state s.name after_steps) ≡ true
  steps_settled known s m =
      All-mem (λ t. is_settled (get_step_state t.name after_steps) ≡ true) this_plan
        (plan_settled known) (IsPlan-mem workflow.steps this_plan s listed-IsPlan m)

  step_recorded : (s : RemediationStep) → Memᴰ s workflow.steps → listed s.name after_steps ≡ true
  step_recorded s m =
      visit_steps-listed executor finished this_plan s.name _
      ∙ listed-initial s.name this_plan
          (omega (arith, listed-IsPlan.same_names s.name, count-names_of_mem workflow.steps s m))

  first_incomplete :
      (l : List RemediationStep)
      → l ≢ []
      → (visit_steps executor finished l (record {
        steps = initial_statuses this_plan;
        all_complete = true;
        any_failed = false;
      })).all_complete
        ≡ false
  unfolding visit_steps is_settled
  first_incomplete [] h = absurd (h refl)
  first_incomplete (s ∷ l) h = visit_steps-incomplete executor finished l _ (
      ground (
        arith,
        visit_step_complete executor finished s (record {
          steps = initial_statuses this_plan;
          all_complete = true;
          any_failed = false;
        }),
        get-initial s.name this_plan,
      ))

  first_running :
      workflow.steps ≢ []
      → (run_with executor started finished iteration workflow state).0.state ≡ StepState.running
  first_running h = rw (
    run_with-plan executor started finished iteration visits workflow dag state,
    run_plan-fresh executor started finished this_plan state fresh,
    first_incomplete this_plan nonempty,
  )
    where
      nonempty : this_plan ≢ []
      nonempty e = h (
          nil-of_no_mem workflow.steps λ s m.
            not-mem_of_nil this_plan s e (IsPlan-mem workflow.steps this_plan s listed-IsPlan m))

  steps_nonempty : workflow.steps ≢ [] → is_empty after_steps ≡ false
  steps_nonempty h = elim (Bool-cases (is_empty after_steps)) [
    | inl e ↦ absurd (h (nil-of_no_mem workflow.steps λ s m. ground (arith, step_recorded s m)))
    | inr e ↦ e
  ]

-- A later iteration.
module _ (executor : RemediationStep → Option Text) (started : Time) (finished : Text → Time)
    (plan' : List RemediationStep) (state : WorkflowExecutionStatus) where
  abbrev outcome : Bool → StepState
  outcome failed = if failed then StepState.failed else StepState.succeeded

  run_plan-settled :
      state.state ≡ StepState.running
      → is_empty state.steps ≡ false
      → All (λ s. is_settled (get_step_state s.name state.steps) ≡ true) plan'
      → run_plan executor started finished plan' state ≡ record state {
        state = outcome (any (λ s. is_failed (get_step_state s.name state.steps)) plan');
      }
  unfolding run_plan start
  run_plan-settled r e a =
      rw
        (
          r,
          e,
          visit_steps-settled executor finished plan'
              (record { steps = state.steps; all_complete = true; any_failed = false }) a,
        )
        (ground arith)

-- An acyclic workflow that is not empty and uses the API's run conditions takes two iterations. The
-- first settles every step and leaves the workflow running; the second changes no step, and ends
-- the workflow: failed if any of its steps failed, succeeded otherwise.
pub run_with_twice :
    (executor : RemediationStep → Option Text) (started started' : Time)
    (finished finished' : Text → Time) (iteration iteration' : List Text → List Text)
    (visits : Visits iteration) (visits' : Visits iteration') (workflow : RemediationWorkflow)
    (dag : IsDag workflow.steps) (state : WorkflowExecutionStatus) (fresh : IsFresh state)
    → workflow.steps ≢ []
    → AllKnown workflow.steps
    → let first = (run_with executor started finished iteration workflow state).0 in
      let second = (run_with executor started' finished' iteration' workflow first).0 in
      ((s : RemediationStep)
        → Memᴰ s workflow.steps
        → is_settled (get_step_state s.name first.steps) ≡ true)
      × (first.state ≡ StepState.running)
      × (second.steps ≡ first.steps)
      × (second.state ≡ (
          if any (λ s. is_failed (get_step_state s.name first.steps)) workflow.steps
          then StepState.failed
          else StepState.succeeded))
run_with_twice executor started started' finished finished' iteration iteration' visits visits'
      workflow dag state fresh h known =
    (
      settled,
      running,
      ap (λ r. r.steps) end,
      ap (λ r. r.state) end ∙ ap (λ b. if b then StepState.failed else StepState.succeeded) same,
    )
  where
    first : WorkflowExecutionStatus
    first = (run_with executor started finished iteration workflow state).0

    plan' : List RemediationStep
    plan' = plan executor started' finished' iteration' visits' workflow dag

    is_plan : IsPlan workflow.steps plan'
    is_plan = plan-IsPlan executor started' finished' iteration' visits' workflow dag

    steps :
        first.steps
        ≡ after_steps executor started finished iteration visits workflow dag state fresh
    steps = first-steps executor started finished iteration visits workflow dag state fresh

    running : first.state ≡ StepState.running
    running = first_running executor started finished iteration visits workflow dag state fresh h

    settled :
        (s : RemediationStep)
        → Memᴰ s workflow.steps
        → is_settled (get_step_state s.name first.steps) ≡ true
    settled s m = rw steps (
        steps_settled executor started finished iteration visits workflow dag state fresh known s m)

    of_plan : (s : RemediationStep) → Memᴰ s plan' → Memᴰ s workflow.steps
    of_plan s m = All-mem (λ t. Memᴰ t workflow.steps) plan' is_plan.listed m

    end : (run_with executor started' finished' iteration' workflow first).0 ≡ record first {
      state =
          outcome executor started' finished' plan' first
            (any (λ s. is_failed (get_step_state s.name first.steps)) plan');
    }
    end =
        ap (λ r. r.0)
          (run_with-plan executor started' finished' iteration' visits' workflow dag first)
        ∙ run_plan-settled executor started' finished' plan' first running
            (rw steps (
              steps_nonempty executor started finished iteration visits workflow dag state fresh h))
            (All-of_mem _ plan' (λ s m. settled s (of_plan s m)))

    same :
        any (λ (s : RemediationStep). is_failed (get_step_state s.name first.steps)) plan'
        ≡ any
            (λ (s : RemediationStep). is_failed (get_step_state s.name first.steps))
            workflow.steps
    same =
        any-same _ plan' workflow.steps of_plan (λ s m. IsPlan-mem workflow.steps plan' s is_plan m)
