-- ===== src/Remediation/Workflow/Finish.antt =====
-- `WorkflowRunner.Run` on a workflow whose steps have settled.
use sre_operator.Common.{
  ◌<◌, ◌≡◌, refl, ◌∙◌, Bool, true, false, Option, some, List, [], ◌∷◌, Text, if◌then◌else◌, any,
  All, arith, eq_iff, count,
}
use sre_operator.Api.Enums.{StepState, RunCondition}
use sre_operator.Api.Types.{Time, RemediationStep, WorkflowStepStatus, WorkflowExecutionStatus}
use sre_operator.Remediation.Topology.Loop.{IsOrdered}
use sre_operator.Remediation.Workflow.{
  Progress, decide_step, visit_step, visit_steps, initial_statuses, start, run_plan,
}
use sre_operator.Remediation.Steps.{get_step_state, is_settled, is_failed, is_waiting}
use sre_operator.Remediation.Workflow.Statuses.{listed, get-initial, listed-initial, any_waiting}
use sre_operator.Remediation.Workflow.Visit.{verdict, visit_step-listed, visit_step_complete}
use sre_operator.Remediation.Workflow.Outcome.{Ready}

-- The status with which a workflow begins.
pub record IsFresh (state : WorkflowExecutionStatus) : Type 0 where
  pub unset : state.state ≡ StepState.unset
  pub no_steps : state.steps ≡ []

-- The conditions that the API names; "" counts as `OnSuccess`.
abbrev pub is_known : RunCondition → Bool
is_known (RunCondition.other t) = false
is_known _ = true

module _ (executor : RemediationStep → Option Text) where
  known_settles :
      (ss : List WorkflowStepStatus) (s : RemediationStep)
      → is_known s.run_condition ≡ true
      → any_waiting ss s.depends_on ≡ false
      → is_settled (verdict executor ss s) ≡ true
  unfolding is_settled decide_step
  known_settles ss s k w = ground arith

settled_deps :
    (ss : List WorkflowStepStatus) (seen deps : List Text)
    → ((d : Text) → 0 < count d seen → is_settled (get_step_state d ss) ≡ true)
    → All (λ d. 0 < count d seen) deps
    → any_waiting ss deps ≡ false
unfolding is_settled is_waiting
settled_deps ss seen [] h a = refl
settled_deps ss seen (d ∷ ds) h a = ground (arith, h d a.0, settled_deps ss seen ds h a.1)

module _ (executor : RemediationStep → Option Text) (ss : List WorkflowStepStatus) where
  pub all_settle :
      (plan : List RemediationStep) (seen : List Text)
      → ((d : Text) → 0 < count d seen → is_settled (get_step_state d ss) ≡ true)
      → IsOrdered seen plan
      → All (λ s. is_known s.run_condition ≡ true) plan
      → All (λ s. get_step_state s.name ss ≡ verdict executor ss s) plan
      → All (λ s. is_settled (get_step_state s.name ss) ≡ true) plan
  all_settle [] seen h o k v = tt
  all_settle (s ∷ plan) seen h o k v =
      let here : is_settled (get_step_state s.name ss) ≡ true =
        rw (v.0) (known_settles executor ss s k.0 (settled_deps ss seen s.depends_on h o.0)) in
      (here, all_settle plan (s.name ∷ seen) (λ d m. settled_cons d m here) o.1 k.1 v.1)
    where
      settled_cons :
          (d : Text)
          → 0 < count d (s.name ∷ seen)
          → is_settled (get_step_state s.name ss) ≡ true
          → is_settled (get_step_state d ss) ≡ true
      settled_cons d m here = ground (arith, h d, eq_iff s.name d)

module _ (executor : RemediationStep → Option Text) (finished : Text → Time) where
  pub visit_steps-listed :
      (plan : List RemediationStep) (n : Text) (p : Progress)
      → listed n (visit_steps executor finished plan p).steps ≡ listed n p.steps
  unfolding visit_steps
  visit_steps-listed [] n p = refl
  visit_steps-listed (s ∷ plan) n p =
      visit_steps-listed plan n (visit_step executor finished s p)
      ∙ visit_step-listed executor finished s n p

  pub visit_steps-incomplete :
      (plan : List RemediationStep) (p : Progress)
      → p.all_complete ≡ false
      → (visit_steps executor finished plan p).all_complete ≡ false
  unfolding visit_steps
  visit_steps-incomplete [] p h = h
  visit_steps-incomplete (s ∷ plan) p h =
      visit_steps-incomplete plan (visit_step executor finished s p)
        (ground (arith, visit_step_complete executor finished s p))

  visit_step-settled :
      (s : RemediationStep) (p : Progress)
      → is_settled (get_step_state s.name p.steps) ≡ true
      → visit_step executor finished s p ≡ record p {
        any_failed = if is_failed (get_step_state s.name p.steps) then true else p.any_failed;
      }
  unfolding visit_step
  visit_step-settled s p h = ground arith

  -- Over settled steps the loop only looks for a failure.
  pub visit_steps-settled :
      (plan : List RemediationStep) (p : Progress)
      → All (λ s. is_settled (get_step_state s.name p.steps) ≡ true) plan
      → visit_steps executor finished plan p ≡ record p {
        any_failed =
            if any (λ s. is_failed (get_step_state s.name p.steps)) plan
            then true
            else p.any_failed;
      }
  unfolding visit_steps
  visit_steps-settled [] p h = refl
  visit_steps-settled (s ∷ plan) p h = rw (visit_step-settled s p h.0) (
      ground (
        arith,
        visit_steps-settled plan
            (record p {
              any_failed = if is_failed (get_step_state s.name p.steps) then true else p.any_failed;
            })
            h.1,
      ))

-- The first iteration, from the beginning, over a plan.
module _ (executor : RemediationStep → Option Text) (started : Time) (finished : Text → Time)
    (plan : List RemediationStep) (state : WorkflowExecutionStatus) (fresh : IsFresh state) where
  abbrev pub first_progress : Progress
  first_progress =
      visit_steps executor finished plan
        (record { steps = initial_statuses plan; all_complete = true; any_failed = false })

  pub run_plan-fresh : run_plan executor started finished plan state ≡ record state {
    steps = first_progress.steps;
    state =
        if first_progress.all_complete
        then (if first_progress.any_failed then StepState.failed else StepState.succeeded)
        else StepState.running;
    start_time = some started;
  }
  unfolding run_plan start
  run_plan-fresh = rw (fresh.unset, fresh.no_steps)

  pub initial-Ready :
      Ready executor finished plan
        (record { steps = initial_statuses plan; all_complete = true; any_failed = false })
  initial-Ready = record {
    recorded = λ n h. listed-initial n plan h;
    waiting = λ n h. get-initial n plan;
  }
