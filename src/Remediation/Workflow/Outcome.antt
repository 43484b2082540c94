-- ===== src/Remediation/Workflow/Outcome.antt =====
-- The states of the steps over the loop of `WorkflowRunner.Run`.
use sre_operator.Common.{
  ◌+◌, ◌≤◌, ◌<◌, ◌≡◌, refl, sym, ap, ◌∙◌, Bool, true, Option, List, [], ◌∷◌, Text, any, All, arith,
  eq_iff, eq_refl, count,
}
use sre_operator.Api.Enums.{StepState}
use sre_operator.Api.Types.{Time, RemediationStep, WorkflowStepStatus}
use sre_operator.Remediation.Topology.Edges.{names}
use sre_operator.Remediation.Topology.Loop.{IsOrdered}
use sre_operator.Remediation.Workflow.{Progress, visit_step, visit_steps}
use sre_operator.Remediation.Steps.{get_step_state, is_waiting, is_bad}
use sre_operator.Remediation.Workflow.Statuses.{listed}
use sre_operator.Remediation.Workflow.Visit.{verdict, visit_step-pending, visit_step-listed}

-- Statuses that agree on the dependencies give the same verdict.
any-ext :
    (f g : Text → Bool) (deps : List Text) → All (λ d. f d ≡ g d) deps → any f deps ≡ any g deps
any-ext f g [] h = refl
any-ext f g (d ∷ ds) h = rw (h.0, any-ext f g ds h.1)

All-states :
    (f : StepState → Bool) (ss tt' : List WorkflowStepStatus) (deps : List Text)
    → All (λ d. get_step_state d ss ≡ get_step_state d tt') deps
    → All (λ d. f (get_step_state d ss) ≡ f (get_step_state d tt')) deps
All-states f ss tt' [] h = tt
All-states f ss tt' (d ∷ ds) h = (ap f h.0, All-states f ss tt' ds h.1)

module _ (executor : RemediationStep → Option Text) (finished : Text → Time) where
  verdict-agree :
      (ss tt' : List WorkflowStepStatus) (step : RemediationStep)
      → All (λ d. get_step_state d ss ≡ get_step_state d tt') step.depends_on
      → verdict executor ss step ≡ verdict executor tt' step
  verdict-agree ss tt' step h = rw (
    any-ext _ _ step.depends_on (All-states is_waiting ss tt' step.depends_on h),
    any-ext _ _ step.depends_on (All-states is_bad ss tt' step.depends_on h),
  )

  -- What is pending and recorded before the loop.
  pub record Ready (plan : List RemediationStep) (p : Progress) : Type 0 where
    pub recorded : (n : Text) → 0 < count n (names plan) → listed n p.steps ≡ true
    pub waiting :
        (n : Text) → 0 < count n (names plan) → get_step_state n p.steps ≡ StepState.pending

  visit_step-Ready :
      (step : RemediationStep) (plan : List RemediationStep) (p : Progress)
      → count step.name (names plan) ≡ 0
      → Ready (step ∷ plan) p
      → Ready plan (visit_step executor finished step p)
  visit_step-Ready step plan p fresh r = record {
    recorded =
        λ n h. rw (visit_step-listed executor finished step n p) (r.recorded n (ground arith));
    waiting = λ n h. ground (
      arith,
      visit_step-pending executor finished step n p,
      r.recorded step.name,
      r.waiting step.name,
      r.waiting n,
      eq_refl step.name,
      eq_iff step.name n,
    );
  }

  -- A name that is not in the plan keeps its state.
  visit_steps-other :
      (plan : List RemediationStep) (p : Progress) (n : Text)
      → ((m : Text) → count m (names plan) ≤ 1)
      → Ready plan p
      → count n (names plan) ≡ 0
      → get_step_state n (visit_steps executor finished plan p).steps ≡ get_step_state n p.steps
  unfolding visit_steps
  visit_steps-other [] p n once r h = refl
  visit_steps-other (step ∷ plan) p n once r h =
      let fresh : count step.name (names plan) ≡ 0 =
        ground (arith, once step.name, eq_refl step.name) in
      visit_steps-other plan (visit_step executor finished step p) n (λ m. ground (arith, once m))
        (visit_step-Ready step plan p fresh r) (ground arith)
      ∙ ground (
        arith,
        visit_step-pending executor finished step n p,
        r.recorded step.name,
        r.waiting step.name,
        eq_refl step.name,
      )

  All-deps :
      (f : Text → StepState) (g : Text → StepState) (seen deps : List Text)
      → ((d : Text) → 0 < count d seen → f d ≡ g d)
      → All (λ d. 0 < count d seen) deps
      → All (λ d. f d ≡ g d) deps
  All-deps f g seen [] h a = tt
  All-deps f g seen (d ∷ ds) h a = (h d a.0, All-deps f g seen ds h a.1)

  pub visit_steps-verdict :
      (plan : List RemediationStep) (seen : List Text) (p : Progress)
      → ((n : Text) → count n seen + count n (names plan) ≤ 1)
      → Ready plan p
      → IsOrdered seen plan
      → All
          (λ s.
            get_step_state s.name (visit_steps executor finished plan p).steps
            ≡ verdict executor (visit_steps executor finished plan p).steps s)
          plan
  unfolding visit_steps
  visit_steps-verdict [] seen p once r o = tt
  visit_steps-verdict (step ∷ plan) seen p once r o =
      let p1 = visit_step executor finished step p in
      let fresh : count step.name (names plan) ≡ 0 =
        ground (arith, once step.name, eq_refl step.name) in
      let r1 = visit_step-Ready step plan p fresh r in
      let once1 : (m : Text) → count m (names plan) ≤ 1 = λ m. ground (arith, once m) in
      let turn = λ (n : Text).
        visit_step-pending executor finished step n p
          (r.recorded step.name (ground (arith, eq_refl step.name)))
          (r.waiting step.name (ground (arith, eq_refl step.name))) in
      (
        visit_steps-other plan p1 step.name once1 r1 fresh
            ∙ rw (turn step.name, eq_refl step.name)
                (verdict-agree p.steps (visit_steps executor finished plan p1).steps step (
                  All-deps (λ d. get_step_state d p.steps)
                    (λ d. get_step_state d (visit_steps executor finished plan p1).steps) seen
                    step.depends_on
                    (λ d h. sym (
                      visit_steps-other plan p1 d once1 r1 (ground (arith, once d))
                      ∙ ground (arith, turn d, once d)))
                    o.0)),
        visit_steps-verdict plan (step.name ∷ seen) p1 (λ n. ground (arith, once n)) r1 o.1,
      )
