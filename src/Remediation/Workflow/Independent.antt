-- ===== src/Remediation/Workflow/Independent.antt =====
-- `WorkflowRunner.Run` under different orders of ranging over the map of degrees.
use sre_operator.Common.{
  ℕ, zero, suc, ◌<◌, ◌≡◌, refl, sym, ◌∙◌, subst, Memᴰ, Option, List, [], ◌∷◌, Text, count, All,
  arith,
}
use sre_operator.Api.Types.{
  Time, RemediationStep, RemediationWorkflow, WorkflowStepStatus, WorkflowExecutionStatus,
}
use sre_operator.Remediation.Topology.Edges.{names}
use sre_operator.Remediation.Topology.Exact.{mem-of_count}
use sre_operator.Remediation.Topology.Sorting.{Visits}
use sre_operator.Remediation.Topology.Complete.{IsDag}
use sre_operator.Remediation.Workflow.{run_with}
use sre_operator.Remediation.Steps.{get_step_state}
use sre_operator.Remediation.Workflow.Statuses.{any_waiting, any_bad}
use sre_operator.Remediation.Workflow.Finish.{IsFresh}
use sre_operator.Remediation.Workflow.Expected.{expected_state, run_with-expected_state}

any_waiting-same :
    (ss ss' : List WorkflowStepStatus) (deps : List Text)
    → All (λ d. get_step_state d ss ≡ get_step_state d ss') deps
    → any_waiting ss deps ≡ any_waiting ss' deps
any_waiting-same ss ss' [] h = refl
any_waiting-same ss ss' (d ∷ ds) h = rw (h.0, any_waiting-same ss ss' ds h.1) refl

any_bad-same :
    (ss ss' : List WorkflowStepStatus) (deps : List Text)
    → All (λ d. get_step_state d ss ≡ get_step_state d ss') deps
    → any_bad ss deps ≡ any_bad ss' deps
any_bad-same ss ss' [] h = refl
any_bad-same ss ss' (d ∷ ds) h = rw (h.0, any_bad-same ss ss' ds h.1) refl

expected_state-same :
    (executor : RemediationStep → Option Text) (ss ss' : List WorkflowStepStatus)
    (s : RemediationStep)
    → All (λ d. get_step_state d ss ≡ get_step_state d ss') s.depends_on
    → expected_state executor ss s ≡ expected_state executor ss' s
expected_state-same executor ss ss' s h =
    rw (any_waiting-same ss ss' s.depends_on h, any_bad-same ss ss' s.depends_on h) refl

module _ (executor : RemediationStep → Option Text) (workflow : RemediationWorkflow)
    (dag : IsDag workflow.steps) (ss ss' : List WorkflowStepStatus)
    (rules : (s : RemediationStep)
      → Memᴰ s workflow.steps
      → get_step_state s.name ss ≡ expected_state executor ss s)
    (rules' : (s : RemediationStep)
      → Memᴰ s workflow.steps
      → get_step_state s.name ss' ≡ expected_state executor ss' s) where
  deps-same :
      (k : ℕ) (s : RemediationStep)
      → ((u : RemediationStep)
          → Memᴰ u workflow.steps
          → dag.rank u.name < k
          → get_step_state u.name ss ≡ get_step_state u.name ss')
      → dag.rank s.name < suc k
      → (ds : List Text) → All (λ d. 0 < count d (names workflow.steps)) ds
      → All (λ d. dag.rank d < dag.rank s.name) ds
      → All (λ d. get_step_state d ss ≡ get_step_state d ss') ds
  deps-same k s below r [] c l = tt
  deps-same k s below r (d ∷ ds) c l =
      let (u, n, e) = mem-of_count workflow.steps d c.0 in
      let low : dag.rank u.name < k = subst (λ x. dag.rank x < k) (sym e) (omega arith) in
      (
        subst (λ x. get_step_state x ss ≡ get_step_state x ss') e (below u n low),
        deps-same k s below r ds c.1 l.1,
      )

  -- The rules determine the states, by induction on the rank.
  same_below :
      (k : ℕ) (s : RemediationStep)
      → Memᴰ s workflow.steps
      → dag.rank s.name < k
      → get_step_state s.name ss ≡ get_step_state s.name ss'
  same_below zero s m r = absurd (omega arith)
  same_below (suc k) s m r =
      rules s m
      ∙ expected_state-same executor ss ss' s
          (deps-same k s (same_below k) r s.depends_on (dag.closed s m) (dag.descends s m))
      ∙ sym (rules' s m)

-- What an iteration does to an acyclic workflow does not depend on the order in which Go ranges over
-- the degrees, nor on the clock: from the beginning, two iterations with the same actions leave every
-- step in the same state.
pub run_with_same :
    (executor : RemediationStep → Option Text) (started started' : Time)
    (finished finished' : Text → Time) (iteration iteration' : List Text → List Text)
    (visits : Visits iteration) (visits' : Visits iteration') (workflow : RemediationWorkflow)
    (dag : IsDag workflow.steps) (state state' : WorkflowExecutionStatus) (fresh : IsFresh state)
    (fresh' : IsFresh state') (s : RemediationStep)
    → Memᴰ s workflow.steps
    → get_step_state s.name (run_with executor started finished iteration workflow state).0.steps
      ≡ get_step_state s.name
          (run_with executor started' finished' iteration' workflow state').0.steps
run_with_same executor started started' finished finished' iteration iteration' visits visits'
      workflow dag state state' fresh fresh' s m =
    same_below executor workflow dag _ _
      (run_with-expected_state executor started finished iteration visits workflow dag state
        fresh).1
      (run_with-expected_state executor started' finished' iteration' visits' workflow dag state'
        fresh').1
      (suc (dag.rank s.name)) s m (omega arith)
