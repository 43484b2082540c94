-- ===== src/Remediation/Workflow/Stuck.antt =====
-- `WorkflowRunner.Run` called again and again on a workflow that it cannot end.
use sre_operator.Common.{
  Memᴰ, ◌≤◌, ◌≡◌, ◌≢◌, ◌⊎◌, refl, ap, ◌∙◌, true, false, Option, none, some, List, [], ◌∷◌, Text,
  str, ◌==◌, All-mem, arith, count, Bool-cases, inl, inr, eq_sound,
}
use sre_operator.Api.Enums.{StepState}
use sre_operator.Api.Types.{
  Time, RemediationStep, RemediationWorkflow, WorkflowStepStatus, WorkflowExecutionStatus,
}
use sre_operator.Remediation.Topology.Edges.{names}
use sre_operator.Remediation.Topology.Exact.{IsPlan-mem, same_step}
use sre_operator.Remediation.Topology.Sorting.{Visits}
use sre_operator.Remediation.Topology.Sound.{IsPlan}
use sre_operator.Remediation.Topology.Complete.{IsDag}
use sre_operator.Remediation.Workflow.{
  check_deps, Decision, execute, skip, ignore, decide_step, act, run_action, finish_step,
  attempt_step, Progress, is_empty, visit_step, visit_steps, start, run_plan, run_with,
}
use sre_operator.Remediation.Steps.{get_step_state, set_step_status, is_settled}
use sre_operator.Remediation.Workflow.Statuses.{listed, get-set, get-unlisted}
use sre_operator.Remediation.Workflow.Visit.{visit_step-listed, visit_step_complete}
use sre_operator.Remediation.Workflow.Finish.{visit_steps-incomplete, is_known}
use sre_operator.Remediation.Workflow.Runs.{plan, plan-IsPlan, run_with-plan}

is_empty-set :
    (name : Text) (state : StepState) (message : Text) (now : Time) (ss : List WorkflowStepStatus)
    → is_empty (set_step_status name state message now ss) ≡ is_empty ss
unfolding set_step_status
is_empty-set name state message now [] = refl
is_empty-set name state message now (s ∷ ss) = ground arith

act-other :
    (d : Decision) (result : Option Text) (name n : Text) (now : Time) (p : Progress)
    → (name == n) ≡ false
    → get_step_state n (act d result name now p).steps ≡ get_step_state n p.steps
unfolding act run_action finish_step
act-other execute none name n now p h = ground (
  arith,
  get-set name n StepState.succeeded (str "Action completed") now
      (set_step_status name StepState.running [] now p.steps),
  get-set name n StepState.running [] now p.steps,
)
act-other execute (some m) name n now p h = ground (
  arith,
  get-set name n StepState.failed m now (set_step_status name StepState.running [] now p.steps),
  get-set name n StepState.running [] now p.steps,
)
act-other (skip m) result name n now p h =
    ground (arith, get-set name n StepState.skipped m now p.steps)
act-other ignore result name n now p h = refl

act-is_empty :
    (d : Decision) (result : Option Text) (name : Text) (now : Time) (p : Progress)
    → is_empty (act d result name now p).steps ≡ is_empty p.steps
unfolding act run_action finish_step
act-is_empty execute none name now p =
    is_empty-set name StepState.succeeded (str "Action completed") now _
    ∙ is_empty-set name StepState.running [] now p.steps
act-is_empty execute (some m) name now p =
    is_empty-set name StepState.failed m now _ ∙ is_empty-set name StepState.running [] now p.steps
act-is_empty (skip m) result name now p = is_empty-set name StepState.skipped m now p.steps
act-is_empty ignore result name now p = refl

-- A step holds a workflow up: it is pending, and no visit of a step changes that.
record HoldsUp (s : RemediationStep) (ss : List WorkflowStepStatus) : Type 0 where
  recorded : is_empty ss ≡ false
  waits : get_step_state s.name ss ≡ StepState.pending
  why : (listed s.name ss ≡ false) ⊎ (is_known s.run_condition ≡ false)

module _ (executor : RemediationStep → Option Text) (finished : Text → Time) where
  visit_step-other :
      (step : RemediationStep) (n : Text) (p : Progress)
      → (step.name == n) ≡ false
      → get_step_state n (visit_step executor finished step p).steps ≡ get_step_state n p.steps
  unfolding visit_step attempt_step
  visit_step-other step n p h =
      let d =
        decide_step step.run_condition (check_deps p.steps step.depends_on false).1
          step.depends_on in
      ground (
        arith,
        act-other d (executor step) step.name n (finished step.name)
            (record p { all_complete = false }),
      )

  visit_step-is_empty :
      (step : RemediationStep) (p : Progress)
      → is_empty (visit_step executor finished step p).steps ≡ is_empty p.steps
  unfolding visit_step attempt_step
  visit_step-is_empty step p =
      let d =
        decide_step step.run_condition (check_deps p.steps step.depends_on false).1
          step.depends_on in
      ground (
        arith,
        act-is_empty d (executor step) step.name (finished step.name)
            (record p { all_complete = false }),
      )

  -- A step whose run condition is not known is left alone.
  visit_step-unknown :
      (step : RemediationStep) (p : Progress)
      → is_known step.run_condition ≡ false
      → (visit_step executor finished step p).steps ≡ p.steps
  unfolding visit_step attempt_step decide_step act
  visit_step-unknown step p h = ground arith

  module _ (steps : List RemediationStep) (once : (n : Text) → count n (names steps) ≤ 1)
      (s : RemediationStep) (m : Memᴰ s steps) where
    still_waits :
        (u : RemediationStep) (p : Progress)
        → Memᴰ u steps
        → HoldsUp s p.steps
        → get_step_state s.name (visit_step executor finished u p).steps ≡ StepState.pending
    still_waits u p k h = elim h.why [
      | inl l ↦ get-unlisted s.name _ (visit_step-listed executor finished u s.name p ∙ l)
      | inr unknown ↦ elim (Bool-cases (u.name == s.name)) [
        | inr differs ↦ visit_step-other u s.name p differs ∙ h.waits
        | inl same ↦
            let e : u ≡ s = same_step steps u s once k m (eq_sound u.name s.name same) in
            rw (e, visit_step-unknown s p unknown) h.waits
      ]
    ]

    visit_step-HoldsUp :
        (u : RemediationStep) (p : Progress)
        → Memᴰ u steps
        → HoldsUp s p.steps
        → HoldsUp s (visit_step executor finished u p).steps
    visit_step-HoldsUp u p k h = record {
      recorded = visit_step-is_empty u p ∙ h.recorded;
      waits = still_waits u p k h;
      why = rw (visit_step-listed executor finished u s.name p) h.why;
    }

    visit_steps-HoldsUp :
        (l : List RemediationStep) (p : Progress)
        → ((u : RemediationStep) → Memᴰ u l → Memᴰ u steps)
        → HoldsUp s p.steps
        → HoldsUp s (visit_steps executor finished l p).steps
    unfolding visit_steps
    visit_steps-HoldsUp [] p sub h = h
    visit_steps-HoldsUp (u ∷ l) p sub h =
        visit_steps-HoldsUp l _ (λ v k. sub v (Memᴰ.tail k))
          (visit_step-HoldsUp u p (sub u (Memᴰ.head refl)) h)

    visit_steps-unfinished :
        (l : List RemediationStep) (p : Progress)
        → ((u : RemediationStep) → Memᴰ u l → Memᴰ u steps)
        → Memᴰ s l
        → HoldsUp s p.steps
        → (visit_steps executor finished l p).all_complete ≡ false
    unfolding visit_steps is_settled
    visit_steps-unfinished [] p sub k h = elim k [ ]
    visit_steps-unfinished (u ∷ l) p sub (Memᴰ.head e) h =
        visit_steps-incomplete executor finished l _ (
          visit_step_complete executor finished u p
          ∙ ground (arith, h.waits, ap (λ (t : RemediationStep). t.name) e))
    visit_steps-unfinished (u ∷ l) p sub (Memᴰ.tail k) h =
        visit_steps-unfinished l _ (λ v j. sub v (Memᴰ.tail j)) k
          (visit_step-HoldsUp u p (sub u (Memᴰ.head refl)) h)

-- The environment of one call of `Run`: the clock and the order of ranging over a map.
pub record Tick : Type 0 where
  pub started : Time
  pub finished : Text → Time
  pub iteration : List Text → List Text
  pub visits : Visits iteration

-- `Run` called again and again.
pub run_many :
    (RemediationStep → Option Text)
    → RemediationWorkflow
    → List Tick
    → WorkflowExecutionStatus
    → WorkflowExecutionStatus
run_many executor workflow [] state = state
run_many executor workflow (tick ∷ ticks) state =
    run_many executor workflow ticks
      (run_with executor tick.started tick.finished tick.iteration workflow state).0

module _ (executor : RemediationStep → Option Text) (workflow : RemediationWorkflow)
    (dag : IsDag workflow.steps) (s : RemediationStep) (m : Memᴰ s workflow.steps) where
  run_plan-HoldsUp :
      (tick : Tick) (plan' : List RemediationStep) (state : WorkflowExecutionStatus)
      → IsPlan workflow.steps plan'
      → state.state ≡ StepState.running
      → HoldsUp s state.steps
      → let after = run_plan executor tick.started tick.finished plan' state in
        (after.state ≡ StepState.running) × HoldsUp s after.steps
  unfolding run_plan start
  run_plan-HoldsUp tick plan' state is_plan r h =
      let p : Progress = record { steps = state.steps; all_complete = true; any_failed = false } in
      let sub = λ (u : RemediationStep) (k : Memᴰ u plan').
        All-mem (λ t. Memᴰ t workflow.steps) plan' is_plan.listed k in
      rw
        (
          r,
          h.recorded,
          visit_steps-unfinished executor tick.finished workflow.steps dag.unique s m plan' p sub
              (IsPlan-mem workflow.steps plan' s is_plan m) h,
        )
        (
          refl,
          visit_steps-HoldsUp executor tick.finished workflow.steps dag.unique s m plan' p sub h,
        )

  run_many-running :
      (ticks : List Tick) (state : WorkflowExecutionStatus)
      → state.state ≡ StepState.running
      → HoldsUp s state.steps
      → (run_many executor workflow ticks state).state ≡ StepState.running
  unfolding run_many
  run_many-running [] state r h = r
  run_many-running (tick ∷ ticks) state r h =
      let plan' =
        plan executor tick.started tick.finished tick.iteration tick.visits workflow dag in
      let (r', h') =
        run_plan-HoldsUp tick plan' state
          (plan-IsPlan executor tick.started tick.finished tick.iteration tick.visits workflow dag)
          r h in
      rw
        (
          run_with-plan executor tick.started tick.finished tick.iteration tick.visits workflow dag
              state,
          run_many,
        )
        (run_many-running ticks _ r' h')

-- An acyclic workflow that is running, with some statuses recorded, never ends, however often it is
-- run, if one of its steps is not among the recorded statuses, or is pending with a run condition that
-- the API does not name.
pub run_many-stuck :
    (executor : RemediationStep → Option Text) (workflow : RemediationWorkflow)
    (dag : IsDag workflow.steps) (s : RemediationStep) (m : Memᴰ s workflow.steps)
    (ticks : List Tick) (state : WorkflowExecutionStatus)
    → state.state ≡ StepState.running
    → state.steps ≢ []
    → (listed s.name state.steps ≡ false)
      ⊎ ((get_step_state s.name state.steps ≡ StepState.pending)
          × (is_known s.run_condition ≡ false))
    → (run_many executor workflow ticks state).state ≡ StepState.running
run_many-stuck executor workflow dag s m ticks state r nonempty why =
    run_many-running executor workflow dag s m ticks state r (record {
      recorded = ground arith;
      waits = elim why [ inl l ↦ get-unlisted s.name state.steps l | inr w ↦ w.0 ];
      why = elim why [ inl l ↦ inl l | inr w ↦ inr w.1 ];
    })
