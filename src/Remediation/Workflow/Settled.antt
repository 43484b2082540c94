-- ===== src/Remediation/Workflow/Settled.antt =====
-- Calls of `WorkflowRunner.Run` one after the other, also of edited workflows, and what they keep.
use sre_operator.Common.{
  ◌≡◌, refl, ◌∙◌, true, false, Option, none, some, List, [], ◌∷◌, Text, str, ◌==◌, eq_iff, eq_sound,
  if◌then◌else◌, arith, Bool-cases, inl, inr,
}
use sre_operator.Api.Enums.{StepState}
use sre_operator.Api.Types.{
  Time, RemediationStep, RemediationWorkflow, WorkflowStepStatus, WorkflowExecutionStatus,
}
use sre_operator.Remediation.Topology.{SortResult, sorted, failure, topological_sort}
use sre_operator.Remediation.Workflow.{
  check_deps, Progress, Decision, execute, skip, ignore, decide_step, act, run_action, finish_step,
  attempt_step, visit_step, visit_steps, start, is_terminal, ensure_steps, conclude, run_plan,
  run_sorted, run_with,
}
use sre_operator.Remediation.Steps.{get_step_state, set_step_status, is_settled, is_failed}

-- The recorded status of a step.
abbrev pub status_of : Text → List WorkflowStepStatus → Option WorkflowStepStatus
status_of n [] = none
status_of n (s ∷ ss) = let rest = status_of n ss in if s.name == n then some s else rest

-- One call of `Run`.
pub data Runs : WorkflowExecutionStatus → WorkflowExecutionStatus → Type 0 where
  call :
      (executor : RemediationStep → Option Text) (started : Time) (finished : Text → Time)
      (iteration : List Text → List Text) (workflow : RemediationWorkflow)
      {s t : WorkflowExecutionStatus}
      → t ≡ (run_with executor started finished iteration workflow s).0
      → Runs s t

pub data Reaches (s : WorkflowExecutionStatus) : WorkflowExecutionStatus → Type 0 where
  here : Reaches s s
  next : {t u : WorkflowExecutionStatus} → Reaches s t → Runs t u → Reaches s u

status_of-set :
    (name n : Text) (state : StepState) (message : Text) (now : Time) (ss : List WorkflowStepStatus)
    → (name == n) ≡ false
    → status_of n (set_step_status name state message now ss) ≡ status_of n ss
unfolding set_step_status
status_of-set name n state message now [] h = refl
status_of-set name n state message now (s ∷ ss) h = ground (
  arith,
  status_of-set name n state message now ss h,
  eq_iff s.name name,
  eq_iff s.name n,
  eq_iff name n,
)

-- The state of a recorded step.
get-status_of :
    (n : Text) (ss : List WorkflowStepStatus) (e : WorkflowStepStatus)
    → status_of n ss ≡ some e
    → get_step_state n ss ≡ e.state
unfolding get_step_state
get-status_of n [] e h = cc
get-status_of n (s ∷ ss) e h = ground (arith, get-status_of n ss e)

act-status_of :
    (d : Decision) (result : Option Text) (name n : Text) (now : Time) (p : Progress)
    → (name == n) ≡ false
    → status_of n (act d result name now p).steps ≡ status_of n p.steps
unfolding act run_action finish_step
act-status_of execute none name n now p h =
    status_of-set name n StepState.succeeded (str "Action completed") now _ h
    ∙ status_of-set name n StepState.running [] now p.steps h
act-status_of execute (some m) name n now p h =
    status_of-set name n StepState.failed m now _ h
    ∙ status_of-set name n StepState.running [] now p.steps h
act-status_of (skip m) result name n now p h =
    status_of-set name n StepState.skipped m now p.steps h
act-status_of ignore result name n now p h = refl

module _ (n : Text) (e : WorkflowStepStatus) (settled : is_settled e.state ≡ true) where
  abbrev Keeps : List WorkflowStepStatus → Type 0
  Keeps ss = status_of n ss ≡ some e

  attempt_step-Keeps :
      (executor : RemediationStep → Option Text) (finished : Text → Time) (step : RemediationStep)
      (p : Progress)
      → (step.name == n) ≡ false
      → Keeps p.steps
      → Keeps (attempt_step executor finished step p).steps
  unfolding attempt_step
  attempt_step-Keeps executor finished step p h k =
      let c = check_deps p.steps step.depends_on false in
      elim (Bool-cases c.0) [
        | inl ready ↦ rw ready (
            act-status_of (decide_step step.run_condition c.1 step.depends_on) (executor step)
              step.name n (finished step.name) p h
            ∙ k)
        | inr waits ↦ rw waits k
      ]

  visit_step-Keeps :
      (executor : RemediationStep → Option Text) (finished : Text → Time) (step : RemediationStep)
      (p : Progress)
      → Keeps p.steps
      → Keeps (visit_step executor finished step p).steps
  unfolding visit_step
  visit_step-Keeps executor finished step p k =
      elim (Bool-cases (is_settled (get_step_state step.name p.steps))) [
        | inl done ↦ rw done (elim (Bool-cases (is_failed (get_step_state step.name p.steps))) [
          | inl bad ↦ rw bad k
          | inr good ↦ rw good k
        ])
        | inr todo ↦ rw todo (
            attempt_step-Keeps executor finished step (record p { all_complete = false })
              (ground (arith, get-status_of n p.steps e k, eq_sound step.name n)) k)
      ]

  visit_steps-Keeps :
      (executor : RemediationStep → Option Text) (finished : Text → Time)
      (steps : List RemediationStep) (p : Progress)
      → Keeps p.steps
      → Keeps (visit_steps executor finished steps p).steps
  unfolding visit_steps
  visit_steps-Keeps executor finished [] p k = k
  visit_steps-Keeps executor finished (step ∷ steps) p k =
      visit_steps-Keeps executor finished steps (visit_step executor finished step p)
        (visit_step-Keeps executor finished step p k)

  ensure_steps-Keeps :
      (plan : List RemediationStep) (ss : List WorkflowStepStatus)
      → Keeps ss
      → Keeps (ensure_steps plan ss)
  unfolding ensure_steps
  ensure_steps-Keeps plan [] k = cc
  ensure_steps-Keeps plan (s ∷ ss) k = k

  start-steps :
      (x : StepState) (now : Time) (s : WorkflowExecutionStatus) → (start x now s).steps ≡ s.steps
  unfolding start
  start-steps x now s = ground arith

  run_plan-Keeps :
      (executor : RemediationStep → Option Text) (started : Time) (finished : Text → Time)
      (plan : List RemediationStep) (s : WorkflowExecutionStatus)
      → Keeps s.steps
      → Keeps (run_plan executor started finished plan s).steps
  unfolding run_plan conclude
  run_plan-Keeps executor started finished plan s k =
      let running = start s.state started s in
      let k' : Keeps running.steps = rw (start-steps s.state started s) k in
      elim (Bool-cases (is_terminal running.state)) [
        | inl over ↦ rw over k'
        | inr on ↦
            rw on (
              visit_steps-Keeps executor finished plan _ (ensure_steps-Keeps plan running.steps k'))
      ]

  run_sorted-Keeps :
      (executor : RemediationStep → Option Text) (started : Time) (finished : Text → Time)
      (r : SortResult) (s : WorkflowExecutionStatus)
      → Keeps s.steps
      → Keeps (run_sorted executor started finished r s).0.steps
  unfolding run_sorted
  run_sorted-Keeps executor started finished (failure f) s k = k
  run_sorted-Keeps executor started finished (sorted plan) s k =
      run_plan-Keeps executor started finished plan s k

  Runs-Keeps : {s t : WorkflowExecutionStatus} → Runs s t → Keeps s.steps → Keeps t.steps
  Runs-Keeps {s} (call executor started finished iteration workflow q) k = rw q (
      unfold run_with in
      run_sorted-Keeps executor started finished (topological_sort iteration workflow.steps) s k)

-- A step that has settled is never run again: the status recorded for it, with its message and its
-- finish time, stays as it is through any number of calls of `Run`, whatever workflow, actions and
-- clock each of them is given.
pub Reaches-settled :
    (s t : WorkflowExecutionStatus) (n : Text) (e : WorkflowStepStatus)
    → Reaches s t
    → is_settled e.state ≡ true
    → status_of n s.steps ≡ some e
    → status_of n t.steps ≡ some e
Reaches-settled s t n e here settled k = k
Reaches-settled s t n e (next {t = u} r c) settled k =
    Runs-Keeps n e settled c (Reaches-settled s u n e r settled k)
