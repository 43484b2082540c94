-- ===== src/Remediation/Workflow/Visit.antt =====
-- One turn of the loop over the sorted steps.
use sre_operator.Common.{
  ◌≡◌, refl, true, false, Option, none, some, List, [], Text, str, ◌==◌, if◌then◌else◌, arith,
  eq_iff, Bool-cases, inl, inr,
}
use sre_operator.Api.Enums.{StepState}
use sre_operator.Api.Types.{Time, RemediationStep, WorkflowStepStatus}
use sre_operator.Remediation.Workflow.{
  check_deps, Progress, Decision, execute, skip, ignore, decide_step, act, run_action, finish_step,
  attempt_step, visit_step,
}
use sre_operator.Remediation.Steps.{get_step_state, set_step_status, is_settled}
use sre_operator.Remediation.Workflow.Statuses.{
  listed, get-set, listed-set, any_waiting, any_bad, check_deps-satisfied, check_deps-bad,
}

-- The state in which an action leaves its step.
abbrev pub action_state : Option Text → StepState
action_state none = StepState.succeeded
action_state (some message) = StepState.failed

abbrev pub decided : Decision → Option Text → StepState
decided execute result = action_state result
decided (skip message) result = StepState.skipped
decided ignore result = StepState.pending

-- What the rules say of a step, given the states of its dependencies.
abbrev pub verdict :
    (RemediationStep → Option Text) → List WorkflowStepStatus → RemediationStep → StepState
verdict executor ss step =
    if any_waiting ss step.depends_on
    then StepState.pending
    else decided (decide_step step.run_condition (any_bad ss step.depends_on) step.depends_on)
        (executor step)

act-steps :
    (d : Decision) (result : Option Text) (name n : Text) (now : Time) (p : Progress)
    → listed name p.steps ≡ true
    → get_step_state name p.steps ≡ StepState.pending
    → get_step_state n (act d result name now p).steps
      ≡ (if name == n then decided d result else get_step_state n p.steps)
unfolding act run_action finish_step
act-steps execute none name n now p l e = ground (
  arith,
  eq_iff name n,
  get-set name n StepState.succeeded (str "Action completed") now
      (set_step_status name StepState.running [] now p.steps),
  listed-set name name StepState.running [] now p.steps,
  get-set name n StepState.running [] now p.steps,
)
act-steps execute (some m) name n now p l e = ground (
  arith,
  eq_iff name n,
  get-set name n StepState.failed m now (set_step_status name StepState.running [] now p.steps),
  listed-set name name StepState.running [] now p.steps,
  get-set name n StepState.running [] now p.steps,
)
act-steps (skip m) result name n now p l e =
    ground (arith, get-set name n StepState.skipped m now p.steps)
act-steps ignore result name n now p l e = ground (arith, eq_iff name n)

act-listed :
    (d : Decision) (result : Option Text) (name n : Text) (now : Time) (p : Progress)
    → listed n (act d result name now p).steps ≡ listed n p.steps
unfolding act run_action finish_step
act-listed execute none name n now p = ground (
  arith,
  listed-set name n StepState.succeeded (str "Action completed") now
      (set_step_status name StepState.running [] now p.steps),
  listed-set name n StepState.running [] now p.steps,
)
act-listed execute (some m) name n now p = ground (
  arith,
  listed-set name n StepState.failed m now (set_step_status name StepState.running [] now p.steps),
  listed-set name n StepState.running [] now p.steps,
)
act-listed (skip m) result name n now p = listed-set name n StepState.skipped m now p.steps
act-listed ignore result name n now p = refl

act_complete :
    (d : Decision) (result : Option Text) (name : Text) (now : Time) (p : Progress)
    → (act d result name now p).all_complete ≡ p.all_complete
unfolding act run_action finish_step
act_complete execute none name now p = refl
act_complete execute (some m) name now p = refl
act_complete (skip m) result name now p = refl
act_complete ignore result name now p = refl

module _ (executor : RemediationStep → Option Text) (finished : Text → Time) where
  pub visit_step-listed :
      (step : RemediationStep) (n : Text) (p : Progress)
      → listed n (visit_step executor finished step p).steps ≡ listed n p.steps
  unfolding visit_step attempt_step
  visit_step-listed step n p =
      let d =
        decide_step step.run_condition (check_deps p.steps step.depends_on false).1
          step.depends_on in
      ground (
        arith,
        act-listed d (executor step) step.name n (finished step.name)
            (record p { all_complete = false }),
      )

  -- A pending step that is recorded gets the state that the rules give it; no other step changes.
  pub visit_step-pending :
      (step : RemediationStep) (n : Text) (p : Progress)
      → listed step.name p.steps ≡ true
      → get_step_state step.name p.steps ≡ StepState.pending
      → get_step_state n (visit_step executor finished step p).steps
        ≡ (if step.name == n then verdict executor p.steps step else get_step_state n p.steps)
  unfolding visit_step attempt_step is_settled
  visit_step-pending step n p l e =
      let ss = p.steps in
      let deps = step.depends_on in
      elim (Bool-cases (any_waiting ss deps)) [
        | inl w ↦ ground (arith, check_deps-satisfied ss deps false, eq_iff step.name n)
        | inr w ↦ ground (
          arith,
          check_deps-satisfied ss deps false,
          check_deps-bad ss deps false w,
          act-steps (decide_step step.run_condition (any_bad ss deps) deps) (executor step)
              step.name n (finished step.name) (record p { all_complete = false }) l e,
        )
      ]

  -- Unless the step had settled, the workflow is not complete.
  pub visit_step_complete :
      (step : RemediationStep) (p : Progress)
      → (visit_step executor finished step p).all_complete
        ≡ (if is_settled (get_step_state step.name p.steps) then p.all_complete else false)
  unfolding visit_step attempt_step
  visit_step_complete step p =
      let d =
        decide_step step.run_condition (check_deps p.steps step.depends_on false).1
          step.depends_on in
      ground (
        arith,
        act_complete d (executor step) step.name (finished step.name)
            (record p { all_complete = false }),
      )
