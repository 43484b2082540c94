-- ===== src/Remediation/Steps.antt =====
-- The recorded statuses of a workflow's steps: `getStepState` and `setStepStatus` of
-- internal/remediation/remediation.go, and what the runner asks of a state.
use sre_operator.Common.{
  Bool, true, false, Option, none, some, List, [], ◌∷◌, Text, ◌==◌, if◌then◌else◌,
}
use sre_operator.Api.Enums.{StepState}
use sre_operator.Api.Types.{Time, WorkflowStepStatus}

-- `getStepState`
unfoldable pub get_step_state : Text → List WorkflowStepStatus → StepState
get_step_state name [] = StepState.pending
get_step_state name (s ∷ ss) =
    let rest = get_step_state name ss in if s.name == name then s.state else rest

-- `stepState != StepPending && stepState != StepRunning`
unfoldable pub is_final : StepState → Bool
is_final StepState.pending = false
is_final StepState.running = false
is_final _ = true

unfoldable pub keep_time : Option Time → Time → Option Time
keep_time none t = some t
keep_time (some u) t = some u

-- The assignments of `setStepStatus` to the entry that it found.
unfoldable pub update_status : StepState → Text → Time → WorkflowStepStatus → WorkflowStepStatus
unfolding is_final keep_time
update_status state message now s = record s {
  state = state;
  message = message;
  finish_time = if is_final state then keep_time s.finish_time now else s.finish_time;
}

-- `setStepStatus`: the first entry of that name, and nothing if there is none.
unfoldable pub set_step_status :
    Text → StepState → Text → Time → List WorkflowStepStatus → List WorkflowStepStatus
unfolding update_status
set_step_status name state message now [] = []
set_step_status name state message now (s ∷ ss) =
    let rest = set_step_status name state message now ss in
    if s.name == name then update_status state message now s ∷ ss else s ∷ rest

-- The states that end a step.
unfoldable pub is_settled : StepState → Bool
is_settled StepState.succeeded = true
is_settled StepState.skipped = true
is_settled StepState.failed = true
is_settled _ = false

unfoldable pub is_failed : StepState → Bool
is_failed StepState.failed = true
is_failed _ = false

-- `ds == StepPending || ds == StepRunning`
unfoldable pub is_waiting : StepState → Bool
is_waiting StepState.pending = true
is_waiting StepState.running = true
is_waiting _ = false

-- `ds == StepFailed || ds == StepSkipped`
unfoldable pub is_bad : StepState → Bool
is_bad StepState.failed = true
is_bad StepState.skipped = true
is_bad _ = false
