-- ===== src/Remediation/Engine.antt =====
-- `Engine` and `AlertDispatcher` of internal/remediation/remediation.go. An `error` is an `Option`
-- of its text. The actions are stubs in the source: they check their arguments and change nothing.
use sre_operator.Common.{
  Bool, true, false, ◌||◌, Option, none, some, List, [], ◌∷◌, Text, str, ◌==◌, find_or,
  if◌then◌else◌,
}
use sre_operator.Api.Enums.{RemediationAction, RunCondition}
use sre_operator.Api.Types.{
  RemediationStep, RemediationWorkflow, CheckResult, CheckSpec, AlertTrigger,
}

pub record AlertDispatchResult : Type 0 where
  pub error : Option Text
  pub skipped : Bool
  pub action : RemediationAction
  pub trigger_name : Text
  pub target_resource : Text

-- `step.Arguments[key]`, with "" for a missing key.
argument : Text → RemediationStep → Text
argument key step = find_or [] key step.arguments

-- The `switch` of `executeStep`; its last clause is `default`.
perform : RemediationAction → RemediationStep → Option Text
unfolding argument
perform RemediationAction.diagnose_logs step =
    if argument (str "pattern") step == []
    then some (str "missing 'pattern' argument for DiagnoseLogs")
    else none
perform RemediationAction.patch_resource step =
    if argument (str "patchType") step == [] || argument (str "patchBody") step == []
    then some (str "missing 'patchType' or 'patchBody' argument")
    else none
perform RemediationAction.virtctl_action step =
    if argument (str "command") step == [] then some (str "missing 'command' argument") else none
perform _ step = none

unfoldable pub execute_step : RemediationStep → Option Text
unfolding perform
execute_step step = perform step.action step

-- The step that `Apply` builds for a single action.
abbrev dummy_step : RemediationAction → RemediationStep
dummy_step action = record {
  name = [];
  action = action;
  depends_on = [];
  run_condition = RunCondition.unset;
  arguments = [];
}

-- `w != nil && len(w.Steps) > 0`
unfoldable pub has_steps : Option RemediationWorkflow → Bool
has_steps none = false
has_steps (some w) = elim w.steps [ [] ↦ false | s ∷ ss ↦ true ]

-- The finding is not read by any action.
unfoldable pub apply : CheckResult → CheckSpec → RemediationAction × Option Text
unfolding has_steps execute_step
apply f spec =
    if has_steps spec.remediation_workflow
    then (RemediationAction.none, some (str "use WorkflowRunner for DAGs"))
    else (spec.remediation, execute_step (dummy_step spec.remediation))

-- `AlertDispatcher.Dispatch` is a stub that returns nil.
unfoldable pub dispatch :
    {Trigger : Type 0}
    → List Trigger
    → List AlertTrigger
    → List CheckResult
    → List AlertDispatchResult
dispatch results triggers findings = []
