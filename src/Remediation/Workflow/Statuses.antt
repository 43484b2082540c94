-- ===== src/Remediation/Workflow/Statuses.antt =====
-- The list of step statuses as a map from names to states.
use sre_operator.Common.{
  ◌<◌, ◌≡◌, refl, Bool, true, false, ◌&&◌, List, [], ◌∷◌, Text, ◌==◌, if◌then◌else◌, any, arith,
  eq_iff, count,
}
use sre_operator.Api.Enums.{StepState}
use sre_operator.Api.Types.{Time, RemediationStep, WorkflowStepStatus}
use sre_operator.Remediation.Topology.Edges.{names}
use sre_operator.Remediation.Workflow.{check_deps, initial_statuses}
use sre_operator.Remediation.Steps.{get_step_state, set_step_status, is_waiting, is_bad}

-- A status of that name is recorded.
abbrev pub listed : Text → List WorkflowStepStatus → Bool
listed n [] = false
listed n (s ∷ ss) = let rest = listed n ss in if s.name == n then true else rest

pub get-set :
    (name n : Text) (state : StepState) (message : Text) (now : Time) (ss : List WorkflowStepStatus)
    → get_step_state n (set_step_status name state message now ss)
      ≡ (if name == n && listed name ss then state else get_step_state n ss)
unfolding get_step_state set_step_status
get-set name n state message now [] = ground arith
get-set name n state message now (s ∷ ss) =
    ground (
      arith,
      get-set name n state message now ss,
      eq_iff s.name name,
      eq_iff s.name n,
      eq_iff name n,
    )

pub listed-set :
    (name n : Text) (state : StepState) (message : Text) (now : Time) (ss : List WorkflowStepStatus)
    → listed n (set_step_status name state message now ss) ≡ listed n ss
unfolding set_step_status
listed-set name n state message now [] = refl
listed-set name n state message now (s ∷ ss) =
    ground (arith, listed-set name n state message now ss)

-- A name that is not recorded reads as pending.
pub get-unlisted :
    (n : Text) (ss : List WorkflowStepStatus)
    → listed n ss ≡ false
    → get_step_state n ss ≡ StepState.pending
unfolding get_step_state
get-unlisted n [] h = refl
get-unlisted n (s ∷ ss) h = ground (arith, get-unlisted n ss)

pub get-initial :
    (n : Text) (plan : List RemediationStep)
    → get_step_state n (initial_statuses plan) ≡ StepState.pending
unfolding get_step_state initial_statuses
get-initial n [] = refl
get-initial n (s ∷ ss) = ground (arith, get-initial n ss)

pub listed-initial :
    (n : Text) (plan : List RemediationStep)
    → 0 < count n (names plan)
    → listed n (initial_statuses plan) ≡ true
unfolding initial_statuses
listed-initial n [] h = absurd (omega arith)
listed-initial n (s ∷ ss) h = ground (arith, listed-initial n ss)

-- Some dependency has not ended, or has failed or been skipped.
abbrev pub any_waiting : List WorkflowStepStatus → List Text → Bool
any_waiting ss deps = any (λ d. is_waiting (get_step_state d ss)) deps

abbrev pub any_bad : List WorkflowStepStatus → List Text → Bool
any_bad ss deps = any (λ d. is_bad (get_step_state d ss)) deps

pub check_deps-satisfied :
    (ss : List WorkflowStepStatus) (deps : List Text) (bad : Bool)
    → (check_deps ss deps bad).0 ≡ (if any_waiting ss deps then false else true)
unfolding check_deps
check_deps-satisfied ss [] bad = refl
check_deps-satisfied ss (d ∷ ds) bad =
    ground (arith, check_deps-satisfied ss ds (if is_bad (get_step_state d ss) then true else bad))

pub check_deps-bad :
    (ss : List WorkflowStepStatus) (deps : List Text) (bad : Bool)
    → any_waiting ss deps ≡ false
    → (check_deps ss deps bad).1 ≡ (if bad then true else any_bad ss deps)
unfolding check_deps
check_deps-bad ss [] bad h = ground arith
check_deps-bad ss (d ∷ ds) bad h =
    ground (arith, check_deps-bad ss ds (if is_bad (get_step_state d ss) then true else bad))
