-- ===== src/Main/Running.antt =====
-- The reconciler in the program that `main` starts: any calls of `Reconcile`, one after the other.
use sre_operator.Common.{
  ◌≡◌, ◌↔◌, refl, ap, ◌∙◌, Bool, true, false, not, Option, none, some, if◌then◌else◌, Bool-cases,
  All, ◌⊎◌, ◌&&◌, subst, sym, [], inl, inr,
}
use sre_operator.Api.Types.{Time, SrePolicy}
use sre_operator.Telemetry.{Provider}
use sre_operator.Controller.Strings.{contains_string}
use sre_operator.Controller.Session.{Session}
use sre_operator.Controller.Cycle.{
  Run, panicked, finalizer_name, handle_deletion, add_finalizer, pause, update_phase,
}
use sre_operator.Controller.Reconcile.{
  active_with, reconcile_kept, reconcile_at, reconcile_policy, reconcile_lookup, reconcile,
}
use sre_operator.Controller.Reconcile.Guards.{
  is_active, is_active_at, reconcile-found, reconcile-panicked_iff,
}
use sre_operator.Controller.World.{
  World, Lookup, found, not_found, broken, Effect, updated, status_updated,
}
use sre_operator.Main.{initial_session}

-- The sessions of the reconciler between calls of `Reconcile`, each in its own surroundings.
pub data Reachable : Session → Type 1 where
  boot : Reachable initial_session
  cycle :
      {s t : Session} (world : World) → Reachable s → t ≡ (reconcile world s).session → Reachable t

module _ (world : World) (s : Session) (no_telemetry : s.telemetry ≡ none) where
  active-session :
      (o : Option Provider) (policy : SrePolicy)
      → o ≡ none
      → (active_with world o policy s).session ≡ s
  unfolding active_with
  active-session none policy e = refl
  active-session (some p) policy e = cc

  guarded-session :
      (held paused : Bool) (policy : SrePolicy)
      → (if not held
          then add_finalizer world policy s
          else (if paused
              then pause world policy s
              else active_with world s.telemetry policy s)).session
        ≡ s
  unfolding add_finalizer pause
  guarded-session false paused policy = refl
  guarded-session true true policy = refl
  guarded-session true false policy = active-session s.telemetry policy no_telemetry

  deletion-session : (policy : SrePolicy) → (handle_deletion world policy s).session ≡ s
  unfolding handle_deletion
  deletion-session policy =
      elim (Bool-cases (contains_string policy.metadata.finalizers finalizer_name)) [
        | inl held ↦ rw held refl
        | inr free ↦ rw free refl
      ]

  at-session : (o : Option Time) (policy : SrePolicy) → (reconcile_at world o policy s).session ≡ s
  unfolding reconcile_at reconcile_kept
  at-session (some t) policy = deletion-session policy
  at-session none policy =
      guarded-session (contains_string policy.metadata.finalizers finalizer_name) policy.spec.paused
        policy

  lookup-session : (l : Lookup SrePolicy) → (reconcile_lookup world l s).session ≡ s
  unfolding reconcile_lookup reconcile_policy
  lookup-session not_found = refl
  lookup-session (broken err) = refl
  lookup-session (found policy) = at-session policy.metadata.deletion_timestamp policy

  reconcile-session : (reconcile world s).session ≡ s
  unfolding reconcile
  reconcile-session = lookup-session world.policy

Reachable-initial : {s : Session} → Reachable s → s ≡ initial_session
Reachable-initial boot = refl
Reachable-initial (cycle {s} {t} world r e) =
    let before = Reachable-initial r in
    e ∙ reconcile-session world s (ap (λ (x : Session). x.telemetry) before) ∙ before

-- A call that writes no findings: an update of the policy with its status, or an update of the status
-- with its findings.
abbrev pub LeavesFindings : SrePolicy → Effect → Type 0
LeavesFindings policy (updated q) = q.status ≡ policy.status
LeavesFindings policy (status_updated q) = q.status.findings ≡ policy.status.findings
LeavesFindings policy _ = ⊥

-- The calls of a run, which are none if the policy is active.
record Harmless (active : Bool) (policy : SrePolicy) (run : Run) : Type 0 where
  leaves : All (LeavesFindings policy) run.effects
  silent : (run.effects ≡ []) ⊎ (active ≡ false)

module _ (world : World) (s : Session) (no_telemetry : s.telemetry ≡ none) where
  active-Harmless :
      (o : Option Provider) (policy : SrePolicy)
      → o ≡ none
      → Harmless true policy (active_with world o policy s)
  unfolding active_with
  active-Harmless none policy e = record { leaves = tt; silent = inl refl }
  active-Harmless (some p) policy e = cc

  guarded-Harmless :
      (held paused : Bool) (policy : SrePolicy)
      → Harmless (held && not paused) policy (
          if not held
          then add_finalizer world policy s
          else (if paused then pause world policy s else active_with world s.telemetry policy s))
  unfolding add_finalizer pause update_phase
  guarded-Harmless false paused policy = record { leaves = (refl, tt); silent = inr refl }
  guarded-Harmless true true policy = record { leaves = (refl, tt); silent = inr refl }
  guarded-Harmless true false policy = active-Harmless s.telemetry policy no_telemetry

  deletion-Harmless : (policy : SrePolicy) → Harmless false policy (handle_deletion world policy s)
  unfolding handle_deletion
  deletion-Harmless policy =
      elim (Bool-cases (contains_string policy.metadata.finalizers finalizer_name)) [
        | inl held ↦ rw held (record { leaves = (refl, tt); silent = inr refl })
        | inr free ↦ rw free (record { leaves = tt; silent = inr refl })
      ]

  at-Harmless :
      (o : Option Time) (policy : SrePolicy)
      → Harmless (is_active_at o policy) policy (reconcile_at world o policy s)
  unfolding reconcile_at reconcile_kept
  at-Harmless (some t) policy = deletion-Harmless policy
  at-Harmless none policy =
      guarded-Harmless (contains_string policy.metadata.finalizers finalizer_name)
        policy.spec.paused policy

  reconcile-Harmless :
      (policy : SrePolicy)
      → world.policy ≡ found policy
      → Harmless (is_active policy) policy (reconcile world s)
  unfolding reconcile_policy
  reconcile-Harmless policy e =
      subst (Harmless (is_active policy) policy) (sym (reconcile-found world policy s e))
        (at-Harmless policy.metadata.deletion_timestamp policy)

-- In the program that `main` starts no call of `Reconcile` for a policy that is found writes findings.
-- Whatever calls came before, the reconciler's session is the initial one. The call panics exactly when
-- the policy is active; then it writes nothing. What it writes otherwise are updates of the policy that
-- leave its status, and updates of the status that leave its findings.
pub Reachable-panics :
    (s : Session) (r : Reachable s) (world : World) (policy : SrePolicy)
    → world.policy ≡ found policy
    → let run = reconcile world s in
      (s ≡ initial_session)
      × ((run.reply_of ≡ panicked) ↔ (is_active policy ≡ true))
      × ((run.effects ≡ []) ⊎ (is_active policy ≡ false))
      × All (LeavesFindings policy) run.effects
Reachable-panics s r world policy e =
    let same = Reachable-initial r in
    let no_telemetry = ap (λ (x : Session). x.telemetry) same in
    let both = reconcile-panicked_iff world policy s e in
    let h = reconcile-Harmless world s no_telemetry policy e in
    (same, (λ p. (both.0 p).0, λ a. both.1 (a, no_telemetry)), h.silent, h.leaves)
