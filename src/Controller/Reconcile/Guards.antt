-- ===== src/Controller/Reconcile/Guards.antt =====
-- What `Reconcile` does before a cycle.
use sre_operator.Common.{
  ℕ, ◌<◌, ◌≡◌, ◌≢◌, ◌↔◌, refl, sym, ap, ◌∙◌, Bool, true, false, ◌&&◌, not, Option, none, some, List,
  [], ◌∷◌, Text, ◌==◌, count, if◌then◌else◌, Bool-cases, inl, inr, arith,
}
use sre_operator.Api.Types.{Time, SrePolicy}
use sre_operator.Telemetry.{Provider}
use sre_operator.Controller.Strings.{contains_string, contains_string_iff, count-remove_string}
use sre_operator.Controller.Session.{Session}
use sre_operator.Controller.Cycle.{
  CtrlResult, reply, panicked, finalizer_name, handle_deletion, add_finalizer, finalizer_reply,
  pause, phase_reply,
}
use sre_operator.Controller.Reconcile.{
  active_with, reconcile_kept, reconcile_at, reconcile_policy, reconcile,
}
use sre_operator.Controller.Reconcile.Ends.{run_cycle-EndsWell}
use sre_operator.Controller.World.{World, found, Effect, updated}

-- The policy is not being deleted, has its finalizer, and is not paused.
abbrev pub is_active_at : Option Time → SrePolicy → Bool
is_active_at (some t) policy = false
is_active_at none policy =
    contains_string policy.metadata.finalizers finalizer_name && not policy.spec.paused

abbrev pub is_active : SrePolicy → Bool
is_active policy = is_active_at policy.metadata.deletion_timestamp policy

-- What a deletion does: nothing without the finalizer, and otherwise one update, which takes every
-- occurrence of the finalizer away, and nothing else.
pub record Releases (policy : SrePolicy) (effects : List Effect) : Type 0 where
  pub without : count finalizer_name policy.metadata.finalizers ≡ 0 → effects ≡ []
  pub with_it :
      0 < count finalizer_name policy.metadata.finalizers
      → (q : SrePolicy) × (effects ≡ updated q ∷ [])
        × (q.spec ≡ policy.spec)
        × (q.status ≡ policy.status)
        × ((n : Text)
            → count n q.metadata.finalizers
              ≡ (if finalizer_name == n then 0 else count n policy.metadata.finalizers))

reply≢panicked : (r : CtrlResult) (e : Option Text) → reply r e ≢ panicked
reply≢panicked r e h = cc

module _ (world : World) where
  phase_reply-reply : (o : Option Text) (i j : ℕ) → phase_reply world o i j ≢ panicked
  unfolding phase_reply
  phase_reply-reply none i j h = cc
  phase_reply-reply (some err) i j h = cc

  handle_deletion-reply :
      (policy : SrePolicy) (s : Session) → (handle_deletion world policy s).reply_of ≢ panicked
  unfolding handle_deletion
  handle_deletion-reply policy s =
      elim (Bool-cases (contains_string policy.metadata.finalizers finalizer_name)) [
        | inl has ↦ rw has λ h. cc
        | inr lacks ↦ rw lacks λ h. cc
      ]

  finalizer_reply-reply : (o : Option Text) → finalizer_reply world o ≢ panicked
  unfolding finalizer_reply
  finalizer_reply-reply none h = cc
  finalizer_reply-reply (some err) h = cc

  active-reply :
      (o : Option Provider) (policy : SrePolicy) (s : Session)
      → ((active_with world o policy s).reply_of ≡ panicked) ↔ (o ≡ none)
  unfolding active_with
  active-reply none policy s = (λ h. refl, λ h. refl)
  active-reply (some p) policy s = (
    λ h. absurd (reply≢panicked _ _ (sym (run_cycle-EndsWell world policy p s).replied ∙ h)),
    λ h. cc,
  )

  pub reconcile-found :
      (policy : SrePolicy) (s : Session)
      → world.policy ≡ found policy
      → reconcile world s ≡ reconcile_policy world policy s
  reconcile-found policy s e = unfold reconcile in rw e refl

  kept_iff :
      (held paused : Bool) (policy : SrePolicy) (s : Session)
      → ((if not held
            then add_finalizer world policy s
            else (if paused
                then pause world policy s
                else active_with world s.telemetry policy s)).reply_of
          ≡ panicked)
        ↔ ((held && not paused ≡ true) × (s.telemetry ≡ none))
  unfolding add_finalizer pause
  kept_iff false paused policy s = (λ h. absurd (finalizer_reply-reply _ h), λ h. cc)
  kept_iff true true policy s = (λ h. absurd (phase_reply-reply _ _ _ h), λ h. cc)
  kept_iff true false policy s = (
    λ h. (refl, (active-reply s.telemetry policy s).0 h),
    λ h. (active-reply s.telemetry policy s).1 h.1,
  )

  panicked_iff :
      (o : Option Time) (policy : SrePolicy) (s : Session)
      → ((reconcile_at world o policy s).reply_of ≡ panicked)
        ↔ ((is_active_at o policy ≡ true) × (s.telemetry ≡ none))
  unfolding reconcile_at reconcile_kept
  panicked_iff (some t) policy s = (λ h. absurd (handle_deletion-reply policy s h), λ h. cc)
  panicked_iff none policy s =
      kept_iff (contains_string policy.metadata.finalizers finalizer_name) policy.spec.paused policy
        s

  -- `Reconcile` of a policy panics exactly when the policy is active and the reconciler has no
  -- telemetry provider.
  pub reconcile-panicked_iff :
      (policy : SrePolicy) (s : Session)
      → world.policy ≡ found policy
      → ((reconcile world s).reply_of ≡ panicked)
        ↔ ((is_active policy ≡ true) × (s.telemetry ≡ none))
  reconcile-panicked_iff policy s e =
      rw (reconcile-found policy s e)
        (unfold reconcile_policy in panicked_iff policy.metadata.deletion_timestamp policy s)

  -- A policy that is being deleted is only released: no check runs and the session stays as it is.
  pub reconcile-Releases :
      (policy : SrePolicy) (s : Session) (t : Time)
      → world.policy ≡ found policy
      → policy.metadata.deletion_timestamp ≡ some t
      → Releases policy (reconcile world s).effects × ((reconcile world s).session ≡ s)
  reconcile-Releases policy s t e d =
      rw (reconcile-found policy s e, deleted)
        (elim (Bool-cases (contains_string policy.metadata.finalizers finalizer_name)) [
          | inl has ↦
              unfold handle_deletion in
              rw has (
                record {
                  without = λ none_there. absurd (
                      ground
                        (arith, contains_string_iff policy.metadata.finalizers finalizer_name));
                  with_it = λ there. (
                    _,
                    refl,
                    refl,
                    refl,
                    count-remove_string policy.metadata.finalizers finalizer_name,
                  );
                },
                refl,
              )
          | inr lacks ↦
              unfold handle_deletion in
              rw lacks (
                record {
                  without = λ none_there. refl;
                  with_it = λ there. absurd (
                      ground
                        (arith, contains_string_iff policy.metadata.finalizers finalizer_name));
                },
                refl,
              )
        ])
    where
      deleted : reconcile_policy world policy s ≡ handle_deletion world policy s
      deleted = unfold reconcile_policy in ap (λ o. reconcile_at world o policy s) d
