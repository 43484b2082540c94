-- ===== src/Controller/Reconcile/Lifecycle.antt =====
-- A policy from its creation on: the calls of `Reconcile` and what the API server makes of their updates.
use sre_operator.Common.{
  ◌≡◌, ◌⊎◌, refl, sym, ap, ◌∙◌, subst, Bool, true, false, not, Option, none, some, List, [], ◌∷◌,
  ◌++◌, Text, str, eq_refl, ltb, ltb→lt, if◌then◌else◌, Bool-cases, Option-cases, inl, inr, arith,
}
use sre_operator.Api.Types.{ObjectMeta, SrePolicySpec, SrePolicy, SrePolicyStatus, CheckResult}
use sre_operator.Telemetry.{Provider}
use sre_operator.Controller.Findings.{count_by_severity}
use sre_operator.Controller.Findings.Counted.{count_by_severity-failed_iff}
use sre_operator.Controller.Interval.{minimum_interval}
use sre_operator.Controller.Strings.{contains_string}
use sre_operator.Controller.Session.{Session}
use sre_operator.Controller.Cycle.{
  reply, panicked, Run, finalizer_name, add_finalizer, pause, finalizer_reply, phase_reply,
}
use sre_operator.Controller.Reconcile.{
  active_with, reconcile_kept, reconcile_at, reconcile_policy, reconcile, finish, conclude_cycle,
  run_cycle,
}
use sre_operator.Controller.Reconcile.Calls.{Kind, calls, calls-append}
use sre_operator.Controller.Reconcile.Ends.{PhaseAgrees, run_cycle-EndsWell}
use sre_operator.Controller.Reconcile.Protocol.{run_cycle-Keeps}
use sre_operator.Controller.Reconcile.Server.{
  Server, with_finalizer, accept_all, accept_all-status, accept_all-metadata,
}
use sre_operator.Controller.Reconcile.Guards.{reconcile-found}
use sre_operator.Controller.World.{World, found, updated, status_updated}

-- The two phases that a cycle writes.
active_or_degraded :
    (status : SrePolicyStatus) (fs : List CheckResult)
    → PhaseAgrees status fs
    → (status.phase ≡ str "Active") ⊎ (status.phase ≡ str "Degraded")
active_or_degraded status fs agrees =
    let c = count_by_severity-failed_iff fs in
    elim (Bool-cases (ltb 0 (count_by_severity fs).failed)) [
      | inl some_failed ↦ inr (agrees.0 (c.0 (ltb→lt 0 _ some_failed)))
      | inr none_failed ↦ inl (agrees.1 (λ r. ground (arith, c.1 r)))
    ]

contains_string-append : (xs : List Text) (n : Text) → contains_string (xs ++ n ∷ []) n ≡ true
unfolding contains_string
contains_string-append [] n = rw (eq_refl n) refl
contains_string-append (x ∷ xs) n = ground (arith, contains_string-append xs n)

-- The first call for a policy without its finalizer, and the second one, with the object stored then.
module _ (world : World) (policy : SrePolicy) (s : Session) (is_found : world.policy ≡ found policy)
    (kept : policy.metadata.deletion_timestamp ≡ none) where
  reconcile-kept : reconcile world s ≡ reconcile_kept world policy s
  unfolding reconcile_policy
  reconcile-kept = reconcile-found world policy s is_found ∙ unfold reconcile_at in rw kept refl

  reconcile-added :
      contains_string policy.metadata.finalizers finalizer_name ≡ false
      → reconcile world s ≡ add_finalizer world policy s
  reconcile-added lacks = reconcile-kept ∙ unfold reconcile_kept in rw lacks refl

  guarded-active :
      (held paused : Bool)
      → held ≡ true
      → paused ≡ false
      → (if not held
          then add_finalizer world policy s
          else (if paused then pause world policy s else active_with world s.telemetry policy s))
        ≡ active_with world s.telemetry policy s
  guarded-active true false h on = refl
  guarded-active true true h on = cc
  guarded-active false paused h on = cc

  reconcile-active :
      (o : Option Provider)
      → contains_string policy.metadata.finalizers finalizer_name ≡ true
      → policy.spec.paused ≡ false
      → s.telemetry ≡ o
      → reconcile world s ≡ active_with world o policy s
  reconcile-active o has on telemetry =
      let guarded : reconcile_kept world policy s ≡ active_with world s.telemetry policy s =
        unfold reconcile_kept in guarded-active _ _ has on in
      reconcile-kept ∙ guarded ∙ ap (λ x. active_with world x policy s) telemetry

run_cycle-updates :
    (world : World) (policy : SrePolicy) (s : Session) (p : Provider)
    → calls Kind.update (run_cycle world policy p s).effects ≡ 0
run_cycle-updates world policy s p =
    let k = run_cycle-Keeps world policy p s in
    rw k.last
      (calls-append Kind.update k.before (status_updated k.written ∷ []) ∙ rw k.made.updates refl)

-- A cycle whose update of the status is accepted.
run_cycle-reply :
    (world : World) (policy : SrePolicy) (s : Session) (p : Provider)
    → ((q : SrePolicy) → world.update_status q ≡ none)
    → (run_cycle world policy p s).reply_of
      ≡ reply (record { requeue = false; requeue_after = minimum_interval policy.spec.checks }) none
unfolding run_cycle conclude_cycle finish phase_reply
run_cycle-reply world policy s p accepts =
    let i = minimum_interval policy.spec.checks in ap (λ o. phase_reply world o i i) (accepts _)

-- The object that the API server stores after the first call for a policy, and after the second one.
module _ (server : Server) (worlds : SrePolicy → World) (policy : SrePolicy) (s : Session) where
  abbrev pub first : Run
  first = reconcile (worlds policy) s

  abbrev pub stored_first : SrePolicy
  stored_first = accept_all server first.effects policy

  abbrev pub second : Run
  second = reconcile (worlds stored_first) first.session

  abbrev pub stored_second : SrePolicy
  stored_second = accept_all server second.effects stored_first

module _ (server : Server) (world : World) (policy : SrePolicy) where
  -- A cycle, as the stored object shows it.
  cycle-stored :
      (p : Provider) (s : Session)
      → let final = accept_all server (run_cycle world policy p s).effects policy in
        (final.metadata ≡ policy.metadata)
        × (final.status.observed_generation ≡ policy.metadata.generation)
        × ((final.status.phase ≡ str "Active") ⊎ (final.status.phase ≡ str "Degraded"))
  cycle-stored p s =
      let w = run_cycle-EndsWell world policy p s in
      let run = run_cycle world policy p s in
      let same : (accept_all server run.effects policy).status ≡ w.written.status = rw w.last (
        accept_all-status server w.before w.written policy
          (subst (λ es. calls Kind.update es ≡ 0) w.last (run_cycle-updates world policy s p))
          w.same.0) in
      (
        accept_all-metadata server run.effects policy (run_cycle-updates world policy s p),
        ap (λ (x : SrePolicyStatus). x.observed_generation) same ∙ w.generation,
        subst (λ (x : SrePolicyStatus). (x.phase ≡ str "Active") ⊎ (x.phase ≡ str "Degraded"))
            (sym same) (active_or_degraded w.written.status _ w.phase),
      )

-- What the second call makes of the object that is stored after the first one. Without a telemetry
-- provider it panics, and the object stays.
pub data Continues (policy stored final : SrePolicy) (s : Session) (run : Run) : Type 0 where
  stops :
      s.telemetry ≡ none
      → run.reply_of ≡ panicked
      → final ≡ stored
      → Continues policy stored final s run
  checked :
      (p : Provider)
      → s.telemetry ≡ some p
      → run.reply_of
        ≡ reply
            (record { requeue = false; requeue_after = minimum_interval policy.spec.checks })
            none
      → final.metadata ≡ stored.metadata
      → final.status.observed_generation ≡ policy.metadata.generation
      → (final.status.phase ≡ str "Active") ⊎ (final.status.phase ≡ str "Degraded")
      → Continues policy stored final s run

-- The second call, for the stored object.
continued :
    (server : Server) (worlds : SrePolicy → World) (policy stored : SrePolicy) (s s' : Session)
    → (worlds stored).policy ≡ found stored
    → ((q : SrePolicy) → (worlds stored).update_status q ≡ none)
    → s' ≡ s
    → stored.metadata.deletion_timestamp ≡ none
    → contains_string stored.metadata.finalizers finalizer_name ≡ true
    → stored.spec.paused ≡ false
    → minimum_interval stored.spec.checks ≡ minimum_interval policy.spec.checks
    → stored.metadata.generation ≡ policy.metadata.generation
    → let run = reconcile (worlds stored) s' in
      Continues policy stored (accept_all server run.effects stored) s run
continued server worlds policy stored s s' finds accepts session kept has on interval generation =
    let telemetry = ap (λ (x : Session). x.telemetry) session in
    let world = worlds stored in
    elim (Option-cases s.telemetry) [
      | inl e ↦
          let ran = reconcile-active world stored s' finds kept none has on (telemetry ∙ e) in
          stops e (ap (λ (r : Run). r.reply_of) ran ∙ unfold active_with in refl) (
            ap (λ (r : Run). accept_all server r.effects stored) ran
            ∙ unfold active_with accept_all in refl)
      | inr (p, e) ↦
          let ran : reconcile world s' ≡ run_cycle world stored p s' =
            reconcile-active world stored s' finds kept (some p) has on (telemetry ∙ e)
            ∙ unfold active_with in refl in
          let c = cycle-stored server world stored p s' in
          let same : accept_all server (reconcile world s').effects stored
              ≡ accept_all server (run_cycle world stored p s').effects stored =
            ap (λ (r : Run). accept_all server r.effects stored) ran in
          checked p e
            (ap (λ (r : Run). r.reply_of) ran
              ∙ run_cycle-reply world stored s' p accepts
              ∙ ap (λ i. reply (record { requeue = false; requeue_after = i }) none) interval)
            (ap (λ (q : SrePolicy). q.metadata) same ∙ c.0)
            (ap (λ (q : SrePolicy). q.status.observed_generation) same ∙ c.1 ∙ generation)
            (subst
              (λ (q : SrePolicy).
                (q.status.phase ≡ str "Active") ⊎ (q.status.phase ≡ str "Degraded"))
              (sym same) c.2)
    ]

-- The first call of `Reconcile` for a policy without its finalizer only adds it, and asks for the next
-- call at once. With the object stored then, the second call panics and changes nothing if the
-- reconciler has no telemetry provider. If it has one, the call runs a cycle, returns no error and asks
-- for the next call after the policy's interval; the object stored then has the same metadata, the
-- phase "Active" or "Degraded", and the policy's generation as the one observed. The policy is neither
-- being deleted nor paused, and the API server finds it, accepts updates, and keeps its object as
-- `Server` says.
pub reconcile-onboards :
    (server : Server) (worlds : SrePolicy → World) (policy : SrePolicy) (s : Session)
    → ((q : SrePolicy) → (worlds q).policy ≡ found q)
    → ((q r : SrePolicy) → ((worlds q).update r ≡ none) × ((worlds q).update_status r ≡ none))
    → policy.metadata.deletion_timestamp ≡ none
    → policy.spec.paused ≡ false
    → contains_string policy.metadata.finalizers finalizer_name ≡ false
    → let run = first server worlds policy s in
      let stored = stored_first server worlds policy s in
      let final = stored_second server worlds policy s in
      (run.reply_of ≡ reply (record { requeue = true; requeue_after = 0 }) none)
      × (stored.metadata ≡ (with_finalizer policy).metadata)
      × Continues policy stored final s (second server worlds policy s)
unfolding add_finalizer finalizer_reply accept_all
reconcile-onboards server worlds policy s finds accepts kept on lacks =
    let held = with_finalizer policy in
    let added = reconcile-added (worlds policy) policy s (finds policy) kept lacks in
    let run = first server worlds policy s in
    let stored = stored_first server worlds policy s in
    let stores : stored ≡ server.accept (updated held) policy =
      ap (λ (r : Run). accept_all server r.effects policy) added in
    let laws = server.on_finalizer policy kept in
    let metadata : stored.metadata ≡ held.metadata =
      ap (λ (q : SrePolicy). q.metadata) stores ∙ laws.0 in
    let spec : stored.spec ≡ policy.spec = ap (λ (q : SrePolicy). q.spec) stores ∙ laws.1 in
    let session : run.session ≡ s = ap (λ (r : Run). r.session) added in
    (
      ap (λ (r : Run). r.reply_of) added
          ∙ ap (finalizer_reply (worlds policy)) (accepts policy held).0,
      metadata,
      continued server worlds policy stored s run.session (finds stored) (λ q. (accepts stored q).1)
          session (ap (λ (m : ObjectMeta). m.deletion_timestamp) metadata ∙ kept)
          (ap (λ (m : ObjectMeta). contains_string m.finalizers finalizer_name) metadata
            ∙ contains_string-append policy.metadata.finalizers finalizer_name)
          (ap (λ (x : SrePolicySpec). x.paused) spec ∙ on)
          (ap (λ (x : SrePolicySpec). minimum_interval x.checks) spec)
          (ap (λ (m : ObjectMeta). m.generation) metadata),
    )
