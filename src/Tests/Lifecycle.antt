-- ===== src/Tests/Lifecycle.antt =====
-- Examples for the calls of `Reconcile` one after the other: internal/controller/srepolicy_controller.go.
use sre_operator.Common.{◌≡◌, refl, true, false, none, some, []}
use sre_operator.Api.Types.{SrePolicy}
use sre_operator.Controller.Session.{Session}
use sre_operator.Controller.Strings.{contains_string}
use sre_operator.Controller.Cycle.{reply, finalizer_name}
use sre_operator.Controller.World.{
  Effect, updated, status_updated, created, deleted, emitted, logged,
}
use sre_operator.Controller.Reconcile.Calls.{Kind, kind, is_kind}
use sre_operator.Controller.Reconcile.Server.{Server, with_finalizer}
use sre_operator.Controller.Reconcile.Lifecycle.{
  stored_first, Continues, first, second, stored_second, reconcile-onboards,
}
use sre_operator.Tests.Reconcile.{world, policy, provider, session}

abbrev accept : Effect → SrePolicy → SrePolicy
accept (updated q) stored = record q { status = stored.status }
accept (status_updated q) stored = record stored { status = q.status }
accept _ stored = stored

others :
    (e : Effect) (stored : SrePolicy)
    → is_kind Kind.update (kind e) ≡ false
    → (accept e stored).metadata ≡ stored.metadata
others (updated q) stored h = cc
others (status_updated q) stored h = refl
others (created c) stored h = refl
others (deleted c) stored h = refl
others (emitted e) stored h = refl
others (logged r) stored h = refl

abbrev server : Server
server = record {
  accept = accept;
  on_finalizer = λ stored kept. (refl, refl);
  on_status_update = λ q stored same. refl;
  on_others = others;
}

-- A policy that was just created.
abbrev new_policy : SrePolicy
new_policy = record policy { metadata = record policy.metadata { finalizers = [] } }

abbrev traced : Session
traced = record session { telemetry = some provider }

no_finalizer : contains_string new_policy.metadata.finalizers finalizer_name ≡ false
unfolding contains_string
no_finalizer = refl

reconcile-onboards_example :
    let stored = stored_first server world new_policy traced in
    let final = stored_second server world new_policy traced in
    ((first server world new_policy traced).reply_of
      ≡ reply (record { requeue = true; requeue_after = 0 }) none)
    × (stored.metadata ≡ (with_finalizer new_policy).metadata)
    × Continues new_policy stored final traced (second server world new_policy traced)
reconcile-onboards_example =
    reconcile-onboards server world new_policy traced (λ q. refl) (λ q r. (refl, refl)) refl refl
      no_finalizer
