-- ===== src/Controller/Reconcile/Server.antt =====
-- What an API server makes of the calls of internal/controller/srepolicy_controller.go.
use sre_operator.Common.{
  ◌≡◌, refl, sym, ap, ◌∙◌, false, none, List, [], ◌∷◌, ◌++◌, Bool-cases, inl, inr, arith,
}
use sre_operator.Api.Types.{SrePolicy}
use sre_operator.Controller.Reconcile.Calls.{Kind, kind, is_kind, calls, calls-append}
use sre_operator.Controller.Cycle.{finalizer_name}
use sre_operator.Controller.World.{Effect, updated, status_updated}

-- The policy with the finalizer added, as the program submits it.
abbrev pub with_finalizer : SrePolicy → SrePolicy
with_finalizer policy = record policy {
  metadata = record policy.metadata {
    finalizers = policy.metadata.finalizers ++ finalizer_name ∷ [];
  };
}

-- The API server's object of a policy with a status subresource, after a call that it accepts. An
-- update that only adds the finalizer to the stored object, which is not being deleted, stores it and
-- leaves the rest: the generation changes with the specification only. An update of the status with the
-- stored metadata stores the status. No call but an update of the object changes the metadata.
pub record Server : Type 0 where
  pub accept : Effect → SrePolicy → SrePolicy
  pub on_finalizer :
      (stored : SrePolicy)
      → stored.metadata.deletion_timestamp ≡ none
      → let after = accept (updated (with_finalizer stored)) stored in
        (after.metadata ≡ (with_finalizer stored).metadata) × (after.spec ≡ stored.spec)
  pub on_status_update :
      (q stored : SrePolicy)
      → q.metadata ≡ stored.metadata
      → (accept (status_updated q) stored).status ≡ q.status
  pub on_others :
      (e : Effect) (stored : SrePolicy)
      → is_kind Kind.update (kind e) ≡ false
      → (accept e stored).metadata ≡ stored.metadata

unfoldable pub accept_all : Server → List Effect → SrePolicy → SrePolicy
accept_all server [] stored = stored
accept_all server (e ∷ es) stored = accept_all server es (server.accept e stored)

module _ (server : Server) where
  pub accept_all-metadata :
      (es : List Effect) (stored : SrePolicy)
      → calls Kind.update es ≡ 0
      → (accept_all server es stored).metadata ≡ stored.metadata
  unfolding accept_all
  accept_all-metadata [] stored h = refl
  accept_all-metadata (e ∷ es) stored h = elim (Bool-cases (is_kind Kind.update (kind e))) [
    | inl is ↦ absurd (ground arith)
    | inr other ↦
        accept_all-metadata es (server.accept e stored) (ground arith)
        ∙ server.on_others e stored other
  ]

  accept_all-last :
      (es : List Effect) (e : Effect) (stored : SrePolicy)
      → accept_all server (es ++ e ∷ []) stored ≡ server.accept e (accept_all server es stored)
  unfolding accept_all
  accept_all-last [] e stored = refl
  accept_all-last (x ∷ es) e stored = accept_all-last es e (server.accept x stored)

  -- A sequence of calls whose last one updates the status.
  pub accept_all-status :
      (es : List Effect) (q stored : SrePolicy)
      → calls Kind.update (es ++ status_updated q ∷ []) ≡ 0
      → q.metadata ≡ stored.metadata
      → (accept_all server (es ++ status_updated q ∷ []) stored).status ≡ q.status
  accept_all-status es q stored none_updates same =
      ap (λ (x : SrePolicy). x.status) (accept_all-last es (status_updated q) stored)
      ∙ server.on_status_update q (accept_all server es stored) (
          same
          ∙ sym (
              accept_all-metadata es stored
                (omega (arith, calls-append Kind.update es (status_updated q ∷ []), none_updates))))
