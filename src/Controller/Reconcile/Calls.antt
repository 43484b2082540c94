-- ===== src/Controller/Reconcile/Calls.antt =====
-- The calls that a cycle makes.
use sre_operator.Common.{
  ℕ, suc, ◌+◌, ◌≤◌, ◌≡◌, refl, Bool, true, false, Option, none, some, List, [], ◌∷◌, ◌++◌, map,
  Text, if◌then◌else◌, arith,
}
use sre_operator.Api.Types.{CheckResult}
use sre_operator.Api.Global.{SreGlobalConfig}
use sre_operator.Telemetry.{Provider, LogRecord, log_record}
use sre_operator.Controller.Rotation.{ConfigMap}
use sre_operator.Controller.Events.{Event}
use sre_operator.Controller.Gather.{max_copies, deletions, logs_enabled}
use sre_operator.Controller.Cycle.{log_records}
use sre_operator.Controller.World.{
  Effect, updated, status_updated, created, deleted, emitted, logged,
}

pub data Kind : Type 0 where
  update status_update creation deletion event log : Kind

abbrev pub kind : Effect → Kind
kind (updated p) = Kind.update
kind (status_updated p) = Kind.status_update
kind (created s) = Kind.creation
kind (deleted c) = Kind.deletion
kind (emitted e) = Kind.event
kind (logged r) = Kind.log

abbrev pub is_kind : Kind → Kind → Bool
is_kind Kind.update Kind.update = true
is_kind Kind.status_update Kind.status_update = true
is_kind Kind.creation Kind.creation = true
is_kind Kind.deletion Kind.deletion = true
is_kind Kind.event Kind.event = true
is_kind Kind.log Kind.log = true
is_kind _ _ = false

-- How many of the calls are of a kind.
abbrev pub calls : Kind → List Effect → ℕ
calls k [] = 0
calls k (e ∷ es) = let rest = calls k es in if is_kind k (kind e) then suc rest else rest

-- What the calls of a part of a cycle may be, `n` of them creations at most.
pub record Makes (global : Option SreGlobalConfig) (n : ℕ) (es : List Effect) : Type 0 where
  pub updates : calls Kind.update es ≡ 0
  pub status_updates : calls Kind.status_update es ≡ 0
  pub creations : calls Kind.creation es ≤ n
  pub deletions_bounded : max_copies global ≡ none → calls Kind.deletion es ≡ 0
  pub logs_wanted : logs_enabled global ≡ false → calls Kind.log es ≡ 0

pub calls-append : (k : Kind) (xs ys : List Effect) → calls k (xs ++ ys) ≡ calls k xs + calls k ys
calls-append k [] ys = omega arith
calls-append k (x ∷ xs) ys = ground (arith, calls-append k xs ys)

module _ (global : Option SreGlobalConfig) where
  pub Makes-append :
      (m n : ℕ) (xs ys : List Effect)
      → Makes global m xs
      → Makes global n ys
      → Makes global (m + n) (xs ++ ys)
  Makes-append m n xs ys p q = record {
    updates = omega (arith, calls-append Kind.update xs ys, p.updates, q.updates);
    status_updates =
        omega (arith, calls-append Kind.status_update xs ys, p.status_updates, q.status_updates);
    creations = omega (arith, calls-append Kind.creation xs ys, p.creations, q.creations);
    deletions_bounded = λ h.
        omega
          (arith, calls-append Kind.deletion xs ys, p.deletions_bounded h, q.deletions_bounded h);
    logs_wanted = λ h. omega (arith, calls-append Kind.log xs ys, p.logs_wanted h, q.logs_wanted h);
  }

  pub none-Makes : Makes global 0 []
  none-Makes = record {
    updates = refl;
    status_updates = refl;
    creations = omega arith;
    deletions_bounded = λ h. refl;
    logs_wanted = λ h. refl;
  }

  pub events-Makes : (events : List Event) → Makes global 0 (map emitted events)
  events-Makes [] = none-Makes
  events-Makes (e ∷ es) =
      let r = events-Makes es in
      record {
        updates = r.updates;
        status_updates = r.status_updates;
        creations = r.creations;
        deletions_bounded = r.deletions_bounded;
        logs_wanted = r.logs_wanted;
      }

  pub logs-Makes :
      (records : List LogRecord) → logs_enabled global ≡ true → Makes global 0 (map logged records)
  logs-Makes [] h = none-Makes
  logs-Makes (r ∷ rs) h =
      let m = logs-Makes rs h in
      record {
        updates = m.updates;
        status_updates = m.status_updates;
        creations = m.creations;
        deletions_bounded = m.deletions_bounded;
        logs_wanted = λ n. absurd (ground arith);
      }

  pub log_records-Makes :
      (p : Provider) (fs : List CheckResult)
      → logs_enabled global ≡ true
      → Makes global 0 (log_records p fs)
  unfolding log_records
  log_records-Makes p [] h = none-Makes
  log_records-Makes p (f ∷ fs) h =
      Makes-append 0 0 _ _ (logs-Makes (log_record p f) h) (log_records-Makes p fs h)

  pub deletions-Makes :
      (ds : List (ConfigMap × Option Text)) (n : ℕ)
      → max_copies global ≡ some n
      → Makes global 0 (deletions ds)
  unfolding deletions
  deletions-Makes [] n h = none-Makes
  deletions-Makes ((cm, e) ∷ ds) n h =
      let m = deletions-Makes ds n h in
      record {
        updates = m.updates;
        status_updates = m.status_updates;
        creations = m.creations;
        deletions_bounded = λ no_bound. absurd (ground arith);
        logs_wanted = m.logs_wanted;
      }
