-- ===== src/Main/Started.antt =====
-- How far `main` gets.
use sre_operator.Common.{
  ◌≡◌, ◌≢◌, ◌⊎◌, refl, ap, Option, none, List, [], ◌∷◌, ◌++◌, Text, str, All, arith, Option-cases,
  inl, inr,
}
use sre_operator.Main.{
  Flags, Call, new_manager, new_kube_client, setup_with_manager, add_healthz_check,
  add_readyz_check, start, initial_session, manager_options, Exit, attempt, main,
}

-- All calls of a start, in order.
abbrev pub startup : Flags → List Call
startup flags =
    new_manager (manager_options flags)
    ∷ new_kube_client
    ∷ setup_with_manager initial_session
    ∷ add_healthz_check (str "healthz")
    ∷ add_readyz_check (str "readyz")
    ∷ start
    ∷ []

-- The last of the calls that were made is the first that fails.
pub record StopsAt (host : Call → Option Text) (all made : List Call) : Type 0 where
  pub before : List Call
  pub failing : Call
  pub after : List Call
  pub whole : all ≡ before ++ failing ∷ after
  pub made_so_far : made ≡ before ++ failing ∷ []
  pub fine : All (λ b. host b ≡ none) before
  pub fails : host failing ≢ none

-- A run of the calls `all`: all of them and status 0, or status 1 at the first one that fails.
pub record Follows (host : Call → Option Text) (all : List Call) (e : Exit) : Type 0 where
  pub completed : All (λ c. host c ≡ none) all → (e.calls ≡ all) × (e.status ≡ 0)
  pub ends : All (λ c. host c ≡ none) all ⊎ ((e.status ≡ 1) × StopsAt host all e.calls)

nothing-Follows : (host : Call → Option Text) → Follows host [] (record { calls = []; status = 0 })
nothing-Follows host = record { completed = λ a. (refl, refl); ends = inl tt }

attempt-Follows :
    (host : Call → Option Text) (c : Call) (all : List Call) (e : Exit)
    → Follows host all e
    → Follows host (c ∷ all) (attempt host c e)
unfolding attempt
attempt-Follows host c all e f = elim (Option-cases (host c)) [
  | inl ok ↦
      rw (ok, attempt)
        (record {
          completed = λ a. (ap (λ l. c ∷ l) (f.completed a.1).0, (f.completed a.1).1);
          ends = elim f.ends [
            | inl w ↦ inl (ok, w)
            | inr (st, stop) ↦ inr (
              st,
              record {
                before = c ∷ stop.before;
                failing = stop.failing;
                after = stop.after;
                fails = stop.fails;
                whole = ap (λ l. c ∷ l) stop.whole;
                made_so_far = ap (λ l. c ∷ l) stop.made_so_far;
                fine = (ok, stop.fine);
              },
            )
          ];
        })
  | inr (err, bad) ↦
      rw (bad, attempt)
        (record {
          completed = λ a. absurd (ground arith);
          ends = inr (
            refl,
            record {
              before = [];
              failing = c;
              after = all;
              whole = refl;
              made_so_far = refl;
              fine = tt;
              fails = λ n. ground arith;
            },
          );
        })
]

-- `main` makes the calls of a start in their order: the manager, the client, the reconciler with an
-- empty session, the two probes, and the start. It makes all of them and ends with status 0 if none
-- fails, and otherwise stops with status 1 behind the first one that fails, which is the last call
-- that it makes.
pub main-Follows :
    (host : Call → Option Text) (flags : Flags) → Follows host (startup flags) (main host flags)
unfolding main
main-Follows host flags = attempt-Follows host _ _ _ (
    attempt-Follows host _ _ _ (
      attempt-Follows host _ _ _ (
        attempt-Follows host _ _ _
          (attempt-Follows host _ _ _ (attempt-Follows host _ _ _ (nothing-Follows host))))))
