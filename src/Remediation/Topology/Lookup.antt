-- ===== src/Remediation/Topology/Lookup.antt =====
-- `stepMap` of `topologicalSort`, and the names of the workflow.
use mathlib.Core.List.{Memᴰ}
use sre_operator.Common.{
  ℕ, suc, ◌+◌, ◌≤◌, ◌<◌, ◌≡◌, refl, inl, inr, false, some, List, [], ◌∷◌, Text, ◌==◌, find?,
  find?-put, put, count, if◌then◌else◌, arith, eq_refl, eq_sound, Bool-cases,
}
use sre_operator.Api.Types.{RemediationStep}
use sre_operator.Remediation.Topology.{
  Tables, add_edge, add_edges, add_step, add_steps, no_tables, build,
}
use sre_operator.Remediation.Topology.Edges.{names, missing, pending}

-- `n` is found as a step of that name which is one of `steps`.
pub record Found (steps : List RemediationStep) (m : List (Text × RemediationStep)) (n : Text)
    : Type 0 where
  pub step : RemediationStep
  pub found : find? n m ≡ some step
  pub named : step.name ≡ n
  pub listed : Memᴰ step steps

step_map-add_edges :
    (name : Text) (deps : List Text) (t : Tables) → (add_edges name deps t).step_map ≡ t.step_map
unfolding add_edges
step_map-add_edges name [] t = refl
step_map-add_edges name (dep ∷ deps) t = step_map-add_edges name deps (add_edge name dep t)

step_map-add_step :
    (step : RemediationStep) (t : Tables)
    → (add_step step t).step_map ≡ put step.name step t.step_map
unfolding add_step
step_map-add_step step t = step_map-add_edges step.name step.depends_on _

Found-add_step :
    (all : List RemediationStep) (s : RemediationStep) (t : Tables) (n : Text)
    → Memᴰ s all
    → (((s.name == n) ≡ false) → Found all t.step_map n)
    → Found all (add_step s t).step_map n
Found-add_step all s t n m old = elim (Bool-cases (s.name == n)) [
  | inl same ↦ record {
    step = s;
    found = rw (step_map-add_step s t, find?-put s.name n s t.step_map, same);
    named = eq_sound s.name n same;
    listed = m;
  }
  | inr differs ↦
      let f = old differs in
      record {
        step = f.step;
        found = rw (step_map-add_step s t, find?-put s.name n s t.step_map, differs) f.found;
        named = f.named;
        listed = f.listed;
      }
]

Found-add_steps :
    (all steps : List RemediationStep) (t : Tables) (n : Text) (known : ℕ)
    → ((s : RemediationStep) → Memᴰ s steps → Memᴰ s all)
    → ((0 < known) → Found all t.step_map n)
    → 0 < count n (names steps) + known
    → Found all (add_steps steps t).step_map n
unfolding add_steps
Found-add_steps all [] t n known sub old h = old (omega arith)
Found-add_steps all (s ∷ ss) t n known sub old h =
    Found-add_steps all ss (add_step s t) n (if s.name == n then suc known else known)
      (λ u m. sub u (Memᴰ.tail m))
      (λ k. Found-add_step all s t n (sub s (Memᴰ.head refl)) (λ d. old (ground arith)))
      (ground arith)

pub build-Found :
    (steps : List RemediationStep) (n : Text)
    → 0 < count n (names steps)
    → Found steps (build steps).step_map n
unfolding build
build-Found steps n h =
    Found-add_steps steps steps no_tables n 0 (λ s m. m) (λ k. absurd (omega arith)) (omega arith)

-- A step contributes its dependencies to what its name waits for.
pub missing-le-pending :
    (steps : List RemediationStep) (s : RemediationStep) (seen : List Text)
    → Memᴰ s steps
    → missing seen s.depends_on ≤ pending steps seen s.name
missing-le-pending [] s seen m = elim m [ ]
missing-le-pending (u ∷ us) s seen (Memᴰ.head e) = rw e (ground (arith, eq_refl u.name))
missing-le-pending (u ∷ us) s seen (Memᴰ.tail m) = ground (arith, missing-le-pending us s seen m)

pub count-names_of_mem :
    (steps : List RemediationStep) (s : RemediationStep)
    → Memᴰ s steps
    → 0 < count s.name (names steps)
count-names_of_mem [] s m = elim m [ ]
count-names_of_mem (u ∷ us) s (Memᴰ.head e) = rw e (ground (arith, eq_refl u.name))
count-names_of_mem (u ∷ us) s (Memᴰ.tail m) = ground (arith, count-names_of_mem us s m)
