-- ===== src/Remediation/Topology/Edges.antt =====
-- The edges of a workflow counted from its steps, and the maps of `topologicalSort` in these terms.
use sre_operator.Common.{
  ℕ, suc, ◌+◌, ◌<◌, ◌≡◌, refl, List, [], ◌∷◌, ◌++◌, Text, ◌==◌, pos, find_or, find_or-put, put,
  keys, has-count, count-has, count-keys-put, length, count, count-append, if◌then◌else◌, nat_eq,
  arith, suc_ℤ, find_or-absent, eq_refl, eq_iff,
}
use sre_operator.Api.Types.{RemediationStep}
use sre_operator.Remediation.Topology.{
  Tables, add_edge, add_edges, ensure_degree, add_step, add_steps, no_tables, build,
}

abbrev pub names : List RemediationStep → List Text
names [] = []
names (s ∷ ss) = s.name ∷ names ss

-- How many entries of `deps` are not in `seen`.
abbrev pub missing : List Text → List Text → ℕ
missing seen [] = 0
missing seen (d ∷ ds) =
    let rest = missing seen ds in if nat_eq (count d seen) 0 then suc rest else rest

-- How many dependencies of the steps named `n` are not in `seen`.
abbrev pub pending : List RemediationStep → List Text → Text → ℕ
pending [] seen n = 0
pending (s ∷ ss) seen n =
    let rest = pending ss seen n in if s.name == n then missing seen s.depends_on + rest else rest

-- How many edges lead from `d` to the steps named `n`.
abbrev pub fanout : List RemediationStep → Text → Text → ℕ
fanout [] d n = 0
fanout (s ∷ ss) d n =
    let rest = fanout ss d n in if s.name == n then count d s.depends_on + rest else rest

missing-snoc :
    (seen deps : List Text) (c : Text)
    → count c seen ≡ 0
    → missing (seen ++ c ∷ []) deps + count c deps ≡ missing seen deps
missing-snoc seen [] c h = refl
missing-snoc seen (d ∷ ds) c h =
    ground (arith, missing-snoc seen ds c h, count-append d seen (c ∷ []), eq_iff c d, eq_iff d c)

-- When `c` is placed, the edges that lead from it are no longer pending.
pub pending-snoc :
    (steps : List RemediationStep) (seen : List Text) (c n : Text)
    → count c seen ≡ 0
    → pending steps (seen ++ c ∷ []) n + fanout steps c n ≡ pending steps seen n
pending-snoc [] seen c n h = refl
pending-snoc (s ∷ ss) seen c n h =
    ground (arith, pending-snoc ss seen c n h, missing-snoc seen s.depends_on c h)

missing-nil : (deps : List Text) → missing [] deps ≡ length deps
missing-nil [] = refl
missing-nil (d ∷ ds) = ground (arith, missing-nil ds)

-- The state of the maps after some steps: what each name has got.
pub record Holds (t : Tables) (degree : Text → ℕ) (out : Text → Text → ℕ) (known : Text → ℕ)
    : Type 0 where
  pub degrees : (n : Text) → find_or (pos 0) n t.in_degree ≡ pos (degree n)
  pub edges : (d n : Text) → count n (find_or [] d t.graph) ≡ out d n
  pub keyed : (n : Text) → count n (keys t.in_degree) ≡ (if nat_eq (known n) 0 then 0 else 1)

module _ (name : Text) {t : Tables} {degree : Text → ℕ} {out : Text → Text → ℕ} {known : Text → ℕ}
    (h : Holds t degree out known) where
  add_edge-Holds :
      (dep : Text)
      → 0 < known name
      → Holds
          (add_edge name dep t)
          (λ n. if name == n then suc (degree n) else degree n)
          (λ d n. if name == n then (if dep == d then suc (out d n) else out d n) else out d n)
          known
  unfolding add_edge
  add_edge-Holds dep k = record {
    degrees = λ n. ground (
      arith,
      find_or-put (pos 0) name n (suc_ℤ (find_or (pos 0) name t.in_degree)) t.in_degree,
      h.degrees name,
      h.degrees n,
      eq_iff name n,
    );
    edges = λ d n. ground (
      arith,
      find_or-put [] dep d (find_or [] dep t.graph ++ name ∷ []) t.graph,
      h.edges d n,
      h.edges dep n,
      count-append n (find_or [] dep t.graph) (name ∷ []),
      eq_iff dep d,
    );
    keyed = λ n. ground (
      arith,
      h.keyed n,
      h.keyed name,
      count-has name t.in_degree,
      count-keys-put name n (suc_ℤ (find_or (pos 0) name t.in_degree)) t.in_degree,
    );
  }

add_edges-Holds :
    (name : Text) (deps : List Text) (t : Tables) (degree : Text → ℕ) (out : Text → Text → ℕ)
    (known : Text → ℕ)
    → 0 < known name
    → Holds t degree out known
    → Holds
        (add_edges name deps t)
        (λ n. if name == n then length deps + degree n else degree n)
        (λ d n. if name == n then count d deps + out d n else out d n)
        known
unfolding add_edges
add_edges-Holds name [] t degree out known k h = record {
  degrees = λ n. ground (arith, h.degrees n);
  edges = λ d n. ground (arith, h.edges d n);
  keyed = h.keyed;
}
add_edges-Holds name (dep ∷ deps) t degree out known k h =
    let rest =
      add_edges-Holds name deps (add_edge name dep t) _ _ known k (add_edge-Holds name h dep k) in
    record {
      degrees = λ n. ground (arith, rest.degrees n);
      edges = λ d n. ground (arith, rest.edges d n);
      keyed = rest.keyed;
    }

ensure_degree-Holds :
    (step : RemediationStep) (t : Tables) (degree : Text → ℕ) (out : Text → Text → ℕ)
    (known : Text → ℕ)
    → Holds t degree out known
    → Holds
        (record t {
          step_map = put step.name step t.step_map;
          in_degree = ensure_degree step.name t.in_degree;
        })
        degree
        out
        (λ n. if step.name == n then suc (known n) else known n)
unfolding ensure_degree
ensure_degree-Holds step t degree out known h = record {
  degrees = λ n. ground (
    arith,
    h.degrees n,
    h.degrees step.name,
    eq_iff step.name n,
    find_or-absent (pos 0) step.name t.in_degree,
    find_or-put (pos 0) step.name n (pos 0) t.in_degree,
  );
  edges = h.edges;
  keyed = λ n. ground (
    arith,
    h.keyed n,
    h.keyed step.name,
    eq_iff step.name n,
    has-count step.name t.in_degree,
    count-has step.name t.in_degree,
    count-keys-put step.name n (pos 0) t.in_degree,
  );
}

-- One step of the workflow adds its edges.
add_step-Holds :
    (step : RemediationStep) (t : Tables) (degree : Text → ℕ) (out : Text → Text → ℕ)
    (known : Text → ℕ)
    → Holds t degree out known
    → Holds
        (add_step step t)
        (λ n. if step.name == n then length step.depends_on + degree n else degree n)
        (λ d n. if step.name == n then count d step.depends_on + out d n else out d n)
        (λ n. if step.name == n then suc (known n) else known n)
unfolding add_step
add_step-Holds step t degree out known h =
    add_edges-Holds step.name step.depends_on _ degree out _ (ground (arith, eq_refl step.name))
      (ensure_degree-Holds step t degree out known h)

add_steps-Holds :
    (steps : List RemediationStep) (t : Tables) (degree : Text → ℕ) (out : Text → Text → ℕ)
    (known : Text → ℕ)
    → Holds t degree out known
    → Holds
        (add_steps steps t)
        (λ n. pending steps [] n + degree n)
        (λ d n. fanout steps d n + out d n)
        (λ n. count n (names steps) + known n)
unfolding add_steps
add_steps-Holds [] t degree out known h = record {
  degrees = λ n. ground (arith, h.degrees n);
  edges = λ d n. ground (arith, h.edges d n);
  keyed = λ n. ground (arith, h.keyed n);
}
add_steps-Holds (s ∷ ss) t degree out known h =
    let rest = add_steps-Holds ss (add_step s t) _ _ _ (add_step-Holds s t degree out known h) in
    record {
      degrees = λ n. ground (arith, rest.degrees n, missing-nil s.depends_on);
      edges = λ d n. ground (arith, rest.edges d n);
      keyed = λ n. ground (arith, rest.keyed n);
    }

empty : Holds no_tables (λ _. 0) (λ _ _. 0) (λ _. 0)
unfolding find_or keys
empty = record { degrees = λ n. refl; edges = λ d n. refl; keyed = λ n. refl }

-- What the three maps hold before the loop begins.
pub build-Holds :
    (steps : List RemediationStep)
    → Holds (build steps) (pending steps []) (fanout steps) (λ n. count n (names steps))
unfolding build
build-Holds steps =
    let h = add_steps-Holds steps no_tables (λ _. 0) (λ _ _. 0) (λ _. 0) empty in
    record {
      degrees = λ n. ground (arith, h.degrees n);
      edges = λ d n. ground (arith, h.edges d n);
      keyed = λ n. ground (arith, h.keyed n);
    }
