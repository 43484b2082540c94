-- ===== src/Remediation/Topology.antt =====
-- `WorkflowRunner.topologicalSort` of internal/remediation/remediation.go: Kahn's algorithm over
-- three Go maps. Go ranges over a map in no fixed order: `iteration` is the order in which it visits
-- the names, and every theorem holds for each order.
pub mod Edges
pub mod Lookup
pub mod Relax
pub mod Loop
pub mod Sorting
pub mod Sound
pub mod Complete
pub mod Exact
use sre_operator.Common.{
  ℕ, zero, suc, ◌≡◌, Bool, Option, none, some, List, [], ◌∷◌, ◌++◌, Text, ◌==◌, Dict, ℤ, pos, suc_ℤ,
  pred_ℤ, is_zero, nat_eq, find?, find_or, put, has, keys, length, count, select, if◌then◌else◌,
}
use sre_operator.Api.Types.{RemediationStep}

-- The maps `graph`, `inDegree` and `stepMap`.
pub record Tables : Type 0 where
  pub graph : Dict (List Text)
  pub in_degree : Dict ℤ
  pub step_map : Dict RemediationStep

pub data SortError : Type 0 where
  missing_dependency : Text → SortError
  cycle_detected : SortError
  -- The loop did not end within its fuel.
  diverged : SortError

pub data SortResult : Type 0 where
  sorted : List RemediationStep → SortResult
  failure : SortError → SortResult

-- The body of the inner `for` loop: an edge from `dep` to `name`.
pub add_edge : Text → Text → Tables → Tables
add_edge name dep t = record t {
  graph = put dep (find_or [] dep t.graph ++ name ∷ []) t.graph;
  in_degree = put name (suc_ℤ (find_or (pos 0) name t.in_degree)) t.in_degree;
}

pub add_edges : Text → List Text → Tables → Tables
unfolding add_edge
add_edges name [] t = t
add_edges name (dep ∷ deps) t = add_edges name deps (add_edge name dep t)

-- `if _, ok := inDegree[name]; !ok { inDegree[name] = 0 }`
pub ensure_degree : Text → Dict ℤ → Dict ℤ
ensure_degree name m = if has name m then m else put name (pos 0) m

pub add_step : RemediationStep → Tables → Tables
unfolding add_edges ensure_degree
add_step step t = add_edges step.name step.depends_on (record t {
  step_map = put step.name step t.step_map;
  in_degree = ensure_degree step.name t.in_degree;
})

pub add_steps : List RemediationStep → Tables → Tables
add_steps [] t = t
add_steps (step ∷ steps) t = add_steps steps (add_step step t)

abbrev pub no_tables : Tables
no_tables = record { graph = []; in_degree = []; step_map = [] }

pub build : List RemediationStep → Tables
build steps = add_steps steps no_tables

-- The first queue: the names of degree 0, in the order of iteration.
pub sources : (List Text → List Text) → Dict ℤ → List Text
sources iteration m = select (λ name. is_zero (find_or (pos 0) name m)) (iteration (keys m))

-- The loop over `graph[curr]`.
pub relax : List Text → Dict ℤ → List Text → Dict ℤ × List Text
relax [] degree queue = (degree, queue)
relax (neighbor ∷ rest) degree queue =
    let d = pred_ℤ (find_or (pos 0) neighbor degree) in
    relax rest (put neighbor d degree) (if is_zero d then queue ++ neighbor ∷ [] else queue)

-- The `for len(queue) > 0` loop. `total` is `len(steps)`, and the source's `count` is the length of
-- what is sorted so far.
pub drain :
    ℕ
    → ℕ
    → Dict (List Text)
    → Dict RemediationStep
    → List Text
    → Dict ℤ
    → List RemediationStep
    → ℕ
    → SortResult
drain fuel total graph step_map [] degree done n =
    if nat_eq n total then sorted done else failure cycle_detected
drain zero total graph step_map (curr ∷ queue) degree done n = failure diverged
drain (suc fuel) total graph step_map (curr ∷ queue) degree done n = elim (find? curr step_map) [
  | none ↦ failure (missing_dependency curr)
  | some step ↦
      let (degree', queue') = relax (find_or [] curr graph) degree queue in
      drain fuel total graph step_map queue' degree' (done ++ step ∷ []) (suc n)
]

-- The fuel is `len(steps)` rounds, one for each step.
unfoldable pub topological_sort : (List Text → List Text) → List RemediationStep → SortResult
unfolding build sources drain add_steps add_step relax
topological_sort iteration steps =
    let t = build steps in
    drain (length steps) (length steps) t.graph t.step_map (sources iteration t.in_degree)
      t.in_degree [] 0
