-- ===== src/Diagnostics/Logs/Bounds.antt =====
-- How much the log collector keeps of a pod.
use sre_operator.Common.{
  ◌+◌, ◌++◌, ◌⊎◌, ◌==◌, str, eq_sound, subst, All, All-map, All-append, Memᴰ, Bool-cases,
  if◌then◌else◌, suc, ◌*◌, ◌≤◌, ◌≡◌, refl, ap, List, [], ◌∷◌, map, Text, length, take, select,
  length-take, length-append, arith, Option-cases, inl, inr,
}
use sre_operator.Api.Types.{LogCollectionSpec}
use sre_operator.Diagnostics.Logs.{
  matches_any_pattern, all_patterns, log_entry, filter_log_lines, scan_lines, container_entries,
  entries_of, collect_pod_logs, log_containers, tail_lines, since_seconds,
}
use sre_operator.Diagnostics.Pods.{Environment, Pod}
use sre_operator.Diagnostics.Logs.Filter.{filter_log_lines-take}

length-map {ℓ κ} :
    {A : Type ℓ} {B : Type κ} (f : A → B) (xs : List A) → length (map f xs) ≡ length xs
length-map f [] = refl
length-map f (x ∷ xs) = ap suc (length-map f xs)

mem-append_split {ℓ} :
    {A : Type ℓ} {a : A} (xs : List A) {ys : List A} → Memᴰ a (xs ++ ys) → Memᴰ a xs ⊎ Memᴰ a ys
mem-append_split [] m = inr m
mem-append_split (x ∷ xs) (Memᴰ.head e) = inl (Memᴰ.head e)
mem-append_split (x ∷ xs) (Memᴰ.tail m) = elim (mem-append_split xs m) [
  | inl l ↦ inl (Memᴰ.tail l)
  | inr r ↦ inr r
]

module _ (env : Environment) where
  length-filter_log_lines :
      (bytes : Text) (pod : Pod) (container : Text) (spec : LogCollectionSpec)
      → length (filter_log_lines env bytes pod container spec) ≤ 50
  length-filter_log_lines bytes pod container spec =
      let matching =
        select (λ l. matches_any_pattern env l (all_patterns env spec)) (scan_lines bytes) in
      omega (
        arith,
        ap length (filter_log_lines-take env bytes pod container spec),
        length-map (log_entry env pod container) (take 50 matching),
        length-take 50 matching,
      )

  length-container_entries :
      (pod : Pod) (spec : LogCollectionSpec) (c : Text)
      → length (container_entries env pod spec c) ≤ 50
  unfolding container_entries
  length-container_entries pod spec c =
      elim (Option-cases (
        env.stream pod (record {
          container = c;
          tail_lines = tail_lines spec;
          since_seconds = since_seconds spec;
        }))) [
          | inl e ↦ rw (e, container_entries) (omega arith)
          | inr (bytes, e) ↦ rw (e, container_entries) (length-filter_log_lines bytes pod c spec)
        ]

  length-entries_of :
      (pod : Pod) (spec : LogCollectionSpec) (cs : List Text)
      → length (entries_of env pod spec cs) ≤ 50 * length cs
  unfolding entries_of
  length-entries_of pod spec [] = omega arith
  length-entries_of pod spec (c ∷ cs) = omega (
    arith,
    length-append (container_entries env pod spec c) (entries_of env pod spec cs),
    length-container_entries pod spec c,
    length-entries_of pod spec cs,
  )

  -- The containers that the entries name.
  filter_log_lines-names :
      (bytes : Text) (pod : Pod) (container : Text) (spec : LogCollectionSpec)
      → All (λ e. e.container_name ≡ container) (filter_log_lines env bytes pod container spec)
  filter_log_lines-names bytes pod container spec =
      rw (filter_log_lines-take env bytes pod container spec) (
        entries-names pod container (
          take 50
            (select (λ l. matches_any_pattern env l (all_patterns env spec)) (scan_lines bytes))))
    where
      entries-names :
          (p : Pod) (c : Text) (ls : List Text)
          → All (λ e. e.container_name ≡ c) (map (log_entry env p c) ls)
      entries-names p c [] = tt
      entries-names p c (l ∷ ls) = (unfold log_entry in refl, entries-names p c ls)

  container_entries-names :
      (pod : Pod) (spec : LogCollectionSpec) (c : Text)
      → All (λ e. e.container_name ≡ c) (container_entries env pod spec c)
  unfolding container_entries
  container_entries-names pod spec c =
      elim (Option-cases (
        env.stream pod (record {
          container = c;
          tail_lines = tail_lines spec;
          since_seconds = since_seconds spec;
        }))) [
          | inl e ↦ rw (e, container_entries) tt
          | inr (bytes, e) ↦ rw (e, container_entries) (filter_log_lines-names bytes pod c spec)
        ]

  entries_of-names :
      (pod : Pod) (spec : LogCollectionSpec) (cs : List Text)
      → All (λ e. Memᴰ e.container_name cs) (entries_of env pod spec cs)
  unfolding entries_of
  entries_of-names pod spec [] = tt
  entries_of-names pod spec (c ∷ cs) =
      All-append _ (container_entries env pod spec c) (entries_of env pod spec cs)
        (All-map (container_entries env pod spec c) (λ e h. Memᴰ.head h)
          (container_entries-names pod spec c))
        (All-map (entries_of env pod spec cs) (λ e m. Memᴰ.tail m) (entries_of-names pod spec cs))

  length-log_containers :
      (pod : Pod)
      → length (log_containers pod)
        ≡ length pod.containers
          + (if pod.phase == str "Failed" then length pod.init_containers else 0)
  unfolding log_containers
  length-log_containers pod = elim (Bool-cases (pod.phase == str "Failed")) [
    | inl e ↦ rw e (length-append pod.containers pod.init_containers)
    | inr e ↦ rw e (omega arith)
  ]

  -- A container that logs are taken from.
  abbrev pub Logged : Pod → Text → Type 0
  Logged pod c = Memᴰ c pod.containers ⊎ ((pod.phase ≡ str "Failed") × Memᴰ c pod.init_containers)

  mem-log_containers : (pod : Pod) (c : Text) → Memᴰ c (log_containers pod) → Logged pod c
  unfolding log_containers
  mem-log_containers pod c m = elim (Bool-cases (pod.phase == str "Failed")) [
    | inl e ↦ elim (mem-append_split pod.containers (subst (Memᴰ c) (rw e refl) m)) [
      | inl own ↦ inl own
      | inr init ↦ inr (eq_sound pod.phase (str "Failed") e, init)
    ]
    | inr e ↦ inl (subst (Memᴰ c) (rw e refl) m)
  ]

  -- A pod gives at most 50 entries for each of its containers and, if it has failed, for each of its
  -- init containers. Each entry names a container of the pod or, if the pod has failed, an init
  -- container.
  pub collect_pod_logs_bounds :
      (pod : Pod) (spec : LogCollectionSpec)
      → let entries = (collect_pod_logs env pod spec).0 in
        (length entries
          ≤ 50
            * (length pod.containers
                + (if pod.phase == str "Failed" then length pod.init_containers else 0)))
        × All (λ e. Logged pod e.container_name) entries
  unfolding collect_pod_logs
  collect_pod_logs_bounds pod spec = (
    rw (← length-log_containers pod) (length-entries_of pod spec (log_containers pod)),
    All-map (entries_of env pod spec (log_containers pod))
        (λ e m. mem-log_containers pod e.container_name m)
        (entries_of-names pod spec (log_containers pod)),
  )
