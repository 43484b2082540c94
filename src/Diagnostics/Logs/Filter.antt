-- ===== src/Diagnostics/Logs/Filter.antt =====
-- `filterLogLines` against a declarative description.
use sre_operator.Common.{
  ℕ, zero, suc, ◌+◌, ◌≡◌, refl, ap, List, [], ◌∷◌, map, Text, take, select, arith, Bool-cases, inl,
  inr,
}
use sre_operator.Api.Types.{LogCollectionSpec}
use sre_operator.Diagnostics.Logs.{
  matches_any_pattern, all_patterns, log_entry, filter_loop, filter_log_lines, scan_lines,
}
use sre_operator.Diagnostics.Pods.{Environment, Pod, PodLogEntry}

module _ (env : Environment) where
  open env use {Regex}

  filter_loop-take :
      (patterns : List Regex) (pod : Pod) (container : Text) (k n : ℕ) (lines : List Text)
      → k + n ≡ 50
      → filter_loop env patterns pod container n lines
        ≡ map
            (log_entry env pod container)
            (take k (select (λ l. matches_any_pattern env l patterns) lines))
  unfolding filter_loop
  filter_loop-take patterns pod container k n [] e = nothing_left k
    where
      nothing_left :
          (j : ℕ) → ◌≡◌ {A = List PodLogEntry} [] (map (log_entry env pod container) (take j []))
      nothing_left zero = refl
      nothing_left (suc j) = refl
  filter_loop-take patterns pod container zero n (line ∷ lines) e = ground arith
  filter_loop-take patterns pod container (suc k) n (line ∷ lines) e =
      elim (Bool-cases (matches_any_pattern env line patterns)) [
        | inl m ↦ ground (
          arith,
          ap (λ l. log_entry env pod container line ∷ l)
              (filter_loop-take patterns pod container k (suc n) lines (omega arith)),
        )
        | inr m ↦ ground (arith, filter_loop-take patterns pod container (suc k) n lines e)
      ]

  -- The entries of a container are its first 50 lines that match one of the patterns, in their order
  -- and without their timestamps.
  pub filter_log_lines-take :
      (bytes : Text) (pod : Pod) (container : Text) (spec : LogCollectionSpec)
      → filter_log_lines env bytes pod container spec
        ≡ map (log_entry env pod container) (
            take 50
              (select (λ l. matches_any_pattern env l (all_patterns env spec)) (scan_lines bytes)))
  unfolding filter_log_lines
  filter_log_lines-take bytes pod container spec =
      filter_loop-take (all_patterns env spec) pod container 50 0 (scan_lines bytes) refl
