-- ===== src/Diagnostics/Report/Results.antt =====
-- The findings that `ToCheckResults` makes of a collection of logs.
use sre_operator.Common.{
  zero, suc, ◌≡◌, ◌∙◌, refl, sym, any, ap, Bool, true, false, List, [], ◌∷◌, ◌++◌, map, Text, ◌==◌,
  eq_sound, Dict, put, find_or, find_or-put, if◌then◌else◌, arith, Bool-cases, inl, inr, count, All,
  Memᴰ,
}
use sre_operator.Api.Types.{Time}
use sre_operator.Diagnostics.Pods.{PodLogEntry, LogCollection}
use sre_operator.Diagnostics.Report.{
  entry_key, entry_result, error_result, results_from, error_results, to_check_results,
}

abbrev pub entry_keys : List PodLogEntry → List Text
entry_keys [] = []
entry_keys (e ∷ es) = entry_key e ∷ entry_keys es

-- A choice of entries: one for each key, in the order of the entries.
pub record IsChosen (seen : Text → Bool) (entries chosen : List PodLogEntry) : Type 0 where
  pub once :
      (k : Text)
      → count k (entry_keys chosen)
        ≡ (if seen k then 0 else (elim (count k (entry_keys entries)) [ zero ↦ 0 | suc n ↦ 1 ]))

chosen : (Text → Bool) → List PodLogEntry → List PodLogEntry
chosen seen [] = []
chosen seen (e ∷ es) =
    let skipped = chosen seen es in
    let rest = e ∷ chosen (λ k. if entry_key e == k then true else seen k) es in
    if seen (entry_key e) then skipped else rest

chosen-IsChosen : (seen : Text → Bool) (es : List PodLogEntry) → IsChosen seen es (chosen seen es)
unfolding chosen
chosen-IsChosen seen [] = record { once = λ k. ground arith }
chosen-IsChosen seen (e ∷ es) = elim (Bool-cases (seen (entry_key e))) [
  | inl old ↦
      let rest = chosen-IsChosen seen es in
      rw old (record {
        once = λ k. elim (Bool-cases (entry_key e == k)) [
          | inl same ↦
              rw same (ground (arith, rest.once k, ap seen (eq_sound (entry_key e) k same)))
          | inr other ↦ rw other (rest.once k)
        ];
      })
  | inr new ↦
      let rest = chosen-IsChosen (λ k. if entry_key e == k then true else seen k) es in
      rw new (record {
        once = λ k. elim (Bool-cases (entry_key e == k)) [
          | inl same ↦
              rw same (ground (arith, rest.once k, ap seen (eq_sound (entry_key e) k same)))
          | inr other ↦ rw other (ground (arith, rest.once k))
        ];
      })
]

chosen-All :
    (P : PodLogEntry → Type 0) (seen : Text → Bool) (es : List PodLogEntry)
    → ((e : PodLogEntry) → Memᴰ e es → P e)
    → All P (chosen seen es)
unfolding chosen
chosen-All P seen [] h = tt
chosen-All P seen (e ∷ es) h = elim (Bool-cases (seen (entry_key e))) [
  | inl old ↦ rw old (chosen-All P seen es (λ u m. h u (Memᴰ.tail m)))
  | inr new ↦ rw new (
    h e (Memᴰ.head refl),
    chosen-All P (λ k. if entry_key e == k then true else seen k) es (λ u m. h u (Memᴰ.tail m)),
  )
]

results_from-chosen :
    (check_name : Text) (now : Time) (m : Dict Bool) (seen : Text → Bool) (es : List PodLogEntry)
    → ((k : Text) → find_or false k m ≡ seen k)
    → results_from check_name now m es ≡ map (entry_result check_name now) (chosen seen es)
unfolding results_from chosen
results_from-chosen check_name now m seen [] h = refl
results_from-chosen check_name now m seen (e ∷ es) h = elim (Bool-cases (seen (entry_key e))) [
  | inl old ↦ rw (h (entry_key e), old) (results_from-chosen check_name now m seen es h)
  | inr new ↦
      rw (h (entry_key e), new)
        (ap (λ l. entry_result check_name now e ∷ l)
          (results_from-chosen check_name now (put (entry_key e) true m)
            (λ k. if entry_key e == k then true else seen k) es
            (λ k. ground (arith, find_or-put false (entry_key e) k true m, h k))))
]

error_results-map :
    (check_name : Text) (now : Time) (errs : List Text)
    → error_results check_name now errs ≡ map (error_result check_name now) errs
unfolding error_results
error_results-map check_name now [] = refl
error_results-map check_name now (e ∷ es) =
    ap (λ l. error_result check_name now e ∷ l) (error_results-map check_name now es)

-- The entries with a key that no entry before them has.
pub first_entries : (earlier : List PodLogEntry) → List PodLogEntry → List PodLogEntry
first_entries earlier [] = []
first_entries earlier (e ∷ es) =
    let rest = first_entries (e ∷ earlier) es in
    if any (λ u. entry_key u == entry_key e) earlier then rest else e ∷ rest

chosen-first :
    (seen : Text → Bool) (earlier es : List PodLogEntry)
    → ((k : Text) → seen k ≡ any (λ u. entry_key u == k) earlier)
    → chosen seen es ≡ first_entries earlier es
unfolding chosen first_entries
chosen-first seen earlier [] h = refl
chosen-first seen earlier (e ∷ es) h = elim (Bool-cases (seen (entry_key e))) [
  | inl old ↦
      rw (old, sym (h (entry_key e)), old)
        (chosen-first seen (e ∷ earlier) es (λ k. elim (Bool-cases (entry_key e == k)) [
          | inl same ↦ rw same (sym (ap seen (eq_sound (entry_key e) k same)) ∙ old)
          | inr other ↦ rw other (h k)
        ]))
  | inr new ↦
      rw (new, sym (h (entry_key e)), new)
        (ap (λ l. e ∷ l)
          (chosen-first (λ k. if entry_key e == k then true else seen k) (e ∷ earlier) es
            (λ k. rw (h k) refl)))
]

-- The findings of a collection are those of its entries, of the VM pods first and then of the
-- operators, in their order, followed by one for each error. Of the entries of one key, that is of one
-- container and the same first 80 bytes of the line, exactly the first is taken.
pub to_check_results-once :
    (now : Time) (check_name : Text) (c : LogCollection)
    → let entries = c.vm_pod_logs ++ c.operator_logs in
      let taken = first_entries [] entries in
      (to_check_results now check_name c
        ≡ map (entry_result check_name now) taken ++ map (error_result check_name now) c.errors)
      × All (λ e. Memᴰ e entries) taken
      × ((k : Text)
          → count k (entry_keys taken)
            ≡ (elim (count k (entry_keys entries)) [ zero ↦ 0 | suc n ↦ 1 ]))
unfolding to_check_results
to_check_results-once now check_name c =
    let entries = c.vm_pod_logs ++ c.operator_logs in
    let first : chosen (λ _. false) entries ≡ first_entries [] entries =
      chosen-first (λ _. false) [] entries (λ k. refl) in
    rw (← first) (
      rw (
        results_from-chosen check_name now [] (λ _. false) entries (λ k. unfold find_or in refl),
        error_results-map check_name now c.errors,
      ),
      chosen-All _ (λ _. false) entries (λ e m. m),
      (chosen-IsChosen (λ _. false) entries).once,
    )
