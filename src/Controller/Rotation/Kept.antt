-- ===== src/Controller/Rotation/Kept.antt =====
-- What `rotateConfigMaps` deletes and what it leaves.
use mathlib.Core.List.Perm
use mathlib.Core.List.{Perm}
use sre_operator.Common.{ℕ, ◌≤◌, ◌≡◌, min, Option, List, [], ◌∷◌, ◌++◌, Text, All, length}
use sre_operator.Controller.Rotation.{ConfigMap, ConfigMaps}

abbrev pub IsOldestFirst : List ConfigMap → Type 0
IsOldestFirst [] = Unit {0}
IsOldestFirst (c ∷ cs) =
    All (λ d. c.creation_timestamp ≤ d.creation_timestamp) cs × IsOldestFirst cs

-- What `sort.Slice` promises of the order by time.
pub record Sorts (api : ConfigMaps) : Type 0 where
  pub permutes : (l : List ConfigMap) → Perm (api.oldest_first l) l
  pub in_order : (l : List ConfigMap) → IsOldestFirst (api.oldest_first l)

abbrev pub attempted : List (ConfigMap × Option Text) → List ConfigMap
attempted [] = []
attempted ((cm, e) ∷ rest) = cm ∷ attempted rest

-- How the deletions of a rotation relate to the ConfigMaps that there are.
pub record IsRotation (items deleted kept : List ConfigMap) (max_copies : ℕ) : Type 0 where
  pub all_there : Perm (deleted ++ kept) items
  pub kept_count : length kept ≡ min max_copies (length items)
  pub oldest : All (λ d. All (λ k. d.creation_timestamp ≤ k.creation_timestamp) kept) deleted
