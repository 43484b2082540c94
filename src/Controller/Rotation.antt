-- ===== src/Controller/Rotation.antt =====
-- `rotateConfigMaps` of internal/controller/srepolicy_controller.go. The API server's answers and
-- `sort.Slice`, which leaves the order of equal times open, are arguments.
pub mod Kept
use sre_operator.Common.{
  ℕ, zero, suc, ◌-◌, ◌≤◌, Bool, true, false, Option, none, some, List, [], ◌∷◌, ◌++◌, Text, str,
  Dict, length, take, leb, if◌then◌else◌,
}
use sre_operator.Api.Types.{Time}
use sre_operator.Diagnostics.Lines.{split}

pub record ConfigMap : Type 0 where
  pub name : Text
  pub creation_timestamp : Time

pub record ConfigMaps : Type 0 where
  -- `List` in the policy's namespace with these labels; `none` is an error.
  pub list : Text → Dict Text → Option (List ConfigMap)
  -- The error of `Delete`, if it has one.
  pub delete : ConfigMap → Option Text
  pub oldest_first : List ConfigMap → List ConfigMap

-- A label selector "key=value", and no label for one of another form.
pub labels_of : Text × List Text → Dict Text
labels_of (key, []) = []
labels_of (key, value ∷ []) = (key, value) ∷ []
labels_of (key, value ∷ more ∷ rest) = []

-- The deletions that are tried, each with its error.
delete_all : (ConfigMap → Option Text) → List ConfigMap → List (ConfigMap × Option Text)
delete_all delete [] = []
delete_all delete (cm ∷ cms) = (cm, delete cm) ∷ delete_all delete cms

unfoldable pub rotate_items : ConfigMaps → List ConfigMap → ℕ → List (ConfigMap × Option Text)
unfolding delete_all
rotate_items api items max_copies =
    if leb (length items) max_copies
    then []
    else delete_all api.delete (take (length items - max_copies) (api.oldest_first items))

unfoldable pub rotate_config_maps :
    ConfigMaps → (namespace label_selector : Text) → ℕ → List (ConfigMap × Option Text)
rotate_config_maps api namespace label_selector max_copies =
    elim (api.list namespace (labels_of (split b'=' label_selector))) [
      | none ↦ []
      | some items ↦ rotate_items api items max_copies
    ]
