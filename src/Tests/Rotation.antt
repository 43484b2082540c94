-- ===== src/Tests/Rotation.antt =====
-- Examples for `rotateConfigMaps` of internal/controller/srepolicy_controller.go.
use mathlib.Core.List.Perm
use mathlib.Core.List.{Perm}
use sre_operator.Common.{◌≡◌, refl, none, some, List, [], ◌∷◌, str, leb, if◌then◌else◌}
use sre_operator.Controller.Rotation.{ConfigMap, ConfigMaps, rotate_items, rotate_config_maps}
use sre_operator.Diagnostics.Lines.{split}

abbrev report : ConfigMap
report = record { name = str "report"; creation_timestamp = 3 }

abbrev older : ConfigMap
older = record { name = str "older"; creation_timestamp = 1 }

insert : ConfigMap → List ConfigMap → List ConfigMap
insert c [] = c ∷ []
insert c (d ∷ ds) =
    let rest = insert c ds in
    if leb c.creation_timestamp d.creation_timestamp then c ∷ d ∷ ds else d ∷ rest

pub by_time : List ConfigMap → List ConfigMap
by_time [] = []
by_time (c ∷ cs) = insert c (by_time cs)

-- An API server that has two reports.
abbrev pub reports : ConfigMaps
reports = record {
  list = λ namespace labels. some (report ∷ older ∷ []);
  delete = λ cm. none;
  oldest_first = by_time;
}

-- The older one goes.
rotate-older : rotate_config_maps reports (str "default") (str "app=sre") 1 ≡ (older, none) ∷ []
unfolding rotate_config_maps rotate_items by_time insert split str
rotate-older = refl
