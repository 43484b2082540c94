-- ===== src/Api/Copy.antt =====
-- The deep copies of api/v1alpha1/zz_generated.deepcopy.go and sreglobalconfig_types.go, which copy
-- the metadata and share all that the specification and the status point to. `ObjectMeta.DeepCopyInto`
-- is not code of the program: it is an argument. Of what a status points to, the conditions are kept
-- as a slice in memory: nothing else of it is written in place.
use sre_operator.Common.{Option, none, some, List, [], ◌∷◌}
use sre_operator.Api.Types.{Condition, SrePolicySpec, SrePolicyStatus, SrePolicy, ObjectMeta}
use sre_operator.Api.Global.{SreGlobalConfig}
use sre_operator.Api.Memory.{Slice, Heap, read}

-- A status in memory; the conditions of `others` are not looked at.
pub record StatusObject : Type 0 where
  pub conditions : Slice
  pub others : SrePolicyStatus

pub record PolicyObject : Type 0 where
  pub metadata : ObjectMeta
  pub spec : SrePolicySpec
  pub status : StatusObject

-- What a reader of the object sees.
abbrev pub status_view : Heap Condition → StatusObject → SrePolicyStatus
status_view h o = record o.others { conditions = read h o.conditions }

abbrev pub policy_view : Heap Condition → PolicyObject → SrePolicy
policy_view h o = record { metadata = o.metadata; spec = o.spec; status = status_view h o.status }

module _ (copy_meta : ObjectMeta → ObjectMeta) where
  -- `*out = *in`, and then the metadata.
  unfoldable pub deep_copy_into : PolicyObject → PolicyObject
  deep_copy_into o = record o { metadata = copy_meta o.metadata }

  -- `DeepCopy` and `DeepCopyObject`; `none` is nil.
  unfoldable pub deep_copy : Option PolicyObject → Option PolicyObject
  unfolding deep_copy_into
  deep_copy none = none
  deep_copy (some o) = some (deep_copy_into o)

  -- The same of `SREGlobalConfig`, none of whose parts is written in place.
  unfoldable pub global_deep_copy_into : SreGlobalConfig → SreGlobalConfig
  global_deep_copy_into g = record g {
    metadata = copy_meta g.metadata;
    spec = g.spec;
    status = g.status;
  }

  unfoldable pub global_deep_copy : Option SreGlobalConfig → Option SreGlobalConfig
  unfolding global_deep_copy_into
  global_deep_copy none = none
  global_deep_copy (some g) = some (global_deep_copy_into g)

-- `SREPolicyList` and `SREGlobalConfigList`; `none` is a nil slice.
pub record ObjectList {ℓ} (M A : Type ℓ) : Type ℓ where
  pub list_meta : M
  pub items : Option (List A)

-- The loop over the items of a list.
copy_items {ℓ} : {A : Type ℓ} → (A → A) → List A → List A
copy_items copy_item [] = []
copy_items copy_item (o ∷ os) = copy_item o ∷ copy_items copy_item os

copy_some_items {ℓ} : {A : Type ℓ} → (A → A) → Option (List A) → Option (List A)
unfolding copy_items
copy_some_items copy_item none = none
copy_some_items copy_item (some os) = some (copy_items copy_item os)

module _ {M : Type 0} (copy_list_meta : M → M) (copy_meta : ObjectMeta → ObjectMeta) where
  unfoldable pub deep_copy_list_into : ObjectList M PolicyObject → ObjectList M PolicyObject
  unfolding copy_some_items
  deep_copy_list_into list = record {
    list_meta = copy_list_meta list.list_meta;
    items = copy_some_items (deep_copy_into copy_meta) list.items;
  }

  unfoldable pub deep_copy_list :
      Option (ObjectList M PolicyObject) → Option (ObjectList M PolicyObject)
  unfolding deep_copy_list_into
  deep_copy_list none = none
  deep_copy_list (some list) = some (deep_copy_list_into list)

  unfoldable pub global_deep_copy_list_into :
      ObjectList M SreGlobalConfig → ObjectList M SreGlobalConfig
  unfolding copy_some_items
  global_deep_copy_list_into list = record {
    list_meta = copy_list_meta list.list_meta;
    items = copy_some_items (global_deep_copy_into copy_meta) list.items;
  }

  unfoldable pub global_deep_copy_list :
      Option (ObjectList M SreGlobalConfig) → Option (ObjectList M SreGlobalConfig)
  unfolding global_deep_copy_list_into
  global_deep_copy_list none = none
  global_deep_copy_list (some list) = some (global_deep_copy_list_into list)
