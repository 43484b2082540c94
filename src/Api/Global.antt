-- ===== src/Api/Global.antt =====
-- The structs of api/v1alpha1/sreglobalconfig_types.go.
use sre_operator.Common.{ℤ, Bool, Option, List, Text}
use sre_operator.Api.Types.{Condition, ObservabilitySpec, ObjectMeta}

pub record RetentionSpec : Type 0 where
  pub max_config_map_copies : ℤ
  pub max_config_map_age_days : ℤ

pub record DefaultsSpec : Type 0 where
  pub vm_namespace : Text
  pub excluded_namespaces : List Text

-- The two fields of `corev1.SecretKeySelector` that the program reads.
pub record SecretKeySelector : Type 0 where
  pub name : Text
  pub key : Text

pub record GlobalPrometheusSpec : Type 0 where
  pub prometheus_url : Text
  pub alert_manager_url : Text
  pub insecure_skip_verify : Bool
  pub bearer_token_secret_ref : Option SecretKeySelector

pub record SreGlobalConfigSpec : Type 0 where
  pub observability : Option ObservabilitySpec
  pub retention : Option RetentionSpec
  pub defaults : Option DefaultsSpec
  pub prometheus : Option GlobalPrometheusSpec

pub record SreGlobalConfigStatus : Type 0 where
  pub phase : Text
  pub conditions : List Condition

pub record SreGlobalConfig : Type 0 where
  pub metadata : ObjectMeta
  pub spec : SreGlobalConfigSpec
  pub status : SreGlobalConfigStatus
