-- ===== src/Cluster/Override.antt =====
-- The resources and the overrides of api/v1beta1/rabbitmqcluster_types.go. The specs of services and pods and the
-- update strategy are values of Kubernetes: a text here, which only the libraries read, with the parts
-- that the operator looks at beside it.
use rabbitmq_operator.Prelude.{ℕ, String, Bool, Option, List, Map}

-- `corev1.ResourceRequirements`: quantities as texts.
pub record ResourceRequirements : Type 0 where
  pub limits : Map String
  pub requests : Map String

pub record EmbeddedLabelsAnnotations : Type 0 where
  pub labels : Option (Map String)
  pub annotations : Option (Map String)

pub record EmbeddedObjectMeta : Type 0 where
  pub name : String
  pub labels : Option (Map String)
  pub annotations : Option (Map String)

pub record ServiceOverride : Type 0 where
  pub spec : Option String
  pub metadata : Option EmbeddedLabelsAnnotations

-- A container of an overriding pod spec: whether it lists variables and mounts, and whether its
-- security context is set and empty.
pub record ContainerOverride : Type 0 where
  pub name : String
  pub has_env : Bool
  pub has_volume_mounts : Bool
  pub empty_security_context : Bool

pub record PodSpecOverride : Type 0 where
  pub spec : String
  pub containers : List ContainerOverride
  pub init_containers : List ContainerOverride
  pub empty_security_context : Bool

pub record PodTemplateOverride : Type 0 where
  pub metadata : Option EmbeddedObjectMeta
  pub spec : Option PodSpecOverride

-- `corev1.PersistentVolumeClaimSpec`, with the storage that it requests.
pub record ClaimSpec : Type 0 where
  pub storage : ℕ
  pub storage_class_name : Option String
  pub access_modes : List String

pub record ClaimOverride : Type 0 where
  pub metadata : EmbeddedObjectMeta
  pub spec : ClaimSpec

pub record StatefulSetSpecOverride : Type 0 where
  pub replicas : Option ℕ
  pub selector : Option (Map String)
  pub template : Option PodTemplateOverride
  pub volume_claim_templates : List ClaimOverride
  pub service_name : String
  pub pod_management_policy : String
  pub update_strategy : Option String
  pub min_ready_seconds : ℕ

pub record StatefulSetOverride : Type 0 where
  pub spec : Option StatefulSetSpecOverride
  pub metadata : Option EmbeddedLabelsAnnotations

pub record OverrideSpec : Type 0 where
  pub service : Option ServiceOverride
  pub statefulset : Option StatefulSetOverride
