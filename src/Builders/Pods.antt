-- ===== src/Builders/Pods.antt =====
-- The parts of the pods that internal/resource/statefulset.go builds: data of Kubernetes with the fields
-- that the operator sets.
pub mod Volumes
pub mod Containers
pub mod Vault
pub mod Order
pub mod Mounts
use rabbitmq_operator.Prelude.{ℕ, String, Bool, Option, none, List, []}
use rabbitmq_operator.Cluster.{ResourceRequirements, ClaimSpec}
use rabbitmq_operator.Metadata.{Labels}
use rabbitmq_operator.Builders.Meta.{ObjectMeta}

-- A value, or the path of a field of the pod.
pub data EnvSource : Type 0 where
  value field_ref : String → EnvSource

pub record EnvVar : Type 0 where
  pub name : String
  pub source : EnvSource

pub record VolumeMount : Type 0 where
  pub name : String
  pub mount_path : String
  pub sub_path : String
  pub read_only : Bool

-- One source of a projected volume; the items are keys that keep their names as paths.
pub data Projection : Type 0 where
  secret_projection : String → Option Bool → List String → Projection
  config_map_projection : String → List String → Projection

-- The sources of volumes, each with its default mode where it has one.
pub data VolumeSource : Type 0 where
  empty_dir : VolumeSource
  config_map_source secret_source : String → Option ℕ → VolumeSource
  projected : List Projection → ℕ → VolumeSource
  downward_api : String → String → ℕ → VolumeSource

pub record Volume : Type 0 where
  pub name : String
  pub source : VolumeSource

pub record ContainerPort : Type 0 where
  pub name : String
  pub container_port : ℕ
  pub protocol : String

-- A probe of a TCP port by its name.
pub record TcpProbe : Type 0 where
  pub port : String
  pub initial_delay_seconds : ℕ
  pub timeout_seconds : ℕ
  pub period_seconds : ℕ
  pub success_threshold : ℕ
  pub failure_threshold : ℕ

pub record PodContainer : Type 0 where
  pub name : String
  pub image : String
  pub command : List String
  pub args : List String
  pub env : List EnvVar
  pub ports : List ContainerPort
  pub resources : ResourceRequirements
  pub volume_mounts : List VolumeMount
  pub readiness_probe : Option TcpProbe
  pub pre_stop : List String
  pub image_pull_policy : String
  pub termination_message_path : String
  pub termination_message_policy : String
  pub security_context : Option String

pub record TopologySpreadConstraint : Type 0 where
  pub max_skew : ℕ
  pub topology_key : String
  pub when_unsatisfiable : String
  pub match_labels : Labels

pub record PodSecurityContext : Type 0 where
  pub fs_group : ℕ
  pub run_as_user : ℕ

pub record PodSettings : Type 0 where
  pub volumes : List Volume
  pub containers : List PodContainer
  pub init_containers : List PodContainer
  pub affinity : Option String
  pub tolerations : List String
  pub topology_spread_constraints : List TopologySpreadConstraint
  pub image_pull_secrets : Option (List String)
  pub service_account_name : String
  pub automount_service_account_token : Option Bool
  pub termination_grace_period_seconds : Option ℕ
  pub security_context : Option PodSecurityContext

pub record PodTemplate : Type 0 where
  pub meta : ObjectMeta
  pub spec : PodSettings

pub record ClaimObject : Type 0 where
  pub meta : ObjectMeta
  pub spec : ClaimSpec
