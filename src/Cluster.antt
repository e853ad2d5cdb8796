-- ===== src/Cluster.antt =====
-- api/v1beta1/rabbitmqcluster_types.go and api/v1beta1/rabbitmqcluster_status.go: the custom resource
-- with the fields that the controllers read or write, its predicates and the names of its children.
-- `*int32` replicas, which the API server defaults to 1, are numbers; a quantity of storage is a
-- number of bytes; an instant is a number of seconds; `nil` for a pointer or a slice is `none`.
mod Conditions
mod Override
unfoldable pub use Conditions.*
pub use Override.*
use rabbitmq_operator.Prelude.{
  ℕ, String, Bool, true, false, not, ◌&&◌, ◌||◌, Option, none, some, List, [], ◌∷◌, Map, lookup,
  ◌==◌, ◌<>◌, trim_suffix, itoa, eqb, if◌then◌else◌, join_with,
}

pub record TlsSpec : Type 0 where
  pub secret_name : String
  pub ca_secret_name : String
  pub disable_non_tls_listeners : Bool

pub record ConfigurationSpec : Type 0 where
  pub advanced_config : String
  pub env_config : String
  pub additional_config : String
  pub erlang_inet_config : String
  pub additional_plugins : List String

pub record VaultTlsSpec : Type 0 where
  pub pki_issuer_path : String
  pub common_name : String
  pub alt_names : String
  pub ip_sans : String
  pub pki_root_path : String

pub record VaultSpec : Type 0 where
  pub role : String
  pub annotations : Map String
  pub default_user_path : String
  pub default_user_updater_image : Option String
  pub tls : VaultTlsSpec

pub record SecretBackend : Type 0 where
  pub vault : Option VaultSpec
  pub external_secret : String

pub record ServiceSpec : Type 0 where
  pub service_type : String
  pub annotations : Map String

pub record PersistenceSpec : Type 0 where
  pub storage : ℕ
  pub storage_class_name : Option String

pub record ClusterSpec : Type 0 where
  pub disable : Bool
  pub replicas : ℕ
  pub tls : TlsSpec
  pub rabbitmq : ConfigurationSpec
  pub image : String
  pub image_pull_secrets : Option (List String)
  pub affinity : Option String
  pub tolerations : List String
  pub resources : ResourceRequirements
  pub memory_limit : Option ℕ
  pub service : ServiceSpec
  pub persistence : PersistenceSpec
  pub secret_backend : SecretBackend
  pub override : OverrideSpec
  pub delay_start_seconds : Option ℕ
  pub skip_post_deploy_steps : Bool
  pub termination_grace_period_seconds : ℕ

pub record SecretReference : Type 0 where
  pub name : String
  pub namespace : String
  pub keys : Map String

pub record ServiceReference : Type 0 where
  pub name : String
  pub namespace : String

pub record DefaultUser : Type 0 where
  pub secret_reference : Option SecretReference
  pub service_reference : Option ServiceReference

pub record ClusterStatus : Type 0 where
  pub replicas : ℕ
  pub conditions : List Condition
  pub default_user : Option DefaultUser
  pub binding : Option String
  pub observed_generation : ℕ

pub record RabbitmqCluster : Type 0 where
  pub name : String
  pub namespace : String
  pub uid : String
  pub generation : ℕ
  pub labels : Map String
  pub annotations : Map String
  pub finalizers : List String
  pub deletion_timestamp : Option ℕ
  pub spec : ClusterSpec
  pub status : ClusterStatus

unfoldable pub vault_spec_tls_enabled : VaultSpec → Bool
vault_spec_tls_enabled spec = not (spec.tls.pki_issuer_path == "")

unfoldable pub root_ca_enabled : VaultSpec → Bool
root_ca_enabled spec = not (spec.tls.pki_root_path == "")

unfoldable pub default_user_secret_enabled : VaultSpec → Bool
default_user_secret_enabled spec = not (spec.default_user_path == "")

-- `p == plugin` on some plugin of the list.
unfoldable pub plugin_in : String → List String → Bool
plugin_in plugin [] = false
plugin_in plugin (p ∷ plugins) =
    let rest = plugin_in plugin plugins in if p == plugin then true else rest

module _ (cluster : RabbitmqCluster) where
  unfoldable pub service_sub_domain : String
  service_sub_domain = cluster.name <> "." <> cluster.namespace <> ".svc"

  unfoldable pub child_resource_name : String → String
  unfolding trim_suffix
  child_resource_name name = trim_suffix "-" (join_with "-" (cluster.name ∷ name ∷ []))

  unfoldable pub statefulset_name : String → ℕ → String
  unfolding child_resource_name trim_suffix itoa
  statefulset_name name replica =
      trim_suffix "-" (join_with "-" (child_resource_name name ∷ itoa replica ∷ []))

  unfoldable pub pod_name : String → ℕ → String
  unfolding statefulset_name trim_suffix
  pod_name name replica = trim_suffix "-" (join_with "-" (statefulset_name name replica ∷ "0" ∷ []))

  unfoldable pub pvc_name : String → ℕ → String → String
  unfolding pod_name
  pvc_name name replica pvc = join_with "-" (pvc ∷ pod_name name replica ∷ [])

  -- A limit that is missing has the value zero.
  unfoldable pub memory_limited : Bool
  memory_limited = elim cluster.spec.memory_limit [ none ↦ false | some m ↦ not (eqb m 0) ]

  unfoldable pub additional_plugin_enabled : String → Bool
  unfolding plugin_in
  additional_plugin_enabled plugin = plugin_in plugin cluster.spec.rabbitmq.additional_plugins

  unfoldable pub stream_needed : Bool
  unfolding additional_plugin_enabled
  stream_needed =
      additional_plugin_enabled "rabbitmq_stream"
      || additional_plugin_enabled "rabbitmq_stream_management"
      || additional_plugin_enabled "rabbitmq_multi_dc_replication"

  unfoldable pub secret_tls_enabled : Bool
  secret_tls_enabled = not (cluster.spec.tls.secret_name == "")

  unfoldable pub vault_enabled : Bool
  vault_enabled = elim cluster.spec.secret_backend.vault [ none ↦ false | some _ ↦ true ]

  unfoldable pub vault_tls_enabled : Bool
  unfolding vault_spec_tls_enabled
  vault_tls_enabled = elim cluster.spec.secret_backend.vault [
    | none ↦ false
    | some v ↦ vault_spec_tls_enabled v
  ]

  unfoldable pub vault_default_user_secret_enabled : Bool
  unfolding default_user_secret_enabled
  vault_default_user_secret_enabled = elim cluster.spec.secret_backend.vault [
    | none ↦ false
    | some v ↦ default_user_secret_enabled v
  ]

  unfoldable pub external_secret_enabled : Bool
  external_secret_enabled = not (cluster.spec.secret_backend.external_secret == "")

  unfoldable pub tls_enabled : Bool
  unfolding secret_tls_enabled vault_tls_enabled
  tls_enabled = secret_tls_enabled || vault_tls_enabled

  unfoldable pub disable_non_tls_listeners : Bool
  disable_non_tls_listeners = cluster.spec.tls.disable_non_tls_listeners

  unfoldable pub mutual_tls_enabled : Bool
  unfolding secret_tls_enabled vault_tls_enabled
  mutual_tls_enabled =
      (secret_tls_enabled && not (cluster.spec.tls.ca_secret_name == "")) || vault_tls_enabled

  unfoldable pub single_tls_secret : Bool
  unfolding mutual_tls_enabled
  single_tls_secret =
      mutual_tls_enabled && cluster.spec.tls.ca_secret_name == cluster.spec.tls.secret_name
