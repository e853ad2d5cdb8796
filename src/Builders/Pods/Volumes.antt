-- ===== src/Builders/Pods/Volumes.antt =====
-- The volumes of the pods in internal/resource/statefulset.go, and their merge of
-- internal/resource/utils.go.
use rabbitmq_operator.Prelude.{
  String, Bool, true, not, ◌&&◌, ◌||◌, none, some, List, [], ◌∷◌, ◌++◌, eqb, ◌==◌, if◌then◌else◌,
}
use rabbitmq_operator.Cluster.{
  RabbitmqCluster, child_resource_name, mutual_tls_enabled, single_tls_secret, secret_tls_enabled,
  vault_default_user_secret_enabled, external_secret_enabled,
}
use rabbitmq_operator.Merge.{merge_by}
use rabbitmq_operator.Builders.Pods.{
  VolumeMount, Volume, secret_projection, config_map_projection, empty_dir, config_map_source,
  secret_source, projected, downward_api,
}

abbrev pub volume_name : Volume → String
volume_name volume = volume.name

unfoldable pub update_volume : Volume → Volume → Volume
update_volume curr next = record curr { source = next.source }

unfoldable pub merge_volumes : List Volume → List Volume → List Volume
unfolding merge_by update_volume
merge_volumes = merge_by volume_name update_volume

abbrev mount_name : VolumeMount → String
mount_name mount = mount.name

unfoldable update_volume_mount : VolumeMount → VolumeMount → VolumeMount
update_volume_mount curr next = next

-- Without a caller in the source.
unfoldable merge_volume_mounts : List VolumeMount → List VolumeMount → List VolumeMount
unfolding merge_by update_volume_mount
merge_volume_mounts = merge_by mount_name update_volume_mount

abbrev pub volume_if : Bool → Volume → List Volume
volume_if test volume = if test then volume ∷ [] else []

abbrev pub persistence_volume : Volume
persistence_volume = record { name = "persistence"; source = empty_dir }

module _ (cluster : RabbitmqCluster) where
  unfoldable pub volume_tls : Volume
  unfolding mutual_tls_enabled single_tls_secret
  volume_tls = record {
    name = "rabbitmq-tls";
    source =
        projected
          (secret_projection cluster.spec.tls.secret_name (some true) []
            ∷ (if mutual_tls_enabled cluster && not (single_tls_secret cluster)
                then secret_projection cluster.spec.tls.ca_secret_name (some true) [] ∷ []
                else []))
          400;
  }

  unfoldable pub volume_confd : Volume
  unfolding child_resource_name vault_default_user_secret_enabled external_secret_enabled
  volume_confd = record {
    name = "rabbitmq-confd";
    source =
        projected
          (config_map_projection (child_resource_name cluster "server-conf")
              ("operatorDefaults.conf" ∷ "userDefinedConfiguration.conf" ∷ [])
            ∷ (if not (vault_default_user_secret_enabled cluster)
                then secret_projection
                    (if external_secret_enabled cluster
                      then cluster.spec.secret_backend.external_secret
                      else child_resource_name cluster "default-user")
                    none ("default_user.conf" ∷ [])
                  ∷ []
                else []))
          493;
  }

  unfoldable pub rabbitmq_configuration_is_set : Bool
  rabbitmq_configuration_is_set =
      not (cluster.spec.rabbitmq.advanced_config == "")
      || not (cluster.spec.rabbitmq.env_config == "")
      || not (cluster.spec.rabbitmq.erlang_inet_config == "")

  unfoldable pub fixed_volumes : List Volume
  unfolding volume_confd child_resource_name
  fixed_volumes =
      volume_confd
      ∷ record { name = "rabbitmq-log"; source = empty_dir }
      ∷ record { name = "rabbitmq-plugins"; source = empty_dir }
      ∷ record {
        name = "plugins-conf";
        source = config_map_source (child_resource_name cluster "plugins-conf") (some 493);
      }
      ∷ record { name = "rabbitmq-erlang-cookie"; source = empty_dir }
      ∷ record {
        name = "erlang-cookie-secret";
        source = secret_source (child_resource_name cluster "erlang-cookie") (some 493);
      }
      ∷ record {
        name = "pod-info";
        source = downward_api "skipPreStopChecks" "metadata.labels['skipPreStopChecks']" 493;
      }
      ∷ []

  unfoldable pub server_conf_volume : Volume
  unfolding child_resource_name
  server_conf_volume = record {
    name = "server-conf";
    source = config_map_source (child_resource_name cluster "server-conf") none;
  }

  -- The volumes that `volumes` merges into the current ones.
  unfoldable pub next_volumes : List Volume
  unfolding fixed_volumes server_conf_volume volume_tls secret_tls_enabled
      rabbitmq_configuration_is_set
  next_volumes =
      fixed_volumes
      ++ (volume_if (secret_tls_enabled cluster) volume_tls
          ++ (volume_if (eqb cluster.spec.persistence.storage 0) persistence_volume
              ++ volume_if rabbitmq_configuration_is_set server_conf_volume))

  unfoldable pub volumes : List Volume → List Volume
  unfolding merge_volumes next_volumes
  volumes curr = merge_volumes curr next_volumes
