-- ===== src/Builders/Pods/Containers.antt =====
-- The containers of the pods in internal/resource/statefulset.go, and their merge of
-- internal/resource/utils.go.
use rabbitmq_operator.Prelude.{
  String, Bool, true, false, not, Option, none, some, List, [], ◌∷◌, ◌++◌, map, Map, itoa, ◌==◌,
  ◌<>◌, if◌then◌else◌,
}
use rabbitmq_operator.Cluster.{
  RabbitmqCluster, child_resource_name, disable_non_tls_listeners, secret_tls_enabled, tls_enabled,
  vault_default_user_secret_enabled,
}
use rabbitmq_operator.Ports.{ServicePort, new_port_manager, rabbitmq_ports}
use rabbitmq_operator.Merge.{merge_by}
use rabbitmq_operator.Builders.Pods.{
  EnvVar, value, field_ref, VolumeMount, ContainerPort, PodContainer,
}

abbrev pub container_name : PodContainer → String
container_name container = container.name

unfoldable pub update_container : PodContainer → PodContainer → PodContainer
update_container curr next = next

unfoldable pub merge_containers : List PodContainer → List PodContainer → List PodContainer
unfolding merge_by update_container
merge_containers = merge_by container_name update_container

abbrev env_value : String → String → EnvVar
env_value name text = record { name = name; source = value text }

abbrev mount : String → String → VolumeMount
mount name path = record { name = name; mount_path = path; sub_path = ""; read_only = false }

abbrev pub mount_file : String → String → String → VolumeMount
mount_file name path sub_path = record {
  name = name;
  mount_path = path;
  sub_path = sub_path;
  read_only = false;
}

abbrev pub mount_if : Bool → VolumeMount → List VolumeMount
mount_if test m = if test then m ∷ [] else []

-- `if test { container.VolumeMounts = append(...) }`, one after the other.
unfoldable pub optional_mounts : List (Bool × VolumeMount) → List VolumeMount
optional_mounts [] = []
optional_mounts ((test, m) ∷ rest) =
    let others = optional_mounts rest in if test then m ∷ others else others

abbrev pub tls_mount : VolumeMount
tls_mount = record {
  name = "rabbitmq-tls";
  mount_path = "/etc/rabbitmq-tls/";
  sub_path = "";
  read_only = true;
}

abbrev cpu_and_memory : String → String → Map String
cpu_and_memory cpu memory = ("cpu", cpu) ∷ ("memory", memory) ∷ []

-- The entries of `ServicePort` that a container takes.
unfoldable pub container_port_of : ServicePort → ContainerPort
container_port_of port = record {
  name = port.name;
  container_port = port.port;
  protocol = port.protocol;
}

module _ (cluster : RabbitmqCluster) where
  unfoldable pub envs : List EnvVar
  unfolding child_resource_name
  envs =
      env_value "K8S_SERVICE_NAME" (child_resource_name cluster "nodes")
      ∷ record { name = "MY_POD_NAME"; source = field_ref "metadata.name" }
      ∷ record { name = "MY_POD_NAMESPACE"; source = field_ref "metadata.namespace" }
      ∷ []

  unfoldable pub setup_command : String
  unfolding vault_default_user_secret_enabled itoa
  setup_command =
      "cp /tmp/erlang-cookie-secret/.erlang.cookie /var/lib/rabbitmq/.erlang.cookie && chmod 600 /var/lib/rabbitmq/.erlang.cookie ; cp /tmp/rabbitmq-plugins/enabled_plugins /operator/enabled_plugins ; echo '[default]' > /var/lib/rabbitmq/.rabbitmqadmin.conf && sed -e 's/default_user/username/' -e 's/default_pass/password/' "
      <> (if vault_default_user_secret_enabled cluster
          then "/etc/rabbitmq/conf.d/11-default_user.conf"
          else "/tmp/default_user.conf")
      <> " >> /var/lib/rabbitmq/.rabbitmqadmin.conf && chmod 600 /var/lib/rabbitmq/.rabbitmqadmin.conf ; sleep "
      <> itoa (elim cluster.spec.delay_start_seconds [ none ↦ 30 | some n ↦ n ])

  unfoldable pub container_setup : PodContainer
  unfolding setup_command vault_default_user_secret_enabled
  container_setup = record {
    name = "setup-container";
    image = cluster.spec.image;
    command = "sh" ∷ "-c" ∷ setup_command ∷ [];
    args = [];
    env = [];
    ports = [];
    resources = record {
      limits = cpu_and_memory "100m" "500Mi";
      requests = cpu_and_memory "100m" "500Mi";
    };
    volume_mounts =
        (mount "persistence" "/var/lib/rabbitmq/mnesia/"
          ∷ mount "plugins-conf" "/tmp/rabbitmq-plugins/"
          ∷ mount "rabbitmq-plugins" "/operator/"
          ∷ mount "erlang-cookie-secret" "/tmp/erlang-cookie-secret/"
          ∷ mount "rabbitmq-erlang-cookie" "/var/lib/rabbitmq/"
          ∷ [])
        ++ mount_if (not (vault_default_user_secret_enabled cluster))
            (mount_file "rabbitmq-confd" "/tmp/default_user.conf" "default_user.conf");
    readiness_probe = none;
    pre_stop = [];
    image_pull_policy = "IfNotPresent";
    termination_message_path = "/dev/termination-log";
    termination_message_policy = "File";
    security_context = none;
  }

  unfoldable pub pre_stop_command : String
  unfolding itoa
  pre_stop_command =
      let seconds = itoa cluster.spec.termination_grace_period_seconds in
      "if [ ! -z \"$(cat /etc/pod-info/skipPreStopChecks)\" ]; then exit 0; fi; rabbitmq-upgrade await_online_quorum_plus_one -t "
      <> seconds <> " && rabbitmq-upgrade await_online_synchronized_mirror -t " <> seconds
      <> " && rabbitmq-upgrade drain -t " <> seconds

  -- The mounts behind the fixed ones, each with its condition.
  unfoldable pub rabbitmq_choices : List (Bool × VolumeMount)
  unfolding secret_tls_enabled vault_default_user_secret_enabled
  rabbitmq_choices =
      (secret_tls_enabled cluster, tls_mount)
      ∷ (
        not (vault_default_user_secret_enabled cluster),
        mount_file "rabbitmq-confd" "/etc/rabbitmq/conf.d/11-default_user.conf" "default_user.conf",
      )
      ∷ (
        not (cluster.spec.rabbitmq.env_config == ""),
        mount_file "server-conf" "/etc/rabbitmq/rabbitmq-env.conf" "rabbitmq-env.conf",
      )
      ∷ (
        not (cluster.spec.rabbitmq.advanced_config == ""),
        mount_file "server-conf" "/etc/rabbitmq/advanced.config" "advanced.config",
      )
      ∷ (
        not (cluster.spec.rabbitmq.erlang_inet_config == ""),
        mount_file "server-conf" "/etc/rabbitmq/erl_inetrc" "erl_inetrc",
      )
      ∷ []

  unfoldable pub rabbitmq_volume_mounts : List VolumeMount
  unfolding rabbitmq_choices optional_mounts
  rabbitmq_volume_mounts =
      (mount "pod-info" "/etc/pod-info/"
        ∷ mount "rabbitmq-log" "/var/log/rabbitmq/"
        ∷ mount "rabbitmq-plugins" "/operator/"
        ∷ mount "rabbitmq-erlang-cookie" "/var/lib/rabbitmq/"
        ∷ mount "persistence" "/var/lib/rabbitmq/mnesia/"
        ∷ mount_file "rabbitmq-confd" "/etc/rabbitmq/conf.d/10-operatorDefaults.conf"
            "operatorDefaults.conf"
        ∷ mount_file "rabbitmq-confd" "/etc/rabbitmq/conf.d/90-userDefinedConfiguration.conf"
            "userDefinedConfiguration.conf"
        ∷ [])
      ++ optional_mounts rabbitmq_choices

  unfoldable pub container_rabbitmq : PodContainer
  unfolding pre_stop_command rabbitmq_volume_mounts envs disable_non_tls_listeners container_port_of
      new_port_manager rabbitmq_ports
  container_rabbitmq = record {
    name = "rabbitmq";
    image = cluster.spec.image;
    command = [];
    args = [];
    env =
        envs
        ++ (env_value "RABBITMQ_ENABLED_PLUGINS_FILE" "/operator/enabled_plugins"
            ∷ env_value "RABBITMQ_USE_LONGNAME" "true"
            ∷ env_value "RABBITMQ_NODENAME"
                "rabbit@$(MY_POD_NAME).$(K8S_SERVICE_NAME).$(MY_POD_NAMESPACE)"
            ∷ env_value "K8S_HOSTNAME_SUFFIX" ".$(K8S_SERVICE_NAME).$(MY_POD_NAMESPACE)"
            ∷ []);
    ports = map container_port_of (rabbitmq_ports (new_port_manager cluster));
    resources = cluster.spec.resources;
    volume_mounts = rabbitmq_volume_mounts;
    readiness_probe = some (record {
      port = if disable_non_tls_listeners cluster then "amqps" else "amqp";
      initial_delay_seconds = 10;
      timeout_seconds = 5;
      period_seconds = 10;
      success_threshold = 1;
      failure_threshold = 3;
    });
    pre_stop = "/bin/bash" ∷ "-c" ∷ pre_stop_command ∷ [];
    image_pull_policy = "IfNotPresent";
    termination_message_path = "/dev/termination-log";
    termination_message_policy = "File";
    security_context = none;
  }

  -- Called with the image that is set and not empty.
  unfoldable pub container_user_credential_updater : String → PodContainer
  unfolding envs tls_enabled secret_tls_enabled
  container_user_credential_updater image = record {
    name = "default-user-credential-updater";
    image = image;
    command = [];
    args =
        "--management-uri"
        ∷ (if tls_enabled cluster
            then "https://$(HOSTNAME_DOMAIN):15671"
            else "http://127.0.0.1:15672")
        ∷ "-v"
        ∷ "4"
        ∷ [];
    env =
        envs
        ++ env_value "HOSTNAME_DOMAIN" "$(MY_POD_NAME).$(K8S_SERVICE_NAME).$(MY_POD_NAMESPACE)"
          ∷ [];
    ports = [];
    resources = record {
      limits = cpu_and_memory "500m" "128Mi";
      requests = cpu_and_memory "10m" "512Ki";
    };
    volume_mounts =
        mount "rabbitmq-erlang-cookie" "/var/lib/rabbitmq/"
        ∷ mount_if (secret_tls_enabled cluster) tls_mount;
    readiness_probe = none;
    pre_stop = [];
    image_pull_policy = "IfNotPresent";
    termination_message_path = "/dev/termination-log";
    termination_message_policy = "File";
    security_context = none;
  }

  -- The image of the container that updates the credentials, where there is one.
  unfoldable pub updater_image : Option String
  unfolding vault_default_user_secret_enabled
  updater_image =
      if not (vault_default_user_secret_enabled cluster)
      then none
      else elim cluster.spec.secret_backend.vault [
        | none ↦ none
        | some vault ↦ elim vault.default_user_updater_image [
          | none ↦ none
          | some image ↦ (if image == "" then none else some image)
        ]
      ]

  -- The containers that `containers` merges into the current ones.
  unfoldable pub next_containers : List PodContainer
  unfolding container_rabbitmq container_user_credential_updater updater_image
  next_containers =
      container_rabbitmq
      ∷ elim updater_image [ none ↦ [] | some image ↦ container_user_credential_updater image ∷ [] ]

  unfoldable pub containers : List PodContainer → List PodContainer
  unfolding merge_containers next_containers
  containers curr = merge_containers curr next_containers

  unfoldable pub init_containers : List PodContainer → List PodContainer
  unfolding merge_containers container_setup
  init_containers curr = merge_containers curr (container_setup ∷ [])
