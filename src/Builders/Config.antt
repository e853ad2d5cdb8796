-- ===== src/Builders/Config.antt =====
-- internal/resource/configmap.go: the configuration of the server and the test whether a change of it
-- requires a restart. The ini library is a parameter; the keys that are added to a section one after
-- the other are a list here, added in its order up to the first error.
pub mod Headroom
pub mod Listeners
pub mod Restart
pub mod Entries
pub mod Resize
pub mod Unchanged
use rabbitmq_operator.Prelude.{
  ℕ, ◌-◌, ◌*◌, ◌/◌, String, Bool, true, false, not, Option, none, some, List, [], ◌∷◌, ◌++◌, Map,
  insert, delete, text_at, starts_with, itoa, ltb, ◌==◌, if◌then◌else◌,
}
use rabbitmq_operator.Kube.{Outcome, ok, err}
use rabbitmq_operator.Cluster.{
  RabbitmqCluster, tls_enabled, disable_non_tls_listeners, additional_plugin_enabled,
  mutual_tls_enabled, memory_limited,
}
use rabbitmq_operator.Builders.Meta.{
  ObjectMeta, ◌>>=◌, wrap_error, SetControllerReference, child_meta, update_meta, with_controller,
}

pub record ConfigMapObject : Type 0 where
  pub meta : ObjectMeta
  pub entries : Map String

-- `gopkg.in/ini.v1`, on the default section of a file.
pub record Ini : Type 1 where
  pub File : Type 0
  pub empty : File
  pub load : String → Outcome File
  pub append : File → String → Outcome File
  pub new_key : File → String → String → Outcome File
  pub key_strings : File → List String
  pub delete_key : File → String → File
  pub write : File → Outcome String

abbrev pub Keys : Type 0
Keys = List (String × String)

abbrev pub operator_defaults : String
operator_defaults = "operatorDefaults.conf"

abbrev pub user_defined : String
user_defined = "userDefinedConfiguration.conf"

abbrev pub size_hint : String
size_hint = "cluster_formation.target_cluster_size_hint"

abbrev default_rabbitmq_conf : String
default_rabbitmq_conf =
    "\nlog.file = /var/log/rabbitmq/rabbitmq.log\nqueue_master_locator = min-masters\ndisk_free_limit.absolute = 2GB\ncluster_partition_handling = pause_minority\ncluster_formation.peer_discovery_backend = rabbit_peer_discovery_k8s\ncluster_formation.k8s.host = kubernetes.default\ncluster_formation.k8s.address_type = hostname"

abbrev default_tls_conf : String
default_tls_conf =
    "\nssl_options.certfile = /etc/rabbitmq-tls/tls.crt\nssl_options.keyfile = /etc/rabbitmq-tls/tls.key\nlisteners.ssl.default = 5671\n\nmanagement.ssl.certfile   = /etc/rabbitmq-tls/tls.crt\nmanagement.ssl.keyfile    = /etc/rabbitmq-tls/tls.key\nmanagement.ssl.port       = 15671\n\nprometheus.ssl.certfile  = /etc/rabbitmq-tls/tls.crt\nprometheus.ssl.keyfile   = /etc/rabbitmq-tls/tls.key\nprometheus.ssl.port      = 15691\n"

-- The limits that the API accepts are not negative.
unfoldable pub remove_headroom : ℕ → ℕ
remove_headroom mem_limit =
    if ltb (2 * 1073741824) (mem_limit / 5)
    then mem_limit - 2 * 1073741824
    else mem_limit - mem_limit / 5

-- `if test { NewKey(key, value) }`
abbrev pub key_if : Bool → String → String → Keys
key_if test key value = if test then (key, value) ∷ [] else []

abbrev pub auth_keys : Bool → Keys
auth_keys auth_mechs_configured =
    if not auth_mechs_configured
    then ("auth_mechanisms.1", "PLAIN") ∷ ("auth_mechanisms.2", "AMQPLAIN") ∷ []
    else []

module _ (cluster : RabbitmqCluster) where
  -- The keys behind the default configuration of the operator.
  unfoldable pub operator_keys : Keys
  operator_keys = (size_hint, itoa cluster.spec.replicas) ∷ ("cluster_name", cluster.name) ∷ []

  unfoldable pub plugin_tls_keys : String → String → String → String → Keys
  unfolding additional_plugin_enabled disable_non_tls_listeners
  plugin_tls_keys plugin tcp ssl port =
      if additional_plugin_enabled cluster plugin
      then key_if (disable_non_tls_listeners cluster) tcp "none" ++ (ssl, port) ∷ []
      else []

  unfoldable pub tls_keys : Keys
  unfolding plugin_tls_keys disable_non_tls_listeners
  tls_keys =
      (if disable_non_tls_listeners cluster
        then ("listeners.tcp", "none") ∷ []
        else ("management.tcp.port", "15672") ∷ ("prometheus.tcp.port", "15692") ∷ [])
      ++ plugin_tls_keys "rabbitmq_mqtt" "mqtt.listeners.tcp" "mqtt.listeners.ssl.default" "8883"
      ++ plugin_tls_keys "rabbitmq_stomp" "stomp.listeners.tcp" "stomp.listeners.ssl.1" "61614"
      ++ plugin_tls_keys "rabbitmq_stream" "stream.listeners.tcp" "stream.listeners.ssl.default"
          "5551"

  unfoldable pub plugin_mutual_keys : String → Keys → String → String → String → Keys
  unfolding additional_plugin_enabled disable_non_tls_listeners
  plugin_mutual_keys plugin files tcp ssl port =
      if additional_plugin_enabled cluster plugin
      then files ++ key_if (disable_non_tls_listeners cluster) tcp "none" ++ (ssl, port) ∷ []
      else []

  unfoldable pub mutual_tls_keys : Keys
  unfolding plugin_mutual_keys
  mutual_tls_keys =
      (("ssl_options.cacertfile", "/etc/rabbitmq-tls/ca.crt")
        ∷ ("ssl_options.verify", "verify_peer")
        ∷ ("management.ssl.cacertfile", "/etc/rabbitmq-tls/ca.crt")
        ∷ ("prometheus.ssl.cacertfile", "/etc/rabbitmq-tls/ca.crt")
        ∷ [])
      ++ plugin_mutual_keys "rabbitmq_web_mqtt"
          (("web_mqtt.ssl.cacertfile", "/etc/rabbitmq-tls/ca.crt")
            ∷ ("web_mqtt.ssl.certfile", "/etc/rabbitmq-tls/tls.crt")
            ∷ ("web_mqtt.ssl.keyfile", "/etc/rabbitmq-tls/tls.key")
            ∷ [])
          "web_mqtt.tcp.listener" "web_mqtt.ssl.port" "15676"
      ++ plugin_mutual_keys "rabbitmq_web_stomp"
          (("web_stomp.ssl.cacertfile", "/etc/rabbitmq-tls/ca.crt")
            ∷ ("web_stomp.ssl.certfile", "/etc/rabbitmq-tls/tls.crt")
            ∷ ("web_stomp.ssl.keyfile", "/etc/rabbitmq-tls/tls.key")
            ∷ [])
          "web_stomp.tcp.listener" "web_stomp.ssl.port" "15673"

  unfoldable pub memory_keys : Keys
  unfolding memory_limited remove_headroom itoa
  memory_keys =
      if memory_limited cluster
      then (
        "total_memory_available_override_value",
        itoa (remove_headroom (elim cluster.spec.memory_limit [ none ↦ 0 | some m ↦ m ])),
      )
        ∷ []
      else []

  -- The keys that are added to the configuration of the user.
  unfoldable pub user_keys : Keys
  unfolding tls_keys mutual_tls_keys memory_keys tls_enabled mutual_tls_enabled
  user_keys =
      (if tls_enabled cluster then tls_keys else [])
      ++ (if mutual_tls_enabled cluster then mutual_tls_keys else [])
      ++ memory_keys

-- The loop that deletes the keys with the prefix of the cluster size hint.
unfoldable pub delete_hints : (ini : Ini) → ini.File → List String → ini.File
delete_hints ini conf [] = conf
delete_hints ini conf (key ∷ keys) =
    delete_hints ini (if starts_with key size_hint then ini.delete_key conf key else conf) keys

unfoldable pub has_auth_mechanisms : List String → Bool
has_auth_mechanisms [] = false
has_auth_mechanisms (key ∷ keys) =
    let rest = has_auth_mechanisms keys in if starts_with key "auth_mechanisms" then true else rest

-- Deleting the key where the value is empty.
unfoldable pub update_property : Map String → String → String → Map String
update_property entries key value =
    if value == "" then delete key entries else insert key value entries

-- The data of the updated config map, from the two texts.
unfoldable pub config_entries : RabbitmqCluster → String → String → Map String → Map String
unfolding update_property
config_entries cluster operator_text user_text entries =
    let rmq = cluster.spec.rabbitmq in
    let confs = insert user_defined user_text (insert operator_defaults operator_text entries) in
    let advanced = update_property confs "advanced.config" rmq.advanced_config in
    let env = update_property advanced "rabbitmq-env.conf" rmq.env_config in
    update_property env "erl_inetrc" rmq.erlang_inet_config

module _ (ini : Ini) where
  -- One `NewKey` for each key, up to the first error.
  unfoldable pub new_keys : ini.File → Keys → Outcome ini.File
  new_keys conf [] = ok conf
  new_keys conf ((key, value) ∷ keys) = ini.new_key conf key value >>= λ added. new_keys added keys

  unfoldable pub are_auth_mechanisms_configured : String → Outcome Bool
  unfolding has_auth_mechanisms
  are_auth_mechanisms_configured additional_config = do
    file ← wrap_error "failed to load spec.rabbitmq.additionalConfig" (ini.load additional_config)
    ok (has_auth_mechanisms (ini.key_strings file))

  -- The file whose text is `operatorDefaults.conf`.
  unfoldable pub operator_configuration : RabbitmqCluster → Outcome ini.File
  unfolding new_keys are_auth_mechanisms_configured operator_keys
  operator_configuration cluster = do
    conf ← ini.load default_rabbitmq_conf
    named ← new_keys conf (operator_keys cluster)
    auth ← are_auth_mechanisms_configured cluster.spec.rabbitmq.additional_config
    new_keys named (auth_keys auth)

  -- The file whose text, with the additional configuration behind it, is
  -- `userDefinedConfiguration.conf`.
  unfoldable pub user_configuration : RabbitmqCluster → Outcome ini.File
  unfolding new_keys user_keys tls_enabled
  user_configuration cluster = do
    conf ← (if tls_enabled cluster then ini.append ini.empty default_tls_conf else ok ini.empty)
    new_keys conf (user_keys cluster)

  unfoldable pub remove_config_not_requiring_node_restart :
      ConfigMapObject → Outcome ConfigMapObject
  unfolding delete_hints
  remove_config_not_requiring_node_restart config_map =
      let operator_conf = text_at operator_defaults config_map.entries in
      if operator_conf == "" then ok config_map else do
        conf ←
            wrap_error "failed to load operatorDefaults.conf when deciding whether to restart STS"
              (ini.load operator_conf)
        text ←
            wrap_error "failed to write operatorDefaults.conf when deciding whether to restart STS"
              (ini.write (delete_hints ini conf (ini.key_strings conf)))
        ok (record config_map { entries = insert operator_defaults text config_map.entries })

  -- The texts of the two files, in the order of the calls.
  unfoldable pub config_texts : RabbitmqCluster → Outcome (String × String)
  unfolding operator_configuration user_configuration
  config_texts cluster = do
    operator_conf ← operator_configuration cluster
    user_conf ← user_configuration cluster
    operator_text ← ini.write operator_conf
    appended ←
        wrap_error "failed to append spec.rabbitmq.additionalConfig"
          (ini.append user_conf cluster.spec.rabbitmq.additional_config)
    user_text ← ini.write appended
    ok (operator_text, user_text)

  unfoldable pub update_config_map :
      SetControllerReference → RabbitmqCluster → ConfigMapObject → Outcome ConfigMapObject
  unfolding config_texts config_entries update_meta with_controller
  update_config_map set cluster config_map = do
    texts ← config_texts cluster
    meta ← with_controller set cluster (update_meta cluster config_map.meta)
    ok (record { meta = meta; entries = config_entries cluster texts.0 texts.1 config_map.entries })

  module _ (set : SetControllerReference)
      (semantic_equal : ConfigMapObject → ConfigMapObject → Bool) where
    -- `Update` of the builder: the new object, and the flag `UpdateRequiresStsRestart`.
    unfoldable pub update_server_config_map :
        RabbitmqCluster → Bool → ConfigMapObject → Outcome (ConfigMapObject × Bool)
    unfolding update_config_map remove_config_not_requiring_node_restart
    update_server_config_map cluster restart config_map = do
      changed ← update_config_map set cluster config_map
      previous ← remove_config_not_requiring_node_restart config_map
      updated ← remove_config_not_requiring_node_restart changed
      ok (changed, (if semantic_equal previous updated then false else restart))

unfoldable pub build_server_config_map : RabbitmqCluster → ConfigMapObject
unfolding child_meta
build_server_config_map cluster = record { meta = child_meta cluster "server-conf"; entries = [] }
