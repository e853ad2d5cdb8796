-- ===== src/Ports.antt =====
-- internal/constant/ports.go: the ports that the services and the pods of a cluster expose.
mod Catalogue
pub mod Laws
pub mod Names
unfoldable pub use Catalogue.*
use rabbitmq_operator.Prelude.{String, Bool, not, ◌||◌, List, [], ◌∷◌, ◌++◌, if◌then◌else◌}
use rabbitmq_operator.Cluster.{
  RabbitmqCluster, plugin_in, tls_enabled, disable_non_tls_listeners, mutual_tls_enabled,
}

pub record PortManager : Type 0 where
  pub enable_tls : Bool
  pub disable_non_tls : Bool
  pub enable_mutual_tls : Bool
  pub plugins : List String

-- The plugins are copied one by one, each converted to a string.
unfoldable pub new_port_manager : RabbitmqCluster → PortManager
new_port_manager rmq = record {
  enable_tls = tls_enabled rmq;
  disable_non_tls = disable_non_tls_listeners rmq;
  enable_mutual_tls = mutual_tls_enabled rmq;
  plugins = rmq.spec.rabbitmq.additional_plugins;
}

-- `MergePorts` appends its lists one after the other.
unfoldable pub merge_ports : List (List ServicePort) → List ServicePort
merge_ports [] = []
merge_ports (ports ∷ rest) = ports ++ merge_ports rest

-- `if test { ports = append(ports, port) }`
abbrev pub append_if : Bool → ServicePort → List ServicePort → List ServicePort
append_if test port ports = if test then ports ++ port ∷ [] else ports

module _ (m : PortManager) where
  unfoldable pub plugin_enabled : String → Bool
  unfolding plugin_in
  plugin_enabled plugin = plugin_in plugin m.plugins

  unfoldable pub headless_service_ports : List ServicePort
  headless_service_ports = epmd_port ∷ rpc_port ∷ []

  unfoldable pub client_amqp_ports : List ServicePort
  client_amqp_ports =
      append_if m.enable_tls amqps_port (append_if (not m.disable_non_tls) amqp_port [])

  unfoldable pub client_http_ports : List ServicePort
  client_http_ports =
      append_if m.enable_tls management_tls_port
        (append_if (not m.disable_non_tls) management_port [])

  unfoldable pub client_mqtt_ports : List ServicePort
  client_mqtt_ports =
      if not (plugin_enabled "rabbitmq_mqtt")
      then []
      else append_if m.enable_tls mqtts_port (append_if (not m.disable_non_tls) mqtt_port [])

  unfoldable pub client_web_mqtt_ports : List ServicePort
  client_web_mqtt_ports =
      if not (plugin_enabled "rabbitmq_web_mqtt")
      then []
      else append_if m.enable_mutual_tls web_mqtt_tls_port
          (append_if (not m.disable_non_tls) web_mqtt_port [])

  unfoldable pub client_stomp_ports : List ServicePort
  client_stomp_ports =
      if not (plugin_enabled "rabbitmq_stomp")
      then []
      else append_if m.enable_tls stomps_port (append_if (not m.disable_non_tls) stomp_port [])

  unfoldable pub client_web_stomp_ports : List ServicePort
  client_web_stomp_ports =
      if not (plugin_enabled "rabbitmq_web_stomp")
      then []
      else append_if m.enable_mutual_tls web_stomp_tls_port
          (append_if (not m.disable_non_tls) web_stomp_port [])

  unfoldable pub client_stream_ports : List ServicePort
  client_stream_ports =
      if not (
        plugin_enabled "rabbitmq_stream"
        || plugin_enabled "rabbitmq_stream_management"
        || plugin_enabled "rabbitmq_multi_dc_replication")
      then []
      else append_if m.enable_tls streams_port (append_if (not m.disable_non_tls) stream_port [])

  unfoldable pub client_prometheus_ports : List ServicePort
  client_prometheus_ports =
      if not m.enable_tls then prometheus_port ∷ [] else prometheus_tls_port ∷ []

  unfoldable pub lb_service_ports : List ServicePort
  unfolding merge_ports
  lb_service_ports = merge_ports (
      client_amqp_ports ∷ client_http_ports ∷ client_mqtt_ports ∷ client_web_mqtt_ports
      ∷ client_stomp_ports ∷ client_web_stomp_ports ∷ client_stream_ports ∷ [])

  unfoldable pub client_service_ports : List ServicePort
  unfolding merge_ports
  client_service_ports = merge_ports (
      client_amqp_ports ∷ client_http_ports ∷ client_mqtt_ports ∷ client_web_mqtt_ports
      ∷ client_stomp_ports ∷ client_web_stomp_ports ∷ client_stream_ports ∷ client_prometheus_ports
      ∷ [])

  unfoldable pub rabbitmq_ports : List ServicePort
  unfolding merge_ports client_service_ports headless_service_ports
  rabbitmq_ports = merge_ports (client_service_ports ∷ headless_service_ports ∷ [])
