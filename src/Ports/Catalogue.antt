-- ===== src/Ports/Catalogue.antt =====
-- The ports of internal/constant/ports.go: each port of a service with its name and number.
use rabbitmq_operator.Prelude.{ℕ, String, Option, none, some}

-- `corev1.ServicePort`; a node port that is not assigned is 0.
pub record ServicePort : Type 0 where
  pub name : String
  pub port : ℕ
  pub target_port : ℕ
  pub protocol : String
  pub app_protocol : Option String
  pub node_port : ℕ

abbrev tcp_port : String → ℕ → Option String → ServicePort
tcp_port name port app_protocol = record {
  name = name;
  port = port;
  target_port = port;
  protocol = "TCP";
  app_protocol = app_protocol;
  node_port = 0;
}

abbrev pub epmd_port : ServicePort
epmd_port = tcp_port "epmd" 4369 none

abbrev pub rpc_port : ServicePort
rpc_port = tcp_port "cluster-rpc" 25672 none

abbrev pub amqp_port : ServicePort
amqp_port = tcp_port "amqp" 5672 (some "amqp")

abbrev pub amqps_port : ServicePort
amqps_port = tcp_port "amqps" 5671 (some "amqps")

abbrev pub management_port : ServicePort
management_port = tcp_port "management" 15672 (some "http")

abbrev pub management_tls_port : ServicePort
management_tls_port = tcp_port "management-tls" 15671 (some "https")

abbrev pub mqtt_port : ServicePort
mqtt_port = tcp_port "mqtt" 1883 (some "mqtt")

abbrev pub mqtts_port : ServicePort
mqtts_port = tcp_port "mqtts" 8883 (some "mqtts")

abbrev pub web_mqtt_port : ServicePort
web_mqtt_port = tcp_port "web-mqtt" 15675 (some "http")

abbrev pub web_mqtt_tls_port : ServicePort
web_mqtt_tls_port = tcp_port "web-mqtt-tls" 15676 (some "https")

abbrev pub stomp_port : ServicePort
stomp_port = tcp_port "stomp" 61613 (some "stomp.github.io/stomp")

abbrev pub stomps_port : ServicePort
stomps_port = tcp_port "stomps" 61614 (some "stomp.github.io/stomp-tls")

abbrev pub web_stomp_port : ServicePort
web_stomp_port = tcp_port "web-stomp" 15674 (some "http")

abbrev pub web_stomp_tls_port : ServicePort
web_stomp_tls_port = tcp_port "web-stomp-tls" 15673 (some "https")

abbrev pub stream_port : ServicePort
stream_port = tcp_port "stream" 5552 (some "rabbitmq.com/stream")

abbrev pub streams_port : ServicePort
streams_port = tcp_port "streams" 5551 (some "rabbitmq.com/stream-tls")

abbrev pub prometheus_port : ServicePort
prometheus_port = tcp_port "prometheus" 15692 (some "prometheus.io/metrics")

abbrev pub prometheus_tls_port : ServicePort
prometheus_tls_port = tcp_port "prometheus-tls" 15691 (some "prometheus.io/metric-tls")
