-- ===== src/Ports/Laws.antt =====
-- Which ports a cluster exposes: distinct names and numbers, and no cleartext port where it is
-- disabled.
use mathlib.Core.List.{append_assoc, append-nil}
use rabbitmq_operator.Prelude.{
  ℕ, String, Bool, true, false, not, ◌&&◌, ◌||◌, List, [], ◌∷◌, ◌++◌, map, ◌≡◌, refl, arith, ◌==◌,
  eqb, if◌then◌else◌, All,
}
use rabbitmq_operator.Cluster.{RabbitmqCluster, tls_enabled, mutual_tls_enabled}
use rabbitmq_operator.Ports.{
  ServicePort, PortManager, amqp_port, amqps_port, management_port, management_tls_port, mqtt_port,
  mqtts_port, web_mqtt_port, web_mqtt_tls_port, stomp_port, stomps_port, web_stomp_port,
  web_stomp_tls_port, stream_port, streams_port, prometheus_port, prometheus_tls_port, epmd_port,
  rpc_port, plugin_enabled, merge_ports, lb_service_ports, client_service_ports,
  client_prometheus_ports, rabbitmq_ports, headless_service_ports, append_if, client_amqp_ports,
  client_http_ports, client_mqtt_ports, client_web_mqtt_ports, client_stomp_ports,
  client_web_stomp_ports, client_stream_ports, new_port_manager,
}

-- Every choice of eight switches.
unfoldable pub both : (Bool → Bool) → Bool
both p = p true && p false

both_sound : (p : Bool → Bool) (b : Bool) → both p ≡ true → p b ≡ true
unfolding both
both_sound p true h = ground arith
both_sound p false h = ground arith

abbrev pub all_choices : (Bool → Bool → Bool → Bool → Bool → Bool → Bool → Bool → Bool) → Bool
all_choices p =
    both
      λ a. both λ b. both λ c. both λ d. both λ e. both λ f. both λ g. both λ h. p a b c d e f g h

pub all_choices_sound :
    (p : Bool → Bool → Bool → Bool → Bool → Bool → Bool → Bool → Bool) (a b c d e f g h : Bool)
    → all_choices p ≡ true
    → p a b c d e f g h ≡ true
all_choices_sound p a b c d e f g h t =
    both_sound (λ h. p a b c d e f g h) h
      (both_sound (λ g. both λ h. p a b c d e f g h) g
        (both_sound (λ f. both λ g. both λ h. p a b c d e f g h) f
          (both_sound (λ e. both λ f. both λ g. both λ h. p a b c d e f g h) e
            (both_sound (λ d. both λ e. both λ f. both λ g. both λ h. p a b c d e f g h) d
              (both_sound (λ c. both λ d. both λ e. both λ f. both λ g. both λ h. p a b c d e f g h)
                c
                (both_sound
                  (λ b.
                    both λ c. both λ d. both λ e. both λ f. both λ g. both λ h. p a b c d e f g h)
                  b
                  (both_sound
                    (λ a. both λ b.
                      both λ c. both λ d. both λ e. both λ f. both λ g. both λ h. p a b c d e f g h)
                    a t)))))))

abbrev pair : Bool → Bool → Bool → ServicePort → ServicePort → List ServicePort
pair enabled secure clear s c =
    if not enabled then [] else append_if secure s (append_if clear c [])

-- The ports of the pods as a function of the switches of the manager.
abbrev pub ports_for : Bool → Bool → Bool → Bool → Bool → Bool → Bool → Bool → List ServicePort
ports_for tls disable mutual_tls mqtt web_mqtt stomp web_stomp stream =
    (pair true tls (not disable) amqps_port amqp_port
      ++ (pair true tls (not disable) management_tls_port management_port
          ++ (pair mqtt tls (not disable) mqtts_port mqtt_port
              ++ (pair web_mqtt mutual_tls (not disable) web_mqtt_tls_port web_mqtt_port
                  ++ (pair stomp tls (not disable) stomps_port stomp_port
                      ++ (pair web_stomp mutual_tls (not disable) web_stomp_tls_port web_stomp_port
                          ++ (pair stream tls (not disable) streams_port stream_port
                              ++ ((if not tls
                                    then prometheus_port ∷ []
                                    else prometheus_tls_port ∷ [])
                                  ++ []))))))))

-- `k` at the five switches of the plugins.
abbrev pub with_plugins {ℓ} :
    {A : Type ℓ} → PortManager → (Bool → Bool → Bool → Bool → Bool → A) → A
with_plugins m k =
    k (plugin_enabled m "rabbitmq_mqtt") (plugin_enabled m "rabbitmq_web_mqtt")
      (plugin_enabled m "rabbitmq_stomp") (plugin_enabled m "rabbitmq_web_stomp")
      (plugin_enabled m "rabbitmq_stream"
        || plugin_enabled m "rabbitmq_stream_management"
        || plugin_enabled m "rabbitmq_multi_dc_replication")

-- What holds of every choice holds at the switches of the plugins.
pub with_plugins_all {ℓ} :
    (m : PortManager) (P : Bool → Bool → Bool → Bool → Bool → Type ℓ)
    → ((d e f g h : Bool) → P d e f g h)
    → with_plugins m P
with_plugins_all m P k = k _ _ _ _ _

-- The ports of the client service, by the switches.
pub ports_for_lem :
    (m : PortManager)
    → client_service_ports m
      ≡ with_plugins m (ports_for m.enable_tls m.disable_non_tls m.enable_mutual_tls)
unfolding client_service_ports client_amqp_ports client_http_ports client_mqtt_ports
    client_web_mqtt_ports client_stomp_ports client_web_stomp_ports client_stream_ports
    client_prometheus_ports
ports_for_lem m = refl

-- Every text of the list occurs in it once.
abbrev pub distinct : List String → Bool
distinct [] = true
distinct (s ∷ rest) = not (occurs s rest) && distinct rest
  where
    occurs : String → List String → Bool
    occurs s [] = false
    occurs s (t ∷ rest) = s == t || occurs s rest

abbrev pub distinct_numbers : List ℕ → Bool
distinct_numbers [] = true
distinct_numbers (n ∷ rest) = not (occurs n rest) && distinct_numbers rest
  where
    occurs : ℕ → List ℕ → Bool
    occurs n [] = false
    occurs n (k ∷ rest) = eqb n k || occurs n rest

ports_ok : Bool → Bool → Bool → Bool → Bool → Bool → Bool → Bool → Bool
ports_ok a b c d e f g h =
    let ports = ports_for a b c d e f g h ++ epmd_port ∷ rpc_port ∷ [] in
    distinct (map (λ p. p.name) ports) && distinct_numbers (map (λ p. p.port) ports)

all_ports_ok : all_choices ports_ok ≡ true
unfolding both ports_ok
all_ports_ok = refl

pub and_left : (a b : Bool) → (a && b) ≡ true → (a ≡ true) × (b ≡ true)
and_left a b h = ground arith

-- For every manager the ports of the pods of a cluster have distinct names and distinct numbers.
pub rabbitmq_ports-distinct :
    (m : PortManager)
    → (distinct (map (λ p. p.name) (rabbitmq_ports m)) ≡ true)
      × (distinct_numbers (map (λ p. p.port) (rabbitmq_ports m)) ≡ true)
unfolding rabbitmq_ports merge_ports headless_service_ports
rabbitmq_ports-distinct m = rw ports_for_lem (
    and_left _ _ (
      unfold ports_ok in
      with_plugins_all m
        (λ d e f g h. ports_ok m.enable_tls m.disable_non_tls m.enable_mutual_tls d e f g h ≡ true)
        λ d e f g h.
          all_choices_sound ports_ok m.enable_tls m.disable_non_tls m.enable_mutual_tls d e f g h
            all_ports_ok))

-- The service for clients has the ports of the load balancer first, and the Prometheus port behind.
pub client_service_ports-eq-append :
    (m : PortManager) → client_service_ports m ≡ lb_service_ports m ++ client_prometheus_ports m
unfolding client_service_ports lb_service_ports merge_ports
client_service_ports-eq-append m = simp (append_assoc, append-nil)

-- The ports that carry TLS.
abbrev pub is_tls_port : ServicePort → Bool
is_tls_port p =
    p.name == "amqps"
    || p.name == "management-tls"
    || p.name == "mqtts"
    || p.name == "web-mqtt-tls"
    || p.name == "stomps"
    || p.name == "web-stomp-tls"
    || p.name == "streams"
    || p.name == "prometheus-tls"

abbrev all_tls : List ServicePort → Bool
all_tls [] = true
all_tls (p ∷ ps) = is_tls_port p && all_tls ps

-- With cleartext disabled behind TLS all ports are TLS ports; with TLS off none is.
abbrev no_tls : List ServicePort → Bool
no_tls [] = true
no_tls (p ∷ ps) = not (is_tls_port p) && no_tls ps

All-all_tls : (ps : List ServicePort) → all_tls ps ≡ true → All (λ p. is_tls_port p ≡ true) ps
All-all_tls [] h = tt
All-all_tls (p ∷ ps) h = let (hp, hps) = and_left _ _ h in (hp, All-all_tls ps hps)

not-true : (b : Bool) → not b ≡ true → b ≡ false
not-true b h = ground arith

All-no_tls : (ps : List ServicePort) → no_tls ps ≡ true → All (λ p. is_tls_port p ≡ false) ps
All-no_tls [] h = tt
All-no_tls (p ∷ ps) h = let (hp, hps) = and_left _ _ h in (not-true _ hp, All-no_tls ps hps)

tls_only_ok : Bool → Bool → Bool → Bool → Bool → Bool → Bool → Bool → Bool
tls_only_ok a b c d e f g h =
    all_tls (ports_for true true c d e f g h) && no_tls (ports_for false b false d e f g h)

all_tls_only_ok : all_choices tls_only_ok ≡ true
unfolding both tls_only_ok
all_tls_only_ok = refl

ports_for-all_tls : (c d e f g h : Bool) → all_tls (ports_for true true c d e f g h) ≡ true
unfolding tls_only_ok
ports_for-all_tls c d e f g h =
    (and_left (all_tls (ports_for true true c d e f g h)) _
      (all_choices_sound tls_only_ok true true c d e f g h all_tls_only_ok)).0

ports_for-no_tls : (b d e f g h : Bool) → no_tls (ports_for false b false d e f g h) ≡ true
unfolding tls_only_ok
ports_for-no_tls b d e f g h =
    (and_left _ (no_tls (ports_for false b false d e f g h))
      (all_choices_sound tls_only_ok true b true d e f g h all_tls_only_ok)).1

-- With TLS on and cleartext listeners disabled, every port of the client service is a TLS port,
-- whatever plugins are enabled.
pub client_service_ports_tls_only :
    (m : PortManager)
    → m.enable_tls ≡ true
    → m.disable_non_tls ≡ true
    → All (λ p. is_tls_port p ≡ true) (client_service_ports m)
client_service_ports_tls_only m t d = rw ports_for_lem (
    simp (t, d)
      (with_plugins_all m
        (λ d e f g h.
          All (λ p. is_tls_port p ≡ true) (ports_for true true m.enable_mutual_tls d e f g h))
        λ d e f g h.
          All-all_tls (ports_for true true m.enable_mutual_tls d e f g h)
            (ports_for-all_tls m.enable_mutual_tls d e f g h)))

client_service_ports_no_tls :
    (m : PortManager)
    → m.enable_tls ≡ false
    → m.enable_mutual_tls ≡ false
    → All (λ p. is_tls_port p ≡ false) (client_service_ports m)
client_service_ports_no_tls m t u = rw ports_for_lem (
    simp (t, u)
      (with_plugins_all m
        (λ d e f g h.
          All (λ p. is_tls_port p ≡ false) (ports_for false m.disable_non_tls false d e f g h))
        λ d e f g h.
          All-no_tls (ports_for false m.disable_non_tls false d e f g h)
            (ports_for-no_tls m.disable_non_tls d e f g h)))

-- A cluster with no TLS, by a secret or by Vault, exposes no TLS port to its clients.
pub client_service_ports_without_tls :
    (rmq : RabbitmqCluster)
    → tls_enabled rmq ≡ false
    → All (λ p. is_tls_port p ≡ false) (client_service_ports (new_port_manager rmq))
unfolding tls_enabled mutual_tls_enabled new_port_manager
client_service_ports_without_tls rmq h =
    client_service_ports_no_tls (new_port_manager rmq) h (ground arith)
