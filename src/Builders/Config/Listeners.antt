-- ===== src/Builders/Config/Listeners.antt =====
-- The listeners in the configuration that internal/resource/configmap.go adds for a cluster with TLS.
use rabbitmq_operator.Prelude.{
  String, Bool, true, false, ◌&&◌, Option, none, some, [], ◌∷◌, ◌++◌, lookup, ◌≡◌, ◌∙◌, refl, arith,
  if◌then◌else◌, ◌==◌,
}
use rabbitmq_operator.Cluster.{
  RabbitmqCluster, tls_enabled, mutual_tls_enabled, disable_non_tls_listeners,
  additional_plugin_enabled,
}
use rabbitmq_operator.Builders.Config.{
  Keys, plugin_tls_keys, tls_keys, plugin_mutual_keys, mutual_tls_keys, memory_keys, user_keys,
}

-- The first of two results.
abbrev or_else : Option String → Option String → Option String
or_else none b = b
or_else (some a) b = some a

lookup-append :
    (k : String) (xs ys : Keys) → lookup k (xs ++ ys) ≡ or_else (lookup k xs) (lookup k ys)
unfolding lookup
lookup-append k [] ys = refl
lookup-append k ((j, v) ∷ xs) ys = ground (arith, lookup-append k xs ys)

or_else-none : (a : Option String) → or_else a none ≡ a
or_else-none none = refl
or_else-none (some a) = refl

lookup-memory_keys :
    (c : RabbitmqCluster) (k : String)
    → ("total_memory_available_override_value" == k) ≡ false
    → lookup k (memory_keys c) ≡ none
unfolding memory_keys lookup
lookup-memory_keys c k other = ground arith

lookup_if :
    (k : String) (test : Bool) (keys : Keys)
    → lookup k (if test then keys else []) ≡ (if test then lookup k keys else none)
unfolding lookup
lookup_if k true keys = refl
lookup_if k false keys = refl

lookup-joined :
    (k : String) (a b : Bool) (xs ys zs : Keys)
    → lookup k zs ≡ none
    → lookup k ((if a then xs else []) ++ (if b then ys else []) ++ zs)
      ≡ or_else (if a then lookup k xs else none) (if b then lookup k ys else none)
lookup-joined k a b xs ys zs e = cc (
  lookup-append k ((if a then xs else []) ++ (if b then ys else [])) zs,
  lookup-append k (if a then xs else []) (if b then ys else []),
  lookup_if k a xs,
  lookup_if k b ys,
  or_else-none (or_else (if a then lookup k xs else none) (if b then lookup k ys else none)),
  e,
)

lookup-user_keys :
    (c : RabbitmqCluster) (k : String)
    → ("total_memory_available_override_value" == k) ≡ false
    → lookup k (user_keys c)
      ≡ or_else
          (if tls_enabled c then lookup k (tls_keys c) else none)
          (if mutual_tls_enabled c then lookup k (mutual_tls_keys c) else none)
unfolding user_keys
lookup-user_keys c k other =
    lookup-joined k (tls_enabled c) (mutual_tls_enabled c) (tls_keys c) (mutual_tls_keys c)
      (memory_keys c) (lookup-memory_keys c k other)

-- A key that mutual TLS does not add, and one that TLS alone does not add.
user_keys-tls :
    (c : RabbitmqCluster) (k : String)
    → ("total_memory_available_override_value" == k) ≡ false
    → tls_enabled c ≡ true
    → lookup k (mutual_tls_keys c) ≡ none
    → lookup k (user_keys c) ≡ lookup k (tls_keys c)
user_keys-tls c k other tls without =
    ground (arith, lookup-user_keys c k other, or_else-none (lookup k (tls_keys c)))

user_keys-mutual :
    (c : RabbitmqCluster) (k : String)
    → ("total_memory_available_override_value" == k) ≡ false
    → lookup k (tls_keys c) ≡ none
    → lookup k (user_keys c) ≡ (if mutual_tls_enabled c then lookup k (mutual_tls_keys c) else none)
user_keys-mutual c k other tls = ground (arith, lookup-user_keys c k other)

-- The mutual keys hold no listener of cleartext but those of the web plugins.
lookup-mutual_tls_keys :
    (c : RabbitmqCluster)
    → (lookup "web_mqtt.tcp.listener" (mutual_tls_keys c) ≡ (
        if additional_plugin_enabled c "rabbitmq_web_mqtt" && disable_non_tls_listeners c
        then some "none"
        else none))
      × (lookup "web_stomp.tcp.listener" (mutual_tls_keys c) ≡ (
          if additional_plugin_enabled c "rabbitmq_web_stomp" && disable_non_tls_listeners c
          then some "none"
          else none))
unfolding mutual_tls_keys plugin_mutual_keys lookup
lookup-mutual_tls_keys c = (ground arith, ground arith)

tls_keys-web :
    (c : RabbitmqCluster)
    → (lookup "web_mqtt.tcp.listener" (tls_keys c) ≡ none)
      × (lookup "web_stomp.tcp.listener" (tls_keys c) ≡ none)
unfolding tls_keys plugin_tls_keys lookup
tls_keys-web c = (ground arith, ground arith)

-- What the keys of TLS say of a listener of cleartext.
abbrev pub Closed : (String → Option String) → RabbitmqCluster → Type 0
Closed value c =
    (value "listeners.tcp" ≡ some "none")
    × (value "management.tcp.port" ≡ none)
    × (value "prometheus.tcp.port" ≡ none)
    × (value "mqtt.listeners.tcp"
        ≡ (if additional_plugin_enabled c "rabbitmq_mqtt" then some "none" else none))
    × (value "stomp.listeners.tcp"
        ≡ (if additional_plugin_enabled c "rabbitmq_stomp" then some "none" else none))
    × (value "stream.listeners.tcp"
        ≡ (if additional_plugin_enabled c "rabbitmq_stream" then some "none" else none))

tls_keys-Closed :
    (c : RabbitmqCluster)
    → disable_non_tls_listeners c ≡ true
    → Closed (λ k. lookup k (tls_keys c)) c
unfolding tls_keys plugin_tls_keys lookup
tls_keys-Closed c off =
    (ground arith, ground arith, ground arith, ground arith, ground arith, ground arith)

abbrev Absent : (String → Option String) → Type 0
Absent value =
    (value "listeners.tcp" ≡ none)
    × (value "management.tcp.port" ≡ none)
    × (value "prometheus.tcp.port" ≡ none)
    × (value "mqtt.listeners.tcp" ≡ none)
    × (value "stomp.listeners.tcp" ≡ none)
    × (value "stream.listeners.tcp" ≡ none)

mutual_tls_keys-Absent : (c : RabbitmqCluster) → Absent (λ k. lookup k (mutual_tls_keys c))
unfolding mutual_tls_keys plugin_mutual_keys lookup
mutual_tls_keys-Absent c =
    (ground arith, ground arith, ground arith, ground arith, ground arith, ground arith)

-- With TLS on and the listeners without TLS disabled, the keys that are added turn the plain AMQP
-- listener off, give the management and Prometheus plugins no plain port, and turn the plain listener
-- of MQTT, STOMP and streams off exactly where the plugin is enabled.
pub user_keys-Closed :
    (c : RabbitmqCluster)
    → tls_enabled c ≡ true
    → disable_non_tls_listeners c ≡ true
    → Closed (λ k. lookup k (user_keys c)) c
user_keys-Closed c tls off =
    let (t1, t2, t3, t4, t5, t6) = tls_keys-Closed c off in
    let (m1, m2, m3, m4, m5, m6) = mutual_tls_keys-Absent c in
    (
      user_keys-tls c _ refl tls m1 ∙ t1,
      user_keys-tls c _ refl tls m2 ∙ t2,
      user_keys-tls c _ refl tls m3 ∙ t3,
      user_keys-tls c _ refl tls m4 ∙ t4,
      user_keys-tls c _ refl tls m5 ∙ t5,
      user_keys-tls c _ refl tls m6 ∙ t6,
    )

-- The keys that are added turn the plain listener of web MQTT or web STOMP off exactly where the plugin
-- is enabled, the listeners without TLS are disabled and TLS is mutual; elsewhere they hold no such key.
pub user_keys-web :
    (c : RabbitmqCluster)
    → (lookup "web_mqtt.tcp.listener" (user_keys c) ≡ (
        if mutual_tls_enabled c
          && additional_plugin_enabled c "rabbitmq_web_mqtt"
          && disable_non_tls_listeners c
        then some "none"
        else none))
      × (lookup "web_stomp.tcp.listener" (user_keys c) ≡ (
          if mutual_tls_enabled c
            && additional_plugin_enabled c "rabbitmq_web_stomp"
            && disable_non_tls_listeners c
          then some "none"
          else none))
user_keys-web c =
    let (t1, t2) = tls_keys-web c in
    let (m1, m2) = lookup-mutual_tls_keys c in
    (
      ground (arith, user_keys-mutual c "web_mqtt.tcp.listener" refl t1),
      ground (arith, user_keys-mutual c "web_stomp.tcp.listener" refl t2),
    )
