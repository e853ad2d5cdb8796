-- ===== src/Builders/Secrets/Laws.antt =====
-- What an update does to the secret of the default user of internal/resource/default_user_secret.go.
use rabbitmq_operator.Prelude.{
  String, true, false, Option, none, some, Map, lookup, lookup-insert, lookup-delete, text_at, ◌==◌,
  ◌<>◌, ◌≡◌, refl, sym, ap, ◌∙◌, arith, if◌then◌else◌, Bool-cases, inl, inr,
}
use rabbitmq_operator.Kube.{ok}
use rabbitmq_operator.Cluster.{
  RabbitmqCluster, secret_tls_enabled, mutual_tls_enabled, additional_plugin_enabled,
}
use rabbitmq_operator.Ports.{new_port_manager, client_service_ports}
use rabbitmq_operator.Ports.Names.{port_name, client_service_ports_web_mqtt}
use rabbitmq_operator.Builders.Services.{ServiceObject, PatchService, update_service}
use rabbitmq_operator.Builders.Services.Laws.{
  update_port_keeps, desired, exposed, is_cluster_ip, update_service_ports,
}
use rabbitmq_operator.Merge.{update_port}
use rabbitmq_operator.Merge.Reference.{find_by, find_by-fresh, IsUnique, combined}
use rabbitmq_operator.Builders.Meta.{
  ObjectMeta, SetControllerReference, bind_passed, ok_injective, with_controller, update_meta,
}
use rabbitmq_operator.Builders.Secrets.{
  data_of, SecretObject, update_port_entry, update_ports, update_connection_string,
  update_default_user_secret,
}

-- The value of a port's entry.
abbrev pub port_value : RabbitmqCluster → String → String → String → Option String
port_value c plugin port tls_port =
    if additional_plugin_enabled c plugin
    then some (if secret_tls_enabled c then tls_port else port)
    else none

lookup-update_port_entry :
    (c : RabbitmqCluster) (plugin name port tls_port k : String) (entries : Map String)
    → lookup k (update_port_entry c plugin name port tls_port entries)
      ≡ (if name == k then port_value c plugin port tls_port else lookup k entries)
unfolding update_port_entry
lookup-update_port_entry c plugin name port tls_port k entries = ground (
  arith,
  lookup-insert name k (if secret_tls_enabled c then tls_port else port) entries,
  lookup-delete name k entries,
)

pub lookup-update_ports :
    (c : RabbitmqCluster) (k : String) (entries : Map String)
    → lookup k (update_ports c entries) ≡ (
        if "web-stomp-port" == k
        then port_value c "rabbitmq_web_stomp" "15674" "15673"
        else if "web-mqtt-port" == k
        then port_value c "rabbitmq_web_mqtt" "15675" "15676"
        else if "stream-port" == k
        then port_value c "rabbitmq_stream" "5552" "5551"
        else if "stomp-port" == k
        then port_value c "rabbitmq_stomp" "61613" "61614"
        else if "mqtt-port" == k
        then port_value c "rabbitmq_mqtt" "1883" "8883"
        else if "port" == k
        then some (if secret_tls_enabled c then "5671" else "5672")
        else lookup k entries)
unfolding update_ports
lookup-update_ports c k entries = simp (lookup-update_port_entry, lookup-insert)

abbrev pub text_or_empty : Option String → String
text_or_empty found = elim found [ none ↦ "" | some v ↦ v ]

pub text_of : {a b : Option String} → a ≡ b → text_or_empty a ≡ text_or_empty b
text_of e = ap text_or_empty e

-- The entries that an update leaves, by their keys.
abbrev pub entries_of : RabbitmqCluster → Map String → Map String
entries_of c entries = update_connection_string c (update_ports c entries)

pub lookup-entries_of :
    (c : RabbitmqCluster) (k : String) (entries : Map String)
    → ("connection_string" == k) ≡ false
    → lookup k (entries_of c entries) ≡ lookup k (update_ports c entries)
unfolding update_connection_string
lookup-entries_of c k entries other = simp (lookup-insert, other)

connection_string-entries_of :
    (c : RabbitmqCluster) (entries : Map String)
    → let at = λ (k : String). text_at k (update_ports c entries) in
      text_at "connection_string" (entries_of c entries)
      ≡ (if secret_tls_enabled c then "amqps://" else "amqp://")
        <> at "username"
        <> ":"
        <> at "password"
        <> "@"
        <> at "host"
        <> ":"
        <> at "port"
        <> "/"
unfolding update_connection_string
connection_string-entries_of c entries =
    text_of (lookup-insert "connection_string" "connection_string" _ (update_ports c entries))

kept :
    (c : RabbitmqCluster) (k : String) (entries : Map String)
    → ("connection_string" == k) ≡ false
    → lookup k (update_ports c entries) ≡ lookup k entries
    → text_at k (entries_of c entries) ≡ text_at k entries
kept c k entries other same = text_of (lookup-entries_of c k entries other ∙ same)

pub joined :
    (s : String) {u u' p p' h h' n n' : String}
    → u ≡ u'
    → p ≡ p'
    → h ≡ h'
    → n ≡ n'
    → (s <> u <> ":" <> p <> "@" <> h <> ":" <> n <> "/")
      ≡ (s <> u' <> ":" <> p' <> "@" <> h' <> ":" <> n' <> "/")
joined s a b c d = cc (a, b, c, d)

abbrev pub scheme : RabbitmqCluster → String
scheme c = if secret_tls_enabled c then "amqps://" else "amqp://"

-- An update that ends well has found entries and left others.
update_default_user_secret_entries :
    (set : SetControllerReference) (c : RabbitmqCluster) (meta : ObjectMeta)
    (found : Option (Map String)) (out : SecretObject)
    → update_default_user_secret set c (record { meta = meta; entries = found }) ≡ ok (some out)
    → (entries : Map String) × (found ≡ some entries) × (out.entries ≡ some (entries_of c entries))
unfolding update_default_user_secret
update_default_user_secret_entries set c meta none out e = absurd (cc (ok_injective e))
update_default_user_secret_entries set c meta (some entries) out e =
    bind_passed (with_controller set c (update_meta c meta)) _ e λ m p q.
      let same : record { meta = m; entries = some (entries_of c entries) } ≡ out =
        cc (ok_injective q) in
      (entries, refl, sym (ap (λ z. z.entries) same))

-- An update without an error or a panic keeps the name, the password, the host and the configuration of the
-- default user, and leaves a connection string that is made of the entries beside it.
pub update_default_user_secret-keeps :
    (set : SetControllerReference) (c : RabbitmqCluster) (secret out : SecretObject)
    → update_default_user_secret set c secret ≡ ok (some out)
    → let new = λ (k : String). text_at k (data_of out) in
      let old = λ (k : String). text_at k (data_of secret) in
      (new "username" ≡ old "username")
      × (new "password" ≡ old "password")
      × (new "host" ≡ old "host")
      × (new "default_user.conf" ≡ old "default_user.conf")
      × (new "connection_string"
          ≡ scheme c
            <> new "username"
            <> ":"
            <> new "password"
            <> "@"
            <> new "host"
            <> ":"
            <> new "port"
            <> "/")
update_default_user_secret-keeps set c secret out e =
    let (entries, before, after) =
      update_default_user_secret_entries set c secret.meta secret.entries out e in
    rw (before, after)
      (
        kept c "username" entries refl (lookup-update_ports c "username" entries),
        kept c "password" entries refl (lookup-update_ports c "password" entries),
        kept c "host" entries refl (lookup-update_ports c "host" entries),
        kept c "default_user.conf" entries refl (lookup-update_ports c "default_user.conf" entries),
        connection_string-entries_of c entries
            ∙ joined (scheme c) (text_of (sym (lookup-entries_of c "username" entries refl)))
                (text_of (sym (lookup-entries_of c "password" entries refl)))
                (text_of (sym (lookup-entries_of c "host" entries refl)))
                (text_of (sym (lookup-entries_of c "port" entries refl))),
      )

port_value_tls :
    (c : RabbitmqCluster) (plugin port tls_port : String)
    → secret_tls_enabled c ≡ true
    → additional_plugin_enabled c plugin ≡ true
    → port_value c plugin port tls_port ≡ some tls_port
port_value_tls c plugin port tls_port tls enabled = rw (enabled, tls) refl

exposed-none : (c : RabbitmqCluster) → exposed c none ≡ none
exposed-none c = elim (Bool-cases (is_cluster_ip c)) [ inl q ↦ rw q refl | inr q ↦ rw q refl ]

-- Where TLS by a secret is on, mutual TLS is off and the web MQTT plugin is enabled, the secret of the
-- default user gives port 15676 for web MQTT; but where no override of the service is given, the ports
-- of the client service have distinct names and none of them has the name of that port, an update of
-- the client service without an error leaves no port with that name.
pub web_mqtt_port_missing :
    (set : SetControllerReference) (patch : PatchService) (c d : RabbitmqCluster)
    (service out : ServiceObject) (entries : Map String)
    → secret_tls_enabled c ≡ true
    → mutual_tls_enabled c ≡ false
    → additional_plugin_enabled c "rabbitmq_web_mqtt" ≡ true
    → c.spec.override.service ≡ none
    → IsUnique port_name service.spec.ports
    → find_by port_name "web-mqtt-tls" service.spec.ports ≡ none
    → update_service set patch c service ≡ ok (d, out)
    → (lookup "web-mqtt-port" (update_ports c entries) ≡ some "15676")
      × (find_by port_name "web-mqtt-tls" out.spec.ports ≡ none)
unfolding new_port_manager
web_mqtt_port_missing set patch c d service out entries tls not_both plugin plain u absent e =
    let next : find_by port_name "web-mqtt-tls" (client_service_ports (new_port_manager c)) ≡ none =
      find_by-fresh port_name update_port update_port_keeps "web-mqtt-tls"
        (client_service_ports (new_port_manager c))
        (client_service_ports_web_mqtt (new_port_manager c) not_both) in
    let asked : desired c service.spec.ports "web-mqtt-tls" ≡ none =
      ap
        (λ z.
          combined port_name update_port z
            (find_by port_name "web-mqtt-tls" (client_service_ports (new_port_manager c))))
        absent
      ∙ ap (combined port_name update_port none) next in
    (
      lookup-update_ports c "web-mqtt-port" entries
          ∙ port_value_tls c "rabbitmq_web_mqtt" "15675" "15676" tls plugin,
      (update_service_ports set patch c d service out "web-mqtt-tls" plain u e).0
          ∙ ap (exposed c) asked
          ∙ exposed-none c,
    )
