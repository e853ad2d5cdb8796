-- ===== src/Builders/Secrets.antt =====
-- internal/resource/default_user_secret.go and erlang_cookie.go. The random source and the base64
-- encoding are parameters; the bytes of a secret are texts.
pub mod Laws
pub mod Settles
use Prim.Native.String.{slice, len}
use rabbitmq_operator.Prelude.{
  ℕ, ◌-◌, String, Bool, Option, none, some, List, [], ◌∷◌, Map, insert, delete, text_at, ◌<>◌, ltb,
  if◌then◌else◌,
}
use rabbitmq_operator.Kube.{Outcome, ok, err}
use rabbitmq_operator.Cluster.{
  RabbitmqCluster, service_sub_domain, secret_tls_enabled, additional_plugin_enabled,
}
use rabbitmq_operator.Builders.Meta.{
  ObjectMeta, ◌>>=◌, SetControllerReference, child_meta, update_meta, with_controller,
}
use rabbitmq_operator.Builders.Config.{Ini, new_keys}

-- Secrets of type Opaque.
-- `Data` is `none` where the map is nil, which may be read but not written.
pub record SecretObject : Type 0 where
  pub meta : ObjectMeta
  pub entries : Option (Map String)

-- The entries that can be read.
abbrev pub data_of : SecretObject → Map String
data_of secret = elim secret.entries [ none ↦ [] | some entries ↦ entries ]

-- `rand.Read` of a number of bytes, the n-th call of the run, and `base64.URLEncoding.EncodeToString`.
pub record Random : Type 0 where
  pub read_bytes : ℕ → ℕ → Outcome (List ℕ)
  pub encode_to_string : List ℕ → String

abbrev pub username_prefix : String
username_prefix = "default_user_"

module _ (random : Random) where
  unfoldable pub random_encoded_string : ℕ → ℕ → Outcome String
  random_encoded_string turn data_len = do
    bytes ← random.read_bytes turn data_len
    ok (random.encode_to_string bytes)

  -- `none` is the panic of a slice out of range.
  unfoldable pub generate_username : ℕ → ℕ → Outcome (Option String)
  unfolding random_encoded_string
  generate_username turn l = do
    encoded ← random_encoded_string turn l
    ok (
        if ltb (len encoded) (len username_prefix)
        then none
        else some (username_prefix <> slice encoded 0 (len encoded - len username_prefix)))

  -- `Build` of the Erlang cookie.
  unfoldable pub build_erlang_cookie : RabbitmqCluster → Outcome SecretObject
  unfolding random_encoded_string child_meta
  build_erlang_cookie cluster = do
    cookie ← random_encoded_string 0 24
    ok (record {
      meta = child_meta cluster "erlang-cookie";
      entries = some ((".erlang.cookie", cookie) ∷ []);
    })

unfoldable pub update_erlang_cookie :
    SetControllerReference → RabbitmqCluster → SecretObject → Outcome SecretObject
unfolding update_meta with_controller
update_erlang_cookie set cluster secret = do
  meta ← with_controller set cluster (update_meta cluster secret.meta)
  ok (record secret { meta = meta })

-- The entry of the port of one plugin: set if the plugin is enabled, deleted if not.
unfoldable pub update_port_entry :
    RabbitmqCluster → String → String → String → String → Map String → Map String
unfolding additional_plugin_enabled secret_tls_enabled
update_port_entry cluster plugin port_name port tls_port entries =
    let value = if secret_tls_enabled cluster then tls_port else port in
    if additional_plugin_enabled cluster plugin
    then insert port_name value entries
    else delete port_name entries

-- The source ranges over a map of the five plugins, in any order: their entries differ. The data are
-- not nil here: the callers below build them, or end in the panic where they are nil.
unfoldable pub update_ports : RabbitmqCluster → Map String → Map String
unfolding update_port_entry secret_tls_enabled
update_ports cluster entries =
    let amqp = insert "port" (if secret_tls_enabled cluster then "5671" else "5672") entries in
    let mqtt = update_port_entry cluster "rabbitmq_mqtt" "mqtt-port" "1883" "8883" amqp in
    let stomp = update_port_entry cluster "rabbitmq_stomp" "stomp-port" "61613" "61614" mqtt in
    let stream = update_port_entry cluster "rabbitmq_stream" "stream-port" "5552" "5551" stomp in
    let web_mqtt =
      update_port_entry cluster "rabbitmq_web_mqtt" "web-mqtt-port" "15675" "15676" stream in
    update_port_entry cluster "rabbitmq_web_stomp" "web-stomp-port" "15674" "15673" web_mqtt

unfoldable pub update_connection_string : RabbitmqCluster → Map String → Map String
unfolding secret_tls_enabled
update_connection_string cluster entries =
    let scheme = if secret_tls_enabled cluster then "amqps://" else "amqp://" in
    insert "connection_string"
      (scheme
        <> text_at "username" entries
        <> ":"
        <> text_at "password" entries
        <> "@"
        <> text_at "host" entries
        <> ":"
        <> text_at "port" entries
        <> "/")
      entries

-- The first write to a nil map is a panic, which is `none`; it comes before the owner is set.
unfoldable pub update_default_user_secret :
    SetControllerReference → RabbitmqCluster → SecretObject → Outcome (Option SecretObject)
unfolding update_meta with_controller update_ports update_connection_string
update_default_user_secret set cluster secret = elim secret.entries [
  | none ↦ ok none
  | some entries ↦ (do
    meta ← with_controller set cluster (update_meta cluster secret.meta)
    ok (
        some (record {
          meta = meta;
          entries = some (update_connection_string cluster (update_ports cluster entries));
        })))
]

-- The text of `default_user.conf`.
unfoldable pub generate_default_user_conf : Ini → String → String → Outcome String
unfolding new_keys
generate_default_user_conf ini username password = do
  cfg ← ini.load ""
  keyed ← new_keys ini cfg (("default_user", username) ∷ ("default_pass", password) ∷ [])
  ini.write keyed

-- `Build` of the secret of the default user; `none` is the panic of `generateUsername`.
unfoldable pub build_default_user_secret :
    Random → Ini → RabbitmqCluster → Outcome (Option SecretObject)
unfolding generate_username random_encoded_string generate_default_user_conf child_meta
    service_sub_domain update_ports update_connection_string
build_default_user_secret random ini cluster = do
  username ← generate_username random 0 24
  elim username [
    | none ↦ ok none
    | some name ↦ (do
      password ← random_encoded_string random 1 24
      conf ← generate_default_user_conf ini name password
      ok (
          some (record {
            meta = child_meta cluster "default-user";
            entries = some (
                update_connection_string cluster (
                  update_ports cluster (
                    ("username", name)
                    ∷ ("password", password)
                    ∷ ("default_user.conf", conf)
                    ∷ ("type", "rabbitmq")
                    ∷ ("provider", "rabbitmq")
                    ∷ ("host", service_sub_domain cluster)
                    ∷ [])));
          })))
  ]
