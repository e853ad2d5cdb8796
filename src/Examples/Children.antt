-- ===== src/Examples/Children.antt =====
-- The theorems on services, secrets, merges and builders at concrete inputs.
use rabbitmq_operator.Prelude.{
  ◌≤◌, String, Bool, true, false, some, none, List, [], ◌∷◌, ◌++◌, ◌≡◌, refl, arith, length,
  text_at, Option, ◌<>◌, All, if◌then◌else◌, lookup, ◌==◌,
}
use rabbitmq_operator.Kube.{Outcome, ok, err, OwnerReference}
use rabbitmq_operator.Cluster.{
  RabbitmqCluster, secret_tls_enabled, mutual_tls_enabled, additional_plugin_enabled,
}
use rabbitmq_operator.Ports.{ServicePort, new_port_manager, client_service_ports, amqps_port}
use rabbitmq_operator.Ports.Names.{port_name, client_service_ports-IsUnique}
use rabbitmq_operator.Merge.{merge_by, update_port}
use rabbitmq_operator.Merge.Reference.{
  find_by, position, IsUnique, combined, upsert_all, merge_by-upsert_all, find_by-merge_by,
}
use rabbitmq_operator.Builders.Services.{ServiceObject, build_service, update_service}
use rabbitmq_operator.Builders.Services.Settles.{update_service_settles}
use rabbitmq_operator.Builders.Services.Laws.{
  update_port_keeps, desired, exposed, update_service_ports,
}
use rabbitmq_operator.Builders.Secrets.{
  Random, data_of, SecretObject, build_default_user_secret, update_default_user_secret,
  update_ports,
}
use rabbitmq_operator.Builders.Secrets.Laws.{
  update_default_user_secret-keeps, web_mqtt_port_missing,
}
use rabbitmq_operator.Builders.Pods.{EnvVar, value, ClaimObject}
use rabbitmq_operator.Builders.StatefulSet.{build_statefulset}
use rabbitmq_operator.Builders.Pods.Containers.{
  envs, container_rabbitmq, container_setup, container_user_credential_updater,
}
use rabbitmq_operator.Builders.Pods.Order.{sort_env_var, count, env_var_place}
use rabbitmq_operator.Builders.Pods.Order.Places.{
  sort_env_var-count, sort_env_var-behind, pod_name_var, pod_namespace_var, service_name_var,
}
use rabbitmq_operator.Builders.Pods.Mounts.{Mounted, mounts-Mounted}
use rabbitmq_operator.Examples.Data.{cluster, spec}
use rabbitmq_operator.Examples.Files.{files}
use rabbitmq_operator.Examples.Builders.{set_owner, value_or, is_ok, is_ok_value}

-- A port that a load balancer has been given, and one that the user has added.
abbrev current_ports : List ServicePort
current_ports =
    record amqps_port { node_port = 30_001 }
    ∷ record amqps_port { name = "extra"; port = 9_999 }
    ∷ []

current-IsUnique : IsUnique port_name current_ports
unfolding position
current-IsUnique = (refl, (refl, tt))

abbrev next_ports : List ServicePort
next_ports = client_service_ports (new_port_manager cluster)

merge_by-upsert_all_example :
    merge_by port_name update_port current_ports next_ports
    ≡ upsert_all port_name update_port current_ports next_ports
merge_by-upsert_all_example =
    merge_by-upsert_all port_name update_port update_port_keeps current_ports next_ports
      current-IsUnique

find_by-merge_by_example :
    IsUnique port_name (merge_by port_name update_port current_ports next_ports)
    × ((k : String)
        → find_by port_name k (merge_by port_name update_port current_ports next_ports)
          ≡ combined port_name update_port
              (find_by port_name k current_ports)
              (find_by port_name k next_ports))
find_by-merge_by_example =
    find_by-merge_by port_name update_port update_port_keeps current_ports next_ports
      current-IsUnique (client_service_ports-IsUnique (new_port_manager cluster))

abbrev service : ServiceObject
service =
    let built = build_service cluster in
    record built { spec = record built.spec { ports = current_ports } }

abbrev service_run : Outcome (RabbitmqCluster × ServiceObject)
service_run = update_service set_owner (λ s text. ok s) cluster service

abbrev updated_service : RabbitmqCluster × ServiceObject
updated_service = value_or (cluster, service) service_run

service_runs : is_ok service_run ≡ true
unfolding update_service build_service
service_runs = refl

update_service_ports_example :
    (find_by port_name "amqps" updated_service.1.spec.ports
      ≡ exposed cluster (desired cluster service.spec.ports "amqps"))
    × (updated_service.1.spec.service_type ≡ updated_service.0.spec.service.service_type)
    × ((updated_service.0.spec.service.service_type == "") ≡ false)
update_service_ports_example =
    update_service_ports set_owner (λ s text. ok s) cluster updated_service.0 service
      updated_service.1 "amqps" refl current-IsUnique
      (is_ok_value (cluster, service) service_run service_runs)

abbrev second_run : Outcome (RabbitmqCluster × ServiceObject)
second_run = update_service set_owner (λ s text. ok s) updated_service.0 updated_service.1

abbrev updated_again : RabbitmqCluster × ServiceObject
updated_again = value_or (cluster, service) second_run

second_runs : is_ok second_run ≡ true
unfolding update_service build_service
second_runs = refl

update_service_settles_example :
    (updated_again.0 ≡ updated_service.0)
    × (updated_again.1.spec ≡ updated_service.1.spec)
    × (updated_again.1.meta.labels ≡ updated_service.1.meta.labels)
    × (updated_again.1.meta.owner_references ≡ updated_service.1.meta.owner_references)
    × (lookup "team" updated_again.1.meta.annotations
        ≡ lookup "team" updated_service.1.meta.annotations)
update_service_settles_example =
    update_service_settles set_owner (λ s text. ok s) cluster updated_service.0 updated_again.0
      service updated_service.1 updated_again.1 "team"
      (λ c m n owners e same_owners same_namespace. e) refl current-IsUnique
      (is_ok_value (cluster, service) service_run service_runs)
      (is_ok_value (cluster, service) second_run second_runs)

abbrev pub random : Random
random = record {
  read_bytes = λ turn n. ok (turn ∷ n ∷ []);
  encode_to_string = λ bytes. "MDEyMzQ1Njc4OTAxMjM0NTY3ODkwMTIz";
}

abbrev pub no_secret : SecretObject
no_secret = record { meta = service.meta; entries = some [] }

abbrev secret : SecretObject
secret = elim (build_default_user_secret random files cluster) [
  | err e ↦ no_secret
  | ok made ↦ elim made [ none ↦ no_secret | some s ↦ s ]
]

abbrev secret_run : Outcome (Option SecretObject)
secret_run = update_default_user_secret set_owner cluster secret

abbrev updated_secret : SecretObject
updated_secret = elim (value_or none secret_run) [ none ↦ secret | some s ↦ s ]

secret_runs : secret_run ≡ ok (some updated_secret)
unfolding update_default_user_secret build_default_user_secret files
secret_runs = refl

update_default_user_secret-keeps_example :
    let new = λ (k : String). text_at k (data_of updated_secret) in
    let old = λ (k : String). text_at k (data_of secret) in
    (new "username" ≡ old "username")
    × (new "password" ≡ old "password")
    × (new "host" ≡ old "host")
    × (new "default_user.conf" ≡ old "default_user.conf")
    × (new "connection_string"
        ≡ (if secret_tls_enabled cluster then "amqps://" else "amqp://")
          <> new "username"
          <> ":"
          <> new "password"
          <> "@"
          <> new "host"
          <> ":"
          <> new "port"
          <> "/")
update_default_user_secret-keeps_example =
    update_default_user_secret-keeps set_owner cluster secret updated_secret secret_runs

-- TLS without a CA, and the web MQTT plugin.
abbrev web_cluster : RabbitmqCluster
web_cluster = record cluster {
  spec = record spec {
    tls = record { secret_name = "tls"; ca_secret_name = ""; disable_non_tls_listeners = false };
    rabbitmq = record spec.rabbitmq { additional_plugins = "rabbitmq_web_mqtt" ∷ [] };
  };
}

web_tls :
    (secret_tls_enabled web_cluster ≡ true)
    × (mutual_tls_enabled web_cluster ≡ false)
    × (additional_plugin_enabled web_cluster "rabbitmq_web_mqtt" ≡ true)
unfolding secret_tls_enabled mutual_tls_enabled additional_plugin_enabled
web_tls = (refl, refl, refl)

abbrev web_run : Outcome (RabbitmqCluster × ServiceObject)
web_run = update_service set_owner (λ s text. ok s) web_cluster service

abbrev web_updated : RabbitmqCluster × ServiceObject
web_updated = value_or (cluster, service) web_run

web_runs : is_ok web_run ≡ true
unfolding update_service build_service
web_runs = refl

web_absent : find_by port_name "web-mqtt-tls" current_ports ≡ none
unfolding find_by
web_absent = refl

web_mqtt_port_missing_example :
    (lookup "web-mqtt-port" (update_ports web_cluster (data_of secret)) ≡ some "15676")
    × (find_by port_name "web-mqtt-tls" web_updated.1.spec.ports ≡ none)
web_mqtt_port_missing_example =
    web_mqtt_port_missing set_owner (λ s text. ok s) web_cluster web_updated.0 service web_updated.1
      (data_of secret) web_tls.0 web_tls.1 web_tls.2 refl current-IsUnique web_absent
      (is_ok_value (cluster, service) web_run web_runs)

abbrev set_claims : List ClaimObject
set_claims = (build_statefulset cluster set_owner 0).spec.volume_claim_templates

abbrev owners : List OwnerReference
owners = record { uid = cluster.uid; block_owner_deletion = some true } ∷ []

mounts-Mounted_example :
    All (Mounted set_claims cluster) (container_rabbitmq cluster).volume_mounts
    × All (Mounted set_claims cluster) (container_setup cluster).volume_mounts
    × All
        (Mounted set_claims cluster)
        (container_user_credential_updater cluster "updater:1").volume_mounts
mounts-Mounted_example = mounts-Mounted cluster set_owner 0 "updater:1" owners refl

abbrev test_var : EnvVar
test_var = record { name = "test1"; source = value "test1" }

sort_env_var-count_example :
    (m : List EnvVar) × (sort_env_var (test_var ∷ envs cluster) ≡ some m)
    × ((is_it : EnvVar → Bool) → count is_it m ≡ count is_it (test_var ∷ envs cluster))
sort_env_var-count_example = sort_env_var-count (test_var ∷ envs cluster) enough
  where
    enough : 3 ≤ length (test_var ∷ envs cluster)
    enough = unfold envs in omega arith

test_var_free : env_var_place test_var ≡ none
unfolding env_var_place
test_var_free = refl

sort_env_var-behind_example :
    sort_env_var (test_var ∷ envs cluster ++ [])
    ≡ some (test_var ∷ pod_namespace_var ∷ service_name_var cluster ∷ pod_name_var ∷ [])
sort_env_var-behind_example = sort_env_var-behind cluster test_var [] test_var_free tt
