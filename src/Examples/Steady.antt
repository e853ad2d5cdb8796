-- ===== src/Examples/Steady.antt =====
-- The theorem on a second update of the small children at a concrete cluster.
use rabbitmq_operator.Prelude.{[], ◌∷◌, lookup, refl}
use rabbitmq_operator.Cluster.{RabbitmqCluster}
use rabbitmq_operator.Metadata.Steady.{IsMap}
use rabbitmq_operator.Builders.Meta.{IsSteady}
use rabbitmq_operator.Builders.Secrets.{update_erlang_cookie, update_default_user_secret}
use rabbitmq_operator.Ports.{epmd_port}
use rabbitmq_operator.Ports.Names.{port_name}
use rabbitmq_operator.Merge.Reference.{IsUnique, position}
use rabbitmq_operator.Builders.Services.{
  ServiceObject, build_headless_service, update_headless_service,
}
use rabbitmq_operator.Builders.Access.{
  update_role, update_role_binding, update_service_account, update_plugins_config_map,
}
use rabbitmq_operator.Builders.Steady.{SettlesUnlessPanic, Settles, SettlesAt, updates_settle}
use rabbitmq_operator.Examples.Data.{cluster}
use rabbitmq_operator.Examples.Builders.{set_owner}

abbrev annotated_cluster : RabbitmqCluster
annotated_cluster = record cluster { annotations = ("team", "a") ∷ ("cost", "b") ∷ [] }

annotated_cluster-IsMap : IsMap annotated_cluster.annotations
unfolding lookup
annotated_cluster-IsMap = (refl, (refl, tt))

set_owner-IsSteady : IsSteady set_owner
set_owner-IsSteady c m n owners e same_owners same_namespace = e

-- A headless service with a port that a user has added.
abbrev headless : ServiceObject
headless = record (build_headless_service cluster) {
  spec = record (build_headless_service cluster).spec {
    ports = record epmd_port { node_port = 30_001 } ∷ record epmd_port { name = "extra" } ∷ [];
  };
}

headless-IsUnique : IsUnique port_name headless.spec.ports
unfolding position
headless-IsUnique = (refl, (refl, tt))

updates_settle_example :
    Settles (update_erlang_cookie set_owner annotated_cluster)
    × SettlesUnlessPanic (update_default_user_secret set_owner annotated_cluster)
    × Settles (update_plugins_config_map set_owner annotated_cluster)
    × Settles (update_service_account set_owner annotated_cluster)
    × Settles (update_role set_owner annotated_cluster)
    × Settles (update_role_binding set_owner annotated_cluster)
    × SettlesAt (update_headless_service set_owner annotated_cluster) headless
updates_settle_example =
    updates_settle set_owner set_owner-IsSteady annotated_cluster annotated_cluster-IsMap headless
      headless-IsUnique
