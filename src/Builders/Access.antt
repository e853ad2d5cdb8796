-- ===== src/Builders/Access.antt =====
-- internal/resource/role.go, role_binding.go, service_account.go, and the builder of the plugins' config
-- map of rabbitmq_plugins.go.
use rabbitmq_operator.Prelude.{String, List, [], ◌∷◌, insert, ◌<>◌, join_with}
use rabbitmq_operator.Kube.{Outcome, ok}
use rabbitmq_operator.Cluster.{RabbitmqCluster, child_resource_name}
use rabbitmq_operator.Controller.Cli.{desired_plugins}
use rabbitmq_operator.Builders.Meta.{
  ObjectMeta, ◌>>=◌, SetControllerReference, child_meta, update_meta, with_controller,
}
use rabbitmq_operator.Builders.Config.{ConfigMapObject}

-- `rbacv1.PolicyRule`
pub record PolicyRule : Type 0 where
  pub api_groups : List String
  pub resources : List String
  pub verbs : List String

pub record RoleObject : Type 0 where
  pub meta : ObjectMeta
  pub rules : List PolicyRule

pub record RoleRef : Type 0 where
  pub api_group : String
  pub kind : String
  pub name : String

pub record Subject : Type 0 where
  pub kind : String
  pub name : String

pub record RoleBindingObject : Type 0 where
  pub meta : ObjectMeta
  pub role_ref : RoleRef
  pub subjects : List Subject

pub record ServiceAccountObject : Type 0 where
  pub meta : ObjectMeta

abbrev peer_discovery_rules : List PolicyRule
peer_discovery_rules =
    record { api_groups = "" ∷ []; resources = "endpoints" ∷ []; verbs = "get" ∷ [] }
    ∷ record { api_groups = "" ∷ []; resources = "events" ∷ []; verbs = "create" ∷ [] }
    ∷ []

unfoldable pub build_role : RabbitmqCluster → RoleObject
unfolding child_meta
build_role cluster = record { meta = child_meta cluster "peer-discovery"; rules = [] }

unfoldable pub build_role_binding : RabbitmqCluster → RoleBindingObject
unfolding child_meta
build_role_binding cluster = record {
  meta = child_meta cluster "server";
  role_ref = record { api_group = ""; kind = ""; name = "" };
  subjects = [];
}

unfoldable pub build_service_account : RabbitmqCluster → ServiceAccountObject
unfolding child_meta
build_service_account cluster = record { meta = child_meta cluster "server" }

-- `desiredPluginsAsString`
unfoldable pub desired_plugins_as_string : List String → String
unfolding desired_plugins
desired_plugins_as_string additional = "[" <> join_with "," (desired_plugins additional) <> "]."

unfoldable pub build_plugins_config_map : RabbitmqCluster → ConfigMapObject
unfolding child_meta desired_plugins_as_string
build_plugins_config_map cluster = record {
  meta = child_meta cluster "plugins-conf";
  entries = ("enabled_plugins", desired_plugins_as_string []) ∷ [];
}

module _ (set : SetControllerReference) (cluster : RabbitmqCluster) where
  unfoldable pub update_role : RoleObject → Outcome RoleObject
  unfolding update_meta with_controller
  update_role role = do
    meta ← with_controller set cluster (update_meta cluster role.meta)
    ok (record { meta = meta; rules = peer_discovery_rules })

  unfoldable pub update_role_binding : RoleBindingObject → Outcome RoleBindingObject
  unfolding update_meta with_controller child_resource_name
  update_role_binding binding = do
    meta ← with_controller set cluster (update_meta cluster binding.meta)
    ok (record {
      meta = meta;
      role_ref = record {
        api_group = "rbac.authorization.k8s.io";
        kind = "Role";
        name = child_resource_name cluster "peer-discovery";
      };
      subjects =
          record { kind = "ServiceAccount"; name = child_resource_name cluster "server" } ∷ [];
    })

  unfoldable pub update_service_account : ServiceAccountObject → Outcome ServiceAccountObject
  unfolding update_meta with_controller
  update_service_account account = do
    meta ← with_controller set cluster (update_meta cluster account.meta)
    ok (record { meta = meta })

  unfoldable pub update_plugins_config_map : ConfigMapObject → Outcome ConfigMapObject
  unfolding update_meta with_controller desired_plugins_as_string
  update_plugins_config_map config_map = do
    meta ← with_controller set cluster (update_meta cluster config_map.meta)
    ok (record {
      meta = meta;
      entries =
          insert "enabled_plugins"
            (desired_plugins_as_string cluster.spec.rabbitmq.additional_plugins) config_map.entries;
    })
