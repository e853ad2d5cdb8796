-- ===== src/Controller/Children.antt =====
-- The builders of internal/resource as values of the interface that the loop of
-- controllers/reconcile_resources.go takes: the object of each type, as the API machinery sees it, and
-- the list of `ResourceBuilders`.
pub mod Written
pub mod Overrides
pub mod Places
pub mod Visible
use rabbitmq_operator.Prelude.{ℕ, String, Bool, true, false, Option, none, some, List, [], ◌∷◌, map}
use rabbitmq_operator.Kube.{Error, Outcome, ok, err, ClaimTemplate, Object}
use rabbitmq_operator.Cluster.{RabbitmqCluster}
use rabbitmq_operator.Builders.Meta.{ObjectMeta, ◌>>=◌, SetControllerReference}
use rabbitmq_operator.Builders.Config.{
  Ini, ConfigMapObject, build_server_config_map, update_server_config_map,
}
use rabbitmq_operator.Builders.Services.{
  ServiceObject, PatchService, build_service, update_service, default_service_type,
  build_headless_service, update_headless_service,
}
use rabbitmq_operator.Builders.Secrets.{
  SecretObject, Random, build_erlang_cookie, update_erlang_cookie, build_default_user_secret,
  update_default_user_secret,
}
use rabbitmq_operator.Builders.Access.{
  RoleObject, RoleBindingObject, ServiceAccountObject, build_role, update_role, build_role_binding,
  update_role_binding, build_service_account, update_service_account, build_plugins_config_map,
  update_plugins_config_map,
}
use rabbitmq_operator.Builders.Catalogue.{
  ChildBuilder, headless_service, service, erlang_cookie, default_user_secret, plugins_config_map,
  server_config_map, service_account, role, role_binding, statefulset, resource_builders,
}
use rabbitmq_operator.Builders.Pods.{ClaimObject}
use rabbitmq_operator.Builders.StatefulSet.{StatefulSetObject, build_statefulset}
use rabbitmq_operator.Builders.StatefulSet.Override.{PatchPod, update_statefulset_object}
use rabbitmq_operator.Controller.Annotations.{BuilderKind, other_builder, statefulset_builder}
use rabbitmq_operator.Controller.Resources.{Builder}

-- The objects of a type as a `client.Object`: how they are written as a text, and read from an object
-- of the type.
pub record Kind (A : Type 0) : Type 0 where
  pub type_name : String
  pub content : A → String
  pub read : Object → A

-- The packages that the builders call, and the API machinery. `panicked` is the error that the manager
-- makes of a panic.
pub record Outside : Type 1 where
  pub ini : Ini
  pub cookie_random : Random
  pub user_random : Random
  pub set_owner : SetControllerReference
  pub patch_service : PatchService
  pub patch_pod : PatchPod
  pub config_map_equal : ConfigMapObject → ConfigMapObject → Bool
  pub panicked : Error
  pub services : Kind ServiceObject
  pub secrets : Kind SecretObject
  pub config_maps : Kind ConfigMapObject
  pub service_accounts : Kind ServiceAccountObject
  pub roles : Kind RoleObject
  pub role_bindings : Kind RoleBindingObject
  pub statefulsets : Kind StatefulSetObject

abbrev pub claim_template : ClaimObject → ClaimTemplate
claim_template claim = record { name = claim.meta.name; storage = claim.spec.storage }

-- An `Update` that leaves the flag alone.
abbrev pub keep_flag : {A : Type 0} → (A → Outcome A) → Bool → A → Outcome (A × Bool)
keep_flag update restart a = update a >>= λ changed. ok (changed, restart)

module _ {A : Type 0} (kind : Kind A) (meta : A → ObjectMeta)
    (claims : A → Option (List ClaimTemplate)) where
  unfoldable pub to_object : A → Object
  to_object a = record {
    type_name = kind.type_name;
    key = record { namespace = (meta a).namespace; name = (meta a).name };
    labels = (meta a).labels;
    owner_references = (meta a).owner_references;
    claims = claims a;
    content = kind.content a;
  }

  -- A builder whose `Update` has a flag.
  unfoldable pub flagged_builder :
      BuilderKind → Outcome A → (Bool → A → Outcome (A × Bool)) → Builder
  unfolding to_object
  flagged_builder builder_kind build update = record {
    kind = builder_kind;
    restart = true;
    build = build >>= λ a. ok (to_object a);
    update = λ restart o.
        update restart (kind.read o) >>= λ changed. ok (to_object changed.0, changed.1);
    touch = λ rmq. rmq;
  }

  unfoldable pub plain_builder : BuilderKind → Outcome A → (A → Outcome A) → Builder
  unfolding flagged_builder
  plain_builder builder_kind build update = flagged_builder builder_kind build (keep_flag update)

abbrev pub no_claims : {A : Type 0} → A → Option (List ClaimTemplate)
no_claims a = none

abbrev pub sts_claims : StatefulSetObject → Option (List ClaimTemplate)
sts_claims sts = some (map claim_template sts.spec.volume_claim_templates)

module _ (outside : Outside) (cluster : RabbitmqCluster) where
  unfoldable pub or_panicked : {A : Type 0} → Option A → Outcome A
  or_panicked none = err outside.panicked
  or_panicked (some a) = ok a

  -- The builder of the service writes the default type of the service into the cluster, which no other
  -- builder reads.
  unfoldable pub child_builder : ChildBuilder → Builder
  unfolding plain_builder flagged_builder or_panicked build_headless_service update_headless_service
      build_service update_service build_erlang_cookie update_erlang_cookie
      build_default_user_secret update_default_user_secret build_plugins_config_map
      update_plugins_config_map build_server_config_map update_server_config_map
      build_service_account update_service_account build_role update_role build_role_binding
      update_role_binding build_statefulset update_statefulset_object
  child_builder headless_service =
      plain_builder outside.services (λ s. s.meta) no_claims other_builder
        (ok (build_headless_service cluster)) (update_headless_service outside.set_owner cluster)
  child_builder service =
      let built =
        plain_builder outside.services (λ s. s.meta) no_claims other_builder
          (ok (build_service cluster))
          (λ s. update_service outside.set_owner outside.patch_service cluster s >>= λ r. ok r.1) in
      record built { touch = default_service_type }
  child_builder erlang_cookie =
      plain_builder outside.secrets (λ s. s.meta) no_claims other_builder
        (build_erlang_cookie outside.cookie_random cluster)
        (update_erlang_cookie outside.set_owner cluster)
  child_builder default_user_secret =
      plain_builder outside.secrets (λ s. s.meta) no_claims other_builder
        (build_default_user_secret outside.user_random outside.ini cluster >>= or_panicked)
        (λ s. update_default_user_secret outside.set_owner cluster s >>= or_panicked)
  child_builder plugins_config_map =
      plain_builder outside.config_maps (λ s. s.meta) no_claims BuilderKind.plugins_config_map
        (ok (build_plugins_config_map cluster))
        (update_plugins_config_map outside.set_owner cluster)
  child_builder server_config_map =
      flagged_builder outside.config_maps (λ s. s.meta) no_claims BuilderKind.server_config_map
        (ok (build_server_config_map cluster))
        (update_server_config_map outside.ini outside.set_owner outside.config_map_equal cluster)
  child_builder service_account =
      plain_builder outside.service_accounts (λ s. s.meta) no_claims other_builder
        (ok (build_service_account cluster)) (update_service_account outside.set_owner cluster)
  child_builder role =
      plain_builder outside.roles (λ s. s.meta) no_claims other_builder (ok (build_role cluster))
        (update_role outside.set_owner cluster)
  child_builder role_binding =
      plain_builder outside.role_bindings (λ s. s.meta) no_claims other_builder
        (ok (build_role_binding cluster)) (update_role_binding outside.set_owner cluster)
  child_builder (statefulset index) =
      plain_builder outside.statefulsets (λ s. s.meta) sts_claims (statefulset_builder index)
        (ok (build_statefulset cluster outside.set_owner index))
        (λ s.
          update_statefulset_object outside.set_owner outside.patch_pod cluster s >>= or_panicked)

  -- The builders of `reconcileResources`, in its order.
  unfoldable pub children : List Builder
  unfolding child_builder resource_builders
  children = map child_builder (resource_builders cluster cluster.spec.replicas)
