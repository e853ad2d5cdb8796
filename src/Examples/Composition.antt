-- ===== src/Examples/Composition.antt =====
-- The theorem on the children of a cluster at a concrete API server that knows every object.
use rabbitmq_operator.Prelude.{true, lookup, ◌==◌, ◌||◌, ◌≡◌, refl, subst, false, sym, ap, eq_iff}
use rabbitmq_operator.Kube.{ok, plain}
use rabbitmq_operator.Server.{Server}
use rabbitmq_operator.Server.Emits.{Emits}
use rabbitmq_operator.Builders.Meta.{ObjectMeta, ok_injective}
use rabbitmq_operator.Builders.Config.{build_server_config_map}
use rabbitmq_operator.Builders.Services.{PatchService, build_service}
use rabbitmq_operator.Builders.Access.{build_service_account, build_role, build_role_binding}
use rabbitmq_operator.Builders.StatefulSet.{build_statefulset}
use rabbitmq_operator.Controller.Resources.{apply_builders}
use rabbitmq_operator.Controller.Resources.Calls.{GivesKey, IsChildCall}
use rabbitmq_operator.Controller.Children.{Kind, Outside, children}
use rabbitmq_operator.Controller.Children.Written.{owned_by, Owns}
use rabbitmq_operator.Controller.Children.Visible.{IsVisible, children-Emits}
use rabbitmq_operator.Examples.Data.{cluster, server, object}
use rabbitmq_operator.Examples.Builders.{set_owner}
use rabbitmq_operator.Examples.Children.{random, no_secret}
use rabbitmq_operator.Examples.StatefulSets.{keep_pod}
use rabbitmq_operator.Examples.Equality.{semantic_equal}
use rabbitmq_operator.Examples.Files.{files}

-- An API server that has every child already.
abbrev full_server : Server
full_server = record server {
  on_get_object = λ h t k. ok (record object { type_name = t; key = k });
}

full_server-GivesKey : GivesKey full_server
full_server-GivesKey h t k o e = sym (ap (λ x. x.key) (ok_injective e))

-- Every object of a type is read as one with the key of the object.
abbrev kind : {A : Type 0} → (A → ObjectMeta → A) → (A → ObjectMeta) → A → Kind A
kind put meta_of a = record {
  type_name = "*v1.Object";
  content = λ b. "";
  read = λ o. put a (record (meta_of a) {
    name = o.key.name;
    namespace = o.key.namespace;
    labels = o.labels;
    owner_references = o.owner_references;
  });
}

abbrev keep_service : PatchService
keep_service settings text = ok settings

abbrev outside : Outside
outside = record {
  ini = files;
  cookie_random = random;
  user_random = random;
  set_owner = set_owner;
  patch_service = keep_service;
  patch_pod = keep_pod;
  config_map_equal = semantic_equal;
  panicked = plain "panic";
  services = kind (λ a m. record a { meta = m }) (λ a. a.meta) (build_service cluster);
  secrets = kind (λ a m. record a { meta = m }) (λ a. a.meta) no_secret;
  config_maps = kind (λ a m. record a { meta = m }) (λ a. a.meta) (build_server_config_map cluster);
  service_accounts =
      kind (λ a m. record a { meta = m }) (λ a. a.meta) (build_service_account cluster);
  roles = kind (λ a m. record a { meta = m }) (λ a. a.meta) (build_role cluster);
  role_bindings = kind (λ a m. record a { meta = m }) (λ a. a.meta) (build_role_binding cluster);
  statefulsets =
      kind (λ a m. record a { meta = m }) (λ a. a.meta) (build_statefulset cluster set_owner 0);
}

set_owner-Owns : Owns set_owner
set_owner-Owns c m owners e =
    let same : (c.uid == c.uid) ≡ true = (eq_iff c.uid c.uid).1 refl in
    subst (λ o. owned_by c.uid o ≡ true) (ok_injective e) (ap (λ b. b || false) same)

children-Emits_example :
    Emits
      (IsChildCall full_server "prod" (IsVisible "u1"))
      (apply_builders full_server (children outside cluster))
unfolding lookup
children-Emits_example =
    children-Emits full_server outside cluster full_server-GivesKey set_owner-Owns refl refl
