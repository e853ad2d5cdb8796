-- ===== src/Controller/Children/Places.antt =====
-- Where the objects lie that the builders of the operator build.
use rabbitmq_operator.Prelude.{
  String, Option, none, some, List, ◌≡◌, refl, sym, ap, ◌∙◌, Option-cases, inl, inr,
}
use rabbitmq_operator.Kube.{Outcome, ok, ClaimTemplate, Object}
use rabbitmq_operator.Cluster.{RabbitmqCluster}
use rabbitmq_operator.Builders.Meta.{ObjectMeta, ◌>>=◌, bind_passed, ok_injective}
use rabbitmq_operator.Builders.Secrets.{
  SecretObject, random_encoded_string, generate_username, generate_default_user_conf,
  build_erlang_cookie, build_default_user_secret,
}
use rabbitmq_operator.Builders.Config.{build_server_config_map}
use rabbitmq_operator.Builders.Access.{
  build_role, build_role_binding, build_service_account, build_plugins_config_map,
}
use rabbitmq_operator.Builders.Services.{build_service, build_headless_service}
use rabbitmq_operator.Builders.StatefulSet.{build_statefulset}
use rabbitmq_operator.Builders.Catalogue.{
  ChildBuilder, headless_service, service, erlang_cookie, default_user_secret, plugins_config_map,
  server_config_map, service_account, role, role_binding, statefulset,
}
use rabbitmq_operator.Controller.Resources.Calls.{Builds, LiesIn}
use rabbitmq_operator.Controller.Children.{
  Kind, Outside, to_object, flagged_builder, plain_builder, no_claims, sts_claims, or_panicked,
  child_builder,
}

module _ {A : Type 0} (kind : Kind A) (meta : A → ObjectMeta)
    (claims : A → Option (List ClaimTemplate)) where
  -- The `Build` of a builder.
  abbrev built : Outcome A → Outcome Object
  built build = build >>= λ a. ok (to_object kind meta claims a)

  built-LiesIn :
      (namespace : String) (build : Outcome A)
      → ((a : A) → build ≡ ok a → (meta a).namespace ≡ namespace)
      → (o : Object) → built build ≡ ok o
      → LiesIn namespace o
  unfolding to_object
  built-LiesIn namespace build in_place o e =
      bind_passed build _ e λ a p q. sym (ap (λ z. z.key.namespace) (ok_injective q)) ∙ in_place a p

pub unpanicked :
    {A : Type 0} (outside : Outside) (c : RabbitmqCluster) (r : Option A) (a : A)
    → or_panicked outside c r ≡ ok a
    → r ≡ some a
unfolding or_panicked
unpanicked outside c none a e = absurd (cc e)
unpanicked outside c (some x) a e = ap some (ok_injective e)

cookie_namespace :
    (outside : Outside) (c : RabbitmqCluster) (a : SecretObject)
    → build_erlang_cookie outside.cookie_random c ≡ ok a
    → a.meta.namespace ≡ c.namespace
unfolding build_erlang_cookie
cookie_namespace outside c a e =
    bind_passed (random_encoded_string outside.cookie_random 0 24) _ e
      λ cookie p q. sym (ap (λ z. z.meta.namespace) (ok_injective q))

some_injective : {A : Type 0} (a b : A) → some a ≡ some b → a ≡ b
some_injective a b e = cc e

user_namespace :
    (outside : Outside) (c : RabbitmqCluster) (a : SecretObject)
    → build_default_user_secret outside.user_random outside.ini c ≡ ok (some a)
    → a.meta.namespace ≡ c.namespace
unfolding build_default_user_secret
user_namespace outside c a e =
    bind_passed (generate_username outside.user_random 0 24) _ e λ username p q.
      elim (Option-cases username) [
        | inl n ↦ absurd (cc (simp (n) at q))
        | inr (name, n) ↦
            bind_passed (random_encoded_string outside.user_random 1 24) _ (simp (n) at q)
              λ password p1 q1.
                bind_passed (generate_default_user_conf outside.ini name password) _ q1
                  λ conf p2 q2.
                    sym (ap (λ z. z.meta.namespace) (some_injective _ a (ok_injective q2)))
      ]

module _ (outside : Outside) (c : RabbitmqCluster) where
  user-Builds :
      (a : SecretObject)
      → (build_default_user_secret outside.user_random outside.ini c >>= or_panicked outside c)
        ≡ ok a
      → a.meta.namespace ≡ c.namespace
  user-Builds a e =
      bind_passed (build_default_user_secret outside.user_random outside.ini c) _ e
        λ r p q. user_namespace outside c a (p ∙ ap ok (unpanicked outside c r a q))

  -- What is built without an error.
  made :
      {A : Type 0} (meta : A → ObjectMeta) (built a : A)
      → (meta built).namespace ≡ c.namespace
      → ok built ≡ ok a
      → (meta a).namespace ≡ c.namespace
  made meta built a h e = sym (ap (λ z. (meta z).namespace) (ok_injective e)) ∙ h

  pub child-Builds :
      (child : ChildBuilder) → Builds (LiesIn c.namespace) (child_builder outside c child)
  unfolding child_builder flagged_builder plain_builder build_headless_service build_service
      build_plugins_config_map build_server_config_map build_service_account build_role
      build_role_binding build_statefulset
  child-Builds headless_service =
      built-LiesIn outside.services (λ s. s.meta) no_claims c.namespace _
        (λ a. made (λ s. s.meta) (build_headless_service c) a refl)
  child-Builds service =
      built-LiesIn outside.services (λ s. s.meta) no_claims c.namespace _
        (λ a. made (λ s. s.meta) (build_service c) a refl)
  child-Builds erlang_cookie =
      built-LiesIn outside.secrets (λ s. s.meta) no_claims c.namespace _
        (cookie_namespace outside c)
  child-Builds default_user_secret =
      built-LiesIn outside.secrets (λ s. s.meta) no_claims c.namespace _ user-Builds
  child-Builds plugins_config_map =
      built-LiesIn outside.config_maps (λ s. s.meta) no_claims c.namespace _
        (λ a. made (λ s. s.meta) (build_plugins_config_map c) a refl)
  child-Builds server_config_map =
      built-LiesIn outside.config_maps (λ s. s.meta) no_claims c.namespace _
        (λ a. made (λ s. s.meta) (build_server_config_map c) a refl)
  child-Builds service_account =
      built-LiesIn outside.service_accounts (λ s. s.meta) no_claims c.namespace _
        (λ a. made (λ s. s.meta) (build_service_account c) a refl)
  child-Builds role =
      built-LiesIn outside.roles (λ s. s.meta) no_claims c.namespace _
        (λ a. made (λ s. s.meta) (build_role c) a refl)
  child-Builds role_binding =
      built-LiesIn outside.role_bindings (λ s. s.meta) no_claims c.namespace _
        (λ a. made (λ s. s.meta) (build_role_binding c) a refl)
  child-Builds (statefulset index) =
      built-LiesIn outside.statefulsets (λ s. s.meta) sts_claims c.namespace _
        (λ a. made (λ s. s.meta) (build_statefulset c outside.set_owner index) a refl)
