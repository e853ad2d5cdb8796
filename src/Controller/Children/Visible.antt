-- ===== src/Controller/Children/Visible.antt =====
-- Which objects the loop writes for the builders that the operator has.
use rabbitmq_operator.Prelude.{
  String, Bool, true, some, Option, none, some, List, [], ◌∷◌, map, lookup, ◌≡◌, ap, ◌∙◌, subst,
  All,
}
use rabbitmq_operator.Kube.{Outcome, ok, ClaimTemplate, Object}
use rabbitmq_operator.Cluster.{RabbitmqCluster}
use rabbitmq_operator.Setup.Options.{rmq_selector}
use rabbitmq_operator.Server.{Server}
use rabbitmq_operator.Server.Emits.{Emits}
use rabbitmq_operator.Builders.Meta.{ObjectMeta, ◌>>=◌, bind_passed, ok_injective}
use rabbitmq_operator.Builders.Secrets.{SecretObject, update_default_user_secret}
use rabbitmq_operator.Builders.Services.{ServiceObject, update_service}
use rabbitmq_operator.Builders.StatefulSet.{StatefulSetObject}
use rabbitmq_operator.Builders.StatefulSet.Override.{update_statefulset_object}
use rabbitmq_operator.Builders.Catalogue.{
  ChildBuilder, headless_service, service, erlang_cookie, default_user_secret, plugins_config_map,
  server_config_map, service_account, role, role_binding, statefulset, resource_builders,
}
use rabbitmq_operator.Controller.Resources.{apply_builders}
use rabbitmq_operator.Controller.Resources.Calls.{Builds, Updates, GivesKey, LiesIn, IsChildCall}
use rabbitmq_operator.Controller.Resources.Loop.{apply_builders-Emits}
use rabbitmq_operator.Controller.Children.{
  Kind, Outside, to_object, flagged_builder, plain_builder, keep_flag, no_claims, sts_claims,
  or_panicked, child_builder, children,
}
use rabbitmq_operator.Controller.Children.Written.{
  part_of, owned_by, Written, Owns, service_labels, statefulset_labels,
  update_headless_service-Written, update_erlang_cookie-Written, update_default_user_secret-Written,
  update_plugins_config_map-Written, update_role-Written, update_role_binding-Written,
  update_service_account-Written, update_server_config_map-Written,
}
use rabbitmq_operator.Controller.Children.Places.{unpanicked, child-Builds}
use rabbitmq_operator.Controller.Children.Overrides.{
  update_service-Written, update_statefulset_object-Written,
}

-- The object carries the label with the value that the selector of the cache requires, and an owner
-- reference to the cluster with the UID.
abbrev pub IsVisible : String → Object → Type 0
IsVisible uid o =
    (lookup rmq_selector.label o.labels ≡ some rmq_selector.value)
    × (owned_by uid o.owner_references ≡ true)

module _ {A : Type 0} (kind : Kind A) (meta : A → ObjectMeta)
    (claims : A → Option (List ClaimTemplate)) where
  -- The `Update` of a builder with the flag.
  abbrev flagged : (Bool → A → Outcome (A × Bool)) → Bool → Object → Outcome (Object × Bool)
  flagged update restart o = update restart (kind.read o) >>= λ changed.
      ok (to_object kind meta claims changed.0, changed.1)

  flagged-Written :
      (uid : String) (update : Bool → A → Outcome (A × Bool))
      → ((restart flag : Bool) (a b : A) → update restart a ≡ ok (b, flag) → Written uid (meta b))
      → (restart flag : Bool) (o o' : Object) → flagged update restart o ≡ ok (o', flag)
      → IsVisible uid o'
  unfolding to_object
  flagged-Written uid update writes restart flag o o' e =
      bind_passed (update restart (kind.read o)) _ e λ changed p q.
        subst (λ z. IsVisible uid z.0) (ok_injective q)
          (writes restart changed.1 (kind.read o) changed.0 p)

  plain-Written :
      (uid : String) (update : A → Outcome A)
      → ((a b : A) → update a ≡ ok b → Written uid (meta b))
      → (restart flag : Bool) (o o' : Object) → flagged (keep_flag update) restart o ≡ ok (o', flag)
      → IsVisible uid o'
  plain-Written uid update writes = flagged-Written uid (keep_flag update) λ restart flag a b e.
      bind_passed (update a) (λ changed. ok (changed, restart)) e
        λ changed p q.
          subst (λ z. Written uid (meta z)) (ap (λ z. z.0) (ok_injective q)) (writes a changed p)

module _ (outside : Outside) (owns : Owns outside.set_owner) (c : RabbitmqCluster)
    (free : lookup part_of (service_labels c) ≡ none)
    (free_sts : lookup part_of (statefulset_labels c) ≡ none) where
  service-Written :
      (a b : ServiceObject)
      → (update_service outside.set_owner outside.patch_service c a >>= λ r. ok r.1) ≡ ok b
      → Written c.uid b.meta
  service-Written a b e =
      bind_passed (update_service outside.set_owner outside.patch_service c a) _ e λ r p q.
        subst (λ z. Written c.uid z.meta) (ok_injective q)
          (update_service-Written outside.set_owner owns outside.patch_service c r.0 a r.1 free p)

  statefulset-Written :
      (a b : StatefulSetObject)
      → (update_statefulset_object outside.set_owner outside.patch_pod c a
          >>= or_panicked outside c)
        ≡ ok b
      → Written c.uid b.meta
  statefulset-Written a b e =
      bind_passed (update_statefulset_object outside.set_owner outside.patch_pod c a) _ e λ r p q.
        update_statefulset_object-Written outside.set_owner outside.patch_pod c owns a b free_sts
          (p ∙ ap ok (unpanicked outside c r b q))

  user_secret-Written :
      (a b : SecretObject)
      → (update_default_user_secret outside.set_owner c a >>= or_panicked outside c) ≡ ok b
      → Written c.uid b.meta
  user_secret-Written a b e =
      bind_passed (update_default_user_secret outside.set_owner c a) _ e λ r p q.
        update_default_user_secret-Written outside.set_owner owns c a b
          (p ∙ ap ok (unpanicked outside c r b q))

  child-Updates : (child : ChildBuilder) → Updates (IsVisible c.uid) (child_builder outside c child)
  unfolding child_builder flagged_builder plain_builder
  child-Updates headless_service =
      plain-Written outside.services (λ s. s.meta) no_claims c.uid _
        (update_headless_service-Written outside.set_owner owns c)
  child-Updates service =
      plain-Written outside.services (λ s. s.meta) no_claims c.uid _ service-Written
  child-Updates erlang_cookie =
      plain-Written outside.secrets (λ s. s.meta) no_claims c.uid _
        (update_erlang_cookie-Written outside.set_owner owns c)
  child-Updates default_user_secret =
      plain-Written outside.secrets (λ s. s.meta) no_claims c.uid _ user_secret-Written
  child-Updates plugins_config_map =
      plain-Written outside.config_maps (λ s. s.meta) no_claims c.uid _
        (update_plugins_config_map-Written outside.set_owner owns c)
  child-Updates server_config_map =
      flagged-Written outside.config_maps (λ s. s.meta) no_claims c.uid _
        (update_server_config_map-Written outside.set_owner owns outside.ini
          outside.config_map_equal c)
  child-Updates service_account =
      plain-Written outside.service_accounts (λ s. s.meta) no_claims c.uid _
        (update_service_account-Written outside.set_owner owns c)
  child-Updates role =
      plain-Written outside.roles (λ s. s.meta) no_claims c.uid _
        (update_role-Written outside.set_owner owns c)
  child-Updates role_binding =
      plain-Written outside.role_bindings (λ s. s.meta) no_claims c.uid _
        (update_role_binding-Written outside.set_owner owns c)
  child-Updates (statefulset index) =
      plain-Written outside.statefulsets (λ s. s.meta) sts_claims c.uid _ statefulset-Written

All-map {ℓ κ} :
    {A : Type 0} {B : Type ℓ} (P : B → Type κ) (f : A → B) (l : List A)
    → ((a : A) → P (f a))
    → All P (map f l)
All-map P f [] h = tt
All-map P f (x ∷ l) h = (h x, All-map P f l h)

-- Given that the API server answers a read with an object of its key, that setting the owner leaves a
-- reference to the cluster, and that the overrides do not set the label `app.kubernetes.io/part-of`:
-- whatever else the API server answers, the loop over the children of a cluster reads, creates and
-- updates child objects only in the namespace of the cluster; those that it creates and updates carry
-- the label that the selector of the cache asks for, and an owner reference to the cluster; it deletes
-- only StatefulSets of the namespace, with the orphan policy, and updates only claims of the namespace.
-- A config map that it updates is one that the server has returned with only the annotation of an
-- update of the plugins or of the server set to a time, and a StatefulSet one that the server has
-- returned with only the annotation of its creation set to a time. Its other calls are reads, waits and
-- events.
pub children-Emits :
    (server : Server) (outside : Outside) (c : RabbitmqCluster)
    → GivesKey server
    → Owns outside.set_owner
    → lookup part_of (service_labels c) ≡ none
    → lookup part_of (statefulset_labels c) ≡ none
    → Emits
        (IsChildCall server c.namespace (IsVisible c.uid))
        (apply_builders server (children outside c))
unfolding children
children-Emits server outside c gives owns free free_sts =
    apply_builders-Emits server c.namespace (IsVisible c.uid) gives (children outside c) (
      All-map (λ b. Builds (LiesIn c.namespace) b × Updates (IsVisible c.uid) b)
        (child_builder outside c) (resource_builders c c.spec.replicas)
        (λ child. (child-Builds outside c child, child-Updates outside owns c free free_sts child)))
