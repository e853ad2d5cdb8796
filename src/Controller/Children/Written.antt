-- ===== src/Controller/Children/Written.antt =====
-- The metadata that the `Update` of each builder of internal/resource leaves: the label by which the cache of
-- main.go selects children, and the owner.
use rabbitmq_operator.Prelude.{
  String, Bool, true, false, ◌||◌, Option, none, some, List, [], ◌∷◌, Map, lookup, lookup-insert,
  ◌==◌, ◌≡◌, subst, refl, sym, ap, ◌∙◌, arith, Option-cases, inl, inr,
}
use rabbitmq_operator.Kube.{OwnerReference, ok}
use rabbitmq_operator.Cluster.{
  RabbitmqCluster, EmbeddedLabelsAnnotations, ServiceOverride, StatefulSetOverride,
}
use rabbitmq_operator.Metadata.{label}
use rabbitmq_operator.Metadata.Laws.{lookup-get_labels}
use rabbitmq_operator.Builders.Meta.{
  ObjectMeta, ◌>>=◌, wrap_error, bind_passed, wrap_passed, ok_injective, SetControllerReference,
  update_meta, with_controller,
}
use rabbitmq_operator.Builders.Config.{
  Ini, ConfigMapObject, config_texts, update_config_map, remove_config_not_requiring_node_restart,
  update_server_config_map,
}
use rabbitmq_operator.Builders.Secrets.{
  SecretObject, update_erlang_cookie, update_default_user_secret,
}
use rabbitmq_operator.Builders.Access.{
  RoleObject, RoleBindingObject, ServiceAccountObject, update_role, update_role_binding,
  update_service_account, update_plugins_config_map,
}
use rabbitmq_operator.Builders.Services.{
  ServiceObject, update_headless_service, merge_string_map, copy_labels_annotations,
}

abbrev pub part_of : String
part_of = "app.kubernetes.io/part-of"

-- Some owner has the UID.
abbrev pub owned_by : String → List OwnerReference → Bool
owned_by uid [] = false
owned_by uid (o ∷ owners) = o.uid == uid || owned_by uid owners

-- The cache of the operator selects the labels, and the cluster with the UID is among the owners.
abbrev pub IsOwned : String → Map String → List OwnerReference → Type 0
IsOwned uid labels owners = (lookup part_of labels ≡ some "rabbitmq") × (owned_by uid owners ≡ true)

abbrev pub Written : String → ObjectMeta → Type 0
Written uid m = IsOwned uid m.labels m.owner_references

-- Setting the owner leaves an owner reference to the cluster.
abbrev pub Owns : SetControllerReference → Type 0
Owns set =
    (c : RabbitmqCluster) (m : ObjectMeta) (owners : List OwnerReference)
    → set c m ≡ ok owners
    → owned_by c.uid owners ≡ true

-- The labels of an override.
abbrev pub overriding_labels : Option EmbeddedLabelsAnnotations → Map String
overriding_labels none = []
overriding_labels (some m) = elim m.labels [ none ↦ [] | some labels ↦ labels ]

abbrev pub service_override_labels : Option ServiceOverride → Map String
service_override_labels none = []
service_override_labels (some o) = overriding_labels o.metadata

abbrev pub statefulset_override_labels : Option StatefulSetOverride → Map String
statefulset_override_labels none = []
statefulset_override_labels (some o) = overriding_labels o.metadata

-- The labels of the two overrides of a cluster.
abbrev pub service_labels : RabbitmqCluster → Map String
service_labels c = service_override_labels c.spec.override.service

abbrev pub statefulset_labels : RabbitmqCluster → Map String
statefulset_labels c = statefulset_override_labels c.spec.override.statefulset

pub update_meta-labels :
    (c : RabbitmqCluster) (m : ObjectMeta)
    → lookup part_of (update_meta c m).labels ≡ some "rabbitmq"
unfolding update_meta label lookup
update_meta-labels c m = lookup-get_labels part_of c.name c.labels

lookup-merge_string_map :
    (k : String) (base overriding : Map String)
    → lookup k overriding ≡ none
    → lookup k (merge_string_map base overriding) ≡ lookup k base
unfolding merge_string_map lookup
lookup-merge_string_map k base [] h = refl
lookup-merge_string_map k base ((j, v) ∷ overriding) h = ground (
  arith,
  lookup-merge_string_map k base overriding,
  lookup-insert j k v (merge_string_map base overriding),
)

abbrev pub overridden_meta : ObjectMeta → Option EmbeddedLabelsAnnotations → ObjectMeta
overridden_meta base none = base
overridden_meta base (some m) = copy_labels_annotations base m

-- The labels of metadata that an override may have changed.
pub overridden_labels :
    (k : String) (base : ObjectMeta) (o : Option EmbeddedLabelsAnnotations)
    → lookup k (overriding_labels o) ≡ none
    → lookup k (overridden_meta base o).labels ≡ lookup k base.labels
unfolding copy_labels_annotations
overridden_labels k base none h = refl
overridden_labels k base (some m) h = elim (Option-cases m.labels) [
  | inl q ↦ rw q refl
  | inr (labels, q) ↦ rw q (lookup-merge_string_map k base.labels labels (simp (q) at h))
]

module _ (set : SetControllerReference) (owns : Owns set) where
  -- Any metadata with the label, behind the setting of the owner.
  pub with_controller-Written :
      (c : RabbitmqCluster) (m m' : ObjectMeta)
      → lookup part_of m.labels ≡ some "rabbitmq"
      → with_controller set c m ≡ ok m'
      → Written c.uid m'
  unfolding with_controller
  with_controller-Written c m m' labelled e =
      bind_passed (wrap_error "failed setting controller reference" (set c m)) _ e λ owners p q.
        let same = ok_injective q in
        (
          sym (ap (λ z. lookup part_of z.labels) same) ∙ labelled,
          sym (ap (λ z. owned_by c.uid z.owner_references) same)
              ∙ owns c m owners (wrap_passed _ (set c m) p),
        )

  -- An update that sets the metadata, and then the rest of the object.
  simple-Written :
      {A : Type 0} (meta : A → ObjectMeta) (c : RabbitmqCluster) (old : ObjectMeta)
      (build : ObjectMeta → A) (out : A)
      → ((m : ObjectMeta) → meta (build m) ≡ m)
      → (with_controller set c (update_meta c old) >>= λ m. ok (build m)) ≡ ok out
      → Written c.uid (meta out)
  simple-Written meta c old build out has e =
      bind_passed (with_controller set c (update_meta c old)) _ e λ m p q.
        subst (Written c.uid) (sym (has m) ∙ ap meta (ok_injective q))
          (with_controller-Written c (update_meta c old) m (update_meta-labels c old) p)

  pub update_headless_service-Written :
      (c : RabbitmqCluster) (a b : ServiceObject)
      → update_headless_service set c a ≡ ok b
      → Written c.uid b.meta
  unfolding update_headless_service
  update_headless_service-Written c a b e = simple-Written (λ z. z.meta) c a.meta _ b (λ m. refl) e

  pub update_erlang_cookie-Written :
      (c : RabbitmqCluster) (a b : SecretObject)
      → update_erlang_cookie set c a ≡ ok b
      → Written c.uid b.meta
  unfolding update_erlang_cookie
  update_erlang_cookie-Written c a b e = simple-Written (λ z. z.meta) c a.meta _ b (λ m. refl) e

  -- The metadata of a result, if there is one.
  abbrev meta_or : ObjectMeta → Option SecretObject → ObjectMeta
  meta_or meta none = meta
  meta_or meta (some secret) = secret.meta

  user-Written :
      (c : RabbitmqCluster) (meta : ObjectMeta) (found : Option (Map String)) (b : SecretObject)
      → update_default_user_secret set c (record { meta = meta; entries = found }) ≡ ok (some b)
      → Written c.uid b.meta
  unfolding update_default_user_secret
  user-Written c meta none b e = absurd (cc (ok_injective e))
  user-Written c meta (some entries) b e =
      simple-Written (meta_or meta) c meta _ (some b) (λ m. refl) e

  pub update_default_user_secret-Written :
      (c : RabbitmqCluster) (a b : SecretObject)
      → update_default_user_secret set c a ≡ ok (some b)
      → Written c.uid b.meta
  update_default_user_secret-Written c a b e = user-Written c a.meta a.entries b e

  pub update_plugins_config_map-Written :
      (c : RabbitmqCluster) (a b : ConfigMapObject)
      → update_plugins_config_map set c a ≡ ok b
      → Written c.uid b.meta
  unfolding update_plugins_config_map
  update_plugins_config_map-Written c a b e =
      simple-Written (λ z. z.meta) c a.meta _ b (λ m. refl) e

  pub update_role-Written :
      (c : RabbitmqCluster) (a b : RoleObject) → update_role set c a ≡ ok b → Written c.uid b.meta
  unfolding update_role
  update_role-Written c a b e = simple-Written (λ z. z.meta) c a.meta _ b (λ m. refl) e

  pub update_role_binding-Written :
      (c : RabbitmqCluster) (a b : RoleBindingObject)
      → update_role_binding set c a ≡ ok b
      → Written c.uid b.meta
  unfolding update_role_binding
  update_role_binding-Written c a b e = simple-Written (λ z. z.meta) c a.meta _ b (λ m. refl) e

  pub update_service_account-Written :
      (c : RabbitmqCluster) (a b : ServiceAccountObject)
      → update_service_account set c a ≡ ok b
      → Written c.uid b.meta
  unfolding update_service_account
  update_service_account-Written c a b e = simple-Written (λ z. z.meta) c a.meta _ b (λ m. refl) e

  pub update_server_config_map-Written :
      (ini : Ini) (equal : ConfigMapObject → ConfigMapObject → Bool) (c : RabbitmqCluster)
      (restart flag : Bool) (a b : ConfigMapObject)
      → update_server_config_map ini set equal c restart a ≡ ok (b, flag)
      → Written c.uid b.meta
  unfolding update_server_config_map update_config_map
  update_server_config_map-Written ini equal c restart flag a b e =
      bind_passed (update_config_map ini set c a) _ e λ changed p q.
        bind_passed (remove_config_not_requiring_node_restart ini a) _ q λ previous p1 q1.
          bind_passed (remove_config_not_requiring_node_restart ini changed) _ q1 λ updated p2 q2.
            bind_passed (config_texts ini c) _ p λ texts p3 q3.
              subst (λ z. Written c.uid z.meta) (ap (λ z. z.0) (ok_injective q2))
                (simple-Written (λ z. z.meta) c a.meta _ changed (λ m. refl) q3)
