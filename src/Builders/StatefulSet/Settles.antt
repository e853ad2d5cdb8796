-- ===== src/Builders/StatefulSet/Settles.antt =====
-- A second `Update` of the StatefulSet of internal/resource/statefulset.go.
use rabbitmq_operator.Prelude.{
  ◌&&◌, ◌++◌, String, Bool, true, false, none, some, List, [], ◌∷◌, ◌≡◌, refl, sym, ap, ◌∙◌, subst,
  eqb, if◌then◌else◌, Option-cases, inl, inr,
}
use rabbitmq_operator.Kube.{Outcome, OwnerReference, ok, err}
use rabbitmq_operator.Cluster.{RabbitmqCluster, secret_tls_enabled}
use rabbitmq_operator.Metadata.{label_selector, reconcile_annotations}
use rabbitmq_operator.Metadata.Steady.{IsMap}
use rabbitmq_operator.Merge.Reference.{IsUnique, position}
use rabbitmq_operator.Merge.Settles.{merge_by_settles}
use rabbitmq_operator.Builders.Meta.{
  IsSteady, ◌>>=◌, SetControllerReference, bind_passed, ok_injective, update_meta, with_controller,
}
use rabbitmq_operator.Builders.Steady.{meta_again}
use rabbitmq_operator.Builders.Pods.{Volume, PodContainer, TopologySpreadConstraint, ClaimObject}
use rabbitmq_operator.Builders.Pods.Volumes.{
  volume_if, persistence_volume, volume_name, update_volume, merge_volumes, fixed_volumes,
  volume_confd, volume_tls, server_conf_volume, next_volumes, volumes,
  rabbitmq_configuration_is_set,
}
use rabbitmq_operator.Builders.Pods.Containers.{
  container_name, update_container, merge_containers, container_setup, next_containers, containers,
  init_containers,
}
use rabbitmq_operator.Builders.StatefulSet.{
  StatefulSetObject, claim_name, update_claim, merge_pvcs, update_constraint, merge_tscs,
  topology_spread_constraints, disable_default_topology_spread_constraints,
  disable_block_owner_deletion, persistence_claim, persistent_volume_claims, pod_template_spec,
  default_pod_annotations, next_statefulset,
}
use rabbitmq_operator.Builders.StatefulSet.Override.{
  PatchPod, overridden_statefulset, own_statefulset, update_statefulset_object,
}
use rabbitmq_operator.Builders.StatefulSet.Laws.{next_containers_found, update_container_keeps}

-- A test for distinct names.
abbrev distinct : {A : Type 0} → (A → String) → List A → Bool
distinct key [] = true
distinct key (x ∷ xs) =
    elim (position key (key x) xs) [ none ↦ true | some _ ↦ false ] && distinct key xs

distinct-IsUnique :
    {A : Type 0} (key : A → String) (xs : List A) → distinct key xs ≡ true → IsUnique key xs
distinct-IsUnique key [] h = tt
distinct-IsUnique key (x ∷ xs) h = elim (Option-cases (position key (key x) xs)) [
  | inl q ↦ (q, distinct-IsUnique key xs (simp (q) at h))
  | inr (i, q) ↦ absurd (cc (simp (q) at h))
]

next_volumes-distinct :
    (c : RabbitmqCluster) (a b d : Bool)
    → distinct volume_name (
        fixed_volumes c
        ++ (volume_if a (volume_tls c)
            ++ (volume_if b persistence_volume ++ volume_if d (server_conf_volume c))))
      ≡ true
unfolding fixed_volumes volume_confd volume_tls server_conf_volume position
next_volumes-distinct c true true true = refl
next_volumes-distinct c true true false = refl
next_volumes-distinct c true false true = refl
next_volumes-distinct c true false false = refl
next_volumes-distinct c false true true = refl
next_volumes-distinct c false true false = refl
next_volumes-distinct c false false true = refl
next_volumes-distinct c false false false = refl

next_volumes-IsUnique : (c : RabbitmqCluster) → IsUnique volume_name (next_volumes c)
unfolding next_volumes
next_volumes-IsUnique c = distinct-IsUnique volume_name (next_volumes c) (
    next_volumes-distinct c (secret_tls_enabled c) (eqb c.spec.persistence.storage 0)
      (rabbitmq_configuration_is_set c))

-- A change that is made unless a test holds.
unless_settles :
    {A : Type 0} (b : Bool) (f : A → A) (x : A)
    → f (f x) ≡ f x
    → let once = if b then x else f x in (if b then once else f once) ≡ once
unless_settles true f x h = refl
unless_settles false f x h = h

-- The change of the claims by the owners.
module _ (c : RabbitmqCluster) where
  abbrev owned_claims : Outcome (List OwnerReference) → List ClaimObject → List ClaimObject
  owned_claims r curr = elim r [
    | err e ↦ curr
    | ok owners ↦ merge_pvcs curr (
        disable_block_owner_deletion (record (persistence_claim c) {
          meta = record (persistence_claim c).meta { owner_references = owners };
        })
        ∷ [])
  ]

  owned_claims_settle :
      (r : Outcome (List OwnerReference)) (curr : List ClaimObject)
      → IsUnique claim_name curr
      → owned_claims r (owned_claims r curr) ≡ owned_claims r curr
  unfolding merge_pvcs update_claim disable_block_owner_deletion position
  owned_claims_settle (err e) curr u = refl
  owned_claims_settle (ok owners) curr u =
      merge_by_settles claim_name update_claim (λ a b e. e) (λ a b. refl) (λ b. refl) curr
        (disable_block_owner_deletion (record (persistence_claim c) {
          meta = record (persistence_claim c).meta { owner_references = owners };
        })
          ∷ [])
        u (refl, tt)

  volumes_settle :
      (curr : List Volume) → IsUnique volume_name curr → volumes c (volumes c curr) ≡ volumes c curr
  unfolding volumes merge_volumes update_volume
  volumes_settle curr u =
      merge_by_settles volume_name update_volume (λ a b e. e) (λ a b. refl) (λ b. refl) curr
        (next_volumes c) u (next_volumes-IsUnique c)

  containers_settle :
      (curr : List PodContainer)
      → IsUnique container_name curr
      → containers c (containers c curr) ≡ containers c curr
  unfolding containers merge_containers update_container
  containers_settle curr u =
      merge_by_settles container_name update_container update_container_keeps (λ a b. refl)
        (λ b. refl) curr (next_containers c) u (next_containers_found c).0

  init_containers_settle :
      (curr : List PodContainer)
      → IsUnique container_name curr
      → init_containers c (init_containers c curr) ≡ init_containers c curr
  unfolding init_containers merge_containers update_container position
  init_containers_settle curr u =
      merge_by_settles container_name update_container update_container_keeps (λ a b. refl)
        (λ b. refl) curr (container_setup c ∷ []) u (refl, tt)

  abbrev topology_key_of : TopologySpreadConstraint → String
  topology_key_of t = t.topology_key

  abbrev zone_constraint : TopologySpreadConstraint
  zone_constraint = record {
    max_skew = 1;
    topology_key = "topology.kubernetes.io/zone";
    when_unsatisfiable = "ScheduleAnyway";
    match_labels = label_selector c.name;
  }

  constraints_settle :
      (curr : List TopologySpreadConstraint)
      → IsUnique topology_key_of curr
      → topology_spread_constraints c (topology_spread_constraints c curr)
        ≡ topology_spread_constraints c curr
  unfolding topology_spread_constraints merge_tscs update_constraint position
  constraints_settle curr u =
      unless_settles (disable_default_topology_spread_constraints c)
        (λ x. merge_tscs x (zone_constraint ∷ [])) curr
        (merge_by_settles topology_key_of update_constraint (λ a b e. refl) (λ a b. refl)
          (λ b. refl) curr (zone_constraint ∷ []) u (refl, tt))

  claims_settle :
      (set : SetControllerReference) (curr : List ClaimObject)
      → IsUnique claim_name curr
      → persistent_volume_claims c set (persistent_volume_claims c set curr)
        ≡ persistent_volume_claims c set curr
  unfolding persistent_volume_claims
  claims_settle set curr u =
      unless_settles (eqb c.spec.persistence.storage 0)
        (owned_claims (set c (persistence_claim c).meta)) curr
        (owned_claims_settle (set c (persistence_claim c).meta) curr u)

  -- Within each list of the StatefulSet the names are distinct.
  abbrev pub IsDistinct : StatefulSetObject → Type 0
  IsDistinct sts =
      let pod = sts.spec.template.spec in
      IsUnique volume_name pod.volumes
      × IsUnique container_name pod.containers
      × IsUnique container_name pod.init_containers
      × IsUnique topology_key_of pod.topology_spread_constraints
      × IsUnique claim_name sts.spec.volume_claim_templates

  next_statefulset_settles :
      (set : SetControllerReference) (sts : StatefulSetObject)
      → c.spec.secret_backend.vault ≡ none
      → IsDistinct sts
      → (next_statefulset c set (next_statefulset c set sts)).spec
        ≡ (next_statefulset c set sts).spec
  unfolding next_statefulset pod_template_spec default_pod_annotations reconcile_annotations
  next_statefulset_settles set sts no_vault (v, n, i, t, k) =
      let pod = sts.spec.template.spec in
      rw (volumes_settle pod.volumes v) (
        rw (containers_settle pod.containers n) (
          rw (init_containers_settle pod.init_containers i) (
            rw (constraints_settle pod.topology_spread_constraints t)
              (rw (claims_settle set sts.spec.volume_claim_templates k) (rw no_vault refl)))))

  module _ (set : SetControllerReference) (patch : PatchPod)
      (plain : c.spec.override.statefulset ≡ none) where
    -- The update without an override.
    plain_update :
        (sts : StatefulSetObject)
        → update_statefulset_object set patch c sts ≡ (
            with_controller set c (update_meta c sts.meta) >>= λ meta.
            ok (some (record (next_statefulset c set sts) { meta = meta })))
    unfolding update_statefulset_object own_statefulset next_statefulset
    plain_update sts =
        let next = next_statefulset c set sts in
        let kept : overridden_statefulset set patch c next ≡ ok (some next) =
          simp (overridden_statefulset, plain) in
        ap (λ o. o >>= own_statefulset set patch c) kept

    -- Given that setting an owner twice leaves the owners, that the annotations of the cluster have one entry
    -- for each key, and that the cluster has neither an override of the StatefulSet nor Vault: what an
    -- update leaves of a StatefulSet whose volumes, containers, constraints and claims have distinct
    -- names, a second update leaves as it is.
    pub update_statefulset_object_settles :
        (sts out : StatefulSetObject)
        → IsSteady set
        → IsMap c.annotations
        → c.spec.secret_backend.vault ≡ none
        → IsDistinct sts
        → update_statefulset_object set patch c sts ≡ ok (some out)
        → update_statefulset_object set patch c out ≡ ok (some out)
    unfolding next_statefulset
    update_statefulset_object_settles sts out steady unique no_vault names e =
        bind_passed (with_controller set c (update_meta c sts.meta)) _ (sym (plain_update sts) ∙ e)
          λ meta p q.
            let next = next_statefulset c set sts in
            let same : record next { meta = meta } ≡ out = cc (ok_injective q) in
            subst (λ o. update_statefulset_object set patch c o ≡ ok (some o)) same
              (plain_update (record next { meta = meta })
                ∙ rw (meta_again set steady c unique sts.meta meta p) (
                    ap (λ spec. ok (some (record next { meta = meta; spec = spec })))
                      (next_statefulset_settles set sts no_vault names)))
