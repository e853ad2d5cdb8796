-- ===== src/Builders/StatefulSet/Laws.antt =====
-- What an update of the StatefulSet of internal/resource/statefulset.go leaves.
use rabbitmq_operator.Prelude.{
  Bool, true, false, Option, none, some, List, [], ◌∷◌, eqb, ◌≡◌, refl, sym, ap, ◌∙◌, if◌then◌else◌,
  subst, Option-cases, inl, inr,
}
use rabbitmq_operator.Kube.{ok}
use rabbitmq_operator.Cluster.{RabbitmqCluster, StatefulSetOverride, StatefulSetSpecOverride}
use rabbitmq_operator.Merge.Reference.{find_by, position, IsUnique, combined, find_by-merge_by}
use rabbitmq_operator.Builders.Meta.{
  ObjectMeta, SetControllerReference, bind_passed, ok_injective, with_controller, wrap_passed,
}
use rabbitmq_operator.Builders.Pods.{PodContainer, ClaimObject}
use rabbitmq_operator.Builders.Pods.Containers.{
  container_name, update_container, merge_containers, containers, init_containers, next_containers,
  container_rabbitmq, container_setup, updater_image, container_user_credential_updater,
}
use rabbitmq_operator.Builders.StatefulSet.{
  StatefulSetObject, next_statefulset, persistent_volume_claims, pod_template_spec,
}
use rabbitmq_operator.Builders.StatefulSet.Override.{
  PatchPod, claims_of, apply_spec_override, apply_sts_override, update_statefulset_object,
  overridden_statefulset, own_statefulset, override_template,
}

-- Without storage no override changes the claims.
if_same {ℓ} : {A : Type ℓ} (b : Bool) (x : A) → (if b then x else x) ≡ x
if_same true x = refl
if_same false x = refl

claims_of-zero :
    (set : SetControllerReference) (c : RabbitmqCluster) (sts : StatefulSetObject)
    (o : StatefulSetSpecOverride)
    → eqb c.spec.persistence.storage 0 ≡ true
    → claims_of set c sts o ≡ ok sts.spec.volume_claim_templates
unfolding claims_of
claims_of-zero set c sts o zero_storage = rw zero_storage (if_same _ _)

Claims : List ClaimObject → Option StatefulSetObject → Type 0
Claims claims none = Unit
Claims claims (some sts) = sts.spec.volume_claim_templates ≡ claims

Claims-intro :
    (claims : List ClaimObject) (s : StatefulSetObject)
    → s.spec.volume_claim_templates ≡ claims
    → Claims claims (some s)
unfolding Claims
Claims-intro claims s e = e

Claims-elim :
    (claims : List ClaimObject) (s : StatefulSetObject)
    → Claims claims (some s)
    → s.spec.volume_claim_templates ≡ claims
unfolding Claims
Claims-elim claims s e = e

apply_spec_override-Claims :
    (set : SetControllerReference) (patch : PatchPod) (c : RabbitmqCluster)
    (sts : StatefulSetObject) (o : StatefulSetSpecOverride) (out : Option StatefulSetObject)
    → eqb c.spec.persistence.storage 0 ≡ true
    → apply_spec_override set patch c sts o ≡ ok out
    → Claims sts.spec.volume_claim_templates out
unfolding apply_spec_override Claims
apply_spec_override-Claims set patch c sts o out zero_storage e =
    bind_passed (claims_of set c sts o) _ e λ claims p r.
      let same : claims ≡ sts.spec.volume_claim_templates =
        ok_injective (sym p ∙ claims_of-zero set c sts o zero_storage) in
      elim (Option-cases o.template) [
        | inl q ↦ subst (Claims sts.spec.volume_claim_templates) (ok_injective (simp (q) at r)) same
        | inr (t, q) ↦
            bind_passed (override_template patch sts.spec.template t) _ (simp (q) at r)
              λ changed m s. elim (Option-cases changed) [
                | inl n ↦
                    subst (Claims sts.spec.volume_claim_templates) (ok_injective (simp (n) at s)) tt
                | inr (template, n) ↦
                    subst (Claims sts.spec.volume_claim_templates) (ok_injective (simp (n) at s))
                      same
              ]
      ]

apply_sts_override-Claims :
    (set : SetControllerReference) (patch : PatchPod) (c : RabbitmqCluster)
    (sts : StatefulSetObject) (o : StatefulSetOverride) (out : Option StatefulSetObject)
    → eqb c.spec.persistence.storage 0 ≡ true
    → apply_sts_override set patch c sts o ≡ ok out
    → Claims sts.spec.volume_claim_templates out
unfolding apply_sts_override
apply_sts_override-Claims set patch c sts o out zero_storage e = elim (Option-cases o.spec) [
  | inl q ↦
      subst (Claims sts.spec.volume_claim_templates)
        (ok_injective (simp (apply_sts_override, q) at e)) (Claims-intro _ _ refl)
  | inr (spec, q) ↦
      apply_spec_override-Claims set patch c _ spec out zero_storage
        (simp (apply_sts_override, q) at e)
]

claims_unchanged :
    (set : SetControllerReference) (c : RabbitmqCluster) (curr : List ClaimObject)
    → eqb c.spec.persistence.storage 0 ≡ true
    → persistent_volume_claims c set curr ≡ curr
unfolding persistent_volume_claims
claims_unchanged set c curr zero_storage = rw zero_storage refl

next_claims :
    (set : SetControllerReference) (c : RabbitmqCluster) (sts out s : StatefulSetObject)
    (meta : ObjectMeta)
    → some (record s { meta = meta }) ≡ some out
    → s.spec.volume_claim_templates ≡ (next_statefulset c set sts).spec.volume_claim_templates
    → eqb c.spec.persistence.storage 0 ≡ true
    → out.spec.volume_claim_templates ≡ sts.spec.volume_claim_templates
unfolding next_statefulset
next_claims set c sts out s meta end claims zero_storage =
    sym (ap claims_in end)
    ∙ claims
    ∙ claims_unchanged set c sts.spec.volume_claim_templates zero_storage
  where
    claims_in : Option StatefulSetObject → List ClaimObject
    claims_in none = []
    claims_in (some z) = z.spec.volume_claim_templates

overridden_statefulset-Claims :
    (set : SetControllerReference) (patch : PatchPod) (c : RabbitmqCluster)
    (next : StatefulSetObject) (overridden : Option StatefulSetObject)
    → eqb c.spec.persistence.storage 0 ≡ true
    → overridden_statefulset set patch c next ≡ ok overridden
    → Claims next.spec.volume_claim_templates overridden
unfolding overridden_statefulset
overridden_statefulset-Claims set patch c next overridden zero_storage p =
    let before = next.spec.volume_claim_templates in
    elim (Option-cases c.spec.override.statefulset) [
      | inl q ↦
          subst (Claims before) (ok_injective (simp (overridden_statefulset, q) at p))
            (Claims-intro _ _ refl)
      | inr (o, q) ↦ apply_sts_override-Claims set patch c next o overridden zero_storage (
          wrap_passed _ (apply_sts_override set patch c next o)
            (simp (overridden_statefulset, q) at p))
    ]

own_statefulset-Claims :
    (set : SetControllerReference) (patch : PatchPod) (c : RabbitmqCluster)
    (sts out : StatefulSetObject) (overridden : Option StatefulSetObject)
    → eqb c.spec.persistence.storage 0 ≡ true
    → Claims (next_statefulset c set sts).spec.volume_claim_templates overridden
    → own_statefulset set patch c overridden ≡ ok (some out)
    → out.spec.volume_claim_templates ≡ sts.spec.volume_claim_templates
unfolding own_statefulset
own_statefulset-Claims set patch c sts out none zero_storage kept r = absurd (cc r)
own_statefulset-Claims set patch c sts out (some s) zero_storage kept r =
    bind_passed (with_controller set c s.meta) _ r λ meta m z.
      next_claims set c sts out s meta (ok_injective z) (Claims-elim _ s kept) zero_storage

-- Where the storage of the cluster is zero, an update that does not fail leaves the claims of the
-- StatefulSet as they are, whatever the override of the StatefulSet says.
pub update_statefulset_object-zero :
    (set : SetControllerReference) (patch : PatchPod) (c : RabbitmqCluster)
    (sts out : StatefulSetObject)
    → eqb c.spec.persistence.storage 0 ≡ true
    → update_statefulset_object set patch c sts ≡ ok (some out)
    → out.spec.volume_claim_templates ≡ sts.spec.volume_claim_templates
unfolding update_statefulset_object
update_statefulset_object-zero set patch c sts out zero_storage e =
    let next = next_statefulset c set sts in
    bind_passed (overridden_statefulset set patch c next) (own_statefulset set patch c) e
      λ overridden p r.
        own_statefulset-Claims set patch c sts out overridden zero_storage
          (overridden_statefulset-Claims set patch c next overridden zero_storage p) r

pub next_containers_found :
    (c : RabbitmqCluster)
    → IsUnique container_name (next_containers c)
      × (find_by container_name "rabbitmq" (next_containers c) ≡ some (container_rabbitmq c))
unfolding next_containers find_by position container_rabbitmq container_user_credential_updater
next_containers_found c = elim (Option-cases (updater_image c)) [
  | inl q ↦ rw q ((refl, tt), refl)
  | inr (image, q) ↦ rw q ((refl, (refl, tt)), refl)
]

replaced :
    (found : Option PodContainer) (next : PodContainer)
    → combined container_name update_container found (some next) ≡ some next
unfolding update_container
replaced none next = refl
replaced (some x) next = refl

pub update_container_keeps :
    (a b : PodContainer)
    → container_name a ≡ container_name b
    → container_name (update_container a b) ≡ container_name b
unfolding update_container
update_container_keeps a b e = refl

containers_found :
    (c : RabbitmqCluster) (curr : List PodContainer)
    → IsUnique container_name curr
    → find_by container_name "rabbitmq" (containers c curr) ≡ some (container_rabbitmq c)
unfolding containers merge_containers
containers_found c curr u =
    let (unique, found) = next_containers_found c in
    (find_by-merge_by container_name update_container update_container_keeps curr
        (next_containers c) u unique).1
      "rabbitmq"
    ∙ ap (combined container_name update_container (find_by container_name "rabbitmq" curr)) found
    ∙ replaced (find_by container_name "rabbitmq" curr) (container_rabbitmq c)

setup_found :
    (c : RabbitmqCluster) (curr : List PodContainer)
    → IsUnique container_name curr
    → find_by container_name "setup-container" (init_containers c curr) ≡ some (container_setup c)
unfolding init_containers merge_containers find_by position container_setup
setup_found c curr u =
    (find_by-merge_by container_name update_container update_container_keeps curr
        (container_setup c ∷ []) u (refl, tt)).1
      "setup-container"
    ∙ replaced (find_by container_name "setup-container" curr) (container_setup c)

some_inj {ℓ} : {A : Type ℓ} {a b : A} → some a ≡ some b → a ≡ b
some_inj e = cc e

pods_of :
    (c : RabbitmqCluster) (set : SetControllerReference) (sts out : StatefulSetObject)
    (meta : ObjectMeta)
    → some (record (next_statefulset c set sts) { meta = meta }) ≡ some out
    → IsUnique container_name sts.spec.template.spec.containers
    → IsUnique container_name sts.spec.template.spec.init_containers
    → (out.spec.replicas ≡ some (if c.spec.disable then 0 else 1))
      × (find_by container_name "rabbitmq" out.spec.template.spec.containers
          ≡ some (container_rabbitmq c))
      × (find_by container_name "setup-container" out.spec.template.spec.init_containers
          ≡ some (container_setup c))
unfolding next_statefulset pod_template_spec
pods_of c set sts out meta end u v =
    let same = some_inj end in
    (
      sym (ap (λ z. z.spec.replicas) same),
      sym (ap (λ z. find_by container_name "rabbitmq" z.spec.template.spec.containers) same)
          ∙ containers_found c sts.spec.template.spec.containers u,
      sym (
            ap (λ z. find_by container_name "setup-container" z.spec.template.spec.init_containers)
              same)
          ∙ setup_found c sts.spec.template.spec.init_containers v,
    )

-- Without an override and with distinct names of the current containers, an update that does not fail
-- asks for no pod where the cluster is disabled and for one elsewhere, and the pods run the RabbitMQ
-- container and the set-up container that are built for the cluster.
pub update_statefulset_object-pods :
    (set : SetControllerReference) (patch : PatchPod) (c : RabbitmqCluster)
    (sts out : StatefulSetObject)
    → c.spec.override.statefulset ≡ none
    → IsUnique container_name sts.spec.template.spec.containers
    → IsUnique container_name sts.spec.template.spec.init_containers
    → update_statefulset_object set patch c sts ≡ ok (some out)
    → (out.spec.replicas ≡ some (if c.spec.disable then 0 else 1))
      × (find_by container_name "rabbitmq" out.spec.template.spec.containers
          ≡ some (container_rabbitmq c))
      × (find_by container_name "setup-container" out.spec.template.spec.init_containers
          ≡ some (container_setup c))
unfolding update_statefulset_object overridden_statefulset own_statefulset
update_statefulset_object-pods set patch c sts out plain u v e =
    let next = next_statefulset c set sts in
    bind_passed (overridden_statefulset set patch c next) (own_statefulset set patch c) e
      λ overridden p r.
        let same : overridden ≡ some next =
          sym (ok_injective (simp (overridden_statefulset, plain) at p)) in
        let r0 = subst (λ o. own_statefulset set patch c o ≡ ok (some out)) same r in
        bind_passed (with_controller set c next.meta) _ r0
          λ meta m z. pods_of c set sts out meta (ok_injective z) u v
