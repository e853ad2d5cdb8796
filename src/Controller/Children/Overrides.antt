-- ===== src/Controller/Children/Overrides.antt =====
-- The metadata that the updates of the client service and of a StatefulSet leave, overrides included.
use rabbitmq_operator.Prelude.{
  Option, none, some, lookup, ◌≡◌, refl, sym, ap, ◌∙◌, subst, Option-cases, Bool-cases, inl, inr,
  ◌==◌,
}
use rabbitmq_operator.Kube.{Outcome, ok}
use rabbitmq_operator.Cluster.{
  RabbitmqCluster, ServiceOverride, StatefulSetOverride, StatefulSetSpecOverride,
}
use rabbitmq_operator.Builders.Meta.{
  ObjectMeta, ◌>>=◌, wrap_error, bind_passed, wrap_passed, ok_injective, SetControllerReference,
  with_controller,
}
use rabbitmq_operator.Builders.Services.{
  ServiceObject, PatchService, apply_svc_override, update_service, default_service_type,
}
use rabbitmq_operator.Builders.StatefulSet.{StatefulSetObject, next_statefulset}
use rabbitmq_operator.Builders.StatefulSet.Override.{
  PatchPod, claims_of, apply_spec_override, apply_sts_override, update_statefulset_object,
  overridden_statefulset, own_statefulset, override_template,
}
use rabbitmq_operator.Controller.Children.Written.{
  part_of, Written, Owns, service_labels, statefulset_labels, service_override_labels,
  statefulset_override_labels, overridden_meta, overridden_labels, update_meta-labels,
  with_controller-Written,
}

apply_svc_override-meta :
    (patch : PatchService) (svc out : ServiceObject) (o : ServiceOverride)
    → apply_svc_override patch svc o ≡ ok out
    → out.meta ≡ overridden_meta svc.meta o.metadata
unfolding apply_svc_override
apply_svc_override-meta patch svc out o e = elim (Option-cases o.spec) [
  | inl n ↦ sym (ap (λ z. z.meta) (ok_injective (simp (apply_svc_override, n) at e)))
  | inr (text, n) ↦
      bind_passed (patch svc.spec text) _ (simp (apply_svc_override, n) at e)
        λ p r s. sym (ap (λ z. z.meta) (ok_injective s))
]

default_service_type-uid : (c : RabbitmqCluster) → (default_service_type c).uid ≡ c.uid
unfolding default_service_type
default_service_type-uid c = elim (Bool-cases (c.spec.service.service_type == "")) [
  | inl q ↦ rw q refl
  | inr q ↦ rw q refl
]

-- Where an override does not set the label, it is the operator's.
overridden-label :
    (patch : PatchService) (c : RabbitmqCluster) (o : ServiceOverride) (built out : ServiceObject)
    → c.spec.override.service ≡ some o
    → lookup part_of (service_labels c) ≡ none
    → lookup part_of built.meta.labels ≡ some "rabbitmq"
    → apply_svc_override patch built o ≡ ok out
    → lookup part_of out.meta.labels ≡ some "rabbitmq"
overridden-label patch c o built out q free labelled e =
    ap (λ m. lookup part_of m.labels) (apply_svc_override-meta patch built out o e)
    ∙ overridden_labels part_of built.meta o.metadata
        (sym (ap (λ x. lookup part_of (service_override_labels x)) q) ∙ free)
    ∙ labelled

module _ (set : SetControllerReference) (owns : Owns set) where
  -- The end of the update of the service.
  finished-Written :
      (c d : RabbitmqCluster) (s b : ServiceObject)
      → lookup part_of s.meta.labels ≡ some "rabbitmq"
      → let next : ObjectMeta → Outcome (RabbitmqCluster × ServiceObject) =
          λ meta. ok (default_service_type c, record s { meta = meta }) in
        (with_controller set (default_service_type c) s.meta >>= next) ≡ ok (d, b)
        → Written c.uid b.meta
  finished-Written c d s b labelled e =
      bind_passed (with_controller set (default_service_type c) s.meta) _ e λ m p q.
        subst (λ z. Written c.uid z.1.meta) (ok_injective q)
          (subst (λ uid. Written uid m) (default_service_type-uid c)
            (with_controller-Written set owns (default_service_type c) s.meta m labelled p))

  pub update_service-Written :
      (patch : PatchService) (c d : RabbitmqCluster) (a b : ServiceObject)
      → lookup part_of (service_labels c) ≡ none
      → update_service set patch c a ≡ ok (d, b)
      → Written c.uid b.meta
  unfolding update_service
  update_service-Written patch c d a b free e = elim (Option-cases c.spec.override.service) [
    | inl q ↦ finished-Written c d _ b (update_meta-labels c a.meta) (simp (q) at e)
    | inr (o, q) ↦
        bind_passed (wrap_error "failed applying Service override" (apply_svc_override patch _ o)) _
          (simp (q) at e)
          λ s p r.
            finished-Written c d s b
              (overridden-label patch c o _ s q free (update_meta-labels c a.meta)
                (wrap_passed _ (apply_svc_override patch _ o) p))
              r
  ]

-- The metadata of a StatefulSet, where there is one.
HasMeta : ObjectMeta → Option StatefulSetObject → Type 0
HasMeta meta none = Unit
HasMeta meta (some sts) = sts.meta ≡ meta

HasMeta-intro : (s : StatefulSetObject) → HasMeta s.meta (some s)
unfolding HasMeta
HasMeta-intro s = refl

HasMeta-elim : (meta : ObjectMeta) (s : StatefulSetObject) → HasMeta meta (some s) → s.meta ≡ meta
unfolding HasMeta
HasMeta-elim meta s e = e

module _ (set : SetControllerReference) (patch : PatchPod) (c : RabbitmqCluster) where
  apply_spec_override-HasMeta :
      (sts : StatefulSetObject) (o : StatefulSetSpecOverride) (out : Option StatefulSetObject)
      → apply_spec_override set patch c sts o ≡ ok out
      → HasMeta sts.meta out
  unfolding apply_spec_override HasMeta
  apply_spec_override-HasMeta sts o out e = bind_passed (claims_of set c sts o) _ e λ claims p r.
      elim (Option-cases o.template) [
        | inl q ↦ subst (HasMeta sts.meta) (ok_injective (simp (q) at r)) refl
        | inr (t, q) ↦
            bind_passed (override_template patch sts.spec.template t) _ (simp (q) at r)
              λ changed m s. elim (Option-cases changed) [
                | inl n ↦ subst (HasMeta sts.meta) (ok_injective (simp (n) at s)) tt
                | inr (template, n) ↦ subst (HasMeta sts.meta) (ok_injective (simp (n) at s)) refl
              ]
      ]

  apply_sts_override-HasMeta :
      (sts : StatefulSetObject) (o : StatefulSetOverride) (out : Option StatefulSetObject)
      → apply_sts_override set patch c sts o ≡ ok out
      → HasMeta (overridden_meta sts.meta o.metadata) out
  unfolding apply_sts_override
  apply_sts_override-HasMeta sts o out e =
      let renamed = record sts { meta = overridden_meta sts.meta o.metadata } in
      elim (Option-cases o.spec) [
        | inl n ↦
            subst (HasMeta renamed.meta) (ok_injective (simp (apply_sts_override, n) at e))
              (HasMeta-intro renamed)
        | inr (spec, n) ↦
            apply_spec_override-HasMeta renamed spec out (simp (apply_sts_override, n) at e)
      ]

  overridden_statefulset-HasMeta :
      (next : StatefulSetObject) (out : Option StatefulSetObject)
      → lookup part_of (statefulset_labels c) ≡ none
      → lookup part_of next.meta.labels ≡ some "rabbitmq"
      → overridden_statefulset set patch c next ≡ ok out
      → (meta : ObjectMeta) × HasMeta meta out × (lookup part_of meta.labels ≡ some "rabbitmq")
  unfolding overridden_statefulset
  overridden_statefulset-HasMeta next out free labelled p =
      elim (Option-cases c.spec.override.statefulset) [
        | inl q ↦ (
          next.meta,
          subst (HasMeta next.meta) (ok_injective (simp (overridden_statefulset, q) at p))
              (HasMeta-intro next),
          labelled,
        )
        | inr (o, q) ↦ (
          overridden_meta next.meta o.metadata,
          apply_sts_override-HasMeta next o out (
              wrap_passed _ (apply_sts_override set patch c next o)
                (simp (overridden_statefulset, q) at p)),
          overridden_labels part_of next.meta o.metadata
                (sym (ap (λ x. lookup part_of (statefulset_override_labels x)) q) ∙ free)
              ∙ labelled,
        )
      ]

  own_statefulset-Written :
      (owns : Owns set) (out : StatefulSetObject) (overridden : Option StatefulSetObject)
      (meta : ObjectMeta)
      → HasMeta meta overridden
      → lookup part_of meta.labels ≡ some "rabbitmq"
      → own_statefulset set patch c overridden ≡ ok (some out)
      → Written c.uid out.meta
  unfolding own_statefulset
  own_statefulset-Written owns out none meta has labelled r = absurd (cc r)
  own_statefulset-Written owns out (some s) meta has labelled r =
      bind_passed (with_controller set c s.meta) _ r λ m p q.
        subst (Written c.uid) (ap meta_in (ok_injective q)) (
          with_controller-Written set owns c s.meta m
            (ap (λ z. lookup part_of z.labels) (HasMeta-elim meta s has) ∙ labelled) p)
    where
      meta_in : Option StatefulSetObject → ObjectMeta
      meta_in none = s.meta
      meta_in (some z) = z.meta

  pub update_statefulset_object-Written :
      (owns : Owns set) (a b : StatefulSetObject)
      → lookup part_of (statefulset_labels c) ≡ none
      → update_statefulset_object set patch c a ≡ ok (some b)
      → Written c.uid b.meta
  unfolding update_statefulset_object next_statefulset
  update_statefulset_object-Written owns a b free e =
      let next = next_statefulset c set a in
      bind_passed (overridden_statefulset set patch c next) (own_statefulset set patch c) e
        λ overridden p r.
          let (meta, has, labelled) =
            overridden_statefulset-HasMeta next overridden free (update_meta-labels c a.meta) p in
          own_statefulset-Written owns b overridden meta has labelled r
