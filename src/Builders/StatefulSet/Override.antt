-- ===== src/Builders/StatefulSet/Override.antt =====
-- The overrides of a StatefulSet of internal/resource/utils.go, and `Update` of its builder in
-- internal/resource/statefulset.go. `none` is a panic of an index that is out of range.
use rabbitmq_operator.Prelude.{
  ℕ, ◌+◌, String, Bool, true, false, not, Option, none, some, List, [], ◌∷◌, eqb, get_elem?, ◌==◌,
  if◌then◌else◌,
}
use rabbitmq_operator.Kube.{Outcome, ok}
use rabbitmq_operator.Cluster.{
  RabbitmqCluster, EmbeddedObjectMeta, ContainerOverride, PodSpecOverride, PodTemplateOverride,
  ClaimOverride, StatefulSetSpecOverride, StatefulSetOverride,
}
use rabbitmq_operator.Builders.Meta.{
  ObjectMeta, ◌>>=◌, wrap_error, SetControllerReference, with_controller,
}
use rabbitmq_operator.Builders.Services.{override_map, merge_string_map, copy_labels_annotations}
use rabbitmq_operator.Builders.Pods.{PodContainer, PodSettings, PodTemplate, ClaimObject}
use rabbitmq_operator.Builders.Pods.Order.{set_elem, sort_env_var, sort_volume_mounts}
use rabbitmq_operator.Builders.StatefulSet.{
  StatefulSetObject, disable_block_owner_deletion, next_statefulset,
}

-- `strategicpatch.StrategicMergePatch` on the JSON of a pod spec, and back.
abbrev pub PatchPod : Type 0
PatchPod = PodSettings → String → Outcome PodSettings

unfoldable pub copy_object_meta : ObjectMeta → EmbeddedObjectMeta → ObjectMeta
unfolding merge_string_map
copy_object_meta base overriding = record base {
  name = if overriding.name == "" then base.name else overriding.name;
  labels = override_map base.labels overriding.labels;
  annotations = override_map base.annotations overriding.annotations;
}

-- `containerRabbitmq`: the first container with the name; `none` stands for the empty container.
unfoldable pub find_rabbitmq : List ContainerOverride → Option ContainerOverride
find_rabbitmq [] = none
find_rabbitmq (container ∷ containers) =
    let found = find_rabbitmq containers in
    if container.name == "rabbitmq" then some container else found

-- A change of `Containers[0]`.
unfoldable pub change_first :
    (PodContainer → Option PodContainer) → PodSettings → Option PodSettings
change_first change pod = elim pod.containers [
  | [] ↦ none
  | container ∷ rest ↦ elim (change container) [
    | none ↦ none
    | some changed ↦ some (record pod { containers = changed ∷ rest })
  ]
]

unfoldable pub sort_first_env : PodContainer → Option PodContainer
unfolding sort_env_var
sort_first_env container = elim (sort_env_var container.env) [
  | none ↦ none
  | some sorted ↦ some (record container { env = sorted })
]

unfoldable pub sort_first_mounts : PodContainer → Option PodContainer
unfolding sort_volume_mounts
sort_first_mounts container = elim (sort_volume_mounts container.volume_mounts) [
  | none ↦ none
  | some sorted ↦ some (record container { volume_mounts = sorted })
]

-- The loop over the overriding init containers from `i` on.
unfoldable pub clear_init_contexts :
    ℕ → List ContainerOverride → List PodContainer → Option (List PodContainer)
unfolding set_elem
clear_init_contexts i [] containers = some containers
clear_init_contexts i (overriding ∷ rest) containers =
    let kept = clear_init_contexts (i + 1) rest containers in
    if not overriding.empty_security_context then kept else elim (get_elem? containers i) [
      | none ↦ none
      | some container ↦
          clear_init_contexts (i + 1) rest
            (set_elem i (record container { security_context = none }) containers)
    ]

abbrev then_change :
    Bool → (PodSettings → Option PodSettings) → Option PodSettings → Option PodSettings
then_change test change none = none
then_change test change (some pod) = if test then change pod else some pod

-- What is done to the patched pod spec.
unfoldable pub after_patch : PodSpecOverride → PodSettings → Option PodSettings
unfolding find_rabbitmq change_first sort_first_env sort_first_mounts clear_init_contexts
after_patch overriding patched =
    let found = find_rabbitmq overriding.containers in
    let has_env : Bool = elim found [ none ↦ false | some c ↦ c.has_env ] in
    let has_mounts : Bool = elim found [ none ↦ false | some c ↦ c.has_volume_mounts ] in
    let sorted = then_change has_env (change_first sort_first_env) (some patched) in
    elim (then_change has_mounts (change_first sort_first_mounts) sorted) [
      | none ↦ none
      | some pod ↦ elim (clear_init_contexts 0 overriding.init_containers pod.init_containers) [
        | none ↦ none
        | some cleared ↦ some (record pod {
          init_containers = cleared;
          security_context =
              if overriding.empty_security_context then none else pod.security_context;
        })
      ]
    ]

unfoldable pub apply_pod_spec_override :
    PatchPod → PodSettings → PodSpecOverride → Outcome (Option PodSettings)
unfolding after_patch
apply_pod_spec_override patch pod overriding =
    patch pod overriding.spec >>= λ patched. ok (after_patch overriding patched)

-- The loop over the overriding claims.
unfoldable pub override_claims :
    SetControllerReference
    → RabbitmqCluster
    → String
    → List ClaimOverride
    → Outcome (List ClaimObject)
unfolding copy_object_meta disable_block_owner_deletion with_controller
override_claims set cluster namespace [] = ok []
override_claims set cluster namespace (claim ∷ claims) =
    let base : ObjectMeta = record {
      name = "";
      namespace = "";
      labels = [];
      annotations = [];
      owner_references = [];
    } in
    let copied = record (copy_object_meta base claim.metadata) { namespace = namespace } in
    with_controller set cluster copied >>= λ meta.
    override_claims set cluster namespace claims >>= λ rest.
    ok (disable_block_owner_deletion (record { meta = meta; spec = claim.spec }) ∷ rest)

abbrev is_empty : List ClaimOverride → Bool
is_empty [] = true
is_empty (_ ∷ _) = false

-- Claims are not overridden where the storage of the cluster is zero.
unfoldable pub claims_of :
    SetControllerReference
    → RabbitmqCluster
    → StatefulSetObject
    → StatefulSetSpecOverride
    → Outcome (List ClaimObject)
unfolding override_claims
claims_of set cluster sts overriding =
    let changed =
      override_claims set cluster sts.meta.namespace overriding.volume_claim_templates in
    if is_empty overriding.volume_claim_templates
    then ok sts.spec.volume_claim_templates
    else if eqb cluster.spec.persistence.storage 0
    then ok sts.spec.volume_claim_templates
    else changed

unfoldable pub override_template :
    PatchPod → PodTemplate → PodTemplateOverride → Outcome (Option PodTemplate)
unfolding copy_object_meta apply_pod_spec_override
override_template patch template overriding =
    let meta : ObjectMeta = elim overriding.metadata [
      | none ↦ template.meta
      | some m ↦ copy_object_meta template.meta m
    ] in
    elim overriding.spec [
      | none ↦ ok (some (record template { meta = meta }))
      | some spec ↦ apply_pod_spec_override patch template.spec spec >>= λ patched. elim patched [
        | none ↦ ok none
        | some pod ↦ ok (some (record { meta = meta; spec = pod }))
      ]
    ]

module _ (set : SetControllerReference) (patch : PatchPod) (cluster : RabbitmqCluster) where
  unfoldable pub apply_spec_override :
      StatefulSetObject → StatefulSetSpecOverride → Outcome (Option StatefulSetObject)
  unfolding claims_of override_template
  apply_spec_override sts overriding = claims_of set cluster sts overriding >>= λ claims.
      let spec = record sts.spec {
        replicas = elim overriding.replicas [ none ↦ sts.spec.replicas | some n ↦ some n ];
        update_strategy = elim overriding.update_strategy [
          | none ↦ sts.spec.update_strategy
          | some s ↦ s
        ];
        pod_management_policy =
            if overriding.pod_management_policy == ""
            then sts.spec.pod_management_policy
            else overriding.pod_management_policy;
        min_ready_seconds =
            if eqb overriding.min_ready_seconds 0
            then sts.spec.min_ready_seconds
            else overriding.min_ready_seconds;
        volume_claim_templates = claims;
      } in
      elim overriding.template [
        | none ↦ ok (some (record sts { spec = spec }))
        | some t ↦ override_template patch spec.template t >>= λ changed. elim changed [
          | none ↦ ok none
          | some template ↦ ok (some (record sts { spec = record spec { template = template } }))
        ]
      ]

  unfoldable pub apply_sts_override :
      StatefulSetObject → StatefulSetOverride → Outcome (Option StatefulSetObject)
  unfolding copy_labels_annotations apply_spec_override
  apply_sts_override sts overriding =
      let meta : ObjectMeta = elim overriding.metadata [
        | none ↦ sts.meta
        | some m ↦ copy_labels_annotations sts.meta m
      ] in
      let renamed : StatefulSetObject = record sts { meta = meta } in
      elim overriding.spec [
        | none ↦ ok (some renamed)
        | some spec ↦ apply_spec_override renamed spec
      ]

  -- The override that the cluster asks for, if it does.
  unfoldable pub overridden_statefulset : StatefulSetObject → Outcome (Option StatefulSetObject)
  unfolding apply_sts_override
  overridden_statefulset next = elim cluster.spec.override.statefulset [
    | none ↦ ok (some next)
    | some overriding ↦
        wrap_error "failed applying StatefulSet override" (apply_sts_override next overriding)
  ]

  unfoldable pub own_statefulset : Option StatefulSetObject → Outcome (Option StatefulSetObject)
  unfolding with_controller
  own_statefulset none = ok none
  own_statefulset (some sts) =
      with_controller set cluster sts.meta >>= λ meta. ok (some (record sts { meta = meta }))

  unfoldable pub update_statefulset_object : StatefulSetObject → Outcome (Option StatefulSetObject)
  unfolding next_statefulset overridden_statefulset own_statefulset
  update_statefulset_object sts =
      overridden_statefulset (next_statefulset cluster set sts) >>= own_statefulset
