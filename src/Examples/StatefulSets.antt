-- ===== src/Examples/StatefulSets.antt =====
-- The theorems on StatefulSets at concrete inputs.
use rabbitmq_operator.Prelude.{
  Bool, true, false, Option, some, none, ◌≡◌, refl, if◌then◌else◌, lookup,
}
use rabbitmq_operator.Kube.{Outcome, ok, err}
use rabbitmq_operator.Cluster.{RabbitmqCluster}
use rabbitmq_operator.Merge.Reference.{find_by, position, IsUnique}
use rabbitmq_operator.Builders.Pods.Containers.{container_rabbitmq, container_setup, container_name}
use rabbitmq_operator.Builders.Text.{trim_space}
use rabbitmq_operator.Builders.StatefulSet.{StatefulSetObject, build_statefulset}
use rabbitmq_operator.Builders.StatefulSet.Override.{PatchPod, update_statefulset_object}
use rabbitmq_operator.Builders.StatefulSet.Laws.{
  update_statefulset_object-zero, update_statefulset_object-pods,
}
use rabbitmq_operator.Builders.StatefulSet.Settles.{IsDistinct, update_statefulset_object_settles}
use rabbitmq_operator.Examples.Data.{cluster, spec}
use rabbitmq_operator.Examples.Builders.{set_owner, value_or}

abbrev sts : StatefulSetObject
sts = build_statefulset cluster set_owner 0

abbrev pub keep_pod : PatchPod
keep_pod pod text = ok pod

abbrev without_storage : RabbitmqCluster
without_storage = record cluster {
  spec = record spec { persistence = record { storage = 0; storage_class_name = none } };
}

abbrev sts_of : RabbitmqCluster → StatefulSetObject
sts_of c = elim (value_or none (update_statefulset_object set_owner keep_pod c sts)) [
  | none ↦ sts
  | some s ↦ s
]

has_result : Outcome (Option StatefulSetObject) → Bool
has_result (err e) = false
has_result (ok none) = false
has_result (ok (some s)) = true

has_result_value :
    (o : Outcome (Option StatefulSetObject))
    → has_result o ≡ true
    → o ≡ ok (some (elim (value_or none o) [ none ↦ sts | some s ↦ s ]))
unfolding has_result
has_result_value (err e) h = absurd (cc h)
has_result_value (ok none) h = absurd (cc h)
has_result_value (ok (some s)) h = refl

sts_runs :
    (has_result (update_statefulset_object set_owner keep_pod cluster sts) ≡ true)
    × (has_result (update_statefulset_object set_owner keep_pod without_storage sts) ≡ true)
unfolding has_result update_statefulset_object
sts_runs = (refl, refl)

update_statefulset_object-zero_example :
    (sts_of without_storage).spec.volume_claim_templates ≡ sts.spec.volume_claim_templates
update_statefulset_object-zero_example =
    update_statefulset_object-zero set_owner keep_pod without_storage sts (sts_of without_storage)
      refl (has_result_value _ sts_runs.1)

sts-IsUnique :
    IsUnique container_name sts.spec.template.spec.containers
    × IsUnique container_name sts.spec.template.spec.init_containers
unfolding build_statefulset
sts-IsUnique = (tt, tt)

update_statefulset_object-pods_example :
    ((sts_of cluster).spec.replicas ≡ some (if cluster.spec.disable then 0 else 1))
    × (find_by container_name "rabbitmq" (sts_of cluster).spec.template.spec.containers
        ≡ some (container_rabbitmq cluster))
    × (find_by container_name "setup-container" (sts_of cluster).spec.template.spec.init_containers
        ≡ some (container_setup cluster))
update_statefulset_object-pods_example =
    update_statefulset_object-pods set_owner keep_pod cluster sts (sts_of cluster) refl
      sts-IsUnique.0 sts-IsUnique.1 (has_result_value _ sts_runs.0)

sts-IsDistinct : IsDistinct cluster sts
unfolding build_statefulset position lookup
sts-IsDistinct = (tt, tt, tt, tt, (refl, tt))

update_statefulset_object_settles_example :
    update_statefulset_object set_owner keep_pod cluster (sts_of cluster)
    ≡ ok (some (sts_of cluster))
update_statefulset_object_settles_example =
    update_statefulset_object_settles cluster set_owner keep_pod refl sts (sts_of cluster)
      (λ c m n owners e same_owners same_namespace. e) tt refl sts-IsDistinct
      (has_result_value _ sts_runs.0)

-- White space at both ends, with a vertical tab and a form feed.
trimmed : trim_space "\t\u{b} true \u{c}\n" ≡ "true"
unfolding trim_space
trimmed = refl
