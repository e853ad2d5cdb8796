-- ===== src/Builders/StatefulSet.antt =====
-- internal/resource/statefulset.go: the StatefulSet of one replica, its pod template and its claims, and
-- the merges of claims and constraints of internal/resource/utils.go.
pub mod Override
pub mod Laws
pub mod Settles
use rabbitmq_operator.Prelude.{
  ℕ, ◌-◌, String, Bool, true, false, ◌||◌, Option, none, some, List, [], ◌∷◌, map, lookup, eqb, ltb,
  ◌==◌, if◌then◌else◌,
}
use rabbitmq_operator.Kube.{OwnerReference, Outcome, ok, err}
use rabbitmq_operator.Cluster.{
  RabbitmqCluster, ClaimSpec, child_resource_name, statefulset_name, StatefulSetSpecOverride,
}
use rabbitmq_operator.Metadata.{
  Labels, get_labels, label, label_selector, reconcile_annotations,
  reconcile_and_filter_annotations,
}
use rabbitmq_operator.Merge.{merge_by}
use rabbitmq_operator.Builders.Meta.{ObjectMeta, ◌>>=◌, SetControllerReference, update_meta}
use rabbitmq_operator.Builders.Text.{trim_space}
use rabbitmq_operator.Builders.Pods.{
  TopologySpreadConstraint, PodSettings, PodTemplate, ClaimObject,
}
use rabbitmq_operator.Builders.Pods.Volumes.{volumes}
use rabbitmq_operator.Builders.Pods.Containers.{containers, init_containers}
use rabbitmq_operator.Builders.Pods.Vault.{append_vault_annotations}

pub record StatefulSetSettings : Type 0 where
  pub replicas : Option ℕ
  pub selector : Labels
  pub template : PodTemplate
  pub volume_claim_templates : List ClaimObject
  pub service_name : String
  pub pod_management_policy : String
  pub update_strategy : String
  pub min_ready_seconds : ℕ

pub record StatefulSetObject : Type 0 where
  pub meta : ObjectMeta
  pub spec : StatefulSetSettings

abbrev empty_meta : ObjectMeta
empty_meta = record {
  name = "";
  namespace = "";
  labels = [];
  annotations = [];
  owner_references = [];
}

abbrev empty_template : PodTemplate
empty_template = record {
  meta = empty_meta;
  spec = record {
    volumes = [];
    containers = [];
    init_containers = [];
    affinity = none;
    tolerations = [];
    topology_spread_constraints = [];
    image_pull_secrets = none;
    service_account_name = "";
    automount_service_account_token = none;
    termination_grace_period_seconds = none;
    security_context = none;
  };
}

abbrev pub claim_name : ClaimObject → String
claim_name claim = claim.meta.name

-- Only the requested storage of a claim is changed.
unfoldable pub update_claim : ClaimObject → ClaimObject → ClaimObject
update_claim curr next = record curr { spec = record curr.spec { storage = next.spec.storage } }

unfoldable pub merge_pvcs : List ClaimObject → List ClaimObject → List ClaimObject
unfolding merge_by update_claim
merge_pvcs = merge_by claim_name update_claim

unfoldable pub update_constraint :
    TopologySpreadConstraint → TopologySpreadConstraint → TopologySpreadConstraint
update_constraint curr next = next

unfoldable pub merge_tscs :
    List TopologySpreadConstraint → List TopologySpreadConstraint → List TopologySpreadConstraint
unfolding merge_by update_constraint
merge_tscs = merge_by (λ c. c.topology_key) update_constraint

unfoldable pub disable_block_owner_deletion : ClaimObject → ClaimObject
disable_block_owner_deletion claim = record claim {
  meta = record claim.meta {
    owner_references =
        map (λ (o : OwnerReference). record o { block_owner_deletion = some false })
          claim.meta.owner_references;
  };
}

unfoldable pub disable_default_topology_spread_constraints : RabbitmqCluster → Bool
unfolding lookup trim_space
disable_default_topology_spread_constraints cluster =
    elim (lookup "rabbitmq.com/disable-default-topology-spread-constraints" cluster.annotations) [
      | none ↦ false
      | some text ↦ trim_space text == "true"
    ]

module _ (cluster : RabbitmqCluster) where
  unfoldable pub topology_spread_constraints :
      List TopologySpreadConstraint → List TopologySpreadConstraint
  unfolding merge_tscs label_selector disable_default_topology_spread_constraints
  topology_spread_constraints curr =
      if disable_default_topology_spread_constraints cluster
      then curr
      else merge_tscs curr (
          record {
            max_skew = 1;
            topology_key = "topology.kubernetes.io/zone";
            when_unsatisfiable = "ScheduleAnyway";
            match_labels = label_selector cluster.name;
          }
          ∷ [])

  -- The claim before its owner is set.
  unfoldable pub persistence_claim : ClaimObject
  unfolding label reconcile_and_filter_annotations
  persistence_claim = record {
    meta = record {
      name = "persistence";
      namespace = cluster.namespace;
      labels = label cluster.name;
      annotations = reconcile_and_filter_annotations [] (cluster.annotations ∷ []);
      owner_references = [];
    };
    spec = record {
      storage = cluster.spec.persistence.storage;
      storage_class_name = cluster.spec.persistence.storage_class_name;
      access_modes = "ReadWriteOnce" ∷ [];
    };
  }

  -- An error of the owner is logged, and the claims stay.
  unfoldable pub persistent_volume_claims :
      SetControllerReference → List ClaimObject → List ClaimObject
  unfolding merge_pvcs persistence_claim disable_block_owner_deletion
  persistent_volume_claims set curr =
      if eqb cluster.spec.persistence.storage 0
      then curr
      else elim (set cluster persistence_claim.meta) [
        | err e ↦ curr
        | ok owners ↦ merge_pvcs curr (
            disable_block_owner_deletion (record persistence_claim {
              meta = record persistence_claim.meta { owner_references = owners };
            })
            ∷ [])
      ]

  -- The annotations of a pod for Vault: the map starts empty.
  unfoldable pub default_pod_annotations : Labels
  unfolding append_vault_annotations
  default_pod_annotations = elim cluster.spec.secret_backend.vault [
    | none ↦ []
    | some vault ↦ append_vault_annotations [] cluster vault
  ]

  unfoldable pub pod_template_spec : PodTemplate → PodTemplate
  unfolding default_pod_annotations label reconcile_annotations volumes containers init_containers
      topology_spread_constraints child_resource_name
  pod_template_spec pod = record {
    meta = record pod.meta {
      labels = label cluster.name;
      annotations = reconcile_annotations pod.meta.annotations (default_pod_annotations ∷ []);
    };
    spec = record {
      volumes = volumes cluster pod.spec.volumes;
      containers = containers cluster pod.spec.containers;
      init_containers = init_containers cluster pod.spec.init_containers;
      affinity = cluster.spec.affinity;
      tolerations = cluster.spec.tolerations;
      topology_spread_constraints =
          topology_spread_constraints pod.spec.topology_spread_constraints;
      image_pull_secrets = cluster.spec.image_pull_secrets;
      service_account_name = child_resource_name cluster "server";
      automount_service_account_token = some true;
      termination_grace_period_seconds = some cluster.spec.termination_grace_period_seconds;
      security_context = some (record { fs_group = 0; run_as_user = 999 });
    };
  }

  -- The override of what cannot be updated later.
  abbrev override_selector : Labels → Option StatefulSetSpecOverride → Labels
  override_selector selector none = selector
  override_selector selector (some o) = elim o.selector [ none ↦ selector | some s ↦ s ]

  abbrev override_service_name : String → Option StatefulSetSpecOverride → String
  override_service_name name none = name
  override_service_name name (some o) = if o.service_name == "" then name else o.service_name

  abbrev spec_override : Option StatefulSetSpecOverride
  spec_override = elim cluster.spec.override.statefulset [ none ↦ none | some o ↦ o.spec ]

  unfoldable pub build_statefulset : SetControllerReference → ℕ → StatefulSetObject
  unfolding statefulset_name get_labels reconcile_and_filter_annotations label_selector
      persistent_volume_claims child_resource_name
  build_statefulset set index = record {
    meta = record {
      name = statefulset_name cluster "server" index;
      namespace = cluster.namespace;
      labels = get_labels cluster.name cluster.labels;
      annotations = reconcile_and_filter_annotations [] (cluster.annotations ∷ []);
      owner_references = [];
    };
    spec = record {
      replicas = none;
      selector = override_selector (label_selector cluster.name) spec_override;
      template = empty_template;
      volume_claim_templates = persistent_volume_claims set [];
      service_name = override_service_name (child_resource_name cluster "nodes") spec_override;
      pod_management_policy = "Parallel";
      update_strategy = "";
      min_ready_seconds = 0;
    };
  }

  -- What `Update` sets before the override.
  unfoldable pub next_statefulset : SetControllerReference → StatefulSetObject → StatefulSetObject
  unfolding update_meta pod_template_spec persistent_volume_claims
  next_statefulset set sts = record {
    meta = update_meta cluster sts.meta;
    spec = record sts.spec {
      replicas = some (if cluster.spec.disable then 0 else 1);
      template = pod_template_spec sts.spec.template;
      volume_claim_templates = persistent_volume_claims set sts.spec.volume_claim_templates;
      update_strategy = "{\"type\":\"RollingUpdate\",\"rollingUpdate\":{\"partition\":0}}";
    };
  }
