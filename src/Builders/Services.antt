-- ===== src/Builders/Services.antt =====
-- internal/resource/service.go and headless_service.go, and the overrides of labels, annotations and
-- services of internal/resource/utils.go.
pub mod Laws
pub mod Settles
use rabbitmq_operator.Prelude.{
  ℕ, String, Bool, true, ◌||◌, Option, none, some, List, [], ◌∷◌, map, Map, insert, ◌==◌,
  if◌then◌else◌,
}
use rabbitmq_operator.Kube.{Outcome, ok, err}
use rabbitmq_operator.Cluster.{RabbitmqCluster, ServiceOverride, EmbeddedLabelsAnnotations}
use rabbitmq_operator.Metadata.{Labels, label_selector, reconcile_annotations}
use rabbitmq_operator.Ports.{
  ServicePort, new_port_manager, client_service_ports, headless_service_ports,
}
use rabbitmq_operator.Merge.{merge_service_ports}
use rabbitmq_operator.Builders.Meta.{
  ObjectMeta, ◌>>=◌, wrap_error, SetControllerReference, child_meta, update_meta, with_controller,
}

-- The fields of `corev1.ServiceSpec` that the operator sets.
pub record ServiceSettings : Type 0 where
  pub ports : List ServicePort
  pub selector : Labels
  pub service_type : String
  pub cluster_ip : String
  pub session_affinity : String
  pub publish_not_ready_addresses : Bool

pub record ServiceObject : Type 0 where
  pub meta : ObjectMeta
  pub spec : ServiceSettings

-- The last entry of the list is visited first.
unfoldable pub merge_string_map : Map String → Map String → Map String
merge_string_map base [] = base
merge_string_map base ((k, v) ∷ overriding) = insert k v (merge_string_map base overriding)

abbrev pub override_map : Map String → Option (Map String) → Map String
override_map base none = base
override_map base (some overriding) = merge_string_map base overriding

unfoldable pub copy_labels_annotations : ObjectMeta → EmbeddedLabelsAnnotations → ObjectMeta
unfolding merge_string_map
copy_labels_annotations base overriding = record base {
  labels = override_map base.labels overriding.labels;
  annotations = override_map base.annotations overriding.annotations;
}

-- `strategicpatch.StrategicMergePatch` on the JSON of a spec, and back.
abbrev pub PatchService : Type 0
PatchService = ServiceSettings → String → Outcome ServiceSettings

unfoldable pub apply_svc_override :
    PatchService → ServiceObject → ServiceOverride → Outcome ServiceObject
unfolding copy_labels_annotations
apply_svc_override patch svc overriding =
    let meta : ObjectMeta = elim overriding.metadata [
      | none ↦ svc.meta
      | some m ↦ copy_labels_annotations svc.meta m
    ] in
    elim overriding.spec [
      | none ↦ ok (record svc { meta = meta })
      | some text ↦ patch svc.spec text >>= λ patched. ok (record { meta = meta; spec = patched })
    ]

abbrev no_settings : ServiceSettings
no_settings = record {
  ports = [];
  selector = [];
  service_type = "";
  cluster_ip = "";
  session_affinity = "";
  publish_not_ready_addresses = Bool.false;
}

unfoldable pub without_node_port : ServicePort → ServicePort
without_node_port port = record port { node_port = 0 }

-- `Update` writes the default of the type into the instance, which it shares with the loop.
unfoldable pub default_service_type : RabbitmqCluster → RabbitmqCluster
default_service_type cluster =
    if cluster.spec.service.service_type == ""
    then record cluster {
      spec = record cluster.spec {
        service = record cluster.spec.service { service_type = "ClusterIP" };
      };
    }
    else cluster

unfoldable pub build_service : RabbitmqCluster → ServiceObject
unfolding child_meta
build_service cluster = record { meta = child_meta cluster ""; spec = no_settings }

unfoldable pub service_ports : RabbitmqCluster → List ServicePort → List ServicePort
unfolding merge_service_ports new_port_manager client_service_ports
service_ports cluster curr =
    merge_service_ports curr (client_service_ports (new_port_manager cluster))

-- The settings of the service behind the default of the type.
unfoldable pub service_settings : RabbitmqCluster → ServiceSettings → ServiceSettings
unfolding service_ports without_node_port label_selector
service_settings cluster spec =
    let ports = service_ports cluster spec.ports in
    record spec {
      ports =
          if cluster.spec.service.service_type == "ClusterIP"
            || cluster.spec.service.service_type == ""
          then map without_node_port ports
          else ports;
      selector = label_selector cluster.name;
      service_type = cluster.spec.service.service_type;
    }

module _ (set : SetControllerReference) where
  -- The instance and the service behind `Update`.
  unfoldable pub update_service :
      PatchService → RabbitmqCluster → ServiceObject → Outcome (RabbitmqCluster × ServiceObject)
  unfolding default_service_type service_settings apply_svc_override update_meta
      reconcile_annotations with_controller
  update_service patch cluster service =
      let instance = default_service_type cluster in
      let shared = update_meta cluster service.meta in
      let own = cluster.spec.service.annotations in
      let built : ServiceObject = record {
        meta = record shared { annotations = reconcile_annotations shared.annotations (own ∷ []) };
        spec = service_settings instance service.spec;
      } in
      do
        overridden ← elim cluster.spec.override.service [
          | none ↦ ok built
          | some overriding ↦
              wrap_error "failed applying Service override"
                (apply_svc_override patch built overriding)
        ]
        meta ← with_controller set instance overridden.meta
        ok (instance, record overridden { meta = meta })

  unfoldable pub headless_ports : RabbitmqCluster → List ServicePort → List ServicePort
  unfolding merge_service_ports new_port_manager headless_service_ports
  headless_ports cluster curr =
      merge_service_ports curr (headless_service_ports (new_port_manager cluster))

  unfoldable pub update_headless_service : RabbitmqCluster → ServiceObject → Outcome ServiceObject
  unfolding update_meta with_controller headless_ports label_selector
  update_headless_service cluster service = do
    meta ← with_controller set cluster (update_meta cluster service.meta)
    ok (record {
      meta = meta;
      spec = record {
        ports = headless_ports cluster service.spec.ports;
        selector = label_selector cluster.name;
        service_type = "ClusterIP";
        cluster_ip = "None";
        session_affinity = "None";
        publish_not_ready_addresses = true;
      };
    })

unfoldable pub build_headless_service : RabbitmqCluster → ServiceObject
unfolding child_meta
build_headless_service cluster = record { meta = child_meta cluster "nodes"; spec = no_settings }
