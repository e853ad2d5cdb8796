-- ===== src/Builders/Services/Laws.antt =====
-- The ports of the client service that internal/resource/service.go leaves.
use rabbitmq_operator.Prelude.{
  String, Bool, false, ◌||◌, Option, none, some, List, [], ◌∷◌, map, ◌==◌, ◌≡◌, refl, sym, ap, ◌∙◌,
  arith, if◌then◌else◌, Bool-cases, inl, inr,
}
use rabbitmq_operator.Kube.{ok}
use rabbitmq_operator.Cluster.{
  RabbitmqCluster, tls_enabled, disable_non_tls_listeners, mutual_tls_enabled,
}
use rabbitmq_operator.Ports.{ServicePort, new_port_manager, client_service_ports}
use rabbitmq_operator.Ports.Names.{port_name, client_service_ports-IsUnique}
use rabbitmq_operator.Merge.{update_port, merge_service_ports}
use rabbitmq_operator.Merge.Reference.{find_by, IsUnique, combined, find_by-merge_by}
use rabbitmq_operator.Builders.Meta.{
  SetControllerReference, bind_passed, ok_injective, with_controller,
}
use rabbitmq_operator.Builders.Services.{
  ServiceObject, PatchService, service_ports, without_node_port, default_service_type,
  service_settings, update_service,
}

pub update_port_keeps :
    (a b : ServicePort) → port_name a ≡ port_name b → port_name (update_port a b) ≡ port_name b
unfolding update_port
update_port_keeps a b e = e

-- The port with a name, from the current port and the one that the plugins and TLS ask for.
abbrev pub desired : RabbitmqCluster → List ServicePort → String → Option ServicePort
desired c curr k =
    combined port_name update_port (find_by port_name k curr)
      (find_by port_name k (client_service_ports (new_port_manager c)))

pub find_by-service_ports :
    (c : RabbitmqCluster) (curr : List ServicePort) (k : String)
    → IsUnique port_name curr
    → find_by port_name k (service_ports c curr) ≡ desired c curr k
unfolding service_ports merge_service_ports
find_by-service_ports c curr k u =
    (find_by-merge_by port_name update_port update_port_keeps curr
        (client_service_ports (new_port_manager c)) u
        (client_service_ports-IsUnique (new_port_manager c))).1
      k

abbrev pub option_map : (ServicePort → ServicePort) → Option ServicePort → Option ServicePort
option_map f none = none
option_map f (some p) = some (f p)

pub find_by-map :
    (k : String) (ports : List ServicePort)
    → find_by port_name k (map without_node_port ports)
      ≡ option_map without_node_port (find_by port_name k ports)
unfolding find_by without_node_port
find_by-map k [] = refl
find_by-map k (p ∷ ports) = ground (arith, find_by-map k ports)

-- Whether the node ports are cleared.
abbrev pub is_cluster_ip : RabbitmqCluster → Bool
is_cluster_ip c = c.spec.service.service_type == "ClusterIP" || c.spec.service.service_type == ""

abbrev pub exposed : RabbitmqCluster → Option ServicePort → Option ServicePort
exposed c found = if is_cluster_ip c then option_map without_node_port found else found

find_by-service_settings :
    (c d : RabbitmqCluster) (curr : List ServicePort) (k : String)
    → find_by port_name k (if is_cluster_ip d then map without_node_port curr else curr)
      ≡ exposed d (find_by port_name k curr)
find_by-service_settings c d curr k = elim (Bool-cases (is_cluster_ip d)) [
  | inl q ↦ rw q (find_by-map k curr)
  | inr q ↦ rw q refl
]

service_ports-default :
    (c : RabbitmqCluster) (curr : List ServicePort)
    → service_ports (default_service_type c) curr ≡ service_ports c curr
unfolding service_ports default_service_type new_port_manager tls_enabled disable_non_tls_listeners
    mutual_tls_enabled
service_ports-default c curr = elim (Bool-cases (c.spec.service.service_type == "")) [
  | inl q ↦ rw q refl
  | inr q ↦ rw q refl
]

default_service_type-set :
    (c : RabbitmqCluster)
    → (is_cluster_ip (default_service_type c) ≡ is_cluster_ip c)
      × (((default_service_type c).spec.service.service_type == "") ≡ false)
unfolding default_service_type
default_service_type-set c = elim (Bool-cases (c.spec.service.service_type == "")) [
  | inl q ↦ rw q (ground arith, refl)
  | inr q ↦ rw q (ap (λ b. c.spec.service.service_type == "ClusterIP" || b) q, q)
]

-- Where no override is given and the current ports have distinct names, an update without an error
-- leaves under each name the port that the plugins and TLS ask for, with what else the current port
-- holds, or the current port where they ask for none; the node port is cleared where the type is
-- ClusterIP or not set. The type of the service is the one of the cluster afterwards, which is set.
pub update_service_ports :
    (set : SetControllerReference) (patch : PatchService) (c d : RabbitmqCluster)
    (service out : ServiceObject) (k : String)
    → c.spec.override.service ≡ none
    → IsUnique port_name service.spec.ports
    → update_service set patch c service ≡ ok (d, out)
    → (find_by port_name k out.spec.ports ≡ exposed c (desired c service.spec.ports k))
      × (out.spec.service_type ≡ d.spec.service.service_type)
      × ((d.spec.service.service_type == "") ≡ false)
unfolding update_service service_settings
update_service_ports set patch c d service out k plain u e =
    let e0 = simp (plain) at e in
    bind_passed (with_controller set (default_service_type c) _) _ e0 λ meta p q.
      let both = ok_injective q in
      let (same, type_set) = default_service_type-set c in
      (
        ap (λ z. find_by port_name k z.1.spec.ports) (sym both)
            ∙ find_by-service_settings c (default_service_type c)
                (service_ports (default_service_type c) service.spec.ports) k
            ∙ ap
                (λ b.
                  let found =
                    find_by port_name k
                      (service_ports (default_service_type c) service.spec.ports) in
                  if b then option_map without_node_port found else found)
                same
            ∙ ap (exposed c) (
                ap (find_by port_name k) (service_ports-default c service.spec.ports)
                ∙ find_by-service_ports c service.spec.ports k u),
        ap (λ z. z.1.spec.service_type) (sym both) ∙ ap (λ z. z.0.spec.service.service_type) both,
        ap (λ z. z.0.spec.service.service_type == "") (sym both) ∙ type_set,
      )
