-- ===== src/Builders/Services/Settles.antt =====
-- A second update of the client service of internal/resource/service.go.
use rabbitmq_operator.Prelude.{
  lookup, All, String, Bool, true, false, Option, none, some, List, [], ◌∷◌, map, ◌≡◌, refl, sym,
  ap, ◌∙◌, arith, if◌then◌else◌, Bool-cases, inl, inr, ◌==◌,
}
use rabbitmq_operator.Kube.{ok, OwnerReference}
use rabbitmq_operator.Cluster.{RabbitmqCluster}
use rabbitmq_operator.Ports.{ServicePort, new_port_manager, client_service_ports}
use rabbitmq_operator.Ports.Names.{port_name, client_service_ports-IsUnique}
use rabbitmq_operator.Merge.{update_port, merge_service_ports}
use rabbitmq_operator.Merge.Settles.{Has, unique_found, upsert_all-Has}
use rabbitmq_operator.Metadata.{Labels, label_selector}
use rabbitmq_operator.Merge.Reference.{
  merge_by-upsert_all, find_by, position, IsUnique, combined, find_by-merge_by,
}
use rabbitmq_operator.Metadata.{
  merge_with_filter, is_not_kubernetes_annotation, reconcile_annotations,
  reconcile_and_filter_annotations,
}
use rabbitmq_operator.Metadata.Laws.{lookup-merge_with_filter}
use rabbitmq_operator.Builders.Meta.{
  IsSteady, ObjectMeta, update_meta, wrap_error, wrap_passed, SetControllerReference, bind_passed,
  ok_injective, with_controller,
}
use rabbitmq_operator.Builders.Services.{
  ServiceObject, ServiceSettings, PatchService, service_ports, without_node_port,
  default_service_type, service_settings, update_service,
}
use rabbitmq_operator.Builders.Services.Laws.{
  update_port_keeps, option_map, is_cluster_ip, find_by-map,
}

position-map :
    (k : String) (ports : List ServicePort)
    → position port_name k (map without_node_port ports) ≡ position port_name k ports
unfolding position without_node_port
position-map k [] = refl
position-map k (p ∷ ports) = ground (arith, position-map k ports)

IsUnique-map :
    (ports : List ServicePort)
    → IsUnique port_name ports
    → IsUnique port_name (map without_node_port ports)
unfolding without_node_port
IsUnique-map [] u = tt
IsUnique-map (p ∷ ports) u = (position-map (port_name p) ports ∙ u.0, IsUnique-map ports u.1)

-- The ports with their node ports, or without.
abbrev shown : Bool → List ServicePort → List ServicePort
shown b ports = if b then map without_node_port ports else ports

IsUnique-shown :
    (b : Bool) (ports : List ServicePort)
    → IsUnique port_name ports
    → IsUnique port_name (shown b ports)
IsUnique-shown true ports u = IsUnique-map ports u
IsUnique-shown false ports u = u

default_service_type_again :
    (c : RabbitmqCluster) → default_service_type (default_service_type c) ≡ default_service_type c
unfolding default_service_type
default_service_type_again c = elim (Bool-cases (c.spec.service.service_type == "")) [
  | inl q ↦ rw q refl
  | inr q ↦ rw (q, q) refl
]

default_service_type-override :
    (c : RabbitmqCluster) → (default_service_type c).spec.override.service ≡ c.spec.override.service
unfolding default_service_type
default_service_type-override c = elim (Bool-cases (c.spec.service.service_type == "")) [
  | inl q ↦ rw q refl
  | inr q ↦ rw q refl
]

-- The metadata of the service before its owner is set.
abbrev served_meta : RabbitmqCluster → ObjectMeta → ObjectMeta
served_meta c meta = record (update_meta c meta) {
  annotations =
      reconcile_annotations (update_meta c meta).annotations (c.spec.service.annotations ∷ []);
}

served_meta-default :
    (c : RabbitmqCluster) (meta : ObjectMeta)
    → served_meta (default_service_type c) meta ≡ served_meta c meta
unfolding default_service_type update_meta
served_meta-default c meta = elim (Bool-cases (c.spec.service.service_type == "")) [
  | inl q ↦ rw q refl
  | inr q ↦ rw q refl
]

-- What an update without an override leaves.
update_service_parts :
    (set : SetControllerReference) (patch : PatchService) (c d : RabbitmqCluster)
    (service out : ServiceObject)
    → c.spec.override.service ≡ none
    → update_service set patch c service ≡ ok (d, out)
    → (d ≡ default_service_type c)
      × (out.spec ≡ service_settings d service.spec)
      × ((owners : List OwnerReference) × (set (default_service_type c) (served_meta c service.meta)
            ≡ ok owners)
          × (out.meta ≡ record (served_meta c service.meta) { owner_references = owners }))
unfolding update_service with_controller
update_service_parts set patch c d service out plain e =
    let e0 = simp (plain) at e in
    bind_passed (with_controller set (default_service_type c) _) _ e0 λ meta p q.
      let both = ok_injective q in
      (
        sym (ap (λ z. z.0) both),
        sym (ap (λ z. z.1.spec) both) ∙ ap (λ z. service_settings z.0 service.spec) both,
        bind_passed (wrap_error _ (set (default_service_type c) (served_meta c service.meta))) _ p
            λ owners r t.
              (owners, wrap_passed _ _ r, sym (ap (λ z. z.1.meta) both) ∙ sym (ok_injective t)),
      )

-- A second merge of two groups of annotations changes no lookup.
abbrev merged_twice : (String → Bool) → (String → Bool) → Labels → Labels → Labels → Labels
merged_twice f g inherited own base =
    merge_with_filter g (merge_with_filter f base (inherited ∷ [])) (own ∷ [])

lookup-merged_twice :
    (f g : String → Bool) (k : String) (inherited own base : Labels)
    → lookup k (merged_twice f g inherited own (merged_twice f g inherited own base))
      ≡ lookup k (merged_twice f g inherited own base)
lookup-merged_twice f g k inherited own base =
    let first = merge_with_filter f base (inherited ∷ []) in
    let once = merge_with_filter g first (own ∷ []) in
    let again = merge_with_filter f once (inherited ∷ []) in
    ground (
      arith,
      lookup-merge_with_filter g k again (own ∷ []),
      lookup-merge_with_filter f k once (inherited ∷ []),
      lookup-merge_with_filter g k first (own ∷ []),
      lookup-merge_with_filter f k base (inherited ∷ []),
    )

served_annotations_again :
    (c : RabbitmqCluster) (k : String) (base : ObjectMeta) (owners : List OwnerReference)
    → let once = served_meta c base in
      lookup k (served_meta c (record once { owner_references = owners })).annotations
      ≡ lookup k once.annotations
unfolding update_meta reconcile_annotations reconcile_and_filter_annotations
served_annotations_again c k base owners =
    lookup-merged_twice is_not_kubernetes_annotation (λ k. true) k c.annotations
      c.spec.service.annotations base.annotations

IsUnique-service_ports :
    (c : RabbitmqCluster) (curr : List ServicePort)
    → IsUnique port_name curr
    → IsUnique port_name (service_ports c curr)
unfolding service_ports merge_service_ports
IsUnique-service_ports c curr u =
    (find_by-merge_by port_name update_port update_port_keeps curr
      (client_service_ports (new_port_manager c)) u
      (client_service_ports-IsUnique (new_port_manager c))).0

map_again :
    (ports : List ServicePort)
    → map without_node_port (map without_node_port ports) ≡ map without_node_port ports
unfolding without_node_port
map_again [] = refl
map_again (p ∷ ports) = ap (λ rest. without_node_port p ∷ rest) (map_again ports)

shown_again : (b : Bool) (ports : List ServicePort) → shown b (shown b ports) ≡ shown b ports
shown_again true ports = map_again ports
shown_again false ports = refl

-- A merged port is left alone by an update, with its node port or without.
port_kept :
    (b : Bool) (xs : List ServicePort) (n : ServicePort) (before : Option ServicePort)
    → find_by port_name (port_name n) xs ≡ combined port_name update_port before (some n)
    → Has port_name update_port (shown b xs) n
unfolding update_port without_node_port
port_kept true xs n none h =
    (without_node_port n, find_by-map (port_name n) xs ∙ ap (option_map without_node_port) h, refl)
port_kept true xs n (some x) h = (
  without_node_port (update_port x n),
  find_by-map (port_name n) xs ∙ ap (option_map without_node_port) h,
  refl,
)
port_kept false xs n none h = (n, h, refl)
port_kept false xs n (some x) h = (update_port x n, h, refl)

-- Each port of the list stands among the shown ports, where an update leaves it alone.
ports_kept :
    (b : Bool) (xs curr whole nexts : List ServicePort)
    → ((k : String)
        → find_by port_name k xs
          ≡ combined port_name update_port (find_by port_name k curr) (find_by port_name k whole))
    → All (λ n. find_by port_name (port_name n) whole ≡ some n) nexts
    → All (Has port_name update_port (shown b xs)) nexts
ports_kept b xs curr whole [] look f = tt
ports_kept b xs curr whole (n ∷ nexts) look (f, fs) =
    let before = find_by port_name (port_name n) curr in
    (
      port_kept b xs n before (look (port_name n) ∙ ap (combined port_name update_port before) f),
      ports_kept b xs curr whole nexts look fs,
    )

service_ports_again :
    (c : RabbitmqCluster) (b : Bool) (curr : List ServicePort)
    → IsUnique port_name curr
    → service_ports c (shown b (service_ports c curr)) ≡ shown b (service_ports c curr)
unfolding service_ports merge_service_ports
service_ports_again c b curr u =
    let next = client_service_ports (new_port_manager c) in
    let distinct = client_service_ports-IsUnique (new_port_manager c) in
    let (unique, look) =
      find_by-merge_by port_name update_port update_port_keeps curr next u distinct in
    merge_by-upsert_all port_name update_port update_port_keeps (shown b (service_ports c curr))
      next (IsUnique-shown b (service_ports c curr) unique)
    ∙ upsert_all-Has port_name update_port (shown b (service_ports c curr)) next (
        ports_kept b (service_ports c curr) curr next next look
          (unique_found port_name next distinct))

service_settings_again :
    (c : RabbitmqCluster) (spec : ServiceSettings)
    → IsUnique port_name spec.ports
    → service_settings c (service_settings c spec) ≡ service_settings c spec
unfolding service_settings
service_settings_again c spec u =
    let b = is_cluster_ip c in
    ap
      (λ ports. record spec {
        ports = ports;
        selector = label_selector c.name;
        service_type = c.spec.service.service_type;
      })
      (ap (shown b) (service_ports_again c b spec.ports u)
        ∙ shown_again b (service_ports c spec.ports))

-- Given that setting an owner twice leaves the owners: where no override is given and the current ports
-- have distinct names, a second update of the service, for the cluster that the first one leaves,
-- changes neither the cluster nor the settings, the labels, the owners and the value of any annotation
-- of the service.
pub update_service_settles :
    (set : SetControllerReference) (patch : PatchService) (c d d' : RabbitmqCluster)
    (service out out' : ServiceObject) (k : String)
    → IsSteady set
    → c.spec.override.service ≡ none
    → IsUnique port_name service.spec.ports
    → update_service set patch c service ≡ ok (d, out)
    → update_service set patch d out ≡ ok (d', out')
    → (d' ≡ d)
      × (out'.spec ≡ out.spec)
      × (out'.meta.labels ≡ out.meta.labels)
      × (out'.meta.owner_references ≡ out.meta.owner_references)
      × (lookup k out'.meta.annotations ≡ lookup k out.meta.annotations)
unfolding update_meta
update_service_settles set patch c d d' service out out' k steady plain u e e' =
    let (d_is, out_is, (owners, owned, meta_is)) =
      update_service_parts set patch c d service out plain e in
    let still_plain =
      ap (λ z. z.spec.override.service) d_is ∙ default_service_type-override c ∙ plain in
    let (d'_is, out'_is, (owners', owned', meta'_is)) =
      update_service_parts set patch d d' out out' still_plain e' in
    let once_more : default_service_type d ≡ default_service_type c =
      ap default_service_type d_is ∙ default_service_type_again c in
    let same : d' ≡ d = d'_is ∙ once_more ∙ sym d_is in
    let same_meta : served_meta d out.meta ≡ served_meta c out.meta =
      ap (λ z. served_meta z out.meta) d_is ∙ served_meta-default c out.meta in
    let again : ObjectMeta =
      served_meta c (record (served_meta c service.meta) { owner_references = owners }) in
    let second : served_meta d out.meta ≡ again = same_meta ∙ ap (served_meta c) meta_is in
    let kept : owners' ≡ owners = ok_injective (
      sym owned'
      ∙ ap (λ z. set z (served_meta d out.meta)) once_more
      ∙ ap (set (default_service_type c)) second
      ∙ steady (default_service_type c) (served_meta c service.meta) again owners owned refl
          refl) in
    (
      same,
      out'_is
          ∙ ap (λ z. service_settings z out.spec) same
          ∙ ap (service_settings d) out_is
          ∙ service_settings_again d service.spec u
          ∙ sym out_is,
      ap (λ m. m.labels) meta'_is ∙ ap (λ m. m.labels) second ∙ sym (ap (λ m. m.labels) meta_is),
      ap (λ m. m.owner_references) meta'_is ∙ kept ∙ sym (ap (λ m. m.owner_references) meta_is),
      ap (λ m. lookup k m.annotations) meta'_is
          ∙ ap (λ m. lookup k m.annotations) second
          ∙ served_annotations_again c k service.meta owners
          ∙ sym (ap (λ m. lookup k m.annotations) meta_is),
    )
