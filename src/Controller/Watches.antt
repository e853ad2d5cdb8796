-- ===== src/Controller/Watches.antt =====
-- The registration of the controller in controllers/rabbitmqcluster_controller.go: the index of children
-- by the cluster that controls them, and the types that are watched. Types are named as `%T` prints them.
use rabbitmq_operator.Prelude.{
  String, Bool, ◌||◌, Option, none, some, List, [], ◌∷◌, ◌==◌, if◌then◌else◌,
}
use rabbitmq_operator.Kube.{Error}
use rabbitmq_operator.Controller.Reconcile.{validate_and_get_owner}

-- The types of `addResourceToIndex`.
unfoldable pub is_child_type : String → Bool
is_child_type t =
    t == "*v1.StatefulSet"
    || t == "*v1.ConfigMap"
    || t == "*v1.Service"
    || t == "*v1.Role"
    || t == "*v1.RoleBinding"
    || t == "*v1.ServiceAccount"
    || t == "*v1.Secret"

-- The names under which an object is indexed, by its type and its controller reference.
unfoldable pub add_resource_to_index : String → Option (String × String × String) → List String
unfolding is_child_type validate_and_get_owner
add_resource_to_index type_name owner =
    if is_child_type type_name then validate_and_get_owner owner else []

abbrev pub indexed_types : List String
indexed_types = "*v1.StatefulSet" ∷ "*v1.ConfigMap" ∷ "*v1.Service" ∷ []

-- What `NewControllerManagedBy` is given by `For` and `Owns`.
pub record Watches : Type 0 where
  pub for_type : String
  pub owned_types : List String

abbrev pub watches : Watches
watches = record {
  for_type = "*v1beta1.RabbitmqCluster";
  owned_types =
      "*v1.StatefulSet" ∷ "*v1.ConfigMap" ∷ "*v1.Service" ∷ "*v1.Role" ∷ "*v1.RoleBinding"
      ∷ "*v1.ServiceAccount" ∷ "*v1.Secret" ∷ [];
}

-- The loop over the types with an index, up to the first error.
unfoldable pub index_fields : (String → Option Error) → List String → Option Error
index_fields index_field [] = none
index_fields index_field (t ∷ rest) =
    let later = index_fields index_field rest in
    elim (index_field t) [ none ↦ later | some e ↦ some e ]

-- `IndexField` and `Complete` of the manager are parameters.
unfoldable pub set_up_with_manager :
    (String → Option Error) → (Watches → Option Error) → Option Error
unfolding index_fields
set_up_with_manager index_field complete = elim (index_fields index_field indexed_types) [
  | none ↦ complete watches
  | some e ↦ some e
]
