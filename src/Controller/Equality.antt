-- ===== src/Controller/Equality.antt =====
-- `reflect.DeepEqual` on the status of a cluster and its parts. A nil map or slice is an empty one here.
pub mod Laws
use rabbitmq_operator.Prelude.{
  String, Bool, true, false, ◌&&◌, Option, none, some, List, [], ◌∷◌, Map, lookup, length, eqb,
  ◌==◌,
}
use rabbitmq_operator.Cluster.{
  Condition, ClusterStatus, DefaultUser, SecretReference, ServiceReference, type_eq, status_eq,
}

unfoldable pub condition_eq : Condition → Condition → Bool
condition_eq a b =
    type_eq a.condition_type b.condition_type
    && status_eq a.status b.status
    && eqb a.last_transition_time b.last_transition_time
    && a.reason == b.reason
    && a.message == b.message

unfoldable pub conditions_eq : List Condition → List Condition → Bool
unfolding condition_eq
conditions_eq [] [] = true
conditions_eq (a ∷ as') (b ∷ bs) = condition_eq a b && conditions_eq as' bs
conditions_eq _ _ = false

unfoldable pub option_eq : {A : Type 0} → (A → A → Bool) → Option A → Option A → Bool
option_eq eq none none = true
option_eq eq (some a) (some b) = eq a b
option_eq eq _ _ = false

text_eq : String → String → Bool
text_eq a b = a == b

-- Every entry of the first map is one of the second.
entries_in : Map String → Map String → Bool
unfolding option_eq text_eq
entries_in [] n = true
entries_in ((k, v) ∷ m) n = option_eq text_eq (lookup k n) (some v) && entries_in m n

unfoldable pub map_eq : Map String → Map String → Bool
unfolding entries_in
map_eq m n = eqb (length m) (length n) && entries_in m n

secret_reference_eq : SecretReference → SecretReference → Bool
unfolding map_eq
secret_reference_eq a b = a.name == b.name && a.namespace == b.namespace && map_eq a.keys b.keys

service_reference_eq : ServiceReference → ServiceReference → Bool
service_reference_eq a b = a.name == b.name && a.namespace == b.namespace

default_user_eq : DefaultUser → DefaultUser → Bool
unfolding option_eq secret_reference_eq service_reference_eq
default_user_eq a b =
    option_eq secret_reference_eq a.secret_reference b.secret_reference
    && option_eq service_reference_eq a.service_reference b.service_reference

unfoldable pub binding_eq : Option String → Option String → Bool
unfolding option_eq text_eq
binding_eq a b = option_eq text_eq a b

unfoldable pub user_eq : Option DefaultUser → Option DefaultUser → Bool
unfolding option_eq default_user_eq
user_eq a b = option_eq default_user_eq a b

unfoldable pub status_deep_equal : ClusterStatus → ClusterStatus → Bool
unfolding conditions_eq user_eq binding_eq
status_deep_equal a b =
    eqb a.replicas b.replicas
    && conditions_eq a.conditions b.conditions
    && user_eq a.default_user b.default_user
    && binding_eq a.binding b.binding
    && eqb a.observed_generation b.observed_generation
