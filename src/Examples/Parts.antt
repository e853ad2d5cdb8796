-- ===== src/Examples/Parts.antt =====
-- The theorems on the metadata, the result, the status and the ports, at concrete inputs.
use rabbitmq_operator.Prelude.{
  String, none, some, List, [], ◌∷◌, ◌++◌, ◌≡◌, ◌≢◌, eqb, if◌then◌else◌,
}
use rabbitmq_operator.Cluster.{cond_true, cond_false}
use rabbitmq_operator.Kube.{desired_replicas}
use rabbitmq_operator.Status.{
  Resource, statefulset, endpoints, all_replicas_ready_condition, no_warnings_condition,
  cluster_available_condition, set_conditions,
}
use rabbitmq_operator.Status.Laws.{
  transition_time_stuck, cluster_available-ne-true, all_replicas_ready_last,
}
use rabbitmq_operator.Status.Update.{set_conditions_idem}
use rabbitmq_operator.Ports.{PortManager, new_port_manager}
use rabbitmq_operator.Examples.Data.{cluster, status, sts}

abbrev labels : List (String × String)
labels = ("team", "a") ∷ ("app.kubernetes.io/name", "other") ∷ []

abbrev resources : List Resource
resources = statefulset (some sts) ∷ endpoints (some (record { subsets = 1 ∷ [] })) ∷ []

transition_time_stuck_example :
    ((all_replicas_ready_condition resources none).last_transition_time ≡ 0)
    × ((no_warnings_condition resources none).last_transition_time ≡ 0)
    × ((cluster_available_condition resources none).last_transition_time ≡ 0)
transition_time_stuck_example = transition_time_stuck resources none

cluster_available-ne-true_example : (cluster_available_condition resources none).status ≢ cond_true
cluster_available-ne-true_example = cluster_available-ne-true resources none

all_replicas_ready_last_example :
    (all_replicas_ready_condition
      ((statefulset none ∷ []) ++ statefulset (some sts) ∷ endpoints none ∷ [])
      none).status
    ≡ (if eqb (desired_replicas sts) sts.ready_replicas then cond_true else cond_false)
all_replicas_ready_last_example = all_replicas_ready_last (statefulset none ∷ []) sts none none

set_conditions_idem_example :
    set_conditions 200 resources (set_conditions 100 resources status)
    ≡ set_conditions 100 resources status
set_conditions_idem_example = set_conditions_idem 100 200 resources status

abbrev manager : PortManager
manager = new_port_manager cluster
