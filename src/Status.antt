-- ===== src/Status.antt =====
-- internal/status. A resource of the list is a StatefulSet or the Endpoints, or a nil pointer to one.
pub mod Laws
pub mod Update
use rabbitmq_operator.Prelude.{
  ℕ, zero, ◌<◌, String, Bool, true, false, Option, none, some, List, [], ◌∷◌, eqb, itoa, ◌<>◌,
  if◌then◌else◌,
}
use rabbitmq_operator.Cluster.{
  Condition, ConditionType, ConditionStatus, ClusterStatus, all_replicas_ready, cluster_available,
  no_warnings, reconcile_success, cond_true, cond_false, cond_unknown, type_eq, update_state,
  update_reason,
}
use rabbitmq_operator.Kube.{StatefulSet, Endpoints, desired_replicas}

pub data Resource : Type 0 where
  statefulset : Option StatefulSet → Resource
  endpoints : Option Endpoints → Resource

-- The zero `metav1.Time` is the instant 0.
unfoldable pub new_condition : ConditionType → Condition
new_condition t = record {
  condition_type = t;
  status = cond_unknown;
  last_transition_time = 0;
  reason = "";
  message = "";
}

-- The condition with which the three functions start their loops.
unfoldable pub start_condition : ConditionType → Option Condition → Condition
unfolding new_condition
start_condition t none = new_condition t
start_condition t (some old) = record (new_condition t) {
  last_transition_time = old.last_transition_time;
}

-- The case of a StatefulSet in `AllReplicasReadyCondition`. The branch that finds all pods ready
-- leaves the message of an earlier round.
replicas_case : Condition → Option StatefulSet → Condition
unfolding desired_replicas
replicas_case c none = record c {
  status = cond_unknown;
  reason = "MissingStatefulSet";
  message = "Could not find StatefulSet";
}
replicas_case c (some sts) =
    if eqb (desired_replicas sts) sts.ready_replicas
    then record c { status = cond_true; reason = "AllPodsAreReady" }
    else record c {
      status = cond_false;
      reason = "NotAllPodsReady";
      message = itoa sts.ready_replicas <> "/" <> itoa (desired_replicas sts) <> " Pods ready";
    }

unfoldable pub replicas_loop : Condition → List Resource → Condition
unfolding replicas_case
replicas_loop c [] = c
replicas_loop c (statefulset s ∷ rest) = replicas_loop (replicas_case c s) rest
replicas_loop c (endpoints e ∷ rest) = replicas_loop c rest

-- The result is not a named one: the deferred function writes the time to the local variable after
-- `return` has copied it, so the write never reaches the caller.
unfoldable pub all_replicas_ready_condition : List Resource → Option Condition → Condition
unfolding replicas_loop start_condition
all_replicas_ready_condition resources old =
    replicas_loop (start_condition all_replicas_ready old) resources

warnings_case : Condition → Option StatefulSet → Condition
warnings_case c none = record c {
  status = cond_unknown;
  reason = "MissingStatefulSet";
  message = "Could not find StatefulSet";
}
warnings_case c (some sts) =
    if eqb sts.first_container.memory_limit sts.first_container.memory_request
    then record c { status = cond_true; reason = "NoWarnings" }
    else record c {
      status = cond_false;
      reason = "MemoryRequestAndLimitDifferent";
      message = "RabbitMQ container memory resource request and limit must be equal";
    }

unfoldable pub warnings_loop : Condition → List Resource → Condition
unfolding warnings_case
warnings_loop c [] = c
warnings_loop c (statefulset s ∷ rest) = warnings_loop (warnings_case c s) rest
warnings_loop c (endpoints e ∷ rest) = warnings_loop c rest

-- The deferred write is lost here too.
unfoldable pub no_warnings_condition : List Resource → Option Condition → Condition
unfolding warnings_loop start_condition
no_warnings_condition resources old = warnings_loop (start_condition no_warnings old) resources

-- The loop over the subsets: `continue` goes on with the next subset.
unfoldable pub subsets_loop : Condition → List ℕ → Condition
subsets_loop c [] = c
subsets_loop c (zero ∷ subsets) = subsets_loop c subsets
subsets_loop c (_ ∷ subsets) =
    subsets_loop (record c { status = cond_true; reason = "AtLeastOneEndpointAvailable" }) subsets

available_case : Condition → Option Endpoints → Condition
unfolding subsets_loop
available_case c none = record c {
  status = cond_unknown;
  reason = "CouldNotRetrieveEndpoints";
  message = "Could not verify available service endpoints";
}
available_case c (some e) = record (subsets_loop c e.subsets) {
  status = cond_false;
  reason = "NoEndpointsAvailable";
  message = "The service has no endpoints available";
}

unfoldable pub available_loop : Condition → List Resource → Condition
unfolding available_case
available_loop c [] = c
available_loop c (statefulset s ∷ rest) = available_loop c rest
available_loop c (endpoints e ∷ rest) = available_loop (available_case c e) rest

-- The deferred write is lost here too.
unfoldable pub cluster_available_condition : List Resource → Option Condition → Condition
unfolding available_loop start_condition
cluster_available_condition resources old =
    available_loop (start_condition cluster_available old) resources

unfoldable pub reconcile_success_condition : ℕ → ConditionStatus → String → String → Condition
reconcile_success_condition now status reason message = record {
  condition_type = reconcile_success;
  status = status;
  last_transition_time = now;
  reason = reason;
  message = message;
}

-- The loop of `SetCondition`, which stops at the first condition of the type.
unfoldable pub set_in :
    ℕ → List Condition → ConditionType → ConditionStatus → String → List String → List Condition
unfolding update_state update_reason
set_in now [] t s reason messages = []
set_in now (c ∷ rest) t s reason messages =
    let others = set_in now rest t s reason messages in
    if type_eq c.condition_type t
    then update_reason (update_state c now s) reason messages ∷ rest
    else c ∷ others

unfoldable pub set_condition :
    ℕ → ClusterStatus → ConditionType → ConditionStatus → String → List String → ClusterStatus
unfolding set_in
set_condition now status t s reason messages = record status {
  conditions = set_in now status.conditions t s reason messages;
}

-- The loop of `SetConditions` that finds the old conditions: the last one of a type stands.
unfoldable pub old_condition : ConditionType → List Condition → Option Condition → Option Condition
old_condition t [] found = found
old_condition t (c ∷ rest) found =
    old_condition t rest (if type_eq c.condition_type t then some c else found)

unfoldable pub reconciled_condition : ℕ → Option Condition → Condition
unfolding reconcile_success_condition
reconciled_condition now (some old) = old
reconciled_condition now none = reconcile_success_condition now cond_unknown "Initialising" ""

unfoldable pub set_conditions : ℕ → List Resource → ClusterStatus → ClusterStatus
unfolding old_condition all_replicas_ready_condition cluster_available_condition
    no_warnings_condition reconciled_condition
set_conditions now resources status = record status {
  conditions =
      all_replicas_ready_condition resources
        (old_condition all_replicas_ready status.conditions none)
      ∷ cluster_available_condition resources
          (old_condition cluster_available status.conditions none)
      ∷ no_warnings_condition resources (old_condition no_warnings status.conditions none)
      ∷ reconciled_condition now (old_condition reconcile_success status.conditions none)
      ∷ [];
}
