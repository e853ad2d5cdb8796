-- ===== src/Cluster/Conditions.antt =====
-- The conditions of api/v1beta1/rabbitmqcluster_status.go and their two updates.
use rabbitmq_operator.Prelude.{ℕ, String, Bool, true, false, List, if◌then◌else◌, join_with}

pub data ConditionType : Type 0 where
  all_replicas_ready cluster_available no_warnings reconcile_success : ConditionType

-- `corev1.ConditionStatus`
pub data ConditionStatus : Type 0 where
  cond_true cond_false cond_unknown : ConditionStatus

pub record Condition : Type 0 where
  pub condition_type : ConditionType
  pub status : ConditionStatus
  pub last_transition_time : ℕ
  pub reason : String
  pub message : String

abbrev pub type_eq : ConditionType → ConditionType → Bool
type_eq all_replicas_ready all_replicas_ready = true
type_eq cluster_available cluster_available = true
type_eq no_warnings no_warnings = true
type_eq reconcile_success reconcile_success = true
type_eq _ _ = false

abbrev pub status_eq : ConditionStatus → ConditionStatus → Bool
status_eq cond_true cond_true = true
status_eq cond_false cond_false = true
status_eq cond_unknown cond_unknown = true
status_eq _ _ = false

-- `now` is the instant that `metav1.Now()` returns.
unfoldable pub update_state : Condition → ℕ → ConditionStatus → Condition
update_state condition now status = record condition {
  last_transition_time =
      if status_eq condition.status status then condition.last_transition_time else now;
  status = status;
}

unfoldable pub update_reason : Condition → String → List String → Condition
update_reason condition reason messages = record condition {
  reason = reason;
  message = join_with ". " messages;
}
