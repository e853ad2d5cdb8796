-- ===== src/Server.antt =====
-- The API server and the pods as a parameter, and the state of one reconciliation.
-- An operation of a client is a `Call`. What a call returns is given by a `Server`, which may answer
-- by the whole history of calls, so it stands for any API server, any other actor that changes the
-- objects between two calls, and any failure. The state of a reconciliation is the `*RabbitmqCluster`
-- that the steps share and mutate, and the history, the latest call first.
pub mod Emits
use rabbitmq_operator.Prelude.{
  ℕ, zero, suc, String, Bool, Option, none, some, List, ◌∷◌, Map, if◌then◌else◌,
}
use rabbitmq_operator.Cluster.{RabbitmqCluster, ConditionType, ConditionStatus}
use rabbitmq_operator.Status.{set_condition}
use rabbitmq_operator.Kube.{
  Error, Outcome, is_not_found, ObjectKey, StatefulSet, PersistentVolumeClaim, Pod, Endpoints,
  Secret, ConfigMap, Object,
}

-- The options of a deletion that the operator uses.
pub record DeleteOptions : Type 0 where
  pub precondition_uid : Option String
  pub orphan : Bool

pub data EventType : Type 0 where
  normal warning : EventType

pub data Call : Type 0 where
  get_cluster : ObjectKey → Call
  update_cluster update_status : RabbitmqCluster → Call
  list_statefulsets : String → Map String → Call
  get_statefulset : ObjectKey → Call
  update_statefulset : StatefulSet → Call
  delete_statefulset : ObjectKey → DeleteOptions → Call
  get_pvc : ObjectKey → Call
  update_pvc : String → PersistentVolumeClaim → Call
  list_pods : Map String → Call
  update_pod : Pod → Call
  get_endpoints : ObjectKey → Call
  get_secret : ObjectKey → Call
  get_config_map : ObjectKey → Call
  update_config_map : ConfigMap → Call
  get_object : String → ObjectKey → Call
  create_object update_object : Object → Call
  exec_in_pod : String → String → String → Call
  record_event : EventType → String → String → Call
  sleep : ℕ → Call

pub record Server : Type 0 where
  pub now : List Call → ℕ
  pub rfc3339 : ℕ → String
  pub parse_rfc3339 : String → Option ℕ
  -- How often `client-go/util/retry` tries again after the first failure.
  pub retries : ℕ
  pub on_get_cluster : List Call → ObjectKey → Outcome RabbitmqCluster
  pub on_update_cluster : List Call → RabbitmqCluster → Outcome RabbitmqCluster
  pub on_update_status : List Call → RabbitmqCluster → Outcome RabbitmqCluster
  pub on_list_statefulsets : List Call → String → Map String → Outcome (List StatefulSet)
  pub on_get_statefulset : List Call → ObjectKey → Outcome StatefulSet
  pub on_update_statefulset : List Call → StatefulSet → Option Error
  pub on_delete_statefulset : List Call → ObjectKey → DeleteOptions → Option Error
  pub on_get_pvc : List Call → ObjectKey → Outcome PersistentVolumeClaim
  pub on_update_pvc : List Call → String → PersistentVolumeClaim → Option Error
  pub on_list_pods : List Call → Map String → Outcome (List Pod)
  pub on_update_pod : List Call → Pod → Option Error
  pub on_get_endpoints : List Call → ObjectKey → Outcome Endpoints
  pub on_get_secret : List Call → ObjectKey → Outcome Secret
  pub on_get_config_map : List Call → ObjectKey → Outcome ConfigMap
  pub on_update_config_map : List Call → ConfigMap → Option Error
  pub on_get_object : List Call → String → ObjectKey → Outcome Object
  pub on_create_object : List Call → Object → Option Error
  pub on_update_object : List Call → Object → Option Error
  -- `equality.Semantic.DeepEqual`
  pub semantic_equal : Object → Object → Bool
  pub on_exec_in_pod : List Call → String → String → String → Option Error

pub record State : Type 0 where
  pub rmq : RabbitmqCluster
  pub calls : List Call

abbrev pub Act : Type 0 → Type 0
Act A = State → A × State

infixl 5 ◌>>=◌ ◌>>◌
unfoldable pub ◌>>=◌ : {A B : Type 0} → Act A → (A → Act B) → Act B
◌>>=◌ m f s = let (a, s') = m s in f a s'

abbrev pub ◌>>◌ : {B : Type 0} → Act (Unit {0}) → Act B → Act B
m >> k = m >>= λ _. k

unfoldable pub pure : {A : Type 0} → A → Act A
pure a s = (a, s)

-- One operation of a client: it is recorded, and answered by the history before it.
unfoldable pub call : {A : Type 0} → Call → (List Call → A) → Act A
call c respond s = (respond s.calls, record s { calls = c ∷ s.calls })

unfoldable pub gets : {A : Type 0} → (State → A) → Act A
gets f s = (f s, s)

unfoldable pub modify_rmq : (RabbitmqCluster → RabbitmqCluster) → Act (Unit {0})
modify_rmq f s = (tt, record s { rmq = f s.rmq })

unfoldable pub event : EventType → String → String → Act (Unit {0})
unfolding call
event t reason message = call (record_event t reason message) (λ _. tt)

-- `if err != nil { … }`
unfoldable pub on_error : {B : Type 0} → Option Error → (Error → Act B) → Act B → Act B
on_error none fail next = next
on_error (some e) fail next = fail e

-- The same for a call that returns a value with the error.
unfoldable pub on_outcome : {A B : Type 0} → Outcome A → (Error → Act B) → (A → Act B) → Act B
on_outcome (Outcome.ok a) fail next = next a
on_outcome (Outcome.err e) fail next = fail e

-- `client.IgnoreNotFound`
unfoldable pub ignore_not_found : Option Error → Option Error
unfolding is_not_found
ignore_not_found none = none
ignore_not_found (some e) = if is_not_found e then none else some e

-- `retry.OnError`: the function runs until it succeeds, fails with an error that is not to be retried,
-- or has been run often enough; the last error is returned.
unfoldable pub retry_after : (Error → Bool) → Act (Option Error) → Option Error → Act (Option Error)
unfolding pure
retry_after retriable again none = pure none
retry_after retriable again (some e) = if retriable e then again else pure (some e)

unfoldable pub retry_on_error : ℕ → (Error → Bool) → Act (Option Error) → Act (Option Error)
unfolding retry_after
retry_on_error zero retriable f = f
retry_on_error (suc n) retriable f = f >>= retry_after retriable (retry_on_error n retriable f)

module _ (server : Server) where
  -- `status.SetCondition` on the cluster that is reconciled.
  unfoldable pub set_cluster_condition :
      ConditionType → ConditionStatus → String → List String → Act (Unit {0})
  set_cluster_condition t c reason messages s =
      let now = server.now s.calls in
      (
        tt,
        record s {
          rmq = record s.rmq { status = set_condition now s.rmq.status t c reason messages };
        },
      )

  -- A client's `Update` of the cluster replaces it by what the API server returns; a failure leaves it.
  unfoldable pub replace_rmq : Outcome RabbitmqCluster → Act (Option Error)
  replace_rmq (Outcome.ok rmq) s = (none, record s { rmq = rmq })
  replace_rmq (Outcome.err e) s = (some e, s)

  unfoldable pub put_cluster : Act (Option Error)
  unfolding call gets replace_rmq
  put_cluster = do
    rmq ← gets (λ s. s.rmq)
    r ← call (update_cluster rmq) (λ h. server.on_update_cluster h rmq)
    replace_rmq r

  unfoldable pub put_status : Act (Option Error)
  unfolding call gets replace_rmq
  put_status = do
    rmq ← gets (λ s. s.rmq)
    r ← call (update_status rmq) (λ h. server.on_update_status h rmq)
    replace_rmq r
