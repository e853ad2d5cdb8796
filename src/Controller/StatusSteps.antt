-- ===== src/Controller/StatusSteps.antt =====
-- controllers/reconcile_status.go.
pub mod Laws
use rabbitmq_operator.Prelude.{
  ℕ, zero, suc, not, ◌&&◌, Option, none, some, List, [], ◌∷◌, ltb, eqb, if◌then◌else◌,
}
use rabbitmq_operator.Metadata.{label_selector}
use rabbitmq_operator.Cluster.{
  RabbitmqCluster, ClusterStatus, child_resource_name, external_secret_enabled,
  vault_default_user_secret_enabled,
}
use rabbitmq_operator.Kube.{
  Outcome, ok, err, is_not_found, is_conflict, ObjectKey, StatefulSet, Endpoints,
}
use rabbitmq_operator.Status.{Resource, statefulset, endpoints, set_conditions}
use rabbitmq_operator.Result.{ReconcileResult, continue_reconcile, done, error_out}
use rabbitmq_operator.Server.{
  Server, Act, ◌>>=◌, ◌>>◌, pure, call, gets, modify_rmq, on_error, on_outcome, retry_on_error,
  put_status, list_statefulsets, get_endpoints,
}
use rabbitmq_operator.Controller.Equality.{conditions_eq, binding_eq, user_eq}

-- `status.defaultUser` and `status.binding` of `reconcileStatus`; a binding of an earlier run stays
-- where the default user is in Vault.
unfoldable pub with_references : RabbitmqCluster → ClusterStatus
unfolding child_resource_name vault_default_user_secret_enabled external_secret_enabled
with_references rmq =
    let service = some (record { name = child_resource_name rmq ""; namespace = rmq.namespace }) in
    let secret_name = child_resource_name rmq "default-user" in
    if not (vault_default_user_secret_enabled rmq)
    then record rmq.status {
      default_user = some (record {
        secret_reference = some (record {
          name = secret_name;
          namespace = rmq.namespace;
          keys = ("username", "username") ∷ ("password", "password") ∷ [];
        });
        service_reference = service;
      });
      binding = some (
          if external_secret_enabled rmq
          then rmq.spec.secret_backend.external_secret
          else secret_name);
    }
    else record rmq.status {
      default_user = some (record { secret_reference = none; service_reference = service });
    }

-- The status never shows fewer replicas than before.
unfoldable pub raise_replicas : RabbitmqCluster → RabbitmqCluster
raise_replicas rmq = record rmq {
  status = record rmq.status {
    replicas =
        if ltb rmq.status.replicas rmq.spec.replicas
        then rmq.spec.replicas
        else rmq.status.replicas;
  };
}

unfoldable pub status_of_run : RabbitmqCluster → ClusterStatus
unfolding with_references raise_replicas
status_of_run rmq = with_references (raise_replicas rmq)

-- `*rmq.Spec.Replicas` nil pointers and the endpoints.
unfoldable pub empty_resources : ℕ → Option Endpoints → List Resource
empty_resources zero e = endpoints e ∷ []
empty_resources (suc n) e = statefulset none ∷ empty_resources n e

-- The items overwrite the list from its start. One item too many takes the place of the endpoints;
-- behind that the index is out of range and the source panics: `none`.
unfoldable pub place_items : List StatefulSet → List Resource → Option (List Resource)
place_items [] rs = some rs
place_items (sts ∷ items) [] = none
place_items (sts ∷ items) (r ∷ rs) = elim (place_items items rs) [
  | none ↦ none
  | some placed ↦ some (statefulset (some sts) ∷ placed)
]

-- A step of the loop that may panic has no result then.
unfoldable pub child_list : ℕ → Option Endpoints → List StatefulSet → Option (List Resource)
unfolding empty_resources place_items
child_list replicas e items = place_items items (empty_resources replicas e)

module _ (server : Server) where
  unfoldable pub update_status_step : Act ReconcileResult
  update_status_step = do
    r ← retry_on_error server.retries is_conflict (put_status server)
    on_error r (λ e. pure (error_out e)) (pure done)

  unfoldable pub reconcile_status : Act ReconcileResult
  unfolding status_of_run update_status_step
  reconcile_status = do
    rmq ← gets (λ s. s.rmq)
    let new = status_of_run rmq
    modify_rmq (λ c. record c { status = new })
    if eqb rmq.status.replicas new.replicas
          && binding_eq rmq.status.binding new.binding
          && user_eq rmq.status.default_user new.default_user
        then pure continue_reconcile
        else update_status_step

  -- The endpoints are nil where they are not found.
  unfoldable pub read_endpoints : RabbitmqCluster → Act (Outcome (Option Endpoints))
  unfolding child_resource_name
  read_endpoints rmq = do
    let key : ObjectKey = record { namespace = rmq.namespace; name = child_resource_name rmq "" }
    found ← call (get_endpoints key) (λ h. server.on_get_endpoints h key)
    on_outcome found (λ e. if is_not_found e then pure (ok none) else pure (err e))
        (λ e. pure (ok (some e)))

  -- A list that is not found counts as one without items.
  unfoldable pub list_items : RabbitmqCluster → Act (Outcome (List StatefulSet))
  list_items rmq = do
    found ←
        call (list_statefulsets rmq.namespace (label_selector rmq.name))
          (λ h. server.on_list_statefulsets h rmq.namespace (label_selector rmq.name))
    on_outcome found (λ e. if is_not_found e then pure (ok []) else pure (err e))
        (λ items. pure (ok items))

  unfoldable pub get_child_resources : Act (Outcome (Option (List Resource)))
  unfolding list_items read_endpoints child_list
  get_child_resources = do
    rmq ← gets (λ s. s.rmq)
    items ← list_items rmq
    on_outcome items (λ e. pure (err e))
        (λ found. do
          e ← read_endpoints rmq
          on_outcome e (λ x. pure (err x))
              (λ ends. pure (ok (child_list rmq.spec.replicas ends found))))

  -- The conditions from the children, and the update where they have changed.
  unfoldable pub apply_conditions : List Resource → Act ReconcileResult
  unfolding update_status_step
  apply_conditions resources = do
    rmq ← gets (λ s. s.rmq)
    now ← gets (λ s. server.now s.calls)
    let new = set_conditions now resources rmq.status
    modify_rmq (λ c. record c { status = new })
    if conditions_eq rmq.status.conditions new.conditions
        then pure continue_reconcile
        else update_status_step

  -- `none` is the panic of `getChildResources`.
  unfoldable pub reconcile_status_conditions : Act (Option ReconcileResult)
  unfolding get_child_resources apply_conditions
  reconcile_status_conditions = do
    found ← get_child_resources
    on_outcome found (λ e. pure (some (error_out e)))
        (λ placed. elim placed [
          | none ↦ pure none
          | some resources ↦ (do r ← apply_conditions resources; pure (some r))
        ])
