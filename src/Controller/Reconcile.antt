-- ===== src/Controller/Reconcile.antt =====
-- controllers/rabbitmqcluster_controller.go: the loop. A run that panics has no result.
pub mod Laws
pub mod Paused
use rabbitmq_operator.Prelude.{
  String, Option, none, some, List, [], ◌∷◌, ◌==◌, not, ◌||◌, if◌then◌else◌,
}
use rabbitmq_operator.Cluster.{
  RabbitmqCluster, ClusterStatus, reconcile_success, cond_true, cond_false,
}
use rabbitmq_operator.Kube.{Error, error_text, is_not_found, is_conflict, ObjectKey}
use rabbitmq_operator.Result.{
  ReconcileResult, continue_reconcile, CtrlResult, empty_result, output, is_error, get_error,
}
use rabbitmq_operator.Server.{
  Server, Act, ◌>>=◌, ◌>>◌, pure, call, gets, modify_rmq, on_outcome, retry_on_error,
  set_cluster_condition, put_status, get_cluster,
}
use rabbitmq_operator.Controller.Finalizer.{reconcile_delete}
use rabbitmq_operator.Controller.Guards.{
  Defaults, reconcile_paused, reconcile_operator_defaults, reconcile_tls, reconcile_scale_down,
}
use rabbitmq_operator.Controller.Annotations.{reconcile_queue_rebalanced}
use rabbitmq_operator.Controller.Equality.{status_deep_equal}
use rabbitmq_operator.Controller.StatusSteps.{reconcile_status, reconcile_status_conditions}
use rabbitmq_operator.Controller.Resources.{
  Builder, reconcile_resources, restart_statefulset_if_needed,
}
use rabbitmq_operator.Controller.Cli.{reconcile_rabbitmq_cli}

-- What `Reconcile` returns, or `none` for a panic.
abbrev pub Returned : Type 0
Returned = Option (CtrlResult × Option Error)

-- `if res = step(); res.Completed() { return res.Output() }`
unfoldable pub after_step : ReconcileResult → Act Returned → Act Returned
unfolding output
after_step continue_reconcile next = next
after_step r next = pure (output r)

unfoldable pub step : Act ReconcileResult → Act Returned → Act Returned
unfolding after_step
step act next = do r ← act; after_step r next

-- The same for a step that may panic.
unfoldable pub checked_step : Act (Option ReconcileResult) → Act Returned → Act Returned
unfolding after_step
checked_step act next = do r ← act; elim r [ none ↦ pure none | some found ↦ after_step found next ]

-- `validateAndGetOwner`, on the API version, the kind and the name of the controller reference.
unfoldable pub validate_and_get_owner : Option (String × String × String) → List String
validate_and_get_owner none = []
validate_and_get_owner (some (api_version, kind, name)) =
    if not (api_version == "rabbitmq.com/v1beta1") || not (kind == "RabbitmqCluster")
    then []
    else name ∷ []

module _ (server : Server) where
  -- The condition that a failed command leaves.
  unfoldable pub note_failure : ReconcileResult → Act (Unit {0})
  unfolding is_error get_error error_text
  note_failure r = elim (get_error r) [
    | none ↦ pure tt
    | some e ↦
        (if is_error r
          then set_cluster_condition server reconcile_success cond_false "FailedCLICommand"
              (error_text e ∷ [])
          else pure tt)
  ]

  unfoldable pub run_cli : Act Returned → Act Returned
  unfolding note_failure after_step
  run_cli next = do r ← reconcile_rabbitmq_cli server; note_failure r; after_step r next

  unfoldable pub finish : Act Returned
  finish = do
    modify_rmq (λ c. record c { status = record c.status { observed_generation = c.generation } })
    set_cluster_condition server reconcile_success cond_true "Success" ("Finish reconciling" ∷ [])
    pure (some (empty_result, none))

  -- The steps behind the one that can pause the reconciliation.
  unfoldable pub late_steps : (RabbitmqCluster → List Builder) → Act Returned
  unfolding step run_cli finish
  late_steps builders = step (reconcile_resources server builders) (
      step (restart_statefulset_if_needed server) (step (reconcile_status server) (run_cli finish)))

  unfoldable pub middle_steps : Defaults → (RabbitmqCluster → List Builder) → Act Returned
  unfolding step checked_step late_steps
  middle_steps defaults builders = step (reconcile_operator_defaults server defaults) (
      checked_step (reconcile_status_conditions server) (
        step (reconcile_tls server) (
          step (reconcile_queue_rebalanced server)
            (step (reconcile_scale_down server) (late_steps builders)))))

  unfoldable pub all_steps : Defaults → (RabbitmqCluster → List Builder) → Act Returned
  unfolding step middle_steps
  all_steps defaults builders =
      step (reconcile_delete server)
        (step (reconcile_paused server) (middle_steps defaults builders))

  -- The function that the deferred call retries: an update only where the status has changed.
  unfoldable pub save_status_once : ClusterStatus → Act (Option Error)
  unfolding status_deep_equal
  save_status_once before = do
    rmq ← gets (λ s. s.rmq)
    if status_deep_equal before rmq.status then pure none else put_status server

  -- The deferred call; its error is logged only.
  unfoldable pub save_status : ClusterStatus → Act (Unit {0})
  unfolding save_status_once
  save_status before = do
    _ ← retry_on_error server.retries is_conflict (save_status_once before)
    pure tt

  -- The state is the one of this request: `rmq` is written by the first call. A panic runs the
  -- deferred call too, and gives no result.
  unfoldable pub reconcile : Defaults → (RabbitmqCluster → List Builder) → ObjectKey → Act Returned
  unfolding all_steps save_status
  reconcile defaults builders key = do
    found ← call (get_cluster key) (λ h. server.on_get_cluster h key)
    on_outcome found
        (λ e.
          if is_not_found e
          then pure (some (empty_result, none))
          else pure (some (empty_result, some e)))
        (λ rmq. do
          modify_rmq (λ _. rmq)
          returned ← all_steps defaults builders
          save_status rmq.status
          pure returned)
