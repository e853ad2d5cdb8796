-- ===== src/Controller/Finalizer.antt =====
-- controllers/reconcile_finalizer.go, with `statefulSets` and `statefulSetUID` of controllers/utils.go.
pub mod Ownership
pub mod Controlled
use rabbitmq_operator.Prelude.{
  String, Bool, true, false, not, Option, none, some, List, [], ◌∷◌, ◌++◌, insert, ◌==◌, ◌<>◌,
  if◌then◌else◌,
}
use rabbitmq_operator.Metadata.{label_selector}
use rabbitmq_operator.Cluster.{RabbitmqCluster}
use rabbitmq_operator.Kube.{
  Error, Outcome, ok, err, plain, wrapped, error_text, is_conflict, StatefulSet, Pod, key_of,
}
use rabbitmq_operator.Result.{ReconcileResult, continue_reconcile, done, error_out}
use rabbitmq_operator.Server.{
  DeleteOptions, Server, Act, ◌>>=◌, ◌>>◌, pure, call, gets, modify_rmq, on_error, on_outcome,
  ignore_not_found, retry_on_error, put_cluster, list_statefulsets, list_pods, update_pod,
  delete_statefulset,
}

abbrev pub deletion_finalizer : String
deletion_finalizer = "deletion.finalizers.rabbitmqclusters.rabbitmq.com"

abbrev pub deletion_marker : String
deletion_marker = "skipPreStopChecks"

-- `controllerutil.AddFinalizer` and `RemoveFinalizer` update the list exactly if this tells the two
-- lists apart by the finalizer's presence.
unfoldable pub has_finalizer : String → List String → Bool
has_finalizer f [] = false
has_finalizer f (e ∷ rest) = let later = has_finalizer f rest in if e == f then true else later

unfoldable pub remove_all : String → List String → List String
remove_all f [] = []
remove_all f (e ∷ rest) = let kept = remove_all f rest in if e == f then kept else e ∷ kept

-- `DeletionTimestamp.IsZero()`
unfoldable pub being_deleted : RabbitmqCluster → Bool
being_deleted rmq = elim rmq.deletion_timestamp [ none ↦ false | some _ ↦ true ]

-- The UID is returned only where the controller of the StatefulSet is this cluster.
unfoldable pub statefulset_uid : StatefulSet → RabbitmqCluster → Outcome String
statefulset_uid sts rmq = elim sts.controller_uid [
  | none ↦ err (plain ("failed to get controller reference for statefulSet " <> sts.name))
  | some uid ↦
      (if rmq.uid == uid
        then ok sts.uid
        else err (
            plain
              ("statefulSet " <> sts.name <> " not owned by current RabbitmqCluster " <> rmq.name)))
]

module _ (server : Server) where
  -- The items are read after the call has filled them.
  unfoldable pub statefulsets : Act (Outcome (List StatefulSet))
  statefulsets = do
    rmq ← gets (λ s. s.rmq)
    call (list_statefulsets rmq.namespace (label_selector rmq.name))
        (λ h. server.on_list_statefulsets h rmq.namespace (label_selector rmq.name))

  -- `Client.Update` behind a change of the finalizers.
  unfoldable pub update_finalizer : Act ReconcileResult
  update_finalizer = do r ← put_cluster server; on_error r (λ e. pure (error_out e)) (pure done)

  unfoldable pub add_finalizer : Act ReconcileResult
  unfolding being_deleted has_finalizer
  add_finalizer = do
    rmq ← gets (λ s. s.rmq)
    if being_deleted rmq
        then pure continue_reconcile
        else if has_finalizer deletion_finalizer rmq.finalizers
        then pure continue_reconcile
        else (modify_rmq (λ c. record c { finalizers = c.finalizers ++ deletion_finalizer ∷ [] })
            >> update_finalizer)

  unfoldable pub remove_finalizer : Act ReconcileResult
  unfolding has_finalizer remove_all
  remove_finalizer = do
    rmq ← gets (λ s. s.rmq)
    if has_finalizer deletion_finalizer rmq.finalizers
        then (modify_rmq (λ c. record c { finalizers = remove_all deletion_finalizer c.finalizers })
            >> update_finalizer)
        else pure continue_reconcile

  -- The loop over the pods in `addRabbitmqDeletionLabel`. The pods come from a list by the selector of a
  -- StatefulSet, which Kubernetes requires not to be empty: each of them has labels, so the map that
  -- the source writes to is not nil.
  unfoldable pub label_pods : List Pod → Act (Option Error)
  label_pods [] = pure none
  label_pods (pod ∷ rest) = do
    let marked = record pod { labels = insert deletion_marker "true" pod.labels }
    r ← call (update_pod marked) (λ h. server.on_update_pod h marked)
    on_error (ignore_not_found r)
        (λ e. pure (
          some (wrapped ("cannot Update Pod " <> pod.name <> " in Namespace " <> pod.namespace) e)))
        (label_pods rest)

  unfoldable pub add_rabbitmq_deletion_label : StatefulSet → Act (Option Error)
  unfolding label_pods
  add_rabbitmq_deletion_label sts = do
    pods ← call (list_pods sts.selector) (λ h. server.on_list_pods h sts.selector)
    on_outcome pods (λ e. pure (some (wrapped ("list pods for sts " <> sts.name <> " failed") e)))
        label_pods

  -- The function that `RetryOnConflict` runs for one StatefulSet.
  unfoldable pub delete_once : StatefulSet → Act (Option Error)
  unfolding statefulset_uid add_rabbitmq_deletion_label
  delete_once sts = do
    rmq ← gets (λ s. s.rmq)
    on_outcome (statefulset_uid sts rmq) (λ e. pure (some e))
        (λ uid. do
          labelled ← add_rabbitmq_deletion_label sts
          on_error labelled (λ e. pure (some e))
              (do
                let options : DeleteOptions = record { precondition_uid = some uid; orphan = false }
                deleted ←
                    call (delete_statefulset (key_of sts) options)
                      (λ h. server.on_delete_statefulset h (key_of sts) options)
                pure (ignore_not_found deleted)))

  -- The loop of `reconcileDelete`; an error is logged only.
  unfoldable pub delete_statefulsets : List StatefulSet → Act (Unit {0})
  unfolding delete_once
  delete_statefulsets [] = pure tt
  delete_statefulsets (sts ∷ rest) = do
    _ ← retry_on_error server.retries is_conflict (delete_once sts)
    delete_statefulsets rest

  unfoldable pub reconcile_delete : Act ReconcileResult
  unfolding being_deleted add_finalizer remove_finalizer delete_statefulsets statefulsets
  reconcile_delete = do
    rmq ← gets (λ s. s.rmq)
    if being_deleted rmq
        then (do
          sets ← statefulsets
          on_outcome sets
              (λ e. pure (error_out (plain ("list statefulsets failed: " <> error_text e))))
              (λ items. delete_statefulsets items >> remove_finalizer))
        else add_finalizer
