-- ===== src/Controller/Finalizer/Ownership.antt =====
-- Which objects the deletion of a cluster touches.
use rabbitmq_operator.Prelude.{
  String, false, some, List, [], ◌∷◌, ◌≡◌, refl, lookup, insert, lookup-insert,
}
use rabbitmq_operator.Kube.{is_conflict, StatefulSet, Pod, key_of}
use rabbitmq_operator.Server.{
  DeleteOptions, Call, Server, Act, call, ignore_not_found, update_cluster, list_statefulsets,
  list_pods, update_pod, delete_statefulset,
}
use rabbitmq_operator.Server.Emits.{
  Emits, emits_rules, Emits-call, Emits-pure, Emits-gets, Emits-bind, Emits-on_error,
  Emits-on_outcome, Emits-retry, Emits-put_cluster,
}
use rabbitmq_operator.Controller.Finalizer.{
  deletion_marker, statefulsets, update_finalizer, add_finalizer, remove_finalizer, label_pods,
  add_rabbitmq_deletion_label, delete_once, delete_statefulsets, reconcile_delete,
}

-- The calls that the deletion may make: lists, updates of pods that carry the marker, deletions of
-- StatefulSets that name the UID and leave nothing behind, and updates of the cluster itself.
abbrev pub IsDeletionCall : Call → Type 0
IsDeletionCall (list_statefulsets _ _) = Unit
IsDeletionCall (list_pods _) = Unit
IsDeletionCall (update_pod pod) = lookup deletion_marker pod.labels ≡ some "true"
IsDeletionCall (delete_statefulset key options) =
    ((uid : String) × (options.precondition_uid ≡ some uid)) × (options.orphan ≡ false)
IsDeletionCall (update_cluster _) = Unit
IsDeletionCall _ = ⊥

module _ (server : Server) where
  abbrev Fine : {A : Type 0} → Act A → Type 0
  Fine m = Emits IsDeletionCall m

  label-Fine : (pods : List Pod) → Fine (label_pods server pods)
  unfolding label_pods
  label-Fine [] = Emits-pure _
  label-Fine (pod ∷ rest) =
      Emits-bind _ _ (Emits-call _ _ (marked pod))
        (λ r. Emits-on_error (ignore_not_found r) _ _ (λ e. Emits-pure _) (label-Fine rest))
    where
      marked :
          (p : Pod) → lookup deletion_marker (insert deletion_marker "true" p.labels) ≡ some "true"
      marked p = lookup-insert deletion_marker deletion_marker "true" p.labels

  delete-Fine :
      (sts : StatefulSet) (uid : String)
      → let options : DeleteOptions = record { precondition_uid = some uid; orphan = false } in
        Fine (
          call
            (delete_statefulset (key_of sts) options)
            (λ h. server.on_delete_statefulset h (key_of sts) options))
  delete-Fine sts uid = Emits-call _ _ ((uid, refl), refl)

  pods-Fine : (sts : StatefulSet) → Fine (add_rabbitmq_deletion_label server sts)
  unfolding add_rabbitmq_deletion_label
  pods-Fine sts =
      Emits-bind _ _ (Emits-call _ _ tt)
        λ pods. Emits-on_outcome pods _ _ (λ e. Emits-pure _) (λ items _. label-Fine items)

  once-Fine : (sts : StatefulSet) → Fine (delete_once server sts)
  unfolding delete_once
  once-Fine sts = search (emits_rules, pods-Fine, delete-Fine) depth 9

  sets-Fine : (items : List StatefulSet) → Fine (delete_statefulsets server items)
  unfolding delete_statefulsets
  sets-Fine [] = Emits-pure _
  sets-Fine (sts ∷ rest) =
      Emits-bind _ _ (Emits-retry server.retries is_conflict _ (once-Fine sts))
        (λ _. sets-Fine rest)

  finalizer-Fine : Fine (update_finalizer server)
  unfolding update_finalizer
  finalizer-Fine =
      Emits-bind _ _ (Emits-put_cluster server (λ _. tt))
        λ r. Emits-on_error r _ _ (λ e. Emits-pure _) (Emits-pure _)

  add-Fine : Fine (add_finalizer server)
  unfolding add_finalizer
  add-Fine = search (emits_rules, finalizer-Fine) depth 9

  remove-Fine : Fine (remove_finalizer server)
  unfolding remove_finalizer
  remove-Fine = search (emits_rules, finalizer-Fine) depth 9

  list-Fine : Fine (statefulsets server)
  unfolding statefulsets
  list-Fine = Emits-bind _ _ (Emits-gets _) (λ _. Emits-call _ _ tt)

  -- Whatever the API server answers, the step that handles a deletion only lists StatefulSets and
  -- pods, marks pods to skip their checks before they stop, deletes StatefulSets under the condition of
  -- a UID, and updates the cluster.
  pub reconcile_delete-Emits : Emits IsDeletionCall (reconcile_delete server)
  unfolding reconcile_delete
  reconcile_delete-Emits = search (emits_rules, add-Fine, remove-Fine, list-Fine, sets-Fine) depth 9
