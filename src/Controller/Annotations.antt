-- ===== src/Controller/Annotations.antt =====
-- controllers/reconcile_rabbitmq_configurations.go, with `deleteAnnotation`, `updateAnnotation`,
-- `configMapServer`, `configMapPlugins` and `statefulSetNeedsQueueRebalance` of controllers/utils.go:
-- the annotations by which one run of the loop leaves work to a later one.
use rabbitmq_operator.Prelude.{
  ℕ, ◌-◌, String, Bool, true, false, not, ◌&&◌, ◌||◌, Option, none, some, List, [], ◌∷◌, Map,
  lookup, insert, delete, text_at, ltb, ◌==◌, ◌<>◌, if◌then◌else◌,
}
use rabbitmq_operator.Cluster.{RabbitmqCluster, child_resource_name, statefulset_name}
use rabbitmq_operator.Kube.{
  Error, Outcome, is_not_found, is_conflict, ObjectKey, StatefulSet, ConfigMap,
  statefulset_being_updated,
}
use rabbitmq_operator.Result.{ReconcileResult, continue_reconcile, done, error_out}
use rabbitmq_operator.Server.{
  Call, Server, Act, ◌>>=◌, ◌>>◌, pure, call, gets, modify_rmq, event, warning, on_error,
  on_outcome, retry_on_error, put_cluster, get_config_map, update_config_map, get_statefulset,
  update_statefulset,
}
use rabbitmq_operator.Controller.Finalizer.{statefulsets}

abbrev pub plugins_update_annotation : String
plugins_update_annotation = "rabbitmq.com/pluginsUpdatedAt"

abbrev pub server_conf_annotation : String
server_conf_annotation = "rabbitmq.com/serverConfUpdatedAt"

abbrev pub sts_restart_annotation : String
sts_restart_annotation = "rabbitmq.com/lastRestartAt"

abbrev pub sts_create_annotation : String
sts_create_annotation = "rabbitmq.com/createdAt"

abbrev pub queue_rebalance_annotation : String
queue_rebalance_annotation = "rabbitmq.com/queueRebalanceNeededAt"

-- `controllerutil.OperationResult`
pub data OperationResult : Type 0 where
  operation_none operation_created operation_updated : OperationResult

-- The builders that `annotateIfNeeded` tells apart.
pub data BuilderKind : Type 0 where
  plugins_config_map server_config_map other_builder : BuilderKind
  statefulset_builder : ℕ → BuilderKind

unfoldable pub error_is_conflict_or_not_found : Error → Bool
unfolding is_conflict is_not_found
error_is_conflict_or_not_found e = is_conflict e || is_not_found e

-- An annotation that is there and not empty.
unfoldable pub flagged : String → Map String → Bool
flagged key annotations = not (text_at key annotations == "")

unfoldable pub statefulset_created : StatefulSet → Bool
unfolding flagged
statefulset_created sts = flagged sts_create_annotation sts.annotations

unfoldable pub server_config_updated : ConfigMap → Bool
unfolding flagged
server_config_updated cfg = flagged server_conf_annotation cfg.annotations

unfoldable pub plugins_config_updated : ConfigMap → Bool
unfolding flagged
plugins_config_updated cfg = flagged plugins_update_annotation cfg.annotations

unfoldable pub need_queue_rebalance : RabbitmqCluster → Bool
unfolding flagged
need_queue_rebalance rmq = flagged queue_rebalance_annotation rmq.annotations

unfoldable pub statefulset_needs_queue_rebalance : RabbitmqCluster → StatefulSet → Bool
unfolding statefulset_being_updated
statefulset_needs_queue_rebalance rmq sts =
    statefulset_being_updated sts && not rmq.spec.skip_post_deploy_steps && ltb 1 rmq.spec.replicas

-- The loop of `reconcileQueueRebalanced`.
unfoldable pub any_needs_rebalance : RabbitmqCluster → List StatefulSet → Bool
unfolding statefulset_needs_queue_rebalance
any_needs_rebalance rmq [] = false
any_needs_rebalance rmq (sts ∷ rest) =
    let others = any_needs_rebalance rmq rest in
    if statefulset_needs_queue_rebalance rmq sts then true else others

module _ (server : Server) where
  -- Both halves of the comparison of instants are whole seconds; an instant that lies ahead is recent.
  unfoldable pub updated_recently : List Call → Option String → Bool
  updated_recently h none = false
  updated_recently h (some at) = elim (server.parse_rfc3339 at) [
    | none ↦ false
    | some t ↦ ltb (server.now h - t) 2
  ]

  unfoldable pub plugins_config_updated_recently : List Call → ConfigMap → Bool
  unfolding plugins_config_updated updated_recently
  plugins_config_updated_recently h cfg =
      if not (plugins_config_updated cfg)
      then false
      else updated_recently h (lookup plugins_update_annotation cfg.annotations)

  -- `time.Now().Format(time.RFC3339)`
  unfoldable pub time_stamp : List Call → String
  time_stamp h = server.rfc3339 (server.now h)

  unfoldable pub put_config_map : ConfigMap → Act (Option Error)
  put_config_map cfg = call (update_config_map cfg) (λ h. server.on_update_config_map h cfg)

  unfoldable pub put_statefulset : StatefulSet → Act (Option Error)
  put_statefulset sts = call (update_statefulset sts) (λ h. server.on_update_statefulset h sts)

  abbrev pub config_map_key : RabbitmqCluster → String → ObjectKey
  config_map_key rmq suffix = record {
    namespace = rmq.namespace;
    name = child_resource_name rmq suffix;
  }

  -- `configMapServer` and `configMapPlugins`
  unfoldable pub read_config_map : ObjectKey → Act (Outcome ConfigMap)
  read_config_map key = call (get_config_map key) (λ h. server.on_get_config_map h key)

  unfoldable pub annotate_config_map_once : ObjectKey → String → String → Act (Option Error)
  unfolding put_config_map read_config_map
  annotate_config_map_once key annotation value = do
    found ← read_config_map key
    on_outcome found (λ e. pure (some e))
        (λ cfg.
          put_config_map (record cfg { annotations = insert annotation value cfg.annotations }))

  unfoldable pub annotate_statefulset_once : ObjectKey → String → String → Act (Option Error)
  unfolding put_statefulset
  annotate_statefulset_once key annotation value = do
    found ← call (get_statefulset key) (λ h. server.on_get_statefulset h key)
    on_outcome found (λ e. pure (some e))
        (λ sts.
          put_statefulset (record sts { annotations = insert annotation value sts.annotations }))

  -- `updateAnnotation` for the two types of objects that it is used with.
  unfoldable pub update_annotation : Act (Option Error) → Act (Option Error)
  unfolding error_is_conflict_or_not_found
  update_annotation once = retry_on_error server.retries error_is_conflict_or_not_found once

  -- The end of `annotateIfNeeded`.
  unfoldable pub annotated : String → Option Error → Act ReconcileResult
  annotated name failed =
      on_error failed
        (λ e. do event warning "FailedUpdate" ("failed to annotate " <> name); pure (error_out e))
        (pure done)

  unfoldable pub annotate_config_map : String → String → Act ReconcileResult
  unfolding annotate_config_map_once update_annotation annotated time_stamp
  annotate_config_map suffix annotation = do
    rmq ← gets (λ s. s.rmq)
    stamp ← gets (λ s. time_stamp s.calls)
    r ← update_annotation (annotate_config_map_once (config_map_key rmq suffix) annotation stamp)
    annotated (child_resource_name rmq suffix) r

  unfoldable pub annotate_statefulset : ℕ → Act ReconcileResult
  unfolding annotate_statefulset_once update_annotation annotated time_stamp
  annotate_statefulset index = do
    rmq ← gets (λ s. s.rmq)
    stamp ← gets (λ s. time_stamp s.calls)
    let key : ObjectKey = record {
      namespace = rmq.namespace;
      name = statefulset_name rmq "server" index;
    }
    r ← update_annotation (annotate_statefulset_once key sts_create_annotation stamp)
    annotated key.name r

  -- The flag is `UpdateRequiresStsRestart` of the builder.
  unfoldable pub annotate_if_needed : BuilderKind → Bool → OperationResult → Act ReconcileResult
  unfolding annotate_config_map annotate_statefulset
  annotate_if_needed plugins_config_map restart operation_updated =
      annotate_config_map "plugins-conf" plugins_update_annotation
  annotate_if_needed server_config_map true operation_updated =
      annotate_config_map "server-conf" server_conf_annotation
  annotate_if_needed (statefulset_builder index) restart operation_created =
      annotate_statefulset index
  annotate_if_needed _ _ _ = pure continue_reconcile

  unfoldable pub mark_for_queue_rebalance : Act ReconcileResult
  unfolding flagged time_stamp
  mark_for_queue_rebalance = do
    rmq ← gets (λ s. s.rmq)
    if flagged queue_rebalance_annotation rmq.annotations then pure continue_reconcile else (do
      stamp ← gets (λ s. time_stamp s.calls)
      modify_rmq
          (λ c. record c { annotations = insert queue_rebalance_annotation stamp c.annotations })
      r ← put_cluster server
      on_error r (λ e. pure (error_out e)) (pure done))

  -- A list that is not found counts as one without items.
  unfoldable pub rebalance_statefulsets : List StatefulSet → Act ReconcileResult
  unfolding any_needs_rebalance mark_for_queue_rebalance
  rebalance_statefulsets sets = do
    rmq ← gets (λ s. s.rmq)
    if any_needs_rebalance rmq sets then mark_for_queue_rebalance else pure continue_reconcile

  unfoldable pub reconcile_queue_rebalanced : Act ReconcileResult
  unfolding rebalance_statefulsets
  reconcile_queue_rebalanced = do
    found ← statefulsets server
    on_outcome found (λ e. if is_not_found e then rebalance_statefulsets [] else pure (error_out e))
        rebalance_statefulsets

  -- `deleteAnnotation` of the four flags; without annotations there is no update.
  unfoldable pub remove_plugins_config_updated_flag : ConfigMap → Act (Option Error)
  unfolding put_config_map
  remove_plugins_config_updated_flag cfg = elim cfg.annotations [
    | [] ↦ pure none
    | _ ∷ _ ↦
        put_config_map
          (record cfg { annotations = delete plugins_update_annotation cfg.annotations })
  ]

  unfoldable pub remove_statefulset_created_flag : StatefulSet → Act (Option Error)
  unfolding put_statefulset
  remove_statefulset_created_flag sts = elim sts.annotations [
    | [] ↦ pure none
    | _ ∷ _ ↦
        put_statefulset (record sts { annotations = delete sts_create_annotation sts.annotations })
  ]

  unfoldable pub remove_queue_rebalance_flag : Act (Option Error)
  remove_queue_rebalance_flag = do
    rmq ← gets (λ s. s.rmq)
    elim rmq.annotations [
      | [] ↦ pure none
      | _ ∷ _ ↦
          (modify_rmq
              (λ c. record c { annotations = delete queue_rebalance_annotation c.annotations })
            >> put_cluster server)
    ]
