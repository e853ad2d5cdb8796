-- ===== src/Controller/Cli.antt =====
-- controllers/reconcile_cli.go: the commands that run in the pods behind a deployment.
pub mod Plugins
pub mod Pods
use rabbitmq_operator.Prelude.{
  ℕ, zero, suc, String, not, ◌||◌, Option, none, some, List, [], ◌∷◌, ◌++◌, length, eqb, join_with,
  ◌<>◌, if◌then◌else◌,
}
use rabbitmq_operator.Cluster.{RabbitmqCluster, plugin_in, pod_name}
use rabbitmq_operator.Kube.{
  Error, wrapped, plain, error_text, StatefulSet, ConfigMap, all_replicas_ready_and_updated,
}
use rabbitmq_operator.Result.{ReconcileResult, continue_reconcile, error_out, call_back_soon}
use rabbitmq_operator.Server.{
  Server, Act, ◌>>=◌, ◌>>◌, pure, call, gets, event, warning, on_error, on_outcome, exec_in_pod,
}
use rabbitmq_operator.Controller.Finalizer.{statefulsets}
use rabbitmq_operator.Controller.Annotations.{
  config_map_key, read_config_map, plugins_config_updated, plugins_config_updated_recently,
  remove_plugins_config_updated_flag, statefulset_created, remove_statefulset_created_flag,
  need_queue_rebalance, remove_queue_rebalance_flag,
}

abbrev pub required_plugins : List String
required_plugins =
    "rabbitmq_peer_discovery_k8s" ∷ "rabbitmq_prometheus" ∷ "rabbitmq_management" ∷ []

-- The loop of `DesiredPlugins` with the plugins taken so far; the source keeps them in a map as well.
unfoldable pub take_plugins : List String → List String → List String
unfolding plugin_in
take_plugins taken [] = taken
take_plugins taken (p ∷ rest) =
    if plugin_in p taken then take_plugins taken rest else take_plugins (taken ++ p ∷ []) rest

unfoldable pub desired_plugins : List String → List String
unfolding take_plugins
desired_plugins additional = take_plugins [] (required_plugins ++ additional)

module _ (server : Server) where
  -- One command in a pod, with the event and the error of its failure.
  unfoldable pub run_command : String → String → String → String → Act (Option Error)
  run_command namespace pod command msg = do
    r ←
        call (exec_in_pod namespace pod command)
          (λ h. server.on_exec_in_pod h namespace pod command)
    on_error r
        (λ e. do
          event warning "FailedReconcile" (msg <> " " <> pod)
          pure (some (wrapped (msg <> " " <> pod) e)))
        (pure none)

  -- The loop of `runSetPluginsCommand` from pod `i`, with `n` pods left.
  unfoldable pub set_plugins : ℕ → ℕ → RabbitmqCluster → Act (Option Error)
  unfolding run_command desired_plugins pod_name
  set_plugins zero i rmq = pure none
  set_plugins (suc n) i rmq = do
    r ←
        run_command rmq.namespace (pod_name rmq "server" i)
          ("rabbitmq-plugins set "
            <> join_with " " (desired_plugins rmq.spec.rabbitmq.additional_plugins))
          "failed to set plugins on pod"
    on_error r (λ e. pure (some e)) (set_plugins n (suc i) rmq)

  unfoldable pub run_set_plugins_command : Act (Option Error)
  unfolding set_plugins
  run_set_plugins_command = do rmq ← gets (λ s. s.rmq); set_plugins rmq.spec.replicas 0 rmq

  unfoldable pub run_queue_rebalance_command : Act (Option Error)
  unfolding run_command pod_name
  run_queue_rebalance_command = do
    rmq ← gets (λ s. s.rmq)
    run_command rmq.namespace (pod_name rmq "server" 0) "rabbitmq-queues rebalance all"
        "failed to run queue rebalance on pod"

  unfoldable pub run_enable_feature_flags_command : Act (Option Error)
  unfolding run_command pod_name
  run_enable_feature_flags_command = do
    rmq ← gets (λ s. s.rmq)
    run_command rmq.namespace (pod_name rmq "server" 0) "rabbitmqctl enable_feature_flag all"
        "failed to enable all feature flags on pod"

  -- `fmt.Errorf` with `%v`: the cause is kept as a text only.
  failed : String → Error → Act (Option Error)
  unfolding error_text
  failed what e = pure (some (plain (what <> " failed: " <> error_text e)))

  -- A command, and the removal of the flag that has asked for it.
  unfoldable pub run_and_clear :
      Act (Option Error) → String → Act (Option Error) → String → Act (Option Error)
  unfolding failed
  run_and_clear run run_name clear clear_name = do
    ran ← run
    on_error ran (failed run_name)
        (do cleared ← clear; on_error cleared (failed clear_name) (pure none))

  unfoldable pub enable_feature_flags : List StatefulSet → Act (Option Error)
  unfolding run_and_clear run_enable_feature_flags_command statefulset_created
      remove_statefulset_created_flag
  enable_feature_flags [] = pure none
  enable_feature_flags (sts ∷ rest) =
      let others = enable_feature_flags rest in
      if statefulset_created sts
      then (do
        r ←
            run_and_clear run_enable_feature_flags_command "runEnableFeatureFlagsCommand"
              (remove_statefulset_created_flag server sts) "removeStatefulsetCreatedFlag"
        on_error r (λ e. pure (some e)) others)
      else others

  unfoldable pub rebalance_queues : Act ReconcileResult
  unfolding run_and_clear run_queue_rebalance_command need_queue_rebalance
      remove_queue_rebalance_flag
  rebalance_queues = do
    rmq ← gets (λ s. s.rmq)
    if need_queue_rebalance rmq
        then (do
          r ←
              run_and_clear run_queue_rebalance_command "runQueueRebalanceCommand"
                (remove_queue_rebalance_flag server) "removeQueueRebalanceFlag"
          on_error r (λ e. pure (error_out e)) (pure continue_reconcile))
        else pure continue_reconcile

  -- The part of `reconcileRabbitmqCLI` behind the plugins.
  unfoldable pub finish_cli : List StatefulSet → Act ReconcileResult
  unfolding enable_feature_flags rebalance_queues
  finish_cli sets = do
    r ← enable_feature_flags sets
    on_error r (λ e. pure (error_out e)) rebalance_queues

  unfoldable pub cli_with_plugins : List StatefulSet → ConfigMap → Act ReconcileResult
  unfolding plugins_config_updated plugins_config_updated_recently run_and_clear
      run_set_plugins_command remove_plugins_config_updated_flag finish_cli
  cli_with_plugins sets cm = do
    recent ← gets (λ s. plugins_config_updated_recently server s.calls cm)
    if plugins_config_updated cm
        then if recent then pure (call_back_soon 2) else (do
          r ←
              run_and_clear run_set_plugins_command "runSetPluginsCommand"
                (remove_plugins_config_updated_flag server cm) "removePluginsConfigUpdatedFlag"
          on_error r (λ e. pure (error_out e)) (finish_cli sets))
        else finish_cli sets

  unfoldable pub cli_for : List StatefulSet → Act ReconcileResult
  unfolding all_replicas_ready_and_updated read_config_map cli_with_plugins
  cli_for sets = do
    rmq ← gets (λ s. s.rmq)
    if not (all_replicas_ready_and_updated sets) || not (eqb (length sets) rmq.spec.replicas)
        then pure (call_back_soon 15)
        else (do
          cm ← read_config_map server (config_map_key server rmq "plugins-conf")
          on_outcome cm
              (λ e. pure (error_out (plain ("get plugin configmap failed: " <> error_text e))))
              (cli_with_plugins sets))

  unfoldable pub reconcile_rabbitmq_cli : Act ReconcileResult
  unfolding cli_for
  reconcile_rabbitmq_cli = do
    found ← statefulsets server
    on_outcome found (λ e. pure (error_out e)) cli_for
