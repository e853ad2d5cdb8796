-- ===== src/Examples/Steps.antt =====
-- The theorems on the controllers and on the scaler, at a small cluster.
use rabbitmq_operator.Prelude.{
  ◌≤◌, ◌<◌, String, Bool, true, false, none, some, List, [], ◌∷◌, ◌++◌, ◌≡◌, ◌⊎◌, refl, ap, length,
  lookup, map, All,
}
use rabbitmq_operator.Cluster.{disable_non_tls_listeners, tls_enabled, secret_tls_enabled}
use rabbitmq_operator.Kube.{Error, err, is_not_found}
use rabbitmq_operator.Result.{continue_reconcile, done, completed, output, empty_result}
use rabbitmq_operator.Server.{
  Call, State, delete_statefulset, record_event, warning, ◌>>=◌, pure, call, gets, on_outcome,
  on_error, event,
}
use rabbitmq_operator.Server.Emits.{Emits}
use rabbitmq_operator.Scaling.{orphan_options, delete_statefulset_orphaned, scale}
use rabbitmq_operator.Scaling.Calls.{IsScalingCall, scale-Emits}
use rabbitmq_operator.Scaling.Laws.{delete_statefulset_orphaned_gone}
use rabbitmq_operator.Controller.Finalizer.{
  delete_statefulsets, reconcile_delete, being_deleted, has_finalizer,
}
use rabbitmq_operator.Controller.Finalizer.Ownership.{IsDeletionCall, reconcile_delete-Emits}
use rabbitmq_operator.Controller.Finalizer.Controlled.{controlled, delete_statefulsets-controlled}
use rabbitmq_operator.Controller.Guards.{
  is_paused, with_defaults, reconcile_tls, reconcile_scale_down, reconcile_operator_defaults,
}
use rabbitmq_operator.Controller.Guards.Laws.{
  with_defaults_settles, controlled_image_stops, reconcile_scale_down_cases,
}
use rabbitmq_operator.Controller.Guards.Tls.{Checked, reconcile_tls_continues}
use rabbitmq_operator.Controller.StatusSteps.{child_list, status_of_run}
use rabbitmq_operator.Controller.StatusSteps.Laws.{
  expected, child_list_cases, status_of_run_settles,
}
use rabbitmq_operator.Controller.Cli.{run_set_plugins_command}
use rabbitmq_operator.Controller.Guards.{reconcile_paused}
use rabbitmq_operator.Status.{set_conditions}
use rabbitmq_operator.Server.{modify_rmq}
use rabbitmq_operator.Controller.Equality.{conditions_eq, binding_eq, user_eq}
use rabbitmq_operator.Controller.Annotations.{reconcile_queue_rebalanced}
use rabbitmq_operator.Controller.Resources.{reconcile_resources, restart_statefulset_if_needed}
use rabbitmq_operator.Controller.StatusSteps.{reconcile_status_conditions, reconcile_status}
use rabbitmq_operator.Controller.Cli.{reconcile_rabbitmq_cli}
use rabbitmq_operator.Controller.Reconcile.{all_steps, reconcile, finish}
use rabbitmq_operator.Controller.Reconcile.Paused.{
  IsPassiveCall, IsPausedCluster, reconcile_paused_cluster,
}
use rabbitmq_operator.Controller.Reconcile.Laws.{Passed, run_steps, all_steps_settled}
use rabbitmq_operator.Controller.Annotations.{OperationResult, operation_none, operation_created}
use rabbitmq_operator.Controller.Resources.{apply_object, apply_builder}
use rabbitmq_operator.Controller.Resources.Laws.{apply_builder_stops}
use rabbitmq_operator.Kube.{is_conflict}
use rabbitmq_operator.Prelude.{◌≢◌, sym, ◌∙◌}
use rabbitmq_operator.Examples.Data.{
  builder, object, cluster, paused_cluster, sts, foreign_sts, key, server, empty_server, start,
  defaults, settled,
}

is_paused_cluster : IsPausedCluster server paused_cluster
unfolding being_deleted has_finalizer is_paused lookup
is_paused_cluster = (refl, refl, refl)

reconcile_paused_cluster_example :
    ((reconcile server defaults (λ c. []) key start).0 ≡ output done)
    × ((made : List Call) × ((reconcile server defaults (λ c. []) key start).1.calls ≡ made ++ [])
        × All IsPassiveCall made)
reconcile_paused_cluster_example =
    reconcile_paused_cluster server defaults (λ c. []) key paused_cluster start refl
      is_paused_cluster

tls_continues : (reconcile_tls server start).0 ≡ continue_reconcile
unfolding reconcile_tls ◌>>=◌ pure call gets on_outcome on_error event lookup
tls_continues = refl

reconcile_tls_continues_example :
    ((disable_non_tls_listeners cluster ≡ false) ⊎ (tls_enabled cluster ≡ true))
    × ((secret_tls_enabled cluster ≡ false) ⊎ Checked server start)
reconcile_tls_continues_example = reconcile_tls_continues server start tls_continues

reconcile_delete-Emits_example : Emits IsDeletionCall (reconcile_delete server)
reconcile_delete-Emits_example = reconcile_delete-Emits server

delete_statefulsets-controlled_example :
    delete_statefulsets server (foreign_sts ∷ sts ∷ []) start
    ≡ delete_statefulsets server (controlled cluster (foreign_sts ∷ sts ∷ [])) start
delete_statefulsets-controlled_example =
    delete_statefulsets-controlled server (foreign_sts ∷ sts ∷ []) start

abbrev shrunk : State
shrunk = record start { rmq = record cluster { spec = record cluster.spec { replicas = 1 } } }

reconcile_scale_down_cases_example :
    (3 ≤ 1 × (reconcile_scale_down server shrunk ≡ (continue_reconcile, shrunk)))
    ⊎ (1 < 3
        × ((reconcile_scale_down server shrunk).0 ≡ done)
        × ((reconcile_scale_down server shrunk).1.rmq.spec ≡ shrunk.rmq.spec)
        × ((reason message : String) × ((reconcile_scale_down server shrunk).1.calls
              ≡ record_event warning reason message ∷ [])))
reconcile_scale_down_cases_example = reconcile_scale_down_cases server shrunk

controlled_image_stops_example :
    completed
      (reconcile_operator_defaults server
        (record defaults { control_rabbitmq_image = true })
        start).0
    ≡ true
controlled_image_stops_example =
    controlled_image_stops server (record defaults { control_rabbitmq_image = true }) start refl

with_defaults_settles_example :
    with_defaults defaults (with_defaults defaults cluster).0
    ≡ ((with_defaults defaults cluster).0, [])
with_defaults_settles_example = with_defaults_settles defaults cluster refl refl

scale-Emits_example : Emits (IsScalingCall key 20) (scale server "persistence" key 20)
scale-Emits_example = scale-Emits server "persistence" key 20

deletion_ends : (delete_statefulset_orphaned empty_server key start).0 ≡ none
unfolding delete_statefulset_orphaned ◌>>=◌ pure call on_error is_not_found
deletion_ends = refl

delete_statefulset_orphaned_gone_example :
    (empty_server.on_delete_statefulset [] key orphan_options ≡ none)
    × ((behind : List Call) × (e : Error) × (empty_server.on_get_statefulset
            (behind ++ delete_statefulset key orphan_options ∷ [])
            key
          ≡ err e)
        × (is_not_found e ≡ true))
delete_statefulset_orphaned_gone_example =
    delete_statefulset_orphaned_gone empty_server key start deletion_ends

child_list_cases_example :
    ((length (sts ∷ []) ≤ 3) × (child_list 3 none (sts ∷ []) ≡ some (expected 3 none (sts ∷ []))))
    ⊎ (((length (sts ∷ []) ≡ 4)
          × (child_list 3 none (sts ∷ [])
              ≡ some (map (λ s. rabbitmq_operator.Status.statefulset (some s)) (sts ∷ []))))
        ⊎ ((4 < length (sts ∷ [])) × (child_list 3 none (sts ∷ []) ≡ none)))
child_list_cases_example = child_list_cases 3 none (sts ∷ [])

status_of_run_settles_example :
    (3 ≤ (status_of_run cluster).replicas)
    × (3 ≤ (status_of_run cluster).replicas)
    × (status_of_run (record cluster { status = status_of_run cluster }) ≡ status_of_run cluster)
status_of_run_settles_example = status_of_run_settles cluster

settled_run : (all_steps server defaults (λ c. []) settled).0 ≡ some (empty_result, none)
unfolding all_steps ◌>>=◌ pure call gets on_outcome on_error event lookup reconcile_delete
    reconcile_paused reconcile_operator_defaults reconcile_status_conditions modify_rmq
    conditions_eq set_conditions reconcile_tls reconcile_queue_rebalanced reconcile_scale_down
    status_of_run reconcile_resources restart_statefulset_if_needed reconcile_status binding_eq
    user_eq reconcile_rabbitmq_cli
settled_run = refl

all_steps_settled_example :
    ((t : State) × Passed (run_steps server defaults (λ c. [])) settled t
      × (all_steps server defaults (λ c. []) settled ≡ finish server t))
    × ((all_steps server defaults (λ c. []) settled).1.rmq.status.observed_generation
        ≡ (all_steps server defaults (λ c. []) settled).1.rmq.generation)
all_steps_settled_example = all_steps_settled server defaults (λ c. []) settled settled_run

plugins_set : (run_set_plugins_command server start).0 ≡ none
unfolding run_set_plugins_command ◌>>=◌ pure call gets on_error
plugins_set = refl

created : (apply_object server 4 builder object true start).0.0 ≡ operation_created
unfolding apply_object ◌>>=◌ pure call on_error on_outcome is_not_found is_conflict
created = refl

was_written : (apply_object server 4 builder object true start).0.0 ≢ operation_none
was_written p = different (ap is_none (sym created ∙ p))
  where
    is_none : OperationResult → Bool
    is_none operation_none = true
    is_none _ = false

    different : false ≡ true → ⊥
    different q = cc

apply_builder_stops_example :
    (completed (apply_builder server builder object (pure continue_reconcile) start).0 ≡ true)
    × (apply_builder server builder object (pure continue_reconcile) start
        ≡ apply_builder server builder object (pure done) start)
apply_builder_stops_example =
    apply_builder_stops server (pure continue_reconcile) (pure done) builder object start
      was_written
