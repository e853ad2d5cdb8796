-- ===== src/Controller/Resources.antt =====
-- controllers/reconcile_resources.go and controllers/reconcile_persistence.go. The builders are a
-- parameter here: `Builder` is the interface `ResourceBuilder` of
-- internal/resource/rabbitmq_resource_builder.go.
pub mod Laws
pub mod Calls
pub mod Loop
use Prim.Native.Nat.{Ordering}
use Prim.Native.String.{compare}
use rabbitmq_operator.Prelude.{
  ℕ, String, Bool, true, false, ◌&&◌, Option, none, some, List, [], ◌∷◌, lookup, insert, ◌==◌, ◌<>◌,
  if◌then◌else◌,
}
use rabbitmq_operator.Cluster.{RabbitmqCluster, reconcile_success, cond_false}
use rabbitmq_operator.Kube.{
  Error, Outcome, ok, err, plain, error_text, is_not_found, is_conflict, ObjectKey, ClaimTemplate,
  StatefulSet, Object, key_of, all_replicas_ready_and_updated,
}
use rabbitmq_operator.Result.{
  ReconcileResult, continue_reconcile, done, error_out, call_back_soon, call_back_soon_error,
}
use rabbitmq_operator.Server.{
  Server, Act, ◌>>=◌, ◌>>◌, pure, call, gets, modify_rmq, event, normal, warning, on_error,
  on_outcome, retry_on_error, set_cluster_condition, get_object, create_object, update_object,
  get_statefulset,
}
use rabbitmq_operator.Scaling.{scale, template_capacity}
use rabbitmq_operator.Controller.Finalizer.{statefulsets}
use rabbitmq_operator.Controller.Annotations.{
  OperationResult, operation_none, operation_created, operation_updated, BuilderKind,
  annotate_if_needed, config_map_key, read_config_map, put_statefulset, server_conf_annotation,
  sts_restart_annotation, time_stamp,
}

-- `Update` changes the object, and the flag `UpdateRequiresStsRestart` of the builder, which is given
-- and returned. Update of the service also writes into the cluster, which the builder shares with the
-- controller: `touch`, before its other work.
pub record Builder : Type 0 where
  pub kind : BuilderKind
  pub restart : Bool
  pub build : Outcome Object
  pub update : Bool → Object → Outcome (Object × Bool)
  pub touch : RabbitmqCluster → RabbitmqCluster

-- What one run of `CreateOrUpdate` leaves: the operation, the error, the flag of the builder, and the
-- object, which the next run starts with.
abbrev pub Applied : Type 0
Applied = OperationResult × Option Error × Bool × Object

abbrev pub same_key : ObjectKey → ObjectKey → Bool
same_key a b = a.namespace == b.namespace && a.name == b.name

-- `mutate`
unfoldable pub mutate : Builder → Bool → Object → Outcome (Object × Bool)
mutate builder restart object = elim (builder.update restart object) [
  | err e ↦ err e
  | ok changed ↦
      (if same_key object.key changed.0.key
        then ok changed
        else err (plain "MutateFn cannot mutate object name and/or object namespace"))
]

-- `stsRestartedAt > serverConfigUpdatedAt` on texts.
unfoldable pub later_text : String → String → Bool
later_text a b = elim (compare a b) [ Ordering.gt ↦ true | _ ↦ false ]

-- The StatefulSet has been restarted behind the last change of the configuration.
unfoldable pub restarted_since : String → StatefulSet → Bool
unfolding later_text
restarted_since config_updated_at sts =
    elim (lookup sts_restart_annotation sts.template_annotations) [
      | none ↦ false
      | some at ↦ later_text at config_updated_at
    ]

unfoldable pub operation_text : OperationResult → String
operation_text operation_none = "unchanged"
operation_text operation_created = "create"
operation_text operation_updated = "update"

-- The same in title case.
unfoldable pub operation_title : OperationResult → String
operation_title operation_none = "Unchanged"
operation_title operation_created = "Create"
operation_title operation_updated = "Update"

module _ (server : Server) where
  unfoldable pub create_with : Object → Outcome (Object × Bool) → Bool → Act Applied
  create_with given (err e) restart = pure (operation_none, some e, restart, given)
  create_with given (ok (object, flag)) restart = do
    r ← call (create_object object) (λ h. server.on_create_object h object)
    on_error r (λ e. pure (operation_none, some e, flag, object))
        (pure (operation_created, none, flag, object))

  unfoldable pub update_with : Object → Outcome (Object × Bool) → Bool → Act Applied
  update_with existing (err e) restart = pure (operation_none, some e, restart, existing)
  update_with existing (ok (object, flag)) restart =
      if server.semantic_equal existing object
      then pure (operation_none, none, flag, object)
      else (do
        r ← call (update_object object) (λ h. server.on_update_object h object)
        on_error r (λ e. pure (operation_none, some e, flag, object))
            (pure (operation_updated, none, flag, object)))

  -- `CreateOrUpdate`; the object is replaced by the one that is found.
  unfoldable pub create_or_update : Builder → Object → Bool → Act Applied
  unfolding mutate create_with update_with
  create_or_update builder object restart = do
    found ←
        call (get_object object.type_name object.key)
          (λ h. server.on_get_object h object.type_name object.key)
    on_outcome found
        (λ e.
          if is_not_found e
          then (do
            modify_rmq builder.touch
            create_with object (mutate builder restart object) restart)
          else pure (operation_none, some e, restart, object))
        (λ existing. do
          modify_rmq builder.touch
          update_with existing (mutate builder restart existing) restart)

  -- `RetryOnConflict` around it: the results of the last run stay.
  unfoldable pub apply_object : ℕ → Builder → Object → Bool → Act Applied
  unfolding create_or_update is_conflict
  apply_object ℕ.zero builder object restart = create_or_update builder object restart
  apply_object (ℕ.suc n) builder object restart = do
    applied ← create_or_update builder object restart
    elim applied.1 [
      | none ↦ pure applied
      | some e ↦
          (if is_conflict e then apply_object n builder applied.3 applied.2 else pure applied)
    ]

  unfoldable pub record_operation_result : Object → OperationResult → Option Error → Act (Unit {0})
  unfolding operation_text operation_title
  record_operation_result object operation_none e = pure tt
  record_operation_result object operation none =
      event normal ("Successful" <> operation_title operation) (
        operation_text operation
        <> "d resource "
        <> object.key.name
        <> " of Type "
        <> object.type_name)
  record_operation_result object operation (some e) =
      event warning ("Failed" <> operation_title operation) (
        "failed to "
        <> operation_text operation
        <> " resource "
        <> object.key.name
        <> " of Type "
        <> object.type_name
        <> ": "
        <> error_text e)

  unfoldable pub reconcile_pvc : ObjectKey → List ClaimTemplate → Act ReconcileResult
  unfolding scale template_capacity
  reconcile_pvc key claims = do
    r ← scale server "persistence" key (template_capacity "persistence" claims)
    on_error r
        (λ e. do
          event warning "FailedReconcilePersistence" ("failed to scale PVCs: " <> error_text e)
          set_cluster_condition server reconcile_success cond_false "FailedReconcilePVC"
              (error_text e ∷ [])
          pure (error_out e))
        (pure continue_reconcile)

  -- The claims of a StatefulSet are expanded before it changes.
  unfoldable pub prepare_claims : Object → Act ReconcileResult
  unfolding reconcile_pvc
  prepare_claims object = elim object.claims [
    | none ↦ pure continue_reconcile
    | some claims ↦ reconcile_pvc object.key claims
  ]

  -- What follows a step that continues.
  unfoldable pub and_then : ReconcileResult → Act ReconcileResult → Act ReconcileResult
  and_then continue_reconcile next = next
  and_then r next = pure r

  unfoldable pub apply_builder : Builder → Object → Act ReconcileResult → Act ReconcileResult
  unfolding apply_object record_operation_result annotate_if_needed and_then
  apply_builder builder object rest = do
    applied ← apply_object server.retries builder object builder.restart
    record_operation_result applied.3 applied.0 applied.1
    on_error applied.1
        (λ e. do
          set_cluster_condition server reconcile_success cond_false "Error" (error_text e ∷ [])
          pure (error_out e))
        (do
          r ← annotate_if_needed server builder.kind applied.2 applied.0
          and_then r (elim applied.0 [
            | operation_none ↦ rest
            | operation_created ↦ pure done
            | operation_updated ↦ pure done
          ]))

  -- The loop of `reconcileResources`: it ends at the first object that it creates or updates.
  unfoldable pub apply_builders : List Builder → Act ReconcileResult
  unfolding prepare_claims apply_builder and_then
  apply_builders [] = pure continue_reconcile
  apply_builders (builder ∷ builders) =
      let rest = apply_builders builders in
      on_outcome builder.build (λ e. pure (error_out e))
        (λ object. do
          prepared ← prepare_claims object
          and_then prepared (apply_builder builder object rest))

  unfoldable pub wait_resource_ready : Act ReconcileResult
  unfolding all_replicas_ready_and_updated
  wait_resource_ready = do
    found ← statefulsets server
    on_outcome found (λ e. pure (error_out e))
        (λ sets.
          if all_replicas_ready_and_updated sets
          then pure continue_reconcile
          else pure (call_back_soon 5))

  unfoldable pub reconcile_resources : (RabbitmqCluster → List Builder) → Act ReconcileResult
  unfolding wait_resource_ready apply_builders and_then
  reconcile_resources builders = do
    ready ← wait_resource_ready
    rmq ← gets (λ s. s.rmq)
    and_then ready (apply_builders (builders rmq))

  -- A `Get` returns the object of the key that it asks for, so the name stays the listed one.
  unfoldable pub restart_once : ObjectKey → Act (Option Error)
  unfolding put_statefulset time_stamp
  restart_once key = do
    found ← call (get_statefulset key) (λ h. server.on_get_statefulset h key)
    on_outcome found (λ e. pure (some e))
        (λ sts. do
          stamp ← gets (λ s. time_stamp server s.calls)
          put_statefulset server (record sts {
            template_annotations = insert sts_restart_annotation stamp sts.template_annotations;
          }))

  unfoldable pub restart_statefulset : StatefulSet → Act ReconcileResult
  unfolding restart_once
  restart_statefulset sts = do
    r ← retry_on_error server.retries is_conflict (restart_once (key_of sts))
    on_error r
        (λ e. do
          event warning "FailedUpdate" (
              "failed to restart StatefulSet " <> sts.name
              <> "; rabbitmq.conf configuration may be outdated")
          pure (error_out e))
        (do event normal "SuccessfulUpdate" ("restarted StatefulSet " <> sts.name); pure done)

  -- At most one StatefulSet is restarted in a run.
  unfoldable pub restart_first : String → List StatefulSet → Act ReconcileResult
  unfolding restarted_since restart_statefulset
  restart_first config_updated_at [] = pure continue_reconcile
  restart_first config_updated_at (sts ∷ rest) =
      let later = restart_first config_updated_at rest in
      if restarted_since config_updated_at sts then later else restart_statefulset sts

  unfoldable pub restart_statefulset_if_needed : Act ReconcileResult
  unfolding read_config_map restart_first
  restart_statefulset_if_needed = do
    rmq ← gets (λ s. s.rmq)
    conf ← read_config_map server (config_map_key server rmq "server-conf")
    on_outcome conf
        (λ e. if is_not_found e then pure continue_reconcile else pure (call_back_soon_error 10 e))
        (λ cfg. elim (lookup server_conf_annotation cfg.annotations) [
          | none ↦ pure continue_reconcile
          | some at ↦ (do
            found ← statefulsets server
            on_outcome found (λ e. pure (call_back_soon_error 10 e)) (restart_first at))
        ])
