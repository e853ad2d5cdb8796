-- ===== src/Controller/Resources/Laws.antt =====
-- Where the loop over the child resources stops.
use rabbitmq_operator.Prelude.{true, Option, none, some, [], ◌∷◌, ◌≡◌, ◌≢◌, refl}
use rabbitmq_operator.Kube.{Error, error_text, Object}
use rabbitmq_operator.Result.{
  ReconcileResult, continue_reconcile, done, error_out, call_back_soon, call_back_soon_error,
  completed,
}
use rabbitmq_operator.Server.{
  Server, State, Act, ◌>>◌, ◌>>=◌, pure, on_error, set_cluster_condition,
}
use rabbitmq_operator.Cluster.{reconcile_success, cond_false}
use rabbitmq_operator.Controller.Annotations.{
  OperationResult, operation_none, operation_created, operation_updated, annotate_if_needed,
}
use rabbitmq_operator.Controller.Resources.{
  Builder, apply_object, apply_builder, and_then, record_operation_result,
}

-- What follows the write of one object.
abbrev after_write : OperationResult → Act ReconcileResult → Act ReconcileResult
after_write o rest = elim o [
  | operation_none ↦ rest
  | operation_created ↦ pure done
  | operation_updated ↦ pure done
]

module _ (server : Server) (rest other : Act ReconcileResult) where
  -- Two actions that end the run, in the same way.
  abbrev StopsAlike : Act ReconcileResult → Act ReconcileResult → State → Type 0
  StopsAlike m n s = (completed (m s).0 ≡ true) × (m s ≡ n s)

  and_then_stops :
      (r : ReconcileResult) (s : State)
      → StopsAlike (and_then server r (pure done)) (and_then server r (pure done)) s
  unfolding and_then pure completed
  and_then_stops continue_reconcile s = (refl, refl)
  and_then_stops done s = (refl, refl)
  and_then_stops (call_back_soon n) s = (refl, refl)
  and_then_stops (error_out e) s = (refl, refl)
  and_then_stops (call_back_soon_error n e) s = (refl, refl)

  write_stops :
      (o : OperationResult) (r : ReconcileResult) (s : State)
      → o ≢ operation_none
      → StopsAlike
          (and_then server r (after_write o rest))
          (and_then server r (after_write o other))
          s
  write_stops operation_none r s n = absurd (n refl)
  write_stops operation_created r s n = and_then_stops r s
  write_stops operation_updated r s n = and_then_stops r s

  -- What follows the record of the operation.
  abbrev finish_write :
      Option Error
      → (Error → Act (Unit {0}))
      → Act ReconcileResult
      → OperationResult
      → Act ReconcileResult
      → Act ReconcileResult
  finish_write e fail annotate o next =
      on_error e (λ x. do fail x; pure (error_out x))
        (do r ← annotate; and_then server r (after_write o next))

  finish_stops :
      (e : Option Error) (fail : Error → Act (Unit {0})) (annotate : Act ReconcileResult)
      (o : OperationResult) (s : State)
      → o ≢ operation_none
      → StopsAlike (finish_write e fail annotate o rest) (finish_write e fail annotate o other) s
  unfolding on_error ◌>>=◌ pure completed
  finish_stops (some x) fail annotate o s n = (refl, refl)
  finish_stops none fail annotate o s n = write_stops o (annotate s).0 (annotate s).1 n

  -- Where an object has been created or updated, the loop over the child resources ends the run there:
  -- the result is completed, and the objects behind it play no part in the result, the calls and the
  -- cluster.
  pub apply_builder_stops :
      (builder : Builder) (object : Object) (s : State)
      → (apply_object server server.retries builder object builder.restart s).0.0 ≢ operation_none
      → (completed (apply_builder server builder object rest s).0 ≡ true)
        × (apply_builder server builder object rest s ≡ apply_builder server builder object other s)
  unfolding apply_builder ◌>>=◌
  apply_builder_stops builder object s n =
      let applied = apply_object server server.retries builder object builder.restart s in
      finish_stops applied.0.1
        (λ e. set_cluster_condition server reconcile_success cond_false "Error" (error_text e ∷ []))
        (annotate_if_needed server builder.kind applied.0.2 applied.0.0) applied.0.0
        (record_operation_result server applied.0.3 applied.0.0 applied.0.1 applied.1).1 n
