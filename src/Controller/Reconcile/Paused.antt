-- ===== src/Controller/Reconcile/Paused.antt =====
-- A run of the loop for a cluster that is paused.
use rabbitmq_operator.Prelude.{
  ◌<>◌, true, false, none, List, [], ◌∷◌, ◌++◌, ◌≡◌, refl, sym, ap, ◌∙◌, All, All-append,
}
use mathlib.Core.List.{append_assoc}
use rabbitmq_operator.Cluster.{RabbitmqCluster}
use rabbitmq_operator.Kube.{ok, is_conflict, ObjectKey}
use rabbitmq_operator.Result.{continue_reconcile, done, output}
use rabbitmq_operator.Server.{
  Call, Server, State, ◌>>=◌, pure, call, gets, modify_rmq, event, on_outcome,
  set_cluster_condition, record_event, warning, update_status, put_status, get_cluster,
}
use rabbitmq_operator.Server.Emits.{
  Emits, Emits-bind, Emits-pure, Emits-gets, Emits-if, Emits-retry, Emits-put_status,
}
use rabbitmq_operator.Controller.Guards.{
  Defaults, pause_reconciliation_label, is_paused, reconcile_paused,
}
use rabbitmq_operator.Controller.Finalizer.{
  deletion_finalizer, has_finalizer, being_deleted, add_finalizer, reconcile_delete,
}
use rabbitmq_operator.Controller.Equality.{status_deep_equal}
use rabbitmq_operator.Controller.Resources.{Builder}
use rabbitmq_operator.Controller.Reconcile.{
  after_step, step, all_steps, save_status_once, save_status, reconcile,
}

-- The calls that a paused cluster may cause.
abbrev pub IsPassiveCall : Call → Type 0
IsPassiveCall (get_cluster _) = Unit
IsPassiveCall (record_event _ _ _) = Unit
IsPassiveCall (update_status _) = Unit
IsPassiveCall _ = ⊥

module _ (server : Server) where
  -- The cluster is not being deleted, has the finalizer, and is paused.
  abbrev pub IsPausedCluster : RabbitmqCluster → Type 0
  IsPausedCluster rmq =
      (being_deleted rmq ≡ false)
      × (has_finalizer deletion_finalizer rmq.finalizers ≡ true)
      × (is_paused rmq ≡ true)

  abbrev pause_event : Call
  pause_event =
      record_event warning "PausedReconciliation"
        ("label '" <> pause_reconciliation_label <> "' is set to true")

  delete_continues :
      (s : State) → IsPausedCluster s.rmq → reconcile_delete server s ≡ (continue_reconcile, s)
  unfolding reconcile_delete add_finalizer ◌>>=◌ gets pure
  delete_continues s (a, b, c) = simp (a, b)

  paused_stops :
      (s : State)
      → IsPausedCluster s.rmq
      → (s' : State) × (reconcile_paused server s ≡ (done, s')) × (s'.calls ≡ pause_event ∷ s.calls)
  unfolding reconcile_paused ◌>>=◌ gets event call pure set_cluster_condition
  paused_stops s (a, b, c) = rw c (_, refl, refl)

  module _ (d : Defaults) (builders : RabbitmqCluster → List Builder) where
    steps_stop :
        (s : State)
        → IsPausedCluster s.rmq
        → (s' : State) × (all_steps server d builders s ≡ (output done, s'))
          × (s'.calls ≡ pause_event ∷ s.calls)
    unfolding all_steps step after_step ◌>>=◌ pure
    steps_stop s p = let (s', e, c) = paused_stops s p in (s', simp (delete_continues s p, e), c)

    save_status-IsPassiveCall : (before : _) → Emits IsPassiveCall (save_status server before)
    unfolding save_status save_status_once
    save_status-IsPassiveCall before =
        Emits-bind _ _
          (Emits-retry server.retries is_conflict _ (
            Emits-bind _ _ (Emits-gets _) λ rmq.
              Emits-if (status_deep_equal before rmq.status) (pure none) (put_status server)
                (λ _. Emits-pure none) (λ _. Emits-put_status server (λ _. tt))))
          (λ _. Emits-pure _)

    -- A run, where its read of the cluster and its steps are known.
    module _ (key : ObjectKey) (rmq : RabbitmqCluster) (s s' : State) where
      run :
          server.on_get_cluster s.calls key ≡ ok rmq
          → all_steps server d builders (record { rmq = rmq; calls = get_cluster key ∷ s.calls })
            ≡ (output done, s')
          → reconcile server d builders key s ≡ (output done, (save_status server rmq.status s').1)
      unfolding reconcile ◌>>=◌ call on_outcome modify_rmq pure
      run r e = simp (r, e)

    -- A run for a cluster that is paused, and is neither being deleted nor without its finalizer,
    -- asks to run again after 30 seconds and, whatever the API server answers, only reads the cluster,
    -- records events and updates the status: no child object is read or changed.
    pub reconcile_paused_cluster :
        (key : ObjectKey) (rmq : RabbitmqCluster) (s : State)
        → server.on_get_cluster s.calls key ≡ ok rmq
        → IsPausedCluster rmq
        → ((reconcile server d builders key s).0 ≡ output done)
          × ((made : List Call) × ((reconcile server d builders key s).1.calls ≡ made ++ s.calls)
              × All IsPassiveCall made)
    reconcile_paused_cluster key rmq s r p =
        let read : State = record { rmq = rmq; calls = get_cluster key ∷ s.calls } in
        let (s', e, c) = steps_stop read p in
        let (made, q, all) = (save_status-IsPassiveCall rmq.status).at s' in
        (
          ap (λ x. x.0) (run key rmq s s' r e),
          (
            made ++ pause_event ∷ get_cluster key ∷ [],
            ap (λ x. x.1.calls) (run key rmq s s' r e)
                ∙ q
                ∙ ap (λ cs. made ++ cs) c
                ∙ sym (append_assoc made _ s.calls),
            All-append _ made _ all (tt, (tt, tt)),
          ),
        )
