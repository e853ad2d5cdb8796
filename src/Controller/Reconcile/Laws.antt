-- ===== src/Controller/Reconcile/Laws.antt =====
-- What a result of the whole loop means.
use rabbitmq_operator.Prelude.{
  Bool, true, false, not, Option, none, some, List, [], ◌∷◌, ◌≡◌, refl, sym, ap, ◌∙◌,
}
use rabbitmq_operator.Cluster.{RabbitmqCluster}
use rabbitmq_operator.Kube.{Error}
use rabbitmq_operator.Result.{
  ReconcileResult, continue_reconcile, done, error_out, call_back_soon, call_back_soon_error,
  CtrlResult, empty_result, output, get_error,
}
use rabbitmq_operator.Server.{Server, State, Act, ◌>>=◌, pure, modify_rmq, set_cluster_condition}
use rabbitmq_operator.Status.{set_condition}
use rabbitmq_operator.Controller.Guards.{
  Defaults, reconcile_paused, reconcile_operator_defaults, reconcile_tls, reconcile_scale_down,
}
use rabbitmq_operator.Controller.Annotations.{reconcile_queue_rebalanced}
use rabbitmq_operator.Controller.Finalizer.{reconcile_delete}
use rabbitmq_operator.Controller.StatusSteps.{reconcile_status_conditions, reconcile_status}
use rabbitmq_operator.Controller.Cli.{reconcile_rabbitmq_cli}
use rabbitmq_operator.Controller.Resources.{
  Builder, reconcile_resources, restart_statefulset_if_needed,
}
use rabbitmq_operator.Controller.Reconcile.{
  Returned, after_step, step, checked_step, run_cli, note_failure, finish, late_steps, middle_steps,
  all_steps,
}

-- A step that cannot panic, as one that may.
abbrev pub unchecked : Act ReconcileResult → Act (Option ReconcileResult)
unchecked m s = (some (m s).0, (m s).1)

-- From the first state, each of the steps in turn continues, and the last one leaves the second state.
abbrev pub Passed : List (Act (Option ReconcileResult)) → State → State → Type 0
Passed [] s t = t ≡ s
Passed (m ∷ steps) s t = ((m s).0 ≡ some continue_reconcile) × Passed steps (m s).1 t

-- A requeue and an error are both missing.
abbrev quiet : Option (CtrlResult × Option Error) → Bool
quiet (some (r, none)) = not r.requeue
quiet _ = false

output_requests : (r : ReconcileResult) → output r ≡ some (empty_result, none) → ⊥
unfolding output
output_requests r h = false_true (sym (not_quiet r) ∙ ap quiet h)
  where
    false_true : false ≡ true → ⊥
    false_true e = cc

    not_quiet : (r : ReconcileResult) → quiet (output r) ≡ false
    not_quiet continue_reconcile = refl
    not_quiet done = refl
    not_quiet (call_back_soon n) = refl
    not_quiet (error_out e) = refl
    not_quiet (call_back_soon_error n e) = refl

module _ (server : Server) where
  -- A run of the action that asks for no further run has passed the steps and then does what `finish`
  -- does.
  abbrev Runs : List (Act (Option ReconcileResult)) → Act Returned → Type 0
  Runs steps m =
      (s : State)
      → (m s).0 ≡ some (empty_result, none)
      → (t : State) × Passed steps s t × (m s ≡ finish server t)

  -- The part of a step behind its action.
  abbrev RunsAfter :
      List (Act (Option ReconcileResult)) → Option ReconcileResult → Act Returned → Type 0
  RunsAfter steps r m =
      (s : State)
      → (m s).0 ≡ some (empty_result, none)
      → (r ≡ some continue_reconcile) × (t : State) × Passed steps s t × (m s ≡ finish server t)

  finish-Runs : Runs [] (finish server)
  finish-Runs s h = (s, refl, refl)

  after-RunsAfter :
      (steps : List (Act (Option ReconcileResult))) (r : ReconcileResult) (next : Act Returned)
      → Runs steps next
      → RunsAfter steps (some r) (after_step r next)
  unfolding after_step pure
  after-RunsAfter steps continue_reconcile next n s h =
      let (t, passed, ends) = n s h in (refl, t, passed, ends)
  after-RunsAfter steps done next n s h = absurd (output_requests done h)
  after-RunsAfter steps (call_back_soon x) next n s h =
      absurd (output_requests (call_back_soon x) h)
  after-RunsAfter steps (error_out e) next n s h = absurd (output_requests (error_out e) h)
  after-RunsAfter steps (call_back_soon_error x e) next n s h =
      absurd (output_requests (call_back_soon_error x e) h)

  regroup :
      (steps : List (Act (Option ReconcileResult))) (m : Act (Option ReconcileResult)) (s : State)
      (end : Option (CtrlResult × Option Error) × State)
      → ((m s).0 ≡ some continue_reconcile)
        × (t : State) × Passed steps (m s).1 t
        × (end ≡ finish server t)
      → (t : State) × Passed (m ∷ steps) s t × (end ≡ finish server t)
  regroup steps m s end (continues, t, passed, ends) = (t, (continues, passed), ends)

  step-Runs :
      (steps : List (Act (Option ReconcileResult))) (m : Act ReconcileResult) (next : Act Returned)
      → Runs steps next
      → Runs (unchecked m ∷ steps) (step m next)
  unfolding step ◌>>=◌
  step-Runs steps m next n s h =
      regroup steps (unchecked m) s _ (after-RunsAfter steps (m s).0 next n (m s).1 h)

  checked-Runs :
      (steps : List (Act (Option ReconcileResult))) (m : Act (Option ReconcileResult))
      (next : Act Returned)
      → Runs steps next
      → Runs (m ∷ steps) (checked_step m next)
  unfolding checked_step ◌>>=◌ pure
  checked-Runs steps m next n s h = regroup steps m s _ (go (m s).0 (m s).1 h)
    where
      no_result : ◌≡◌ {A = Returned} none (some (empty_result, none)) → ⊥
      no_result e = cc

      go :
          (r : Option ReconcileResult)
          → RunsAfter steps r (elim r [ none ↦ pure none | some found ↦ after_step found next ])
      go none t e = absurd (no_result e)
      go (some found) t e = after-RunsAfter steps found next n t e

  -- What is noted of a failure does not matter where the step continues.
  cli-RunsAfter :
      (r : ReconcileResult)
      → RunsAfter [] (some r) (note_failure server r >>= λ _. after_step r (finish server))
  unfolding note_failure ◌>>=◌ pure after_step get_error
  cli-RunsAfter continue_reconcile s h = (refl, s, refl, refl)
  cli-RunsAfter done s h = absurd (output_requests done h)
  cli-RunsAfter (call_back_soon x) s h = absurd (output_requests (call_back_soon x) h)
  cli-RunsAfter (error_out e) s h = absurd (output_requests (error_out e) h)
  cli-RunsAfter (call_back_soon_error x e) s h =
      absurd (output_requests (call_back_soon_error x e) h)

  cli-Runs : Runs (unchecked (reconcile_rabbitmq_cli server) ∷ []) (run_cli server (finish server))
  unfolding run_cli ◌>>=◌
  cli-Runs s h =
      let m = reconcile_rabbitmq_cli server in
      regroup [] (unchecked m) s _ (cli-RunsAfter (m s).0 (m s).1 h)

module _ (server : Server) (d : Defaults) (builders : RabbitmqCluster → List Builder) where
  -- The steps of a run, in the order of the source.
  abbrev pub run_steps : List (Act (Option ReconcileResult))
  run_steps =
      unchecked (reconcile_delete server)
      ∷ unchecked (reconcile_paused server)
      ∷ unchecked (reconcile_operator_defaults server d)
      ∷ reconcile_status_conditions server
      ∷ unchecked (reconcile_tls server)
      ∷ unchecked (reconcile_queue_rebalanced server)
      ∷ unchecked (reconcile_scale_down server)
      ∷ unchecked (reconcile_resources server builders)
      ∷ unchecked (restart_statefulset_if_needed server)
      ∷ unchecked (reconcile_status server)
      ∷ unchecked (reconcile_rabbitmq_cli server)
      ∷ []

  all_steps-Runs : Runs server run_steps (all_steps server d builders)
  unfolding all_steps middle_steps late_steps
  all_steps-Runs = search (step-Runs, checked-Runs, cli-Runs) depth 14

  finish_settles :
      (t : State)
      → (finish server t).1.rmq.status.observed_generation ≡ (finish server t).1.rmq.generation
  unfolding finish ◌>>=◌ modify_rmq set_cluster_condition set_condition pure
  finish_settles t = refl

  -- A run of the steps that asks for no further run, neither by a requeue nor by an error, has passed
  -- all eleven steps, from the one for a deletion to the commands in the pods, in their order, each of
  -- which continued in the state that the one before it left; it ends as `finish` does from the last of
  -- these states, and leaves the observed generation of the status equal to the generation of the
  -- cluster.
  pub all_steps_settled :
      (s : State)
      → (all_steps server d builders s).0 ≡ some (empty_result, none)
      → ((t : State) × Passed run_steps s t × (all_steps server d builders s ≡ finish server t))
        × ((all_steps server d builders s).1.rmq.status.observed_generation
            ≡ (all_steps server d builders s).1.rmq.generation)
  all_steps_settled s h =
      let (t, passed, ends) = all_steps-Runs s h in
      (
        (t, passed, ends),
        ap (λ r. r.1.rmq.status.observed_generation) ends
            ∙ finish_settles t
            ∙ sym (ap (λ r. r.1.rmq.generation) ends),
      )
