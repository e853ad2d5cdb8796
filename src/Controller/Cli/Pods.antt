-- ===== src/Controller/Cli/Pods.antt =====
-- Which pods the plugins are set on.
use rabbitmq_operator.Prelude.{
  ℕ, zero, suc, String, Option, none, some, List, ◌∷◌, ◌≡◌, refl, sym, ap, ◌∙◌, ◌<>◌, join_with,
  Option-cases, inl, inr,
}
use rabbitmq_operator.Cluster.{RabbitmqCluster, pod_name}
use rabbitmq_operator.Kube.{Error}
use rabbitmq_operator.Server.{
  Call, Server, State, Act, ◌>>=◌, pure, call, gets, event, on_error, exec_in_pod,
}
use rabbitmq_operator.Controller.Cli.{
  desired_plugins, run_command, set_plugins, run_set_plugins_command,
}

abbrev pub plugins_command : RabbitmqCluster → String
plugins_command rmq =
    "rabbitmq-plugins set " <> join_with " " (desired_plugins rmq.spec.rabbitmq.additional_plugins)

-- A history behind which the command has been sent to `n` pods in turn, from pod `i`.
abbrev pub sent_to_pods : RabbitmqCluster → ℕ → ℕ → List Call → List Call
sent_to_pods rmq zero i history = history
sent_to_pods rmq (suc n) i history =
    sent_to_pods rmq n (suc i)
      (exec_in_pod rmq.namespace (pod_name rmq "server" i) (plugins_command rmq) ∷ history)

bind_ok :
    (m next : Act (Option Error)) (s s' : State)
    → m s ≡ (none, s')
    → (m >>= λ r. on_error r (λ e. pure (some e)) next) s ≡ next s'
unfolding ◌>>=◌ on_error
bind_ok m next s s' r = simp r

bind_fails :
    (m next : Act (Option Error)) (s : State) (e : Error)
    → (m s).0 ≡ some e
    → ((m >>= λ r. on_error r (λ x. pure (some x)) next) s).0 ≡ some e
unfolding ◌>>=◌ on_error pure
bind_fails m next s e r = simp r

module _ (server : Server) (rmq : RabbitmqCluster) where
  command_ok :
      (namespace pod command msg : String) (s : State)
      → server.on_exec_in_pod s.calls namespace pod command ≡ none
      → run_command server namespace pod command msg s
        ≡ (none, record s { calls = exec_in_pod namespace pod command ∷ s.calls })
  unfolding run_command ◌>>=◌ call on_error pure
  command_ok namespace pod command msg s r = simp r

  command_fails :
      (namespace pod command msg : String) (s : State) (e : Error)
      → server.on_exec_in_pod s.calls namespace pod command ≡ some e
      → (x : Error) × ((run_command server namespace pod command msg s).0 ≡ some x)
  unfolding run_command ◌>>=◌ call on_error pure event
  command_fails namespace pod command msg s e r = rw r (_, refl)

  abbrev command_at : ℕ → Call
  command_at i = exec_in_pod rmq.namespace (pod_name rmq "server" i) (plugins_command rmq)

  answer : ℕ → State → Option Error
  answer i s =
      server.on_exec_in_pod s.calls rmq.namespace (pod_name rmq "server" i) (plugins_command rmq)

  first_ok :
      (n i : ℕ) (s : State)
      → answer i s ≡ none
      → set_plugins server (suc n) i rmq s
        ≡ set_plugins server n (suc i) rmq (record s { calls = command_at i ∷ s.calls })
  unfolding set_plugins answer
  first_ok n i s r =
      bind_ok
        (run_command server rmq.namespace (pod_name rmq "server" i) (plugins_command rmq)
          "failed to set plugins on pod")
        (set_plugins server n (suc i) rmq) s (record s { calls = command_at i ∷ s.calls })
        (command_ok rmq.namespace (pod_name rmq "server" i) (plugins_command rmq)
          "failed to set plugins on pod" s r)

  first_fails :
      (n i : ℕ) (s : State) (e : Error)
      → answer i s ≡ some e
      → (x : Error) × ((set_plugins server (suc n) i rmq s).0 ≡ some x)
  unfolding set_plugins answer
  first_fails n i s e r =
      let (x, q) =
        command_fails rmq.namespace (pod_name rmq "server" i) (plugins_command rmq)
          "failed to set plugins on pod" s e r in
      (
        x,
        bind_fails
            (run_command server rmq.namespace (pod_name rmq "server" i) (plugins_command rmq)
              "failed to set plugins on pod")
            (set_plugins server n (suc i) rmq) s x q,
      )

  no_error : (x : Error) (o : Option Error) → o ≡ some x → o ≡ none → ⊥
  no_error x o p q = cc

  -- The loop from pod `i`, with `n` pods left: a run without an error has sent the command to each of
  -- them once, in turn, and has made no other call.
  set_plugins-sent :
      (n i : ℕ) (s : State)
      → (set_plugins server n i rmq s).0 ≡ none
      → (set_plugins server n i rmq s).1.calls ≡ sent_to_pods rmq n i s.calls
  set_plugins-sent zero i s h = unfold set_plugins pure in refl
  set_plugins-sent (suc n) i s h = elim (Option-cases (answer i s)) [
    | inl r ↦
        (let step = first_ok n i s r in
          ap (λ q. q.1.calls) step
          ∙ set_plugins-sent n (suc i) (record s { calls = command_at i ∷ s.calls })
              (ap (λ q. q.0) (sym step) ∙ h))
    | inr (e, r) ↦ (let (x, q) = first_fails n i s e r in absurd (no_error x _ q h))
  ]

-- A run of the command that sets the plugins, if it ends without an error, has sent it to every pod of
-- the cluster once, from the first to the last, and has made no other call.
pub run_set_plugins_command-sent :
    (server : Server) (s : State)
    → (run_set_plugins_command server s).0 ≡ none
    → (run_set_plugins_command server s).1.calls ≡ sent_to_pods s.rmq s.rmq.spec.replicas 0 s.calls
unfolding run_set_plugins_command ◌>>=◌ gets
run_set_plugins_command-sent server s h = set_plugins-sent server s.rmq s.rmq.spec.replicas 0 s h
