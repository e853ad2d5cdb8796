-- ===== src/Controller/Guards/Tls.antt =====
-- What has been checked of the TLS secrets where the step of the TLS lets the loop go on.
use rabbitmq_operator.Prelude.{
  String, Bool, true, false, not, ◌&&◌, ◌||◌, Option, none, some, List, [], ◌∷◌, ◌≡◌, ◌⊎◌, inl, inr,
  refl, ap, ◌∙◌, has_key, eq_iff, if◌then◌else◌,
}
use rabbitmq_operator.Cluster.{
  RabbitmqCluster, disable_non_tls_listeners, tls_enabled, secret_tls_enabled, mutual_tls_enabled,
  single_tls_secret, reconcile_success, cond_false,
}
use rabbitmq_operator.Kube.{Error, error_text, Outcome, ok, err, Secret, ObjectKey}
use rabbitmq_operator.Result.{ReconcileResult, continue_reconcile, done, error_out}
use rabbitmq_operator.Server.{
  Call, Server, State, Act, ◌>>=◌, ◌>>◌, pure, call, gets, event, on_error, on_outcome,
  set_cluster_condition,
}
use rabbitmq_operator.Controller.Guards.{
  secret_key, check_ca_cert, check_mutual_tls, check_tls_secrets, tls_failure, reconcile_tls,
}

if_passed :
    (b : Bool) (f : Act (Option Error)) {e : Error} (s : State)
    → (f s).0 ≡ some e
    → ((if b then pure none else f) s).0 ≡ none
    → b ≡ true
unfolding pure
if_passed true f s p h = refl
if_passed false f s p h = cc

second_true : (a b : Bool) → (a && b) ≡ true → b ≡ true
second_true true b h = h
second_true false b h = cc

mutual_step :
    (m single : Bool) (x y : Act (Option Error)) (s : State)
    → ((if m then if not single then x else y else pure none) s).0 ≡ none
    → (m ≡ false) ⊎ (((single ≡ true) × ((y s).0 ≡ none)) ⊎ ((x s).0 ≡ none))
mutual_step false single x y s h = inl refl
mutual_step true true x y s h = inr (inl (refl, h))
mutual_step true false x y s h = inr (inr h)

outcome_passed :
    {A : Type 0} (r : Outcome A) (fail : Error → Act (Option Error)) (next : A → Act (Option Error))
    (s : State)
    → ((e : Error) → (fail e s).0 ≡ some e)
    → (on_outcome r fail next s).0 ≡ none
    → (a : A) × (r ≡ ok a) × ((next a s).0 ≡ none)
unfolding on_outcome
outcome_passed (ok a) fail next s p h = (a, refl, h)
outcome_passed (err e) fail next s p h = absurd (clash (p e) h)
  where
    clash : {o : Option Error} → o ≡ some e → o ≡ none → ⊥
    clash q k = cc

fields_passed :
    (crt key : Bool) (f g : Act (Option Error)) {e : Error} (s : State)
    → (f s).0 ≡ some e
    → ((if not crt || not key then f else g) s).0 ≡ none
    → (crt ≡ true) × (key ≡ true) × ((g s).0 ≡ none)
fields_passed true true f g s p h = (refl, refl, h)
fields_passed true false f g s p h = cc
fields_passed false key f g s p h = cc

config_passed :
    (disabled tls : Bool) (x y : Act ReconcileResult) (s : State)
    → (x s).0 ≡ done
    → ((if disabled && not tls then x else y) s).0 ≡ continue_reconcile
    → ((disabled ≡ false) ⊎ (tls ≡ true)) × ((y s).0 ≡ continue_reconcile)
config_passed false tls x y s p h = (inl refl, h)
config_passed true true x y s p h = (inr refl, h)
config_passed true false x y s p h = cc

check_passed :
    (r : Option Error) (f : Error → Act (Unit {0})) (s : State)
    → (on_error r (λ e. do f e; pure (error_out e)) (pure continue_reconcile) s).0
      ≡ continue_reconcile
    → r ≡ none
unfolding on_error ◌>>=◌ pure
check_passed none f s h = refl
check_passed (some e) f s h = cc

module _ (server : Server) (rmq : RabbitmqCluster) where
  -- The API server has answered with a secret of this name that has the field.
  abbrev pub Held : String → String → Type 0
  Held name field =
      (h : List Call) × (secret : Secret) × (server.on_get_secret h (secret_key rmq name)
        ≡ ok secret)
      × (has_key field secret.data_keys ≡ true)

  failure_fails : (e : Error) (msg : String) (s : State) → (tls_failure server e msg s).0 ≡ some e
  unfolding tls_failure ◌>>=◌ pure event call
  failure_fails e msg s = refl

  check_ca_cert-Held :
      (secret : Secret) (s : State)
      → (check_ca_cert server rmq secret s).0 ≡ none
      → has_key "ca.crt" secret.data_keys ≡ true
  unfolding check_ca_cert
  check_ca_cert-Held secret s h =
      if_passed (has_key "ca.crt" secret.data_keys) _ s (failure_fails _ _ s) h

  single_name :
      single_tls_secret rmq ≡ true → rmq.spec.tls.ca_secret_name ≡ rmq.spec.tls.secret_name
  unfolding single_tls_secret
  single_name h = (eq_iff _ _).0 (second_true (mutual_tls_enabled rmq) _ h)

  check_mutual_tls-Held :
      (secret : Secret) (h : List Call) (s : State)
      → server.on_get_secret h (secret_key rmq rmq.spec.tls.secret_name) ≡ ok secret
      → (check_mutual_tls server rmq secret s).0 ≡ none
      → (mutual_tls_enabled rmq ≡ false) ⊎ Held rmq.spec.tls.ca_secret_name "ca.crt"
  unfolding check_mutual_tls ◌>>=◌ call
  check_mutual_tls-Held secret h s r k =
      elim (mutual_step (mutual_tls_enabled rmq) (single_tls_secret rmq) _ _ s k) [
        | inl off ↦ inl off
        | inr (inl (single, held)) ↦ inr (
          h,
          secret,
          ap (λ n. server.on_get_secret h (secret_key rmq n)) (single_name single) ∙ r,
          check_ca_cert-Held secret s held,
        )
        | inr (inr passed) ↦
            (let (ca, found, held) =
                outcome_passed
                  (server.on_get_secret s.calls (secret_key rmq rmq.spec.tls.ca_secret_name)) _ _ _
                  (λ e. failure_fails e _ _) passed in
              inr (s.calls, ca, found, check_ca_cert-Held ca _ held))
      ]

module _ (server : Server) (s : State) where
  abbrev tls_secret_key : ObjectKey
  tls_secret_key = secret_key s.rmq s.rmq.spec.tls.secret_name

  -- What a check of the secrets without an error has found.
  abbrev pub Checked : Type 0
  Checked =
      (secret : Secret) × (server.on_get_secret s.calls tls_secret_key ≡ ok secret)
      × (has_key "tls.crt" secret.data_keys ≡ true)
      × (has_key "tls.key" secret.data_keys ≡ true)
      × ((mutual_tls_enabled s.rmq ≡ false)
          ⊎ Held server s.rmq s.rmq.spec.tls.ca_secret_name "ca.crt")

  secrets_checked : (check_tls_secrets server s).0 ≡ none → Checked
  unfolding check_tls_secrets ◌>>=◌ gets call
  secrets_checked h =
      let (secret, found, rest) =
        outcome_passed (server.on_get_secret s.calls tls_secret_key) _ _ _
          (λ e. failure_fails server s.rmq e _ _) h in
      let (crt, key, held) =
        fields_passed (has_key "tls.crt" secret.data_keys) (has_key "tls.key" secret.data_keys) _ _
          _ (failure_fails server s.rmq _ _ _) rest in
      (secret, found, crt, key, check_mutual_tls-Held server s.rmq secret s.calls _ found held)

  -- The step of the TLS lets the loop go on only if the listeners without TLS stay or TLS is enabled,
  -- and, with a TLS secret, only if the API server has returned that secret with a certificate and a
  -- key in it, and, with mutual TLS, the CA secret with a CA certificate in it.
  pub reconcile_tls_continues :
      (reconcile_tls server s).0 ≡ continue_reconcile
      → ((disable_non_tls_listeners s.rmq ≡ false) ⊎ (tls_enabled s.rmq ≡ true))
        × ((secret_tls_enabled s.rmq ≡ false) ⊎ Checked)
  unfolding reconcile_tls ◌>>=◌ gets pure event call set_cluster_condition
  reconcile_tls_continues h =
      let (listeners, rest) =
        config_passed (disable_non_tls_listeners s.rmq) (tls_enabled s.rmq) _ _ s refl h in
      (listeners, after_check (secret_tls_enabled s.rmq) rest)
    where
      after_check :
          (b : Bool)
          → ((if b
                then (do
                  checked ← check_tls_secrets server
                  on_error checked
                      (λ e. do
                        set_cluster_condition server reconcile_success cond_false "TLSError"
                            (error_text e ∷ [])
                        pure (error_out e))
                      (pure continue_reconcile))
                else pure continue_reconcile)
              s).0
            ≡ continue_reconcile
          → (b ≡ false) ⊎ Checked
      after_check false k = inl refl
      after_check true k = inr (
          secrets_checked
            (check_passed (check_tls_secrets server s).0 _ (check_tls_secrets server s).1 k))
