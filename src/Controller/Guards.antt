-- ===== src/Controller/Guards.antt =====
-- controllers/reconcile_pause.go, reconcile_scale_down.go, reconcile_tls.go and
-- reconcile_operator_defaults.go: the steps that can stop a reconciliation before any child changes.
pub mod Laws
pub mod Tls
use rabbitmq_operator.Prelude.{
  ℕ, String, Bool, true, false, not, ◌&&◌, ◌||◌, Option, none, some, List, [], ◌∷◌, ◌++◌, lookup,
  has_key, leb, itoa, ◌==◌, ◌<>◌, if◌then◌else◌,
}
use rabbitmq_operator.Cluster.{
  RabbitmqCluster, ClusterSpec, VaultSpec, disable_non_tls_listeners, tls_enabled,
  secret_tls_enabled, mutual_tls_enabled, single_tls_secret, no_warnings, reconcile_success,
  cond_false,
}
use rabbitmq_operator.Kube.{
  Error, Outcome, ok, err, api, bad_request, error_text, is_conflict, ObjectKey, Secret,
}
use rabbitmq_operator.Result.{ReconcileResult, continue_reconcile, done, error_out}
use rabbitmq_operator.Server.{
  Server, Act, ◌>>=◌, ◌>>◌, pure, call, gets, modify_rmq, event, on_error, on_outcome,
  retry_on_error, put_cluster, set_cluster_condition, warning, get_secret,
}

abbrev pub pause_reconciliation_label : String
pause_reconciliation_label = "rabbitmq.com/pauseReconciliation"

unfoldable pub is_paused : RabbitmqCluster → Bool
is_paused rmq = elim (lookup pause_reconciliation_label rmq.labels) [
  | none ↦ false
  | some v ↦ v == "true"
]

abbrev disable_non_tls_config_err : String
disable_non_tls_config_err = "TLS must be enabled if disableNonTLSListeners is set to true"

abbrev pub secret_key : RabbitmqCluster → String → ObjectKey
secret_key rmq name = record { namespace = rmq.namespace; name = name }

-- The list of default image pull secrets is split at commas, and empty texts are dropped.
unfoldable pub pull_secrets : List String → List String
pull_secrets [] = []
pull_secrets (reference ∷ rest) =
    let others = pull_secrets rest in if reference == "" then others else reference ∷ others

-- The settings of the operator that the defaults come from; `split_pull_secrets` is
-- `strings.Split(r.DefaultImagePullSecrets, ",")`.
pub record Defaults : Type 0 where
  pub rabbitmq_image : String
  pub user_updater_image : String
  pub split_pull_secrets : List String
  pub control_rabbitmq_image : Bool

-- A cluster, and the parts of `updateType` so far.
abbrev pub Change : Type 0
Change = RabbitmqCluster × List String

module _ (d : Defaults) where
  unfoldable pub default_image : Change → Change
  default_image (rmq, update_type) =
      if d.control_rabbitmq_image || rmq.spec.image == ""
      then (
        record rmq { spec = record rmq.spec { image = d.rabbitmq_image } },
        update_type ++ " image " ∷ [],
      )
      else (rmq, update_type)

  unfoldable pub set_updater_image : VaultSpec → ClusterSpec → ClusterSpec
  set_updater_image v spec = record spec {
    secret_backend = record spec.secret_backend {
      vault = some (record v { default_user_updater_image = some d.user_updater_image });
    };
  }

  unfoldable pub is_unset : Option String → Bool
  is_unset none = true
  is_unset (some _) = false

  unfoldable pub default_updater_image : Change → Change
  unfolding set_updater_image is_unset
  default_updater_image (rmq, update_type) = elim rmq.spec.secret_backend.vault [
    | none ↦ (rmq, update_type)
    | some v ↦
        (if d.control_rabbitmq_image || is_unset v.default_user_updater_image
          then (
            record rmq { spec = set_updater_image v rmq.spec },
            update_type ++ " vaultDefaultUserUpdaterImage " ∷ [],
          )
          else (rmq, update_type))
  ]

  -- Appending to a nil slice makes one; with nothing to append the slice stays nil.
  appended_secrets : List String → RabbitmqCluster → RabbitmqCluster
  appended_secrets [] rmq = rmq
  appended_secrets (s ∷ rest) rmq = record rmq {
    spec = record rmq.spec { image_pull_secrets = some (s ∷ rest) };
  }

  added_types : List String → List String
  added_types [] = []
  added_types (_ ∷ rest) = " imagePullSecret " ∷ added_types rest

  unfoldable pub default_pull_secrets : Change → Change
  unfolding pull_secrets appended_secrets added_types
  default_pull_secrets (rmq, update_type) = elim rmq.spec.image_pull_secrets [
    | some _ ↦ (rmq, update_type)
    | none ↦ (
      appended_secrets (pull_secrets d.split_pull_secrets) rmq,
      update_type ++ added_types (pull_secrets d.split_pull_secrets),
    )
  ]

  unfoldable pub with_defaults : RabbitmqCluster → Change
  unfolding default_image default_updater_image default_pull_secrets
  with_defaults rmq = default_pull_secrets (default_updater_image (default_image (rmq, [])))

module _ (server : Server) where
  unfoldable pub reconcile_paused : Act ReconcileResult
  unfolding is_paused
  reconcile_paused = do
    rmq ← gets (λ s. s.rmq)
    if is_paused rmq
        then (do
          event warning "PausedReconciliation"
              ("label '" <> pause_reconciliation_label <> "' is set to true")
          set_cluster_condition server no_warnings cond_false "reconciliation paused" []
          pure done)
        else pure continue_reconcile

  unfoldable pub reconcile_scale_down : Act ReconcileResult
  reconcile_scale_down = do
    rmq ← gets (λ s. s.rmq)
    let msg =
        "cluster Scale down not supported; tried to scale cluster from "
        <> itoa rmq.status.replicas
        <> " nodes to "
        <> itoa rmq.spec.replicas
        <> " nodes"
    if leb rmq.status.replicas rmq.spec.replicas then pure continue_reconcile else (do
      event warning "UnsupportedOperation" msg
      set_cluster_condition server reconcile_success cond_false "UnsupportedOperation" (msg ∷ [])
      pure done)

  -- The end of a failed check: an event, and the error.
  unfoldable pub tls_failure : Error → String → Act (Option Error)
  tls_failure e msg = do event warning "TLSError" msg; pure (some e)

  unfoldable pub check_ca_cert : RabbitmqCluster → Secret → Act (Option Error)
  unfolding tls_failure
  check_ca_cert rmq secret =
      let text =
        "TLS secret " <> rmq.spec.tls.ca_secret_name <> " in namespace " <> rmq.namespace
        <> " does not have the field ca.crt" in
      if has_key "ca.crt" secret.data_keys
      then pure none
      else tls_failure (api bad_request text) text

  unfoldable pub check_mutual_tls : RabbitmqCluster → Secret → Act (Option Error)
  unfolding check_ca_cert mutual_tls_enabled single_tls_secret tls_failure
  check_mutual_tls rmq secret =
      let key = secret_key rmq rmq.spec.tls.ca_secret_name in
      if mutual_tls_enabled rmq
      then if not (single_tls_secret rmq)
        then (do
          ca_secret ← call (get_secret key) (λ h. server.on_get_secret h key)
          on_outcome ca_secret
              (λ e. tls_failure e (
                "Failed to get CA certificate secret "
                <> rmq.spec.tls.ca_secret_name
                <> " in namespace "
                <> rmq.namespace
                <> ": "
                <> error_text e))
              (check_ca_cert rmq))
        else check_ca_cert rmq secret
      else pure none

  unfoldable pub check_tls_secrets : Act (Option Error)
  unfolding check_mutual_tls tls_failure
  check_tls_secrets = do
    rmq ← gets (λ s. s.rmq)
    let name = rmq.spec.tls.secret_name
    let missing =
        "TLS secret " <> name <> " in namespace " <> rmq.namespace
        <> " does not have the fields tls.crt and tls.key"
    secret ←
        call (get_secret (secret_key rmq name)) (λ h. server.on_get_secret h (secret_key rmq name))
    on_outcome secret
        (λ e. tls_failure e (
          "Failed to get TLS secret "
          <> name
          <> " in namespace "
          <> rmq.namespace
          <> ": "
          <> error_text e))
        (λ found.
          if not (has_key "tls.crt" found.data_keys) || not (has_key "tls.key" found.data_keys)
          then tls_failure (api bad_request missing) missing
          else check_mutual_tls rmq found)

  unfoldable pub reconcile_tls : Act ReconcileResult
  unfolding check_tls_secrets disable_non_tls_listeners tls_enabled secret_tls_enabled
  reconcile_tls = do
    rmq ← gets (λ s. s.rmq)
    if disable_non_tls_listeners rmq && not (tls_enabled rmq)
        then (do
          event warning "TLSError" disable_non_tls_config_err
          set_cluster_condition server reconcile_success cond_false "TLSError"
              (disable_non_tls_config_err ∷ [])
          pure done)
        else if secret_tls_enabled rmq
        then (do
          checked ← check_tls_secrets
          on_error checked
              (λ e. do
                set_cluster_condition server reconcile_success cond_false "TLSError"
                    (error_text e ∷ [])
                pure (error_out e))
              (pure continue_reconcile))
        else pure continue_reconcile

  unfoldable pub update_rabbitmq_cluster : Act ReconcileResult
  update_rabbitmq_cluster = do
    r ← retry_on_error server.retries is_conflict (put_cluster server)
    on_error r (λ e. pure (error_out e)) (pure done)

  unfoldable pub reconcile_operator_defaults : Defaults → Act ReconcileResult
  unfolding with_defaults update_rabbitmq_cluster
  reconcile_operator_defaults d = do
    rmq ← gets (λ s. s.rmq)
    modify_rmq (λ c. (with_defaults d c).0)
    elim (with_defaults d rmq).1 [ [] ↦ pure continue_reconcile | _ ∷ _ ↦ update_rabbitmq_cluster ]
