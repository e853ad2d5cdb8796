-- ===== src/Scaling.antt =====
-- internal/scaling/scaling.go: the scaler of persistent volume claims. A capacity is a number of bytes.
pub mod Laws
pub mod Calls
use rabbitmq_operator.Prelude.{
  ℕ, zero, suc, ◌+◌, String, Bool, true, false, Option, none, some, List, [], ◌∷◌, ◌++◌, itoa, ltb,
  eqb, ◌==◌, ◌<>◌, if◌then◌else◌,
}
use rabbitmq_operator.Kube.{
  Error, Outcome, ok, err, plain, wrapped, is_not_found, ObjectKey, StatefulSet, ClaimTemplate,
  PersistentVolumeClaim, desired_replicas,
}
use rabbitmq_operator.Server.{
  DeleteOptions, Server, Act, ◌>>=◌, ◌>>◌, pure, call, on_error, on_outcome, get_statefulset,
  delete_statefulset, get_pvc, update_pvc, sleep,
}

unfoldable pub template_capacity : String → List ClaimTemplate → ℕ
template_capacity name [] = 0
template_capacity name (t ∷ rest) =
    let later = template_capacity name rest in if t.name == name then t.storage else later

unfoldable pub pvcs_needing_scaling : List PersistentVolumeClaim → ℕ → List PersistentVolumeClaim
pvcs_needing_scaling [] desired = []
pvcs_needing_scaling (pvc ∷ rest) desired =
    let others = pvcs_needing_scaling rest desired in
    if ltb pvc.storage desired then pvc ∷ others else others

abbrev pub claim_key : String → String → String → ℕ → ObjectKey
claim_key namespace pvc_name statefulset_name i = record {
  namespace = namespace;
  name = pvc_name <> "-" <> statefulset_name <> "-" <> itoa i;
}

-- The options of `deleteStatefulset`: the pods and the claims stay.
abbrev pub orphan_options : DeleteOptions
orphan_options = record { precondition_uid = none; orphan = true }

unfoldable pub is_gone : Outcome StatefulSet → Bool
is_gone (ok _) = false
is_gone (err e) = is_not_found e

-- `retryWithInterval` runs `f` and waits 3 seconds behind every run that fails.
unfoldable pub retry_with_interval : String → ℕ → ℕ → ℕ → Act Bool → Act (Option Error)
retry_with_interval msg zero retry interval f =
    pure (some (plain ("failed to " <> msg <> " after " <> itoa retry <> " retries")))
retry_with_interval msg (suc left) retry interval f = do
  done ← f
  if done
      then pure none
      else (call (sleep interval) (λ _. tt) >> retry_with_interval msg left retry interval f)

module _ (server : Server) where
  abbrev pub read_statefulset : ObjectKey → Act (Outcome StatefulSet)
  read_statefulset key = call (get_statefulset key) (λ h. server.on_get_statefulset h key)

  unfoldable pub existing_capacity : String → ObjectKey → Act (Outcome ℕ)
  unfolding template_capacity
  existing_capacity pvc_name key = do
    sts ← read_statefulset key
    on_outcome sts (λ e. pure (err e))
        (λ found. pure (ok (template_capacity pvc_name found.volume_claim_templates)))

  -- The loop of `getPVCs` from index `i`, with `n` rounds left; claims that are missing are skipped.
  unfoldable pub get_claims :
      ℕ
      → ℕ
      → String
      → ObjectKey
      → String
      → List PersistentVolumeClaim
      → Act (Outcome (List PersistentVolumeClaim))
  get_claims zero i pvc_name key sts_name pvcs = pure (ok pvcs)
  get_claims (suc n) i pvc_name key sts_name pvcs = do
    let claim = claim_key key.namespace pvc_name sts_name i
    r ← call (get_pvc claim) (λ h. server.on_get_pvc h claim)
    on_outcome r
        (λ e.
          if is_not_found e
          then get_claims n (suc i) pvc_name key sts_name pvcs
          else pure (err (wrapped "failed to get sts from Kubernetes API" e)))
        (λ pvc. get_claims n (suc i) pvc_name key sts_name (pvcs ++ pvc ∷ []))

  unfoldable pub get_pvcs : String → ObjectKey → Act (Outcome (List PersistentVolumeClaim))
  unfolding get_claims desired_replicas
  get_pvcs pvc_name key = do
    sts ← read_statefulset key
    on_outcome sts
        (λ e.
          if is_not_found e
          then pure (ok [])
          else pure (err (wrapped "failed to get sts from Kubernetes API" e)))
        (λ found. get_claims (desired_replicas found) 0 pvc_name key found.name [])

  unfoldable pub delete_statefulset_orphaned : ObjectKey → Act (Option Error)
  unfolding retry_with_interval is_gone
  delete_statefulset_orphaned key = do
    deleted ←
        call (delete_statefulset key orphan_options)
          (λ h. server.on_delete_statefulset h key orphan_options)
    on_error deleted (λ e. pure (some (wrapped ("failed to delete statefulSet " <> key.name) e)))
        (do
          waited ←
              retry_with_interval "delete statefulSet" 10 10 3
                (do r ← read_statefulset key; pure (is_gone r))
          on_error waited
              (λ e.
                pure (some (wrapped ("statefulSet not deleting after 30 seconds " <> key.name) e)))
              (pure none))

  unfoldable pub scale_up_pvcs : ObjectKey → List PersistentVolumeClaim → ℕ → Act (Option Error)
  scale_up_pvcs key [] desired = pure none
  scale_up_pvcs key (pvc ∷ rest) desired = do
    let claim : ObjectKey = record { namespace = pvc.namespace; name = pvc.name }
    r ← call (get_pvc claim) (λ h. server.on_get_pvc h claim)
    on_outcome r (λ e. pure (some (wrapped "failed to get PVC from Kubernetes API" e)))
        (λ latest. do
          let scaled = record latest { storage = desired }
          u ←
              call (update_pvc key.namespace scaled)
                (λ h. server.on_update_pvc h key.namespace scaled)
          on_error u
              (λ e.
                pure (some (wrapped ("failed to update PersistentVolumeClaim " <> latest.name) e)))
              (scale_up_pvcs key rest desired))

  -- `Scale` with the claims to be scaled: nothing is deleted where there are none.
  unfoldable pub scale_selected : ObjectKey → ℕ → List PersistentVolumeClaim → Act (Option Error)
  unfolding delete_statefulset_orphaned scale_up_pvcs
  scale_selected key desired [] = pure none
  scale_selected key desired (pvc ∷ rest) = do
    deleted ← delete_statefulset_orphaned key
    on_error deleted
        (λ e. pure (some (wrapped "failed to delete Statefulset from Kubernetes API" e)))
        (scale_up_pvcs key (pvc ∷ rest) desired)

  -- The part of `Scale` behind the comparisons of the capacities.
  unfoldable pub scale_up : String → ObjectKey → ℕ → Act (Option Error)
  unfolding get_pvcs pvcs_needing_scaling scale_selected
  scale_up pvc_name key desired = do
    existing ← get_pvcs pvc_name key
    on_outcome existing
        (λ e. pure (
          some (
            plain (
              "failed to retrieve the existing PVC " <> pvc_name <> " for " <> key.namespace <> "/"
              <> key.name))))
        (λ pvcs. scale_selected key desired (pvcs_needing_scaling pvcs desired))

  unfoldable pub scale : String → ObjectKey → ℕ → Act (Option Error)
  unfolding existing_capacity scale_up
  scale pvc_name key desired = do
    capacity ← existing_capacity pvc_name key
    on_outcome capacity
        (λ e.
          if is_not_found e
          then pure none
          else pure (some (wrapped "failed to determine existing STS capactiy" e)))
        (λ existing.
          if eqb existing desired
          then pure none
          else if ltb desired existing
          then pure (some (plain "shrinking persistent volumes is not supported"))
          else if eqb existing 0
          then pure (some (plain "changing from ephemeral to persistent storage is not supported"))
          else scale_up pvc_name key desired)
