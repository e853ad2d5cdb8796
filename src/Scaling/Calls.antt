-- ===== src/Scaling/Calls.antt =====
-- Which calls the scaler makes.
use rabbitmq_operator.Prelude.{ℕ, zero, suc, String, Bool, true, none, List, [], ◌∷◌, ◌≡◌, refl}
use rabbitmq_operator.Kube.{ObjectKey, PersistentVolumeClaim}
use rabbitmq_operator.Server.{
  Call, Server, Act, ◌>>=◌, ◌>>◌, pure, call, get_statefulset, delete_statefulset, get_pvc,
  update_pvc, sleep,
}
use rabbitmq_operator.Server.Emits.{
  Emits, emits_rules, Emits-call, Emits-pure, Emits-bind, Emits-if, Emits-on_error,
  Emits-on_outcome,
}
use rabbitmq_operator.Scaling.{
  is_gone, existing_capacity, get_claims, get_pvcs, retry_with_interval,
  delete_statefulset_orphaned, scale_up_pvcs, scale_selected, scale_up, scale,
}

-- The calls that scaling the claims of one StatefulSet may make: reads, waits, a deletion of that
-- StatefulSet that leaves its pods and claims, and updates that request the desired capacity.
abbrev pub IsScalingCall : ObjectKey → ℕ → Call → Type 0
IsScalingCall key desired (get_statefulset k) = k ≡ key
IsScalingCall key desired (get_pvc _) = Unit
IsScalingCall key desired (sleep _) = Unit
IsScalingCall key desired (delete_statefulset k options) = (k ≡ key) × (options.orphan ≡ true)
IsScalingCall key desired (update_pvc namespace pvc) =
    (namespace ≡ key.namespace) × (pvc.storage ≡ desired)
IsScalingCall key desired _ = ⊥

module _ (server : Server) (pvc_name : String) (key : ObjectKey) (desired : ℕ) where
  abbrev Fine : Call → Type 0
  Fine = IsScalingCall key desired

  read-Fine : Emits Fine (call (get_statefulset key) (λ h. server.on_get_statefulset h key))
  read-Fine = Emits-call _ _ refl

  sleep-Fine : (n : ℕ) → Emits Fine (call (sleep n) (λ _. tt))
  sleep-Fine n = Emits-call _ _ tt

  update-Fine :
      (latest : PersistentVolumeClaim)
      → let scaled = record latest { storage = desired } in
        Emits Fine (
          call (update_pvc key.namespace scaled) (λ h. server.on_update_pvc h key.namespace scaled))
  update-Fine latest = Emits-call _ _ (refl, refl)

  existing-Fine : Emits Fine (existing_capacity server pvc_name key)
  unfolding existing_capacity
  existing-Fine = search (emits_rules, read-Fine)

  claims-Fine :
      (n i : ℕ) (sts_name : String) (pvcs : List PersistentVolumeClaim)
      → Emits Fine (get_claims server n i pvc_name key sts_name pvcs)
  unfolding get_claims
  claims-Fine zero i sts_name pvcs = Emits-pure _
  claims-Fine (suc n) i sts_name pvcs = search (emits_rules, claims-Fine n)

  pvcs-Fine : Emits Fine (get_pvcs server pvc_name key)
  unfolding get_pvcs
  pvcs-Fine = search (emits_rules, read-Fine, claims-Fine)

  retry-Fine :
      (msg : String) (n retry interval : ℕ) (f : Act Bool)
      → Emits Fine f
      → Emits Fine (retry_with_interval msg n retry interval f)
  unfolding retry_with_interval
  retry-Fine msg zero retry interval f ef = Emits-pure _
  retry-Fine msg (suc n) retry interval f ef = Emits-bind _ _ ef λ done.
      Emits-if done (pure none)
        (call (sleep interval) (λ _. tt) >> retry_with_interval msg n retry interval f)
        (λ _. Emits-pure none)
        (λ _. Emits-bind _ _ (sleep-Fine interval) (λ _. retry-Fine msg n retry interval f ef))

  gone-Fine :
      Emits Fine
        (do r ← call (get_statefulset key) (λ h. server.on_get_statefulset h key); pure (is_gone r))
  gone-Fine = search (emits_rules, read-Fine)

  delete-Fine : Emits Fine (delete_statefulset_orphaned server key)
  unfolding delete_statefulset_orphaned
  delete-Fine = search (emits_rules, retry-Fine, gone-Fine) depth 9

  scale_up_pvcs-Fine :
      (pvcs : List PersistentVolumeClaim) → Emits Fine (scale_up_pvcs server key pvcs desired)
  unfolding scale_up_pvcs
  scale_up_pvcs-Fine [] = Emits-pure _
  scale_up_pvcs-Fine (pvc ∷ rest) = Emits-bind _ _ (Emits-call _ _ tt) λ r.
      Emits-on_outcome r _ _ (λ e. Emits-pure _)
        λ latest _.
          Emits-bind _ _ (update-Fine latest)
            λ u. Emits-on_error u _ _ (λ e. Emits-pure _) (scale_up_pvcs-Fine rest)

  selected-Fine :
      (pvcs : List PersistentVolumeClaim) → Emits Fine (scale_selected server key desired pvcs)
  unfolding scale_selected
  selected-Fine [] = Emits-pure _
  selected-Fine (pvc ∷ rest) = search (emits_rules, delete-Fine, scale_up_pvcs-Fine)

  scale_up-Fine : Emits Fine (scale_up server pvc_name key desired)
  unfolding scale_up
  scale_up-Fine = search (emits_rules, pvcs-Fine, selected-Fine)

  -- Whatever the API server answers, all that `Scale` does is to read, to wait, to delete the
  -- StatefulSet with its pods and claims left alone, and to request the desired capacity.
  pub scale-Emits : Emits Fine (scale server pvc_name key desired)
  unfolding scale
  scale-Emits = search (emits_rules, existing-Fine, scale_up-Fine) depth 9
