-- ===== src/Builders/Catalogue.antt =====
-- internal/resource/rabbitmq_resource_builder.go: which builders a run goes through, and in which
-- order.
pub mod Laws
use rabbitmq_operator.Prelude.{
  ℕ, zero, suc, ◌+◌, Bool, true, false, ◌||◌, List, [], ◌∷◌, ◌++◌, if◌then◌else◌,
}
use rabbitmq_operator.Cluster.{
  RabbitmqCluster, vault_default_user_secret_enabled, external_secret_enabled,
}

-- The implementations of `ResourceBuilder`.
pub data ChildBuilder : Type 0 where
  headless_service service erlang_cookie default_user_secret plugins_config_map server_config_map
        service_account role role_binding :
      ChildBuilder
  statefulset : ℕ → ChildBuilder

unfoldable pub update_may_require_sts_recreate : ChildBuilder → Bool
update_may_require_sts_recreate (statefulset _) = true
update_may_require_sts_recreate _ = false

-- `for i := 0; i < builder.Replicas; i++`, from `i` with `n` rounds left.
unfoldable pub statefulset_builders : ℕ → ℕ → List ChildBuilder
statefulset_builders zero i = []
statefulset_builders (suc n) i = statefulset i ∷ statefulset_builders n (i + 1)

-- `append(builders[:3], builders[3+1:]...)`
unfoldable pub remove_at : ℕ → List ChildBuilder → List ChildBuilder
remove_at i [] = []
remove_at zero (b ∷ builders) = builders
remove_at (suc i) (b ∷ builders) = b ∷ remove_at i builders

-- `replicas` is the field `Replicas` of the builder.
unfoldable pub resource_builders : RabbitmqCluster → ℕ → List ChildBuilder
unfolding statefulset_builders remove_at vault_default_user_secret_enabled external_secret_enabled
resource_builders cluster replicas =
    let builders =
      (headless_service ∷ service ∷ erlang_cookie ∷ default_user_secret ∷ plugins_config_map
        ∷ server_config_map ∷ service_account ∷ role ∷ role_binding ∷ [])
      ++ statefulset_builders replicas 0 in
    if vault_default_user_secret_enabled cluster || external_secret_enabled cluster
    then remove_at 3 builders
    else builders
