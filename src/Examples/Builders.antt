-- ===== src/Examples/Builders.antt =====
-- The theorems on the builders at concrete inputs.
use Prim.Native.Nat.{min}
use rabbitmq_operator.Prelude.{
  ◌*◌, ◌^◌, ◌+◌, ◌/◌, ◌≤◌, ◌<◌, Bool, true, false, some, [], ◌∷◌, ◌≡◌, refl, sym, ap, ◌∙◌, lookup,
  arith,
}
use rabbitmq_operator.Kube.{Outcome, ok, err}
use rabbitmq_operator.Cluster.{tls_enabled, disable_non_tls_listeners}
use rabbitmq_operator.Builders.Meta.{SetControllerReference, ok_injective}
use rabbitmq_operator.Builders.Config.{
  ConfigMapObject, update_server_config_map, build_server_config_map, remove_headroom, user_keys,
}
use rabbitmq_operator.Builders.Config.Headroom.{remove_headroom-le}
use rabbitmq_operator.Builders.Config.Listeners.{Closed, user_keys-Closed}
use rabbitmq_operator.Builders.Config.Restart.{resized}
use rabbitmq_operator.Builders.Config.Resize.{update_server_config_map-resized}
use rabbitmq_operator.Builders.Config.Unchanged.{update_server_config_map-Same}
use rabbitmq_operator.Examples.Data.{cluster}
use rabbitmq_operator.Examples.Equality.{
  semantic_equal, semantic_equal_complete, semantic_equal_sound,
}
use rabbitmq_operator.Examples.Files.{files, files_laws}

abbrev pub set_owner : SetControllerReference
set_owner c meta = ok (record { uid = c.uid; block_owner_deletion = some true } ∷ [])

abbrev pub value_or {ℓ} : {A : Type ℓ} → A → Outcome A → A
value_or a (err e) = a
value_or a (ok b) = b

abbrev pub is_ok {ℓ} : {A : Type ℓ} → Outcome A → Bool
is_ok (err e) = false
is_ok (ok a) = true

pub is_ok_value {ℓ} : {A : Type ℓ} (a : A) (o : Outcome A) → is_ok o ≡ true → o ≡ ok (value_or a o)
is_ok_value a (ok b) e = refl
is_ok_value a (err x) e = cc

-- What is written for the cluster first, and after more replicas are asked for.
abbrev first : Outcome (ConfigMapObject × Bool)
first =
    update_server_config_map files set_owner semantic_equal cluster true
      (build_server_config_map cluster)

abbrev written : ConfigMapObject × Bool
written = value_or (build_server_config_map cluster, true) first

abbrev second : Outcome (ConfigMapObject × Bool)
second = update_server_config_map files set_owner semantic_equal (resized cluster 5) true written.0

first_runs : is_ok first ≡ true
unfolding update_server_config_map build_server_config_map files semantic_equal
first_runs = refl

second_runs : is_ok second ≡ true
unfolding update_server_config_map build_server_config_map files semantic_equal
second_runs = refl

update_server_config_map-resized_example : (value_or written second).1 ≡ false
update_server_config_map-resized_example =
    update_server_config_map-resized files files_laws set_owner semantic_equal
      semantic_equal_complete cluster 5 (build_server_config_map cluster) written.0
      (value_or written second).0 written.1 (value_or written second).1 true
      (λ m n o o' p q s. sym (ok_injective s) ∙ ok_injective p)
      (is_ok_value (build_server_config_map cluster, true) first first_runs)
      (is_ok_value written second second_runs)

-- The same cluster once more, which changes nothing.
abbrev third : Outcome (ConfigMapObject × Bool)
third = update_server_config_map files set_owner semantic_equal cluster true written.0

third_flag : (is_ok third ≡ true) × ((value_or written third).1 ≡ false)
unfolding update_server_config_map build_server_config_map files semantic_equal
third_flag = (refl, refl)

update_server_config_map-Same_example :
    lookup "userDefinedConfiguration.conf" (value_or written third).0.entries
    ≡ lookup "userDefinedConfiguration.conf" written.0.entries
update_server_config_map-Same_example =
    update_server_config_map-Same files set_owner semantic_equal semantic_equal_sound cluster
      written.0 (value_or written third).0 "userDefinedConfiguration.conf"
      (is_ok_value written third third_flag.0
        ∙ ap (λ b. ok ((value_or written third).0, b)) third_flag.1)
      refl

remove_headroom-le_example :
    (remove_headroom 1_000 + min (1_000 / 5) (2 * 1073741824) ≡ 1_000)
    × (remove_headroom 1_000 ≤ remove_headroom 20_000_000_000)
    × (4 * 20_000_000_000 ≤ 5 * remove_headroom 20_000_000_000)
    × (0 < remove_headroom 1_000)
    × (remove_headroom 20_000_000_000 < 2 ^ 63)
remove_headroom-le_example =
    remove_headroom-le 1_000 20_000_000_000 (omega arith) (omega arith) (omega arith)

tls_runs : (tls_enabled cluster ≡ true) × (disable_non_tls_listeners cluster ≡ true)
unfolding tls_enabled disable_non_tls_listeners
tls_runs = (refl, refl)

user_keys-Closed_example : Closed (λ k. lookup k (user_keys cluster)) cluster
user_keys-Closed_example = user_keys-Closed cluster tls_runs.0 tls_runs.1
