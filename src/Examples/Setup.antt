-- ===== src/Examples/Setup.antt =====
-- The theorems on the set-up of the process at a concrete environment.
use rabbitmq_operator.Prelude.{
  ◌^◌, ◌<◌, ◌≤◌, not, ◌&&◌, some, [], ◌∷◌, Map, text_at, has_key, itoa, lookup, ◌==◌, ◌≡◌, refl, ℕ,
  String, All, arith,
}
use rabbitmq_operator.Kube.{ok}
use rabbitmq_operator.Cluster.{plugin_in}
use rabbitmq_operator.Setup.Text.{split_commas}
use rabbitmq_operator.Setup.Text.Laws.{join_commas, HasNoComma}
use rabbitmq_operator.Setup.Options.{Env, get_env_in_duration, default_namespaces, configure}
use rabbitmq_operator.Setup.Options.Laws.{
  get_env_in_duration-itoa, get_env_in_duration_overflows, default_namespaces-split_commas, is_flag,
  is_number, is_ok, configure_fails,
}

abbrev env : Env
env =
    ("OPERATOR_NAMESPACE", "rabbitmq-system")
    ∷ ("CONTROL_RABBITMQ_IMAGE", "true")
    ∷ ("LEASE_DURATION", "30")
    ∷ ("RENEW_DEADLINE", "9223372037")
    ∷ []

get_env_in_duration-itoa_example :
    (get_env_in_duration env "LEASE_DURATION" ≡ ok 30_000_000_000) × (30_000_000_000 < 2 ^ 63)
unfolding itoa lookup
get_env_in_duration-itoa_example =
    get_env_in_duration-itoa env "LEASE_DURATION" 30 refl (omega arith)

get_env_in_duration_overflows_example :
    (d : ℕ) × (get_env_in_duration env "RENEW_DEADLINE" ≡ ok d) × (2 ^ 63 ≤ d) × (d < 2 ^ 64)
unfolding itoa lookup
get_env_in_duration_overflows_example =
    get_env_in_duration_overflows env "RENEW_DEADLINE" 9_223_372_037 refl (omega arith)
      (omega arith)

default_namespaces-split_commas_example :
    (watched : Map (Unit {0})) × (default_namespaces "prod,dev" ≡ some watched)
    × ((k : String) → has_key k watched ≡ plugin_in k (split_commas "prod,dev"))
    × (join_commas (split_commas "prod,dev") ≡ "prod,dev")
    × All HasNoComma (split_commas "prod,dev")
default_namespaces-split_commas_example = default_namespaces-split_commas "prod,dev" refl

configure_fails_example : is_ok (configure ":9782" env) ≡ (
    not (text_at "OPERATOR_NAMESPACE" env == "")
    && (is_flag env "CONTROL_RABBITMQ_IMAGE"
        && (is_number env "LEASE_DURATION"
            && (is_number env "RENEW_DEADLINE" && is_number env "RETRY_PERIOD"))))
configure_fails_example = configure_fails ":9782" env
