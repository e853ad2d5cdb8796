-- ===== src/Setup/Options.antt =====
-- main.go: what the environment and the flag make of the options of the manager and of the settings of
-- the controller. An error of `configure` is a message and the exit with status 1.
pub mod Laws
use rabbitmq_operator.Prelude.{
  ℕ, ◌*◌, ◌%◌, ◌^◌, String, Bool, true, false, ◌&&◌, Option, none, some, List, [], ◌∷◌, Map, lookup,
  insert, text_at, contains_text, eqb, ◌==◌, ◌<>◌, if◌then◌else◌,
}
use rabbitmq_operator.Kube.{Error, Outcome, ok, err, plain}
use rabbitmq_operator.Metadata.{Labels}
use rabbitmq_operator.Builders.Meta.{◌>>=◌}
use rabbitmq_operator.Controller.Guards.{Defaults}
use rabbitmq_operator.Controller.Watches.{Watches, set_up_with_manager}
use rabbitmq_operator.Setup.Text.{parse_bool, parse_int, split_commas}

abbrev pub Env : Type 0
Env = Map String

-- The requirement of a label selector: the label equals the value.
pub record Requirement : Type 0 where
  pub label : String
  pub value : String

pub record ManagerOptions : Type 0 where
  pub metrics_address : String
  pub extra_handlers : Map String
  pub leader_election : Bool
  pub leader_election_namespace : String
  pub leader_election_id : String
  pub default_namespaces : Option (Map (Unit {0}))
  pub by_object : List (String × Option Requirement)
  pub lease_duration : Option ℕ
  pub renew_deadline : Option ℕ
  pub retry_period : Option ℕ

abbrev pub rmq_selector : Requirement
rmq_selector = record { label = "app.kubernetes.io/part-of"; value = "rabbitmq" }

-- `options.Cache.ByObject`: the types that the cache holds, each with its selector.
abbrev pub cached_objects : List (String × Option Requirement)
cached_objects =
    ("*v1beta1.RabbitmqCluster", none)
    ∷ ("*v1.StatefulSet", some rmq_selector)
    ∷ ("*v1.Service", some rmq_selector)
    ∷ ("*v1.ConfigMap", some rmq_selector)
    ∷ ("*v1.Secret", some rmq_selector)
    ∷ ("*v1.ServiceAccount", some rmq_selector)
    ∷ ("*v1.Endpoints", some rmq_selector)
    ∷ ("*v1.Role", some rmq_selector)
    ∷ ("*v1.RoleBinding", some rmq_selector)
    ∷ []

-- A number of seconds as a `time.Duration`, an int64 of nanoseconds that wraps around.
unfoldable pub get_env_in_duration : Env → String → Outcome ℕ
unfolding parse_int
get_env_in_duration env name =
    if text_at name env == "" then ok 0 else elim (parse_int (text_at name env)) [
      | none ↦ err (plain ("unable to parse provided '" <> name <> "'"))
      | some seconds ↦ ok (seconds * 1000000000 % 2 ^ 64)
    ]

abbrev pub unless_zero : ℕ → Option ℕ
unless_zero d = if eqb d 0 then none else some d

-- The loop over the parts of the scope.
unfoldable pub watch_namespaces : List String → Map (Unit {0}) → Map (Unit {0})
watch_namespaces [] watched = watched
watch_namespaces (namespace ∷ rest) watched = watch_namespaces rest (insert namespace tt watched)

-- The namespaces that the cache is limited to, or `none`.
unfoldable pub default_namespaces : String → Option (Map (Unit {0}))
unfolding watch_namespaces split_commas
default_namespaces scope =
    if scope == ""
    then none
    else if contains_text scope ","
    then some (watch_namespaces (split_commas scope) [])
    else some ((scope, tt) ∷ [])

abbrev pub pprof_endpoints : Map String
pprof_endpoints =
    ("/debug/pprof", "Index")
    ∷ ("/debug/pprof/allocs", "Index")
    ∷ ("/debug/pprof/block", "Index")
    ∷ ("/debug/pprof/cmdline", "Cmdline")
    ∷ ("/debug/pprof/goroutine", "Index")
    ∷ ("/debug/pprof/heap", "Index")
    ∷ ("/debug/pprof/mutex", "Index")
    ∷ ("/debug/pprof/profile", "Profile")
    ∷ ("/debug/pprof/symbol", "Symbol")
    ∷ ("/debug/pprof/threadcreate", "Index")
    ∷ ("/debug/pprof/trace", "Trace")
    ∷ []

-- The loop over the endpoints.
unfoldable pub add_handlers : Map String → Map String → Map String
add_handlers [] handlers = handlers
add_handlers ((path, handler) ∷ rest) handlers = add_handlers rest (insert path handler handlers)

unfoldable pub add_debug_pprof_endpoints : ManagerOptions → ManagerOptions
unfolding add_handlers
add_debug_pprof_endpoints options = record options {
  extra_handlers = add_handlers pprof_endpoints options.extra_handlers;
}

-- A value that is not a Boolean leaves the endpoints off.
unfoldable pub pprof_enabled : Env → Bool
unfolding parse_bool
pprof_enabled env = elim (lookup "ENABLE_DEBUG_PPROF" env) [
  | none ↦ false
  | some text ↦ elim (parse_bool text) [ none ↦ false | some b ↦ b ]
]

unfoldable pub control_rabbitmq_image : Env → Outcome Bool
unfolding parse_bool
control_rabbitmq_image env = elim (lookup "CONTROL_RABBITMQ_IMAGE" env) [
  | none ↦ ok false
  | some text ↦ elim (parse_bool text) [
    | none ↦ err (plain "unable to start manager")
    | some b ↦ ok b
  ]
]

-- `if value, ok := os.LookupEnv(name); ok { … }`
abbrev pub env_or : String → String → Env → String
env_or name default_value env = elim (lookup name env) [ none ↦ default_value | some v ↦ v ]

-- The settings of the controller; their pull secrets are split where they are used.
unfoldable pub controller_defaults : Env → Bool → Defaults
unfolding split_commas
controller_defaults env control = record {
  rabbitmq_image = env_or "DEFAULT_RABBITMQ_IMAGE" "rabbitmq:3.13.7-management" env;
  user_updater_image =
      env_or "DEFAULT_USER_UPDATER_IMAGE" "rabbitmqoperator/default-user-credential-updater:1.0.2"
        env;
  split_pull_secrets = split_commas (env_or "DEFAULT_IMAGE_PULL_SECRETS" "" env);
  control_rabbitmq_image = control;
}

-- `main` up to the call of `NewManager`.
unfoldable pub configure : String → Env → Outcome (ManagerOptions × Defaults)
unfolding control_rabbitmq_image get_env_in_duration default_namespaces pprof_enabled
    add_debug_pprof_endpoints controller_defaults
configure metrics_address env =
    if text_at "OPERATOR_NAMESPACE" env == ""
    then err (plain "unable to find operator namespace")
    else (do
      control ← control_rabbitmq_image env
      lease ← get_env_in_duration env "LEASE_DURATION"
      renew ← get_env_in_duration env "RENEW_DEADLINE"
      retry ← get_env_in_duration env "RETRY_PERIOD"
      let options : ManagerOptions = record {
        metrics_address = metrics_address;
        extra_handlers = [];
        leader_election = true;
        leader_election_namespace = text_at "OPERATOR_NAMESPACE" env;
        leader_election_id = "rabbitmq-cluster-operator-leader-election";
        default_namespaces = default_namespaces (text_at "OPERATOR_SCOPE_NAMESPACE" env);
        by_object = cached_objects;
        lease_duration = unless_zero lease;
        renew_deadline = unless_zero renew;
        retry_period = unless_zero retry;
      }
      ok (
        (if pprof_enabled env then add_debug_pprof_endpoints options else options),
        controller_defaults env control,
      ))

-- The manager of controller-runtime.
pub record Manager : Type 0 where
  pub new_manager : ManagerOptions → Option Error
  pub index_field : String → Option Error
  pub complete : Defaults → Watches → Option Error
  pub start : Option Error

-- The exit status of `main`.
unfoldable pub exit_status : Manager → String → Env → ℕ
unfolding configure set_up_with_manager
exit_status manager metrics_address env = elim (configure metrics_address env) [
  | err e ↦ 1
  | ok (options, defaults) ↦ elim (manager.new_manager options) [
    | some e ↦ 1
    | none ↦ elim (set_up_with_manager manager.index_field (manager.complete defaults)) [
      | some e ↦ 1
      | none ↦ elim manager.start [ none ↦ 0 | some e ↦ 1 ]
    ]
  ]
]
