-- ===== src/Setup/Options/Laws.antt =====
-- What the environment makes of the options in main.go.
use rabbitmq_operator.Prelude.{
  ℕ, ◌*◌, ◌%◌, ◌^◌, ◌<◌, ◌≤◌, String, Bool, true, false, not, ◌&&◌, ◌||◌, none, some, List, [], ◌∷◌,
  Map, lookup, insert, lookup-insert, text_at, has_key, contains_text, ◌==◌, if◌then◌else◌, ◌≡◌,
  refl, sym, ap, ◌∙◌, arith, itoa, All, Bool-cases, inl, inr, eq_iff,
}
use rabbitmq_operator.Kube.{Outcome, ok, err}
use rabbitmq_operator.Cluster.{plugin_in}
use rabbitmq_operator.Builders.Meta.{◌>>=◌}
use rabbitmq_operator.Setup.Text.{parse_bool, parse_int, split_commas}
use rabbitmq_operator.Setup.Text.Laws.{
  parse_int-itoa, itoa-ne-empty, join_commas, HasNoComma, join_commas-split_commas,
}
use rabbitmq_operator.Setup.Options.{
  Env, get_env_in_duration, watch_namespaces, default_namespaces, control_rabbitmq_image, configure,
}

duration_of_seconds :
    (env : Env) (name : String) (n : ℕ)
    → text_at name env ≡ itoa n
    → n < 2 ^ 63
    → get_env_in_duration env name ≡ ok (n * 1000000000 % 2 ^ 64)
unfolding get_env_in_duration
duration_of_seconds env name n e h = rw e (rw (itoa-ne-empty n) (rw (parse_int-itoa n h) refl))

-- A variable that holds a number of seconds up to 9223372036 in decimal digits is the duration of that
-- many nanoseconds, which is in the range of int64.
pub get_env_in_duration-itoa :
    (env : Env) (name : String) (n : ℕ)
    → text_at name env ≡ itoa n
    → n ≤ 9223372036
    → (get_env_in_duration env name ≡ ok (n * 1000000000)) × (n * 1000000000 < 2 ^ 63)
get_env_in_duration-itoa env name n e h =
    let exact : n * 1000000000 % 2 ^ 64 ≡ n * 1000000000 = omega arith in
    (duration_of_seconds env name n e (omega arith) ∙ ap ok exact, omega arith)

-- A variable that holds a number of seconds from 9223372037 to 18446744073 in decimal digits is read
-- without an error as a duration whose sign bit is set.
pub get_env_in_duration_overflows :
    (env : Env) (name : String) (n : ℕ)
    → text_at name env ≡ itoa n
    → 9223372037 ≤ n
    → n ≤ 18446744073
    → (d : ℕ) × (get_env_in_duration env name ≡ ok d) × (2 ^ 63 ≤ d) × (d < 2 ^ 64)
get_env_in_duration_overflows env name n e h k =
    let exact : n * 1000000000 % 2 ^ 64 ≡ n * 1000000000 = omega arith in
    (
      n * 1000000000,
      duration_of_seconds env name n e (omega arith) ∙ ap ok exact,
      omega arith,
      omega arith,
    )

has_key-insert :
    (k part : String) (watched : Map (Unit {0}))
    → has_key k (insert part tt watched) ≡ (part == k || has_key k watched)
has_key-insert k part watched = ground (arith, lookup-insert part k tt watched)

has_key-watch_namespaces :
    (k : String) (parts : List String) (watched : Map (Unit {0}))
    → has_key k (watch_namespaces parts watched) ≡ (plugin_in k parts || has_key k watched)
unfolding watch_namespaces plugin_in
has_key-watch_namespaces k [] watched = refl
has_key-watch_namespaces k (part ∷ parts) watched =
    has_key-watch_namespaces k parts (insert part tt watched)
    ∙ ap (λ b. plugin_in k parts || b) (has_key-insert k part watched)
    ∙ swapped (plugin_in k parts) (part == k) (has_key k watched)
  where
    swapped : (a b c : Bool) → (a || (b || c)) ≡ ((if b then true else a) || c)
    swapped a b c = ground arith

or_false : (b : Bool) → (b || false) ≡ b
or_false b = ground arith

not_empty : (scope : String) → contains_text scope "," ≡ true → (scope == "") ≡ false
not_empty scope h = elim (Bool-cases (scope == "")) [
  | inl q ↦ absurd (cc (sym (ap (λ s. contains_text s ",") ((eq_iff scope "").0 q)) ∙ h))
  | inr q ↦ q
]

-- Where the scope has a comma, the cache is limited to a map of namespaces that has exactly the parts of the
-- scope as its keys; no part has a comma, and the parts with commas between them are the scope.
pub default_namespaces-split_commas :
    (scope : String)
    → contains_text scope "," ≡ true
    → (watched : Map (Unit {0})) × (default_namespaces scope ≡ some watched)
      × ((k : String) → has_key k watched ≡ plugin_in k (split_commas scope))
      × (join_commas (split_commas scope) ≡ scope)
      × All HasNoComma (split_commas scope)
unfolding default_namespaces plugin_in lookup
default_namespaces-split_commas scope h =
    let (same, free) = join_commas-split_commas scope in
    let some_text : (scope == "") ≡ false = not_empty scope h in
    (
      watch_namespaces (split_commas scope) [],
      rw some_text (rw h refl),
      λ k.
          has_key-watch_namespaces k (split_commas scope) []
          ∙ or_false (plugin_in k (split_commas scope)),
      same,
      free,
    )

-- The variables without which `configure` fails, or whose value it refuses.
abbrev pub is_flag : Env → String → Bool
is_flag env name = elim (lookup name env) [
  | none ↦ true
  | some text ↦ elim (parse_bool text) [ none ↦ false | some _ ↦ true ]
]

abbrev pub is_number : Env → String → Bool
is_number env name =
    text_at name env == "" || elim (parse_int (text_at name env)) [ none ↦ false | some _ ↦ true ]

abbrev pub is_ok {ℓ} : {A : Type ℓ} → Outcome A → Bool
is_ok (ok a) = true
is_ok (err e) = false

is_ok-bind {ℓ κ} :
    {A : Type ℓ} {B : Type κ} (first : Outcome A) (next : A → Outcome B) {a b : Bool}
    → is_ok first ≡ a
    → ((x : A) → is_ok (next x) ≡ b)
    → is_ok (first >>= next) ≡ (a && b)
is_ok-bind (ok x) next {a} {b} e f = f x ∙ ap (λ c. c && b) e
is_ok-bind (err x) next {a} {b} e f = ap (λ c. c && b) e

is_ok-last {ℓ κ} :
    {A : Type ℓ} {B : Type κ} (first : Outcome A) (next : A → Outcome B) {a : Bool}
    → is_ok first ≡ a
    → ((x : A) → is_ok (next x) ≡ true)
    → is_ok (first >>= next) ≡ a
is_ok-last (ok x) next e f = f x ∙ e
is_ok-last (err x) next e f = e

is_ok-duration :
    (env : Env) (name : String) → is_ok (get_env_in_duration env name) ≡ is_number env name
unfolding get_env_in_duration
is_ok-duration env name = ground arith

is_ok-control :
    (env : Env) → is_ok (control_rabbitmq_image env) ≡ is_flag env "CONTROL_RABBITMQ_IMAGE"
unfolding control_rabbitmq_image
is_ok-control env = ground arith

-- The options and the settings are made exactly where the namespace of the operator is set, the control of the
-- image is not set or a Boolean, and each of the three durations is empty or a number of seconds.
pub configure_fails :
    (metrics_address : String) (env : Env)
    → is_ok (configure metrics_address env) ≡ (
        not (text_at "OPERATOR_NAMESPACE" env == "")
        && (is_flag env "CONTROL_RABBITMQ_IMAGE"
            && (is_number env "LEASE_DURATION"
                && (is_number env "RENEW_DEADLINE" && is_number env "RETRY_PERIOD"))))
unfolding configure
configure_fails metrics_address env = elim (Bool-cases (text_at "OPERATOR_NAMESPACE" env == "")) [
  | inl q ↦ rw q refl
  | inr q ↦ rw q (
      is_ok-bind (control_rabbitmq_image env) _ (is_ok-control env) λ control.
        is_ok-bind (get_env_in_duration env "LEASE_DURATION") _
          (is_ok-duration env "LEASE_DURATION")
          λ lease.
            is_ok-bind (get_env_in_duration env "RENEW_DEADLINE") _
              (is_ok-duration env "RENEW_DEADLINE")
              λ renew.
                is_ok-last (get_env_in_duration env "RETRY_PERIOD") _
                  (is_ok-duration env "RETRY_PERIOD") (λ retry. refl))
]
