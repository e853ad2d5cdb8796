-- ===== src/Status/Update.antt =====
-- `SetCondition` and `SetConditions`: what an update changes, and that a second one changes nothing.
use rabbitmq_operator.Prelude.{
  ℕ, String, true, Option, none, some, List, [], ◌∷◌, map, length, ◌≡◌, refl, ap, ◌∙◌, arith,
  if◌then◌else◌, join_with,
}
use rabbitmq_operator.Cluster.{
  Condition, ConditionType, ConditionStatus, ClusterStatus, all_replicas_ready, cluster_available,
  no_warnings, reconcile_success, type_eq, status_eq, update_state, update_reason,
}
use rabbitmq_operator.Status.{
  Resource, start_condition, all_replicas_ready_condition, no_warnings_condition,
  cluster_available_condition, set_in, set_condition, old_condition, set_conditions,
  reconciled_condition,
}
use rabbitmq_operator.Status.Laws.{
  replicas_loop-SameFrame, warnings_loop-SameFrame, available_loop-SameFrame,
}

-- The first condition of a type.
abbrev pub first_of : ConditionType → List Condition → Option Condition
first_of t [] = none
first_of t (c ∷ cs) = if type_eq c.condition_type t then some c else first_of t cs

-- The condition that `SetCondition` is meant to leave in the place of one.
abbrev pub updated : ℕ → ConditionStatus → String → List String → Condition → Condition
updated now s reason messages c = record {
  condition_type = c.condition_type;
  status = s;
  last_transition_time = if status_eq c.status s then c.last_transition_time else now;
  reason = reason;
  message = join_with ". " messages;
}

abbrev pub map_option : (Condition → Condition) → Option Condition → Option Condition
map_option f none = none
map_option f (some c) = some (f c)

type_eq_sound : (a b c : ConditionType) → type_eq a b ≡ true → type_eq a c ≡ type_eq b c
type_eq_sound a b c h = ground arith

first_of-set_in :
    (now : ℕ) (t u : ConditionType) (s : ConditionStatus) (r : String) (ms : List String)
    (cs : List Condition)
    → first_of u (set_in now cs t s r ms)
      ≡ (if type_eq t u then map_option (updated now s r ms) (first_of u cs) else first_of u cs)
unfolding set_in update_state update_reason
first_of-set_in now t u s r ms [] = ground arith
first_of-set_in now t u s r ms (c ∷ cs) =
    ground (arith, first_of-set_in now t u s r ms cs, type_eq_sound c.condition_type t u)

length-set_in :
    (now : ℕ) (t : ConditionType) (s : ConditionStatus) (r : String) (ms : List String)
    (cs : List Condition)
    → length (set_in now cs t s r ms) ≡ length cs
unfolding set_in
length-set_in now t s r ms [] = refl
length-set_in now t s r ms (c ∷ cs) = ground (arith, length-set_in now t s r ms cs)

-- `SetCondition` adds and removes no condition; the first one of its type gets the new status, reason
-- and joined messages, and a new transition time exactly if its status changes; the first one of any
-- other type stays as it was.
pub set_condition_effect :
    (now : ℕ) (st : ClusterStatus) (t u : ConditionType) (s : ConditionStatus) (r : String)
    (ms : List String)
    → (length (set_condition now st t s r ms).conditions ≡ length st.conditions)
      × (first_of u (set_condition now st t s r ms).conditions ≡ (
          if type_eq t u
          then map_option (updated now s r ms) (first_of u st.conditions)
          else first_of u st.conditions))
unfolding set_condition
set_condition_effect now st t u s r ms =
    (length-set_in now t s r ms st.conditions, first_of-set_in now t u s r ms st.conditions)

replicas_type :
    (rs : List Resource) (o : Option Condition)
    → (all_replicas_ready_condition rs o).condition_type ≡ all_replicas_ready
unfolding all_replicas_ready_condition start_condition
replicas_type rs none = (replicas_loop-SameFrame _ rs).0
replicas_type rs (some c) = (replicas_loop-SameFrame _ rs).0

warnings_type :
    (rs : List Resource) (o : Option Condition)
    → (no_warnings_condition rs o).condition_type ≡ no_warnings
unfolding no_warnings_condition start_condition
warnings_type rs none = (warnings_loop-SameFrame _ rs).0
warnings_type rs (some c) = (warnings_loop-SameFrame _ rs).0

available_type :
    (rs : List Resource) (o : Option Condition)
    → (cluster_available_condition rs o).condition_type ≡ cluster_available
unfolding cluster_available_condition start_condition
available_type rs none = (available_loop-SameFrame _ rs).0
available_type rs (some c) = (available_loop-SameFrame _ rs).0

-- Only the time of the old condition enters a computed one.
replicas_again :
    (rs : List Resource) (o : Option Condition)
    → all_replicas_ready_condition rs (some (all_replicas_ready_condition rs o))
      ≡ all_replicas_ready_condition rs o
unfolding all_replicas_ready_condition start_condition
replicas_again rs none = rw (replicas_loop-SameFrame _ rs).1
replicas_again rs (some c) = rw (replicas_loop-SameFrame _ rs).1

warnings_again :
    (rs : List Resource) (o : Option Condition)
    → no_warnings_condition rs (some (no_warnings_condition rs o)) ≡ no_warnings_condition rs o
unfolding no_warnings_condition start_condition
warnings_again rs none = rw (warnings_loop-SameFrame _ rs).1
warnings_again rs (some c) = rw (warnings_loop-SameFrame _ rs).1

available_again :
    (rs : List Resource) (o : Option Condition)
    → cluster_available_condition rs (some (cluster_available_condition rs o))
      ≡ cluster_available_condition rs o
unfolding cluster_available_condition start_condition
available_again rs none = rw (available_loop-SameFrame _ rs).1
available_again rs (some c) = rw (available_loop-SameFrame _ rs).1

old_type :
    (t : ConditionType) (cs : List Condition) (found : Option Condition) (c : Condition)
    → ((d : Condition) → found ≡ some d → type_eq d.condition_type t ≡ true)
    → old_condition t cs found ≡ some c
    → type_eq c.condition_type t ≡ true
unfolding old_condition
old_type t [] found c h e = h c e
old_type t (d ∷ cs) found c h e =
    old_type t cs (if type_eq d.condition_type t then some d else found) c
      (λ x p. ground (arith, h x)) e

type_eq→eq : (a b : ConditionType) → type_eq a b ≡ true → a ≡ b
type_eq→eq a b h = ground arith

reconciled_type :
    (now : ℕ) (cs : List Condition)
    → (reconciled_condition now (old_condition reconcile_success cs none)).condition_type
      ≡ reconcile_success
unfolding reconciled_condition
reconciled_type now cs = go (old_condition reconcile_success cs none) refl
  where
    go :
        (o : Option Condition)
        → old_condition reconcile_success cs none ≡ o
        → (reconciled_condition now o).condition_type ≡ reconcile_success
    go none e = refl
    go (some c) e = type_eq→eq _ _ (old_type reconcile_success cs none c (λ d p. cc) e)

-- `SetConditions` leaves exactly four conditions, one of each type, in this order.
pub set_conditions_types :
    (now : ℕ) (rs : List Resource) (st : ClusterStatus)
    → map (λ c. c.condition_type) (set_conditions now rs st).conditions
      ≡ all_replicas_ready ∷ cluster_available ∷ no_warnings ∷ reconcile_success ∷ []
unfolding set_conditions
set_conditions_types now rs st = rw (replicas_type, available_type, warnings_type, reconciled_type)

-- The conditions that `SetConditions` computes from the old ones.
abbrev computed : ℕ → List Resource → List Condition → List Condition
computed now rs cs =
    all_replicas_ready_condition rs (old_condition all_replicas_ready cs none)
    ∷ cluster_available_condition rs (old_condition cluster_available cs none)
    ∷ no_warnings_condition rs (old_condition no_warnings cs none)
    ∷ reconciled_condition now (old_condition reconcile_success cs none)
    ∷ []

set_conditions_lem :
    (now : ℕ) (rs : List Resource) (st : ClusterStatus)
    → set_conditions now rs st ≡ record st { conditions = computed now rs st.conditions }
unfolding set_conditions
set_conditions_lem now rs st = refl

old_of_four :
    (a b c d : Condition)
    → a.condition_type ≡ all_replicas_ready
    → b.condition_type ≡ cluster_available
    → c.condition_type ≡ no_warnings
    → d.condition_type ≡ reconcile_success
    → let cs = a ∷ b ∷ c ∷ d ∷ [] in
      (old_condition all_replicas_ready cs none ≡ some a)
      × (old_condition cluster_available cs none ≡ some b)
      × (old_condition no_warnings cs none ≡ some c)
      × (old_condition reconcile_success cs none ≡ some d)
unfolding old_condition
old_of_four a b c d ha hb hc hd = ground arith

computed_idem :
    (now later : ℕ) (rs : List Resource) (cs : List Condition)
    → computed later rs (computed now rs cs) ≡ computed now rs cs
computed_idem now later rs cs =
    let a = all_replicas_ready_condition rs (old_condition all_replicas_ready cs none) in
    let b = cluster_available_condition rs (old_condition cluster_available cs none) in
    let c = no_warnings_condition rs (old_condition no_warnings cs none) in
    let d = reconciled_condition now (old_condition reconcile_success cs none) in
    let (ea, eb, ec, ed) =
      old_of_four a b c d (replicas_type rs (old_condition all_replicas_ready cs none))
        (available_type rs (old_condition cluster_available cs none))
        (warnings_type rs (old_condition no_warnings cs none)) (reconciled_type now cs) in
    rw (ea, eb, ec, ed, replicas_again, available_again, warnings_again)
      (unfold reconciled_condition in refl)

-- For the same resources a second `SetConditions`, at any instant, changes nothing.
pub set_conditions_idem :
    (now later : ℕ) (rs : List Resource) (st : ClusterStatus)
    → set_conditions later rs (set_conditions now rs st) ≡ set_conditions now rs st
set_conditions_idem now later rs st = rw (set_conditions_lem now rs st) (
    set_conditions_lem later rs (record st { conditions = computed now rs st.conditions })
    ∙ ap (λ cs. record st { conditions = cs }) (computed_idem now later rs st.conditions))
