-- ===== src/Status/Laws.antt =====
-- What the conditions of the status say, and what an update of them changes.
use rabbitmq_operator.Prelude.{
  ℕ, zero, suc, Option, none, some, List, [], ◌∷◌, ◌++◌, ◌≡◌, ◌≢◌, refl, arith, eqb, if◌then◌else◌,
}
use rabbitmq_operator.Cluster.{Condition, cond_true, cond_false}
use rabbitmq_operator.Kube.{StatefulSet, Endpoints, desired_replicas}
use rabbitmq_operator.Status.{
  Resource, statefulset, endpoints, start_condition, replicas_case, replicas_loop,
  all_replicas_ready_condition, warnings_case, warnings_loop, no_warnings_condition, subsets_loop,
  available_case, available_loop, cluster_available_condition,
}

-- What a loop over the resources never writes.
abbrev pub SameFrame : Condition → Condition → Type 0
SameFrame c d =
    (c.condition_type ≡ d.condition_type) × (c.last_transition_time ≡ d.last_transition_time)

replicas_case-SameFrame : (c : Condition) (s : Option StatefulSet) → SameFrame (replicas_case c s) c
unfolding replicas_case
replicas_case-SameFrame c none = (refl, refl)
replicas_case-SameFrame c (some s) = ground arith

pub replicas_loop-SameFrame :
    (c : Condition) (rs : List Resource) → SameFrame (replicas_loop c rs) c
unfolding replicas_loop
replicas_loop-SameFrame c [] = (refl, refl)
replicas_loop-SameFrame c (statefulset s ∷ rs) =
    ground (arith, replicas_case-SameFrame c s, replicas_loop-SameFrame (replicas_case c s) rs)
replicas_loop-SameFrame c (endpoints e ∷ rs) = replicas_loop-SameFrame c rs

warnings_case-SameFrame : (c : Condition) (s : Option StatefulSet) → SameFrame (warnings_case c s) c
unfolding warnings_case
warnings_case-SameFrame c none = (refl, refl)
warnings_case-SameFrame c (some s) = ground arith

pub warnings_loop-SameFrame :
    (c : Condition) (rs : List Resource) → SameFrame (warnings_loop c rs) c
unfolding warnings_loop
warnings_loop-SameFrame c [] = (refl, refl)
warnings_loop-SameFrame c (statefulset s ∷ rs) =
    ground (arith, warnings_case-SameFrame c s, warnings_loop-SameFrame (warnings_case c s) rs)
warnings_loop-SameFrame c (endpoints e ∷ rs) = warnings_loop-SameFrame c rs

pub subsets_loop-SameFrame : (c : Condition) (ns : List ℕ) → SameFrame (subsets_loop c ns) c
unfolding subsets_loop
subsets_loop-SameFrame c [] = (refl, refl)
subsets_loop-SameFrame c (zero ∷ ns) = subsets_loop-SameFrame c ns
subsets_loop-SameFrame c (suc n ∷ ns) = subsets_loop-SameFrame _ ns

available_case-SameFrame : (c : Condition) (e : Option Endpoints) → SameFrame (available_case c e) c
unfolding available_case
available_case-SameFrame c none = (refl, refl)
available_case-SameFrame c (some e) = subsets_loop-SameFrame c e.subsets

pub available_loop-SameFrame :
    (c : Condition) (rs : List Resource) → SameFrame (available_loop c rs) c
unfolding available_loop
available_loop-SameFrame c [] = (refl, refl)
available_loop-SameFrame c (statefulset s ∷ rs) = available_loop-SameFrame c rs
available_loop-SameFrame c (endpoints e ∷ rs) =
    ground (arith, available_case-SameFrame c e, available_loop-SameFrame (available_case c e) rs)

abbrev time_of : Option Condition → ℕ
time_of none = 0
time_of (some c) = c.last_transition_time

-- Whatever the resources and the old condition: the three computed conditions keep the transition
-- time of the old one (0 if there was none), also where their status changes.
pub transition_time_stuck :
    (rs : List Resource) (old : Option Condition)
    → ((all_replicas_ready_condition rs old).last_transition_time ≡ time_of old)
      × ((no_warnings_condition rs old).last_transition_time ≡ time_of old)
      × ((cluster_available_condition rs old).last_transition_time ≡ time_of old)
unfolding all_replicas_ready_condition no_warnings_condition cluster_available_condition
    start_condition
transition_time_stuck rs none = (
  (replicas_loop-SameFrame _ rs).1,
  (warnings_loop-SameFrame _ rs).1,
  (available_loop-SameFrame _ rs).1,
)
transition_time_stuck rs (some c) = (
  (replicas_loop-SameFrame _ rs).1,
  (warnings_loop-SameFrame _ rs).1,
  (available_loop-SameFrame _ rs).1,
)

available_loop-ne-true :
    (c : Condition) (rs : List Resource)
    → c.status ≢ cond_true
    → (available_loop c rs).status ≢ cond_true
unfolding available_loop available_case
available_loop-ne-true c [] h = h
available_loop-ne-true c (statefulset s ∷ rs) h = available_loop-ne-true c rs h
available_loop-ne-true c (endpoints none ∷ rs) h = available_loop-ne-true _ rs (λ e. cc)
available_loop-ne-true c (endpoints (some e) ∷ rs) h = available_loop-ne-true _ rs (λ q. cc)

-- The condition `ClusterAvailable` is never true, whatever addresses the endpoints have.
pub cluster_available-ne-true :
    (rs : List Resource) (old : Option Condition)
    → (cluster_available_condition rs old).status ≢ cond_true
unfolding cluster_available_condition start_condition
cluster_available-ne-true rs none = available_loop-ne-true _ rs (λ e. cc)
cluster_available-ne-true rs (some c) = available_loop-ne-true _ rs (λ e. cc)

replicas_loop-append :
    (c : Condition) (xs ys : List Resource)
    → replicas_loop c (xs ++ ys) ≡ replicas_loop (replicas_loop c xs) ys
unfolding replicas_loop
replicas_loop-append c [] ys = refl
replicas_loop-append c (statefulset s ∷ xs) ys = replicas_loop-append (replicas_case c s) xs ys
replicas_loop-append c (endpoints e ∷ xs) ys = replicas_loop-append c xs ys

-- Where the list of resources ends with a StatefulSet and the endpoints, as the controller builds it,
-- the condition `AllReplicasReady` is true exactly if that last StatefulSet has all its pods ready,
-- whatever the state of the others.
pub all_replicas_ready_last :
    (others : List Resource) (sts : StatefulSet) (e : Option Endpoints) (old : Option Condition)
    → (all_replicas_ready_condition
        (others ++ statefulset (some sts) ∷ endpoints e ∷ [])
        old).status
      ≡ (if eqb (desired_replicas sts) sts.ready_replicas then cond_true else cond_false)
unfolding all_replicas_ready_condition replicas_case
all_replicas_ready_last others sts e old =
    rw replicas_loop-append (unfold replicas_loop in ground arith)
