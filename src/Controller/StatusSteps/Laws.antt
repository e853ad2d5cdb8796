-- ===== src/Controller/StatusSteps/Laws.antt =====
-- The list of the children, and the status that a run writes.
use rabbitmq_operator.Prelude.{
  ℕ, zero, suc, ◌≤◌, ◌<◌, false, Option, none, some, List, [], ◌∷◌, ◌≡◌, ◌⊎◌, inl, inr, refl, sym,
  ap, subst, ◌∙◌, arith, length, map, ltb, Bool-cases,
}
use rabbitmq_operator.Cluster.{RabbitmqCluster, vault_default_user_secret_enabled}
use rabbitmq_operator.Kube.{StatefulSet, Endpoints}
use rabbitmq_operator.Status.{Resource, statefulset}
use rabbitmq_operator.Controller.StatusSteps.{
  empty_resources, place_items, child_list, raise_replicas, with_references, status_of_run,
}

-- The StatefulSets that exist, the missing ones behind them, and the endpoints.
abbrev pub expected : ℕ → Option Endpoints → List StatefulSet → List Resource
expected n e [] = empty_resources n e
expected zero e (sts ∷ items) = statefulset (some sts) ∷ []
expected (suc n) e (sts ∷ items) = statefulset (some sts) ∷ expected n e items

-- The list of the children has a place for each replica and one for the endpoints. With as many
-- StatefulSets as replicas, or fewer, they take the first places and the endpoints keep theirs. One
-- StatefulSet more takes the place of the endpoints, and with two more, or beyond, the run panics.
pub child_list_cases :
    (n : ℕ) (e : Option Endpoints) (items : List StatefulSet)
    → ((length items ≤ n) × (child_list n e items ≡ some (expected n e items)))
      ⊎ (((length items ≡ suc n)
            × (child_list n e items ≡ some (map (λ sts. statefulset (some sts)) items)))
          ⊎ ((suc n < length items) × (child_list n e items ≡ none)))
unfolding child_list place_items empty_resources
child_list_cases n e [] = inl (omega arith, refl)
child_list_cases zero e (sts ∷ []) = inr (inl (refl, refl))
child_list_cases zero e (sts ∷ t ∷ items) = inr (inr (omega arith, refl))
child_list_cases (suc n) e (sts ∷ items) = elim (child_list_cases n e items) [
  | inl (l, p) ↦ inl (omega arith, simp p)
  | inr (inl (l, p)) ↦ inr (inl (omega arith, simp p))
  | inr (inr (l, p)) ↦ inr (inr (omega arith, simp p))
]

not_ltb : (a b : ℕ) → b ≤ a → ltb a b ≡ false
not_ltb a b h = ground arith

module _ (c : RabbitmqCluster) where
  references_replicas : (with_references c).replicas ≡ c.status.replicas
  unfolding with_references vault_default_user_secret_enabled
  references_replicas = elim (Bool-cases (vault_default_user_secret_enabled c)) [
    | inl v ↦ rw v refl
    | inr v ↦ rw v refl
  ]

  references_again : with_references (record c { status = with_references c }) ≡ with_references c
  unfolding with_references vault_default_user_secret_enabled
  references_again = elim (Bool-cases (vault_default_user_secret_enabled c)) [
    | inl v ↦ rw v refl
    | inr v ↦ rw v refl
  ]

  raised :
      (c.status.replicas ≤ (raise_replicas c).status.replicas)
      × (c.spec.replicas ≤ (raise_replicas c).status.replicas)
  unfolding raise_replicas
  raised = (ground arith, ground arith)

  raise_kept : c.spec.replicas ≤ c.status.replicas → raise_replicas c ≡ c
  unfolding raise_replicas
  raise_kept l = simp (not_ltb c.status.replicas c.spec.replicas l)

-- The status that a run writes never shows fewer replicas than it did, nor fewer than the cluster is
-- to have, and a second run finds nothing to change.
pub status_of_run_settles :
    (c : RabbitmqCluster)
    → (c.status.replicas ≤ (status_of_run c).replicas)
      × (c.spec.replicas ≤ (status_of_run c).replicas)
      × (status_of_run (record c { status = status_of_run c }) ≡ status_of_run c)
unfolding status_of_run
status_of_run_settles c =
    let up = raise_replicas c in
    let kept = sym (references_replicas up) in
    let low = subst (λ n. c.status.replicas ≤ n) kept (raised c).0 in
    let high = subst (λ n. c.spec.replicas ≤ n) kept (raised c).1 in
    (
      low,
      high,
      ap with_references (raise_kept (record c { status = with_references up }) high) ∙ by_raise,
    )
  where
    by_raise :
        with_references (record c { status = with_references (raise_replicas c) })
        ≡ with_references (raise_replicas c)
    by_raise = unfold raise_replicas in references_again (raise_replicas c)
