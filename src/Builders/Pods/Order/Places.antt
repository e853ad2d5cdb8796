-- ===== src/Builders/Pods/Order/Places.antt =====
-- Where the passes of internal/resource/utils.go put the variables that others refer to.
use rabbitmq_operator.Prelude.{
  ℕ, zero, suc, ◌+◌, ◌<◌, ◌≤◌, ◌≡◌, refl, ap, ◌∙◌, Bool, Option, some, none, List, [], ◌∷◌, ◌++◌,
  length, get_elem?, All, arith, inl, inr, Option-cases, subst,
}
use rabbitmq_operator.Cluster.{RabbitmqCluster, child_resource_name}
use rabbitmq_operator.Builders.Pods.{EnvVar, value, field_ref}
use rabbitmq_operator.Builders.Pods.Containers.{envs}
use rabbitmq_operator.Builders.Pods.Order.{
  set_elem, swap, swap_pass, env_var_place, sort_env_var, count, count-swap_pass,
}

module _ {ℓ} {A : Type ℓ} where
  get_elem?_in : (l : List A) (i : ℕ) → i < length l → (a : A) × (get_elem? l i ≡ some a)
  get_elem?_in [] i h = absurd (omega arith)
  get_elem?_in (x ∷ l) zero h = (x, refl)
  get_elem?_in (x ∷ l) (suc i) h = get_elem?_in l i (omega arith)

  length-set_elem : (i : ℕ) (x : A) (l : List A) → length (set_elem i x l) ≡ length l
  unfolding set_elem
  length-set_elem i x [] = refl
  length-set_elem zero x (y ∷ l) = refl
  length-set_elem (suc i) x (y ∷ l) = ap suc (length-set_elem i x l)

  swap_in :
      (i j : ℕ) (l : List A)
      → i < length l
      → j < length l
      → (m : List A) × (swap i j l ≡ some m) × (length m ≡ length l)
  unfolding swap
  swap_in i j l h k =
      let (a, p) = get_elem?_in l i h in
      let (b, q) = get_elem?_in l j k in
      (
        set_elem j a (set_elem i b l),
        rw (swap, p, q) refl,
        length-set_elem j a (set_elem i b l) ∙ length-set_elem i b l,
      )

  get_elem?_out : (l : List A) (i : ℕ) {a : A} → get_elem? l i ≡ some a → i < length l
  get_elem?_out [] i e = absurd (cc e)
  get_elem?_out (x ∷ l) zero e = omega arith
  get_elem?_out (x ∷ l) (suc i) e = omega (arith, get_elem?_out l i e)

  -- A pass whose places exist does not panic.
  swap_pass_in :
      (target : A → Option ℕ) (bound n i : ℕ) (l : List A)
      → ((a : A) (p : ℕ) → target a ≡ some p → p < bound)
      → bound ≤ length l
      → (m : List A) × (swap_pass target n i l ≡ some m)
  unfolding swap_pass
  swap_pass_in target bound zero i l small h = (l, refl)
  swap_pass_in target bound (suc n) i l small h = elim (Option-cases (get_elem? l i)) [
    | inl p ↦ rw (swap_pass, p) (swap_pass_in target bound n (i + 1) l small h)
    | inr (x, p) ↦ elim (Option-cases (target x)) [
      | inl q ↦ rw (swap_pass, p, q) (swap_pass_in target bound n (i + 1) l small h)
      | inr (place, q) ↦
          (let near = small x place q in
            let (m, s, len) = swap_in place i l (omega arith) (get_elem?_out l i p) in
            rw (swap_pass, p, q, s) (swap_pass_in target bound n (i + 1) m small (omega arith)))
    ]
  ]

env_var_place_small : (e : EnvVar) (p : ℕ) → env_var_place e ≡ some p → p < 3
unfolding env_var_place
env_var_place_small e p h = ground arith

-- A list of three variables at least is sorted without a panic, and the sorted list has the same
-- variables, each as often.
pub sort_env_var-count :
    (l : List EnvVar)
    → 3 ≤ length l
    → (m : List EnvVar) × (sort_env_var l ≡ some m)
      × ((is_it : EnvVar → Bool) → count is_it m ≡ count is_it l)
unfolding sort_env_var
sort_env_var-count l h =
    let (m, e) = swap_pass_in env_var_place 3 (length l) 0 l env_var_place_small h in
    (m, e, λ is_it. count-swap_pass is_it env_var_place (length l) 0 l m e)

swap_pass_skip {ℓ} :
    {A : Type ℓ} (target : A → Option ℕ) (n i : ℕ) (l : List A) (x : A)
    → get_elem? l i ≡ some x
    → target x ≡ none
    → swap_pass target (suc n) i l ≡ swap_pass target n (i + 1) l
unfolding swap_pass
swap_pass_skip target n i l x p q = rw (swap_pass, p, q) refl

-- No place is given to what stands from `i` on.
swap_pass_rest {ℓ} :
    {A : Type ℓ} (target : A → Option ℕ) (n i : ℕ) (l : List A)
    → ((j : ℕ) (a : A) → i ≤ j → get_elem? l j ≡ some a → target a ≡ none)
    → swap_pass target n i l ≡ some l
unfolding swap_pass
swap_pass_rest target zero i l free = refl
swap_pass_rest target (suc n) i l free = elim (Option-cases (get_elem? l i)) [
  | inl p ↦ rw (swap_pass, p) (swap_pass_rest target n (i + 1) l (λ j a h. free j a (omega arith)))
  | inr (x, p) ↦
      rw (swap_pass, p, free i x (omega arith) p)
        (swap_pass_rest target n (i + 1) l (λ j a h. free j a (omega arith)))
]

-- The three variables.
abbrev pub pod_name_var : EnvVar
pod_name_var = record { name = "MY_POD_NAME"; source = field_ref "metadata.name" }

abbrev pub pod_namespace_var : EnvVar
pod_namespace_var = record { name = "MY_POD_NAMESPACE"; source = field_ref "metadata.namespace" }

abbrev pub service_name_var : RabbitmqCluster → EnvVar
service_name_var c = record {
  name = "K8S_SERVICE_NAME";
  source = value (child_resource_name c "nodes");
}

some_inj {ℓ} : {A : Type ℓ} {a b : A} → some a ≡ some b → a ≡ b
some_inj e = cc e

get_elem?_All {ℓ κ} :
    {A : Type ℓ} (P : A → Type κ) (l : List A) (i : ℕ) (a : A)
    → All P l
    → get_elem? l i ≡ some a
    → P a
get_elem?_All P [] i a h e = absurd (cc e)
get_elem?_All P (x ∷ l) zero a (h, hs) e = subst P (some_inj e) h
get_elem?_All P (x ∷ l) (suc i) a (h, hs) e = get_elem?_All P l i a hs e

-- The rest of a list behind three or four elements.
free_behind :
    (front rest : List EnvVar) (k : ℕ)
    → All (λ e. env_var_place e ≡ none) rest
    → length front ≡ k
    → (j : ℕ) (a : EnvVar) → k ≤ j
    → get_elem? (front ++ rest) j ≡ some a
    → env_var_place a ≡ none
free_behind [] rest k free h j a le e = get_elem?_All (λ e. env_var_place e ≡ none) rest j a free e
free_behind (x ∷ front) rest k free h zero a le e = absurd (omega arith)
free_behind (x ∷ front) rest zero free h (suc j) a le e = absurd (omega arith)
free_behind (x ∷ front) rest (suc k) free h (suc j) a le e =
    free_behind front rest k free (omega arith) j a (omega arith) e

-- The variables that the operator lists, with others behind them that have no place of their own: the
-- pass puts the name of the pod first, its namespace second and the service third.
pub sort_env_var-envs :
    (c : RabbitmqCluster) (rest : List EnvVar)
    → All (λ e. env_var_place e ≡ none) rest
    → sort_env_var (envs c ++ rest)
      ≡ some (pod_name_var ∷ pod_namespace_var ∷ service_name_var c ∷ rest)
unfolding sort_env_var envs swap_pass swap set_elem env_var_place
sort_env_var-envs c rest free =
    let front = pod_name_var ∷ pod_namespace_var ∷ service_name_var c ∷ [] in
    swap_pass_rest env_var_place (length rest) 3 (front ++ rest)
      (free_behind front rest 3 free refl)

-- With one variable of another name in front of the three, and only others behind them, the pass does not
-- put the name of the pod first: it ends behind the service, which stands behind the namespace.
pub sort_env_var-behind :
    (c : RabbitmqCluster) (x : EnvVar) (rest : List EnvVar)
    → env_var_place x ≡ none
    → All (λ e. env_var_place e ≡ none) rest
    → sort_env_var (x ∷ envs c ++ rest)
      ≡ some (x ∷ pod_namespace_var ∷ service_name_var c ∷ pod_name_var ∷ rest)
unfolding sort_env_var envs swap_pass swap set_elem env_var_place
sort_env_var-behind c x rest none_here free =
    let front = x ∷ pod_namespace_var ∷ service_name_var c ∷ pod_name_var ∷ [] in
    swap_pass_skip env_var_place (length (envs c ++ rest)) 0 (x ∷ envs c ++ rest) x refl none_here
    ∙ swap_pass_rest env_var_place (length rest) 4 (front ++ rest)
        (free_behind front rest 4 free refl)
