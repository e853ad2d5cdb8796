-- ===== src/Builders/Catalogue/Laws.antt =====
-- The list of builders of internal/resource/rabbitmq_resource_builder.go.
use rabbitmq_operator.Prelude.{
  ℕ, zero, suc, ◌+◌, ◌<◌, Bool, true, false, not, ◌||◌, some, List, [], ◌∷◌, ◌++◌, length,
  length-append, get_elem?, ◌≡◌, ap, ◌∙◌, Bool-cases, inl, inr, refl, arith, if◌then◌else◌,
}
use rabbitmq_operator.Cluster.{
  RabbitmqCluster, vault_default_user_secret_enabled, external_secret_enabled,
}
use rabbitmq_operator.Builders.Catalogue.{
  ChildBuilder, headless_service, service, erlang_cookie, default_user_secret, plugins_config_map,
  server_config_map, service_account, role, role_binding, statefulset, statefulset_builders,
  remove_at, resource_builders,
}

get_elem?-append {ℓ} :
    {A : Type ℓ} (xs ys : List A) (i j : ℕ)
    → j ≡ length xs + i
    → get_elem? (xs ++ ys) j ≡ get_elem? ys i
get_elem?-append [] ys i j e = ap (get_elem? ys) (e ∙ omega arith)
get_elem?-append (x ∷ xs) ys i zero e = absurd (omega arith)
get_elem?-append (x ∷ xs) ys i (suc j) e = get_elem?-append xs ys i j (omega arith)

get_elem?-statefulset_builders :
    (n i j : ℕ) → j < n → get_elem? (statefulset_builders n i) j ≡ some (statefulset (i + j))
unfolding statefulset_builders
get_elem?-statefulset_builders zero i j h = absurd (omega arith)
get_elem?-statefulset_builders (suc n) i zero h = ap (λ k. some (statefulset k)) (omega arith)
get_elem?-statefulset_builders (suc n) i (suc j) h =
    get_elem?-statefulset_builders n (i + 1) j (omega arith)
    ∙ ap (λ k. some (statefulset k)) (omega arith)

length-statefulset_builders : (n i : ℕ) → length (statefulset_builders n i) ≡ n
unfolding statefulset_builders
length-statefulset_builders zero i = refl
length-statefulset_builders (suc n) i = ap suc (length-statefulset_builders n (i + 1))

-- The children that are not StatefulSets.
abbrev others : Bool → List ChildBuilder
others true =
    headless_service ∷ service ∷ erlang_cookie ∷ plugins_config_map ∷ server_config_map
    ∷ service_account ∷ role ∷ role_binding ∷ []
others false =
    headless_service ∷ service ∷ erlang_cookie ∷ default_user_secret ∷ plugins_config_map
    ∷ server_config_map ∷ service_account ∷ role ∷ role_binding ∷ []

resource_builders-append :
    (c : RabbitmqCluster) (n : ℕ)
    → resource_builders c n
      ≡ others (vault_default_user_secret_enabled c || external_secret_enabled c)
        ++ statefulset_builders n 0
unfolding resource_builders remove_at
resource_builders-append c n =
    elim (Bool-cases (vault_default_user_secret_enabled c || external_secret_enabled c)) [
      | inl q ↦ rw q refl
      | inr q ↦ rw q refl
    ]

-- Whether the list has the builder of the secret of the default user.
abbrev pub has_default_user_secret : List ChildBuilder → Bool
has_default_user_secret [] = false
has_default_user_secret (default_user_secret ∷ builders) = true
has_default_user_secret (_ ∷ builders) = has_default_user_secret builders

has_default_user_secret-statefulset_builders :
    (n i : ℕ) → has_default_user_secret (statefulset_builders n i) ≡ false
unfolding statefulset_builders
has_default_user_secret-statefulset_builders zero i = refl
has_default_user_secret-statefulset_builders (suc n) i =
    has_default_user_secret-statefulset_builders n (i + 1)

abbrev pub others_count : RabbitmqCluster → ℕ
others_count c = if vault_default_user_secret_enabled c || external_secret_enabled c then 8 else 9

-- The builder of the StatefulSet of each replica stands behind all the others, in the order of the
-- replicas, and nothing stands behind the last one.
pub resource_builders_statefulset :
    (c : RabbitmqCluster) (n i : ℕ)
    → i < n
    → (get_elem? (resource_builders c n) (others_count c + i) ≡ some (statefulset i))
      × (length (resource_builders c n) ≡ others_count c + n)
resource_builders_statefulset c n i h =
    rw (resource_builders-append c n)
      (elim (Bool-cases (vault_default_user_secret_enabled c || external_secret_enabled c)) [
        | inl q ↦ rw q (at 8 true refl)
        | inr q ↦ rw q (at 9 false refl)
      ])
  where
    at :
        (k : ℕ) (b : Bool)
        → length (others b) ≡ k
        → (get_elem? (others b ++ statefulset_builders n 0) (k + i) ≡ some (statefulset i))
          × (length (others b ++ statefulset_builders n 0) ≡ k + n)
    at k b e = (
      get_elem?-append (others b) (statefulset_builders n 0) i (k + i) (omega arith)
          ∙ get_elem?-statefulset_builders n 0 i h
          ∙ ap (λ j. some (statefulset j)) (omega arith),
      length-append (others b) (statefulset_builders n 0)
          ∙ omega (arith, length-statefulset_builders n 0),
    )

-- The secret of the default user is among the children exactly where neither Vault nor an external
-- secret provides it.
pub resource_builders_default_user :
    (c : RabbitmqCluster) (n : ℕ)
    → has_default_user_secret (resource_builders c n)
      ≡ not (vault_default_user_secret_enabled c || external_secret_enabled c)
resource_builders_default_user c n =
    rw (resource_builders-append c n)
      (elim (Bool-cases (vault_default_user_secret_enabled c || external_secret_enabled c)) [
        | inl q ↦ rw q (has_default_user_secret-statefulset_builders n 0)
        | inr q ↦ rw q refl
      ])
