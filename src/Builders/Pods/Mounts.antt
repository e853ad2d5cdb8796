-- ===== src/Builders/Pods/Mounts.antt =====
-- Every mount of the containers of internal/resource/statefulset.go has a volume.
use rabbitmq_operator.Prelude.{
  ℕ, String, Bool, true, false, not, ◌||◌, Option, none, some, List, [], ◌∷◌, ◌++◌, eqb, ◌==◌, ◌≡◌,
  refl, lookup, ap, ◌∙◌, arith, All, Bool-cases, inl, inr,
}
use rabbitmq_operator.Cluster.{
  RabbitmqCluster, secret_tls_enabled, vault_default_user_secret_enabled,
}
use rabbitmq_operator.Kube.{ok, OwnerReference}
use rabbitmq_operator.Merge.Reference.{position}
use rabbitmq_operator.Builders.Meta.{SetControllerReference}
use rabbitmq_operator.Builders.StatefulSet.{
  claim_name, merge_pvcs, update_claim, disable_block_owner_deletion, persistence_claim,
  persistent_volume_claims, build_statefulset,
}
use rabbitmq_operator.Builders.Pods.{Volume, VolumeMount, ClaimObject}
use rabbitmq_operator.Builders.Pods.Volumes.{
  volume_name, next_volumes, rabbitmq_configuration_is_set, volume_if, volume_tls,
  persistence_volume, server_conf_volume, fixed_volumes,
}
use rabbitmq_operator.Builders.Pods.Containers.{
  rabbitmq_volume_mounts, container_setup, container_user_credential_updater, mount_if,
  optional_mounts, container_rabbitmq, rabbitmq_choices,
}

abbrev present : Option ℕ → Bool
present none = false
present (some _) = true

-- A volume that the pods of the cluster are given, or a claim of the StatefulSet.
unfoldable pub has_volume : List ClaimObject → RabbitmqCluster → String → Bool
unfolding position
has_volume claims c name =
    present (position volume_name name (next_volumes c))
    || present (position claim_name name claims)

abbrev pub Mounted : List ClaimObject → RabbitmqCluster → VolumeMount → Type 0
Mounted claims c m = has_volume claims c m.name ≡ true

in_left :
    (k : String) (xs ys : List Volume)
    → present (position volume_name k xs) ≡ true
    → present (position volume_name k (xs ++ ys)) ≡ true
unfolding position
in_left k [] ys e = absurd (cc e)
in_left k (x ∷ xs) ys e = ground (arith, in_left k xs ys)

in_right :
    (k : String) (xs ys : List Volume)
    → present (position volume_name k ys) ≡ true
    → present (position volume_name k (xs ++ ys)) ≡ true
unfolding position
in_right k [] ys e = e
in_right k (x ∷ xs) ys e = ground (arith, in_right k xs ys)

or_left : (a b : Bool) → a ≡ true → (a || b) ≡ true
or_left a b e = ground arith

or_right : (a b : Bool) → b ≡ true → (a || b) ≡ true
or_right a b e = ground arith

module _ (claims : List ClaimObject) where
  always :
      (c : RabbitmqCluster)
      → (has_volume claims c "pod-info" ≡ true)
        × (has_volume claims c "rabbitmq-log" ≡ true)
        × (has_volume claims c "rabbitmq-plugins" ≡ true)
        × (has_volume claims c "rabbitmq-erlang-cookie" ≡ true)
        × (has_volume claims c "rabbitmq-confd" ≡ true)
        × (has_volume claims c "plugins-conf" ≡ true)
        × (has_volume claims c "erlang-cookie-secret" ≡ true)
  unfolding has_volume next_volumes fixed_volumes
  always c = (refl, refl, refl, refl, refl, refl, refl)

  -- The conditional volumes behind the fixed ones.
  tls_part : RabbitmqCluster → List Volume
  tls_part c = volume_if (secret_tls_enabled c) (volume_tls c)

  storage_part : RabbitmqCluster → List Volume
  storage_part c = volume_if (eqb c.spec.persistence.storage 0) persistence_volume

  conf_part : RabbitmqCluster → List Volume
  conf_part c = volume_if (rabbitmq_configuration_is_set c) (server_conf_volume c)

  next_volumes-parts :
      (c : RabbitmqCluster)
      → next_volumes c ≡ fixed_volumes c ++ (tls_part c ++ (storage_part c ++ conf_part c))
  unfolding next_volumes tls_part storage_part conf_part
  next_volumes-parts c = refl

  has_volume_in :
      (c : RabbitmqCluster) (k : String)
      → present (
          position volume_name k
            (fixed_volumes c ++ (tls_part c ++ (storage_part c ++ conf_part c))))
        ≡ true
      → has_volume claims c k ≡ true
  unfolding has_volume
  has_volume_in c k h =
      or_left _ _ (ap (λ vs. present (position volume_name k vs)) (next_volumes-parts c) ∙ h)

  tls_volume :
      (c : RabbitmqCluster)
      → secret_tls_enabled c ≡ true
      → has_volume claims c "rabbitmq-tls" ≡ true
  unfolding tls_part position volume_tls
  tls_volume c tls =
      let k : String = "rabbitmq-tls" in
      has_volume_in c k (
        in_right k (fixed_volumes c) (tls_part c ++ (storage_part c ++ conf_part c))
          (in_left k (tls_part c) (storage_part c ++ conf_part c) (rw tls refl)))

  conf_volume :
      (c : RabbitmqCluster)
      → rabbitmq_configuration_is_set c ≡ true
      → has_volume claims c "server-conf" ≡ true
  unfolding conf_part position server_conf_volume
  conf_volume c is_set =
      let k : String = "server-conf" in
      has_volume_in c k (
        in_right k (fixed_volumes c) (tls_part c ++ (storage_part c ++ conf_part c)) (
          in_right k (tls_part c) (storage_part c ++ conf_part c)
            (in_right k (storage_part c) (conf_part c) (rw is_set refl))))

  storage_volume :
      (c : RabbitmqCluster)
      → eqb c.spec.persistence.storage 0 ≡ true
      → has_volume claims c "persistence" ≡ true
  unfolding storage_part position
  storage_volume c zero_storage =
      let k : String = "persistence" in
      has_volume_in c k (
        in_right k (fixed_volumes c) (tls_part c ++ (storage_part c ++ conf_part c)) (
          in_right k (tls_part c) (storage_part c ++ conf_part c)
            (in_left k (storage_part c) (conf_part c) (rw zero_storage refl))))

  -- The claims have the one of the data where the storage is not zero.
  abbrev Claimed : RabbitmqCluster → Type 0
  Claimed c =
      eqb c.spec.persistence.storage 0 ≡ false
      → present (position claim_name "persistence" claims) ≡ true

  persistence_found : (c : RabbitmqCluster) → Claimed c → has_volume claims c "persistence" ≡ true
  unfolding has_volume
  persistence_found c claimed = elim (Bool-cases (eqb c.spec.persistence.storage 0)) [
    | inl q ↦ storage_volume c q
    | inr q ↦
        or_right (present (position volume_name "persistence" (next_volumes c)))
          (present (position claim_name "persistence" claims)) (claimed q)
  ]

  All-mount_if :
      (P : VolumeMount → Type 0) (test : Bool) (m : VolumeMount)
      → (test ≡ true → P m)
      → All P (mount_if test m)
  All-mount_if P true m h = (h refl, tt)
  All-mount_if P false m h = tt

  not_empty_set :
      (c : RabbitmqCluster)
      → (not (c.spec.rabbitmq.env_config == "") ≡ true → rabbitmq_configuration_is_set c ≡ true)
        × (not (c.spec.rabbitmq.advanced_config == "") ≡ true
            → rabbitmq_configuration_is_set c ≡ true)
        × (not (c.spec.rabbitmq.erlang_inet_config == "") ≡ true
            → rabbitmq_configuration_is_set c ≡ true)
  unfolding rabbitmq_configuration_is_set
  not_empty_set c = (λ e. ground arith, λ e. ground arith, λ e. ground arith)

  -- Each mount of the list is there only where its condition makes its volume.
  abbrev Backed : RabbitmqCluster → List (Bool × VolumeMount) → Type 0
  Backed c [] = Unit
  Backed c ((test, m) ∷ rest) = (test ≡ true → Mounted claims c m) × Backed c rest

  optional_mounts-Mounted :
      (c : RabbitmqCluster) (choices : List (Bool × VolumeMount))
      → Backed c choices
      → All (Mounted claims c) (optional_mounts choices)
  unfolding optional_mounts
  optional_mounts-Mounted c [] b = tt
  optional_mounts-Mounted c ((true, m) ∷ rest) (h, b) = (h refl, optional_mounts-Mounted c rest b)
  optional_mounts-Mounted c ((false, m) ∷ rest) (h, b) = optional_mounts-Mounted c rest b

  rabbitmq_volume_mounts-Mounted :
      (c : RabbitmqCluster) → Claimed c → All (Mounted claims c) (rabbitmq_volume_mounts c)
  unfolding rabbitmq_volume_mounts rabbitmq_choices
  rabbitmq_volume_mounts-Mounted c claimed =
      let (pod, log, plugins, cookie, confd, conf, secret) = always c in
      let (env, advanced, inet) = not_empty_set c in
      (
        pod,
        (
          log,
          (
            plugins,
            (
              cookie,
              (
                persistence_found c claimed,
                (
                  confd,
                  (
                    confd,
                    optional_mounts-Mounted c (rabbitmq_choices c) (
                      tls_volume c,
                      (
                        λ _. confd,
                        (
                          λ e. conf_volume c (env e),
                          (λ e. conf_volume c (advanced e), (λ e. conf_volume c (inet e), tt)),
                        ),
                      ),
                    ),
                  ),
                ),
              ),
            ),
          ),
        ),
      )

  setup_mounts-Mounted :
      (c : RabbitmqCluster) → Claimed c → All (Mounted claims c) (container_setup c).volume_mounts
  unfolding container_setup
  setup_mounts-Mounted c claimed =
      let (pod, log, plugins, cookie, confd, conf, secret) = always c in
      (
        persistence_found c claimed,
        (
          conf,
          (
            plugins,
            (
              secret,
              (
                cookie,
                All-mount_if (Mounted claims c) (not (vault_default_user_secret_enabled c)) _
                    (λ _. confd),
              ),
            ),
          ),
        ),
      )

-- A StatefulSet that is built for storage claims it.
build_statefulset-claims :
    (c : RabbitmqCluster) (set : SetControllerReference) (index : ℕ) {owners : List OwnerReference}
    → set c (persistence_claim c).meta ≡ ok owners
    → Claimed (build_statefulset c set index).spec.volume_claim_templates c
unfolding build_statefulset persistent_volume_claims merge_pvcs update_claim
    disable_block_owner_deletion persistence_claim position lookup
build_statefulset-claims c set index owned some_storage = rw some_storage (rw owned refl)

-- Where the owner of the claim is set without an error: every mount of the RabbitMQ container, of the
-- set-up container and of the container that updates the credentials, of any image, names a volume that
-- the pods are given, or a claim of the StatefulSet that is built. An override is not applied here.
pub mounts-Mounted :
    (c : RabbitmqCluster) (set : SetControllerReference) (index : ℕ) (image : String)
    (owners : List OwnerReference)
    → set c (persistence_claim c).meta ≡ ok owners
    → let claims = (build_statefulset c set index).spec.volume_claim_templates in
      All (Mounted claims c) (container_rabbitmq c).volume_mounts
      × All (Mounted claims c) (container_setup c).volume_mounts
      × All (Mounted claims c) (container_user_credential_updater c image).volume_mounts
unfolding container_rabbitmq container_user_credential_updater
mounts-Mounted c set index image owners owned =
    let claims = (build_statefulset c set index).spec.volume_claim_templates in
    let claimed = build_statefulset-claims c set index owned in
    (
      rabbitmq_volume_mounts-Mounted claims c claimed,
      setup_mounts-Mounted claims c claimed,
      (
        (always claims c).3,
        All-mount_if claims (Mounted claims c) (secret_tls_enabled c) _ (tls_volume claims c),
      ),
    )
