-- ===== src/Builders/Steady.antt =====
-- A second `Update` of the small children of internal/resource: headless_service.go, erlang_cookie.go, default_user_secret.go,
-- rabbitmq_plugins.go,
-- service_account.go, role.go and role_binding.go.
use rabbitmq_operator.Prelude.{
  Option, none, some, Map, Option-cases, true, [], ◌∷◌, insert_again, inl, inr, List, ◌≡◌, refl, ap,
  subst, String, ◌∙◌,
}
use rabbitmq_operator.Kube.{Outcome, Outcome-cases, ok}
use rabbitmq_operator.Cluster.{RabbitmqCluster}
use rabbitmq_operator.Metadata.{label_selector}
use rabbitmq_operator.Metadata.Steady.{IsMap, reconcile_and_filter_annotations_again}
use rabbitmq_operator.Builders.Meta.{
  IsSteady, ObjectMeta, ◌>>=◌, wrap_error, bind_passed, wrap_passed, ok_injective,
  SetControllerReference, update_meta, with_controller,
}
use rabbitmq_operator.Ports.{ServicePort, headless_service_ports, epmd_port, rpc_port}
use rabbitmq_operator.Ports.Names.{port_name}
use rabbitmq_operator.Merge.{merge_service_ports, update_port}
use rabbitmq_operator.Merge.Reference.{IsUnique, position}
use rabbitmq_operator.Merge.Settles.{merge_by_settles}
use rabbitmq_operator.Builders.Services.{ServiceObject, headless_ports, update_headless_service}
use rabbitmq_operator.Builders.Services.Laws.{update_port_keeps}
use rabbitmq_operator.Builders.Secrets.Laws.{entries_of}
use rabbitmq_operator.Builders.Secrets.{
  SecretObject, update_erlang_cookie, update_default_user_secret,
}
use rabbitmq_operator.Builders.Secrets.Settles.{entries_of_settled}
use rabbitmq_operator.Builders.Access.{
  update_role, update_role_binding, update_service_account, update_plugins_config_map,
  desired_plugins_as_string,
}

-- A second update, of what the first one leaves, has the same result.
abbrev pub SettlesAt : {A : Type 0} → (A → Outcome A) → A → Type 0
SettlesAt update a = (update a >>= update) ≡ update a

abbrev pub Settles : {A : Type 0} → (A → Outcome A) → Type 0
Settles {A} update = (a : A) → SettlesAt update a

-- The same of an update that may panic, which stays a panic.
abbrev pub again_unless : {A : Type 0} → (A → Outcome (Option A)) → Option A → Outcome (Option A)
again_unless update none = ok none
again_unless update (some b) = update b

abbrev pub SettlesUnlessPanic : {A : Type 0} → (A → Outcome (Option A)) → Type 0
SettlesUnlessPanic {A} update = (a : A) → (update a >>= again_unless update) ≡ update a

again-SettlesAt :
    {A : Type 0} (update : A → Outcome A) (a : A)
    → ((b : A) → update a ≡ ok b → update b ≡ ok b)
    → SettlesAt update a
again-SettlesAt update a again = elim (Outcome-cases (update a)) [
  | inl (e, q) ↦ rw q refl
  | inr (b, q) ↦ rw q (again b q)
]

module _ (set : SetControllerReference) (steady : IsSteady set) (c : RabbitmqCluster)
    (unique : IsMap c.annotations) where
  pub meta_again :
      (m n : ObjectMeta)
      → with_controller set c (update_meta c m) ≡ ok n
      → with_controller set c (update_meta c n) ≡ ok n
  unfolding with_controller update_meta
  meta_again m n e = bind_passed (wrap_error _ (set c (update_meta c m))) _ e λ owners p q.
      let z : ObjectMeta = record (update_meta c m) { owner_references = owners } in
      subst (λ n. with_controller set c (update_meta c n) ≡ ok n) (ok_injective q)
        (rw (reconcile_and_filter_annotations_again m.annotations c.annotations unique)
          (rw (steady c (update_meta c m) z owners (wrap_passed _ _ p) refl refl) refl))

  -- An update that writes the metadata and more.
  module _ {A : Type 0} (meta : A → ObjectMeta) (put : A → ObjectMeta → A)
      (meta-put : (a : A) (m : ObjectMeta) → meta (put a m) ≡ m) where
    abbrev update : A → Outcome A
    update a = with_controller set c (update_meta c (meta a)) >>= λ m. ok (put a m)

    put-SettlesAt : (a : A) → ((m : ObjectMeta) → put (put a m) m ≡ put a m) → SettlesAt update a
    put-SettlesAt a put-put = again-SettlesAt update a λ b e.
        bind_passed (with_controller set c (update_meta c (meta a))) _ e λ m p q.
          subst (λ b. update b ≡ ok b) (ok_injective q)
            (rw (meta-put a m) (rw (meta_again (meta a) m p) (ap ok (put-put m))))

    put-Settles : ((a : A) (m : ObjectMeta) → put (put a m) m ≡ put a m) → Settles update
    put-Settles put-put a = put-SettlesAt a (put-put a)

  headless_ports_settles :
      (curr : List ServicePort)
      → IsUnique port_name curr
      → headless_ports set c (headless_ports set c curr) ≡ headless_ports set c curr
  unfolding headless_ports merge_service_ports headless_service_ports update_port position
  headless_ports_settles curr u =
      merge_by_settles port_name update_port update_port_keeps (λ a b. refl) (λ b. refl) curr
        (epmd_port ∷ rpc_port ∷ []) u (refl, (refl, tt))

  -- What the headless service has beside its metadata.
  abbrev with_ports : ServiceObject → List ServicePort → ServiceObject
  with_ports service ports = record service {
    spec = record {
      ports = ports;
      selector = label_selector c.name;
      service_type = "ClusterIP";
      cluster_ip = "None";
      session_affinity = "None";
      publish_not_ready_addresses = true;
    };
  }

  update_headless_service-SettlesAt :
      (service : ServiceObject)
      → IsUnique port_name service.spec.ports
      → SettlesAt (update_headless_service set c) service
  unfolding update_headless_service
  update_headless_service-SettlesAt service u =
      put-SettlesAt (λ a. a.meta)
        (λ a m. with_ports (record a { meta = m }) (headless_ports set c a.spec.ports))
        (λ a m. refl) service
        (λ m.
          ap (λ ports. with_ports (record service { meta = m }) ports)
            (headless_ports_settles service.spec.ports u))

  user_again :
      (m : ObjectMeta) (found : Option (Map String)) (b : SecretObject)
      → update_default_user_secret set c (record { meta = m; entries = found }) ≡ ok (some b)
      → update_default_user_secret set c b ≡ ok (some b)
  unfolding update_default_user_secret
  user_again m none b e = absurd (cc (ok_injective e))
  user_again m (some entries) b e =
      bind_passed (with_controller set c (update_meta c m)) _ e λ meta p q.
        let written : SecretObject = record {
          meta = meta;
          entries = some (entries_of c entries);
        } in
        let same : written ≡ b = cc (ok_injective q) in
        subst (λ z. update_default_user_secret set c z ≡ ok (some z)) same
          (rw (meta_again m meta p) (
            ap (λ x. ok (some (record { meta = meta; entries = some x })))
              (entries_of_settled c entries)))

  user-SettlesUnlessPanic : SettlesUnlessPanic (update_default_user_secret set c)
  user-SettlesUnlessPanic a = elim (Outcome-cases (update_default_user_secret set c a)) [
    | inl (e, q) ↦ rw q refl
    | inr (r, q) ↦ elim (Option-cases r) [
      | inl n ↦ rw (q, n) refl
      | inr (b, n) ↦ rw (q, n) (user_again a.meta a.entries b (q ∙ ap ok n))
    ]
  ]

  -- Given that setting an owner twice leaves the owners, and that the annotations of the cluster have one
  -- entry for each key: what the update of the cookie, of the secret of the default user, of the
  -- config map of the plugins, of the service account, of the role and of the role binding leaves, and
  -- that of the headless service leaves of a service whose ports have distinct names, a second update
  -- leaves as it is, and an error or a panic stays the same.
  pub updates_settle :
      (service : ServiceObject)
      → IsUnique port_name service.spec.ports
      → Settles (update_erlang_cookie set c)
        × SettlesUnlessPanic (update_default_user_secret set c)
        × Settles (update_plugins_config_map set c)
        × Settles (update_service_account set c)
        × Settles (update_role set c)
        × Settles (update_role_binding set c)
        × SettlesAt (update_headless_service set c) service
  unfolding update_erlang_cookie update_plugins_config_map update_service_account update_role
      update_role_binding
  updates_settle service u = (
    put-Settles (λ a. a.meta) (λ a m. record a { meta = m }) (λ a m. refl) (λ a m. refl),
    user-SettlesUnlessPanic,
    put-Settles (λ a. a.meta) _ (λ a m. refl)
        (λ a m.
          ap (λ entries. record { meta = m; entries = entries })
            (insert_again "enabled_plugins"
              (desired_plugins_as_string c.spec.rabbitmq.additional_plugins) a.entries)),
    put-Settles (λ a. a.meta) _ (λ a m. refl) (λ a m. refl),
    put-Settles (λ a. a.meta) _ (λ a m. refl) (λ a m. refl),
    put-Settles (λ a. a.meta) _ (λ a m. refl) (λ a m. refl),
    update_headless_service-SettlesAt service u,
  )
