-- ===== src/Controller/Guards/Laws.antt =====
-- When the early steps of the loop stop it, and what is known where they let it go on.
use mathlib.Core.List.{append-nil}
use rabbitmq_operator.Prelude.{
  ℕ, ◌≤◌, ◌<◌, String, Bool, true, false, ◌||◌, Option, none, some, List, [], ◌∷◌, ◌++◌, ◌≡◌, ◌⊎◌,
  inl, inr, refl, sym, ap, ◌∙◌, arith, leb, leb→le, ◌==◌, if◌then◌else◌, itoa, ◌<>◌, Bool-cases,
  Option-cases,
}
use rabbitmq_operator.Cluster.{RabbitmqCluster, VaultSpec}
use rabbitmq_operator.Kube.{Error}
use rabbitmq_operator.Result.{continue_reconcile, done, error_out, completed}
use rabbitmq_operator.Server.{
  Server, State, warning, set_cluster_condition, ◌>>=◌, pure, call, gets, modify_rmq, event,
  on_error, record_event,
}
use rabbitmq_operator.Controller.Guards.{
  Defaults, Change, is_unset, pull_secrets, default_image, default_updater_image,
  default_pull_secrets, with_defaults, reconcile_scale_down, reconcile_operator_defaults,
  update_rabbitmq_cluster,
}

List-cases : (l : List String) → (l ≡ []) ⊎ ((x : String) × (xs : List String) × (l ≡ x ∷ xs))
List-cases [] = inl refl
List-cases (x ∷ xs) = inr (x, xs, refl)

abbrev unset : Option String → Bool
unset none = true
unset (some _) = false

-- The updater image of a Vault is still missing.
abbrev updater_missing : Option VaultSpec → Bool
updater_missing none = false
updater_missing (some v) = unset v.default_user_updater_image

module _ (d : Defaults) (c : RabbitmqCluster) (ts : List String) where
  image_done :
      d.control_rabbitmq_image ≡ false
      → (c.spec.image == "") ≡ false
      → default_image d (c, ts) ≡ (c, ts)
  unfolding default_image
  image_done h g = simp (h, g)

  image_after :
      (d.rabbitmq_image == "") ≡ false → ((default_image d (c, ts)).0.spec.image == "") ≡ false
  unfolding default_image
  image_after g = elim (Bool-cases d.control_rabbitmq_image) [
    | inl q ↦ rw q g
    | inr q ↦ (elim (Bool-cases (c.spec.image == "")) [
      | inl e ↦ rw q (rw e g)
      | inr e ↦ rw q (rw e e)
    ])
  ]

  updater_done :
      d.control_rabbitmq_image ≡ false
      → updater_missing c.spec.secret_backend.vault ≡ false
      → default_updater_image d (c, ts) ≡ (c, ts)
  unfolding default_updater_image
  updater_done h g = elim (Option-cases c.spec.secret_backend.vault) [
    | inl q ↦ simp q
    | inr (v, q) ↦ (elim (Option-cases v.default_user_updater_image) [
      | inl u ↦ absurd (contradiction (sym (ap unset u) ∙ sym (ap updater_missing q) ∙ g))
      | inr (i, u) ↦ simp (q, h, u)
    ])
  ]
    where
      contradiction : true ≡ false → ⊥
      contradiction e = cc

  updater_after :
      d.control_rabbitmq_image ≡ false
      → (updater_missing (default_updater_image d (c, ts)).0.spec.secret_backend.vault ≡ false)
        × ((default_updater_image d (c, ts)).0.spec.image ≡ c.spec.image)
  unfolding default_updater_image
  updater_after h = elim (Option-cases c.spec.secret_backend.vault) [
    | inl q ↦ rw q (refl, refl)
    | inr (v, q) ↦ (elim (Option-cases v.default_user_updater_image) [
      | inl u ↦ rw q (rw h (rw u (refl, refl)))
      | inr (i, u) ↦ rw q (rw h (rw u (refl, refl)))
    ])
  ]

  secrets_after :
      (default_pull_secrets d ((default_pull_secrets d (c, ts)).0, [])
        ≡ ((default_pull_secrets d (c, ts)).0, []))
      × ((default_pull_secrets d (c, ts)).0.spec.image ≡ c.spec.image)
      × ((default_pull_secrets d (c, ts)).0.spec.secret_backend ≡ c.spec.secret_backend)
  unfolding default_pull_secrets
  secrets_after = elim (Option-cases c.spec.image_pull_secrets) [
    | inl q ↦ (elim (List-cases (pull_secrets d.split_pull_secrets)) [
      | inl e ↦ rw q (rw e (rw e refl, refl, refl))
      | inr (x, xs, e) ↦ rw q (rw e (refl, refl, refl))
    ])
    | inr (v, q) ↦ rw q (refl, refl, refl)
  ]

  image_first : d.control_rabbitmq_image ≡ true → (default_image d (c, [])).1 ≡ " image " ∷ []
  unfolding default_image
  image_first h = simp h

  -- The two other defaults only add to the types of the update.
  updater_types : (us : List String) × ((default_updater_image d (c, ts)).1 ≡ ts ++ us)
  unfolding default_updater_image
  updater_types = elim (Option-cases c.spec.secret_backend.vault) [
    | inl q ↦ rw q ([], sym (append-nil ts))
    | inr (v, q) ↦
        rw q (either _ _ (d.control_rabbitmq_image || is_unset d v.default_user_updater_image))
  ]
    where
      either :
          (x y : RabbitmqCluster) (b : Bool)
          → (us : List String) × ((if◌then◌else◌ {A = Change} b
                (x, ts ++ " vaultDefaultUserUpdaterImage " ∷ [])
                (y, ts)).1
              ≡ ts ++ us)
      either x y true = (_, refl)
      either x y false = ([], sym (append-nil ts))

  secrets_types : (us : List String) × ((default_pull_secrets d (c, ts)).1 ≡ ts ++ us)
  unfolding default_pull_secrets
  secrets_types = elim (Option-cases c.spec.image_pull_secrets) [
    | inl q ↦ rw q (_, refl)
    | inr (v, q) ↦ rw q ([], sym (append-nil ts))
  ]

-- Where the operator does not control the image and has a default one, the defaults settle: a
-- cluster that has got them once gets nothing more.
pub with_defaults_settles :
    (d : Defaults) (c : RabbitmqCluster)
    → d.control_rabbitmq_image ≡ false
    → (d.rabbitmq_image == "") ≡ false
    → with_defaults d (with_defaults d c).0 ≡ ((with_defaults d c).0, [])
unfolding with_defaults
with_defaults_settles d c h g =
    let i = default_image d (c, []) in
    let u = default_updater_image d i in
    let x = (default_pull_secrets d u).0 in
    let (again, same_image, same_backend) = secrets_after d u.0 u.1 in
    let (set, image_kept) = updater_after d i.0 i.1 h in
    let image_set = ap (λ t. t == "") (same_image ∙ image_kept) ∙ image_after d c [] g in
    let updater_set = ap (λ b. updater_missing b.vault) same_backend ∙ set in
    ap (λ r. default_pull_secrets d (default_updater_image d r)) (image_done d x [] h image_set)
    ∙ ap (default_pull_secrets d) (updater_done d x [] h updater_set)
    ∙ again

error_or_done_completes :
    (r : Option Error) (s : State)
    → completed (on_error r (λ e. pure (error_out e)) (pure done) s).0 ≡ true
unfolding on_error pure completed
error_or_done_completes none s = refl
error_or_done_completes (some e) s = refl

update_completes :
    (server : Server) (s : State) → completed (update_rabbitmq_cluster server s).0 ≡ true
unfolding update_rabbitmq_cluster ◌>>=◌
update_completes server s = error_or_done_completes _ _

stops_with :
    (server : Server) (d : Defaults) (s : State) (ts : List String)
    → (with_defaults d s.rmq).1 ≡ " image " ∷ ts
    → completed (reconcile_operator_defaults server d s).0 ≡ true
unfolding reconcile_operator_defaults ◌>>=◌ gets modify_rmq
stops_with server d s ts e = simp e (update_completes server _)

-- Where the operator controls the image, the step of the defaults never continues, whatever the
-- cluster and the API server.
pub controlled_image_stops :
    (server : Server) (d : Defaults) (s : State)
    → d.control_rabbitmq_image ≡ true
    → completed (reconcile_operator_defaults server d s).0 ≡ true
unfolding with_defaults
controlled_image_stops server d s h =
    let i = default_image d (s.rmq, []) in
    let u = default_updater_image d i in
    let (us, e) = updater_types d i.0 i.1 in
    let (vs, f) = secrets_types d u.0 u.1 in
    stops_with server d s (us ++ vs)
      (f ∙ ap (λ t. t ++ vs) (e ∙ ap (λ t. t ++ us) (image_first d s.rmq [] h)))

abbrev scale_down_text : State → String
scale_down_text s =
    "cluster Scale down not supported; tried to scale cluster from "
    <> itoa s.rmq.status.replicas
    <> " nodes to "
    <> itoa s.rmq.spec.replicas
    <> " nodes"

lt_of_not_leb : (a b : ℕ) → leb a b ≡ false → b < a
lt_of_not_leb a b h = ground arith

-- A run that would lose nodes is done at this step, with one warning as its only call and the spec
-- unchanged; any other run goes on with nothing changed.
pub reconcile_scale_down_cases :
    (server : Server) (s : State)
    → (s.rmq.status.replicas ≤ s.rmq.spec.replicas
        × (reconcile_scale_down server s ≡ (continue_reconcile, s)))
      ⊎ (s.rmq.spec.replicas < s.rmq.status.replicas
          × ((reconcile_scale_down server s).0 ≡ done)
          × ((reconcile_scale_down server s).1.rmq.spec ≡ s.rmq.spec)
          × ((reason message : String) × ((reconcile_scale_down server s).1.calls
                ≡ record_event warning reason message ∷ s.calls)))
unfolding reconcile_scale_down ◌>>=◌ gets pure event call set_cluster_condition
reconcile_scale_down_cases server s =
    elim (Bool-cases (leb s.rmq.status.replicas s.rmq.spec.replicas)) [
      | inl le ↦ inl (leb→le _ _ le, simp le)
      | inr gt ↦ inr (
        lt_of_not_leb _ _ gt,
        simp gt,
        simp gt,
        ("UnsupportedOperation", scale_down_text s, simp gt),
      )
    ]
