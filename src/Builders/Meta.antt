-- ===== src/Builders/Meta.antt =====
-- What the builders of internal/resource share: the metadata of a child, and the packages that they
-- call, which are parameters.
use rabbitmq_operator.Prelude.{String, List, [], ◌∷◌, ◌≡◌, refl}
use rabbitmq_operator.Kube.{Outcome, ok, err, wrapped, OwnerReference}
use rabbitmq_operator.Cluster.{RabbitmqCluster, child_resource_name}
use rabbitmq_operator.Metadata.{Labels, get_labels, reconcile_and_filter_annotations}

-- `metav1.ObjectMeta`
pub record ObjectMeta : Type 0 where
  pub name : String
  pub namespace : String
  pub labels : Labels
  pub annotations : Labels
  pub owner_references : List OwnerReference

-- A step that may fail, and what follows it.
infixl 20 ◌>>=◌
abbrev pub ◌>>=◌ {ℓ κ} : {A : Type ℓ} {B : Type κ} → Outcome A → (A → Outcome B) → Outcome B
err e >>= next = err e
ok a >>= next = next a

-- `fmt.Errorf("...: %w", err)`
abbrev pub wrap_error {ℓ} : {A : Type ℓ} → String → Outcome A → Outcome A
wrap_error text (err e) = err (wrapped text e)
wrap_error text (ok a) = ok a

-- A chain that ends without an error has passed each of its steps.
pub bind_passed {ℓ κ μ} :
    {A : Type ℓ} {B : Type κ} {C : Type μ} (first : Outcome A) (next : A → Outcome B) {b : B}
    → (first >>= next) ≡ ok b
    → ((a : A) → first ≡ ok a → next a ≡ ok b → C)
    → C
bind_passed (ok a) next e use_it = use_it a refl e
bind_passed (err x) next e use_it = absurd (cc e)

pub wrap_passed {ℓ} :
    {A : Type ℓ} (text : String) (first : Outcome A) {a : A}
    → wrap_error text first ≡ ok a
    → first ≡ ok a
wrap_passed text (ok b) e = e
wrap_passed text (err x) e = absurd (cc e)

pub ok_injective {ℓ} : {A : Type ℓ} {a b : A} → ok a ≡ ok b → a ≡ b
ok_injective e = cc e

-- `controllerutil.SetControllerReference`: the owner references that the object has afterwards.
abbrev pub SetControllerReference : Type 0
SetControllerReference = RabbitmqCluster → ObjectMeta → Outcome (List OwnerReference)

-- Setting the owner of an object that has the owners already, and lies in the same namespace, leaves
-- them.
abbrev pub IsSteady : SetControllerReference → Type 0
IsSteady set =
    (c : RabbitmqCluster) (m n : ObjectMeta) (owners : List OwnerReference)
    → set c m ≡ ok owners
    → n.owner_references ≡ owners
    → n.namespace ≡ m.namespace
    → set c n ≡ ok owners

-- The metadata that each `Build` starts with.
unfoldable pub child_meta : RabbitmqCluster → String → ObjectMeta
unfolding child_resource_name get_labels reconcile_and_filter_annotations
child_meta cluster suffix = record {
  name = child_resource_name cluster suffix;
  namespace = cluster.namespace;
  labels = get_labels cluster.name cluster.labels;
  annotations = reconcile_and_filter_annotations [] (cluster.annotations ∷ []);
  owner_references = [];
}

-- The metadata that each `Update` sets.
unfoldable pub update_meta : RabbitmqCluster → ObjectMeta → ObjectMeta
unfolding get_labels reconcile_and_filter_annotations
update_meta cluster meta = record meta {
  labels = get_labels cluster.name cluster.labels;
  annotations = reconcile_and_filter_annotations meta.annotations (cluster.annotations ∷ []);
}

-- The end of each `Update`.
unfoldable pub with_controller :
    SetControllerReference → RabbitmqCluster → ObjectMeta → Outcome ObjectMeta
with_controller set cluster meta = do
  owners ← wrap_error "failed setting controller reference" (set cluster meta)
  ok (record meta { owner_references = owners })
