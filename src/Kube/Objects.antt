-- ===== src/Kube/Objects.antt =====
-- Objects of the Kubernetes API with the fields that the operator uses, and Go errors.
-- The container `Containers[0]` of a pod template, which the API server requires, is the field
-- `first_container`; the limit or request of a resource that is missing is 0.
use rabbitmq_operator.Prelude.{
  ℕ, String, Bool, true, false, Option, none, some, List, Map, ◌<>◌, ◌≡◌, refl, ◌⊎◌, inl, inr, not,
  ◌==◌, [], ◌∷◌, eqb, if◌then◌else◌,
}

pub data ApiReason : Type 0 where
  not_found conflict bad_request other_reason : ApiReason

-- A Go error: of the API, one that wraps another by `%w`, or a plain text.
pub data Error : Type 0 where
  api : ApiReason → String → Error
  wrapped : String → Error → Error
  plain : String → Error

unfoldable pub error_text : Error → String
error_text (api r text) = text
error_text (wrapped text e) = text <> ": " <> error_text e
error_text (plain text) = text

-- `k8serrors.IsNotFound` and `IsConflict` look through wrapped errors.
unfoldable pub is_not_found : Error → Bool
is_not_found (api not_found _) = true
is_not_found (api _ _) = false
is_not_found (wrapped _ e) = is_not_found e
is_not_found (plain _) = false

unfoldable pub is_conflict : Error → Bool
is_conflict (api conflict _) = true
is_conflict (api _ _) = false
is_conflict (wrapped _ e) = is_conflict e
is_conflict (plain _) = false

-- A result of Go, `(value, err)`, whose value is used only where `err` is nil.
pub data Outcome {ℓ} (A : Type ℓ) : Type ℓ where
  ok : A → Outcome A
  err : Error → Outcome A

pub Outcome-cases {ℓ} :
    {A : Type ℓ} (o : Outcome A) → ((e : Error) × (o ≡ err e)) ⊎ ((a : A) × (o ≡ ok a))
Outcome-cases (ok a) = inr (a, refl)
Outcome-cases (err e) = inl (e, refl)

pub record ObjectKey : Type 0 where
  pub namespace : String
  pub name : String

pub record Container : Type 0 where
  pub memory_limit : ℕ
  pub memory_request : ℕ

-- A template of a persistent volume claim, with the storage that it requests.
pub record ClaimTemplate : Type 0 where
  pub name : String
  pub storage : ℕ

pub record StatefulSet : Type 0 where
  pub name : String
  pub namespace : String
  pub uid : String
  pub controller_uid : Option String
  pub annotations : Map String
  pub template_annotations : Map String
  pub selector : Map String
  pub replicas : Option ℕ
  pub ready_replicas : ℕ
  pub current_revision : String
  pub update_revision : String
  pub first_container : Container
  pub volume_claim_templates : List ClaimTemplate

pub record PersistentVolumeClaim : Type 0 where
  pub name : String
  pub namespace : String
  pub storage : ℕ

pub record Pod : Type 0 where
  pub name : String
  pub namespace : String
  pub labels : Map String

-- The number of addresses of each subset.
pub record Endpoints : Type 0 where
  pub subsets : List ℕ

pub record Secret : Type 0 where
  pub data_keys : Map String

pub record ConfigMap : Type 0 where
  pub name : String
  pub namespace : String
  pub annotations : Map String

pub record OwnerReference : Type 0 where
  pub uid : String
  pub block_owner_deletion : Option Bool

-- An object of any type (`client.Object`): the type as `%T` prints it, its key, labels and owners, the
-- claim templates if it is a StatefulSet, and everything else as one text.
pub record Object : Type 0 where
  pub type_name : String
  pub key : ObjectKey
  pub labels : Map String
  pub owner_references : List OwnerReference
  pub claims : Option (List ClaimTemplate)
  pub content : String

abbrev pub key_of : StatefulSet → ObjectKey
key_of sts = record { namespace = sts.namespace; name = sts.name }

-- `*statefulset.Spec.Replicas`: the API server defaults a missing number to 1.
unfoldable pub desired_replicas : StatefulSet → ℕ
desired_replicas sts = elim sts.replicas [ none ↦ 1 | some n ↦ n ]

unfoldable pub statefulset_being_updated : StatefulSet → Bool
statefulset_being_updated sts = not (sts.current_revision == sts.update_revision)

-- The loop of `allReplicasReadyAndUpdated`.
unfoldable pub all_replicas_ready_and_updated : List StatefulSet → Bool
unfolding statefulset_being_updated desired_replicas
all_replicas_ready_and_updated [] = true
all_replicas_ready_and_updated (sts ∷ rest) =
    let others = all_replicas_ready_and_updated rest in
    if statefulset_being_updated sts
    then false
    else if not (eqb sts.ready_replicas (desired_replicas sts))
    then false
    else others
