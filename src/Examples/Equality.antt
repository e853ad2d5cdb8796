-- ===== src/Examples/Equality.antt =====
-- A comparison of config maps that ignores the order of their maps, and that it is exact.
use rabbitmq_operator.Prelude.{
  String, Bool, true, false, ◌&&◌, Option, some, none, List, [], ◌∷◌, Map, lookup, ◌==◌, ◌≡◌, refl,
  sym, ap, ◌∙◌, arith, eq_iff, eq_refl, Option-cases, inl, inr,
}
use rabbitmq_operator.Kube.{OwnerReference}
use rabbitmq_operator.Cluster.{plugin_in}
use rabbitmq_operator.Builders.Config.{ConfigMapObject}
use rabbitmq_operator.Builders.Config.Entries.{SameMap, Same}
use rabbitmq_operator.Examples.Files.{keys_of}

abbrev option_eq : Option String → Option String → Bool
option_eq none none = true
option_eq (some a) (some b) = a == b
option_eq _ _ = false

option_eq_sound : (a b : Option String) → option_eq a b ≡ true → a ≡ b
option_eq_sound none none e = refl
option_eq_sound none (some b) e = cc
option_eq_sound (some a) none e = cc
option_eq_sound (some a) (some b) e = ap some ((eq_iff a b).0 e)

option_eq_refl : (a b : Option String) → a ≡ b → option_eq a b ≡ true
option_eq_refl none none e = refl
option_eq_refl none (some b) e = absurd (cc e)
option_eq_refl (some a) none e = absurd (cc e)
option_eq_refl (some a) (some b) e = ground (arith, eq_iff a b)

abbrev agree : List String → Map String → Map String → Bool
agree [] a b = true
agree (k ∷ ks) a b = let rest = agree ks a b in option_eq (lookup k a) (lookup k b) && rest

abbrev maps_equal : Map String → Map String → Bool
maps_equal a b = agree (keys_of a) a b && agree (keys_of b) a b

agree_at :
    (k : String) (ks : List String) (a b : Map String)
    → agree ks a b ≡ true
    → plugin_in k ks ≡ true
    → lookup k a ≡ lookup k b
unfolding plugin_in
agree_at k [] a b e has = cc
agree_at k (j ∷ ks) a b e has =
    ground (arith, agree_at k ks a b, eq_iff j k, option_eq_sound (lookup j a) (lookup j b))

agree_all : (ks : List String) (a b : Map String) → SameMap a b → agree ks a b ≡ true
agree_all [] a b s = refl
agree_all (k ∷ ks) a b s =
    ground (arith, agree_all ks a b s, option_eq_refl (lookup k a) (lookup k b) (s k))

lookup_in :
    (k : String) (m : Map String) (v : String)
    → lookup k m ≡ some v
    → plugin_in k (keys_of m) ≡ true
unfolding lookup plugin_in
lookup_in k [] v e = cc
lookup_in k ((j, w) ∷ m) v e = ground (arith, lookup_in k m v)

maps_equal-SameMap : (a b : Map String) → maps_equal a b ≡ true → SameMap a b
maps_equal-SameMap a b e k = elim (Option-cases (lookup k a)) [
  | inr (v, at) ↦ agree_at k (keys_of a) a b (ground arith) (lookup_in k a v at)
  | inl absent ↦ elim (Option-cases (lookup k b)) [
    | inr (w, at) ↦ agree_at k (keys_of b) a b (ground arith) (lookup_in k b w at)
    | inl gone ↦ absent ∙ sym gone
  ]
]

abbrev flag_eq : Option Bool → Option Bool → Bool
flag_eq none none = true
flag_eq (some true) (some true) = true
flag_eq (some false) (some false) = true
flag_eq _ _ = false

flag_eq_sound : (a b : Option Bool) → flag_eq a b ≡ true → a ≡ b
flag_eq_sound a b e = ground arith

abbrev owners_eq : List OwnerReference → List OwnerReference → Bool
owners_eq [] [] = true
owners_eq (a ∷ os) (b ∷ ps) =
    let rest = owners_eq os ps in
    a.uid == b.uid && flag_eq a.block_owner_deletion b.block_owner_deletion && rest
owners_eq _ _ = false

owners_eq_sound : (a b : List OwnerReference) → owners_eq a b ≡ true → a ≡ b
owners_eq_sound [] [] e = refl
owners_eq_sound [] (b ∷ ps) e = cc
owners_eq_sound (a ∷ os) [] e = cc
owners_eq_sound (a ∷ os) (b ∷ ps) e = ground (
  arith,
  owners_eq_sound os ps,
  eq_iff a.uid b.uid,
  flag_eq_sound a.block_owner_deletion b.block_owner_deletion,
)

owners_eq_refl : (a : List OwnerReference) → owners_eq a a ≡ true
owners_eq_refl [] = refl
owners_eq_refl (a ∷ os) = ground (arith, owners_eq_refl os, eq_refl a.uid)

owners_eq_path : (a b : List OwnerReference) → a ≡ b → owners_eq a b ≡ true
owners_eq_path a b e = ap (owners_eq a) (sym e) ∙ owners_eq_refl a

maps_equal_all : (a b : Map String) → SameMap a b → maps_equal a b ≡ true
maps_equal_all a b s = ground (arith, agree_all (keys_of a) a b s, agree_all (keys_of b) a b s)

six :
    (a b c d e f : Bool)
    → (a && b && c && d && e && f) ≡ true
    → (a ≡ true) × (b ≡ true) × (c ≡ true) × (d ≡ true) × (e ≡ true) × (f ≡ true)
six a b c d e f h =
    (ground arith, ground arith, ground arith, ground arith, ground arith, ground arith)

unfoldable pub semantic_equal : ConfigMapObject → ConfigMapObject → Bool
unfolding lookup
semantic_equal a b =
    a.meta.name == b.meta.name
    && a.meta.namespace == b.meta.namespace
    && owners_eq a.meta.owner_references b.meta.owner_references
    && maps_equal a.meta.labels b.meta.labels
    && maps_equal a.meta.annotations b.meta.annotations
    && maps_equal a.entries b.entries

pub semantic_equal_complete : (a b : ConfigMapObject) → Same a b → semantic_equal a b ≡ true
unfolding semantic_equal
semantic_equal_complete a b (n, ns, o, l, an, en) = ground (
  arith,
  eq_iff a.meta.name b.meta.name,
  eq_iff a.meta.namespace b.meta.namespace,
  owners_eq_path a.meta.owner_references b.meta.owner_references o,
  maps_equal_all a.meta.labels b.meta.labels l,
  maps_equal_all a.meta.annotations b.meta.annotations an,
  maps_equal_all a.entries b.entries en,
)

pub semantic_equal_sound : (a b : ConfigMapObject) → semantic_equal a b ≡ true → Same a b
unfolding semantic_equal
semantic_equal_sound a b e =
    let (n, ns, o, l, an, en) =
      six (a.meta.name == b.meta.name) (a.meta.namespace == b.meta.namespace)
        (owners_eq a.meta.owner_references b.meta.owner_references)
        (maps_equal a.meta.labels b.meta.labels) (maps_equal a.meta.annotations b.meta.annotations)
        (maps_equal a.entries b.entries) e in
    (
      (eq_iff a.meta.name b.meta.name).0 n,
      (eq_iff a.meta.namespace b.meta.namespace).0 ns,
      owners_eq_sound a.meta.owner_references b.meta.owner_references o,
      maps_equal-SameMap a.meta.labels b.meta.labels l,
      maps_equal-SameMap a.meta.annotations b.meta.annotations an,
      maps_equal-SameMap a.entries b.entries en,
    )
