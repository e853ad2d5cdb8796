-- ===== src/Metadata/Laws.antt =====
-- What a lookup finds in the labels and annotations that the operator writes.
use rabbitmq_operator.Prelude.{
  String, Bool, true, false, Option, none, some, List, [], ◌∷◌, ◌≡◌, refl, ap, arith, lookup,
  lookup-insert, starts_with, eq_iff, ◌==◌, if◌then◌else◌, Bool-cases, inl, inr, All,
}
use rabbitmq_operator.Metadata.{
  Labels, reserved, label, add_labels, get_labels, label_selector, merge_map, merge_with_filter,
  is_kubernetes_annotation, is_not_kubernetes_annotation, reconcile_and_filter_annotations,
}

abbrev pub or_else : Option String → Option String → Option String
or_else none d = d
or_else (some v) d = some v

-- What the labels hold: every pair of the selector is a pair of the labels.
abbrev pub Matches : Labels → Labels → Type 0
Matches selector labels = All (λ entry. lookup entry.0 labels ≡ some entry.1) selector

lookup-add_labels :
    (j : String) (ls all : Labels)
    → lookup j (add_labels ls all)
      ≡ (if starts_with j reserved then lookup j all else or_else (lookup j ls) (lookup j all))
unfolding add_labels lookup
lookup-add_labels j [] all = ground arith
lookup-add_labels j ((l, v) ∷ ls) all =
    ground (arith, lookup-add_labels j ls all, lookup-insert l j v (add_labels ls all), eq_iff l j)

key_ne :
    (k j : String)
    → starts_with k reserved ≡ true
    → starts_with j reserved ≡ false
    → (k == j) ≡ false
key_ne k j hk hj = elim (Bool-cases (k == j)) [
  | inl e ↦ cc (hk, hj, ap (λ s. starts_with s reserved) ((eq_iff k j).0 e))
  | inr e ↦ e
]

-- The three labels of the operator are in the reserved family.
lookup-label :
    (j : String) (n : String) → starts_with j reserved ≡ false → lookup j (label n) ≡ none
unfolding label lookup
lookup-label j n h = rw (key_ne "app.kubernetes.io/name" j refl h) (
    rw (key_ne "app.kubernetes.io/component" j refl h)
      (rw (key_ne "app.kubernetes.io/part-of" j refl h) refl))

-- For every instance name, instance labels and key: under a key that starts with `app.kubernetes.io`
-- the labels of a child resource hold what the operator's own three labels hold, and under any other
-- key exactly what the labels of the instance hold.
pub lookup-get_labels :
    (j n : String) (ls : Labels)
    → lookup j (get_labels n ls)
      ≡ (if starts_with j reserved then lookup j (label n) else lookup j ls)
unfolding get_labels
lookup-get_labels j n ls = ground (arith, lookup-add_labels j ls (label n), lookup-label j n)

-- The selector of the instance matches the labels of its child resources, whatever labels the user
-- has put on the instance.
pub get_labels-Matches : (n : String) (ls : Labels) → Matches (label_selector n) (get_labels n ls)
unfolding label_selector label lookup
get_labels-Matches n ls = (rw lookup-get_labels refl, tt)

pub lookup-merge_map :
    (f : String → Bool) (j : String) (result m : Labels)
    → lookup j (merge_map f result m)
      ≡ (if f j then or_else (lookup j m) (lookup j result) else lookup j result)
unfolding merge_map lookup
lookup-merge_map f j result [] = ground arith
lookup-merge_map f j result ((k, v) ∷ m) =
    ground
      (arith, lookup-merge_map f j result m, lookup-insert k j v (merge_map f result m), eq_iff k j)

-- The last of several maps that has the key.
abbrev pub last_of : String → List Labels → Option String
last_of j [] = none
last_of j (m ∷ maps) = or_else (last_of j maps) (lookup j m)

or_else_assoc : (a b c : Option String) → or_else a (or_else b c) ≡ or_else (or_else a b) c
or_else_assoc none b c = refl
or_else_assoc (some v) b c = refl

-- For every filter, key, base map and list of maps: where the filter admits the key, the merged map
-- holds the value of the last map that has the key, or else that of the base map; where it does not,
-- the value of the base map.
pub lookup-merge_with_filter :
    (f : String → Bool) (j : String) (base : Labels) (maps : List Labels)
    → lookup j (merge_with_filter f base maps)
      ≡ (if f j then or_else (last_of j maps) (lookup j base) else lookup j base)
unfolding merge_with_filter
lookup-merge_with_filter f j base [] = ground arith
lookup-merge_with_filter f j base (m ∷ maps) = ground (
  arith,
  lookup-merge_with_filter f j (merge_map f base m) maps,
  lookup-merge_map f j base m,
  or_else_assoc (last_of j maps) (lookup j m) (lookup j base),
)

-- An annotation key of Kubernetes is never copied from the instance to a child: the child keeps what
-- it had under such a key, and takes the instance's value under every other key that the instance
-- has.
pub lookup-reconcile_and_filter_annotations :
    (j : String) (existing inherited : Labels)
    → lookup j (reconcile_and_filter_annotations existing (inherited ∷ [])) ≡ (
        if is_kubernetes_annotation j
        then lookup j existing
        else or_else (lookup j inherited) (lookup j existing))
unfolding reconcile_and_filter_annotations is_not_kubernetes_annotation
lookup-reconcile_and_filter_annotations j existing inherited =
    ground
      (arith, lookup-merge_with_filter is_not_kubernetes_annotation j existing (inherited ∷ []))

-- Merging the same annotations a second time changes no lookup.
pub reconcile_and_filter_annotations_idem :
    (j : String) (existing inherited : Labels)
    → let once = reconcile_and_filter_annotations existing (inherited ∷ []) in
      lookup j (reconcile_and_filter_annotations once (inherited ∷ [])) ≡ lookup j once
reconcile_and_filter_annotations_idem j existing inherited =
    let once = reconcile_and_filter_annotations existing (inherited ∷ []) in
    ground (
      arith,
      lookup-reconcile_and_filter_annotations j once inherited,
      lookup-reconcile_and_filter_annotations j existing inherited,
    )
