-- ===== src/Metadata.antt =====
-- internal/metadata/label.go and internal/metadata/annotation.go.
-- Go ranges over a map in no fixed order; the model visits the last entry of the list first, so that
-- of two entries with one key (which a Go map cannot hold) the first one stands.
pub mod Laws
pub mod Steady
use rabbitmq_operator.Prelude.{
  String, Bool, true, not, ◌||◌, List, [], ◌∷◌, Map, insert, starts_with, contains_text,
  if◌then◌else◌,
}

abbrev pub Labels : Type 0
Labels = Map String

abbrev pub reserved : String
reserved = "app.kubernetes.io"

unfoldable pub label : String → Labels
label instance_name =
    ("app.kubernetes.io/name", instance_name)
    ∷ ("app.kubernetes.io/component", "rabbitmq")
    ∷ ("app.kubernetes.io/part-of", "rabbitmq")
    ∷ []

-- The loop of `GetLabels` over the labels of the instance.
add_labels : Labels → Labels → Labels
add_labels [] all_labels = all_labels
add_labels ((l, value) ∷ rest) all_labels =
    let added = add_labels rest all_labels in
    if not (starts_with l reserved) then insert l value added else added

unfoldable pub get_labels : String → Labels → Labels
unfolding add_labels label
get_labels instance_name instance_labels = add_labels instance_labels (label instance_name)

unfoldable pub label_selector : String → Labels
label_selector instance_name = ("app.kubernetes.io/name", instance_name) ∷ []

-- One round of the outer loop of `mergeWithFilter`.
pub merge_map : (String → Bool) → Labels → Labels → Labels
merge_map filter_fn result [] = result
merge_map filter_fn result ((k, v) ∷ m) =
    let merged = merge_map filter_fn result m in if filter_fn k then insert k v merged else merged

unfoldable pub merge_with_filter : (String → Bool) → Labels → List Labels → Labels
unfolding merge_map
merge_with_filter filter_fn result [] = result
merge_with_filter filter_fn result (m ∷ maps) =
    merge_with_filter filter_fn (merge_map filter_fn result m) maps

unfoldable pub is_kubernetes_annotation : String → Bool
is_kubernetes_annotation k = contains_text k "kubernetes.io" || contains_text k "k8s.io"

unfoldable pub is_not_kubernetes_annotation : String → Bool
unfolding is_kubernetes_annotation
is_not_kubernetes_annotation k = not (is_kubernetes_annotation k)

unfoldable pub reconcile_annotations : Labels → List Labels → Labels
unfolding merge_with_filter
reconcile_annotations existing defaults = merge_with_filter (λ k. true) existing defaults

unfoldable pub reconcile_and_filter_annotations : Labels → List Labels → Labels
unfolding merge_with_filter is_not_kubernetes_annotation
reconcile_and_filter_annotations existing defaults =
    merge_with_filter is_not_kubernetes_annotation existing defaults

unfoldable pub reconcile_labels : Labels → List Labels → Labels
unfolding merge_with_filter
reconcile_labels existing defaults = merge_with_filter (λ k. true) existing defaults

unfoldable pub reconcile_and_filter_labels : Labels → List Labels → Labels
unfolding merge_with_filter is_not_kubernetes_annotation
reconcile_and_filter_labels existing defaults =
    merge_with_filter is_not_kubernetes_annotation existing defaults
