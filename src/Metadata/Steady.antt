-- ===== src/Metadata/Steady.antt =====
-- A second merge of the same annotations, with internal/metadata/annotation.go.
use rabbitmq_operator.Prelude.{
  insert-lookup, String, Bool, true, some, [], ◌∷◌, lookup, insert, ◌≡◌, refl, ap, ◌∙◌, All,
  Bool-cases, inl, inr,
}
use rabbitmq_operator.Metadata.{
  Labels, merge_map, merge_with_filter, is_not_kubernetes_annotation,
  reconcile_and_filter_annotations,
}
use rabbitmq_operator.Metadata.Laws.{Matches, lookup-merge_map}

-- No two entries have one key, as in a Go map.
abbrev pub IsMap : Labels → Type 0
IsMap m = Matches m m

-- The map has every entry that the filter admits.
abbrev Has : (String → Bool) → Labels → Labels → Type 0
Has f m entries = All (λ e. f e.0 ≡ true → lookup e.0 m ≡ some e.1) entries

merge_map-Has :
    (f : String → Bool) (m entries : Labels) → Has f m entries → merge_map f m entries ≡ m
unfolding merge_map
merge_map-Has f m [] h = refl
merge_map-Has f m ((k, v) ∷ entries) (h, hs) = elim (Bool-cases (f k)) [
  | inl q ↦ rw q (ap (insert k v) (merge_map-Has f m entries hs) ∙ insert-lookup k v m (h q))
  | inr q ↦ rw q (merge_map-Has f m entries hs)
]

found_in :
    (f : String → Bool) (base m entries : Labels)
    → Matches entries m
    → Has f (merge_map f base m) entries
found_in f base m [] h = tt
found_in f base m ((k, v) ∷ entries) (h, hs) =
    ((λ q. lookup-merge_map f k base m ∙ rw q (rw h refl)), found_in f base m entries hs)

-- A second merge of the annotations of an instance into those of a child changes nothing.
pub reconcile_and_filter_annotations_again :
    (existing inherited : Labels)
    → IsMap inherited
    → let once = reconcile_and_filter_annotations existing (inherited ∷ []) in
      reconcile_and_filter_annotations once (inherited ∷ []) ≡ once
unfolding reconcile_and_filter_annotations merge_with_filter
reconcile_and_filter_annotations_again existing inherited unique =
    merge_map-Has is_not_kubernetes_annotation _ inherited
      (found_in is_not_kubernetes_annotation existing inherited inherited unique)
