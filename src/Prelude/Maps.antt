-- ===== src/Prelude/Maps.antt =====
-- A Go `map[string]V` as an association list. A nil map is the empty list: reading one is allowed,
-- and the program makes a map before it writes to one.
use Prim.Native.String.{String}
use mathlib.Core.Path.{◌≡◌, refl, sym, ap, ◌∙◌}
use mathlib.Core.Logic.{inl, inr}
use mathlib.Core.Bool.{Bool, true, false}
use mathlib.Core.List.{List, [], ◌∷◌}
use mathlib.Core.Option.{Option, none, some}
use native.Mathlib.Omega.{arith}
use text.Mathlib.TextEquality.{eq_iff}
use rabbitmq_operator.Prelude.Tests.{◌==◌, if◌then◌else◌, Bool-cases}

abbrev pub Map {ℓ} : Type ℓ → Type ℓ
Map V = List (String × V)

module _ {ℓ} {V : Type ℓ} where
  -- `value, ok := entries[key]`
  unfoldable pub lookup : String → Map V → Option V
  lookup key [] = none
  lookup key (entry ∷ entries) =
      let later = lookup key entries in if entry.0 == key then some entry.1 else later

  -- `entries[key] = value`
  unfoldable pub insert : String → V → Map V → Map V
  insert key value [] = (key, value) ∷ []
  insert key value (entry ∷ entries) =
      let others = insert key value entries in
      if entry.0 == key then (key, value) ∷ entries else entry ∷ others

  -- `delete(entries, key)`
  unfoldable pub delete : String → Map V → Map V
  delete key [] = []
  delete key (entry ∷ entries) =
      let kept = delete key entries in if entry.0 == key then kept else entry ∷ kept

  pub lookup-insert :
      (key other : String) (value : V) (entries : Map V)
      → let found = lookup other entries in
        lookup other (insert key value entries) ≡ (if key == other then some value else found)
  unfolding lookup insert
  lookup-insert key other value [] = refl
  lookup-insert key other value ((name, _) ∷ entries) = ground (
    lookup-insert key other value entries,
    eq_iff name other,
    eq_iff name key,
    eq_iff key other,
    arith,
  )

  pub lookup-delete :
      (key other : String) (entries : Map V)
      → lookup other (delete key entries) ≡ (if key == other then none else lookup other entries)
  unfolding lookup delete
  lookup-delete key other [] = ground arith
  lookup-delete key other ((name, _) ∷ entries) =
      ground (
        lookup-delete key other entries,
        eq_iff name other,
        eq_iff name key,
        eq_iff key other,
        arith,
      )

  -- An entry that is there already is not written anew, and one that is missing is not deleted.
  pub insert-lookup : (k : String) (v : V) (m : Map V) → lookup k m ≡ some v → insert k v m ≡ m
  unfolding insert lookup
  insert-lookup k v [] h = absurd (cc h)
  insert-lookup k v ((j, w) ∷ m) h = elim (Bool-cases (j == k)) [
    | inl q ↦
        let key : k ≡ j = sym ((eq_iff j k).0 q) in
        let value : v ≡ w = cc (simp (lookup, q) at h) in
        rw q (ap (λ x. (x, v) ∷ m) key ∙ ap (λ x. (j, x) ∷ m) value)
    | inr q ↦ rw q (ap (λ rest. (j, w) ∷ rest) (insert-lookup k v m (simp (lookup, q) at h)))
  ]

  pub insert_again : (k : String) (v : V) (m : Map V) → insert k v (insert k v m) ≡ insert k v m
  insert_again k v m =
      let same : (k == k) ≡ true = (eq_iff k k).1 refl in
      insert-lookup k v (insert k v m) (lookup-insert k k v m ∙ rw same refl)

  pub delete-lookup : (k : String) (m : Map V) → lookup k m ≡ none → delete k m ≡ m
  unfolding delete lookup
  delete-lookup k [] h = refl
  delete-lookup k ((j, w) ∷ m) h = elim (Bool-cases (j == k)) [
    | inl q ↦ absurd (cc (simp (lookup, q) at h))
    | inr q ↦ rw q (ap (λ rest. (j, w) ∷ rest) (delete-lookup k m (simp (lookup, q) at h)))
  ]

-- `m[k]` on a map of texts: the zero value on a missing key.
abbrev pub text_at : String → Map String → String
text_at k m = elim (lookup k m) [ none ↦ "" | some v ↦ v ]

-- `_, ok := m[k]`
abbrev pub has_key {ℓ} : {V : Type ℓ} → String → Map V → Bool
has_key k m = elim (lookup k m) [ none ↦ false | some _ ↦ true ]

pub ruleset map_laws = (lookup-insert, lookup-delete)
