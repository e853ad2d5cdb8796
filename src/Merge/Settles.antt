-- ===== src/Merge/Settles.antt =====
-- A second merge of the same elements by the merge functions of internal/resource/utils.go.
use rabbitmq_operator.Prelude.{
  String, true, Option, none, some, List, [], ◌∷◌, ◌≡◌, refl, sym, ap, ◌∙◌, arith, ◌==◌, All,
  Bool-cases, inl, inr, eq_iff,
}
use rabbitmq_operator.Merge.{merge_by}
use rabbitmq_operator.Merge.Reference.{
  find_by, position, IsUnique, upsert, upsert_all, combined, merge_by-upsert_all, find_by-merge_by,
}

module _ {ℓ} {A : Type ℓ} (key : A → String) where
  found_behind :
      (x : A) (xs ys : List A)
      → position key (key x) ys ≡ none
      → All (λ n. find_by key (key n) xs ≡ some n) ys
      → All (λ n. find_by key (key n) (x ∷ xs) ≡ some n) ys
  unfolding find_by position
  found_behind x xs [] fresh f = tt
  found_behind x xs (y ∷ ys) fresh (f, fs) = (
    ground (arith, eq_iff (key x) (key y), eq_iff (key y) (key x)),
    found_behind x xs ys (ground arith) fs,
  )

  -- In a list with distinct names each element is the one of its name.
  pub unique_found : (xs : List A) → IsUnique key xs → All (λ n. find_by key (key n) xs ≡ some n) xs
  unfolding find_by
  unique_found [] u = tt
  unique_found (x ∷ xs) (fresh, u) =
      let same : (key x == key x) ≡ true = (eq_iff (key x) (key x)).1 refl in
      (rw same refl, found_behind x xs xs fresh (unique_found xs u))

  module _ (update : A → A → A) where
    -- The list has an element of the name that the update leaves alone.
    abbrev pub Has : List A → A → Type ℓ
    Has xs next = (x : A) × (find_by key (key next) xs ≡ some x) × (update x next ≡ x)

    upsert-Has : (next : A) (xs : List A) → Has xs next → upsert key update next xs ≡ xs
    unfolding upsert find_by
    upsert-Has next [] (x, found, same) = absurd (cc found)
    upsert-Has next (y ∷ ys) (x, found, same) = elim (Bool-cases (key y == key next)) [
      | inl q ↦
          let it : y ≡ x = cc (simp (find_by, q) at found) in
          rw q (ap (λ z. z ∷ ys) (ap (λ z. update z next) it ∙ same ∙ sym it))
      | inr q ↦ rw q (ap (λ zs. y ∷ zs) (upsert-Has next ys (x, simp (find_by, q) at found, same)))
    ]

    pub upsert_all-Has :
        (xs nexts : List A) → All (Has xs) nexts → upsert_all key update xs nexts ≡ xs
    unfolding upsert_all
    upsert_all-Has xs [] h = refl
    upsert_all-Has xs (next ∷ nexts) (h, hs) =
        ap (λ z. upsert_all key update z nexts) (upsert-Has next xs h) ∙ upsert_all-Has xs nexts hs

    module _ (keeps : (a b : A) → key a ≡ key b → key (update a b) ≡ key b)
        (again : (a b : A) → update (update a b) b ≡ update a b)
        (self : (b : A) → update b b ≡ b) where
      combined-Has :
          (xs : List A) (next : A) (before : Option A)
          → find_by key (key next) xs ≡ combined key update before (some next)
          → Has xs next
      combined-Has xs next none found = (next, found, self next)
      combined-Has xs next (some x) found = (update x next, found, again x next)

      merged-Has :
          (xs curr whole nexts : List A)
          → ((k : String)
              → find_by key k xs ≡ combined key update (find_by key k curr) (find_by key k whole))
          → All (λ n. find_by key (key n) whole ≡ some n) nexts
          → All (Has xs) nexts
      merged-Has xs curr whole [] look f = tt
      merged-Has xs curr whole (n ∷ nexts) look (f, fs) = (
        combined-Has xs n (find_by key (key n) curr)
            (look (key n) ∙ ap (combined key update (find_by key (key n) curr)) f),
        merged-Has xs curr whole nexts look fs,
      )

      -- A second merge of the same elements changes nothing.
      pub merge_by_settles :
          (curr nexts : List A)
          → IsUnique key curr
          → IsUnique key nexts
          → merge_by key update (merge_by key update curr nexts) nexts
            ≡ merge_by key update curr nexts
      merge_by_settles curr nexts u v =
          let (unique, look) = find_by-merge_by key update keeps curr nexts u v in
          merge_by-upsert_all key update keeps (merge_by key update curr nexts) nexts unique
          ∙ upsert_all-Has (merge_by key update curr nexts) nexts (
              merged-Has (merge_by key update curr nexts) curr nexts nexts look
                (unique_found nexts v))
