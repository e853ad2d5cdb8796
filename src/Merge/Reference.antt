-- ===== src/Merge/Reference.antt =====
-- What the merge functions of internal/resource/utils.go amount to: a fold of one insertion, and a
-- function from names, which forgets the order and the index.
use rabbitmq_operator.Prelude.{
  ℕ, zero, suc, ◌+◌, String, Option, none, some, List, [], ◌∷◌, ◌++◌, Map, lookup, insert,
  lookup-insert, length, ◌≡◌, refl, ap, ◌∙◌, arith, ◌==◌, if◌then◌else◌, Option-cases, inl, inr,
  eq_iff,
}
use rabbitmq_operator.Merge.{index_from, update_at, merge_loop, merge_by}

module _ {ℓ} {A : Type ℓ} (key : A → String) where
  -- The first element with a name, and where it stands.
  unfoldable pub find_by : String → List A → Option A
  find_by k [] = none
  find_by k (x ∷ xs) = let found = find_by k xs in if key x == k then some x else found

  unfoldable pub position : String → List A → Option ℕ
  position k [] = none
  position k (x ∷ xs) =
      let behind = position k xs in
      if key x == k then some 0 else elim behind [ none ↦ none | some p ↦ some (suc p) ]

  -- No two elements have one name.
  abbrev pub IsUnique : List A → Type 0
  IsUnique [] = Unit
  IsUnique (x ∷ xs) = (position (key x) xs ≡ none) × IsUnique xs

  -- The place of a name behind the first `i` elements, or what was there before.
  abbrev shifted : ℕ → Option ℕ → Option ℕ → Option ℕ
  shifted i none before = before
  shifted i (some p) before = some (i + p)

  shifted_zero : (found : Option ℕ) → shifted 0 found none ≡ found
  shifted_zero none = refl
  shifted_zero (some p) = ap some (omega arith)

  module _ (update : A → A → A) where
    unfoldable pub upsert : A → List A → List A
    upsert next [] = next ∷ []
    upsert next (x ∷ xs) =
        let others = upsert next xs in if key x == key next then update x next ∷ xs else x ∷ others

    unfoldable pub upsert_all : List A → List A → List A
    unfolding upsert
    upsert_all curr [] = curr
    upsert_all curr (next ∷ nexts) = upsert_all (upsert next curr) nexts

    lookup-index_from :
        (k : String) (i : ℕ) (xs : List A) (m : Map ℕ)
        → IsUnique xs
        → lookup k (index_from key update i xs m) ≡ shifted i (position k xs) (lookup k m)
    unfolding index_from position
    lookup-index_from k i [] m u = refl
    lookup-index_from k i (x ∷ xs) m (fresh, u) = ground (
      arith,
      lookup-index_from k (suc i) xs (insert (key x) i m) u,
      lookup-insert (key x) k i m,
      eq_iff (key x) k,
    )

    -- What stands under a name after a merge.
    abbrev pub combined : Option A → Option A → Option A
    combined curr none = curr
    combined none (some next) = some next
    combined (some x) (some next) = some (update x next)

    module _ (keeps : (a b : A) → key a ≡ key b → key (update a b) ≡ key b) where
      update_at-upsert :
          (next : A) (p : ℕ) (xs : List A)
          → position (key next) xs ≡ some p
          → update_at key update xs p next ≡ upsert next xs
      unfolding update_at upsert position
      update_at-upsert next p [] e = ground arith
      update_at-upsert next zero (x ∷ xs) e = ground arith
      update_at-upsert next (suc p) (x ∷ xs) e = ground (arith, update_at-upsert next p xs)

      upsert-append :
          (next : A) (xs : List A)
          → position (key next) xs ≡ none
          → upsert next xs ≡ xs ++ next ∷ []
      unfolding upsert position
      upsert-append next [] e = refl
      upsert-append next (x ∷ xs) e = ground (arith, upsert-append next xs)

      position-upsert :
          (k : String) (next : A) (xs : List A)
          → position k (upsert next xs) ≡ elim (position (key next) xs) [
            | some _ ↦ position k xs
            | none ↦ elim (position k xs) [
              | some p ↦ some p
              | none ↦ if key next == k then some (length xs) else none
            ]
          ]
      unfolding upsert position
      position-upsert k next [] = ground arith
      position-upsert k next (x ∷ xs) = ground (
        arith,
        position-upsert k next xs,
        keeps x next,
        eq_iff (key x) (key next),
        eq_iff (key x) k,
        eq_iff (key next) k,
      )

      find_by-upsert :
          (k : String) (next : A) (xs : List A)
          → find_by k (upsert next xs) ≡ (
              if key next == k
              then some (elim (find_by k xs) [ none ↦ next | some x ↦ update x next ])
              else find_by k xs)
      unfolding upsert find_by
      find_by-upsert k next [] = refl
      find_by-upsert k next (x ∷ xs) = ground (
        arith,
        find_by-upsert k next xs,
        keeps x next,
        eq_iff (key x) (key next),
        eq_iff (key x) k,
        eq_iff (key next) k,
      )

      -- The index of the loop, at every moment.
      abbrev Indexes : Map ℕ → List A → Type 0
      Indexes m curr = (k : String) → lookup k m ≡ position k curr

      Indexes-append :
          (m : Map ℕ) (curr : List A) (next : A)
          → Indexes m curr
          → position (key next) curr ≡ none
          → Indexes (insert (key next) (length curr) m) (upsert next curr)
      Indexes-append m curr next ix fresh k = ground (
        arith,
        ix k,
        position-upsert k next curr,
        lookup-insert (key next) k (length curr) m,
        eq_iff (key next) k,
      )

      Indexes-update :
          (m : Map ℕ) (curr : List A) (next : A) {p : ℕ}
          → Indexes m curr
          → position (key next) curr ≡ some p
          → Indexes m (upsert next curr)
      Indexes-update m curr next ix at k = ground (arith, ix k, position-upsert k next curr)

      merge_loop-upsert :
          (curr : List A) (m : Map ℕ) (nexts : List A)
          → Indexes m curr
          → merge_loop key update curr m nexts ≡ upsert_all curr nexts
      unfolding merge_loop upsert_all
      merge_loop-upsert curr m [] ix = refl
      merge_loop-upsert curr m (next ∷ nexts) ix = elim (Option-cases (position (key next) curr)) [
        | inl fresh ↦
            let appended = upsert-append next curr fresh in
            ground (
              arith,
              ix (key next),
              fresh,
              appended,
              merge_loop-upsert (upsert next curr) _ nexts (Indexes-append m curr next ix fresh),
            )
        | inr (p, at) ↦ ground (
          arith,
          ix (key next),
          update_at-upsert next p curr at,
          merge_loop-upsert (upsert next curr) m nexts (Indexes-update m curr next ix at),
        )
      ]

      pub find_by-fresh : (k : String) (xs : List A) → position k xs ≡ none → find_by k xs ≡ none
      unfolding find_by position
      find_by-fresh k [] e = refl
      find_by-fresh k (x ∷ xs) e = ground (arith, find_by-fresh k xs)

      find_by-upsert_all :
          (k : String) (curr nexts : List A)
          → IsUnique nexts
          → find_by k (upsert_all curr nexts) ≡ combined (find_by k curr) (find_by k nexts)
      unfolding upsert_all find_by
      find_by-upsert_all k curr [] u = refl
      find_by-upsert_all k curr (next ∷ nexts) (fresh, u) = ground (
        arith,
        find_by-upsert_all k (upsert next curr) nexts u,
        find_by-upsert k next curr,
        find_by-fresh k nexts,
        eq_iff (key next) k,
      )

      IsUnique-upsert : (next : A) (xs : List A) → IsUnique xs → IsUnique (upsert next xs)
      unfolding upsert position
      IsUnique-upsert next [] u = (refl, tt)
      IsUnique-upsert next (x ∷ xs) (fresh, u) = ground (
        arith,
        IsUnique-upsert next xs u,
        position-upsert (key x) next xs,
        keeps x next,
        eq_iff (key x) (key next),
        eq_iff (key next) (key x),
      )

      IsUnique-upsert_all : (curr nexts : List A) → IsUnique curr → IsUnique (upsert_all curr nexts)
      unfolding upsert_all
      IsUnique-upsert_all curr [] u = u
      IsUnique-upsert_all curr (next ∷ nexts) u =
          IsUnique-upsert_all (upsert next curr) nexts (IsUnique-upsert next curr u)

      -- Where an update gives an element of a name no other name, and the current elements have distinct
      -- names, the loop over the index of names is a fold of one insertion: each next element in turn
      -- updates the element of its name, or comes last where there is none.
      pub merge_by-upsert_all :
          (curr nexts : List A)
          → IsUnique curr
          → merge_by key update curr nexts ≡ upsert_all curr nexts
      unfolding merge_by lookup
      merge_by-upsert_all curr nexts u =
          merge_loop-upsert curr (index_from key update 0 curr []) nexts
            λ k. lookup-index_from k 0 curr [] u ∙ shifted_zero (position k curr)

      -- Where an update gives an element of a name no other name, the names of the current elements are
      -- distinct, and those of the next ones too, the names
      -- of the merged list are distinct, and a name stands for the current element updated by the
      -- next one, for the one of them that exists, or for nothing.
      pub find_by-merge_by :
          (curr nexts : List A)
          → IsUnique curr
          → IsUnique nexts
          → IsUnique (merge_by key update curr nexts)
            × ((k : String)
                → find_by k (merge_by key update curr nexts)
                  ≡ combined (find_by k curr) (find_by k nexts))
      find_by-merge_by curr nexts u v =
          rw (merge_by-upsert_all curr nexts u)
            (IsUnique-upsert_all curr nexts u, λ k. find_by-upsert_all k curr nexts v)
