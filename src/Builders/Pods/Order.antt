-- ===== src/Builders/Pods/Order.antt =====
-- The two passes of swaps of internal/resource/utils.go. The loops read the elements from the slice that
-- they change; `none` is the panic of an index that is out of range.
pub mod Places
use rabbitmq_operator.Prelude.{
  ℕ, zero, suc, ◌+◌, ◌<◌, ◌≡◌, refl, sym, ap, ◌∙◌, String, Bool, true, false, Option, some, none,
  List, [], ◌∷◌, length, get_elem?, ◌==◌, if◌then◌else◌, arith, inl, inr, Option-cases, eqb,
}
use rabbitmq_operator.Builders.Pods.{EnvVar, VolumeMount}

module _ {ℓ} {A : Type ℓ} where
  -- `l[i] = x`
  unfoldable pub set_elem : ℕ → A → List A → List A
  set_elem i x [] = []
  set_elem zero x (y ∷ l) = x ∷ l
  set_elem (suc i) x (y ∷ l) = y ∷ set_elem i x l

  -- `l[i], l[j] = l[j], l[i]`
  unfoldable pub swap : ℕ → ℕ → List A → Option (List A)
  unfolding set_elem
  swap i j l = elim (get_elem? l i) [
    | none ↦ none
    | some a ↦ elim (get_elem? l j) [ none ↦ none | some b ↦ some (set_elem j a (set_elem i b l)) ]
  ]

  -- One pass: the element at `i` is swapped to the place that its target names.
  module _ (target : A → Option ℕ) where
    unfoldable pub swap_pass : ℕ → ℕ → List A → Option (List A)
    unfolding swap
    swap_pass zero i l = some l
    swap_pass (suc n) i l =
        let kept = swap_pass n (i + 1) l in
        elim (get_elem? l i) [
          | none ↦ kept
          | some e ↦ elim (target e) [
            | none ↦ kept
            | some place ↦ elim (swap place i l) [
              | none ↦ none
              | some swapped ↦ swap_pass n (i + 1) swapped
            ]
          ]
        ]

unfoldable pub env_var_place : EnvVar → Option ℕ
env_var_place e =
    if e.name == "MY_POD_NAME"
    then some 0
    else if e.name == "MY_POD_NAMESPACE"
    then some 1
    else if e.name == "K8S_SERVICE_NAME"
    then some 2
    else none

unfoldable pub sort_env_var : List EnvVar → Option (List EnvVar)
unfolding swap_pass env_var_place
sort_env_var env_var = swap_pass env_var_place (length env_var) 0 env_var

unfoldable pub volume_mount_place : VolumeMount → Option ℕ
volume_mount_place m =
    if m.name == "rabbitmq-erlang-cookie"
    then some 0
    else if m.name == "persistence"
    then some 1
    else none

unfoldable pub sort_volume_mounts : List VolumeMount → Option (List VolumeMount)
unfolding swap_pass volume_mount_place
sort_volume_mounts mounts = swap_pass volume_mount_place (length mounts) 0 mounts

module _ {ℓ} {A : Type ℓ} (is_it : A → Bool) where
  -- The number of the elements that pass a test.
  abbrev pub count : List A → ℕ
  count [] = 0
  count (x ∷ l) = (if is_it x then 1 else 0) + count l

  count-set_elem :
      (i : ℕ) (x y : A) (l : List A)
      → get_elem? l i ≡ some y
      → count (set_elem i x l) + (if is_it y then 1 else 0) ≡ count l + (if is_it x then 1 else 0)
  unfolding set_elem
  count-set_elem i x y [] e = cc
  count-set_elem zero x y (z ∷ l) e = ground (arith, e)
  count-set_elem (suc i) x y (z ∷ l) e = omega (arith, count-set_elem i x y l e)

  get_elem?-set_elem :
      (i j : ℕ) (x y a : A) (l : List A)
      → get_elem? l i ≡ some y
      → get_elem? l j ≡ some a
      → get_elem? (set_elem i x l) j ≡ some (if eqb i j then x else a)
  unfolding set_elem
  get_elem?-set_elem i j x y a [] e h = absurd (cc h)
  get_elem?-set_elem zero zero x y a (z ∷ l) e h = refl
  get_elem?-set_elem zero (suc j) x y a (z ∷ l) e h = ground arith
  get_elem?-set_elem (suc i) zero x y a (z ∷ l) e h = ground arith
  get_elem?-set_elem (suc i) (suc j) x y a (z ∷ l) e h =
      ground (arith, get_elem?-set_elem i j x y a l e h)

  if_same : (b : Bool) (x : A) → (if b then x else x) ≡ x
  if_same true x = refl
  if_same false x = refl

  some_injective : {a b : List A} → some a ≡ some b → a ≡ b
  some_injective e = cc e

  count-swap : (i j : ℕ) (l m : List A) → swap i j l ≡ some m → count m ≡ count l
  unfolding swap
  count-swap i j l m e = elim (Option-cases (get_elem? l i)) [
    | inl p ↦ (let e0 = simp (swap, p) at e in absurd (cc e0))
    | inr (a, p) ↦ elim (Option-cases (get_elem? l j)) [
      | inl q ↦ (let e0 = simp (swap, p, q) at e in absurd (cc e0))
      | inr (b, q) ↦
          (let e0 : some (set_elem j a (set_elem i b l)) ≡ some m = simp (swap, p, q) at e in
            let inner = get_elem?-set_elem i j b a b l p q in
            let one = count-set_elem i b a l p in
            let two =
              count-set_elem j a b (set_elem i b l) (inner ∙ ap some (if_same (eqb i j) b)) in
            let done : set_elem j a (set_elem i b l) ≡ m = some_injective e0 in
            ap count (sym done) ∙ omega arith)
    ]
  ]

  -- A pass that does not panic keeps the elements.
  pub count-swap_pass :
      (target : A → Option ℕ) (n i : ℕ) (l m : List A)
      → swap_pass target n i l ≡ some m
      → count m ≡ count l
  unfolding swap_pass
  count-swap_pass target zero i l m e = ap count (sym (some_injective e))
  count-swap_pass target (suc n) i l m e = elim (Option-cases (get_elem? l i)) [
    | inl p ↦ count-swap_pass target n (i + 1) l m (simp (swap_pass, p) at e)
    | inr (x, p) ↦ elim (Option-cases (target x)) [
      | inl q ↦ count-swap_pass target n (i + 1) l m (simp (swap_pass, p, q) at e)
      | inr (place, q) ↦ elim (Option-cases (swap place i l)) [
        | inl s ↦ (let e0 = simp (swap_pass, p, q, s) at e in absurd (cc e0))
        | inr (swapped, s) ↦
            count-swap_pass target n (i + 1) swapped m (simp (swap_pass, p, q, s) at e)
            ∙ count-swap place i l swapped s
      ]
    ]
  ]
