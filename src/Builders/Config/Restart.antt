-- ===== src/Builders/Config/Restart.antt =====
-- Which changes of the configuration of internal/resource/configmap.go leave the nodes running.
use rabbitmq_operator.Prelude.{
  ℕ, String, Bool, true, false, ◌||◌, List, [], ◌∷◌, ◌++◌, starts_with, ◌≡◌, ◌∙◌, itoa, subst,
  eq_refl, sym, ap, refl, arith, ◌==◌, if◌then◌else◌, eq_iff, Bool-cases, inl, inr,
}
use rabbitmq_operator.Kube.{ok}
use rabbitmq_operator.Cluster.{RabbitmqCluster, plugin_in}
use rabbitmq_operator.Controller.Cli.Plugins.{plugin_in-append}
use rabbitmq_operator.Builders.Meta.{bind_passed, ok_injective}
use rabbitmq_operator.Builders.Config.{
  Ini, Keys, size_hint, new_keys, delete_hints, auth_keys, operator_keys, operator_configuration,
  are_auth_mechanisms_configured,
}

-- The keys of a section behind a key that is added, which keeps its place if it is there.
abbrev pub add_key : String → List String → List String
add_key k keys = if plugin_in k keys then keys else keys ++ k ∷ []

-- What the operator relies on of `gopkg.in/ini.v1`: a written file is read back; a file with keys has
-- a text; the keys are in order; deleting a key undoes adding it, and leaves the others as they are.
pub record IniLaws (ini : Ini) : Type 0 where
  pub reload : (f : ini.File) (text : String) → ini.write f ≡ ok text → ini.load text ≡ ok f
  pub has_text :
      (f : ini.File) (k text : String)
      → plugin_in k (ini.key_strings f) ≡ true
      → ini.write f ≡ ok text
      → (text == "") ≡ false
  pub key_strings-new :
      (f g : ini.File) (k v : String)
      → ini.new_key f k v ≡ ok g
      → ini.key_strings g ≡ add_key k (ini.key_strings f)
  pub delete-new :
      (f g : ini.File) (k v : String)
      → ini.new_key f k v ≡ ok g
      → ini.delete_key g k ≡ ini.delete_key f k
  pub delete_new_other :
      (f g : ini.File) (j k v : String)
      → (j == k) ≡ false
      → ini.new_key f k v ≡ ok g
      → ini.new_key (ini.delete_key f j) k v ≡ ok (ini.delete_key g j)
  pub delete_delete :
      (f : ini.File) (j k : String)
      → ini.delete_key (ini.delete_key f j) k ≡ ini.delete_key (ini.delete_key f k) j

plugin_in-add_key :
    (j k : String) (keys : List String)
    → plugin_in j keys ≡ true
    → plugin_in j (add_key k keys) ≡ true
plugin_in-add_key j k keys e = ground (arith, plugin_in-append j keys (k ∷ []))

plugin_in-only : (k : String) → plugin_in k (k ∷ []) ≡ true
unfolding plugin_in
plugin_in-only k = ground (arith, eq_refl k)

add_key-has : (k : String) (keys : List String) → plugin_in k (add_key k keys) ≡ true
add_key-has k keys = elim (Bool-cases (plugin_in k keys)) [
  | inl there ↦ rw there there
  | inr absent ↦ rw absent (
      plugin_in-append k keys (k ∷ [])
      ∙ ap (λ b. b || plugin_in k (k ∷ [])) absent
      ∙ plugin_in-only k)
]

-- The cluster with another number of replicas.
abbrev pub resized : RabbitmqCluster → ℕ → RabbitmqCluster
resized c r = record c { spec = record c.spec { replicas = r } }

module _ {ini : Ini} (laws : IniLaws ini) where
  -- Files that differ in the value of one key at most, which both have.
  abbrev pub DifferAt : String → ini.File → ini.File → Type 0
  DifferAt k f g =
      (ini.delete_key f k ≡ ini.delete_key g k)
      × (ini.key_strings f ≡ ini.key_strings g)
      × (plugin_in k (ini.key_strings f) ≡ true)

  DifferAt-new :
      (j : String) (f g f' g' : ini.File) (k v : String)
      → (j == k) ≡ false
      → DifferAt j f g
      → ini.new_key f k v ≡ ok f'
      → ini.new_key g k v ≡ ok g'
      → DifferAt j f' g'
  DifferAt-new j f g f' g' k v other (same, keys, at) e e' = (
    ok_injective (
        sym (laws.delete_new_other f f' j k v other e)
        ∙ ap (λ h. ini.new_key h k v) same
        ∙ laws.delete_new_other g g' j k v other e'),
    laws.key_strings-new f f' k v e ∙ ap (add_key k) keys ∙ sym (laws.key_strings-new g g' k v e'),
    rw (laws.key_strings-new f f' k v e) (plugin_in-add_key j k (ini.key_strings f) at),
  )

  -- None of the keys has a name.
  abbrev Without : String → Keys → Type 0
  Without j [] = Unit
  Without j ((k, v) ∷ keys) = ((j == k) ≡ false) × Without j keys

  DifferAt-new_keys :
      (j : String) (keys : Keys) (f g f' g' : ini.File)
      → Without j keys
      → DifferAt j f g
      → new_keys ini f keys ≡ ok f'
      → new_keys ini g keys ≡ ok g'
      → DifferAt j f' g'
  unfolding new_keys
  DifferAt-new_keys j [] f g f' g' w d e e' = rw (← (ok_injective e), ← (ok_injective e')) d
  DifferAt-new_keys j ((k, v) ∷ keys) f g f' g' (other, w) d e e' =
      bind_passed (ini.new_key f k v) (λ h. new_keys ini h keys) e
        λ a p q.
          bind_passed (ini.new_key g k v) (λ h. new_keys ini h keys) e'
            λ b p' q'.
              DifferAt-new_keys j keys a b f' g' w (DifferAt-new j f g a b k v other d p p') q q'

  -- Deleting by the prefix removes the difference.
  pub delete_hints-DifferAt :
      (keys : List String) (f g : ini.File)
      → ini.delete_key f size_hint ≡ ini.delete_key g size_hint
      → plugin_in size_hint keys ≡ true
      → delete_hints ini f keys ≡ delete_hints ini g keys
  unfolding delete_hints plugin_in
  delete_hints-DifferAt [] f g same at = absurd (cc at)
  delete_hints-DifferAt (k ∷ keys) f g same at = elim (Bool-cases (k == size_hint)) [
    | inl hint ↦ rw ((eq_iff k size_hint).0 hint) (ap (λ h. delete_hints ini h keys) same)
    | inr other ↦
        (let behind : plugin_in size_hint keys ≡ true = ground arith in
          elim (Bool-cases (starts_with k size_hint)) [
            | inl prefix ↦ rw prefix (
                delete_hints-DifferAt keys (ini.delete_key f k) (ini.delete_key g k)
                  (laws.delete_delete f k size_hint
                    ∙ ap (λ h. ini.delete_key h k) same
                    ∙ laws.delete_delete g size_hint k)
                  behind)
            | inr longer ↦ rw longer (delete_hints-DifferAt keys f g same behind)
          ])
  ]

  DifferAt-hint :
      (conf conf' a b : ini.File) (k v w : String)
      → conf ≡ conf'
      → ini.new_key conf k v ≡ ok a
      → ini.new_key conf' k w ≡ ok b
      → DifferAt k a b
  DifferAt-hint conf conf' a b k v w same p q = (
    laws.delete-new conf a k v p
        ∙ ap (λ h. ini.delete_key h k) same
        ∙ sym (laws.delete-new conf' b k w q),
    laws.key_strings-new conf a k v p
        ∙ ap (λ h. add_key k (ini.key_strings h)) same
        ∙ sym (laws.key_strings-new conf' b k w q),
    rw (laws.key_strings-new conf a k v p) (add_key-has k (ini.key_strings conf)),
  )

  -- The keys of the operator for two numbers of replicas.
  DifferAt-operator_keys :
      (c : RabbitmqCluster) (r : ℕ) (conf conf' f g : ini.File)
      → conf ≡ conf'
      → new_keys ini conf (operator_keys c) ≡ ok f
      → new_keys ini conf' (operator_keys (resized c r)) ≡ ok g
      → DifferAt size_hint f g
  unfolding new_keys operator_keys
  DifferAt-operator_keys c r conf conf' f g same e e' =
      let name = ("cluster_name", c.name) ∷ [] in
      bind_passed (ini.new_key conf size_hint (itoa c.spec.replicas)) (λ h. new_keys ini h name) e
        λ a p q.
          bind_passed (ini.new_key conf' size_hint (itoa r)) (λ h. new_keys ini h name) e'
            λ b p' q'.
              DifferAt-new_keys size_hint name a b f g (refl, tt)
                (DifferAt-hint conf conf' a b size_hint _ _ same p p') q q'

  Without-auth_keys : (auth : Bool) → Without size_hint (auth_keys auth)
  Without-auth_keys true = tt
  Without-auth_keys false = (refl, (refl, tt))

  pub DifferAt-operator_configuration :
      (c : RabbitmqCluster) (r : ℕ) (f g : ini.File)
      → operator_configuration ini c ≡ ok f
      → operator_configuration ini (resized c r) ≡ ok g
      → DifferAt size_hint f g
  unfolding operator_configuration
  DifferAt-operator_configuration c r f g e e' = bind_passed (ini.load _) _ e λ conf l e1.
      bind_passed (ini.load _) _ e' λ conf' l' e1'.
        bind_passed (new_keys ini conf (operator_keys c)) _ e1 λ a p e2.
          bind_passed (new_keys ini conf' (operator_keys (resized c r))) _ e1' λ b p' e2'.
            bind_passed (are_auth_mechanisms_configured ini _) _ e2 λ auth m e3.
              bind_passed (are_auth_mechanisms_configured ini _) _ e2' λ auth' m' e3'.
                let same : auth' ≡ auth = ok_injective (sym m' ∙ m) in
                DifferAt-new_keys size_hint (auth_keys auth) a b f g (Without-auth_keys auth)
                  (DifferAt-operator_keys c r conf conf' a b (ok_injective (sym l ∙ l')) p p') e3
                  (subst (λ x. new_keys ini b (auth_keys x) ≡ ok g) same e3')
