-- ===== src/Controller/Cli/Plugins.antt =====
-- The plugins that are set on the pods.
use rabbitmq_operator.Prelude.{
  inl, inr, String, false, ◌||◌, List, [], ◌∷◌, ◌++◌, ◌≡◌, refl, ap, ◌∙◌, arith, ◌==◌, Bool-cases,
  eq_iff,
}
use rabbitmq_operator.Cluster.{plugin_in}
use rabbitmq_operator.Controller.Cli.{required_plugins, take_plugins, desired_plugins}

-- No text stands twice in the list.
abbrev pub IsDistinct : List String → Type 0
IsDistinct [] = Unit
IsDistinct (p ∷ ps) = (plugin_in p ps ≡ false) × IsDistinct ps

pub plugin_in-append :
    (p : String) (xs ys : List String) → plugin_in p (xs ++ ys) ≡ (plugin_in p xs || plugin_in p ys)
unfolding plugin_in
plugin_in-append p [] ys = refl
plugin_in-append p (x ∷ xs) ys = ground (arith, plugin_in-append p xs ys)

plugin_in-one : (p x : String) → plugin_in p (x ∷ []) ≡ (x == p)
unfolding plugin_in
plugin_in-one p x = ground arith

plugin_in-take :
    (p : String) (xs ys : List String)
    → plugin_in p (take_plugins xs ys) ≡ (plugin_in p xs || plugin_in p ys)
unfolding take_plugins plugin_in
plugin_in-take p xs [] = ground arith
plugin_in-take p xs (y ∷ ys) = ground (
  arith,
  eq_iff y p,
  plugin_in-take p xs ys,
  plugin_in-take p (xs ++ y ∷ []) ys,
  plugin_in-append p xs (y ∷ []),
)

not_first :
    (p x : String) (xs : List String)
    → plugin_in p (x ∷ xs) ≡ false
    → ((p == x) ≡ false) × (plugin_in p xs ≡ false)
unfolding plugin_in
not_first p x xs h = (ground (arith, eq_iff x p, eq_iff p x), ground arith)

IsDistinct-append :
    (p : String) (xs : List String)
    → IsDistinct xs
    → plugin_in p xs ≡ false
    → IsDistinct (xs ++ p ∷ [])
unfolding plugin_in
IsDistinct-append p [] d h = (refl, tt)
IsDistinct-append p (x ∷ xs) (n, d) h =
    let (other, absent) = not_first p x xs h in
    (
      plugin_in-append x xs (p ∷ [])
          ∙ ap (λ b. b || plugin_in x (p ∷ [])) n
          ∙ plugin_in-one x p
          ∙ other,
      IsDistinct-append p xs d absent,
    )

IsDistinct-take : (xs ys : List String) → IsDistinct xs → IsDistinct (take_plugins xs ys)
unfolding take_plugins
IsDistinct-take xs [] d = d
IsDistinct-take xs (y ∷ ys) d = elim (Bool-cases (plugin_in y xs)) [
  | inl q ↦ rw q (IsDistinct-take xs ys d)
  | inr q ↦ rw q (IsDistinct-take (xs ++ y ∷ []) ys (IsDistinct-append y xs d q))
]

-- The list that is set has each plugin once, and it has exactly the required plugins and the
-- additional ones of the cluster.
pub desired_plugins-IsDistinct :
    (additional : List String)
    → IsDistinct (desired_plugins additional)
      × ((p : String)
          → plugin_in p (desired_plugins additional)
            ≡ (plugin_in p required_plugins || plugin_in p additional))
unfolding desired_plugins
desired_plugins-IsDistinct additional = (
  IsDistinct-take [] (required_plugins ++ additional) tt,
  λ p.
      plugin_in-take p [] (required_plugins ++ additional)
      ∙ plugin_in-append p required_plugins additional,
)
