-- ===== src/Builders/Config/Resize.antt =====
-- A change of the number of replicas, and the restart that internal/resource/configmap.go decides on.
use rabbitmq_operator.Prelude.{
  ℕ, String, Bool, true, false, List, [], ◌∷◌, lookup, insert, text_at, ◌≡◌, ◌∙◌, sym, ap, subst,
  refl, if◌then◌else◌,
}
use rabbitmq_operator.Kube.{OwnerReference, ok}
use rabbitmq_operator.Cluster.{RabbitmqCluster, plugin_in}
use rabbitmq_operator.Metadata.{reconcile_and_filter_annotations}
use rabbitmq_operator.Metadata.Laws.{reconcile_and_filter_annotations_idem}
use rabbitmq_operator.Builders.Meta.{
  wrap_error, bind_passed, wrap_passed, ok_injective, ObjectMeta, SetControllerReference,
  update_meta, with_controller,
}
use rabbitmq_operator.Builders.Config.{
  Ini, ConfigMapObject, size_hint, operator_defaults, delete_hints, operator_configuration,
  user_configuration, config_entries, update_config_map, config_texts,
  remove_config_not_requiring_node_restart, update_server_config_map, user_keys,
}
use rabbitmq_operator.Builders.Config.Restart.{
  IniLaws, resized, DifferAt-operator_configuration, delete_hints-DifferAt, DifferAt,
}
use rabbitmq_operator.Builders.Config.Entries.{Same, text_at-config_entries, entries-Same}

user_configuration-resized :
    (ini : Ini) (c : RabbitmqCluster) (r : ℕ)
    → user_configuration ini (resized c r) ≡ user_configuration ini c
unfolding user_configuration user_keys
user_configuration-resized ini c r = refl

module _ (ini : Ini) (laws : IniLaws ini) where
  strip_passed :
      (cm p : ConfigMapObject) (f : ini.File) (t : String)
      → ini.write f ≡ ok t
      → plugin_in size_hint (ini.key_strings f) ≡ true
      → text_at operator_defaults cm.entries ≡ t
      → remove_config_not_requiring_node_restart ini cm ≡ ok p
      → (s : String) × (ini.write (delete_hints ini f (ini.key_strings f)) ≡ ok s)
        × (p ≡ record cm { entries = insert operator_defaults s cm.entries })
  unfolding remove_config_not_requiring_node_restart
  strip_passed cm p f t w hint at e =
      let e1 = simp (at, laws.has_text f size_hint t hint w, laws.reload f t w) at e in
      bind_passed (wrap_error _ (ini.write (delete_hints ini f (ini.key_strings f))))
        (λ text. ok (record cm { entries = insert operator_defaults text cm.entries })) e1
        λ s q z. (
          s,
          wrap_passed _ (ini.write (delete_hints ini f (ini.key_strings f))) q,
          sym (ok_injective z),
        )

  -- The texts for two numbers of replicas: of files that differ in the hint at most, and one text.
  abbrev SameTexts : String × String → String × String → Type 0
  SameTexts x y =
      (f : ini.File) × (g : ini.File) × (ini.write f ≡ ok x.0)
      × (ini.write g ≡ ok y.0)
      × DifferAt laws size_hint f g
      × (x.1 ≡ y.1)

  config_texts-SameTexts :
      (c : RabbitmqCluster) (r : ℕ) (x y : String × String)
      → config_texts ini c ≡ ok x
      → config_texts ini (resized c r) ≡ ok y
      → SameTexts x y
  unfolding config_texts
  config_texts-SameTexts c r x y e e' = bind_passed (operator_configuration ini c) _ e λ f p1 e1.
      bind_passed (operator_configuration ini (resized c r)) _ e' λ f' p1' e1'.
        bind_passed (user_configuration ini c) _ e1 λ g p2 e2.
          bind_passed (user_configuration ini (resized c r)) _ e1' λ g' p2' e2'.
            bind_passed (ini.write f) _ e2 λ t p3 e3. bind_passed (ini.write f') _ e2' λ t' p3' e3'.
              let one : g ≡ g' =
                ok_injective (sym p2 ∙ sym (user_configuration-resized ini c r) ∙ p2') in
              bind_passed (wrap_error _ (ini.append g _)) _ e3 λ h p4 e4.
                bind_passed (wrap_error _ (ini.append g' _)) _ e3' λ h' p4' e4'.
                  let config = c.spec.rabbitmq.additional_config in
                  let two : h ≡ h' = ok_injective (
                    sym (wrap_passed _ (ini.append g config) p4)
                    ∙ ap (λ k. ini.append k config) one
                    ∙ wrap_passed _ (ini.append g' config) p4') in
                  bind_passed (ini.write h) _ e4 λ u p5 e5.
                    bind_passed (ini.write h') _ e4' λ u' p5' e5'.
                      let three : u ≡ u' = ok_injective (sym p5 ∙ ap ini.write two ∙ p5') in
                      (
                        f,
                        f',
                        p3 ∙ ap (λ z. ok z.0) (ok_injective e5),
                        p3' ∙ ap (λ z. ok z.0) (ok_injective e5'),
                        DifferAt-operator_configuration laws c r f f' p1 p1',
                        sym (ap (λ z. z.1) (ok_injective e5))
                            ∙ three
                            ∙ ap (λ z. z.1) (ok_injective e5'),
                      )

  module _ (set : SetControllerReference) where
    -- What an update without an error has computed.
    update_passed {ℓ} :
        {C : Type ℓ} (c : RabbitmqCluster) (cm out : ConfigMapObject)
        → update_config_map ini set c cm ≡ ok out
        → ((x : String × String) (owners : List OwnerReference)
            → config_texts ini c ≡ ok x
            → set c (update_meta c cm.meta) ≡ ok owners
            → out ≡ record {
              meta = record (update_meta c cm.meta) { owner_references = owners };
              entries = config_entries c x.0 x.1 cm.entries;
            }
            → C)
        → C
    unfolding update_config_map with_controller
    update_passed c cm out e use_it = bind_passed (config_texts ini c) _ e λ x p e1.
        bind_passed (with_controller set c (update_meta c cm.meta)) _ e1 λ meta q e2.
          bind_passed (wrap_error _ (set c (update_meta c cm.meta))) _ q λ owners s e3.
            use_it x owners p (wrap_passed _ (set c (update_meta c cm.meta)) s) (
              sym (ok_injective e2)
              ∙ ap
                  (λ (m : ObjectMeta). record {
                    meta = m;
                    entries = config_entries c x.0 x.1 cm.entries;
                  })
                  (sym (ok_injective e3)))

    stripped-Same :
        (c : RabbitmqCluster) (r : ℕ) (cm out out' p p' : ConfigMapObject)
        → ((m n : ObjectMeta) (o o' : List OwnerReference)
            → set c m ≡ ok o
            → n.owner_references ≡ o
            → set (resized c r) n ≡ ok o'
            → o' ≡ o)
        → update_config_map ini set c cm ≡ ok out
        → update_config_map ini set (resized c r) out ≡ ok out'
        → remove_config_not_requiring_node_restart ini out ≡ ok p
        → remove_config_not_requiring_node_restart ini out' ≡ ok p'
        → Same p p'
    unfolding update_meta
    stripped-Same c r cm out out' p p' again e e' s s' =
        update_passed c cm out e λ x owners x_is set_is out_is.
          update_passed (resized c r) out out' e' λ y owners' y_is set_is' out_is'.
            let (f, g, w, w', d, same_user) = config_texts-SameTexts c r x y x_is y_is in
            let (same, keys, has) = d in
            let text = ap (λ z. text_at operator_defaults z.entries) out_is in
            let text' = ap (λ z. text_at operator_defaults z.entries) out_is' in
            let (a, v, p_is) =
              strip_passed out p f x.0 w has (text ∙ text_at-config_entries c x.0 x.1 cm.entries)
                s in
            let (b, v', p_is') =
              strip_passed out' p' g y.0 w' (subst (λ ks. plugin_in size_hint ks ≡ true) keys has)
                (text' ∙ text_at-config_entries (resized c r) y.0 y.1 out.entries) s' in
            let left : delete_hints ini f (ini.key_strings f)
                ≡ delete_hints ini g (ini.key_strings g) =
              delete_hints-DifferAt laws (ini.key_strings f) f g same has
              ∙ ap (delete_hints ini g) keys in
            let one : a ≡ b = ok_injective (sym v ∙ ap ini.write left ∙ v') in
            let inherited = c.annotations ∷ [] in
            let both = config_entries c x.0 x.1 cm.entries in
            (
              ap (λ z. z.meta.name) p_is
                  ∙ sym (ap (λ z. z.meta.name) out_is')
                  ∙ sym (ap (λ z. z.meta.name) p_is'),
              ap (λ z. z.meta.namespace) p_is
                  ∙ sym (ap (λ z. z.meta.namespace) out_is')
                  ∙ sym (ap (λ z. z.meta.namespace) p_is'),
              ap (λ z. z.meta.owner_references) p_is
                  ∙ ap (λ z. z.meta.owner_references) out_is
                  ∙ sym (
                      again (update_meta c cm.meta) (update_meta (resized c r) out.meta) owners
                        owners' set_is (ap (λ z. z.meta.owner_references) out_is) set_is')
                  ∙ sym (ap (λ z. z.meta.owner_references) out_is')
                  ∙ sym (ap (λ z. z.meta.owner_references) p_is'),
              λ k.
                  ap (λ z. lookup k z.meta.labels) p_is
                  ∙ ap (λ z. lookup k z.meta.labels) out_is
                  ∙ sym (ap (λ z. lookup k z.meta.labels) out_is')
                  ∙ sym (ap (λ z. lookup k z.meta.labels) p_is'),
              λ k.
                  ap (λ z. lookup k z.meta.annotations) p_is
                  ∙ ap (λ z. lookup k z.meta.annotations) out_is
                  ∙ sym (reconcile_and_filter_annotations_idem k cm.meta.annotations c.annotations)
                  ∙ sym (
                      ap
                        (λ z.
                          lookup k (reconcile_and_filter_annotations z.meta.annotations inherited))
                        out_is)
                  ∙ sym (ap (λ z. lookup k z.meta.annotations) out_is')
                  ∙ sym (ap (λ z. lookup k z.meta.annotations) p_is'),
              λ k.
                  ap (λ z. lookup k z.entries) p_is
                  ∙ ap (λ z. lookup k (insert operator_defaults a z.entries)) out_is
                  ∙ entries-Same c r x.0 y.0 x.1 a cm.entries k
                  ∙ ap
                      (λ u.
                        lookup k
                          (insert operator_defaults a (config_entries (resized c r) y.0 u both)))
                      same_user
                  ∙ sym (
                      ap
                        (λ z. lookup k (
                          insert operator_defaults a
                            (config_entries (resized c r) y.0 y.1 z.entries)))
                        out_is)
                  ∙ sym (ap (λ z. lookup k (insert operator_defaults a z.entries)) out_is')
                  ∙ ap (λ i. lookup k (insert operator_defaults i out'.entries)) one
                  ∙ sym (ap (λ z. lookup k z.entries) p_is'),
            )

    -- Given the laws of the ini library, a comparison that is true of config maps with the same
    -- contents, and an owner that is set again without a change: where a config map has been written
    -- for a cluster, an update without an error after a change of the number of replicas alone
    -- requires no restart of the nodes.
    pub update_server_config_map-resized :
        (semantic_equal : ConfigMapObject → ConfigMapObject → Bool)
        → ((a b : ConfigMapObject) → Same a b → semantic_equal a b ≡ true)
        → (c : RabbitmqCluster) (r : ℕ) (cm out out' : ConfigMapObject) (flag flag' before : Bool)
        → ((m n : ObjectMeta) (o o' : List OwnerReference)
            → set c m ≡ ok o
            → n.owner_references ≡ o
            → set (resized c r) n ≡ ok o'
            → o' ≡ o)
        → update_server_config_map ini set semantic_equal c before cm ≡ ok (out, flag)
        → update_server_config_map ini set semantic_equal (resized c r) true out ≡ ok (out', flag')
        → flag' ≡ false
    unfolding update_server_config_map
    update_server_config_map-resized equal sound c r cm out out' flag flag' before again e e' =
        bind_passed (update_config_map ini set c cm) _ e λ o1 u1 e1.
          bind_passed (remove_config_not_requiring_node_restart ini cm) _ e1 λ p0 s0 e2.
            bind_passed (remove_config_not_requiring_node_restart ini o1) _ e2 λ p1 s1 e3.
              bind_passed (update_config_map ini set (resized c r) out) _ e' λ o2 u2 f1.
                bind_passed (remove_config_not_requiring_node_restart ini out) _ f1 λ q sq f2.
                  bind_passed (remove_config_not_requiring_node_restart ini o2) _ f2 λ q' sq' f3.
                    let written : o1 ≡ out = ap (λ z. z.0) (ok_injective e3) in
                    sym (ap (λ z. z.1) (ok_injective f3))
                    ∙ ap (λ (b : Bool). if b then false else true)
                        (sound q q'
                          (stripped-Same c r cm out o2 q q' again (u1 ∙ ap ok written) u2 sq sq'))
