-- ===== src/Builders/Config/Unchanged.antt =====
-- What the comparison of internal/resource/configmap.go rules out where it requires no restart.
use rabbitmq_operator.Prelude.{
  String, Bool, true, false, Bool-cases, inl, inr, lookup, text_at, lookup-insert, ◌≡◌, ◌∙◌, sym,
  ap, refl, arith, ◌==◌, if◌then◌else◌,
}
use rabbitmq_operator.Kube.{ok}
use rabbitmq_operator.Cluster.{RabbitmqCluster}
use rabbitmq_operator.Builders.Meta.{wrap_error, bind_passed, ok_injective, SetControllerReference}
use rabbitmq_operator.Builders.Config.{
  Ini, ConfigMapObject, operator_defaults, delete_hints, update_config_map,
  remove_config_not_requiring_node_restart, update_server_config_map,
}
use rabbitmq_operator.Builders.Config.Entries.{Same}

if_false : (b : Bool) → (if b then false else true) ≡ false → b ≡ true
if_false true e = refl
if_false false e = sym e

-- The texts but the operator's are not touched before the comparison.
lookup-remove :
    (ini : Ini) (cm p : ConfigMapObject) (k : String)
    → (operator_defaults == k) ≡ false
    → remove_config_not_requiring_node_restart ini cm ≡ ok p
    → lookup k p.entries ≡ lookup k cm.entries
unfolding remove_config_not_requiring_node_restart
lookup-remove ini cm p k other e = elim (Bool-cases (text_at operator_defaults cm.entries == "")) [
  | inl empty ↦ sym (ap (λ z. lookup k z.entries) (ok_injective (simp (empty) at e)))
  | inr there ↦
      (let e0 = simp (there) at e in
        bind_passed (wrap_error _ (ini.load (text_at operator_defaults cm.entries))) _ e0
          λ conf p1 e1.
            bind_passed (wrap_error _ (ini.write (delete_hints ini conf (ini.key_strings conf)))) _
              e1
              λ s p2 e2.
                ap (λ z. lookup k z.entries) (sym (ok_injective e2))
                ∙ ground (arith, lookup-insert operator_defaults k s cm.entries))
]

-- Given a comparison that is true of config maps with the same contents alone: where an update without
-- an error requires no restart, every text of the config map but the operator's is unchanged.
pub update_server_config_map-Same :
    (ini : Ini) (set : SetControllerReference)
    (semantic_equal : ConfigMapObject → ConfigMapObject → Bool)
    → ((a b : ConfigMapObject) → semantic_equal a b ≡ true → Same a b)
    → (c : RabbitmqCluster) (cm out : ConfigMapObject) (k : String)
    → update_server_config_map ini set semantic_equal c true cm ≡ ok (out, false)
    → (operator_defaults == k) ≡ false
    → lookup k out.entries ≡ lookup k cm.entries
unfolding update_server_config_map
update_server_config_map-Same ini set equal complete c cm out k e other =
    bind_passed (update_config_map ini set c cm) _ e λ o1 u1 e1.
      bind_passed (remove_config_not_requiring_node_restart ini cm) _ e1 λ p s e2.
        bind_passed (remove_config_not_requiring_node_restart ini o1) _ e2 λ q s' e3.
          let flag : equal p q ≡ true = if_false (equal p q) (ap (λ z. z.1) (ok_injective e3)) in
          let (_, _, _, _, _, same) = complete p q flag in
          ap (λ z. lookup k z.0.entries) (sym (ok_injective e3))
          ∙ sym (lookup-remove ini o1 q k other s')
          ∙ sym (same k)
          ∙ lookup-remove ini cm p k other s
