-- ===== src/Merge.antt =====
-- The merge functions of internal/resource/utils.go, which all have one shape: an index by name of
-- the current elements, then an update or an append for each next element.
pub mod Reference
pub mod Settles
use rabbitmq_operator.Prelude.{
  ℕ, zero, suc, String, none, some, List, [], ◌∷◌, ◌++◌, Map, lookup, insert, length,
}
use rabbitmq_operator.Ports.{ServicePort}

module _ {ℓ} {A : Type ℓ} (key : A → String) (update : A → A → A) where
  -- `for index := range curr { currMap[curr[index].Name] = index }`
  unfoldable pub index_from : ℕ → List A → Map ℕ → Map ℕ
  index_from i [] curr_map = curr_map
  index_from i (x ∷ xs) curr_map = index_from (suc i) xs (insert (key x) i curr_map)

  -- `curr[index]` is changed in place; an index out of range would panic.
  unfoldable pub update_at : List A → ℕ → A → List A
  update_at [] i next = []
  update_at (x ∷ xs) zero next = update x next ∷ xs
  update_at (x ∷ xs) (suc i) next = x ∷ update_at xs i next

  unfoldable pub merge_loop : List A → Map ℕ → List A → List A
  unfolding update_at
  merge_loop curr curr_map [] = curr
  merge_loop curr curr_map (next ∷ nexts) =
      let appended =
        merge_loop (curr ++ next ∷ []) (insert (key next) (length curr) curr_map) nexts in
      elim (lookup (key next) curr_map) [
        | some index ↦ merge_loop (update_at curr index next) curr_map nexts
        | none ↦ appended
      ]

  unfoldable pub merge_by : List A → List A → List A
  unfolding index_from merge_loop
  merge_by curr nexts = merge_loop curr (index_from 0 curr []) nexts

-- The branch of `mergePorts` that finds the name: the rest, such as the node port, is kept.
unfoldable pub update_port : ServicePort → ServicePort → ServicePort
update_port curr next = record curr {
  port = next.port;
  target_port = next.target_port;
  protocol = next.protocol;
}

unfoldable pub merge_service_ports : List ServicePort → List ServicePort → List ServicePort
unfolding merge_by update_port
merge_service_ports = merge_by (λ p. p.name) update_port
