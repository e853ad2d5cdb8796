-- ===== src/Builders/Config/Entries.antt =====
-- The entries and the metadata of the config map of internal/resource/configmap.go, seen as
-- functions from keys.
use rabbitmq_operator.Prelude.{
  ℕ, String, Option, some, none, Map, lookup, insert, text_at, lookup-insert, lookup-delete, ◌≡◌,
  ap, arith, ◌==◌, if◌then◌else◌,
}
use rabbitmq_operator.Cluster.{RabbitmqCluster}
use rabbitmq_operator.Builders.Config.{
  ConfigMapObject, operator_defaults, user_defined, update_property, config_entries,
}
use rabbitmq_operator.Builders.Config.Restart.{resized}

abbrev property : String → Option String
property value = if value == "" then none else some value

lookup-update_property :
    (k key value : String) (entries : Map String)
    → lookup k (update_property entries key value)
      ≡ (if key == k then property value else lookup k entries)
unfolding update_property
lookup-update_property k key value entries =
    ground (arith, lookup-insert key k value entries, lookup-delete key k entries)

pub lookup-config_entries :
    (c : RabbitmqCluster) (t u k : String) (entries : Map String)
    → let rmq = c.spec.rabbitmq in
      lookup k (config_entries c t u entries) ≡ (
        if "erl_inetrc" == k
        then property rmq.erlang_inet_config
        else if "rabbitmq-env.conf" == k
        then property rmq.env_config
        else if "advanced.config" == k
        then property rmq.advanced_config
        else if user_defined == k
        then some u
        else if operator_defaults == k
        then some t
        else lookup k entries)
unfolding config_entries
lookup-config_entries c t u k entries = simp (lookup-update_property, lookup-insert)

-- Maps with the same values.
abbrev pub SameMap : Map String → Map String → Type 0
SameMap a b = (k : String) → lookup k a ≡ lookup k b

-- Config maps that differ in the order of their maps at most.
abbrev pub Same : ConfigMapObject → ConfigMapObject → Type 0
Same a b =
    (a.meta.name ≡ b.meta.name)
    × (a.meta.namespace ≡ b.meta.namespace)
    × (a.meta.owner_references ≡ b.meta.owner_references)
    × SameMap a.meta.labels b.meta.labels
    × SameMap a.meta.annotations b.meta.annotations
    × SameMap a.entries b.entries

-- The text of the operator in an updated map.
pub text_at-config_entries :
    (c : RabbitmqCluster) (t u : String) (entries : Map String)
    → text_at operator_defaults (config_entries c t u entries) ≡ t
text_at-config_entries c t u entries =
    ap (λ o. elim o [ none ↦ "" | some v ↦ v ])
      (lookup-config_entries c t u operator_defaults entries)

-- A second update finds the labels, the annotations and the values of the first one.
pub entries-Same :
    (c : RabbitmqCluster) (r : ℕ) (t t' u s : String) (entries : Map String)
    → let once = config_entries c t u entries in
      SameMap
        (insert operator_defaults s once)
        (insert operator_defaults s (config_entries (resized c r) t' u once))
entries-Same c r t t' u s entries k = ground (
  arith,
  lookup-insert operator_defaults k s (config_entries c t u entries),
  lookup-insert operator_defaults k s
      (config_entries (resized c r) t' u (config_entries c t u entries)),
  lookup-config_entries c t u k entries,
  lookup-config_entries (resized c r) t' u k (config_entries c t u entries),
)
