-- ===== src/Builders/Pods/Vault.antt =====
-- The annotations for Vault of internal/resource/statefulset.go.
use Prim.Native.String.{slice, len}
use rabbitmq_operator.Prelude.{
  ℕ, zero, suc, ◌+◌, String, [], ◌∷◌, ◌++◌, ◌==◌, ◌<>◌, starts_with, if◌then◌else◌,
}
use rabbitmq_operator.Cluster.{
  RabbitmqCluster, VaultSpec, child_resource_name, pod_name, service_sub_domain,
  default_user_secret_enabled, vault_spec_tls_enabled,
}
use rabbitmq_operator.Metadata.{Labels, reconcile_annotations}

-- `strings.TrimPrefix`
abbrev pub trim_prefix : String → String → String
trim_prefix prefix s = if starts_with s prefix then slice s (len prefix) (len s) else s

unfoldable pub pod_host_name : RabbitmqCluster → ℕ → String
unfolding pod_name child_resource_name
pod_host_name cluster i =
    pod_name cluster "server" i
    <> "."
    <> child_resource_name cluster "nodes"
    <> "."
    <> cluster.namespace

-- The loop of `podHostNames` from pod `i`, with `n` rounds left.
unfoldable pub add_host_names : RabbitmqCluster → ℕ → ℕ → String → String
unfolding pod_host_name
add_host_names cluster zero i alt_names = alt_names
add_host_names cluster (suc n) i alt_names =
    add_host_names cluster n (i + 1) (alt_names <> "," <> pod_host_name cluster i)

unfoldable pub pod_host_names : RabbitmqCluster → String
unfolding add_host_names
pod_host_names cluster = trim_prefix "," (add_host_names cluster cluster.spec.replicas 0 "")

unfoldable pub generate_vault_tls_template : String → String → String → String → String → String
generate_vault_tls_template common_name alt_names vault_path ip_sans attribute =
    "\n{{- with secret \"" <> vault_path <> "\" \"common_name=" <> common_name <> "\" \"alt_names="
    <> alt_names <> "\" \"ip_sans=" <> ip_sans <> "\" -}}\n{{ .Data." <> attribute
    <> " }}\n{{- end }}"

unfoldable pub generate_vault_ca_template : String → String → VaultSpec → String
unfolding generate_vault_tls_template
generate_vault_ca_template common_name alt_names vault =
    if vault.tls.pki_root_path == ""
    then generate_vault_tls_template common_name alt_names vault.tls.pki_issuer_path
        vault.tls.ip_sans "issuing_ca"
    else "\n{{- with secret \"" <> vault.tls.pki_root_path
      <> "\" -}}\n{{ .Data.certificate }}\n{{- end }}"

unfoldable pub generate_vault_tls_certificate_template : String → String → VaultSpec → String
generate_vault_tls_certificate_template common_name alt_names vault =
    "\n{{- with secret \"" <> vault.tls.pki_issuer_path <> "\" \"common_name=" <> common_name
    <> "\" \"alt_names=" <> alt_names <> "\" \"ip_sans=" <> vault.tls.ip_sans
    <> "\" -}}\n{{ .Data.certificate }}\n{{- if .Data.ca_chain -}}\n{{- $lastintermediatecertindex := len .Data.ca_chain | subtract 1 -}}\n{{ range $index, $cacert := .Data.ca_chain }}\n{{ if (lt $index $lastintermediatecertindex) }}\n{{ $cacert }}\n{{ end }}\n{{ end }}\n{{- end -}}\n{{- end -}}"

abbrev default_user_annotations : VaultSpec → Labels
default_user_annotations vault =
    ("vault.hashicorp.com/secret-volume-path-11-default_user.conf", "/etc/rabbitmq/conf.d")
    ∷ ("vault.hashicorp.com/agent-inject-perms-11-default_user.conf", "0640")
    ∷ ("vault.hashicorp.com/agent-inject-secret-11-default_user.conf", vault.default_user_path)
    ∷ (
      "vault.hashicorp.com/agent-inject-template-11-default_user.conf",
      "\n{{- with secret \"" <> vault.default_user_path
          <> "\" -}}\ndefault_user = {{ .Data.data.username }}\ndefault_pass = {{ .Data.data.password }}\n{{- end }}",
    )
    ∷ []

-- The three annotations of one file of TLS.
abbrev file_annotations : String → String → String → Labels
file_annotations file path template =
    ("vault.hashicorp.com/secret-volume-path-" <> file, "/etc/rabbitmq-tls")
    ∷ ("vault.hashicorp.com/agent-inject-secret-" <> file, path)
    ∷ ("vault.hashicorp.com/agent-inject-template-" <> file, template)
    ∷ []

unfoldable pub tls_annotations : RabbitmqCluster → VaultSpec → Labels
unfolding pod_host_names service_sub_domain generate_vault_tls_template generate_vault_ca_template
    generate_vault_tls_certificate_template
tls_annotations cluster vault =
    let path = vault.tls.pki_issuer_path in
    let common_name =
      (if vault.tls.common_name == "" then service_sub_domain cluster else vault.tls.common_name) in
    let hosts = pod_host_names cluster in
    let alt_names =
      (if vault.tls.alt_names == "" then hosts else hosts <> "," <> vault.tls.alt_names) in
    file_annotations "tls.crt" path
      (generate_vault_tls_certificate_template common_name alt_names vault)
    ++ file_annotations "tls.key" path
        (generate_vault_tls_template common_name alt_names path vault.tls.ip_sans "private_key")
    ++ file_annotations "ca.crt" path (generate_vault_ca_template common_name alt_names vault)

unfoldable pub append_vault_annotations : Labels → RabbitmqCluster → VaultSpec → Labels
unfolding reconcile_annotations tls_annotations default_user_secret_enabled vault_spec_tls_enabled
append_vault_annotations current cluster vault =
    let vault_annotations =
      (("vault.hashicorp.com/agent-inject", "true")
        ∷ ("vault.hashicorp.com/agent-init-first", "true")
        ∷ ("vault.hashicorp.com/role", vault.role)
        ∷ [])
      ++ (if default_user_secret_enabled vault then default_user_annotations vault else [])
      ++ (if vault_spec_tls_enabled vault then tls_annotations cluster vault else []) in
    reconcile_annotations current (vault_annotations ∷ vault.annotations ∷ [])
