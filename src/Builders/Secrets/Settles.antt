-- ===== src/Builders/Secrets/Settles.antt =====
-- A second update of the entries of the secret of internal/resource/default_user_secret.go.
use rabbitmq_operator.Prelude.{
  String, false, some, Map, lookup, lookup-insert, insert-lookup, delete-lookup, ◌==◌, ◌≡◌, refl,
  sym, ap, ◌∙◌, Bool-cases, inl, inr,
}
use rabbitmq_operator.Cluster.{RabbitmqCluster, additional_plugin_enabled}
use rabbitmq_operator.Builders.Secrets.{update_port_entry, update_ports, update_connection_string}
use rabbitmq_operator.Builders.Secrets.Laws.{
  port_value, lookup-update_ports, entries_of, lookup-entries_of, scheme, joined, text_of,
}

update_port_entry_settled :
    (c : RabbitmqCluster) (plugin name port tls_port : String) (entries : Map String)
    → lookup name entries ≡ port_value c plugin port tls_port
    → update_port_entry c plugin name port tls_port entries ≡ entries
unfolding update_port_entry
update_port_entry_settled c plugin name port tls_port entries h =
    elim (Bool-cases (additional_plugin_enabled c plugin)) [
      | inl q ↦ rw q (insert-lookup name _ entries (simp (q) at h))
      | inr q ↦ rw q (delete-lookup name entries (simp (q) at h))
    ]

module _ (c : RabbitmqCluster) (entries : Map String) where
  abbrev once : Map String
  once = entries_of c entries

  -- An entry that the connection string does not touch.
  port_of :
      (k : String)
      → ("connection_string" == k) ≡ false
      → lookup k once ≡ lookup k (update_ports c entries)
  port_of k other = lookup-entries_of c k entries other

  update_ports_settled : update_ports c once ≡ once
  unfolding update_ports
  update_ports_settled =
      rw (insert-lookup "port" _ once (port_of "port" refl ∙ lookup-update_ports c "port" entries))
        (rw
          (update_port_entry_settled c "rabbitmq_mqtt" "mqtt-port" "1883" "8883" once
            (port_of "mqtt-port" refl ∙ lookup-update_ports c "mqtt-port" entries))
          (rw
            (update_port_entry_settled c "rabbitmq_stomp" "stomp-port" "61613" "61614" once
              (port_of "stomp-port" refl ∙ lookup-update_ports c "stomp-port" entries))
            (rw
              (update_port_entry_settled c "rabbitmq_stream" "stream-port" "5552" "5551" once
                (port_of "stream-port" refl ∙ lookup-update_ports c "stream-port" entries))
              (rw
                (update_port_entry_settled c "rabbitmq_web_mqtt" "web-mqtt-port" "15675" "15676"
                  once
                  (port_of "web-mqtt-port" refl ∙ lookup-update_ports c "web-mqtt-port" entries))
                (update_port_entry_settled c "rabbitmq_web_stomp" "web-stomp-port" "15674" "15673"
                  once
                  (port_of "web-stomp-port" refl
                    ∙ lookup-update_ports c "web-stomp-port" entries))))))

  connection_settled : update_connection_string c once ≡ once
  unfolding update_connection_string
  connection_settled = insert-lookup "connection_string" _ once (
      lookup-insert "connection_string" "connection_string" _ (update_ports c entries)
      ∙ ap some (
          joined (scheme c) (text_of (sym (port_of "username" refl)))
            (text_of (sym (port_of "password" refl))) (text_of (sym (port_of "host" refl)))
            (text_of (sym (port_of "port" refl)))))

  -- What an update leaves of the entries, a second one leaves as it is.
  pub entries_of_settled : entries_of c once ≡ once
  entries_of_settled = ap (update_connection_string c) update_ports_settled ∙ connection_settled
