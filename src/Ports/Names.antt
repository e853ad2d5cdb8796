-- ===== src/Ports/Names.antt =====
-- The names of the ports of the client service of internal/constant/ports.go, for lookups by name.
use rabbitmq_operator.Prelude.{
  ℕ, String, Bool, true, false, ◌&&◌, Option, none, some, List, [], ◌∷◌, ◌≡◌, refl,
}
use rabbitmq_operator.Ports.{ServicePort, PortManager, client_service_ports}
use rabbitmq_operator.Ports.Laws.{
  both, all_choices, all_choices_sound, ports_for, ports_for_lem, with_plugins_all, and_left,
}
use rabbitmq_operator.Merge.Reference.{position, IsUnique}

abbrev pub port_name : ServicePort → String
port_name port = port.name

abbrev absent : Option ℕ → Bool
absent none = true
absent (some _) = false

absent-none : (o : Option ℕ) → absent o ≡ true → o ≡ none
absent-none none e = refl
absent-none (some p) e = cc

unique_names : List ServicePort → Bool
unfolding position
unique_names [] = true
unique_names (p ∷ ports) = absent (position port_name p.name ports) && unique_names ports

unique_names_sound :
    (ports : List ServicePort) → unique_names ports ≡ true → IsUnique port_name ports
unfolding unique_names
unique_names_sound [] e = tt
unique_names_sound (p ∷ ports) e =
    let (here, behind) = and_left (absent (position port_name p.name ports)) _ e in
    (absent-none _ here, unique_names_sound ports behind)

names_ok : Bool → Bool → Bool → Bool → Bool → Bool → Bool → Bool → Bool
unfolding unique_names position
names_ok a b c d e f g h =
    unique_names (ports_for a b c d e f g h)
    && absent (position port_name "web-mqtt-tls" (ports_for a b false d e f g h))

all_names_ok : all_choices names_ok ≡ true
unfolding both names_ok
all_names_ok = refl

names_hold :
    (a b c d e f g h : Bool)
    → (IsUnique port_name (ports_for a b c d e f g h))
      × (position port_name "web-mqtt-tls" (ports_for a b false d e f g h) ≡ none)
unfolding names_ok
names_hold a b c d e f g h =
    let (u, v) =
      and_left (unique_names (ports_for a b c d e f g h)) _
        (all_choices_sound names_ok a b c d e f g h all_names_ok) in
    (unique_names_sound (ports_for a b c d e f g h) u, absent-none _ v)

pub client_service_ports-IsUnique : (m : PortManager) → IsUnique port_name (client_service_ports m)
client_service_ports-IsUnique m = rw ports_for_lem (
    with_plugins_all m
      (λ d e f g h.
        IsUnique port_name (ports_for m.enable_tls m.disable_non_tls m.enable_mutual_tls d e f g h))
      λ d e f g h. (names_hold m.enable_tls m.disable_non_tls m.enable_mutual_tls d e f g h).0)

pub client_service_ports_web_mqtt :
    (m : PortManager)
    → m.enable_mutual_tls ≡ false
    → position port_name "web-mqtt-tls" (client_service_ports m) ≡ none
client_service_ports_web_mqtt m off = rw ports_for_lem (
    simp (off) (
      with_plugins_all m
        (λ d e f g h.
          position port_name "web-mqtt-tls"
            (ports_for m.enable_tls m.disable_non_tls false d e f g h)
          ≡ none)
        λ d e f g h. (names_hold m.enable_tls m.disable_non_tls true d e f g h).1))
