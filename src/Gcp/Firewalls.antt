-- ===== src/Gcp/Firewalls.antt =====
-- virtualmachine/gcp: AddEndpoints and RemoveEndpoints of vm.go, with the firewall rules of util.go. A
-- slice that the loops change in place is the entries in front of the index and those from it on.
pub mod Removal
use libretto.Base.{
  String, Bool, true, false, none, some, List, [], ◌∷◌, ◌++◌, ◌==◌, ◌||◌, ◌&&◌, if◌then◌else◌,
  lookup,
}
use libretto.Go.Action.{◌>>=◌, ◌>>◌, get, request}
use libretto.Gcp.Types.{Endpoint}
use libretto.Gcp.Api.{Cloud, query, patch_firewall, Allowed, Method, Nothing}
use libretto.Gcp.Service.{get_service, change_project}

unfoldable pub member : String → List String → Bool
member port [] = false
member port (p ∷ ports) = (p == port) || member port ports

-- remPorts: the ports of each protocol, in a map that the loop on the endpoints fills.
abbrev pub Ports : Type 0
Ports = List (String × List String)

-- `remPorts[protocol][port] = true` for the ports of an endpoint; a new protocol gets a map first.
unfoldable pub record_ports : String → List String → Ports → Ports
record_ports protocol ports [] = (protocol, ports) ∷ []
record_ports protocol ports ((p, old) ∷ rest) =
    let more = record_ports protocol ports rest in
    if p == protocol then (p, ports ++ old) ∷ rest else (p, old) ∷ more

unfoldable pub rem_ports : List Endpoint → Ports → Ports
unfolding record_ports
rem_ports [] m = m
rem_ports (endpoint ∷ endpoints) m =
    rem_ports endpoints (record_ports endpoint.protocol endpoint.ports m)

-- `remPorts[protocol][port]`; a missing key is false.
unfoldable pub is_removed : Ports → String → String → Bool
unfolding member
is_removed m protocol port = elim (lookup protocol m) [
  | none ↦ false
  | some ports ↦ member port ports
]

-- The inner loop: `front` are Ports[:indPort], and the index stays where a port is removed.
unfoldable pub port_loop : Ports → String → List String → List String → List String
unfolding is_removed
port_loop m protocol front [] = front
port_loop m protocol front (port ∷ ports) = elim (is_removed m protocol port) [
  | true ↦ port_loop m protocol front ports
  | false ↦ port_loop m protocol (front ++ (port ∷ [])) ports
]

abbrev pub no_ports : List String → Bool
no_ports [] = true
no_ports (port ∷ ports) = false

-- The outer loop: `front` are newRules[:indexEndp].
unfoldable pub rule_loop : Ports → List Allowed → List Allowed → List Allowed
unfolding port_loop
rule_loop m front [] = front
rule_loop m front (allowed ∷ rules) =
    let ports = port_loop m allowed.ip_protocol [] allowed.ports in
    elim (no_ports ports) [
      | true ↦ rule_loop m front rules
      | false ↦ rule_loop m (front ++ (record allowed { ports = ports } ∷ [])) rules
    ]

abbrev pub rules_of : List Endpoint → List Allowed
rules_of [] = []
rules_of (endpoint ∷ endpoints) =
    record { ip_protocol = endpoint.protocol; ports = endpoint.ports } ∷ rules_of endpoints

module _ (svc : Cloud) where
  unfoldable pub get_firewall : Method (List Allowed)
  get_firewall = do
    vm ← get
    request (query "firewall" (vm.project ∷ vm.firewall ∷ [])) (λ log. svc.get_firewall log)

  unfoldable pub patch : List Allowed → Method Nothing
  unfolding change_project
  patch allowed = do vm ← get; change_project svc (vm.firewall ∷ []) (patch_firewall allowed)

  unfoldable pub add_firewall_rules : Method Nothing
  unfolding get_firewall patch
  add_firewall_rules = do current ← get_firewall; vm ← get; patch (current ++ rules_of vm.endpoints)

  unfoldable pub remove_firewall_rules : Method Nothing
  unfolding get_firewall rem_ports rule_loop patch
  remove_firewall_rules = do
    vm ← get
    firewall ← get_firewall
    patch (rule_loop (rem_ports vm.endpoints []) [] firewall)

  unfoldable pub add_endpoints : Method Nothing
  unfolding get_service add_firewall_rules
  add_endpoints = do get_service svc; add_firewall_rules

  unfoldable pub remove_endpoints : Method Nothing
  unfolding get_service remove_firewall_rules
  remove_endpoints = do get_service svc; remove_firewall_rules
